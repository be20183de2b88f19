-- ===== src/Node/RoutePolicy/Host.antt =====
-- `target_matches_host` of node-core/src/route_policy.rs against a description of the hosts that a
-- rule allows.
use cll.Base.{
  ◌≡◌, ◌↔◌, ◌⊎◌, inl, inr, Bool, true, false, none, some, arith, any, is_empty, Bool-cases, ◌||◌,
  ◌&&◌,
}
use cll.Text.{Text, bytes, text_eq, trim, to_ascii_lowercase, eq_ignore_ascii_case}
use cll.Text.Equality.{text_eq_iff, text_eq_refl}
use cll.Node.RoutePolicy.{
  host_is, domain_is, is_none, RouteTarget, SessionDataTarget, contains_text, ip_in_cidr,
  host_type_matches, target_matches_host,
}

-- The reasons for which a rule of type `kind` allows `host`.
pub data HostAllowed (kind : Text) (rule : RouteTarget) (target : SessionDataTarget) (host : Text)
    : Type 0 where
  any_host : kind ≡ bytes "any" → HostAllowed kind rule target host
  named :
      (rule_host : Text)
      → (kind ≡ bytes "domain")
        ⊎ ((kind ≡ bytes "ipv4") ⊎ ((kind ≡ bytes "ipv6") ⊎ (kind ≡ bytes "steam_sdr")))
      → rule.host ≡ some rule_host
      → eq_ignore_ascii_case host rule_host ≡ true
      → HostAllowed kind rule target host
  original :
      (rule_host domain : Text)
      → kind ≡ bytes "domain"
      → rule.host ≡ some rule_host
      → target.original_domain ≡ some domain
      → eq_ignore_ascii_case domain rule_host ≡ true
      → HostAllowed kind rule target host
  resolved :
      (kind ≡ bytes "domain")
        ⊎ ((kind ≡ bytes "ipv4")
            ⊎ ((kind ≡ bytes "ipv6") ⊎ ((kind ≡ bytes "observed_ip") ⊎ (kind ≡ bytes "steam_sdr"))))
      → contains_text rule.resolved_ips host ≡ true
      → HostAllowed kind rule target host
  observed :
      (kind ≡ bytes "observed_ip") ⊎ (kind ≡ bytes "steam_sdr")
      → contains_text rule.observed_ips host ≡ true
      → HostAllowed kind rule target host
  in_cidr :
      (kind ≡ bytes "cidr") ⊎ (kind ≡ bytes "steam_sdr")
      → any (λ cidr. ip_in_cidr host cidr) rule.cidrs ≡ true
      → HostAllowed kind rule target host
  open_sdr :
      kind ≡ bytes "steam_sdr"
      → rule.host ≡ none
      → is_empty rule.resolved_ips ≡ true
      → is_empty rule.observed_ips ≡ true
      → is_empty rule.cidrs ≡ true
      → HostAllowed kind rule target host

module _ (kind : Text) (rule : RouteTarget) (target : SessionDataTarget) (host : Text) where
  host_type_matches_complete :
      HostAllowed kind rule target host → host_type_matches kind rule target host ≡ true
  unfolding host_type_matches text_eq
  host_type_matches_complete (any_host k) = rw k (ground arith)
  host_type_matches_complete (named h (inl k) e m) = rw k (ground arith)
  host_type_matches_complete (named h (inr (inl k)) e m) = rw k (ground arith)
  host_type_matches_complete (named h (inr (inr (inl k))) e m) = rw k (ground arith)
  host_type_matches_complete (named h (inr (inr (inr k))) e m) = rw k (ground arith)
  host_type_matches_complete (original h d k e o m) = rw k (ground arith)
  host_type_matches_complete (resolved (inl k) m) = rw k (ground arith)
  host_type_matches_complete (resolved (inr (inl k)) m) = rw k (ground arith)
  host_type_matches_complete (resolved (inr (inr (inl k))) m) = rw k (ground arith)
  host_type_matches_complete (resolved (inr (inr (inr (inl k)))) m) = rw k (ground arith)
  host_type_matches_complete (resolved (inr (inr (inr (inr k)))) m) = rw k (ground arith)
  host_type_matches_complete (observed (inl k) m) = rw k (ground arith)
  host_type_matches_complete (observed (inr k) m) = rw k (ground arith)
  host_type_matches_complete (in_cidr (inl k) m) = rw k (ground arith)
  host_type_matches_complete (in_cidr (inr k) m) = rw k (ground arith)
  host_type_matches_complete (open_sdr k h r o c) = rw k (ground arith)

  or_cases : (a b : Bool) → (a || b) ≡ true → (a ≡ true) ⊎ (b ≡ true)
  or_cases a b h = ground arith

  named_sound :
      (kind ≡ bytes "domain")
        ⊎ ((kind ≡ bytes "ipv4") ⊎ ((kind ≡ bytes "ipv6") ⊎ (kind ≡ bytes "steam_sdr")))
      → host_is rule host ≡ true
      → HostAllowed kind rule target host
  named_sound k h =
      let found : (r : Text) × (rule.host ≡ some r) × (eq_ignore_ascii_case host r ≡ true) =
        ground arith in
      named found.0 k found.1 found.2

  original_sound :
      kind ≡ bytes "domain" → domain_is rule target ≡ true → HostAllowed kind rule target host
  original_sound k h =
      let found : (r : Text) × (d : Text) × (rule.host ≡ some r)
          × (target.original_domain ≡ some d)
          × (eq_ignore_ascii_case d r ≡ true) =
        ground arith in
      original found.0 found.1 k found.2 found.3 found.4

  sdr_sound :
      kind ≡ bytes "steam_sdr"
      → (host_is rule host
          || contains_text rule.resolved_ips host
          || contains_text rule.observed_ips host
          || any (λ cidr. ip_in_cidr host cidr) rule.cidrs
          || (is_none rule.host
              && is_empty rule.resolved_ips
              && is_empty rule.observed_ips
              && is_empty rule.cidrs))
        ≡ true
      → HostAllowed kind rule target host
  sdr_sound k h = elim (or_cases _ _ h) [
    | inr unset ↦ open_sdr k (ground arith) (ground arith) (ground arith) (ground arith)
    | inl h3 ↦ elim (or_cases _ _ h3) [
      | inr c ↦ in_cidr (inr k) c
      | inl h2 ↦ elim (or_cases _ _ h2) [
        | inr o ↦ observed (inr k) o
        | inl h1 ↦ elim (or_cases _ _ h1) [
          | inr r ↦ resolved (inr (inr (inr (inr k)))) r
          | inl n ↦ named_sound (inr (inr (inr k))) n
        ]
      ]
    ]
  ]

  domain_sound :
      kind ≡ bytes "domain"
      → (host_is rule host || domain_is rule target || contains_text rule.resolved_ips host) ≡ true
      → HostAllowed kind rule target host
  domain_sound k h = elim (or_cases _ _ h) [
    | inr r ↦ resolved (inl k) r
    | inl h1 ↦ elim (or_cases _ _ h1) [ inr o ↦ original_sound k o | inl n ↦ named_sound (inl k) n ]
  ]

  -- An address rule names its host or resolves to it.
  address_sound :
      (kind ≡ bytes "ipv4") ⊎ (kind ≡ bytes "ipv6")
      → (host_is rule host || contains_text rule.resolved_ips host) ≡ true
      → HostAllowed kind rule target host
  address_sound (inl k) h = elim (or_cases _ _ h) [
    | inr r ↦ resolved (inr (inl k)) r
    | inl n ↦ named_sound (inr (inl k)) n
  ]
  address_sound (inr k) h = elim (or_cases _ _ h) [
    | inr r ↦ resolved (inr (inr (inl k))) r
    | inl n ↦ named_sound (inr (inr (inl k))) n
  ]

  observed_sound :
      kind ≡ bytes "observed_ip"
      → (contains_text rule.observed_ips host || contains_text rule.resolved_ips host) ≡ true
      → HostAllowed kind rule target host
  observed_sound k h = elim (or_cases _ _ h) [
    | inr r ↦ resolved (inr (inr (inr (inl k)))) r
    | inl o ↦ observed (inl k) o
  ]

  -- One test of the chain: the type is the literal, or the later tests decide.
  kind_is : (literal : Text) → (kind ≡ literal) ⊎ (text_eq kind literal ≡ false)
  kind_is literal = elim (Bool-cases (text_eq kind literal)) [
    | inl e ↦ inl ((text_eq_iff kind literal).0 e)
    | inr e ↦ inr e
  ]

  host_type_matches_sound :
      host_type_matches kind rule target host ≡ true → HostAllowed kind rule target host
  unfolding host_type_matches
  host_type_matches_sound h = elim (kind_is (bytes "any")) [
    | inl k ↦ any_host k
    | inr n1 ↦ elim (kind_is (bytes "domain")) [
      | inl k ↦ domain_sound k (ground (arith, text_eq_refl kind))
      | inr n2 ↦ elim (kind_is (bytes "ipv4")) [
        | inl k ↦ address_sound (inl k) (ground (arith, text_eq_refl kind))
        | inr n3 ↦ elim (kind_is (bytes "ipv6")) [
          | inl k ↦ address_sound (inr k) (ground (arith, text_eq_refl kind))
          | inr n4 ↦ elim (kind_is (bytes "observed_ip")) [
            | inl k ↦ observed_sound k (ground (arith, text_eq_refl kind))
            | inr n5 ↦ elim (kind_is (bytes "cidr")) [
              | inl k ↦ in_cidr (inl k) (ground (arith, text_eq_refl kind))
              | inr n6 ↦ elim (kind_is (bytes "steam_sdr")) [
                | inl k ↦ sdr_sound k (ground (arith, text_eq_refl kind))
                | inr n7 ↦ absurd (ground (arith, text_eq_refl kind))
              ]
            ]
          ]
        ]
      ]
    ]
  ]

-- A rule allows a target's host exactly for one of the reasons of `HostAllowed`, at the trimmed host
-- and the lower-case host type, and never an empty host.
pub target_matches_host_iff :
    (rule : RouteTarget) (target : SessionDataTarget)
    → (target_matches_host rule target ≡ true) ↔ (
        (is_empty (trim target.host) ≡ false)
        × HostAllowed (to_ascii_lowercase rule.host_type) rule target (trim target.host))
unfolding target_matches_host
target_matches_host_iff rule target = (
  λ h. (ground arith, host_type_matches_sound _ rule target _ (ground arith)),
  λ h. rw (h.0) (host_type_matches_complete _ rule target _ h.1),
)
