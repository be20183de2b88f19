-- ===== src/Node/RoutePolicy/Match.antt =====
-- `match_route_policy_target` of node-core/src/route_policy.rs against a description of the rules that
-- permit a target.
use cll.Base.{
  ℕ, ◌≡◌, refl, ◌↔◌, ◌≤◌, ◌⊎◌, inl, inr, Bool, true, false, Option, none, some, List, [], ◌∷◌,
  arith, any, is_empty, Bool-cases, All, ◌&&◌, leb, not, sym, ap, ◌∙◌,
}
use cll.Base.Outcome.{ok, err}
use cll.Text.{Text, trim, to_ascii_lowercase, eq_ignore_ascii_case}
use cll.Text.Equality.{text_eq_iff, text_eq_refl}
use cll.Node.Code.{Code}
use cll.Node.RoutePolicy.{
  PortRange, RouteTarget, RoutePolicy, SessionDataTarget, TargetMatch, target_matches_host,
  other_target_id, in_ports, match_rules, target_protocol, match_route_policy_target, udp_or_tcp,
}
use cll.Node.RoutePolicy.Host.{HostAllowed, target_matches_host_iff}

-- A range of ports that takes the protocol and the port.
abbrev pub PortAllowed : PortRange → Text → ℕ → Type 0
PortAllowed range protocol port =
    (eq_ignore_ascii_case range.protocol protocol ≡ true) × (range.from ≤ port) × (port ≤ range.to)

abbrev pub Any : {A : Type 0} → (A → Type 0) → List A → Type 0
Any P [] = ⊥
Any P (x ∷ xs) = P x ⊎ Any P xs

-- A rule permits a target: the id it asks for, if any, is the rule's; one range takes its port; and
-- its host is allowed.
pub record Permits (rule : RouteTarget) (protocol : Text) (target : SessionDataTarget)
    : Type 0 where
  pub id_fits : (target.target_id ≡ none) ⊎ (target.target_id ≡ some rule.target_id)
  pub port_fits : Any (λ range. PortAllowed range protocol target.port) rule.ports
  pub nonempty : is_empty (trim target.host) ≡ false
  pub host_fits : HostAllowed (to_ascii_lowercase rule.host_type) rule target (trim target.host)

any_port_iff :
    (ranges : List PortRange) (protocol : Text) (port : ℕ)
    → (any
          (λ range.
            eq_ignore_ascii_case range.protocol protocol
            && leb range.from port
            && leb port range.to)
          ranges
        ≡ true)
      ↔ Any (λ range. PortAllowed range protocol port) ranges
any_port_iff [] protocol port = ground arith
any_port_iff (r ∷ rs) protocol port = ground (arith, any_port_iff rs protocol port)

-- The three tests of the loop, as one.
abbrev tests : RouteTarget → Text → SessionDataTarget → Bool
tests rule protocol target =
    not (other_target_id rule target)
    && in_ports rule protocol target.port
    && target_matches_host rule target

id_iff :
    (rule : RouteTarget) (target : SessionDataTarget)
    → (other_target_id rule target ≡ false)
      ↔ ((target.target_id ≡ none) ⊎ (target.target_id ≡ some rule.target_id))
unfolding other_target_id
id_iff rule target = (to target.target_id refl, from)
  where
    to :
        (o : Option Text)
        → target.target_id ≡ o
        → other_target_id rule target ≡ false
        → (target.target_id ≡ none) ⊎ (target.target_id ≡ some rule.target_id)
    to none e h = inl e
    to (some t) e h = inr (ground (arith, text_eq_iff rule.target_id t))

    from :
        (target.target_id ≡ none) ⊎ (target.target_id ≡ some rule.target_id)
        → other_target_id rule target ≡ false
    from h = ground (arith, text_eq_refl rule.target_id)

tests_iff :
    (rule : RouteTarget) (protocol : Text) (target : SessionDataTarget)
    → (tests rule protocol target ≡ true) ↔ Permits rule protocol target
unfolding in_ports
tests_iff rule protocol target = (
  λ h. record {
    id_fits = (id_iff rule target).0 (ground arith);
    port_fits = (any_port_iff rule.ports protocol target.port).0 (ground arith);
    nonempty = ((target_matches_host_iff rule target).0 (ground arith)).0;
    host_fits = ((target_matches_host_iff rule target).0 (ground arith)).1;
  },
  λ p.
      let a : other_target_id rule target ≡ false = (id_iff rule target).1 p.id_fits in
      let b = (any_port_iff rule.ports protocol target.port).1 p.port_fits in
      let c : target_matches_host rule target ≡ true =
        (target_matches_host_iff rule target).1 (p.nonempty, p.host_fits) in
      rw (a, b, c),
)

tests-refused :
    (rule : RouteTarget) (protocol : Text) (target : SessionDataTarget)
    → ¬ Permits rule protocol target
    → tests rule protocol target ≡ false
tests-refused rule protocol target n = elim (Bool-cases (tests rule protocol target)) [
  | inl t ↦ absurd (n ((tests_iff rule protocol target).0 t))
  | inr f ↦ f
]

-- The first rule of the list that permits the target is the one that the match names.
pub data FirstPermitted (policy : RoutePolicy) (protocol : Text) (target : SessionDataTarget)
    (m : TargetMatch) : List RouteTarget → Type 0 where
  here :
      {rule : RouteTarget} {rules : List RouteTarget}
      → Permits rule protocol target
      → m.target_id ≡ rule.target_id
      → m.policy_id ≡ policy.policy_id
      → FirstPermitted policy protocol target m (rule ∷ rules)
  later :
      {rule : RouteTarget} {rules : List RouteTarget}
      → ¬ Permits rule protocol target
      → FirstPermitted policy protocol target m rules
      → FirstPermitted policy protocol target m (rule ∷ rules)

module _ (policy : RoutePolicy) (protocol : Text) (target : SessionDataTarget) where
  match_rules-taken :
      (rule : RouteTarget) (rules : List RouteTarget)
      → tests rule protocol target ≡ true
      → match_rules policy protocol target (rule ∷ rules)
        ≡ ok (record { target_id = rule.target_id; policy_id = policy.policy_id })
  unfolding match_rules
  match_rules-taken rule rules h = ground arith

  match_rules-skipped :
      (rule : RouteTarget) (rules : List RouteTarget)
      → tests rule protocol target ≡ false
      → match_rules policy protocol target (rule ∷ rules) ≡ match_rules policy protocol target rules
  unfolding match_rules
  match_rules-skipped rule rules h = ground arith

  match_rules_sound :
      (rules : List RouteTarget) (m : TargetMatch)
      → match_rules policy protocol target rules ≡ ok m
      → FirstPermitted policy protocol target m rules
  match_rules_sound [] m h = unfold match_rules in cc
  match_rules_sound (rule ∷ rules) m h = elim (Bool-cases (tests rule protocol target)) [
    | inl t ↦
        here ((tests_iff rule protocol target).0 t) (ground (arith, match_rules-taken rule rules t))
          (ground (arith, match_rules-taken rule rules t))
    | inr f ↦
        later (λ p. cc ((tests_iff rule protocol target).1 p))
          (match_rules_sound rules m (sym (match_rules-skipped rule rules f) ∙ h))
  ]

  match_rules_complete :
      (m : TargetMatch) {rules : List RouteTarget}
      → FirstPermitted policy protocol target m rules
      → match_rules policy protocol target rules ≡ ok m
  match_rules_complete m (here {rule = r} {rules = rs} p i j) =
      ground (arith, match_rules-taken r rs ((tests_iff r protocol target).1 p))
  match_rules_complete m (later {rule = r} {rules = rs} n f) =
      match_rules-skipped r rs (tests-refused r protocol target n) ∙ match_rules_complete m f

  match_rules-err :
      (rules : List RouteTarget) (c : Code)
      → match_rules policy protocol target rules ≡ err c
      → (c ≡ Code.target_not_allowed) × All (λ rule. ¬ Permits rule protocol target) rules
  match_rules-err [] c h = (unfold match_rules in cc, tt)
  match_rules-err (rule ∷ rules) c h = elim (Bool-cases (tests rule protocol target)) [
    | inl t ↦ absurd (cc (match_rules-taken rule rules t, h))
    | inr f ↦
        let (code, others) = match_rules-err rules c (sym (match_rules-skipped rule rules f) ∙ h) in
        (code, ((λ p. cc ((tests_iff rule protocol target).1 p, f)), others))
  ]

  match_rules-none :
      (rules : List RouteTarget)
      → All (λ rule. ¬ Permits rule protocol target) rules
      → match_rules policy protocol target rules ≡ err Code.target_not_allowed
  match_rules-none [] h = unfold match_rules in refl
  match_rules-none (rule ∷ rules) (n, h) =
      match_rules-skipped rule rules (tests-refused rule protocol target n)
      ∙ match_rules-none rules h

-- The match succeeds with `m` exactly when the target's protocol is udp or tcp, and `m` names the
-- first rule of the policy that permits the target, and the policy.
pub match_route_policy_target-ok_iff :
    (policy : RoutePolicy) (target : SessionDataTarget) (m : TargetMatch)
    → (match_route_policy_target policy target ≡ ok m) ↔ (
        (udp_or_tcp (target_protocol policy target) ≡ true)
        × FirstPermitted policy (target_protocol policy target) target m policy.targets)
unfolding match_route_policy_target
match_route_policy_target-ok_iff policy target m =
    let protocol = target_protocol policy target in
    elim (Bool-cases (udp_or_tcp protocol)) [
      | inl u ↦ rw u (
        (λ h. (refl, match_rules_sound policy protocol target policy.targets m h)),
        (λ h. match_rules_complete policy protocol target m h.1),
      )
      | inr u ↦ rw u ((λ h. absurd (cc)), (λ h. absurd (cc (h.0))))
    ]

-- It fails only in two ways: with `target_protocol_unsupported` when the protocol is neither udp
-- nor tcp, and with `target_not_allowed` when the protocol is one of them and no rule of the policy
-- permits the target.
pub match_route_policy_target-err_iff :
    (policy : RoutePolicy) (target : SessionDataTarget) (c : Code)
    → (match_route_policy_target policy target ≡ err c) ↔ (
        ((udp_or_tcp (target_protocol policy target) ≡ false)
          × (c ≡ Code.target_protocol_unsupported))
        ⊎ ((udp_or_tcp (target_protocol policy target) ≡ true)
            × (c ≡ Code.target_not_allowed)
            × All (λ rule. ¬ Permits rule (target_protocol policy target) target) policy.targets))
unfolding match_route_policy_target
match_route_policy_target-err_iff policy target c =
    let protocol = target_protocol policy target in
    elim (Bool-cases (udp_or_tcp protocol)) [
      | inl u ↦ rw u (
        (λ h.
            let (code, others) = match_rules-err policy protocol target policy.targets c h in
            inr (refl, code, others)),
        (λ h. elim h [
          | inl (f, _) ↦ absurd (cc (f))
          | inr (_, e, n) ↦
              rw (match_rules-none policy protocol target policy.targets n) (ap err (sym e))
        ]),
      )
      | inr u ↦ rw u (
        (λ h. inl (refl, cc)),
        (λ h. elim h [ inl (_, e) ↦ ap err (sym e) | inr (f, _, _) ↦ absurd (cc (f)) ]),
      )
    ]
