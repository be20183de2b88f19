-- ===== src/Control/Policy/Binding.antt =====
-- From `validate_route_policy` of control-api/src/main.rs to the node: the tokens for a bound policy,
-- and its targets.
use cll.Base.{
  ℕ, ◌≡◌, ◌≤◌, ◌⊎◌, inl, inr, refl, sym, subst, true, false, none, some, List, [], ◌∷◌, arith, All,
  is_empty,
}
use cll.Base.Outcome.{Result, ok, err}
use cll.Text.{Text, bytes, text_eq, trim, to_ascii_lowercase, eq_ignore_ascii_case}
use cll.Text.Equality.{text_eq_refl}
use cll.Control.Policy.{RoutePolicyBinding, validate_route_policy}
use cll.Control.Policy.WellFormed.{IsRule, IsRange, IsProtocol, validate_route_policy-IsAccepted}
use cll.Node.Auth.{ClientTokenClaims}
use cll.Node.Code.{Code}
use cll.Node.Platform.{Platform}
use cll.Node.Probe.{from_claims, identity_of}
use cll.Node.Probe.Policy.{signed_policy, from_claims-ok_iff}
use cll.Node.RoutePolicy.{
  RoutePolicy, RouteTarget, PortRange, SessionDataTarget, TargetMatch, match_route_policy_target,
  target_protocol, udp_or_tcp,
}
use cll.Node.RoutePolicy.Host.{named}
use cll.Node.RoutePolicy.Match.{Any, PortAllowed, Permits, match_route_policy_target-err_iff}

-- A policy that the control plane binds is accepted by the node, which has the same encoder and hash,
-- from a probe that brings it with a token for the hash and the id of the binding.
pub binding_accepted :
    (platform : Platform) (given : RoutePolicy) (binding : RoutePolicyBinding)
    (claims : ClientTokenClaims)
    → validate_route_policy platform given ≡ ok binding
    → claims.route_policy_hash ≡ some binding.hash
    → claims.route_policy_id ≡ some binding.policy.policy_id
    → from_claims platform claims (some binding.policy)
      ≡ ok (identity_of claims (some binding.policy))
binding_accepted platform given binding claims v h i =
    let (accepted, hashed) = validate_route_policy-IsAccepted platform given binding v in
    (from_claims-ok_iff platform claims (some binding.policy)
        (identity_of claims (some binding.policy))).1
      (
        refl,
        signed_policy binding.hash binding.policy h refl
            (record { hashed = hashed; named = inr i }),
      )

abbrev pub Mem : {A : Type 0} → A → List A → Type 0
Mem x = Any (λ y. y ≡ x)

All-Mem : {A : Type 0} (P : A → Type 0) (x : A) (xs : List A) → All P xs → Mem x xs → P x
All-Mem P x [] h m = absurd m
All-Mem P x (y ∷ ys) (p, h) (inl e) = subst P e p
All-Mem P x (y ∷ ys) (p, h) (inr m) = All-Mem P x ys h m

Any-Mem : {A : Type 0} (P : A → Type 0) (x : A) (xs : List A) → P x → Mem x xs → Any P xs
Any-Mem P x [] p m = m
Any-Mem P x (y ∷ ys) p (inl e) = inl (subst P (sym e) p)
Any-Mem P x (y ∷ ys) p (inr m) = inr (Any-Mem P x ys p m)

-- What a policy permits, it matches.
permitted_matches :
    (policy : RoutePolicy) (target : SessionDataTarget) (rule : RouteTarget)
    → udp_or_tcp (target_protocol policy target) ≡ true
    → Mem rule policy.targets
    → Permits rule (target_protocol policy target) target
    → (m : TargetMatch) × (match_route_policy_target policy target ≡ ok m)
permitted_matches policy target rule u r p = go (match_route_policy_target policy target) refl
  where
    go :
        (result : Result Code TargetMatch)
        → match_route_policy_target policy target ≡ result
        → (m : TargetMatch) × (match_route_policy_target policy target ≡ ok m)
    go (ok m) e = (m, e)
    go (err c) e = elim ((match_route_policy_target-err_iff policy target c).0 e) [
      | inl (n, _) ↦ absurd (cc)
      | inr (_, _, refused) ↦ absurd (All-Mem _ rule policy.targets refused r p)
    ]

-- A target that a rule lists: its host, and a port of one of its ranges.
abbrev pub listed : Text → PortRange → ℕ → SessionDataTarget
listed host range port = record {
  target_id = none;
  protocol = some range.protocol;
  host = host;
  port = port;
  original_domain = none;
}

protocol_kept :
    (policy : RoutePolicy) (host : Text) (range : PortRange) (port : ℕ)
    → IsProtocol range.protocol
    → target_protocol policy (listed host range port) ≡ range.protocol
unfolding target_protocol to_ascii_lowercase
protocol_kept policy host range port (inl e) = rw e refl
protocol_kept policy host range port (inr e) = rw e refl

-- The host types that look at the rule's own host.
abbrev pub LooksAtHost : Text → Type 0
LooksAtHost kind =
    (kind ≡ bytes "domain")
    ⊎ ((kind ≡ bytes "ipv4") ⊎ ((kind ≡ bytes "ipv6") ⊎ (kind ≡ bytes "steam_sdr")))

lower_kind : (kind : Text) → LooksAtHost kind → LooksAtHost (to_ascii_lowercase kind)
unfolding to_ascii_lowercase
lower_kind kind (inl e) = inl (rw e refl)
lower_kind kind (inr (inl e)) = inr (inl (rw e refl))
lower_kind kind (inr (inr (inl e))) = inr (inr (inl (rw e refl)))
lower_kind kind (inr (inr (inr e))) = inr (inr (inr (rw e refl)))

known_protocol : (protocol : Text) → IsProtocol protocol → udp_or_tcp protocol ≡ true
known_protocol protocol h = ground (arith, text_eq_refl protocol)

same_protocol :
    (protocol lower : Text) → lower ≡ protocol → eq_ignore_ascii_case protocol lower ≡ true
unfolding eq_ignore_ascii_case
same_protocol protocol lower e = rw e (text_eq_refl (to_ascii_lowercase protocol))

same_host : (host : Text) → trim host ≡ host → eq_ignore_ascii_case (trim host) host ≡ true
unfolding eq_ignore_ascii_case
same_host host plain =
    subst (λ t. text_eq (to_ascii_lowercase t) (to_ascii_lowercase host) ≡ true) (sym plain)
      (text_eq_refl (to_ascii_lowercase host))

host_given :
    (rule : RouteTarget) (host : Text) → IsRule rule → rule.host ≡ some host → is_empty host ≡ false
host_given rule host is_rule e = elim is_rule.host [
  | inl n ↦ absurd (cc)
  | inr (text, f, field) ↦
      let same : text ≡ host = cc in subst (λ t. is_empty t ≡ false) same field.present
]

-- Every target that a bound policy lists is one that the node matches: a host without white space
-- around it, of a rule whose type looks at its own host, on any port of any of the rule's ranges.
pub listed_matches :
    (platform : Platform) (given : RoutePolicy) (binding : RoutePolicyBinding) (rule : RouteTarget)
    (range : PortRange) (host : Text) (port : ℕ)
    → validate_route_policy platform given ≡ ok binding
    → Mem rule binding.policy.targets
    → Mem range rule.ports
    → rule.host ≡ some host
    → trim host ≡ host
    → LooksAtHost rule.host_type
    → range.from ≤ port
    → port ≤ range.to
    → (m : TargetMatch) × (match_route_policy_target binding.policy (listed host range port) ≡ ok m)
listed_matches platform given binding rule range host port v r g e plain kind low high =
    let (accepted, _) = validate_route_policy-IsAccepted platform given binding v in
    let is_rule = All-Mem IsRule rule binding.policy.targets accepted.rules r in
    let is_range = All-Mem IsRange range rule.ports is_rule.ranges g in
    let kept = protocol_kept binding.policy host range port is_range.protocol in
    permitted_matches binding.policy (listed host range port) rule
      (rw kept (known_protocol range.protocol is_range.protocol)) r
      (record {
        id_fits = inl refl;
        port_fits =
            Any-Mem (λ x. PortAllowed x _ port) range rule.ports
              (same_protocol range.protocol _ kept, low, high) g;
        nonempty = rw plain (host_given rule host is_rule e);
        host_fits = named host (lower_kind rule.host_type kind) e (same_host host plain);
      })
