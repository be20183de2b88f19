-- ===== src/Control/Policy/WellFormed.antt =====
-- `validate_route_policy` of control-api/src/main.rs against a description of well-formed policies.
use cll.Base.{
  not-false, ℕ, ◌≡◌, ◌≤◌, ◌⊎◌, inl, inr, refl, subst, true, false, not, Option, none, some, List,
  [], ◌∷◌, arith, All, length, is_empty, any, ltb, ◌==◌,
}
use cll.Base.Outcome.{
  ok_injective, Result, ok, bail_if, ok_or, >>=-eq-ok, ok_or-eq-ok, bail_if-eq-ok,
}
use cll.Text.{Text, bytes, text_eq, trim, to_ascii_lowercase}
use cll.Text.Equality.{text_eq_iff}
use cll.Text.Chars.{count_chars}
use cll.Control.Error.{
  Field, target_id_field, host_type_field, host_field, policy_id_field, mode_field, AppError,
}
use cll.Control.Policy.{
  RoutePolicyBinding, normalize_required_text, validate_port, each, host_types, normalize_host,
  validate_target, normalize_protocol, validate_route_policy,
}
use cll.Node.Platform.{Platform, hash_route_policy}
use cll.Node.RoutePolicy.{RoutePolicy, RouteTarget, PortRange, udp_or_tcp}

-- A text that is present and short.
pub record IsField (max_len : ℕ) (text : Text) : Type 0 where
  pub present : is_empty text ≡ false
  pub short : count_chars text ≤ max_len

abbrev pub IsProtocol : Text → Type 0
IsProtocol protocol = (protocol ≡ bytes "udp") ⊎ (protocol ≡ bytes "tcp")

pub record IsRange (range : PortRange) : Type 0 where
  pub protocol : IsProtocol range.protocol
  pub positive : 1 ≤ range.from
  pub ordered : range.from ≤ range.to

required_IsField :
    (value : Text) (field : Field) (max_len : ℕ) (text : Text)
    → normalize_required_text value field max_len ≡ ok text
    → IsField max_len text
unfolding normalize_required_text
required_IsField value field max_len text h = record {
  present = ground arith;
  short = ground arith;
}

IsProtocol-known : (text : Text) → udp_or_tcp text ≡ true → IsProtocol text
IsProtocol-known text h =
    ground (arith, text_eq_iff text (bytes "udp"), text_eq_iff text (bytes "tcp"))

validate_port-IsRange : (port range : PortRange) → validate_port port ≡ ok range → IsRange range
unfolding validate_port
validate_port-IsRange port range h = record {
  protocol = IsProtocol-known range.protocol (ground arith);
  positive = ground arith;
  ordered = ground arith;
}

module _ {A : Type 0} (P : A → Type 0) (f : A → Result AppError A)
    (each_P : (x y : A) → f x ≡ ok y → P y) where
  each-All : (xs ys : List A) → each f xs ≡ ok ys → All P ys × (length ys ≡ length xs)
  each-All [] ys h =
      let same : [] ≡ ys = cc in subst (λ t. All P t × (length t ≡ 0)) same (tt, refl)
  each-All (x ∷ xs) ys h =
      let (y, g, h1) = >>=-eq-ok (f x) _ h in
      let (zs, k, h2) = >>=-eq-ok (each f xs) _ h1 in
      let (rest, long) = each-All xs zs k in
      let same : y ∷ zs ≡ ys = cc in
      subst (λ t. All P t × (length t ≡ length (x ∷ xs))) same
        ((each_P x y g, rest), omega (arith, long))

-- A rule of a policy that was accepted.
pub record IsRule (rule : RouteTarget) : Type 0 where
  pub id : IsField 128 rule.target_id
  pub kind : any (λ kind. text_eq rule.host_type kind) host_types ≡ true
  pub host : (rule.host ≡ none) ⊎ ((text : Text) × (rule.host ≡ some text) × IsField 255 text)
  pub some_port : 1 ≤ length rule.ports
  pub few_ports : length rule.ports ≤ 32
  pub ranges : All IsRange rule.ports

normalize_host-IsField :
    (given host : Option Text)
    → normalize_host given ≡ ok host
    → (host ≡ none) ⊎ ((text : Text) × (host ≡ some text) × IsField 255 text)
unfolding normalize_host
normalize_host-IsField none host h = inl (cc)
normalize_host-IsField (some given) host h =
    let (text, r, h1) = >>=-eq-ok (normalize_required_text given host_field 255) _ h in
    inr (text, cc, required_IsField given host_field 255 text r)

not_above : (m n : ℕ) → ltb m n ≡ false → n ≤ m
not_above m n h = ground arith

some_item : {A : Type 0} (xs : List A) → is_empty xs ≡ false → 1 ≤ length xs
some_item [] h = absurd (cc)
some_item (x ∷ xs) h = omega arith

validate_target-IsRule :
    (target rule : RouteTarget) → validate_target target ≡ ok rule → IsRule rule
unfolding validate_target
validate_target-IsRule target rule h =
    let (id, i, h1) =
      >>=-eq-ok (normalize_required_text target.target_id target_id_field 128) _ h in
    let (kind, k, h2) =
      >>=-eq-ok (normalize_required_text target.host_type host_type_field 32) _ h1 in
    let known = any (λ t. text_eq (to_ascii_lowercase kind) t) host_types in
    let (_, c, h3) = >>=-eq-ok (bail_if (not known) _) _ h2 in
    let (host, n, h4) = >>=-eq-ok (normalize_host target.host) _ h3 in
    let (_, e, h5) = >>=-eq-ok (bail_if (is_empty target.ports) _) _ h4 in
    let (_, m, h6) = >>=-eq-ok (bail_if (ltb 32 (length target.ports)) _) _ h5 in
    let (ports, p, h7) = >>=-eq-ok (each validate_port target.ports) _ h6 in
    let (ranges, long) =
      each-All IsRange validate_port validate_port-IsRange target.ports ports p in
    let same : record target {
      target_id = id;
      host_type = to_ascii_lowercase kind;
      host = host;
      ports = ports;
    }
        ≡ rule =
      cc in
    subst IsRule same (record {
      id = required_IsField target.target_id target_id_field 128 id i;
      kind = not-false known (bail_if-eq-ok _ _ c);
      host = normalize_host-IsField target.host host n;
      some_port = omega (arith, long, some_item target.ports (bail_if-eq-ok _ _ e));
      few_ports = omega (arith, long, not_above 32 (length target.ports) (bail_if-eq-ok _ _ m));
      ranges = ranges;
    })

-- A policy that was accepted.
pub record IsAccepted (policy : RoutePolicy) : Type 0 where
  pub id : IsField 128 policy.policy_id
  pub version : 1 ≤ policy.policy_version
  pub mode : policy.mode ≡ bytes "dynamic_targets"
  pub protocol :
      (policy.default_protocol ≡ none)
      ⊎ ((protocol : Text) × (policy.default_protocol ≡ some protocol) × IsProtocol protocol)
  pub some_target : 1 ≤ length policy.targets
  pub few_targets : length policy.targets ≤ 128
  pub rules : All IsRule policy.targets

normalize_protocol-IsProtocol :
    (given protocol : Option Text)
    → normalize_protocol given ≡ ok protocol
    → (protocol ≡ none) ⊎ ((p : Text) × (protocol ≡ some p) × IsProtocol p)
unfolding normalize_protocol
normalize_protocol-IsProtocol none protocol h = inl (cc)
normalize_protocol-IsProtocol (some given) protocol h =
    let text = to_ascii_lowercase (trim given) in
    let (_, b, h1) = >>=-eq-ok (bail_if (not (udp_or_tcp text)) _) _ h in
    inr (text, cc, IsProtocol-known text (not-false (udp_or_tcp text) (bail_if-eq-ok _ _ b)))

positive : (n : ℕ) → (n == 0) ≡ false → 1 ≤ n
positive n h = ground arith

-- A policy that the control plane binds is well formed: its texts are present and short, its version
-- is positive, its protocols are udp or tcp, it has 1 to 128 rules of known kinds with 1 to 32 ranges
-- of ports each, and no range is empty or holds port 0. The hash is the one that a node computes.
pub validate_route_policy-IsAccepted :
    (platform : Platform) (given : RoutePolicy) (binding : RoutePolicyBinding)
    → validate_route_policy platform given ≡ ok binding
    → IsAccepted binding.policy × (hash_route_policy platform binding.policy ≡ some binding.hash)
unfolding validate_route_policy
validate_route_policy-IsAccepted platform given binding h =
    let (id, i, h1) = >>=-eq-ok (normalize_required_text given.policy_id policy_id_field 128) _ h in
    let (_, v, h2) = >>=-eq-ok (bail_if (given.policy_version == 0) _) _ h1 in
    let (mode, m, h3) = >>=-eq-ok (normalize_required_text given.mode mode_field 32) _ h2 in
    let dynamic = text_eq (to_ascii_lowercase mode) (bytes "dynamic_targets") in
    let (_, d, h4) = >>=-eq-ok (bail_if (not dynamic) _) _ h3 in
    let (protocol, p, h5) = >>=-eq-ok (normalize_protocol given.default_protocol) _ h4 in
    let (_, e, h6) = >>=-eq-ok (bail_if (is_empty given.targets) _) _ h5 in
    let (_, t, h7) = >>=-eq-ok (bail_if (ltb 128 (length given.targets)) _) _ h6 in
    let (targets, r, h8) = >>=-eq-ok (each validate_target given.targets) _ h7 in
    let (rules, long) =
      each-All IsRule validate_target validate_target-IsRule given.targets targets r in
    let policy : RoutePolicy = record given {
      policy_id = id;
      mode = to_ascii_lowercase mode;
      default_protocol = protocol;
      targets = targets;
    } in
    let (hash, k, h9) = >>=-eq-ok (ok_or (hash_route_policy platform policy) _) _ h8 in
    let bound : RoutePolicyBinding = record { policy = policy; hash = hash } in
    let same : bound ≡ binding = ok_injective h9 in
    subst (λ b. IsAccepted b.policy × (hash_route_policy platform b.policy ≡ some b.hash)) same
      (
        record {
          id = required_IsField given.policy_id policy_id_field 128 id i;
          version = positive given.policy_version (bail_if-eq-ok _ _ v);
          mode =
              (text_eq_iff (to_ascii_lowercase mode) (bytes "dynamic_targets")).0
                (not-false dynamic (bail_if-eq-ok _ _ d));
          protocol = normalize_protocol-IsProtocol given.default_protocol protocol p;
          some_target = omega (arith, long, some_item given.targets (bail_if-eq-ok _ _ e));
          few_targets =
              omega (arith, long, not_above 128 (length given.targets) (bail_if-eq-ok _ _ t));
          rules = rules;
        },
        ok_or-eq-ok _ _ k,
      )
