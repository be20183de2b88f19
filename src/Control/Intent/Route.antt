-- ===== src/Control/Intent/Route.antt =====
-- What `per_session_route` of control-api/src/main.rs answers.
use cll.Base.{
  leb, ◌^◌, [], none, ◌==◌, ◌&&◌, ◌||◌, Bool-cases, Option, not, ◌∙◌, ap, inr, inl, subst, is_empty,
  some, All, Option-cases, arith, ◌∷◌, ◌⊎◌, false, ◌++◌, ◌≡◌, List, ℕ, refl,
}
use cll.Node.Platform.{hash_route_policy, Platform}
use cll.Control.Policy.{validate_route_policy, RoutePolicyBinding, normalize_required_text}
use cll.Control.Intent.{
  normalize_optional_text, route_protocol, BusinessConnectIntentRequest, format_endpoint,
  bound_policy, first, per_session_route, route_given, route_target, or, port_for,
  BusinessPerSessionRoute, representative_route_policy_target, validate_target_addr,
}
use cll.Text.{text_eq, trim_filter, rsplit_once, trim, bytes, Text, is_blank}
use cll.Control.Error.{
  invalid_port, invalid_ticket_protocol, invalid_node, incomplete_accel_ticket, invalid_target_addr,
  bad_request, Field, target_addr_field,
}
use cll.Node.RoutePolicy.{is_none, RoutePolicy, udp_or_tcp, RouteTarget}
use cll.Base.Outcome.{ok_injective, bail_if-eq-ok, ◌>>=◌, bail_if, ok_or, >>=-eq-ok, ok}
use cll.Net.Display.{decimal}
use cll.Text.Plain.{trim-plain, All-map, All-append, IsPlain}
use cll.Text.Trim.{trim-trim}
use cll.Net.Decimal.{decimal-digits, IsDigit}
use cll.Text.Equality.{text_eq_iff}
use cll.Control.Policy.WellFormed.{validate_route_policy-IsAccepted}
use cll.Net.{parse_below}

-- A route that a ticket can name.
pub record IsRoute (platform : Platform) (route : BusinessPerSessionRoute) : Type 0 where
  pub target_present : is_blank route.target_addr ≡ false
  pub protocol_known : (route.protocol ≡ bytes "udp") ⊎ (route.protocol ≡ bytes "tcp")
  pub hashed :
      (binding : RoutePolicyBinding)
      → route.route_policy ≡ some binding
      → hash_route_policy platform binding.policy ≡ some binding.hash

required_present :
    (given : Text) (field : Field) (max_len : ℕ) (text : Text)
    → normalize_required_text given field max_len ≡ ok text
    → is_blank text ≡ false
unfolding normalize_required_text
required_present given field max_len text h =
    let e : trim given ≡ text = ground arith in
    let present : is_empty (trim given) ≡ false = ground arith in
    subst (λ x. is_blank x ≡ false) e (ap is_empty (trim-trim given) ∙ present)

target_addr_present :
    (given text : Text) → validate_target_addr given ≡ ok text → is_blank text ≡ false
unfolding validate_target_addr
target_addr_present given text h =
    let (value, e, h1) = >>=-eq-ok (normalize_required_text given target_addr_field 255) _ h in
    let (parts, e2, h2) =
      >>=-eq-ok (ok_or (rsplit_once b':' value) (bad_request invalid_target_addr)) _ h1 in
    let (_, e3, h3) =
      >>=-eq-ok (bail_if (is_blank parts.0) (bad_request invalid_target_addr)) _ h2 in
    let (port, e4, h4) =
      >>=-eq-ok (ok_or (parse_below (2 ^ 32) parts.1) (bad_request invalid_target_addr)) _ h3 in
    let (_, e5, h5) =
      >>=-eq-ok (bail_if (not (leb 1 port && leb port 65535)) (bad_request invalid_port)) _ h4 in
    let same : value ≡ text = ok_injective h5 in
    subst (λ x. is_blank x ≡ false) same (required_present given target_addr_field 255 value e)

any_address : (port : ℕ) → is_blank (bytes "0.0.0.0:" ++ decimal port) ≡ false
any_address port =
    let plain : All IsPlain (bytes "0.0.0.0:" ++ decimal port) =
      All-append IsPlain (bytes "0.0.0.0:") (decimal port) (omega arith)
        (All-map IsDigit IsPlain (λ c h. omega arith) (decimal port) (decimal-digits port)) in
    rw (trim-plain _ plain) refl

representative_present :
    (targets : List RouteTarget) (protocol text : Text)
    → representative_route_policy_target targets protocol ≡ ok text
    → is_blank text ≡ false
unfolding representative_route_policy_target
representative_present [] protocol text h = absurd (cc)
representative_present (target ∷ targets) protocol text h =
    let later = representative_present targets protocol text in
    elim (Option-cases (port_for protocol target.ports)) [
      | inl n ↦ later (ground arith)
      | inr (port, p) ↦
          elim (Option-cases
            (or target.host (or (first target.resolved_ips) (first target.observed_ips)))) [
              | inr (host, e) ↦
                  target_addr_present (format_endpoint host port.from) text (ground arith)
              | inl n ↦
                  elim (Bool-cases (
                    text_eq target.host_type (bytes "any")
                    || text_eq target.host_type (bytes "steam_sdr"))) [
                      | inl free ↦
                          let same : bytes "0.0.0.0:" ++ decimal port.from ≡ text = ground arith in
                          subst (λ x. is_blank x ≡ false) same (any_address port.from)
                      | inr fixed ↦ later (ground arith)
                    ]
            ]
    ]

route_target_present :
    (given : Option Text) (policy : Option RoutePolicyBinding) (protocol text : Text)
    → route_target given policy protocol ≡ ok text
    → is_blank text ≡ false
unfolding route_target
route_target_present (some given) policy protocol text h = target_addr_present given text h
route_target_present none none protocol text h = absurd (cc)
route_target_present none (some binding) protocol text h =
    representative_present binding.policy.targets protocol text h

bound_policy-hashed :
    (platform : Platform) (given : Option RoutePolicy) (policy : Option RoutePolicyBinding)
    → bound_policy platform given ≡ ok policy
    → (binding : RoutePolicyBinding) → policy ≡ some binding
    → hash_route_policy platform binding.policy ≡ some binding.hash
unfolding bound_policy
bound_policy-hashed platform none policy h binding e = absurd (cc)
bound_policy-hashed platform (some given) policy h binding e =
    let (bound, v, h1) = >>=-eq-ok (validate_route_policy platform given) _ h in
    let same : bound ≡ binding = cc in
    subst (λ b. hash_route_policy platform b.policy ≡ some b.hash) same
      (validate_route_policy-IsAccepted platform given bound v).1

known_protocol :
    (text : Text) → not (udp_or_tcp text) ≡ false → (text ≡ bytes "udp") ⊎ (text ≡ bytes "tcp")
known_protocol text h =
    ground (arith, text_eq_iff text (bytes "udp"), text_eq_iff text (bytes "tcp"))

route_given-IsRoute :
    (platform : Platform) (request : BusinessConnectIntentRequest) (given : Option Text)
    (policy : Option RoutePolicyBinding) (route : BusinessPerSessionRoute)
    → ((binding : RoutePolicyBinding)
        → policy ≡ some binding
        → hash_route_policy platform binding.policy ≡ some binding.hash)
    → route_given request given policy ≡ ok route
    → IsRoute platform route
unfolding route_given
route_given-IsRoute platform request given policy route hashed h =
    let protocol = route_protocol request policy in
    let (node_id, n, h1) =
      >>=-eq-ok (ok_or request.node_id (bad_request incomplete_accel_ticket)) _ h in
    let (_, z, h2) = >>=-eq-ok (bail_if (node_id == 0) (bad_request invalid_node)) _ h1 in
    let (_, b, h3) =
      >>=-eq-ok (bail_if (not (udp_or_tcp protocol)) (bad_request invalid_ticket_protocol)) _ h2 in
    let (target, t, h4) = >>=-eq-ok (route_target given policy protocol) _ h3 in
    let (region, r, h5) = >>=-eq-ok (normalize_optional_text request.region_name 128) _ h4 in
    let same : record {
      node_id = node_id;
      target_addr = target;
      protocol = protocol;
      region_id = request.region_id;
      region_name = region;
      route_policy = policy;
    }
        ≡ route =
      ok_injective h5 in
    subst (IsRoute platform) same (record {
      target_present = route_target_present given policy protocol target t;
      protocol_known = known_protocol protocol (bail_if-eq-ok _ _ b);
      hashed = hashed;
    })

-- A route that `per_session_route` answers has a target, a known protocol, and the hash that a node
-- computes of its policy.
pub per_session_route-IsRoute :
    (platform : Platform) (request : BusinessConnectIntentRequest) (route : BusinessPerSessionRoute)
    → per_session_route platform request ≡ ok (some route)
    → IsRoute platform route
unfolding per_session_route
per_session_route-IsRoute platform request route h =
    let given = trim_filter request.target_addr in
    let (policy, p, h1) = >>=-eq-ok (bound_policy platform request.route_policy) _ h in
    let hashed = bound_policy-hashed platform request.route_policy policy p in
    elim (Bool-cases (is_none given && is_none policy)) [
      | inl absent ↦ absurd (ground arith)
      | inr present ↦
          let h2 : (do route ← route_given request given policy; ok (some route))
              ≡ ok (some route) =
            ground arith in
          let (found, f, h3) = >>=-eq-ok (route_given request given policy) _ h2 in
          let same : found ≡ route = cc in
          subst (IsRoute platform) same
            (route_given-IsRoute platform request given policy found hashed f)
    ]
