-- ===== src/Control/Intent.antt =====
-- The requests for connect intents of control-api/src/main.rs: their validation, and the route of a
-- ticket for one session.
pub mod Checks
pub mod Route
use cll.Base.{
  ℕ, ◌^◌, Bool, true, false, ◌&&◌, ◌||◌, Option, none, some, List, [], ◌∷◌, ◌++◌, leb, ltb, ◌==◌,
  not, if◌then◌else◌,
}
use cll.Base.Outcome.{Result, ok, err, ◌>>=◌, ◌>>◌, bail_if, ok_or}
use cll.Text.{Text, bytes, text_eq, is_blank, trim_filter, to_ascii_lowercase, rsplit_once}
use cll.Net.{IpAddr, parse_ip, parse_below, v4, v6}
use cll.Control.Policy.{RoutePolicyBinding, normalize_required_text, validate_route_policy}
use cll.Node.RoutePolicy.{udp_or_tcp, is_none, unwrap_or, PortRange, RoutePolicy, RouteTarget}
use cll.Node.Auth.{BusinessAuthContext}
use cll.Control.Error.{
  invalid_ticket_protocol, invalid_node, invalid_port, optional_field, field_too_long,
  incomplete_accel_ticket, invalid_target_addr, no_target_for_protocol, bad_request, internal,
  invalid_route_policy, target_addr_field, AppError,
}
use cll.Net.Display.{decimal}
use cll.Node.Platform.{Platform}
use cll.Text.Chars.{count_chars}

pub record ConnectIntentRequest : Type 0 where
  pub user_id : ℕ
  pub device_id : Text
  pub game_id : ℕ
  pub game_key : Option Text
  pub region_id : Option ℕ
  pub platform : Option Text
  pub client_isp : Option Text
  pub client_ip : Option Text
  pub bandwidth_quality : Option Text

pub record BusinessConnectIntentRequest : Type 0 where
  pub request_id : Option Text
  pub entitlement_id : Option Text
  pub order_id : Option Text
  pub subscription_id : Option Text
  pub business_session_id : Option Text
  pub entitlement_verified : Option Bool
  pub device_verified : Option Bool
  pub entitlement_expires_at : Option ℕ
  pub risk_level : Option Text
  pub business_trace_id : Option Text
  pub user_id : ℕ
  pub device_id : Text
  pub game_id : ℕ
  pub game_key : Option Text
  pub region_id : Option ℕ
  pub node_id : Option ℕ
  pub target_addr : Option Text
  pub protocol : Option Text
  pub region_name : Option Text
  pub platform : Option Text
  pub client_isp : Option Text
  pub client_ip : Option Text
  pub bandwidth_quality : Option Text
  pub client_version : Option Text
  pub route_policy : Option RoutePolicy

pub record BusinessPerSessionRoute : Type 0 where
  pub node_id : ℕ
  pub target_addr : Text
  pub protocol : Text
  pub region_id : Option ℕ
  pub region_name : Option Text
  pub route_policy : Option RoutePolicyBinding

unfoldable pub to_connect_intent_request : BusinessConnectIntentRequest → ConnectIntentRequest
to_connect_intent_request request = record {
  user_id = request.user_id;
  device_id = request.device_id;
  game_id = request.game_id;
  game_key = trim_filter request.game_key;
  region_id = request.region_id;
  platform = request.platform;
  client_isp = request.client_isp;
  client_ip = request.client_ip;
  bandwidth_quality = request.bandwidth_quality;
}

unfoldable pub auth_context : BusinessConnectIntentRequest → BusinessAuthContext
auth_context request = record {
  entitlement_id = trim_filter request.entitlement_id;
  order_id = trim_filter request.order_id;
  subscription_id = trim_filter request.subscription_id;
  business_session_id = trim_filter request.business_session_id;
  entitlement_verified = unwrap_or request.entitlement_verified false;
  device_verified = unwrap_or request.device_verified false;
  entitlement_expires_at = request.entitlement_expires_at;
  risk_level = trim_filter request.risk_level;
  business_trace_id = trim_filter request.business_trace_id;
}

unfoldable pub normalize_optional_text : Option Text → ℕ → Result AppError (Option Text)
normalize_optional_text value max_len = elim (trim_filter value) [
  | none ↦ ok none
  | some text ↦
      if ltb max_len (count_chars text)
      then err (field_too_long optional_field max_len)
      else ok (some text)
]

unfoldable pub validate_target_addr : Text → Result AppError Text
unfolding normalize_required_text
validate_target_addr given = do
  value ← normalize_required_text given target_addr_field 255
  (host, port_text) ← ok_or (rsplit_once b':' value) (bad_request invalid_target_addr)
  bail_if (is_blank host) (bad_request invalid_target_addr)
  port ← ok_or (parse_below (2 ^ 32) port_text) (bad_request invalid_target_addr)
  bail_if (not (leb 1 port && leb port 65535)) (bad_request invalid_port)
  ok value

abbrev is_v6 : Option IpAddr → Bool
is_v6 (some (v6 n)) = true
is_v6 (some (v4 n)) = false
is_v6 none = false

unfoldable pub format_endpoint : Text → ℕ → Text
format_endpoint host port =
    if is_v6 (parse_ip host)
    then b'[' ∷ (host ++ (bytes "]:" ++ decimal port))
    else host ++ (b':' ∷ decimal port)

abbrev pub first : {A : Type 0} → List A → Option A
first [] = none
first (x ∷ xs) = some x

abbrev pub or : {A : Type 0} → Option A → Option A → Option A
or none b = b
or (some a) b = some a

-- The first port range for the protocol: `ports.iter().find(…)`.
unfoldable pub port_for : Text → List PortRange → Option PortRange
port_for protocol [] = none
port_for protocol (port ∷ ports) =
    if text_eq port.protocol protocol then some port else port_for protocol ports

-- The loop: the first target with a port for the protocol, and a host or a kind that needs none.
unfoldable pub representative_route_policy_target : List RouteTarget → Text → Result AppError Text
unfolding port_for format_endpoint
representative_route_policy_target [] protocol = err (invalid_route_policy no_target_for_protocol)
representative_route_policy_target (target ∷ targets) protocol =
    let rest = representative_route_policy_target targets protocol in
    elim (port_for protocol target.ports) [
      | none ↦ rest
      | some port ↦
          elim (or target.host (or (first target.resolved_ips) (first target.observed_ips))) [
            | some host ↦ validate_target_addr (format_endpoint host port.from)
            | none ↦
                if text_eq target.host_type (bytes "any")
                  || text_eq target.host_type (bytes "steam_sdr")
                then ok (bytes "0.0.0.0:" ++ decimal port.from)
                else rest
          ]
    ]

-- `.map(validate_route_policy).transpose()`.
unfoldable pub bound_policy :
    Platform → Option RoutePolicy → Result AppError (Option RoutePolicyBinding)
bound_policy platform none = ok none
bound_policy platform (some policy) = do
  binding ← validate_route_policy platform policy
  ok (some binding)

abbrev default_protocol_of : Option RoutePolicyBinding → Option Text
default_protocol_of none = none
default_protocol_of (some binding) = binding.policy.default_protocol

-- The target that the request gives, or one that stands for the policy.
unfoldable pub route_target : Option Text → Option RoutePolicyBinding → Text → Result AppError Text
route_target (some target_addr) policy protocol = validate_target_addr target_addr
route_target none none protocol = err internal
route_target none (some binding) protocol =
    representative_route_policy_target binding.policy.targets protocol

abbrev pub route_protocol : BusinessConnectIntentRequest → Option RoutePolicyBinding → Text
route_protocol request route_policy =
    to_ascii_lowercase (
      unwrap_or (or (trim_filter request.protocol) (default_protocol_of route_policy))
        (bytes "udp"))

-- What follows once there is a target or a policy.
unfoldable pub route_given :
    BusinessConnectIntentRequest
    → Option Text
    → Option RoutePolicyBinding
    → Result AppError BusinessPerSessionRoute
unfolding route_target normalize_optional_text
route_given request target_addr route_policy = do
  node_id ← ok_or request.node_id (bad_request incomplete_accel_ticket)
  bail_if (node_id == 0) (bad_request invalid_node)
  let protocol = route_protocol request route_policy
  bail_if (not (udp_or_tcp protocol)) (bad_request invalid_ticket_protocol)
  target ← route_target target_addr route_policy protocol
  region_name ← normalize_optional_text request.region_name 128
  ok (record {
    node_id = node_id;
    target_addr = target;
    protocol = protocol;
    region_id = request.region_id;
    region_name = region_name;
    route_policy = route_policy;
  })

unfoldable pub per_session_route :
    Platform → BusinessConnectIntentRequest → Result AppError (Option BusinessPerSessionRoute)
unfolding bound_policy route_given
per_session_route platform request = do
  route_policy ← bound_policy platform request.route_policy
  let target_addr = trim_filter request.target_addr
  if is_none target_addr && is_none route_policy
      then if not (is_none request.node_id)
          || (not (is_none request.protocol) || not (is_none request.region_name))
        then err (bad_request incomplete_accel_ticket)
        else ok none
      else (do route ← route_given request target_addr route_policy; ok (some route))
