-- ===== src/Control/Policy.antt =====
-- control-api/src/main.rs: the route policies that the control plane accepts and signs. Its structs
-- of a policy have the fields and the JSON of the node's, which stand for both.
pub mod WellFormed
pub mod Binding
use cll.Base.{
  ℕ, suc, ◌+◌, Bool, true, false, ◌&&◌, ◌||◌, Option, none, some, List, [], ◌∷◌, ltb, leb, ◌==◌,
  not, is_empty, length, any, if◌then◌else◌,
}
use cll.Base.Outcome.{Result, ok, err, ◌>>=◌, ◌>>◌, bail_if, ok_or}
use cll.Control.Error.{
  AppError, Field, policy_id_field, mode_field, target_id_field, host_type_field, host_field,
  field_required, field_too_long, invalid_route_policy, not_encoded, version_not_positive,
  mode_not_dynamic, default_protocol_unknown, targets_empty, targets_too_many,
  host_type_unsupported, ports_empty, ports_too_many, port_protocol_unknown, port_range_invalid,
}
use cll.Text.{Text, bytes, text_eq, trim, to_ascii_lowercase}
use cll.Text.Chars.{count_chars}
use cll.Node.Platform.{Platform, hash_route_policy}
use cll.Node.RoutePolicy.{RoutePolicy, RouteTarget, PortRange, is_some_and, udp_or_tcp}

pub record RoutePolicyBinding : Type 0 where
  pub policy : RoutePolicy
  pub hash : Text

unfoldable pub normalize_required_text : Text → Field → ℕ → Result AppError Text
normalize_required_text value field max_len = do
  bail_if (is_empty (trim value)) (field_required field)
  bail_if (ltb max_len (count_chars (trim value))) (field_too_long field max_len)
  ok (trim value)

-- The body of the loop over the ports of a target.
unfoldable pub validate_port : PortRange → Result AppError PortRange
validate_port port = do
  let protocol = to_ascii_lowercase (trim port.protocol)
  bail_if (not (udp_or_tcp protocol)) (invalid_route_policy port_protocol_unknown)
  bail_if (port.from == 0 || port.to == 0 || ltb port.to port.from)
      (invalid_route_policy port_range_invalid)
  ok (record port { protocol = protocol })

-- A loop that changes each item, or ends with the first error.
abbrev pub each : {A : Type 0} → (A → Result AppError A) → List A → Result AppError (List A)
each f [] = ok []
each f (x ∷ xs) = do y ← f x; ys ← each f xs; ok (y ∷ ys)

abbrev pub host_types : List Text
host_types =
    bytes "domain"
    ∷ bytes "ipv4"
    ∷ bytes "ipv6"
    ∷ bytes "cidr"
    ∷ bytes "observed_ip"
    ∷ bytes "steam_sdr"
    ∷ bytes "any"
    ∷ []

unfoldable pub normalize_host : Option Text → Result AppError (Option Text)
normalize_host none = ok none
normalize_host (some host) = do text ← normalize_required_text host host_field 255; ok (some text)

-- The body of the loop over the targets.
unfoldable pub validate_target : RouteTarget → Result AppError RouteTarget
validate_target target = do
  target_id ← normalize_required_text target.target_id target_id_field 128
  host_type_text ← normalize_required_text target.host_type host_type_field 32
  let host_type = to_ascii_lowercase host_type_text
  bail_if (not (any (λ kind. text_eq host_type kind) host_types))
      (invalid_route_policy host_type_unsupported)
  host ← normalize_host target.host
  bail_if (is_empty target.ports) (invalid_route_policy ports_empty)
  bail_if (ltb 32 (length target.ports)) (invalid_route_policy ports_too_many)
  ports ← each validate_port target.ports
  ok (record target { target_id = target_id; host_type = host_type; host = host; ports = ports })

unfoldable pub normalize_protocol : Option Text → Result AppError (Option Text)
normalize_protocol none = ok none
normalize_protocol (some text) = do
  let protocol = to_ascii_lowercase (trim text)
  bail_if (not (udp_or_tcp protocol)) (invalid_route_policy default_protocol_unknown)
  ok (some protocol)

unfoldable pub validate_route_policy : Platform → RoutePolicy → Result AppError RoutePolicyBinding
validate_route_policy platform given = do
  policy_id ← normalize_required_text given.policy_id policy_id_field 128
  bail_if (given.policy_version == 0) (invalid_route_policy version_not_positive)
  mode_text ← normalize_required_text given.mode mode_field 32
  let mode = to_ascii_lowercase mode_text
  bail_if (not (text_eq mode (bytes "dynamic_targets"))) (invalid_route_policy mode_not_dynamic)
  default_protocol ← normalize_protocol given.default_protocol
  bail_if (is_empty given.targets) (invalid_route_policy targets_empty)
  bail_if (ltb 128 (length given.targets)) (invalid_route_policy targets_too_many)
  targets ← each validate_target given.targets
  let policy = record given {
    policy_id = policy_id;
    mode = mode;
    default_protocol = default_protocol;
    targets = targets;
  }
  hash ← ok_or (hash_route_policy platform policy) not_encoded
  ok (record { policy = policy; hash = hash })
