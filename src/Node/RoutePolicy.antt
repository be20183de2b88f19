-- ===== src/Node/RoutePolicy.antt =====
-- node-core/src/route_policy.rs: the dynamic route policy, and which targets it allows.
-- The hash of a policy stands on a JSON encoder, SHA-256 and base64, which are parameters of the
-- modules that use it.
pub mod Cidr
pub mod Host
pub mod Match
use cll.Base.{
  ℕ, ◌-◌, ◌*◌, ◌%◌, ◌^◌, Bool, true, false, ◌&&◌, ◌||◌, Option, none, some, List, [], ◌∷◌, leb,
  ◌==◌, if◌then◌else◌, not, any, is_empty, bit_and,
}
use cll.Base.Outcome.{Result, ok, err}
use cll.Text.{Text, bytes, text_eq, trim, to_ascii_lowercase, eq_ignore_ascii_case, split_once}
use cll.Net.{IpAddr, v4, v6, parse_ip, parse_u8}
use cll.Node.Code.{Code}

pub record PortRange : Type 0 where
  pub protocol : Text
  pub from : ℕ
  pub to : ℕ

pub record RouteTarget : Type 0 where
  pub target_id : Text
  pub purpose : Option Text
  pub host_type : Text
  pub host : Option Text
  pub resolved_ips : List Text
  pub observed_ips : List Text
  pub cidrs : List Text
  pub ports : List PortRange
  pub allow_client_observed_ip : Option Bool
  pub resolve_ttl_sec : Option ℕ
  pub required : Option Bool

-- `capture` is a JSON value that the node only hashes; it stands here as its text.
pub record RoutePolicy : Type 0 where
  pub policy_id : Text
  pub policy_version : ℕ
  pub mode : Text
  pub default_protocol : Option Text
  pub dns_strategy : Option Text
  pub targets : List RouteTarget
  pub capture : Option Text

pub record SessionDataTarget : Type 0 where
  pub target_id : Option Text
  pub protocol : Option Text
  pub host : Text
  pub port : ℕ
  pub original_domain : Option Text

pub record TargetMatch : Type 0 where
  pub target_id : Text
  pub policy_id : Text

-- `Option::is_some_and`.
abbrev pub is_some_and : {A : Type 0} → Option A → (A → Bool) → Bool
is_some_and none p = false
is_some_and (some a) p = p a

abbrev pub unwrap_or : {A : Type 0} → Option A → A → A
unwrap_or none d = d
unwrap_or (some a) d = a

abbrev pub is_none : {A : Type 0} → Option A → Bool
is_none none = true
is_none (some a) = false

unfoldable pub contains_text : List Text → Text → Bool
contains_text values needle = any (λ value. eq_ignore_ascii_case (trim value) needle) values

-- `MAX << (width - prefix)` on `width` bits; the shift by `width` is the source's own case.
unfoldable pub cidr_mask : ℕ → ℕ → ℕ
cidr_mask width prefix =
    if prefix == 0 then 0 else (2 ^ width - 1) * 2 ^ (width - prefix) % 2 ^ width

unfoldable pub same_network : ℕ → ℕ → ℕ → ℕ → Bool
unfolding cidr_mask
same_network width prefix ip base =
    bit_and ip (cidr_mask width prefix) == bit_and base (cidr_mask width prefix)

-- The last `match` of `ip_in_cidr`.
unfoldable pub ip_matches : ℕ → IpAddr → IpAddr → Bool
ip_matches prefix (v4 ip) (v4 base) = leb prefix 32 && same_network 32 prefix ip base
ip_matches prefix (v6 ip) (v6 base) = leb prefix 128 && same_network 128 prefix ip base
ip_matches prefix (v4 ip) (v6 base) = false
ip_matches prefix (v6 ip) (v4 base) = false

unfoldable pub ip_in_cidr : Text → Text → Bool
unfolding ip_matches
ip_in_cidr host cidr = elim (parse_ip host) [
  | none ↦ false
  | some ip ↦ elim (split_once b'/' cidr) [
    | none ↦ eq_ignore_ascii_case host cidr
    | some (base_text, prefix_text) ↦ elim (parse_u8 prefix_text) [
      | none ↦ false
      | some prefix ↦ elim (parse_ip base_text) [
        | none ↦ false
        | some base ↦ ip_matches prefix ip base
      ]
    ]
  ]
]

abbrev host_is : RouteTarget → Text → Bool
host_is rule host = is_some_and rule.host (λ rule_host. eq_ignore_ascii_case host rule_host)

abbrev domain_is : RouteTarget → SessionDataTarget → Bool
domain_is rule target =
    is_some_and target.original_domain
      λ original. is_some_and rule.host (λ rule_host. eq_ignore_ascii_case original rule_host)

abbrev in_cidrs : RouteTarget → Text → Bool
in_cidrs rule host = any (λ cidr. ip_in_cidr host cidr) rule.cidrs

-- The `match` on the lower-case host type.
unfoldable pub host_type_matches : Text → RouteTarget → SessionDataTarget → Text → Bool
host_type_matches kind rule target host =
    if text_eq kind (bytes "any")
    then true
    else if text_eq kind (bytes "domain")
    then host_is rule host || domain_is rule target || contains_text rule.resolved_ips host
    else if text_eq kind (bytes "ipv4") || text_eq kind (bytes "ipv6")
    then host_is rule host || contains_text rule.resolved_ips host
    else if text_eq kind (bytes "observed_ip")
    then contains_text rule.observed_ips host || contains_text rule.resolved_ips host
    else if text_eq kind (bytes "cidr")
    then in_cidrs rule host
    else if text_eq kind (bytes "steam_sdr")
    then host_is rule host
      || contains_text rule.resolved_ips host
      || contains_text rule.observed_ips host
      || in_cidrs rule host
      || (is_none rule.host
          && is_empty rule.resolved_ips
          && is_empty rule.observed_ips
          && is_empty rule.cidrs)
    else false

unfoldable pub target_matches_host : RouteTarget → SessionDataTarget → Bool
target_matches_host rule target =
    let host = trim target.host in
    if is_empty host
    then false
    else host_type_matches (to_ascii_lowercase rule.host_type) rule target host

-- A requested target id that is not the rule's.
unfoldable pub other_target_id : RouteTarget → SessionDataTarget → Bool
other_target_id rule target =
    is_some_and target.target_id (λ target_id. not (text_eq rule.target_id target_id))

unfoldable pub in_ports : RouteTarget → Text → ℕ → Bool
in_ports rule protocol port =
    any
      (λ range.
        eq_ignore_ascii_case range.protocol protocol && leb range.from port && leb port range.to)
      rule.ports

-- The loop over the rules.
unfoldable pub match_rules :
    RoutePolicy → Text → SessionDataTarget → List RouteTarget → Result Code TargetMatch
match_rules policy protocol target [] = err Code.target_not_allowed
match_rules policy protocol target (rule ∷ rules) =
    let next = match_rules policy protocol target rules in
    if other_target_id rule target
    then next
    else if not (in_ports rule protocol target.port)
    then next
    else if target_matches_host rule target
    then ok (record { target_id = rule.target_id; policy_id = policy.policy_id })
    else next

-- The protocol of the target, else the policy's, else udp; in lower case.
unfoldable pub target_protocol : RoutePolicy → SessionDataTarget → Text
target_protocol policy target =
    to_ascii_lowercase (unwrap_or target.protocol (unwrap_or policy.default_protocol (bytes "udp")))

abbrev pub udp_or_tcp : Text → Bool
udp_or_tcp protocol = text_eq protocol (bytes "udp") || text_eq protocol (bytes "tcp")

unfoldable pub match_route_policy_target : RoutePolicy → SessionDataTarget → Result Code TargetMatch
match_route_policy_target policy target =
    let protocol = target_protocol policy target in
    if not (udp_or_tcp protocol)
    then err Code.target_protocol_unsupported
    else match_rules policy protocol target policy.targets
