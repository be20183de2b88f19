-- ===== src/Tests/Tickets.antt =====
-- A policy that the control plane cleans up, binds and that a node then takes.
use cll.Base.{◌≡◌, refl, inl, some, none, [], ◌∷◌, arith}
use cll.Base.Outcome.{ok}
use cll.Text.{bytes, text_eq, trim, to_ascii_lowercase}
use cll.Control.Policy.{
  RoutePolicyBinding, validate_route_policy, normalize_required_text, normalize_protocol,
  validate_target, validate_port, normalize_host,
}
use cll.Control.Policy.Binding.{listed, listed_matches, binding_accepted}
use cll.Control.Policy.WellFormed.{IsAccepted, validate_route_policy-IsAccepted}
use cll.Node.Platform.{hash_route_policy}
use cll.Node.Probe.{from_claims, identity_of}
use cll.Node.RoutePolicy.{
  PortRange, RouteTarget, RoutePolicy, TargetMatch, match_route_policy_target,
}
use cll.Tests.Toy.{platform, encode64, claims}

abbrev draft_rule : RouteTarget
draft_rule = record {
  target_id = bytes "login";
  purpose = none;
  host_type = bytes "Domain";
  host = some (bytes " game.example");
  resolved_ips = [];
  observed_ips = [];
  cidrs = [];
  ports = record { protocol = bytes "UDP "; from = 27000; to = 27100 } ∷ [];
  allow_client_observed_ip = none;
  resolve_ttl_sec = none;
  required = none;
}

abbrev pub draft : RoutePolicy
draft = record {
  policy_id = bytes " p1";
  policy_version = 1;
  mode = bytes "Dynamic_Targets";
  default_protocol = none;
  dns_strategy = none;
  targets = draft_rule ∷ [];
  capture = none;
}

abbrev clean_range : PortRange
clean_range = record { protocol = bytes "udp"; from = 27000; to = 27100 }

abbrev clean_rule : RouteTarget
clean_rule = record draft_rule {
  host_type = bytes "domain";
  host = some (bytes "game.example");
  ports = clean_range ∷ [];
}

abbrev pub binding : RoutePolicyBinding
binding = record {
  policy = record draft {
    policy_id = bytes "p1";
    mode = bytes "dynamic_targets";
    targets = clean_rule ∷ [];
  };
  hash = encode64 (2 ∷ []);
}

bound : validate_route_policy platform draft ≡ ok binding
unfolding validate_route_policy normalize_required_text normalize_protocol validate_target
    validate_port normalize_host trim to_ascii_lowercase text_eq hash_route_policy
bound = refl

validate_route_policy-IsAccepted_example :
    IsAccepted binding.policy × (hash_route_policy platform binding.policy ≡ some binding.hash)
validate_route_policy-IsAccepted_example =
    validate_route_policy-IsAccepted platform draft binding bound

binding_accepted_example :
    from_claims platform claims (some binding.policy)
    ≡ ok (identity_of claims (some binding.policy))
binding_accepted_example = binding_accepted platform draft binding claims bound refl refl

listed_matches_example :
    (m : TargetMatch) × (match_route_policy_target binding.policy
        (listed (bytes "game.example") clean_range 27015)
      ≡ ok m)
unfolding trim
listed_matches_example =
    listed_matches platform draft binding clean_rule clean_range (bytes "game.example") 27015 bound
      (inl refl) (inl refl) refl refl (inl refl) (omega arith) (omega arith)
