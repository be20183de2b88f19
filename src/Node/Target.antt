-- ===== src/Node/Target.antt =====
-- node-core/src/session.rs: where a request is relayed to. `resolve_session_target` ends in one
-- lookup on every path that finds a target, so it is two functions: the endpoint that it looks up,
-- and what it takes from the addresses found.
pub mod Permitted
pub mod Authorised
use cll.Base.{ℕ, Bool, ◌||◌, Option, none, some, List, [], ◌∷◌, ◌++◌, not}
use cll.Base.Outcome.{Result, ok, err, ◌>>=◌, ok_or}
use cll.Text.{Text, bytes, trim_filter, is_blank}
use cll.Net.{v4, v6, SocketAddr, parse_ip}
use cll.Net.Display.{decimal}
use cll.Node.Code.{Code}
use cll.Node.Messages.{ClientSessionDataRequest}
use cll.Node.Relay.{RelayProtocol, TargetResolveError, parse_protocol}
use cll.Node.Replies.{
  target_required, target_not_in_policy, target_port_required, lookup_failed, nothing_resolved,
}
use cll.Node.RoutePolicy.{
  RoutePolicy, TargetMatch, is_some_and, unwrap_or, is_none, match_route_policy_target,
}

-- A target before its lookup: `ResolvedTarget` with the endpoint in place of the address.
pub record PendingTarget : Type 0 where
  pub protocol : RelayProtocol
  pub endpoint : Text
  pub policy_match : Option TargetMatch

unfoldable pub has_session_target : ClientSessionDataRequest → Bool
has_session_target request =
    not (is_none request.target)
    || is_some_and request.target_addr (λ target_addr. not (is_blank target_addr))
    || is_some_and request.target_host (λ target_host. not (is_blank target_host))

-- The endpoint of `resolve_host_port`.
unfoldable pub host_port : Text → ℕ → Text
unfolding decimal
host_port host port = elim (parse_ip host) [
  | none ↦ host ++ (b':' ∷ decimal port)
  | some (v4 ip) ↦ host ++ (b':' ∷ decimal port)
  | some (v6 ip) ↦ b'[' ∷ (host ++ (bytes "]:" ++ decimal port))
]

-- The error that `match_route_policy_target` becomes.
abbrev not_in_policy : {A : Type 0} → Result Code A → Result TargetResolveError A
not_in_policy (ok a) = ok a
not_in_policy (err code) = err (record { code = code; message = target_not_in_policy })

abbrev or_else : Option Text → Option Text → Option Text
or_else none b = b
or_else (some a) b = some a

-- A session with a policy: the request's target, which the policy must match.
unfoldable pub policy_target :
    RoutePolicy → ClientSessionDataRequest → Result TargetResolveError PendingTarget
unfolding host_port
policy_target route_policy request = do
  target ← ok_or request.target (record { code = Code.missing_target; message = target_required })
  protocol ←
      parse_protocol
        (unwrap_or (or_else target.protocol route_policy.default_protocol) (bytes "udp"))
  policy_match ← not_in_policy (match_route_policy_target route_policy target)
  ok (record {
    protocol = protocol;
    endpoint = host_port target.host target.port;
    policy_match = some policy_match;
  })

-- The address that the session is bound to, else the request's address.
unfoldable pub given_addr : Option Text → ClientSessionDataRequest → Option Text
given_addr session_target_addr request =
    or_else (trim_filter session_target_addr) (trim_filter request.target_addr)

-- The request's host and port.
unfoldable pub host_target :
    RelayProtocol → ClientSessionDataRequest → Result TargetResolveError (Option PendingTarget)
unfolding host_port
host_target protocol request = elim (trim_filter request.target_host) [
  | none ↦ ok none
  | some host ↦ elim request.target_port [
    | none ↦ err (record { code = Code.missing_target_port; message = target_port_required })
    | some port ↦
        ok (
          some
            (record { protocol = protocol; endpoint = host_port host port; policy_match = none }))
  ]
]

-- A session without a policy.
unfoldable pub fixed_target :
    Option Text → ClientSessionDataRequest → Result TargetResolveError (Option PendingTarget)
unfolding given_addr host_target
fixed_target session_target_addr request = do
  protocol ← parse_protocol (unwrap_or request.target_protocol (bytes "udp"))
  elim (given_addr session_target_addr request) [
    | none ↦ host_target protocol request
    | some addr ↦ ok (some (record { protocol = protocol; endpoint = addr; policy_match = none }))
  ]

-- `resolve_session_target` up to its lookup.
unfoldable pub session_target :
    ClientSessionDataRequest
    → Option Text
    → Option RoutePolicy
    → Result TargetResolveError (Option PendingTarget)
unfolding policy_target fixed_target
session_target request session_target_addr none = fixed_target session_target_addr request
session_target request session_target_addr (some route_policy) = do
  target ← policy_target route_policy request
  ok (some target)

-- `resolve_socket_addr` after its lookup: the first address.
unfoldable pub resolve_socket_addr : Option (List SocketAddr) → Result TargetResolveError SocketAddr
resolve_socket_addr none = err (record { code = Code.invalid_target; message = lookup_failed })
resolve_socket_addr (some []) =
    err (record { code = Code.invalid_target; message = nothing_resolved })
resolve_socket_addr (some (addr ∷ addrs)) = ok addr
