-- ===== src/Node/Target/Authorised.antt =====
-- The rule for relays of node-core/src/session.rs: for whom, where to, and how long.
use cll.Base.{ℕ, ◌≡◌, ◌≤◌, true, Option, none, some, List, [], ◌∷◌, arith}
use cll.Base.Outcome.{ok}
use cll.Text.{Text}
use cll.Net.{SocketAddr}
use cll.Node.Relay.{RelayProtocol, max_relay_timeout_ms, clamp_relay_timeout}
use cll.Node.SessionStore.{UdpSession, SessionStore}
use cll.Node.SessionStore.Refinement.{view}
use cll.Node.Target.{resolve_socket_addr}
use cll.Node.Target.Permitted.{Permitted}
use cll.Node.Task.Relays.{first}

-- A relay on behalf of a session in the store that is live when the request comes, was opened with a
-- valid token, and permits the endpoint; it waits between a millisecond and a second for each step.
pub record Authorised (now : ℕ) (store : SessionStore) (endpoint : Text) (protocol : RelayProtocol)
    (payload : List ℕ) (timeout_ms : ℕ) : Type 0 where
  pub id : Text
  pub session : UdpSession
  pub live : view now store id ≡ some session
  pub proven : session.authenticated ≡ true
  pub permitted : Permitted session.route_policy session.route_target_addr endpoint protocol
  pub waits : 1 ≤ timeout_ms
  pub gives_up : timeout_ms ≤ max_relay_timeout_ms

-- The timeout of a relay is at least a millisecond and at most a second, and it is the one that the
-- request asks for if that lies between them.
pub clamp_relay_timeout_bounds :
    (timeout_ms : Option ℕ)
    → (1 ≤ clamp_relay_timeout timeout_ms)
      × (clamp_relay_timeout timeout_ms ≤ max_relay_timeout_ms)
      × ((n : ℕ)
          → timeout_ms ≡ some n
          → 1 ≤ n
          → n ≤ max_relay_timeout_ms
          → clamp_relay_timeout timeout_ms ≡ n)
unfolding clamp_relay_timeout
clamp_relay_timeout_bounds none = (omega arith, omega arith, λ n e a b. absurd (cc))
clamp_relay_timeout_bounds (some m) = (omega arith, omega arith, λ n e a b. ground arith)

-- An address that is taken is the first one found.
pub resolve_socket_addr-eq-ok :
    (found : Option (List SocketAddr)) {addr : SocketAddr}
    → resolve_socket_addr found ≡ ok addr
    → first found ≡ some addr
unfolding resolve_socket_addr
resolve_socket_addr-eq-ok none h = cc
resolve_socket_addr-eq-ok (some []) h = cc
resolve_socket_addr-eq-ok (some (addr ∷ addrs)) h = cc
