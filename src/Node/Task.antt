-- ===== src/Node/Task.antt =====
-- The tasks that answer requests, as tokio runs them. A task stops where the source awaits a lookup
-- or a relay; it leaves the shared state and goes on with the time, the state that the other tasks
-- have left by then, and the answer.
pub mod Rely
pub mod Relays
use cll.Base.{ℕ, Option, List}
use cll.Text.{Text}
use cll.Net.{SocketAddr}
use cll.Node.Platform.{NodeState}
use cll.Node.Relay.{UdpUpstream, TcpUpstream}

-- `lookup` asks for an endpoint; `relay_udp` and `relay_tcp` send a payload to an address, with a
-- timeout in milliseconds. `answer` ends the task, with no bytes where the encoder fails.
pub data Task : Type 0 where
  answer : NodeState → Option Text → Task
  lookup : Text → NodeState → (ℕ → NodeState → Option (List SocketAddr) → Task) → Task
  relay_udp : SocketAddr → List ℕ → ℕ → NodeState → (ℕ → NodeState → UdpUpstream → Task) → Task
  relay_tcp : SocketAddr → List ℕ → ℕ → NodeState → (ℕ → NodeState → TcpUpstream → Task) → Task
