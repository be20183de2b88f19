-- ===== src/Node/Task/Rely.antt =====
-- Invariants of the state that the tasks share: a task may rely on an invariant when it goes on, and
-- has to leave it wherever it stops.
use cll.Base.{ℕ, Option, List}
use cll.Net.{SocketAddr}
use cll.Node.Platform.{NodeState}
use cll.Node.Relay.{UdpUpstream, TcpUpstream}
use cll.Node.Task.{Task, answer, lookup, relay_udp, relay_tcp}

abbrev pub Keeps : (NodeState → Type 0) → Task → Type 0
Keeps Inv (answer state encoded) = Inv state
Keeps Inv (lookup endpoint state next) =
    Inv state
    × ((now : ℕ) (later : NodeState) (found : Option (List SocketAddr))
        → Inv later
        → Keeps Inv (next now later found))
Keeps Inv (relay_udp addr payload timeout_ms state next) =
    Inv state
    × ((now : ℕ) (later : NodeState) (upstream : UdpUpstream)
        → Inv later
        → Keeps Inv (next now later upstream))
Keeps Inv (relay_tcp addr payload timeout_ms state next) =
    Inv state
    × ((now : ℕ) (later : NodeState) (upstream : TcpUpstream)
        → Inv later
        → Keeps Inv (next now later upstream))
