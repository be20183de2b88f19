-- ===== src/Node/Task/Relays.antt =====
-- Rules for what a task relays, and when it ends.
use cll.Base.{ℕ, ◌≡◌, Option, some, none, List, [], ◌∷◌}
use cll.Text.{Text}
use cll.Net.{SocketAddr}
use cll.Node.Platform.{NodeState}
use cll.Node.Relay.{RelayProtocol, UdpUpstream, TcpUpstream}
use cll.Node.Task.{Task, answer, lookup, relay_udp, relay_tcp}

-- A relay to an endpoint: the protocol, the payload and the timeout.
abbrev pub RelayRule : Type 1
RelayRule = Text → RelayProtocol → List ℕ → ℕ → Type 0

abbrev pub first : Option (List SocketAddr) → Option SocketAddr
first none = none
first (some []) = none
first (some (addr ∷ addrs)) = some addr

-- The task has ended.
abbrev pub Ended : Task → Type 0
Ended (answer state encoded) = Unit
Ended (lookup endpoint state next) = ⊥
Ended (relay_udp addr payload timeout_ms state next) = ⊥
Ended (relay_tcp addr payload timeout_ms state next) = ⊥

-- After a lookup: the end, or one relay to the first address, and the end after it.
abbrev pub RelaysOnce : RelayRule → Text → Option (List SocketAddr) → Task → Type 0
RelaysOnce P endpoint found (answer state encoded) = Unit
RelaysOnce P endpoint found (lookup again state next) = ⊥
RelaysOnce P endpoint found (relay_udp addr payload timeout_ms state next) =
    (first found ≡ some addr)
    × P endpoint RelayProtocol.udp payload timeout_ms
    × ((now : ℕ) (later : NodeState) (upstream : UdpUpstream) → Ended (next now later upstream))
RelaysOnce P endpoint found (relay_tcp addr payload timeout_ms state next) =
    (first found ≡ some addr)
    × P endpoint RelayProtocol.tcp payload timeout_ms
    × ((now : ℕ) (later : NodeState) (upstream : TcpUpstream) → Ended (next now later upstream))

-- The task ends, or looks one endpoint up and relays at most once; each relay obeys the rule.
abbrev pub Relays : RelayRule → Task → Type 0
Relays P (answer state encoded) = Unit
Relays P (lookup endpoint state next) =
    (now : ℕ) (later : NodeState) (found : Option (List SocketAddr))
    → RelaysOnce P endpoint found (next now later found)
Relays P (relay_udp addr payload timeout_ms state next) = ⊥
Relays P (relay_tcp addr payload timeout_ms state next) = ⊥
