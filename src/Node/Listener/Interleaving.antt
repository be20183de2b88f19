-- ===== src/Node/Listener/Interleaving.antt =====
-- A node with the tasks that wait: requests come and tasks go on in any order.
use cll.Base.{ℕ, refl, subst, ◌≡◌, Option, List, [], ◌∷◌, ◌++◌, All}
use cll.Text.{Text}
use cll.Net.{SocketAddr}
use cll.Node.Listener.{handle_client_payload}
use cll.Node.Listener.Keeping.{handle_client_payload-Keeps}
use cll.Node.Messages.{TransportKind}
use cll.Node.Platform.{Platform, NodeState}
use cll.Node.Probe.Granting.{Serves}
use cll.Node.Relay.{UdpUpstream, TcpUpstream}
use cll.Node.SessionStore.{empty_store}
use cll.Node.Stats.{no_stats}
use cll.Node.Task.{Task, answer, lookup, relay_udp, relay_tcp}
use cll.Node.Task.Rely.{Keeps}

pub record Node : Type 0 where
  pub state : NodeState
  pub waiting : List Task

abbrev pub start : Option ℕ → Option Text → Node
start node_id secret = record {
  state = record {
    node_id = node_id;
    node_secret = secret;
    stats = no_stats;
    sessions = empty_store;
  };
  waiting = [];
}

-- A task runs until it waits or ends, beside the others.
unfoldable pub settle : Task → List Task → Node
settle (answer state encoded) others = record { state = state; waiting = others }
settle (lookup endpoint state next) others = record {
  state = state;
  waiting = lookup endpoint state next ∷ others;
}
settle (relay_udp addr payload timeout_ms state next) others = record {
  state = state;
  waiting = relay_udp addr payload timeout_ms state next ∷ others;
}
settle (relay_tcp addr payload timeout_ms state next) others = record {
  state = state;
  waiting = relay_tcp addr payload timeout_ms state next ∷ others;
}

-- The nodes that a run of `platform` reaches.
pub data Reached (platform : Platform) (node_id : Option ℕ) (secret : Option Text)
    : Node → Type 0 where
  started : Reached platform node_id secret (start node_id secret)
  payload_comes :
      {node : Node} (now : ℕ) (payload : Text) (transport : TransportKind) (peer : SocketAddr)
      → Reached platform node_id secret node
      → Reached platform node_id secret (
          settle
            (handle_client_payload platform payload transport peer now node.state)
            node.waiting)
  lookup_ends :
      {node : Node} (now : ℕ) (found : Option (List SocketAddr)) (before after : List Task)
      (endpoint : Text) (state : NodeState) (next : ℕ → NodeState → Option (List SocketAddr) → Task)
      → node.waiting ≡ before ++ (lookup endpoint state next ∷ after)
      → Reached platform node_id secret node
      → Reached platform node_id secret (settle (next now node.state found) (before ++ after))
  udp_ends :
      {node : Node} (now : ℕ) (upstream : UdpUpstream) (before after : List Task)
      (addr : SocketAddr) (payload : List ℕ) (timeout_ms : ℕ) (state : NodeState)
      (next : ℕ → NodeState → UdpUpstream → Task)
      → node.waiting ≡ before ++ (relay_udp addr payload timeout_ms state next ∷ after)
      → Reached platform node_id secret node
      → Reached platform node_id secret (settle (next now node.state upstream) (before ++ after))
  tcp_ends :
      {node : Node} (now : ℕ) (upstream : TcpUpstream) (before after : List Task)
      (addr : SocketAddr) (payload : List ℕ) (timeout_ms : ℕ) (state : NodeState)
      (next : ℕ → NodeState → TcpUpstream → Task)
      → node.waiting ≡ before ++ (relay_tcp addr payload timeout_ms state next ∷ after)
      → Reached platform node_id secret node
      → Reached platform node_id secret (settle (next now node.state upstream) (before ++ after))

module _ (platform : Platform) (node_id : Option ℕ) (secret : Option Text) where
  abbrev Safe : Task → Type 0
  Safe = Keeps (Serves platform node_id secret)

  record IsSound (node : Node) : Type 0 where
    serves : Serves platform node_id secret node.state
    tasks : All Safe node.waiting

  settle-IsSound :
      (task : Task) (others : List Task)
      → Safe task
      → All Safe others
      → IsSound (settle task others)
  unfolding settle
  settle-IsSound (answer state encoded) others k o = record { serves = k; tasks = o }
  settle-IsSound (lookup endpoint state next) others k o = record { serves = k.0; tasks = (k, o) }
  settle-IsSound (relay_udp addr payload timeout_ms state next) others k o = record {
    serves = k.0;
    tasks = (k, o);
  }
  settle-IsSound (relay_tcp addr payload timeout_ms state next) others k o = record {
    serves = k.0;
    tasks = (k, o);
  }

  -- One of the tasks, and the others.
  pick :
      (before : List Task) (task : Task) (after : List Task)
      → All Safe (before ++ (task ∷ after))
      → Safe task × All Safe (before ++ after)
  pick [] task after h = h
  pick (t ∷ before) task after (k, h) =
      let (picked, others) = pick before task after h in (picked, (k, others))

  Reached-IsSound : {node : Node} → Reached platform node_id secret node → IsSound node
  Reached-IsSound started = record {
    serves = record {
      same_node = refl;
      same_secret = refl;
      store_valid = record { distinct = tt; owned = tt };
      granted = tt;
    };
    tasks = tt;
  }
  Reached-IsSound (payload_comes {node = node} now payload transport peer r) =
      let s = Reached-IsSound r in
      settle-IsSound _ node.waiting
        (handle_client_payload-Keeps platform node_id secret payload transport peer now node.state
          s.serves)
        s.tasks
  Reached-IsSound (lookup_ends {node = node} now found before after endpoint state next e r) =
      let s = Reached-IsSound r in
      let (k, o) = pick before _ after (subst (All Safe) e s.tasks) in
      settle-IsSound _ _ (k.1 now node.state found s.serves) o
  Reached-IsSound
        (udp_ends {node = node} now upstream before after addr payload timeout_ms state next e r) =
      let s = Reached-IsSound r in
      let (k, o) = pick before _ after (subst (All Safe) e s.tasks) in
      settle-IsSound _ _ (k.1 now node.state upstream s.serves) o
  Reached-IsSound
        (tcp_ends {node = node} now upstream before after addr payload timeout_ms state next e r) =
      let s = Reached-IsSound r in
      let (k, o) = pick before _ after (subst (All Safe) e s.tasks) in
      settle-IsSound _ _ (k.1 now node.state upstream s.serves) o

-- A node that starts with an empty store, and answers any payloads with its tasks going on in any
-- order and with any answers, is always in a sound state: one entry for an id, each session under its
-- id, and each grant that of a request without a token, or of a token that this node checked and the
-- policy that it signs.
pub Reached-Serves :
    (platform : Platform) (node_id : Option ℕ) (secret : Option Text) (node : Node)
    → Reached platform node_id secret node
    → Serves platform node_id secret node.state
Reached-Serves platform node_id secret node r = (Reached-IsSound platform node_id secret r).serves
