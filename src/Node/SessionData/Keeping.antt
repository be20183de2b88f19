-- ===== src/Node/SessionData/Keeping.antt =====
-- The invariant of the node's state through `build_session_data_response`, node-core/src/session.rs.
use cll.Base.{
  ℕ, Option-cases, inl, inr, Bool, true, false, ◌&&◌, ◌||◌, not, if◌then◌else◌, Option, none, some,
  List, length,
}
use cll.Base.Outcome.{Result, ok, err}
use cll.Text.{Text, trim_filter}
use cll.Net.{SocketAddr}
use cll.Node.Code.{Code}
use cll.Node.Messages.{TransportKind, ClientSessionDataRequest}
use cll.Node.Platform.{Platform, NodeState, count}
use cll.Node.Probe.Granting.{Serves, count-Serves, io-Serves}
use cll.Node.Relay.{RelayOutcome, TargetResolveError, RelayProtocol}
use cll.Node.Replies.{ErrorText, relay_needs_token}
use cll.Node.RoutePolicy.{is_none}
use cll.Node.SessionData.{
  relay_counters, DataResult, data_error, data_encoded, data_answer, data_relayed, data_addressed,
  data_resolved, data_targeted, data_session, data_found, build_session_data_response,
}
use cll.Node.SessionStore.{UdpSessionSnapshot, UdpSessionError, missing, expired, lock_poisoned}
use cll.Node.Stats.{
  RuntimeStats, record_udp_relay_error, record_udp_session_tx, record_udp_session_rx,
}
use cll.Node.Target.{PendingTarget, has_session_target, session_target}
use cll.Node.Task.{Task}
use cll.Node.Task.Rely.{Keeps}

module _ (platform : Platform) (node_id : Option ℕ) (secret : Option Text)
    (transport : TransportKind) (peer : SocketAddr) (request : ClientSessionDataRequest) where
  abbrev Safe : Task → Type 0
  Safe = Keeps (Serves platform node_id secret)

  data_error-Keeps :
      (now : ℕ) (counter : RuntimeStats → RuntimeStats) (code : Code) (message : ErrorText)
      (state : NodeState)
      → Serves platform node_id secret state
      → Safe (data_error platform transport peer request now counter code message state)
  unfolding data_error
  data_error-Keeps now counter code message state s = count-Serves counter state s

  data_encoded-Keeps :
      (now : ℕ) (text : Text) (payload : List ℕ) (state : NodeState) (encoded : Option Text)
      → Serves platform node_id secret state
      → Safe (data_encoded platform transport peer request now text payload state encoded)
  unfolding data_encoded
  data_encoded-Keeps now text payload state none s = s
  data_encoded-Keeps now text payload state (some encoded) s =
      let counters : RuntimeStats → RuntimeStats = λ stats.
        record_udp_session_tx (length encoded) (record_udp_session_rx (length payload) stats) in
      io-Serves now text peer 0 (length encoded) (count counters state)
        (count-Serves counters state s)

  data_answer-Keeps :
      (now : ℕ) (text : Text) (payload : List ℕ) (session : UdpSessionSnapshot)
      (result : DataResult) (state : NodeState)
      → Serves platform node_id secret state
      → Safe (data_answer platform transport peer request now text payload session result state)
  unfolding data_answer
  data_answer-Keeps now text payload session result state s =
      data_encoded-Keeps now text payload state _ s

  data_relayed-Keeps :
      (text : Text) (payload : List ℕ) (session : UdpSessionSnapshot) (target : PendingTarget)
      (addr : SocketAddr) (failure : ErrorText) (now : ℕ) (state : NodeState)
      (outcome : Option RelayOutcome)
      → Serves platform node_id secret state
      → Safe (
          data_relayed platform transport peer request text payload session target addr failure now
            state outcome)
  unfolding data_relayed
  data_relayed-Keeps text payload session target addr failure now state none s =
      data_error-Keeps now _ _ failure state s
  data_relayed-Keeps text payload session target addr failure now state (some relay) s =
      data_answer-Keeps now text payload session _ _ (count-Serves (relay_counters relay) state s)

  data_addressed-Keeps :
      (text : Text) (payload : List ℕ) (session : UdpSessionSnapshot) (target : PendingTarget)
      (protocol : RelayProtocol) (addr : SocketAddr) (state : NodeState)
      → Serves platform node_id secret state
      → Safe (
          data_addressed platform transport peer request text payload session target protocol addr
            state)
  unfolding data_addressed
  data_addressed-Keeps text payload session target RelayProtocol.udp addr state s = (
    s,
    λ now later upstream t. data_relayed-Keeps text payload session target addr _ now later _ t,
  )
  data_addressed-Keeps text payload session target RelayProtocol.tcp addr state s = (
    s,
    λ now later upstream t. data_relayed-Keeps text payload session target addr _ now later _ t,
  )

  data_resolved-Keeps :
      (text : Text) (payload : List ℕ) (session : UdpSessionSnapshot) (target : PendingTarget)
      (now : ℕ) (state : NodeState) (found : Result TargetResolveError SocketAddr)
      → Serves platform node_id secret state
      → Safe (
          data_resolved platform transport peer request text payload session target now state found)
  unfolding data_resolved
  data_resolved-Keeps text payload session target now state (err error) s =
      data_error-Keeps now _ _ _ state s
  data_resolved-Keeps text payload session target now state (ok addr) s =
      data_addressed-Keeps text payload session target target.protocol addr state s

  data_targeted-Keeps :
      (now : ℕ) (text sent : Text) (payload : List ℕ) (session : UdpSessionSnapshot)
      (state : NodeState) (target : Result TargetResolveError (Option PendingTarget))
      → Serves platform node_id secret state
      → Safe
          (data_targeted platform transport peer request now text sent payload session state target)
  unfolding data_targeted
  data_targeted-Keeps now text sent payload session state (err error) s =
      data_error-Keeps now _ _ _ state s
  data_targeted-Keeps now text sent payload session state (ok none) s =
      data_answer-Keeps now text payload session _ state s
  data_targeted-Keeps now text sent payload session state (ok (some target)) s =
      (s, λ now later found t. data_resolved-Keeps text payload session target now later _ t)

  data_session-Keeps :
      (now : ℕ) (text sent : Text) (payload : List ℕ) (session : UdpSessionSnapshot)
      (state : NodeState)
      → Serves platform node_id secret state
      → Safe (data_session platform transport peer request now text sent payload session state)
  unfolding data_session
  data_session-Keeps now text sent payload session state s = go (
      (has_session_target request || not (is_none session.route_target_addr))
      && not session.authenticated)
    where
      go :
          (refused : Bool)
          → Safe (
              if refused
              then data_error platform transport peer request now record_udp_relay_error
                  Code.relay_auth_required relay_needs_token state
              else data_targeted platform transport peer request now text sent payload session state
                  (session_target request session.route_target_addr session.route_policy))
      go true = data_error-Keeps now _ _ _ state s
      go false = data_targeted-Keeps now text sent payload session state _ s

  data_found-Keeps :
      (now : ℕ) (text sent : Text) (payload : List ℕ)
      (found : Result UdpSessionError UdpSessionSnapshot) (state : NodeState)
      → Serves platform node_id secret state
      → Safe (data_found platform transport peer request now text sent payload found state)
  unfolding data_found
  data_found-Keeps now text sent payload (ok session) state s =
      data_session-Keeps now text sent payload session state s
  data_found-Keeps now text sent payload (err missing) state s = data_error-Keeps now _ _ _ state s
  data_found-Keeps now text sent payload (err expired) state s = data_error-Keeps now _ _ _ state s
  data_found-Keeps now text sent payload (err lock_poisoned) state s =
      data_error-Keeps now _ _ _ state s

  pub data-Keeps :
      (now : ℕ) (state : NodeState)
      → Serves platform node_id secret state
      → Safe (build_session_data_response platform transport peer request now state)
  unfolding build_session_data_response
  data-Keeps now state s = elim (Option-cases (trim_filter request.session_id)) [
    | inl a ↦ rw (a, build_session_data_response) (data_error-Keeps now _ _ _ state s)
    | inr (text, a) ↦ elim (Option-cases request.payload) [
      | inl b ↦ rw (a, b, build_session_data_response) (data_error-Keeps now _ _ _ state s)
      | inr (sent, b) ↦ elim (Option-cases (platform.decode_base64 sent)) [
        | inl c ↦ rw (a, b, c, build_session_data_response) (data_error-Keeps now _ _ _ state s)
        | inr (payload, c) ↦
            rw (a, b, c, build_session_data_response)
              (data_found-Keeps now text sent payload _ _
                (io-Serves now text peer (length payload) 0 state s))
      ]
    ]
  ]
