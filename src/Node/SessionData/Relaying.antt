-- ===== src/Node/SessionData/Relaying.antt =====
-- The relays of `build_session_data_response`, node-core/src/session.rs.
use cll.Base.{
  ℕ, ◌≡◌, refl, sym, ap, subst, ◌∙◌, Option-cases, Bool-cases, inl, inr, true, false, ◌&&◌, ◌||◌,
  not, Option, none, some, List, length, arith,
}
use cll.Base.Outcome.{Result, ok, err}
use cll.Text.{Text, trim_filter}
use cll.Net.{SocketAddr}
use cll.Node.Messages.{TransportKind, ClientSessionDataRequest}
use cll.Node.Platform.{Platform, NodeState}
use cll.Node.Relay.{RelayOutcome, TargetResolveError, RelayProtocol, clamp_relay_timeout}
use cll.Node.Replies.{ErrorText}
use cll.Node.RoutePolicy.{is_none}
use cll.Node.SessionData.{
  data_error, data_encoded, data_answer, data_relayed, data_addressed, data_resolved, data_targeted,
  data_session, data_found, build_session_data_response,
}
use cll.Node.SessionStore.{
  UdpSessionSnapshot, SessionStore, UdpSessionError, missing, expired, lock_poisoned, snapshot,
  record_udp_session_io,
}
use cll.Node.SessionStore.Refinement.{answered_live}
use cll.Node.Target.{PendingTarget, has_session_target, session_target, resolve_socket_addr}
use cll.Node.Target.Authorised.{Authorised, clamp_relay_timeout_bounds, resolve_socket_addr-eq-ok}
use cll.Node.Target.Permitted.{Permitted, session_target-Permitted, session_target-untargeted}
use cll.Node.Task.{Task, answer, lookup, relay_udp, relay_tcp}
use cll.Node.Task.Relays.{RelayRule, Ended, RelaysOnce, Relays}

Ended-Relays : (P : RelayRule) (task : Task) → Ended task → Relays P task
Ended-Relays P (answer state encoded) e = tt
Ended-Relays P (lookup endpoint state next) e = absurd e
Ended-Relays P (relay_udp addr payload timeout_ms state next) e = absurd e
Ended-Relays P (relay_tcp addr payload timeout_ms state next) e = absurd e

module _ (platform : Platform) (transport : TransportKind) (peer : SocketAddr)
    (request : ClientSessionDataRequest) where
  data_answer-Ended :
      (now : ℕ) (text : Text) (payload : List ℕ) (state : NodeState) (encoded : Option Text)
      → Ended (data_encoded platform transport peer request now text payload state encoded)
  unfolding data_encoded
  data_answer-Ended now text payload state none = tt
  data_answer-Ended now text payload state (some encoded) = tt

  data_relayed-Ended :
      (text : Text) (payload : List ℕ) (session : UdpSessionSnapshot) (target : PendingTarget)
      (addr : SocketAddr) (failure : ErrorText) (now : ℕ) (state : NodeState)
      (outcome : Option RelayOutcome)
      → Ended (
          data_relayed platform transport peer request text payload session target addr failure now
            state outcome)
  unfolding data_relayed data_error data_answer
  data_relayed-Ended text payload session target addr failure now state none = tt
  data_relayed-Ended text payload session target addr failure now state (some relay) =
      data_answer-Ended now text payload _ _

  -- A session that is let through to a target has a token.
  let_through :
      (session : UdpSessionSnapshot) (target : PendingTarget)
      → (has_session_target request || not (is_none session.route_target_addr))
          && not session.authenticated
        ≡ false
      → session_target request session.route_target_addr session.route_policy ≡ ok (some target)
      → session.authenticated ≡ true
  let_through session target r e = elim (Bool-cases session.authenticated) [
    | inl a ↦ a
    | inr a ↦
        let untargeted : has_session_target request ≡ false = ground arith in
        let unbound : session.route_target_addr ≡ none = ground arith in
        absurd (
          session_target-untargeted request session.route_policy target untargeted
            (ap (λ addr. session_target request addr session.route_policy) (sym unbound) ∙ e))
  ]

  -- A rule that holds of the target holds of what is relayed to it.
  module _ (P : RelayRule) where
    abbrev Obeys : PendingTarget → List ℕ → Type 0
    Obeys target payload =
        P target.endpoint target.protocol payload (clamp_relay_timeout request.response_timeout_ms)

    data_resolved-RelaysOnce :
        (text : Text) (payload : List ℕ) (session : UdpSessionSnapshot) (target : PendingTarget)
        (now : ℕ) (state : NodeState) (found : Option (List SocketAddr))
        (result : Result TargetResolveError SocketAddr)
        → resolve_socket_addr found ≡ result
        → Obeys target payload
        → RelaysOnce P target.endpoint found (
            data_resolved platform transport peer request text payload session target now state
              result)
    unfolding data_resolved data_error data_addressed
    data_resolved-RelaysOnce text payload session target now state found (err error) e h = tt
    data_resolved-RelaysOnce text payload session target now state found (ok addr) e h =
        go target.protocol h
      where
        go :
            (protocol : RelayProtocol)
            → P target.endpoint protocol payload (clamp_relay_timeout request.response_timeout_ms)
            → RelaysOnce P target.endpoint found (
                data_addressed platform transport peer request text payload session target protocol
                  addr state)
        go RelayProtocol.udp h = (
          resolve_socket_addr-eq-ok found e,
          h,
          λ now later upstream. data_relayed-Ended text payload session target addr _ now later _,
        )
        go RelayProtocol.tcp h = (
          resolve_socket_addr-eq-ok found e,
          h,
          λ now later upstream. data_relayed-Ended text payload session target addr _ now later _,
        )

    data_targeted-Relays :
        (now : ℕ) (text sent : Text) (payload : List ℕ) (session : UdpSessionSnapshot)
        (state : NodeState) (result : Result TargetResolveError (Option PendingTarget))
        → ((target : PendingTarget) → result ≡ ok (some target) → Obeys target payload)
        → Relays P (
            data_targeted platform transport peer request now text sent payload session state
              result)
    unfolding data_targeted data_error data_answer data_encoded
    data_targeted-Relays now text sent payload session state (err error) h = tt
    data_targeted-Relays now text sent payload session state (ok none) h =
        Ended-Relays P _ (data_answer-Ended now text payload state _)
    data_targeted-Relays now text sent payload session state (ok (some target)) h =
        λ now later found.
          data_resolved-RelaysOnce text payload session target now later found _ refl
            (h target refl)

    data_session-Relays :
        (now : ℕ) (text sent : Text) (payload : List ℕ) (session : UdpSessionSnapshot)
        (state : NodeState)
        → ((target : PendingTarget)
            → session.authenticated ≡ true
            → session_target request session.route_target_addr session.route_policy
              ≡ ok (some target)
            → Obeys target payload)
        → Relays P
            (data_session platform transport peer request now text sent payload session state)
    unfolding data_session data_error
    data_session-Relays now text sent payload session state h =
        elim (Bool-cases (
          (has_session_target request || not (is_none session.route_target_addr))
          && not session.authenticated)) [
            | inl r ↦ rw (r, data_session) tt
            | inr r ↦
                rw (r, data_session)
                  (data_targeted-Relays now text sent payload session state _
                    (λ target e. h target (let_through session target r e) e))
          ]

  data_found-Relays :
      (now : ℕ) (text sent : Text) (payload : List ℕ) (store : SessionStore)
      (found : Result UdpSessionError UdpSessionSnapshot) (state : NodeState)
      → (record_udp_session_io now text peer (length payload) 0 store).1 ≡ found
      → Relays
          (Authorised now store)
          (data_found platform transport peer request now text sent payload found state)
  unfolding data_found data_error snapshot
  data_found-Relays now text sent payload store (err missing) state e = tt
  data_found-Relays now text sent payload store (err expired) state e = tt
  data_found-Relays now text sent payload store (err lock_poisoned) state e = tt
  data_found-Relays now text sent payload store (ok found) state e =
      let (s, live, same) = answered_live now text peer (length payload) 0 store found e in
      let bounds = clamp_relay_timeout_bounds request.response_timeout_ms in
      data_session-Relays (Authorised now store) now text sent payload found state (λ target a t.
        record {
          id = text;
          session = s;
          live = live;
          proven = ap (λ f. f.authenticated) (sym same) ∙ a;
          permitted =
              subst
                (λ f. Permitted f.route_policy f.route_target_addr target.endpoint target.protocol)
                same
                (session_target-Permitted request found.route_target_addr found.route_policy target
                  t);
          waits = bounds.0;
          gives_up = bounds.1;
        })

  -- Whatever the lookup, the upstream and the other tasks do, the answer to `session.data` looks at
  -- most one endpoint up, then relays at most one payload, to the first address found, and ends. It
  -- relays only for a live session with a valid token, to an endpoint that the session permits.
  pub data-Relays :
      (now : ℕ) (state : NodeState)
      → Relays
          (Authorised now state.sessions)
          (build_session_data_response platform transport peer request now state)
  unfolding build_session_data_response data_error
  data-Relays now state = elim (Option-cases (trim_filter request.session_id)) [
    | inl a ↦ rw (a, build_session_data_response) tt
    | inr (text, a) ↦ elim (Option-cases request.payload) [
      | inl b ↦ rw (a, b, build_session_data_response) tt
      | inr (sent, b) ↦ elim (Option-cases (platform.decode_base64 sent)) [
        | inl c ↦ rw (a, b, c, build_session_data_response) tt
        | inr (payload, c) ↦
            rw (a, b, c, build_session_data_response)
              (data_found-Relays now text sent payload state.sessions _ _ refl)
      ]
    ]
  ]
