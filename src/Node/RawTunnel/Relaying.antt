-- ===== src/Node/RawTunnel/Relaying.antt =====
-- The relays of `build_raw_udp_tunnel_response`, node-core/src/session.rs.
use cll.Base.{
  ℕ, ◌≡◌, refl, sym, ap, subst, ◌∙◌, Bool-cases, Option-cases, inl, inr, true, Option, none, some,
  List, length, arith,
}
use cll.Base.Outcome.{>>=-eq-ok, Result, ok, err}
use cll.Text.{Text, bytes, trim, to_ascii_lowercase, text_eq, trim_filter}
use cll.Net.{SocketAddr}
use cll.Node.Messages.{TransportKind}
use cll.Node.Platform.{NodeState}
use cll.Node.RawTunnel.{
  raw_status, raw_relayed, raw_resolved, raw_targeted, raw_session, raw_found, carries_packets,
  target_request, build_raw_udp_tunnel_response,
}
use cll.Node.Relay.{
  RelayOutcome, RelayProtocol, TargetResolveError, default_relay_timeout_ms, parse_protocol,
}
use cll.Node.SessionStore.{
  UdpSessionSnapshot, SessionStore, UdpSessionError, missing, expired, lock_poisoned, snapshot,
  record_udp_session_io,
}
use cll.Node.SessionStore.Refinement.{answered_live}
use cll.Node.RoutePolicy.{RoutePolicy}
use cll.Node.Target.{
  policy_target, fixed_target, given_addr, host_target, PendingTarget, session_target,
  resolve_socket_addr,
}
use cll.Node.Target.Authorised.{Authorised, resolve_socket_addr-eq-ok}
use cll.Node.Target.Permitted.{Permitted, session_target-Permitted}
use cll.Node.Task.Relays.{RelayRule, Ended, RelaysOnce, Relays}
use cll.Node.Tunnel.{RawUdpTunnelRequest}

parse_udp : parse_protocol (bytes "udp") ≡ ok RelayProtocol.udp
unfolding parse_protocol trim to_ascii_lowercase text_eq
parse_udp = refl

module _ (peer : SocketAddr) (request : RawUdpTunnelRequest) where
  raw_relayed-Ended :
      (now : ℕ) (state : NodeState) (outcome : Option RelayOutcome)
      → Ended (raw_relayed peer request now state outcome)
  unfolding raw_relayed raw_status
  raw_relayed-Ended now state none = tt
  raw_relayed-Ended now state (some relay) = elim (Bool-cases relay.timed_out) [
    | inl t ↦ rw t tt
    | inr t ↦ rw t tt
  ]

  -- A packet's target is a UDP one.
  udp_target :
      (addr : Option Text) (policy : Option RoutePolicy) (target : PendingTarget)
      → session_target (target_request request) addr policy ≡ ok (some target)
      → target.protocol ≡ RelayProtocol.udp
  unfolding session_target policy_target fixed_target target_request host_target trim_filter
  udp_target addr none target e =
      let (protocol, q, h) = >>=-eq-ok (parse_protocol (bytes "udp")) _ e in
      let udp : RelayProtocol.udp ≡ protocol = cc parse_udp in
      elim (Option-cases (given_addr addr (target_request request))) [
        | inl n ↦ absurd (ground arith)
        | inr (endpoint, n) ↦ ground arith
      ]
  udp_target addr (some policy) target e = ground (arith, parse_udp)

  module _ (P : RelayRule) where
    abbrev Obeys : PendingTarget → Type 0
    Obeys target = P target.endpoint RelayProtocol.udp request.payload default_relay_timeout_ms

    raw_resolved-RelaysOnce :
        (endpoint : Text) (state : NodeState) (found : Option (List SocketAddr))
        (result : Result TargetResolveError SocketAddr)
        → resolve_socket_addr found ≡ result
        → P endpoint RelayProtocol.udp request.payload default_relay_timeout_ms
        → RelaysOnce P endpoint found (raw_resolved peer request state result)
    unfolding raw_resolved raw_status
    raw_resolved-RelaysOnce endpoint state found (err error) e h = tt
    raw_resolved-RelaysOnce endpoint state found (ok addr) e h =
        (resolve_socket_addr-eq-ok found e, h, λ now later upstream. raw_relayed-Ended now later _)

    raw_targeted-Relays :
        (state : NodeState) (result : Result TargetResolveError (Option PendingTarget))
        → ((target : PendingTarget) → result ≡ ok (some target) → Obeys target)
        → Relays P (raw_targeted peer request state result)
    unfolding raw_targeted raw_status
    raw_targeted-Relays state (err error) h = tt
    raw_targeted-Relays state (ok none) h = tt
    raw_targeted-Relays state (ok (some target)) h = λ now later found.
        raw_resolved-RelaysOnce target.endpoint later found _ refl (h target refl)

    raw_session-Relays :
        (session : UdpSessionSnapshot) (state : NodeState)
        → ((target : PendingTarget)
            → session.authenticated ≡ true
            → session_target (target_request request) session.route_target_addr session.route_policy
              ≡ ok (some target)
            → Obeys target)
        → Relays P (raw_session peer request session state)
    unfolding raw_session raw_status
    raw_session-Relays session state h = elim (Bool-cases session.authenticated) [
      | inl a ↦ rw (a, raw_session) (raw_targeted-Relays state _ (λ target e. h target a e))
      | inr a ↦ rw (a, raw_session) tt
    ]

  raw_found-Relays :
      (now : ℕ) (store : SessionStore) (found : Result UdpSessionError UdpSessionSnapshot)
      (state : NodeState)
      → (record_udp_session_io now request.session_id peer (length request.payload) 0 store).1
        ≡ found
      → Relays (Authorised now store) (raw_found peer request found state)
  unfolding raw_found raw_status snapshot
  raw_found-Relays now store (err missing) state e = tt
  raw_found-Relays now store (err expired) state e = tt
  raw_found-Relays now store (err lock_poisoned) state e = tt
  raw_found-Relays now store (ok found) state e =
      let (s, live, same) =
        answered_live now request.session_id peer (length request.payload) 0 store found e in
      raw_session-Relays (Authorised now store) found state (λ target a t. record {
        id = request.session_id;
        session = s;
        live = live;
        proven = ap (λ f. f.authenticated) (sym same) ∙ a;
        permitted =
            subst
              (λ f. Permitted f.route_policy f.route_target_addr target.endpoint RelayProtocol.udp)
              same
              (subst (Permitted found.route_policy found.route_target_addr target.endpoint)
                (udp_target found.route_target_addr found.route_policy target t)
                (session_target-Permitted (target_request request) found.route_target_addr
                  found.route_policy target t));
        waits = omega arith;
        gives_up = omega arith;
      })

  -- The same holds of the answer to a packet.
  pub raw-Relays :
      (transport : TransportKind) (now : ℕ) (state : NodeState)
      → Relays
          (Authorised now state.sessions)
          (build_raw_udp_tunnel_response peer request transport now state)
  unfolding build_raw_udp_tunnel_response raw_status
  raw-Relays transport now state = elim (Bool-cases (carries_packets transport)) [
    | inl c ↦ rw (c, build_raw_udp_tunnel_response) (raw_found-Relays now state.sessions _ _ refl)
    | inr c ↦ rw (c, build_raw_udp_tunnel_response) tt
  ]
