-- ===== src/Node/Probe/Opening.antt =====
-- Which probes open an authenticated session, for `build_probe_response` of
-- node-core/src/session.rs.
use cll.Base.{ℕ, ◌+◌, ◌%◌, ◌^◌, ◌≡◌, ◌↔◌, refl, ap, subst, ◌∙◌, true, false, none, some}
use cll.Base.Outcome.{Result, ok, err}
use cll.Text.{Text}
use cll.Text.Equality.{text_eq_refl}
use cll.Text.Map.{lookup, lookup-insert}
use cll.Net.{SocketAddr}
use cll.Node.Auth.{AuthDecision, ClientTokenClaims, missing, valid, invalid, verify_probe_token}
use cll.Node.Code.{Code}
use cll.Node.Messages.{TransportKind, ClientProbeRequest}
use cll.Node.Platform.{Platform, NodeState, count}
use cll.Node.Probe.{
  ProbeIdentity, from_request, identity_of, from_claims, grant_of, build_session_id, open_session,
  claims_checked, decided, build_probe_error_with_code, build_probe_response, probe_ttl_sec,
}
use cll.Node.Probe.Policy.{Brings, from_claims-ok_iff}
use cll.Node.Replies.{ErrorText}
use cll.Node.SessionStore.{UdpSession, new_session, register_udp_session}
use cll.Node.Stats.{next_probe_sequence, record_auth_missing, record_auth_ok, record_auth_failed}

-- An id is bound to an authenticated session.
abbrev pub Authenticated : Text → NodeState → Type 0
Authenticated id state =
    (s : UdpSession) × (lookup id state.sessions.udp_sessions ≡ some s) × (s.authenticated ≡ true)

module _ (platform : Platform) (now : ℕ) (transport : TransportKind) (peer : SocketAddr)
    (request : ClientProbeRequest) where
  -- The id of the next session.
  abbrev pub next_id : NodeState → Text
  next_id state = build_session_id now transport peer ((state.stats.probe_sequence + 1) % 2 ^ 64)

  opened :
      (identity : ProbeIdentity) (state : NodeState)
      → state.sessions.poisoned ≡ false
      → lookup
          (next_id state)
          (open_session platform now transport peer request identity state).0.sessions.udp_sessions
        ≡ some (new_session now (next_id state) (grant_of identity) probe_ttl_sec peer)
  unfolding open_session register_udp_session next_probe_sequence new_session
  opened identity state p =
      rw
        (
          p,
          lookup-insert (next_id state) (next_id state)
              (new_session now (next_id state) (grant_of identity) probe_ttl_sec peer) _,
          text_eq_refl (next_id state),
        )
        refl

  opened-Authenticated :
      (identity : ProbeIdentity) (state : NodeState)
      → state.sessions.poisoned ≡ false
      → Authenticated
          (next_id state)
          (open_session platform now transport peer request identity state).0
        ↔ (identity.credential_valid ≡ true)
  unfolding new_session grant_of
  opened-Authenticated identity state p =
      let session = new_session now (next_id state) (grant_of identity) probe_ttl_sec peer in
      (
        λ (s, f, a).
            let same : session ≡ s = cc (opened identity state p) in
            ap (λ t. t.authenticated) same ∙ a,
        λ v. (session, opened identity state p, v),
      )

  rejected-Authenticated :
      (code : Code) (message : ErrorText) (state : NodeState)
      → lookup (next_id state) state.sessions.udp_sessions ≡ none
      → ¬ Authenticated
          (next_id state)
          (build_probe_error_with_code platform now transport code message state).0
  unfolding build_probe_error_with_code
  rejected-Authenticated code message state n (s, f, a) = cc

  checked-Authenticated :
      (state : NodeState) (claims : ClientTokenClaims)
      (result : Result (Code × ErrorText) ProbeIdentity)
      → state.sessions.poisoned ≡ false
      → lookup (next_id state) state.sessions.udp_sessions ≡ none
      → from_claims platform claims request.route_policy ≡ result
      → Authenticated
          (next_id state)
          (claims_checked platform now transport peer request result state).0
        ↔ Brings platform claims request.route_policy
  unfolding claims_checked record_auth_ok record_auth_failed identity_of
  checked-Authenticated state claims (ok identity) p n e =
      let (i, brings) = (from_claims-ok_iff platform claims request.route_policy identity).0 e in
      (
        λ a. brings,
        λ b.
            (opened-Authenticated identity (count record_auth_ok state) p).1
              (ap (λ i. i.credential_valid) i),
      )
  checked-Authenticated state claims (err (code, message)) p n e = (
    λ a. absurd (
        rejected-Authenticated code message (count record_auth_failed (count record_auth_ok state))
          n a),
    λ b.
        let accepted =
          (from_claims-ok_iff platform claims request.route_policy
              (identity_of claims request.route_policy)).1
            (refl, b) in
        absurd (cc),
  )

  decided-Authenticated :
      (state : NodeState) (decision : AuthDecision)
      → state.sessions.poisoned ≡ false
      → lookup (next_id state) state.sessions.udp_sessions ≡ none
      → Authenticated (next_id state) (decided platform now transport peer request decision state).0
        ↔ ((claims : ClientTokenClaims) × (decision ≡ valid claims)
            × Brings platform claims request.route_policy)
  unfolding decided record_auth_missing record_auth_failed from_request
  decided-Authenticated state missing p n = (
    λ a. absurd (
        cc ((opened-Authenticated (from_request request) (count record_auth_missing state) p).0 a)),
    λ (claims, v, b). absurd (cc),
  )
  decided-Authenticated state (invalid code message) p n = (
    λ a. absurd (rejected-Authenticated code _ (count record_auth_failed state) n a),
    λ (claims, v, b). absurd (cc),
  )
  decided-Authenticated state (valid claims) p n =
      let checked =
        checked-Authenticated state claims (from_claims platform claims request.route_policy) p n
          refl in
      (
        λ a. (claims, refl, checked.0 a),
        λ (c, v, b).
            let same : c ≡ claims = cc in
            checked.1 (subst (λ c. Brings platform c request.route_policy) same b),
      )

  -- After a probe, on an unpoisoned store without an entry for the new session id, the store holds an
  -- authenticated session under that id exactly when the token of the probe is valid and the probe
  -- brings the policy that it signs.
  pub Authenticated-iff :
      (state : NodeState)
      → state.sessions.poisoned ≡ false
      → lookup (next_id state) state.sessions.udp_sessions ≡ none
      → Authenticated
          (next_id state)
          (build_probe_response platform now transport peer request state).0
        ↔ ((claims : ClientTokenClaims) × (verify_probe_token platform.codec now request
                state.node_id state.node_secret
              ≡ valid claims)
            × Brings platform claims request.route_policy)
  unfolding build_probe_response
  Authenticated-iff state p n = decided-Authenticated state _ p n
