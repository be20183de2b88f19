-- ===== src/Control/Ticket/Opens.antt =====
-- From a request for a ticket at control-api/src/main.rs to the session that the ticket opens at a node
-- of node-core/src.
use cll.Node.Auth.Claims.{Acceptable}
use cll.Control.Ticket.{
  policy_id_of, hash_of, select_per_session_candidate, ticket_claims, CandidateRow,
  ConnectIntentResponse, EncodeClaims, issue_per_session_connect_intent,
}
use cll.Control.Intent.{
  auth_context, per_session_route, to_connect_intent_request, BusinessConnectIntentRequest,
  BusinessPerSessionRoute, ConnectIntentRequest,
}
use cll.Node.Auth.{BusinessAuthContext}
use cll.Base.{refl, none, inr, ◌<◌, ◌==◌, false, sym, ◌∙◌, subst, some, ◌+◌, List, ℕ, Option, ◌≡◌}
use cll.Base.Outcome.{bail_if-eq-ok, bail_if, >>=-eq-ok, ok}
use cll.Control.Error.{invalid_device, invalid_user, bad_request}
use cll.Text.{is_blank, Text}
use cll.Control.Nodes.{NodeRow}
use cll.Node.Platform.{NodeState, Platform}
use cll.Control.Intent.Checks.{
  validate_business_connect_intent_request, validate_connect_intent_request,
}
use cll.Control.Intent.Route.{per_session_route-IsRoute, IsRoute}
use cll.Node.Probe.Policy.{Brings}
use cll.Node.Messages.{ClientProbeRequest, TransportKind}
use cll.Net.{SocketAddr}
use cll.Control.Ticket.Accepted.{ticket_valid, Presents, IsTicketCodec}
use cll.Text.Map.{lookup}
use cll.Node.Probe.Opening.{Authenticated-iff, Authenticated, next_id}
use cll.Node.Probe.{build_probe_response}
use cll.Control.Ticket.Issued.{claims-Brings, row-Follows, issued, Follows, claims_of}

device_present :
    (request : ConnectIntentRequest)
    → validate_connect_intent_request request ≡ ok tt
    → is_blank request.device_id ≡ false
unfolding validate_connect_intent_request
device_present request h =
    let (_, u, h1) = >>=-eq-ok (bail_if (request.user_id == 0) (bad_request invalid_user)) _ h in
    let (_, d, h2) =
      >>=-eq-ok (bail_if (is_blank request.device_id) (bad_request invalid_device)) _ h1 in
    bail_if-eq-ok _ _ d

device_validated :
    (platform : Platform) (now : ℕ) (given : BusinessConnectIntentRequest)
    → validate_business_connect_intent_request platform now given ≡ ok tt
    → is_blank (to_connect_intent_request given).device_id ≡ false
unfolding validate_business_connect_intent_request
device_validated platform now given h =
    let request = to_connect_intent_request given in
    let (u, v, h1) = >>=-eq-ok (validate_connect_intent_request request) _ h in
    device_present request v

module _ (request : ConnectIntentRequest) (auth : Option BusinessAuthContext)
    (route : BusinessPerSessionRoute) (row : CandidateRow) (issued_at ttl_sec : ℕ) where
  hash_claimed :
      (claims_of request auth route row issued_at ttl_sec).claims.route_policy_hash
      ≡ hash_of route.route_policy
  unfolding ticket_claims
  hash_claimed = refl

  id_claimed :
      (claims_of request auth route row issued_at ttl_sec).claims.route_policy_id
      ≡ policy_id_of route.route_policy
  unfolding ticket_claims
  id_claimed = refl

claims-Acceptable :
    (platform : Platform) (request : ConnectIntentRequest) (auth : Option BusinessAuthContext)
    (route : BusinessPerSessionRoute) (row : CandidateRow) (issued_at ttl_sec now : ℕ)
    → IsRoute platform route
    → Follows row route
    → is_blank request.device_id ≡ false
    → now < issued_at + ttl_sec
    → Acceptable (some row.node_id) now (claims_of request auth route row issued_at ttl_sec).claims
unfolding ticket_claims
claims-Acceptable platform request auth route row issued_at ttl_sec now r f d t = record {
  for_node = inr refl;
  unexpired = t;
  for_device = d;
  routed = inr (
    record { target_addr = row.target_addr; protocol = row.protocol },
    refl,
    rw f.target r.target_present,
    rw f.protocol r.protocol_known,
  );
}

-- A ticket opens an authenticated session. Let a request for a ticket with a route be validated and
-- answered, and let the codecs read back the claims of the ticket. Then a probe with the ticket and
-- the policy of the answer, that says nothing else of itself than the ticket, makes an authenticated
-- session under the next session id, before the ticket ends, at any node with the id and the secret
-- of the chosen row, if the secret is not blank, the session store is not poisoned and has no entry
-- for that id.
pub ticket_opens_session :
    (platform : Platform) (encode : EncodeClaims) (given : BusinessConnectIntentRequest)
    (route : BusinessPerSessionRoute) (issued_at ttl_sec : ℕ) (nodes : List NodeRow)
    (row : CandidateRow) (intents stored : List Text) (answer : ConnectIntentResponse) (now : ℕ)
    (transport : TransportKind) (peer : SocketAddr) (probe : ClientProbeRequest) (state : NodeState)
    → validate_business_connect_intent_request platform issued_at given ≡ ok tt
    → per_session_route platform given ≡ ok (some route)
    → select_per_session_candidate route nodes ≡ some row
    → issue_per_session_connect_intent platform.codec encode issued_at ttl_sec nodes
        (to_connect_intent_request given)
        (some (auth_context given))
        route
        intents
      ≡ ok (stored, ok answer)
    → IsTicketCodec platform.codec encode (
        claims_of
          (to_connect_intent_request given)
          (some (auth_context given))
          route
          row
          issued_at
          ttl_sec)
    → Presents probe
        (claims_of
          (to_connect_intent_request given)
          (some (auth_context given))
          route
          row
          issued_at
          ttl_sec).claims
        answer.candidate
    → now < issued_at + ttl_sec
    → is_blank row.node_secret ≡ false
    → state.node_id ≡ some row.node_id
    → state.node_secret ≡ some row.node_secret
    → state.sessions.poisoned ≡ false
    → lookup (next_id platform now transport peer probe state) state.sessions.udp_sessions ≡ none
    → Authenticated
        (next_id platform now transport peer probe state)
        (build_probe_response platform now transport peer probe state).0
unfolding ticket_claims
ticket_opens_session platform encode given route issued_at ttl_sec nodes row intents stored answer
      now transport peer probe state valid_request routed selected answered codec presents in_time
      keyed same_node same_secret unpoisoned fresh =
    let request = to_connect_intent_request given in
    let auth = some (auth_context given) in
    let claims = claims_of request auth route row issued_at ttl_sec in
    let r = per_session_route-IsRoute platform given route routed in
    let done =
      issued platform.codec encode issued_at ttl_sec nodes request auth route intents stored row
        answer selected answered in
    let acceptable =
      claims-Acceptable platform request auth route row issued_at ttl_sec now r
        (row-Follows route nodes row selected)
        (device_validated platform issued_at given valid_request) in_time in
    let brought : Brings platform claims.claims probe.route_policy =
      subst (Brings platform claims.claims) (sym (presents.policy ∙ done.policy)) (
        claims-Brings platform claims.claims route r
          (hash_claimed request auth route row issued_at ttl_sec)
          (id_claimed request auth route row issued_at ttl_sec)) in
    (Authenticated-iff platform now transport peer probe state unpoisoned fresh).1 (
      claims.claims,
      rw (same_node, same_secret)
          (ticket_valid platform.codec encode claims row.node_secret
            answer.candidate.credential.token now probe codec done.signed keyed acceptable
            presents.agrees presents.token),
      brought,
    )
