-- ===== src/Control/Ticket/Issued.antt =====
-- What an answered request for a ticket has done, control-api/src/main.rs.
use cll.Base.{
  ◌∙◌, ltb, not, subst, Option-cases, ◌&&◌, Bool, some, ◌+◌, List, ℕ, ◌≡◌, Option, refl, sym, ap,
  arith, inl, inr,
}
use cll.Control.Intent.{BusinessPerSessionRoute, ConnectIntentRequest}
use cll.Node.Auth.{BusinessAuthContext, ClientTokenClaims, Codec}
use cll.Control.Ticket.{
  intent_id_of, insert_connect_intent, candidate_of, is_available, policy_of, sign_ticket,
  ConnectIntentResponse, policy_id_of, hash_of, ticket_claims, TicketClaims, EncodeClaims,
  issue_connect_intent_for_row, CandidateRow, issue_per_session_connect_intent,
  select_per_session_candidate,
}
use cll.Node.Platform.{Platform}
use cll.Control.Intent.Route.{IsRoute}
use cll.Base.Outcome.{
  ok_injective, ok_injective, ok_injective, ok_injective, ok_injective, ok_injective, ok_injective,
  ok_injective, ok_injective, ok_injective, ok_injective, ok_injective, ok_injective, ok_injective,
  ok_injective, ok_injective, ok_injective, ok_injective, ok_injective, ok_injective, ok_injective,
  ok_injective, ok_injective, ok_injective, ok_injective, bail_if, ok_injective, ok_injective,
  ok_injective, ok_injective, ok_injective, ok_or-eq-ok, ok_injective, ok_injective, ok_injective,
  ok_or, >>=-eq-ok, ok_injective, ok, ok_injective, ok_injective, ok_injective,
}
use cll.Text.{Text}
use cll.Control.Nodes.{has_id, NodeRow}
use cll.Node.Probe.Policy.{Brings, signed_policy, no_policy}
use cll.Control.Error.{invalid_node_port, internal_error, no_candidate, not_found}
use cll.Control.Table.{select_first}

-- The claims of a ticket for this row.
abbrev pub claims_of :
    ConnectIntentRequest
    → Option BusinessAuthContext
    → BusinessPerSessionRoute
    → CandidateRow
    → ℕ
    → ℕ
    → TicketClaims
claims_of request auth route row issued_at ttl_sec =
    ticket_claims request auth row route.route_policy issued_at (issued_at + ttl_sec)

-- What an answered request has done.
pub record Issued (codec : Codec) (encode : EncodeClaims) (claims : TicketClaims) (secret : Text)
    (route : BusinessPerSessionRoute) (answer : ConnectIntentResponse) : Type 0 where
  pub signed : sign_ticket codec encode claims secret ≡ ok answer.candidate.credential.token
  pub policy : answer.candidate.route_policy ≡ policy_of route.route_policy

pub issued :
    (codec : Codec) (encode : EncodeClaims) (issued_at ttl_sec : ℕ) (nodes : List NodeRow)
    (request : ConnectIntentRequest) (auth : Option BusinessAuthContext)
    (route : BusinessPerSessionRoute) (intents stored : List Text) (row : CandidateRow)
    (answer : ConnectIntentResponse)
    → select_per_session_candidate route nodes ≡ some row
    → issue_per_session_connect_intent codec encode issued_at ttl_sec nodes request auth route
        intents
      ≡ ok (stored, ok answer)
    → Issued codec encode
        (claims_of request auth route row issued_at ttl_sec)
        row.node_secret
        route
        answer
unfolding issue_per_session_connect_intent issue_connect_intent_for_row
issued codec encode issued_at ttl_sec nodes request auth route intents stored row answer found h =
    let (row2, r, h1) =
      >>=-eq-ok (ok_or (select_per_session_candidate route nodes) (not_found no_candidate)) _ h in
    let same : row2 ≡ row = cc (ok_or-eq-ok _ _ r) in
    subst
      (λ row.
        Issued codec encode (claims_of request auth route row issued_at ttl_sec) row.node_secret
          route answer)
      same
      (let claims = claims_of request auth route row2 issued_at ttl_sec in
        let (token, t, h2) = >>=-eq-ok (sign_ticket codec encode claims row2.node_secret) _ h1 in
        let (kept, k, h3) =
          >>=-eq-ok (insert_connect_intent (intent_id_of request issued_at row2.node_id) intents) _
            h2 in
        let (_, p, h4) =
          >>=-eq-ok (bail_if (not (ltb row2.server_port 65536)) (internal_error invalid_node_port))
            _ (ap (λ a. a.1) (ok_injective h3)) in
        let made = ok_injective h4 in
        record {
          signed = t ∙ ap (λ a. ok a.candidate.credential.token) made;
          policy = ap (λ a. a.candidate.route_policy) (sym made);
        })

pub record Follows (row : CandidateRow) (route : BusinessPerSessionRoute) : Type 0 where
  pub target : row.target_addr ≡ route.target_addr
  pub protocol : row.protocol ≡ route.protocol

pub row-Follows :
    (route : BusinessPerSessionRoute) (nodes : List NodeRow) (row : CandidateRow)
    → select_per_session_candidate route nodes ≡ some row
    → Follows row route
unfolding select_per_session_candidate
row-Follows route nodes row h =
    let wanted : NodeRow → Bool = λ row. has_id route.node_id row && is_available row in
    elim (Option-cases (select_first wanted nodes)) [
      | inl n ↦ absurd (ground arith)
      | inr (node, e) ↦
          let same : candidate_of route node ≡ row = ground arith in
          subst (λ row. Follows row route) same (record { target = refl; protocol = refl })
    ]

pub claims-Brings :
    (platform : Platform) (claims : ClientTokenClaims) (route : BusinessPerSessionRoute)
    → IsRoute platform route
    → claims.route_policy_hash ≡ hash_of route.route_policy
    → claims.route_policy_id ≡ policy_id_of route.route_policy
    → Brings platform claims (policy_of route.route_policy)
claims-Brings platform claims route r h i = elim (Option-cases route.route_policy) [
  | inl n ↦ no_policy (rw (h, n))
  | inr (binding, e) ↦
      signed_policy binding.hash binding.policy (rw (h, e)) (ap policy_of e)
        (record { hashed = r.hashed binding e; named = inr (rw (i, e)) })
]
