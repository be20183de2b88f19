-- ===== src/Control/Ticket/Accepted.antt =====
-- A ticket of control-api/src/main.rs at the node of node-core/src that it names.
use cll.Node.Auth.Claims.{Acceptable, Agrees}
use cll.Node.Auth.{valid, verify_probe_token, signing_input, ClientTokenClaims, Codec}
use cll.Control.Ticket.{NodeCandidate, TicketClaims, EncodeClaims, sign_ticket}
use cll.Node.Messages.{ClientProbeRequest}
use cll.Node.Auth.Sign.{sealed-valid, IsByte, token_of, IsBase64}
use cll.Text.{is_blank, Text}
use cll.Base.{ap, ◌∙◌, false, All, List, some, ℕ, ◌≡◌}
use cll.Base.Outcome.{ok_or-eq-ok, ok_or, >>=-eq-ok, ok}
use cll.Control.Error.{internal}

-- What base64, HMAC and the JSON of the claims promise: the node reads the claims of the control plane
-- without the fields that it does not know.
pub record IsTicketCodec (codec : Codec) (encode : EncodeClaims) (claims : TicketClaims)
    : Type 0 where
  pub base64 : IsBase64 codec
  pub readable :
      (payload : Text)
      → encode claims ≡ some payload
      → codec.decode_claims payload ≡ some claims.claims
  pub json_is_bytes : (payload : Text) → encode claims ≡ some payload → All IsByte payload
  pub tags_are_bytes :
      (key message : Text) (tag : List ℕ) → codec.hmac key message ≡ some tag → All IsByte tag

-- How a token of the control plane is made.
record Sealed (codec : Codec) (encode : EncodeClaims) (claims : TicketClaims) (secret token : Text)
    : Type 0 where
  payload : Text
  tag : List ℕ
  encoded : encode claims ≡ some payload
  tagged : codec.hmac secret (signing_input (codec.encode64 payload)) ≡ some tag
  token_is : token ≡ token_of (codec.encode64 payload) (codec.encode64 tag)

ticket-Sealed :
    (codec : Codec) (encode : EncodeClaims) (claims : TicketClaims) (secret token : Text)
    → sign_ticket codec encode claims secret ≡ ok token
    → Sealed codec encode claims secret token
unfolding sign_ticket
ticket-Sealed codec encode claims secret token h =
    let (payload, e1, h1) = >>=-eq-ok (ok_or (encode claims) internal) _ h in
    let (tag, e2, h2) =
      >>=-eq-ok (ok_or (codec.hmac secret (signing_input (codec.encode64 payload))) internal) _
        h1 in
    record {
      payload = payload;
      tag = tag;
      encoded = ok_or-eq-ok _ _ e1;
      tagged = ok_or-eq-ok _ _ e2;
      token_is = cc;
    }

-- The probe that a client makes of a ticket: its token and its policy, and nothing that the claims do
-- not say.
pub record Presents (request : ClientProbeRequest) (claims : ClientTokenClaims)
    (candidate : NodeCandidate) : Type 0 where
  pub token : request.token ≡ some candidate.credential.token
  pub policy : request.route_policy ≡ candidate.route_policy
  pub agrees : Agrees request claims

pub ticket_valid :
    (codec : Codec) (encode : EncodeClaims) (claims : TicketClaims) (secret token : Text) (now : ℕ)
    (request : ClientProbeRequest)
    → IsTicketCodec codec encode claims
    → sign_ticket codec encode claims secret ≡ ok token
    → is_blank secret ≡ false
    → Acceptable (some claims.claims.node_id) now claims.claims
    → Agrees request claims.claims
    → request.token ≡ some token
    → verify_probe_token codec now request (some claims.claims.node_id) (some secret)
      ≡ valid claims.claims
ticket_valid codec encode claims secret token now request c signed k a g t =
    let s = ticket-Sealed codec encode claims secret token signed in
    sealed-valid codec now request (some claims.claims.node_id) secret claims.claims s.payload s.tag
      c.base64 (c.readable s.payload s.encoded) (c.json_is_bytes s.payload s.encoded) s.tagged
      (c.tags_are_bytes secret _ s.tag s.tagged) k a g (t ∙ ap some s.token_is)
