-- ===== src/Control/NodeApi/Signing.antt =====
-- The signed requests of node-core/src/control_plane.rs, as control-api/src/main.rs reads them.
use cll.Base.{
  inr, inl, ◌^◌, ap, ◌<◌, Option-cases, ◌∙◌, ℕ, ◌≡◌, refl, false, some, List, ◌∷◌, [], ◌++◌, arith,
  is_empty, All,
}
use cll.Text.{Text, is_blank}
use cll.Text.Plain.{IsPlain, All-append, All-map, trim-plain}
use cll.Net.Decimal.{parse-decimal, IsDigit, decimal-digits}
use cll.Net.Display.{decimal}
use cll.Node.Auth.Sign.{IsByte}
use cll.Node.ControlPlane.{
  Credentials, NodeRequest, canonical, sign_request, node_request, next_nonce,
}
use cll.Node.Platform.{Platform}
use cll.Control.NodeApi.{
  authenticated, HeaderName, Headers, x_node_id, x_node_timestamp, x_node_nonce, x_node_body_sha256,
  x_node_signature,
}
use cll.Control.NodeApi.Authentic.{authenticated-ok_iff, IsTimely, Says}
use cll.Control.Nodes.{select_node_secret, NodeRow}
use cll.Base.Outcome.{ok}

-- The headers as the control plane reads them, if the network brings what the node wrote.
pub record Carries (headers : Headers) (request : NodeRequest) : Type 0 where
  pub id : Says headers x_node_id (decimal request.node_id)
  pub timestamp : Says headers x_node_timestamp (decimal request.timestamp)
  pub nonce : Says headers x_node_nonce request.nonce
  pub hash : Says headers x_node_body_sha256 request.signed.body_sha256
  pub signature : Says headers x_node_signature request.signed.signature

-- What base64 and HMAC promise.
pub record IsSigner (platform : Platform) (secret : Text) : Type 0 where
  pub round_trip :
      (b : List ℕ) → All IsByte b → platform.decode_base64 (platform.encode_base64 b) ≡ some b
  pub tags_are_bytes :
      (message : Text) (tag : List ℕ)
      → platform.codec.hmac secret message ≡ some tag
      → All IsByte tag

IsPlain-digit : (c : ℕ) → IsDigit c → IsPlain c
IsPlain-digit c h = omega arith

IsPlain-decimal : (n : ℕ) → All IsPlain (decimal n)
IsPlain-decimal n = All-map IsDigit IsPlain IsPlain-digit (decimal n) (decimal-digits n)

dash_inside : (s t : Text) → is_empty (s ++ (b'-' ∷ t)) ≡ false
dash_inside [] t = refl
dash_inside (c ∷ s) t = refl

pub nonce_present :
    (process_id timestamp counter : ℕ)
    → is_blank (next_nonce process_id timestamp counter).0 ≡ false
unfolding next_nonce
nonce_present process_id timestamp counter =
    let behind : Text = decimal timestamp ++ (b'-' ∷ decimal counter) in
    let plain : All IsPlain (decimal process_id ++ (b'-' ∷ behind)) =
      All-append IsPlain (decimal process_id) (b'-' ∷ behind) (IsPlain-decimal process_id) (
        omega arith,
        All-append IsPlain (decimal timestamp) (b'-' ∷ decimal counter) (IsPlain-decimal timestamp)
            (omega arith, IsPlain-decimal counter),
      ) in
    rw (trim-plain _ plain) (dash_inside (decimal process_id) behind)

-- What the node puts into a request that it can sign.
record Filled (platform : Platform) (credentials : Credentials) (timestamp : ℕ)
    (nonce method path body : Text) (request : NodeRequest) : Type 0 where
  tag : List ℕ
  tagged :
      platform.codec.hmac credentials.node_secret
        (canonical method path timestamp nonce (platform.encode_base64 (platform.sha256 body)))
      ≡ some tag
  of_node : request.node_id ≡ credentials.node_id
  at_time : request.timestamp ≡ timestamp
  with_nonce : request.nonce ≡ nonce
  with_hash : request.signed.body_sha256 ≡ platform.encode_base64 (platform.sha256 body)
  with_signature : request.signed.signature ≡ platform.encode_base64 tag

request-Filled :
    (platform : Platform) (credentials : Credentials) (timestamp : ℕ)
    (nonce method path body : Text) (request : NodeRequest)
    → node_request platform credentials timestamp nonce method path body ≡ some request
    → Filled platform credentials timestamp nonce method path body request
unfolding node_request sign_request
request-Filled platform credentials timestamp nonce method path body request e =
    let hash = platform.encode_base64 (platform.sha256 body) in
    elim (Option-cases
      (platform.codec.hmac credentials.node_secret (canonical method path timestamp nonce hash))) [
        | inl m ↦ absurd (ground arith)
        | inr (tag, m) ↦ record {
          tag = tag;
          tagged = m;
          of_node = ground arith;
          at_time = ground arith;
          with_nonce = ground arith;
          with_hash = ground arith;
          with_signature = ground arith;
        }
      ]

says :
    (headers : Headers) (name : HeaderName) {s t : Text}
    → Says headers name s
    → s ≡ t
    → Says headers name t
says headers name h e = h ∙ ap (λ u. some (some u)) e

-- A request that the node signs is taken as its own by a control plane that keeps the same secret for
-- it, in time.
pub request-authenticated :
    (platform : Platform) (credentials : Credentials) (now timestamp : ℕ) (nodes : List NodeRow)
    (headers : Headers) (nonce method path body : Text) (request : NodeRequest)
    → IsSigner platform credentials.node_secret
    → node_request platform credentials timestamp nonce method path body ≡ some request
    → Carries headers request
    → credentials.node_id < 2 ^ 64
    → timestamp < 2 ^ 64
    → IsTimely now timestamp
    → is_blank nonce ≡ false
    → select_node_secret credentials.node_id nodes ≡ some credentials.node_secret
    → authenticated platform now nodes headers method path body
      ≡ ok (record { node_id = credentials.node_id; timestamp = timestamp; nonce = nonce })
request-authenticated platform credentials now timestamp nodes headers nonce method path body
      request signer e c small_id small_time timely present registered =
    let f = request-Filled platform credentials timestamp nonce method path body request e in
    let hash = platform.encode_base64 (platform.sha256 body) in
    (authenticated-ok_iff platform now nodes headers method path body
        (record { node_id = credentials.node_id; timestamp = timestamp; nonce = nonce })).1
      (record {
        id = record {
          text = decimal credentials.node_id;
          says = says headers x_node_id c.id (ap decimal f.of_node);
          reads = parse-decimal (2 ^ 64) credentials.node_id small_id small_id;
        };
        timestamp = record {
          text = decimal timestamp;
          says = says headers x_node_timestamp c.timestamp (ap decimal f.at_time);
          reads = parse-decimal (2 ^ 64) timestamp small_time small_time;
        };
        nonce = says headers x_node_nonce c.nonce f.with_nonce;
        body_sha256 = hash;
        hash = says headers x_node_body_sha256 c.hash f.with_hash;
        signature = platform.encode_base64 f.tag;
        signs = says headers x_node_signature c.signature f.with_signature;
        timely = timely;
        secret = credentials.node_secret;
        registered = registered;
        is_signed = record {
          nonce_present = present;
          hash_matches = refl;
          tag = f.tag;
          decodes = signer.round_trip f.tag (signer.tags_are_bytes _ f.tag f.tagged);
          holds = f.tagged;
        };
      })
