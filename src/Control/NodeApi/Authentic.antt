-- ===== src/Control/NodeApi/Authentic.antt =====
-- The signed requests that control-api/src/main.rs accepts.
use cll.Base.{
  not-false, ℕ, ◌+◌, ◌^◌, ◌≡◌, ◌≤◌, ◌↔◌, refl, sym, ap, ◌∙◌, subst, true, false, not, some, List,
  arith,
}
use cll.Base.Outcome.{ok_injective, ok, bail_if, ok_or, >>=-eq-ok, ok_or-eq-ok, bail_if-eq-ok}
use cll.Text.{Text, text_eq, is_blank}
use cll.Text.Equality.{text_eq_iff, text_eq_refl}
use cll.Net.{parse_below}
use cll.Node.ControlPlane.{canonical}
use cll.Node.Platform.{Platform}
use cll.Control.Error.{
  bad_request, unauthorized, missing_header, invalid_nonce, body_hash_mismatch, invalid_signature,
  internal, unknown_node,
}
use cll.Control.NodeApi.{
  HeaderName, Headers, Sender, x_node_id, x_node_timestamp, x_node_nonce, x_node_body_sha256,
  x_node_signature, required_header, required_header_u64, validate_node_report_timestamp,
  verify_node_signature, authenticated,
}
use cll.Control.Nodes.{NodeRow, select_node_secret}

-- A header that is present and can be read.
abbrev pub Says : Headers → HeaderName → Text → Type 0
Says headers name text = headers name ≡ some (some text)

-- A header that says a number of 64 bits.
pub record SaysNumber (headers : Headers) (name : HeaderName) (n : ℕ) : Type 0 where
  pub text : Text
  pub says : Says headers name text
  pub reads : parse_below (2 ^ 64) text ≡ some n

-- Within five minutes of the clock of the control plane.
pub record IsTimely (now timestamp : ℕ) : Type 0 where
  pub positive : 1 ≤ timestamp
  pub not_early : timestamp ≤ now + 300
  pub not_late : now ≤ timestamp + 300

-- The signature of a request, under the secret of the node.
pub record IsSigned (platform : Platform) (method path secret : Text) (timestamp : ℕ)
    (nonce body_sha256 signature body : Text) : Type 0 where
  pub nonce_present : is_blank nonce ≡ false
  pub hash_matches : body_sha256 ≡ platform.encode_base64 (platform.sha256 body)
  pub tag : List ℕ
  pub decodes : platform.decode_base64 signature ≡ some tag
  pub holds :
      platform.codec.hmac secret (canonical method path timestamp nonce body_sha256) ≡ some tag

-- What the headers of an authentic request say, and of whom.
pub record Authentic (platform : Platform) (now : ℕ) (nodes : List NodeRow) (headers : Headers)
    (method path body : Text) (sender : Sender) : Type 0 where
  pub id : SaysNumber headers x_node_id sender.node_id
  pub timestamp : SaysNumber headers x_node_timestamp sender.timestamp
  pub nonce : Says headers x_node_nonce sender.nonce
  pub body_sha256 : Text
  pub hash : Says headers x_node_body_sha256 body_sha256
  pub signature : Text
  pub signs : Says headers x_node_signature signature
  pub timely : IsTimely now sender.timestamp
  pub secret : Text
  pub registered : select_node_secret sender.node_id nodes ≡ some secret
  pub is_signed :
      IsSigned platform method path secret sender.timestamp sender.nonce body_sha256 signature body

header_said :
    (headers : Headers) (name : HeaderName) {text : Text}
    → required_header headers name ≡ ok text
    → Says headers name text
unfolding required_header
header_said headers name h =
    let (value, e, h1) = >>=-eq-ok (ok_or (headers name) (bad_request missing_header)) _ h in
    ok_or-eq-ok _ _ e ∙ ap some (ok_or-eq-ok _ _ h1)

header_read :
    (headers : Headers) (name : HeaderName) {text : Text}
    → Says headers name text
    → required_header headers name ≡ ok text
unfolding required_header
header_read headers name s = rw s refl

number_said :
    (headers : Headers) (name : HeaderName) {n : ℕ}
    → required_header_u64 headers name ≡ ok n
    → SaysNumber headers name n
unfolding required_header_u64
number_said headers name h =
    let (text, e, h1) = >>=-eq-ok (required_header headers name) _ h in
    record { text = text; says = header_said headers name e; reads = ok_or-eq-ok _ _ h1 }

number_read :
    (headers : Headers) (name : HeaderName) {n : ℕ}
    → SaysNumber headers name n
    → required_header_u64 headers name ≡ ok n
unfolding required_header_u64
number_read headers name s = rw (header_read headers name s.says, s.reads) refl

pub IsTimely-iff :
    (now timestamp : ℕ)
    → (validate_node_report_timestamp now timestamp ≡ ok tt) ↔ IsTimely now timestamp
unfolding validate_node_report_timestamp
IsTimely-iff now timestamp = (
  λ h. record { positive = ground arith; not_early = ground arith; not_late = ground arith },
  λ t. ground arith,
)

module _ (platform : Platform) (method path secret : Text) (timestamp : ℕ)
    (nonce body_sha256 signature body : Text) where
  signature_sound :
      verify_node_signature platform method path secret timestamp nonce body_sha256 signature body
        ≡ ok tt
      → IsSigned platform method path secret timestamp nonce body_sha256 signature body
  unfolding verify_node_signature
  signature_sound h =
      let (_, e1, h1) = >>=-eq-ok (bail_if (is_blank nonce) (bad_request invalid_nonce)) _ h in
      let (_, e2, h2) =
        >>=-eq-ok
          (bail_if (not (text_eq body_sha256 (platform.encode_base64 (platform.sha256 body))))
            (bad_request body_hash_mismatch))
          _ h1 in
      let (given, e3, h3) =
        >>=-eq-ok (ok_or (platform.decode_base64 signature) (unauthorized invalid_signature)) _
          h2 in
      let (tag, e4, h4) =
        >>=-eq-ok
          (ok_or (platform.codec.hmac secret (canonical method path timestamp nonce body_sha256))
            internal)
          _ h3 in
      let same : tag ≡ given = (text_eq_iff tag given).0 (not-false _ (bail_if-eq-ok _ _ h4)) in
      record {
        nonce_present = bail_if-eq-ok _ _ e1;
        hash_matches = (text_eq_iff body_sha256 _).0 (not-false _ (bail_if-eq-ok _ _ e2));
        tag = tag;
        decodes = ok_or-eq-ok _ _ e3 ∙ ap some (sym same);
        holds = ok_or-eq-ok _ _ e4;
      }

  signature_complete :
      IsSigned platform method path secret timestamp nonce body_sha256 signature body
      → verify_node_signature platform method path secret timestamp nonce body_sha256 signature body
        ≡ ok tt
  unfolding verify_node_signature
  signature_complete s =
      let hash : text_eq body_sha256 (platform.encode_base64 (platform.sha256 body)) ≡ true =
        (text_eq_iff body_sha256 _).1 s.hash_matches in
      rw (s.nonce_present, hash, s.decodes, s.holds, text_eq_refl s.tag) refl

-- The control plane takes a request as that of a sender exactly when its headers say the sender's id,
-- timestamp and nonce and the hash of the body, the timestamp is not 0 and at most 300 seconds off the
-- clock, the nonce is not blank, and the signature is the one of method, path, timestamp, nonce and
-- hash under the secret that the table keeps for the id.
pub authenticated-ok_iff :
    (platform : Platform) (now : ℕ) (nodes : List NodeRow) (headers : Headers)
    (method path body : Text) (sender : Sender)
    → (authenticated platform now nodes headers method path body ≡ ok sender)
      ↔ Authentic platform now nodes headers method path body sender
unfolding authenticated
authenticated-ok_iff platform now nodes headers method path body sender = (sound, complete)
  where
    sound :
        authenticated platform now nodes headers method path body ≡ ok sender
        → Authentic platform now nodes headers method path body sender
    sound h =
        let (node_id, e1, h1) = >>=-eq-ok (required_header_u64 headers x_node_id) _ h in
        let (ts, e2, h2) = >>=-eq-ok (required_header_u64 headers x_node_timestamp) _ h1 in
        let (nonce, e3, h3) = >>=-eq-ok (required_header headers x_node_nonce) _ h2 in
        let (body_sha256, e4, h4) = >>=-eq-ok (required_header headers x_node_body_sha256) _ h3 in
        let (signature, e5, h5) = >>=-eq-ok (required_header headers x_node_signature) _ h4 in
        let (_, e6, h6) = >>=-eq-ok (validate_node_report_timestamp now ts) _ h5 in
        let (secret, e7, h7) =
          >>=-eq-ok (ok_or (select_node_secret node_id nodes) (unauthorized unknown_node)) _ h6 in
        let (_, e8, h8) =
          >>=-eq-ok
            (verify_node_signature platform method path secret ts nonce body_sha256 signature body)
            _ h7 in
        subst (Authentic platform now nodes headers method path body) (ok_injective h8) (record {
          id = number_said headers x_node_id e1;
          timestamp = number_said headers x_node_timestamp e2;
          nonce = header_said headers x_node_nonce e3;
          body_sha256 = body_sha256;
          hash = header_said headers x_node_body_sha256 e4;
          signature = signature;
          signs = header_said headers x_node_signature e5;
          timely = (IsTimely-iff now ts).0 e6;
          secret = secret;
          registered = ok_or-eq-ok _ _ e7;
          is_signed =
              signature_sound platform method path secret ts nonce body_sha256 signature body e8;
        })

    complete :
        Authentic platform now nodes headers method path body sender
        → authenticated platform now nodes headers method path body ≡ ok sender
    complete a =
        rw
          (
            number_read headers x_node_id a.id,
            number_read headers x_node_timestamp a.timestamp,
            header_read headers x_node_nonce a.nonce,
            header_read headers x_node_body_sha256 a.hash,
            header_read headers x_node_signature a.signs,
            (IsTimely-iff now sender.timestamp).1 a.timely,
            a.registered,
            signature_complete platform method path a.secret sender.timestamp sender.nonce
                a.body_sha256 a.signature body a.is_signed,
          )
          refl
