-- ===== src/Node/Auth.antt =====
-- node-core/src/auth.rs: client tokens `xat.v1.payload.signature`.
-- Base64, HMAC-SHA-256 and the JSON of the claims are third-party code: the parameter `Codec`.
pub mod Claims
pub mod Verify
pub mod Sign
use cll.Base.{
  ℕ, Bool, true, false, ◌&&◌, ◌||◌, Option, none, some, List, [], ◌∷◌, ◌++◌, leb, ◌==◌, not,
  if◌then◌else◌,
}
use cll.Base.Outcome.{Result, ok, err, ◌>>=◌, ◌>>◌, bail_if, ok_or}
use cll.Text.{Text, bytes, text_eq, split, is_blank, trim_filter}
use cll.Node.Code.{Code}
use cll.Node.Messages.{ClientProbeRequest}
use cll.Node.RoutePolicy.{is_some_and}

pub record BusinessAuthContext : Type 0 where
  pub entitlement_id : Option Text
  pub order_id : Option Text
  pub subscription_id : Option Text
  pub business_session_id : Option Text
  pub entitlement_verified : Bool
  pub device_verified : Bool
  pub entitlement_expires_at : Option ℕ
  pub risk_level : Option Text
  pub business_trace_id : Option Text

pub record ClientRouteClaims : Type 0 where
  pub target_addr : Text
  pub protocol : Text

pub record ClientTokenClaims : Type 0 where
  pub node_id : ℕ
  pub user_id : ℕ
  pub device_id : Text
  pub game_id : ℕ
  pub game_key : Option Text
  pub region_id : Option ℕ
  pub business : Option BusinessAuthContext
  pub intent_id : Option Text
  pub route_policy_hash : Option Text
  pub route_policy_id : Option Text
  pub route : Option ClientRouteClaims
  pub expires_at : ℕ
  pub issued_at : Option ℕ
  pub nonce : Option Text

-- The operations of the third-party code. `hmac key message` is the tag, or `none` where the key is
-- refused; `encode_claims` and `decode_claims` are `serde_json`.
pub record Codec : Type 0 where
  pub encode64 : List ℕ → Text
  pub decode64 : Text → Option (List ℕ)
  pub hmac : Text → Text → Option (List ℕ)
  pub encode_claims : ClientTokenClaims → Option Text
  pub decode_claims : Text → Option ClientTokenClaims

-- The errors of `verify_token`, one for each message.
pub data TokenError : Type 0 where
  bad_format signature_not_base64 verifier_failed signature_mismatch : TokenError
  payload_not_base64 payload_not_json wrong_node token_expired : TokenError
  device_id_required route_target_required route_protocol_invalid : TokenError
  claims_not_encoded signer_failed : TokenError

pub data AuthMessage : Type 0 where
  node_secret_missing : AuthMessage
  token_refused : TokenError → AuthMessage
  user_id_differs device_id_differs game_id_differs region_id_differs : AuthMessage

pub data AuthDecision : Type 0 where
  missing : AuthDecision
  valid : ClientTokenClaims → AuthDecision
  invalid : Code → AuthMessage → AuthDecision

abbrev pub token_prefix : Text
token_prefix = bytes "xat"

abbrev pub token_version : Text
token_version = bytes "v1"

-- `format!("{}.{}.{}", prefix, version, payload)`.
abbrev pub signing_input : Text → Text
signing_input payload = token_prefix ++ (b'.' ∷ (token_version ++ (b'.' ∷ payload)))

-- The payload and the signature of a token in the right format.
unfoldable pub token_parts : List Text → Option (Text × Text)
token_parts (prefix ∷ version ∷ payload ∷ signature ∷ []) =
    if text_eq prefix token_prefix && text_eq version token_version
    then some (payload, signature)
    else none
token_parts _ = none

unfoldable pub check_route : Option ClientRouteClaims → Result TokenError (Unit {0})
check_route none = ok tt
check_route (some route) = do
  bail_if (is_blank route.target_addr) route_target_required
  bail_if (not (text_eq route.protocol (bytes "udp")) && not (text_eq route.protocol (bytes "tcp")))
      route_protocol_invalid

-- The checks on claims whose signature holds, at time `now`.
unfoldable pub check_claims : Option ℕ → ℕ → ClientTokenClaims → Result TokenError (Unit {0})
check_claims expected_node_id now claims = do
  bail_if (is_some_and expected_node_id (λ node_id. not (claims.node_id == node_id))) wrong_node
  bail_if (leb claims.expires_at now) token_expired
  bail_if (is_blank claims.device_id) device_id_required
  check_route claims.route

unfoldable pub verify_token :
    Codec → ℕ → Text → Option ℕ → Text → Result TokenError ClientTokenClaims
verify_token codec now token expected_node_id secret = do
  (payload_text, signature_text) ← ok_or (token_parts (split b'.' token)) bad_format
  signature ← ok_or (codec.decode64 signature_text) signature_not_base64
  tag ← ok_or (codec.hmac secret (signing_input payload_text)) verifier_failed
  bail_if (not (text_eq tag signature)) signature_mismatch
  payload ← ok_or (codec.decode64 payload_text) payload_not_base64
  claims ← ok_or (codec.decode_claims payload) payload_not_json
  check_claims expected_node_id now claims
  ok claims

-- `Some(region_id) != claims.region_id`.
abbrev region_differs : Option ℕ → ℕ → Bool
region_differs none region_id = true
region_differs (some r) region_id = not (region_id == r)

unfoldable pub match_request_claims : ClientProbeRequest → ClientTokenClaims → AuthDecision
match_request_claims request claims =
    if is_some_and request.user_id (λ user_id. not (user_id == claims.user_id))
    then invalid Code.claim_mismatch user_id_differs
    else if is_some_and request.device_id (λ device_id. not (text_eq device_id claims.device_id))
    then invalid Code.claim_mismatch device_id_differs
    else if is_some_and request.game_id (λ game_id. not (game_id == claims.game_id))
    then invalid Code.claim_mismatch game_id_differs
    else if is_some_and request.region_id (region_differs claims.region_id)
    then invalid Code.claim_mismatch region_id_differs
    else valid claims

-- `secret.filter(|secret| !secret.trim().is_empty())`.
abbrev pub usable_secret : Option Text → Option Text
usable_secret none = none
usable_secret (some secret) = if is_blank secret then none else some secret

abbrev decide : ClientProbeRequest → Result TokenError ClientTokenClaims → AuthDecision
decide request (ok claims) = match_request_claims request claims
decide request (err error) = invalid Code.invalid_token (token_refused error)

unfoldable pub verify_probe_token :
    Codec → ℕ → ClientProbeRequest → Option ℕ → Option Text → AuthDecision
verify_probe_token codec now request expected_node_id secret = elim (trim_filter request.token) [
  | none ↦ missing
  | some token ↦ elim (usable_secret secret) [
    | none ↦ invalid Code.auth_not_ready node_secret_missing
    | some key ↦ decide request (verify_token codec now token expected_node_id key)
  ]
]

unfoldable pub sign_client_token : Codec → ClientTokenClaims → Text → Result TokenError Text
sign_client_token codec claims secret = do
  payload ← ok_or (codec.encode_claims claims) claims_not_encoded
  let input = signing_input (codec.encode64 payload)
  tag ← ok_or (codec.hmac secret input) signer_failed
  ok (input ++ (b'.' ∷ codec.encode64 tag))
