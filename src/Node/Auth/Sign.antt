-- ===== src/Node/Auth/Sign.antt =====
-- `sign_client_token` and `verify_probe_token` of node-core/src/auth.rs, one after the other.
use cll.Node.Auth.Claims.{Acceptable, Agrees}
use cll.Base.{
  ℕ, ◌≡◌, ◌≢◌, ◌<◌, ◌≤◌, refl, ap, ◌∙◌, false, Option, some, List, [], ◌∷◌, ◌++◌, arith, All,
}
use cll.Base.Outcome.{ok}
use cll.Text.{Text, split, trim, is_blank, trim_filter}
use cll.Text.Plain.{IsPlain, All-append, All-map, trim-plain, split-append, split-last}
use cll.Node.Messages.{ClientProbeRequest}
use cll.Node.Auth.{
  ClientTokenClaims, Codec, valid, token_prefix, token_version, signing_input, sign_client_token,
  verify_probe_token,
}
use cll.Node.Auth.Verify.{verify_probe_token-valid_iff}

abbrev pub IsByte : ℕ → Type 0
IsByte b = b < 256

-- A character of base64url is visible, and no dot.
abbrev pub IsTokenByte : ℕ → Type 0
IsTokenByte c = (33 ≤ c) × (c ≤ 126) × (c ≢ b'.')

-- What URL-safe base64 promises on bytes.
pub record IsBase64 (codec : Codec) : Type 0 where
  pub round_trip : (b : List ℕ) → All IsByte b → codec.decode64 (codec.encode64 b) ≡ some b
  pub alphabet : (b : List ℕ) → All IsByte b → All IsTokenByte (codec.encode64 b)

abbrev pub token_of : Text → Text → Text
token_of payload signature = signing_input payload ++ (b'.' ∷ signature)

token_splits :
    (p s : Text)
    → All IsTokenByte p
    → All IsTokenByte s
    → split b'.' (token_of p s) ≡ token_prefix ∷ token_version ∷ p ∷ s ∷ []
unfolding split
token_splits p s hp hs =
    let no_dot = λ (c : ℕ) (h : IsTokenByte c). h.2 in
    let last = split-last b'.' s (All-map IsTokenByte (λ c. c ≢ b'.') no_dot s hs) in
    let rest = split-append b'.' p s (All-map IsTokenByte (λ c. c ≢ b'.') no_dot p hp) in
    ap (λ t. token_prefix ∷ token_version ∷ t) (rest ∙ ap (λ t. p ∷ t) last)

token_trimmed :
    (p s : Text) → All IsTokenByte p → All IsTokenByte s → trim (token_of p s) ≡ token_of p s
token_trimmed p s hp hs =
    let visible : (c : ℕ) → IsTokenByte c → IsPlain c = λ c h. (h.0, h.1) in
    let plain : All IsPlain (p ++ (b'.' ∷ s)) =
      All-append IsPlain p (b'.' ∷ s) (All-map IsTokenByte IsPlain visible p hp)
        (omega arith, All-map IsTokenByte IsPlain visible s hs) in
    trim-plain (token_of p s)
      (All-append IsPlain (signing_input []) (p ++ (b'.' ∷ s)) (omega arith) plain)

-- A token with this payload and this signature is accepted.
pub sealed-valid :
    (codec : Codec) (now : ℕ) (request : ClientProbeRequest) (expected : Option ℕ) (secret : Text)
    (claims : ClientTokenClaims) (payload tag : List ℕ)
    → IsBase64 codec
    → codec.decode_claims payload ≡ some claims
    → All IsByte payload
    → codec.hmac secret (signing_input (codec.encode64 payload)) ≡ some tag
    → All IsByte tag
    → is_blank secret ≡ false
    → Acceptable expected now claims
    → Agrees request claims
    → request.token ≡ some (token_of (codec.encode64 payload) (codec.encode64 tag))
    → verify_probe_token codec now request expected (some secret) ≡ valid claims
sealed-valid codec now request expected secret claims payload tag b d hp m ht k a g given =
    let p = codec.encode64 payload in
    let s = codec.encode64 tag in
    let plain_p = b.alphabet payload hp in
    let plain_s = b.alphabet tag ht in
    let found : trim_filter request.token ≡ some (token_of p s) =
      unfold trim_filter in rw (given, token_trimmed p s plain_p plain_s) in
    (verify_probe_token-valid_iff codec now request expected (some secret) claims).1 (
      token_of p s,
      secret,
      record { given = found; keyed = refl; usable = k },
      record {
        payload_text = p;
        signature_text = s;
        tag = tag;
        payload = payload;
        parts = token_splits p s plain_p plain_s;
        signature_decodes = b.round_trip tag ht;
        signature_holds = m;
        payload_decodes = b.round_trip payload hp;
        claims_decode = d;
      },
      a,
      g,
    )

-- A token signed for `claims` is accepted, with these claims, by a node that has the same secret,
-- at any time at which the claims are acceptable, from a request that agrees with them.
pub verify-sign :
    (codec : Codec) (now : ℕ) (request : ClientProbeRequest) (expected : Option ℕ) (secret : Text)
    (claims : ClientTokenClaims) (payload tag : List ℕ)
    → IsBase64 codec
    → codec.encode_claims claims ≡ some payload
    → codec.decode_claims payload ≡ some claims
    → All IsByte payload
    → codec.hmac secret (signing_input (codec.encode64 payload)) ≡ some tag
    → All IsByte tag
    → is_blank secret ≡ false
    → Acceptable expected now claims
    → Agrees request claims
    → (token : Text) × (sign_client_token codec claims secret ≡ ok token)
      × (verify_probe_token codec now (record request { token = some token }) expected (some secret)
          ≡ valid claims)
unfolding sign_client_token
verify-sign codec now request expected secret claims payload tag b e d hp m ht k a g =
    let token = token_of (codec.encode64 payload) (codec.encode64 tag) in
    let agrees : Agrees (record request { token = some token }) claims = record {
      user = g.user;
      device = g.device;
      game = g.game;
      region = g.region;
    } in
    (
      token,
      rw (e, m),
      sealed-valid codec now (record request { token = some token }) expected secret claims payload
          tag b d hp m ht k a agrees refl,
    )
