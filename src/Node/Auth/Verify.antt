-- ===== src/Node/Auth/Verify.antt =====
-- `verify_probe_token` of node-core/src/auth.rs against a description of the tokens it accepts.
use cll.Base.{
  not-false, ℕ, not, ◌≡◌, refl, sym, ap, subst, ◌∙◌, ◌↔◌, inl, inr, false, Option, none, some, List,
  [], ◌∷◌, arith, Option-cases,
}
use cll.Base.Outcome.{
  ok_injective, Result, ok, err, bail_if, ok_or, >>=-eq-ok, ok_or-eq-ok, bail_if-eq-ok,
}
use cll.Text.{Text, text_eq, split, is_blank, trim_filter}
use cll.Text.Equality.{text_eq_iff, text_eq_refl}
use cll.Node.Messages.{ClientProbeRequest}
use cll.Node.Auth.{
  bad_format, signature_not_base64, verifier_failed, signature_mismatch, payload_not_base64,
  payload_not_json, decide, ClientTokenClaims, Codec, TokenError, valid, token_prefix,
  token_version, signing_input, token_parts, check_claims, verify_token, verify_probe_token,
  usable_secret,
}
use cll.Node.Auth.Claims.{
  check_claims_sound, check_claims_complete, match_request_claims_iff, Acceptable, Agrees,
}

-- A token in the right format whose signature holds under `key`, and what it says.
pub record Signed (codec : Codec) (key token : Text) (claims : ClientTokenClaims) : Type 0 where
  pub payload_text : Text
  pub signature_text : Text
  pub tag : List ℕ
  pub payload : List ℕ
  pub parts : split b'.' token ≡ token_prefix ∷ token_version ∷ payload_text ∷ signature_text ∷ []
  pub signature_decodes : codec.decode64 signature_text ≡ some tag
  pub signature_holds : codec.hmac key (signing_input payload_text) ≡ some tag
  pub payload_decodes : codec.decode64 payload_text ≡ some payload
  pub claims_decode : codec.decode_claims payload ≡ some claims

token_parts_sound :
    (parts : List Text) (p s : Text)
    → token_parts parts ≡ some (p, s)
    → parts ≡ token_prefix ∷ token_version ∷ p ∷ s ∷ []
unfolding token_parts
token_parts_sound [] p s h = cc
token_parts_sound (a ∷ []) p s h = cc
token_parts_sound (a ∷ b ∷ []) p s h = cc
token_parts_sound (a ∷ b ∷ c ∷ []) p s h = cc
token_parts_sound (a ∷ b ∷ c ∷ d ∷ []) p s h =
    ground (arith, text_eq_iff a token_prefix, text_eq_iff b token_version)
token_parts_sound (a ∷ b ∷ c ∷ d ∷ e ∷ rest) p s h = cc

token_parts_complete :
    (p s : Text) → token_parts (token_prefix ∷ token_version ∷ p ∷ s ∷ []) ≡ some (p, s)
unfolding token_parts
token_parts_complete p s = ground (arith, text_eq_refl token_prefix, text_eq_refl token_version)

verify_token_sound :
    (codec : Codec) (now : ℕ) (token : Text) (expected : Option ℕ) (key : Text)
    (claims : ClientTokenClaims)
    → verify_token codec now token expected key ≡ ok claims
    → Signed codec key token claims × Acceptable expected now claims
unfolding verify_token
verify_token_sound codec now token expected key claims h =
    let (parts, e1, h1) = >>=-eq-ok (ok_or (token_parts (split b'.' token)) bad_format) _ h in
    let (signature, e2, h2) =
      >>=-eq-ok (ok_or (codec.decode64 parts.1) signature_not_base64) _ h1 in
    let (tag, e3, h3) =
      >>=-eq-ok (ok_or (codec.hmac key (signing_input parts.0)) verifier_failed) _ h2 in
    let (_, e4, h4) = >>=-eq-ok (bail_if (not (text_eq tag signature)) signature_mismatch) _ h3 in
    let (payload, e5, h5) = >>=-eq-ok (ok_or (codec.decode64 parts.0) payload_not_base64) _ h4 in
    let (said, e6, h6) = >>=-eq-ok (ok_or (codec.decode_claims payload) payload_not_json) _ h5 in
    let (_, e7, h7) = >>=-eq-ok (check_claims expected now said) _ h6 in
    let same : tag ≡ signature =
      (text_eq_iff tag signature).0 (not-false _ (bail_if-eq-ok _ _ e4)) in
    let is_claims : said ≡ claims = ok_injective h7 in
    (
      record {
        payload_text = parts.0;
        signature_text = parts.1;
        tag = tag;
        payload = payload;
        parts = token_parts_sound (split b'.' token) parts.0 parts.1 (ok_or-eq-ok _ _ e1);
        signature_decodes = ok_or-eq-ok _ _ e2 ∙ ap some (sym same);
        signature_holds = ok_or-eq-ok _ _ e3;
        payload_decodes = ok_or-eq-ok _ _ e5;
        claims_decode = ok_or-eq-ok _ _ e6 ∙ ap some is_claims;
      },
      subst (Acceptable expected now) is_claims (check_claims_sound expected now said e7),
    )

verify_token_complete :
    (codec : Codec) (now : ℕ) (token : Text) (expected : Option ℕ) (key : Text)
    (claims : ClientTokenClaims)
    → Signed codec key token claims
    → Acceptable expected now claims
    → verify_token codec now token expected key ≡ ok claims
unfolding verify_token
verify_token_complete codec now token expected key claims s a = rw (
  s.parts,
  token_parts_complete s.payload_text s.signature_text,
  s.signature_decodes,
  s.signature_holds,
  text_eq_refl s.tag,
  s.payload_decodes,
  s.claims_decode,
  check_claims_complete expected now claims a,
)

-- The token of a request, trimmed, and the key, as the decision uses them.
pub record Presented (request : ClientProbeRequest) (secret : Option Text) (token key : Text)
    : Type 0 where
  pub given : trim_filter request.token ≡ some token
  pub keyed : secret ≡ some key
  pub usable : is_blank key ≡ false

decide_sound :
    (request : ClientProbeRequest) (r : Result TokenError ClientTokenClaims)
    (claims : ClientTokenClaims)
    → decide request r ≡ valid claims
    → (r ≡ ok claims) × Agrees request claims
decide_sound request (err e) claims h = absurd (cc)
decide_sound request (ok c) claims h =
    let (e, a) = (match_request_claims_iff request c claims).0 h in
    (ap ok (sym e), subst (Agrees request) (sym e) a)

usable_secret_sound :
    (secret : Option Text) (key : Text)
    → usable_secret secret ≡ some key
    → (secret ≡ some key) × (is_blank key ≡ false)
usable_secret_sound none key h = absurd (cc)
usable_secret_sound (some s) key h = ground arith

valid_sound :
    (codec : Codec) (now : ℕ) (request : ClientProbeRequest) (expected : Option ℕ)
    (secret : Option Text) (claims : ClientTokenClaims)
    → verify_probe_token codec now request expected secret ≡ valid claims
    → (token : Text) × (key : Text) × Presented request secret token key
      × Signed codec key token claims
      × Acceptable expected now claims
      × Agrees request claims
unfolding verify_probe_token
valid_sound codec now request expected secret claims h =
    elim (Option-cases (trim_filter request.token)) [
      | inl e ↦ absurd (cc (rw (e, verify_probe_token) at h))
      | inr (token, e) ↦ elim (Option-cases (usable_secret secret)) [
        | inl k ↦ absurd (cc (rw (e, k, verify_probe_token) at h))
        | inr (key, k) ↦
            let decided : decide request (verify_token codec now token expected key)
                ≡ valid claims =
              rw (e, k, verify_probe_token) at h in
            let (verified, agrees) =
              decide_sound request (verify_token codec now token expected key) claims decided in
            let (signed, acceptable) =
              verify_token_sound codec now token expected key claims verified in
            let (keyed, usable) = usable_secret_sound secret key k in
            (
              token,
              key,
              record { given = e; keyed = keyed; usable = usable },
              signed,
              acceptable,
              agrees,
            )
      ]
    ]

-- A probe is accepted with `claims` exactly when its trimmed token, under the node's usable secret,
-- is in the format and its signature holds and says `claims`; the claims are for this node (if it
-- knows its id), unexpired, for a device, and with a complete route if any; and what the request says
-- of its user, device, game and region agrees with them.
pub verify_probe_token-valid_iff :
    (codec : Codec) (now : ℕ) (request : ClientProbeRequest) (expected : Option ℕ)
    (secret : Option Text) (claims : ClientTokenClaims)
    → (verify_probe_token codec now request expected secret ≡ valid claims) ↔ (
        (token : Text) × (key : Text) × Presented request secret token key
        × Signed codec key token claims
        × Acceptable expected now claims
        × Agrees request claims)
verify_probe_token-valid_iff codec now request expected secret claims = (
  valid_sound codec now request expected secret claims,
  λ (token, key, p, s, a, g).
      unfold verify_probe_token in
      let keyed : usable_secret secret ≡ some key = rw p.keyed (rw p.usable) in
      rw
        (
          p.given,
          keyed,
          verify_probe_token,
          verify_token_complete codec now token expected key claims s a,
        )
        ((match_request_claims_iff request claims claims).1 (refl, g)),
)
