-- ===== src/Tests/Tokens.antt =====
-- A token, signed and checked.
use cll.Node.Auth.Claims.{Acceptable, Agrees}
use cll.Base.{ℕ, ◌≡◌, refl, inl, inr, some, List, [], ◌∷◌, ◌++◌, arith}
use cll.Base.Outcome.{ok}
use cll.Text.{trim_filter, split, text_eq, Text, bytes, trim}
use cll.Node.Auth.{sign_client_token, verify_probe_token, valid, signing_input}
use cll.Node.Auth.Sign.{verify-sign}
use cll.Node.Auth.Verify.{Presented, Signed, verify_probe_token-valid_iff}
use cll.Node.Messages.{ClientProbeRequest}
use cll.Node.Platform.{hash_route_policy}
use cll.Node.Probe.{identity_of, from_claims}
use cll.Node.Probe.Policy.{Signs, signed_policy, from_claims-ok_iff}
use cll.Tests.Toy.{
  codec, codec-IsBase64, claims, claims_json, request, policy_hash, platform, policy, encode64,
}

abbrev pub secret : Text
secret = bytes "key"

pub claims-Acceptable : Acceptable (some 7) 500 claims
unfolding trim
claims-Acceptable = record {
  for_node = inr refl;
  unexpired = omega arith;
  for_device = refl;
  routed = inr (_, refl, refl, inl refl);
}

pub request-Agrees : Agrees request claims
request-Agrees = record { user = inr refl; device = inl refl; game = inl refl; region = inl refl }

abbrev tag : List ℕ
tag = 3 ∷ 11 ∷ []

verify-sign_example :
    (token : Text) × (sign_client_token codec claims secret ≡ ok token)
    × (verify_probe_token codec 500 (record request { token = some token }) (some 7) (some secret)
        ≡ valid claims)
unfolding trim text_eq
verify-sign_example =
    verify-sign codec 500 request (some 7) secret claims claims_json tag codec-IsBase64 refl refl
      (omega arith) refl (omega arith) refl claims-Acceptable request-Agrees

-- The token of the claims, signed by hand.
abbrev pub token : Text
token = signing_input (encode64 claims_json) ++ (b'.' ∷ encode64 tag)

pub token-Signed : Signed codec secret token claims
unfolding text_eq split
token-Signed = record {
  payload_text = encode64 claims_json;
  signature_text = encode64 tag;
  tag = tag;
  payload = claims_json;
  parts = refl;
  signature_decodes = refl;
  signature_holds = refl;
  payload_decodes = refl;
  claims_decode = refl;
}

abbrev pub asked : ClientProbeRequest
asked = record request { token = some token }

pub token-Presented : Presented asked (some secret) token secret
unfolding trim trim_filter
token-Presented = record { given = refl; keyed = refl; usable = refl }

pub asked-Agrees : Agrees asked claims
asked-Agrees = record { user = inr refl; device = inl refl; game = inl refl; region = inl refl }

verify_probe_token-valid_iff_example :
    verify_probe_token codec 500 asked (some 7) (some secret) ≡ valid claims
verify_probe_token-valid_iff_example =
    (verify_probe_token-valid_iff codec 500 asked (some 7) (some secret) claims).1
      (token, secret, token-Presented, token-Signed, claims-Acceptable, asked-Agrees)

-- What the node of the next runs has checked.
pub accepted : verify_probe_token codec 500 asked (some 7) (some secret) ≡ valid claims
accepted =
    (verify_probe_token-valid_iff codec 500 asked (some 7) (some secret) claims).1
      (token, secret, token-Presented, token-Signed, claims-Acceptable, asked-Agrees)

pub policy-Signs : Signs platform claims policy_hash policy
unfolding hash_route_policy
policy-Signs = record { hashed = refl; named = inr refl }

from_claims-ok_iff_example :
    from_claims platform claims (some policy) ≡ ok (identity_of claims (some policy))
from_claims-ok_iff_example =
    (from_claims-ok_iff platform claims (some policy) (identity_of claims (some policy))).1
      (refl, signed_policy policy_hash policy refl refl policy-Signs)
