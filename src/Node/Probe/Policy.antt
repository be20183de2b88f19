-- ===== src/Node/Probe/Policy.antt =====
-- `ProbeIdentity::from_claims` of node-core/src/session.rs against a description of what a probe has
-- to bring.
use cll.Base.{◌≡◌, refl, ap, ◌∙◌, ◌↔◌, ◌⊎◌, true, false, Option, none, some, arith, not}
use cll.Base.Outcome.{ok, bail_if, ok_or, >>=-eq-ok, ok_or-eq-ok, bail_if-eq-ok}
use cll.Text.{Text, text_eq}
use cll.Text.Equality.{text_eq_iff, text_eq_refl}
use cll.Node.Auth.{ClientTokenClaims}
use cll.Node.Platform.{Platform, hash_route_policy}
use cll.Node.Probe.{ProbeIdentity, check_policy, identity_of, from_claims, check_hash}
use cll.Node.RoutePolicy.{RoutePolicy, is_some_and}

-- The policy is the one that the token signs, by its hash and, if the token has one, by its id.
pub record Signs (platform : Platform) (claims : ClientTokenClaims) (hash : Text)
    (policy : RoutePolicy) : Type 0 where
  pub hashed : hash_route_policy platform policy ≡ some hash
  pub named : (claims.route_policy_id ≡ none) ⊎ (claims.route_policy_id ≡ some policy.policy_id)

-- What a probe has to bring for the claims of its token.
pub data Brings (platform : Platform) (claims : ClientTokenClaims) (given : Option RoutePolicy)
    : Type 0 where
  no_policy : claims.route_policy_hash ≡ none → Brings platform claims given
  signed_policy :
      (hash : Text) (policy : RoutePolicy)
      → claims.route_policy_hash ≡ some hash
      → given ≡ some policy
      → Signs platform claims hash policy
      → Brings platform claims given

id_fits :
    (o : Option Text) (t : Text)
    → (is_some_and o (λ x. not (text_eq t x)) ≡ false) ↔ ((o ≡ none) ⊎ (o ≡ some t))
id_fits none t = ground arith
id_fits (some x) t = ground (arith, text_eq_iff t x)

check_policy_sound :
    (platform : Platform) (claims : ClientTokenClaims) (hash : Text) (given : Option RoutePolicy)
    → check_policy platform claims hash given ≡ ok tt
    → (policy : RoutePolicy) × (given ≡ some policy) × Signs platform claims hash policy
unfolding check_policy
check_policy_sound platform claims hash given h =
    let (policy, g, h1) = >>=-eq-ok (ok_or given _) _ h in
    let (actual, a, h2) = >>=-eq-ok (ok_or (hash_route_policy platform policy) _) _ h1 in
    let (u, b, h3) = >>=-eq-ok (bail_if (not (text_eq actual hash)) _) _ h2 in
    let same : text_eq actual hash ≡ true = ground (arith, bail_if-eq-ok _ _ b) in
    (
      policy,
      ok_or-eq-ok given _ g,
      record {
        hashed = ok_or-eq-ok _ _ a ∙ ap some ((text_eq_iff actual hash).0 same);
        named = (id_fits claims.route_policy_id policy.policy_id).0 (bail_if-eq-ok _ _ h3);
      },
    )

check_policy_complete :
    (platform : Platform) (claims : ClientTokenClaims) (hash : Text) (policy : RoutePolicy)
    → Signs platform claims hash policy
    → check_policy platform claims hash (some policy) ≡ ok tt
unfolding check_policy
check_policy_complete platform claims hash policy s =
    rw (s.hashed, text_eq_refl hash, (id_fits claims.route_policy_id policy.policy_id).1 s.named)

check_hash_sound :
    (platform : Platform) (claims : ClientTokenClaims) (given : Option RoutePolicy)
    (o : Option Text)
    → claims.route_policy_hash ≡ o
    → check_hash platform claims given o ≡ ok tt
    → Brings platform claims given
unfolding check_hash
check_hash_sound platform claims given none n h = no_policy n
check_hash_sound platform claims given (some hash) n h =
    let (policy, g, s) = check_policy_sound platform claims hash given h in
    signed_policy hash policy n g s

check_hash_complete :
    (platform : Platform) (claims : ClientTokenClaims) (given : Option RoutePolicy)
    → Brings platform claims given
    → check_hash platform claims given claims.route_policy_hash ≡ ok tt
unfolding check_hash
check_hash_complete platform claims given (no_policy n) = ap (check_hash platform claims given) n
check_hash_complete platform claims given (signed_policy hash policy n g s) =
    ap (check_hash platform claims given) n
    ∙ ap (check_policy platform claims hash) g
    ∙ check_policy_complete platform claims hash policy s

-- Claims are turned into an identity exactly when the probe brings what they ask for: nothing where
-- they hold no policy hash, else a policy with that hash, and with the id that they name if they
-- name one. The identity is then the one of the claims.
pub from_claims-ok_iff :
    (platform : Platform) (claims : ClientTokenClaims) (given : Option RoutePolicy)
    (identity : ProbeIdentity)
    → (from_claims platform claims given ≡ ok identity)
      ↔ ((identity ≡ identity_of claims given) × Brings platform claims given)
unfolding from_claims
from_claims-ok_iff platform claims given identity = (
  λ h.
      let (u, c, i) = >>=-eq-ok (check_hash platform claims given claims.route_policy_hash) _ h in
      (cc, check_hash_sound platform claims given claims.route_policy_hash refl c),
  λ (e, b). rw (check_hash_complete platform claims given b, e),
)
