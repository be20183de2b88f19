-- ===== src/Node/Auth/Claims.antt =====
-- The claims of a token against what a node and a request want of them, node-core/src/auth.rs.
use cll.Node.Auth.{
  region_differs, valid, ClientRouteClaims, ClientTokenClaims, check_claims, check_route,
  match_request_claims,
}
use cll.Base.{
  ◌<◌, some, ◌==◌, ◌↔◌, ◌⊎◌, false, none, not, ◌≡◌, ℕ, Option, refl, sym, ap, arith, inl, inr,
}
use cll.Node.Messages.{ClientProbeRequest}
use cll.Text.{bytes, text_eq, is_blank, Text}
use cll.Node.RoutePolicy.{is_some_and}
use cll.Base.Outcome.{ok}
use cll.Text.Equality.{text_eq_iff}

-- What a token grants, as the node wants it.
pub record Acceptable (expected_node_id : Option ℕ) (now : ℕ) (claims : ClientTokenClaims)
    : Type 0 where
  pub for_node : (expected_node_id ≡ none) ⊎ (expected_node_id ≡ some claims.node_id)
  pub unexpired : now < claims.expires_at
  pub for_device : is_blank claims.device_id ≡ false
  pub routed :
      (claims.route ≡ none)
      ⊎ ((route : ClientRouteClaims) × (claims.route ≡ some route)
          × (is_blank route.target_addr ≡ false)
          × ((route.protocol ≡ bytes "udp") ⊎ (route.protocol ≡ bytes "tcp")))

-- What the request says of itself agrees with the claims.
pub record Agrees (request : ClientProbeRequest) (claims : ClientTokenClaims) : Type 0 where
  pub user : (request.user_id ≡ none) ⊎ (request.user_id ≡ some claims.user_id)
  pub device : (request.device_id ≡ none) ⊎ (request.device_id ≡ some claims.device_id)
  pub game : (request.game_id ≡ none) ⊎ (request.game_id ≡ some claims.game_id)
  pub region : (request.region_id ≡ none) ⊎ (request.region_id ≡ claims.region_id)

check_route_sound :
    (route : Option ClientRouteClaims)
    → check_route route ≡ ok tt
    → (route ≡ none)
      ⊎ ((r : ClientRouteClaims) × (route ≡ some r)
          × (is_blank r.target_addr ≡ false)
          × ((r.protocol ≡ bytes "udp") ⊎ (r.protocol ≡ bytes "tcp")))
unfolding check_route
check_route_sound none h = inl refl
check_route_sound (some r) h = inr (
  r,
  refl,
  ground arith,
  ground (arith, text_eq_iff r.protocol (bytes "udp"), text_eq_iff r.protocol (bytes "tcp")),
)

pub check_claims_sound :
    (expected : Option ℕ) (now : ℕ) (claims : ClientTokenClaims)
    → check_claims expected now claims ≡ ok tt
    → Acceptable expected now claims
unfolding check_claims
check_claims_sound expected now claims h = record {
  for_node = ground arith;
  unexpired = ground arith;
  for_device = ground arith;
  routed = check_route_sound claims.route (ground arith);
}

check_route_complete :
    (r : ClientRouteClaims)
    → is_blank r.target_addr ≡ false
    → (r.protocol ≡ bytes "udp") ⊎ (r.protocol ≡ bytes "tcp")
    → check_route (some r) ≡ ok tt
unfolding check_route
check_route_complete r b p =
    ground (arith, text_eq_iff r.protocol (bytes "udp"), text_eq_iff r.protocol (bytes "tcp"))

pub check_claims_complete :
    (expected : Option ℕ) (now : ℕ) (claims : ClientTokenClaims)
    → Acceptable expected now claims
    → check_claims expected now claims ≡ ok tt
unfolding check_claims
check_claims_complete expected now claims a =
    let route : check_route claims.route ≡ ok tt = elim a.routed [
      | inl e ↦ rw e (unfold check_route in refl)
      | inr (r, e, b, p) ↦ rw e (check_route_complete r b p)
    ] in
    ground arith

-- A field that the request leaves out, or gives as the token does.
number_fits :
    (o : Option ℕ) (n : ℕ)
    → (is_some_and o (λ x. not (x == n)) ≡ false) ↔ ((o ≡ none) ⊎ (o ≡ some n))
number_fits none n = ground arith
number_fits (some x) n = ground arith

text_fits :
    (o : Option Text) (t : Text)
    → (is_some_and o (λ x. not (text_eq x t)) ≡ false) ↔ ((o ≡ none) ⊎ (o ≡ some t))
text_fits none t = ground arith
text_fits (some x) t = ground (arith, text_eq_iff x t)

region_fits : (o r : Option ℕ) → (is_some_and o (region_differs r) ≡ false) ↔ ((o ≡ none) ⊎ (o ≡ r))
region_fits none r = ground arith
region_fits (some x) none = ground arith
region_fits (some x) (some y) = ground arith

pub match_request_claims_iff :
    (request : ClientProbeRequest) (claims c : ClientTokenClaims)
    → (match_request_claims request claims ≡ valid c) ↔ ((c ≡ claims) × Agrees request claims)
unfolding match_request_claims
match_request_claims_iff request claims c = (
  λ h. (
    ground arith,
    record {
      user = (number_fits request.user_id claims.user_id).0 (ground arith);
      device = (text_fits request.device_id claims.device_id).0 (ground arith);
      game = (number_fits request.game_id claims.game_id).0 (ground arith);
      region = (region_fits request.region_id claims.region_id).0 (ground arith);
    },
  ),
  λ h.
      rw
        (
          (number_fits request.user_id claims.user_id).1 h.1.user,
          (text_fits request.device_id claims.device_id).1 h.1.device,
          (number_fits request.game_id claims.game_id).1 h.1.game,
          (region_fits request.region_id claims.region_id).1 h.1.region,
        )
        (ap valid (sym h.0)),
)
