-- ===== src/Text/Equality.antt =====
-- The equality tests on texts against equality.
use cll.Base.{◌≡◌, refl, ◌↔◌, subst, true, false, Option, none, some, [], ◌∷◌, arith, is_empty}
use cll.Text.{Text, text_eq, trim_filter}

text_eq_sound : (s t : Text) → text_eq s t ≡ true → s ≡ t
unfolding text_eq
text_eq_sound [] [] h = refl
text_eq_sound [] (y ∷ ys) h = cc
text_eq_sound (x ∷ xs) [] h = cc
text_eq_sound (x ∷ xs) (y ∷ ys) h = ground (arith, text_eq_sound xs ys)

pub text_eq_refl : (t : Text) → text_eq t t ≡ true
unfolding text_eq
text_eq_refl [] = refl
text_eq_refl (x ∷ xs) = ground (arith, text_eq_refl xs)

pub text_eq_iff : (s t : Text) → (text_eq s t ≡ true) ↔ (s ≡ t)
text_eq_iff s t = (text_eq_sound s t, λ e. subst (λ x. text_eq s x ≡ true) e (text_eq_refl s))

-- What `trim_filter` returns is never empty.
pub trim_filter-nonempty :
    (o : Option Text) (t : Text) → trim_filter o ≡ some t → is_empty t ≡ false
unfolding trim_filter
trim_filter-nonempty none t h = cc
trim_filter-nonempty (some s) t h = ground arith
