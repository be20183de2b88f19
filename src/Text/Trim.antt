-- ===== src/Text/Trim.antt =====
-- Trimming a text twice.
use mathlib.Core.List.{reverse, reverse-reverse, reverse-append}
use cll.Text.{skip, space_front, space_back, Text, trim}
use cll.Base.{zero, subst, inr, ap, arith, inl, ◌∙◌, ◌∷◌, ◌⊎◌, [], suc, sym, ℕ, ◌++◌, ◌≡◌, refl}

-- What is left begins with no white space, and ends the text.
skip-stops :
    (width : Text → ℕ) (k : ℕ) (t : Text) → (skip width k t ≡ []) ⊎ (width (skip width k t) ≡ 0)
unfolding skip
skip-stops width k [] = inl refl
skip-stops width (suc k) (x ∷ xs) = skip-stops width k xs
skip-stops width zero (x ∷ xs) = go (width (x ∷ xs)) refl (λ w. skip-stops width w xs)
  where
    go :
        (n : ℕ)
        → width (x ∷ xs) ≡ n
        → ((w : ℕ) → (skip width w xs ≡ []) ⊎ (width (skip width w xs) ≡ 0))
        → let left : Text = elim n [ zero ↦ x ∷ xs | suc w ↦ skip width w xs ] in
          (left ≡ []) ⊎ (width left ≡ 0)
    go zero e rest = inr e
    go (suc w) e rest = rest w

skip-suffix : (width : Text → ℕ) (k : ℕ) (t : Text) → (front : Text) × (t ≡ front ++ skip width k t)
unfolding skip
skip-suffix width k [] = ([], refl)
skip-suffix width (suc k) (x ∷ xs) =
    let (front, e) = skip-suffix width k xs in (x ∷ front, ap (λ t. x ∷ t) e)
skip-suffix width zero (x ∷ xs) = go (width (x ∷ xs)) (λ w. skip-suffix width w xs)
  where
    go :
        (n : ℕ)
        → ((w : ℕ) → (front : Text) × (xs ≡ front ++ skip width w xs))
        → let left : Text = elim n [ zero ↦ x ∷ xs | suc w ↦ skip width w xs ] in
          (front : Text) × (x ∷ xs ≡ front ++ left)
    go zero rest = ([], refl)
    go (suc w) rest = let (front, e) = rest w in (x ∷ front, ap (λ t. x ∷ t) e)

skip-done : (width : Text → ℕ) (t : Text) → (t ≡ []) ⊎ (width t ≡ 0) → skip width 0 t ≡ t
unfolding skip
skip-done width [] h = refl
skip-done width (x ∷ xs) (inl e) = absurd (cc)
skip-done width (x ∷ xs) (inr e) = rw (e, skip) refl

-- The front of a text without white space in front has none either.
front-prefix : (t rest : Text) → space_front (t ++ rest) ≡ 0 → space_front t ≡ 0
unfolding space_front
front-prefix [] rest e = refl
front-prefix (a ∷ []) [] e = ground arith
front-prefix (a ∷ []) (b ∷ []) e = ground arith
front-prefix (a ∷ []) (b ∷ c ∷ rest) e = ground arith
front-prefix (a ∷ b ∷ []) [] e = ground arith
front-prefix (a ∷ b ∷ []) (c ∷ rest) e = ground arith
front-prefix (a ∷ b ∷ c ∷ t) rest e = ground arith

empty-prefix : (s t : Text) → s ++ t ≡ [] → s ≡ []
empty-prefix [] t e = refl
empty-prefix (x ∷ s) t e = absurd (cc)

pub trim-trim : (t : Text) → trim (trim t) ≡ trim t
unfolding trim
trim-trim t =
    let u = skip space_front 0 t in
    let r = skip space_back 0 (reverse u) in
    let (before, suffix) = skip-suffix space_back 0 (reverse u) in
    let prefix : u ≡ reverse r ++ reverse before =
      sym (reverse-reverse u) ∙ ap reverse suffix ∙ reverse-append before r in
    let begins : (reverse r ≡ []) ⊎ (space_front (reverse r) ≡ 0) =
      elim (skip-stops space_front 0 t) [
        | inl e ↦ inl (empty-prefix (reverse r) (reverse before) (sym prefix ∙ e))
        | inr e ↦
            inr
              (front-prefix (reverse r) (reverse before) (subst (λ x. space_front x ≡ 0) prefix e))
      ] in
    let in_front = skip-done space_front (reverse r) begins in
    let behind = skip-done space_back r (skip-stops space_back 0 (reverse u)) in
    ap (λ x. reverse (skip space_back 0 (reverse x))) in_front
    ∙ ap (λ x. reverse (skip space_back 0 x)) (reverse-reverse r)
    ∙ ap reverse behind
