-- ===== src/Text/Plain.antt =====
-- Trimming and splitting of texts of visible ASCII.
use mathlib.Core.List.{reverse, reverse-cons, reverse-reverse}
use cll.Base.{ℕ, ◌≡◌, ◌≢◌, ◌≤◌, refl, List, [], ◌∷◌, ◌++◌, arith, All}
use cll.Text.{Text, trim, split, skip, space_front, space_back}

abbrev pub IsPlain : ℕ → Type 0
IsPlain c = (33 ≤ c) × (c ≤ 126)

pub All-append {ℓ} :
    {A : Type 0} (P : A → Type ℓ) (xs ys : List A) → All P xs → All P ys → All P (xs ++ ys)
All-append P [] ys a b = b
All-append P (x ∷ xs) ys a b = (a.0, All-append P xs ys a.1 b)

pub All-map {ℓ κ} :
    {A : Type 0} (P : A → Type ℓ) (Q : A → Type κ)
    → ((x : A) → P x → Q x)
    → (xs : List A) → All P xs
    → All Q xs
All-map P Q f [] a = tt
All-map P Q f (x ∷ xs) a = (f x a.0, All-map P Q f xs a.1)

All-reverse : (xs : Text) → All IsPlain xs → All IsPlain (reverse xs)
All-reverse [] a = tt
All-reverse (x ∷ xs) a =
    rw (reverse-cons x xs) (All-append IsPlain (reverse xs) (x ∷ []) (All-reverse xs a.1) (a.0, tt))

front-plain : (t : Text) → All IsPlain t → space_front t ≡ 0
unfolding space_front
front-plain [] a = refl
front-plain (x ∷ []) a = ground arith
front-plain (x ∷ y ∷ []) a = ground arith
front-plain (x ∷ y ∷ z ∷ t) a = ground arith

back-plain : (t : Text) → All IsPlain t → space_back t ≡ 0
unfolding space_back
back-plain [] a = refl
back-plain (x ∷ []) a = ground arith
back-plain (x ∷ y ∷ []) a = ground arith
back-plain (x ∷ y ∷ z ∷ t) a = ground arith

skip-none : (width : Text → ℕ) (t : Text) → width t ≡ 0 → skip width 0 t ≡ t
unfolding skip
skip-none width [] e = refl
skip-none width (x ∷ xs) e = rw (e, skip)

pub trim-plain : (t : Text) → All IsPlain t → trim t ≡ t
unfolding trim
trim-plain t a = rw (
  skip-none space_front t (front-plain t a),
  skip-none space_back (reverse t) (back-plain (reverse t) (All-reverse t a)),
  reverse-reverse,
)

pub split-append :
    (sep : ℕ) (a t : Text) → All (λ c. c ≢ sep) a → split sep (a ++ (sep ∷ t)) ≡ a ∷ split sep t
unfolding split
split-append sep [] t h = ground arith
split-append sep (c ∷ a) t h = ground (arith, split-append sep a t h.1)

pub split-last : (sep : ℕ) (a : Text) → All (λ c. c ≢ sep) a → split sep a ≡ a ∷ []
unfolding split
split-last sep [] h = refl
split-last sep (c ∷ a) h = ground (arith, split-last sep a h.1)
