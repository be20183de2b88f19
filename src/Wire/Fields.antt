-- ===== src/Wire/Fields.antt =====
-- Reading back what was written at a known place.
use cll.Base.{
  ℕ, zero, suc, ◌+◌, ◌-◌, ◌^◌, ◌≤◌, ◌<◌, ◌≡◌, refl, sym, ap, ◌∙◌, some, [], ◌∷◌, ◌++◌, arith,
  length, take, drop, get_slice, length-append, length-drop, take-append, drop-append,
}
use native.Mathlib.Nat.{zero-add, suc-add, add-sub_cancel_left}
use cll.Text.{Text}
use cll.Wire.{to_be16, to_be32, be16_at, be32_at}

drop-nil : (n : ℕ) → drop {A = ℕ} n [] ≡ []
drop-nil zero = refl
drop-nil (suc n) = refl

pub drop-add : (m n : ℕ) (xs : Text) → drop (m + n) xs ≡ drop n (drop m xs)
drop-add zero n xs = rw zero-add
drop-add (suc m) n [] = drop-nil (suc m + n) ∙ sym (drop-nil n)
drop-add (suc m) n (x ∷ xs) = rw suc-add (drop-add m n xs)

-- Behind a field stands what was written behind it.
pub drop-field :
    (p : Text) (off : ℕ) (mid post : Text)
    → drop off p ≡ mid ++ post
    → drop (off + length mid) p ≡ post
drop-field p off mid post e = drop-add off (length mid) p ∙ rw e (drop-append mid post)

pub field_fits :
    (p : Text) (off : ℕ) (mid post : Text)
    → drop off p ≡ mid ++ post
    → off ≤ length p
    → off + length mid ≤ length p
field_fits p off mid post e h =
    omega (arith, ap length e, length-drop off p, length-append mid post)

-- A slice that starts where `mid ++ post` stands.
pub slice_at :
    (p : Text) (off : ℕ) (mid post : Text)
    → drop off p ≡ mid ++ post
    → off ≤ length p
    → get_slice p off (off + length mid) ≡ some mid
slice_at p off mid post e h =
    let taken : take (off + length mid - off) (drop off p) ≡ mid =
      rw (add-sub_cancel_left off (length mid), e) (take-append mid post) in
    ground (arith, taken, field_fits p off mid post e h)

length-le-append : (pre post : Text) → length pre ≤ length (pre ++ post)
length-le-append pre post = omega (arith, length-append pre post)

pub be16_at-to_be16 :
    (pre post : Text) (n : ℕ)
    → n < 2 ^ 16
    → be16_at (pre ++ (to_be16 n ++ post)) (length pre) ≡ some n
unfolding be16_at
be16_at-to_be16 pre post n h =
    let cut : get_slice (pre ++ (to_be16 n ++ post)) (length pre) (length pre + 2)
        ≡ some (to_be16 n) =
      slice_at (pre ++ (to_be16 n ++ post)) (length pre) (to_be16 n) post
        (drop-append pre (to_be16 n ++ post)) (length-le-append pre (to_be16 n ++ post)) in
    rw cut (ground arith)

pub be32_at-to_be32 :
    (pre post : Text) (n : ℕ)
    → n < 2 ^ 32
    → be32_at (pre ++ (to_be32 n ++ post)) (length pre) ≡ some n
unfolding be32_at
be32_at-to_be32 pre post n h =
    let cut : get_slice (pre ++ (to_be32 n ++ post)) (length pre) (length pre + 4)
        ≡ some (to_be32 n) =
      slice_at (pre ++ (to_be32 n ++ post)) (length pre) (to_be32 n) post
        (drop-append pre (to_be32 n ++ post)) (length-le-append pre (to_be32 n ++ post)) in
    rw cut (ground arith)
