-- ===== src/Net/Decimal.antt =====
-- `Display` and `FromStr` of unsigned numbers, one after the other.
use cll.Base.{
  ℕ, zero, suc, ◌+◌, ◌*◌, ◌/◌, ◌%◌, ◌^◌, ◌≡◌, ◌≤◌, ◌<◌, refl, ap, ◌∙◌, subst, sym, Bool,
  if◌then◌else◌, true, false, some, [], ◌∷◌, arith, Bool-cases, inl, inr, ltb, All,
}
use native.Mathlib.Numerals.{unary_clauses}
use cll.Text.{Text}
use cll.Net.{parse_below, to_digit, read_digits}
use cll.Net.Display.{print_digits, decimal, digit}

abbrev pub IsDigit : ℕ → Type 0
IsDigit c = (48 ≤ c) × (c ≤ 57)

pub small_quotient : (fuel n : ℕ) → n < 10 ^ suc fuel → n / 10 < 10 ^ fuel
small_quotient fuel n h = let k : n < 10 ^ fuel * 10 = simp unary_clauses at h in omega arith

read_one :
    (acc count d v k : ℕ) (t : Text)
    → d < 10
    → acc * 10 + d ≡ v
    → count + 1 ≡ k
    → read_digits 10 acc count (digit d ∷ t) ≡ read_digits 10 v k t
unfolding read_digits to_digit
read_one acc count d v k t h value counted =
    let shown : digit d ≡ 48 + d = ground arith in
    let one : to_digit 10 (48 + d) ≡ some d = ground arith in
    rw (shown, read_digits, one, value, counted) refl

if_eq : {A : Type 0} (b c : Bool) (x y : A) → b ≡ c → (if b then x else y) ≡ (if c then x else y)
if_eq b c x y e = rw e refl

print-small :
    (fuel n : ℕ) (t : Text) → ltb n 10 ≡ true → print_digits 10 (suc fuel) n t ≡ digit n ∷ t
unfolding print_digits
print-small fuel n t small = if_eq (ltb n 10) true _ _ small

print-large :
    (fuel n : ℕ) (t : Text)
    → ltb n 10 ≡ false
    → print_digits 10 (suc fuel) n t ≡ print_digits 10 fuel (n / 10) (digit (n % 10) ∷ t)
unfolding print_digits
print-large fuel n t large = if_eq (ltb n 10) false _ _ large

below_ten : (n : ℕ) → ltb n 10 ≡ true → n < 10
below_ten n h = ground arith

-- Some digits come off, and their value is the number.
read_printed :
    (fuel n : ℕ) (t : Text)
    → n < 10 ^ suc fuel
    → (k : ℕ) × (1 ≤ k)
      × (read_digits 10 0 0 (print_digits 10 (suc fuel) n t) ≡ read_digits 10 n k t)
read_printed zero n t h = (
  1,
  omega arith,
  ap (read_digits 10 0 0) (print-small 0 n t (ground arith))
      ∙ read_one 0 0 n n 1 t (omega arith) (omega arith) refl,
)
read_printed (suc fuel) n t h = elim (Bool-cases (ltb n 10)) [
  | inl small ↦ (
    1,
    omega arith,
    ap (read_digits 10 0 0) (print-small (suc fuel) n t small)
        ∙ read_one 0 0 n n 1 t (below_ten n small) (omega arith) refl,
  )
  | inr large ↦
      let (k, some_digits, before) =
        read_printed fuel (n / 10) (digit (n % 10) ∷ t) (small_quotient (suc fuel) n h) in
      (
        k + 1,
        omega arith,
        ap (read_digits 10 0 0) (print-large (suc fuel) n t large)
            ∙ before
            ∙ read_one (n / 10) k (n % 10) n (k + 1) t (omega arith) (omega arith) refl,
      )
]

digit-IsDigit : (d : ℕ) → d < 10 → IsDigit (digit d)
digit-IsDigit d h = ground arith

All-print_digits : (fuel n : ℕ) (t : Text) → All IsDigit t → All IsDigit (print_digits 10 fuel n t)
unfolding print_digits
All-print_digits zero n t h = h
All-print_digits (suc fuel) n t h = elim (Bool-cases (ltb n 10)) [
  | inl small ↦
      subst (All IsDigit) (sym (print-small fuel n t small))
        (digit-IsDigit n (below_ten n small), h)
  | inr large ↦ subst (All IsDigit) (sym (print-large fuel n t large)) (
      All-print_digits fuel (n / 10) (digit (n % 10) ∷ t) (digit-IsDigit (n % 10) (omega arith), h))
]

pub decimal-digits : (n : ℕ) → All IsDigit (decimal n)
unfolding decimal
decimal-digits n = All-print_digits 20 n [] tt

-- What is read where no sign stands in front.
unsigned :
    (bound n k : ℕ) (t : Text)
    → All IsDigit t
    → 1 ≤ k
    → n < bound
    → read_digits 10 0 0 t ≡ (n, k, [])
    → parse_below bound t ≡ some n
unfolding parse_below
unsigned bound n k [] d some_digits fits e = absurd (ground arith)
unsigned bound n k (c ∷ t) d some_digits fits e = ground arith

-- A number of 64 bits is read back from its decimal text.
pub parse-decimal : (bound n : ℕ) → n < bound → n < 2 ^ 64 → parse_below bound (decimal n) ≡ some n
unfolding decimal read_digits
parse-decimal bound n fits wide =
    let (k, some_digits, e) = read_printed 19 n [] (omega arith) in
    unsigned bound n k (decimal n) (decimal-digits n) some_digits fits e
