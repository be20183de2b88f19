-- ===== src/Base/Bits.antt =====
-- Masking the low bits off: `x & (MAX << k)` keeps what stands above the lowest `k` bits.
use Prim.Native.Nat.{
  ℕ, zero, suc, ◌+◌, ◌-◌, ◌*◌, ◌/◌, ◌%◌, ◌^◌, ◌≤◌, ◌<◌, min, bit_and, digits, bit_and-bitwise,
}
use mathlib.Core.Path.{◌≡◌, sym, ap}
use native.Mathlib.Nat.{pow-suc, pow-succ', one-le-pow, zero-add, suc-add, div-div-eq-div-mul}
use native.Mathlib.Omega.{arith}

-- What the native operation stands for, on fuel.
abbrev conjoin : ℕ → ℕ → ℕ → ℕ
conjoin fuel x y = digits (λ rest. zero) min fuel x y

nothing_kept : (y : ℕ) → 0 ≡ bit_and 0 y
nothing_kept y = sym (bit_and-bitwise 0 y)

-- Any fuel from the number on is enough.
enough_fuel : (n fuel x y : ℕ) → fuel ≤ n → x ≤ fuel → conjoin fuel x y ≡ bit_and x y
enough_fuel n zero zero y small fits = nothing_kept y
enough_fuel n (suc fuel) zero y small fits = nothing_kept y
enough_fuel n zero (suc x) y small fits = absurd (omega arith)
enough_fuel zero (suc fuel) (suc x) y small fits = absurd (omega arith)
enough_fuel (suc n) (suc fuel) (suc x) y small fits = omega (
  arith,
  enough_fuel n fuel (suc x / 2) (y / 2) (omega arith) (omega arith),
  enough_fuel n x (suc x / 2) (y / 2) (omega arith) (omega arith),
  bit_and-bitwise (suc x) y,
)

-- The lowest digit, and the rest.
lowest_digit : (x y : ℕ) → bit_and x y ≡ bit_and (x / 2) (y / 2) * 2 + min (x % 2) (y % 2)
lowest_digit zero y = omega (arith, nothing_kept (y / 2), nothing_kept y)
lowest_digit (suc x) y = omega (
  arith,
  enough_fuel x x (suc x / 2) (y / 2) (omega arith) (omega arith),
  bit_and-bitwise (suc x) y,
)

-- A number below 2 ^ w is kept by the mask of w ones.
bit_and-ones : (w x : ℕ) → x < 2 ^ w → bit_and x (2 ^ w - 1) ≡ x
bit_and-ones zero x h = let e : x ≡ 0 = omega arith in rw e (sym (nothing_kept (2 ^ 0 - 1)))
bit_and-ones (suc w) x h = ground (
  arith,
  lowest_digit x (2 ^ suc w - 1),
  pow-suc 2 w,
  one-le-pow w 2,
  bit_and-ones w (x / 2) (omega (arith, pow-suc 2 w)),
)

halve_mask : (m k : ℕ) → m * 2 ^ suc k ≡ 2 * (m * 2 ^ k)
halve_mask m k = omega (arith, ap (λ (t : ℕ). m * t) (pow-suc 2 k))

div-two-pow-suc : (x k : ℕ) → x / 2 ^ suc k ≡ x / 2 / 2 ^ k
div-two-pow-suc x k = rw (div-div-eq-div-mul x 2 (2 ^ k), pow-succ' 2 k)

half_lt : (n k x : ℕ) → x < 2 ^ (suc k + n) → x / 2 < 2 ^ (k + n)
half_lt n k x h =
    let e : 2 ^ (suc k + n) ≡ 2 * 2 ^ (k + n) =
      rw (suc-add k n) (omega (arith, pow-suc 2 (k + n))) in
    omega (arith, e)

-- The mask 1…10…0 with `n` ones above `k` zeros.
pub bit_and-high_mask :
    (n k x : ℕ) → x < 2 ^ (k + n) → bit_and x ((2 ^ n - 1) * 2 ^ k) ≡ x / 2 ^ k * 2 ^ k
bit_and-high_mask n zero x h = ground (arith, bit_and-ones n x (ground (arith, zero-add n)))
bit_and-high_mask n (suc k) x h = ground (
  arith,
  lowest_digit x ((2 ^ n - 1) * 2 ^ suc k),
  halve_mask (2 ^ n - 1) k,
  halve_mask (x / 2 / 2 ^ k) k,
  div-two-pow-suc x k,
  bit_and-high_mask n k (x / 2) (half_lt n k x h),
)
