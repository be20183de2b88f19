-- ===== src/Wire.antt =====
-- Big-endian fields in byte strings: `to_be_bytes`, and `from_be_bytes` of a slice that `get` takes.
pub mod Fields
use cll.Base.{
  ℕ, ◌+◌, ◌*◌, ◌/◌, ◌%◌, ◌^◌, Bool, true, false, Option, none, some, List, [], ◌∷◌, ltb,
  if◌then◌else◌, get_slice,
}
use cll.Text.{Text}

abbrev pub to_be16 : ℕ → Text
to_be16 n = (n / 256) ∷ (n % 256) ∷ []

abbrev pub to_be32 : ℕ → Text
to_be32 n = (n / 16777216) ∷ (n / 65536 % 256) ∷ (n / 256 % 256) ∷ (n % 256) ∷ []

abbrev pub two : Option Text → Option ℕ
two (some (a ∷ b ∷ [])) = some (a * 256 + b)
two _ = none

abbrev pub four : Option Text → Option ℕ
four (some (a ∷ b ∷ c ∷ d ∷ [])) = some (((a * 256 + b) * 256 + c) * 256 + d)
four _ = none

unfoldable pub be16_at : Text → ℕ → Option ℕ
be16_at payload offset = two (get_slice payload offset (offset + 2))

unfoldable pub be32_at : Text → ℕ → Option ℕ
be32_at payload offset = four (get_slice payload offset (offset + 4))

-- `usize::checked_add`, at 64 bits.
abbrev pub checked_add : ℕ → ℕ → Option ℕ
checked_add a b = if ltb (a + b) (2 ^ 64) then some (a + b) else none

-- `payload[index]` behind a check of the length.
abbrev pub byte_at : Text → ℕ → ℕ
byte_at [] i = 0
byte_at (x ∷ xs) Prim.Native.Nat.zero = x
byte_at (x ∷ xs) (Prim.Native.Nat.suc i) = byte_at xs i
