-- ===== src/Text/Chars.antt =====
-- The characters of a UTF-8 text, and the search for a text in another.
use cll.Base.{
  ℕ, zero, suc, ◌+◌, ◌≡◌, refl, Bool, true, false, ◌&&◌, ◌||◌, [], ◌∷◌, leb, ◌==◌, if◌then◌else◌,
}
use cll.Text.{Text, bytes}

-- Every byte of UTF-8 but the continuations starts a character.
abbrev pub is_continuation : ℕ → Bool
is_continuation c = leb 0x80 c && leb c 0xbf

-- `chars().count()`.
abbrev pub count_chars : Text → ℕ
count_chars [] = 0
count_chars (c ∷ t) = (if is_continuation c then 0 else 1) + count_chars t

-- `chars().take(n).collect()`.
unfoldable pub take_chars : ℕ → Text → Text
take_chars n [] = []
take_chars zero (c ∷ t) = if is_continuation c then c ∷ take_chars zero t else []
take_chars (suc n) (c ∷ t) = c ∷ take_chars (if is_continuation c then suc n else n) t

unfoldable pub starts_with : Text → Text → Bool
starts_with t [] = true
starts_with [] (p ∷ ps) = false
starts_with (c ∷ t) (p ∷ ps) = c == p && starts_with t ps

-- `contains`.
unfoldable pub contains : Text → Text → Bool
unfolding starts_with
contains [] pattern = starts_with [] pattern
contains (c ∷ t) pattern = starts_with (c ∷ t) pattern || contains t pattern

takes_whole_chars :
    (take_chars 2 (b'a' ∷ 0xc3 ∷ 0xa9 ∷ b'b' ∷ []) ≡ b'a' ∷ 0xc3 ∷ 0xa9 ∷ [])
    × (contains (bytes "https://api.example.com/") (bytes "api.example.com") ≡ true)
unfolding take_chars contains
takes_whole_chars = (refl, refl)
