-- ===== src/Text.antt =====
-- Rust's `String` and `str` by their UTF-8 bytes, and the methods of `str` that the program calls.
pub mod Equality
pub mod Map
pub mod Plain
pub mod Chars
pub mod Trim
use Prim.Native.Char.{code}
use Prim.Native.String.{String}
use mathlib.Core.List.{reverse}
use cll.Base.{
  ℕ, zero, suc, ◌+◌, ◌-◌, ◌≡◌, refl, Bool, true, false, ◌&&◌, ◌||◌, Option, none, some, List, [],
  ◌∷◌, map, leb, ltb, ◌==◌, if◌then◌else◌, not, is_empty,
}

abbrev pub Text : Type 0
Text = List ℕ

-- The bytes of an ASCII literal.
abbrev pub bytes : String → Text
bytes (String.◌∷◌ letter literal) = code letter ∷ bytes literal
bytes String.[] = []

-- `==` on texts and on byte strings.
unfoldable pub text_eq : Text → Text → Bool
text_eq [] [] = true
text_eq [] (y ∷ ys) = false
text_eq (x ∷ xs) [] = false
text_eq (x ∷ xs) (y ∷ ys) = x == y && text_eq xs ys

unfoldable pub lower_byte : ℕ → ℕ
lower_byte c = if leb b'A' c && leb c b'Z' then c + 32 else c

-- `to_ascii_lowercase`.
unfoldable pub to_ascii_lowercase : Text → Text
unfolding lower_byte
to_ascii_lowercase = map lower_byte

unfoldable pub eq_ignore_ascii_case : Text → Text → Bool
unfolding text_eq to_ascii_lowercase
eq_ignore_ascii_case s t = text_eq (to_ascii_lowercase s) (to_ascii_lowercase t)

-- The characters of `char::is_whitespace`, by their UTF-8 bytes: one, two or three of them.
abbrev space_one : ℕ → Bool
space_one a = (leb 9 a && leb a 13) || a == 32

abbrev space_two : ℕ → ℕ → Bool
space_two a b = a == 0xc2 && (b == 0x85 || b == 0xa0)

abbrev space_three : ℕ → ℕ → ℕ → Bool
space_three a b c =
    (a == 0xe1 && b == 0x9a && c == 0x80)
    || (a == 0xe2
        && b == 0x80
        && ((leb 0x80 c && leb c 0x8a) || c == 0xa8 || c == 0xa9 || c == 0xaf))
    || (a == 0xe2 && b == 0x81 && c == 0x9f)
    || (a == 0xe3 && b == 0x80 && c == 0x80)

-- How many bytes the white space at the front of a text takes, and 0 where none stands there.
space_front : Text → ℕ
space_front [] = 0
space_front (a ∷ []) = if space_one a then 1 else 0
space_front (a ∷ b ∷ []) = if space_one a then 1 else if space_two a b then 2 else 0
space_front (a ∷ b ∷ c ∷ t) =
    if space_one a then 1 else if space_two a b then 2 else if space_three a b c then 3 else 0

-- The same at the front of a reversed text.
space_back : Text → ℕ
space_back [] = 0
space_back (a ∷ []) = if space_one a then 1 else 0
space_back (a ∷ b ∷ []) = if space_one a then 1 else if space_two b a then 2 else 0
space_back (a ∷ b ∷ c ∷ t) =
    if space_one a then 1 else if space_two b a then 2 else if space_three c b a then 3 else 0

-- Drops `k` bytes and then the white space that follows, as `width` measures it.
skip : (Text → ℕ) → ℕ → Text → Text
skip width k [] = []
skip width (suc k) (x ∷ xs) = skip width k xs
skip width zero (x ∷ xs) = elim (width (x ∷ xs)) [ zero ↦ x ∷ xs | suc w ↦ skip width w xs ]

-- `str::trim`.
unfoldable pub trim : Text → Text
unfolding space_front space_back skip
trim t = reverse (skip space_back 0 (reverse (skip space_front 0 t)))

-- `t.trim().is_empty()`.
abbrev pub is_blank : Text → Bool
is_blank t = is_empty (trim t)

-- `.map(str::trim).filter(|t| !t.is_empty())`.
unfoldable pub trim_filter : Option Text → Option Text
trim_filter none = none
trim_filter (some t) = if is_empty (trim t) then none else some (trim t)

-- `split_once(sep)` at the first `sep`.
unfoldable pub split_once : ℕ → Text → Option (Text × Text)
split_once sep [] = none
split_once sep (c ∷ t) =
    let rest = split_once sep t in
    if c == sep then some ([], t) else elim rest [ none ↦ none | some (a, b) ↦ some (c ∷ a, b) ]

-- `rsplit_once(sep)` at the last `sep`.
unfoldable pub rsplit_once : ℕ → Text → Option (Text × Text)
unfolding split_once
rsplit_once sep t = elim (split_once sep (reverse t)) [
  | none ↦ none
  | some (after, before) ↦ some (reverse before, reverse after)
]

abbrev push_front : ℕ → List Text → List Text
push_front c [] = (c ∷ []) ∷ []
push_front c (p ∷ ps) = (c ∷ p) ∷ ps

-- `split(sep).collect()`.
unfoldable pub split : ℕ → Text → List Text
split sep [] = [] ∷ []
split sep (c ∷ t) = if c == sep then [] ∷ split sep t else push_front c (split sep t)

-- After a first byte: how many bytes follow it, and the range of the next one.
utf8_lead : ℕ → Option (ℕ × ℕ × ℕ)
utf8_lead x =
    if leb x 0x7f
    then some (0, 0x80, 0xbf)
    else if leb 0xc2 x && leb x 0xdf
    then some (1, 0x80, 0xbf)
    else if x == 0xe0
    then some (2, 0xa0, 0xbf)
    else if x == 0xed
    then some (2, 0x80, 0x9f)
    else if leb 0xe1 x && leb x 0xef
    then some (2, 0x80, 0xbf)
    else if x == 0xf0
    then some (3, 0x90, 0xbf)
    else if leb 0xf1 x && leb x 0xf3
    then some (3, 0x80, 0xbf)
    else if x == 0xf4
    then some (3, 0x80, 0x8f)
    else none

utf8_from : ℕ → ℕ → ℕ → Text → Bool
utf8_from zero lo hi [] = true
utf8_from (suc n) lo hi [] = false
utf8_from zero lo hi (x ∷ xs) = elim (utf8_lead x) [
  | none ↦ false
  | some (n, l, h) ↦ utf8_from n l h xs
]
utf8_from (suc n) lo hi (x ∷ xs) = leb lo x && leb x hi && utf8_from n 0x80 0xbf xs

-- `std::str::from_utf8(bytes).is_ok()`.
unfoldable pub is_utf8 : Text → Bool
unfolding utf8_lead utf8_from
is_utf8 t = utf8_from 0 0x80 0xbf t

trims_both_ends : trim (bytes "  ok go\n ") ≡ bytes "ok go"
unfolding trim
trims_both_ends = refl

trims_wide_space : trim (0xe3 ∷ 0x80 ∷ 0x80 ∷ b'a' ∷ 0xc2 ∷ 0xa0 ∷ []) ≡ bytes "a"
unfolding trim
trims_wide_space = refl

splits_on_dots : split b'.' (bytes "a..b") ≡ bytes "a" ∷ [] ∷ bytes "b" ∷ []
unfolding split
splits_on_dots = refl

rejects_bad_utf8 : (is_utf8 (0xc3 ∷ 0xa9 ∷ []) ≡ true) × (is_utf8 (0xc0 ∷ 0x80 ∷ []) ≡ false)
unfolding is_utf8
rejects_bad_utf8 = (refl, refl)
