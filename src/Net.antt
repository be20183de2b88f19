-- ===== src/Net.antt =====
-- `std::net::IpAddr` and its parser, as `str::parse` runs it.
pub mod Display
pub mod Decimal
use cll.Base.{
  ℕ, zero, suc, ◌+◌, ◌-◌, ◌*◌, ◌/◌, ◌%◌, ◌^◌, ◌≡◌, refl, Bool, true, false, ◌&&◌, ◌||◌, not, Option,
  none, some, List, [], ◌∷◌, ◌++◌, leb, ltb, ◌==◌, if◌then◌else◌, is_empty, length,
}
use cll.Text.{Text, bytes}

-- An address by its number, below 2 ^ 32 or 2 ^ 128: `u32::from` and `u128::from`.
pub data IpAddr : Type 0 where
  v4 : ℕ → IpAddr
  v6 : ℕ → IpAddr

-- `std::net::SocketAddr`, without the flow label and the scope of IPv6.
pub record SocketAddr : Type 0 where
  pub ip : IpAddr
  pub port : ℕ

infixl 5 ◌>>=◌ ◌>>◌
abbrev ◌>>=◌ : {A B : Type 0} → Option A → (A → Option B) → Option B
m >>= f = elim m [ none ↦ none | some a ↦ f a ]

abbrev ◌>>◌ : {B : Type 0} → Option (Unit {0}) → Option B → Option B
m >> k = m >>= λ _. k

abbrev require : Bool → Option (Unit {0})
require true = some tt
require false = none

-- `char::to_digit(radix)` for radix 10 and 16.
to_digit : ℕ → ℕ → Option ℕ
to_digit radix c =
    let d : ℕ =
      if leb b'0' c && leb c b'9'
      then c - 48
      else if leb b'a' c && leb c b'z'
      then c - 87
      else if leb b'A' c && leb c b'Z'
      then c - 55
      else 36 in
    if ltb d radix then some d else none

-- The digits at the front: their value, how many there are, and what follows.
read_digits : ℕ → ℕ → ℕ → Text → ℕ × ℕ × Text
read_digits radix acc count [] = (acc, count, [])
read_digits radix acc count (c ∷ t) = elim (to_digit radix c) [
  | none ↦ (acc, count, c ∷ t)
  | some d ↦ read_digits radix (acc * radix + d) (count + 1) t
]

starts_with_zero : Text → Bool
starts_with_zero [] = false
starts_with_zero (c ∷ t) = c == b'0'

-- `Parser::read_number(radix, Some(max_digits), allow_zero_prefix)`, for a value below `bound`.
read_number : ℕ → ℕ → ℕ → Bool → Text → Option (ℕ × Text)
unfolding to_digit read_digits starts_with_zero
read_number radix max_digits bound zero_prefix t = do
  let (n, count, rest) = read_digits radix 0 0 t
  require (leb 1 count && leb count max_digits)
  require (zero_prefix || not (starts_with_zero t && ltb 1 count))
  require (ltb n bound)
  some (n, rest)

read_given_char : ℕ → Text → Option Text
read_given_char sep [] = none
read_given_char sep (c ∷ t) = if c == sep then some t else none

-- `Parser::read_separator`: the separator stands before every item but the first.
read_separator : ℕ → ℕ → Text → Option Text
unfolding read_given_char
read_separator sep zero t = some t
read_separator sep (suc i) t = read_given_char sep t

read_octet : ℕ → Text → Option (ℕ × Text)
unfolding read_separator read_number
read_octet i t = do u ← read_separator b'.' i t; read_number 10 3 256 false u

-- `Parser::read_ipv4_addr`.
read_ipv4_addr : Text → Option (ℕ × Text)
unfolding read_octet
read_ipv4_addr t0 = do
  (a, t1) ← read_octet 0 t0
  (b, t2) ← read_octet 1 t1
  (c, t3) ← read_octet 2 t2
  (d, t4) ← read_octet 3 t3
  some (((a * 256 + b) * 256 + c) * 256 + d, t4)

-- The dotted tail of an IPv6 address at group `i`.
read_embedded : ℕ → Text → Option (ℕ × Text)
unfolding read_separator read_ipv4_addr
read_embedded i t = do u ← read_separator b':' i t; read_ipv4_addr u

read_group : ℕ → Text → Option (ℕ × Text)
unfolding read_separator read_number
read_group i t = do u ← read_separator b':' i t; read_number 16 4 65536 true u

-- `read_groups`: up to `left` groups from the `i`-th on, and whether they end in a dotted tail.
-- A dotted tail takes the place of two groups.
read_groups : ℕ → ℕ → Text → List ℕ × Bool × Text
unfolding read_embedded read_group
read_groups zero i t = ([], false, t)
read_groups (suc left) i t =
    let tail : Option (ℕ × Text) = if leb 1 left then read_embedded i t else none in
    elim tail [
      | some (n, u) ↦ ((n / 65536) ∷ (n % 65536) ∷ [], true, u)
      | none ↦ elim (read_group i t) [
        | none ↦ ([], false, t)
        | some (g, u) ↦ let (gs, dotted, v) = read_groups left (i + 1) u in (g ∷ gs, dotted, v)
      ]
    ]

zeros : ℕ → List ℕ
zeros zero = []
zeros (suc n) = 0 ∷ zeros n

from_groups : ℕ → List ℕ → ℕ
from_groups acc [] = acc
from_groups acc (g ∷ gs) = from_groups (acc * 65536 + g) gs

-- `Parser::read_ipv6_addr`: eight groups, or a head and a tail around `::`.
read_ipv6_addr : Text → Option (ℕ × Text)
unfolding read_groups zeros from_groups read_given_char
read_ipv6_addr t0 =
    let (head, dotted, t1) = read_groups 8 0 t0 in
    let after : Option (ℕ × Text) = do
      require (not dotted)
      t2 ← read_given_char b':' t1
      t3 ← read_given_char b':' t2
      let (tail, _, t4) = read_groups (7 - length head) 0 t3
      some (from_groups 0 (head ++ zeros (8 - length head - length tail) ++ tail), t4)
    in if length head == 8 then some (from_groups 0 head, t1) else after

whole : {A : Type 0} → Option (A × Text) → Option A
whole none = none
whole (some (a, rest)) = if is_empty rest then some a else none

-- `text.parse::<IpAddr>()`.
unfoldable pub parse_ip : Text → Option IpAddr
unfolding read_ipv4_addr read_ipv6_addr whole
parse_ip t = elim (read_ipv4_addr t) [
  | some (n, rest) ↦ if is_empty rest then some (v4 n) else none
  | none ↦ elim (whole (read_ipv6_addr t)) [ none ↦ none | some n ↦ some (v6 n) ]
]

-- `parse::<u8>()` and its like, for numbers below `bound`: digits behind an optional plus sign.
unfoldable pub parse_below : ℕ → Text → Option ℕ
unfolding read_digits to_digit
parse_below bound t =
    let digits : Text = elim t [ [] ↦ [] | c ∷ rest ↦ if c == b'+' then rest else c ∷ rest ] in
    let (n, count, rest) = read_digits 10 0 0 digits in
    if leb 1 count && is_empty rest && ltb n bound then some n else none

unfoldable pub parse_u8 : Text → Option ℕ
unfolding parse_below
parse_u8 = parse_below 256

parses_v4 :
    (parse_ip (bytes "10.0.1.255") ≡ some (v4 0x0a0001ff)) × (parse_ip (bytes "10.0.01.2") ≡ none)
unfolding parse_ip
parses_v4 = (refl, refl)

parses_v6 :
    (parse_ip (bytes "2001:db8::1") ≡ some (v6 (0x20010db8 * 2 ^ 96 + 1)))
    × (parse_ip (bytes "::ffff:1.2.3.4") ≡ some (v6 0xffff01020304))
    × (parse_ip (bytes "1:2:3") ≡ none)
    × (parse_ip (bytes "1:2:3:4:5:6:7:8") ≡ some (v6 0x00010002000300040005000600070008))
unfolding parse_ip
parses_v6 = (refl, refl, refl, refl)

parses_u8 : (parse_u8 (bytes "+24") ≡ some 24) × (parse_u8 (bytes "256") ≡ none)
unfolding parse_u8
parses_u8 = (refl, refl)
