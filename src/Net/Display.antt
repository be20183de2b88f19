-- ===== src/Net/Display.antt =====
-- `Display` of numbers and of socket addresses, as `format!` prints them.
use cll.Base.{
  ℕ, zero, suc, ◌+◌, ◌*◌, ◌/◌, ◌%◌, ◌^◌, ◌≡◌, refl, List, [], ◌∷◌, ◌++◌, map, ltb, ◌==◌,
  if◌then◌else◌, take, drop,
}
use cll.Text.{Text, bytes}
use cll.Net.{v4, v6, SocketAddr}

-- The character of a digit below 16, in lower case.
abbrev pub digit : ℕ → ℕ
digit d = if ltb d 10 then 48 + d else 87 + d

-- The digits of `n` in front of `acc`; the fuel bounds their number.
unfoldable pub print_digits : ℕ → ℕ → ℕ → Text → Text
print_digits radix zero n acc = acc
print_digits radix (suc fuel) n acc =
    let more = print_digits radix fuel (n / radix) (digit (n % radix) ∷ acc) in
    if ltb n radix then digit n ∷ acc else more

-- A 64-bit number has at most 20 decimal digits.
unfoldable pub decimal : ℕ → Text
unfolding print_digits
decimal n = print_digits 10 20 n []

-- A segment of an IPv6 address has at most four hexadecimal digits.
hex : ℕ → Text
unfolding print_digits
hex n = print_digits 16 4 n []

abbrev join : ℕ → List Text → Text
join sep [] = []
join sep (t ∷ []) = t
join sep (t ∷ u ∷ us) = t ++ (sep ∷ join sep (u ∷ us))

-- `Ipv4Addr`.
v4_text : ℕ → Text
unfolding decimal
v4_text n =
    join b'.'
      (map decimal (n / 2 ^ 24 % 256 ∷ (n / 2 ^ 16 % 256 ∷ (n / 2 ^ 8 % 256 ∷ (n % 256 ∷ [])))))

abbrev segments : ℕ → List ℕ
segments n = map (λ k. n / 2 ^ (16 * k) % 2 ^ 16) (7 ∷ 6 ∷ 5 ∷ 4 ∷ 3 ∷ 2 ∷ 1 ∷ 0 ∷ [])

-- The first longest run of zero segments, by its start and its length: the place, the current run
-- and the longest one so far.
longest_zeros : ℕ → ℕ × ℕ → ℕ × ℕ → List ℕ → ℕ × ℕ
longest_zeros i current longest [] = longest
longest_zeros i current longest (s ∷ rest) =
    let run : ℕ × ℕ = (if current.1 == 0 then i else current.0, suc current.1) in
    let on_zero = longest_zeros (suc i) run (if ltb longest.1 run.1 then run else longest) rest in
    let on_other = longest_zeros (suc i) (0, 0) longest rest in if s == 0 then on_zero else on_other

-- `Ipv6Addr`: an IPv4-mapped address, else with the longest run of zeros left out.
v6_text : ℕ → Text
unfolding hex v4_text longest_zeros
v6_text n =
    let run = longest_zeros 0 (0, 0) (0, 0) (segments n) in
    let printed : List Text = map hex (segments n) in
    if n / 2 ^ 32 == 0xffff
    then bytes "::ffff:" ++ v4_text (n % 2 ^ 32)
    else if ltb 1 run.1
    then join b':' (take run.0 printed) ++ (bytes "::" ++ join b':' (drop (run.0 + run.1) printed))
    else join b':' printed

-- `SocketAddr`.
unfoldable pub socket_text : SocketAddr → Text
unfolding v4_text v6_text decimal
socket_text addr = elim addr.ip [
  | v4 n ↦ v4_text n ++ (b':' ∷ decimal addr.port)
  | v6 n ↦ b'[' ∷ (v6_text n ++ (bytes "]:" ++ decimal addr.port))
]

prints_v4 : socket_text (record { ip = v4 0x7f000001; port = 7777 }) ≡ bytes "127.0.0.1:7777"
unfolding socket_text
prints_v4 = refl

prints_v6 :
    (socket_text (record { ip = v6 1; port = 0 }) ≡ bytes "[::1]:0")
    × (socket_text (record { ip = v6 (0x20010db8 * 2 ^ 96 + 10); port = 65535 })
        ≡ bytes "[2001:db8::a]:65535")
    × (socket_text (record { ip = v6 (0xffff * 2 ^ 32 + 0x0a000001); port = 1 })
        ≡ bytes "[::ffff:10.0.0.1]:1")
unfolding socket_text
prints_v6 = (refl, refl, refl)
