-- ===== src/Node/Probe/SessionId.antt =====
-- The ids that `build_session_id` of node-core/src/session.rs makes, and their sequence numbers.
use cll.Base.{
  ℕ, zero, suc, ◌+◌, ◌-◌, ◌*◌, ◌/◌, ◌%◌, ◌^◌, ◌≡◌, ◌<◌, refl, sym, ap, ◌∙◌, Bool, true, false, [],
  ◌∷◌, ◌++◌, arith, Bool-cases, inl, inr, if◌then◌else◌, ◌==◌, ltb,
}
use cll.Text.{Text, bytes}
use cll.Net.{SocketAddr}
use cll.Net.Decimal.{small_quotient}
use cll.Net.Display.{print_digits, decimal, digit, socket_text}
use cll.Node.Messages.{TransportKind, transport_text}
use cll.Node.Probe.{build_session_id, dashed}

-- The decimal number behind the last dash, with `acc` in front of it.
number_behind : ℕ → Text → ℕ
number_behind acc [] = acc
number_behind acc (c ∷ t) =
    let started = number_behind 0 t in
    let longer = number_behind (acc * 10 + (c - 48)) t in if c == b'-' then started else longer

number_behind-append :
    (acc : ℕ) (s t : Text) → number_behind acc (s ++ (b'-' ∷ t)) ≡ number_behind 0 t
unfolding number_behind
number_behind-append acc [] t = refl
number_behind-append acc (c ∷ s) t = elim (Bool-cases (c == b'-')) [
  | inl d ↦ rw (d, number_behind) (number_behind-append 0 s t)
  | inr d ↦ rw (d, number_behind) (number_behind-append (acc * 10 + (c - 48)) s t)
]

number_behind-digit :
    (acc d : ℕ) (t : Text)
    → d < 10
    → number_behind acc (digit d ∷ t) ≡ number_behind (acc * 10 + d) t
unfolding number_behind
number_behind-digit acc d t h =
    let shown : digit d ≡ 48 + d = ground arith in
    let not_dash : (48 + d == b'-') ≡ false = ground arith in
    rw (shown, not_dash) (ap (λ n. number_behind (acc * 10 + n) t) (omega arith))

if_true : {A : Type 0} (b : Bool) (x y : A) → b ≡ true → (if b then x else y) ≡ x
if_true true x y h = refl
if_true false x y h = absurd (cc)

nothing_behind : (n : ℕ) → number_behind n [] ≡ n
unfolding number_behind
nothing_behind n = refl

number_behind-print_digits :
    (fuel n : ℕ) (t : Text)
    → n < 10 ^ fuel
    → number_behind 0 (print_digits 10 fuel n t) ≡ number_behind n t
unfolding print_digits
number_behind-print_digits zero n t h = ap (λ k. number_behind k t) (omega arith)
number_behind-print_digits (suc fuel) n t h = elim (Bool-cases (ltb n 10)) [
  | inl small ↦
      ap (number_behind 0) (if_true (ltb n 10) _ _ small)
      ∙ number_behind-digit 0 n t (ground arith)
      ∙ ap (λ k. number_behind k t) (omega arith)
  | inr large ↦
      rw (large, print_digits)
        (number_behind-print_digits fuel (n / 10) (digit (n % 10) ∷ t) (small_quotient fuel n h)
          ∙ number_behind-digit (n / 10) (n % 10) t (omega arith)
          ∙ ap (λ k. number_behind k t) (omega arith))
]

number_behind-decimal : (n : ℕ) → n < 2 ^ 64 → number_behind 0 (decimal n) ≡ n
unfolding decimal
number_behind-decimal n h = number_behind-print_digits 20 n [] (omega arith) ∙ nothing_behind n

number_behind-session_id :
    (now : ℕ) (transport : TransportKind) (peer : SocketAddr) (sequence : ℕ)
    → sequence < 2 ^ 64
    → number_behind 0 (build_session_id now transport peer sequence) ≡ sequence
unfolding build_session_id
number_behind-session_id now transport peer sequence h =
    number_behind-append 0 (bytes "ps") _
    ∙ number_behind-append 0 (transport_text transport) _
    ∙ number_behind-append 0 (decimal now) _
    ∙ number_behind-append 0 (dashed (socket_text peer)) _
    ∙ number_behind-decimal sequence h

-- Two session ids that are equal have the same sequence number, whatever the times, the transports
-- and the peers, for sequence numbers of 64 bits.
pub build_session_id-injective :
    (now now' : ℕ) (transport transport' : TransportKind) (peer peer' : SocketAddr)
    (sequence sequence' : ℕ)
    → sequence < 2 ^ 64
    → sequence' < 2 ^ 64
    → build_session_id now transport peer sequence
      ≡ build_session_id now' transport' peer' sequence'
    → sequence ≡ sequence'
build_session_id-injective now now' transport transport' peer peer' sequence sequence' h h' e =
    sym (number_behind-session_id now transport peer sequence h)
    ∙ ap (number_behind 0) e
    ∙ number_behind-session_id now' transport' peer' sequence' h'
