-- ===== src/Base/Outcome.antt =====
-- `Result` of the source: a value or an error, with `?` as the bind of `do`.
use mathlib.Core.Path.{◌≡◌, refl}
use mathlib.Core.Bool.{Bool, true, false}
use mathlib.Core.Option.{Option, none, some}

pub data Result (E A : Type 0) : Type 0 where
  err : E → Result E A
  ok : A → Result E A

-- `?`: an error ends the block.
infixl 5 ◌>>=◌
abbrev pub ◌>>=◌ : {E A B : Type 0} → Result E A → (A → Result E B) → Result E B
err error >>= rest = err error
ok value >>= rest = rest value

-- A check, which has no value.
infixl 5 ◌>>◌
abbrev pub ◌>>◌ : {E B : Type 0} → Result E (Unit {0}) → Result E B → Result E B
check >> rest = check >>= λ done. rest

-- `if test { bail!(e) }`.
abbrev pub bail_if : {E : Type 0} → Bool → E → Result E (Unit {0})
bail_if true e = err e
bail_if false e = ok tt

-- `Option::ok_or`.
abbrev pub ok_or : {E A : Type 0} → Option A → E → Result E A
ok_or none e = err e
ok_or (some a) e = ok a

-- `Result::ok`.
abbrev pub to_option : {E A : Type 0} → Result E A → Option A
to_option (ok a) = some a
to_option (err e) = none

-- Inversion of what succeeds, one step of a `do` block at a time.
pub >>=-eq-ok :
    {E A B : Type 0} (first : Result E A) (rest : A → Result E B) {b : B}
    → (first >>= rest) ≡ ok b
    → (a : A) × (first ≡ ok a) × (rest a ≡ ok b)
>>=-eq-ok (err error) rest h = cc
>>=-eq-ok (ok value) rest h = (value, refl, h)

pub ok_or-eq-ok : {E A : Type 0} (o : Option A) (e : E) {a : A} → ok_or o e ≡ ok a → o ≡ some a
ok_or-eq-ok none e h = cc
ok_or-eq-ok (some a) e h = cc

pub bail_if-eq-ok : {E : Type 0} (b : Bool) (e : E) {u : Unit {0}} → bail_if b e ≡ ok u → b ≡ false
bail_if-eq-ok true e h = cc
bail_if-eq-ok false e h = refl

pub ok_injective : {E A : Type 0} {a b : A} → ◌≡◌ {A = Result E A} (ok a) (ok b) → a ≡ b
ok_injective h = cc
