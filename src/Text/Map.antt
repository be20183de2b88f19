-- ===== src/Text/Map.antt =====
-- `HashMap<String, V>` as an association list with distinct keys.
use cll.Base.{
  ◌≡◌, refl, Bool, true, false, Option, none, some, List, [], ◌∷◌, arith, if◌then◌else◌, subst, sym,
  Bool-cases, inl, inr,
}
use cll.Text.{Text, text_eq}
use cll.Text.Equality.{text_eq_iff}

abbrev pub Map : Type 0 → Type 0
Map V = List (Text × V)

module _ {V : Type 0} where
  unfoldable pub lookup : Text → Map V → Option V
  lookup k [] = none
  lookup k ((j, v) ∷ m) = if text_eq j k then some v else lookup k m

  -- `insert` puts the value in the key's place, or at the end.
  unfoldable pub insert : Text → V → Map V → Map V
  insert k v [] = (k, v) ∷ []
  insert k v ((j, w) ∷ m) = if text_eq j k then (j, v) ∷ m else (j, w) ∷ insert k v m

  unfoldable pub erase : Text → Map V → Map V
  erase k [] = []
  erase k ((j, w) ∷ m) = if text_eq j k then m else (j, w) ∷ erase k m

  unfoldable pub retain : (V → Bool) → Map V → Map V
  retain p [] = []
  retain p ((j, w) ∷ m) = if p w then (j, w) ∷ retain p m else retain p m

  -- No key stands twice.
  abbrev pub Absent : Text → Map V → Type 0
  Absent k [] = Unit {0}
  Absent k ((j, w) ∷ m) = (text_eq j k ≡ false) × Absent k m

  abbrev pub Distinct : Map V → Type 0
  Distinct [] = Unit {0}
  Distinct ((j, w) ∷ m) = Absent j m × Distinct m

  -- A property of every entry.
  abbrev pub Entries : (Text → V → Type 0) → Map V → Type 0
  Entries P [] = Unit {0}
  Entries P ((j, w) ∷ m) = P j w × Entries P m

text_eq_sym : (s t : Text) → text_eq s t ≡ text_eq t s
text_eq_sym s t = ground (arith, text_eq_iff s t, text_eq_iff t s)

module _ {V : Type 0} where
  pub lookup-insert :
      (k j : Text) (v : V) (m : Map V)
      → lookup j (insert k v m) ≡ (if text_eq k j then some v else lookup j m)
  unfolding lookup insert
  lookup-insert k j v [] = refl
  lookup-insert k j v ((i, w) ∷ m) =
      ground (arith, text_eq_iff k j, text_eq_iff i k, text_eq_iff i j, lookup-insert k j v m)

  pub lookup-Absent : (k : Text) (m : Map V) → Absent k m → lookup k m ≡ none
  unfolding lookup
  lookup-Absent k [] a = refl
  lookup-Absent k ((i, w) ∷ m) a = ground (arith, lookup-Absent k m a.1)

  Absent-trans : (i k : Text) (m : Map V) → i ≡ k → Absent i m → Absent k m
  Absent-trans i k m e a = subst (λ x. Absent x m) e a

  pub lookup-erase :
      (k j : Text) (m : Map V)
      → Distinct m
      → lookup j (erase k m) ≡ (if text_eq k j then none else lookup j m)
  unfolding lookup erase
  lookup-erase k j [] d = ground arith
  lookup-erase k j ((i, w) ∷ m) d = ground (
    arith,
    text_eq_iff k j,
    text_eq_iff i k,
    text_eq_iff i j,
    lookup-erase k j m d.1,
    lookup-Absent i m d.0,
  )

  abbrev pub keep_if : (V → Bool) → Option V → Option V
  keep_if p none = none
  keep_if p (some v) = if p v then some v else none

  pub lookup-retain :
      (p : V → Bool) (j : Text) (m : Map V)
      → Distinct m
      → lookup j (retain p m) ≡ keep_if p (lookup j m)
  unfolding lookup retain
  lookup-retain p j [] d = refl
  lookup-retain p j ((i, w) ∷ m) d =
      ground (arith, text_eq_iff i j, lookup-retain p j m d.1, lookup-Absent i m d.0)

  Absent-insert :
      (i k : Text) (v : V) (m : Map V) → text_eq k i ≡ false → Absent i m → Absent i (insert k v m)
  unfolding insert
  Absent-insert i k v [] h a = (h, tt)
  Absent-insert i k v ((j, w) ∷ m) h a = ground (arith, Absent-insert i k v m h a.1)

  Absent-erase : (i k : Text) (m : Map V) → Absent i m → Absent i (erase k m)
  unfolding erase
  Absent-erase i k [] a = tt
  Absent-erase i k ((j, w) ∷ m) a = ground (arith, Absent-erase i k m a.1)

  Absent-retain : (i : Text) (p : V → Bool) (m : Map V) → Absent i m → Absent i (retain p m)
  unfolding retain
  Absent-retain i p [] a = tt
  Absent-retain i p ((j, w) ∷ m) a = ground (arith, Absent-retain i p m a.1)

  pub insert-Distinct : (k : Text) (v : V) (m : Map V) → Distinct m → Distinct (insert k v m)
  unfolding insert
  insert-Distinct k v [] d = (tt, tt)
  insert-Distinct k v ((j, w) ∷ m) d =
      ground (arith, insert-Distinct k v m d.1, Absent-insert j k v m, text_eq_sym j k)

  pub erase-Distinct : (k : Text) (m : Map V) → Distinct m → Distinct (erase k m)
  unfolding erase
  erase-Distinct k [] d = tt
  erase-Distinct k ((j, w) ∷ m) d = ground (arith, erase-Distinct k m d.1, Absent-erase j k m d.0)

  pub retain-Distinct : (p : V → Bool) (m : Map V) → Distinct m → Distinct (retain p m)
  unfolding retain
  retain-Distinct p [] d = tt
  retain-Distinct p ((j, w) ∷ m) d =
      ground (arith, retain-Distinct p m d.1, Absent-retain j p m d.0)

module _ {V : Type 0} (P : Text → V → Type 0) where
  pub insert-Entries :
      (k : Text) (v : V) (m : Map V) → P k v → Entries P m → Entries P (insert k v m)
  unfolding insert
  insert-Entries k v [] h e = (h, tt)
  insert-Entries k v ((j, w) ∷ m) h e = elim (Bool-cases (text_eq j k)) [
    | inl same ↦ rw same (subst (λ x. P x v) (sym ((text_eq_iff j k).0 same)) h, e.1)
    | inr other ↦ rw other (e.0, insert-Entries k v m h e.1)
  ]

  pub erase-Entries : (k : Text) (m : Map V) → Entries P m → Entries P (erase k m)
  unfolding erase
  erase-Entries k [] e = tt
  erase-Entries k ((j, w) ∷ m) e = elim (Bool-cases (text_eq j k)) [
    | inl same ↦ rw same e.1
    | inr other ↦ rw other (e.0, erase-Entries k m e.1)
  ]

  pub retain-Entries : (p : V → Bool) (m : Map V) → Entries P m → Entries P (retain p m)
  unfolding retain
  retain-Entries p [] e = tt
  retain-Entries p ((j, w) ∷ m) e = elim (Bool-cases (p w)) [
    | inl keep ↦ rw keep (e.0, retain-Entries p m e.1)
    | inr drop ↦ rw drop (retain-Entries p m e.1)
  ]

  pub lookup-Entries : (k : Text) {v : V} (m : Map V) → Entries P m → lookup k m ≡ some v → P k v
  unfolding lookup
  lookup-Entries k [] e h = absurd (cc)
  lookup-Entries k {v} ((j, w) ∷ m) e h = elim (Bool-cases (text_eq j k)) [
    | inl same ↦
        let w_is_v : w ≡ v = ground arith in
        subst (λ x. P x v) ((text_eq_iff j k).0 same) (subst (P j) w_is_v e.0)
    | inr other ↦ lookup-Entries k m e.1 (ground arith)
  ]

  pub Entries-map :
      {Q : Text → V → Type 0}
      → ((k : Text) (v : V) → P k v → Q k v)
      → (m : Map V) → Entries P m
      → Entries Q m
  Entries-map f [] e = tt
  Entries-map f ((j, w) ∷ m) e = (f j w e.0, Entries-map f m e.1)

-- What `retain` leaves passes its test.
pub retain-kept : {V : Type 0} (p : V → Bool) (m : Map V) → Entries (λ k v. p v ≡ true) (retain p m)
unfolding retain
retain-kept p [] = tt
retain-kept p ((j, w) ∷ m) = elim (Bool-cases (p w)) [
  | inl keep ↦ rw keep (keep, retain-kept p m)
  | inr drop ↦ rw drop (retain-kept p m)
]
