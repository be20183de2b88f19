-- ===== src/Control/Table.antt =====
-- The tables of the control plane's database, as lists of rows: what the SQL statements of
-- control-api/src/main.rs select and update.
use cll.Base.{
  ap, ◌++◌, ◌&&◌, ◌≡◌, refl, Bool, true, false, Option, none, some, List, [], ◌∷◌, arith,
  if◌then◌else◌, All, length, subst, Bool-cases, inl, inr,
}

module _ {A : Type 0} where
  -- `SELECT … WHERE p LIMIT 1`, in the order of the list.
  unfoldable pub select_first : (A → Bool) → List A → Option A
  select_first p [] = none
  select_first p (row ∷ rows) = if p row then some row else select_first p rows

  -- `UPDATE … SET f WHERE p`.
  unfoldable pub update_where : (A → Bool) → (A → A) → List A → List A
  update_where p f [] = []
  update_where p f (row ∷ rows) = (if p row then f row else row) ∷ update_where p f rows

  pub length-update_where :
      (p : A → Bool) (f : A → A) (rows : List A) → length (update_where p f rows) ≡ length rows
  unfolding update_where
  length-update_where p f [] = refl
  length-update_where p f (row ∷ rows) = ground (arith, length-update_where p f rows)

  -- A property of the rows that the update keeps.
  pub All-update_where :
      (P : A → Type 0) (p : A → Bool) (f : A → A)
      → ((row : A) → P row → p row ≡ true → P (f row))
      → (rows : List A) → All P rows
      → All P (update_where p f rows)
  unfolding update_where
  All-update_where P p f keep [] h = tt
  All-update_where P p f keep (row ∷ rows) (h, hs) =
      (choose (p row) (λ e. keep row h e) h, All-update_where P p f keep rows hs)
    where
      choose : (b : Bool) → (b ≡ true → P (f row)) → P row → P (if b then f row else row)
      choose true yes_case no_case = yes_case refl
      choose false yes_case no_case = no_case

  -- What is selected is a row of the table that passes the test.
  pub select_first-passes :
      (p : A → Bool) (rows : List A) {row : A} → select_first p rows ≡ some row → p row ≡ true
  unfolding select_first
  select_first-passes p [] e = cc
  select_first-passes p (r ∷ rows) {row} e = ground (arith, select_first-passes p rows {row = row})

  pub select_first-All :
      (P : A → Type 0) (p : A → Bool) (rows : List A) {row : A}
      → All P rows
      → select_first p rows ≡ some row
      → P row
  unfolding select_first
  select_first-All P p [] h e = absurd (cc)
  select_first-All P p (r ∷ rows) {row} (h, hs) e = elim (Bool-cases (p r)) [
    | inl t ↦ let same : r ≡ row = ground arith in subst P same h
    | inr t ↦ select_first-All P p rows hs (ground arith)
  ]

  -- A test that the selected row passes too can be added.
  pub select_first-and :
      (p q : A → Bool) (rows : List A) {row : A}
      → select_first p rows ≡ some row
      → q row ≡ true
      → select_first (λ r. p r && q r) rows ≡ some row
  unfolding select_first
  select_first-and p q [] e t = absurd (cc)
  select_first-and p q (r ∷ rows) {row} e t = ground (arith, select_first-and p q rows {row = row})

  -- The row that is selected after an update that keeps what the test looks at.
  pub select_first-update_where :
      (p : A → Bool) (f : A → A) (rows : List A) {row : A}
      → ((r : A) → p (f r) ≡ p r)
      → select_first p rows ≡ some row
      → select_first p (update_where p f rows) ≡ some (f row)
  unfolding select_first update_where
  select_first-update_where p f [] same e = absurd (cc)
  select_first-update_where p f (r ∷ rows) {row} same e =
      ground (arith, same r, select_first-update_where p f rows {row = row} same)

  -- A row that alone passes a test, by what stands before and after it.
  pub update_where-none :
      (p : A → Bool) (f : A → A) (rows : List A)
      → All (λ r. p r ≡ false) rows
      → update_where p f rows ≡ rows
  unfolding update_where
  update_where-none p f [] h = refl
  update_where-none p f (row ∷ rows) (h, hs) =
      rw h (ap (λ t. row ∷ t) (update_where-none p f rows hs))

  pub update_where-middle :
      (p : A → Bool) (f : A → A) (before : List A) (row : A) (after : List A)
      → All (λ r. p r ≡ false) before
      → p row ≡ true
      → All (λ r. p r ≡ false) after
      → update_where p f (before ++ (row ∷ after)) ≡ before ++ (f row ∷ after)
  unfolding update_where
  update_where-middle p f [] row after hb h ha =
      rw h (ap (λ t. f row ∷ t) (update_where-none p f after ha))
  update_where-middle p f (r ∷ before) row after (hb, hbs) h ha =
      rw hb (ap (λ t. r ∷ t) (update_where-middle p f before row after hbs h ha))

  pub select_first-middle :
      (p : A → Bool) (before : List A) (row : A) (after : List A)
      → All (λ r. p r ≡ false) before
      → p row ≡ true
      → select_first p (before ++ (row ∷ after)) ≡ some row
  unfolding select_first
  select_first-middle p [] row after hb h = rw h refl
  select_first-middle p (r ∷ before) row after (hb, hbs) h =
      rw hb (select_first-middle p before row after hbs h)
