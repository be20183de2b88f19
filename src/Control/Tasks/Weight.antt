-- ===== src/Control/Tasks/Weight.antt =====
-- Weights of the rows of the table of tasks, summed up, and what the statements of control-api/src/main.rs
-- do to the sum.
use cll.Control.Tasks.{drop_node_tasks, TaskRow}
use cll.Base.{inr, inl, Bool-cases, any, [], true, arith, ◌+◌, ◌≡◌, Bool, ◌++◌, ◌∷◌, ◌≤◌, List, ℕ}
use cll.Control.Table.{update_where}

module _ (w : TaskRow → ℕ) where
  -- The weight of a table.
  abbrev pub total : List TaskRow → ℕ
  total [] = 0
  total (row ∷ rows) = w row + total rows

  pub total-append : (xs ys : List TaskRow) → total (xs ++ ys) ≡ total xs + total ys
  total-append [] ys = omega arith
  total-append (x ∷ xs) ys = omega (arith, total-append xs ys)

  pub total-drop :
      (node_id : ℕ) (rows : List TaskRow) → total (drop_node_tasks node_id rows) ≤ total rows
  unfolding drop_node_tasks
  total-drop node_id [] = omega arith
  total-drop node_id (row ∷ rows) = ground (arith, total-drop node_id rows)

  -- An update after which no changed row weighs anything.
  pub total-update :
      (p : TaskRow → Bool) (f : TaskRow → TaskRow) (rows : List TaskRow)
      → ((row : TaskRow) → w (f row) ≡ 0)
      → total (update_where p f rows) ≤ total rows
  unfolding update_where
  total-update p f [] gone = omega arith
  total-update p f (row ∷ rows) gone = ground (arith, gone row, total-update p f rows gone)

  -- If it changes a row that weighs something, the table gets lighter.
  pub total-update_any :
      (p : TaskRow → Bool) (f : TaskRow → TaskRow) (rows : List TaskRow)
      → ((row : TaskRow) → w (f row) ≡ 0)
      → ((row : TaskRow) → p row ≡ true → w row ≡ 1)
      → any p rows ≡ true
      → total (update_where p f rows) + 1 ≤ total rows
  unfolding update_where
  total-update_any p f [] gone weighs found = absurd (cc)
  total-update_any p f (row ∷ rows) gone weighs found = elim (Bool-cases (p row)) [
    | inl here ↦ rw here (omega (arith, gone row, weighs row here, total-update p f rows gone))
    | inr later ↦
        let rest : any p rows ≡ true = ground arith in
        rw later (omega (arith, total-update_any p f rows gone weighs rest))
  ]
