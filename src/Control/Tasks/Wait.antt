-- ===== src/Control/Tasks/Wait.antt =====
-- The place of a pending task of control-api/src/main.rs in the queue of its node, and what each call
-- does to it.
use cll.Control.Tasks.Results.{is_open_task, store_result, NodeTaskResultRequest, result_update}
use cll.Base.{
  sym, ◌∙◌, ap, ◌-◌, ◌+◌, Option, [], arith, false, subst, ◌==◌, if◌then◌else◌, ◌++◌, ◌≡◌, ◌≤◌, All,
  Bool, ◌<◌, ◌∷◌, ◌≢◌, List, ℕ, refl,
}
use cll.Control.Tasks.{claimed, is_open, TaskStatus, is_next, TaskRow, Tasks, drop_node_tasks}
use cll.Control.Table.{update_where}
use cll.Control.Tasks.Valid.{result-Stored, added, IsValid, refused, Created, Ordered}
use cll.Base.Outcome.{ok, err, Result}
use cll.Control.Error.{AppError}
use cll.Control.Tasks.Claim.{handed, idle, Claimed}
use cll.Control.Tasks.History.{stored_or}

-- The tasks of the node that stand before a pending task and are pending too, with the task itself;
-- nothing if the task is not pending.
abbrev pub wait : ℕ → ℕ → List TaskRow → ℕ
wait node_id t [] = 0
wait node_id t (row ∷ rows) =
    let rest = wait node_id t rows in
    if is_next node_id row
    then if row.id == t then 1 else if rest == 0 then 0 else rest + 1
    else rest

module _ (node_id t : ℕ) where
  wait-younger : (rows : List TaskRow) → All (λ r. t < r.id) rows → wait node_id t rows ≡ 0
  wait-younger [] h = refl
  wait-younger (row ∷ rows) (h, hs) = ground (arith, wait-younger rows hs)

  wait-skip :
      (before rest : List TaskRow)
      → All (λ r. is_next node_id r ≡ false) before
      → wait node_id t (before ++ rest) ≡ wait node_id t rest
  wait-skip [] rest h = refl
  wait-skip (row ∷ before) rest (h, hs) = rw h (wait-skip before rest hs)

  wait-added :
      (rows : List TaskRow) (row : TaskRow)
      → row.id ≢ t
      → wait node_id t (rows ++ (row ∷ [])) ≡ wait node_id t rows
  wait-added [] row other = ground arith
  wait-added (r ∷ rows) row other = rw (wait-added rows row other) refl

  -- A row that is not due is passed over.
  wait-replaced :
      (before : List TaskRow) (row row' : TaskRow) (after : List TaskRow)
      → is_next node_id row ≡ false
      → is_next node_id row' ≡ false
      → wait node_id t (before ++ (row' ∷ after)) ≡ wait node_id t (before ++ (row ∷ after))
  wait-replaced [] row row' after h h' = rw (h, h') refl
  wait-replaced (r ∷ before) row row' after h h' =
      rw (wait-replaced before row row' after h h') refl

  wait-behind :
      (row : TaskRow) (rows : List TaskRow)
      → All (λ r. row.id < r.id) rows
      → row.id ≡ t
      → wait node_id t rows ≡ 0
  wait-behind row rows above e = wait-younger rows (subst (λ k. All (λ r. k < r.id) rows) e above)

  wait-updated :
      (next : ℕ) (p : TaskRow → Bool) (f : TaskRow → TaskRow) (rows : List TaskRow)
      → ((row : TaskRow) → is_next node_id (f row) ≡ false)
      → Ordered next rows
      → wait node_id t (update_where p f rows) ≤ wait node_id t rows
  unfolding update_where
  wait-updated next p f [] gone o = omega arith
  wait-updated next p f (row ∷ rows) gone (small, above, o) =
      ground (arith, gone row, wait-updated next p f rows gone o, wait-behind row rows above)

  pub wait-dropped :
      (next n : ℕ) (rows : List TaskRow)
      → Ordered next rows
      → wait node_id t (drop_node_tasks n rows) ≤ wait node_id t rows
  unfolding drop_node_tasks
  wait-dropped next n [] o = omega arith
  wait-dropped next n (row ∷ rows) (small, above, o) =
      ground (arith, wait-dropped next n rows o, wait-behind row rows above)

  wait-none :
      (rows : List TaskRow) → All (λ r. is_next node_id r ≡ false) rows → wait node_id t rows ≡ 0
  wait-none [] h = refl
  wait-none (row ∷ rows) (h, hs) = rw h (wait-none rows hs)

  -- A poll of the node brings the task one place forward.
  pub wait-poll :
      (now : ℕ) (tasks : Tasks) (result : Tasks × Result AppError (Option TaskRow))
      → Claimed now node_id tasks result
      → wait node_id t result.0.rows ≤ wait node_id t tasks.rows - 1
  wait-poll now tasks result (idle none_due e) = rw e (omega (arith, wait-none tasks.rows none_due))
  wait-poll now tasks result (handed s e) =
      let was : wait node_id t tasks.rows ≡ wait node_id t (s.task ∷ s.after) =
        ap (wait node_id t) s.table ∙ wait-skip s.before (s.task ∷ s.after) s.is_first in
      let is = wait-skip s.before (claimed now s.task ∷ s.after) s.is_first in
      let due = s.is_due in
      rw e (ground (arith, was, is, due, wait-behind s.task s.after s.younger))

  -- A poll of another node leaves it where it is.
  pub wait-other :
      (now n : ℕ) (tasks : Tasks) (result : Tasks × Result AppError (Option TaskRow))
      → n ≢ node_id
      → Claimed now n tasks result
      → wait node_id t result.0.rows ≡ wait node_id t tasks.rows
  wait-other now n tasks result other (idle none_due e) = rw e refl
  wait-other now n tasks result other (handed s e) =
      let due = s.is_due in
      let passed : is_next node_id s.task ≡ false = ground arith in
      let passed' : is_next node_id (claimed now s.task) ≡ false = ground arith in
      rw e (
        wait-replaced s.before s.task (claimed now s.task) s.after passed passed'
        ∙ sym (ap (wait node_id t) s.table))

  closed_row :
      (now : ℕ) (status : TaskStatus) (request : NodeTaskResultRequest) (row : TaskRow)
      → is_open status ≡ false
      → is_next node_id (result_update now status request row) ≡ false
  unfolding result_update
  closed_row now status request row closed = ground arith

  pub wait-report :
      (now n task_id : ℕ) (request : NodeTaskResultRequest) (tasks : Tasks)
      (r : Result AppError Tasks)
      → IsValid tasks
      → store_result now n task_id request tasks ≡ r
      → wait node_id t (stored_or tasks r).rows ≤ wait node_id t tasks.rows
  wait-report now n task_id request tasks (err error) v e = omega arith
  wait-report now n task_id request tasks (ok tasks') v e =
      let s = result-Stored now n task_id request tasks tasks' e in
      rw s.table (
        wait-updated tasks.next_id (is_open_task n task_id) (result_update now s.status request)
          tasks.rows (λ row. closed_row now s.status request row s.closed) v)

  pub wait-Created :
      (tasks tasks' : Tasks)
      → t < tasks.next_id
      → Created tasks tasks'
      → wait node_id t tasks'.rows ≡ wait node_id t tasks.rows
  wait-Created tasks tasks' old (refused e) = rw e refl
  wait-Created tasks tasks' old (added row id fresh e) =
      rw e (wait-added tasks.rows row (λ same. absurd (omega arith)))
