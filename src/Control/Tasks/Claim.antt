-- ===== src/Control/Tasks/Claim.antt =====
-- `claim_next_node_task` of control-api/src/main.rs against a description of its effect.
use cll.Base.{
  ◌∙◌, Option, arith, ◌⊎◌, subst, ap, inr, [], some, ◌<◌, inl, none, true, Bool-cases, false, ◌++◌,
  ◌∷◌, All, ◌≡◌, List, ℕ, refl,
}
use cll.Control.Tasks.{
  handed_out, claim_selected, claimed, Tasks, claim_next_node_task, is_task, is_next, TaskRow,
}
use cll.Control.Table.{select_first-middle, update_where-middle, update_where, select_first}
use cll.Control.Tasks.Valid.{IsValid, Ordered}
use cll.Base.Outcome.{ok, Result}
use cll.Control.Error.{AppError}
use cll.Text.Plain.{All-map}

-- Where the first pending task of a node stands.
pub record Split (node_id : ℕ) (rows : List TaskRow) : Type 0 where
  pub before : List TaskRow
  pub task : TaskRow
  pub after : List TaskRow
  pub table : rows ≡ before ++ (task ∷ after)
  pub is_first : All (λ r. is_next node_id r ≡ false) before
  pub is_due : is_next node_id task ≡ true
  pub older : All (λ r. r.id < task.id) before
  pub younger : All (λ r. task.id < r.id) after

pub data Found (node_id : ℕ) (rows : List TaskRow) : Type 0 where
  no_task :
      All (λ r. is_next node_id r ≡ false) rows
      → select_first (is_next node_id) rows ≡ none
      → Found node_id rows
  due :
      (s : Split node_id rows)
      → select_first (is_next node_id) rows ≡ some s.task
      → Found node_id rows

All-middle :
    (P : TaskRow → Type 0) (before : List TaskRow) (task : TaskRow) (after : List TaskRow)
    → All P (before ++ (task ∷ after))
    → P task
All-middle P [] task after h = h.0
All-middle P (r ∷ before) task after h = All-middle P before task after h.1

find : (node_id next : ℕ) (rows : List TaskRow) → Ordered next rows → Found node_id rows
unfolding select_first
find node_id next [] o = no_task tt refl
find node_id next (row ∷ rows) (small, above, o) = elim (Bool-cases (is_next node_id row)) [
  | inl is_due ↦
      due
        (record {
          before = [];
          task = row;
          after = rows;
          table = refl;
          is_first = tt;
          is_due = is_due;
          older = tt;
          younger = above;
        })
        (rw is_due refl)
  | inr other ↦ elim (find node_id next rows o) [
    | no_task none_due e ↦ no_task (other, none_due) (rw other e)
    | due s e ↦
        due
          (record {
            before = row ∷ s.before;
            task = s.task;
            after = s.after;
            table = ap (λ t. row ∷ t) s.table;
            is_first = (other, s.is_first);
            is_due = s.is_due;
            older = (
              All-middle (λ r. row.id < r.id) s.before s.task s.after
                  (subst (All (λ r. row.id < r.id)) s.table above),
              s.older,
            );
            younger = s.younger;
          })
          (rw other e)
  ]
]

-- The table and the answer of a claim.
pub data Claimed (now node_id : ℕ) (tasks : Tasks)
    (result : Tasks × Result AppError (Option TaskRow)) : Type 0 where
  idle :
      All (λ r. is_next node_id r ≡ false) tasks.rows
      → result ≡ (tasks, ok none)
      → Claimed now node_id tasks result
  handed :
      (s : Split node_id tasks.rows)
      → result ≡ (
        record tasks { rows = s.before ++ (claimed now s.task ∷ s.after) },
        ok (some (claimed now s.task)),
      )
      → Claimed now node_id tasks result

other_id : (node_id id : ℕ) (r : TaskRow) → (r.id < id) ⊎ (id < r.id) → is_task node_id id r ≡ false
other_id node_id id r h = ground arith

pub itself :
    (node_id : ℕ) (task : TaskRow)
    → is_next node_id task ≡ true
    → is_task node_id task.id task ≡ true
itself node_id task h = ground arith

-- The other rows are other tasks.
pub apart :
    (node_id : ℕ) {rows : List TaskRow} (s : Split node_id rows)
    → All (λ r. is_task node_id s.task.id r ≡ false) s.before
      × All (λ r. is_task node_id s.task.id r ≡ false) s.after
apart node_id s = (
  All-map (λ r. r.id < s.task.id) (λ r. is_task node_id s.task.id r ≡ false)
      (λ r h. other_id node_id s.task.id r (inl h)) s.before s.older,
  All-map (λ r. s.task.id < r.id) (λ r. is_task node_id s.task.id r ≡ false)
      (λ r h. other_id node_id s.task.id r (inr h)) s.after s.younger,
)

-- A poll of a node answers the first pending task of the node, now running, and changes nothing else;
-- it answers nothing, and changes nothing, only if the node has no pending task.
pub claim-Claimed :
    (now node_id : ℕ) (tasks : Tasks)
    → IsValid tasks
    → Claimed now node_id tasks (claim_next_node_task now node_id tasks)
unfolding claim_next_node_task
claim-Claimed now node_id tasks v = elim (find node_id tasks.next_id tasks.rows v) [
  | no_task none_due e ↦ idle none_due (ap (claim_selected now node_id tasks) e)
  | due s e ↦
      let p = is_task node_id s.task.id in
      let (before, after) = apart node_id s in
      let here = itself node_id s.task s.is_due in
      let updated : update_where p (claimed now) tasks.rows
          ≡ s.before ++ (claimed now s.task ∷ s.after) =
        ap (update_where p (claimed now)) s.table
        ∙ update_where-middle p (claimed now) s.before s.task s.after before here after in
      let selected : select_first p (s.before ++ (claimed now s.task ∷ s.after))
          ≡ some (claimed now s.task) =
        select_first-middle p s.before (claimed now s.task) s.after before here in
      handed s (
        ap (claim_selected now node_id tasks) e
        ∙ ap (λ rows. handed_out tasks (record tasks { rows = rows }) (select_first p rows)) updated
        ∙ ap (handed_out tasks (record tasks { rows = s.before ++ (claimed now s.task ∷ s.after) }))
            selected)
]
