-- ===== src/Control/Tasks/Once.antt =====
-- How often a task of control-api/src/main.rs is handed out, and how often a result of it is stored.
use cll.Control.Tasks.Results.{is_open_task, NodeTaskResultRequest, result_update, store_result}
use cll.Control.Tasks.{
  TaskStatus, claimed, claim_next_node_task, is_open, is_pending, Tasks, drop_node_tasks, TaskRow,
}
use cll.Base.{
  subst, false, refl, none, some, Option, ◌&&◌, leb, ◌==◌, ◌∙◌, ◌≢◌, ap, if◌then◌else◌, inr, inl,
  Bool-cases, [], true, arith, ◌+◌, ◌≡◌, ◌++◌, ◌∷◌, ◌≤◌, List, ℕ,
}
use cll.Control.Table.{update_where}
use cll.Base.Outcome.{err, ok, Result}
use cll.Control.Tasks.History.{stored_or, delete_node, report, poll, create, step, Event}
use cll.Control.Error.{AppError}
use cll.Control.Tasks.Valid.{
  result-Stored, create-Created, step-IsValid, IsValid, added, refused, Created,
}
use cll.Control.Tasks.Claim.{claim-Claimed, handed, idle, Claimed}
use cll.Control.Tasks.Weight.{total-update_any, total, total-append, total-drop, total-update}

abbrev w_pending : ℕ → TaskRow → ℕ
w_pending t row = if row.id == t && is_pending row.status then 1 else 0

abbrev w_open : ℕ → TaskRow → ℕ
w_open t row = if row.id == t && is_open row.status then 1 else 0

-- A task that is still to be created counts once.
abbrev potential : (ℕ → TaskRow → ℕ) → ℕ → Tasks → ℕ
potential w t tasks = total (w t) tasks.rows + (if leb tasks.next_id t then 1 else 0)

abbrev given : ℕ → Result AppError (Option TaskRow) → ℕ
given t (ok (some row)) = if row.id == t then 1 else 0
given t (ok none) = 0
given t (err error) = 0

abbrev kept : Result AppError Tasks → ℕ
kept (ok tasks) = 1
kept (err error) = 0

-- Whether an event hands the task out, and whether it stores a result of it.
unfoldable pub hands_out : ℕ → Event → Tasks → ℕ
hands_out t (create nodes node_id task_type message) tasks = 0
hands_out t (poll now node_id) tasks = given t (claim_next_node_task now node_id tasks).1
hands_out t (report now node_id task_id request) tasks = 0
hands_out t (delete_node node_id) tasks = 0

unfoldable pub stores : ℕ → Event → Tasks → ℕ
stores t (create nodes node_id task_type message) tasks = 0
stores t (poll now node_id) tasks = 0
stores t (report now node_id task_id request) tasks =
    if task_id == t then kept (store_result now node_id task_id request tasks) else 0
stores t (delete_node node_id) tasks = 0

-- How often in a history.
unfoldable pub tally : (Event → Tasks → ℕ) → List Event → Tasks → ℕ
tally counts [] tasks = 0
tally counts (event ∷ events) tasks = counts event tasks + tally counts events (step event tasks)

Created-potential :
    (w : ℕ → TaskRow → ℕ) (t : ℕ) (tasks tasks' : Tasks)
    → ((row : TaskRow) → (w t row ≤ 1) × (row.id ≢ t → w t row ≡ 0))
    → Created tasks tasks'
    → potential w t tasks' ≤ potential w t tasks
Created-potential w t tasks tasks' small (refused e) = rw e (omega arith)
Created-potential w t tasks tasks' small (added row id fresh e) =
    rw e (ground (arith, total-append (w t) tasks.rows (row ∷ []), small row))

dropped_potential :
    (w : ℕ → TaskRow → ℕ) (t node_id : ℕ) (tasks : Tasks)
    → potential w t (record tasks { rows = drop_node_tasks node_id tasks.rows })
      ≤ potential w t tasks
dropped_potential w t node_id tasks = omega (arith, total-drop (w t) node_id tasks.rows)

split_total :
    (w : TaskRow → ℕ) (rows before : List TaskRow) (task : TaskRow) (after : List TaskRow)
    → rows ≡ before ++ (task ∷ after)
    → total w rows ≡ total w before + (w task + total w after)
split_total w rows before task after e = ap (total w) e ∙ total-append w before (task ∷ after)

handed_poll :
    (t now node_id : ℕ) (tasks : Tasks) (result : Tasks × Result AppError (Option TaskRow))
    → Claimed now node_id tasks result
    → given t result.1 + potential w_pending t result.0 ≤ potential w_pending t tasks
handed_poll t now node_id tasks result (idle none_due e) = rw e (omega arith)
handed_poll t now node_id tasks result (handed s e) =
    let was = split_total (w_pending t) tasks.rows s.before s.task s.after s.table in
    let is = total-append (w_pending t) s.before (claimed now s.task ∷ s.after) in
    let due = s.is_due in rw e (ground (arith, was, is, due))

pending_small : (t : ℕ) (row : TaskRow) → (w_pending t row ≤ 1) × (row.id ≢ t → w_pending t row ≡ 0)
pending_small t row = (ground arith, λ other. ground arith)

open_small : (t : ℕ) (row : TaskRow) → (w_open t row ≤ 1) × (row.id ≢ t → w_open t row ≡ 0)
open_small t row = (ground arith, λ other. ground arith)

-- A running task is as open as a pending one.
stored_poll :
    (t now node_id : ℕ) (tasks : Tasks) (result : Tasks × Result AppError (Option TaskRow))
    → Claimed now node_id tasks result
    → potential w_open t result.0 ≤ potential w_open t tasks
stored_poll t now node_id tasks result (idle none_due e) = rw e (omega arith)
stored_poll t now node_id tasks result (handed s e) =
    let was = split_total (w_open t) tasks.rows s.before s.task s.after s.table in
    let is = total-append (w_open t) s.before (claimed now s.task ∷ s.after) in
    let due = s.is_due in rw e (ground (arith, was, is, due))

-- A result closes the rows that it changes.
closed_pending :
    (t now : ℕ) (status : TaskStatus) (request : NodeTaskResultRequest) (row : TaskRow)
    → is_open status ≡ false
    → w_pending t (result_update now status request row) ≡ 0
unfolding result_update
closed_pending t now status request row closed = ground arith

closed_open :
    (t now : ℕ) (status : TaskStatus) (request : NodeTaskResultRequest) (row : TaskRow)
    → is_open status ≡ false
    → w_open t (result_update now status request row) ≡ 0
unfolding result_update
closed_open t now status request row closed = ground arith

report_potential :
    (t now node_id task_id : ℕ) (request : NodeTaskResultRequest) (tasks : Tasks)
    (r : Result AppError Tasks)
    → store_result now node_id task_id request tasks ≡ r
    → (potential w_pending t (stored_or tasks r) ≤ potential w_pending t tasks)
      × ((if task_id == t then kept r else 0) + potential w_open t (stored_or tasks r)
          ≤ potential w_open t tasks)
report_potential t now node_id task_id request tasks (err error) e = (omega arith, ground arith)
report_potential t now node_id task_id request tasks (ok tasks') e =
    let s = result-Stored now node_id task_id request tasks tasks' e in
    let p = is_open_task node_id task_id in
    let f = result_update now s.status request in
    let lighter =
      total-update (w_pending t) p f tasks.rows
        (λ row. closed_pending t now s.status request row s.closed) in
    let no_heavier =
      total-update (w_open t) p f tasks.rows
        (λ row. closed_open t now s.status request row s.closed) in
    let weighs : (row : TaskRow) → p row ≡ true → w_open task_id row ≡ 1 = λ row h. ground arith in
    let lighter_by_one =
      total-update_any (w_open task_id) p f tasks.rows
        (λ row. closed_open task_id now s.status request row s.closed) weighs s.found in
    (
      rw s.table (omega (arith, lighter)),
      rw s.table (elim (Bool-cases (task_id == t)) [
        | inl same ↦
            let e2 : task_id ≡ t = ground arith in
            rw same (
              subst
                (λ u.
                  1 + potential w_open u (record tasks { rows = update_where p f tasks.rows })
                  ≤ potential w_open u tasks)
                e2 (omega (arith, lighter_by_one)))
        | inr other ↦ rw other (omega (arith, no_heavier))
      ]),
    )

none_counted : {a b : ℕ} → a ≤ b → 0 + a ≤ b
none_counted h = omega arith

handed_step :
    (t : ℕ) (event : Event) (tasks : Tasks)
    → IsValid tasks
    → hands_out t event tasks + potential w_pending t (step event tasks)
      ≤ potential w_pending t tasks
unfolding hands_out step
handed_step t (create nodes node_id task_type message) tasks v = none_counted (
    Created-potential w_pending t tasks _ (pending_small t)
      (create-Created nodes node_id task_type message tasks))
handed_step t (poll now node_id) tasks v =
    handed_poll t now node_id tasks _ (claim-Claimed now node_id tasks v)
handed_step t (report now node_id task_id request) tasks v =
    none_counted (report_potential t now node_id task_id request tasks _ refl).0
handed_step t (delete_node node_id) tasks v =
    none_counted (dropped_potential w_pending t node_id tasks)

stored_step :
    (t : ℕ) (event : Event) (tasks : Tasks)
    → IsValid tasks
    → stores t event tasks + potential w_open t (step event tasks) ≤ potential w_open t tasks
unfolding stores step
stored_step t (create nodes node_id task_type message) tasks v = none_counted (
    Created-potential w_open t tasks _ (open_small t)
      (create-Created nodes node_id task_type message tasks))
stored_step t (poll now node_id) tasks v =
    none_counted (stored_poll t now node_id tasks _ (claim-Claimed now node_id tasks v))
stored_step t (report now node_id task_id request) tasks v =
    (report_potential t now node_id task_id request tasks _ refl).1
stored_step t (delete_node node_id) tasks v =
    none_counted (dropped_potential w_open t node_id tasks)

tally-le-potential :
    (w : ℕ → TaskRow → ℕ) (counts : Event → Tasks → ℕ) (t : ℕ)
    → ((event : Event) (tasks : Tasks)
        → IsValid tasks
        → counts event tasks + potential w t (step event tasks) ≤ potential w t tasks)
    → (events : List Event) (tasks : Tasks) → IsValid tasks
    → tally counts events tasks ≤ potential w t tasks
unfolding tally
tally-le-potential w counts t one [] tasks v = omega arith
tally-le-potential w counts t one (event ∷ events) tasks v = omega (
  arith,
  one event tasks v,
  tally-le-potential w counts t one events (step event tasks) (step-IsValid event tasks v),
)

-- In every history of an empty table, each task is handed out to a node at most once, and at most one
-- result of it is stored.
pub each_once :
    (events : List Event) (first_id t : ℕ)
    → (tally (hands_out t) events (record { rows = []; next_id = first_id }) ≤ 1)
      × (tally (stores t) events (record { rows = []; next_id = first_id }) ≤ 1)
each_once events first_id t =
    let empty : Tasks = record { rows = []; next_id = first_id } in
    let handed = tally-le-potential w_pending (hands_out t) t (handed_step t) events empty tt in
    let stored = tally-le-potential w_open (stores t) t (stored_step t) events empty tt in
    (ground (arith, handed), ground (arith, stored))
