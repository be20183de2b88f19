-- ===== src/Control/Tasks/Progress.antt =====
-- How long a task of control-api/src/main.rs waits for its node.
use cll.Control.Tasks.Results.{store_result, NodeTaskResultRequest}
use cll.Base.{
  inr, inl, Bool-cases, ◌&&◌, ◌-◌, Option, subst, ◌+◌, [], arith, false, ◌==◌, if◌then◌else◌, ◌<◌,
  ◌≡◌, ◌≤◌, All, ◌∷◌, ◌≢◌, List, ℕ, refl,
}
use cll.Control.Tasks.{claim_next_node_task, Tasks, is_next, TaskRow}
use cll.Control.Tasks.History.{run, step, stored_or, delete_node, report, create, poll, Event}
use cll.Control.Tasks.Valid.{
  create-Created, step-IsValid, result-Stored, added, IsValid, refused, Created,
}
use cll.Base.Outcome.{ok, err, Result}
use cll.Control.Error.{AppError}
use cll.Control.Tasks.Claim.{claim-Claimed, handed, idle, Claimed}
use cll.Control.Tasks.Wait.{wait-dropped, wait-report, wait-other, wait-poll, wait-Created, wait}

-- The polls of a node in a history.
abbrev pub polls : ℕ → List Event → ℕ
polls node_id [] = 0
polls node_id (poll now n ∷ events) = (if n == node_id then 1 else 0) + polls node_id events
polls node_id (create nodes n task_type message ∷ events) = polls node_id events
polls node_id (report now n task_id request ∷ events) = polls node_id events
polls node_id (delete_node n ∷ events) = polls node_id events

next_id-Created : (tasks tasks' : Tasks) → Created tasks tasks' → tasks.next_id ≤ tasks'.next_id
next_id-Created tasks tasks' (refused e) = rw e (omega arith)
next_id-Created tasks tasks' (added row id fresh e) = rw e (omega arith)

next_id-Claimed :
    (now n : ℕ) (tasks : Tasks) (result : Tasks × Result AppError (Option TaskRow))
    → Claimed now n tasks result
    → tasks.next_id ≤ result.0.next_id
next_id-Claimed now n tasks result (idle none_due e) = rw e (omega arith)
next_id-Claimed now n tasks result (handed s e) = rw e (omega arith)

next_id-report :
    (now n task_id : ℕ) (request : NodeTaskResultRequest) (tasks : Tasks)
    (r : Result AppError Tasks)
    → store_result now n task_id request tasks ≡ r
    → tasks.next_id ≤ (stored_or tasks r).next_id
next_id-report now n task_id request tasks (err error) e = omega arith
next_id-report now n task_id request tasks (ok tasks') e =
    rw (result-Stored now n task_id request tasks tasks' e).table (omega arith)

next_id-step :
    (event : Event) (tasks : Tasks) → IsValid tasks → tasks.next_id ≤ (step event tasks).next_id
unfolding step
next_id-step (create nodes n task_type message) tasks v =
    next_id-Created tasks _ (create-Created nodes n task_type message tasks)
next_id-step (poll now n) tasks v = next_id-Claimed now n tasks _ (claim-Claimed now n tasks v)
next_id-step (report now n task_id request) tasks v =
    next_id-report now n task_id request tasks _ refl
next_id-step (delete_node n) tasks v = omega arith

wait-step :
    (node_id t : ℕ) (event : Event) (tasks : Tasks)
    → IsValid tasks
    → t < tasks.next_id
    → wait node_id t (step event tasks).rows
      ≤ wait node_id t tasks.rows - polls node_id (event ∷ [])
unfolding step
wait-step node_id t (create nodes n task_type message) tasks v old =
    let created = create-Created nodes n task_type message tasks in
    omega (arith, wait-Created node_id t tasks _ old (unfold step in created))
wait-step node_id t (poll now n) tasks v old =
    let result = claim-Claimed now n tasks v in
    elim (Bool-cases (n == node_id)) [
      | inl same ↦
          let e : n ≡ node_id = ground arith in
          let claims = λ (k : ℕ). Claimed now k tasks (claim_next_node_task now n tasks) in
          rw same (omega (arith, wait-poll node_id t now tasks _ (subst claims e result)))
      | inr differs ↦
          let other : n ≢ node_id = λ e. ground arith in
          rw differs (omega (arith, wait-other node_id t now n tasks _ other result))
    ]
wait-step node_id t (report now n task_id request) tasks v old =
    omega (arith, wait-report node_id t now n task_id request tasks _ v refl)
wait-step node_id t (delete_node n) tasks v old =
    omega (arith, wait-dropped node_id t tasks.next_id n tasks.rows v)

polls-cons :
    (node_id : ℕ) (event : Event) (events : List Event)
    → polls node_id (event ∷ events) ≡ polls node_id (event ∷ []) + polls node_id events
polls-cons node_id (create nodes n task_type message) events = omega arith
polls-cons node_id (poll now n) events = omega arith
polls-cons node_id (report now n task_id request) events = omega arith
polls-cons node_id (delete_node n) events = omega arith

wait-run :
    (node_id t : ℕ) (events : List Event) (tasks : Tasks)
    → IsValid tasks
    → t < tasks.next_id
    → wait node_id t (run events tasks).rows ≤ wait node_id t tasks.rows - polls node_id events
unfolding run
wait-run node_id t [] tasks v old = omega arith
wait-run node_id t (event ∷ events) tasks v old = omega (
  arith,
  wait-step node_id t event tasks v old,
  wait-run node_id t events (step event tasks) (step-IsValid event tasks v)
      (omega (arith, next_id-step event tasks v)),
  polls-cons node_id event events,
)

not_waiting :
    (node_id t : ℕ) (rows : List TaskRow)
    → wait node_id t rows ≡ 0
    → All (λ row. is_next node_id row && row.id == t ≡ false) rows
not_waiting node_id t [] e = tt
not_waiting node_id t (row ∷ rows) e = (ground arith, not_waiting node_id t rows (ground arith))

-- In every history of a valid table, a task that is in it when the history begins is no longer pending
-- once its node has polled as often as it has pending tasks up to that one, whatever else happens.
pub taken_in_time :
    (node_id t : ℕ) (events : List Event) (tasks : Tasks)
    → IsValid tasks
    → t < tasks.next_id
    → wait node_id t tasks.rows ≤ polls node_id events
    → All (λ row. is_next node_id row && row.id == t ≡ false) (run events tasks).rows
taken_in_time node_id t events tasks v old enough =
    not_waiting node_id t (run events tasks).rows
      (omega (arith, wait-run node_id t events tasks v old))
