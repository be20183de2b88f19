-- ===== src/Control/Tasks/Completed.antt =====
-- A task of control-api/src/main.rs that a node of node-core/src takes, carries out and reports.
use cll.Control.Tasks.Results.{
  result_update, update_node_task_result, validate_node_task_result, is_open_task, store_result,
  validate_node_task_result_status, NodeTaskResultRequest,
}
use cll.Base.{
  sym, subst, All, ◌==◌, ◌≤◌, none, false, [], ◌∷◌, if◌then◌else◌, ◌++◌, any, ◌&&◌, true, List,
  some, ◌≡◌, Bool, Option, ℕ, refl, arith,
}
use cll.Node.ControlPlane.Execution.{execute_remote_task, task_result, NodeTaskResult}
use cll.Control.Tasks.{
  claimed, claim_next_node_task, TaskStatus, Tasks, is_task, failed, succeeded, running, task_item,
  TaskRow,
}
use cll.Text.{trim, bytes, text_eq, Text}
use cll.Base.Outcome.{ok}
use cll.Node.RoutePolicy.{is_none}
use cll.Control.Tasks.Valid.{IsValid}
use cll.Control.Table.{select_first-middle, update_where-middle, select_first}
use cll.Control.Tasks.Claim.{apart, itself, Split, handed, idle, claim-Claimed}
use cll.Text.Plain.{All-map}

-- The result as the control plane reads it.
abbrev as_request : NodeTaskResult → NodeTaskResultRequest
as_request result = record {
  node_id = result.node_id;
  task_id = result.task_id;
  status = result.status;
  message = result.message;
  output = result.output;
  started_at = some result.started_at;
  finished_at = some result.finished_at;
}

any-middle :
    (p : TaskRow → Bool) (before : List TaskRow) (row : TaskRow) (after : List TaskRow)
    → p row ≡ true
    → any p (before ++ (row ∷ after)) ≡ true
any-middle p [] row after h = rw h refl
any-middle p (r ∷ before) row after h = ground (arith, any-middle p before row after h)

-- Whether the node can do what a task asks for.
abbrev pub works : Option Text → TaskRow → Bool
works schedule_error row = text_eq row.task_type (bytes "restart_node") && is_none schedule_error

module _ (node_id started finished : ℕ) (schedule_error : Option Text) (row : TaskRow) where
  abbrev pub result : NodeTaskResult
  result =
      task_result node_id started finished (task_item row)
        (execute_remote_task schedule_error (task_item row))

  -- What the result says: of this task, and how it went.
  record Says : Type 0 where
    of_node : result.node_id ≡ node_id
    of_task : result.task_id ≡ row.id
    outcome :
        validate_node_task_result_status result.status
        ≡ ok (if works schedule_error row then succeeded else failed)

  execution :
      row.status ≡ running
      → (o : Option Text) → schedule_error ≡ o
      → (known : Bool) → text_eq row.task_type (bytes "restart_node") ≡ known
      → Says
  unfolding execute_remote_task task_result task_item validate_node_task_result_status trim text_eq
  execution r none n true k = record {
    of_node = rw (r, k, n) refl;
    of_task = rw (r, k, n) refl;
    outcome = rw (r, k, n) refl;
  }
  execution r (some error) n true k = record {
    of_node = rw (r, k, n) refl;
    of_task = rw (r, k, n) refl;
    outcome = rw (r, k, n) refl;
  }
  execution r o n false k = record {
    of_node = rw (r, k) refl;
    of_task = rw (r, k) refl;
    outcome = rw (r, k) refl;
  }

equal_ids : (a b : ℕ) → a ≡ b → (a == b) ≡ true
equal_ids a b h = ground arith

not_zero : (a b : ℕ) → a ≡ b → 1 ≤ b → (a == 0) ≡ false
not_zero a b h p = ground arith

open_here :
    (node_id : ℕ) (task : TaskRow)
    → is_task node_id task.id task ≡ true
    → task.status ≡ running
    → is_open_task node_id task.id task ≡ true
open_here node_id task h r = rw (h, r) refl

closed_elsewhere :
    (node_id id : ℕ) (r : TaskRow)
    → is_task node_id id r ≡ false
    → is_open_task node_id id r ≡ false
closed_elsewhere node_id id r h = rw h refl

-- A result of a running task, in the middle of the table.
module _ (later node_id : ℕ) (request : NodeTaskResultRequest) (status : TaskStatus)
    (before : List TaskRow) (task : TaskRow) (after : List TaskRow) (next_id : ℕ) where
  abbrev around : TaskRow → Tasks
  around row = record { rows = before ++ (row ∷ after); next_id = next_id }

  stored-middle :
      request.node_id ≡ node_id
      → request.task_id ≡ task.id
      → 1 ≤ task.id
      → validate_node_task_result_status request.status ≡ ok status
      → task.status ≡ running
      → is_task node_id task.id task ≡ true
      → All (λ r. is_task node_id task.id r ≡ false) before
      → All (λ r. is_task node_id task.id r ≡ false) after
      → store_result later node_id task.id request (around task)
        ≡ ok (around (result_update later status request task))
  unfolding store_result validate_node_task_result update_node_task_result
  stored-middle n t p v r here b a =
      let p_open = is_open_task node_id task.id in
      let closed = λ (xs : List TaskRow).
        All-map (λ r. is_task node_id task.id r ≡ false) (λ r. p_open r ≡ false)
          (closed_elsewhere node_id task.id) xs in
      let is_open_now = open_here node_id task here r in
      rw
        (
          equal_ids request.node_id node_id n,
          equal_ids request.task_id task.id t,
          not_zero request.task_id task.id t p,
          v,
          any-middle p_open before task after is_open_now,
          update_where-middle p_open (result_update later status request) before task after
              (closed before b) is_open_now (closed after a),
        )
        refl

module _ (later started finished node_id : ℕ) (schedule_error : Option Text) where
  -- The result of a task is stored, and says how it went.
  abbrev pub Completed : TaskRow → Tasks → Type 0
  Completed row tasks =
      (done : TaskRow) × (after : Tasks) × (store_result later node_id row.id
          (as_request (result node_id started finished schedule_error row)) tasks
        ≡ ok after)
      × (select_first (is_task node_id row.id) after.rows ≡ some done)
      × (done.status ≡ (if works schedule_error row then succeeded else failed))

  Split-Completed :
      (now : ℕ) (tasks : Tasks) (s : Split node_id tasks.rows)
      → 1 ≤ s.task.id
      → Completed
          (claimed now s.task)
          (record tasks { rows = s.before ++ (claimed now s.task ∷ s.after) })
  unfolding result_update
  Split-Completed now tasks s p =
      let task = claimed now s.task in
      let sent = as_request (result node_id started finished schedule_error task) in
      let status = if works schedule_error task then succeeded else failed in
      let said = execution node_id started finished schedule_error task refl _ refl _ refl in
      let (before, after) = apart node_id s in
      let here : is_task node_id s.task.id task ≡ true = itself node_id s.task s.is_due in
      (
        result_update later status sent task,
        around later node_id sent status s.before task s.after tasks.next_id
            (result_update later status sent task),
        stored-middle later node_id sent status s.before task s.after tasks.next_id said.of_node
            said.of_task p said.outcome refl here before after,
        select_first-middle (is_task node_id s.task.id) s.before
            (result_update later status sent task) s.after before here,
        refl,
      )

  -- A task that is handed out is completed by its result, whatever the node makes of it: if the node
  -- takes a task with a positive id from a valid table, carries it out and reports at once, the result
  -- is stored, and the task has then succeeded if it asks for a restart and the restart can be
  -- scheduled, and failed otherwise.
  pub task-Completed :
      (now : ℕ) (row : TaskRow) (tasks tasks' : Tasks)
      → IsValid tasks
      → 1 ≤ row.id
      → claim_next_node_task now node_id tasks ≡ (tasks', ok (some row))
      → Completed row tasks'
  task-Completed now row tasks tasks' v p h = elim (claim-Claimed now node_id tasks v) [
    | idle _ e ↦ absurd (cc)
    | handed s e ↦
        let same : claimed now s.task ≡ row = cc in
        let same_table : record tasks { rows = s.before ++ (claimed now s.task ∷ s.after) }
            ≡ tasks' =
          cc in
        let small : 1 ≤ s.task.id = subst (λ r. 1 ≤ r.id) (sym same) p in
        subst (λ r. Completed r tasks') same
          (subst (Completed (claimed now s.task)) same_table (Split-Completed now tasks s small))
  ]
