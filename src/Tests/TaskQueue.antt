-- ===== src/Tests/TaskQueue.antt =====
-- Two tasks of a node.
use cll.Control.Tasks.Results.{
  result_update, update_node_task_result, validate_node_task_result_status,
  validate_node_task_result, store_result, NodeTaskResultRequest,
}
use cll.Control.Tasks.Completed.{Completed, task-Completed}
use cll.Base.{some, false, ◌≡◌, ◌==◌, ◌≤◌, [], none, ◌&&◌, ◌∷◌, All, List, ℕ, refl, arith}
use cll.Control.Tasks.{
  claimed, short_text, claim_selected, claim_next_node_task, validate_admin_node_task_type,
  insert_admin_node_task, admin_create_node_task, new_task, TaskRow, is_next, Tasks,
}
use cll.Control.Tasks.Valid.{IsValid}
use cll.Control.Tasks.Once.{each_once, hands_out, stores, tally}
use cll.Text.{trim, text_eq, bytes}
use cll.Control.Tasks.History.{run, report, create, poll, step, Event}
use cll.Tests.Signing.{row}
use cll.Control.Tasks.Progress.{taken_in_time}
use cll.Control.Table.{update_where, select_first}
use cll.Control.Nodes.{ensure_admin_node_exists}
use cll.Base.Outcome.{ok}

abbrev queued : ℕ → TaskRow
queued id = new_task id 7 (bytes "restart_node") none

abbrev two_tasks : Tasks
two_tasks = record { rows = queued 1 ∷ queued 2 ∷ []; next_id = 3 }

abbrev succeeds : NodeTaskResultRequest
succeeds = record {
  node_id = 7;
  task_id = 1;
  status = bytes "succeeded";
  message = none;
  output = none;
  started_at = none;
  finished_at = none;
}

-- Two polls, and twice the same result in between.
abbrev history : List Event
history = poll 100 7 ∷ report 110 7 1 succeeds ∷ report 111 7 1 succeeds ∷ poll 120 7 ∷ []

IsValid-tasks : IsValid two_tasks
IsValid-tasks = omega arith

taken_in_time_example :
    All (λ row. is_next 7 row && row.id == 2 ≡ false) (run history two_tasks).rows
taken_in_time_example =
    taken_in_time 7 2 history two_tasks IsValid-tasks (omega arith) (omega arith)

-- The same from an empty table: the node is known, and two tasks are made.
abbrev whole_history : List Event
whole_history =
    create (row ∷ []) 7 (bytes "restart_node") none
    ∷ create (row ∷ []) 7 (bytes "restart_node") none
    ∷ history

each_once_example :
    (tally (hands_out 2) whole_history (record { rows = []; next_id = 1 }) ≤ 1)
    × (tally (stores 2) whole_history (record { rows = []; next_id = 1 }) ≤ 1)
each_once_example = each_once whole_history 1 2

-- The bounds are reached.
handed_out_once : tally (hands_out 2) whole_history (record { rows = []; next_id = 1 }) ≡ 1
unfolding tally hands_out step admin_create_node_task insert_admin_node_task
    ensure_admin_node_exists validate_admin_node_task_type claim_next_node_task claim_selected
    select_first update_where store_result validate_node_task_result
    validate_node_task_result_status update_node_task_result result_update short_text text_eq trim
handed_out_once = refl

stored_once : tally (stores 1) whole_history (record { rows = []; next_id = 1 }) ≡ 1
unfolding tally stores step admin_create_node_task insert_admin_node_task ensure_admin_node_exists
    validate_admin_node_task_type claim_next_node_task claim_selected select_first update_where
    store_result validate_node_task_result validate_node_task_result_status update_node_task_result
    result_update short_text text_eq trim
stored_once = refl

taken : claim_next_node_task 100 7 two_tasks ≡ (
  record two_tasks { rows = claimed 100 (queued 1) ∷ queued 2 ∷ [] },
  ok (some (claimed 100 (queued 1))),
)
unfolding claim_next_node_task claim_selected select_first update_where
taken = refl

task-Completed_example :
    Completed 110 101 102 7 none
      (claimed 100 (queued 1))
      (record two_tasks { rows = claimed 100 (queued 1) ∷ queued 2 ∷ [] })
task-Completed_example =
    task-Completed 110 101 102 7 none 100 (claimed 100 (queued 1)) two_tasks
      (record two_tasks { rows = claimed 100 (queued 1) ∷ queued 2 ∷ [] }) IsValid-tasks
      (omega arith) taken
