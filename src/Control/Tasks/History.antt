-- ===== src/Control/Tasks/History.antt =====
-- Histories of the table of tasks of control-api/src/main.rs: operators create tasks and delete nodes,
-- nodes poll and report, in any order.
use cll.Control.Tasks.Results.{NodeTaskResultRequest, store_result}
use cll.Base.{[], Option, ◌∷◌, List, ℕ}
use cll.Control.Tasks.{
  claim_next_node_task, TaskRow, admin_create_node_task, Tasks, drop_node_tasks,
}
use cll.Control.Nodes.{NodeRow}
use cll.Base.Outcome.{err, ok, Result}
use cll.Text.{Text}
use cll.Control.Error.{AppError}

-- What the API is asked, once the caller is known.
pub data Event : Type 0 where
  create : List NodeRow → ℕ → Text → Option Text → Event
  poll : ℕ → ℕ → Event
  report : ℕ → ℕ → ℕ → NodeTaskResultRequest → Event
  delete_node : ℕ → Event

abbrev pub created_or : Tasks → Result AppError (Tasks × TaskRow) → Tasks
created_or tasks (ok (tasks', row)) = tasks'
created_or tasks (err error) = tasks

abbrev pub stored_or : Tasks → Result AppError Tasks → Tasks
stored_or tasks (ok tasks') = tasks'
stored_or tasks (err error) = tasks

unfoldable pub step : Event → Tasks → Tasks
step (create nodes node_id task_type message) tasks =
    created_or tasks (admin_create_node_task nodes node_id task_type message tasks)
step (poll now node_id) tasks = (claim_next_node_task now node_id tasks).0
step (report now node_id task_id request) tasks =
    stored_or tasks (store_result now node_id task_id request tasks)
step (delete_node node_id) tasks = record tasks { rows = drop_node_tasks node_id tasks.rows }

unfoldable pub run : List Event → Tasks → Tasks
run [] tasks = tasks
run (event ∷ events) tasks = run events (step event tasks)
