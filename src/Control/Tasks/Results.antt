-- ===== src/Control/Tasks/Results.antt =====
-- The results that nodes send for their tasks, control-api/src/main.rs.
use cll.Base.{
  ◌==◌, not, any, false, ◌&&◌, if◌then◌else◌, none, true, ◌++◌, Bool, List, some, Option, ℕ,
}
use cll.Text.{trim, text_eq, bytes, Text}
use cll.Control.Tasks.{succeeded, failed, is_open, is_task, TaskRow, Tasks, TaskStatus, short_text}
use cll.Node.Platform.{Platform}
use cll.Base.Outcome.{err, ok_or, bail_if, ok, ◌>>=◌, ◌>>◌, Result}
use cll.Control.Error.{
  invalid_task_id, task_id_mismatch, invalid_task_result, invalid_task_status, node_id_mismatch,
  task_not_found, bad_request, not_found, AppError,
}
use cll.Control.Nodes.{NodeRow}
use cll.Net.Display.{decimal}
use cll.Control.NodeApi.{authenticate_node_request, Headers}
use cll.Control.Table.{update_where}
use cll.Node.ControlPlane.{post}

pub record NodeTaskResultRequest : Type 0 where
  pub node_id : ℕ
  pub task_id : ℕ
  pub status : Text
  pub message : Option Text
  pub output : Option Text
  pub started_at : Option ℕ
  pub finished_at : Option ℕ

unfoldable pub validate_node_task_result :
    ℕ → ℕ → NodeTaskResultRequest → Result AppError (Unit {0})
validate_node_task_result node_id task_id request = do
  bail_if (not (request.node_id == node_id)) (bad_request node_id_mismatch)
  bail_if (not (request.task_id == task_id)) (bad_request task_id_mismatch)
  bail_if (request.task_id == 0) (bad_request invalid_task_id)

unfoldable pub validate_node_task_result_status : Text → Result AppError TaskStatus
validate_node_task_result_status status =
    if text_eq (trim status) (bytes "succeeded")
    then ok succeeded
    else if text_eq (trim status) (bytes "failed")
    then ok failed
    else err (bad_request invalid_task_status)

abbrev is_failed : TaskStatus → Bool
is_failed failed = true
is_failed other = false

abbrev coalesce : {A : Type 0} → Option A → Option A → Option A
coalesce none b = b
coalesce (some a) b = some a

unfoldable pub result_update : ℕ → TaskStatus → NodeTaskResultRequest → TaskRow → TaskRow
unfolding short_text
result_update now status request row =
    let message = short_text 512 request.message in
    record row {
      status = status;
      message = coalesce message row.message;
      output = short_text 4096 request.output;
      error_message = if is_failed status then message else none;
      started_at = coalesce request.started_at row.started_at;
      finished_at = coalesce request.finished_at (some now);
    }

abbrev pub is_open_task : ℕ → ℕ → TaskRow → Bool
is_open_task node_id task_id row = is_task node_id task_id row && is_open row.status

unfoldable pub update_node_task_result :
    ℕ → ℕ → ℕ → TaskStatus → NodeTaskResultRequest → Tasks → Result AppError Tasks
update_node_task_result now node_id task_id status request tasks =
    if any (is_open_task node_id task_id) tasks.rows
    then ok (record tasks {
      rows =
          update_where (is_open_task node_id task_id) (result_update now status request) tasks.rows;
    })
    else err (not_found task_not_found)

abbrev pub result_path : ℕ → Text
result_path task_id = bytes "/api/node/v1/tasks/" ++ (decimal task_id ++ bytes "/result")

-- What `node_task_result` does once the node is known and the body is read.
unfoldable pub store_result : ℕ → ℕ → ℕ → NodeTaskResultRequest → Tasks → Result AppError Tasks
unfolding validate_node_task_result validate_node_task_result_status
store_result now node_id task_id request tasks = do
  validate_node_task_result node_id task_id request
  status ← validate_node_task_result_status request.status
  update_node_task_result now node_id task_id status request tasks

-- The table after a result that is accepted.
unfoldable pub node_task_result :
    Platform
    → (Text → Option NodeTaskResultRequest)
    → ℕ
    → List NodeRow
    → Headers
    → ℕ
    → Text
    → Tasks
    → Result AppError Tasks
node_task_result platform read_result now nodes headers task_id body tasks = do
  node_id ← authenticate_node_request platform now nodes headers post (result_path task_id) body
  request ← ok_or (read_result body) (bad_request invalid_task_result)
  store_result now node_id task_id request tasks
