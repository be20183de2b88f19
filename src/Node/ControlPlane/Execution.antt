-- ===== src/Node/ControlPlane/Execution.antt =====
-- How a node carries out a task of its control plane, node-core/src/control_plane.rs. The command that
-- schedules a restart is an argument: its error, if it has one.
use cll.Base.{◌==◌, ◌++◌, none, not, some, List, Option, ℕ}
use cll.Text.{bytes, text_eq, Text}
use cll.Base.Outcome.{err, bail_if, ok, ◌>>◌, Result}
use cll.Node.ControlPlane.{trim_for_log}
use cll.Net.Display.{decimal}

pub record RemoteNodeTask : Type 0 where
  pub task_id : ℕ
  pub task_type : Text
  pub status : Text
  pub message : Option Text

pub record NodeTasksResponse : Type 0 where
  pub status : Text
  pub node_id : ℕ
  pub tasks : List RemoteNodeTask

pub record NodeTaskResult : Type 0 where
  pub node_id : ℕ
  pub task_id : ℕ
  pub status : Text
  pub message : Option Text
  pub output : Option Text
  pub started_at : ℕ
  pub finished_at : ℕ

pub record TaskExecution : Type 0 where
  pub status : Text
  pub message : Text
  pub output : Option Text

-- The tasks of an answer that is decoded: the checks of `fetch_and_execute_tasks`.
unfoldable pub checked_tasks : ℕ → NodeTasksResponse → Result Text (List RemoteNodeTask)
checked_tasks node_id payload = do
  bail_if (not (text_eq payload.status (bytes "ok")))
      (bytes "task response status is " ++ payload.status)
  bail_if (not (payload.node_id == node_id)) (bytes "task response node_id mismatch")
  ok payload.tasks

abbrev scheduled_or : Option Text → Result Text (Unit {0})
scheduled_or none = ok tt
scheduled_or (some error) = err error

unfoldable pub execute_remote_task : Option Text → RemoteNodeTask → Result Text TaskExecution
execute_remote_task schedule_error task = do
  bail_if (not (text_eq task.status (bytes "running")))
      (bytes "task " ++ (decimal task.task_id ++ (bytes " has unexpected status " ++ task.status)))
  bail_if (not (text_eq task.task_type (bytes "restart_node")))
      (bytes "unsupported task type: " ++ task.task_type)
  scheduled_or schedule_error
  ok (record {
    status = bytes "succeeded";
    message = bytes "restart scheduled; xaccel-node will restart in about 2 seconds";
    output = task.message;
  })

-- What is sent back.
unfoldable pub task_result : ℕ → ℕ → ℕ → RemoteNodeTask → Result Text TaskExecution → NodeTaskResult
task_result node_id started_at finished_at task (ok execution) = record {
  node_id = node_id;
  task_id = task.task_id;
  status = execution.status;
  message = some execution.message;
  output = execution.output;
  started_at = started_at;
  finished_at = finished_at;
}
task_result node_id started_at finished_at task (err error) = record {
  node_id = node_id;
  task_id = task.task_id;
  status = bytes "failed";
  message = some (trim_for_log error 512);
  output = none;
  started_at = started_at;
  finished_at = finished_at;
}
