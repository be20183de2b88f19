-- ===== src/Control/Tasks.antt =====
-- The tasks that the control plane has for its nodes, control-api/src/main.rs: the table
-- `node_remote_tasks`, in the order of its ids, and what operators and nodes do to it. Each function is
-- one transaction; the audit log that it writes too is left out.
pub mod Results
pub mod History
pub mod Valid
pub mod Claim
pub mod Weight
pub mod Once
pub mod Wait
pub mod Progress
pub mod Completed
use cll.Base.{
  ℕ, ◌+◌, Bool, true, false, ◌&&◌, Option, none, some, List, [], ◌∷◌, ◌++◌, ◌==◌, not, any,
  if◌then◌else◌,
}
use cll.Base.Outcome.{Result, ok, err, ◌>>=◌, ◌>>◌, bail_if, ok_or}
use cll.Text.{Text, bytes, text_eq, trim, trim_filter}
use cll.Text.Chars.{take_chars}
use cll.Net.Display.{decimal}
use cll.Node.ControlPlane.{post, get, tasks_path}
use cll.Node.Platform.{Platform}
use cll.Control.Error.{
  AppError, bad_request, not_found, node_not_found, invalid_task_type, invalid_task_status,
  invalid_task_result, invalid_task_id, task_id_mismatch, task_not_found, node_id_mismatch,
}
use cll.Control.NodeApi.{Headers, authenticate_node_request}
use cll.Control.Nodes.{ensure_admin_node_exists, NodeRow, has_id}
use cll.Control.Table.{select_first, update_where}
use cll.Node.ControlPlane.Execution.{RemoteNodeTask}

pub data TaskStatus : Type 0 where
  pending running succeeded failed canceled : TaskStatus

pub record TaskRow : Type 0 where
  pub id : ℕ
  pub node_id : ℕ
  pub task_type : Text
  pub status : TaskStatus
  pub message : Option Text
  pub output : Option Text
  pub error_message : Option Text
  pub claimed_at : Option ℕ
  pub started_at : Option ℕ
  pub finished_at : Option ℕ

-- The table, and the id that the next row gets.
pub record Tasks : Type 0 where
  pub rows : List TaskRow
  pub next_id : ℕ

abbrev pub is_pending : TaskStatus → Bool
is_pending pending = true
is_pending other = false

-- `status IN ('pending', 'running')`.
abbrev pub is_open : TaskStatus → Bool
is_open pending = true
is_open running = true
is_open other = false

unfoldable pub validate_admin_node_task_type : Text → Result AppError Text
validate_admin_node_task_type task_type =
    if text_eq (trim task_type) (bytes "restart_node")
    then ok (bytes "restart_node")
    else err (bad_request invalid_task_type)

-- `.map(trim).filter(not empty).map(take n chars)`.
unfoldable pub short_text : ℕ → Option Text → Option Text
short_text max_chars value = elim (trim_filter value) [
  | none ↦ none
  | some text ↦ some (take_chars max_chars text)
]

abbrev pub new_task : ℕ → ℕ → Text → Option Text → TaskRow
new_task id node_id task_type message = record {
  id = id;
  node_id = node_id;
  task_type = task_type;
  status = pending;
  message = message;
  output = none;
  error_message = none;
  claimed_at = none;
  started_at = none;
  finished_at = none;
}

abbrev pub appended : TaskRow → Tasks → Tasks × TaskRow
appended row tasks = (record { rows = tasks.rows ++ (row ∷ []); next_id = tasks.next_id + 1 }, row)

unfoldable pub insert_admin_node_task :
    List NodeRow → ℕ → Text → Option Text → Tasks → Result AppError (Tasks × TaskRow)
insert_admin_node_task nodes node_id task_type message tasks = do
  ensure_admin_node_exists node_id nodes
  ok (appended (new_task tasks.next_id node_id task_type message) tasks)

-- The body of `admin_create_node_task`, for an operator that may write.
unfoldable pub admin_create_node_task :
    List NodeRow → ℕ → Text → Option Text → Tasks → Result AppError (Tasks × TaskRow)
unfolding validate_admin_node_task_type short_text insert_admin_node_task
admin_create_node_task nodes node_id task_type message tasks = do
  known ← validate_admin_node_task_type task_type
  insert_admin_node_task nodes node_id known (short_text 512 message) tasks

abbrev pub is_next : ℕ → TaskRow → Bool
is_next node_id row = row.node_id == node_id && is_pending row.status

abbrev pub is_task : ℕ → ℕ → TaskRow → Bool
is_task node_id task_id row = row.id == task_id && row.node_id == node_id

abbrev pub claimed : ℕ → TaskRow → TaskRow
claimed now row = record row { status = running; claimed_at = some now; started_at = some now }

-- The end of a claim: the row as it is now, or a roll-back where it is not found.
abbrev pub handed_out : Tasks → Tasks → Option TaskRow → Tasks × Result AppError (Option TaskRow)
handed_out before after none = (before, err (not_found task_not_found))
handed_out before after (some task) = (after, ok (some task))

-- What follows the first `SELECT`.
unfoldable pub claim_selected :
    ℕ → ℕ → Tasks → Option TaskRow → Tasks × Result AppError (Option TaskRow)
claim_selected now node_id tasks none = (tasks, ok none)
claim_selected now node_id tasks (some task) =
    let rows = update_where (is_task node_id task.id) (claimed now) tasks.rows in
    handed_out tasks (record tasks { rows = rows }) (select_first (is_task node_id task.id) rows)

-- The first pending task of a node, which is running afterwards.
unfoldable pub claim_next_node_task : ℕ → ℕ → Tasks → Tasks × Result AppError (Option TaskRow)
unfolding claim_selected
claim_next_node_task now node_id tasks =
    claim_selected now node_id tasks (select_first (is_next node_id) tasks.rows)

abbrev pub status_text : TaskStatus → Text
status_text pending = bytes "pending"
status_text running = bytes "running"
status_text succeeded = bytes "succeeded"
status_text failed = bytes "failed"
status_text canceled = bytes "canceled"

-- `NodeTaskItem::from_row`, as the node reads it.
unfoldable pub task_item : TaskRow → RemoteNodeTask
task_item row = record {
  task_id = row.id;
  task_type = row.task_type;
  status = status_text row.status;
  message = row.message;
}

-- An error leaves the table as it was. The answer holds `task_item` of the row.
unfoldable pub node_tasks :
    Platform → ℕ → List NodeRow → Headers → Tasks → Tasks × Result AppError (ℕ × Option TaskRow)
node_tasks platform now nodes headers tasks =
    elim (authenticate_node_request platform now nodes headers get tasks_path []) [
      | err error ↦ (tasks, err error)
      | ok node_id ↦
          let (tasks', task) = claim_next_node_task now node_id tasks in
          (tasks', do row ← task; ok (node_id, row))
    ]

-- The tasks of a node go with its row: the foreign key cascades.
unfoldable pub drop_node_tasks : ℕ → List TaskRow → List TaskRow
drop_node_tasks node_id [] = []
drop_node_tasks node_id (row ∷ rows) =
    let rest = drop_node_tasks node_id rows in if row.node_id == node_id then rest else row ∷ rest
