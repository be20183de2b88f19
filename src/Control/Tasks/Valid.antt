-- ===== src/Control/Tasks/Valid.antt =====
-- What holds of the table of tasks of control-api/src/main.rs throughout its histories, and what each
-- call changes.
use cll.Control.Tasks.Results.{
  is_open_task, validate_node_task_result, result_update, NodeTaskResultRequest,
  update_node_task_result, store_result, validate_node_task_result_status,
}
use cll.Base.{
  true, inr, any, inl, sym, arith, false, subst, ◌==◌, Bool-cases, [], if◌then◌else◌, none, ◌++◌,
  ◌<◌, All, Bool, some, ◌+◌, ◌∷◌, List, Option, ◌≡◌, ℕ, refl,
}
use cll.Control.Tasks.{
  new_task, appended, short_text, is_next, claimed, insert_admin_node_task, is_open, is_task,
  TaskStatus, handed_out, pending, validate_admin_node_task_type, TaskRow, admin_create_node_task,
  claim_next_node_task, Tasks, claim_selected, drop_node_tasks,
}
use cll.Control.Table.{All-update_where, select_first, update_where}
use cll.Control.Tasks.History.{
  created_or, delete_node, stored_or, report, poll, create, Event, run, step,
}
use cll.Text.{Text}
use cll.Base.Outcome.{◌>>=◌, ◌>>◌, err, Result, >>=-eq-ok, ok}
use cll.Control.Nodes.{ensure_admin_node_exists, NodeRow}
use cll.Text.Plain.{All-append}
use cll.Control.Error.{AppError}

-- The rows stand in the order of their ids, all of which have been given out.
abbrev pub Ordered : ℕ → List TaskRow → Type 0
Ordered next [] = Unit {0}
Ordered next (row ∷ rows) = (row.id < next) × All (λ r. row.id < r.id) rows × Ordered next rows

abbrev pub IsValid : Tasks → Type 0
IsValid tasks = Ordered tasks.next_id tasks.rows

Ordered-append :
    (next : ℕ) (rows : List TaskRow) (row : TaskRow)
    → row.id ≡ next
    → Ordered next rows
    → Ordered (next + 1) (rows ++ (row ∷ []))
Ordered-append next [] row e o = (omega arith, tt, tt)
Ordered-append next (r ∷ rows) row e (small, above, o) = (
  omega arith,
  All-append (λ x. r.id < x.id) rows (row ∷ []) above (omega arith, tt),
  Ordered-append next rows row e o,
)

Ordered-update :
    (next : ℕ) (p : TaskRow → Bool) (f : TaskRow → TaskRow) (rows : List TaskRow)
    → ((row : TaskRow) → (f row).id ≡ row.id)
    → Ordered next rows
    → Ordered next (update_where p f rows)
unfolding update_where
Ordered-update next p f [] same o = tt
Ordered-update next p f (row ∷ rows) same (small, above, o) =
    let kept : (if p row then f row else row).id ≡ row.id = ground (arith, same row) in
    (
      rw kept small,
      rw kept (All-update_where (λ r. row.id < r.id) p f (λ r h t. rw (same r) h) rows above),
      Ordered-update next p f rows same o,
    )

All-drop :
    (P : TaskRow → Type 0) (node_id : ℕ) (rows : List TaskRow)
    → All P rows
    → All P (drop_node_tasks node_id rows)
unfolding drop_node_tasks
All-drop P node_id [] h = tt
All-drop P node_id (row ∷ rows) (h, hs) = elim (Bool-cases (row.node_id == node_id)) [
  | inl gone ↦ rw gone (All-drop P node_id rows hs)
  | inr stays ↦ rw stays (h, All-drop P node_id rows hs)
]

Ordered-drop :
    (next node_id : ℕ) (rows : List TaskRow)
    → Ordered next rows
    → Ordered next (drop_node_tasks node_id rows)
unfolding drop_node_tasks
Ordered-drop next node_id [] o = tt
Ordered-drop next node_id (row ∷ rows) (small, above, o) =
    elim (Bool-cases (row.node_id == node_id)) [
      | inl gone ↦ rw gone (Ordered-drop next node_id rows o)
      | inr stays ↦ rw stays (
        small,
        All-drop (λ r. row.id < r.id) node_id rows above,
        Ordered-drop next node_id rows o,
      )
    ]

-- What a task is created as, if it is: the rest of the row is fixed.
pub data Created (tasks tasks' : Tasks) : Type 0 where
  refused : tasks' ≡ tasks → Created tasks tasks'
  added :
      (row : TaskRow)
      → row.id ≡ tasks.next_id
      → row.status ≡ pending
      → tasks' ≡ record { rows = tasks.rows ++ (row ∷ []); next_id = tasks.next_id + 1 }
      → Created tasks tasks'

checked-Created :
    (node_id : ℕ) (message : Option Text) (tasks : Tasks) (known : Result AppError Text)
    (exists : Result AppError (Unit {0}))
    → Created tasks (
        created_or tasks (do
          task_type ← known
          exists
          ok (appended (new_task tasks.next_id node_id task_type message) tasks)))
checked-Created node_id message tasks (err error) exists = refused refl
checked-Created node_id message tasks (ok task_type) (err error) = refused refl
checked-Created node_id message tasks (ok task_type) (ok u) = added _ refl refl refl

pub create-Created :
    (nodes : List NodeRow) (node_id : ℕ) (task_type : Text) (message : Option Text) (tasks : Tasks)
    → Created tasks (step (create nodes node_id task_type message) tasks)
unfolding step admin_create_node_task insert_admin_node_task
create-Created nodes node_id task_type message tasks =
    checked-Created node_id (short_text 512 message) tasks (validate_admin_node_task_type task_type)
      (ensure_admin_node_exists node_id nodes)

-- What a result changes, if it is stored.
pub record Stored (now node_id task_id : ℕ) (request : NodeTaskResultRequest) (tasks tasks' : Tasks)
    : Type 0 where
  pub status : TaskStatus
  pub closed : is_open status ≡ false
  pub found : any (is_open_task node_id task_id) tasks.rows ≡ true
  pub table : tasks' ≡ record tasks {
    rows =
        update_where (is_open_task node_id task_id) (result_update now status request) tasks.rows;
  }

status_closed :
    (text : Text) (status : TaskStatus)
    → validate_node_task_result_status text ≡ ok status
    → is_open status ≡ false
unfolding validate_node_task_result_status
status_closed text status h = ground arith

pub result-Stored :
    (now node_id task_id : ℕ) (request : NodeTaskResultRequest) (tasks tasks' : Tasks)
    → store_result now node_id task_id request tasks ≡ ok tasks'
    → Stored now node_id task_id request tasks tasks'
unfolding store_result update_node_task_result
result-Stored now node_id task_id request tasks tasks' h =
    let (_, e1, h1) = >>=-eq-ok (validate_node_task_result node_id task_id request) _ h in
    let (status, e2, h2) = >>=-eq-ok (validate_node_task_result_status request.status) _ h1 in
    elim (Bool-cases (any (is_open_task node_id task_id) tasks.rows)) [
      | inl found ↦ record {
        status = status;
        closed = status_closed request.status status e2;
        found = found;
        table = ground arith;
      }
      | inr lost ↦ absurd (ground arith)
    ]

handed_out-IsValid :
    (before after : Tasks) (o : Option TaskRow)
    → IsValid before
    → IsValid after
    → IsValid (handed_out before after o).0
handed_out-IsValid before after none b a = b
handed_out-IsValid before after (some task) b a = a

claim_selected-IsValid :
    (now node_id : ℕ) (tasks : Tasks) (o : Option TaskRow)
    → IsValid tasks
    → IsValid (claim_selected now node_id tasks o).0
unfolding claim_selected
claim_selected-IsValid now node_id tasks none v = v
claim_selected-IsValid now node_id tasks (some task) v =
    let p = is_task node_id task.id in
    let rows = update_where p (claimed now) tasks.rows in
    handed_out-IsValid tasks (record tasks { rows = rows }) (select_first p rows) v
      (Ordered-update tasks.next_id p (claimed now) tasks.rows (λ r. refl) v)

pub step-IsValid : (event : Event) (tasks : Tasks) → IsValid tasks → IsValid (step event tasks)
unfolding step claim_next_node_task result_update
step-IsValid (create nodes node_id task_type message) tasks v =
    elim (create-Created nodes node_id task_type message tasks) [
      | refused e ↦ subst IsValid (sym e) v
      | added row id fresh e ↦
          subst IsValid (sym e) (Ordered-append tasks.next_id tasks.rows row id v)
    ]
step-IsValid (poll now node_id) tasks v =
    claim_selected-IsValid now node_id tasks (select_first (is_next node_id) tasks.rows) v
step-IsValid (report now node_id task_id request) tasks v =
    stored (store_result now node_id task_id request tasks) refl
  where
    stored :
        (r : Result AppError Tasks)
        → store_result now node_id task_id request tasks ≡ r
        → IsValid (stored_or tasks r)
    stored (err error) e = v
    stored (ok tasks') e =
        let s = result-Stored now node_id task_id request tasks tasks' e in
        subst IsValid (sym s.table) (
          Ordered-update tasks.next_id (is_open_task node_id task_id)
            (result_update now s.status request) tasks.rows (λ r. refl) v)
step-IsValid (delete_node node_id) tasks v = Ordered-drop tasks.next_id node_id tasks.rows v

pub run-IsValid : (events : List Event) (tasks : Tasks) → IsValid tasks → IsValid (run events tasks)
unfolding run
run-IsValid [] tasks v = v
run-IsValid (event ∷ events) tasks v =
    run-IsValid events (step event tasks) (step-IsValid event tasks v)
