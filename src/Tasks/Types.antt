-- ===== src/Tasks/Types.antt =====
-- task.service.ts and task.schemas.ts: the data of tasks, and tests of an update.
use time_flow_be.Prelude.{
  ℕ, Option, none, some, is_some, List, Bool, not, ◌&&◌, ◌||◌, ◌==◌, any, if◌then◌else◌,
}

pub data TaskStatus : Type 0 where
  todo in_progress review completed : TaskStatus

pub data Priority : Type 0 where
  low medium high critical : Priority

abbrev pub status_number : TaskStatus → ℕ
status_number todo = 0
status_number in_progress = 1
status_number review = 2
status_number completed = 3

abbrev pub same_status : TaskStatus → TaskStatus → Bool
same_status a b = status_number a == status_number b

pub record Task : Type 0 where
  pub id : ℕ
  pub title : ℕ
  pub description : Option ℕ
  pub project_id : ℕ
  pub assignee_id : Option ℕ
  pub status : TaskStatus
  pub priority : Priority
  pub due_date : Option ℕ
  pub created_by_id : Option ℕ
  pub completed_at : Option ℕ
  pub deleted_at : Option ℕ

pub record Project : Type 0 where
  pub id : ℕ
  pub manager_id : ℕ
  pub members : List ℕ
  pub deleted_at : Option ℕ

pub record User : Type 0 where
  pub id : ℕ
  pub active : Bool
  pub deleted_at : Option ℕ

-- The signed-in user, with the two permissions that tasks look at.
pub record AuthContext : Type 0 where
  pub id : ℕ
  pub tasks_view_all : Bool
  pub projects_view_all : Bool

pub data TaskError : Type 0 where
  not_found forbidden project_not_found bad_assignee unique_violation : TaskError

-- The activity log with the people that it notifies, and the mails, by their recipients.
pub data Event : Type 0 where
  invalidated : Event
  task_created task_assigned task_status_changed : ℕ → List ℕ → Event
  task_updated task_deleted : ℕ → Event
  assigned_email status_changed_email : ℕ → ℕ → Event

-- Of an update, `none` is a field that the client has left out; `some none` is null.
pub record UpdateTaskInput : Type 0 where
  pub title : Option ℕ
  pub description : Option (Option ℕ)
  pub project_id : Option ℕ
  pub assignee_id : Option (Option ℕ)
  pub status : Option TaskStatus
  pub priority : Option Priority
  pub due_date : Option (Option ℕ)

pub record CreateTaskInput : Type 0 where
  pub title : ℕ
  pub description : Option ℕ
  pub project_id : ℕ
  pub assignee_id : Option ℕ
  pub status : TaskStatus
  pub priority : Priority
  pub due_date : Option ℕ

pub data Result (A : Type 0) : Type 0 where
  ok : A → Result A
  threw : TaskError → Result A

module _ {A B : Type 0} where
  infixl 5 ◌>>=◌
  abbrev pub ◌>>=◌ : Result A → (A → Result B) → Result B
  ok a >>= f = f a
  threw e >>= f = threw e

-- `value ?? before`
abbrev pub or_before : {A : Type 0} → Option A → A → A
or_before none before = before
or_before (some a) before = a

abbrev pub is_null : {A : Type 0} → Option A → Bool
is_null o = not (is_some o)

-- `Object.keys(input).every((k) => k === 'status')`
abbrev pub only_status : UpdateTaskInput → Bool
only_status i =
    is_null i.title
    && is_null i.description
    && is_null i.project_id
    && is_null i.assignee_id
    && is_null i.priority
    && is_null i.due_date

-- `otherFields.length > 0`
abbrev pub has_other_fields : UpdateTaskInput → Bool
has_other_fields i =
    is_some i.title
    || is_some i.description
    || is_some i.project_id
    || is_some i.priority
    || is_some i.due_date

-- `undefined` leaves the column as it is.
unfoldable pub completed_at_for : ℕ → Option TaskStatus → TaskStatus → Option ℕ → Option (Option ℕ)
completed_at_for now none previous current = none
completed_at_for now (some status) previous current =
    if same_status status previous
    then none
    else if same_status status completed
    then some (some now)
    else if is_some current
    then some none
    else none

abbrev pub in_project : Project → ℕ → Bool
in_project p user = p.manager_id == user || any (λ m. m == user) p.members
