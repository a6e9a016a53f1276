-- ===== src/Tasks.antt =====
-- src/modules/tasks: task.service.ts and task.repository.ts. A handler gives its answer and the state that
-- it leaves; ids, titles and descriptions are numbers, of which only equality is used.
mod Types
mod Checks
mod Sound
mod Rights
mod Tests
use mathlib.Core.Option
use time_flow_be.Prelude.{
  ℕ, ◌+◌, Option, none, some, is_some, opt_eq, List, [], ◌∷◌, ◌++◌, Bool, true, false, not, ◌&&◌,
  ◌||◌, ◌==◌, any, all, if◌then◌else◌,
}
use time_flow_be.Prisma
use time_flow_be.Prisma.{Prisma}
unfoldable pub use time_flow_be.Tasks.Types.{completed_at_for}
pub use time_flow_be.Tasks.Types.{
  TaskStatus, Priority, status_number, same_status, Task, Project, User, AuthContext, TaskError,
  Event, UpdateTaskInput, CreateTaskInput, Result, ◌>>=◌, or_before, is_null, only_status,
  has_other_fields, in_project, todo, in_progress, review, completed, low, medium, high, critical,
  not_found, forbidden, project_not_found, bad_assignee, unique_violation, invalidated,
  task_created, task_assigned, task_status_changed, task_updated, task_deleted, assigned_email,
  status_changed_email, ok, threw,
}

module _ (prisma : Prisma) where
  pub record State : Type 0 where
    pub tasks : prisma.Table Task
    pub projects : prisma.Table Project
    pub users : prisma.Table User
    pub events : List Event

  abbrev pub find_task : ℕ → State → Option Task
  find_task id s = Prisma.find_first prisma (λ t. t.id == id) s.tasks

  abbrev pub find_project : ℕ → State → Option Project
  find_project id s = Prisma.find_first prisma (λ p. p.id == id) s.projects

  -- `taskScope(actor)`, of a task and its project.
  abbrev pub task_scope : AuthContext → Task → Project → Bool
  task_scope actor t p =
      is_null t.deleted_at
      && is_null p.deleted_at
      && (actor.tasks_view_all
          || opt_eq t.assignee_id (some actor.id)
          || opt_eq t.created_by_id (some actor.id)
          || p.manager_id == actor.id)

  unfoldable pub find_scoped : AuthContext → ℕ → State → Result (Task × Project)
  find_scoped actor id s = elim (find_task id s) [
    | none ↦ threw not_found
    | some t ↦ elim (find_project t.project_id s) [
      | none ↦ threw not_found
      | some p ↦ if task_scope actor t p then ok (t, p) else threw not_found
    ]
  ]

  abbrev pub is_task_privileged : AuthContext → Project → Bool
  is_task_privileged actor p = actor.tasks_view_all || p.manager_id == actor.id

  unfoldable pub load_writable_project : AuthContext → ℕ → State → Result Project
  load_writable_project actor id s = elim (find_project id s) [
    | none ↦ threw project_not_found
    | some p ↦
        let global = actor.tasks_view_all || actor.projects_view_all in
        if not (is_null p.deleted_at) || (not global && not (in_project p actor.id))
        then threw project_not_found
        else ok p
  ]

  unfoldable pub assert_assignable : Project → Option ℕ → State → Result (Unit {0})
  assert_assignable p none s = ok tt
  assert_assignable p (some user) s =
      let active =
        Prisma.count prisma (λ u. u.id == user && is_null u.deleted_at && u.active) s.users in
      if not (in_project p user) || active == 0 then threw bad_assignee else ok tt

  abbrev pub emit : List Event → State → State
  emit es s = record s { events = s.events ++ es }

  abbrev pub new_task : ℕ → ℕ → AuthContext → CreateTaskInput → Project → Task
  new_task now id actor i p = record {
    id = id;
    title = i.title;
    description = i.description;
    project_id = p.id;
    assignee_id = i.assignee_id;
    status = i.status;
    priority = i.priority;
    due_date = i.due_date;
    created_by_id = some actor.id;
    completed_at = if same_status i.status completed then some now else none;
    deleted_at = none;
  }

  abbrev pub created_events : Task → List Event
  created_events t = invalidated ∷ elim t.assignee_id [
    | none ↦ task_created t.id [] ∷ []
    | some user ↦ task_created t.id (user ∷ []) ∷ assigned_email t.id user ∷ []
  ]

  -- `prisma.task.create`; the id is the one that the database makes up.
  abbrev pub insert : Task → State → Result Task × State
  insert t s =
      if is_some (find_task t.id s)
      then (threw unique_violation, s)
      else (ok t, emit (created_events t) (record s { tasks = prisma.create t s.tasks }))

  unfoldable pub create_checks : AuthContext → CreateTaskInput → State → Result Project
  create_checks actor i s = load_writable_project actor i.project_id s >>= λ p.
      assert_assignable p i.assignee_id s >>= λ _. ok p

  unfoldable pub create : ℕ → ℕ → AuthContext → CreateTaskInput → State → Result Task × State
  create now id actor i s = elim (create_checks actor i s) [
    | threw e ↦ (threw e, s)
    | ok p ↦ insert (new_task now id actor i p) s
  ]

  -- `existing.assigneeId`, unless the client gives another.
  abbrev pub next_assignee : UpdateTaskInput → Task → Option ℕ
  next_assignee i t = or_before i.assignee_id t.assignee_id

  -- Whether the place of the task is looked at again.
  abbrev pub is_moved : UpdateTaskInput → Task → Bool
  is_moved i t =
      elim i.project_id [ none ↦ false | some p ↦ not (p == t.project_id) ] || elim i.assignee_id [
        | none ↦ false
        | some none ↦ false
        | some (some user) ↦ not (opt_eq t.assignee_id (some user))
      ]

  unfoldable pub update_checks :
      AuthContext → UpdateTaskInput → Task → Project → State → Result (Unit {0})
  update_checks actor i t p s =
      if not (is_task_privileged actor p)
        && (not (opt_eq t.assignee_id (some actor.id)) || not (only_status i))
      then threw forbidden
      else if is_moved i t
      then (load_writable_project actor (or_before i.project_id t.project_id) s >>= λ target.
          assert_assignable target (next_assignee i t) s)
      else ok tt

  abbrev pub updated : ℕ → UpdateTaskInput → Task → Task → Task
  updated now i existing t = record t {
    title = or_before i.title t.title;
    description = or_before i.description t.description;
    project_id = or_before i.project_id t.project_id;
    assignee_id = or_before i.assignee_id t.assignee_id;
    status = or_before i.status t.status;
    priority = or_before i.priority t.priority;
    due_date = or_before i.due_date t.due_date;
    completed_at =
        or_before (completed_at_for now i.status existing.status existing.completed_at)
          t.completed_at;
  }

  -- The author hears of a new status, unless the change is the author's own.
  abbrev pub status_events : AuthContext → UpdateTaskInput → Task → List Event
  status_events actor i t = elim i.status [
    | none ↦ []
    | some status ↦ if same_status status t.status then [] else elim t.created_by_id [
      | none ↦ task_status_changed t.id [] ∷ []
      | some author ↦
          if author == actor.id
          then task_status_changed t.id [] ∷ []
          else task_status_changed t.id (author ∷ []) ∷ status_changed_email t.id author ∷ []
    ]
  ]

  abbrev pub assignee_events : UpdateTaskInput → Task → List Event
  assignee_events i t = elim i.assignee_id [
    | none ↦ []
    | some none ↦ if is_null t.assignee_id then [] else task_assigned t.id [] ∷ []
    | some (some user) ↦
        if opt_eq t.assignee_id (some user)
        then []
        else task_assigned t.id (user ∷ []) ∷ assigned_email t.id user ∷ []
  ]

  abbrev pub updated_events : AuthContext → UpdateTaskInput → Task → List Event
  updated_events actor i t =
      invalidated ∷ status_events actor i t
      ++ assignee_events i t
      ++ (if has_other_fields i then task_updated t.id ∷ [] else [])

  abbrev pub write_task : ℕ → (Task → Task) → State → State
  write_task id f s = record s { tasks = prisma.update_many (λ t. t.id == id) f s.tasks }

  unfoldable pub update : ℕ → AuthContext → ℕ → UpdateTaskInput → State → Result Task × State
  update now actor id i s = elim (find_scoped actor id s) [
    | threw e ↦ (threw e, s)
    | ok (t, p) ↦ elim (update_checks actor i t p s) [
      | threw e ↦ (threw e, s)
      | ok _ ↦ (
        ok (updated now i t t),
        emit (updated_events actor i t) (write_task id (updated now i t) s),
      )
    ]
  ]

  abbrev pub trashed : ℕ → Task → Task
  trashed now t = record t { deleted_at = some now }

  unfoldable pub remove : ℕ → AuthContext → ℕ → State → Result (Unit {0}) × State
  remove now actor id s = elim (find_scoped actor id s) [
    | threw e ↦ (threw e, s)
    | ok (t, p) ↦
        if not (is_task_privileged actor p) && not (opt_eq t.created_by_id (some actor.id))
        then (threw forbidden, s)
        else (ok tt, emit (invalidated ∷ task_deleted id ∷ []) (write_task id (trashed now) s))
  ]
