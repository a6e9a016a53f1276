-- ===== src/Projects.antt =====
-- src/modules/projects: project.service.ts and project.repository.ts. A handler gives its answer and the
-- state that it leaves. Names and descriptions are numbers, of which only equality is used.
mod Types
mod Sets
mod Checks
mod Members
mod Sound
mod Stats
mod Tests
use mathlib.Core.Option
use time_flow_be.Prelude.{
  ℕ, Option, none, some, is_some, opt_eq, List, [], ◌∷◌, ◌++◌, map, Bool, true, false, not, ◌&&◌,
  ◌||◌, ◌==◌, any, filter, length, if◌then◌else◌,
}
use time_flow_be.Results.{Result, ok, threw, ◌>>=◌, require}
use time_flow_be.Prisma
use time_flow_be.Prisma.{Prisma}
use time_flow_be.Tasks.{Task, User, AuthContext, or_before, is_null}
pub use time_flow_be.Projects.Types.{
  ProjectStatus, status_number, Project, ProjectMember, Field, ProjectError, Event,
  CreateProjectInput, UpdateProjectInput, in_order, has_other_fields, elem, add, add_all, to_set,
  is_empty, planning, active, on_hold, completed, archived, manager_id_path, member_ids_path,
  not_found, forbidden, end_before_start, unique_violation, not_active, invalidated,
  project_created, project_status_changed, project_deleted, project_updated, invitation_email,
}

module _ (prisma : Prisma) where
  pub record State : Type 0 where
    pub projects : prisma.Table Project
    pub members : prisma.Table ProjectMember
    pub tasks : prisma.Table Task
    pub users : prisma.Table User
    pub events : List Event

  abbrev pub Answer : Type 0 → Type 0
  Answer A = Result ProjectError A

  abbrev pub find_project : ℕ → State → Option Project
  find_project id s = Prisma.find_first prisma (λ p. p.id == id) s.projects

  -- `members: { some: { userId } }`
  abbrev pub is_member : ℕ → ℕ → ProjectMember → Bool
  is_member project user m = m.project_id == project && m.user_id == user

  abbrev pub has_member : ℕ → ℕ → State → Bool
  has_member project user s = any (is_member project user) (prisma.rows s.members)

  -- `existing.members.map((m) => m.user.id)`
  abbrev pub members_of : ℕ → State → List ℕ
  members_of project s =
      map (λ m. m.user_id) (Prisma.find_many prisma (λ m. m.project_id == project) s.members)

  abbrev pub project_scope : AuthContext → Project → State → Bool
  project_scope actor p s =
      is_null p.deleted_at
      && (actor.projects_view_all || p.manager_id == actor.id || has_member p.id actor.id s)

  unfoldable pub assert_active_users : List ℕ → Field → State → Answer (Unit {0})
  assert_active_users ids path s =
      let found =
        Prisma.count prisma (λ u. elem u.id ids && is_null u.deleted_at && u.active) s.users in
      if is_empty ids then ok tt else require (found == length ids) (not_active path)

  unfoldable pub find_scoped : AuthContext → ℕ → State → Answer Project
  find_scoped actor id s = elim (find_project id s) [
    | none ↦ threw not_found
    | some p ↦ if project_scope actor p s then ok p else threw not_found
  ]

  abbrev pub can_modify : AuthContext → Project → Bool
  can_modify actor p = actor.projects_view_all || p.manager_id == actor.id

  abbrev pub emit : List Event → State → State
  emit es s = record s { events = s.events ++ es }

  -- The recipients, among the members that the project has now.
  abbrev pub invitations : ℕ → List ℕ → List ℕ → ℕ → List Event
  invitations project [] added actor = []
  invitations project (user ∷ users) added actor =
      if not (elem user added) || user == actor
      then invitations project users added actor
      else invitation_email project user ∷ invitations project users added actor

  abbrev pub create_member : ℕ → ℕ → prisma.Table ProjectMember → prisma.Table ProjectMember
  create_member project user t = prisma.create (record { project_id = project; user_id = user }) t

  abbrev pub create_members : ℕ → List ℕ → prisma.Table ProjectMember → prisma.Table ProjectMember
  create_members project [] t = t
  create_members project (user ∷ users) t =
      create_members project users (create_member project user t)

  -- `createMany` with `skipDuplicates`, on the primary key of the two ids.
  abbrev pub create_missing : ℕ → List ℕ → prisma.Table ProjectMember → prisma.Table ProjectMember
  create_missing project [] t = t
  create_missing project (user ∷ users) t =
      create_missing project users
        (if any (is_member project user) (prisma.rows t) then t else create_member project user t)

  abbrev pub chosen_members : AuthContext → CreateProjectInput → List ℕ
  chosen_members actor i =
      let chosen = to_set (filter (λ m. not (m == i.manager_id)) i.member_ids) in
      if not actor.projects_view_all && not (i.manager_id == actor.id)
      then add chosen actor.id
      else chosen

  unfoldable pub create_checks : AuthContext → CreateProjectInput → State → Answer (Unit {0})
  create_checks actor i s = assert_active_users (i.manager_id ∷ []) manager_id_path s >>= λ _.
      assert_active_users (chosen_members actor i) member_ids_path s

  abbrev pub new_project : ℕ → AuthContext → CreateProjectInput → Project
  new_project id actor i = record {
    id = id;
    name = i.name;
    description = i.description;
    status = i.status;
    priority = i.priority;
    start_date = i.start_date;
    end_date = i.end_date;
    manager_id = i.manager_id;
    created_by_id = some actor.id;
    deleted_at = none;
  }

  abbrev pub created_events : AuthContext → Project → List ℕ → State → List Event
  created_events actor p users s =
      invalidated
      ∷ project_created p.id users p.manager_id
      ∷ invitations p.id (members_of p.id s) users actor.id

  -- `prisma.project.create`; the id is the one that the database makes up.
  abbrev pub insert : Project → List ℕ → State → State
  insert p users s = record s {
    projects = prisma.create p s.projects;
    members = create_members p.id users s.members;
  }

  unfoldable pub create : ℕ → AuthContext → CreateProjectInput → State → Answer Project × State
  create id actor i s = elim (create_checks actor i s) [
    | threw e ↦ (threw e, s)
    | ok _ ↦
        if is_some (find_project id s)
        then (threw unique_violation, s)
        else let p = new_project id actor i in
          let users = chosen_members actor i in
          let written = insert p users s in
          (ok p, emit (created_events actor p users written) written)
  ]

  -- The members that an update asks for, and the difference to those there are.
  abbrev pub next_members : UpdateProjectInput → Project → List ℕ → List ℕ
  next_members i p ids = to_set (filter (λ m. not (m == or_before i.manager_id p.manager_id)) ids)

  abbrev pub current_members : Project → State → List ℕ
  current_members p s = to_set (members_of p.id s)

  unfoldable pub added : UpdateProjectInput → Project → State → List ℕ
  added i p s = elim i.member_ids [
    | none ↦ []
    | some ids ↦ filter (λ m. not (elem m (current_members p s))) (next_members i p ids)
  ]

  unfoldable pub removed : UpdateProjectInput → Project → State → List ℕ
  removed i p s = elim i.member_ids [
    | none ↦ []
    | some ids ↦ filter (λ m. not (elem m (next_members i p ids))) (current_members p s)
  ]

  -- `input.managerId && input.managerId !== existing.managerId`
  abbrev pub new_manager : UpdateProjectInput → Project → Option ℕ
  new_manager i p = elim i.manager_id [
    | none ↦ none
    | some user ↦ if user == p.manager_id then none else some user
  ]

  abbrev pub assert_manager : UpdateProjectInput → Project → State → Answer (Unit {0})
  assert_manager i p s = elim (new_manager i p) [
    | none ↦ ok tt
    | some user ↦ assert_active_users (user ∷ []) manager_id_path s
  ]

  unfoldable pub update_checks :
      AuthContext → UpdateProjectInput → Project → State → Answer (Unit {0})
  update_checks actor i p s = require (can_modify actor p) forbidden >>= λ _.
      (require (in_order (or_before i.start_date p.start_date) (or_before i.end_date p.end_date))
          end_before_start
        >>= λ _.
            (assert_manager i p s >>= λ _. assert_active_users (added i p s) member_ids_path s))

  abbrev pub updated : UpdateProjectInput → Project → Project
  updated i p = record p {
    name = or_before i.name p.name;
    description = or_before i.description p.description;
    status = or_before i.status p.status;
    priority = or_before i.priority p.priority;
    start_date = or_before i.start_date p.start_date;
    end_date = or_before i.end_date p.end_date;
    manager_id = or_before i.manager_id p.manager_id;
  }

  abbrev pub write_project : ℕ → (Project → Project) → State → State
  write_project id f s = record s { projects = prisma.update_many (λ p. p.id == id) f s.projects }

  -- The rows of the members that an update leaves.
  abbrev pub delete_members : ℕ → List ℕ → prisma.Table ProjectMember → prisma.Table ProjectMember
  delete_members id users t =
      if is_empty users
      then t
      else prisma.delete_many (λ m. m.project_id == id && elem m.user_id users) t

  -- The transaction.
  unfoldable pub replace_members : ℕ → UpdateProjectInput → Project → State → State
  replace_members id i p s = record s {
    members = create_missing id (added i p s) (delete_members id (removed i p s) s.members);
  }

  abbrev pub status_events : UpdateProjectInput → Project → List Event
  status_events i p = elim i.status [
    | none ↦ []
    | some status ↦
        if status_number status == status_number p.status
        then []
        else project_status_changed p.id ∷ []
  ]

  abbrev pub updated_events :
      AuthContext → UpdateProjectInput → Project → List ℕ → List ℕ → State → List Event
  updated_events actor i p news olds written =
      invalidated ∷ status_events i p
      ++ (if has_other_fields i || not (is_empty news) || not (is_empty olds)
          then project_updated p.id news (new_manager i p) ∷ []
          else [])
      ++ invitations p.id (members_of p.id written) news actor.id

  unfoldable pub update : AuthContext → ℕ → UpdateProjectInput → State → Answer Project × State
  update actor id i s = elim (find_scoped actor id s) [
    | threw e ↦ (threw e, s)
    | ok p ↦ elim (update_checks actor i p s) [
      | threw e ↦ (threw e, s)
      | ok _ ↦
          let written = write_project id (updated i) (replace_members id i p s) in
          (
            ok (updated i p),
            emit (updated_events actor i p (added i p s) (removed i p s) written) written,
          )
    ]
  ]

  abbrev pub trashed : ℕ → Project → Project
  trashed now p = record p { deleted_at = some now }

  abbrev pub task_trashed : ℕ → Task → Task
  task_trashed now t = record t { deleted_at = some now }

  -- `prisma.task.updateMany` with the tasks of the project that are not deleted.
  abbrev pub trash_tasks : ℕ → ℕ → State → State
  trash_tasks now id s = record s {
    tasks =
        prisma.update_many (λ t. t.project_id == id && is_null t.deleted_at) (task_trashed now)
          s.tasks;
  }

  unfoldable pub remove : ℕ → AuthContext → ℕ → State → Answer (Unit {0}) × State
  remove now actor id s = elim (find_scoped actor id s) [
    | threw e ↦ (threw e, s)
    | ok p ↦ if not (can_modify actor p) then (threw forbidden, s) else (
      ok tt,
      emit (invalidated ∷ project_deleted id ∷ [])
          (trash_tasks now id (write_project id (trashed now) s)),
    )
  ]
