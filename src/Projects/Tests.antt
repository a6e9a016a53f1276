-- ===== src/Projects/Tests.antt =====
-- Projects over listed tables, and the theorems at those inputs.
use time_flow_be.Prelude.{
  List, ℕ, ◌≡◌, refl, none, some, [], ◌∷◌, true, false, map, if◌then◌else◌, ◌==◌,
}
use time_flow_be.Results.{threw}
use time_flow_be.Prisma
use time_flow_be.Tasks.{Task, User, AuthContext, todo, medium}
use time_flow_be.Tasks
use time_flow_be.Projects.{
  Project, ProjectMember, planning, UpdateProjectInput, forbidden, end_before_start, not_active,
  member_ids_path, State, assert_active_users, find_scoped, create_checks, create, added, removed,
  update_checks, replace_members, update, remove, has_member,
}
use time_flow_be.Projects.Members.{asked_for, update-members}
use time_flow_be.Projects.Sound.{removes, run, ProjectsAreSound, run-ProjectsAreSound}
use time_flow_be.Projects.Stats.{task_stats_for, to_projects}
use time_flow_be.Projects.Stats.Counted.{counted, to_projects-counted}

projects : Unit {0}
unfolding Prisma.listed assert_active_users find_scoped create_checks create added removed
    update_checks replace_members update remove task_stats_for to_projects
projects = tt

abbrev user : ℕ → User
user id = record { id = id; active = true; deleted_at = none }

abbrev actor : ℕ → AuthContext
actor id = record { id = id; tasks_view_all = false; projects_view_all = false }

abbrev task : ℕ → ℕ → Tasks.TaskStatus → Task
task id project status = record {
  id = id;
  title = 100;
  description = none;
  project_id = project;
  assignee_id = none;
  status = status;
  priority = medium;
  due_date = none;
  created_by_id = none;
  completed_at = none;
  deleted_at = none;
}

abbrev project_1 : Project
project_1 = record {
  id = 1;
  name = 50;
  description = none;
  status = planning;
  priority = medium;
  start_date = 100;
  end_date = some 200;
  manager_id = 10;
  created_by_id = some 10;
  deleted_at = none;
}

abbrev member : ℕ → ProjectMember
member id = record { project_id = 1; user_id = id }

-- User 10 manages the project 1, and 11 and 12 belong to it.
abbrev board : State Prisma.listed
unfolding projects
board = record {
  projects = project_1 ∷ [];
  members = member 11 ∷ member 12 ∷ [];
  tasks = task 5 1 todo ∷ task 6 1 Tasks.completed ∷ [];
  users = user 10 ∷ user 11 ∷ user 12 ∷ user 13 ∷ [];
  events = [];
}

abbrev nothing : UpdateProjectInput
nothing = record {
  name = none;
  description = none;
  status = none;
  priority = none;
  start_date = none;
  end_date = none;
  manager_id = none;
  member_ids = none;
}

-- 11 stays, 12 goes, 13 comes; the manager is no member.
abbrev new_members : UpdateProjectInput
new_members = record nothing { member_ids = some (13 ∷ 11 ∷ 10 ∷ []) }

abbrev replaced_members : List ProjectMember
unfolding projects
replaced_members = (update Prisma.listed (actor 10) 1 new_members board).1.members

members_replaced : replaced_members ≡ member 13 ∷ member 11 ∷ []
unfolding projects replaced_members
members_replaced = refl

member_may_not_update :
    update Prisma.listed (actor 11) 1 new_members board ≡ (threw forbidden, board)
unfolding projects
member_may_not_update = refl

unknown_member :
    update Prisma.listed (actor 10) 1 (record nothing { member_ids = some (99 ∷ []) }) board
    ≡ (threw (not_active member_ids_path), board)
unfolding projects
unknown_member = refl

ends_before_it_starts :
    update Prisma.listed (actor 10) 1 (record nothing { start_date = some 201 }) board
    ≡ (threw end_before_start, board)
unfolding projects
ends_before_it_starts = refl

update-members_example :
    has_member Prisma.listed 1 12 (update Prisma.listed (actor 10) 1 new_members board).1 ≡ (
      if 1 == 1
      then asked_for Prisma.listed new_members 10 12 (has_member Prisma.listed 1 12 board)
      else has_member Prisma.listed 1 12 board)
unfolding projects
update-members_example =
    update-members Prisma.listed (actor 10) 1 new_members board project_1 1 12 refl

board-Sound : ProjectsAreSound Prisma.listed board
unfolding projects
board-Sound = record { distinct = (refl, tt); dated = (refl, tt); reached = (refl, (refl, tt)) }

run-ProjectsAreSound_example :
    ProjectsAreSound Prisma.listed (run Prisma.listed 900 (actor 10) (removes 1) board)
run-ProjectsAreSound_example =
    run-ProjectsAreSound Prisma.listed 900 (actor 10) (removes 1) board board-Sound

to_projects-counted_example :
    to_projects Prisma.listed (project_1 ∷ []) board
    ≡ map (counted Prisma.listed board) (project_1 ∷ [])
to_projects-counted_example = to_projects-counted Prisma.listed (project_1 ∷ []) board
