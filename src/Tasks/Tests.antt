-- ===== src/Tasks/Tests.antt =====
-- Tasks over listed tables, and the theorems at those inputs.
use time_flow_be.Prelude.{ℕ, ◌≡◌, refl, ◌⊎◌, none, some, opt_eq, [], ◌∷◌, true, false, ◌||◌, ◌&&◌}
use time_flow_be.Prisma
use time_flow_be.Tasks.{
  Task, todo, completed, medium, Project, User, AuthContext, TaskError, forbidden, bad_assignee,
  UpdateTaskInput, ok, threw, only_status, State, completed_at_for, find_scoped, is_task_privileged,
  load_writable_project, assert_assignable, create_checks, create, update_checks, updated, update,
  remove,
}
use time_flow_be.Tasks.Checks.{Visible}
use time_flow_be.Tasks.Sound.{updates, run, TasksAreSound, run-TasksAreSound}
use time_flow_be.Tasks.Rights.{Changed, update_cases}

tasks : Unit {0}
unfolding Prisma.listed completed_at_for find_scoped load_writable_project assert_assignable
    create_checks create update_checks update remove
tasks = tt

abbrev user : ℕ → User
user id = record { id = id; active = true; deleted_at = none }

abbrev task_5 : Task
task_5 = record {
  id = 5;
  title = 100;
  description = none;
  project_id = 1;
  assignee_id = some 12;
  status = todo;
  priority = medium;
  due_date = none;
  created_by_id = some 11;
  completed_at = none;
  deleted_at = none;
}

-- User 10 manages the project 1, and 11 and 12 belong to it.
abbrev board : State Prisma.listed
unfolding tasks
board = record {
  tasks = task_5 ∷ [];
  projects = record { id = 1; manager_id = 10; members = 11 ∷ 12 ∷ []; deleted_at = none } ∷ [];
  users = user 10 ∷ user 11 ∷ user 12 ∷ user 13 ∷ [];
  events = [];
}

abbrev actor : ℕ → AuthContext
actor id = record { id = id; tasks_view_all = false; projects_view_all = false }

abbrev nothing : UpdateTaskInput
nothing = record {
  title = none;
  description = none;
  project_id = none;
  assignee_id = none;
  status = none;
  priority = none;
  due_date = none;
}

abbrev done : UpdateTaskInput
done = record nothing { status = some completed }

assignee_completes :
    (update Prisma.listed 900 (actor 12) 5 done board).0
    ≡ ok (record task_5 { status = completed; completed_at = some 900 })
unfolding tasks
assignee_completes = refl

author_may_not_edit : update Prisma.listed 900 (actor 11) 5 done board ≡ (threw forbidden, board)
unfolding tasks
author_may_not_edit = refl

stranger_as_assignee :
    update Prisma.listed 900 (actor 10) 5 (record nothing { assignee_id = some (some 13) }) board
    ≡ (threw bad_assignee, board)
unfolding tasks
stranger_as_assignee = refl

board-Sound : TasksAreSound Prisma.listed board
unfolding tasks
board-Sound = record {
  distinct = (refl, tt);
  sound = (record { in_place = refl; dated = refl }, tt);
}

run-TasksAreSound_example :
    TasksAreSound Prisma.listed (run Prisma.listed 900 (actor 12) (updates 5 done) board)
run-TasksAreSound_example =
    run-TasksAreSound Prisma.listed 900 (actor 12) (updates 5 done) board board-Sound

update_cases_example :
    ((e : TaskError) × (update Prisma.listed 900 (actor 12) 5 done board ≡ (threw e, board)))
    ⊎ ((t : Task) × (p : Project) × ((update Prisma.listed 900 (actor 12) 5 done board).0
          ≡ ok (updated Prisma.listed 900 done t t))
        × Visible Prisma.listed (actor 12) 5 board t p
        × (is_task_privileged Prisma.listed (actor 12) p
              || (opt_eq t.assignee_id (some 12) && only_status done)
            ≡ true)
        × Changed Prisma.listed 5 t
            (updated Prisma.listed 900 done t t)
            board
            (update Prisma.listed 900 (actor 12) 5 done board).1)
update_cases_example = update_cases Prisma.listed 900 (actor 12) 5 done board
