-- ===== src/Projects/Stats.antt =====
-- project.repository.ts: taskStatsFor and toProjects, and project.service.ts: get.
pub mod Counted
use mathlib.Core.Option
use time_flow_be.Prelude.{
  ℕ, suc, ◌+◌, ◌≡◌, refl, sym, subst, ap, ap₂, All, All-imp, ◌∙◌, inl, inr, Option, none, some,
  List, [], ◌∷◌, map, Bool, true, false, ◌&&◌, ◌||◌, ◌==◌, filter, length, if◌then◌else◌, arith,
  Bool-cases, ==_refl,
}
use time_flow_be.Results.{Result, ok, threw, ◌>>=◌}
use time_flow_be.Prisma
use time_flow_be.Prisma.Keys
use time_flow_be.Prisma.{Prisma, find, update_where, find-update_where}
use time_flow_be.Tasks.{AuthContext, is_null, Task, TaskStatus, same_status, completed}
use time_flow_be.Projects.{
  Project, elem, to_set, add, add_all, is_empty, State, members_of, Answer, find_scoped,
}
use time_flow_be.Projects.Sets.{elem-to_set}

-- What `groupBy` answers: how many tasks of a project have a status.
pub record StatusGroup : Type 0 where
  pub project_id : ℕ
  pub status : TaskStatus
  pub count : ℕ

-- An entry of the map from projects to their numbers.
pub record TaskStats : Type 0 where
  pub project_id : ℕ
  pub total : ℕ
  pub completed : ℕ

pub record ProjectDto : Type 0 where
  pub project : Project
  pub members : List ℕ
  pub total : ℕ
  pub completed : ℕ

abbrev pub count_task : Task → List StatusGroup → List StatusGroup
count_task t [] = record { project_id = t.project_id; status = t.status; count = 1 } ∷ []
count_task t (g ∷ gs) =
    if g.project_id == t.project_id && same_status g.status t.status
    then record g { count = g.count + 1 } ∷ gs
    else g ∷ count_task t gs

-- `prisma.task.groupBy` by project and status, of rows that match.
abbrev pub group_by : List Task → List StatusGroup
group_by [] = []
group_by (t ∷ ts) = count_task t (group_by ts)

abbrev pub is_completed : TaskStatus → Bool
is_completed status = same_status status completed

-- The body of the loop.
abbrev pub add_group : StatusGroup → List TaskStats → List TaskStats
add_group g =
    update_where (λ s. s.project_id == g.project_id)
      (λ s. record s {
        total = s.total + g.count;
        completed =
            if same_status g.status TaskStatus.completed
            then s.completed + g.count
            else s.completed;
      })

abbrev pub add_groups : List StatusGroup → List TaskStats → List TaskStats
add_groups [] stats = stats
add_groups (g ∷ gs) stats = add_groups gs (add_group g stats)

abbrev pub no_stats : ℕ → TaskStats
no_stats id = record { project_id = id; total = 0; completed = 0 }

module _ (prisma : Prisma) where
  unfoldable pub task_stats_for : List ℕ → State prisma → List TaskStats
  task_stats_for ids s =
      let stats = map no_stats (to_set ids) in
      if is_empty ids
      then stats
      else add_groups
          (group_by
            (Prisma.find_many prisma (λ t. elem t.project_id ids && is_null t.deleted_at) s.tasks))
          stats

  abbrev pub to_dto : Project → Option TaskStats → State prisma → ProjectDto
  to_dto p none s = record {
    project = p;
    members = members_of prisma p.id s;
    total = 0;
    completed = 0;
  }
  to_dto p (some stats) s = record {
    project = p;
    members = members_of prisma p.id s;
    total = stats.total;
    completed = stats.completed;
  }

  unfoldable pub to_projects : List Project → State prisma → List ProjectDto
  to_projects records s =
      let stats = task_stats_for (map (λ p. p.id) records) s in
      map (λ p. to_dto p (find (λ e. e.project_id == p.id) stats) s) records

  abbrev pub first : List ProjectDto → Option ProjectDto
  first [] = none
  first (p ∷ ps) = some p

  unfoldable pub get : AuthContext → ℕ → State prisma → Answer prisma (Option ProjectDto)
  get actor id s = find_scoped prisma actor id s >>= λ p. ok (first (to_projects (p ∷ []) s))
