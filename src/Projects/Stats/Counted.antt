-- ===== src/Projects/Stats/Counted.antt =====
-- project.repository.ts: the numbers of taskStatsFor are those of each project alone.
use time_flow_be.Prelude.{
  ℕ, ◌+◌, ◌≡◌, refl, ap, ap₂, All, All-imp, ◌∙◌, inl, inr, Option, some, List, [], ◌∷◌, map, Bool,
  true, false, ◌&&◌, ◌==◌, filter, length, if◌then◌else◌, arith, Bool-cases,
}
use time_flow_be.Prisma
use time_flow_be.Prisma.{Prisma, find, update_where, find-update_where}
use time_flow_be.Tasks.{is_null, Task, TaskStatus}
use time_flow_be.Projects.{Project, elem, to_set, State, members_of}
use time_flow_be.Projects.Sets.{elem-to_set}
use time_flow_be.Projects.Stats.{
  StatusGroup, TaskStats, ProjectDto, count_task, group_by, is_completed, add_group, add_groups,
  no_stats, task_stats_for, to_dto, to_projects,
}

-- The numbers of one project, in the groups.
abbrev total_of : ℕ → List StatusGroup → ℕ
total_of id [] = 0
total_of id (g ∷ gs) = (if g.project_id == id then g.count else 0) + total_of id gs

abbrev completed_of : ℕ → List StatusGroup → ℕ
completed_of id [] = 0
completed_of id (g ∷ gs) =
    (if g.project_id == id && is_completed g.status then g.count else 0) + completed_of id gs

total_of-count_task :
    (id : ℕ) (t : Task) (gs : List StatusGroup)
    → total_of id (count_task t gs) ≡ (if t.project_id == id then 1 else 0) + total_of id gs
total_of-count_task id t [] = ground arith
total_of-count_task id t (g ∷ gs) = ground (arith, total_of-count_task id t gs)

completed_of-count_task :
    (id : ℕ) (t : Task) (gs : List StatusGroup)
    → completed_of id (count_task t gs)
      ≡ (if t.project_id == id && is_completed t.status then 1 else 0) + completed_of id gs
completed_of-count_task id t [] = ground arith
completed_of-count_task id t (g ∷ gs) = ground (arith, completed_of-count_task id t gs)

total_of-group_by :
    (id : ℕ) (ts : List Task)
    → total_of id (group_by ts) ≡ length (filter (λ t. t.project_id == id) ts)
total_of-group_by id [] = refl
total_of-group_by id (t ∷ ts) =
    ground (arith, total_of-group_by id ts, total_of-count_task id t (group_by ts))

completed_of-group_by :
    (id : ℕ) (ts : List Task)
    → completed_of id (group_by ts)
      ≡ length (filter (λ t. t.project_id == id && is_completed t.status) ts)
completed_of-group_by id [] = refl
completed_of-group_by id (t ∷ ts) =
    ground (arith, completed_of-group_by id ts, completed_of-count_task id t (group_by ts))

abbrev numbers : ℕ → ℕ → ℕ → Option TaskStats
numbers id total done = some (record { project_id = id; total = total; completed = done })

find-add_group :
    (id total done : ℕ) (g : StatusGroup) (stats : List TaskStats)
    → find (λ e. e.project_id == id) stats ≡ numbers id total done
    → find (λ e. e.project_id == id) (add_group g stats)
      ≡ numbers id
          (total + (if g.project_id == id then g.count else 0))
          (done + (if g.project_id == id && is_completed g.status then g.count else 0))
find-add_group id total done g stats e =
    let f : TaskStats → TaskStats = λ s. record s {
      total = s.total + g.count;
      completed = if is_completed g.status then s.completed + g.count else s.completed;
    } in
    let seen =
      find-update_where (λ s. s.project_id) (λ s. s.project_id == g.project_id) f (λ s. refl) id
        stats in
    rw (seen, e)
      (elim (Bool-cases (g.project_id == id)) [
        | inr other ↦
            let there : id == g.project_id ≡ false = ground arith in
            rw (there, other) (ap₂ (numbers id) (omega arith) (omega arith))
        | inl same ↦
            let here : id == g.project_id ≡ true = ground arith in
            rw (here, same) (ap₂ (numbers id) refl (ground arith))
      ])

find-add_groups :
    (id total done : ℕ) (gs : List StatusGroup) (stats : List TaskStats)
    → find (λ e. e.project_id == id) stats ≡ numbers id total done
    → find (λ e. e.project_id == id) (add_groups gs stats)
      ≡ numbers id (total + total_of id gs) (done + completed_of id gs)
find-add_groups id total done [] stats e = e ∙ ap₂ (numbers id) (omega arith) (omega arith)
find-add_groups id total done (g ∷ gs) stats e =
    find-add_groups id (total + (if g.project_id == id then g.count else 0))
      (done + (if g.project_id == id && is_completed g.status then g.count else 0)) gs
      (add_group g stats) (find-add_group id total done g stats e)
    ∙ ap₂ (numbers id) (omega arith) (omega arith)

find-no_stats :
    (id : ℕ) (ids : List ℕ)
    → elem id ids ≡ true
    → find (λ e. e.project_id == id) (map no_stats ids) ≡ some (no_stats id)
find-no_stats id [] e = absurd (cc)
find-no_stats id (x ∷ xs) e = elim (Bool-cases (x == id)) [
  | inl same ↦ let x_id : x ≡ id = ground arith in rw same (ap (λ k. some (no_stats k)) x_id)
  | inr other ↦ rw other (find-no_stats id xs (ground arith))
]

filter_twice :
    (p q r : Task → Bool) (ts : List Task)
    → ((t : Task) → (q t && p t) ≡ r t)
    → length (filter p (filter q ts)) ≡ length (filter r ts)
filter_twice p q r [] h = refl
filter_twice p q r (t ∷ ts) h = ground (arith, h t, filter_twice p q r ts h)

module _ (prisma : Prisma) where
  -- Counting the tasks of one project.
  abbrev pub tasks_of : ℕ → (TaskStatus → Bool) → State prisma → ℕ
  tasks_of id wanted s =
      Prisma.count prisma (λ t. t.project_id == id && wanted t.status && is_null t.deleted_at)
        s.tasks

  in_ids :
      (id : ℕ) (ids : List ℕ) (t : Task)
      → elem id ids ≡ true
      → (t.project_id == id && elem t.project_id ids) ≡ (t.project_id == id)
  in_ids id ids t e = elim (Bool-cases (t.project_id == id)) [
    | inr other ↦ rw other refl
    | inl same ↦
        let t_id : t.project_id ≡ id = ground arith in rw (same, ap (λ k. elem k ids) t_id, e) refl
  ]

  find-task_stats_for :
      (id : ℕ) (ids : List ℕ) (s : State prisma)
      → elem id ids ≡ true
      → find (λ e. e.project_id == id) (task_stats_for prisma ids s)
        ≡ numbers id (tasks_of id (λ _. true) s) (tasks_of id is_completed s)
  unfolding task_stats_for
  find-task_stats_for id [] s e = absurd (cc)
  find-task_stats_for id (x ∷ xs) s e =
      let ids = x ∷ xs in
      let rows = prisma.rows s.tasks in
      let asked : Task → Bool = λ t. elem t.project_id ids && is_null t.deleted_at in
      let start = find-no_stats id (to_set ids) (elem-to_set id ids ∙ e) in
      let groups = group_by (filter asked rows) in
      let total =
        total_of-group_by id (filter asked rows)
        ∙ filter_twice (λ t. t.project_id == id) asked
            (λ t. t.project_id == id && true && is_null t.deleted_at) rows
            (λ t. ground (arith, in_ids id ids t e)) in
      let done =
        completed_of-group_by id (filter asked rows)
        ∙ filter_twice (λ t. t.project_id == id && is_completed t.status) asked
            (λ t. t.project_id == id && is_completed t.status && is_null t.deleted_at) rows
            (λ t. ground (arith, in_ids id ids t e)) in
      find-add_groups id 0 0 groups (map no_stats (to_set ids)) start
      ∙ ap₂ (numbers id) (omega (arith, total)) (omega (arith, done))

  -- A project with numbers that are counted for it alone.
  abbrev pub counted : State prisma → Project → ProjectDto
  counted s p = record {
    project = p;
    members = members_of prisma p.id s;
    total = tasks_of p.id (λ _. true) s;
    completed = tasks_of p.id is_completed s;
  }

  map-counted :
      (ids : List ℕ) (ps : List Project) (s : State prisma)
      → All (λ p. elem p.id ids ≡ true) ps
      → map
          (λ p. to_dto prisma p (find (λ e. e.project_id == p.id) (task_stats_for prisma ids s)) s)
          ps
        ≡ map (counted s) ps
  map-counted ids [] s h = refl
  map-counted ids (p ∷ ps) s (inside, h) =
      ap₂ (λ x xs. x ∷ xs) (ap (λ o. to_dto prisma p o s) (find-task_stats_for p.id ids s inside))
        (map-counted ids ps s h)

  ids-All : (ps : List Project) → All (λ p. elem p.id (map (λ q. q.id) ps) ≡ true) ps
  ids-All [] = tt
  ids-All (p ∷ ps) = (ground arith, All-imp ps (λ q inside. ground (arith, inside)) (ids-All ps))

  -- Whatever projects are listed, in any order and even twice: each gets as its numbers how many of its
  -- tasks are not deleted and how many of those are completed, although the tasks of all of them are
  -- counted by one query in groups of a project and a status.
  pub to_projects-counted :
      (ps : List Project) (s : State prisma) → to_projects prisma ps s ≡ map (counted s) ps
  unfolding to_projects
  to_projects-counted ps s = map-counted (map (λ q. q.id) ps) ps s (ids-All ps)
