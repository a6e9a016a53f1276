-- ===== src/Tasks/Checks.antt =====
-- What the checks of task.service.ts let through.
use time_flow_be.Prelude.{
  ℕ, ◌≡◌, refl, sym, ◌∙◌, inl, inr, ◌⊎◌, Option, none, some, opt_eq, Bool, true, false, not, ◌&&◌,
  ◌||◌, arith, Bool-cases, Option-cases,
}
use time_flow_be.Prisma.{Prisma}
use time_flow_be.Tasks.{
  Task, Project, AuthContext, TaskError, UpdateTaskInput, CreateTaskInput, Result, ok, threw, ◌>>=◌,
  or_before, is_null, only_status, in_project, State, find_task, find_project, task_scope,
  find_scoped, is_task_privileged, load_writable_project, assert_assignable, create_checks,
  next_assignee, is_moved, update_checks,
}

pub Result-cases :
    {A : Type 0} (r : Result A) → ((e : TaskError) × (r ≡ threw e)) ⊎ ((a : A) × (r ≡ ok a))
Result-cases (ok a) = inr (a, refl)
Result-cases (threw e) = inl (e, refl)

bind-ok :
    {A B : Type 0} (r : Result A) (f : A → Result B) (b : B)
    → r >>= f ≡ ok b
    → (a : A) × (r ≡ ok a) × (f a ≡ ok b)
bind-ok (ok a) f b e = (a, refl, e)
bind-ok (threw x) f b e = ground arith

module _ (prisma : Prisma) where
  -- What a task that the actor may see is like.
  pub record Visible (actor : AuthContext) (id : ℕ) (s : State prisma) (t : Task) (p : Project)
      : Type 0 where
    pub found : find_task prisma id s ≡ some t
    pub project : find_project prisma t.project_id s ≡ some p
    pub scope : task_scope prisma actor t p ≡ true

  pub find_scoped_cases :
      (actor : AuthContext) (id : ℕ) (s : State prisma)
      → ((e : TaskError) × (find_scoped prisma actor id s ≡ threw e))
        ⊎ ((t : Task) × (p : Project) × (find_scoped prisma actor id s ≡ ok (t, p))
            × Visible actor id s t p)
  unfolding find_scoped
  find_scoped_cases actor id s = elim (Option-cases (find_task prisma id s)) [
    | inl gone ↦ inl (TaskError.not_found, rw (gone, find_scoped) refl)
    | inr (t, found) ↦ elim (Option-cases (find_project prisma t.project_id s)) [
      | inl gone ↦ inl (TaskError.not_found, rw (found, find_scoped, gone) refl)
      | inr (p, project) ↦ elim (Bool-cases (task_scope prisma actor t p)) [
        | inr hidden ↦ inl (TaskError.not_found, rw (found, find_scoped, project, hidden) refl)
        | inl scope ↦ inr (
          t,
          p,
          rw (found, find_scoped, project, scope) refl,
          record { found = found; project = project; scope = scope },
        )
      ]
    ]
  ]

  load_writable_project-ok :
      (actor : AuthContext) (id : ℕ) (s : State prisma) (p : Project)
      → load_writable_project prisma actor id s ≡ ok p
      → find_project prisma id s ≡ some p
  unfolding load_writable_project
  load_writable_project-ok actor id s p e = elim (Option-cases (find_project prisma id s)) [
    | inl gone ↦
        let refused : load_writable_project prisma actor id s ≡ threw TaskError.project_not_found =
          rw (gone, load_writable_project) refl in
        absurd (cc)
    | inr (q, found) ↦
        let global = actor.tasks_view_all || actor.projects_view_all in
        elim (Bool-cases
          (not (is_null q.deleted_at) || (not global && not (in_project q actor.id)))) [
            | inl closed ↦
                let refused : load_writable_project prisma actor id s
                    ≡ threw TaskError.project_not_found =
                  rw (found, load_writable_project, closed) refl in
                absurd (cc)
            | inr writable ↦
                let passed : load_writable_project prisma actor id s ≡ ok q =
                  rw (found, load_writable_project, writable) refl in
                cc
          ]
  ]

  -- Nobody, or somebody of the project.
  abbrev pub fits : Project → Option ℕ → Bool
  fits p none = true
  fits p (some user) = in_project p user

  assert_assignable-ok :
      (p : Project) (o : Option ℕ) (s : State prisma)
      → assert_assignable prisma p o s ≡ ok tt
      → fits p o ≡ true
  unfolding assert_assignable
  assert_assignable-ok p none s e = refl
  assert_assignable-ok p (some user) s e = elim (Bool-cases (in_project p user)) [
    | inl inside ↦ inside
    | inr outside ↦
        let refused : assert_assignable prisma p (some user) s ≡ threw TaskError.bad_assignee =
          rw (outside, assert_assignable) refl in
        absurd (cc)
  ]

  pub create_checks-ok :
      (actor : AuthContext) (i : CreateTaskInput) (s : State prisma) (p : Project)
      → create_checks prisma actor i s ≡ ok p
      → (find_project prisma i.project_id s ≡ some p) × (fits p i.assignee_id ≡ true)
  unfolding create_checks
  create_checks-ok actor i s p e =
      let (q, loaded, then_checked) =
        bind-ok (load_writable_project prisma actor i.project_id s)
          (λ q. assert_assignable prisma q i.assignee_id s >>= λ _. ok q) p e in
      let (u, checked, q_p) =
        bind-ok (assert_assignable prisma q i.assignee_id s) (λ _. ok q) p then_checked in
      let found = load_writable_project-ok actor i.project_id s q loaded in
      let inside = assert_assignable-ok q i.assignee_id s checked in (cc, cc)

  -- What an update that passes may do with the place of the task.
  pub record Authorised (actor : AuthContext) (i : UpdateTaskInput) (t : Task) (p : Project)
      (s : State prisma) : Type 0 where
    pub rights :
        is_task_privileged prisma actor p || (opt_eq t.assignee_id (some actor.id) && only_status i)
        ≡ true
    pub place :
        (is_moved prisma i t ≡ false)
        ⊎ ((q : Project) × (find_project prisma (or_before i.project_id t.project_id) s ≡ some q)
            × (fits q (next_assignee prisma i t) ≡ true))

  pub update_checks-ok :
      (actor : AuthContext) (i : UpdateTaskInput) (t : Task) (p : Project) (s : State prisma)
      → update_checks prisma actor i t p s ≡ ok tt
      → Authorised actor i t p s
  unfolding update_checks
  update_checks-ok actor i t p s e =
      let lacks =
        not (is_task_privileged prisma actor p)
        && (not (opt_eq t.assignee_id (some actor.id)) || not (only_status i)) in
      elim (Bool-cases lacks) [
        | inl refused ↦
            let r : update_checks prisma actor i t p s ≡ threw TaskError.forbidden =
              rw (refused, update_checks) refl in
            absurd (cc)
        | inr allowed ↦ record {
          rights = ground arith;
          place = elim (Bool-cases (is_moved prisma i t)) [
            | inr stays ↦ inl stays
            | inl moves ↦
                let at_target : (load_writable_project prisma actor
                        (or_before i.project_id t.project_id) s
                      >>= λ q. assert_assignable prisma q (next_assignee prisma i t) s)
                    ≡ ok tt =
                  sym (rw (allowed, moves, update_checks) refl) ∙ e in
                let (q, loaded, checked) =
                  bind-ok
                    (load_writable_project prisma actor (or_before i.project_id t.project_id) s)
                    (λ q. assert_assignable prisma q (next_assignee prisma i t) s) tt at_target in
                inr (
                  q,
                  load_writable_project-ok actor (or_before i.project_id t.project_id) s q loaded,
                  assert_assignable-ok q (next_assignee prisma i t) s checked,
                )
          ];
        }
      ]
