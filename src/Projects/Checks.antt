-- ===== src/Projects/Checks.antt =====
-- What the checks of project.service.ts let through.
use time_flow_be.Prelude.{
  ℕ, ◌≡◌, refl, inl, inr, ◌⊎◌, some, true, [], ◌∷◌, Bool-cases, Option-cases,
}
use time_flow_be.Results.{Result, ok, threw, ◌>>=◌, bind-ok, Result-cases, require, require-ok}
use time_flow_be.Prisma.{Prisma}
use time_flow_be.Tasks.{AuthContext, or_before}
use time_flow_be.Projects.{
  Project, ProjectError, not_found, forbidden, end_before_start, UpdateProjectInput, in_order,
  State, find_project, project_scope, find_scoped, can_modify, assert_active_users, added,
  assert_manager, member_ids_path, update_checks, emit, updated, updated_events, removed,
  write_project, replace_members, update, trash_tasks, trashed, remove, invalidated,
  project_deleted,
}

module _ (prisma : Prisma) where
  pub record Visible (actor : AuthContext) (id : ℕ) (s : State prisma) (p : Project) : Type 0 where
    pub found : find_project prisma id s ≡ some p
    pub scope : project_scope prisma actor p s ≡ true

  pub find_scoped_cases :
      (actor : AuthContext) (id : ℕ) (s : State prisma)
      → ((e : ProjectError) × (find_scoped prisma actor id s ≡ threw e))
        ⊎ ((p : Project) × (find_scoped prisma actor id s ≡ ok p) × Visible actor id s p)
  unfolding find_scoped
  find_scoped_cases actor id s = elim (Option-cases (find_project prisma id s)) [
    | inl gone ↦ inl (not_found, rw (gone, find_scoped) refl)
    | inr (p, found) ↦ elim (Bool-cases (project_scope prisma actor p s)) [
      | inr hidden ↦ inl (not_found, rw (found, find_scoped, hidden) refl)
      | inl scope ↦
          inr (p, rw (found, find_scoped, scope) refl, record { found = found; scope = scope })
    ]
  ]

  pub update_checks-ok :
      (actor : AuthContext) (i : UpdateProjectInput) (p : Project) (s : State prisma)
      → update_checks prisma actor i p s ≡ ok tt
      → (can_modify prisma actor p ≡ true)
        × (in_order (or_before i.start_date p.start_date) (or_before i.end_date p.end_date) ≡ true)
  unfolding update_checks
  update_checks-ok actor i p s e =
      let dates =
        in_order (or_before i.start_date p.start_date) (or_before i.end_date p.end_date) in
      let users : Unit {0} → Result ProjectError (Unit {0}) = λ _.
        assert_manager prisma i p s >>= λ _.
        assert_active_users prisma (added prisma i p s) member_ids_path s in
      let ordered : Unit {0} → Result ProjectError (Unit {0}) =
        λ _. require dates end_before_start >>= users in
      let (_, may, rest) = bind-ok (require (can_modify prisma actor p) forbidden) ordered tt e in
      let (_, before, _) = bind-ok (require dates end_before_start) users tt rest in
      (
        require-ok (can_modify prisma actor p) forbidden may,
        require-ok dates end_before_start before,
      )

  -- The rows that an update leaves.
  abbrev pub rewritten : ℕ → UpdateProjectInput → Project → State prisma → State prisma
  rewritten id i p s = write_project prisma id (updated prisma i) (replace_members prisma id i p s)

  pub record Updates (actor : AuthContext) (id : ℕ) (i : UpdateProjectInput) (s : State prisma)
      (p : Project) : Type 0 where
    pub seen : Visible actor id s p
    pub may : can_modify prisma actor p ≡ true
    pub dates :
        in_order (or_before i.start_date p.start_date) (or_before i.end_date p.end_date) ≡ true
    pub result : update prisma actor id i s ≡ (
      ok (updated prisma i p),
      emit prisma
          (updated_events prisma actor i p
            (added prisma i p s)
            (removed prisma i p s)
            (rewritten id i p s))
          (rewritten id i p s),
    )

  pub update_cases :
      (actor : AuthContext) (id : ℕ) (i : UpdateProjectInput) (s : State prisma)
      → ((e : ProjectError) × (update prisma actor id i s ≡ (threw e, s)))
        ⊎ ((p : Project) × Updates actor id i s p)
  unfolding update
  update_cases actor id i s = elim (find_scoped_cases actor id s) [
    | inl (e, refused) ↦ inl (e, rw (refused, update) refl)
    | inr (p, seen, v) ↦ elim (Result-cases (update_checks prisma actor i p s)) [
      | inl (e, refused) ↦ inl (e, rw (seen, update, refused) refl)
      | inr (_, passed) ↦
          let (may, dates) = update_checks-ok actor i p s passed in
          inr (
            p,
            record { seen = v; may = may; dates = dates; result = rw (seen, update, passed) refl },
          )
    ]
  ]

  pub record Removes (now : ℕ) (actor : AuthContext) (id : ℕ) (s : State prisma) (p : Project)
      : Type 0 where
    pub seen : Visible actor id s p
    pub may : can_modify prisma actor p ≡ true
    pub result : remove prisma now actor id s ≡ (
      ok tt,
      emit prisma
          (invalidated ∷ project_deleted id ∷ [])
          (trash_tasks prisma now id (write_project prisma id (trashed prisma now) s)),
    )

  pub remove_cases :
      (now : ℕ) (actor : AuthContext) (id : ℕ) (s : State prisma)
      → ((e : ProjectError) × (remove prisma now actor id s ≡ (threw e, s)))
        ⊎ ((p : Project) × Removes now actor id s p)
  unfolding remove
  remove_cases now actor id s = elim (find_scoped_cases actor id s) [
    | inl (e, refused) ↦ inl (e, rw (refused, remove) refl)
    | inr (p, seen, v) ↦ elim (Bool-cases (can_modify prisma actor p)) [
      | inr may_not ↦ inl (forbidden, rw (seen, remove, may_not) refl)
      | inl may ↦ inr (p, record { seen = v; may = may; result = rw (seen, remove, may) refl })
    ]
  ]
