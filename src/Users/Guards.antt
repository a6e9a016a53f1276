-- ===== src/Users/Guards.antt =====
-- What the checks of user.service.ts let through.
use time_flow_be.Prelude.{
  ℕ, ◌≡◌, refl, subst, inl, inr, ◌⊎◌, none, some, is_some, true, false, not, ◌&&◌, ◌==◌, arith,
  Bool-cases, Option-cases, [], ◌∷◌,
}
use time_flow_be.Results.{ok, threw, ◌>>=◌, bind-ok, Result-cases, require, require-ok}
use time_flow_be.Roles.{AuthContext}
use time_flow_be.Tasks.{is_null}
use time_flow_be.Accounts.{User}
use time_flow_be.Users.{
  Env, UserError, CreateUserInput, UpdateUserInput, State, user_not_found, forbidden, own_role,
  own_account, find_user, load_target, assert_role_exists, manages_role, manages_user,
  create_checks, new_role, deactivates, assert_new_role, update_checks, revokes_sessions, updated,
  rewrite, updated_events, update, emit, remove, bury, user_invalidated, invalidated, user_deleted,
}

module _ (env : Env) where
  open env use {prisma}

  pub load_target-ok :
      (id : ℕ) (s : State env) (u : User)
      → load_target env id s ≡ ok u
      → (find_user env id s ≡ some u) × (is_null u.deleted_at ≡ true)
  unfolding load_target
  load_target-ok id s u e = elim (Option-cases (find_user env id s)) [
    | inl gone ↦
        let missing : load_target env id s ≡ threw user_not_found = rw (gone, load_target) refl in
        absurd (cc)
    | inr (r, found) ↦ elim (Bool-cases (is_null r.deleted_at)) [
      | inr deleted ↦
          let missing : load_target env id s ≡ threw user_not_found =
            rw (found, load_target, deleted) refl in
          absurd (cc)
      | inl live ↦
          let there : load_target env id s ≡ ok r = rw (found, load_target, live) refl in
          let r_u : r ≡ u = cc in (cc, cc)
    ]
  ]

  pub create_checks-ok :
      (actor : AuthContext) (i : CreateUserInput) (s : State env)
      → create_checks env actor i s ≡ ok tt
      → manages_role env actor i.role_id s ≡ true
  unfolding create_checks
  create_checks-ok actor i s e =
      let (r, exists, rest) = bind-ok (assert_role_exists env i.role_id s) _ tt e in
      let (_, may, _) =
        bind-ok (require (manages_role env actor i.role_id s) forbidden) _ tt rest in
      require-ok (manages_role env actor i.role_id s) forbidden may

  assert_new_role-ok :
      (actor : AuthContext) (i : UpdateUserInput) (target : User) (s : State env)
      → assert_new_role env actor i target s ≡ ok tt
      → (new_role env i target ≡ none)
        ⊎ ((role : ℕ) × (new_role env i target ≡ some role)
            × (manages_role env actor role s ≡ true))
  assert_new_role-ok actor i target s e = elim (Option-cases (new_role env i target)) [
    | inl same ↦ inl same
    | inr (role, other) ↦
        let checked : (assert_role_exists env role s >>= λ _.
        require (manages_role env actor role s) forbidden)
            ≡ ok tt =
          subst
            (λ o.
              elim o [
                | none ↦ ok tt
                | some r ↦ assert_role_exists env r s >>= λ _.
                    require (manages_role env actor r s) forbidden
              ]
              ≡ ok tt)
            other e in
        let (_, _, may) =
          bind-ok (assert_role_exists env role s)
            (λ _. require (manages_role env actor role s) forbidden) tt checked in
        inr (role, other, require-ok (manages_role env actor role s) forbidden may)
  ]

  pub record Allowed (actor : AuthContext) (i : UpdateUserInput) (target : User) (s : State env)
      : Type 0 where
    pub manages : manages_user env actor target s ≡ true
    pub keeps_own_role : (target.id == actor.id && is_some (new_role env i target)) ≡ false
    pub stays_active : (target.id == actor.id && deactivates env i) ≡ false
    pub role :
        (new_role env i target ≡ none)
        ⊎ ((role : ℕ) × (new_role env i target ≡ some role)
            × (manages_role env actor role s ≡ true))

  pub update_checks-ok :
      (actor : AuthContext) (id : ℕ) (i : UpdateUserInput) (target : User) (s : State env)
      → update_checks env actor id i target s ≡ ok tt
      → Allowed actor i target s
  unfolding update_checks
  update_checks-ok actor id i target s e =
      let is_self = target.id == actor.id in
      let own = is_self && is_some (new_role env i target) in
      let leaves = is_self && deactivates env i in
      let (_, manages, rest) =
        bind-ok (require (manages_user env actor target s) forbidden) _ tt e in
      let (_, keeps, rest') = bind-ok (require (not own) own_role) _ tt rest in
      let (_, stays, rest'') = bind-ok (require (not leaves) own_account) _ tt rest' in
      let (_, role, _) = bind-ok (assert_new_role env actor i target s) _ tt rest'' in
      let not_own = require-ok (not own) own_role keeps in
      let not_leaves = require-ok (not leaves) own_account stays in
      record {
        manages = require-ok (manages_user env actor target s) forbidden manages;
        keeps_own_role = ground (arith, not_own);
        stays_active = ground (arith, not_leaves);
        role = assert_new_role-ok actor i target s role;
      }

  -- What an update that succeeds has found and does.
  pub record Updates (now : ℕ) (actor : AuthContext) (id : ℕ) (i : UpdateUserInput) (s : State env)
      (target : User) : Type 0 where
    pub found : find_user env id s ≡ some target
    pub allowed : Allowed actor i target s
    pub result : update env now actor id i s ≡ (
      ok (updated env i (revokes_sessions env i target) target),
      emit env (updated_events env id i target) (rewrite env now id i target s),
    )

  pub update_cases :
      (now : ℕ) (actor : AuthContext) (id : ℕ) (i : UpdateUserInput) (s : State env)
      → ((e : UserError) × (update env now actor id i s ≡ (threw e, s)))
        ⊎ ((target : User) × Updates now actor id i s target)
  unfolding update
  update_cases now actor id i s = elim (Result-cases (load_target env id s)) [
    | inl (e, refused) ↦ inl (e, rw (refused, update) refl)
    | inr (target, loaded) ↦ elim (Result-cases (update_checks env actor id i target s)) [
      | inl (e, refused) ↦ inl (e, rw (loaded, update, refused) refl)
      | inr (_, passed) ↦ inr (
        target,
        record {
          found = (load_target-ok id s target loaded).0;
          allowed = update_checks-ok actor id i target s passed;
          result = rw (loaded, update, passed) refl;
        },
      )
    ]
  ]

  pub record Removes (now : ℕ) (actor : AuthContext) (id : ℕ) (s : State env) (target : User)
      : Type 0 where
    pub found : find_user env id s ≡ some target
    pub other : (target.id == actor.id) ≡ false
    pub manages : manages_role env actor target.role_id s ≡ true
    pub result : remove env now actor id s ≡ (
      ok tt,
      emit env (user_invalidated id ∷ invalidated ∷ user_deleted id ∷ []) (bury env now id s),
    )

  pub remove_cases :
      (now : ℕ) (actor : AuthContext) (id : ℕ) (s : State env)
      → ((e : UserError) × (remove env now actor id s ≡ (threw e, s)))
        ⊎ ((target : User) × Removes now actor id s target)
  unfolding remove
  remove_cases now actor id s = elim (Result-cases (load_target env id s)) [
    | inl (e, refused) ↦ inl (e, rw (refused, remove) refl)
    | inr (target, loaded) ↦ elim (Bool-cases (target.id == actor.id)) [
      | inl self ↦ inl (own_account, rw (loaded, remove, self) refl)
      | inr other ↦ elim (Bool-cases (manages_role env actor target.role_id s)) [
        | inr lacks ↦ inl (forbidden, rw (loaded, remove, other, lacks) refl)
        | inl may ↦ inr (
          target,
          record {
            found = (load_target-ok id s target loaded).0;
            other = other;
            manages = may;
            result = rw (loaded, remove, other, may) refl;
          },
        )
      ]
    ]
  ]
