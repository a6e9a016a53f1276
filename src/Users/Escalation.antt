-- ===== src/Users/Escalation.antt =====
-- user.service.ts: who may give a role to whom.
use mathlib.Core.Option
use time_flow_be.Prelude.{
  ℕ, ◌≡◌, refl, sym, subst, ap, ◌∙◌, inl, inr, Option, none, some, Bool, true, false, not, ◌&&◌,
  ◌||◌, ◌==◌, if◌then◌else◌, arith, Bool-cases, Option-cases,
}
use time_flow_be.Results.{Result-cases}
use time_flow_be.Prisma.Keys
use time_flow_be.Prisma.{find, find-update_where}
use time_flow_be.Roles.{AuthContext}
use time_flow_be.Tasks.{or_before}
use time_flow_be.Accounts.{User}
use time_flow_be.Users.{
  Env, CreateUserInput, UpdateUserInput, State, find_user, manages_role, manages_user, load_target,
  create_checks, create, new_user, updated, revokes_sessions, rewrite, update, write_user, bury,
  buried, remove, reset_two_factor, without_two_factor,
}
use time_flow_be.Users.Guards.{create_checks-ok, Allowed, update_cases, remove_cases}

-- A request about users.
pub data Request : Type 0 where
  creates : ℕ → CreateUserInput → Request
  updates : ℕ → UpdateUserInput → Request
  removes resets : ℕ → Request

-- The role that an update asks for.
same_role :
    (o : Option ℕ) (role : ℕ)
    → elim o [ none ↦ none | some r ↦ if r == role then none else some r ] ≡ none
    → or_before o role ≡ role
same_role none role e = refl
same_role (some r) role e = elim (Bool-cases (r == role)) [
  | inl same ↦ ground arith
  | inr other ↦ ground (arith, e)
]

other_role :
    (o : Option ℕ) (role new : ℕ)
    → elim o [ none ↦ none | some r ↦ if r == role then none else some r ] ≡ some new
    → or_before o role ≡ new
other_role none role new e = absurd (cc)
other_role (some r) role new e = elim (Bool-cases (r == role)) [
  | inl same ↦ ground (arith, e)
  | inr other ↦ ground (arith, e)
]

module _ (env : Env) where
  open env use {prisma}

  abbrev pub run : ℕ → AuthContext → Request → State env → State env
  run now actor (creates id i) s = (create env id actor i s).1
  run now actor (updates id i) s = (update env now actor id i s).1
  run now actor (removes id) s = (remove env now actor id s).1
  run now actor (resets id) s = (reset_two_factor env actor id s).1

  -- What became of a user, by the role alone: the role is that before, or the actor holds all that the new
  -- role allows, and, of an account that was there, all that the old role allowed, and it is not the
  -- actor's own account.
  abbrev pub role_granted : AuthContext → State env → ℕ → Option User → User → Bool
  role_granted actor s id none after = manages_role env actor after.role_id s
  role_granted actor s id (some before) after =
      before.role_id == after.role_id
      || (manages_role env actor before.role_id s
          && manages_role env actor after.role_id s
          && not (id == actor.id))

  unchanged :
      (actor : AuthContext) (s : State env) (id : ℕ) (u : User)
      → role_granted actor s id (some u) u ≡ true
  unchanged actor s id u = ground arith

  stays :
      (actor : AuthContext) (s s' : State env) (id : ℕ) (after : User)
      → s' ≡ s
      → find_user env id s' ≡ some after
      → role_granted actor s id (find_user env id s) after ≡ true
  stays actor s s' id after same e =
      let found : find_user env id s ≡ some after =
        subst (λ x. find_user env id x ≡ some after) same e in
      subst (λ o. role_granted actor s id o after ≡ true) (sym found) (unchanged actor s id after)

  -- A write of one user.
  pub find-write_user :
      (k id : ℕ) (f : User → User) (s : State env)
      → ((u : User) → (f u).id ≡ u.id)
      → find_user env id (write_user env k f s)
        ≡ Option.map (λ u. if u.id == k then f u else u) (find_user env id s)
  find-write_user k id f s keeps =
      ap (find (λ u. u.id == id)) (prisma.rows-update_many (λ u. u.id == k) f s.users)
      ∙ find-update_where (λ u. u.id) (λ u. u.id == k) f keeps id (prisma.rows s.users)

  -- A write that the actor may make of the row that is found.
  written :
      (actor : AuthContext) (s : State env) (k id : ℕ) (f : User → User) (after : User)
      → ((u : User) → (f u).id ≡ u.id)
      → ((u : User) → find_user env k s ≡ some u → role_granted actor s k (some u) (f u) ≡ true)
      → find_user env id (write_user env k f s) ≡ some after
      → role_granted actor s id (find_user env id s) after ≡ true
  written actor s k id f after keeps allowed e = elim (Option-cases (find_user env id s)) [
    | inl gone ↦
        let missing : find_user env id (write_user env k f s) ≡ none =
          rw (find-write_user k id f s keeps, gone) refl in
        absurd (cc)
    | inr (u, found) ↦
        let u_id : u.id ≡ id = Keys.find-key (λ x. x.id) id u (prisma.rows s.users) found in
        let there : find_user env id (write_user env k f s) ≡ some (if u.id == k then f u else u) =
          rw (find-write_user k id f s keeps, found) refl in
        let after_eq : (if u.id == k then f u else u) ≡ after = cc in
        let conclude =
          λ (x : User) (x_after : x ≡ after) (h : role_granted actor s id (some u) x ≡ true).
            subst (λ o. role_granted actor s id o after ≡ true) (sym found)
              (subst (λ y. role_granted actor s id (some u) y ≡ true) x_after h) in
        elim (Bool-cases (u.id == k)) [
          | inr other ↦
              conclude u (ap (λ b. if b then f u else u) (sym other) ∙ after_eq)
                (unchanged actor s id u)
          | inl same ↦
              let k_id : k ≡ id = ground (arith, u_id) in
              let here : find_user env k s ≡ some u =
                subst (λ j. find_user env j s ≡ some u) (sym k_id) found in
              conclude (f u) (ap (λ b. if b then f u else u) (sym same) ∙ after_eq)
                (subst (λ j. role_granted actor s j (some u) (f u) ≡ true) k_id (allowed u here))
        ]
  ]

  create-roles :
      (k : ℕ) (actor : AuthContext) (i : CreateUserInput) (s : State env) (id : ℕ) (after : User)
      → find_user env id (create env k actor i s).1 ≡ some after
      → role_granted actor s id (find_user env id s) after ≡ true
  unfolding create
  create-roles k actor i s id after e = elim (Result-cases (create_checks env actor i s)) [
    | inl (x, refused) ↦
        let same : (create env k actor i s).1 ≡ s = rw (refused, create) refl in
        stays actor s (create env k actor i s).1 id after same e
    | inr (_, passed) ↦ elim (Option-cases (find_user env k s)) [
      | inr (u, taken) ↦
          let same : (create env k actor i s).1 ≡ s = rw (passed, create, taken) refl in
          stays actor s (create env k actor i s).1 id after same e
      | inl free ↦
          let made : find_user env id (create env k actor i s).1
              ≡ (if k == id then some (new_user env k i) else find_user env id s) =
            rw (passed, create, free, prisma.rows-create (new_user env k i) s.users) refl in
          elim (Bool-cases (k == id)) [
            | inr other ↦
                let found : find_user env id s ≡ some after =
                  ap (λ b. if b then some (new_user env k i) else find_user env id s) (sym other)
                  ∙ sym made
                  ∙ e in
                subst (λ o. role_granted actor s id o after ≡ true) (sym found)
                  (unchanged actor s id after)
            | inl same ↦
                let k_id : k ≡ id = ground arith in
                let gone : find_user env id s ≡ none =
                  subst (λ j. find_user env j s ≡ none) k_id free in
                let is_new : some (new_user env k i) ≡ some after =
                  ap (λ b. if b then some (new_user env k i) else find_user env id s) (sym same)
                  ∙ sym made
                  ∙ e in
                let after_eq : new_user env k i ≡ after = cc in
                subst (λ o. role_granted actor s id o after ≡ true) (sym gone)
                  (subst (λ u. manages_role env actor u.role_id s ≡ true) after_eq
                    (create_checks-ok env actor i s passed))
          ]
    ]
  ]

  updated-role :
      (actor : AuthContext) (k : ℕ) (i : UpdateUserInput) (s : State env) (target : User)
      (revokes : Bool)
      → find_user env k s ≡ some target
      → Allowed env actor i target s
      → role_granted actor s k (some target) (updated env i revokes target) ≡ true
  updated-role actor k i s target revokes found a = elim a.role [
    | inl same ↦
        let role : or_before i.role_id target.role_id ≡ target.role_id =
          same_role i.role_id target.role_id same in
        ground (arith, role)
    | inr (new, other, may) ↦
        let role : or_before i.role_id target.role_id ≡ new =
          other_role i.role_id target.role_id new other in
        let not_self : (target.id == actor.id) ≡ false = ground (arith, a.keeps_own_role, other) in
        let target_id : target.id ≡ k =
          Keys.find-key (λ x. x.id) k target (prisma.rows s.users) found in
        let not_own : (k == actor.id) ≡ false = rw (sym target_id) not_self in
        let old : manages_role env actor target.role_id s ≡ true =
          ground (arith, a.manages, not_self) in
        rw (role, may, old, not_own) (ground arith)
  ]

  find-rewrite :
      (now k : ℕ) (i : UpdateUserInput) (target : User) (s : State env) (id : ℕ)
      → find_user env id (rewrite env now k i target s)
        ≡ find_user env id (write_user env k (updated env i (revokes_sessions env i target)) s)
  unfolding rewrite
  find-rewrite now k i target s id = elim (Bool-cases (revokes_sessions env i target)) [
    | inl revokes ↦ rw (revokes, rewrite) refl
    | inr keeps ↦ rw (keeps, rewrite) refl
  ]

  update-roles :
      (now : ℕ) (actor : AuthContext) (k : ℕ) (i : UpdateUserInput) (s : State env) (id : ℕ)
      (after : User)
      → find_user env id (update env now actor k i s).1 ≡ some after
      → role_granted actor s id (find_user env id s) after ≡ true
  update-roles now actor k i s id after e = elim (update_cases env now actor k i s) [
    | inl (x, refused) ↦
        stays actor s (update env now actor k i s).1 id after (ap (λ r. r.1) refused) e
    | inr (target, u) ↦
        let f = updated env i (revokes_sessions env i target) in
        let found : find_user env id (write_user env k f s) ≡ some after =
          sym (find-rewrite now k i target s id)
          ∙ sym (ap (λ r. find_user env id r.1) u.result)
          ∙ e in
        written actor s k id f after (λ x. refl)
          (λ x here.
            let x_eq : target ≡ x = cc in
            subst (λ y. role_granted actor s k (some y) (f y) ≡ true) x_eq
              (updated-role actor k i s target (revokes_sessions env i target) u.found u.allowed))
          found
  ]

  kept_role :
      (actor : AuthContext) (k : ℕ) (f : User → User) (s : State env)
      → ((u : User) → (f u).role_id ≡ u.role_id)
      → (u : User) → find_user env k s ≡ some u
      → role_granted actor s k (some u) (f u) ≡ true
  kept_role actor k f s keeps u found = ground (arith, keeps u)

  remove-roles :
      (now : ℕ) (actor : AuthContext) (k : ℕ) (s : State env) (id : ℕ) (after : User)
      → find_user env id (remove env now actor k s).1 ≡ some after
      → role_granted actor s id (find_user env id s) after ≡ true
  unfolding bury
  remove-roles now actor k s id after e = elim (remove_cases env now actor k s) [
    | inl (x, refused) ↦
        stays actor s (remove env now actor k s).1 id after (ap (λ r. r.1) refused) e
    | inr (target, r) ↦
        written actor s k id (buried env now) after (λ x. refl)
          (kept_role actor k (buried env now) s (λ x. refl))
          (sym (ap (λ x. find_user env id x.1) r.result) ∙ e)
  ]

  reset-roles :
      (actor : AuthContext) (k : ℕ) (s : State env) (id : ℕ) (after : User)
      → find_user env id (reset_two_factor env actor k s).1 ≡ some after
      → role_granted actor s id (find_user env id s) after ≡ true
  unfolding reset_two_factor
  reset-roles actor k s id after e = elim (Result-cases (load_target env k s)) [
    | inl (x, refused) ↦
        stays actor s (reset_two_factor env actor k s).1 id after
          (rw (refused, reset_two_factor) refl) e
    | inr (target, loaded) ↦ elim (Bool-cases (not (manages_user env actor target s))) [
      | inl lacks ↦
          stays actor s (reset_two_factor env actor k s).1 id after
            (rw (loaded, reset_two_factor, lacks) refl) e
      | inr may ↦ elim (Bool-cases (not target.two_factor_enabled)) [
        | inl already ↦
            stays actor s (reset_two_factor env actor k s).1 id after
              (rw (loaded, reset_two_factor, may, already) refl) e
        | inr on ↦
            let cleared : find_user env id (reset_two_factor env actor k s).1
                ≡ find_user env id (write_user env k (without_two_factor env) s) =
              rw (loaded, reset_two_factor, may, on) refl in
            written actor s k id (without_two_factor env) after (λ x. refl)
              (kept_role actor k (without_two_factor env) s (λ x. refl)) (sym cleared ∙ e)
      ]
    ]
  ]

  -- Whatever request about users a signed-in user makes, and whatever the answer is: an account that
  -- is there afterwards has the role that it had before; or it is new, and the actor holds every
  -- permission of its role; or it is not the actor's own, and the actor holds every permission of the
  -- role that it had and of the role that it has.
  pub run-role_granted :
      (now : ℕ) (actor : AuthContext) (r : Request) (s : State env) (id : ℕ) (after : User)
      → find_user env id (run now actor r s) ≡ some after
      → role_granted actor s id (find_user env id s) after ≡ true
  run-role_granted now actor (creates k i) s id after e = create-roles k actor i s id after e
  run-role_granted now actor (updates k i) s id after e = update-roles now actor k i s id after e
  run-role_granted now actor (removes k) s id after e = remove-roles now actor k s id after e
  run-role_granted now actor (resets k) s id after e = reset-roles actor k s id after e
