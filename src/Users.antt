-- ===== src/Users.antt =====
-- src/modules/users/user.service.ts: create, update, remove and resetTwoFactor. Ids and names of roles are numbers,
-- texts are lists of code units.
mod Types
mod Guards
mod Escalation
mod SignOut
mod Tests
use time_flow_be.Prelude.{
  ℕ, ◌+◌, Option, none, some, is_some, List, [], ◌∷◌, ◌++◌, Bool, true, false, not, ◌&&◌, ◌||◌,
  ◌==◌, if◌then◌else◌,
}
use time_flow_be.Results.{Result, ok, threw, ◌>>=◌, require}
use time_flow_be.Prisma
use time_flow_be.Prisma.{Prisma}
use time_flow_be.Projects.{ProjectMember}
use time_flow_be.Roles.{AuthContext, RolePermission}
use time_flow_be.Sessions.{RefreshToken}
use time_flow_be.SignupOtp.{UserStatus}
use time_flow_be.Tasks.{or_before, is_null}
use time_flow_be.Accounts.{Text, same_text, User, email_taken, phone_taken, can_manage_role}
pub use time_flow_be.Users.Types.{
  Env, Role, UserError, Event, CreateUserInput, UpdateUserInput, same_status, differs,
  differs_or_null, is_given, user_not_found, role_not_found, forbidden, own_role, own_account,
  email_exists, phone_exists, unique_violation, two_factor_not_enabled, user_created,
  user_status_changed, user_role_changed, user_updated, user_deleted, user_2fa_reset,
  two_factor_cleared, user_invalidated, invalidated, welcome_email,
}

module _ (env : Env) where
  open env use {prisma}

  pub record State : Type 0 where
    pub users : prisma.Table User
    pub roles : prisma.Table Role
    pub grants : prisma.Table RolePermission
    pub refresh_tokens : prisma.Table RefreshToken
    pub members : prisma.Table ProjectMember
    pub events : List Event

  abbrev pub Answer : Type 0 → Type 0
  Answer A = Result UserError A × State

  abbrev pub find_user : ℕ → State → Option User
  find_user id s = Prisma.find_first prisma (λ u. u.id == id) s.users

  abbrev pub emit : List Event → State → State
  emit es s = record s { events = s.events ++ es }

  unfoldable pub assert_role_exists : ℕ → State → Result UserError Role
  assert_role_exists id s = elim (Prisma.find_first prisma (λ r. r.id == id) s.roles) [
    | none ↦ threw role_not_found
    | some r ↦ ok r
  ]

  unfoldable pub load_target : ℕ → State → Result UserError User
  load_target id s = elim (find_user id s) [
    | none ↦ threw user_not_found
    | some u ↦ if is_null u.deleted_at then ok u else threw user_not_found
  ]

  abbrev pub manages_role : AuthContext → ℕ → State → Bool
  manages_role actor role s = can_manage_role prisma actor role s.grants

  abbrev pub manages_user : AuthContext → User → State → Bool
  manages_user actor target s = target.id == actor.id || manages_role actor target.role_id s

  abbrev pub new_user : ℕ → CreateUserInput → User
  new_user id i = record {
    id = id;
    first_name = i.first_name;
    last_name = i.last_name;
    email = i.email;
    phone = i.phone;
    avatar_url = i.avatar_url;
    password_hash = env.hash_password i.password;
    status = i.status;
    role_id = i.role_id;
    token_version = 0;
    two_factor_enabled = false;
    deleted_at = none;
  }

  unfoldable pub create_checks : AuthContext → CreateUserInput → State → Result UserError (Unit {0})
  create_checks actor i s = assert_role_exists i.role_id s >>= λ _.
      (require (manages_role actor i.role_id s) forbidden >>= λ _.
      (require (not (email_taken prisma i.email none s.users)) email_exists >>= λ _.
      require (not (is_given i.phone && phone_taken prisma (or_before i.phone []) none s.users))
        phone_exists))

  -- The id is the one that the database makes up.
  unfoldable pub create : ℕ → AuthContext → CreateUserInput → State → Answer User
  create id actor i s = elim (create_checks actor i s) [
    | threw e ↦ (threw e, s)
    | ok _ ↦ if is_some (find_user id s) then (threw unique_violation, s) else (
      ok (new_user id i),
      emit (invalidated ∷ welcome_email id ∷ user_created id ∷ [])
          (record s { users = prisma.create (new_user id i) s.users }),
    )
  ]

  -- `input.roleId && input.roleId !== target.roleId`
  abbrev pub new_role : UpdateUserInput → User → Option ℕ
  new_role i target = elim i.role_id [
    | none ↦ none
    | some role ↦ if role == target.role_id then none else some role
  ]

  abbrev pub deactivates : UpdateUserInput → Bool
  deactivates i = elim i.status [
    | none ↦ false
    | some status ↦ same_status status UserStatus.inactive
  ]

  abbrev pub assert_new_role :
      AuthContext → UpdateUserInput → User → State → Result UserError (Unit {0})
  assert_new_role actor i target s = elim (new_role i target) [
    | none ↦ ok tt
    | some role ↦ assert_role_exists role s >>= λ _. require (manages_role actor role s) forbidden
  ]

  abbrev pub email_clashes : ℕ → UpdateUserInput → User → State → Bool
  email_clashes id i target s = elim i.email [
    | none ↦ false
    | some email ↦ not (same_text email target.email) && email_taken prisma email (some id) s.users
  ]

  abbrev pub phone_clashes : ℕ → UpdateUserInput → State → Bool
  phone_clashes id i s =
      let phone = or_before i.phone none in
      is_given phone && phone_taken prisma (or_before phone []) (some id) s.users

  unfoldable pub update_checks :
      AuthContext → ℕ → UpdateUserInput → User → State → Result UserError (Unit {0})
  update_checks actor id i target s =
      let is_self = target.id == actor.id in
      require (manages_user actor target s) forbidden >>= λ _.
      (require (not (is_self && is_some (new_role i target))) own_role >>= λ _.
      (require (not (is_self && deactivates i)) own_account >>= λ _.
      (assert_new_role actor i target s >>= λ _.
      (require (not (email_clashes id i target s)) email_exists >>= λ _.
      require (not (phone_clashes id i s)) phone_exists))))

  abbrev pub status_changed : UpdateUserInput → User → Bool
  status_changed i target = elim i.status [
    | none ↦ false
    | some status ↦ not (same_status status target.status)
  ]

  unfoldable pub revokes_sessions : UpdateUserInput → User → Bool
  revokes_sessions i target = is_some i.password || (status_changed i target && deactivates i)

  -- `changed` without the status and the role.
  abbrev pub has_other_changes : UpdateUserInput → User → Bool
  has_other_changes i target =
      is_some i.password
      || differs i.first_name target.first_name
      || differs i.last_name target.last_name
      || differs i.email target.email
      || differs_or_null i.phone target.phone
      || differs_or_null i.avatar_url target.avatar_url

  abbrev pub password_hash_of : UpdateUserInput → ℕ → ℕ
  password_hash_of i before = elim i.password [
    | none ↦ before
    | some password ↦ env.hash_password password
  ]

  abbrev pub updated : UpdateUserInput → Bool → User → User
  updated i revokes u = record u {
    first_name = or_before i.first_name u.first_name;
    last_name = or_before i.last_name u.last_name;
    email = or_before i.email u.email;
    phone = or_before i.phone u.phone;
    avatar_url = or_before i.avatar_url u.avatar_url;
    status = or_before i.status u.status;
    role_id = or_before i.role_id u.role_id;
    password_hash = password_hash_of i u.password_hash;
    token_version = if revokes then u.token_version + 1 else u.token_version;
  }

  abbrev pub with_revoked_at : ℕ → RefreshToken → RefreshToken
  with_revoked_at now t = record t { revoked_at = some now }

  abbrev pub revoke_tokens : ℕ → ℕ → State → State
  revoke_tokens now id s = record s {
    refresh_tokens =
        prisma.update_many (λ t. t.user_id == id && is_null t.revoked_at) (with_revoked_at now)
          s.refresh_tokens;
  }

  abbrev pub write_user : ℕ → (User → User) → State → State
  write_user id f s = record s { users = prisma.update_many (λ u. u.id == id) f s.users }

  -- The transaction.
  unfoldable pub rewrite : ℕ → ℕ → UpdateUserInput → User → State → State
  rewrite now id i target s =
      let revokes = revokes_sessions i target in
      let written = write_user id (updated i revokes) s in
      if revokes then revoke_tokens now id written else written

  abbrev pub updated_events : ℕ → UpdateUserInput → User → List Event
  updated_events id i target =
      user_invalidated id
        ∷ invalidated
        ∷ (if status_changed i target then user_status_changed id ∷ [] else [])
      ++ (if is_some (new_role i target) then user_role_changed id ∷ [] else [])
      ++ (if has_other_changes i target then user_updated id ∷ [] else [])

  unfoldable pub update : ℕ → AuthContext → ℕ → UpdateUserInput → State → Answer User
  update now actor id i s = elim (load_target id s) [
    | threw e ↦ (threw e, s)
    | ok target ↦ elim (update_checks actor id i target s) [
      | threw e ↦ (threw e, s)
      | ok _ ↦ (
        ok (updated i (revokes_sessions i target) target),
        emit (updated_events id i target) (rewrite now id i target s),
      )
    ]
  ]

  -- `twoFactorService.clear` is the event `two_factor_cleared` and what it does to the row of the user.
  abbrev pub without_two_factor : User → User
  without_two_factor u = record u { two_factor_enabled = false }

  unfoldable pub reset_two_factor : AuthContext → ℕ → State → Answer (Unit {0})
  reset_two_factor actor id s = elim (load_target id s) [
    | threw e ↦ (threw e, s)
    | ok target ↦
        if not (manages_user actor target s)
        then (threw forbidden, s)
        else if not target.two_factor_enabled
        then (threw two_factor_not_enabled, s)
        else (
          ok tt,
          emit (two_factor_cleared id ∷ user_2fa_reset id ∷ [])
              (write_user id without_two_factor s),
        )
  ]

  abbrev pub buried : ℕ → User → User
  buried now u = record u {
    deleted_at = some now;
    status = UserStatus.inactive;
    token_version = u.token_version + 1;
  }

  -- The transaction.
  unfoldable pub bury : ℕ → ℕ → State → State
  bury now id s =
      let signed_out = revoke_tokens now id (write_user id (buried now) s) in
      record signed_out { members = prisma.delete_many (λ m. m.user_id == id) signed_out.members }

  unfoldable pub remove : ℕ → AuthContext → ℕ → State → Answer (Unit {0})
  remove now actor id s = elim (load_target id s) [
    | threw e ↦ (threw e, s)
    | ok target ↦
        if target.id == actor.id
        then (threw own_account, s)
        else if not (manages_user actor target s)
        then (threw forbidden, s)
        else (
          ok tt,
          emit (user_invalidated id ∷ invalidated ∷ user_deleted id ∷ []) (bury now id s),
        )
  ]
