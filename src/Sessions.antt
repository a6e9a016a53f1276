-- ===== src/Sessions.antt =====
-- src/modules/auth/auth.service.ts: issueSession, refresh, logout and the revocation of sessions. Each write
-- that `refresh` waits for is an operation of its own, so that requests can overlap.
mod Types
mod Live
mod Overlap
mod Rotation
mod Reuse
mod Used
mod SingleUse
mod GraceRace
mod Tests
use time_flow_be.Prelude.{
  ℕ, ◌+◌, ◌-◌, ◌*◌, Option, none, some, is_some, opt_eq, List, [], ◌∷◌, ◌++◌, Bool, true, false,
  not, ◌&&◌, ◌||◌, ◌==◌, if◌then◌else◌, ltb, leb,
}
use time_flow_be.Results.{Result, ok, threw}
use time_flow_be.Prisma
use time_flow_be.Prisma.{Prisma}
use time_flow_be.Tasks.{is_null}
pub use time_flow_be.Sessions.Types.{
  is_active, RefreshToken, User, ClientInfo, AccessTokenPayload, IssuedSession, Drawn, AuthError,
  Event, Env, invalid_token, token_revoked, token_expired, account_inactive, unique_violation,
  session_not_found, user_not_found, refresh_token_reused, logged_out, user_invalidated,
}

-- `REFRESH_REUSE_GRACE_MS`
abbrev pub refresh_reuse_grace_ms : ℕ
refresh_reuse_grace_ms = 10000

module _ (env : Env) where
  open env use {prisma}

  pub record State : Type 0 where
    pub refresh_tokens : prisma.Table RefreshToken
    pub users : prisma.Table User
    pub events : List Event

  abbrev pub Answer : Type 0 → Type 0
  Answer A = Result AuthError A × State

  abbrev pub find_token : ℕ → State → Option RefreshToken
  find_token hash s = Prisma.find_first prisma (λ t. t.token_hash == hash) s.refresh_tokens

  abbrev pub find_id : ℕ → State → Option RefreshToken
  find_id id s = Prisma.find_first prisma (λ t. t.id == id) s.refresh_tokens

  abbrev pub find_user : ℕ → State → Option User
  find_user id s = Prisma.find_first prisma (λ u. u.id == id) s.users

  abbrev pub emit : Event → State → State
  emit e s = record s { events = s.events ++ (e ∷ []) }

  abbrev pub new_token : ℕ → User → ClientInfo → ℕ → Drawn → RefreshToken
  new_token now user client family drawn = record {
    id = drawn.id;
    user_id = user.id;
    token_hash = env.sha256 drawn.raw;
    family_id = family;
    expires_at = now + env.refresh_token_ttl_days * 24 * 60 * 60 * 1000;
    revoked_at = none;
    replaced_by = none;
    ip_address = client.ip;
    user_agent = client.user_agent;
  }

  abbrev pub session_of : User → Drawn → RefreshToken → IssuedSession
  session_of user drawn row = record {
    access_token = record { sub = user.id; tv = user.token_version };
    refresh_token = drawn.raw;
    refresh_expires_at = row.expires_at;
    refresh_token_id = row.id;
    user_id = user.id;
  }

  -- The id and the hash are unique columns.
  unfoldable pub issue_session : ℕ → User → ClientInfo → ℕ → Drawn → State → Answer IssuedSession
  issue_session now user client family drawn s =
      let row = new_token now user client family drawn in
      if is_some (find_id row.id s) || is_some (find_token row.token_hash s)
      then (threw unique_violation, s)
      else (
        ok (session_of user drawn row),
        record s { refresh_tokens = prisma.create row s.refresh_tokens },
      )

  abbrev pub with_revoked_at : ℕ → RefreshToken → RefreshToken
  with_revoked_at now t = record t { revoked_at = some now }

  -- `updateMany({ where: { ...test, revokedAt: null }, data: { revokedAt: new Date() } })`
  abbrev pub revoke : ℕ → (RefreshToken → Bool) → State → State
  revoke now test s = record s {
    refresh_tokens =
        prisma.update_many (λ t. test t && is_null t.revoked_at) (with_revoked_at now)
          s.refresh_tokens;
  }

  abbrev pub revoked_count : (RefreshToken → Bool) → State → ℕ
  revoked_count test s = Prisma.count prisma (λ t. test t && is_null t.revoked_at) s.refresh_tokens

  -- A token that was rotated a moment ago.
  abbrev pub within_grace : ℕ → RefreshToken → ℕ → Bool
  within_grace now row at = is_some row.replaced_by && ltb (now - at) refresh_reuse_grace_ms

  -- A revoked token is presented.
  unfoldable pub detect_reuse : ℕ → RefreshToken → ℕ → State → State
  detect_reuse now row at s =
      if within_grace now row at
      then s
      else emit (refresh_token_reused row.user_id row.family_id)
          (revoke now (λ t. t.family_id == row.family_id) s)

  unfoldable pub claim : ℕ → RefreshToken → State → Bool × State
  claim now row s =
      (not (revoked_count (λ t. t.id == row.id) s == 0), revoke now (λ t. t.id == row.id) s)

  abbrev pub with_replaced_by : ℕ → RefreshToken → RefreshToken
  with_replaced_by new t = record t { replaced_by = some new }

  unfoldable pub mark_replaced : ℕ → ℕ → State → State
  mark_replaced id new s = record s {
    refresh_tokens = prisma.update_many (λ t. t.id == id) (with_replaced_by new) s.refresh_tokens;
  }

  abbrev pub marked : ℕ → Answer IssuedSession → Answer IssuedSession
  marked id (threw e, s) = (threw e, s)
  marked id (ok session, s) = (ok session, mark_replaced id session.refresh_token_id s)

  -- What follows the claim.
  abbrev pub rotated :
      ℕ → User → ClientInfo → Drawn → RefreshToken → Bool × State → Answer IssuedSession
  rotated now user client drawn row (false, s) = (threw token_revoked, s)
  rotated now user client drawn row (true, s) =
      marked row.id (issue_session now user client row.family_id drawn s)

  -- A token that is not revoked is presented; its user is there, as a foreign key sees to.
  abbrev pub rotate :
      ℕ → ClientInfo → Drawn → RefreshToken → Option User → State → Answer IssuedSession
  rotate now client drawn row none s = (threw invalid_token, s)
  rotate now client drawn row (some user) s =
      if is_some user.deleted_at || not (is_active user.status)
      then (threw account_inactive, s)
      else rotated now user client drawn row (claim now row s)

  abbrev pub refresh_row :
      ℕ → ClientInfo → Drawn → RefreshToken → Option ℕ → State → Answer IssuedSession
  refresh_row now client drawn row (some at) s = (threw token_revoked, detect_reuse now row at s)
  refresh_row now client drawn row none s =
      if leb row.expires_at now
      then (threw token_expired, s)
      else rotate now client drawn row (find_user row.user_id s) s

  unfoldable pub refresh : ℕ → ClientInfo → ℕ → Drawn → State → Answer IssuedSession
  refresh now client raw drawn s = elim (find_token (env.sha256 raw) s) [
    | none ↦ (threw invalid_token, s)
    | some row ↦ refresh_row now client drawn row row.revoked_at s
  ]

  abbrev pub or_user : Option ℕ → ℕ → ℕ
  or_user none user = user
  or_user (some actor) user = actor

  unfoldable pub logout : ℕ → Option ℕ → Option ℕ → State → State
  logout now none actor s = s
  logout now (some raw) actor s = elim (find_token (env.sha256 raw) s) [
    | none ↦ s
    | some row ↦
        emit (logged_out (or_user actor row.user_id) row.user_id)
          (revoke now (λ t. t.family_id == row.family_id) s)
  ]

  abbrev pub next_version : User → User
  next_version u = record u { token_version = u.token_version + 1 }

  -- The update of a user that is not there fails, and with it the transaction.
  unfoldable pub revoke_all_sessions : ℕ → ℕ → State → Answer (Unit {0})
  revoke_all_sessions now user s =
      let revoked = revoke now (λ t. t.user_id == user) s in
      elim (find_user user s) [
        | none ↦ (threw user_not_found, s)
        | some _ ↦ (
          ok tt,
          emit (user_invalidated user) (record revoked {
            users = prisma.update_many (λ u. u.id == user) next_version revoked.users;
          }),
        )
      ]

  unfoldable pub revoke_session : ℕ → ℕ → ℕ → State → Answer (Unit {0})
  revoke_session now user family s =
      let of : RefreshToken → Bool = λ t. t.user_id == user && t.family_id == family in
      if revoked_count of s == 0 then (threw session_not_found, s) else (ok tt, revoke now of s)

  -- The family of the caller's own token, which stays.
  abbrev pub current_family : Option ℕ → State → Option ℕ
  current_family none s = none
  current_family (some raw) s = elim (find_token (env.sha256 raw) s) [
    | none ↦ none
    | some row ↦ some row.family_id
  ]

  abbrev pub is_other : ℕ → Option ℕ → RefreshToken → Bool
  is_other user none t = t.user_id == user
  is_other user (some family) t = t.user_id == user && not (t.family_id == family)

  unfoldable pub revoke_other_sessions : ℕ → ℕ → Option ℕ → State → ℕ × State
  revoke_other_sessions now user raw s =
      let test = is_other user (current_family raw s) in (revoked_count test s, revoke now test s)
