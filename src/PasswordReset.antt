-- ===== src/PasswordReset.antt =====
-- src/modules/password-resets/password-reset.service.ts: links with which members set a new password. Ids,
-- tokens and hashes are numbers; a handler gives its answer and the state that it leaves.
mod Complete
mod Request
mod Tests
use mathlib.Core.Option
use time_flow_be.Prelude.{
  ℕ, suc, ◌+◌, Option, none, some, is_some, List, [], ◌∷◌, ◌++◌, Bool, true, false, not, ◌&&◌, ◌||◌,
  ◌==◌, ltb, leb, any, if◌then◌else◌,
}
use time_flow_be.Prisma
use time_flow_be.Prisma.{Prisma}

pub data ResetStatus : Type 0 where
  pending completed expired cancelled : ResetStatus

abbrev pub is_pending : ResetStatus → Bool
is_pending pending = true
is_pending completed = false
is_pending expired = false
is_pending cancelled = false

abbrev pub is_expired : ResetStatus → Bool
is_expired expired = true
is_expired pending = false
is_expired completed = false
is_expired cancelled = false

-- The model PasswordResetRequest of prisma/schema.prisma.
pub record ResetRequest : Type 0 where
  pub id : ℕ
  pub user_id : ℕ
  pub requested_by_id : ℕ
  pub token_hash : ℕ
  pub status : ResetStatus
  pub expires_at : ℕ
  pub completed_at : Option ℕ
  pub cancelled_at : Option ℕ

pub record User : Type 0 where
  pub id : ℕ
  pub active : Bool
  pub deleted_at : Option ℕ
  pub password_hash : ℕ
  pub token_version : ℕ

pub record RefreshToken : Type 0 where
  pub user_id : ℕ
  pub revoked_at : Option ℕ

pub data ResetError : Type 0 where
  invalid_link expired_link delivery_failed user_not_found user_inactive in_progress : ResetError

-- The activity log, by the action and the user, and the cache entries that are dropped.
pub data Event : Type 0 where
  reset_expired reset_requested reset_completed invalidated_user : ℕ → Event

pub data Result (A : Type 0) : Type 0 where
  ok : A → Result A
  threw : ResetError → Result A

-- SHA-256, the password hash and the time a link lasts are given from outside.
pub record Env : Type 1 where
  pub prisma : Prisma
  pub sha256 : ℕ → ℕ
  pub hash_password : ℕ → ℕ
  pub ttl_ms : ℕ

-- `effectiveStatus`: a pending row past its expiry has expired.
abbrev pub effective_status : ℕ → ResetRequest → ResetStatus
effective_status now r = if is_pending r.status && leb r.expires_at now then expired else r.status

module _ (env : Env) where
  open env use {prisma}

  pub record State : Type 0 where
    pub requests : prisma.Table ResetRequest
    pub users : prisma.Table User
    pub tokens : prisma.Table RefreshToken
    pub events : List Event

  abbrev pub find_user : ℕ → State → Option User
  find_user id s = Prisma.find_first prisma (λ u. u.id == id) s.users

  abbrev pub find_request : ℕ → State → Option ResetRequest
  find_request id s = Prisma.find_first prisma (λ r. r.id == id) s.requests

  abbrev pub find_by_token : ℕ → State → Option ResetRequest
  find_by_token hash s = Prisma.find_first prisma (λ r. r.token_hash == hash) s.requests

  abbrev pub record_event : Event → State → State
  record_event e s = record s { events = s.events ++ e ∷ [] }

  abbrev pub lapse : ResetRequest → ResetRequest
  lapse r = record r { status = expired }

  abbrev pub write_requests : (ResetRequest → Bool) → (ResetRequest → ResetRequest) → State → State
  write_requests p f s = record s { requests = prisma.update_many p f s.requests }

  -- `markExpired`: of callers who see the lapse at once, one records it.
  unfoldable pub mark_expired : ResetRequest → State → State
  mark_expired row s =
      let still = λ (r : ResetRequest). r.id == row.id && is_pending r.status in
      let s' = write_requests still lapse s in
      if Prisma.count prisma still s.requests == 1
      then record_event (reset_expired row.user_id) s'
      else s'

  abbrev pub is_open : User → Bool
  is_open u = not (is_some u.deleted_at) && u.active

  -- `findUsable`, once the row and its user are there.
  unfoldable pub usable_row : ℕ → ResetRequest → User → State → Result ResetRequest × State
  usable_row now row user s =
      if not (is_open user)
      then (threw invalid_link, s)
      else if is_pending row.status && leb row.expires_at now
      then (threw expired_link, mark_expired row s)
      else if is_expired row.status
      then (threw expired_link, s)
      else if not (is_pending row.status)
      then (threw invalid_link, s)
      else (ok row, s)

  unfoldable pub find_usable : ℕ → ℕ → State → Result ResetRequest × State
  find_usable now token s = elim (find_by_token (env.sha256 token) s) [
    | none ↦ (threw invalid_link, s)
    | some row ↦ elim (find_user row.user_id s) [
      | none ↦ (threw invalid_link, s)
      | some user ↦ usable_row now row user s
    ]
  ]

  -- `verify` answers with the expiry.
  abbrev pub verified : Result ResetRequest × State → Result ℕ × State
  verified (ok row, s) = (ok row.expires_at, s)
  verified (threw e, s) = (threw e, s)

  unfoldable pub verify : ℕ → ℕ → State → Result ℕ × State
  verify now token s = verified (find_usable now token s)

  abbrev pub claimable : ℕ → ResetRequest → ResetRequest → Bool
  claimable now row r = r.id == row.id && (is_pending r.status && ltb now r.expires_at)

  abbrev pub spent : ℕ → ResetRequest → ResetRequest
  spent now r = record r { status = completed; completed_at = some now }

  abbrev pub with_password : ℕ → User → User
  with_password hash u = record u { password_hash = hash; token_version = suc u.token_version }

  abbrev pub revoked : ℕ → RefreshToken → RefreshToken
  revoked now t = record t { revoked_at = some now }

  -- The transaction of `complete`: the claim, the password, and the end of every session.
  unfoldable pub spend : ℕ → ResetRequest → ℕ → State → Result (Unit {0}) × State
  spend now row hash s =
      let claimed = Prisma.count prisma (claimable now row) s.requests in
      if not (claimed == 1) then (threw invalid_link, s) else (
        ok tt,
        record s {
          requests = prisma.update_many (claimable now row) (spent now) s.requests;
          users = prisma.update_many (λ u. u.id == row.user_id) (with_password hash) s.users;
          tokens =
              prisma.update_many (λ t. t.user_id == row.user_id && not (is_some t.revoked_at))
                (revoked now) s.tokens;
        },
      )

  abbrev pub completed_events : ResetRequest → Result (Unit {0}) × State → Result (Unit {0}) × State
  completed_events row (threw e, s) = (threw e, s)
  completed_events row (ok u, s) = (
    ok u,
    record_event (reset_completed row.user_id) (record_event (invalidated_user row.user_id) s),
  )

  abbrev pub complete_found : ℕ → ℕ → Result ResetRequest × State → Result (Unit {0}) × State
  complete_found now password (threw e, s) = (threw e, s)
  complete_found now password (ok row, s) =
      completed_events row (spend now row (env.hash_password password) s)

  unfoldable pub complete : ℕ → ℕ → ℕ → State → Result (Unit {0}) × State
  complete now token password s = complete_found now password (find_usable now token s)

  abbrev pub cancel : ℕ → ResetRequest → ResetRequest
  cancel now r = record r { status = cancelled; cancelled_at = some now }

  abbrev pub new_request : ℕ → ℕ → ℕ → ℕ → ℕ → ResetRequest
  new_request now id actor user token = record {
    id = id;
    user_id = user;
    requested_by_id = actor;
    token_hash = env.sha256 token;
    status = pending;
    expires_at = now + env.ttl_ms;
    completed_at = none;
    cancelled_at = none;
  }

  abbrev pub is_pending_of : ℕ → ResetRequest → Bool
  is_pending_of user r = r.user_id == user && is_pending r.status

  -- The transaction of `request`. A second pending row of a user, an id or a token hash that is taken is
  -- refused by the database, which takes the cancelling back.
  unfoldable pub issue : ℕ → ResetRequest → State → Result (Unit {0}) × State
  issue now row s =
      let s' = write_requests (is_pending_of row.user_id) (cancel now) s in
      if is_some (find_request row.id s')
        || is_some (find_by_token row.token_hash s')
        || not (Prisma.count prisma (is_pending_of row.user_id) s'.requests == 0)
      then (threw in_progress, s)
      else (ok tt, record s' { requests = prisma.create row s'.requests })

  -- What comes after the transaction; `mail_sent` is what the mail provider does.
  abbrev pub send_link :
      ℕ → Bool → ResetRequest → Result (Unit {0}) × State → Result ResetRequest × State
  send_link now mail_sent row (threw e, s) = (threw e, s)
  send_link now mail_sent row (ok u, s) =
      if mail_sent then (ok row, record_event (reset_requested row.user_id) s) else (
        threw delivery_failed,
        write_requests (λ r. r.id == row.id && is_pending r.status) (cancel now) s,
      )

  unfoldable pub request : ℕ → ℕ → ℕ → ℕ → Bool → ℕ → State → Result ResetRequest × State
  request now id token actor mail_sent user s =
      elim (Prisma.find_first prisma (λ u. u.id == user && not (is_some u.deleted_at)) s.users) [
        | none ↦ (threw user_not_found, s)
        | some target ↦
            let row = new_request now id actor user token in
            if not target.active
            then (threw user_inactive, s)
            else send_link now mail_sent row (issue now row s)
      ]
