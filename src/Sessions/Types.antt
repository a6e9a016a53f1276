-- ===== src/Sessions/Types.antt =====
-- auth.service.ts and token.service.ts: the data of sessions.
use time_flow_be.Prelude.{ℕ, Option, Bool, true, false}
use time_flow_be.Prisma.{Prisma}
use time_flow_be.SignupOtp.{UserStatus, pending, active, inactive}

pub record RefreshToken : Type 0 where
  pub id : ℕ
  pub user_id : ℕ
  pub token_hash : ℕ
  pub family_id : ℕ
  pub expires_at : ℕ
  pub revoked_at : Option ℕ
  pub replaced_by : Option ℕ
  pub ip_address : Option ℕ
  pub user_agent : Option ℕ

abbrev pub is_active : UserStatus → Bool
is_active pending = false
is_active active = true
is_active inactive = false

pub record User : Type 0 where
  pub id : ℕ
  pub status : UserStatus
  pub deleted_at : Option ℕ
  pub token_version : ℕ

pub record ClientInfo : Type 0 where
  pub ip : Option ℕ
  pub user_agent : Option ℕ

-- What the claims of an access token say; its signature is the library's.
pub record AccessTokenPayload : Type 0 where
  pub sub : ℕ
  pub tv : ℕ

pub record IssuedSession : Type 0 where
  pub access_token : AccessTokenPayload
  pub refresh_token : ℕ
  pub refresh_expires_at : ℕ
  pub refresh_token_id : ℕ
  pub user_id : ℕ

-- What the source draws at random for a new token.
pub record Drawn : Type 0 where
  pub raw : ℕ
  pub id : ℕ

pub data AuthError : Type 0 where
  invalid_token token_revoked token_expired account_inactive unique_violation : AuthError
  session_not_found user_not_found : AuthError

-- The activity log, and the cached identities that are dropped.
pub data Event : Type 0 where
  refresh_token_reused : ℕ → ℕ → Event
  logged_out : ℕ → ℕ → Event
  user_invalidated : ℕ → Event

-- Settings and the hash of tokens.
pub record Env : Type 1 where
  pub prisma : Prisma
  pub sha256 : ℕ → ℕ
  pub refresh_token_ttl_days : ℕ
