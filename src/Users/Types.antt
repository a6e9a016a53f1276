-- ===== src/Users/Types.antt =====
-- user.service.ts and user.schemas.ts: the data of requests about users.
use time_flow_be.Prelude.{ℕ, Option, none, some, [], ◌∷◌, Bool, true, false, not, ◌==◌}
use time_flow_be.Prisma.{Prisma}
use time_flow_be.SignupOtp.{UserStatus}
use time_flow_be.Accounts.{Text, same_text}

pub record Env : Type 1 where
  pub prisma : Prisma
  pub hash_password : ℕ → ℕ

pub record Role : Type 0 where
  pub id : ℕ
  pub name : ℕ

pub data UserError : Type 0 where
  user_not_found role_not_found forbidden own_role own_account email_exists phone_exists : UserError
  unique_violation two_factor_not_enabled : UserError

-- The activity log, the caches that are dropped, the mail, and the call of the two-factor service.
pub data Event : Type 0 where
  user_created user_status_changed user_role_changed user_updated user_deleted user_2fa_reset :
      ℕ → Event
  two_factor_cleared user_invalidated welcome_email : ℕ → Event
  invalidated : Event

pub record CreateUserInput : Type 0 where
  pub first_name : Text
  pub last_name : Text
  pub email : Text
  pub phone : Option Text
  pub password : ℕ
  pub role_id : ℕ
  pub status : UserStatus
  pub avatar_url : Option Text

-- `none` is a field that the client has left out; `some none` is null.
pub record UpdateUserInput : Type 0 where
  pub first_name : Option Text
  pub last_name : Option Text
  pub email : Option Text
  pub phone : Option (Option Text)
  pub password : Option ℕ
  pub role_id : Option ℕ
  pub status : Option UserStatus
  pub avatar_url : Option (Option Text)

abbrev pub status_number : UserStatus → ℕ
status_number UserStatus.pending = 0
status_number UserStatus.active = 1
status_number UserStatus.inactive = 2

abbrev pub same_status : UserStatus → UserStatus → Bool
same_status a b = status_number a == status_number b

-- `input[key] !== undefined && input[key] !== target[key]`
abbrev pub differs : Option Text → Text → Bool
differs none before = false
differs (some t) before = not (same_text t before)

abbrev pub same_or_null : Option Text → Option Text → Bool
same_or_null none none = true
same_or_null none (some b) = false
same_or_null (some a) none = false
same_or_null (some a) (some b) = same_text a b

abbrev pub differs_or_null : Option (Option Text) → Option Text → Bool
differs_or_null none before = false
differs_or_null (some t) before = not (same_or_null t before)

-- A text that is neither null nor empty.
abbrev pub is_given : Option Text → Bool
is_given none = false
is_given (some []) = false
is_given (some (c ∷ cs)) = true
