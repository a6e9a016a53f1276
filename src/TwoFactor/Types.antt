-- ===== src/TwoFactor/Types.antt =====
-- two-factor.service.ts: its data, its settings and calls that may throw.
use time_flow_be.Prelude.{
  ℕ, ◌+◌, Option, none, some, List, Bool, true, not, ◌&&◌, ◌||◌, ◌==◌, ltb, leb, if◌then◌else◌,
  filter, map,
}
use time_flow_be.Prisma.{Prisma}
use time_flow_be.Redis.{SortedSet}
use time_flow_be.RateLimiter.{Limiter}
use time_flow_be.OtpDelivery.{is_space}

-- The part of the model User that two-factor authentication reads and writes.
pub record User : Type 0 where
  pub id : ℕ
  pub deleted_at : Option ℕ
  pub password_hash : ℕ
  pub enabled : Bool
  pub enabled_at : Option ℕ
  pub secret : Option ℕ
  pub pending_secret : Option ℕ
  pub last_step : Option ℕ

pub record RecoveryCode : Type 0 where
  pub user_id : ℕ
  pub code_hash : ℕ
  pub used_at : Option ℕ

pub record Passkey : Type 0 where
  pub id : ℕ
  pub user_id : ℕ

pub data Method : Type 0 where
  totp recovery passkey : Method

-- Of a passkey, the proof holds what the verifier answers.
pub data Proof : Type 0 where
  by_code : List ℕ → Proof
  by_passkey : Bool → Proof
  nothing : Proof

pub data TwoFactorError : Type 0 where
  invalid_code invalid_password not_enabled already_enabled setup_required user_not_found
        passkey_not_found passkey_failed totp_not_enabled :
      TwoFactorError
  rate_limited : ℕ → TwoFactorError
  -- What verifyTotp throws on a stored secret that is no base32 text.
  unexpected : TwoFactorError

pub data Result (A : Type 0) : Type 0 where
  ok : A → Result A
  threw : TwoFactorError → Result A

-- HMAC-SHA1, AES and the hashes are given from outside.
pub record Env : Type 1 where
  pub prisma : Prisma
  pub redis : SortedSet
  pub hmac : List ℕ → List ℕ → List ℕ
  pub encrypt_secret : List ℕ → ℕ
  pub decrypt_secret : ℕ → Option (List ℕ)
  pub sha256 : List ℕ → ℕ
  pub password_matches : ℕ → ℕ → Bool

module _ {S A B : Type 0} where
  infixl 5 ◌>>=◌
  abbrev pub then_do : Result A × S → (A → S → Result B × S) → Result B × S
  then_do (ok a, s) f = f a s
  then_do (threw e, s) f = (threw e, s)

  abbrev pub ◌>>=◌ : (S → Result A × S) → (A → S → Result B × S) → S → Result B × S
  ◌>>=◌ m f s = then_do (m s) f

abbrev pub return : {S A : Type 0} → A → S → Result A × S
return a s = (ok a, s)

abbrev pub throw : {S A : Type 0} → TwoFactorError → S → Result A × S
throw e s = (threw e, s)

abbrev pub lower : ℕ → ℕ
lower c = if leb b'A' c && leb c b'Z' then c + 32 else c

-- `code.toLowerCase().replace(/[\s-]/g, '')`
abbrev pub normalise_recovery_code : List ℕ → List ℕ
normalise_recovery_code code = filter (λ c. not (is_space c || c == b'-')) (map lower code)

abbrev pub strip_spaces : List ℕ → List ℕ
strip_spaces code = filter (λ c. not (is_space c)) code

abbrev pub code_limiter : Limiter
code_limiter = record { limit = 5; window_ms = 300000 }

abbrev pub password_limiter : Limiter
password_limiter = record { limit = 10; window_ms = 900000 }

abbrev pub is_newer : ℕ → Option ℕ → Bool
is_newer step none = true
is_newer step (some last) = ltb last step
