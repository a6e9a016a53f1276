-- ===== src/SignIn/Types.antt =====
-- auth.service.ts: the data of a sign-in.
use time_flow_be.Prelude.{ℕ, Option, List, Bool}
use time_flow_be.LoginOtp
use time_flow_be.Sessions
use time_flow_be.Tokens
use time_flow_be.TwoFactor

-- The columns of a user that only a sign-in reads; those of sessions and of two-factor authentication are in
-- their own records, under the same id.
pub record Login : Type 0 where
  pub id : ℕ
  pub email : ℕ
  pub phone : Option (List ℕ)

pub record Account : Type 0 where
  pub login : Login
  pub user : Sessions.User
  pub factor : TwoFactor.User

pub data Identifier : Type 0 where
  by_email : ℕ → Identifier
  by_phone : List ℕ → Identifier

-- The second factor of a sign-in; of a passkey, whether the library verifies its signature.
pub data Factor : Type 0 where
  with_code : List ℕ → Factor
  with_passkey : Bool → Factor

pub data SignInError : Type 0 where
  invalid_credentials account_not_verified account_inactive challenge_expired challenge_invalid :
      SignInError
  invalid_two_factor_code passkey_failed otp_session_invalid : SignInError
  from_factor : TwoFactor.TwoFactorError → SignInError
  from_otp : LoginOtp.OtpError → SignInError
  from_session : Sessions.AuthError → SignInError

pub data Event : Type 0 where
  signed_in : ℕ → Event
  login_failed : Option ℕ → Event
  two_factor_failed : ℕ → Event

-- The services that a sign-in calls, and `LOGIN_OTP_ENABLED`.
pub record Env : Type 1 where
  pub tokens : Tokens.Env
  pub sessions : Sessions.Env
  pub factors : TwoFactor.Env
  pub otp : LoginOtp.Env
  pub login_otp_enabled : Bool

-- What a request draws at random, and who asks.
pub record Request : Type 0 where
  pub client : Sessions.ClientInfo
  pub drawn : Sessions.Drawn
  pub family : ℕ
  pub jti : ℕ
  pub otp_id : ℕ
  pub otp : ℕ
