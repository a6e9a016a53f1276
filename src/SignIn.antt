-- ===== src/SignIn.antt =====
-- src/modules/auth/auth.service.ts: login and the steps that follow it. It stands on Tokens, Sessions, TwoFactor and
-- LoginOtp, whose states are parts of its own.
mod Types
mod Accounts
mod SecondFactor
mod Found
mod Challenge
mod Password
mod Tests
use time_flow_be.Prelude.{
  ℕ, ◌+◌, ◌-◌, ◌*◌, ◌/◌, max, Option, none, some, is_some, List, [], ◌∷◌, ◌++◌, Bool, true, false,
  not, ◌&&◌, ◌||◌, ◌==◌, any, if◌then◌else◌, ltb,
}
use time_flow_be.Results.{Result, ok, threw}
use time_flow_be.Prisma
use time_flow_be.Accounts.{digits_of, has_phone, is_empty}
use time_flow_be.LoginOtp
use time_flow_be.OtpDelivery.{OtpChannel}
use time_flow_be.Sessions
use time_flow_be.Sessions.{is_active}
use time_flow_be.SignupOtp.{UserStatus, is_pending}
use time_flow_be.Tokens
use time_flow_be.Tokens.{Purpose, verify, setup, VerifiedChallenge}
use time_flow_be.TwoFactor
pub use time_flow_be.SignIn.Types.{
  Login, Account, Identifier, Factor, SignInError, Event, Env, Request, by_email, by_phone,
  with_code, with_passkey, invalid_credentials, account_not_verified, account_inactive,
  challenge_expired, challenge_invalid, invalid_two_factor_code, passkey_failed,
  otp_session_invalid, from_factor, from_otp, from_session, signed_in, login_failed,
  two_factor_failed,
}
pub use time_flow_be.SignIn.Accounts.{Token, State, Answer, emit, is_live, is_waiting, find_account}
unfoldable pub use time_flow_be.SignIn.Accounts.{load_account, find_id_by_phone}
unfoldable pub use time_flow_be.SignIn.SecondFactor.{
  claim_challenge, is_verify, challenge_user, load_challenge, issued, issue,
  finish_two_factor_login, check_factor, wrong_factor, after_factor, verify_second_factor,
  with_codes, complete_two_factor_setup_login,
}

module _ (env : Env) where
  abbrev pub phone_of : State env → ℕ → Option (List ℕ)
  phone_of s user = elim (load_account env user s) [ none ↦ none | some a ↦ a.login.phone ]

  unfoldable pub verify_login_otp :
      ℕ → Request → ℕ → ℕ → State env → Answer env Sessions.IssuedSession
  verify_login_otp now q id otp s =
      let (r, t) = LoginOtp.verify env.otp now (phone_of s) id otp s.otps in
      let counted = record s { otps = t } in
      elim r [
        | LoginOtp.threw e ↦ (threw (from_otp e), counted)
        | LoginOtp.ok user ↦ elim (load_account env user counted) [
          | none ↦ (threw otp_session_invalid, counted)
          | some a ↦
              if not (is_active a.user.status)
              then (threw otp_session_invalid, counted)
              else issue env now q a.user counted
        ]
      ]

  pub data LoginAnswer : Type 0 where
    session : Sessions.IssuedSession → LoginAnswer
    two_factor_required : Token env → List TwoFactor.Method → LoginAnswer
    two_factor_setup_required : Token env → List ℕ → LoginAnswer
    code_sent : ℕ → List OtpChannel → LoginAnswer

  abbrev pub with_session : Answer env Sessions.IssuedSession → Answer env LoginAnswer
  with_session (threw e, s) = (threw e, s)
  with_session (ok i, s) = (ok (session i), s)

  abbrev pub challenge_for : ℕ → Request → Account → Purpose → Token env
  challenge_for now q a purpose =
      (Tokens.sign_two_factor_challenge env.tokens now q.jti a.user.id a.user.token_version
        purpose).0

  abbrev pub pending_setup : Account → Option (List ℕ)
  pending_setup a =
      if a.factor.enabled then none else TwoFactor.decrypted env.factors a.factor.pending_secret

  abbrev pub code_started :
      ℕ
      → LoginOtp.Result (List OtpChannel) × LoginOtp.Table env.otp
      → State env
      → Answer env LoginAnswer
  code_started id (LoginOtp.threw e, t) s = (threw (from_otp e), record s { otps = t })
  code_started id (LoginOtp.ok channels, t) s = (ok (code_sent id channels), record s { otps = t })

  -- What is left of `login` where no second factor is on.
  abbrev pub single_factor :
      ℕ → Request → (OtpChannel → Bool) → Account → State env → Answer env LoginAnswer
  single_factor now q accepts a s =
      if env.login_otp_enabled
      then code_started q.otp_id
          (LoginOtp.start env.otp now q.otp_id q.otp accepts
            (record { id = a.login.id; phone = a.login.phone }) s.otps)
          s
      else with_session (issue env now q a.user s)

  -- An authenticator app that waits to be confirmed comes first.
  abbrev pub after_setup :
      ℕ
      → Request
      → (OtpChannel → Bool)
      → Account
      → State env
      → Option (List ℕ)
      → Answer env LoginAnswer
  after_setup now q accepts a s (some secret) =
      (ok (two_factor_setup_required (challenge_for now q a setup) secret), s)
  after_setup now q accepts a s none = single_factor now q accepts a s

  abbrev pub password_right : ℕ → Account → Bool
  password_right password a = env.factors.password_matches password a.factor.password_hash

  -- The password has been compared; `methods` and the secret of a pending setup go to the client.
  abbrev pub admitted :
      ℕ → Request → (OtpChannel → Bool) → Account → State env → Answer env LoginAnswer
  admitted now q accepts a s =
      if is_pending a.user.status
      then (threw account_not_verified, s)
      else if not (is_active a.user.status)
      then (threw account_inactive, s)
      else if a.factor.enabled
      then (
        ok (
            two_factor_required (challenge_for now q a verify)
              (TwoFactor.methods env.factors a.user.id a.factor.secret s.factors)),
        s,
      )
      else after_setup now q accepts a s (pending_setup a)

  unfoldable pub login :
      ℕ → Request → (OtpChannel → Bool) → Identifier → ℕ → State env → Answer env LoginAnswer
  login now q accepts identifier password s = elim (find_account env identifier s) [
    | none ↦ (threw invalid_credentials, emit env (login_failed none) s)
    | some a ↦
        if not (password_right password a)
        then (threw invalid_credentials, emit env (login_failed (some a.user.id)) s)
        else admitted now q accepts a s
  ]
