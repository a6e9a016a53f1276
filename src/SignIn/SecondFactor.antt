-- ===== src/SignIn/SecondFactor.antt =====
-- auth.service.ts: a challenge and a second factor are exchanged for a session.
use time_flow_be.Prelude.{
  ℕ, ◌+◌, ◌-◌, ◌*◌, ◌/◌, max, Option, none, some, is_some, List, [], ◌∷◌, Bool, true, false, not,
  ◌&&◌, ◌==◌, any, if◌then◌else◌, ltb,
}
use time_flow_be.Results.{Result, ok, threw}
use time_flow_be.Sessions
use time_flow_be.Sessions.{is_active}
use time_flow_be.Tokens
use time_flow_be.Tokens.{Purpose, verify, setup, VerifiedChallenge}
use time_flow_be.TwoFactor
use time_flow_be.SignIn.Types.{
  Account, Factor, SignInError, Env, Request, with_code, with_passkey, account_inactive,
  challenge_expired, challenge_invalid, invalid_two_factor_code, passkey_failed, from_factor,
  from_session, signed_in, two_factor_failed,
}
use time_flow_be.SignIn.Accounts.{Token, State, Answer, emit, load_account}

module _ (env : Env) where
  -- `SET … EX ttl NX`; a store that is down lets the request through.
  unfoldable pub claim_challenge : Bool → ℕ → ℕ → ℕ → State env → Bool × State env
  claim_challenge up now jti exp s =
      let ttl_seconds = max 1 (exp - now / 1000) in
      if not up
      then (true, s)
      else if any (λ (k, until). k == jti && ltb now until) s.spent
      then (false, s)
      else (true, record s { spent = (jti, now + ttl_seconds * 1000) ∷ s.spent })

  abbrev pub is_verify : Purpose → Bool
  is_verify verify = true
  is_verify setup = false

  abbrev pub challenge_user :
      Purpose
      → VerifiedChallenge
      → Option Account
      → Result SignInError (VerifiedChallenge × Account)
  challenge_user purpose c none = threw challenge_invalid
  challenge_user purpose c (some a) =
      if not (a.user.token_version == c.tv)
      then threw challenge_invalid
      else if is_verify purpose && not a.factor.enabled
      then threw challenge_invalid
      else if not (is_active a.user.status)
      then threw account_inactive
      else ok (c, a)

  unfoldable pub load_challenge :
      ℕ → Token env → Purpose → State env → Result SignInError (VerifiedChallenge × Account)
  load_challenge now token purpose s =
      elim (Tokens.verify_two_factor_challenge env.tokens now token purpose) [
        | Tokens.expired ↦ threw challenge_expired
        | Tokens.invalid ↦ threw challenge_invalid
        | Tokens.accepted c ↦ challenge_user purpose c (load_account env c.sub s)
      ]

  -- `issueSession` and `lastLoginAt`.
  abbrev pub issued :
      ℕ
      → Sessions.Answer env.sessions Sessions.IssuedSession
      → State env
      → Answer env Sessions.IssuedSession
  issued user (threw e, t) s = (threw (from_session e), record s { sessions = t })
  issued user (ok session, t) s =
      (ok session, emit env (signed_in user) (record s { sessions = t }))

  abbrev pub issue : ℕ → Request → Sessions.User → State env → Answer env Sessions.IssuedSession
  issue now q user s =
      issued user.id
        (Sessions.issue_session env.sessions now user q.client q.family q.drawn s.sessions) s

  unfoldable pub finish_two_factor_login :
      Bool
      → ℕ
      → Request
      → VerifiedChallenge
      → Account
      → State env
      → Answer env Sessions.IssuedSession
  finish_two_factor_login up now q c a s =
      let (won, claimed) = claim_challenge up now c.jti c.exp s in
      if not won then (threw challenge_invalid, claimed) else issue now q a.user claimed

  -- `verifyCode` or the signature of a passkey.
  abbrev pub check_factor :
      ℕ → Account → Factor → State env → TwoFactor.Result Bool × TwoFactor.State env.factors
  check_factor now a (with_code code) s =
      let (r, t) = TwoFactor.verify_code env.factors now a.user.id a.factor.secret code s.factors in
      elim r [
        | TwoFactor.threw e ↦ (TwoFactor.threw e, t)
        | TwoFactor.ok method ↦ (TwoFactor.ok (is_some method), t)
      ]
  check_factor now a (with_passkey good) s =
      let (r, t) = TwoFactor.consume_attempt env.factors now a.user.id s.factors in
      elim r [
        | TwoFactor.threw e ↦ (TwoFactor.threw e, t)
        | TwoFactor.ok _ ↦ (TwoFactor.ok good, t)
      ]

  abbrev pub wrong_factor : Factor → SignInError
  wrong_factor (with_code code) = invalid_two_factor_code
  wrong_factor (with_passkey good) = passkey_failed

  -- What follows the check of the factor; a wrong one is recorded.
  abbrev pub after_factor :
      Bool
      → ℕ
      → Request
      → VerifiedChallenge
      → Account
      → Factor
      → TwoFactor.Result Bool × TwoFactor.State env.factors
      → State env
      → Answer env Sessions.IssuedSession
  after_factor up now q c a factor (TwoFactor.threw e, t) s =
      (threw (from_factor e), record s { factors = t })
  after_factor up now q c a factor (TwoFactor.ok false, t) s = (
    threw (wrong_factor factor),
    emit env (two_factor_failed a.user.id) (record s { factors = t }),
  )
  after_factor up now q c a factor (TwoFactor.ok true, t) s =
      finish_two_factor_login up now q c a (record s { factors = t })

  -- `verifyTwoFactorLogin` and `verifyPasskeyLogin`.
  unfoldable pub verify_second_factor :
      Bool → ℕ → Request → Token env → Factor → State env → Answer env Sessions.IssuedSession
  verify_second_factor up now q token factor s = elim (load_challenge now token verify s) [
    | threw e ↦ (threw e, s)
    | ok (c, a) ↦ after_factor up now q c a factor (check_factor now a factor s) s
  ]

  -- `{ ...session, recoveryCodes: recoveryCodes ?? [] }`
  abbrev pub with_codes :
      Option (List (List ℕ))
      → Answer env Sessions.IssuedSession
      → Answer env (Sessions.IssuedSession × List (List ℕ))
  with_codes codes (threw e, s) = (threw e, s)
  with_codes none (ok session, s) = (ok (session, []), s)
  with_codes (some codes) (ok session, s) = (ok (session, codes), s)

  -- `drawn` are the recovery codes that are generated.
  unfoldable pub complete_two_factor_setup_login :
      Bool
      → ℕ
      → Request
      → Token env
      → List ℕ
      → List (List ℕ)
      → State env
      → Answer env (Sessions.IssuedSession × List (List ℕ))
  complete_two_factor_setup_login up now q token code drawn s =
      elim (load_challenge now token setup s) [
        | threw e ↦ (threw e, s)
        | ok (c, a) ↦
            let (r, t) = TwoFactor.enable env.factors now a.user.id code drawn s.factors in
            let enrolled = record s { factors = t } in
            if a.factor.enabled then (threw challenge_invalid, s) else elim r [
              | TwoFactor.threw e ↦ (threw (from_factor e), enrolled)
              | TwoFactor.ok codes ↦
                  with_codes codes (finish_two_factor_login up now q c a enrolled)
            ]
      ]
