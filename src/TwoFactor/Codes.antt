-- ===== src/TwoFactor/Codes.antt =====
-- two-factor.service.ts: the state, and the check of a code or a passkey.
use time_flow_be.Prelude.{
  ℕ, ◌+◌, ◌/◌, Option, none, some, is_some, List, [], ◌∷◌, Bool, not, ◌&&◌, ◌==◌, max,
  if◌then◌else◌,
}
use time_flow_be.Prisma
use time_flow_be.Prisma.{Prisma}
use time_flow_be.RateLimiter
use time_flow_be.RateLimiter.{Limiter}
use time_flow_be.Totp
use time_flow_be.Totp.{is_six_digits, verify_totp}
use time_flow_be.TwoFactor.Types.{
  User, RecoveryCode, Passkey, Method, Proof, Result, Env, ◌>>=◌, return, throw,
  normalise_recovery_code, strip_spaces, code_limiter, password_limiter, is_newer, totp, recovery,
  passkey, by_code, by_passkey, nothing, invalid_password, user_not_found, rate_limited, unexpected,
  ok,
}

module _ (env : Env) where
  open env use {prisma}

  pub record State : Type 0 where
    pub users : prisma.Table User
    pub codes : prisma.Table RecoveryCode
    pub passkeys : prisma.Table Passkey
    pub code_budget : RateLimiter.Store env.redis
    pub password_budget : RateLimiter.Store env.redis

  abbrev pub live_user : ℕ → State → Option User
  live_user id s = Prisma.find_first prisma (λ u. u.id == id && not (is_some u.deleted_at)) s.users

  -- `consume`, with the budget that is left; a limiter that fails lets the request through.
  abbrev pub decided : Option RateLimiter.RateLimitDecision → State → Result (Unit {0}) × State
  decided none s = return tt s
  decided (some d) s =
      if d.allowed
      then return tt s
      else throw (rate_limited (max 1 ((d.retry_after_ms + 999) / 1000))) s

  unfoldable pub consume_attempt : ℕ → ℕ → State → Result (Unit {0}) × State
  consume_attempt now user s =
      let (answer, budget) = RateLimiter.consume env.redis code_limiter s.code_budget user now in
      decided answer (record s { code_budget = budget })

  unfoldable pub consume_password : ℕ → ℕ → State → Result (Unit {0}) × State
  consume_password now user s =
      let (answer, budget) =
        RateLimiter.consume env.redis password_limiter s.password_budget user now in
      decided answer (record s { password_budget = budget })

  abbrev pub accepts_step : ℕ → ℕ → User → Bool
  accepts_step user step u = u.id == user && is_newer step u.last_step

  abbrev pub with_step : ℕ → User → User
  with_step step u = record u { last_step = some step }

  -- `acceptTotpStep`, with whether it has.
  unfoldable pub accept_totp_step : ℕ → ℕ → State → Bool × State
  accept_totp_step user step s = (
    Prisma.count prisma (accepts_step user step) s.users == 1,
    record s { users = prisma.update_many (accepts_step user step) (with_step step) s.users },
  )

  abbrev pub password_checked : ℕ → User → State → Result User × State
  password_checked password u s =
      if env.password_matches password u.password_hash then return u s else throw invalid_password s

  unfoldable pub require_password : ℕ → ℕ → ℕ → State → Result User × State
  require_password now user password s = elim (live_user user s) [
    | none ↦ throw user_not_found s
    | some u ↦ (consume_password now user >>= λ _. password_checked password u) s
  ]

  abbrev pub accepted : Bool × State → Result (Option Method) × State
  accepted (won, s) = (ok (if won then some totp else none), s)

  -- What `verifyCode` does about the step that `verifyTotp` has found.
  abbrev pub step_found : ℕ → Totp.Result (Option ℕ) → State → Result (Option Method) × State
  step_found user (Totp.threw) s = throw unexpected s
  step_found user (Totp.returned none) s = return none s
  step_found user (Totp.returned (some step)) s = accepted (accept_totp_step user step s)

  abbrev pub verify_secret : ℕ → ℕ → Option ℕ → List ℕ → State → Result (Option Method) × State
  verify_secret now user none code s = return none s
  verify_secret now user (some stored) code s = elim (env.decrypt_secret stored) [
    | none ↦ return none s
    | some secret ↦ step_found user (verify_totp env.hmac secret code now) s
  ]

  abbrev pub is_unused_code : ℕ → ℕ → RecoveryCode → Bool
  is_unused_code user hash c = c.user_id == user && c.code_hash == hash && not (is_some c.used_at)

  abbrev pub use_code : ℕ → RecoveryCode → RecoveryCode
  use_code now c = record c { used_at = some now }

  unfoldable pub verify_recovery : ℕ → ℕ → List ℕ → State → Result (Option Method) × State
  verify_recovery now user code s =
      let unused = is_unused_code user (env.sha256 (normalise_recovery_code code)) in
      (
        ok (if Prisma.count prisma unused s.codes == 1 then some recovery else none),
        record s { codes = prisma.update_many unused (use_code now) s.codes },
      )

  unfoldable pub check_code : ℕ → ℕ → Option ℕ → List ℕ → State → Result (Option Method) × State
  check_code now user secret code s =
      if is_six_digits code
      then verify_secret now user secret code s
      else verify_recovery now user code s

  -- `verifyCode`, of a user whose secret was read before.
  unfoldable pub verify_code : ℕ → ℕ → Option ℕ → List ℕ → State → Result (Option Method) × State
  verify_code now user secret raw =
      consume_attempt now user >>= λ _. check_code now user secret (strip_spaces raw)

  unfoldable pub verify_proof : ℕ → ℕ → Option ℕ → Proof → State → Result (Option Method) × State
  verify_proof now user secret (by_passkey answer) =
      consume_attempt now user >>= λ _. return (if answer then some passkey else none)
  verify_proof now user secret (by_code []) = return none
  verify_proof now user secret (by_code (c ∷ cs)) = verify_code now user secret (c ∷ cs)
  verify_proof now user secret nothing = return none
