-- ===== src/TwoFactor.antt =====
-- src/modules/auth/two-factor.service.ts: authenticator codes, recovery codes and passkeys. Ids, hashes and
-- encrypted secrets are numbers; codes and secrets are lists of code points.
mod Types
mod Codes
mod Replay
mod Shown
mod Others
mod Removal
mod Tests
use mathlib.Core.Option
use time_flow_be.Prelude.{
  ℕ, ◌+◌, ◌/◌, Option, none, some, is_some, List, [], ◌∷◌, ◌++◌, Bool, true, false, not, ◌&&◌, ◌||◌,
  ◌==◌, ltb, leb, max, if◌then◌else◌, filter, map,
}
use time_flow_be.Prisma
use time_flow_be.Prisma.{Prisma}
use time_flow_be.Redis.{SortedSet}
use time_flow_be.RateLimiter
use time_flow_be.RateLimiter.{Limiter}
use time_flow_be.Totp
use time_flow_be.Totp.{is_six_digits, verify_totp}
use time_flow_be.OtpDelivery.{is_space}
pub use time_flow_be.TwoFactor.Types.{
  User, RecoveryCode, Passkey, Method, Proof, TwoFactorError, Result, Env, then_do, ◌>>=◌, return,
  throw, lower, normalise_recovery_code, strip_spaces, code_limiter, password_limiter, is_newer,
  totp, recovery, passkey, by_code, by_passkey, nothing, invalid_code, invalid_password,
  not_enabled, already_enabled, setup_required, user_not_found, passkey_not_found, passkey_failed,
  totp_not_enabled, rate_limited, unexpected, ok, threw,
}
pub use time_flow_be.TwoFactor.Codes.{
  decided, step_found, verify_secret, accepted, State, live_user, accepts_step, with_step,
  password_checked, is_unused_code, use_code,
}
unfoldable pub use time_flow_be.TwoFactor.Codes.{
  consume_attempt, consume_password, accept_totp_step, require_password, verify_recovery,
  check_code, verify_code, verify_proof,
}

module _ (env : Env) where
  open env use {prisma}

  abbrev pub passkey_count : ℕ → State env → ℕ
  passkey_count user s = Prisma.count prisma (λ p. p.user_id == user) s.passkeys

  unfoldable pub methods : ℕ → Option ℕ → State env → List Method
  methods user secret s =
      (if is_some secret then totp ∷ [] else [])
      ++ (if passkey_count user s == 0 then [] else passkey ∷ [])
      ++ recovery ∷ []

  abbrev pub write_user : ℕ → (User → User) → State env → State env
  write_user user f s = record s { users = prisma.update_many (λ u. u.id == user) f s.users }

  abbrev pub insert_codes :
      List RecoveryCode → prisma.Table RecoveryCode → prisma.Table RecoveryCode
  insert_codes [] t = t
  insert_codes (c ∷ cs) t = prisma.create c (insert_codes cs t)

  abbrev pub code_rows : ℕ → List (List ℕ) → List RecoveryCode
  code_rows user codes =
      map
        (λ c. record {
          user_id = user;
          code_hash = env.sha256 (normalise_recovery_code c);
          used_at = none;
        })
        codes

  -- Every recovery code is replaced.
  abbrev pub replace_codes : ℕ → List (List ℕ) → State env → State env
  replace_codes user codes s = record s {
    codes =
        insert_codes (code_rows user codes) (prisma.delete_many (λ c. c.user_id == user) s.codes);
  }

  -- `setup`; `fresh` is the secret that is made up where there is none.
  abbrev pub park : ℕ → List ℕ → Option (List ℕ) → State env → Result (List ℕ) × State env
  park user fresh (some secret) s = return secret s
  park user fresh none s =
      return fresh
        (write_user user (λ u. record u { pending_secret = some (env.encrypt_secret fresh) }) s)

  abbrev pub decrypted : Option ℕ → Option (List ℕ)
  decrypted none = none
  decrypted (some stored) = env.decrypt_secret stored

  unfoldable pub setup : ℕ → ℕ → ℕ → List ℕ → State env → Result (List ℕ) × State env
  setup now user password fresh = require_password env now user password >>= λ u s.
      if is_some u.secret
      then throw already_enabled s
      else park user fresh (decrypted u.pending_secret) s

  unfoldable pub cancel_setup : ℕ → State env → State env
  cancel_setup user s = record s {
    users =
        prisma.update_many (λ u. u.id == user && not (is_some u.secret))
          (λ u. record u { pending_secret = none }) s.users;
  }

  -- The rows that `enable` writes, with the recovery codes where they are new.
  abbrev pub turn_on :
      ℕ → ℕ → User → ℕ → List (List ℕ) → State env → Result (Option (List (List ℕ))) × State env
  turn_on now user u step codes s =
      let confirmed = λ (x : User). record x {
        secret = u.pending_secret;
        pending_secret = none;
        last_step = some step;
      } in
      if u.enabled
      then return none (write_user user confirmed s)
      else return (some codes) (
          replace_codes user codes (
            write_user user (λ x. record (confirmed x) { enabled = true; enabled_at = some now })
              s))

  abbrev pub confirm :
      ℕ
      → ℕ
      → User
      → Totp.Result (Option ℕ)
      → List (List ℕ)
      → State env
      → Result (Option (List (List ℕ))) × State env
  confirm now user u (Totp.threw) codes s = throw unexpected s
  confirm now user u (Totp.returned none) codes s = throw invalid_code s
  confirm now user u (Totp.returned (some step)) codes s = turn_on now user u step codes s

  unfoldable pub enable :
      ℕ → ℕ → List ℕ → List (List ℕ) → State env → Result (Option (List (List ℕ))) × State env
  enable now user raw codes s = elim (live_user env user s) [
    | none ↦ throw user_not_found s
    | some u ↦
        if is_some u.secret then throw already_enabled s else elim (decrypted u.pending_secret) [
          | none ↦ throw setup_required s
          | some secret ↦
              (consume_attempt env now user >>= λ _.
              confirm now user u (verify_totp env.hmac secret (strip_spaces raw) now) codes)
                s
        ]
  ]

  abbrev pub switched_off : User → User
  switched_off u = record u {
    enabled = false;
    enabled_at = none;
    secret = none;
    pending_secret = none;
    last_step = none;
  }

  unfoldable pub clear : ℕ → State env → State env
  clear user s = record s {
    users = prisma.update_many (λ u. u.id == user) switched_off s.users;
    codes = prisma.delete_many (λ c. c.user_id == user) s.codes;
    passkeys = prisma.delete_many (λ p. p.user_id == user) s.passkeys;
  }

  -- `removePasskey` answers whether two-factor authentication is still on.
  unfoldable pub remove_passkey : ℕ → ℕ → ℕ → ℕ → State env → Result Bool × State env
  remove_passkey now user key password = require_password env now user password >>= λ u s.
      let own = λ (p : Passkey). p.id == key && p.user_id == user in
      let s' = record s { passkeys = prisma.delete_many own s.passkeys } in
      if Prisma.count prisma own s.passkeys == 0
      then throw passkey_not_found s'
      else if not (is_some u.secret) && passkey_count user s' == 0
      then return false (clear user s')
      else return true s'

  abbrev pub without_totp : User → User
  without_totp u = record u { secret = none; pending_secret = none; last_step = none }

  unfoldable pub remove_totp : ℕ → ℕ → ℕ → State env → Result Bool × State env
  remove_totp now user password = require_password env now user password >>= λ u s.
      if not (is_some u.secret)
      then throw totp_not_enabled s
      else if passkey_count user s == 0
      then return false (clear user s)
      else return true (write_user user without_totp s)

  -- The error of a proof that fails.
  abbrev pub failed : Proof → TwoFactorError
  failed (by_passkey answer) = passkey_failed
  failed (by_code code) = invalid_code
  failed nothing = invalid_code

  abbrev pub disable_proved : ℕ → Proof → Option Method → State env → Result (Unit {0}) × State env
  disable_proved user proof none s = throw (failed proof) s
  disable_proved user proof (some method) s = return tt (clear user s)

  abbrev pub disable_checked : ℕ → ℕ → Proof → User → State env → Result (Unit {0}) × State env
  disable_checked now user proof u s =
      if not u.enabled
      then throw not_enabled s
      else (verify_proof env now user u.secret proof >>= disable_proved user proof) s

  unfoldable pub disable : ℕ → ℕ → ℕ → Proof → State env → Result (Unit {0}) × State env
  disable now user password proof =
      require_password env now user password >>= disable_checked now user proof

  unfoldable pub regenerate_recovery_codes :
      ℕ → ℕ → Proof → List (List ℕ) → State env → Result (List (List ℕ)) × State env
  regenerate_recovery_codes now user proof codes s = elim (live_user env user s) [
    | none ↦ throw user_not_found s
    | some u ↦
        if not u.enabled
        then throw not_enabled s
        else (verify_proof env now user u.secret proof >>= λ method s'.
              if is_some method
              then return codes (replace_codes user codes s')
              else throw (failed proof) s')
            s
  ]
