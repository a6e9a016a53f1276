-- ===== src/TwoFactor/Tests.antt =====
-- Two-factor authentication over listed tables, and the theorems at those inputs.
use time_flow_be.Prelude.{ℕ, ◌≡◌, refl, none, some, List, [], ◌∷◌, true, ◌==◌}
use time_flow_be.Prisma
use time_flow_be.Redis
use time_flow_be.RateLimiter.{absent, live, trim, run_script, put, consume}
use time_flow_be.TwoFactor.{
  User, recovery, by_code, invalid_password, ok, threw, Env, State, consume_attempt,
  consume_password, accept_totp_step, require_password, verify_recovery, check_code, verify_code,
  verify_proof, clear, disable, remove_totp,
}
use time_flow_be.TwoFactor.Replay.{
  Increasing, find_user, last_step, accepted_steps, accepted_steps-Increasing, verify_recovery-once,
}
use time_flow_be.TwoFactor.Others.{OthersSame}
use time_flow_be.TwoFactor.Removal.{Cleared, MayDisable, disable_sound}
use time_flow_be.Totp.{is_six_digits}

abbrev env : Env
env = record {
  prisma = Prisma.listed;
  redis = Redis.listed;
  hmac = λ k m. [];
  encrypt_secret = λ s. 0;
  decrypt_secret = λ n. none;
  sha256 = λ code. elim code [ [] ↦ 0 | c ∷ cs ↦ c ];
  password_matches = λ p h. p == h;
}

two_factor : Unit {0}
unfolding Prisma.listed Redis.listed absent live trim run_script put consume consume_attempt
    consume_password accept_totp_step require_password verify_recovery check_code verify_code
    verify_proof clear disable remove_totp accepted_steps is_six_digits
two_factor = tt

-- User 3 has the recovery code "k2".
abbrev member : User
member = record {
  id = 3;
  deleted_at = none;
  password_hash = 77;
  enabled = true;
  enabled_at = some 10;
  secret = some 5;
  pending_secret = none;
  last_step = some 100;
}

abbrev enrolled : State env
unfolding two_factor
enrolled = record {
  users = member ∷ [];
  codes = record { user_id = 3; code_hash = b'k'; used_at = none } ∷ [];
  passkeys = [];
  code_budget = λ _. absent Redis.listed;
  password_budget = λ _. absent Redis.listed;
}

abbrev code : List ℕ
code = b'k' ∷ b'2' ∷ []

steps_kept : accepted_steps env 3 (101 ∷ 101 ∷ 99 ∷ 103 ∷ []) enrolled ≡ 101 ∷ 103 ∷ []
unfolding two_factor
steps_kept = refl

recovered : (verify_code env 5000 3 (some 5) code enrolled).0 ≡ ok (some recovery)
unfolding two_factor
recovered = refl

wrong_password : (disable env 5000 3 78 (by_code code) enrolled).0 ≡ threw invalid_password
unfolding two_factor
wrong_password = refl

accepted_steps-Increasing_example :
    Increasing
      (last_step env (find_user env 3 enrolled))
      (accepted_steps env 3 (101 ∷ 101 ∷ 99 ∷ 103 ∷ []) enrolled)
unfolding two_factor
accepted_steps-Increasing_example =
    accepted_steps-Increasing env 3 (101 ∷ 101 ∷ 99 ∷ 103 ∷ []) enrolled (refl, tt)

verify_recovery-once_example :
    (verify_recovery env 6000 3
      (b'K' ∷ b'-' ∷ b'2' ∷ [])
      (verify_recovery env 5000 3 code enrolled).1).0
    ≡ ok none
verify_recovery-once_example =
    verify_recovery-once env 5000 6000 3 code (b'K' ∷ b'-' ∷ b'2' ∷ []) enrolled refl

disable_sound_example :
    MayDisable env 5000 3 77 (by_code code) enrolled
    × Cleared env 3 (disable env 5000 3 77 (by_code code) enrolled).1
    × OthersSame env 3 enrolled (disable env 5000 3 77 (by_code code) enrolled).1
unfolding two_factor
disable_sound_example = disable_sound env 5000 3 77 (by_code code) enrolled refl
