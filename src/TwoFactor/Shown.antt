-- ===== src/TwoFactor/Shown.antt =====
-- two-factor.service.ts: what it takes for a proof of a second factor to be accepted.
use time_flow_be.Prelude.{
  ℕ, ◌≡◌, refl, sym, subst, ap, ◌∙◌, inl, inr, Option, none, some, is_some, List, [], ◌∷◌, Bool,
  true, false, not, ◌&&◌, ◌==◌, if◌then◌else◌, arith, Bool-cases, Option-cases,
}
use time_flow_be.Prisma
use time_flow_be.Prisma.{Prisma}
use time_flow_be.RateLimiter
use time_flow_be.Totp
use time_flow_be.Totp.{verify_totp, is_six_digits}
use time_flow_be.TwoFactor.{
  User, RecoveryCode, Method, totp, recovery, passkey, Proof, by_code, by_passkey, nothing, Result,
  ok, threw, then_do, Env, State, is_newer, strip_spaces, normalise_recovery_code, decided,
  consume_attempt, consume_password, accepted, accept_totp_step, step_found, verify_secret,
  verify_recovery, check_code, verify_code, verify_proof, code_limiter, password_limiter,
}

module _ (env : Env) where
  open env use {prisma}

  -- A factor is shown to tables of users and recovery codes: a passkey that the verifier accepts; a code of the
  -- authenticator app for a step that is later than the last one of the user; or a recovery code, not used yet.
  pub Shown :
      (now user : ℕ)
      → Option ℕ
      → Proof
      → prisma.Table User
      → prisma.Table RecoveryCode
      → Method
      → Type 0
  Shown now user secret proof users codes passkey = proof ≡ by_passkey true
  Shown now user secret proof users codes totp =
      (code : List ℕ) × (proof ≡ by_code code)
      × (stored : ℕ) × (secret ≡ some stored)
      × (key : List ℕ) × (env.decrypt_secret stored ≡ some key)
      × (step : ℕ) × (verify_totp env.hmac key (strip_spaces code) now ≡ Totp.returned (some step))
      × (Prisma.count prisma (λ u. u.id == user && is_newer step u.last_step) users ≡ 1)
  Shown now user secret proof users codes recovery =
      (code : List ℕ) × (proof ≡ by_code code)
      × (Prisma.count prisma
            (λ c.
              c.user_id == user
              && c.code_hash == env.sha256 (normalise_recovery_code (strip_spaces code))
              && not (is_some c.used_at))
            codes
          ≡ 1)

  pub decided-same :
      (answer : Option RateLimiter.RateLimitDecision) (s : State env) → (decided env answer s).1 ≡ s
  decided-same none s = refl
  decided-same (some d) s = elim (Bool-cases d.allowed) [
    | inl allowed ↦ rw allowed refl
    | inr refused ↦ rw refused refl
  ]

  consume_attempt-same :
      (now user : ℕ) (s : State env)
      → ((consume_attempt env now user s).1.users ≡ s.users)
        × ((consume_attempt env now user s).1.codes ≡ s.codes)
  unfolding consume_attempt
  consume_attempt-same now user s =
      let (answer, budget) = RateLimiter.consume env.redis code_limiter s.code_budget user now in
      let same = decided-same answer (record s { code_budget = budget }) in
      (ap (λ x. x.users) same, ap (λ x. x.codes) same)

  pub consume_password-same :
      (now user : ℕ) (s : State env)
      → ((consume_password env now user s).1.users ≡ s.users)
        × ((consume_password env now user s).1.codes ≡ s.codes)
  unfolding consume_password
  consume_password-same now user s =
      let (answer, budget) =
        RateLimiter.consume env.redis password_limiter s.password_budget user now in
      let same = decided-same answer (record s { password_budget = budget }) in
      (ap (λ x. x.users) same, ap (λ x. x.codes) same)

  accepted-totp :
      (won : Bool) (t : State env) (m : Method)
      → (accepted env (won, t)).0 ≡ ok (some m)
      → (won ≡ true) × (totp ≡ m)
  accepted-totp true t m e = (refl, cc)
  accepted-totp false t m e = absurd (cc)

  step_found-totp :
      (user : ℕ) (r : Totp.Result (Option ℕ)) (t : State env) (m : Method)
      → (step_found env user r t).0 ≡ ok (some m)
      → (totp ≡ m)
        × (step : ℕ) × (r ≡ Totp.returned (some step))
        × (Prisma.count prisma (λ u. u.id == user && is_newer step u.last_step) t.users ≡ 1)
  unfolding accept_totp_step
  step_found-totp user (Totp.threw) t m e = absurd (cc)
  step_found-totp user (Totp.returned none) t m e = absurd (cc)
  step_found-totp user (Totp.returned (some step)) t m e =
      let (won, same) =
        accepted-totp (accept_totp_step env user step t).0 (accept_totp_step env user step t).1 m
          e in
      (same, step, refl, ground (arith, won))

  verify_secret-Shown :
      (now user : ℕ) (secret : Option ℕ) (code : List ℕ) (t : State env) (m : Method)
      → (verify_secret env now user secret (strip_spaces code) t).0 ≡ ok (some m)
      → Shown now user secret (by_code code) t.users t.codes m
  unfolding Shown
  verify_secret-Shown now user none code t m e = absurd (cc)
  verify_secret-Shown now user (some stored) code t m e =
      elim (Option-cases (env.decrypt_secret stored)) [
        | inl lost ↦
            let refused : (verify_secret env now user (some stored) (strip_spaces code) t).0
                ≡ ok none =
              rw (verify_secret, lost) refl in
            absurd (cc)
        | inr (key, there) ↦
            let r = verify_totp env.hmac key (strip_spaces code) now in
            let run : verify_secret env now user (some stored) (strip_spaces code) t
                ≡ step_found env user r t =
              rw (verify_secret, there) refl in
            let (same, step, found, newer) =
              step_found-totp user r t m (sym (ap (λ x. x.0) run) ∙ e) in
            subst (Shown now user (some stored) (by_code code) t.users t.codes) same
              (code, refl, stored, refl, key, there, step, found, newer)
      ]

  verify_recovery-Shown :
      (now user : ℕ) (secret : Option ℕ) (code : List ℕ) (t : State env) (m : Method)
      → (verify_recovery env now user (strip_spaces code) t).0 ≡ ok (some m)
      → Shown now user secret (by_code code) t.users t.codes m
  unfolding verify_recovery Shown
  verify_recovery-Shown now user secret code t m e =
      let unused = λ (c : RecoveryCode).
        c.user_id == user
        && c.code_hash == env.sha256 (normalise_recovery_code (strip_spaces code))
        && not (is_some c.used_at) in
      elim (Bool-cases (Prisma.count prisma unused t.codes == 1)) [
        | inr miss ↦
            let refused : (verify_recovery env now user (strip_spaces code) t).0 ≡ ok none =
              rw (verify_recovery, miss) refl in
            absurd (cc)
        | inl hit ↦
            let found : (verify_recovery env now user (strip_spaces code) t).0
                ≡ ok (some recovery) =
              rw (verify_recovery, hit) refl in
            let same : recovery ≡ m = cc in
            subst (Shown now user secret (by_code code) t.users t.codes) same
              (code, refl, ground (arith, hit))
      ]

  check_code-Shown :
      (now user : ℕ) (secret : Option ℕ) (code : List ℕ) (t : State env) (m : Method)
      → (check_code env now user secret (strip_spaces code) t).0 ≡ ok (some m)
      → Shown now user secret (by_code code) t.users t.codes m
  unfolding check_code
  check_code-Shown now user secret code t m e =
      elim (Bool-cases (is_six_digits (strip_spaces code))) [
        | inl six ↦
            let run : check_code env now user secret (strip_spaces code) t
                ≡ verify_secret env now user secret (strip_spaces code) t =
              rw (check_code, six) refl in
            verify_secret-Shown now user secret code t m (sym (ap (λ x. x.0) run) ∙ e)
        | inr longer ↦
            let run : check_code env now user secret (strip_spaces code) t
                ≡ verify_recovery env now user (strip_spaces code) t =
              rw (check_code, longer) refl in
            verify_recovery-Shown now user secret code t m (sym (ap (λ x. x.0) run) ∙ e)
      ]

  pub then_do-ok :
      {A B : Type 0} (r : Result A × State env) (f : A → State env → Result B × State env) (b : B)
      → (then_do r f).0 ≡ ok b
      → (a : A) × (r.0 ≡ ok a) × (then_do r f ≡ f a r.1)
  then_do-ok (ok a, s) f b e = (a, refl, refl)
  then_do-ok (threw x, s) f b e = ground arith

  -- The attempt is counted first, which leaves users and codes alone.
  verify_code-Shown :
      (now user : ℕ) (secret : Option ℕ) (code : List ℕ) (s : State env) (m : Method)
      → (verify_code env now user secret code s).0 ≡ ok (some m)
      → Shown now user secret (by_code code) s.users s.codes m
  unfolding verify_code
  verify_code-Shown now user secret code s m e =
      let t = (consume_attempt env now user s).1 in
      let (_, _, run) =
        then_do-ok (consume_attempt env now user s)
          (λ _. check_code env now user secret (strip_spaces code)) (some m) e in
      let (users, codes) = consume_attempt-same now user s in
      let shown = check_code-Shown now user secret code t m (sym (ap (λ x. x.0) run) ∙ e) in
      subst (λ us. Shown now user secret (by_code code) us s.codes m) users
        (subst (λ cs. Shown now user secret (by_code code) t.users cs m) codes shown)

  passkey-Shown :
      (now user : ℕ) (secret : Option ℕ) (answer : Bool) (s : State env) (m : Method)
      → ok (if answer then some passkey else none) ≡ ok (some m)
      → Shown now user secret (by_passkey answer) s.users s.codes m
  unfolding Shown
  passkey-Shown now user secret true s m e =
      let same : passkey ≡ m = cc in
      subst (Shown now user secret (by_passkey true) s.users s.codes) same refl
  passkey-Shown now user secret false s m e = absurd (cc)

  -- A proof that is accepted was a factor, of the tables as they were.
  pub verify_proof-Shown :
      (now user : ℕ) (secret : Option ℕ) (proof : Proof) (s : State env) (m : Method)
      → (verify_proof env now user secret proof s).0 ≡ ok (some m)
      → Shown now user secret proof s.users s.codes m
  unfolding verify_proof
  verify_proof-Shown now user secret (by_passkey answer) s m e =
      let (_, _, run) =
        then_do-ok (consume_attempt env now user s)
          (λ _ t. (ok (if answer then some passkey else none), t)) (some m) e in
      passkey-Shown now user secret answer s m (sym (ap (λ x. x.0) run) ∙ e)
  verify_proof-Shown now user secret (by_code []) s m e = absurd (cc)
  verify_proof-Shown now user secret (by_code (c ∷ cs)) s m e =
      verify_code-Shown now user secret (c ∷ cs) s m e
  verify_proof-Shown now user secret nothing s m e = absurd (cc)
