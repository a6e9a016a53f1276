-- ===== src/TwoFactor/Others.antt =====
-- two-factor.service.ts: what proving a factor and `disable` do to the rows of other users.
use time_flow_be.Prelude.{
  ℕ, ◌≡◌, refl, sym, subst, ap, ◌∙◌, inl, inr, Option, none, some, List, [], ◌∷◌, Bool, true, false,
  not, ◌==◌, if◌then◌else◌, filter, arith, Bool-cases, Option-cases,
}
use time_flow_be.Prisma.{update_where}
use time_flow_be.RateLimiter
use time_flow_be.Totp
use time_flow_be.Totp.{verify_totp, is_six_digits}
use time_flow_be.TwoFactor.Shown.{decided-same}
use time_flow_be.TwoFactor.{
  User, Method, passkey, Proof, by_code, by_passkey, nothing, Result, ok, threw, then_do, Env,
  State, strip_spaces, normalise_recovery_code, code_limiter, password_limiter, live_user,
  consume_attempt, consume_password, accepts_step, with_step, accept_totp_step, password_checked,
  require_password, step_found, verify_secret, is_unused_code, use_code, verify_recovery,
  check_code, verify_code, verify_proof, switched_off, clear, disable_proved, disable_checked,
  disable,
}

-- A write of rows that are somebody's spares the others.
spared-update :
    {R : Type 0} (own p : R → Bool) (f : R → R)
    → ((r : R) → p r ≡ true → own r ≡ true)
    → ((r : R) → own (f r) ≡ own r)
    → (rs : List R) → filter (λ r. not (own r)) (update_where p f rs) ≡ filter (λ r. not (own r)) rs
spared-update own p f within keeps [] = refl
spared-update own p f within keeps (r ∷ rs) = elim (Bool-cases (p r)) [
  | inl hit ↦
      let mine = within r hit in
      let still : own (f r) ≡ true = keeps r ∙ mine in
      rw (hit, mine, still) (spared-update own p f within keeps rs)
  | inr miss ↦ rw miss (elim (Bool-cases (own r)) [
    | inl mine ↦ rw mine (spared-update own p f within keeps rs)
    | inr other ↦ rw other (ap (λ l. r ∷ l) (spared-update own p f within keeps rs))
  ])
]

spared-delete :
    {R : Type 0} (own : R → Bool) (rs : List R)
    → filter (λ r. not (own r)) (filter (λ r. if own r then false else true) rs)
      ≡ filter (λ r. not (own r)) rs
spared-delete own [] = refl
spared-delete own (r ∷ rs) = elim (Bool-cases (own r)) [
  | inl mine ↦ rw mine (spared-delete own rs)
  | inr other ↦ rw (other, other) (ap (λ l. r ∷ l) (spared-delete own rs))
]

module _ (env : Env) where
  open env use {prisma}

  -- The rows of every other user are as they were.
  pub record OthersSame (user : ℕ) (s t : State env) : Type 0 where
    pub users :
        filter (λ u. not (u.id == user)) (prisma.rows t.users)
        ≡ filter (λ u. not (u.id == user)) (prisma.rows s.users)
    pub codes :
        filter (λ c. not (c.user_id == user)) (prisma.rows t.codes)
        ≡ filter (λ c. not (c.user_id == user)) (prisma.rows s.codes)
    pub passkeys :
        filter (λ p. not (p.user_id == user)) (prisma.rows t.passkeys)
        ≡ filter (λ p. not (p.user_id == user)) (prisma.rows s.passkeys)

  same_tables : (user : ℕ) (s : State env) → OthersSame user s s
  same_tables user s = record { users = refl; codes = refl; passkeys = refl }

  chained :
      (user : ℕ) (s t u : State env)
      → OthersSame user s t
      → OthersSame user t u
      → OthersSame user s u
  chained user s t u a b = record {
    users = b.users ∙ a.users;
    codes = b.codes ∙ a.codes;
    passkeys = b.passkeys ∙ a.passkeys;
  }

  then_do-OthersSame :
      {A B : Type 0} (user : ℕ) (s : State env) (r : Result A × State env)
      (f : A → State env → Result B × State env)
      → OthersSame user s r.1
      → ((a : A) (t : State env) → OthersSame user t (f a t).1)
      → OthersSame user s (then_do r f).1
  then_do-OthersSame user s (ok a, t) f before after = chained user s t (f a t).1 before (after a t)
  then_do-OthersSame user s (threw e, t) f before after = before

  consume_attempt-OthersSame :
      (now user : ℕ) (s : State env) → OthersSame user s (consume_attempt env now user s).1
  unfolding consume_attempt
  consume_attempt-OthersSame now user s =
      let (answer, budget) = RateLimiter.consume env.redis code_limiter s.code_budget user now in
      let t : State env = record s { code_budget = budget } in
      subst (OthersSame user s) (sym (decided-same env answer t))
        (record { users = refl; codes = refl; passkeys = refl })

  consume_password-OthersSame :
      (now user : ℕ) (s : State env) → OthersSame user s (consume_password env now user s).1
  unfolding consume_password
  consume_password-OthersSame now user s =
      let (answer, budget) =
        RateLimiter.consume env.redis password_limiter s.password_budget user now in
      let t : State env = record s { password_budget = budget } in
      subst (OthersSame user s) (sym (decided-same env answer t))
        (record { users = refl; codes = refl; passkeys = refl })

  step_found-OthersSame :
      (user : ℕ) (r : Totp.Result (Option ℕ)) (s : State env)
      → OthersSame user s (step_found env user r s).1
  unfolding accept_totp_step
  step_found-OthersSame user (Totp.threw) s = same_tables user s
  step_found-OthersSame user (Totp.returned none) s = same_tables user s
  step_found-OthersSame user (Totp.returned (some step)) s = record {
    users =
        ap (filter (λ u. not (u.id == user)))
          (prisma.rows-update_many (accepts_step env user step) (with_step env step) s.users)
        ∙ spared-update (λ u. u.id == user) (accepts_step env user step) (with_step env step)
            (λ u hit. ground arith) (λ u. refl) (prisma.rows s.users);
    codes = refl;
    passkeys = refl;
  }

  verify_secret-OthersSame :
      (now user : ℕ) (secret : Option ℕ) (code : List ℕ) (s : State env)
      → OthersSame user s (verify_secret env now user secret code s).1
  verify_secret-OthersSame now user none code s = same_tables user s
  verify_secret-OthersSame now user (some stored) code s =
      elim (Option-cases (env.decrypt_secret stored)) [
        | inl lost ↦ rw (verify_secret, lost) (same_tables user s)
        | inr (key, there) ↦
            rw (verify_secret, there)
              (step_found-OthersSame user (verify_totp env.hmac key code now) s)
      ]

  verify_recovery-OthersSame :
      (now user : ℕ) (code : List ℕ) (s : State env)
      → OthersSame user s (verify_recovery env now user code s).1
  unfolding verify_recovery
  verify_recovery-OthersSame now user code s =
      let unused = is_unused_code env user (env.sha256 (normalise_recovery_code code)) in
      record {
        users = refl;
        codes =
            ap (filter (λ c. not (c.user_id == user)))
              (prisma.rows-update_many unused (use_code env now) s.codes)
            ∙ spared-update (λ c. c.user_id == user) unused (use_code env now)
                (λ c hit. ground arith) (λ c. refl) (prisma.rows s.codes);
        passkeys = refl;
      }

  check_code-OthersSame :
      (now user : ℕ) (secret : Option ℕ) (code : List ℕ) (s : State env)
      → OthersSame user s (check_code env now user secret code s).1
  unfolding check_code
  check_code-OthersSame now user secret code s = elim (Bool-cases (is_six_digits code)) [
    | inl six ↦ rw (check_code, six) (verify_secret-OthersSame now user secret code s)
    | inr longer ↦ rw (check_code, longer) (verify_recovery-OthersSame now user code s)
  ]

  verify_code-OthersSame :
      (now user : ℕ) (secret : Option ℕ) (code : List ℕ) (s : State env)
      → OthersSame user s (verify_code env now user secret code s).1
  unfolding verify_code
  verify_code-OthersSame now user secret code s =
      then_do-OthersSame user s (consume_attempt env now user s)
        (λ _. check_code env now user secret (strip_spaces code))
        (consume_attempt-OthersSame now user s)
        (λ _ t. check_code-OthersSame now user secret (strip_spaces code) t)

  verify_proof-OthersSame :
      (now user : ℕ) (secret : Option ℕ) (proof : Proof) (s : State env)
      → OthersSame user s (verify_proof env now user secret proof s).1
  unfolding verify_proof
  verify_proof-OthersSame now user secret (by_passkey answer) s =
      then_do-OthersSame user s (consume_attempt env now user s)
        (λ _ t. (ok (if answer then some passkey else none), t))
        (consume_attempt-OthersSame now user s) (λ _ t. same_tables user t)
  verify_proof-OthersSame now user secret (by_code []) s = same_tables user s
  verify_proof-OthersSame now user secret (by_code (c ∷ cs)) s =
      verify_code-OthersSame now user secret (c ∷ cs) s
  verify_proof-OthersSame now user secret nothing s = same_tables user s

  clear-OthersSame : (user : ℕ) (s : State env) → OthersSame user s (clear env user s)
  unfolding clear
  clear-OthersSame user s = record {
    users =
        ap (filter (λ u. not (u.id == user)))
          (prisma.rows-update_many (λ u. u.id == user) (switched_off env) s.users)
        ∙ spared-update (λ u. u.id == user) (λ u. u.id == user) (switched_off env) (λ u hit. hit)
            (λ u. refl) (prisma.rows s.users);
    codes =
        ap (filter (λ c. not (c.user_id == user)))
          (prisma.rows-delete_many (λ c. c.user_id == user) s.codes)
        ∙ spared-delete (λ c. c.user_id == user) (prisma.rows s.codes);
    passkeys =
        ap (filter (λ p. not (p.user_id == user)))
          (prisma.rows-delete_many (λ p. p.user_id == user) s.passkeys)
        ∙ spared-delete (λ p. p.user_id == user) (prisma.rows s.passkeys);
  }

  password_checked-OthersSame :
      (user password : ℕ) (u : User) (s : State env)
      → OthersSame user s (password_checked env password u s).1
  password_checked-OthersSame user password u s =
      elim (Bool-cases (env.password_matches password u.password_hash)) [
        | inl right ↦ rw right (same_tables user s)
        | inr wrong ↦ rw wrong (same_tables user s)
      ]

  require_password-OthersSame :
      (now user password : ℕ) (s : State env)
      → OthersSame user s (require_password env now user password s).1
  unfolding require_password
  require_password-OthersSame now user password s = elim (Option-cases (live_user env user s)) [
    | inl gone ↦ rw (require_password, gone) (same_tables user s)
    | inr (u, found) ↦
        rw (require_password, found)
          (then_do-OthersSame user s (consume_password env now user s)
            (λ _. password_checked env password u) (consume_password-OthersSame now user s)
            (λ _ t. password_checked-OthersSame user password u t))
  ]

  disable_proved-OthersSame :
      (user : ℕ) (proof : Proof) (method : Option Method) (s : State env)
      → OthersSame user s (disable_proved env user proof method s).1
  disable_proved-OthersSame user proof none s = same_tables user s
  disable_proved-OthersSame user proof (some m) s = clear-OthersSame user s

  disable_checked-OthersSame :
      (now user : ℕ) (proof : Proof) (u : User) (s : State env)
      → OthersSame user s (disable_checked env now user proof u s).1
  disable_checked-OthersSame now user proof u s = elim (Bool-cases u.enabled) [
    | inr off ↦ rw (disable_checked, off) (same_tables user s)
    | inl on ↦
        rw (disable_checked, on)
          (then_do-OthersSame user s (verify_proof env now user u.secret proof s)
            (disable_proved env user proof) (verify_proof-OthersSame now user u.secret proof s)
            (disable_proved-OthersSame user proof))
  ]

  pub disable-OthersSame :
      (now user password : ℕ) (proof : Proof) (s : State env)
      → OthersSame user s (disable env now user password proof s).1
  unfolding disable
  disable-OthersSame now user password proof s =
      then_do-OthersSame user s (require_password env now user password s)
        (disable_checked env now user proof) (require_password-OthersSame now user password s)
        (disable_checked-OthersSame now user proof)
