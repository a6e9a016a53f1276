-- ===== src/SignupOtp/Activation.antt =====
-- `verify` of signup-otp.service.ts: whose account is activated, and by which code.
use time_flow_be.Prelude.{
  ℕ, suc, ◌-◌, ◌≡◌, refl, sym, ap, ◌∙◌, inl, inr, some, is_some, Bool, true, false, not, ◌&&◌, ◌||◌,
  ◌==◌, ltb, leb, if◌then◌else◌, arith, Bool-cases, Option-cases,
}
use time_flow_be.Prisma
use time_flow_be.Prisma.Keys
use time_flow_be.Prisma.{Prisma, find, find-update_where}
use time_flow_be.SignupOtp.{
  User, SignupOtp, OtpError, session_invalid, otp_expired, too_many_attempts, ok, threw, Env, State,
  find_otp, find_user, claim, right_code, waits, activate, activate_user, compared, verify_row,
  verify, is_pending, signup_otp_max_attempts,
}

threw-ok : {A : Type 0} {a : A} (e : OtpError) → ¬ (threw e ≡ ok a)
threw-ok e h = cc

module _ (env : Env) where
  open env use {prisma}

  -- The code is there, was not used, is in time and has a guess left, and its user still waits.
  pub record Activatable (now id otp : ℕ) (s : State env) (row : SignupOtp) (user : User)
      : Type 0 where
    pub found : find_otp env id s ≡ some row
    pub member : find_user env row.user_id s ≡ some user
    pub unverified : is_some row.verified_at ≡ false
    pub is_waiting : is_pending user.status && not (is_some user.deleted_at) ≡ true
    pub in_time : ltb now row.expires_at ≡ true
    pub guesses : ltb row.attempts signup_otp_max_attempts ≡ true
    pub right : right_code env row user otp ≡ true

  activate_user-won :
      (now : ℕ) (row : SignupOtp) (s : State env)
      → (activate_user env now row s).0 ≡ true
      → (activate_user env now row s).1.users
        ≡ prisma.update_many (waits env row.user_id) (activate env) s.users
  unfolding activate_user
  activate_user-won now row s won =
      elim (Bool-cases
        (Prisma.count prisma (λ r. r.id == row.id && not (is_some r.verified_at)) s.otps == 0)) [
          | inl lost ↦
              let no_answer : (activate_user env now row s).0 ≡ false =
                rw (lost, activate_user) refl in
              absurd (cc)
          | inr used ↦ rw (used, activate_user) refl
        ]

  compared-ok :
      (now : ℕ) (row : SignupOtp) (matched : Bool) (s : State env) (u : ℕ)
      → (compared env now row matched s).0 ≡ ok u
      → (matched ≡ true)
        × (u ≡ row.user_id)
        × ((compared env now row matched s).1.users
            ≡ prisma.update_many (waits env row.user_id) (activate env) s.users)
  compared-ok now row true s u e = elim (Bool-cases (activate_user env now row s).0) [
    | inl won ↦ (refl, ground arith, activate_user-won now row s won)
    | inr lost ↦
        let bad : (compared env now row true s).0 ≡ threw session_invalid = rw lost refl in
        absurd (threw-ok session_invalid (sym bad ∙ e))
  ]
  compared-ok now row false s u e = absurd (
      threw-ok
        (if signup_otp_max_attempts - suc row.attempts == 0
          then too_many_attempts
          else OtpError.otp_invalid (signup_otp_max_attempts - suc row.attempts))
        e)

  -- Where `verify_row` answers, it got as far as the comparison.
  verify_row-ok :
      (now : ℕ) (row : SignupOtp) (user : User) (otp : ℕ) (s : State env) (u : ℕ)
      → (verify_row env now row user otp s).0 ≡ ok u
      → (is_some row.verified_at || is_some user.deleted_at || not (is_pending user.status) ≡ false)
        × (leb row.expires_at now ≡ false)
        × (leb signup_otp_max_attempts row.attempts ≡ false)
        × (verify_row env now row user otp s
            ≡ compared env now row (right_code env row user otp) (claim env now row s).1)
  unfolding verify_row
  verify_row-ok now row user otp s u e =
      elim (Bool-cases
        (is_some row.verified_at || is_some user.deleted_at || not (is_pending user.status))) [
          | inl closed ↦
              let bad : (verify_row env now row user otp s).0 ≡ threw session_invalid =
                rw (closed, verify_row) refl in
              absurd (threw-ok session_invalid (sym bad ∙ e))
          | inr waiting ↦ elim (Bool-cases (leb row.expires_at now)) [
            | inl late ↦
                let bad : (verify_row env now row user otp s).0 ≡ threw otp_expired =
                  rw (waiting, late, verify_row) refl in
                absurd (threw-ok otp_expired (sym bad ∙ e))
            | inr timely ↦ elim (Bool-cases (leb signup_otp_max_attempts row.attempts)) [
              | inl spent ↦
                  let bad : (verify_row env now row user otp s).0 ≡ threw too_many_attempts =
                    rw (waiting, timely, spent, verify_row) refl in
                  absurd (threw-ok too_many_attempts (sym bad ∙ e))
              | inr guesses ↦ elim (Bool-cases (claim env now row s).0) [
                | inr lost ↦
                    let bad : (verify_row env now row user otp s).0 ≡ threw too_many_attempts =
                      rw (waiting, timely, guesses, lost, verify_row) refl in
                    absurd (threw-ok too_many_attempts (sym bad ∙ e))
                | inl won ↦
                    (waiting, timely, guesses, rw (waiting, timely, guesses, won, verify_row) refl)
              ]
            ]
          ]
        ]

  update-activates :
      (row : SignupOtp) (user : User) (s : State env) (t : prisma.Table User)
      → find_user env row.user_id s ≡ some user
      → is_pending user.status && not (is_some user.deleted_at) ≡ true
      → t ≡ prisma.update_many (waits env row.user_id) (activate env) s.users
      → find (λ u. u.id == row.user_id) (prisma.rows t) ≡ some (activate env user)
  update-activates row user s t member waiting e =
      let id = Keys.find-key (λ u. u.id) row.user_id user (prisma.rows s.users) member in
      let hit : waits env row.user_id user ≡ true = ground (arith, waiting, id) in
      ap (λ x. find (λ u. u.id == row.user_id) (prisma.rows x)) e
      ∙ ap (find (λ u. u.id == row.user_id))
          (prisma.rows-update_many (waits env row.user_id) (activate env) s.users)
      ∙ find-update_where (λ u. u.id) (waits env row.user_id) (activate env) (λ r. refl) row.user_id
          (prisma.rows s.users)
      ∙ rw (member, hit) refl

  claim-users :
      (now : ℕ) (row : SignupOtp) (s : State env) → (claim env now row s).1.users ≡ s.users
  unfolding claim
  claim-users now row s = refl

  -- Whenever `verify` answers with a user, the code was there, unused, in time, with a guess left and right,
  -- and its user still waited to be activated and was not deleted; that user is the answer, and is active
  -- from then on.
  pub verify-Activatable :
      (now id otp : ℕ) (s : State env) (u : ℕ)
      → (verify env now id otp s).0 ≡ ok u
      → (row : SignupOtp) × (user : User) × Activatable now id otp s row user
        × (u ≡ row.user_id)
        × (find_user env u (verify env now id otp s).1 ≡ some (activate env user))
  unfolding verify
  verify-Activatable now id otp s u e = elim (Option-cases (find_otp env id s)) [
    | inl gone ↦
        let bad : (verify env now id otp s).0 ≡ threw session_invalid = rw (gone, verify) refl in
        absurd (threw-ok session_invalid (sym bad ∙ e))
    | inr (row, found) ↦ elim (Option-cases (find_user env row.user_id s)) [
      | inl gone ↦
          let bad : (verify env now id otp s).0 ≡ threw session_invalid =
            rw (found, verify, gone) refl in
          absurd (threw-ok session_invalid (sym bad ∙ e))
      | inr (user, member) ↦
          let at_row : verify env now id otp s ≡ verify_row env now row user otp s =
            rw (found, verify, member) refl in
          let (waiting, timely, guesses, there) =
            verify_row-ok now row user otp s u (sym (ap (λ r. r.0) at_row) ∙ e) in
          let matched = right_code env row user otp in
          let s₁ = (claim env now row s).1 in
          let e₁ : (compared env now row matched s₁).0 ≡ ok u =
            sym (ap (λ r. r.0) (at_row ∙ there)) ∙ e in
          let (right, who, written) = compared-ok now row matched s₁ u e₁ in
          let live : is_pending user.status && not (is_some user.deleted_at) ≡ true =
            ground (arith, waiting) in
          let users : (verify env now id otp s).1.users
              ≡ prisma.update_many (waits env row.user_id) (activate env) s.users =
            ap (λ r. r.1.users) (at_row ∙ there)
            ∙ written
            ∙ ap (prisma.update_many (waits env row.user_id) (activate env))
                (claim-users now row s) in
          (
            row,
            user,
            record {
              found = found;
              member = member;
              unverified = ground (arith, waiting);
              is_waiting = live;
              in_time = ground (arith, timely);
              guesses = ground (arith, guesses);
              right = right;
            },
            who,
            ap (λ k. find_user env k (verify env now id otp s).1) who
                ∙ update-activates row user s (verify env now id otp s).1.users member live users,
          )
    ]
  ]
