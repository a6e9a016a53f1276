-- ===== src/LoginOtp/Verify.antt =====
-- `verify` of login-otp.service.ts, from the row that it reads to the answer.
use time_flow_be.Prelude.{
  ℕ, ◌≡◌, refl, sym, ap, ◌∙◌, inl, inr, Option, none, some, is_some, List, Bool, true, false, ◌||◌,
  ◌==◌, ltb, leb, arith, Bool-cases, Option-cases,
}
use time_flow_be.Prisma.Keys
use time_flow_be.OtpDelivery.{sms_code_matches}
use time_flow_be.LoginOtp.{
  LoginOtp, session_invalid, Result, ok, threw, Env, Table, find_otp, claimable, one_more, claim,
  unused, mark_used, use_code, otp_matches, settle_code, verify_row, verify, login_otp_max_attempts,
}
use time_flow_be.LoginOtp.Interleaved.{
  otps, DistinctIds, written-find, written-won, written-Distinct,
}

module _ (env : Env) where
  -- The code that a user types is the emailed one, or the one that the SMS provider made up.
  abbrev pub right_code : LoginOtp → Option (List ℕ) → ℕ → Bool
  right_code row phone otp =
      otp_matches env row.otp_hash row.id otp
      || sms_code_matches env.sms_service phone row.channels otp

  -- The row is there, unused, not expired, has a guess left, and the code is right.
  pub record Acceptable (now : ℕ) (phone_of : ℕ → Option (List ℕ)) (id otp : ℕ) (t : Table env)
      (row : LoginOtp) : Type 0 where
    pub found : find_otp env id t ≡ some row
    pub is_unused : is_some row.used_at ≡ false
    pub in_time : ltb now row.expires_at ≡ true
    pub guesses : ltb row.attempts login_otp_max_attempts ≡ true
    pub right : right_code row (phone_of row.user_id) otp ≡ true

  module _ (now : ℕ) (phone_of : ℕ → Option (List ℕ)) (id otp : ℕ) (t : Table env) (row : LoginOtp)
      (distinct : DistinctIds env t) (a : Acceptable now phone_of id otp t row) where
    row_id : row.id ≡ id
    row_id = Keys.find-key (λ r. r.id) id row (otps env t) a.found

    claim-won : (claim env now row t).0 ≡ true
    unfolding claim
    claim-won =
        let fits : claimable env now row row ≡ true =
          ground (arith, a.is_unused, a.in_time, a.guesses) in
        written-won env (λ _. 0) id row.id (claimable env now row) (one_more env) (λ r. refl) t
          distinct row row_id a.found
        ∙ fits

    claim-find : find_otp env id (claim env now row t).1 ≡ some (one_more env row)
    unfolding claim
    claim-find =
        let fits : claimable env now row row ≡ true =
          ground (arith, a.is_unused, a.in_time, a.guesses) in
        let self : (row.id == row.id) ≡ true = ground arith in
        written-find env (λ _. 0) id row.id (claimable env now row) (one_more env) (λ r. refl) t
          distinct
        ∙ rw (a.found, self, fits) refl

    claim-Distinct : DistinctIds env (claim env now row t).1
    unfolding claim
    claim-Distinct =
        written-Distinct env (λ _. 0) id row.id (claimable env now row) (one_more env) (λ r. refl) t
          distinct

    use-won : (use_code env now row (claim env now row t).1).0 ≡ true
    unfolding use_code
    use-won =
        written-won env (λ _. 0) id row.id (unused env) (mark_used env now) (λ r. refl)
          (claim env now row t).1 claim-Distinct (one_more env row) row_id claim-find
        ∙ rw a.is_unused refl

    use-find :
        find_otp env id (use_code env now row (claim env now row t).1).1
        ≡ some (mark_used env now (one_more env row))
    unfolding use_code
    use-find =
        let self : (row.id == row.id) ≡ true = ground arith in
        written-find env (λ _. 0) id row.id (unused env) (mark_used env now) (λ r. refl)
          (claim env now row t).1 claim-Distinct
        ∙ rw (claim-find, self, a.is_unused) refl

    verify-eq :
        verify env now phone_of id otp t
        ≡ (ok row.user_id, (use_code env now row (claim env now row t).1).1)
    unfolding verify verify_row settle_code
    verify-eq =
        let late : leb row.expires_at now ≡ false = ground (arith, a.in_time) in
        let spent : leb login_otp_max_attempts row.attempts ≡ false = ground (arith, a.guesses) in
        rw (a.found, verify)
          (rw (a.is_unused, late, spent, claim-won, verify_row)
            (rw (a.right, use-won, settle_code) refl))

    -- Where ids are distinct, an unused row that has not expired and has a guess left accepts the right
    -- code: the answer is the user of the row, which then is used and has one more attempt.
    pub verify-accepts :
        ((verify env now phone_of id otp t).0 ≡ ok row.user_id)
        × (find_otp env id (verify env now phone_of id otp t).1
            ≡ some (mark_used env now (one_more env row)))
    verify-accepts = rw verify-eq (refl, use-find)

    -- Where ids are distinct, a code that was accepted is refused ever after, at any time and with any
    -- code that is typed, and the refusal changes nothing.
    pub verify-replay :
        (now' otp' : ℕ) (phone_of' : ℕ → Option (List ℕ))
        → let t' = (verify env now phone_of id otp t).1 in
          verify env now' phone_of' id otp' t' ≡ (threw session_invalid, t')
    unfolding verify verify_row
    verify-replay now' otp' phone_of' = rw (verify-accepts.1, verify) refl

  settle_code-ok :
      (now : ℕ) (row : LoginOtp) (matched : Bool) (t : Table env) (user : ℕ)
      → (settle_code env now row matched t).0 ≡ ok user
      → (matched ≡ true) × (user ≡ row.user_id)
  unfolding settle_code
  settle_code-ok now row true t user e = elim (Bool-cases (use_code env now row t).0) [
    | inl used ↦ (refl, ground arith)
    | inr lost ↦ (refl, ground arith)
  ]
  settle_code-ok now row false t user e = ground arith

  verify_row-ok :
      (now : ℕ) (row : LoginOtp) (phone : Option (List ℕ)) (otp : ℕ) (t : Table env) (user : ℕ)
      → (verify_row env now row phone otp t).0 ≡ ok user
      → (is_some row.used_at ≡ false)
        × (ltb now row.expires_at ≡ true)
        × (ltb row.attempts login_otp_max_attempts ≡ true)
        × (right_code row phone otp ≡ true)
        × (user ≡ row.user_id)
  unfolding verify_row
  verify_row-ok now row phone otp t user e =
      let claimed = claim env now row t in
      elim (Bool-cases (is_some row.used_at)) [
        | inl used ↦ ground arith
        | inr unused ↦ elim (Bool-cases (leb row.expires_at now)) [
          | inl late ↦ ground arith
          | inr in_time ↦ elim (Bool-cases (leb login_otp_max_attempts row.attempts)) [
            | inl spent ↦ ground arith
            | inr guesses ↦ elim (Bool-cases claimed.0) [
              | inr lost ↦ ground arith
              | inl won ↦
                  let settled : (settle_code env now row (right_code row phone otp) claimed.1).0
                      ≡ ok user =
                    ground arith in
                  let h =
                    settle_code-ok now row (right_code row phone otp) claimed.1 user settled in
                  (unused, ground arith, ground arith, h.0, h.1)
            ]
          ]
        ]
      ]

  verify-none :
      (now : ℕ) (phone_of : ℕ → Option (List ℕ)) (id otp : ℕ) (t : Table env)
      → find_otp env id t ≡ none
      → verify env now phone_of id otp t ≡ (threw session_invalid, t)
  unfolding verify
  verify-none now phone_of id otp t gone = rw (gone, verify) refl

  verify-some :
      (now : ℕ) (phone_of : ℕ → Option (List ℕ)) (id otp : ℕ) (t : Table env) (row : LoginOtp)
      → find_otp env id t ≡ some row
      → verify env now phone_of id otp t ≡ verify_row env now row (phone_of row.user_id) otp t
  unfolding verify
  verify-some now phone_of id otp t row found = rw (found, verify) refl

  -- Only the right code of a row that may be used is accepted: whenever `verify` answers with a user, the row was there, unused, not
  -- expired and with a guess left, the code was the one that was sent, and the user is that of the row.
  pub verify_sound :
      (now : ℕ) (phone_of : ℕ → Option (List ℕ)) (id otp : ℕ) (t : Table env) (user : ℕ)
      → (verify env now phone_of id otp t).0 ≡ ok user
      → (row : LoginOtp) × Acceptable now phone_of id otp t row × (user ≡ row.user_id)
  verify_sound now phone_of id otp t user e = elim (Option-cases (find_otp env id t)) [
    | inl gone ↦
        ground
          (arith, ap (λ (r : Result ℕ × Table env). r.0) (verify-none now phone_of id otp t gone))
    | inr (row, found) ↦
        let at_row : (verify_row env now row (phone_of row.user_id) otp t).0 ≡ ok user =
          ap (λ r. r.0) (sym (verify-some now phone_of id otp t row found)) ∙ e in
        let h = verify_row-ok now row (phone_of row.user_id) otp t user at_row in
        (
          row,
          record { found = found; is_unused = h.0; in_time = h.1; guesses = h.2; right = h.3 },
          h.4,
        )
  ]
