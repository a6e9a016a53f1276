-- ===== src/TwoFactor/Replay.antt =====
-- two-factor.service.ts: a code of either kind is accepted at most once.
use mathlib.Core.Option
use time_flow_be.Prelude.{
  ◌<◌, ℕ, ◌≡◌, refl, subst, ap, ◌∙◌, inl, inr, ◌⊎◌, Option, none, some, List, [], ◌∷◌, Bool, true,
  false, ◌==◌, if◌then◌else◌, length, filter, arith, Bool-cases, Option-cases,
}
use time_flow_be.Prisma
use time_flow_be.Prisma.Keys
use time_flow_be.Prisma.{Prisma, find, update_where, find-update_where}
use time_flow_be.TwoFactor.{
  User, RecoveryCode, ok, Env, State, is_newer, accepts_step, with_step, accept_totp_step,
  is_unused_code, use_code, verify_recovery, normalise_recovery_code,
}

abbrev pub After : Option ℕ → ℕ → Type 0
After none step = Unit
After (some last) step = last < step

-- Each step is later than the one before.
abbrev pub Increasing : Option ℕ → List ℕ → Type 0
Increasing last [] = Unit
Increasing last (step ∷ steps) = After last step × Increasing (some step) steps

is_newer-After : (step : ℕ) (last : Option ℕ) → is_newer step last ≡ true → After last step
is_newer-After step none e = tt
is_newer-After step (some last) e = ground arith

module _ (env : Env) where
  open env use {prisma}

  abbrev pub find_user : ℕ → State env → Option User
  find_user id s = Prisma.find_first prisma (λ u. u.id == id) s.users

  abbrev pub DistinctUsers : State env → Type 0
  DistinctUsers s = Keys.Distinct (λ u. u.id) (prisma.rows s.users)

  -- The last step that was accepted; nothing is asked of a user who is not there.
  abbrev pub last_step : Option User → Option ℕ
  last_step none = none
  last_step (some u) = u.last_step

  -- The steps, of these that requests try in this order, that are accepted.
  unfoldable pub accepted_steps : ℕ → List ℕ → State env → List ℕ
  accepted_steps user [] s = []
  accepted_steps user (step ∷ steps) s =
      let r = accept_totp_step env user step s in
      let rest = accepted_steps user steps r.1 in if r.0 then step ∷ rest else rest

  module _ (user step : ℕ) (s : State env) (distinct : DistinctUsers s) where
    accept_totp_step-Distinct : DistinctUsers (accept_totp_step env user step s).1
    unfolding accept_totp_step
    accept_totp_step-Distinct =
        rw (prisma.rows-update_many (accepts_step env user step) (with_step env step) s.users) (
          Keys.Distinct-update_where (λ u. u.id) (accepts_step env user step) (with_step env step)
            (λ r. refl) (prisma.rows s.users) distinct)

    accept_totp_step-find :
        find_user user (accept_totp_step env user step s).1
        ≡ Option.map
            (λ u. if accepts_step env user step u then with_step env step u else u)
            (find_user user s)
    unfolding accept_totp_step
    accept_totp_step-find =
        ap (find (λ u. u.id == user))
          (prisma.rows-update_many (accepts_step env user step) (with_step env step) s.users)
        ∙ find-update_where (λ u. u.id) (accepts_step env user step) (with_step env step)
            (λ r. refl) user (prisma.rows s.users)

    -- A step is accepted when it is newer, and then is the last one; else the last one stays.
    accept_totp_step_cases :
        (((accept_totp_step env user step s).0 ≡ true)
          × (is_newer step (last_step (find_user user s)) ≡ true)
          × (last_step (find_user user (accept_totp_step env user step s).1) ≡ some step))
        ⊎ (((accept_totp_step env user step s).0 ≡ false)
            × (last_step (find_user user (accept_totp_step env user step s).1)
                ≡ last_step (find_user user s)))
    unfolding accept_totp_step
    accept_totp_step_cases = elim (Option-cases (find_user user s)) [
      | inl gone ↦
          let counted =
            Keys.count-absent (λ u. u.id) user (λ u. is_newer step u.last_step)
              (prisma.rows s.users) gone in
          inr (rw counted refl, rw (accept_totp_step-find, gone) refl)
      | inr (u, found) ↦
          let counted =
            Keys.count-key (λ u. u.id) user (λ u. is_newer step u.last_step) u (prisma.rows s.users)
              distinct found in
          let id = Keys.find-key (λ u. u.id) user u (prisma.rows s.users) found in
          let hit : (u.id == user) ≡ true = ground arith in
          elim (Bool-cases (is_newer step u.last_step)) [
            | inl newer ↦ inl (
              rw (counted, newer) refl,
              rw (found, newer) refl,
              rw (accept_totp_step-find, found, hit, newer) refl,
            )
            | inr old ↦
                inr (rw (counted, old) refl, rw (accept_totp_step-find, found, hit, old) refl)
          ]
    ]

  accepted_steps-from :
      (user : ℕ) (steps : List ℕ) (s : State env) (last : Option ℕ)
      → DistinctUsers s
      → last_step (find_user user s) ≡ last
      → Increasing last (accepted_steps user steps s)
  unfolding accepted_steps
  accepted_steps-from user [] s last d e = tt
  accepted_steps-from user (step ∷ steps) s last d e =
      let s' = (accept_totp_step env user step s).1 in
      let d' = accept_totp_step-Distinct user step s d in
      elim (accept_totp_step_cases user step s d) [
        | inl (won, newer, moved) ↦ rw won (
          is_newer-After step last (subst (λ o. is_newer step o ≡ true) e newer),
          accepted_steps-from user steps s' (some step) d' moved,
        )
        | inr (lost, stays) ↦ rw lost (accepted_steps-from user steps s' last d' (stays ∙ e))
      ]

  -- Whatever time steps the sign-ins of a user try, and in whatever order their writes come, those that are
  -- accepted are each later than the one before and than the last one on record, so none is accepted
  -- twice. Ids of users are distinct.
  pub accepted_steps-Increasing :
      (user : ℕ) (steps : List ℕ) (s : State env)
      → DistinctUsers s
      → Increasing (last_step (find_user user s)) (accepted_steps user steps s)
  accepted_steps-Increasing user steps s d =
      accepted_steps-from user steps s (last_step (find_user user s)) d refl

  count-used :
      (p : RecoveryCode → Bool) (f : RecoveryCode → RecoveryCode) (cs : List RecoveryCode)
      → ((c : RecoveryCode) → p (f c) ≡ false)
      → length (filter p (update_where p f cs)) ≡ 0
  count-used p f [] h = refl
  count-used p f (c ∷ cs) h = elim (Bool-cases (p c)) [
    | inl hit ↦ rw (hit, h c) (count-used p f cs h)
    | inr miss ↦ rw (miss, miss) (count-used p f cs h)
  ]

  -- A recovery code that has been tried is used up: a second try of the code, at any later time and however
  -- its letters and dashes are written, matches nothing.
  pub verify_recovery-once :
      (now now' user : ℕ) (code code' : List ℕ) (s : State env)
      → normalise_recovery_code code' ≡ normalise_recovery_code code
      → (verify_recovery env now' user code' (verify_recovery env now user code s).1).0 ≡ ok none
  unfolding verify_recovery
  verify_recovery-once now now' user code code' s same =
      let p = is_unused_code env user (env.sha256 (normalise_recovery_code code)) in
      let gone : Prisma.count prisma p (prisma.update_many p (use_code env now) s.codes) ≡ 0 =
        ap (λ cs. length (filter p cs)) (prisma.rows-update_many p (use_code env now) s.codes)
        ∙ count-used p (use_code env now) (prisma.rows s.codes) (λ c. ground arith) in
      rw (same, gone) refl
