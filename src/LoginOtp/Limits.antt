-- ===== src/LoginOtp/Limits.antt =====
-- login-otp.service.ts: how many guesses and uses of a code overlapping requests can get.
use time_flow_be.Prelude.{
  ℕ, ◌+◌, ◌-◌, ◌*◌, ◌≤◌, refl, is_some, List, [], ◌∷◌, ◌&&◌, ◌==◌, if◌then◌else◌, All, arith,
}
use time_flow_be.LoginOtp.{
  Env, Table, find_otp, claimable, one_more, claim, unused, mark_used, use_code, record_channels,
  discard, same_send, rotated, rotate, restore_sent, login_otp_max_attempts,
}
use time_flow_be.LoginOtp.Interleaved.{
  Op, claims, uses, rotates, restores, supersedes, notes_channels, discards, claims_of, uses_of,
  rotates_of, Spares, attempts_left, uses_left, DistinctIds, apply, successes, written-measure,
  blind-measure, delete-measure, supersede-measure, apply-Distinct,
}

module _ (env : Env) where
  attempts_step :
      (id : ℕ) (op : Op) (t : Table env)
      → DistinctIds env t
      → Spares id op
      → (if claims_of id op && (apply env op t).0 then 1 else 0)
          + attempts_left (find_otp env id (apply env op t).1)
        ≤ attempts_left (find_otp env id t)
          + (if rotates_of id op && (apply env op t).0 then login_otp_max_attempts else 0)
  unfolding claim use_code rotate restore_sent record_channels discard
  attempts_step id (claims now row) t d s =
      let h =
        written-measure env (λ r. login_otp_max_attempts - r.attempts) id row.id
          (claimable env now row) (one_more env) (λ r. refl) t d 1 0 (λ r e. ground arith) in
      ground (arith, h)
  attempts_step id (uses now row) t d s = omega (
    arith,
    blind-measure env (λ r. login_otp_max_attempts - r.attempts) id t d
        (λ r. r.id == row.id && unused env r) (mark_used env now) (λ r. refl) (λ r. omega arith),
  )
  attempts_step id (rotates now row hash) t d s =
      let h =
        written-measure env (λ r. login_otp_max_attempts - r.attempts) id row.id (same_send env row)
          (rotated env now hash) (λ r. refl) t d 0 5 (λ r e. ground arith) in
      ground (arith, h)
  attempts_step id (restores row) t d s = omega (
    arith,
    blind-measure env (λ r. login_otp_max_attempts - r.attempts) id t d (λ r. r.id == row.id)
        (λ r. record r { last_sent_at = row.last_sent_at }) (λ r. refl) (λ r. omega arith),
  )
  attempts_step id (supersedes row) t d s =
      omega (arith, supersede-measure env (λ r. login_otp_max_attempts - r.attempts) id t d row s)
  attempts_step id (notes_channels k channels) t d s = omega (
    arith,
    blind-measure env (λ r. login_otp_max_attempts - r.attempts) id t d (λ r. r.id == k)
        (λ r. record r { channels = channels }) (λ r. refl) (λ r. omega arith),
  )
  attempts_step id (discards k) t d s =
      omega (
        arith,
        delete-measure env (λ r. login_otp_max_attempts - r.attempts) id t d (λ r. r.id == k),
      )

  uses_step :
      (id : ℕ) (op : Op) (t : Table env)
      → DistinctIds env t
      → Spares id op
      → (if uses_of id op && (apply env op t).0 then 1 else 0)
          + uses_left (find_otp env id (apply env op t).1)
        ≤ uses_left (find_otp env id t)
  unfolding claim use_code rotate restore_sent record_channels discard
  uses_step id (claims now row) t d s = omega (
    arith,
    blind-measure env (λ r. if is_some r.used_at then 0 else 1) id t d
        (λ r. r.id == row.id && claimable env now row r) (one_more env) (λ r. refl)
        (λ r. omega arith),
  )
  uses_step id (uses now row) t d s =
      let h =
        written-measure env (λ r. if is_some r.used_at then 0 else 1) id row.id (unused env)
          (mark_used env now) (λ r. refl) t d 1 0 (λ r e. ground arith) in
      ground (arith, h)
  uses_step id (rotates now row hash) t d s = omega (
    arith,
    blind-measure env (λ r. if is_some r.used_at then 0 else 1) id t d
        (λ r. r.id == row.id && same_send env row r) (rotated env now hash) (λ r. refl)
        (λ r. omega arith),
  )
  uses_step id (restores row) t d s = omega (
    arith,
    blind-measure env (λ r. if is_some r.used_at then 0 else 1) id t d (λ r. r.id == row.id)
        (λ r. record r { last_sent_at = row.last_sent_at }) (λ r. refl) (λ r. omega arith),
  )
  uses_step id (supersedes row) t d s =
      omega (arith, supersede-measure env (λ r. if is_some r.used_at then 0 else 1) id t d row s)
  uses_step id (notes_channels k channels) t d s = omega (
    arith,
    blind-measure env (λ r. if is_some r.used_at then 0 else 1) id t d (λ r. r.id == k)
        (λ r. record r { channels = channels }) (λ r. refl) (λ r. omega arith),
  )
  uses_step id (discards k) t d s =
      omega (
        arith,
        delete-measure env (λ r. if is_some r.used_at then 0 else 1) id t d (λ r. r.id == k),
      )

  -- However the writes of sign-in requests are ordered, whatever rows they have read, as long as no new
  -- attempt takes the id: the guesses that are let through against one attempt are at most those that
  -- its row has left and five more for each code that is sent again.
  pub claims-attempt_limit :
      (id : ℕ) (ops : List Op) (t : Table env)
      → DistinctIds env t
      → All (Spares id) ops
      → successes env (claims_of id) ops t
        ≤ attempts_left (find_otp env id t)
          + login_otp_max_attempts * successes env (rotates_of id) ops t
  claims-attempt_limit id [] t d s = omega arith
  claims-attempt_limit id (op ∷ ops) t d (s, ss) =
      let step = attempts_step id op t d s in
      let rest = claims-attempt_limit id ops (apply env op t).1 (apply-Distinct env op t d) ss in
      ground (arith, step, rest)

  -- However the writes of sign-in requests are ordered, as long as no new attempt takes the id: the code
  -- of one attempt is used at most once, and never once its row is used or gone.
  pub uses-single :
      (id : ℕ) (ops : List Op) (t : Table env)
      → DistinctIds env t
      → All (Spares id) ops
      → successes env (uses_of id) ops t ≤ uses_left (find_otp env id t)
  uses-single id [] t d s = omega arith
  uses-single id (op ∷ ops) t d (s, ss) =
      let step = uses_step id op t d s in
      let rest = uses-single id ops (apply env op t).1 (apply-Distinct env op t d) ss in
      omega (arith, step, rest)
