-- ===== src/Calls/Handlers/Closing.antt =====
-- `reject`, `end` and the two timers of call.service.ts.
use time_flow_be.Prelude.{
  ℕ, ◌≡◌, refl, inl, inr, [], ◌∷◌, Bool, false, if◌then◌else◌, arith, Option-cases,
}
use time_flow_be.Calls.Types.{
  Call, CallStatus, CallEndReason, ringing, accepted, connected, missed, ended, rejected, no_answer,
  disconnected, hangup, cancelled, status_in, is_active,
}
use time_flow_be.Calls.Machine.{Env, World, RingTimer, GraceTimer}
use time_flow_be.Calls.Finish.{load, finish, clear_ring, clear_grace}
use time_flow_be.Calls.Service.{reject_own, reject, hang_up, end_own, end, ring_fired, grace_fired}
use time_flow_be.Calls.Lifecycle.{Trace, here}
use time_flow_be.Calls.Refines.{rows, Follows, finish-Follows, finish_and-Follows}
use time_flow_be.Calls.Handlers.Own.{own-Follows, reported-Follows}

module _ (env : Env) where
  open env use {prisma}

  reject_own-Follows :
      (w : World) (actor call : ℕ) (c : Call) → Follows env (reject_own env w actor call c)
  unfolding reject_own
  reject_own-Follows w actor call c s =
      let stayed : Trace (rows env s) (rows env s) = here in
      ground (
        arith,
        reported-Follows env call (finish env w call (ringing ∷ []) rejected CallEndReason.rejected)
            (finish-Follows env w call (ringing ∷ []) rejected CallEndReason.rejected refl refl) s,
      )

  pub reject-Follows : (w : World) (actor call : ℕ) → Follows env (reject env w actor call)
  unfolding reject
  reject-Follows w actor call =
      own-Follows env call actor (reject_own env w actor call) (reject_own-Follows w actor call)

  hang_up-Follows :
      (w : World) (actor : ℕ) (broken : Bool) (c : Call)
      → Follows env (hang_up env w actor broken c)
  unfolding hang_up
  hang_up-Follows w actor broken c s =
      let why = if broken then CallEndReason.failed else hangup in
      ground (
        arith,
        finish-Follows env w c.id (ringing ∷ []) missed cancelled refl refl s,
        finish-Follows env w c.id (ringing ∷ []) rejected CallEndReason.rejected refl refl s,
        finish-Follows env w c.id (accepted ∷ []) CallStatus.failed CallEndReason.failed refl refl
            s,
        finish-Follows env w c.id (accepted ∷ connected ∷ []) ended why refl refl s,
      )

  end_own-Follows :
      (w : World) (actor : ℕ) (broken : Bool) (c : Call)
      → Follows env (end_own env w actor broken c)
  unfolding end_own
  end_own-Follows w actor broken c s =
      let stayed : Trace (rows env s) (rows env s) = here in
      ground (
        arith,
        reported-Follows env c.id (hang_up env w actor broken c) (hang_up-Follows w actor broken c)
            s,
      )

  pub end-Follows :
      (w : World) (actor call : ℕ) (broken : Bool) → Follows env (end env w actor call broken)
  unfolding end
  end-Follows w actor call broken =
      own-Follows env call actor (end_own env w actor broken) (end_own-Follows w actor broken)

  pub ring_fired-Follows : (w : World) (t : RingTimer) → Follows env (ring_fired env w t)
  unfolding ring_fired
  ring_fired-Follows w t s =
      finish_and-Follows env w t.call (ringing ∷ []) missed no_answer refl refl
        (clear_ring env t.call s)

  pub grace_fired-Follows : (w : World) (t : GraceTimer) → Follows env (grace_fired env w t)
  unfolding grace_fired
  grace_fired-Follows w t s =
      let s' = clear_grace env t.call t.user s in
      elim (Option-cases (load env s' t.call)) [
        | inl e ↦ rw (e, grace_fired) here
        | inr (c, e) ↦
            let status = if status_in (connected ∷ []) c.status then ended else CallStatus.failed in
            let final : is_active status ≡ false = ground arith in
            let stayed : Trace (rows env s) (rows env s') = here in
            rw (e, grace_fired)
              (ground (
                arith,
                finish_and-Follows env w t.call (ringing ∷ []) missed cancelled refl refl s',
                finish_and-Follows env w t.call (accepted ∷ connected ∷ []) status disconnected refl
                    final s',
              ))
      ]
