-- ===== src/Calls/Race.antt =====
-- `accept` of call.service.ts against `finish`: the transaction of `accept` locks the row of the user, which
-- `finish` does not ask for, and its update asks for the id alone. Here the update comes after a finish
-- that came after the checks.
use time_flow_be.Prelude.{ℕ, ◌≡◌, refl, ap, ◌∙◌, inl, inr, some, [], ◌∷◌, true, ◌==◌, arith}
use time_flow_be.Prisma.{find, find-update_where}
use time_flow_be.Calls.Types.{Call, CallStatus, CallEndReason, ringing, accepted, status_in}
use time_flow_be.Calls.Machine.{Env, World, State, Result, ok}
use time_flow_be.Calls.Finish.{load, duration, finished, finish}
use time_flow_be.Calls.Service.{is_call, accept_check, answered, accept_write}
use time_flow_be.Calls.Lifecycle.{has_id}
use time_flow_be.Calls.Refines.{rows}
use time_flow_be.Calls.Handlers.{accept_check_cases}
use time_flow_be.Calls.OneCall.{Distinct}
use time_flow_be.Calls.Final.{find-has_id}
use time_flow_be.Calls.Once.{finish-tells_both}

module _ (env : Env) where
  open env use {prisma}

  -- The update of `accept` on a row that is there, whatever its status.
  accept_write_lem :
      (w : World) (socket call : ℕ) (d : Call) (s : State env)
      → load env s call ≡ some d
      → (accept_write env w socket call s).0 ≡ ok (answered env w socket d)
  unfolding accept_write
  accept_write_lem w socket call d s found =
      let t = prisma.update_many (is_call env call) (answered env w socket) s.calls in
      let test : (d.id == call) ≡ true =
        rw (find-has_id call d (rows env s) found) (ground arith) in
      let row : load env (record s { calls = t }) call ≡ some (answered env w socket d) =
        ap (find (has_id call)) (prisma.rows-update_many _ _ s.calls)
        ∙ find-update_where (λ r. r.id) (is_call env call) (answered env w socket) (λ r. refl) call
            (rows env s)
        ∙ rw (found, test) refl in
      rw row refl

  -- A call that was finished after the checks of `accept` had passed: `accept` still answers with it.
  pub record Revived (w : World) (r : Result Call) : Type 0 where
    pub d : Call
    pub answers : r ≡ ok d
    pub is_accepted : d.status ≡ accepted
    pub has_ended : d.ended_at ≡ some w.now

  -- Where ids are distinct and the checks of `accept` pass, but a finish of the ringing call (the ring
  -- timer, or the caller who cancels) comes between them and the update, the update still succeeds: the
  -- call that both people were told is over is accepted, with the time of its end still set.
  pub accept_write-revives :
      (w w' : World) (actor socket call : ℕ) (status : CallStatus) (reason : CallEndReason)
      (s : State env)
      → Distinct (rows env s)
      → accept_check env actor call s ≡ (ok tt, s)
      → Revived w
          (accept_write env w' socket call (finish env w call (ringing ∷ []) status reason s).1).0
  accept_write-revives w w' actor socket call status reason s distinct passed =
      elim (accept_check_cases env actor call s) [
        | inl (e, refused) ↦ absurd (cc)
        | inr (c, _, a) ↦
            let rings : status_in (ringing ∷ []) c.status ≡ true = rw a.rings refl in
            let told =
              finish-tells_both env w call (ringing ∷ []) status reason c s distinct a.found
                rings in
            let done = finished env status w.now (duration env w.now c.connected_at) c in
            record {
              d = answered env w' socket done;
              answers = accept_write_lem w' socket call done _ told.row;
              is_accepted = refl;
              has_ended = refl;
            }
      ]
