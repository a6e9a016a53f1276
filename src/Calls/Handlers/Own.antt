-- ===== src/Calls/Handlers/Own.antt =====
-- The parts that handlers of call.service.ts share: loading the call first, and the answer.
use time_flow_be.Prelude.{ℕ, Option, none, some}
use time_flow_be.Calls.Types.{Call, not_found}
use time_flow_be.Calls.Machine.{Env, State, M, ◌>>=◌, require}
use time_flow_be.Calls.Finish.{load, load_own}
use time_flow_be.Calls.Service.{report}
use time_flow_be.Calls.Lifecycle.{here}
use time_flow_be.Calls.Refines.{
  rows, Follows, then_do-Trace, bind-Follows, require-Follows, load_own-Follows,
}

module _ (env : Env) where
  open env use {prisma}

  pub report-Follows : (call : ℕ) (done : Option Call) → Follows env (report env call done)
  unfolding report
  report-Follows call (some c) s = here
  report-Follows call none s =
      then_do-Trace env (rows env s) (require (load env s call) not_found s) _
        (require-Follows env (load env s call) not_found s) (λ _ _. here)

  -- A handler that loads the call first.
  pub own-Follows :
      {A : Type 0} (call actor : ℕ) (f : Call → M (State env) A)
      → ((c : Call) → Follows env (f c))
      → Follows env (load_own env call actor >>= f)
  own-Follows call actor f h =
      bind-Follows env (load_own env call actor) f (load_own-Follows env call actor) h

  pub reported-Follows :
      (call : ℕ) (m : M (State env) (Option Call))
      → Follows env m
      → Follows env (m >>= report env call)
  reported-Follows call m h = bind-Follows env m (report env call) h (report-Follows call)
