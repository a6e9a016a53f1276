-- ===== src/Calls/Handlers/Tabs.antt =====
-- `markConnected`, `relay`, `resume` and `onSocketDisconnect` of call.service.ts.
use time_flow_be.Prelude.{ℕ, inl, inr, none, List, [], ◌∷◌, ◌==◌, arith, Bool-cases, Option-cases}
use time_flow_be.Calls.Types.{Call, other_socket, Signal}
use time_flow_be.Calls.Machine.{Env, World, ◌>>=◌, modify}
use time_flow_be.Calls.Finish.{clear_grace}
use time_flow_be.Calls.Service.{
  report, mark_write, mark_own, mark_connected, relay_own, relay, rebind_write, resume_own, resume,
  grace_each, on_socket_disconnect,
}
use time_flow_be.Calls.Lifecycle.{link, move, Trace, here, caller_side, receiver_side}
use time_flow_be.Calls.Refines.{rows, Follows, bind-Follows, written}
use time_flow_be.Calls.Handlers.Own.{report-Follows, own-Follows}

module _ (env : Env) where
  open env use {prisma}

  mark_write-Follows : (w : World) (call : ℕ) → Follows env (mark_write env w call)
  unfolding mark_write
  mark_write-Follows w call s =
      written env s _ (prisma.rows-update_many _ _ s.calls) (link call w.now)

  mark_own-Follows :
      (w : World) (actor socket call : ℕ) (c : Call)
      → Follows env (mark_own env w actor socket call c)
  unfolding mark_own
  mark_own-Follows w actor socket call c s =
      let stayed : Trace (rows env s) (rows env s) = here in
      ground (
        arith,
        bind-Follows env (mark_write env w call) (λ _. report env call none)
            (mark_write-Follows w call) (λ _. report-Follows env call none) s,
        report-Follows env call none s,
      )

  pub mark_connected-Follows :
      (w : World) (actor socket call : ℕ) → Follows env (mark_connected env w actor socket call)
  unfolding mark_connected
  mark_connected-Follows w actor socket call =
      own-Follows env call actor (mark_own env w actor socket call)
        (mark_own-Follows w actor socket call)

  relay_own-Follows :
      (actor socket : ℕ) (event : Signal) (call payload : ℕ) (c : Call)
      → Follows env (relay_own env actor socket event call payload c)
  unfolding relay_own
  relay_own-Follows actor socket event call payload c s =
      let stayed : Trace (rows env s) (rows env s) = here in
      ground (arith, Option-cases (other_socket c actor))

  pub relay-Follows :
      (actor socket : ℕ) (event : Signal) (call payload : ℕ)
      → Follows env (relay env actor socket event call payload)
  unfolding relay
  relay-Follows actor socket event call payload =
      own-Follows env call actor (relay_own env actor socket event call payload)
        (relay_own-Follows actor socket event call payload)

  rebind_write-Follows :
      (actor socket call : ℕ) (c : Call) → Follows env (rebind_write env actor socket call c)
  unfolding rebind_write
  rebind_write-Follows actor socket call c s = elim (Bool-cases (c.caller_id == actor)) [
    | inl e ↦
        rw e (written env s _ (prisma.rows-update_many _ _ s.calls) (move call socket caller_side))
    | inr e ↦
        rw e
          (written env s _ (prisma.rows-update_many _ _ s.calls) (move call socket receiver_side))
  ]

  resume_own-Follows :
      (w : World) (actor socket call : ℕ) (c : Call)
      → Follows env (resume_own env w actor socket call c)
  unfolding resume_own
  resume_own-Follows w actor socket call c s =
      let stayed : Trace (rows env s) (rows env s) = here in
      ground (
        arith,
        bind-Follows env (rebind_write env actor socket call c)
            (λ _. modify (clear_grace env call actor) >>= λ _. report env call none)
            (rebind_write-Follows actor socket call c)
            (λ _ s'. report-Follows env call none (clear_grace env call actor s')) s,
      )

  pub resume-Follows :
      (w : World) (actor socket call : ℕ) → Follows env (resume env w actor socket call)
  unfolding resume
  resume-Follows w actor socket call =
      own-Follows env call actor (resume_own env w actor socket call)
        (resume_own-Follows w actor socket call)

  grace_each-Follows :
      (w : World) (user socket : ℕ) (cs : List Call) → Follows env (grace_each env w user socket cs)
  unfolding grace_each
  grace_each-Follows w user socket [] s = here
  grace_each-Follows w user socket (c ∷ cs) s = grace_each-Follows w user socket cs _

  pub on_socket_disconnect-Follows :
      (w : World) (user socket : ℕ) → Follows env (on_socket_disconnect env w user socket)
  unfolding on_socket_disconnect
  on_socket_disconnect-Follows w user socket s = grace_each-Follows w user socket _ s
