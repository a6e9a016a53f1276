-- ===== src/Calls/Tests.antt =====
-- A call between two users over listed tables, and the theorems at its states.
use time_flow_be.Prelude.{ℕ, ◌≡◌, refl, ◌⊎◌, none, some, [], ◌∷◌, true, false, arith}
use time_flow_be.Prisma
use time_flow_be.Redis
use time_flow_be.RateLimiter.{absent, live, trim, run_script, put, consume}
use time_flow_be.Calls.Types.{
  Call, video, ringing, missed, ended, no_answer, cancelled, User, offer, to_socket, signal,
  CallError, receiver_busy, call_ended,
}
use time_flow_be.Calls.Machine.{Env, World, State, ok, threw}
use time_flow_be.Calls.Finish.{
  load, load_own, emit, finish, finish_write, settle, settle_each, settle_stale_calls,
  assert_within_budget,
}
use time_flow_be.Calls.Service.{
  InitiateCallInput, place_call, announce, initiate, accept, answer_check, accept_check,
  accept_write, report, hang_up, end_own, end, relay_own, relay,
}
use time_flow_be.Calls.Lifecycle.{Trace}
use time_flow_be.Calls.Refines.{rows}
use time_flow_be.Calls.OneCall.{OneCall}
use time_flow_be.Calls.Reach.{
  initiates, accepts, ends, happen, Run, begin, then_happens, Run-refines, Run-OneCall,
  Run-over_stays,
}
use time_flow_be.Calls.Once.{ToldBoth, finish-tells_both, finish-once}
use time_flow_be.Calls.Race.{Revived, accept_write-revives}
use time_flow_be.Calls.Relay.{Relayed, relay-cases}

abbrev env : Env
env = record {
  prisma = Prisma.listed;
  redis = Redis.listed;
  ring_timeout_seconds = 30;
  reconnect_grace_seconds = 15;
  rate_limit_call_max = 10;
}

calls : Unit {0}
unfolding Prisma.listed Redis.listed absent live trim run_script put consume load_own finish
    finish_write settle settle_each settle_stale_calls assert_within_budget place_call announce
    initiate accept answer_check accept_check accept_write report hang_up end_own end relay_own
    relay
calls = tt

-- Everybody is online, and every tab is open.
abbrev at : ℕ → World
at now = record { now = now; is_socket_connected = λ _. true; is_user_online = λ _. true }

abbrev member : ℕ → User
member id = record { id = id; active = true; deleted_at = none }

abbrev idle : State env
unfolding calls
idle = record {
  calls = [];
  users = member 1 ∷ member 2 ∷ member 3 ∷ [];
  ring_timers = [];
  grace_timers = [];
  sent = [];
  budget = λ _. absent Redis.listed;
}

-- User 1 calls user 2 from the tab 10, and user 2 answers from the tab 20.
abbrev call_2 : InitiateCallInput
call_2 = record { receiver_id = 2; kind = video }

abbrev calling : State env
calling = happen env (at 1000) (initiates 7 1 10 call_2) idle

abbrev talking : State env
talking = happen env (at 4000) (accepts 2 20 7) calling

abbrev over : State env
over = happen env (at 9000) (ends 1 7 false) talking

abbrev ringing_row : Call
ringing_row = record {
  id = 7;
  kind = video;
  status = ringing;
  caller_id = 1;
  receiver_id = 2;
  caller_socket_id = some 10;
  receiver_socket_id = none;
  started_at = 1000;
  answered_at = none;
  connected_at = none;
  ended_at = none;
  duration_seconds = none;
  created_at = 1000;
}

abbrev ended_row : Call
ended_row = record ringing_row {
  status = ended;
  answered_at = some 4000;
  caller_socket_id = none;
  receiver_socket_id = none;
  ended_at = some 9000;
  duration_seconds = some 0;
}

is_ringing : rows env calling ≡ ringing_row ∷ []
unfolding calls
is_ringing = refl

is_ended : rows env over ≡ ended_row ∷ []
unfolding calls
is_ended = refl

third_caller : (initiate env (at 5000) 8 3 30 call_2 talking).0 ≡ threw receiver_busy
unfolding calls
third_caller = refl

late_answer : (accept env (at 9500) 2 20 7 over).0 ≡ threw call_ended
unfolding calls
late_answer = refl

offer_passes :
    relay env 1 10 offer 7 99 talking ≡ (ok tt, emit env (to_socket 20 (signal offer 7 99)) talking)
unfolding calls
offer_passes = refl

conversation : Run env idle over
conversation = then_happens (at 9000) (ends 1 7 false) (
    then_happens (at 4000) (accepts 2 20 7)
      (then_happens (at 1000) (initiates 7 1 10 call_2) begin))

idle-OneCall : OneCall (rows env idle)
unfolding calls
idle-OneCall = record { distinct = tt; one = λ user. omega arith }

Run-refines_example : Trace (rows env idle) (rows env over)
Run-refines_example = Run-refines env conversation

Run-OneCall_example : OneCall (rows env over)
Run-OneCall_example = Run-OneCall env conversation idle-OneCall

-- User 1 calls again after the end.
again : Run env over (happen env (at 20000) (initiates 8 1 10 call_2) over)
again = then_happens (at 20000) (initiates 8 1 10 call_2) begin

Run-over_stays_example :
    load env (happen env (at 20000) (initiates 8 1 10 call_2) over) 7 ≡ some ended_row
unfolding calls
Run-over_stays_example = Run-over_stays env 7 ended_row again refl refl

finish-tells_both_example :
    ToldBoth env
      (at 31000)
      7
      missed
      no_answer
      ringing_row
      calling
      (finish env (at 31000) 7 (ringing ∷ []) missed no_answer calling)
unfolding calls
finish-tells_both_example =
    finish-tells_both env (at 31000) 7 (ringing ∷ []) missed no_answer ringing_row calling
      (refl, tt) refl refl

-- The ring timer first, and then the caller who cancels.
finish-once_example :
    let s' = (finish env (at 31000) 7 (ringing ∷ []) missed no_answer calling).1 in
    finish env (at 31001) 7 (ringing ∷ []) missed cancelled s' ≡ (ok none, s')
unfolding calls
finish-once_example =
    finish-once env (at 31000) (at 31001) 7 (ringing ∷ []) (ringing ∷ []) missed missed no_answer
      cancelled ringing_row calling (refl, tt) refl refl refl refl

accept_write-revives_example :
    Revived env
      (at 31000)
      (accept_write env
        (at 31001)
        20
        7
        (finish env (at 31000) 7 (ringing ∷ []) missed no_answer calling).1).0
unfolding calls
accept_write-revives_example =
    accept_write-revives env (at 31000) (at 31001) 2 20 7 missed no_answer calling (refl, tt) refl

relay-cases_example :
    ((e : CallError) × (relay env 1 10 offer 7 99 talking ≡ (threw e, talking)))
    ⊎ ((target : ℕ) × (relay env 1 10 offer 7 99 talking
          ≡ (ok tt, emit env (to_socket target (signal offer 7 99)) talking))
        × Relayed env 1 10 7 target talking)
relay-cases_example = relay-cases env 1 10 offer 7 99 talking
