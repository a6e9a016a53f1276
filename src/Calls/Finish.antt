-- ===== src/Calls/Finish.antt =====
-- call.service.ts: the helpers above `callService`. A call of an asynchronous helper runs without
-- interruption here; Calls/Race looks between the steps.
use time_flow_be.Prelude.{
  ℕ, ◌+◌, ◌-◌, ◌*◌, ◌/◌, Option, none, some, List, [], ◌∷◌, ◌++◌, Bool, false, not, ◌&&◌, ◌||◌,
  ◌==◌, ltb, max, any, filter, if◌then◌else◌,
}
use time_flow_be.Prisma
use time_flow_be.Prisma.{Prisma}
use time_flow_be.RateLimiter
use time_flow_be.RateLimiter.{Limiter}
use time_flow_be.Calls.Types.{
  Call, CallStatus, ringing, accepted, connected, missed, ended, CallEndReason, no_answer,
  disconnected, status_in, is_participant, active_call_where, Event, to_user, missed_notice,
  ended_call, not_found, rate_limited,
}
use time_flow_be.Calls.Machine.{Env, World, State, GraceTimer, M, ◌>>=◌, return, throw}

module _ (env : Env) where
  open env use {prisma}

  abbrev pub emit : Event → State env → State env
  emit e s = record s { sent = s.sent ++ e ∷ [] }

  -- `clearTimer(ringTimers, callId)`
  abbrev pub clear_ring : ℕ → State env → State env
  clear_ring call s = record s { ring_timers = filter (λ t. not (t.call == call)) s.ring_timers }

  -- `schedule(ringTimers, callId, ms, …)`: a timer that stands under the key is replaced.
  abbrev pub schedule_ring : ℕ → ℕ → State env → State env
  schedule_ring call due s =
      let s' = clear_ring call s in
      record s' { ring_timers = record { call = call; due = due } ∷ s'.ring_timers }

  abbrev pub is_grace_of : ℕ → ℕ → GraceTimer → Bool
  is_grace_of call user t = t.call == call && t.user == user

  -- `clearTimer(graceTimers, `${callId}:${userId}`)`
  abbrev pub clear_grace : ℕ → ℕ → State env → State env
  clear_grace call user s = record s {
    grace_timers = filter (λ t. not (is_grace_of call user t)) s.grace_timers;
  }

  abbrev pub schedule_grace : GraceTimer → State env → State env
  schedule_grace t s =
      let s' = clear_grace t.call t.user s in record s' { grace_timers = t ∷ s'.grace_timers }

  -- Every timer of a call, as `finish` clears them.
  abbrev pub clear_timers : ℕ → State env → State env
  clear_timers call s =
      let s' = clear_ring call s in
      record s' { grace_timers = filter (λ t. not (t.call == call)) s'.grace_timers }

  abbrev pub load : State env → ℕ → Option Call
  load s call = Prisma.find_first prisma (λ c. c.id == call) s.calls

  unfoldable pub load_own : ℕ → ℕ → M (State env) Call
  load_own call user s = elim (load s call) [
    | none ↦ throw not_found s
    | some c ↦ if is_participant c user then return c s else throw not_found s
  ]

  -- `Math.max(0, Math.round((endedAt - connectedAt) / 1000))`, and 0 for a call that never connected.
  abbrev pub duration : ℕ → Option ℕ → ℕ
  duration now none = 0
  duration now (some since) = (now - since + 500) / 1000

  -- The conditional update of `finish`.
  abbrev pub can_finish : ℕ → List CallStatus → Call → Bool
  can_finish call from c = c.id == call && status_in from c.status

  abbrev pub finished : CallStatus → ℕ → ℕ → Call → Call
  finished status now seconds c = record c {
    status = status;
    ended_at = some now;
    duration_seconds = some seconds;
    caller_socket_id = none;
    receiver_socket_id = none;
  }

  abbrev pub tell_ended : Call → CallStatus → CallEndReason → ℕ → State env → State env
  tell_ended c status reason seconds s =
      let news = ended_call c.id status reason seconds in
      let s' = emit (to_user c.receiver_id news) (emit (to_user c.caller_id news) s) in
      if status_in (missed ∷ []) status then emit (missed_notice c) s' else s'

  -- The second part of `finish`, once `connectedAt` has been read.
  unfoldable pub finish_write :
      World
      → ℕ
      → List CallStatus
      → CallStatus
      → CallEndReason
      → Option ℕ
      → M (State env) (Option Call)
  finish_write w call from status reason since s =
      let seconds = duration w.now since in
      let calls =
        prisma.update_many (can_finish call from) (finished status w.now seconds) s.calls in
      let s' = clear_timers call (record s { calls = calls }) in
      if Prisma.count prisma (can_finish call from) s.calls == 0
      then return none s
      else elim (load s' call) [
        | none ↦ return none s'
        | some c ↦ return (some c) (tell_ended c status reason seconds s')
      ]

  unfoldable pub finish :
      World → ℕ → List CallStatus → CallStatus → CallEndReason → M (State env) (Option Call)
  finish w call from status reason s = elim (load s call) [
    | none ↦ return none s
    | some current ↦ finish_write w call from status reason current.connected_at s
  ]

  -- Is the tab of a socket that may be null open?
  abbrev pub is_open : World → Option ℕ → Bool
  is_open w none = false
  is_open w (some socket) = w.is_socket_connected socket

  -- What `settleStaleCalls` does about one of the calls that it has found.
  unfoldable pub settle : World → Call → M (State env) (Unit {0})
  settle w call s =
      let stale =
        ltb (call.started_at + (env.ring_timeout_seconds + 5) * 1000) w.now
        || not (is_open w call.caller_socket_id) in
      let pending = any (λ t. t.call == call.id) s.grace_timers in
      let alive = is_open w call.caller_socket_id || is_open w call.receiver_socket_id in
      let status = if status_in (connected ∷ []) call.status then ended else CallStatus.failed in
      if status_in (ringing ∷ []) call.status
      then if stale
        then (finish w call.id (ringing ∷ []) missed no_answer >>= λ _. return tt) s
        else return tt s
      else if not alive && not pending
      then (finish w call.id (accepted ∷ connected ∷ []) status disconnected >>= λ _. return tt) s
      else return tt s

  unfoldable pub settle_each : World → List Call → M (State env) (Unit {0})
  settle_each w [] = return tt
  settle_each w (c ∷ cs) = settle w c >>= λ _. settle_each w cs

  unfoldable pub settle_stale_calls : World → List ℕ → M (State env) (Unit {0})
  settle_stale_calls w users s =
      settle_each w
        (Prisma.find_many prisma (λ c. any (λ user. active_call_where user c) users) s.calls) s

  abbrev pub call_limiter : Limiter
  call_limiter = record { limit = env.rate_limit_call_max; window_ms = 60000 }

  -- `assertWithinBudget`; a limiter that fails lets the request through.
  unfoldable pub assert_within_budget : World → ℕ → M (State env) (Unit {0})
  assert_within_budget w user s =
      let (answer, budget) = RateLimiter.consume env.redis call_limiter s.budget user w.now in
      let s' = record s { budget = budget } in
      elim answer [
        | none ↦ return tt s'
        | some d ↦
            if d.allowed
            then return tt s'
            else throw (rate_limited (max 1 ((d.retry_after_ms + 999) / 1000))) s'
      ]
