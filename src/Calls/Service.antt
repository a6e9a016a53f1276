-- ===== src/Calls/Service.antt =====
-- call.service.ts: `callService`. The signed-in user is given by the id `actor`.
use time_flow_be.Prelude.{
  ℕ, ◌+◌, ◌*◌, Option, none, some, is_some, opt_eq, List, [], ◌∷◌, Bool, not, ◌&&◌, ◌||◌, ◌==◌,
  if◌then◌else◌,
}
use time_flow_be.Prisma
use time_flow_be.Prisma.{Prisma}
use time_flow_be.Calls.Types.{
  Call, CallKind, CallStatus, ringing, accepted, connected, rejected, missed, ended, CallEndReason,
  hangup, cancelled, no_answer, disconnected, User, status_in, is_active, CallDto, to_call_dto,
  active_call_where, bound_socket, other_socket, to_user, to_socket, to_user_except, missed_notice,
  Message, incoming_call, accepted_call, answered_elsewhere, Signal, signal, self_call,
  receiver_not_found, not_found, already_active, already_answered, call_ended, receiver_busy,
  receiver_offline, not_active, other_tab, unique_violation,
}
use time_flow_be.Calls.Machine.{
  Env, World, State, RingTimer, GraceTimer, M, ◌>>=◌, return, throw, require, transaction, modify,
}
use time_flow_be.Calls.Finish.{
  emit, clear_ring, schedule_ring, clear_grace, schedule_grace, load, load_own, finish,
  settle_stale_calls, assert_within_budget, is_open,
}

-- `outcome.kind`
pub data Kind : Type 0 where
  busy offline started : Kind

pub record InitiateCallInput : Type 0 where
  pub receiver_id : ℕ
  pub kind : CallKind

module _ (env : Env) where
  open env use {prisma}

  abbrev pub is_receiver : ℕ → User → Bool
  is_receiver user u = u.id == user && not (is_some u.deleted_at) && u.active

  -- How many calls that are going on a user is part of.
  abbrev pub active_count : ℕ → State env → ℕ
  active_count user s = Prisma.count prisma (active_call_where user) s.calls

  -- `tx.call.create`; the id is the one that the database makes up.
  abbrev pub create_call : Call → M (State env) Call
  create_call c s =
      if is_some (load env s c.id)
      then throw unique_violation s
      else return c (record s { calls = prisma.create c s.calls })

  abbrev pub missed_call : World → ℕ → ℕ → InitiateCallInput → Call
  missed_call w id actor input = record {
    id = id;
    kind = input.kind;
    status = missed;
    caller_id = actor;
    receiver_id = input.receiver_id;
    caller_socket_id = none;
    receiver_socket_id = none;
    started_at = w.now;
    answered_at = none;
    connected_at = none;
    ended_at = some w.now;
    duration_seconds = some 0;
    created_at = w.now;
  }

  abbrev pub ringing_call : World → ℕ → ℕ → ℕ → InitiateCallInput → Call
  ringing_call w id actor socket input = record {
    id = id;
    kind = input.kind;
    status = ringing;
    caller_id = actor;
    receiver_id = input.receiver_id;
    caller_socket_id = some socket;
    receiver_socket_id = none;
    started_at = w.now;
    answered_at = none;
    connected_at = none;
    ended_at = none;
    duration_seconds = none;
    created_at = w.now;
  }

  -- The body of the transaction of `initiate`, which holds both users' locks.
  unfoldable pub place_call : World → ℕ → ℕ → ℕ → InitiateCallInput → M (State env) (Kind × Call)
  place_call w id actor socket input s =
      let is_busy = not (active_count input.receiver_id s == 0) in
      if not (active_count actor s == 0)
      then throw already_active s
      else if is_busy || not (w.is_user_online input.receiver_id)
      then (create_call (missed_call w id actor input) >>= λ c.
            return (if is_busy then busy else offline, c))
          s
      else (create_call (ringing_call w id actor socket input) >>= λ c. return (started, c)) s

  -- What `initiate` does once the transaction is committed.
  unfoldable pub announce : World → Kind × Call → M (State env) CallDto
  announce w (busy, c) s = throw receiver_busy (emit env (missed_notice c) s)
  announce w (offline, c) s = throw receiver_offline (emit env (missed_notice c) s)
  announce w (started, c) s = return (to_call_dto c) (
      schedule_ring env c.id (w.now + env.ring_timeout_seconds * 1000)
        (emit env (to_user c.receiver_id (incoming_call c.id)) s))

  unfoldable pub initiate : World → ℕ → ℕ → ℕ → InitiateCallInput → M (State env) CallDto
  initiate w id actor socket input s =
      if input.receiver_id == actor
      then throw self_call s
      else (require (Prisma.find_first prisma (is_receiver input.receiver_id) s.users)
              receiver_not_found
            >>= λ receiver. assert_within_budget env w actor >>= λ _.
                settle_stale_calls env w (actor ∷ receiver.id ∷ []) >>= λ _.
                transaction (place_call w id actor socket input) >>= λ outcome. announce w outcome)
          s

  abbrev pub is_call : ℕ → Call → Bool
  is_call call c = c.id == call

  -- What the transaction of `accept` asks of the call that it has found.
  unfoldable pub answer_check : ℕ → Call → M (State env) (Unit {0})
  answer_check actor current s =
      if not (current.receiver_id == actor)
      then throw not_found s
      else if status_in (accepted ∷ connected ∷ []) current.status
      then throw already_answered s
      else if not (status_in (ringing ∷ []) current.status)
      then throw call_ended s
      else if not (
          Prisma.count prisma (λ c. active_call_where actor c && not (c.id == current.id)) s.calls
          == 0)
      then throw already_active s
      else return tt s

  unfoldable pub accept_check : ℕ → ℕ → M (State env) (Unit {0})
  accept_check actor call s = elim (load env s call) [
    | none ↦ throw not_found s
    | some current ↦ answer_check actor current s
  ]

  abbrev pub answered : World → ℕ → Call → Call
  answered w socket c = record c {
    status = accepted;
    answered_at = some w.now;
    receiver_socket_id = some socket;
  }

  -- Its update, which is by the id alone.
  unfoldable pub accept_write : World → ℕ → ℕ → M (State env) Call
  accept_write w socket call s =
      let s' = record s { calls = prisma.update_many (is_call call) (answered w socket) s.calls } in
      require (load env s' call) not_found s'

  abbrev pub emit_to : Option ℕ → Message → State env → State env
  emit_to none m s = s
  emit_to (some socket) m s = emit env (to_socket socket m) s

  unfoldable pub accept : World → ℕ → ℕ → ℕ → M (State env) CallDto
  accept w actor socket call = settle_stale_calls env w (actor ∷ []) >>= λ _.
      transaction (accept_check actor call >>= λ _. accept_write w socket call) >>= λ c.
      modify (clear_ring env call) >>= λ _.
      modify (emit_to c.caller_socket_id (accepted_call call)) >>= λ _.
      modify (emit env (to_user_except actor socket (answered_elsewhere call))) >>= λ _.
      return (to_call_dto c)

  -- `toCallDto(done ?? (await load(callId))!)`
  unfoldable pub report : ℕ → Option Call → M (State env) CallDto
  report call (some c) s = return (to_call_dto c) s
  report call none s = (require (load env s call) not_found >>= λ c. return (to_call_dto c)) s

  unfoldable pub reject_own : World → ℕ → ℕ → Call → M (State env) CallDto
  reject_own w actor call c s =
      if not (c.receiver_id == actor)
      then throw not_found s
      else if not (status_in (ringing ∷ []) c.status)
      then throw (if is_active c.status then already_answered else call_ended) s
      else (finish env w call (ringing ∷ []) rejected CallEndReason.rejected >>= report call) s

  unfoldable pub reject : World → ℕ → ℕ → M (State env) CallDto
  reject w actor call = load_own env call actor >>= reject_own w actor call

  -- The choice that `end` makes for a call that is still going; `broken` is `reason === 'failed'`.
  unfoldable pub hang_up : World → ℕ → Bool → Call → M (State env) (Option Call)
  hang_up w actor broken c s =
      if status_in (ringing ∷ []) c.status
      then (if c.caller_id == actor
          then finish env w c.id (ringing ∷ []) missed cancelled s
          else finish env w c.id (ringing ∷ []) rejected CallEndReason.rejected s)
      else if status_in (accepted ∷ []) c.status && broken
      then finish env w c.id (accepted ∷ []) CallStatus.failed CallEndReason.failed s
      else finish env w c.id (accepted ∷ connected ∷ []) ended
          (if broken then CallEndReason.failed else hangup) s

  unfoldable pub end_own : World → ℕ → Bool → Call → M (State env) CallDto
  end_own w actor broken c s =
      if not (is_active c.status)
      then return (to_call_dto c) s
      else (hang_up w actor broken c >>= report c.id) s

  unfoldable pub end : World → ℕ → ℕ → Bool → M (State env) CallDto
  end w actor call broken = load_own env call actor >>= end_own w actor broken

  abbrev pub connect : World → Call → Call
  connect w c = record c { status = connected; connected_at = some w.now }

  unfoldable pub mark_write : World → ℕ → M (State env) (Unit {0})
  mark_write w call s = return tt (record s {
    calls =
        prisma.update_many (λ r. r.id == call && status_in (accepted ∷ []) r.status) (connect w)
          s.calls;
  })

  unfoldable pub mark_own : World → ℕ → ℕ → ℕ → Call → M (State env) CallDto
  mark_own w actor socket call c s =
      if not (opt_eq (bound_socket c actor) (some socket))
      then throw other_tab s
      else if status_in (accepted ∷ []) c.status
      then (mark_write w call >>= λ _. report call none) s
      else if not (status_in (connected ∷ []) c.status)
      then throw call_ended s
      else report call none s

  unfoldable pub mark_connected : World → ℕ → ℕ → ℕ → M (State env) CallDto
  mark_connected w actor socket call = load_own env call actor >>= mark_own w actor socket call

  unfoldable pub relay_own : ℕ → ℕ → Signal → ℕ → ℕ → Call → M (State env) (Unit {0})
  relay_own actor socket event call payload c s =
      if not (status_in (accepted ∷ connected ∷ []) c.status)
      then throw not_active s
      else if not (opt_eq (bound_socket c actor) (some socket))
      then throw other_tab s
      else elim (other_socket c actor) [
        | none ↦ throw not_active s
        | some target ↦ return tt (emit env (to_socket target (signal event call payload)) s)
      ]

  unfoldable pub relay : ℕ → ℕ → Signal → ℕ → ℕ → M (State env) (Unit {0})
  relay actor socket event call payload =
      load_own env call actor >>= relay_own actor socket event call payload

  -- The tab that holds the call is another one, and it is open.
  abbrev pub is_taken : World → Option ℕ → ℕ → Bool
  is_taken w bound socket = not (opt_eq bound (some socket)) && is_open env w bound

  -- The column that `resume` writes for the actor.
  unfoldable pub rebind_write : ℕ → ℕ → ℕ → Call → M (State env) (Unit {0})
  rebind_write actor socket call c s =
      let where_active = λ (r : Call). r.id == call && is_active r.status in
      let as_caller =
        prisma.update_many where_active (λ r. record r { caller_socket_id = some socket })
          s.calls in
      let as_receiver =
        prisma.update_many where_active (λ r. record r { receiver_socket_id = some socket })
          s.calls in
      return tt (record s { calls = if c.caller_id == actor then as_caller else as_receiver })

  unfoldable pub resume_own : World → ℕ → ℕ → ℕ → Call → M (State env) CallDto
  resume_own w actor socket call c s =
      if not (is_active c.status)
        || (status_in (ringing ∷ []) c.status && not (c.caller_id == actor))
      then throw call_ended s
      else if is_taken w (bound_socket c actor) socket
      then throw other_tab s
      else (rebind_write actor socket call c >>= λ _.
            modify (clear_grace env call actor) >>= λ _. report call none)
          s

  unfoldable pub resume : World → ℕ → ℕ → ℕ → M (State env) CallDto
  resume w actor socket call = load_own env call actor >>= resume_own w actor socket call

  abbrev pub is_bound_to : ℕ → Call → Bool
  is_bound_to socket c =
      is_active c.status
      && (opt_eq c.caller_socket_id (some socket) || opt_eq c.receiver_socket_id (some socket))

  unfoldable pub grace_each : World → ℕ → ℕ → List Call → M (State env) (Unit {0})
  grace_each w user socket [] = return tt
  grace_each w user socket (c ∷ cs) =
      modify (
        schedule_grace env (record {
          call = c.id;
          user = user;
          socket = socket;
          due = w.now + env.reconnect_grace_seconds * 1000;
        }))
      >>= λ _. grace_each w user socket cs

  unfoldable pub on_socket_disconnect : World → ℕ → ℕ → M (State env) (Unit {0})
  on_socket_disconnect w user socket s =
      grace_each w user socket (Prisma.find_many prisma (is_bound_to socket) s.calls) s

  -- A ring timer fires: it leaves the map, and finishes the call if that still rings.
  unfoldable pub ring_fired : World → RingTimer → M (State env) (Unit {0})
  ring_fired w t = modify (clear_ring env t.call) >>= λ _.
      finish env w t.call (ringing ∷ []) missed no_answer >>= λ _. return tt

  -- A grace timer fires.
  unfoldable pub grace_fired : World → GraceTimer → M (State env) (Unit {0})
  grace_fired w t s =
      let s' = clear_grace env t.call t.user s in
      elim (load env s' t.call) [
        | none ↦ return tt s'
        | some c ↦
            if not (is_active c.status)
              || not (opt_eq (bound_socket c t.user) (some t.socket))
              || w.is_socket_connected t.socket
            then return tt s'
            else if status_in (ringing ∷ []) c.status
            then (finish env w t.call (ringing ∷ []) missed cancelled >>= λ _. return tt) s'
            else (finish env w t.call (accepted ∷ connected ∷ [])
                    (if status_in (connected ∷ []) c.status then ended else CallStatus.failed)
                    disconnected
                  >>= λ _. return tt)
                s'
      ]
