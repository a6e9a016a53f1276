-- ===== src/Calls/Types.antt =====
-- call.types.ts, call.repository.ts and the model Call of prisma/schema.prisma. Ids of calls, users and
-- sockets are numbers, of which only equality is used; times are milliseconds.
use time_flow_be.Prelude.{ℕ, Option, List, [], ◌∷◌, Bool, ◌&&◌, ◌||◌, ◌==◌, any, if◌then◌else◌}

pub data CallKind : Type 0 where
  audio video : CallKind

pub data CallStatus : Type 0 where
  ringing accepted connected rejected missed ended failed : CallStatus

pub data CallEndReason : Type 0 where
  hangup rejected cancelled no_answer busy offline failed disconnected : CallEndReason

-- Statuses are told apart by their place in the enumeration.
abbrev pub ordinal : CallStatus → ℕ
ordinal CallStatus.ringing = 0
ordinal CallStatus.accepted = 1
ordinal CallStatus.connected = 2
ordinal CallStatus.rejected = 3
ordinal CallStatus.missed = 4
ordinal CallStatus.ended = 5
ordinal CallStatus.failed = 6

-- `status: { in: from }`
abbrev pub status_in : List CallStatus → CallStatus → Bool
status_in from status = any (λ s. ordinal s == ordinal status) from

abbrev pub active_call_statuses : List CallStatus
active_call_statuses = ringing ∷ accepted ∷ connected ∷ []

abbrev pub is_active : CallStatus → Bool
is_active status = status_in active_call_statuses status

pub record Call : Type 0 where
  pub id : ℕ
  pub kind : CallKind
  pub status : CallStatus
  pub caller_id : ℕ
  pub receiver_id : ℕ
  pub caller_socket_id : Option ℕ
  pub receiver_socket_id : Option ℕ
  pub started_at : ℕ
  pub answered_at : Option ℕ
  pub connected_at : Option ℕ
  pub ended_at : Option ℕ
  pub duration_seconds : Option ℕ
  pub created_at : ℕ

-- `toCallDto`: the sockets stay on the server. People are given by their ids.
pub record CallDto : Type 0 where
  pub id : ℕ
  pub kind : CallKind
  pub status : CallStatus
  pub caller : ℕ
  pub receiver : ℕ
  pub started_at : ℕ
  pub answered_at : Option ℕ
  pub connected_at : Option ℕ
  pub ended_at : Option ℕ
  pub duration_seconds : Option ℕ

abbrev pub to_call_dto : Call → CallDto
to_call_dto r = record {
  id = r.id;
  kind = r.kind;
  status = r.status;
  caller = r.caller_id;
  receiver = r.receiver_id;
  started_at = r.started_at;
  answered_at = r.answered_at;
  connected_at = r.connected_at;
  ended_at = r.ended_at;
  duration_seconds = r.duration_seconds;
}

abbrev pub is_participant : Call → ℕ → Bool
is_participant call user = call.caller_id == user || call.receiver_id == user

-- `activeCallWhere(userId)`
abbrev pub active_call_where : ℕ → Call → Bool
active_call_where user call = is_active call.status && is_participant call user

-- The tab each side is in the call from.
abbrev pub bound_socket : Call → ℕ → Option ℕ
bound_socket call user =
    if call.caller_id == user then call.caller_socket_id else call.receiver_socket_id

abbrev pub other_socket : Call → ℕ → Option ℕ
other_socket call user =
    if call.caller_id == user then call.receiver_socket_id else call.caller_socket_id

-- The part of the model User that calls read.
pub record User : Type 0 where
  pub id : ℕ
  pub active : Bool
  pub deleted_at : Option ℕ

-- The four signals that `relay` passes on.
pub data Signal : Type 0 where
  offer answer ice_candidate media_state : Signal

pub data Message : Type 0 where
  incoming_call accepted_call answered_elsewhere : ℕ → Message
  signal : Signal → ℕ → ℕ → Message
  ended_call : ℕ → CallStatus → CallEndReason → ℕ → Message

-- What the service sends, oldest last. `missed_notice` is the bell notification.
pub data Event : Type 0 where
  to_user : ℕ → Message → Event
  to_socket : ℕ → Message → Event
  to_user_except : ℕ → ℕ → Message → Event
  missed_notice : Call → Event

pub data CallError : Type 0 where
  self_call receiver_not_found not_found already_active already_answered call_ended receiver_busy
        receiver_offline not_active other_tab :
      CallError
  rate_limited : ℕ → CallError
  -- The database refuses a second row with the same id.
  unique_violation : CallError
