-- ===== src/Calls/Lifecycle.antt =====
-- What may happen to the calls of the table, with no word of handlers, timers or sockets that are told:
-- the abstract life of a call.
use time_flow_be.Prelude.{
  ℕ, ◌≡◌, ◌≢◌, none, some, is_some, List, [], ◌∷◌, Bool, true, false, ◌&&◌, ◌==◌, filter, length,
  all,
}
use time_flow_be.Prisma.{find, update_where}
use time_flow_be.Calls.Types.{
  Call, CallStatus, ringing, accepted, status_in, is_active, active_call_where,
}

abbrev pub has_id : ℕ → Call → Bool
has_id id c = c.id == id

-- One of the two socket columns is written.
pub data Side : Type 0 where
  caller_side receiver_side : Side

abbrev pub moved : Side → ℕ → Call → Call
moved caller_side socket c = record c { caller_socket_id = some socket }
moved receiver_side socket c = record c { receiver_socket_id = some socket }

pub data Step : List Call → List Call → Type 0 where
  -- A call starts only between two people who are on no other call.
  place :
      {cs : List Call} (c : Call)
      → c.status ≡ ringing
      → c.answered_at ≡ none
      → c.connected_at ≡ none
      → c.ended_at ≡ none
      → c.receiver_socket_id ≡ none
      → c.caller_id ≢ c.receiver_id
      → length (filter (active_call_where c.caller_id) cs) ≡ 0
      → length (filter (active_call_where c.receiver_id) cs) ≡ 0
      → find (has_id c.id) cs ≡ none
      → Step cs (c ∷ cs)
  -- A call that could not start is recorded as one that is over.
  note_missed :
      {cs : List Call} (c : Call)
      → is_active c.status ≡ false
      → is_some c.ended_at ≡ true
      → c.connected_at ≡ none
      → find (has_id c.id) cs ≡ none
      → Step cs (c ∷ cs)
  -- Only calls that are going on are finished, and to a final status.
  close :
      {cs : List Call} (env_call : ℕ) (from : List CallStatus) (status : CallStatus)
      (now seconds : ℕ)
      → all is_active from ≡ true
      → is_active status ≡ false
      → Step cs (
          update_where
            (λ c. c.id == env_call && status_in from c.status)
            (λ c. record c {
              status = status;
              ended_at = some now;
              duration_seconds = some seconds;
              caller_socket_id = none;
              receiver_socket_id = none;
            })
            cs)
  -- Only a ringing call is answered.
  answer :
      {cs : List Call} (c : Call) (call now socket : ℕ)
      → find (has_id call) cs ≡ some c
      → c.status ≡ ringing
      → Step cs (
          update_where
            (has_id call)
            (λ r. record r {
              status = accepted;
              answered_at = some now;
              receiver_socket_id = some socket;
            })
            cs)
  -- Only an answered call is connected.
  link :
      {cs : List Call} (call now : ℕ)
      → Step cs (
          update_where
            (λ r. r.id == call && status_in (accepted ∷ []) r.status)
            (λ r. record r { status = CallStatus.connected; connected_at = some now })
            cs)
  -- A tab takes over a call that is going on.
  move :
      {cs : List Call} (call socket : ℕ) (side : Side)
      → Step cs (update_where (λ r. r.id == call && is_active r.status) (moved side socket) cs)

pub data Trace (cs : List Call) : List Call → Type 0 where
  here : Trace cs cs
  next : {ds es : List Call} → Trace cs ds → Step ds es → Trace cs es

pub append : {cs ds es : List Call} → Trace cs ds → Trace ds es → Trace cs es
append t here = t
append t (next u s) = next (append t u) s
