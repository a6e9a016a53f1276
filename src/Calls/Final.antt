-- ===== src/Calls/Final.antt =====
-- What is over stays over: another invariant of the abstract life of calls.
use time_flow_be.Prelude.{
  ℕ, ◌≡◌, refl, subst, ap, ◌∙◌, inl, inr, none, some, List, [], ◌∷◌, Bool, true, false, ◌&&◌, ◌==◌,
  all, arith, Bool-cases,
}
use time_flow_be.Prisma.{find, update_where, find-update_where}
use time_flow_be.Calls.Types.{Call, CallStatus, ringing, ordinal, status_in, is_active}
use time_flow_be.Calls.Lifecycle.{
  Step, place, note_missed, close, answer, link, move, Trace, here, next, has_id, caller_side,
  receiver_side,
}

pub status_in-is_active :
    (from : List CallStatus) (status : CallStatus)
    → all is_active from ≡ true
    → status_in from status ≡ true
    → is_active status ≡ true
status_in-is_active [] status h k = cc
status_in-is_active (s ∷ from) status h k = elim (Bool-cases (ordinal s == ordinal status)) [
  | inl same ↦ ground arith
  | inr other ↦ status_in-is_active from status (ground arith) (ground arith)
]

-- The call with this id is over, and this is its row.
pub record IsOver (id : ℕ) (c : Call) (cs : List Call) : Type 0 where
  pub found : find (has_id id) cs ≡ some c
  pub over : is_active c.status ≡ false

cons-IsOver :
    {id : ℕ} {c : Call} {cs : List Call} (d : Call)
    → find (has_id d.id) cs ≡ none
    → IsOver id c cs
    → IsOver id c (d ∷ cs)
cons-IsOver {id} {c} {cs} d fresh h = elim (Bool-cases (d.id == id)) [
  | inr other ↦ record { found = rw other h.found; over = h.over }
  | inl same ↦
      let id_eq : d.id ≡ id = ground arith in
      let gone : find (has_id id) cs ≡ none = subst (λ i. find (has_id i) cs ≡ none) id_eq fresh in
      absurd (cc (h.found))
]

-- A write that keeps ids and does not match the row.
update_where-IsOver :
    {id : ℕ} {c : Call} {cs : List Call} (p : Call → Bool) (f : Call → Call)
    → ((r : Call) → (f r).id ≡ r.id)
    → p c ≡ false
    → IsOver id c cs
    → IsOver id c (update_where p f cs)
update_where-IsOver {id} {c} {cs} p f keeps miss h = record {
  found = find-update_where (λ r. r.id) p f keeps id cs ∙ rw (h.found, miss) refl;
  over = h.over;
}

pub find-has_id : (id : ℕ) (c : Call) (cs : List Call) → find (has_id id) cs ≡ some c → c.id ≡ id
find-has_id id c [] e = cc
find-has_id id c (r ∷ rs) e = ground (arith, find-has_id id c rs)

stays_over :
    (call : ℕ) (from : List CallStatus) (c : Call)
    → all is_active from ≡ true
    → is_active c.status ≡ false
    → c.id == call && status_in from c.status ≡ false
stays_over call from c h over = elim (Bool-cases (status_in from c.status)) [
  | inl going ↦ absurd (cc (status_in-is_active from c.status h going))
  | inr e ↦ rw e (ground arith)
]

ringing_apart :
    {id : ℕ} {c : Call} {cs : List Call} (call : ℕ) (d : Call)
    → IsOver id c cs
    → find (has_id call) cs ≡ some d
    → d.status ≡ ringing
    → has_id call c ≡ false
ringing_apart {id} {c} {cs} call d h found rings = elim (Bool-cases (has_id call c)) [
  | inr e ↦ e
  | inl same ↦
      let c_id : c.id ≡ id = find-has_id id c cs h.found in
      let ids : call ≡ id = ground arith in
      let row : find (has_id id) cs ≡ some d = subst (λ i. find (has_id i) cs ≡ some d) ids found in
      let rows_agree : c ≡ d = cc (h.found) in
      absurd (ground (arith, ap (λ r. is_active r.status) rows_agree, h.over))
]

pub Step-IsOver :
    {id : ℕ} {c : Call} {cs ds : List Call} → Step cs ds → IsOver id c cs → IsOver id c ds
Step-IsOver (place d _ _ _ _ _ _ _ _ fresh) h = cons-IsOver d fresh h
Step-IsOver (note_missed d _ _ _ fresh) h = cons-IsOver d fresh h
Step-IsOver {c} (close call from status now seconds active _) h =
    update_where-IsOver _ _ (λ r. refl) (stays_over call from c active h.over) h
Step-IsOver {id} {c} (answer {cs} d call now socket found rings) h =
    update_where-IsOver _ _ (λ r. refl) (ringing_apart call d h found rings) h
Step-IsOver {c} (link call now) h = update_where-IsOver _ _ (λ r. refl) (ground (arith, h.over)) h
Step-IsOver {c} (move call socket caller_side) h =
    update_where-IsOver _ _ (λ r. refl) (ground (arith, h.over)) h
Step-IsOver {c} (move call socket receiver_side) h =
    update_where-IsOver _ _ (λ r. refl) (ground (arith, h.over)) h

pub Trace-IsOver :
    {id : ℕ} {c : Call} {cs ds : List Call} → Trace cs ds → IsOver id c cs → IsOver id c ds
Trace-IsOver here h = h
Trace-IsOver (next t s) h = Step-IsOver s (Trace-IsOver t h)
