-- ===== src/Calls/OneCall.antt =====
-- Nobody is ever on two calls: an invariant of the abstract life of calls.
use time_flow_be.Prelude.{
  ℕ, ◌≤◌, ◌≡◌, ◌≢◌, refl, subst, inl, inr, none, some, List, [], ◌∷◌, Bool, true, ◌==◌, filter,
  length, arith, Bool-cases,
}
use time_flow_be.Prisma.Keys
use time_flow_be.Prisma.{find, update_where}
use time_flow_be.Calls.Types.{Call, ringing, accepted, active_call_where}
use time_flow_be.Calls.Lifecycle.{
  Step, place, note_missed, close, answer, link, move, Trace, here, next, has_id, caller_side,
  receiver_side,
}

-- The calls that a user is on.
abbrev pub calls_of : ℕ → List Call → ℕ
calls_of user cs = length (filter (active_call_where user) cs)

abbrev pub Distinct : List Call → Type 0
Distinct cs = Keys.Distinct (λ c. c.id) cs

pub record OneCall (cs : List Call) : Type 0 where
  pub distinct : Distinct cs
  pub one : (user : ℕ) → calls_of user cs ≤ 1

-- A write after which a row counts only if it counted before.
module _ (user : ℕ) (p : Call → Bool) (f : Call → Call)
    (no_new : (r : Call)
      → p r ≡ true
      → active_call_where user (f r) ≡ true
      → active_call_where user r ≡ true) where
  calls_of-update_where : (cs : List Call) → calls_of user (update_where p f cs) ≤ calls_of user cs
  calls_of-update_where [] = omega arith
  calls_of-update_where (r ∷ rs) = elim (Bool-cases (p r)) [
    | inr miss ↦ rw miss (ground (arith, calls_of-update_where rs))
    | inl hit ↦ rw hit (elim (Bool-cases (active_call_where user (f r))) [
      | inr off ↦ rw off (ground (arith, calls_of-update_where rs))
      | inl on ↦ rw (on, no_new r hit on) (ground (arith, calls_of-update_where rs))
    ])
  ]

-- A write that keeps ids.
module _ (p : Call → Bool) (f : Call → Call) (keeps : (r : Call) → (f r).id ≡ r.id) where
  update_where-OneCall :
      {cs : List Call}
      → ((user : ℕ) (r : Call)
          → p r ≡ true
          → active_call_where user (f r) ≡ true
          → active_call_where user r ≡ true)
      → OneCall cs
      → OneCall (update_where p f cs)
  update_where-OneCall {cs} no_new h = record {
    distinct = Keys.Distinct-update_where (λ c. c.id) p f keeps cs h.distinct;
    one = λ user. omega (arith, calls_of-update_where user p f (no_new user) cs, h.one user);
  }

-- The row that is found is the only one with its id.
update_where-absent :
    (id : ℕ) (f : Call → Call) (cs : List Call)
    → find (has_id id) cs ≡ none
    → update_where (has_id id) f cs ≡ cs
update_where-absent id f [] e = refl
update_where-absent id f (r ∷ rs) e = ground (arith, update_where-absent id f rs)

abbrev answered_row : ℕ → ℕ → Call → Call
answered_row now socket r = record r {
  status = accepted;
  answered_at = some now;
  receiver_socket_id = some socket;
}

calls_of-answer :
    (user call now socket : ℕ) (c : Call) (cs : List Call)
    → find (has_id call) cs ≡ some c
    → c.status ≡ ringing
    → Distinct cs
    → calls_of user (update_where (has_id call) (answered_row now socket) cs) ≡ calls_of user cs
calls_of-answer user call now socket c [] e k d = cc
calls_of-answer user call now socket c (r ∷ rs) e k (fresh, d) = elim (Bool-cases (r.id == call)) [
  | inr other ↦ ground (arith, calls_of-answer user call now socket c rs)
  | inl same ↦
      let id : r.id ≡ call = ground arith in
      let rings : r.status ≡ ringing = ground arith in
      let tail : update_where (has_id call) (answered_row now socket) rs ≡ rs =
        update_where-absent call (answered_row now socket) rs
          (subst (λ i. find (has_id i) rs ≡ none) id fresh) in
      rw (same, tail) (ground arith)
]

place-OneCall :
    {cs : List Call} (c : Call)
    → c.status ≡ ringing
    → c.caller_id ≢ c.receiver_id
    → calls_of c.caller_id cs ≡ 0
    → calls_of c.receiver_id cs ≡ 0
    → find (has_id c.id) cs ≡ none
    → OneCall cs
    → OneCall (c ∷ cs)
place-OneCall {cs} c rings apart no_caller no_receiver fresh h = record {
  distinct = (fresh, h.distinct);
  one = λ user. elim (Bool-cases (c.caller_id == user)) [
    | inl is_caller ↦
        let who : c.caller_id ≡ user = ground arith in
        let none_yet : calls_of user cs ≡ 0 = rw (← who) no_caller in ground arith
    | inr not_caller ↦ elim (Bool-cases (c.receiver_id == user)) [
      | inl is_receiver ↦
          let who : c.receiver_id ≡ user = ground arith in
          let none_yet : calls_of user cs ≡ 0 = rw (← who) no_receiver in ground arith
      | inr stranger ↦ ground (arith, h.one user)
    ]
  ];
}

pub Step-OneCall : {cs ds : List Call} → Step cs ds → OneCall cs → OneCall ds
Step-OneCall (place c rings _ _ _ _ apart no_caller no_receiver fresh) h =
    place-OneCall c rings apart no_caller no_receiver fresh h
Step-OneCall (note_missed {cs} c over _ _ fresh) h = record {
  distinct = (fresh, h.distinct);
  one = λ user. ground (arith, h.one user);
}
Step-OneCall (close call from status now seconds h k) inv =
    update_where-OneCall _ _ (λ r. refl) (λ user r p on. ground arith) inv
Step-OneCall (answer {cs} c call now socket found rings) inv = record {
  distinct = Keys.Distinct-update_where (λ c. c.id) _ _ (λ r. refl) cs inv.distinct;
  one = λ user.
      omega
        (arith, calls_of-answer user call now socket c cs found rings inv.distinct, inv.one user);
}
Step-OneCall (link call now) inv =
    update_where-OneCall _ _ (λ r. refl) (λ user r p on. ground arith) inv
Step-OneCall (move call socket caller_side) inv =
    update_where-OneCall _ _ (λ r. refl) (λ user r p on. ground arith) inv
Step-OneCall (move call socket receiver_side) inv =
    update_where-OneCall _ _ (λ r. refl) (λ user r p on. ground arith) inv

pub Trace-OneCall : {cs ds : List Call} → Trace cs ds → OneCall cs → OneCall ds
Trace-OneCall here h = h
Trace-OneCall (next t s) h = Step-OneCall s (Trace-OneCall t h)
