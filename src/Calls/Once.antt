-- ===== src/Calls/Once.antt =====
-- `finish` of call.service.ts: a call is finished at most once, and whoever finishes it tells both people.
use time_flow_be.Prelude.{
  ℕ, ◌≡◌, refl, sym, subst, ap, ◌∙◌, inl, inr, Option, none, some, List, [], ◌∷◌, ◌++◌, Bool, true,
  false, not, ◌==◌, if◌then◌else◌, filter, all, any, arith, Bool-cases,
}
use time_flow_be.Prisma
use time_flow_be.Prisma.Keys
use time_flow_be.Prisma.{Prisma, find, update_where, find-update_where}
use time_flow_be.Calls.Types.{
  Call, CallStatus, CallEndReason, missed, status_in, is_active, to_user, missed_notice, ended_call,
}
use time_flow_be.Calls.Machine.{Env, World, State, RingTimer, GraceTimer, Result, ok}
use time_flow_be.Calls.Finish.{
  load, duration, can_finish, finished, finish_write, finish, clear_timers, tell_ended,
}
use time_flow_be.Calls.Lifecycle.{has_id}
use time_flow_be.Calls.Refines.{rows, tell_ended-rows}
use time_flow_be.Calls.OneCall.{Distinct}
use time_flow_be.Calls.Final.{status_in-is_active, find-has_id}

any-filter : (A : Type 0) (p : A → Bool) (xs : List A) → any p (filter (λ x. not (p x)) xs) ≡ false
any-filter A p [] = refl
any-filter A p (x ∷ xs) = ground (arith, any-filter A p xs)

snoc2 : {A : Type 0} (xs : List A) (a b : A) → (xs ++ a ∷ []) ++ b ∷ [] ≡ xs ++ a ∷ b ∷ []
snoc2 [] a b = refl
snoc2 (x ∷ xs) a b = ap (λ l. x ∷ l) (snoc2 xs a b)

snoc3 :
    {A : Type 0} (xs : List A) (a b c : A)
    → ((xs ++ a ∷ []) ++ b ∷ []) ++ c ∷ [] ≡ xs ++ a ∷ b ∷ c ∷ []
snoc3 [] a b c = refl
snoc3 (x ∷ xs) a b c = ap (λ l. x ∷ l) (snoc3 xs a b c)

not_in :
    (from : List CallStatus) (status : CallStatus)
    → all is_active from ≡ true
    → is_active status ≡ false
    → status_in from status ≡ false
not_in from status h over = elim (Bool-cases (status_in from status)) [
  | inl going ↦ absurd (cc (status_in-is_active from status h going))
  | inr e ↦ e
]

module _ (env : Env) where
  open env use {prisma}

  -- The table once `finish` has written it.
  abbrev written_calls : World → ℕ → List CallStatus → CallStatus → Option ℕ → State env → State env
  written_calls w call from status since s = clear_timers env call (record s {
    calls =
        prisma.update_many (can_finish env call from)
          (finished env status w.now (duration env w.now since)) s.calls;
  })

  written_calls-rows :
      (w : World) (call : ℕ) (from : List CallStatus) (status : CallStatus) (since : Option ℕ)
      (s : State env)
      → rows env (written_calls w call from status since s)
        ≡ update_where
            (can_finish env call from)
            (finished env status w.now (duration env w.now since))
            (rows env s)
  written_calls-rows w call from status since s = prisma.rows-update_many _ _ s.calls

  finished-load :
      (w : World) (call : ℕ) (from : List CallStatus) (status : CallStatus) (since : Option ℕ)
      (c : Call) (s : State env)
      → load env s call ≡ some c
      → c.id ≡ call
      → status_in from c.status ≡ true
      → load env (written_calls w call from status since s) call
        ≡ some (finished env status w.now (duration env w.now since) c)
  finished-load w call from status since c s found id going =
      let test : (c.id == call) ≡ true = ground arith in
      ap (find (has_id call)) (written_calls-rows w call from status since s)
      ∙ find-update_where (λ r. r.id) (can_finish env call from)
          (finished env status w.now (duration env w.now since)) (λ r. refl) call (rows env s)
      ∙ rw (found, test, going) refl

  finish-won :
      (w : World) (call : ℕ) (from : List CallStatus) (status : CallStatus) (reason : CallEndReason)
      (c : Call) (s : State env)
      → Distinct (rows env s)
      → load env s call ≡ some c
      → status_in from c.status ≡ true
      → let seconds = duration env w.now c.connected_at in
        let done = finished env status w.now seconds c in
        finish env w call from status reason s ≡ (
          ok (some done),
          tell_ended env done status reason seconds
              (written_calls w call from status c.connected_at s),
        )
  unfolding finish finish_write
  finish-won w call from status reason c s distinct found going =
      let counted : Prisma.count prisma (can_finish env call from) s.calls ≡ 1 =
        Keys.count-key (λ r. r.id) call (λ r. status_in from r.status) c (rows env s) distinct found
        ∙ rw going refl in
      let id = find-has_id call c (rows env s) found in
      let row = finished-load w call from status c.connected_at c s found id going in
      rw (found, finish) (rw (counted, finish_write) (rw row refl))

  pub finish-lost :
      (w : World) (call : ℕ) (from : List CallStatus) (status : CallStatus) (reason : CallEndReason)
      (c : Call) (s : State env)
      → Distinct (rows env s)
      → load env s call ≡ some c
      → status_in from c.status ≡ false
      → finish env w call from status reason s ≡ (ok none, s)
  unfolding finish finish_write
  finish-lost w call from status reason c s distinct found over =
      let counted : Prisma.count prisma (can_finish env call from) s.calls ≡ 0 =
        Keys.count-key (λ r. r.id) call (λ r. status_in from r.status) c (rows env s) distinct found
        ∙ rw over refl in
      rw (found, finish) (rw (counted, finish_write) refl)

  -- What a winning finish leaves: the row that it answers, the news to both people, and no timer.
  pub record ToldBoth (w : World) (call : ℕ) (status : CallStatus) (reason : CallEndReason)
      (c : Call) (s : State env) (r : Result (Option Call) × State env) : Type 0 where
    pub answers : r.0 ≡ ok (some (finished env status w.now (duration env w.now c.connected_at) c))
    pub row :
        load env r.1 call ≡ some (finished env status w.now (duration env w.now c.connected_at) c)
    pub told :
        let news = ended_call call status reason (duration env w.now c.connected_at) in
        let done = finished env status w.now (duration env w.now c.connected_at) c in
        r.1.sent
        ≡ s.sent
          ++ to_user c.caller_id news
            ∷ to_user c.receiver_id news
            ∷ (if status_in (missed ∷ []) status then missed_notice done ∷ [] else [])
    pub no_ring : any (λ (t : RingTimer). t.call == call) r.1.ring_timers ≡ false
    pub no_grace : any (λ (t : GraceTimer). t.call == call) r.1.grace_timers ≡ false
    pub distinct : Distinct (rows env r.1)

  told_lem :
      (call : ℕ) (status : CallStatus) (reason : CallEndReason) (seconds : ℕ) (c : Call)
      (s : State env)
      → c.id ≡ call
      → let news = ended_call call status reason seconds in
        (tell_ended env c status reason seconds s).sent
        ≡ s.sent
          ++ to_user c.caller_id news
            ∷ to_user c.receiver_id news
            ∷ (if status_in (missed ∷ []) status then missed_notice c ∷ [] else [])
  told_lem call status reason seconds c s id = elim (Bool-cases (status_in (missed ∷ []) status)) [
    | inl e ↦ rw (e, id) (snoc3 s.sent _ _ _)
    | inr e ↦ rw (e, id) (snoc2 s.sent _ _)
  ]

  told_timers :
      (status : CallStatus) (reason : CallEndReason) (seconds : ℕ) (c : Call) (s : State env)
      → ((tell_ended env c status reason seconds s).ring_timers ≡ s.ring_timers)
        × ((tell_ended env c status reason seconds s).grace_timers ≡ s.grace_timers)
  told_timers status reason seconds c s = elim (Bool-cases (status_in (missed ∷ []) status)) [
    | inl e ↦ rw e (refl, refl)
    | inr e ↦ rw e (refl, refl)
  ]

  told-ToldBoth :
      (w : World) (call : ℕ) (from : List CallStatus) (status : CallStatus) (reason : CallEndReason)
      (c : Call) (s : State env)
      → Distinct (rows env s)
      → load env s call ≡ some c
      → status_in from c.status ≡ true
      → let seconds = duration env w.now c.connected_at in
        let done = finished env status w.now seconds c in
        ToldBoth w call status reason c s (
          ok (some done),
          tell_ended env done status reason seconds
              (written_calls w call from status c.connected_at s),
        )
  told-ToldBoth w call from status reason c s distinct found going =
      let seconds = duration env w.now c.connected_at in
      let done = finished env status w.now seconds c in
      let s' = written_calls w call from status c.connected_at s in
      let id = find-has_id call c (rows env s) found in
      let same_rows = tell_ended-rows env done status reason seconds s' in
      record {
        answers = refl;
        row =
            ap (find (has_id call)) same_rows
            ∙ finished-load w call from status c.connected_at c s found id going;
        told = told_lem call status reason seconds done s' id;
        no_ring =
            rw ((told_timers status reason seconds done s').0)
              (any-filter RingTimer (λ t. t.call == call) s.ring_timers);
        no_grace =
            rw ((told_timers status reason seconds done s').1)
              (any-filter GraceTimer (λ t. t.call == call) s.grace_timers);
        distinct =
            rw (same_rows, written_calls-rows w call from status c.connected_at s)
              (Keys.Distinct-update_where (λ r. r.id) (can_finish env call from)
                (finished env status w.now seconds) (λ r. refl) (rows env s) distinct);
      }

  -- Where ids are distinct and the call is in a status that may be finished, `finish` answers with the
  -- finished row and stores it; its duration counts from the connection. It sends each of the two
  -- people one word of the end, and a missed-call notice exactly when the call was missed, and it leaves
  -- no ring timer and no grace timer of the call.
  pub finish-tells_both :
      (w : World) (call : ℕ) (from : List CallStatus) (status : CallStatus) (reason : CallEndReason)
      (c : Call) (s : State env)
      → Distinct (rows env s)
      → load env s call ≡ some c
      → status_in from c.status ≡ true
      → ToldBoth w call status reason c s (finish env w call from status reason s)
  finish-tells_both w call from status reason c s distinct found going =
      subst (ToldBoth w call status reason c s)
        (sym (finish-won w call from status reason c s distinct found going))
        (told-ToldBoth w call from status reason c s distinct found going)

  -- Where ids are distinct, a call that one `finish` has brought to a final status is left alone by a
  -- second one for whatever reason: it answers null and changes and sends nothing.
  pub finish-once :
      (w w' : World) (call : ℕ) (from from' : List CallStatus) (status status' : CallStatus)
      (reason reason' : CallEndReason) (c : Call) (s : State env)
      → Distinct (rows env s)
      → load env s call ≡ some c
      → status_in from c.status ≡ true
      → is_active status ≡ false
      → all is_active from' ≡ true
      → let s' = (finish env w call from status reason s).1 in
        finish env w' call from' status' reason' s' ≡ (ok none, s')
  finish-once w w' call from from' status status' reason reason' c s distinct found going final
        active =
      let s' = (finish env w call from status reason s).1 in
      let told = finish-tells_both w call from status reason c s distinct found going in
      let done = finished env status w.now (duration env w.now c.connected_at) c in
      let id : c.id ≡ call = find-has_id call c (rows env s) found in
      let shut : status_in from' status ≡ false = not_in from' status active final in
      finish-lost w' call from' status' reason' done s' told.distinct told.row shut
