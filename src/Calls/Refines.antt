-- ===== src/Calls/Refines.antt =====
-- Every handler and timer of call.service.ts changes the table by steps of the abstract life of a call.
use time_flow_be.Prelude.{
  ℕ, ◌≡◌, refl, inl, inr, Option, none, some, List, [], ◌∷◌, Bool, true, false, ◌==◌, if◌then◌else◌,
  all, arith, Bool-cases, Option-cases,
}
use time_flow_be.Prisma
use time_flow_be.Prisma.{Prisma, find, update_where}
use time_flow_be.RateLimiter
use time_flow_be.Calls.Types.{
  Call, CallStatus, CallEndReason, ringing, accepted, connected, missed, ended, no_answer,
  disconnected, status_in, is_active, is_participant, CallError,
}
use time_flow_be.Calls.Machine.{
  Env, World, State, Result, ok, threw, M, then_do, ◌>>=◌, return, require, rolled_back,
  transaction,
}
use time_flow_be.Calls.Finish.{
  load, load_own, call_limiter, duration, clear_timers, tell_ended, can_finish, finished,
  finish_write, finish, settle, settle_each, settle_stale_calls, assert_within_budget,
}
use time_flow_be.Calls.Lifecycle.{Step, close, Trace, here, next, append}

module _ (env : Env) where
  open env use {prisma}

  abbrev pub rows : State env → List Call
  rows s = prisma.rows s.calls

  abbrev pub Follows : {A : Type 0} → M (State env) A → Type 0
  Follows m = (s : State env) → Trace (rows s) (rows (m s).1)

  module _ {A B : Type 0} where
    pub then_do-Trace :
        (cs : List Call) (r : Result A × State env) (f : A → M (State env) B)
        → Trace cs (rows r.1)
        → ((a : A) → Follows (f a))
        → Trace cs (rows (then_do r f).1)
    then_do-Trace cs (ok a, s) f t h = append t (h a s)
    then_do-Trace cs (threw e, s) f t h = t

    pub bind-Follows :
        (m : M (State env) A) (f : A → M (State env) B)
        → Follows m
        → ((a : A) → Follows (f a))
        → Follows (m >>= f)
    bind-Follows m f h k s = then_do-Trace (rows s) (m s) f (h s) k

  rolled_back-Trace :
      {A : Type 0} (s : State env) (r : Result A × State env)
      → Trace (rows s) (rows r.1)
      → Trace (rows s) (rows (rolled_back s r).1)
  rolled_back-Trace s (ok a, s') t = t
  rolled_back-Trace s (threw e, s') t = here

  pub transaction-Follows : {A : Type 0} (m : M (State env) A) → Follows m → Follows (transaction m)
  transaction-Follows m h s = rolled_back-Trace s (m s) (h s)

  pub if-Trace :
      {A : Type 0} (cs : List Call) (b : Bool) (x y : Result A × State env)
      → Trace cs (rows x.1)
      → Trace cs (rows y.1)
      → Trace cs (rows (if b then x else y).1)
  if-Trace cs true x y t u = t
  if-Trace cs false x y t u = u

  pub if-Follows :
      {A : Type 0} (b : Bool) (m n : M (State env) A)
      → Follows m
      → Follows n
      → Follows (if b then m else n)
  if-Follows true m n h k = h
  if-Follows false m n h k = k

  pub require-Follows : {A : Type 0} (o : Option A) (e : CallError) → Follows (require o e)
  require-Follows none e s = here
  require-Follows (some a) e s = here

  pub tell_ended-rows :
      (c : Call) (status : CallStatus) (reason : CallEndReason) (seconds : ℕ) (s : State env)
      → rows (tell_ended env c status reason seconds s) ≡ rows s
  tell_ended-rows c status reason seconds s = elim (Bool-cases (status_in (missed ∷ []) status)) [
    | inl e ↦ rw e
    | inr e ↦ rw e
  ]

  -- Steps that are one write of the table.
  pub written :
      {ds : List Call} (s : State env) (t : prisma.Table Call)
      → prisma.rows t ≡ ds
      → Step (rows s) ds
      → Trace (rows s) (prisma.rows t)
  written s t e st = rw e (next here st)

  close-Trace :
      (w : World) (call : ℕ) (from : List CallStatus) (status : CallStatus) (seconds : ℕ)
      (s : State env)
      → all is_active from ≡ true
      → is_active status ≡ false
      → Trace (rows s) (
          prisma.rows (
            prisma.update_many
              (can_finish env call from)
              (finished env status w.now seconds)
              s.calls))
  close-Trace w call from status seconds s h k =
      written s _ (prisma.rows-update_many _ _ s.calls) (close call from status w.now seconds h k)

  finish_write-Follows :
      (w : World) (call : ℕ) (from : List CallStatus) (status : CallStatus) (reason : CallEndReason)
      (since : Option ℕ)
      → all is_active from ≡ true
      → is_active status ≡ false
      → Follows (finish_write env w call from status reason since)
  unfolding finish_write
  finish_write-Follows w call from status reason since h k s =
      let seconds = duration env w.now since in
      let t =
        prisma.update_many (can_finish env call from) (finished env status w.now seconds) s.calls in
      let s' = clear_timers env call (record s { calls = t }) in
      let closed = close-Trace w call from status seconds s h k in
      if-Trace (rows s) (Prisma.count prisma (can_finish env call from) s.calls == 0) _ _ here
        (elim (Option-cases (load env s' call)) [
          | inl e ↦ rw e closed
          | inr (c, e) ↦ rw e (rw (tell_ended-rows c status reason seconds s') closed)
        ])

  pub finish-Follows :
      (w : World) (call : ℕ) (from : List CallStatus) (status : CallStatus) (reason : CallEndReason)
      → all is_active from ≡ true
      → is_active status ≡ false
      → Follows (finish env w call from status reason)
  unfolding finish
  finish-Follows w call from status reason h k s = elim (Option-cases (load env s call)) [
    | inl e ↦ rw (e, finish) here
    | inr (c, e) ↦
        rw (e, finish) (finish_write-Follows w call from status reason c.connected_at h k s)
  ]

  -- A finish whose answer is dropped.
  pub finish_and-Follows :
      (w : World) (call : ℕ) (from : List CallStatus) (status : CallStatus) (reason : CallEndReason)
      → all is_active from ≡ true
      → is_active status ≡ false
      → Follows (finish env w call from status reason >>= λ _. return tt)
  finish_and-Follows w call from status reason h k =
      bind-Follows (finish env w call from status reason) (λ _. return tt)
        (finish-Follows w call from status reason h k) (λ _ s. here)

  settle-Follows : (w : World) (c : Call) → Follows (settle env w c)
  unfolding settle
  settle-Follows w c s =
      let status = if status_in (connected ∷ []) c.status then ended else CallStatus.failed in
      let final : is_active status ≡ false = ground arith in
      if-Trace (rows s) (status_in (ringing ∷ []) c.status) _ _
        (if-Trace (rows s) _ _ _
          (finish_and-Follows w c.id (ringing ∷ []) missed no_answer refl refl s) here)
        (if-Trace (rows s) _ _ _
          (finish_and-Follows w c.id (accepted ∷ connected ∷ []) status disconnected refl final s)
          here)

  settle_each-Follows : (w : World) (cs : List Call) → Follows (settle_each env w cs)
  unfolding settle_each
  settle_each-Follows w [] s = here
  settle_each-Follows w (c ∷ cs) s =
      bind-Follows (settle env w c) (λ _. settle_each env w cs) (settle-Follows w c)
        (λ _. settle_each-Follows w cs) s

  pub settle_stale_calls-Follows :
      (w : World) (users : List ℕ) → Follows (settle_stale_calls env w users)
  unfolding settle_stale_calls
  settle_stale_calls-Follows w users s = settle_each-Follows w _ s

  pub assert_within_budget-Follows :
      (w : World) (user : ℕ) → Follows (assert_within_budget env w user)
  unfolding assert_within_budget
  assert_within_budget-Follows w user s =
      elim (Option-cases (RateLimiter.consume env.redis (call_limiter env) s.budget user w.now).0) [
        | inl e ↦ rw (e, assert_within_budget) here
        | inr (d, e) ↦ rw (e, assert_within_budget) (if-Trace (rows s) d.allowed _ _ here here)
      ]

  pub load_own-Follows : (call user : ℕ) → Follows (load_own env call user)
  unfolding load_own
  load_own-Follows call user s = elim (Option-cases (load env s call)) [
    | inl e ↦ rw (e, load_own) here
    | inr (c, e) ↦ rw (e, load_own) (if-Trace (rows s) (is_participant c user) _ _ here here)
  ]
