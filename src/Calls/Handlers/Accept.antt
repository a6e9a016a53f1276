-- ===== src/Calls/Handlers/Accept.antt =====
-- `accept` of call.service.ts: what its checks let through, and what it writes.
use time_flow_be.Prelude.{
  ℕ, ◌≡◌, refl, inl, inr, ◌⊎◌, Option, none, some, [], ◌∷◌, true, false, not, ◌&&◌, ◌==◌, filter,
  length, arith, Bool-cases, Option-cases, ==_iff,
}
use time_flow_be.Prisma
use time_flow_be.Prisma.{Prisma, find, update_where}
use time_flow_be.Calls.Types.{
  Call, CallStatus, ringing, accepted, connected, status_in, CallError, active_call_where,
  to_call_dto, to_user_except, answered_elsewhere, Message, accepted_call, not_found,
  already_answered, call_ended, already_active,
}
use time_flow_be.Calls.Machine.{Env, World, State, ok, threw, ◌>>=◌, return, transaction, modify}
use time_flow_be.Calls.Finish.{load, settle_stale_calls, clear_ring, emit}
use time_flow_be.Calls.Service.{
  is_call, answer_check, accept_check, answered, accept_write, emit_to, accept,
}
use time_flow_be.Calls.Lifecycle.{answer, here}
use time_flow_be.Calls.Refines.{
  rows, Follows, then_do-Trace, transaction-Follows, written, settle_stale_calls-Follows,
}

module _ (env : Env) where
  open env use {prisma}

  -- What the checks of `accept` let through: a ringing call to the actor, who is on no other call. They
  -- change nothing.
  pub record Answerable (actor call : ℕ) (s : State env) (c : Call) : Type 0 where
    pub found : load env s call ≡ some c
    pub to_actor : c.receiver_id ≡ actor
    pub rings : c.status ≡ ringing
    pub alone :
        length (filter (λ r. active_call_where actor r && not (r.id == c.id)) (rows env s)) ≡ 0

  rings_lem :
      (status : CallStatus)
      → status_in (accepted ∷ connected ∷ []) status ≡ false
      → status_in (ringing ∷ []) status ≡ true
      → status ≡ ringing
  rings_lem status h k = ground arith

  answer_check_cases :
      (actor : ℕ) (c : Call) (s : State env)
      → ((e : CallError) × (answer_check env actor c s ≡ (threw e, s)))
        ⊎ ((answer_check env actor c s ≡ (ok tt, s))
            × (c.receiver_id ≡ actor)
            × (c.status ≡ ringing)
            × (length (filter (λ r. active_call_where actor r && not (r.id == c.id)) (rows env s))
                ≡ 0))
  unfolding answer_check
  answer_check_cases actor c s = elim (Bool-cases (c.receiver_id == actor)) [
    | inr to_other ↦ inl (not_found, rw to_other)
    | inl to_actor ↦ elim (Bool-cases (status_in (accepted ∷ connected ∷ []) c.status)) [
      | inl taken ↦ inl (already_answered, rw (to_actor, taken))
      | inr untaken ↦ elim (Bool-cases (status_in (ringing ∷ []) c.status)) [
        | inr over ↦ inl (call_ended, rw (to_actor, untaken, over))
        | inl rings ↦
            elim (Bool-cases (
              Prisma.count prisma (λ r. active_call_where actor r && not (r.id == c.id)) s.calls
              == 0)) [
                | inr on_other ↦ inl (already_active, rw (to_actor, untaken, rings, on_other))
                | inl alone ↦ inr (
                  rw (to_actor, untaken, rings, alone),
                  (==_iff _ _).0 to_actor,
                  rings_lem c.status untaken rings,
                  (==_iff _ 0).0 alone,
                )
              ]
      ]
    ]
  ]

  pub accept_check_cases :
      (actor call : ℕ) (s : State env)
      → ((e : CallError) × (accept_check env actor call s ≡ (threw e, s)))
        ⊎ ((c : Call) × (accept_check env actor call s ≡ (ok tt, s)) × Answerable actor call s c)
  unfolding accept_check
  accept_check_cases actor call s = elim (Option-cases (load env s call)) [
    | inl gone ↦ inl (not_found, rw (gone, accept_check))
    | inr (c, found) ↦ elim (answer_check_cases actor c s) [
      | inl (e, refused) ↦ inl (e, rw (found, accept_check) refused)
      | inr (passed, to_actor, rings, alone) ↦ inr (
        c,
        rw (found, accept_check) passed,
        record { found = found; to_actor = to_actor; rings = rings; alone = alone },
      )
    ]
  ]

  accept_body-Follows :
      (w : World) (actor socket call : ℕ)
      → Follows env (accept_check env actor call >>= λ _. accept_write env w socket call)
  unfolding accept_write
  accept_body-Follows w actor socket call s = elim (accept_check_cases actor call s) [
    | inl (e, refused) ↦ rw refused here
    | inr (c, passed, a) ↦
        let t = prisma.update_many (is_call env call) (answered env w socket) s.calls in
        let s' = record s { calls = t } in
        let wrote =
          written env s t (prisma.rows-update_many _ _ s.calls)
            (answer c call w.now socket a.found a.rings) in
        rw passed
          (elim (Option-cases (load env s' call)) [ inl e ↦ rw e wrote | inr (d, e) ↦ rw e wrote ])
  ]

  emit_to-rows :
      (socket : Option ℕ) (m : Message) (s : State env)
      → rows env (emit_to env socket m s) ≡ rows env s
  emit_to-rows none m s = refl
  emit_to-rows (some socket) m s = refl

  accepted_news-Follows :
      (actor socket call : ℕ) (c : Call)
      → Follows env (
          modify (clear_ring env call) >>= λ _.
          modify (emit_to env c.caller_socket_id (accepted_call call)) >>= λ _.
          modify (emit env (to_user_except actor socket (answered_elsewhere call))) >>= λ _.
          return (to_call_dto c))
  accepted_news-Follows actor socket call c s =
      rw (emit_to-rows c.caller_socket_id (accepted_call call) (clear_ring env call s)) here

  accept_tx-Follows :
      (w : World) (actor socket call : ℕ)
      → Follows env
          (transaction (accept_check env actor call >>= λ _. accept_write env w socket call))
  accept_tx-Follows w actor socket call =
      transaction-Follows env (accept_check env actor call >>= λ _. accept_write env w socket call)
        (accept_body-Follows w actor socket call)

  pub accept-Follows :
      (w : World) (actor socket call : ℕ) → Follows env (accept env w actor socket call)
  unfolding accept
  accept-Follows w actor socket call s =
      then_do-Trace env (rows env s) (settle_stale_calls env w (actor ∷ []) s) _
        (settle_stale_calls-Follows env w (actor ∷ []) s)
        (λ _ s₁.
          then_do-Trace env (rows env s₁)
            (transaction (accept_check env actor call >>= λ _. accept_write env w socket call) s₁) _
            (accept_tx-Follows w actor socket call s₁) (accepted_news-Follows actor socket call))
