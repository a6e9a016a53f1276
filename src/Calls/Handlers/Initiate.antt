-- ===== src/Calls/Handlers/Initiate.antt =====
-- `initiate` of call.service.ts: the rows that it may add.
use time_flow_be.Prelude.{
  ℕ, ◌≡◌, ◌≢◌, refl, sym, inl, inr, none, [], ◌∷◌, not, ◌||◌, ◌==◌, arith, Bool-cases, Option-cases,
  ==_iff,
}
use time_flow_be.Prisma.{find}
use time_flow_be.Calls.Types.{Call, receiver_not_found, User}
use time_flow_be.Calls.Machine.{Env, World, State, ◌>>=◌, transaction}
use time_flow_be.Calls.Finish.{load, settle_stale_calls, assert_within_budget}
use time_flow_be.Calls.Service.{
  InitiateCallInput, Kind, busy, offline, started, active_count, create_call, missed_call,
  ringing_call, place_call, announce, initiate,
}
use time_flow_be.Calls.Lifecycle.{Step, place, note_missed, Trace, here, has_id}
use time_flow_be.Calls.Refines.{
  rows, Follows, then_do-Trace, bind-Follows, transaction-Follows, require-Follows, written,
  settle_stale_calls-Follows, assert_within_budget-Follows,
}

module _ (env : Env) where
  open env use {prisma}

  create_call-Trace :
      (c : Call) (s : State env)
      → (find (has_id c.id) (rows env s) ≡ none → Step (rows env s) (c ∷ rows env s))
      → Trace (rows env s) (rows env (create_call env c s).1)
  create_call-Trace c s step = elim (Option-cases (load env s c.id)) [
    | inl e ↦ rw e (written env s _ (prisma.rows-create c s.calls) (step e))
    | inr (d, e) ↦ rw e here
  ]

  place_call-Follows :
      (w : World) (id actor socket : ℕ) (input : InitiateCallInput)
      → input.receiver_id ≢ actor
      → Follows env (place_call env w id actor socket input)
  unfolding place_call
  place_call-Follows w id actor socket input other s =
      elim (Bool-cases (active_count env actor s == 0)) [
        | inr on_call ↦ rw on_call here
        | inl free ↦
            rw free
              (elim (Bool-cases (
                not (active_count env input.receiver_id s == 0)
                || not (w.is_user_online input.receiver_id))) [
                  | inl away ↦ rw away (
                      then_do-Trace env (rows env s)
                        (create_call env (missed_call env w id actor input) s) _
                        (create_call-Trace (missed_call env w id actor input) s
                          (λ fresh. note_missed _ refl refl refl fresh))
                        (λ _ _. here))
                  | inr there ↦ rw there (
                      then_do-Trace env (rows env s)
                        (create_call env (ringing_call env w id actor socket input) s) _
                        (create_call-Trace (ringing_call env w id actor socket input) s (λ fresh.
                          place _ refl refl refl refl refl (λ e. other (sym e))
                            ((==_iff _ 0).0 free) (ground arith) fresh))
                        (λ _ _. here))
                ])
      ]

  announce-Follows : (w : World) (outcome : Kind × Call) → Follows env (announce env w outcome)
  unfolding announce
  announce-Follows w (busy, c) s = here
  announce-Follows w (offline, c) s = here
  announce-Follows w (started, c) s = here

  initiate_rest-Follows :
      (w : World) (id actor socket : ℕ) (input : InitiateCallInput)
      → input.receiver_id ≢ actor
      → (receiver : User)
      → Follows env (
          assert_within_budget env w actor >>= λ _.
          settle_stale_calls env w (actor ∷ receiver.id ∷ []) >>= λ _.
          transaction (place_call env w id actor socket input) >>= λ outcome.
          announce env w outcome)
  initiate_rest-Follows w id actor socket input distinct receiver =
      let placing = transaction (place_call env w id actor socket input) in
      let settling = settle_stale_calls env w (actor ∷ receiver.id ∷ []) in
      let placed = placing >>= announce env w in
      bind-Follows env (assert_within_budget env w actor) (λ _. settling >>= λ _. placed)
        (assert_within_budget-Follows env w actor)
        (λ _.
          bind-Follows env settling (λ _. placed)
            (settle_stale_calls-Follows env w (actor ∷ receiver.id ∷ []))
            (λ _.
              bind-Follows env placing (announce env w)
                (transaction-Follows env (place_call env w id actor socket input)
                  (place_call-Follows w id actor socket input distinct))
                (announce-Follows w)))

  pub initiate-Follows :
      (w : World) (id actor socket : ℕ) (input : InitiateCallInput)
      → Follows env (initiate env w id actor socket input)
  unfolding initiate
  initiate-Follows w id actor socket input s = elim (Bool-cases (input.receiver_id == actor)) [
    | inl self ↦ rw self here
    | inr other ↦
        let distinct : input.receiver_id ≢ actor = ground arith in
        rw other (
          then_do-Trace env (rows env s) _ _ (require-Follows env _ receiver_not_found s)
            (initiate_rest-Follows w id actor socket input distinct))
  ]
