-- ===== src/Calls/Relay.antt =====
-- `relay` of call.service.ts: which signals are passed on, and to whom.
use time_flow_be.Prelude.{
  ℕ, ◌≡◌, inl, inr, ◌⊎◌, Option, none, some, opt_eq, [], ◌∷◌, true, arith, Bool-cases, Option-cases,
}
use time_flow_be.Calls.Types.{
  Call, accepted, connected, status_in, is_participant, bound_socket, other_socket, to_socket,
  Signal, signal, CallError, not_active, other_tab, not_found,
}
use time_flow_be.Calls.Machine.{Env, State, ok, threw}
use time_flow_be.Calls.Finish.{emit, load, load_own}
use time_flow_be.Calls.Service.{relay_own, relay}

opt_eq-some : (o : Option ℕ) (n : ℕ) → opt_eq o (some n) ≡ true → o ≡ some n
opt_eq-some none n h = cc
opt_eq-some (some m) n h = ground arith

module _ (env : Env) where
  -- A signal may go from this tab of this user to that one: the call is answered, and these are the two
  -- tabs that are in it.
  pub record Relayed (actor socket call target : ℕ) (s : State env) : Type 0 where
    pub c : Call
    pub found : load env s call ≡ some c
    pub takes_part : is_participant c actor ≡ true
    pub going : status_in (accepted ∷ connected ∷ []) c.status ≡ true
    pub from_tab : bound_socket c actor ≡ some socket
    pub to_tab : other_socket c actor ≡ some target

  relay_own-cases :
      (actor socket : ℕ) (event : Signal) (call payload : ℕ) (c : Call) (s : State env)
      → load env s call ≡ some c
      → is_participant c actor ≡ true
      → ((e : CallError) × (relay_own env actor socket event call payload c s ≡ (threw e, s)))
        ⊎ ((target : ℕ) × (relay_own env actor socket event call payload c s
              ≡ (ok tt, emit env (to_socket target (signal event call payload)) s))
            × Relayed actor socket call target s)
  unfolding relay_own
  relay_own-cases actor socket event call payload c s found part =
      elim (Bool-cases (status_in (accepted ∷ connected ∷ []) c.status)) [
        | inr idle ↦ inl (not_active, rw idle)
        | inl going ↦ elim (Bool-cases (opt_eq (bound_socket c actor) (some socket))) [
          | inr elsewhere ↦ inl (other_tab, rw (going, elsewhere))
          | inl bound ↦ elim (Option-cases (other_socket c actor)) [
            | inl alone ↦ inl (not_active, rw (going, bound, alone))
            | inr (target, e) ↦ inr (
              target,
              rw (going, bound, e),
              record {
                c = c;
                found = found;
                takes_part = part;
                going = going;
                from_tab = opt_eq-some (bound_socket c actor) socket bound;
                to_tab = e;
              },
            )
          ]
        ]
      ]

  -- A signal is either refused, and then nothing is sent or changed, or the call is answered, the sender
  -- takes part in it from the very tab that sent the signal, and the one event that is sent goes to the
  -- tab of the other person.
  pub relay-cases :
      (actor socket : ℕ) (event : Signal) (call payload : ℕ) (s : State env)
      → ((e : CallError) × (relay env actor socket event call payload s ≡ (threw e, s)))
        ⊎ ((target : ℕ) × (relay env actor socket event call payload s
              ≡ (ok tt, emit env (to_socket target (signal event call payload)) s))
            × Relayed actor socket call target s)
  unfolding relay load_own
  relay-cases actor socket event call payload s = elim (Option-cases (load env s call)) [
    | inl gone ↦ inl (not_found, rw (gone, load_own))
    | inr (c, found) ↦ elim (Bool-cases (is_participant c actor)) [
      | inr stranger ↦ inl (not_found, rw (found, load_own, stranger))
      | inl part ↦
          rw (found, load_own, part)
            (relay_own-cases actor socket event call payload c s found part)
    ]
  ]
