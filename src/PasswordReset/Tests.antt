-- ===== src/PasswordReset/Tests.antt =====
-- A reset over listed tables, and the theorems at those inputs.
use time_flow_be.Prelude.{◌+◌, ◌≡◌, refl, ◌⊎◌, none, [], ◌∷◌, ◌++◌, true, false}
use time_flow_be.Prisma
use time_flow_be.PasswordReset.{
  ResetRequest, User, ResetError, invalid_link, expired_link, delivery_failed, ok, threw, Env,
  State, mark_expired, usable_row, find_usable, verify, spend, complete, issue, request,
  new_request, reset_requested,
}
use time_flow_be.PasswordReset.Complete.{Usable, DistinctKeys, Reset, complete-works, complete-once}
use time_flow_be.PasswordReset.Request.{
  Newest, NonePending, Refused, MayReset, AsAsked, OthersSame, request_cases,
}

abbrev env : Env
env = record {
  prisma = Prisma.listed;
  sha256 = λ t. t + 7000;
  hash_password = λ p. p + 1;
  ttl_ms = 60000;
}

resets : Unit {0}
unfolding Prisma.listed mark_expired usable_row find_usable verify spend complete issue request
resets = tt

abbrev member : User
member = record { id = 3; active = true; deleted_at = none; password_hash = 1; token_version = 4 }

abbrev signed_in : State env
unfolding resets
signed_in = record {
  requests = [];
  users = member ∷ [];
  tokens =
      record { user_id = 3; revoked_at = none } ∷ record { user_id = 8; revoked_at = none } ∷ [];
  events = [];
}

-- The administrator 1 sends the token 55 to user 3.
abbrev sent : State env
sent = (request env 1000 20 55 1 true 3 signed_in).1

abbrev link : ResetRequest
link = new_request env 1000 20 1 3 55

usable : Usable env 2000 55 sent link member
unfolding resets
usable = record {
  found = refl;
  member = refl;
  open_account = refl;
  is_waiting = refl;
  in_time = refl;
}

keys : DistinctKeys env sent
unfolding resets
keys = record { requests = (refl, tt); users = (refl, tt); hashes = (refl, tt) }

too_late : (complete env 61000 55 99 sent).0 ≡ threw expired_link
unfolding resets
too_late = refl

complete-works_example :
    ((complete env 2000 55 99 sent).0 ≡ ok tt)
    × Reset env 2000 55 99 sent (complete env 2000 55 99 sent).1 link member
unfolding resets
complete-works_example = complete-works env 2000 55 99 sent link member keys refl usable

complete-once_example :
    let s' = (complete env 2000 55 99 sent).1 in
    complete env 2500 55 98 s' ≡ (threw invalid_link, s')
unfolding resets
complete-once_example = complete-once env 2000 55 99 sent link member keys refl usable 2500 98

-- A second link, of which the mail fails.
request_cases_example :
    let (answer, t) = request env 3000 21 56 1 false 3 sent in
    ((e : ResetError) × (answer ≡ threw e) × (t ≡ sent) × Refused env e 3 sent)
    ⊎ ((row : ResetRequest) × (false ≡ true)
        × (answer ≡ ok row)
        × MayReset env 3 sent
        × AsAsked env 3000 21 56 1 3 row
        × Newest env 3 row t
        × (t.events ≡ sent.events ++ (reset_requested 3 ∷ []))
        × OthersSame env 3 sent t)
    ⊎ ((false ≡ false)
        × (answer ≡ threw delivery_failed)
        × MayReset env 3 sent
        × NonePending env 3 (env.prisma.rows t.requests)
        × (t.events ≡ sent.events)
        × OthersSame env 3 sent t)
request_cases_example = request_cases env 3000 21 56 1 false 3 sent
