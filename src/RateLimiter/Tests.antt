-- ===== src/RateLimiter/Tests.antt =====
-- The limiter over listed sets, and its theorems at a run that is refused.
use time_flow_be.Prelude.{ℕ, ◌+◌, ◌≤◌, ◌≡◌, refl, none, some, List, [], ◌∷◌, true, arith}
use time_flow_be.Redis.{listed, count}
use time_flow_be.RateLimiter.{
  Limiter, Bucket, refused, absent, live, trim, run_script, put, consume, reset,
}
use time_flow_be.RateLimiter.Counts.{up_to}
use time_flow_be.RateLimiter.Window.{history, was_allowed, consume-window_limit}
use time_flow_be.RateLimiter.Retry.{run_script-retry_after}

limiter_code : Unit {0}
unfolding listed absent live trim run_script put consume reset history
limiter_code = tt

abbrev two_a_second : Limiter
two_a_second = record { limit = 2; window_ms = 1000 }

abbrev requests : List (ℕ × ℕ)
requests = (7, 5000) ∷ (7, 5400) ∷ (8, 5500) ∷ (7, 5600) ∷ (7, 6000) ∷ []

let_in : history listed two_a_second 7 (λ _. absent listed) [] requests ≡ 6000 ∷ 5400 ∷ 5000 ∷ []
unfolding limiter_code
let_in = refl

consume-window_limit_example :
    count (up_to 1000 6000) (history listed two_a_second 7 (λ _. absent listed) [] requests) ≤ 2
consume-window_limit_example =
    consume-window_limit listed two_a_second 7 6000 requests (omega arith)

-- Two requests at 5000 and 5400 fill the bucket.
abbrev full_bucket : Bucket listed
unfolding listed
full_bucket = record { entries = 5400 ∷ 5000 ∷ []; expires_at = 6400 }

retry_told :
    run_script listed two_a_second full_bucket 5600 ≡ (some (refused two_a_second 400), full_bucket)
unfolding limiter_code
retry_told = refl

run_script-retry_after_example :
    was_allowed listed (run_script listed two_a_second full_bucket (5600 + 450)).0 ≡ true
unfolding listed
run_script-retry_after_example =
    run_script-retry_after listed two_a_second 5600 450 full_bucket full_bucket
      (refused two_a_second 400) (omega arith) (omega arith) retry_told refl (omega arith)

-- A limit of 0 makes the script fail on a key that is not there.
zero_limit :
    (consume listed (record { limit = 0; window_ms = 1000 }) (λ _. absent listed) 7 5000).0 ≡ none
unfolding limiter_code
zero_limit = refl
