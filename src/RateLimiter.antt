-- ===== src/RateLimiter.antt =====
-- src/cache/rate-limiter.ts: the sliding-window limiter, a Lua script that Redis runs atomically. Times
-- are milliseconds. Redis and the limiter's client share one clock in the model.
pub mod Counts
pub mod Window
pub mod Retry
mod Tests
use mathlib.Core.Option
use time_flow_be.Prelude.{
  ℕ, ◌+◌, ◌-◌, ◌≡◌, Option, none, some, Bool, true, false, leb, ltb, ◌==◌, if◌then◌else◌,
}
use time_flow_be.Redis.{SortedSet}

pub record RateLimitDecision : Type 0 where
  pub allowed : Bool
  pub limit : ℕ
  pub remaining : ℕ
  pub retry_after_ms : ℕ
  pub reset_ms : ℕ

-- The constructor's arguments; the client is Redis, and the prefix is part of every key.
pub record Limiter : Type 0 where
  pub limit : ℕ
  pub window_ms : ℕ

-- The script's answer on its second branch.
abbrev pub refused : Limiter → ℕ → RateLimitDecision
refused l retry = record {
  allowed = false;
  limit = l.limit;
  remaining = 0;
  retry_after_ms = retry;
  reset_ms = retry;
}

module _ (redis : SortedSet) where
  -- The sorted set at one key, and when PEXPIRE drops it.
  pub record Bucket : Type 0 where
    pub entries : redis.Set
    pub expires_at : ℕ

  -- A key that is not there reads as the empty set.
  unfoldable pub absent : Bucket
  absent = record { entries = redis.empty; expires_at = 0 }

  unfoldable pub live : ℕ → Bucket → Bucket
  live now b = if leb b.expires_at now then absent else b

  -- ZREMRANGEBYSCORE key 0 (now - window); below 0 there is no score to remove.
  unfoldable pub trim : ℕ → ℕ → redis.Set → redis.Set
  trim window now s = if leb window now then redis.remove_upto (now - window) s else s

  -- SLIDING_WINDOW_LUA, with the four numbers that it returns read as by `consume`. On an empty set
  -- `oldest[2]` is nil and the script fails, as it does where the limit is 0: `none`. What it has
  -- removed by then stays removed. A negative `retry` becomes 0, as `-` does on ℕ.
  unfoldable pub run_script : Limiter → Bucket → ℕ → Option RateLimitDecision × Bucket
  run_script l bucket now =
      let entries = trim l.window_ms now (live now bucket).entries in
      let count = redis.card entries in
      if ltb count l.limit
      then (
        some (record {
          allowed = true;
          limit = l.limit;
          remaining = l.limit - count - 1;
          retry_after_ms = 0;
          reset_ms = l.window_ms;
        }),
        record { entries = redis.add now entries; expires_at = now + l.window_ms },
      )
      else (
        Option.map (λ oldest. refused l (l.window_ms + oldest - now)) (redis.oldest entries),
        record { entries = entries; expires_at = (live now bucket).expires_at },
      )

  -- Redis under one limiter's prefix: a bucket for each identifier.
  abbrev pub Store : Type 0
  Store = ℕ → Bucket

  unfoldable pub put : Store → ℕ → Bucket → Store
  put store key b k = if k == key then b else store k

  -- `none` where the call throws.
  unfoldable pub consume : Limiter → Store → ℕ → ℕ → Option RateLimitDecision × Store
  consume l store identifier now =
      let (decision, bucket) = run_script l (store identifier) now in
      (decision, put store identifier bucket)

  unfoldable pub reset : Store → ℕ → Store
  reset store identifier = put store identifier absent
