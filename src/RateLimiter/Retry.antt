-- ===== src/RateLimiter/Retry.antt =====
-- A refused client that waits as long as it is told is let through.
use time_flow_be.Prelude.{
  ℕ, ◌+◌, ◌-◌, ◌≤◌, ◌<◌, ◌≡◌, refl, suc, subst, ap, inl, inr, some, List, [], ◌∷◌, true, false, leb,
  ltb, ◌==◌, length, length-filter-le, filter, arith, Bool-cases, Option-cases,
}
use time_flow_be.Redis.{SortedSet, count}
use time_flow_be.RateLimiter.{RateLimitDecision, Limiter, Bucket, absent, live, trim, run_script}
use time_flow_be.RateLimiter.Window.{trimmed, was_allowed}

filter_loses :
    (bound x : ℕ) (ys : List ℕ)
    → x ≤ bound
    → length (filter (λ y. ltb bound y) ys) + count (λ y. y == x) ys ≤ length ys
filter_loses bound x [] h = omega arith
filter_loses bound x (y ∷ ys) h = ground (arith, filter_loses bound x ys h)

count_all : (ys : List ℕ) → count (λ _. true) ys ≡ length ys
count_all [] = refl
count_all (y ∷ ys) = ap suc (count_all ys)

module _ (redis : SortedSet) (l : Limiter) where
  -- A bucket never holds more than the limit.
  abbrev pub Fits : Bucket redis → Type 0
  Fits b = length (redis.scores b.entries) ≤ l.limit

  live-Fits : (now : ℕ) (b : Bucket redis) → Fits b → Fits (live redis now b)
  unfolding live absent
  live-Fits now b h = elim (Bool-cases (leb b.expires_at now)) [
    | inl gone ↦ rw (gone, redis.scores-empty) (omega arith)
    | inr kept ↦ rw kept h
  ]

  trimmed-Fits :
      (now : ℕ) (b : Bucket redis)
      → Fits b
      → length (redis.scores (trimmed redis l b now)) ≤ l.limit
  unfolding trim
  trimmed-Fits now b h = elim (Bool-cases (leb l.window_ms now)) [
    | inl late ↦
        rw (late, redis.scores-remove_upto)
          (omega (
            arith,
            length-filter-le (λ x. ltb (now - l.window_ms) x)
                (redis.scores (live redis now b).entries),
            live-Fits now b h,
          ))
    | inr early ↦ rw early (live-Fits now b h)
  ]

  length-add :
      (now : ℕ) (s : redis.Set)
      → length (redis.scores (redis.add now s)) ≤ length (redis.scores s) + 1
  length-add now s = omega (
    arith,
    count_all (redis.scores (redis.add now s)),
    redis.count-add (λ _. true) now s,
    count_all (redis.scores s),
  )

  pub run_script-Fits : (now : ℕ) (b : Bucket redis) → Fits b → Fits (run_script redis l b now).1
  unfolding run_script
  run_script-Fits now b h = elim (Bool-cases (ltb (redis.card (trimmed redis l b now)) l.limit)) [
    | inl room ↦ rw room (
        ground
          (arith, length-add now (trimmed redis l b now), redis.card_lem (trimmed redis l b now)))
    | inr full ↦ rw full (trimmed-Fits now b h)
  ]

  -- Once the oldest entry has left the window there is room.
  room_again :
      (later o : ℕ) (b : Bucket redis)
      → 0 < l.limit
      → redis.oldest b.entries ≡ some o
      → Fits b
      → o + l.window_ms ≤ later
      → length (redis.scores (trimmed redis l b later)) < l.limit
  unfolding trim live absent
  room_again later o b pos e h gone =
      let late : leb l.window_ms later ≡ true = ground arith in
      elim (Bool-cases (leb b.expires_at later)) [
        | inl expired ↦ rw (late, expired, redis.scores-remove_upto, redis.scores-empty) pos
        | inr kept ↦
            rw (late, kept, redis.scores-remove_upto)
              (omega (
                arith,
                filter_loses (later - l.window_ms) o (redis.scores b.entries) (omega arith),
                (redis.oldest-least b.entries o e).0,
              ))
      ]

  -- What a refusal says of the bucket that it leaves.
  refusal_lem :
      (now : ℕ) (b b' : Bucket redis) (d : RateLimitDecision)
      → run_script redis l b now ≡ (some d, b')
      → d.allowed ≡ false
      → (o : ℕ) × (redis.oldest b'.entries ≡ some o) × (d.retry_after_ms ≡ l.window_ms + o - now)
  unfolding run_script
  refusal_lem now b b' d e no_entry =
      let t = trimmed redis l b now in
      elim (Bool-cases (ltb (redis.card t) l.limit)) [
        | inl room ↦ absurd (ground arith)
        | inr full ↦ elim (Option-cases (redis.oldest t)) [
          | inl nothing ↦ absurd (ground arith)
          | inr (o, found) ↦ (o, ground arith, ground arith)
        ]
      ]

  admits :
      (now : ℕ) (b : Bucket redis)
      → length (redis.scores (trimmed redis l b now)) < l.limit
      → was_allowed redis (run_script redis l b now).0 ≡ true
  unfolding run_script
  admits now b room = ground (arith, redis.card_lem (trimmed redis l b now))

  -- A request refused at `now` tells how long to wait. If the client waits that long or longer, and
  -- nothing else is asked of its bucket meanwhile, its next request is let through. The bucket need
  -- only hold no more than the limit, as every bucket that the script leaves does.
  pub run_script-retry_after :
      (now wait : ℕ) (b b' : Bucket redis) (d : RateLimitDecision)
      → 0 < l.limit
      → Fits b
      → run_script redis l b now ≡ (some d, b')
      → d.allowed ≡ false
      → d.retry_after_ms ≤ wait
      → was_allowed redis (run_script redis l b' (now + wait)).0 ≡ true
  run_script-retry_after now wait b b' d pos h e no_entry long =
      let (o, found, told) = refusal_lem now b b' d e no_entry in
      let kept = subst Fits (ap (λ r. r.1) e) (run_script-Fits now b h) in
      admits (now + wait) b' (room_again (now + wait) o b' pos found kept (omega arith))
