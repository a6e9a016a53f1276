-- ===== src/RateLimiter/Window.antt =====
-- No window of time holds more admitted requests than the limit.
use mathlib.Core.Option
use time_flow_be.Prelude.{
  ℕ, ◌+◌, ◌-◌, ◌≤◌, ◌<◌, ◌≡◌, refl, sym, ◌∙◌, inl, inr, Option, none, some, List, [], ◌∷◌, Bool,
  false, leb, ltb, ◌==◌, if◌then◌else◌, length, All, All-imp, ==_refl, arith, Bool-cases, max,
}
use time_flow_be.Redis.{SortedSet, count}
use time_flow_be.RateLimiter.{
  RateLimitDecision, Limiter, Bucket, refused, absent, live, trim, run_script, Store, put, consume,
}
use time_flow_be.RateLimiter.Counts.{
  in_window, up_to, count_none, count-filter_above, count-filter_above_self, count_early,
  All-le_widen, Spaced, up_to-le-limit,
}

module _ (redis : SortedSet) where
  -- What the script counts.
  abbrev pub trimmed : Limiter → Bucket redis → ℕ → redis.Set
  trimmed l b now = trim redis l.window_ms now (live redis now b).entries

  -- The bucket after requests up to `last`, and the admitted ones of them.
  record Tracks (l : Limiter) (last : ℕ) (b : Bucket redis) (hist : List ℕ) : Type 0 where
    tracked :
        (t : ℕ)
        → last ≤ t
        → count (in_window l.window_ms t) (redis.scores b.entries)
          ≡ count (in_window l.window_ms t) hist
    fresh : All (λ y. y + l.window_ms ≤ max b.expires_at last) hist
    spaced : Spaced l.window_ms l.limit hist

  module _ (l : Limiter) (last now : ℕ) (b : Bucket redis) (hist : List ℕ)
      (inv : Tracks l last b hist) (later : last ≤ now) where
    live-tracked :
        (t : ℕ)
        → now ≤ t
        → count (in_window l.window_ms t) (redis.scores (live redis now b).entries)
          ≡ count (in_window l.window_ms t) hist
    unfolding live absent
    live-tracked t h = elim (Bool-cases (leb b.expires_at now)) [
      | inl gone ↦
          rw (gone, redis.scores-empty)
            (sym (count_none l.window_ms (max b.expires_at last) t hist inv.fresh (ground arith)))
      | inr kept ↦ rw kept (inv.tracked t (omega arith))
    ]

    trimmed-tracked :
        (t : ℕ)
        → now ≤ t
        → count (in_window l.window_ms t) (redis.scores (trimmed l b now))
          ≡ count (in_window l.window_ms t) hist
    unfolding trim
    trimmed-tracked t h = elim (Bool-cases (leb l.window_ms now)) [
      | inl late ↦
          rw (late, redis.scores-remove_upto)
            (count-filter_above l.window_ms now t _ (ground arith) h ∙ live-tracked t h)
      | inr early ↦ rw early (live-tracked t h)
    ]

    length-trimmed :
        length (redis.scores (trimmed l b now)) ≡ count (in_window l.window_ms now) hist
    unfolding trim
    length-trimmed = elim (Bool-cases (leb l.window_ms now)) [
      | inl late ↦
          rw (late, redis.scores-remove_upto)
            (sym (count-filter_above_self l.window_ms now _ (ground arith))
              ∙ live-tracked now (omega arith))
      | inr early ↦
          rw early
            (sym (count_early l.window_ms now _ (ground arith)) ∙ live-tracked now (omega arith))
    ]

  abbrev pub was_allowed : Option RateLimitDecision → Bool
  was_allowed none = false
  was_allowed (some d) = d.allowed

  -- The admitted requests, the newest first, once the answer to one at `now` is known.
  abbrev pub noted : Option RateLimitDecision → ℕ → List ℕ → List ℕ
  noted answer now hist = if was_allowed answer then now ∷ hist else hist

  was_allowed-refused :
      (l : Limiter) (now : ℕ) (oldest : Option ℕ)
      → was_allowed (Option.map (λ o. refused l (l.window_ms + o - now)) oldest) ≡ false
  was_allowed-refused l now none = refl
  was_allowed-refused l now (some o) = refl

  module _ (l : Limiter) (last now : ℕ) (b : Bucket redis) (hist : List ℕ)
      (inv : Tracks l last b hist) (later : last ≤ now) (ordered : All (λ y. y ≤ last) hist) where
    fresh_later :
        (w e : ℕ) (ys : List ℕ) → All (λ y. y ≤ last) ys → All (λ y. y + w ≤ max (now + w) e) ys
    fresh_later w e [] h = tt
    fresh_later w e (y ∷ ys) (p, h) = (omega arith, fresh_later w e ys h)

    admitted-Tracks :
        count (in_window l.window_ms now) hist < l.limit
        → Tracks l now
            (record { entries = redis.add now (trimmed l b now); expires_at = now + l.window_ms })
            (now ∷ hist)
    admitted-Tracks room = record {
      tracked = λ t h.
          redis.count-add (in_window l.window_ms t) now (trimmed l b now)
          ∙ ground (arith, trimmed-tracked l last now b hist inv later t);
      fresh = (omega arith, fresh_later l.window_ms now hist ordered);
      spaced = (ground arith, inv.spaced);
    }

    refused-Tracks :
        Tracks l now
          (record { entries = trimmed l b now; expires_at = (live redis now b).expires_at })
          hist
    unfolding live absent
    refused-Tracks = record {
      tracked = trimmed-tracked l last now b hist inv later;
      fresh = All-le_widen l.window_ms (max b.expires_at last) _ hist (ground arith) inv.fresh;
      spaced = inv.spaced;
    }

    run_script-Tracks :
        Tracks l now (run_script redis l b now).1 (noted (run_script redis l b now).0 now hist)
    unfolding run_script
    run_script-Tracks =
        let size : redis.card (trimmed l b now) ≡ count (in_window l.window_ms now) hist =
          redis.card_lem (trimmed l b now) ∙ length-trimmed l last now b hist inv later in
        elim (Bool-cases (ltb (redis.card (trimmed l b now)) l.limit)) [
          | inl room ↦ rw room (admitted-Tracks (ground arith))
          | inr full ↦
              rw (full, was_allowed-refused l now (redis.oldest (trimmed l b now))) refused-Tracks
        ]

  -- The times at which `consume` let `key` through in a row of requests (identifier, time), the newest
  -- first.
  unfoldable pub history : Limiter → ℕ → Store redis → List ℕ → List (ℕ × ℕ) → List ℕ
  history l key store hist [] = hist
  history l key store hist ((identifier, now) ∷ requests) =
      let (answer, store') = consume redis l store identifier now in
      history l key store' (if identifier == key then noted answer now hist else hist) requests

  -- The clock does not go back.
  abbrev pub InOrder : ℕ → List (ℕ × ℕ) → Type 0
  InOrder last [] = Unit
  InOrder last ((_, now) ∷ requests) = (last ≤ now) × InOrder now requests

  Tracks-later :
      (l : Limiter) (last now : ℕ) (b : Bucket redis) (hist : List ℕ)
      → last ≤ now
      → Tracks l last b hist
      → Tracks l now b hist
  Tracks-later l last now b hist h inv = record {
    tracked = λ t k. inv.tracked t (omega arith);
    fresh = All-le_widen l.window_ms _ (max b.expires_at now) hist (omega arith) inv.fresh;
    spaced = inv.spaced;
  }

  noted-ordered :
      (answer : Option RateLimitDecision) (last now : ℕ) (hist : List ℕ)
      → last ≤ now
      → All (λ y. y ≤ last) hist
      → All (λ y. y ≤ now) (noted answer now hist)
  noted-ordered answer last now hist h k = elim (Bool-cases (was_allowed answer)) [
    | inl let_in ↦ rw let_in (omega arith, older)
    | inr kept_out ↦ rw kept_out older
  ]
    where
      older : All (λ y. y ≤ now) hist
      older = All-imp hist (λ y p. omega arith) k

  module _ (l : Limiter) (key last now identifier : ℕ) (store : Store redis) (hist : List ℕ)
      (later : last ≤ now) where
    abbrev answered : Option RateLimitDecision × Store redis
    answered = consume redis l store identifier now

    abbrev noted_for : List ℕ
    noted_for = if identifier == key then noted answered.0 now hist else hist

    consume-Tracks :
        Tracks l last (store key) hist
        → All (λ y. y ≤ last) hist
        → Tracks l now (answered.1 key) noted_for
    unfolding consume put
    consume-Tracks inv ordered = elim (Bool-cases (identifier == key)) [
      | inl same ↦
          let e : identifier ≡ key = ground arith in
          rw (← e, ==_refl identifier)
            (run_script-Tracks l last now (store identifier) hist (rw (← e) at inv) later ordered)
      | inr other ↦
          let apart : (key == identifier) ≡ false = ground arith in
          rw (other, apart) (Tracks-later l last now (store key) hist later inv)
    ]

    consume-ordered : All (λ y. y ≤ last) hist → All (λ y. y ≤ now) noted_for
    consume-ordered ordered = elim (Bool-cases (identifier == key)) [
      | inl same ↦ rw same (noted-ordered answered.0 last now hist later ordered)
      | inr other ↦ rw other (All-imp hist (λ y p. omega arith) ordered)
    ]

  history-Spaced :
      (l : Limiter) (key last : ℕ) (store : Store redis) (hist : List ℕ) (requests : List (ℕ × ℕ))
      → Tracks l last (store key) hist
      → All (λ y. y ≤ last) hist
      → InOrder last requests
      → Spaced l.window_ms l.limit (history l key store hist requests)
  unfolding history
  history-Spaced l key last store hist [] inv ordered o = inv.spaced
  history-Spaced l key last store hist ((identifier, now) ∷ requests) inv ordered (later, o) =
      history-Spaced l key now (consume redis l store identifier now).1 _ requests
        (consume-Tracks l key last now identifier store hist later inv ordered)
        (consume-ordered l key last now identifier store hist later ordered) o

  absent-Tracks : (l : Limiter) → Tracks l 0 (absent redis) []
  unfolding absent
  absent-Tracks l = record { tracked = λ t h. rw redis.scores-empty refl; fresh = tt; spaced = tt }

  -- Whatever requests come in, for whatever identifiers, as long as the clock does not go back: in
  -- every window of `window_ms` milliseconds, the one that ends at `t`, at most `limit` requests of
  -- one identifier are let through.
  pub consume-window_limit :
      (l : Limiter) (key t : ℕ) (requests : List (ℕ × ℕ))
      → InOrder 0 requests
      → count (up_to l.window_ms t) (history l key (λ _. absent redis) [] requests) ≤ l.limit
  consume-window_limit l key t requests o =
      up_to-le-limit l.window_ms l.limit t _
        (history-Spaced l key 0 (λ _. absent redis) [] requests (absent-Tracks l) tt o)
