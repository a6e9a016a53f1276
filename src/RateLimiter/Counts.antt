-- ===== src/RateLimiter/Counts.antt =====
-- rate-limiter.ts: counting the requests of a window.
use time_flow_be.Prelude.{
  ℕ, ◌+◌, ◌-◌, ◌≤◌, ◌<◌, ◌≡◌, refl, List, [], ◌∷◌, Bool, ◌&&◌, leb, ltb, length, filter, All, arith,
}
use time_flow_be.Redis.{count}

-- A request at `y` counts against one at `t`.
abbrev pub in_window : ℕ → ℕ → ℕ → Bool
in_window window t y = ltb t (y + window)

pub count_none :
    (window bound t : ℕ) (ys : List ℕ)
    → All (λ y. y + window ≤ bound) ys
    → bound ≤ t
    → count (in_window window t) ys ≡ 0
count_none window bound t [] h k = refl
count_none window bound t (y ∷ ys) (p, h) k = ground (arith, count_none window bound t ys h k)

pub count-filter_above :
    (window now t : ℕ) (ys : List ℕ)
    → window ≤ now
    → now ≤ t
    → count (in_window window t) (filter (λ y. ltb (now - window) y) ys)
      ≡ count (in_window window t) ys
count-filter_above window now t [] h k = refl
count-filter_above window now t (y ∷ ys) h k =
    ground (arith, count-filter_above window now t ys h k)

pub count-filter_above_self :
    (window now : ℕ) (ys : List ℕ)
    → window ≤ now
    → count (in_window window now) ys ≡ length (filter (λ y. ltb (now - window) y) ys)
count-filter_above_self window now [] h = refl
count-filter_above_self window now (y ∷ ys) h =
    ground (arith, count-filter_above_self window now ys h)

pub count_early :
    (window now : ℕ) (ys : List ℕ) → now < window → count (in_window window now) ys ≡ length ys
count_early window now [] h = refl
count_early window now (y ∷ ys) h = ground (arith, count_early window now ys h)

pub All-le_widen :
    (w e e' : ℕ) (ys : List ℕ) → e ≤ e' → All (λ y. y + w ≤ e) ys → All (λ y. y + w ≤ e') ys
All-le_widen w e e' [] h k = tt
All-le_widen w e e' (y ∷ ys) h (p, k) = (omega arith, All-le_widen w e e' ys h k)

-- Each admitted request, the newest first, stands among at most `limit` of its window.
abbrev pub Spaced : ℕ → ℕ → List ℕ → Type 0
Spaced window limit [] = Unit
Spaced window limit (x ∷ xs) =
    (count (in_window window x) (x ∷ xs) ≤ limit) × Spaced window limit xs

-- The requests of the window that ends at `t`.
abbrev pub up_to : ℕ → ℕ → ℕ → Bool
up_to window t y = in_window window t y && leb y t

up_to-le_in_window :
    (window t x : ℕ) (ys : List ℕ)
    → x ≤ t
    → count (up_to window t) ys ≤ count (in_window window x) ys
up_to-le_in_window window t x [] h = omega arith
up_to-le_in_window window t x (y ∷ ys) h = ground (arith, up_to-le_in_window window t x ys h)

pub up_to-le-limit :
    (window limit t : ℕ) (hist : List ℕ)
    → Spaced window limit hist
    → count (up_to window t) hist ≤ limit
up_to-le-limit window limit t [] s = omega arith
up_to-le-limit window limit t (x ∷ xs) (s, ss) =
    ground (arith, up_to-le_in_window window t x (x ∷ xs), up_to-le-limit window limit t xs ss)
