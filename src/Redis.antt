-- ===== src/Redis.antt =====
-- What the limiter of src/cache/rate-limiter.ts relies on of Redis: sorted sets, seen as the list of their scores. The members that
-- the limiter adds are never the same twice, so scores alone tell the sets apart.
use time_flow_be.Prelude.{
  ℕ, ◌≤◌, ◌≡◌, refl, Option, some, List, [], ◌∷◌, Bool, ltb, if◌then◌else◌, length, filter, All,
  arith, Option-cases, inl, inr, ◌<◌, none, ◌==◌,
}

abbrev pub count : (ℕ → Bool) → List ℕ → ℕ
count p xs = length (filter p xs)

pub record SortedSet : Type 1 where
  pub Set : Type 0
  pub empty : Set
  -- ZREMRANGEBYSCORE key 0 bound
  pub remove_upto : ℕ → Set → Set
  -- ZCARD
  pub card : Set → ℕ
  -- ZADD of a new member
  pub add : ℕ → Set → Set
  -- ZRANGE key 0 0 WITHSCORES
  pub oldest : Set → Option ℕ
  pub scores : Set → List ℕ
  pub scores-empty : scores empty ≡ []
  pub scores-remove_upto :
      (bound : ℕ) (s : Set) → scores (remove_upto bound s) ≡ filter (λ x. ltb bound x) (scores s)
  pub card_lem : (s : Set) → card s ≡ length (scores s)
  pub count-add :
      (p : ℕ → Bool) (score : ℕ) (s : Set)
      → count p (scores (add score s)) ≡ count p (score ∷ scores s)
  pub oldest-empty : (s : Set) → oldest s ≡ none → scores s ≡ []
  pub oldest-least :
      (s : Set) (x : ℕ)
      → oldest s ≡ some x
      → (0 < count (λ y. y == x) (scores s)) × All (λ y. x ≤ y) (scores s)

-- Sets that are kept as the list of their scores in any order.
pub minimum : List ℕ → Option ℕ
minimum [] = none
minimum (x ∷ xs) = elim (minimum xs) [ none ↦ some x | some y ↦ some (if ltb y x then y else x) ]

pub minimum-empty : (xs : List ℕ) → minimum xs ≡ none → xs ≡ []
unfolding minimum
minimum-empty [] e = refl
minimum-empty (x ∷ xs) e = ground arith

All-le_trans : (x y : ℕ) (xs : List ℕ) → x ≤ y → All (λ z. y ≤ z) xs → All (λ z. x ≤ z) xs
All-le_trans x y [] h k = tt
All-le_trans x y (z ∷ zs) h (p, k) = (omega arith, All-le_trans x y zs h k)

pub minimum-least :
    (xs : List ℕ) (x : ℕ) → minimum xs ≡ some x → (0 < count (λ y. y == x) xs) × All (λ y. x ≤ y) xs
unfolding minimum
minimum-least [] x e = cc
minimum-least (z ∷ zs) x e = elim (Option-cases (minimum zs)) [
  | inl none_left ↦ ground (arith, minimum-empty zs none_left)
  | inr (y, found) ↦ ground (arith, minimum-least zs y found, All-le_trans x y zs)
]

unfoldable pub listed : SortedSet
unfolding minimum
listed = record {
  Set = List ℕ;
  empty = [];
  remove_upto = λ bound s. filter (λ x. ltb bound x) s;
  card = λ s. length s;
  add = λ score s. score ∷ s;
  oldest = minimum;
  scores = λ s. s;
  scores-empty = refl;
  scores-remove_upto = λ bound s. refl;
  card_lem = λ s. refl;
  count-add = λ p score s. refl;
  oldest-empty = minimum-empty;
  oldest-least = minimum-least;
}
