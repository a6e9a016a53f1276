-- ===== src/Projects/Sets.antt =====
-- JavaScript's sets of ids: what they hold.
use time_flow_be.Prelude.{
  ℕ, ◌≡◌, refl, List, [], ◌∷◌, ◌++◌, Bool, true, ◌&&◌, ◌||◌, ◌==◌, filter, arith, Bool-cases, inl,
  inr, subst, ap,
}
use time_flow_be.Projects.Types.{elem, add, add_all, to_set}

elem-append : (x : ℕ) (xs ys : List ℕ) → elem x (xs ++ ys) ≡ (elem x xs || elem x ys)
elem-append x [] ys = refl
elem-append x (y ∷ xs) ys = ground (arith, elem-append x xs ys)

elem-add : (x y : ℕ) (xs : List ℕ) → elem x (add xs y) ≡ (elem x xs || y == x)
elem-add x y xs = elim (Bool-cases (elem y xs)) [
  | inl old ↦ elim (Bool-cases (y == x)) [
    | inl same ↦
        let y_x : y ≡ x = ground arith in
        let inside : elem x xs ≡ true = subst (λ k. elem k xs ≡ true) y_x old in
        rw (old, inside) refl
    | inr other ↦ rw (old, other) (ground arith)
  ]
  | inr fresh ↦ rw (fresh, elem-append x xs (y ∷ [])) (ground arith)
]

pub elem-add_all :
    (x : ℕ) (seen xs : List ℕ) → elem x (add_all seen xs) ≡ (elem x seen || elem x xs)
elem-add_all x seen [] = ground arith
elem-add_all x seen (y ∷ ys) = ground (arith, elem-add_all x (add seen y) ys, elem-add x y seen)

pub elem-to_set : (x : ℕ) (xs : List ℕ) → elem x (to_set xs) ≡ elem x xs
elem-to_set x xs = elem-add_all x [] xs

pub elem-filter : (p : ℕ → Bool) (x : ℕ) (xs : List ℕ) → elem x (filter p xs) ≡ (elem x xs && p x)
elem-filter p x [] = refl
elem-filter p x (y ∷ ys) = elim (Bool-cases (y == x)) [
  | inl same ↦ let y_x : y ≡ x = ground arith in ground (arith, ap p y_x, elem-filter p x ys)
  | inr other ↦ ground (arith, elem-filter p x ys)
]
