-- ===== src/Prisma/Keys.antt =====
-- Tables whose rows have different keys, as the primary keys of prisma/schema.prisma see to.
use time_flow_be.Prelude.{
  All, ℕ, ◌≡◌, refl, sym, subst, ap, inl, inr, none, some, false, List, [], ◌∷◌, Bool, ◌&&◌, ◌==◌,
  if◌then◌else◌, filter, length, arith, Bool-cases,
}
use time_flow_be.Prisma.{find, update_where, find-update_where}

module _ {R : Type 0} (key : R → ℕ) where
  abbrev pub Distinct : List R → Type 0
  Distinct [] = Unit
  Distinct (r ∷ rs) = (find (λ x. key x == key r) rs ≡ none) × Distinct rs

  pub find-key : (k : ℕ) (r : R) (rs : List R) → find (λ x. key x == k) rs ≡ some r → key r ≡ k
  find-key k r [] e = cc
  find-key k r (x ∷ rs) e = ground (arith, find-key k r rs)

  find-none :
      (p : R → Bool) (k : ℕ) (r : R) (rs : List R)
      → find (λ x. key x == k) rs ≡ none
      → find p rs ≡ some r
      → (key r == k) ≡ false
  find-none p k r [] gone e = absurd (cc)
  find-none p k r (x ∷ xs) gone e = elim (Bool-cases (p x)) [
    | inl hit ↦ let x_eq : x ≡ r = ground arith in ground (arith, ap key x_eq)
    | inr miss ↦ find-none p k r xs (ground arith) (ground arith)
  ]

  pub key_other :
      (h k : ℕ) (r : R) (rs : List R)
      → find (λ x. key x == k) rs ≡ some r
      → find (λ x. key x == h) rs ≡ none
      → (h == k) ≡ false
  key_other h k r rs found gone = elim (Bool-cases (h == k)) [
    | inr other ↦ other
    | inl same ↦
        let h_k : h ≡ k = ground arith in
        let here : find (λ x. key x == h) rs ≡ some r =
          subst (λ j. find (λ x. key x == j) rs ≡ some r) (sym h_k) found in
        absurd (cc)
  ]

  -- A row that is found in any way is found under its key.
  pub find_self :
      (p : R → Bool) (r : R) (rs : List R)
      → Distinct rs
      → find p rs ≡ some r
      → find (λ x. key x == key r) rs ≡ some r
  find_self p r [] d e = absurd (cc)
  find_self p r (x ∷ xs) (fresh, d) e = elim (Bool-cases (p x)) [
    | inl hit ↦ let x_eq : x ≡ r = ground arith in ground (arith, ap key x_eq, x_eq)
    | inr miss ↦
        let rest : find p xs ≡ some r = ground arith in
        let other : (key r == key x) ≡ false = find-none p (key x) r xs fresh rest in
        ground (arith, find_self p r xs d rest)
  ]

  -- At most the row that is found is counted under its key.
  pub count-absent :
      (k : ℕ) (q : R → Bool) (rs : List R)
      → find (λ x. key x == k) rs ≡ none
      → length (filter (λ x. key x == k && q x) rs) ≡ 0
  count-absent k q [] e = refl
  count-absent k q (x ∷ rs) e = ground (arith, count-absent k q rs)

  pub count-key :
      (k : ℕ) (q : R → Bool) (r : R) (rs : List R)
      → Distinct rs
      → find (λ x. key x == k) rs ≡ some r
      → length (filter (λ x. key x == k && q x) rs) ≡ (if q r then 1 else 0)
  count-key k q r [] d e = cc
  count-key k q r (x ∷ rs) (fresh, d) e = elim (Bool-cases (key x == k)) [
    | inr other ↦ ground (arith, count-key k q r rs d)
    | inl same ↦
        let key_eq : key x ≡ k = ground arith in
        let gone : find (λ y. key y == k) rs ≡ none =
          subst (λ i. find (λ y. key y == i) rs ≡ none) key_eq fresh in
        let x_eq : x ≡ r = ground arith in ground (arith, count-absent k q rs gone, ap q x_eq)
  ]

  pub Distinct-update_where :
      (p : R → Bool) (f : R → R)
      → ((r : R) → key (f r) ≡ key r)
      → (rs : List R) → Distinct rs
      → Distinct (update_where p f rs)
  Distinct-update_where p f keeps [] d = tt
  Distinct-update_where p f keeps (r ∷ rs) (fresh, d) =
      let kept : key (if p r then f r else r) ≡ key r = ground (arith, keeps r) in
      let absent : find (λ x. key x == key r) (update_where p f rs) ≡ none =
        rw (find-update_where key p f keeps (key r) rs, fresh) in
      (rw kept absent, Distinct-update_where p f keeps rs d)

  -- Deleting rows.
  pub find-filter :
      (p : R → Bool) (k : ℕ) (rs : List R)
      → Distinct rs
      → find (λ x. key x == k) (filter p rs)
        ≡ elim (find (λ x. key x == k) rs) [ none ↦ none | some r ↦ if p r then some r else none ]
  find-filter p k [] d = refl
  find-filter p k (x ∷ rs) (fresh, d) = elim (Bool-cases (key x == k)) [
    | inr other ↦ ground (arith, find-filter p k rs d)
    | inl same ↦
        let key_eq : key x ≡ k = ground arith in
        let gone : find (λ y. key y == k) rs ≡ none =
          subst (λ i. find (λ y. key y == i) rs ≡ none) key_eq fresh in
        ground (arith, find-filter p k rs d, gone)
  ]

  pub Distinct-filter : (p : R → Bool) (rs : List R) → Distinct rs → Distinct (filter p rs)
  Distinct-filter p [] d = tt
  Distinct-filter p (x ∷ rs) (fresh, d) =
      let absent : find (λ y. key y == key x) (filter p rs) ≡ none =
        rw (find-filter p (key x) rs d, fresh) in
      let rest = Distinct-filter p rs d in
      elim (Bool-cases (p x)) [ inl e ↦ rw e (absent, rest) | inr e ↦ rw e rest ]

  update_where-absent :
      (k : ℕ) (f : R → R) (rs : List R)
      → find (λ x. key x == k) rs ≡ none
      → update_where (λ x. key x == k) f rs ≡ rs
  update_where-absent k f [] e = refl
  update_where-absent k f (x ∷ xs) e = ground (arith, update_where-absent k f xs)

  -- A predicate on every row, after a write of the row that was found.
  pub All-update_where :
      (P : R → Type 0) (k : ℕ) (f : R → R) (r : R) (rs : List R)
      → Distinct rs
      → find (λ x. key x == k) rs ≡ some r
      → P (f r)
      → All P rs
      → All P (update_where (λ x. key x == k) f rs)
  All-update_where P k f r [] d e p h = tt
  All-update_where P k f r (x ∷ xs) (fresh, d) e p (q, h) = elim (Bool-cases (key x == k)) [
    | inr other ↦ rw other (q, All-update_where P k f r xs d (ground arith) p h)
    | inl same ↦
        let key_eq : key x ≡ k = ground arith in
        let gone : find (λ y. key y == k) xs ≡ none =
          subst (λ i. find (λ y. key y == i) xs ≡ none) key_eq fresh in
        let x_eq : r ≡ x = ground arith in
        let tail = update_where-absent k f xs gone in
        rw (same, tail) (subst (λ y. P (f y)) x_eq p, h)
  ]

  pub All-find :
      (P : R → Type 0) (k : ℕ) (r : R) (rs : List R)
      → find (λ x. key x == k) rs ≡ some r
      → All P rs
      → P r
  All-find P k r [] e h = cc
  All-find P k r (x ∷ xs) e (p, h) = elim (Bool-cases (key x == k)) [
    | inl same ↦ let x_eq : x ≡ r = ground arith in subst P x_eq p
    | inr other ↦ All-find P k r xs (ground arith) h
  ]

-- A predicate on every row, after a write of any rows.
pub All-rewritten {ℓ κ} :
    {R : Type 0} (P : R → Type ℓ) (Q : R → Type κ) (p : R → Bool) (f : R → R)
    → ((r : R) → P r → Q (if p r then f r else r))
    → (rs : List R) → All P rs
    → All Q (update_where p f rs)
All-rewritten P Q p f step [] h = tt
All-rewritten P Q p f step (r ∷ rs) (q, h) = (step r q, All-rewritten P Q p f step rs h)
