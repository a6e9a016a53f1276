-- ===== src/Prisma.antt =====
-- What the services rely on of the database client: a table is seen as the list of its rows, and a
-- query's `where` is a Boolean test of a row. A write of rows that match changes those rows only.
pub mod Keys
use time_flow_be.Prelude.{
  ℕ, ◌+◌, ◌≤◌, ◌≡◌, refl, sym, ap, ◌∙◌, inl, inr, Option, none, some, List, [], ◌∷◌, map, Bool,
  true, false, ◌==◌, if◌then◌else◌, filter, length, arith, Bool-cases,
}
use mathlib.Core.Option

-- `find`, by the first element that passes the test.
abbrev pub find {ℓ} : {A : Type ℓ} → (A → Bool) → List A → Option A
find p [] = none
find p (x ∷ xs) = if p x then some x else find p xs

abbrev pub update_where {ℓ} : {A : Type ℓ} → (A → Bool) → (A → A) → List A → List A
update_where p f [] = []
update_where p f (x ∷ xs) = (if p x then f x else x) ∷ update_where p f xs

pub record Prisma : Type 1 where
  pub Table : Type 0 → Type 0
  pub rows : {R : Type 0} → Table R → List R
  pub create : {R : Type 0} → R → Table R → Table R
  pub update_many : {R : Type 0} → (R → Bool) → (R → R) → Table R → Table R
  pub delete_many : {R : Type 0} → (R → Bool) → Table R → Table R
  pub rows-create : {R : Type 0} (r : R) (t : Table R) → rows (create r t) ≡ r ∷ rows t
  pub rows-update_many :
      {R : Type 0} (p : R → Bool) (f : R → R) (t : Table R)
      → rows (update_many p f t) ≡ update_where p f (rows t)
  pub rows-delete_many :
      {R : Type 0} (p : R → Bool) (t : Table R)
      → rows (delete_many p t) ≡ filter (λ r. if p r then false else true) (rows t)

module _ (prisma : Prisma) where
  abbrev pub find_first : {R : Type 0} → (R → Bool) → prisma.Table R → Option R
  find_first p t = find p (prisma.rows t)

  abbrev pub find_many : {R : Type 0} → (R → Bool) → prisma.Table R → List R
  find_many p t = filter p (prisma.rows t)

  abbrev pub count : {R : Type 0} → (R → Bool) → prisma.Table R → ℕ
  count p t = length (filter p (prisma.rows t))

-- Tables that are the lists of their rows.
unfoldable pub listed : Prisma
listed = record {
  Table = λ R. List R;
  rows = λ t. t;
  create = λ r t. r ∷ t;
  update_many = update_where;
  delete_many = λ p t. filter (λ r. if p r then false else true) t;
  rows-create = λ r t. refl;
  rows-update_many = λ p f t. refl;
  rows-delete_many = λ p t. refl;
}

-- Looking up a key after a write that keeps keys.
module _ {R : Type 0} (key : R → ℕ) (p : R → Bool) (f : R → R)
    (keeps : (r : R) → key (f r) ≡ key r) where
  pub find-update_where :
      (k : ℕ) (rs : List R)
      → find (λ r. key r == k) (update_where p f rs)
        ≡ Option.map (λ r. if p r then f r else r) (find (λ r. key r == k) rs)
  find-update_where k [] = refl
  find-update_where k (r ∷ rs) = elim (Bool-cases (p r)) [
    | inl hit ↦ ground (arith, keeps r, find-update_where k rs)
    | inr miss ↦ ground (arith, find-update_where k rs)
  ]
