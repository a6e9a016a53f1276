-- ===== src/Roles/Keys.antt =====
-- role.service.ts: the keys of a list of grants.
use time_flow_be.Prelude.{
  ℕ, ◌≡◌, refl, sym, ap, ◌∙◌, inl, inr, List, [], ◌∷◌, ◌++◌, Bool, true, false, ◌&&◌, ◌==◌,
  if◌then◌else◌, filter, map, arith, Bool-cases,
}
use time_flow_be.Roles.{RolePermission, AuthContext, mem, holds_all}

pub mem-filter :
    (p : ℕ → Bool) (k : ℕ) (xs : List ℕ) → mem k xs ≡ true → p k ≡ true → mem k (filter p xs) ≡ true
mem-filter p k [] h e = h
mem-filter p k (x ∷ xs) h e = elim (Bool-cases (x == k)) [
  | inl same ↦
      let x_k : x ≡ k = ground arith in let there : p x ≡ true = ap p x_k ∙ e in ground arith
  | inr other ↦ let rest = mem-filter p k xs (ground arith) e in ground arith
]

pub mem-append-left : (k : ℕ) (xs ys : List ℕ) → mem k xs ≡ true → mem k (xs ++ ys) ≡ true
mem-append-left k [] ys h = absurd (cc)
mem-append-left k (x ∷ xs) ys h = ground (arith, mem-append-left k xs ys)

pub mem-append-right : (k : ℕ) (xs ys : List ℕ) → mem k ys ≡ true → mem k (xs ++ ys) ≡ true
mem-append-right k [] ys h = h
mem-append-right k (x ∷ xs) ys h = ground (arith, mem-append-right k xs ys h)

pub held_lem :
    (actor : AuthContext) (k : ℕ) (keys : List ℕ)
    → holds_all actor keys ≡ true
    → mem k keys ≡ true
    → actor.has k ≡ true
held_lem actor k [] h m = absurd (cc)
held_lem actor k (x ∷ xs) h m = elim (Bool-cases (actor.has x)) [
  | inr lacks ↦ ground arith
  | inl has ↦ elim (Bool-cases (x == k)) [
    | inl same ↦ let x_k : x ≡ k = ground arith in ap actor.has (sym x_k) ∙ has
    | inr other ↦ held_lem actor k xs (ground arith) (ground arith)
  ]
]

abbrev pub keys_in : ℕ → List RolePermission → List ℕ
keys_in role gs = map (λ g. g.key) (filter (λ g. g.role_id == role) gs)

pub keys_in-deleted :
    (role : ℕ) (k : ℕ) (gs : List RolePermission)
    → mem k (keys_in role (filter (λ g. if g.role_id == role then false else true) gs)) ≡ false
keys_in-deleted role k [] = refl
keys_in-deleted role k (g ∷ gs) = elim (Bool-cases (g.role_id == role)) [
  | inl own ↦ rw own (keys_in-deleted role k gs)
  | inr other ↦ rw (other, other) (keys_in-deleted role k gs)
]

pub keys_in-others :
    (role other : ℕ) (gs : List RolePermission)
    → (role == other) ≡ false
    → keys_in other (filter (λ g. if g.role_id == role then false else true) gs) ≡ keys_in other gs
keys_in-others role other [] e = refl
keys_in-others role other (g ∷ gs) e = elim (Bool-cases (g.role_id == role)) [
  | inl own ↦
      let miss : (g.role_id == other) ≡ false = ground arith in
      rw (own, miss) (keys_in-others role other gs e)
  | inr else_where ↦ rw else_where (elim (Bool-cases (g.role_id == other)) [
    | inl hit ↦ rw hit (ap (λ l. g.key ∷ l) (keys_in-others role other gs e))
    | inr miss ↦ rw miss (keys_in-others role other gs e)
  ])
]

pub and_left : (a b : Bool) → a ≡ true → a && b ≡ false → b ≡ false
and_left true b h e = e
and_left false b h e = absurd (cc)
