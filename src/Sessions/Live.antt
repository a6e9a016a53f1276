-- ===== src/Sessions/Live.antt =====
-- How many tokens of a family can still be used, after each write of auth.service.ts.
use time_flow_be.Prelude.{
  ℕ, ◌+◌, ◌≤◌, ◌≡◌, refl, sym, subst, ap, inl, inr, some, List, [], ◌∷◌, Bool, true, false, ◌&&◌,
  ◌==◌, if◌then◌else◌, filter, length, any, arith, Bool-cases,
}
use time_flow_be.Prisma.Keys
use time_flow_be.Prisma.{find, update_where}
use time_flow_be.Tasks.{is_null}
use time_flow_be.Sessions.{
  RefreshToken, Env, State, find_id, with_revoked_at, revoke, claim, with_replaced_by,
  mark_replaced,
}

abbrev pub is_live : ℕ → RefreshToken → Bool
is_live family t = t.family_id == family && is_null t.revoked_at

abbrev live_rows : ℕ → List RefreshToken → ℕ
live_rows family rs = length (filter (is_live family) rs)

abbrev revoked_rows : ℕ → (RefreshToken → Bool) → List RefreshToken → List RefreshToken
revoked_rows now test rs =
    update_where (λ t. test t && is_null t.revoked_at) ((λ t. record t { revoked_at = some now }))
      rs

live_rows-revoked :
    (family now : ℕ) (test : RefreshToken → Bool) (rs : List RefreshToken)
    → live_rows family (revoked_rows now test rs) ≤ live_rows family rs
live_rows-revoked family now test [] = omega arith
live_rows-revoked family now test (r ∷ rs) = ground (arith, live_rows-revoked family now test rs)

live_rows-revoked_all :
    (family now : ℕ) (test : RefreshToken → Bool) (rs : List RefreshToken)
    → ((t : RefreshToken) → t.family_id == family ≡ true → test t ≡ true)
    → live_rows family (revoked_rows now test rs) ≡ 0
live_rows-revoked_all family now test [] covers = refl
live_rows-revoked_all family now test (r ∷ rs) covers = elim (Bool-cases (r.family_id == family)) [
  | inl same ↦ ground (arith, covers r same, live_rows-revoked_all family now test rs covers)
  | inr other ↦ ground (arith, live_rows-revoked_all family now test rs covers)
]

live_rows-other :
    (family now : ℕ) (test : RefreshToken → Bool) (rs : List RefreshToken)
    → ((t : RefreshToken) → test t ≡ true → t.family_id == family ≡ false)
    → live_rows family (revoked_rows now test rs) ≡ live_rows family rs
live_rows-other family now test [] spares = refl
live_rows-other family now test (r ∷ rs) spares = elim (Bool-cases (test r)) [
  | inl hit ↦ ground (arith, spares r hit, live_rows-other family now test rs spares)
  | inr miss ↦ ground (arith, live_rows-other family now test rs spares)
]

live_rows-claimed :
    (now id : ℕ) (r : RefreshToken) (rs : List RefreshToken)
    → find (λ t. t.id == id) rs ≡ some r
    → is_null r.revoked_at ≡ true
    → live_rows r.family_id (revoked_rows now (λ t. t.id == id) rs) + 1 ≤ live_rows r.family_id rs
live_rows-claimed now id r [] e live = absurd (cc)
live_rows-claimed now id r (x ∷ xs) e live = elim (Bool-cases (x.id == id)) [
  | inr other ↦ ground (arith, live_rows-claimed now id r xs (ground arith) live)
  | inl same ↦
      let x_eq : x ≡ r = ground arith in
      let live_x : is_null x.revoked_at ≡ true =
        subst (λ t. is_null t.revoked_at ≡ true) (sym x_eq) live in
      let family : x.family_id ≡ r.family_id = ap (λ t. t.family_id) x_eq in
      let rest = live_rows-revoked r.family_id now (λ t. t.id == id) xs in
      rw (same, live_x) (ground (arith, family))
]

live_rows-absent :
    (family : ℕ) (rs : List RefreshToken)
    → any (λ t. t.family_id == family) rs ≡ false
    → live_rows family rs ≡ 0
live_rows-absent family [] e = refl
live_rows-absent family (r ∷ rs) e = ground (arith, live_rows-absent family rs)

live_rows-marked :
    (family new : ℕ) (test : RefreshToken → Bool) (rs : List RefreshToken)
    → live_rows family (update_where test (λ t. record t { replaced_by = some new }) rs)
      ≡ live_rows family rs
live_rows-marked family new test [] = refl
live_rows-marked family new test (r ∷ rs) = ground (arith, live_rows-marked family new test rs)

module _ (env : Env) where
  open env use {prisma}

  abbrev pub live : ℕ → State env → ℕ
  live family s = live_rows family (prisma.rows s.refresh_tokens)

  abbrev pub DistinctIds : State env → Type 0
  DistinctIds s = Keys.Distinct (λ t. t.id) (prisma.rows s.refresh_tokens)

  rows-revoke :
      (now : ℕ) (test : RefreshToken → Bool) (s : State env)
      → prisma.rows (revoke env now test s).refresh_tokens
        ≡ revoked_rows now test (prisma.rows s.refresh_tokens)
  rows-revoke now test s =
      prisma.rows-update_many (λ t. test t && is_null t.revoked_at) (with_revoked_at env now)
        s.refresh_tokens

  pub live-revoke :
      (family now : ℕ) (test : RefreshToken → Bool) (s : State env)
      → live family (revoke env now test s) ≤ live family s
  live-revoke family now test s =
      rw (rows-revoke now test s) (live_rows-revoked family now test (prisma.rows s.refresh_tokens))

  pub live-revoke_all :
      (family now : ℕ) (test : RefreshToken → Bool) (s : State env)
      → ((t : RefreshToken) → t.family_id == family ≡ true → test t ≡ true)
      → live family (revoke env now test s) ≡ 0
  live-revoke_all family now test s covers =
      rw (rows-revoke now test s)
        (live_rows-revoked_all family now test (prisma.rows s.refresh_tokens) covers)

  pub live-revoke_other :
      (family now : ℕ) (test : RefreshToken → Bool) (s : State env)
      → ((t : RefreshToken) → test t ≡ true → t.family_id == family ≡ false)
      → live family (revoke env now test s) ≡ live family s
  live-revoke_other family now test s spares =
      rw (rows-revoke now test s)
        (live_rows-other family now test (prisma.rows s.refresh_tokens) spares)

  pub live-claim :
      (now : ℕ) (row r : RefreshToken) (s : State env)
      → DistinctIds s
      → find_id env row.id s ≡ some r
      → (claim env now row s).0 ≡ true
      → live r.family_id (claim env now row s).1 + 1 ≤ live r.family_id s
  unfolding claim
  live-claim now row r s distinct found won =
      let rows = prisma.rows s.refresh_tokens in
      let counted =
        Keys.count-key (λ t. t.id) row.id (λ t. is_null t.revoked_at) r rows distinct found in
      let fresh : is_null r.revoked_at ≡ true = ground (arith, counted, won) in
      rw (rows-revoke now (λ t. t.id == row.id) s) (live_rows-claimed now row.id r rows found fresh)

  pub live-create :
      (family : ℕ) (row : RefreshToken) (s : State env)
      → live family (record s { refresh_tokens = prisma.create row s.refresh_tokens })
        ≡ (if is_live family row then 1 else 0) + live family s
  live-create family row s = rw (prisma.rows-create row s.refresh_tokens) (ground arith)

  pub live-mark_replaced :
      (family id new : ℕ) (s : State env) → live family (mark_replaced env id new s) ≡ live family s
  unfolding mark_replaced
  live-mark_replaced family id new s =
      rw (prisma.rows-update_many (λ t. t.id == id) (with_replaced_by env new) s.refresh_tokens)
        (live_rows-marked family new (λ t. t.id == id) (prisma.rows s.refresh_tokens))

  pub live-absent :
      (family : ℕ) (s : State env)
      → any (λ t. t.family_id == family) (prisma.rows s.refresh_tokens) ≡ false
      → live family s ≡ 0
  live-absent family s gone = live_rows-absent family (prisma.rows s.refresh_tokens) gone

  pub revoke-Distinct :
      (now : ℕ) (test : RefreshToken → Bool) (s : State env)
      → DistinctIds s
      → DistinctIds (revoke env now test s)
  revoke-Distinct now test s d = rw (rows-revoke now test s) (
      Keys.Distinct-update_where (λ t. t.id) (λ t. test t && is_null t.revoked_at)
        (with_revoked_at env now) (λ t. refl) (prisma.rows s.refresh_tokens) d)

  pub mark_replaced-Distinct :
      (id new : ℕ) (s : State env) → DistinctIds s → DistinctIds (mark_replaced env id new s)
  unfolding mark_replaced
  mark_replaced-Distinct id new s d =
      rw (prisma.rows-update_many (λ t. t.id == id) (with_replaced_by env new) s.refresh_tokens) (
        Keys.Distinct-update_where (λ t. t.id) (λ t. t.id == id) (with_replaced_by env new)
          (λ t. refl) (prisma.rows s.refresh_tokens) d)
