-- ===== src/LoginOtp/Interleaved.antt =====
-- The writes of login-otp.service.ts in any order, each of a request that may have read its row long
-- before: what holds however requests overlap.
use mathlib.Core.Option
use time_flow_be.Prelude.{
  ℕ, ◌+◌, ◌-◌, ◌≤◌, ◌≡◌, ◌≢◌, refl, ap, ◌∙◌, inl, inr, Option, none, some, is_some, List, [], ◌∷◌,
  Bool, true, false, ◌&&◌, ◌==◌, if◌then◌else◌, arith, Bool-cases, Option-cases,
}
use time_flow_be.Prisma.Keys
use time_flow_be.Prisma.{find, find-update_where}
use time_flow_be.OtpDelivery.{OtpChannel}
use time_flow_be.LoginOtp.{
  LoginOtp, Env, Table, write, find_otp, claimable, one_more, claim, unused, mark_used, use_code,
  supersede, record_channels, discard, same_send, rotated, rotate, restore_sent,
  login_otp_max_attempts,
}

pub data Op : Type 0 where
  claims uses : ℕ → LoginOtp → Op
  rotates : ℕ → LoginOtp → ℕ → Op
  restores supersedes : LoginOtp → Op
  notes_channels : ℕ → List OtpChannel → Op
  discards : ℕ → Op

abbrev pub claims_of : ℕ → Op → Bool
claims_of id (claims now row) = row.id == id
claims_of id _ = false

abbrev pub uses_of : ℕ → Op → Bool
uses_of id (uses now row) = row.id == id
uses_of id _ = false

abbrev pub rotates_of : ℕ → Op → Bool
rotates_of id (rotates now row hash) = row.id == id
rotates_of id _ = false

-- The ids of new attempts are new.
abbrev pub Spares : ℕ → Op → Type 0
Spares id (supersedes row) = row.id ≢ id
Spares id _ = Unit

abbrev pub measure : (LoginOtp → ℕ) → Option LoginOtp → ℕ
measure μ none = 0
measure μ (some r) = μ r

-- The guesses that a row has left, and whether it may still be used.
abbrev pub attempts_left : Option LoginOtp → ℕ
attempts_left o = measure (λ r. login_otp_max_attempts - r.attempts) o

abbrev pub uses_left : Option LoginOtp → ℕ
uses_left o = measure (λ r. if is_some r.used_at then 0 else 1) o

module _ (env : Env) where
  open env use {prisma}

  abbrev pub otps : Table env → List LoginOtp
  otps t = prisma.rows t

  abbrev pub DistinctIds : Table env → Type 0
  DistinctIds t = Keys.Distinct (λ r. r.id) (otps t)

  abbrev pub apply : Op → Table env → Bool × Table env
  apply (claims now row) t = claim env now row t
  apply (uses now row) t = use_code env now row t
  apply (rotates now row hash) t = rotate env now row hash t
  apply (restores row) t = restore_sent env row t
  apply (supersedes row) t = supersede env row t
  apply (notes_channels id channels) t = record_channels env id channels t
  apply (discards id) t = discard env id t

  -- How many operations of a kind succeed.
  abbrev pub successes : (Op → Bool) → List Op → Table env → ℕ
  successes kind [] t = 0
  successes kind (op ∷ ops) t =
      (if kind op && (apply op t).0 then 1 else 0) + successes kind ops (apply op t).1

  module _ (μ : LoginOtp → ℕ) (id k : ℕ) (q : LoginOtp → Bool) (f : LoginOtp → LoginOtp)
      (keeps : (r : LoginOtp) → (f r).id ≡ r.id) (t : Table env) (distinct : DistinctIds t) where
    abbrev pub written : Bool × Table env
    written = write env (λ r. r.id == k && q r) f t

    pub written-find :
        find_otp env id written.1
        ≡ Option.map (λ r. if r.id == k && q r then f r else r) (find_otp env id t)
    written-find =
        ap (find (λ r. r.id == id)) (prisma.rows-update_many _ f t)
        ∙ find-update_where (λ r. r.id) (λ r. r.id == k && q r) f keeps id (otps t)

    pub written-won : (r : LoginOtp) → k ≡ id → find_otp env id t ≡ some r → written.0 ≡ q r
    written-won r same found =
        let here : find_otp env k t ≡ some r = rw same found in
        let counted = Keys.count-key (λ r. r.id) k q r (otps t) distinct here in
        elim (Bool-cases (q r)) [
          | inl e ↦ ground (arith, counted)
          | inr e ↦ ground (arith, counted)
        ]

    written-lost : k ≡ id → find_otp env id t ≡ none → written.0 ≡ false
    written-lost same gone =
        let away : find_otp env k t ≡ none = rw same gone in
        let counted = Keys.count-absent (λ r. r.id) k q (otps t) away in ground (arith, counted)

    -- What a write of one row may gain and may cost.
    pub written-measure :
        (win grant : ℕ)
        → ((r : LoginOtp) → q r ≡ true → win + μ (f r) ≤ μ r + grant)
        → (if k == id && written.0 then win else 0) + measure μ (find_otp env id written.1)
          ≤ measure μ (find_otp env id t) + (if k == id && written.0 then grant else 0)
    written-measure win grant pays = elim (Option-cases (find_otp env id t)) [
      | inl gone ↦ elim (Bool-cases (k == id)) [
        | inr other ↦ rw (other, written-find, gone) (omega arith)
        | inl same ↦ rw (written-lost (ground arith) gone, written-find, gone) (ground arith)
      ]
      | inr (r, found) ↦
          let r_id : r.id ≡ id = Keys.find-key (λ x. x.id) id r (otps t) found in
          elim (Bool-cases (k == id)) [
            | inr other ↦
                let miss : (r.id == k) ≡ false = ground arith in
                rw (other, written-find, found, miss) (omega arith)
            | inl same ↦
                let hit : (r.id == k) ≡ true = ground arith in
                let won : written.0 ≡ q r = written-won r (ground arith) found in
                elim (Bool-cases (q r)) [
                  | inl e ↦ rw (same, won, written-find, found, hit, e) (pays r e)
                  | inr e ↦ rw (same, won, written-find, found, hit, e) (omega arith)
                ]
          ]
    ]

    pub written-Distinct : DistinctIds written.1
    written-Distinct =
        rw (prisma.rows-update_many (λ r. r.id == k && q r) f t)
          (Keys.Distinct-update_where (λ r. r.id) (λ r. r.id == k && q r) f keeps (otps t) distinct)

  -- Writes that are not counted.
  module _ (μ : LoginOtp → ℕ) (id : ℕ) (t : Table env) (distinct : DistinctIds t) where
    pub blind-measure :
        (p : LoginOtp → Bool) (f : LoginOtp → LoginOtp)
        → ((r : LoginOtp) → (f r).id ≡ r.id)
        → ((r : LoginOtp) → μ (f r) ≤ μ r)
        → measure μ (find_otp env id (prisma.update_many p f t)) ≤ measure μ (find_otp env id t)
    blind-measure p f keeps lowers =
        let after : find_otp env id (prisma.update_many p f t)
            ≡ Option.map (λ r. if p r then f r else r) (find_otp env id t) =
          ap (find (λ r. r.id == id)) (prisma.rows-update_many p f t)
          ∙ find-update_where (λ r. r.id) p f keeps id (otps t) in
        elim (Option-cases (find_otp env id t)) [
          | inl gone ↦ rw (after, gone) (omega arith)
          | inr (r, found) ↦ rw (after, found) (ground (arith, lowers r))
        ]

    delete-find :
        (p : LoginOtp → Bool)
        → find_otp env id (prisma.delete_many p t) ≡ elim (find_otp env id t) [
          | none ↦ none
          | some r ↦ if (if p r then false else true) then some r else none
        ]
    delete-find p =
        ap (find (λ r. r.id == id)) (prisma.rows-delete_many p t)
        ∙ Keys.find-filter (λ r. r.id) (λ r. if p r then false else true) id (otps t) distinct

    pub delete-measure :
        (p : LoginOtp → Bool)
        → measure μ (find_otp env id (prisma.delete_many p t)) ≤ measure μ (find_otp env id t)
    delete-measure p = elim (Option-cases (find_otp env id t)) [
      | inl gone ↦ rw (delete-find p, gone) (omega arith)
      | inr (r, found) ↦ rw (delete-find p, found) (ground arith)
    ]

    pub supersede-measure :
        (row : LoginOtp)
        → row.id ≢ id
        → measure μ (find_otp env id (supersede env row t).1) ≤ measure μ (find_otp env id t)
    unfolding supersede
    supersede-measure row other =
        let p = λ (r : LoginOtp). r.user_id == row.user_id in
        let kept = prisma.delete_many p t in
        let miss : (row.id == id) ≡ false = ground arith in
        elim (Bool-cases (is_some (find_otp env row.id kept))) [
          | inl taken ↦ rw taken (omega arith)
          | inr free ↦ rw (free, prisma.rows-create row kept, miss) (delete-measure p)
        ]

  delete-Distinct :
      (p : LoginOtp → Bool) (t : Table env) → DistinctIds t → DistinctIds (prisma.delete_many p t)
  delete-Distinct p t d =
      rw (prisma.rows-delete_many p t)
        (Keys.Distinct-filter (λ r. r.id) (λ r. if p r then false else true) (otps t) d)

  pub apply-Distinct : (op : Op) (t : Table env) → DistinctIds t → DistinctIds (apply op t).1
  unfolding claim use_code rotate restore_sent record_channels discard supersede
  apply-Distinct (claims now row) t d =
      written-Distinct (λ _. 0) row.id row.id (claimable env now row) (one_more env) (λ r. refl) t d
  apply-Distinct (uses now row) t d =
      written-Distinct (λ _. 0) row.id row.id (unused env) (mark_used env now) (λ r. refl) t d
  apply-Distinct (rotates now row hash) t d =
      written-Distinct (λ _. 0) row.id row.id (same_send env row) (rotated env now hash) (λ r. refl)
        t d
  apply-Distinct (restores row) t d =
      rw (prisma.rows-update_many _ _ t)
        (Keys.Distinct-update_where (λ r. r.id) _ _ (λ r. refl) (otps t) d)
  apply-Distinct (notes_channels id channels) t d =
      rw (prisma.rows-update_many _ _ t)
        (Keys.Distinct-update_where (λ r. r.id) _ _ (λ r. refl) (otps t) d)
  apply-Distinct (discards id) t d = delete-Distinct (λ r. r.id == id) t d
  apply-Distinct (supersedes row) t d =
      let kept = prisma.delete_many (λ r. r.user_id == row.user_id) t in
      elim (Option-cases (find_otp env row.id kept)) [
        | inl free ↦ rw free (
            rw (prisma.rows-create row kept)
              (free, delete-Distinct (λ r. r.user_id == row.user_id) t d))
        | inr (r, taken) ↦ rw taken d
      ]
