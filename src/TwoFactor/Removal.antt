-- ===== src/TwoFactor/Removal.antt =====
-- two-factor.service.ts: `disable`, what it takes, and `clear`, what it leaves.
use time_flow_be.Prelude.{
  ℕ, ◌≡◌, refl, sym, subst, ap, ◌∙◌, inl, inr, some, is_some, List, [], ◌∷◌, Bool, true, false, not,
  ◌&&◌, ◌||◌, ◌==◌, if◌then◌else◌, length, filter, All, arith, Bool-cases, Option-cases,
}
use time_flow_be.Prisma
use time_flow_be.Prisma.{Prisma, find, update_where, find-update_where}
use time_flow_be.TwoFactor.Others.{OthersSame, disable-OthersSame}
use time_flow_be.TwoFactor.Shown.{Shown, consume_password-same, then_do-ok, verify_proof-Shown}
use time_flow_be.TwoFactor.{
  User, Method, Proof, TwoFactorError, ok, threw, then_do, Env, State, live_user, consume_password,
  password_checked, require_password, verify_proof, switched_off, clear, failed, disable_proved,
  disable_checked, disable,
}

-- Nothing is left to sign in with, and the account no longer asks for it.
abbrev pub is_off : User → Bool
is_off u = not u.enabled && not (is_some u.secret) && not (is_some u.pending_secret)

filter-none :
    {R : Type 0} (p : R → Bool) (rs : List R)
    → length (filter p (filter (λ r. if p r then false else true) rs)) ≡ 0
filter-none p [] = refl
filter-none p (r ∷ rs) = elim (Bool-cases (p r)) [
  | inl hit ↦ rw hit (filter-none p rs)
  | inr miss ↦ rw (miss, miss) (filter-none p rs)
]

ok-injective : {A : Type 0} {a b : A} → ok a ≡ ok b → a ≡ b
ok-injective e = cc

threw-ok : {A : Type 0} {a : A} (e : TwoFactorError) → ¬ (threw e ≡ ok a)
threw-ok e h = cc

module _ (env : Env) where
  open env use {prisma}

  switched_off-All :
      (user : ℕ) (us : List User)
      → All
          (λ u. not (u.id == user) || is_off u ≡ true)
          (update_where (λ u. u.id == user) (switched_off env) us)
  switched_off-All user [] = tt
  switched_off-All user (u ∷ us) = (
    elim (Bool-cases (u.id == user)) [
      | inl hit ↦ rw hit (ground arith)
      | inr miss ↦ rw (miss, miss) (ground arith)
    ],
    switched_off-All user us,
  )

  pub record Cleared (user : ℕ) (s : State env) : Type 0 where
    pub off : All (λ u. not (u.id == user) || is_off u ≡ true) (prisma.rows s.users)
    pub no_codes : Prisma.count prisma (λ c. c.user_id == user) s.codes ≡ 0
    pub no_passkeys : Prisma.count prisma (λ p. p.user_id == user) s.passkeys ≡ 0

  clear-Cleared : (user : ℕ) (s : State env) → Cleared user (clear env user s)
  unfolding clear
  clear-Cleared user s = record {
    off =
        rw (prisma.rows-update_many (λ u. u.id == user) (switched_off env) s.users)
          (switched_off-All user (prisma.rows s.users));
    no_codes =
        rw (prisma.rows-delete_many (λ c. c.user_id == user) s.codes)
          (filter-none (λ c. c.user_id == user) (prisma.rows s.codes));
    no_passkeys =
        rw (prisma.rows-delete_many (λ p. p.user_id == user) s.passkeys)
          (filter-none (λ p. p.user_id == user) (prisma.rows s.passkeys));
  }

  -- What `requirePassword` has seen where it answers.
  require_password-ok :
      (now user password : ℕ) (s : State env) (u : User)
      → (require_password env now user password s).0 ≡ ok u
      → (live_user env user s ≡ some u)
        × (env.password_matches password u.password_hash ≡ true)
        × ((require_password env now user password s).1.users ≡ s.users)
        × ((require_password env now user password s).1.codes ≡ s.codes)
  unfolding require_password
  require_password-ok now user password s u e = elim (Option-cases (live_user env user s)) [
    | inl gone ↦
        let refused : require_password env now user password s
            ≡ (threw TwoFactorError.user_not_found, s) =
          rw (gone, require_password) refl in
        absurd (cc)
    | inr (v, found) ↦
        let f = λ (_ : Unit {0}). password_checked env password v in
        let at_v : require_password env now user password s
            ≡ then_do (consume_password env now user s) f =
          rw (found, require_password) refl in
        let (_, _, ran) =
          then_do-ok env (consume_password env now user s) f u (sym (ap (λ r. r.0) at_v) ∙ e) in
        let (users, codes) = consume_password-same env now user s in
        elim (Bool-cases (env.password_matches password v.password_hash)) [
          | inl right ↦
              let answer : (require_password env now user password s).0 ≡ ok v =
                ap (λ r. r.0) (at_v ∙ ran) ∙ rw right refl in
              let same : v ≡ u = ok-injective (sym answer ∙ e) in
              (
                found ∙ ap some same,
                ap (λ (x : User). env.password_matches password x.password_hash) (sym same) ∙ right,
                ap (λ r. r.1.users) (at_v ∙ ran) ∙ rw right users,
                ap (λ r. r.1.codes) (at_v ∙ ran) ∙ rw right codes,
              )
          | inr wrong ↦
              let answer : (require_password env now user password s).0
                  ≡ threw TwoFactorError.invalid_password =
                ap (λ r. r.0) (at_v ∙ ran) ∙ rw wrong refl in
              absurd (cc)
        ]
  ]

  -- What it has taken to switch two-factor authentication off.
  pub record MayDisable (now user password : ℕ) (proof : Proof) (s : State env) : Type 0 where
    pub u : User
    pub found : live_user env user s ≡ some u
    pub right_password : env.password_matches password u.password_hash ≡ true
    pub was_on : u.enabled ≡ true
    pub method : Method
    pub shown : Shown env now user u.secret proof s.users s.codes method

  -- Two-factor authentication is switched off only where it was on, and only with both the right password
  -- and a second factor that the tables show as they were when the request came: a passkey that the verifier
  -- accepts, a code of the authenticator app for a step later than the last one, or a recovery code that was
  -- not used. Then nothing of it is left of the user, no secret, no recovery code and no passkey, and the rows of every
  -- other user are as they were.
  pub disable_sound :
      (now user password : ℕ) (proof : Proof) (s : State env)
      → (disable env now user password proof s).0 ≡ ok tt
      → MayDisable now user password proof s
        × Cleared user (disable env now user password proof s).1
        × OthersSame env user s (disable env now user password proof s).1
  unfolding disable
  disable_sound now user password proof s e =
      let checked = require_password env now user password s in
      let (u, got, ran) = then_do-ok env checked (disable_checked env now user proof) tt e in
      let (found, right, users, codes) = require_password-ok now user password s u got in
      let s₁ = checked.1 in
      let e₁ : (disable_checked env now user proof u s₁).0 ≡ ok tt = sym (ap (λ r. r.0) ran) ∙ e in
      elim (Bool-cases u.enabled) [
        | inr off ↦
            let refused : (disable_checked env now user proof u s₁).0
                ≡ threw TwoFactorError.not_enabled =
              rw off refl in
            absurd (threw-ok TwoFactorError.not_enabled (sym refused ∙ e₁))
        | inl on ↦
            let proving = verify_proof env now user u.secret proof s₁ in
            let at_proof : disable_checked env now user proof u s₁
                ≡ then_do proving (disable_proved env user proof) =
              rw on refl in
            let e₂ : (then_do proving (disable_proved env user proof)).0 ≡ ok tt =
              sym (ap (λ r. r.0) at_proof) ∙ e₁ in
            let (method, proved, ran₂) =
              then_do-ok env proving (disable_proved env user proof) tt e₂ in
            elim (Option-cases method) [
              | inl missing ↦ absurd (
                  threw-ok (failed env proof) (
                    ap (λ m. (disable_proved env user proof m proving.1).0) (sym missing)
                    ∙ sym (ap (λ r. r.0) ran₂)
                    ∙ e₂))
              | inr (m, there) ↦
                  let last : (disable env now user password proof s).1 ≡ clear env user proving.1 =
                    ap (λ r. r.1) (ran ∙ at_proof ∙ ran₂)
                    ∙ ap (λ x. (disable_proved env user proof x proving.1).1) there in
                  let at_proving =
                    verify_proof-Shown env now user u.secret proof s₁ m (proved ∙ ap ok there) in
                  let shown =
                    subst (λ us. Shown env now user u.secret proof us s.codes m) users
                      (subst (λ cs. Shown env now user u.secret proof s₁.users cs m) codes
                        at_proving) in
                  (
                    record {
                      u = u;
                      found = found;
                      right_password = right;
                      was_on = on;
                      method = m;
                      shown = shown;
                    },
                    subst (Cleared user) (sym last) (clear-Cleared user proving.1),
                    disable-OthersSame env now user password proof s,
                  )
            ]
      ]
