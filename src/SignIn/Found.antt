-- ===== src/SignIn/Found.antt =====
-- auth.service.ts: the account that an email or a phone number finds.
use time_flow_be.Prelude.{
  ℕ, ◌≡◌, refl, sym, subst, ap, ◌∙◌, inl, inr, none, some, is_some, List, [], ◌∷◌, Bool, true, not,
  ◌&&◌, ◌==◌, arith, Bool-cases, Option-cases,
}
use time_flow_be.Accounts.{digits_of, has_phone, is_empty}
use time_flow_be.Prisma.Keys
use time_flow_be.Prisma.{find}
use time_flow_be.Sessions
use time_flow_be.TwoFactor
use time_flow_be.SignIn.{
  Login, Account, Identifier, by_email, by_phone, Env, State, load_account, is_live, is_waiting,
  find_id_by_phone, find_account,
}

find-holds : {R : Type 0} (p : R → Bool) (r : R) (rs : List R) → find p rs ≡ some r → p r ≡ true
find-holds p r [] e = absurd (cc)
find-holds p r (x ∷ rs) e = elim (Bool-cases (p x)) [
  | inl hit ↦
      let there : find p (x ∷ rs) ≡ some x = rw hit refl in
      let same : x ≡ r = cc in ap p (sym same) ∙ hit
  | inr miss ↦
      let later : find p (x ∷ rs) ≡ find p rs = rw miss refl in find-holds p r rs (sym later ∙ e)
]

module _ (env : Env) where
  abbrev pub DistinctLogins : State env → Type 0
  DistinctLogins s = Keys.Distinct (λ l. l.id) (env.otp.prisma.rows s.logins)

  -- The identifier is the account's, and its three records are of one user, who is not deleted.
  abbrev pub Names : Identifier → Login → Type 0
  Names (by_email email) l = l.email ≡ email
  Names (by_phone phone) l = has_phone (digits_of phone) l.phone ≡ true

  abbrev pub IsOneUser : Account → Type 0
  IsOneUser a = (a.user.id ≡ a.login.id) × (a.factor.id ≡ a.login.id) × (a.user.deleted_at ≡ none)

  load_account-IsOneUser :
      (id : ℕ) (s : State env) (a : Account)
      → load_account env id s ≡ some a
      → (find (λ l. l.id == id) (env.otp.prisma.rows s.logins) ≡ some a.login) × IsOneUser a
  unfolding load_account
  load_account-IsOneUser id s a e =
      elim (Option-cases (find (λ (l : Login). l.id == id) (env.otp.prisma.rows s.logins))) [
        | inl gone ↦
            let missing : load_account env id s ≡ none = rw (load_account, gone) refl in absurd (cc)
        | inr (l, login) ↦ elim (Option-cases (Sessions.find_user env.sessions id s.sessions)) [
          | inl gone ↦
              let missing : load_account env id s ≡ none = rw (load_account, login, gone) refl in
              absurd (cc)
          | inr (u, user) ↦ elim (Option-cases (TwoFactor.live_user env.factors id s.factors)) [
            | inl gone ↦
                let missing : load_account env id s ≡ none =
                  rw (load_account, login, user, gone) refl in
                absurd (cc)
            | inr (f, factor) ↦ elim (Option-cases u.deleted_at) [
              | inr (at, deleted) ↦
                  let missing : load_account env id s ≡ none =
                    rw (load_account, login, user, factor, deleted) refl in
                  absurd (cc)
              | inl live ↦
                  let made : Account = record { login = l; user = u; factor = f } in
                  let there : load_account env id s ≡ some made =
                    rw (load_account, login, user, factor, live) refl in
                  let same : made ≡ a = cc in
                  let l_id =
                    Keys.find-key (λ (x : Login). x.id) id l (env.otp.prisma.rows s.logins) login in
                  let u_id =
                    Keys.find-key (λ (x : Sessions.User). x.id) id u
                      (env.sessions.prisma.rows s.sessions.users) user in
                  let holds =
                    find-holds (λ (x : TwoFactor.User). x.id == id && not (is_some x.deleted_at)) f
                      (env.factors.prisma.rows s.factors.users) factor in
                  let f_id : f.id ≡ id = ground arith in
                  subst
                    (λ b.
                      (find (λ x. x.id == id) (env.otp.prisma.rows s.logins) ≡ some b.login)
                      × IsOneUser b)
                    same (login, (u_id ∙ sym l_id, f_id ∙ sym l_id, live))
            ]
          ]
        ]
      ]

  -- Loading the row that a query found, where ids are distinct.
  found-IsOneUser :
      (p : Login → Bool) (l : Login) (s : State env) (a : Account)
      → DistinctLogins s
      → find p (env.otp.prisma.rows s.logins) ≡ some l
      → load_account env l.id s ≡ some a
      → (l ≡ a.login) × IsOneUser a
  found-IsOneUser p l s a distinct found loaded =
      let rows = env.otp.prisma.rows s.logins in
      let (login, one) = load_account-IsOneUser l.id s a loaded in
      let here = Keys.find_self (λ (x : Login). x.id) p l rows distinct found in
      let same : l ≡ a.login = cc in (same, one)

  -- `findIdByPhone` answers with the id of a row that has the number.
  find_id_by_phone-Names :
      (phone : List ℕ) (s : State env) (id : ℕ)
      → find_id_by_phone env phone s ≡ some id
      → (p : Login → Bool) × (l : Login) × (find p (env.otp.prisma.rows s.logins) ≡ some l)
        × (l.id ≡ id)
        × Names (by_phone phone) l
  unfolding find_id_by_phone
  find_id_by_phone-Names phone s id e =
      let rows = env.otp.prisma.rows s.logins in
      let of : Login → Bool = λ l. is_live env l.id s && has_phone (digits_of phone) l.phone in
      let settled : Login → Bool = λ l. of l && not (is_waiting env l.id s) in
      elim (Bool-cases (is_empty (digits_of phone))) [
        | inl empty ↦
            let missing : find_id_by_phone env phone s ≡ none = rw (find_id_by_phone, empty) refl in
            absurd (cc)
        | inr digits ↦ elim (Option-cases (find settled rows)) [
          | inr (l, first) ↦
              let there : find_id_by_phone env phone s ≡ some l.id =
                rw (find_id_by_phone, digits, first) refl in
              let holds = find-holds settled l rows first in (settled, l, first, cc, ground arith)
          | inl none_settled ↦ elim (Option-cases (find of rows)) [
            | inl gone ↦
                let missing : find_id_by_phone env phone s ≡ none =
                  rw (find_id_by_phone, digits, none_settled, gone) refl in
                absurd (cc)
            | inr (l, first) ↦
                let there : find_id_by_phone env phone s ≡ some l.id =
                  rw (find_id_by_phone, digits, none_settled, first) refl in
                let holds = find-holds of l rows first in (of, l, first, cc, ground arith)
          ]
        ]
      ]

  pub find_account-Names :
      (identifier : Identifier) (s : State env) (a : Account)
      → DistinctLogins s
      → find_account env identifier s ≡ some a
      → Names identifier a.login × IsOneUser a
  find_account-Names (by_email email) s a distinct e =
      let p : Login → Bool = λ l. l.email == email && is_live env l.id s in
      elim (Option-cases (find p (env.otp.prisma.rows s.logins))) [
        | inl gone ↦
            let missing : find_account env (by_email email) s ≡ none =
              rw (find_account, gone) refl in
            absurd (cc)
        | inr (l, found) ↦
            let loaded : load_account env l.id s ≡ some a =
              sym (rw (find_account, found) refl) ∙ e in
            let (same, one) = found-IsOneUser p l s a distinct found loaded in
            let holds = find-holds p l (env.otp.prisma.rows s.logins) found in
            let email_eq : l.email ≡ email = ground arith in
            (ap (λ x. x.email) (sym same) ∙ email_eq, one)
      ]
  find_account-Names (by_phone phone) s a distinct e =
      elim (Option-cases (find_id_by_phone env phone s)) [
        | inl gone ↦
            let missing : find_account env (by_phone phone) s ≡ none =
              rw (find_account, gone) refl in
            absurd (cc)
        | inr (id, there) ↦
            let (p, l, found, same_id, names) = find_id_by_phone-Names phone s id there in
            let at_id : find_account env (by_phone phone) s ≡ load_account env id s =
              rw (find_account, there) refl in
            let loaded : load_account env l.id s ≡ some a =
              ap (λ i. load_account env i s) same_id ∙ sym at_id ∙ e in
            let (same, one) = found-IsOneUser p l s a distinct found loaded in
            (subst (Names (by_phone phone)) same names, one)
      ]
