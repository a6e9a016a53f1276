-- ===== src/SignIn/Accounts.antt =====
-- auth.service.ts and users/user.repository.ts: the state of a sign-in, and how it finds an account.
use time_flow_be.Prelude.{
  ℕ, Option, none, some, is_some, List, [], ◌∷◌, ◌++◌, Bool, false, not, ◌&&◌, ◌==◌, if◌then◌else◌,
}
use time_flow_be.Results.{Result}
use time_flow_be.Prisma
use time_flow_be.Accounts.{digits_of, has_phone, is_empty}
use time_flow_be.LoginOtp
use time_flow_be.Sessions
use time_flow_be.Sessions.{is_active}
use time_flow_be.SignupOtp.{is_pending}
use time_flow_be.TwoFactor
use time_flow_be.SignIn.Types.{
  Login, Account, Identifier, SignInError, Event, Env, by_email, by_phone,
}

module _ (env : Env) where
  abbrev pub Token : Type 0
  Token = env.tokens.jwt.Token

  -- `spent` has the keys of challenges that are used, each with the time at which Redis drops it.
  pub record State : Type 0 where
    pub logins : env.otp.prisma.Table Login
    pub sessions : Sessions.State env.sessions
    pub factors : TwoFactor.State env.factors
    pub otps : LoginOtp.Table env.otp
    pub spent : List (ℕ × ℕ)
    pub events : List Event

  abbrev pub Answer : Type 0 → Type 0
  Answer A = Result SignInError A × State

  abbrev pub emit : Event → State → State
  emit e s = record s { events = s.events ++ (e ∷ []) }

  -- The row of a user that is not deleted.
  unfoldable pub load_account : ℕ → State → Option Account
  load_account id s = elim (Prisma.find_first env.otp.prisma (λ l. l.id == id) s.logins) [
    | none ↦ none
    | some login ↦ elim (Sessions.find_user env.sessions id s.sessions) [
      | none ↦ none
      | some user ↦ elim (TwoFactor.live_user env.factors id s.factors) [
        | none ↦ none
        | some factor ↦
            if is_some user.deleted_at
            then none
            else some (record { login = login; user = user; factor = factor })
      ]
    ]
  ]

  abbrev pub is_live : ℕ → State → Bool
  is_live id s = elim (Sessions.find_user env.sessions id s.sessions) [
    | none ↦ false
    | some u ↦ not (is_some u.deleted_at)
  ]

  abbrev pub is_waiting : ℕ → State → Bool
  is_waiting id s = elim (Sessions.find_user env.sessions id s.sessions) [
    | none ↦ false
    | some u ↦ is_pending u.status
  ]

  -- `findIdByPhone`: accounts that wait for verification come last.
  unfoldable pub find_id_by_phone : List ℕ → State → Option ℕ
  find_id_by_phone phone s =
      let digits = digits_of phone in
      let of : Login → Bool = λ l. is_live l.id s && has_phone digits l.phone in
      if is_empty digits
      then none
      else elim (Prisma.find_first env.otp.prisma (λ l. of l && not (is_waiting l.id s)) s.logins) [
        | some l ↦ some l.id
        | none ↦ elim (Prisma.find_first env.otp.prisma of s.logins) [
          | none ↦ none
          | some l ↦ some l.id
        ]
      ]

  abbrev pub find_account : Identifier → State → Option Account
  find_account (by_email email) s =
      elim (Prisma.find_first env.otp.prisma (λ l. l.email == email && is_live l.id s) s.logins) [
        | none ↦ none
        | some l ↦ load_account l.id s
      ]
  find_account (by_phone phone) s = elim (find_id_by_phone phone s) [
    | none ↦ none
    | some id ↦ load_account id s
  ]
