-- ===== src/SignIn/Password.antt =====
-- auth.service.ts: what has to hold for a password alone to open a session, and whose session it is.
use time_flow_be.Prelude.{
  ℕ, ◌≡◌, refl, sym, ap, ◌∙◌, inl, inr, ◌⊎◌, none, some, is_some, List, ◌∷◌, Bool, true, false,
  ◌||◌, Bool-cases, Option-cases,
}
use time_flow_be.Results.{Result, ok, threw}
use time_flow_be.LoginOtp
use time_flow_be.TwoFactor.{decrypted}
use time_flow_be.OtpDelivery.{OtpChannel}
use time_flow_be.Sessions
use time_flow_be.Sessions.{is_active}
use time_flow_be.SignupOtp.{UserStatus, is_pending}
use time_flow_be.SignIn.{
  Account, Identifier, SignInError, Env, Request, State, Answer, LoginAnswer, session,
  two_factor_required, two_factor_setup_required, code_sent, find_account, password_right, admitted,
  after_setup, single_factor, code_started, login, issue, with_session,
}
use time_flow_be.SignIn.Found.{DistinctLogins, Names, IsOneUser, find_account-Names}

-- Only an active account is active.
is_active-active : (status : UserStatus) → is_active status ≡ true → status ≡ UserStatus.active
is_active-active UserStatus.active e = refl
is_active-active UserStatus.pending e = absurd (cc)
is_active-active UserStatus.inactive e = absurd (cc)

module _ (env : Env) where
  abbrev opens_session : Result SignInError (LoginAnswer env) → Bool
  opens_session (ok (session i)) = true
  opens_session (ok (two_factor_required token methods)) = false
  opens_session (ok (two_factor_setup_required token secret)) = false
  opens_session (ok (code_sent id channels)) = false
  opens_session (threw e) = false

  -- No session comes of it.
  abbrev pub NoSession : Answer env (LoginAnswer env) → State env → Type 0
  NoSession r s = (opens_session r.0 ≡ false) × (r.1.sessions ≡ s.sessions)

  -- A password alone is enough: it is the account's, the account is active, and asks for nothing else.
  pub record MayEnter (password : ℕ) (a : Account) : Type 0 where
    pub right : env.factors.password_matches password a.factor.password_hash ≡ true
    pub active : a.user.status ≡ UserStatus.active
    pub no_second : a.factor.enabled ≡ false
    pub no_app : decrypted env.factors a.factor.pending_secret ≡ none
    pub codes_off : env.login_otp_enabled ≡ false

  -- The session is of the account, and its refresh token is the only new row.
  pub record IsSessionOf (q : Request) (a : Account) (i : Sessions.IssuedSession) (s t : State env)
      : Type 0 where
    pub of_user : i.user_id ≡ a.login.id
    pub sub : i.access_token.sub ≡ a.login.id
    pub version : i.access_token.tv ≡ a.user.token_version
    pub row : Sessions.RefreshToken
    pub stored :
        env.sessions.prisma.rows t.sessions.refresh_tokens
        ≡ row ∷ env.sessions.prisma.rows s.sessions.refresh_tokens
    pub owner : row.user_id ≡ a.login.id
    pub hash : row.token_hash ≡ env.sessions.sha256 i.refresh_token
    pub works : row.revoked_at ≡ none

  -- The token that was drawn is in use already.
  abbrev IsDrawnAgain : Request → State env → Type 0
  IsDrawnAgain q s =
      is_some (Sessions.find_id env.sessions q.drawn.id s.sessions)
        || is_some (Sessions.find_token env.sessions (env.sessions.sha256 q.drawn.raw) s.sessions)
      ≡ true

  abbrev Opens : Request → Account → State env → Answer env (LoginAnswer env) → Type 0
  Opens q a s r =
      ((i : Sessions.IssuedSession) × (r.0 ≡ ok (session i)) × IsSessionOf q a i s r.1)
      ⊎ (IsDrawnAgain q s × NoSession r s)

  issue-Opens :
      (now : ℕ) (q : Request) (a : Account) (s : State env)
      → a.user.id ≡ a.login.id
      → Opens q a s (with_session env (issue env now q a.user s))
  unfolding Sessions.issue_session
  issue-Opens now q a s same =
      elim (Bool-cases (
        is_some (Sessions.find_id env.sessions q.drawn.id s.sessions)
        || is_some
            (Sessions.find_token env.sessions (env.sessions.sha256 q.drawn.raw) s.sessions))) [
              | inl taken ↦ inr (taken, rw (issue, Sessions.issue_session, taken) (refl, refl))
              | inr fresh ↦ inl (
                Sessions.session_of env.sessions a.user q.drawn
                    (Sessions.new_token env.sessions now a.user q.client q.family q.drawn),
                rw (issue, Sessions.issue_session, fresh) refl,
                rw (issue, Sessions.issue_session, fresh)
                    (record {
                      of_user = same;
                      sub = same;
                      version = refl;
                      row = Sessions.new_token env.sessions now a.user q.client q.family q.drawn;
                      stored = env.sessions.prisma.rows-create _ s.sessions.refresh_tokens;
                      owner = same;
                      hash = refl;
                      works = refl;
                    }),
              )
            ]

  code_started-NoSession :
      (id : ℕ) (r : LoginOtp.Result (List OtpChannel) × LoginOtp.Table env.otp) (s : State env)
      → NoSession (code_started env id r s) s
  code_started-NoSession id (LoginOtp.threw e, t) s = (refl, refl)
  code_started-NoSession id (LoginOtp.ok channels, t) s = (refl, refl)

  -- What a password opens, and what it does not.
  abbrev pub Enters : Request → ℕ → Account → State env → Answer env (LoginAnswer env) → Type 0
  Enters q password a s r =
      (MayEnter password a × Opens q a s r) ⊎ ((¬ MayEnter password a) × NoSession r s)

  after_setup-Enters :
      (now : ℕ) (q : Request) (accepts : OtpChannel → Bool) (password : ℕ) (a : Account)
      (s : State env)
      → a.user.id ≡ a.login.id
      → env.factors.password_matches password a.factor.password_hash ≡ true
      → a.user.status ≡ UserStatus.active
      → a.factor.enabled ≡ false
      → Enters q password a s
          (after_setup env now q accepts a s (decrypted env.factors a.factor.pending_secret))
  after_setup-Enters now q accepts password a s same right active off =
      elim (Option-cases (decrypted env.factors a.factor.pending_secret)) [
        | inr (secret, waits) ↦ inr (
          (λ m. let clash : some secret ≡ none = sym waits ∙ m.no_app in absurd (cc)),
          rw waits (refl, refl),
        )
        | inl absent ↦ elim (Bool-cases env.login_otp_enabled) [
          | inl on ↦ inr (
            (λ m. let clash : true ≡ false = sym on ∙ m.codes_off in absurd (cc)),
            rw (absent, after_setup, single_factor, on)
                (code_started-NoSession q.otp_id
                  (LoginOtp.start env.otp now q.otp_id q.otp accepts
                    (record { id = a.login.id; phone = a.login.phone }) s.otps)
                  s),
          )
          | inr codes_off ↦ inl (
            record {
              right = right;
              active = active;
              no_second = off;
              no_app = absent;
              codes_off = codes_off;
            },
            rw (absent, after_setup, single_factor, codes_off) (issue-Opens now q a s same),
          )
        ]
      ]

  admitted-Enters :
      (now : ℕ) (q : Request) (accepts : OtpChannel → Bool) (password : ℕ) (a : Account)
      (s : State env)
      → a.user.id ≡ a.login.id
      → env.factors.password_matches password a.factor.password_hash ≡ true
      → Enters q password a s (admitted env now q accepts a s)
  admitted-Enters now q accepts password a s same right =
      elim (Bool-cases (is_pending a.user.status)) [
        | inl waiting ↦ inr (
          (λ m. let clash : true ≡ false = sym waiting ∙ ap is_pending m.active in absurd (cc)),
          rw waiting (refl, refl),
        )
        | inr settled ↦ elim (Bool-cases (is_active a.user.status)) [
          | inr idle ↦ inr (
            (λ m. let clash : false ≡ true = sym idle ∙ ap is_active m.active in absurd (cc)),
            rw (settled, idle) (refl, refl),
          )
          | inl active ↦ elim (Bool-cases a.factor.enabled) [
            | inl on ↦ inr (
              (λ m. let clash : true ≡ false = sym on ∙ m.no_second in absurd (cc)),
              rw (settled, active, on) (refl, refl),
            )
            | inr off ↦
                let next =
                  after_setup-Enters now q accepts password a s same right
                    (is_active-active a.user.status active) off in
                simp (admitted, settled, active, off) next
          ]
        ]
      ]

  -- Where ids of users are distinct, a password alone opens a session only for the account that the email or the
  -- number names, one user who is not deleted, and only if the password is that account's, the account is active,
  -- has neither two-factor authentication on nor an authenticator app waiting to be confirmed, and codes by
  -- email are off. Then the session is that account's, with its token version, and its refresh token is the only
  -- row that is new; unless the token that was drawn is in use already, and nothing is opened. In every other
  -- case `login` answers something else than a session, and leaves the sessions as they were.
  pub login-session :
      (now : ℕ) (q : Request) (accepts : OtpChannel → Bool) (identifier : Identifier) (password : ℕ)
      (s : State env)
      → DistinctLogins env s
      → let r = login env now q accepts identifier password s in
        ((a : Account) × (find_account env identifier s ≡ some a)
          × Names env identifier a.login
          × IsOneUser env a
          × Enters q password a s r)
        ⊎ ((find_account env identifier s ≡ none) × NoSession r s)
  unfolding login
  login-session now q accepts identifier password s distinct =
      elim (Option-cases (find_account env identifier s)) [
        | inl absent ↦ inr (absent, rw (login, absent) (refl, refl))
        | inr (a, found) ↦
            let (names, one) = find_account-Names env identifier s a distinct found in
            inl (
              a,
              found,
              names,
              one,
              elim (Bool-cases (password_right env password a)) [
                | inr wrong ↦ inr (
                  (λ m. let clash : false ≡ true = sym wrong ∙ m.right in absurd (cc)),
                  rw (login, found, wrong) (refl, refl),
                )
                | inl right ↦
                    rw (login, found, right)
                      (admitted-Enters now q accepts password a s one.0 right)
              ],
            )
      ]
