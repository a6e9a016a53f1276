-- ===== src/SignIn/Challenge.antt =====
-- auth.service.ts: a challenge of a sign-in is exchanged for one session.
use time_flow_be.Prelude.{
  ℕ, ◌/◌, ◌≤◌, ◌<◌, ◌≡◌, refl, sym, subst, ap, ◌∙◌, inl, inr, ◌⊎◌, Option, none, some, List, [],
  ◌∷◌, ◌++◌, Bool, true, false, not, ◌&&◌, ◌==◌, any, ltb, arith, Bool-cases,
}
use time_flow_be.Results.{Result, ok, threw, Result-cases}
use time_flow_be.Sessions
use time_flow_be.Sessions.{is_active}
use time_flow_be.Tokens
use time_flow_be.Tokens.{verify, VerifiedChallenge, seconds, verify_two_factor_challenge}
use time_flow_be.Tokens.Stable.{verify-stable}
use time_flow_be.TwoFactor
use time_flow_be.SignIn.{
  Account, Factor, SignInError, Env, Request, Token, State, challenge_invalid, claim_challenge,
  load_challenge, finish_two_factor_login, check_factor, verify_second_factor, after_factor, issued,
  load_account, challenge_expired, challenge_user, is_verify, account_inactive,
}

abbrev pub is_ok : {A : Type 0} → Result SignInError A → Bool
is_ok (ok a) = true
is_ok (threw e) = false

Answer-cases :
    (r : Tokens.ChallengeAnswer)
    → (r ≡ Tokens.expired)
      ⊎ (r ≡ Tokens.invalid)
      ⊎ ((x : VerifiedChallenge) × (r ≡ Tokens.accepted x))
Answer-cases Tokens.expired = inl refl
Answer-cases Tokens.invalid = inr (inl refl)
Answer-cases (Tokens.accepted x) = inr (inr (x, refl))

module _ (env : Env) where
  abbrev is_spent : ℕ → ℕ → List (ℕ × ℕ) → Bool
  is_spent jti now spent = any (λ (k, until). k == jti && ltb now until) spent

  -- A challenge that was claimed is spent until it expires.
  claimed-spent :
      (now later jti exp : ℕ) (s : State env)
      → (claim_challenge env true now jti exp s).0 ≡ true
      → now ≤ later
      → later / 1000 < exp
      → is_spent jti later (claim_challenge env true now jti exp s).1.spent ≡ true
  unfolding claim_challenge
  claimed-spent now later jti exp s won after in_time =
      elim (Bool-cases (is_spent jti now s.spent)) [
        | inl there ↦
            let lost : (claim_challenge env true now jti exp s).0 ≡ false =
              rw (there, claim_challenge) refl in
            absurd (cc)
        | inr fresh ↦ rw fresh (ground arith)
      ]

  any-append :
      (jti now : ℕ) (xs ys : List (ℕ × ℕ))
      → is_spent jti now ys ≡ true
      → is_spent jti now (xs ++ ys) ≡ true
  any-append jti now [] ys h = h
  any-append jti now (x ∷ xs) ys h = ground (arith, any-append jti now xs ys h)

  abbrev challenge_of :
      VerifiedChallenge → Result SignInError (VerifiedChallenge × Account) → VerifiedChallenge
  challenge_of x (ok (c, a)) = c
  challenge_of x (threw e) = x

  challenge_user-ok :
      (p : Tokens.Purpose) (x c : VerifiedChallenge) (found : Option Account) (a : Account)
      → challenge_user env p x found ≡ ok (c, a)
      → x ≡ c
  challenge_user-ok p x c none a e = absurd (cc)
  challenge_user-ok p x c (some b) a e = elim (Bool-cases (not (b.user.token_version == x.tv))) [
    | inl stale ↦
        let e1 : challenge_user env p x (some b) ≡ threw challenge_invalid = rw stale refl in
        absurd (cc)
    | inr fresh ↦ elim (Bool-cases (is_verify env p && not b.factor.enabled)) [
      | inl off ↦
          let e1 : challenge_user env p x (some b) ≡ threw challenge_invalid =
            rw (fresh, off) refl in
          absurd (cc)
      | inr on ↦ elim (Bool-cases (not (is_active b.user.status))) [
        | inl idle ↦
            let e1 : challenge_user env p x (some b) ≡ threw account_inactive =
              rw (fresh, on, idle) refl in
            absurd (cc)
        | inr active ↦
            let e1 : challenge_user env p x (some b) ≡ ok (x, b) = rw (fresh, on, active) refl in
            ap (challenge_of x) (sym e1 ∙ e)
      ]
    ]
  ]

  load_challenge-ok :
      (now : ℕ) (token : Token env) (s : State env) (c : VerifiedChallenge) (a : Account)
      → load_challenge env now token verify s ≡ ok (c, a)
      → verify_two_factor_challenge env.tokens now token verify ≡ Tokens.accepted c
  unfolding load_challenge
  load_challenge-ok now token s c a e =
      elim (Answer-cases (verify_two_factor_challenge env.tokens now token verify)) [
        | inl at ↦
            let e1 : load_challenge env now token verify s ≡ threw challenge_expired =
              rw (load_challenge, at) refl in
            absurd (cc)
        | inr (inl at) ↦
            let e1 : load_challenge env now token verify s ≡ threw challenge_invalid =
              rw (load_challenge, at) refl in
            absurd (cc)
        | inr (inr (x, at)) ↦
            let e1 : load_challenge env now token verify s
                ≡ challenge_user env verify x (load_account env x.sub s) =
              rw (load_challenge, at) refl in
            at
            ∙ ap Tokens.accepted
                (challenge_user-ok verify x c (load_account env x.sub s) a (sym e1 ∙ e))
      ]

  -- What a finished sign-in has claimed.
  issued-spent :
      (user : ℕ) (r : Sessions.Answer env.sessions Sessions.IssuedSession) (s : State env)
      → (issued env user r s).1.spent ≡ s.spent
  issued-spent user (ok i, t) s = refl
  issued-spent user (threw e, t) s = refl

  finish-claims :
      (now : ℕ) (q : Request) (c : VerifiedChallenge) (a : Account) (s : State env)
      (session : Sessions.IssuedSession)
      → (finish_two_factor_login env true now q c a s).0 ≡ ok session
      → ((claim_challenge env true now c.jti c.exp s).0 ≡ true)
        × ((finish_two_factor_login env true now q c a s).1.spent
            ≡ (claim_challenge env true now c.jti c.exp s).1.spent)
  unfolding finish_two_factor_login
  finish-claims now q c a s session e =
      elim (Bool-cases (claim_challenge env true now c.jti c.exp s).0) [
        | inr lost ↦
            let refused : (finish_two_factor_login env true now q c a s).0
                ≡ threw challenge_invalid =
              rw (finish_two_factor_login, lost) refl in
            absurd (cc)
        | inl won ↦ (
          won,
          rw (finish_two_factor_login, won)
              (issued-spent a.user.id
                (Sessions.issue_session env.sessions now a.user q.client q.family q.drawn
                  (claim_challenge env true now c.jti c.exp s).1.sessions)
                (claim_challenge env true now c.jti c.exp s).1),
        )
      ]

  -- A right factor claims the challenge.
  factor-claims :
      (now : ℕ) (q : Request) (c : VerifiedChallenge) (a : Account) (factor : Factor)
      (r : TwoFactor.Result Bool × TwoFactor.State env.factors) (s : State env)
      (session : Sessions.IssuedSession)
      → (after_factor env true now q c a factor r s).0 ≡ ok session
      → (later : ℕ) → now ≤ later
      → later / 1000 < c.exp
      → is_spent c.jti later (after_factor env true now q c a factor r s).1.spent ≡ true
  factor-claims now q c a factor (TwoFactor.threw e, t) s session won later after in_time =
      absurd (cc)
  factor-claims now q c a factor (TwoFactor.ok false, t) s session won later after in_time =
      absurd (cc)
  factor-claims now q c a factor (TwoFactor.ok true, t) s session won later after in_time =
      let counted = record s { factors = t } in
      let (claimed, same) = finish-claims now q c a counted session won in
      ap (is_spent c.jti later) same
      ∙ claimed-spent now later c.jti c.exp counted claimed after in_time

  -- A challenge that is spent buys nothing.
  factor-spent :
      (now : ℕ) (q : Request) (c : VerifiedChallenge) (a : Account) (factor : Factor)
      (r : TwoFactor.Result Bool × TwoFactor.State env.factors) (s : State env)
      → is_spent c.jti now s.spent ≡ true
      → (is_ok (after_factor env true now q c a factor r s).0 ≡ false)
        × ((after_factor env true now q c a factor r s).1.sessions ≡ s.sessions)
  unfolding finish_two_factor_login claim_challenge
  factor-spent now q c a factor (TwoFactor.threw e, t) s spent = (refl, refl)
  factor-spent now q c a factor (TwoFactor.ok false, t) s spent = (refl, refl)
  factor-spent now q c a factor (TwoFactor.ok true, t) s spent = (rw spent refl, rw spent refl)

  bought :
      (now later : ℕ) (q : Request) (token : Token env) (factor : Factor) (s : State env)
      (session : Sessions.IssuedSession)
      → (verify_second_factor env true now q token factor s).0 ≡ ok session
      → now ≤ later
      → (c : VerifiedChallenge) × (verify_two_factor_challenge env.tokens now token verify
          ≡ Tokens.accepted c)
        × (later / 1000 < c.exp
            → is_spent c.jti later (verify_second_factor env true now q token factor s).1.spent
              ≡ true)
  unfolding verify_second_factor
  bought now later q token factor s session won after =
      elim (Result-cases (load_challenge env now token verify s)) [
        | inl (e, load) ↦
            let refused : (verify_second_factor env true now q token factor s).0 ≡ threw e =
              rw (verify_second_factor, load) refl in
            absurd (cc)
        | inr ((c, a), load) ↦
            let run : verify_second_factor env true now q token factor s
                ≡ after_factor env true now q c a factor (check_factor env now a factor s) s =
              rw (verify_second_factor, load) refl in
            (
              c,
              load_challenge-ok now token s c a load,
              λ in_time.
                  ap (λ r. is_spent c.jti later r.1.spent) run
                  ∙ factor-claims now q c a factor (check_factor env now a factor s) s session
                      (sym (ap (λ r. r.0) run) ∙ won) later after in_time,
            )
      ]

  -- One challenge buys one session. Where Redis is up, and a factor that was right exchanged a challenge for a
  -- session, then at any later time every exchange of that challenge is refused, whichever factor it is tried with,
  -- and opens no session. Whatever else happened meanwhile, as long as the store kept its keys: others may have
  -- been added.
  pub second_factor-once :
      (now later : ℕ) (q again : Request) (token : Token env) (factor other : Factor)
      (s t : State env) (added : List (ℕ × ℕ)) (session : Sessions.IssuedSession)
      → (verify_second_factor env true now q token factor s).0 ≡ ok session
      → now ≤ later
      → t.spent ≡ added ++ (verify_second_factor env true now q token factor s).1.spent
      → (is_ok (verify_second_factor env true later again token other t).0 ≡ false)
        × ((verify_second_factor env true later again token other t).1.sessions ≡ t.sessions)
  unfolding verify_second_factor
  second_factor-once now later q again token factor other s t added session won after store =
      let (c, seen, spent) = bought now later q token factor s session won after in
      elim (Result-cases (load_challenge env later token verify t)) [
        | inl (e, load) ↦
            (rw (verify_second_factor, load) refl, rw (verify_second_factor, load) refl)
        | inr ((d, b), load) ↦
            let (jti, exp, in_time) =
              verify-stable env.tokens now later token verify verify c d seen
                (load_challenge-ok later token t d b load) in
            let there : is_spent d.jti later t.spent ≡ true =
              ap (λ j. is_spent j later t.spent) jti
              ∙ ap (is_spent c.jti later) store
              ∙ any-append c.jti later added
                  (verify_second_factor env true now q token factor s).1.spent
                  (spent (subst (λ x. seconds later < x) exp in_time)) in
            let (refused, unchanged) =
              factor-spent later again d b other (check_factor env later b other t) t there in
            (rw (verify_second_factor, load) refused, rw (verify_second_factor, load) unchanged)
      ]
