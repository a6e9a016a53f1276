-- ===== src/Users/SignOut.antt =====
-- user.service.ts: an account that is closed, or whose password is changed for it, is signed out everywhere.
use mathlib.Core.Option
use time_flow_be.Prelude.{
  ℕ, ◌+◌, ◌≡◌, refl, sym, subst, ap, ◌∙◌, inl, inr, some, is_some, Bool, true, false, not, ◌&&◌,
  ◌||◌, ◌==◌, if◌then◌else◌, arith, Option-cases, List, [], ◌∷◌, filter, length,
}
use time_flow_be.Results.{Result, ok, threw}
use time_flow_be.Prisma
use time_flow_be.Prisma.Keys
use time_flow_be.Prisma.{find, update_where, find-update_where}
use time_flow_be.Roles.{AuthContext}
use time_flow_be.Sessions.{RefreshToken}
use time_flow_be.SignupOtp.{UserStatus}
use time_flow_be.Tasks.{or_before, is_null}
use time_flow_be.Accounts.{User}
use time_flow_be.Users.{
  Env, UserError, create, reset_two_factor, UpdateUserInput, State, find_user, same_status,
  revokes_sessions, updated, rewrite, update, write_user, revoke_tokens, with_revoked_at, bury,
  buried, remove,
}
use time_flow_be.Users.Guards.{update_cases, remove_cases}
use time_flow_be.Users.Escalation.{Request, creates, updates, removes, resets, run, find-write_user}

none_left :
    (id now : ℕ) (rs : List RefreshToken)
    → length (
        filter
          (λ t. t.user_id == id && is_null t.revoked_at)
          (update_where
            (λ t. t.user_id == id && is_null t.revoked_at)
            (λ t. record t { revoked_at = some now })
            rs))
      ≡ 0
none_left id now [] = refl
none_left id now (r ∷ rs) = ground (arith, none_left id now rs)

module _ (env : Env) where
  open env use {prisma}

  -- The refresh tokens of a user that still work.
  abbrev pub tokens_of : ℕ → State env → ℕ
  tokens_of id s =
      Prisma.count prisma (λ t. t.user_id == id && is_null t.revoked_at) s.refresh_tokens

  revoke_tokens-all : (now id : ℕ) (s : State env) → tokens_of id (revoke_tokens env now id s) ≡ 0
  revoke_tokens-all now id s =
      rw
        (prisma.rows-update_many (λ t. t.user_id == id && is_null t.revoked_at)
          (with_revoked_at env now) s.refresh_tokens)
        (none_left id now (prisma.rows s.refresh_tokens))

  -- A request that is to sign the user out: a removal, a new password, or an account that was not inactive
  -- and now is.
  abbrev pub signs_out : Request → User → Bool
  signs_out (updates id i) before =
      is_some i.password
      || (not (same_status before.status UserStatus.inactive)
          && same_status (or_before i.status before.status) UserStatus.inactive)
  signs_out (removes id) before = true
  signs_out _ before = false

  abbrev pub subject : Request → ℕ
  subject (updates id i) = id
  subject (removes id) = id
  subject (resets id) = id
  subject (creates id i) = id

  abbrev pub is_ok : {A : Type 0} → Result UserError A → Bool
  is_ok (ok a) = true
  is_ok (threw e) = false

  abbrev pub succeeds : ℕ → AuthContext → Request → State env → Bool
  succeeds now actor (creates id i) s = is_ok (create env id actor i s).0
  succeeds now actor (updates id i) s = is_ok (update env now actor id i s).0
  succeeds now actor (removes id) s = is_ok (remove env now actor id s).0
  succeeds now actor (resets id) s = is_ok (reset_two_factor env actor id s).0

  -- No token works, and the version of the tokens is the next one.
  abbrev pub SignedOut : ℕ → User → State env → Type 0
  SignedOut id before s =
      (tokens_of id s ≡ 0)
      × (Option.map (λ u. u.token_version) (find_user env id s) ≡ some (before.token_version + 1))

  version_after :
      (id : ℕ) (f : User → User) (before : User) (s : State env)
      → ((u : User) → (f u).id ≡ u.id)
      → ((u : User) → (f u).token_version ≡ u.token_version + 1)
      → find_user env id s ≡ some before
      → Option.map (λ u. u.token_version) (find_user env id (write_user env id f s))
        ≡ some (before.token_version + 1)
  version_after id f before s keeps bumps found =
      let before_id : before.id ≡ id =
        Keys.find-key (λ u. u.id) id before (prisma.rows s.users) found in
      let hit : (before.id == id) ≡ true = ground (arith, before_id) in
      let after : find_user env id (write_user env id f s) ≡ some (f before) =
        find-write_user env id id f s keeps
        ∙ ap (Option.map (λ u. if u.id == id then f u else u)) found
        ∙ ap (λ b. some (if b then f before else before)) hit in
      rw after (ap some (bumps before))

  revokes-signs_out :
      (id : ℕ) (i : UpdateUserInput) (before : User)
      → revokes_sessions env i before ≡ signs_out (updates id i) before
  unfolding revokes_sessions
  revokes-signs_out id i before = elim (Option-cases i.status) [
    | inl none_given ↦ rw (none_given, revokes_sessions) (ground arith)
    | inr (status, given) ↦ rw (given, revokes_sessions) (ground arith)
  ]

  update-SignedOut :
      (now : ℕ) (actor : AuthContext) (id : ℕ) (i : UpdateUserInput) (s : State env) (before : User)
      → is_ok (update env now actor id i s).0 ≡ true
      → find_user env id s ≡ some before
      → signs_out (updates id i) before ≡ true
      → SignedOut id before (update env now actor id i s).1
  unfolding rewrite
  update-SignedOut now actor id i s before succeeded found out =
      elim (update_cases env now actor id i s) [
        | inl (e, refused) ↦
            let failed : is_ok (update env now actor id i s).0 ≡ false =
              ap (λ r. is_ok r.0) refused in
            absurd (cc)
        | inr (target, u) ↦
            let t_eq : target ≡ before = cc in
            let revokes : revokes_sessions env i target ≡ true =
              subst (λ x. revokes_sessions env i x ≡ true) (sym t_eq)
                (revokes-signs_out id i before ∙ out) in
            let f = updated env i true in
            let left : rewrite env now id i target s
                ≡ revoke_tokens env now id (write_user env id f s) =
              rw (revokes, rewrite) refl in
            subst (λ r. SignedOut id before r.1) (sym u.result)
              (subst (λ x. SignedOut id before x) (sym left)
                (
                  revoke_tokens-all now id (write_user env id f s),
                  version_after id f before s (λ x. refl) (λ x. refl) found,
                ))
      ]

  remove-SignedOut :
      (now : ℕ) (actor : AuthContext) (id : ℕ) (s : State env) (before : User)
      → is_ok (remove env now actor id s).0 ≡ true
      → find_user env id s ≡ some before
      → SignedOut id before (remove env now actor id s).1
  unfolding bury
  remove-SignedOut now actor id s before succeeded found = elim (remove_cases env now actor id s) [
    | inl (e, refused) ↦
        let failed : is_ok (remove env now actor id s).0 ≡ false = ap (λ r. is_ok r.0) refused in
        absurd (cc)
    | inr (target, r) ↦
        subst (λ x. SignedOut id before x.1) (sym r.result)
          (
            revoke_tokens-all now id (write_user env id (buried env now) s),
            version_after id (buried env now) before s (λ x. refl) (λ x. refl) found,
          )
  ]

  -- Whenever an account is removed, is given a new password, or is made inactive, and the request
  -- succeeds, no refresh token of the user works any more, and the version of the user's access tokens
  -- is the next one, so that those that were issued before are refused too.
  pub run-SignedOut :
      (now : ℕ) (actor : AuthContext) (r : Request) (s : State env) (before : User)
      → succeeds now actor r s ≡ true
      → find_user env (subject r) s ≡ some before
      → signs_out r before ≡ true
      → SignedOut (subject r) before (run env now actor r s)
  run-SignedOut now actor (updates id i) s before succeeded found out =
      update-SignedOut now actor id i s before succeeded found out
  run-SignedOut now actor (removes id) s before succeeded found out =
      remove-SignedOut now actor id s before succeeded found
  run-SignedOut now actor (creates id i) s before succeeded found out = absurd (cc)
  run-SignedOut now actor (resets id) s before succeeded found out = absurd (cc)
