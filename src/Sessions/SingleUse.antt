-- ===== src/Sessions/SingleUse.antt =====
-- auth.service.ts: what becomes of a token that was exchanged for the next one.
use time_flow_be.Prelude.{
  ℕ, ◌+◌, ◌≤◌, ◌≡◌, refl, sym, subst, ap, ◌∙◌, inl, inr, Option, none, some, is_some, List, Bool,
  true, false, not, ◌||◌, ◌==◌, if◌then◌else◌, arith, Option-cases, leb,
}
use time_flow_be.Results.{ok, threw}
use time_flow_be.Sessions.{
  is_active, RefreshToken, User, ClientInfo, Drawn, Env, IssuedSession, State, token_revoked,
  token_expired, invalid_token, account_inactive, AuthError, Answer, find_token, find_user,
  issue_session, with_revoked_at, claim, refresh, refresh_row, rotate, rotated, marked,
  refresh_reuse_grace_ms,
}
use time_flow_be.Sessions.Live.{live}
use time_flow_be.Sessions.Overlap.{Run}
use time_flow_be.Sessions.Used.{Used, find-claim, issue-Used, mark_replaced-Used, Run-Used}
use time_flow_be.Sessions.Reuse.{refresh-reuse}

module _ (env : Env) where
  open env use {prisma}

  -- What a refresh that succeeds has found, and what it leaves.
  abbrev Exchanged : ℕ → ℕ → State env → State env → Type 0
  Exchanged now raw s s' =
      (row : RefreshToken) × (find_token env (env.sha256 raw) s ≡ some row)
      × Used env raw now row.family_id s'

  module _ (raw now family : ℕ) (session : IssuedSession) where
    -- Whatever answers with the session leaves the token used.
    abbrev Uses : Answer env IssuedSession → Type 0
    Uses a = a.0 ≡ ok session → Used env raw now family a.1

    guarded-Uses :
        (refused : Bool) (e : AuthError) (s : State env) (a : Answer env IssuedSession)
        → Uses a
        → Uses (if refused then (threw e, s) else a)
    guarded-Uses true e s a h fails = absurd (cc)
    guarded-Uses false e s a h answers = h answers

    marked-Used :
        (id : ℕ) (a : Answer env IssuedSession)
        → Used env raw now family a.1
        → Used env raw now family (marked env id a).1
    marked-Used id (threw e, s) u = u
    marked-Used id (ok next, s) u =
        mark_replaced-Used env raw now family id next.refresh_token_id s u

    rotated-Uses :
        (at : ℕ) (user : User) (client : ClientInfo) (drawn : Drawn) (row : RefreshToken)
        (c : Bool × State env)
        → Used env raw now family c.1
        → Uses (rotated env at user client drawn row c)
    rotated-Uses at user client drawn row (false, s) u fails = absurd (cc)
    rotated-Uses at user client drawn row (true, s) u answers =
        marked-Used row.id (issue_session env at user client row.family_id drawn s)
          (issue-Used env raw now family at user client row.family_id drawn s u)

    rotate-Uses :
        (at : ℕ) (client : ClientInfo) (drawn : Drawn) (row : RefreshToken) (o : Option User)
        (s : State env)
        → Used env raw now family (claim env at row s).1
        → Uses (rotate env at client drawn row o s)
    rotate-Uses at client drawn row none s u = λ fails. absurd (cc)
    rotate-Uses at client drawn row (some user) s u =
        guarded-Uses (is_some user.deleted_at || not (is_active user.status)) account_inactive s
          (rotated env at user client drawn row (claim env at row s))
          (rotated-Uses at user client drawn row (claim env at row s) u)

  claim-Used :
      (now raw : ℕ) (row : RefreshToken) (s : State env)
      → find_token env (env.sha256 raw) s ≡ some row
      → row.revoked_at ≡ none
      → Used env raw now row.family_id (claim env now row s).1
  claim-Used now raw row s found fresh = record {
    row = with_revoked_at env now row;
    found = find-claim env now (env.sha256 raw) row s found fresh;
    revoked = refl;
    in_family = refl;
  }

  refresh_row-Uses :
      (now : ℕ) (client : ClientInfo) (drawn : Drawn) (raw : ℕ) (row : RefreshToken) (o : Option ℕ)
      (s : State env) (session : IssuedSession)
      → find_token env (env.sha256 raw) s ≡ some row
      → row.revoked_at ≡ o
      → Uses raw now row.family_id session (refresh_row env now client drawn row o s)
  refresh_row-Uses now client drawn raw row (some at) s session found e = λ fails. absurd (cc)
  refresh_row-Uses now client drawn raw row none s session found e =
      guarded-Uses raw now row.family_id session (leb row.expires_at now) token_expired s
        (rotate env now client drawn row (find_user env row.user_id s) s)
        (rotate-Uses raw now row.family_id session now client drawn row
          (find_user env row.user_id s) s (claim-Used now raw row s found e))

  refresh-Exchanged :
      (now : ℕ) (client : ClientInfo) (drawn : Drawn) (raw : ℕ) (s : State env)
      (session : IssuedSession)
      → (refresh env now client raw drawn s).0 ≡ ok session
      → Exchanged now raw s (refresh env now client raw drawn s).1
  unfolding refresh
  refresh-Exchanged now client drawn raw s session e =
      elim (Option-cases (find_token env (env.sha256 raw) s)) [
        | inl gone ↦
            let no : (refresh env now client raw drawn s).0 ≡ threw invalid_token =
              rw (gone, refresh) refl in
            absurd (cc)
        | inr (row, found) ↦
            let here : refresh env now client raw drawn s
                ≡ refresh_row env now client drawn row row.revoked_at s =
              rw (found, refresh) refl in
            let uses =
              refresh_row-Uses now client drawn raw row row.revoked_at s session found refl in
            (
              row,
              found,
              subst (λ a. Used env raw now row.family_id a.1) (sym here)
                  (uses (sym (ap (λ a. a.0) here) ∙ e)),
            )
      ]

  -- A refresh token buys one session. Once it has been exchanged for the next token, whatever else
  -- happens, in whatever order requests overlap: from ten seconds later on, presenting it again is
  -- refused, and then no token of its family works any more, whoever holds it.
  pub refresh-single_use :
      (now later : ℕ) (client thief : ClientInfo) (raw : ℕ) (drawn next : Drawn) (s s' : State env)
      (ps ps' : List RefreshToken) (session : IssuedSession)
      → (refresh env now client raw drawn s).0 ≡ ok session
      → Run env (refresh env now client raw drawn s).1 ps s' ps'
      → now + refresh_reuse_grace_ms ≤ later
      → (row : RefreshToken) × (find_token env (env.sha256 raw) s ≡ some row)
        × ((refresh env later thief raw next s').0 ≡ threw token_revoked)
        × (live env row.family_id (refresh env later thief raw next s').1 ≡ 0)
  refresh-single_use now later client thief raw drawn next s s' ps ps' session e run late =
      let (row, found, u) = refresh-Exchanged now client drawn raw s session e in
      let used = Run-Used env raw now row.family_id run u in
      let (refused, dead) =
        refresh-reuse env later thief raw next s' used.row row.family_id
          (record { found = used.found; at = now; revoked = used.revoked; late = inr late }) in
      let same : row.family_id == used.row.family_id ≡ true = ground (arith, used.in_family) in
      (row, found, refused, dead ∙ rw same refl)
