-- ===== src/Sessions/Used.antt =====
-- auth.service.ts: a token that is revoked stays revoked, whatever follows.
use mathlib.Core.Option
use time_flow_be.Prelude.{
  ℕ, ◌≡◌, refl, subst, ap, ◌∙◌, inl, inr, none, some, is_some, List, Bool, true, false, ◌&&◌, ◌||◌,
  ◌==◌, if◌then◌else◌, arith, Bool-cases, neither, Option-cases,
}
use time_flow_be.Prisma.Keys
use time_flow_be.Prisma.{find, find-update_where}
use time_flow_be.Tasks.{is_null}
use time_flow_be.Sessions.{
  RefreshToken, User, ClientInfo, Drawn, Env, State, find_id, find_token, find_user, issue_session,
  new_token, revoke, with_revoked_at, with_replaced_by, claim, mark_replaced, detect_reuse, logout,
  revoke_all_sessions, revoke_session, revoke_other_sessions, revoked_count, is_other,
  current_family, within_grace,
}
use time_flow_be.Sessions.Overlap.{
  Step, signs_in, claims, claims_in_vain, issues, marks, detects, logs_out, revokes_all, revokes,
  revokes_others, Run, begin, then_happens,
}

module _ (env : Env) where
  open env use {prisma}

  -- A new session leaves every row as it is.
  pub find-issue_session :
      (now : ℕ) (user : User) (client : ClientInfo) (f : ℕ) (drawn : Drawn) (s : State env)
      (hash : ℕ) (r : RefreshToken)
      → find_token env hash s ≡ some r
      → find_token env hash (issue_session env now user client f drawn s).1 ≡ some r
  unfolding issue_session
  find-issue_session now user client f drawn s hash r found =
      let row = new_token env now user client f drawn in
      let taken = is_some (find_id env row.id s) || is_some (find_token env row.token_hash s) in
      elim (Bool-cases taken) [
        | inl refused ↦ rw (refused, issue_session) found
        | inr free ↦
            let (_, absent) =
              neither (find_id env row.id s) (find_token env row.token_hash s) free in
            let other : (env.sha256 drawn.raw == hash) ≡ false =
              Keys.key_other (λ t. t.token_hash) (env.sha256 drawn.raw) hash r
                (prisma.rows s.refresh_tokens) found absent in
            rw (free, issue_session, prisma.rows-create row s.refresh_tokens, other) found
      ]

  pub find-claim :
      (now hash : ℕ) (row : RefreshToken) (s : State env)
      → find_token env hash s ≡ some row
      → row.revoked_at ≡ none
      → find_token env hash (claim env now row s).1 ≡ some (with_revoked_at env now row)
  unfolding claim
  find-claim now hash row s found fresh =
      let p : RefreshToken → Bool = λ t. t.id == row.id && is_null t.revoked_at in
      let hit : p row ≡ true = ground (arith, fresh) in
      ap (find (λ t. t.token_hash == hash))
        (prisma.rows-update_many p (with_revoked_at env now) s.refresh_tokens)
      ∙ find-update_where (λ t. t.token_hash) p (with_revoked_at env now) (λ t. refl) hash
          (prisma.rows s.refresh_tokens)
      ∙ ap (Option.map (λ t. if p t then with_revoked_at env now t else t)) found
      ∙ ap (λ b. some (if b then with_revoked_at env now row else row)) hit

module _ (env : Env) (raw at family : ℕ) where
  open env use {prisma}

  -- The token has been revoked at that time.
  pub record Used (s : State env) : Type 0 where
    pub row : RefreshToken
    pub found : find_token env (env.sha256 raw) s ≡ some row
    pub revoked : row.revoked_at ≡ some at
    pub in_family : row.family_id ≡ family

  -- A write that leaves revoked tokens revoked.
  write-Used :
      (p : RefreshToken → Bool) (f : RefreshToken → RefreshToken) (s : State env)
      → ((t : RefreshToken) → (f t).token_hash ≡ t.token_hash)
      → ((t : RefreshToken)
          → t.revoked_at ≡ some at
          → (if p t then f t else t).revoked_at ≡ some at)
      → ((t : RefreshToken) → (f t).family_id ≡ t.family_id)
      → Used s
      → Used (record s { refresh_tokens = prisma.update_many p f s.refresh_tokens })
  write-Used p f s keeps still same u = record {
    row = if p u.row then f u.row else u.row;
    found =
        ap (find (λ t. t.token_hash == env.sha256 raw))
          (prisma.rows-update_many p f s.refresh_tokens)
        ∙ find-update_where (λ t. t.token_hash) p f keeps (env.sha256 raw)
            (prisma.rows s.refresh_tokens)
        ∙ ap (Option.map (λ t. if p t then f t else t)) u.found;
    revoked = still u.row u.revoked;
    in_family = elim (Bool-cases (p u.row)) [
      | inl hit ↦ rw hit (same u.row ∙ u.in_family)
      | inr miss ↦ rw miss u.in_family
    ];
  }

  revoke-Used :
      (now : ℕ) (test : RefreshToken → Bool) (s : State env) → Used s → Used (revoke env now test s)
  revoke-Used now test s u =
      write-Used (λ t. test t && is_null t.revoked_at) (with_revoked_at env now) s (λ t. refl)
        (λ t e. ground (arith, e)) (λ t. refl) u

  pub issue-Used :
      (now : ℕ) (user : User) (client : ClientInfo) (f : ℕ) (drawn : Drawn) (s : State env)
      → Used s
      → Used (issue_session env now user client f drawn s).1
  issue-Used now user client f drawn s u = record {
    row = u.row;
    found = find-issue_session env now user client f drawn s (env.sha256 raw) u.row u.found;
    revoked = u.revoked;
    in_family = u.in_family;
  }

  pub mark_replaced-Used : (id new : ℕ) (s : State env) → Used s → Used (mark_replaced env id new s)
  unfolding mark_replaced
  mark_replaced-Used id new s u =
      write-Used (λ t. t.id == id) (with_replaced_by env new) s (λ t. refl)
        (λ t e. ground (arith, e)) (λ t. refl) u

  -- Only the tokens matter.
  same_tokens : (s s' : State env) → s.refresh_tokens ≡ s'.refresh_tokens → Used s → Used s'
  same_tokens s s' e u = record {
    row = u.row;
    found =
        subst (λ t. find (λ x. x.token_hash == env.sha256 raw) (prisma.rows t) ≡ some u.row) e
          u.found;
    revoked = u.revoked;
    in_family = u.in_family;
  }

  Step-Used :
      {s s' : State env} {ps ps' : List RefreshToken} → Step env s ps s' ps' → Used s → Used s'
  unfolding claim detect_reuse logout revoke_all_sessions revoke_session revoke_other_sessions
  Step-Used (signs_in {s} now user client f drawn new idle) u =
      issue-Used now user client f drawn s u
  Step-Used (claims {s} now row r found same won) u = revoke-Used now (λ t. t.id == row.id) s u
  Step-Used (claims_in_vain {s} now row) u = revoke-Used now (λ t. t.id == row.id) s u
  Step-Used (issues {s} before after now user client row drawn) u =
      issue-Used now user client row.family_id drawn s u
  Step-Used (marks {s} id new) u = mark_replaced-Used id new s u
  Step-Used (detects {s} now row when) u = elim (Bool-cases (within_grace env now row when)) [
    | inl benign ↦ rw (benign, detect_reuse) u
    | inr theft ↦
        let revoked = revoke env now (λ t. t.family_id == row.family_id) s in
        rw (theft, detect_reuse)
          (same_tokens revoked _ refl (revoke-Used now (λ t. t.family_id == row.family_id) s u))
  ]
  Step-Used (logs_out {s} now none actor) u = u
  Step-Used (logs_out {s} now (some presented) actor) u =
      elim (Option-cases (find_token env (env.sha256 presented) s)) [
        | inl gone ↦ rw (gone, logout) u
        | inr (row, found) ↦
            let revoked = revoke env now (λ t. t.family_id == row.family_id) s in
            rw (found, logout)
              (same_tokens revoked _ refl (revoke-Used now (λ t. t.family_id == row.family_id) s u))
      ]
  Step-Used (revokes_all {s} now user) u = elim (Option-cases (find_user env user s)) [
    | inl gone ↦ rw (gone, revoke_all_sessions) u
    | inr (r, found) ↦
        let revoked = revoke env now (λ t. t.user_id == user) s in
        rw (found, revoke_all_sessions)
          (same_tokens revoked _ refl (revoke-Used now (λ t. t.user_id == user) s u))
  ]
  Step-Used (revokes {s} now user f) u =
      let of : RefreshToken → Bool = λ t. t.user_id == user && t.family_id == f in
      elim (Bool-cases (revoked_count env of s == 0)) [
        | inl nothing ↦ rw (nothing, revoke_session) u
        | inr there ↦ rw (there, revoke_session) (revoke-Used now of s u)
      ]
  Step-Used (revokes_others {s} now user presented) u =
      revoke-Used now (is_other env user (current_family env presented s)) s u

module _ (env : Env) {s : State env} {ps : List RefreshToken} where
  pub Run-Used :
      (raw at family : ℕ) {s' : State env} {ps' : List RefreshToken}
      → Run env s ps s' ps'
      → Used env raw at family s
      → Used env raw at family s'
  Run-Used raw at family begin u = u
  Run-Used raw at family (then_happens run step) u =
      Step-Used env raw at family step (Run-Used raw at family run u)
