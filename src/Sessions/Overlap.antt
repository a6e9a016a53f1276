-- ===== src/Sessions/Overlap.antt =====
-- auth.service.ts: requests that overlap. Every write is a step; the second list has the rows of the requests
-- that have claimed their token and have not made the next one yet.
use time_flow_be.Prelude.{
  ℕ, ◌≡◌, Option, some, List, ◌∷◌, ◌++◌, true, false, ◌==◌, filter, length, any,
}
use time_flow_be.Sessions.{
  RefreshToken, User, ClientInfo, Drawn, Env, State, find_id, issue_session, claim, mark_replaced,
  detect_reuse, logout, revoke_all_sessions, revoke_session, revoke_other_sessions,
}

abbrev pub waiting : ℕ → List RefreshToken → ℕ
waiting family ps = length (filter (λ t. t.family_id == family) ps)

module _ (env : Env) where
  open env use {prisma}

  pub data Step : State env → List RefreshToken → State env → List RefreshToken → Type 0 where
    -- A sign-in draws a family that nothing has.
    signs_in :
        {s : State env} {ps : List RefreshToken} (now : ℕ) (user : User) (client : ClientInfo)
        (family : ℕ) (drawn : Drawn)
        → any (λ t. t.family_id == family) (prisma.rows s.refresh_tokens) ≡ false
        → waiting family ps ≡ 0
        → Step s ps (issue_session env now user client family drawn s).1 ps
    -- The row was read before; its family does not change.
    claims :
        {s : State env} {ps : List RefreshToken} (now : ℕ) (row r : RefreshToken)
        → find_id env row.id s ≡ some r
        → r.family_id ≡ row.family_id
        → (claim env now row s).0 ≡ true
        → Step s ps (claim env now row s).1 (row ∷ ps)
    claims_in_vain :
        {s : State env} {ps : List RefreshToken} (now : ℕ) (row : RefreshToken)
        → Step s ps (claim env now row s).1 ps
    issues :
        {s : State env} (before after : List RefreshToken) (now : ℕ) (user : User)
        (client : ClientInfo) (row : RefreshToken) (drawn : Drawn)
        → Step s
            (before ++ (row ∷ after))
            (issue_session env now user client row.family_id drawn s).1
            (before ++ after)
    marks :
        {s : State env} {ps : List RefreshToken} (id new : ℕ)
        → Step s ps (mark_replaced env id new s) ps
    detects :
        {s : State env} {ps : List RefreshToken} (now : ℕ) (row : RefreshToken) (at : ℕ)
        → Step s ps (detect_reuse env now row at s) ps
    logs_out :
        {s : State env} {ps : List RefreshToken} (now : ℕ) (raw actor : Option ℕ)
        → Step s ps (logout env now raw actor s) ps
    revokes_all :
        {s : State env} {ps : List RefreshToken} (now user : ℕ)
        → Step s ps (revoke_all_sessions env now user s).1 ps
    revokes :
        {s : State env} {ps : List RefreshToken} (now user family : ℕ)
        → Step s ps (revoke_session env now user family s).1 ps
    revokes_others :
        {s : State env} {ps : List RefreshToken} (now user : ℕ) (raw : Option ℕ)
        → Step s ps (revoke_other_sessions env now user raw s).1 ps

  pub data Run (s : State env) (ps : List RefreshToken)
      : State env → List RefreshToken → Type 0 where
    begin : Run s ps s ps
    then_happens :
        {s' s'' : State env} {ps' ps'' : List RefreshToken}
        → Run s ps s' ps'
        → Step s' ps' s'' ps''
        → Run s ps s'' ps''
