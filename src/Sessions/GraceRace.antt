-- ===== src/Sessions/GraceRace.antt =====
-- auth.service.ts: two requests present one token at the same moment, as two tabs of a browser do.
use time_flow_be.Prelude.{ℕ, ◌≡◌, refl, ◌∙◌, inl, none, some, ==_refl}
use time_flow_be.Results.{threw}
use time_flow_be.Sessions.{
  RefreshToken, User, ClientInfo, Drawn, Env, State, token_revoked, find_token, issue_session,
  with_revoked_at, claim, refresh,
}
use time_flow_be.Sessions.Live.{live}
use time_flow_be.Sessions.Reuse.{refresh-reuse}
use time_flow_be.Sessions.Used.{find-issue_session, find-claim}

module _ (env : Env) where
  -- A token works and was never exchanged. One request has claimed it and made the next token, and has not
  -- noted yet that the old one is replaced. A second request with the same token, at whatever time and
  -- even at that very moment, is taken for theft: it is refused, and the token that the first request
  -- answers with no longer works, nor does any other of the family.
  pub refresh-grace_race :
      (now at : ℕ) (user : User) (client other : ClientInfo) (raw : ℕ) (drawn next : Drawn)
      (s : State env) (row : RefreshToken)
      → find_token env (env.sha256 raw) s ≡ some row
      → row.revoked_at ≡ none
      → row.replaced_by ≡ none
      → ((refresh env at other raw next
            (issue_session env now user client row.family_id drawn (claim env now row s).1).1).0
          ≡ threw token_revoked)
        × (live env row.family_id
              (refresh env at other raw next
                (issue_session env now user client row.family_id drawn (claim env now row s).1).1).1
            ≡ 0)
  refresh-grace_race now at user client other raw drawn next s row found fresh first =
      let claimed = find-claim env now (env.sha256 raw) row s found fresh in
      let issued =
        find-issue_session env now user client row.family_id drawn (claim env now row s).1
          (env.sha256 raw) (with_revoked_at env now row) claimed in
      let (refused, dead) =
        refresh-reuse env at other raw next
          (issue_session env now user client row.family_id drawn (claim env now row s).1).1
          (with_revoked_at env now row) row.family_id
          (record { found = issued; at = now; revoked = refl; late = inl first }) in
      (refused, dead ∙ rw (==_refl row.family_id) refl)
