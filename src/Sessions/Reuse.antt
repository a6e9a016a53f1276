-- ===== src/Sessions/Reuse.antt =====
-- auth.service.ts: a token that was used before is presented again.
use time_flow_be.Prelude.{
  ℕ, ◌+◌, ◌≤◌, ◌≡◌, refl, inl, inr, ◌⊎◌, none, some, Bool, false, ◌==◌, if◌then◌else◌, arith,
  Bool-cases,
}
use time_flow_be.Results.{threw}
use time_flow_be.Sessions.{
  RefreshToken, ClientInfo, Drawn, Env, State, token_revoked, find_token, detect_reuse,
  within_grace, refresh, refresh_reuse_grace_ms,
}
use time_flow_be.Sessions.Live.{live, live-revoke_all, live-revoke_other}

module _ (env : Env) where
  open env use {prisma}

  -- The token is revoked, and not by a rotation of the last ten seconds.
  pub record Spent (now : ℕ) (raw : ℕ) (s : State env) (row : RefreshToken) : Type 0 where
    pub found : find_token env (env.sha256 raw) s ≡ some row
    pub at : ℕ
    pub revoked : row.revoked_at ≡ some at
    pub late : (row.replaced_by ≡ none) ⊎ (at + refresh_reuse_grace_ms ≤ now)

  beyond_grace :
      (now : ℕ) (row : RefreshToken) (at : ℕ)
      → (row.replaced_by ≡ none) ⊎ (at + refresh_reuse_grace_ms ≤ now)
      → within_grace env now row at ≡ false
  beyond_grace now row at (inl never) = rw never refl
  beyond_grace now row at (inr late) = ground (arith, late)

  detect_reuse-live :
      (now : ℕ) (row : RefreshToken) (at family : ℕ) (s : State env)
      → within_grace env now row at ≡ false
      → live env family (detect_reuse env now row at s)
        ≡ (if family == row.family_id then 0 else live env family s)
  unfolding detect_reuse
  detect_reuse-live now row at family s theft =
      let of : RefreshToken → Bool = λ t. t.family_id == row.family_id in
      rw (theft, detect_reuse)
        (elim (Bool-cases (family == row.family_id)) [
          | inl same ↦ rw same (live-revoke_all env family now of s (λ t inside. ground arith))
          | inr other ↦ rw other (live-revoke_other env family now of s (λ t hit. ground arith))
        ])

  -- A revoked token is presented again, other than within ten seconds of its rotation: the request is
  -- refused, no token of its family works afterwards, whoever holds it, and the tokens that work in every
  -- other family still do.
  pub refresh-reuse :
      (now : ℕ) (client : ClientInfo) (raw : ℕ) (drawn : Drawn) (s : State env) (row : RefreshToken)
      (family : ℕ)
      → Spent now raw s row
      → ((refresh env now client raw drawn s).0 ≡ threw token_revoked)
        × (live env family (refresh env now client raw drawn s).1
            ≡ (if family == row.family_id then 0 else live env family s))
  unfolding refresh detect_reuse
  refresh-reuse now client raw drawn s row family spent =
      let theft = beyond_grace now row spent.at spent.late in
      rw (spent.found, refresh, spent.revoked)
        (refl, detect_reuse-live now row spent.at family s theft)
