-- ===== src/Sessions/Rotation.antt =====
-- auth.service.ts: however requests overlap, one token of a sign-in works.
use time_flow_be.Prelude.{
  ℕ, ◌+◌, ◌≤◌, ◌≡◌, refl, subst, inl, inr, Option, none, some, is_some, List, [], ◌∷◌, ◌++◌, Bool,
  true, false, not, ◌&&◌, ◌||◌, ◌==◌, if◌then◌else◌, any, arith, Bool-cases, neither, Option-cases,
  leb,
}
use time_flow_be.Results.{Result-cases}
use time_flow_be.Prisma.Keys
use time_flow_be.Sessions.{
  is_active, RefreshToken, User, ClientInfo, Drawn, Env, State, find_id, find_token, find_user,
  issue_session, new_token, revoke, claim, detect_reuse, logout, within_grace, revoke_all_sessions,
  revoke_session, revoke_other_sessions, refresh, current_family, revoked_count, is_other, rotated,
  rotate, refresh_row,
}
use time_flow_be.Sessions.Live.{
  live, DistinctIds, live-revoke, live-claim, live-create, live-mark_replaced, live-absent,
  revoke-Distinct, mark_replaced-Distinct,
}
use time_flow_be.Sessions.Overlap.{
  waiting, Step, signs_in, claims, claims_in_vain, issues, marks, detects, logs_out, revokes_all,
  revokes, revokes_others, Run, begin, then_happens,
}

waiting-insert :
    (family : ℕ) (row : RefreshToken) (before after : List RefreshToken)
    → waiting family (before ++ (row ∷ after))
      ≡ (if row.family_id == family then 1 else 0) + waiting family (before ++ after)
waiting-insert family row [] after = ground arith
waiting-insert family row (x ∷ xs) after = ground (arith, waiting-insert family row xs after)

module _ (env : Env) where
  open env use {prisma}

  -- Ids are distinct, and of every family at most one token works or is about to be made.
  pub record OneLive (s : State env) (ps : List RefreshToken) : Type 0 where
    pub distinct : DistinctIds env s
    pub single : (family : ℕ) → live env family s + waiting family ps ≤ 1

  revoke-OneLive :
      (now : ℕ) (test : RefreshToken → Bool) (s : State env) (ps : List RefreshToken)
      → OneLive s ps
      → OneLive (revoke env now test s) ps
  revoke-OneLive now test s ps h = record {
    distinct = revoke-Distinct env now test s h.distinct;
    single = λ family. omega (arith, h.single family, live-revoke env family now test s);
  }

  issue-OneLive :
      (now : ℕ) (user : User) (client : ClientInfo) (family : ℕ) (drawn : Drawn) (s : State env)
      (ps qs : List RefreshToken)
      → ((f : ℕ) → live env f s + waiting f qs + (if family == f then 1 else 0) ≤ 1)
      → OneLive s ps
      → OneLive (issue_session env now user client family drawn s).1 qs
  unfolding issue_session
  issue-OneLive now user client family drawn s ps qs room h =
      let row = new_token env now user client family drawn in
      elim (Bool-cases
        (is_some (find_id env row.id s) || is_some (find_token env row.token_hash s))) [
          | inl taken ↦
              rw (taken, issue_session)
                (record { distinct = h.distinct; single = λ f. omega (arith, room f) })
          | inr free ↦
              let (fresh, _) =
                neither (find_id env row.id s) (find_token env row.token_hash s) free in
              rw (free, issue_session)
                (record {
                  distinct = rw (prisma.rows-create row s.refresh_tokens) (fresh, h.distinct);
                  single = λ f. rw (live-create env f row s) (ground (arith, room f));
                })
        ]

  room :
      (family f : ℕ) (s : State env) (ps : List RefreshToken)
      → any (λ t. t.family_id == family) (prisma.rows s.refresh_tokens) ≡ false
      → waiting family ps ≡ 0
      → live env f s + waiting f ps ≤ 1
      → live env f s + waiting f ps + (if family == f then 1 else 0) ≤ 1
  room family f s ps new idle before = elim (Bool-cases (family == f)) [
    | inr other ↦ rw other (omega (arith, before))
    | inl same ↦
        let f_eq : family ≡ f = ground arith in
        let none_live : live env f s ≡ 0 =
          subst (λ k. live env k s ≡ 0) f_eq (live-absent env family s new) in
        let none_waits : waiting f ps ≡ 0 = subst (λ k. waiting k ps ≡ 0) f_eq idle in
        rw same (omega (arith, none_live, none_waits))
  ]

  claimed :
      (now : ℕ) (row r : RefreshToken) (f : ℕ) (s : State env) (ps : List RefreshToken)
      → OneLive s ps
      → find_id env row.id s ≡ some r
      → r.family_id ≡ row.family_id
      → (claim env now row s).0 ≡ true
      → live env f (claim env now row s).1 + waiting f (row ∷ ps) ≤ 1
  unfolding claim
  claimed now row r f s ps h found same won =
      let fewer = live-revoke env f now (λ t. t.id == row.id) s in
      elim (Bool-cases (row.family_id == f)) [
        | inr other ↦ rw other (omega (arith, h.single f, fewer))
        | inl hit ↦
            let f_eq : r.family_id ≡ f = ground (arith, same) in
            let one_less = live-claim env now row r s h.distinct found won in
            let at_f : live env f (claim env now row s).1 + 1 ≤ live env f s =
              subst (λ k. live env k (claim env now row s).1 + 1 ≤ live env k s) f_eq one_less in
            rw hit (omega (arith, h.single f, at_f))
      ]

  Step-OneLive :
      {s s' : State env} {ps ps' : List RefreshToken}
      → Step env s ps s' ps'
      → OneLive s ps
      → OneLive s' ps'
  unfolding claim detect_reuse logout revoke_all_sessions revoke_session revoke_other_sessions
  Step-OneLive (signs_in {s} {ps} now user client family drawn new idle) h =
      issue-OneLive now user client family drawn s ps ps
        (λ f. room family f s ps new idle (h.single f)) h
  Step-OneLive (claims {s} {ps} now row r found same won) h = record {
    distinct = revoke-Distinct env now (λ t. t.id == row.id) s h.distinct;
    single = λ f. claimed now row r f s ps h found same won;
  }
  Step-OneLive (claims_in_vain {s} {ps} now row) h = revoke-OneLive now (λ t. t.id == row.id) s ps h
  Step-OneLive (issues {s} before after now user client row drawn) h =
      issue-OneLive now user client row.family_id drawn s (before ++ (row ∷ after))
        (before ++ after) (λ f. omega (arith, h.single f, waiting-insert f row before after)) h
  Step-OneLive (marks {s} id new) h = record {
    distinct = mark_replaced-Distinct env id new s h.distinct;
    single = λ f. omega (arith, h.single f, live-mark_replaced env f id new s);
  }
  Step-OneLive (detects {s} {ps} now row at) h = elim (Bool-cases (within_grace env now row at)) [
    | inl benign ↦ rw (benign, detect_reuse) h
    | inr theft ↦
        let r = revoke-OneLive now (λ t. t.family_id == row.family_id) s ps h in
        rw (theft, detect_reuse) (record { distinct = r.distinct; single = r.single })
  ]
  Step-OneLive (logs_out {s} now none actor) h = h
  Step-OneLive (logs_out {s} {ps} now (some raw) actor) h =
      elim (Option-cases (find_token env (env.sha256 raw) s)) [
        | inl gone ↦ rw (gone, logout) h
        | inr (row, found) ↦
            let r = revoke-OneLive now (λ t. t.family_id == row.family_id) s ps h in
            rw (found, logout) (record { distinct = r.distinct; single = r.single })
      ]
  Step-OneLive (revokes_all {s} {ps} now user) h = elim (Option-cases (find_user env user s)) [
    | inl gone ↦ rw (gone, revoke_all_sessions) h
    | inr (u, found) ↦
        let r = revoke-OneLive now (λ t. t.user_id == user) s ps h in
        rw (found, revoke_all_sessions) (record { distinct = r.distinct; single = r.single })
  ]
  Step-OneLive (revokes {s} {ps} now user family) h =
      let of : RefreshToken → Bool = λ t. t.user_id == user && t.family_id == family in
      elim (Bool-cases (revoked_count env of s == 0)) [
        | inl nothing ↦ rw (nothing, revoke_session) h
        | inr there ↦ rw (there, revoke_session) (revoke-OneLive now of s ps h)
      ]
  Step-OneLive (revokes_others {s} {ps} now user raw) h =
      revoke-OneLive now (is_other env user (current_family env raw s)) s ps h

  rotated-Run :
      (now : ℕ) (user : User) (client : ClientInfo) (drawn : Drawn) (row : RefreshToken)
      (s : State env) (ps : List RefreshToken)
      → find_id env row.id s ≡ some row
      → Run env s ps (rotated env now user client drawn row (claim env now row s)).1 ps
  rotated-Run now user client drawn row s ps found = elim (Bool-cases (claim env now row s).0) [
    | inr lost ↦ rw lost (then_happens begin (claims_in_vain now row))
    | inl won ↦
        let after = (claim env now row s).1 in
        let made = issue_session env now user client row.family_id drawn after in
        let run : Run env s ps made.1 ps =
          then_happens (then_happens begin (claims now row row found refl won))
            (issues [] ps now user client row drawn) in
        elim (Result-cases made.0) [
          | inl (e, refused) ↦ rw (won, refused) run
          | inr (session, issued) ↦
              rw (won, issued) (then_happens run (marks row.id session.refresh_token_id))
        ]
  ]

  rotate-Run :
      (now : ℕ) (client : ClientInfo) (drawn : Drawn) (row : RefreshToken) (o : Option User)
      (s : State env) (ps : List RefreshToken)
      → find_id env row.id s ≡ some row
      → Run env s ps (rotate env now client drawn row o s).1 ps
  rotate-Run now client drawn row none s ps found = begin
  rotate-Run now client drawn row (some user) s ps found =
      elim (Bool-cases (is_some user.deleted_at || not (is_active user.status))) [
        | inl refused ↦ rw refused begin
        | inr active ↦ rw active (rotated-Run now user client drawn row s ps found)
      ]

  refresh_row-Run :
      (now : ℕ) (client : ClientInfo) (drawn : Drawn) (row : RefreshToken) (o : Option ℕ)
      (s : State env) (ps : List RefreshToken)
      → find_id env row.id s ≡ some row
      → Run env s ps (refresh_row env now client drawn row o s).1 ps
  refresh_row-Run now client drawn row (some at) s ps found =
      then_happens begin (detects now row at)
  refresh_row-Run now client drawn row none s ps found =
      elim (Bool-cases (leb row.expires_at now)) [
        | inl late ↦ rw late begin
        | inr early ↦
            rw early (rotate-Run now client drawn row (find_user env row.user_id s) s ps found)
      ]

  -- A request to refresh that runs alone is a run of its writes.
  refresh-Run :
      (now : ℕ) (client : ClientInfo) (raw : ℕ) (drawn : Drawn) (s : State env)
      (ps : List RefreshToken)
      → DistinctIds env s
      → Run env s ps (refresh env now client raw drawn s).1 ps
  unfolding refresh
  refresh-Run now client raw drawn s ps d =
      elim (Option-cases (find_token env (env.sha256 raw) s)) [
        | inl gone ↦ rw (gone, refresh) begin
        | inr (row, found) ↦
            let by_id =
              Keys.find_self (λ t. t.id) (λ t. t.token_hash == env.sha256 raw) row
                (prisma.rows s.refresh_tokens) d found in
            rw (found, refresh) (refresh_row-Run now client drawn row row.revoked_at s ps by_id)
      ]

module _ (env : Env) {s : State env} {ps : List RefreshToken} where
  Run-single :
      {s' : State env} {ps' : List RefreshToken}
      → Run env s ps s' ps'
      → OneLive env s ps
      → OneLive env s' ps'
  Run-single begin h = h
  Run-single (then_happens run step) h = Step-OneLive env step (Run-single run h)

module _ (env : Env) where
  -- Requests may overlap in any way: sign-ins that draw a new family, each write of a refresh (the claim of
  -- the token that was presented, the next token, the mark on the old one), reuse that is detected,
  -- logouts and revocations, in any order and any number. If ids were distinct and of every family at
  -- most one token worked or was about to be made, so it is afterwards, and so it is after a further
  -- refresh that runs from beginning to end.
  pub Run-OneLive :
      {s s' : State env} {ps ps' : List RefreshToken}
      → Run env s ps s' ps'
      → OneLive env s ps
      → (now : ℕ) (client : ClientInfo) (raw : ℕ) (drawn : Drawn)
      → OneLive env s' ps' × OneLive env (refresh env now client raw drawn s').1 ps'
  Run-OneLive {s} {s'} {ps} {ps'} run h now client raw drawn =
      let after = Run-single env run h in
      (after, Run-single env (refresh-Run env now client raw drawn s' ps' after.distinct) after)
