-- ===== src/Invitations/Spared.antt =====
-- invitation.service.ts: what creating, revoking and reading a link do to one that is no longer pending.
use mathlib.Core.Option
use time_flow_be.Prelude.{
  ℕ, ◌≡◌, refl, subst, ap, ◌∙◌, inl, inr, none, some, is_some, Bool, false, not, ◌&&◌, ◌||◌, ◌==◌,
  if◌then◌else◌, arith, Bool-cases, neither, Option-cases,
}
use time_flow_be.Results.{Result-cases}
use time_flow_be.Prisma.Keys
use time_flow_be.Prisma.{find, find-update_where}
use time_flow_be.Roles.{AuthContext}
use time_flow_be.Accounts.{Text, same_text, email_taken, can_manage_role}
use time_flow_be.Invitations.{
  Invitation, Env, pending, expired, effective_status, same_status, is_pending, State,
  find_invitation, find_hash, find_role, settle, settled_count, as_expired, as_revoked,
  mark_expired, find_usable, replace_pending, create, revoke, verify, new_invitation,
}

module _ (env : Env) where
  open env use {prisma}

  abbrev pub DistinctIds : State env → Type 0
  DistinctIds s = Keys.Distinct (λ i. i.id) (prisma.rows s.invitations)

  -- The row of a token is settled, and ids are distinct.
  pub record IsSettled (hash : ℕ) (i : Invitation) (s : State env) : Type 0 where
    pub distinct : DistinctIds s
    pub found : find_hash env hash s ≡ some i
    pub over : is_pending i ≡ false

  -- A write that spares the row.
  pub write-IsSettled :
      (p : Invitation → Bool) (f : Invitation → Invitation) (hash : ℕ) (i : Invitation)
      (s : State env)
      → ((r : Invitation) → (f r).id ≡ r.id)
      → ((r : Invitation) → (f r).token_hash ≡ r.token_hash)
      → p i ≡ false
      → IsSettled hash i s
      → IsSettled hash i (record s { invitations = prisma.update_many p f s.invitations })
  write-IsSettled p f hash i s ids hashes spared h = record {
    distinct =
        rw (prisma.rows-update_many p f s.invitations)
          (Keys.Distinct-update_where (λ r. r.id) p f ids (prisma.rows s.invitations) h.distinct);
    found =
        ap (find (λ r. r.token_hash == hash)) (prisma.rows-update_many p f s.invitations)
        ∙ find-update_where (λ r. r.token_hash) p f hashes hash (prisma.rows s.invitations)
        ∙ ap (Option.map (λ r. if p r then f r else r)) h.found
        ∙ ap (λ b. some (if b then f i else i)) spared;
    over = h.over;
  }

  -- Only the invitations matter.
  pub same_invitations :
      (hash : ℕ) (i : Invitation) (s s' : State env)
      → s.invitations ≡ s'.invitations
      → IsSettled hash i s
      → IsSettled hash i s'
  same_invitations hash i s s' e h = record {
    distinct = subst (λ t. Keys.Distinct (λ r. r.id) (prisma.rows t)) e h.distinct;
    found = subst (λ t. find (λ r. r.token_hash == hash) (prisma.rows t) ≡ some i) e h.found;
    over = h.over;
  }

  settle-IsSettled :
      (test : Invitation → Bool) (f : Invitation → Invitation) (hash : ℕ) (i : Invitation)
      (s : State env)
      → ((r : Invitation) → (f r).id ≡ r.id)
      → ((r : Invitation) → (f r).token_hash ≡ r.token_hash)
      → IsSettled hash i s
      → IsSettled hash i (settle env test f s)
  settle-IsSettled test f hash i s ids hashes h =
      write-IsSettled (λ r. test r && is_pending r) f hash i s ids hashes (ground (arith, h.over)) h

  mark_expired-IsSettled :
      (row : Invitation) (hash : ℕ) (i : Invitation) (s : State env)
      → IsSettled hash i s
      → IsSettled hash i (mark_expired env row s)
  unfolding mark_expired
  mark_expired-IsSettled row hash i s h =
      let mine : Invitation → Bool = λ r. r.id == row.id in
      let written = settle-IsSettled mine (as_expired env) hash i s (λ r. refl) (λ r. refl) h in
      elim (Bool-cases (settled_count env mine s == 1)) [
        | inl one ↦
            rw (one, mark_expired)
              (same_invitations hash i (settle env mine (as_expired env) s) _ refl written)
        | inr other ↦ rw (other, mark_expired) written
      ]

  pub find_usable-IsSettled :
      (now token hash : ℕ) (i : Invitation) (s : State env)
      → IsSettled hash i s
      → IsSettled hash i (find_usable env now token s).1
  unfolding find_usable
  find_usable-IsSettled now token hash i s h =
      elim (Option-cases (find_hash env (env.sha256 token) s)) [
        | inl gone ↦ rw (gone, find_usable) h
        | inr (row, found) ↦
            elim (Bool-cases (same_status (effective_status row now) expired && is_pending row)) [
              | inl lapsed ↦ rw (found, find_usable, lapsed) (mark_expired-IsSettled row hash i s h)
              | inr live ↦ rw (found, find_usable, live) h
            ]
      ]

  replace_pending-IsSettled :
      (now : ℕ) (row : Invitation) (hash : ℕ) (i : Invitation) (s : State env)
      → IsSettled hash i s
      → IsSettled hash i (replace_pending env now row s).1
  unfolding replace_pending
  replace_pending-IsSettled now row hash i s h =
      let mine : Invitation → Bool = λ r. same_text r.email row.email in
      let cleared = settle env mine (as_revoked env now) s in
      let kept = settle-IsSettled mine (as_revoked env now) hash i s (λ r. refl) (λ r. refl) h in
      elim (Bool-cases (
        is_some (find_invitation env row.id cleared)
        || is_some (find_hash env row.token_hash cleared))) [
          | inl taken ↦ rw (taken, replace_pending) h
          | inr free ↦
              let (fresh, absent) =
                neither (find_invitation env row.id cleared) (find_hash env row.token_hash cleared)
                  free in
              let other : (row.token_hash == hash) ≡ false =
                Keys.key_other (λ r. r.token_hash) row.token_hash hash i
                  (prisma.rows cleared.invitations) kept.found absent in
              let rows = prisma.rows-create row cleared.invitations in
              rw (free, replace_pending)
                (record {
                  distinct = rw rows (fresh, kept.distinct);
                  found = rw (rows, other) kept.found;
                  over = h.over;
                })
        ]

  pub create-IsSettled :
      (now id token : ℕ) (actor : AuthContext) (role : ℕ) (email : Text) (hash : ℕ) (i : Invitation)
      (s : State env)
      → IsSettled hash i s
      → IsSettled hash i (create env now id token actor role email s).1
  unfolding create
  create-IsSettled now id token actor role email hash i s h =
      elim (Option-cases (find_role env role s)) [
        | inl gone ↦ rw (gone, create) h
        | inr (r, found) ↦ elim (Bool-cases (not (can_manage_role prisma actor r.id s.grants))) [
          | inl lacks ↦ rw (found, create, lacks) h
          | inr may ↦ elim (Bool-cases (email_taken prisma email none s.users)) [
            | inl taken ↦ rw (found, create, may, taken) h
            | inr free ↦
                rw (found, create, may, free)
                  (replace_pending-IsSettled now
                    (new_invitation env now id token actor.id r.id email) hash i s h)
          ]
        ]
      ]

  pub revoke-IsSettled :
      (now id hash : ℕ) (i : Invitation) (s : State env)
      → IsSettled hash i s
      → IsSettled hash i (revoke env now id s).1
  unfolding revoke
  revoke-IsSettled now id hash i s h = elim (Option-cases (find_invitation env id s)) [
    | inl gone ↦ rw (gone, revoke) h
    | inr (row, found) ↦
        let mine : Invitation → Bool = λ r. r.id == id in
        let written =
          settle-IsSettled mine (as_revoked env now) hash i s (λ r. refl) (λ r. refl) h in
        elim (Bool-cases (
          not (same_status (effective_status row now) pending)
          || not (settled_count env mine s == 1))) [
            | inl refused ↦ rw (found, revoke, refused) h
            | inr may ↦
                rw (found, revoke, may)
                  (same_invitations hash i (settle env mine (as_revoked env now) s) _ refl written)
          ]
  ]

  pub verify-IsSettled :
      (now token hash : ℕ) (i : Invitation) (s : State env)
      → IsSettled hash i s
      → IsSettled hash i (verify env now token s).1
  unfolding verify
  verify-IsSettled now token hash i s h =
      let noted = find_usable-IsSettled now token hash i s h in
      elim (Result-cases (find_usable env now token s).0) [
        | inl (e, refused) ↦ rw (verify, refused) noted
        | inr (row, usable) ↦ rw (verify, usable) noted
      ]
