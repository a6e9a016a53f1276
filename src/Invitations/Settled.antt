-- ===== src/Invitations/Settled.antt =====
-- invitation.service.ts: an invitation that is no longer pending stays as it is, whatever follows.
use time_flow_be.Prelude.{
  ℕ, ◌≡◌, refl, subst, inl, inr, none, some, is_some, List, [], ◌∷◌, true, false, ◌&&◌, ◌||◌, ◌==◌,
  ltb, arith, Bool-cases,
}
use time_flow_be.Results.{Result-cases}
use time_flow_be.Prisma
use time_flow_be.Prisma.Keys
use time_flow_be.Prisma.{find, update_where, find-update_where}
use time_flow_be.Roles.{AuthContext}
use time_flow_be.Accounts.{Text, email_taken}
use time_flow_be.Invitations.{
  Invitation, AcceptInput, Env, is_pending, State, find_invitation, find_user, as_accepted,
  find_usable, create, revoke, verify, claimable, with_user, accept_row, accept,
}
use time_flow_be.Invitations.Spared.{
  IsSettled, write-IsSettled, same_invitations, find_usable-IsSettled, create-IsSettled,
  revoke-IsSettled, verify-IsSettled,
}

-- A request; a transaction of accepting may be that of a row that was read before.
pub data Request : Type 0 where
  creates : (now id token : ℕ) → AuthContext → (role : ℕ) → Text → Request
  revokes verifies : ℕ → ℕ → Request
  accepts : (now user : ℕ) → AcceptInput → Request
  accepts_row : (now user : ℕ) → AcceptInput → Invitation → Request

module _ (env : Env) where
  open env use {prisma}

  abbrev pub run : Request → State env → State env
  run (creates now id token actor role email) s = (create env now id token actor role email s).1
  run (revokes now id) s = (revoke env now id s).1
  run (verifies now token) s = (verify env now token s).1
  run (accepts now user i) s = (accept env now user i s).1
  run (accepts_row now user i row) s = (accept_row env now user i row s).1

  abbrev pub run_all : List Request → State env → State env
  run_all [] s = s
  run_all (r ∷ rs) s = run_all rs (run r s)

  -- A row that is settled is not claimed.
  not_claimed :
      (now k hash : ℕ) (i : Invitation) (s : State env)
      → IsSettled env hash i s
      → Prisma.count prisma (λ x. claimable env now k x) s.invitations == 1 ≡ true
      → (i.id == k) ≡ false
  not_claimed now k hash i s h won = elim (Bool-cases (i.id == k)) [
    | inr other ↦ other
    | inl same ↦
        let i_k : i.id ≡ k = ground arith in
        let rows = prisma.rows s.invitations in
        let by_id =
          Keys.find_self (λ r. r.id) (λ r. r.token_hash == hash) i rows h.distinct h.found in
        let here : find_invitation env k s ≡ some i =
          subst (λ j. find_invitation env j s ≡ some i) i_k by_id in
        let counted =
          Keys.count-key (λ r. r.id) k (λ r. is_pending r && ltb now r.expires_at) i rows h.distinct
            here in
        ground (arith, counted, h.over, won)
  ]

  accept_row-IsSettled :
      (now user : ℕ) (j : AcceptInput) (row : Invitation) (hash : ℕ) (i : Invitation)
      (s : State env)
      → IsSettled env hash i s
      → IsSettled env hash i (accept_row env now user j row s).1
  unfolding accept_row
  accept_row-IsSettled now user j row hash i s h =
      let won = Prisma.count prisma (λ x. claimable env now row.id x) s.invitations == 1 in
      elim (Bool-cases won) [
        | inr lost ↦ rw (lost, accept_row) h
        | inl one ↦
            elim (Bool-cases
              (is_some (find_user env user s) || email_taken prisma row.email none s.users)) [
                | inl taken ↦ rw (one, accept_row, taken) h
                | inr free ↦
                    let other = not_claimed now row.id hash i s h one in
                    let spared : claimable env now row.id i ≡ false = rw other refl in
                    let claimed = record s {
                      invitations =
                          prisma.update_many (λ x. claimable env now row.id x) (as_accepted env now)
                            s.invitations;
                    } in
                    let kept =
                      write-IsSettled env (λ x. claimable env now row.id x) (as_accepted env now)
                        hash i s (λ r. refl) (λ r. refl) spared h in
                    let written =
                      write-IsSettled env (λ x. x.id == row.id) (with_user env user) hash i claimed
                        (λ r. refl) (λ r. refl) other kept in
                    rw (one, accept_row, free)
                      (same_invitations env hash i
                        (record claimed {
                          invitations =
                              prisma.update_many (λ x. x.id == row.id) (with_user env user)
                                claimed.invitations;
                        })
                        _ refl written)
              ]
      ]

  accept-IsSettled :
      (now user : ℕ) (j : AcceptInput) (hash : ℕ) (i : Invitation) (s : State env)
      → IsSettled env hash i s
      → IsSettled env hash i (accept env now user j s).1
  unfolding accept
  accept-IsSettled now user j hash i s h =
      let noted = find_usable-IsSettled env now j.token hash i s h in
      let after = (find_usable env now j.token s).1 in
      elim (Result-cases (find_usable env now j.token s).0) [
        | inl (e, refused) ↦ rw (accept, refused) noted
        | inr (row, usable) ↦ elim (Bool-cases (email_taken prisma row.email none after.users)) [
          | inl taken ↦ rw (accept, usable, taken) noted
          | inr free ↦
              rw (accept, usable, free) (accept_row-IsSettled now user j row hash i after noted)
        ]
      ]

  run-IsSettled :
      (r : Request) (hash : ℕ) (i : Invitation) (s : State env)
      → IsSettled env hash i s
      → IsSettled env hash i (run r s)
  run-IsSettled (creates now id token actor role email) hash i s h =
      create-IsSettled env now id token actor role email hash i s h
  run-IsSettled (revokes now id) hash i s h = revoke-IsSettled env now id hash i s h
  run-IsSettled (verifies now token) hash i s h = verify-IsSettled env now token hash i s h
  run-IsSettled (accepts now user j) hash i s h = accept-IsSettled now user j hash i s h
  run-IsSettled (accepts_row now user j row) hash i s h =
      accept_row-IsSettled now user j row hash i s h

  pub run_all-IsSettled :
      (rs : List Request) (hash : ℕ) (i : Invitation) (s : State env)
      → IsSettled env hash i s
      → IsSettled env hash i (run_all rs s)
  run_all-IsSettled [] hash i s h = h
  run_all-IsSettled (r ∷ rs) hash i s h =
      run_all-IsSettled rs hash i (run r s) (run-IsSettled r hash i s h)
