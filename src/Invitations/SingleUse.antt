-- ===== src/Invitations/SingleUse.antt =====
-- invitation.service.ts: what accepting an invitation takes and gives, and that it works once.
use mathlib.Core.Option
use time_flow_be.Prelude.{
  ℕ, ◌≡◌, refl, sym, subst, ap, ◌∙◌, inl, inr, none, some, is_some, List, Bool, true, false, ◌&&◌,
  ◌||◌, ◌==◌, ==_refl, ltb, if◌then◌else◌, arith, Bool-cases, Option-cases,
}
use time_flow_be.Results.{ok, threw, Result-cases}
use time_flow_be.Prisma
use time_flow_be.Prisma.Keys
use time_flow_be.Prisma.{find, update_where, find-update_where}
use time_flow_be.Accounts.{Text, email_taken}
use time_flow_be.Invitations.{
  Invitation, AcceptInput, Env, pending, expired, effective_status, same_status, is_pending, State,
  find_hash, find_user, as_accepted, find_usable, claimable, with_user, accept_row, accept,
  new_user, invitation_link_invalid, user_email_exists,
}
use time_flow_be.Invitations.Settled.{Request, run_all, run_all-IsSettled}
use time_flow_be.Invitations.Spared.{DistinctIds, IsSettled}

module _ (env : Env) where
  open env use {prisma}

  -- A link that works: pending, and not past its expiry.
  pub record Usable (now token : ℕ) (s : State env) (row : Invitation) : Type 0 where
    pub found : find_hash env (env.sha256 token) s ≡ some row
    pub waits : is_pending row ≡ true
    pub in_time : ltb now row.expires_at ≡ true

  find_usable-ok :
      (now token : ℕ) (s : State env) (row : Invitation)
      → (find_usable env now token s).0 ≡ ok row
      → Usable now token s row × ((find_usable env now token s).1 ≡ s)
  unfolding find_usable
  find_usable-ok now token s row e = elim (Option-cases (find_hash env (env.sha256 token) s)) [
    | inl gone ↦
        let no_link : (find_usable env now token s).0 ≡ threw invitation_link_invalid =
          rw (gone, find_usable) refl in
        absurd (cc)
    | inr (r, found) ↦ elim (Bool-cases (same_status (effective_status r now) pending)) [
      | inr over ↦
          let no_link : (find_usable env now token s).0 ≡ threw invitation_link_invalid =
            rw (found, find_usable, over) refl in
          absurd (cc)
      | inl live ↦
          let answers : (find_usable env now token s).0 ≡ ok r =
            rw (found, find_usable, live) refl in
          let r_row : r ≡ row = cc in
          let waits : is_pending r ≡ true = ground (arith, live) in
          let in_time : ltb now r.expires_at ≡ true = ground (arith, live, waits) in
          let not_expired : (same_status (effective_status r now) expired && is_pending r) ≡ false =
            ground (arith, live) in
          (
            subst (Usable now token s) r_row
                (record { found = found; waits = waits; in_time = in_time }),
            rw (found, find_usable, not_expired) refl,
          )
    ]
  ]

  -- What an accepted link has become.
  abbrev pub taken_by : ℕ → ℕ → Invitation → Invitation
  taken_by now user row = with_user env user (as_accepted env now row)

  -- What an invitee gets: an account with the email and the role of the link, which is spent.
  pub record Joined (now user : ℕ) (i : AcceptInput) (row : Invitation) (email : Text)
      (s s' : State env) : Type 0 where
    pub answers : row.email ≡ email
    pub free : email_taken prisma row.email none s.users ≡ false
    pub account : find_user env user s' ≡ some (new_user env user i row)
    pub spent : find_hash env (env.sha256 i.token) s' ≡ some (taken_by now user row)
    pub distinct : DistinctIds env s'

  writes-find :
      (now user hash : ℕ) (row : Invitation) (t : prisma.Table Invitation)
      → find (λ r. r.token_hash == hash) (prisma.rows t) ≡ some row
      → claimable env now row.id row ≡ true
      → find
          (λ r. r.token_hash == hash)
          (prisma.rows (
            prisma.update_many
              (λ x. x.id == row.id)
              (with_user env user)
              (prisma.update_many (λ x. claimable env now row.id x) (as_accepted env now) t)))
        ≡ some (taken_by now user row)
  writes-find now user hash row t found claims =
      let p : Invitation → Bool = λ x. claimable env now row.id x in
      let q : Invitation → Bool = λ x. x.id == row.id in
      let claimed = prisma.update_many p (as_accepted env now) t in
      let first =
        ap (find (λ r. r.token_hash == hash)) (prisma.rows-update_many p (as_accepted env now) t)
        ∙ find-update_where (λ r. r.token_hash) p (as_accepted env now) (λ r. refl) hash
            (prisma.rows t)
        ∙ ap (Option.map (λ r. if p r then as_accepted env now r else r)) found
        ∙ ap (λ b. some (if b then as_accepted env now row else row)) claims in
      ap (find (λ r. r.token_hash == hash)) (prisma.rows-update_many q (with_user env user) claimed)
      ∙ find-update_where (λ r. r.token_hash) q (with_user env user) (λ r. refl) hash
          (prisma.rows claimed)
      ∙ ap (Option.map (λ r. if q r then with_user env user r else r)) first
      ∙ ap (λ b. some (if b then taken_by now user row else as_accepted env now row))
          (==_refl row.id)

  writes-Distinct :
      (now user k : ℕ) (t : prisma.Table Invitation)
      → Keys.Distinct (λ r. r.id) (prisma.rows t)
      → Keys.Distinct
          (λ r. r.id)
          (prisma.rows (
            prisma.update_many
              (λ x. x.id == k)
              (with_user env user)
              (prisma.update_many (λ x. claimable env now k x) (as_accepted env now) t)))
  writes-Distinct now user k t d =
      let p : Invitation → Bool = λ x. claimable env now k x in
      let q : Invitation → Bool = λ x. x.id == k in
      let claimed = prisma.update_many p (as_accepted env now) t in
      let first : Keys.Distinct (λ r. r.id) (prisma.rows claimed) =
        rw (prisma.rows-update_many p (as_accepted env now) t) (
          Keys.Distinct-update_where (λ r. r.id) p (as_accepted env now) (λ r. refl) (prisma.rows t)
            d) in
      rw (prisma.rows-update_many q (with_user env user) claimed) (
        Keys.Distinct-update_where (λ r. r.id) q (with_user env user) (λ r. refl)
          (prisma.rows claimed) first)

  accept_row-ok :
      (now user : ℕ) (i : AcceptInput) (row : Invitation) (email : Text) (s : State env)
      → DistinctIds env s
      → Usable now i.token s row
      → (accept_row env now user i row s).0 ≡ ok email
      → Joined now user i row email s (accept_row env now user i row s).1
  unfolding accept_row
  accept_row-ok now user i row email s d u e =
      let won = Prisma.count prisma (λ x. claimable env now row.id x) s.invitations == 1 in
      let taken = is_some (find_user env user s) || email_taken prisma row.email none s.users in
      elim (Bool-cases won) [
        | inr lost ↦
            let refused : (accept_row env now user i row s).0 ≡ threw invitation_link_invalid =
              rw (lost, accept_row) refl in
            absurd (cc)
        | inl one ↦ elim (Bool-cases taken) [
          | inl there ↦
              let refused : (accept_row env now user i row s).0 ≡ threw user_email_exists =
                rw (one, accept_row, there) refl in
              absurd (cc)
          | inr new ↦
              let answers : (accept_row env now user i row s).0 ≡ ok row.email =
                rw (one, accept_row, new) refl in
              let claims : claimable env now row.id row ≡ true =
                ground (arith, ==_refl row.id, u.waits, u.in_time) in
              let free : email_taken prisma row.email none s.users ≡ false = ground (arith, new) in
              record {
                answers = cc;
                free = free;
                account =
                    rw (one, accept_row, new)
                      (rw (prisma.rows-create (new_user env user i row) s.users, ==_refl user)
                        refl);
                spent =
                    rw (one, accept_row, new)
                      (writes-find now user (env.sha256 i.token) row s.invitations u.found claims);
                distinct =
                    rw (one, accept_row, new) (writes-Distinct now user row.id s.invitations d);
              }
        ]
      ]

  accept-ok :
      (now user : ℕ) (i : AcceptInput) (email : Text) (s : State env)
      → DistinctIds env s
      → (accept env now user i s).0 ≡ ok email
      → (row : Invitation) × Usable now i.token s row
        × Joined now user i row email s (accept env now user i s).1
  unfolding accept
  accept-ok now user i email s d e = elim (Result-cases (find_usable env now i.token s).0) [
    | inl (x, refused) ↦
        let fails : (accept env now user i s).0 ≡ threw x = rw (accept, refused) refl in absurd (cc)
    | inr (row, usable) ↦
        let (u, same) = find_usable-ok now i.token s row usable in
        elim (Bool-cases (email_taken prisma row.email none s.users)) [
          | inl taken ↦
              let fails : (accept env now user i s).0 ≡ threw user_email_exists =
                rw (accept, usable, same, taken) refl in
              absurd (cc)
          | inr free ↦
              let goes_on : accept env now user i s ≡ accept_row env now user i row s =
                rw (accept, usable, same, free) refl in
              let joined =
                accept_row-ok now user i row email s d u (sym (ap (λ a. a.0) goes_on) ∙ e) in
              (row, u, subst (λ a. Joined now user i row email s a.1) (sym goes_on) joined)
        ]
  ]

  -- A token that is settled opens nothing.
  find_usable-settled :
      (now token : ℕ) (row : Invitation) (s : State env)
      → IsSettled env (env.sha256 token) row s
      → find_usable env now token s ≡ (threw invitation_link_invalid, s)
  unfolding find_usable
  find_usable-settled now token row s h =
      let over : same_status (effective_status row now) pending ≡ false = ground (arith, h.over) in
      let kept : (same_status (effective_status row now) expired && is_pending row) ≡ false =
        ground (arith, h.over) in
      rw (h.found, find_usable, over, kept) refl

  accept-settled :
      (now user : ℕ) (i : AcceptInput) (row : Invitation) (s : State env)
      → IsSettled env (env.sha256 i.token) row s
      → accept env now user i s ≡ (threw invitation_link_invalid, s)
  unfolding accept
  accept-settled now user i row s h =
      let found = find_usable-settled now i.token row s h in
      let refused : (find_usable env now i.token s).0 ≡ threw invitation_link_invalid =
        ap (λ r. r.0) found in
      let same : (find_usable env now i.token s).1 ≡ s = ap (λ r. r.1) found in
      rw (accept, refused, same) refl

  -- Whenever a link is accepted, it was pending and not past its expiry, no account had its email, and the
  -- account that is made has the email and the role of the link. From then on the link is spent: whatever
  -- requests follow, of whoever and however they overlap, accepting with the token again is refused and
  -- changes nothing. Ids of invitations are distinct.
  pub accept-single_use :
      (now user later next : ℕ) (i j : AcceptInput) (email : Text) (s : State env)
      (rs : List Request)
      → DistinctIds env s
      → (accept env now user i s).0 ≡ ok email
      → j.token ≡ i.token
      → ((row : Invitation) × Usable now i.token s row
          × Joined now user i row email s (accept env now user i s).1)
        × (accept env later next j (run_all env rs (accept env now user i s).1)
            ≡ (threw invitation_link_invalid, run_all env rs (accept env now user i s).1))
  accept-single_use now user later next i j email s rs d e same =
      let (row, u, joined) = accept-ok now user i email s d e in
      let settled : IsSettled env (env.sha256 i.token) (taken_by now user row)
          (accept env now user i s).1 =
        record { distinct = joined.distinct; found = joined.spent; over = refl } in
      let still =
        run_all-IsSettled env rs (env.sha256 i.token) (taken_by now user row)
          (accept env now user i s).1 settled in
      (
        (row, u, joined),
        accept-settled later next j (taken_by now user row)
            (run_all env rs (accept env now user i s).1)
            (subst
              (λ t.
                IsSettled env (env.sha256 t) (taken_by now user row)
                  (run_all env rs (accept env now user i s).1))
              (sym same) still),
      )
