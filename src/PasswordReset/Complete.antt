-- ===== src/PasswordReset/Complete.antt =====
-- `complete` of password-reset.service.ts: when a link sets a password, what that changes, and that the link
-- then is spent.
use time_flow_be.Prelude.{
  ℕ, ◌≡◌, refl, sym, ap, ◌∙◌, inl, inr, ◌⊎◌, some, is_some, List, [], ◌∷◌, Bool, true, false, not,
  ◌&&◌, ◌||◌, ◌==◌, ltb, leb, All, arith, Bool-cases, Option-cases,
}
use time_flow_be.Prisma
use time_flow_be.Prisma.Keys
use time_flow_be.Prisma.{Prisma, find, update_where, find-update_where}
use time_flow_be.PasswordReset.{
  ResetStatus, pending, completed, expired, cancelled, is_pending, is_expired, ResetRequest, User,
  RefreshToken, ResetError, invalid_link, ok, threw, Env, State, find_user, find_request,
  find_by_token, is_open, usable_row, find_usable, claimable, spent, with_password, revoked, spend,
  completed_events, complete, mark_expired,
}

-- No session of the user is left.
abbrev pub no_session : ℕ → RefreshToken → Bool
no_session user t = not (t.user_id == user) || is_some t.revoked_at

revoke-All :
    (user now : ℕ) (ts : List RefreshToken)
    → All
        (λ t. no_session user t ≡ true)
        (update_where
          (λ t. t.user_id == user && not (is_some t.revoked_at))
          (λ t. record t { revoked_at = some now })
          ts)
revoke-All user now [] = tt
revoke-All user now (t ∷ ts) = (
  elim (Bool-cases (t.user_id == user && not (is_some t.revoked_at))) [
    | inl live ↦ rw live (ground arith)
    | inr dead ↦ rw dead (ground arith)
  ],
  revoke-All user now ts,
)

waits : (status : ResetStatus) → is_pending status ≡ true → status ≡ pending
waits pending h = refl
waits completed h = absurd (cc)
waits expired h = absurd (cc)
waits cancelled h = absurd (cc)

threw-ok : {A : Type 0} {a : A} (e : ResetError) → ¬ (threw e ≡ ok a)
threw-ok e h = cc

module _ (env : Env) where
  open env use {prisma}

  -- A link that may be used now: it is pending and not past its expiry, and its member is active.
  pub record Usable (now token : ℕ) (s : State env) (row : ResetRequest) (user : User)
      : Type 0 where
    pub found : find_by_token env (env.sha256 token) s ≡ some row
    pub member : find_user env row.user_id s ≡ some user
    pub open_account : is_open env user ≡ true
    pub is_waiting : row.status ≡ pending
    pub in_time : leb row.expires_at now ≡ false

  find_usable-row :
      (now token : ℕ) (s : State env) (row : ResetRequest) (user : User)
      → find_by_token env (env.sha256 token) s ≡ some row
      → find_user env row.user_id s ≡ some user
      → find_usable env now token s ≡ usable_row env now row user s
  unfolding find_usable
  find_usable-row now token s row user found member = rw (found, find_usable, member) refl

  usable_row-pending :
      (now : ℕ) (row : ResetRequest) (user : User) (s : State env)
      → is_open env user ≡ true
      → row.status ≡ pending
      → leb row.expires_at now ≡ false
      → usable_row env now row user s ≡ (ok row, s)
  unfolding usable_row
  usable_row-pending now row user s o w t =
      let waiting : is_pending row.status ≡ true = rw w refl in
      let not_expired : is_expired row.status ≡ false = rw w refl in
      rw (o, waiting, t, not_expired, usable_row) refl

  usable_row-spent :
      (now now' : ℕ) (row : ResetRequest) (user : User) (s : State env)
      → is_open env user ≡ true
      → usable_row env now' (spent env now row) user s ≡ (threw invalid_link, s)
  unfolding usable_row
  usable_row-spent now now' row user s o = rw (o, usable_row) refl

  -- Ids of requests and of users are distinct, as are token hashes.
  pub record DistinctKeys (s : State env) : Type 0 where
    pub requests : Keys.Distinct (λ r. r.id) (prisma.rows s.requests)
    pub users : Keys.Distinct (λ u. u.id) (prisma.rows s.users)
    pub hashes : Keys.Distinct (λ r. r.token_hash) (prisma.rows s.requests)

  -- What setting the password has done.
  pub record Reset (now token password : ℕ) (s s' : State env) (row : ResetRequest) (user : User)
      : Type 0 where
    pub used : find_by_token env (env.sha256 token) s' ≡ some (spent env now row)
    pub changed :
        find_user env row.user_id s' ≡ some (with_password env (env.hash_password password) user)
    pub signed_out : All (λ t. no_session row.user_id t ≡ true) (prisma.rows s'.tokens)

  module _ (now token password : ℕ) (s : State env) (row : ResetRequest) (user : User)
      (keys : DistinctKeys s) (by_id : find_request env row.id s ≡ some row)
      (u : Usable now token s row user) where
    fits : claimable env now row row ≡ true
    fits =
        let waiting : is_pending row.status ≡ true = rw (u.is_waiting) refl in
        ground (arith, waiting, u.in_time)

    claimed-one : Prisma.count prisma (claimable env now row) s.requests ≡ 1
    claimed-one =
        let waiting : is_pending row.status ≡ true = rw (u.is_waiting) refl in
        let counted =
          Keys.count-key (λ r. r.id) row.id (λ r. is_pending r.status && ltb now r.expires_at) row
            (prisma.rows s.requests) keys.requests by_id in
        let time : ltb now row.expires_at ≡ true = ground (arith, u.in_time) in
        counted ∙ rw (waiting, time) refl

    abbrev after_spend : State env
    after_spend = record s {
      requests = prisma.update_many (claimable env now row) (spent env now) s.requests;
      users =
          prisma.update_many (λ x. x.id == row.user_id)
            (with_password env (env.hash_password password)) s.users;
      tokens =
          prisma.update_many (λ t. t.user_id == row.user_id && not (is_some t.revoked_at))
            (revoked env now) s.tokens;
    }

    spend-eq : spend env now row (env.hash_password password) s ≡ (ok tt, after_spend)
    unfolding spend
    spend-eq = rw (claimed-one, spend) refl

    spent-Reset : Reset now token password s after_spend row user
    spent-Reset =
        let user_id = Keys.find-key (λ x. x.id) row.user_id user (prisma.rows s.users) u.member in
        let hit : (user.id == row.user_id) ≡ true = ground arith in
        record {
          used =
              ap (find (λ r. r.token_hash == env.sha256 token))
                (prisma.rows-update_many _ _ s.requests)
              ∙ find-update_where (λ r. r.token_hash) (claimable env now row) (spent env now)
                  (λ r. refl) (env.sha256 token) (prisma.rows s.requests)
              ∙ rw (u.found, fits) refl;
          changed =
              ap (find (λ x. x.id == row.user_id)) (prisma.rows-update_many _ _ s.users)
              ∙ find-update_where (λ x. x.id) (λ x. x.id == row.user_id)
                  (with_password env (env.hash_password password)) (λ r. refl) row.user_id
                  (prisma.rows s.users)
              ∙ rw (u.member, hit) refl;
          signed_out =
              rw
                (prisma.rows-update_many
                  (λ t. t.user_id == row.user_id && not (is_some t.revoked_at)) (revoked env now)
                  s.tokens)
                (revoke-All row.user_id now (prisma.rows s.tokens));
        }

    complete-eq : complete env now token password s ≡ completed_events env row (ok tt, after_spend)
    unfolding complete
    complete-eq =
        let usable : find_usable env now token s ≡ (ok row, s) =
          find_usable-row now token s row user u.found u.member
          ∙ usable_row-pending now row user s u.open_account u.is_waiting u.in_time in
        rw (usable, complete) (rw spend-eq refl)

    -- Where keys are distinct, a link that is pending, not past its expiry and of an active member sets the
    -- password that is given: the request is completed, the member's password and token version have
    -- changed, and no session of the member is left.
    pub complete-works :
        ((complete env now token password s).0 ≡ ok tt)
        × Reset now token password s (complete env now token password s).1 row user
    complete-works =
        let r = spent-Reset in
        rw complete-eq
          (refl, record { used = r.used; changed = r.changed; signed_out = r.signed_out })

    -- Where keys are distinct, a link that is pending, not past its expiry and of an active member works once: in
    -- the state in which setting a password leaves the tables, using its token again, at any time and with any
    -- password, is refused as invalid and changes nothing.
    pub complete-once :
        (now' password' : ℕ)
        → let s' = (complete env now token password s).1 in
          complete env now' token password' s' ≡ (threw invalid_link, s')
    unfolding complete
    complete-once now' password' =
        let s' = (complete env now token password s).1 in
        let r = complete-works.1 in
        let spent_row = spent env now row in
        let member' = with_password env (env.hash_password password) user in
        let usable : find_usable env now' token s' ≡ (threw invalid_link, s') =
          find_usable-row now' token s' spent_row member' r.used r.changed
          ∙ usable_row-spent now now' row member' s' u.open_account in
        rw (usable, complete) refl

  find_usable_cases :
      (now token : ℕ) (s : State env)
      → ((e : ResetError) × (s' : State env) × (find_usable env now token s ≡ (threw e, s')))
        ⊎ ((row : ResetRequest) × (user : User) × (find_usable env now token s ≡ (ok row, s))
            × Usable now token s row user)
  unfolding find_usable usable_row
  find_usable_cases now token s = elim (Option-cases (find_by_token env (env.sha256 token) s)) [
    | inl gone ↦ inl (invalid_link, s, rw (gone, find_usable) refl)
    | inr (row, found) ↦ elim (Option-cases (find_user env row.user_id s)) [
      | inl gone ↦ inl (invalid_link, s, rw (found, find_usable, gone) refl)
      | inr (user, member) ↦ elim (Bool-cases (is_open env user)) [
        | inr closed ↦ inl (
          invalid_link,
          s,
          find_usable-row now token s row user found member ∙ rw (closed, usable_row) refl,
        )
        | inl o ↦ elim (Bool-cases (is_pending row.status && leb row.expires_at now)) [
          | inl late ↦ inl (
            ResetError.expired_link,
            mark_expired env row s,
            find_usable-row now token s row user found member ∙ rw (o, late, usable_row) refl,
          )
          | inr timely ↦ elim (Bool-cases (is_expired row.status)) [
            | inl lapsed ↦ inl (
              ResetError.expired_link,
              s,
              find_usable-row now token s row user found member
                  ∙ rw (o, timely, lapsed, usable_row) refl,
            )
            | inr live ↦ elim (Bool-cases (is_pending row.status)) [
              | inr over ↦ inl (
                invalid_link,
                s,
                find_usable-row now token s row user found member
                    ∙ rw (o, timely, live, over, usable_row) refl,
              )
              | inl waiting ↦ inr (
                row,
                user,
                find_usable-row now token s row user found member
                    ∙ rw (o, timely, live, waiting, usable_row) refl,
                record {
                  found = found;
                  member = member;
                  open_account = o;
                  is_waiting = waits row.status waiting;
                  in_time = ground (arith, timely, waiting);
                },
              )
            ]
          ]
        ]
      ]
    ]
  ]

  -- Only a link that is pending, not past its expiry and of an active member sets a password.
  pub complete_sound :
      (now token password : ℕ) (s : State env)
      → (complete env now token password s).0 ≡ ok tt
      → (row : ResetRequest) × (user : User) × Usable now token s row user
  unfolding complete
  complete_sound now token password s done = elim (find_usable_cases now token s) [
    | inr (row, user, _, u) ↦ (row, user, u)
    | inl (e, s', refused) ↦
        let answer : complete env now token password s ≡ (threw e, s') =
          rw (refused, complete) refl in
        absurd (threw-ok e (sym (ap (λ r. r.0) answer) ∙ done))
  ]
