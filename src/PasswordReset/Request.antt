-- ===== src/PasswordReset/Request.antt =====
-- `request` of password-reset.service.ts: of the links of a member, at most the newest works.
use time_flow_be.Prelude.{
  ℕ, ◌+◌, ◌≡◌, refl, sym, ap, ==_refl, ◌∙◌, inl, inr, ◌⊎◌, Option, none, some, is_some, List, [],
  ◌∷◌, ◌++◌, Bool, true, false, not, ◌&&◌, ◌||◌, ◌==◌, filter, All, arith, Bool-cases, Option-cases,
}
use time_flow_be.Prisma
use time_flow_be.Prisma.{Prisma, find, update_where}
use time_flow_be.PasswordReset.{
  ResetRequest, is_pending, ResetError, delivery_failed, ok, threw, Env, State, find_request,
  find_by_token, is_pending_of, cancel, new_request, issue, write_requests, request, User,
  reset_requested,
}

module _ (env : Env) where
  open env use {prisma}

  -- No link of the member works.
  abbrev pub NonePending : ℕ → List ResetRequest → Type 0
  NonePending user rs = All (λ r. is_pending_of env user r ≡ false) rs

  cancel-NonePending :
      (user now : ℕ) (rs : List ResetRequest)
      → NonePending user (update_where (is_pending_of env user) (cancel env now) rs)
  cancel-NonePending user now [] = tt
  cancel-NonePending user now (r ∷ rs) = (
    elim (Bool-cases (is_pending_of env user r)) [
      | inl waits ↦ rw waits (ground arith)
      | inr over ↦ rw over over
    ],
    cancel-NonePending user now rs,
  )

  still-NonePending :
      (user now id : ℕ) (rs : List ResetRequest)
      → NonePending user rs
      → NonePending user (update_where (λ r. r.id == id && is_pending r.status) (cancel env now) rs)
  still-NonePending user now id [] h = tt
  still-NonePending user now id (r ∷ rs) (over, h) = (
    elim (Bool-cases (r.id == id && is_pending r.status)) [
      | inl hit ↦ rw hit (ground arith)
      | inr miss ↦ rw miss over
    ],
    still-NonePending user now id rs h,
  )

  -- The link that was sent is the first row, and no other link of the member works.
  pub record Newest (user : ℕ) (row : ResetRequest) (s : State env) : Type 0 where
    pub others : List ResetRequest
    pub all_rows : prisma.rows s.requests ≡ row ∷ others
    pub works : is_pending_of env user row ≡ true
    pub none_else : NonePending user others

  abbrev of_others : ℕ → List ResetRequest → List ResetRequest
  of_others user rs = filter (λ r. not (r.user_id == user)) rs

  -- What a link that is made leaves alone: the accounts, the sessions and the links of other members.
  abbrev pub OthersSame : ℕ → State env → State env → Type 0
  OthersSame user s t =
      (t.users ≡ s.users)
      × (t.tokens ≡ s.tokens)
      × (of_others user (prisma.rows t.requests) ≡ of_others user (prisma.rows s.requests))

  cancel-of_others :
      (user now : ℕ) (rs : List ResetRequest)
      → of_others user (update_where (is_pending_of env user) (cancel env now) rs)
        ≡ of_others user rs
  cancel-of_others user now [] = refl
  cancel-of_others user now (r ∷ rs) = elim (Bool-cases (r.user_id == user)) [
    | inr other ↦ rw (other, other) (ap (λ l. r ∷ l) (cancel-of_others user now rs))
    | inl own ↦ elim (Bool-cases (is_pending r.status)) [
      | inl waits ↦ rw (own, waits, own) (cancel-of_others user now rs)
      | inr over ↦ rw (own, over, own) (cancel-of_others user now rs)
    ]
  ]

  cancel-absent :
      (now id : ℕ) (rs : List ResetRequest)
      → find (λ r. r.id == id) rs ≡ none
      → update_where (λ r. r.id == id && is_pending r.status) (cancel env now) rs ≡ rs
  cancel-absent now id [] e = refl
  cancel-absent now id (r ∷ rs) e = elim (Bool-cases (r.id == id)) [
    | inl hit ↦ let there : find (λ r. r.id == id) (r ∷ rs) ≡ some r = rw hit refl in absurd (cc)
    | inr miss ↦
        let later : find (λ r. r.id == id) (r ∷ rs) ≡ find (λ r. r.id == id) rs = rw miss refl in
        rw miss (ap (λ l. r ∷ l) (cancel-absent now id rs (sym later ∙ e)))
  ]

  -- Taking a link back spares every row but its own.
  taken_back-of_others :
      (now user : ℕ) (row : ResetRequest) (rs : List ResetRequest)
      → (row.user_id == user) ≡ true
      → find (λ r. r.id == row.id) rs ≡ none
      → of_others user
          (update_where (λ r. r.id == row.id && is_pending r.status) (cancel env now) (row ∷ rs))
        ≡ of_others user (row ∷ rs)
  taken_back-of_others now user row rs own fresh =
      elim (Bool-cases (row.id == row.id && is_pending row.status)) [
        | inl hit ↦ rw (hit, own) (ap (of_others user) (cancel-absent now row.id rs fresh))
        | inr miss ↦ rw (miss, own) (ap (of_others user) (cancel-absent now row.id rs fresh))
      ]

  issue_cases :
      (now : ℕ) (row : ResetRequest) (s : State env)
      → is_pending row.status ≡ true
      → (issue env now row s ≡ (threw ResetError.in_progress, s))
        ⊎ ((s' : State env) × (issue env now row s ≡ (ok tt, s'))
            × (n : Newest row.user_id row s') × (find (λ r. r.id == row.id) n.others ≡ none)
            × (s'.events ≡ s.events)
            × OthersSame row.user_id s s')
  unfolding issue
  issue_cases now row s waits =
      let s₁ = write_requests env (is_pending_of env row.user_id) (cancel env now) s in
      let taken =
        is_some (find_request env row.id s₁)
        || is_some (find_by_token env row.token_hash s₁)
        || not (Prisma.count prisma (is_pending_of env row.user_id) s₁.requests == 0) in
      elim (Bool-cases taken) [
        | inl e ↦ inl (rw (e, issue) refl)
        | inr e ↦
            let added =
              prisma.rows-create row s₁.requests
              ∙ ap (λ rs. row ∷ rs) (prisma.rows-update_many _ _ s.requests) in
            let at = ap (find (λ r. r.id == row.id)) (prisma.rows-update_many _ _ s.requests) in
            let fresh : find_request env row.id s₁ ≡ none =
              elim (Option-cases (find_request env row.id s₁)) [
                | inl absent ↦ absent
                | inr (r, there) ↦ let used : taken ≡ true = rw there refl in absurd (cc)
              ] in
            inr (
              record s₁ { requests = prisma.create row s₁.requests },
              rw (e, issue) refl,
              record {
                others =
                    update_where (is_pending_of env row.user_id) (cancel env now)
                      (prisma.rows s.requests);
                all_rows = added;
                works = ground (arith, waits);
                none_else = cancel-NonePending row.user_id now (prisma.rows s.requests);
              },
              sym at ∙ fresh,
              refl,
              (
                refl,
                refl,
                ap (of_others row.user_id) added
                    ∙ rw (==_refl row.user_id)
                        (cancel-of_others row.user_id now (prisma.rows s.requests)),
              ),
            )
      ]

  abbrev find_live : ℕ → State env → Option User
  find_live user s =
      Prisma.find_first prisma (λ u. u.id == user && not (is_some u.deleted_at)) s.users

  -- The member may be sent a link.
  abbrev pub MayReset : ℕ → State env → Type 0
  MayReset user s = (target : User) × (find_live user s ≡ some target) × (target.active ≡ true)

  -- Why no link is made: `in_progress` is the database's answer about a link of a member who may be sent one.
  abbrev pub Refused : ResetError → ℕ → State env → Type 0
  Refused e user s =
      ((e ≡ ResetError.user_not_found) × (find_live user s ≡ none))
      ⊎ ((e ≡ ResetError.user_inactive)
          × ((target : User) × (find_live user s ≡ some target) × (target.active ≡ false)))
      ⊎ ((e ≡ ResetError.in_progress) × MayReset user s)

  -- The row is the link that was asked for.
  pub record AsAsked (now id token actor user : ℕ) (row : ResetRequest) : Type 0 where
    pub same_id : row.id ≡ id
    pub same_user : row.user_id ≡ user
    pub same_actor : row.requested_by_id ≡ actor
    pub same_token : row.token_hash ≡ env.sha256 token
    pub ends : row.expires_at ≡ now + env.ttl_ms

  -- Asking for a link is refused, and then changes nothing: the member is not there, is not active, or the database
  -- refuses the row. Otherwise the member is there and active, and one of two things has happened. The mail went
  -- out: the answer is the link that was asked for, with its token, its member and its time, the log has one
  -- entry more, and of the member's links it is the only one that works. Or the mail failed: the answer says so,
  -- nothing is logged, and no link of the member works. Either way no account, no session and no
  -- link of another member changes.
  pub request_cases :
      (now id token actor : ℕ) (mail_sent : Bool) (user : ℕ) (s : State env)
      → let (answer, t) = request env now id token actor mail_sent user s in
        ((e : ResetError) × (answer ≡ threw e) × (t ≡ s) × Refused e user s)
        ⊎ ((row : ResetRequest) × (mail_sent ≡ true)
            × (answer ≡ ok row)
            × MayReset user s
            × AsAsked now id token actor user row
            × Newest user row t
            × (t.events ≡ s.events ++ (reset_requested user ∷ []))
            × OthersSame user s t)
        ⊎ ((mail_sent ≡ false)
            × (answer ≡ threw delivery_failed)
            × MayReset user s
            × NonePending user (prisma.rows t.requests)
            × (t.events ≡ s.events)
            × OthersSame user s t)
  unfolding request
  request_cases now id token actor mail_sent user s =
      let row = new_request env now id actor user token in
      elim (Option-cases (find_live user s)) [
        | inl gone ↦ inl (
          ResetError.user_not_found,
          rw (request, gone) refl,
          rw (request, gone) refl,
          inl (refl, gone),
        )
        | inr (target, found) ↦ elim (Bool-cases target.active) [
          | inr inactive ↦ inl (
            ResetError.user_inactive,
            rw (request, found, inactive) refl,
            rw (request, found, inactive) refl,
            inr (inl (refl, (target, found, inactive))),
          )
          | inl active ↦ elim (issue_cases now row s refl) [
            | inl busy ↦ inl (
              ResetError.in_progress,
              rw (request, found, active, busy) refl,
              rw (request, found, active, busy) refl,
              inr (inr (refl, (target, found, active))),
            )
            | inr (s', issued, n, fresh, log, (users, tokens, others)) ↦
                elim (Bool-cases mail_sent) [
                  | inl sent ↦ inr (
                      inl (
                        row,
                        sent,
                        rw (request, found, active, issued, sent) refl,
                        (target, found, active),
                        record {
                          same_id = refl;
                          same_user = refl;
                          same_actor = refl;
                          same_token = refl;
                          ends = refl;
                        },
                        rw (request, found, active, issued, sent)
                            (record {
                              others = n.others;
                              all_rows = n.all_rows;
                              works = n.works;
                              none_else = n.none_else;
                            }),
                        rw (request, found, active, issued, sent)
                            (ap (λ l. l ++ (reset_requested user ∷ [])) log),
                        rw (request, found, active, issued, sent) (users, tokens, others),
                      ))
                  | inr lost ↦
                      let cancelled =
                        prisma.rows-update_many (λ r. r.id == row.id && is_pending r.status)
                          (cancel env now) s'.requests
                        ∙ ap
                            (update_where (λ r. r.id == row.id && is_pending r.status)
                              (cancel env now))
                            n.all_rows in
                      let back =
                        ap (of_others user) cancelled
                        ∙ taken_back-of_others now user row n.others (==_refl user) fresh
                        ∙ ap (of_others user) (sym n.all_rows)
                        ∙ others in
                      inr (
                        inr (
                          lost,
                          rw (request, found, active, issued, lost) refl,
                          (target, found, active),
                          rw (request, found, active, issued, lost)
                              (rw
                                (
                                  prisma.rows-update_many
                                      (λ r. r.id == row.id && is_pending r.status) (cancel env now)
                                      s'.requests,
                                  n.all_rows,
                                )
                                (
                                  ground arith,
                                  still-NonePending user now row.id n.others n.none_else,
                                )),
                          rw (request, found, active, issued, lost) log,
                          rw (request, found, active, issued, lost) (users, tokens, back),
                        ))
                ]
          ]
        ]
      ]
