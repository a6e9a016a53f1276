-- ===== src/Projects/Members.antt =====
-- project.service.ts: who belongs to a project after an update.
use time_flow_be.Prelude.{
  ℕ, ◌≡◌, refl, sym, subst, ap, ◌∙◌, inl, inr, none, some, List, [], ◌∷◌, map, Bool, true, false,
  not, ◌&&◌, ◌||◌, ◌==◌, any, filter, if◌then◌else◌, arith, Bool-cases, Option-cases,
}
use time_flow_be.Results.{ok, threw}
use time_flow_be.Prisma.Keys
use time_flow_be.Prisma.{Prisma}
use time_flow_be.Tasks.{AuthContext, or_before}
use time_flow_be.Projects.{
  Project, ProjectMember, UpdateProjectInput, elem, State, has_member, members_of, create_member,
  create_missing, next_members, current_members, added, removed, updated, delete_members,
  replace_members, update,
}
use time_flow_be.Projects.Sets.{elem-to_set, elem-filter}
use time_flow_be.Projects.Checks.{update_cases}

-- Membership, by the rows alone.
abbrev has : ℕ → ℕ → List ProjectMember → Bool
has project user rs = any (λ m. m.project_id == project && m.user_id == user) rs

elem-map :
    (project user : ℕ) (rs : List ProjectMember)
    → elem user (map (λ m. m.user_id) (filter (λ m. m.project_id == project) rs))
      ≡ has project user rs
elem-map project user [] = refl
elem-map project user (r ∷ rs) = ground (arith, elem-map project user rs)

has-filter :
    (id q user : ℕ) (users : List ℕ) (rs : List ProjectMember)
    → has q user
        (filter (λ m. if m.project_id == id && elem m.user_id users then false else true) rs)
      ≡ (has q user rs && not (q == id && elem user users))
has-filter id q user users [] = refl
has-filter id q user users (r ∷ rs) = elim (Bool-cases (r.user_id == user)) [
  | inr other ↦ ground (arith, has-filter id q user users rs)
  | inl same ↦
      let user_eq : r.user_id ≡ user = ground arith in
      ground (arith, ap (λ u. elem u users) user_eq, has-filter id q user users rs)
]

module _ (prisma : Prisma) where
  has-delete_members :
      (id q user : ℕ) (users : List ℕ) (t : prisma.Table ProjectMember)
      → has q user (prisma.rows (delete_members prisma id users t))
        ≡ (has q user (prisma.rows t) && not (q == id && elem user users))
  has-delete_members id q user [] t = ground arith
  has-delete_members id q user (u ∷ us) t =
      rw (prisma.rows-delete_many (λ m. m.project_id == id && elem m.user_id (u ∷ us)) t)
        (has-filter id q user (u ∷ us) (prisma.rows t))

  has-create :
      (id q new user : ℕ) (t : prisma.Table ProjectMember)
      → has q user (prisma.rows (create_member prisma id new t))
        ≡ (has q user (prisma.rows t) || (id == q && new == user))
  has-create id q new user t =
      rw (prisma.rows-create (record { project_id = id; user_id = new }) t) (ground arith)

  has-create_missing :
      (id q user : ℕ) (users : List ℕ) (t : prisma.Table ProjectMember)
      → has q user (prisma.rows (create_missing prisma id users t))
        ≡ (has q user (prisma.rows t) || (id == q && elem user users))
  has-create_missing id q user [] t = ground arith
  has-create_missing id q user (u ∷ us) t = elim (Bool-cases (has id u (prisma.rows t))) [
    | inr new ↦ rw new (
        ground (
          arith,
          has-create_missing id q user us (create_member prisma id u t),
          has-create id q u user t,
        ))
    | inl old ↦ elim (Bool-cases (id == q && u == user)) [
      | inr other ↦ rw old (ground (arith, has-create_missing id q user us t))
      | inl same ↦
          let id_q : id ≡ q = ground arith in
          let u_user : u ≡ user = ground arith in
          let inside : has q user (prisma.rows t) ≡ true =
            subst (λ k. has k user (prisma.rows t) ≡ true) id_q
              (subst (λ k. has id k (prisma.rows t) ≡ true) u_user old) in
          rw old (ground (arith, has-create_missing id q user us t))
    ]
  ]

  -- Who an update makes a member of its project, given the manager that it leaves.
  abbrev pub asked_for : UpdateProjectInput → ℕ → ℕ → Bool → Bool
  asked_for i manager user before = elim i.member_ids [
    | none ↦ before
    | some ids ↦ elem user ids && not (user == manager)
  ]

  elem-current_members :
      (p : Project) (user : ℕ) (s : State prisma)
      → elem user (current_members prisma p s) ≡ has_member prisma p.id user s
  elem-current_members p user s =
      elem-to_set user (members_of prisma p.id s) ∙ elem-map p.id user (prisma.rows s.members)

  elem-next_members :
      (i : UpdateProjectInput) (p : Project) (ids : List ℕ) (user : ℕ)
      → elem user (next_members prisma i p ids)
        ≡ (elem user ids && not (user == or_before i.manager_id p.manager_id))
  elem-next_members i p ids user =
      let others : ℕ → Bool = λ m. not (m == or_before i.manager_id p.manager_id) in
      elem-to_set user (filter others ids) ∙ elem-filter others user ids

  -- Taking away and adding the difference gives the members asked for.
  difference :
      (i : UpdateProjectInput) (p : Project) (user : ℕ) (s : State prisma)
      → (has_member prisma p.id user s && not (elem user (removed prisma i p s))
          || elem user (added prisma i p s))
        ≡ asked_for i (or_before i.manager_id p.manager_id) user (has_member prisma p.id user s)
  unfolding added removed
  difference i p user s = elim (Option-cases i.member_ids) [
    | inl nothing ↦ rw (nothing, added, removed) (ground arith)
    | inr (ids, chosen) ↦
        let now = current_members prisma p s in
        let next = next_members prisma i p ids in
        let news = elem-filter (λ m. not (elem m now)) user next in
        let olds = elem-filter (λ m. not (elem m next)) user now in
        rw
          (
            chosen,
            added,
            removed,
            news,
            olds,
            elem-current_members p user s,
            elem-next_members i p ids user,
          )
          (ground arith)
  ]

  replaced :
      (i : UpdateProjectInput) (p : Project) (q user : ℕ) (s : State prisma)
      → has_member prisma q user (replace_members prisma p.id i p s) ≡ (
          if q == p.id
          then asked_for i
              (or_before i.manager_id p.manager_id)
              user
              (has_member prisma p.id user s)
          else has_member prisma q user s)
  unfolding replace_members
  replaced i p q user s =
      let news = added prisma i p s in
      let olds = removed prisma i p s in
      let written =
        has-create_missing p.id q user news (delete_members prisma p.id olds s.members) in
      let deleted = has-delete_members p.id q user olds s.members in
      elim (Bool-cases (q == p.id)) [
        | inr other ↦ rw (written, deleted, other) (ground arith)
        | inl same ↦
            let q_id : q ≡ p.id = ground arith in
            rw (written, deleted, q_id) (ground (arith, difference i p user s))
      ]

  -- After an update that succeeds, whoever the members were and whatever the differences are: if the
  -- request names members, exactly those are members of the project, without the manager that the
  -- project then has; if it names none, the members are those before; and the members of every other
  -- project are those before.
  pub update-members :
      (actor : AuthContext) (id : ℕ) (i : UpdateProjectInput) (s : State prisma) (a : Project)
      (q user : ℕ)
      → (update prisma actor id i s).0 ≡ ok a
      → has_member prisma q user (update prisma actor id i s).1 ≡ (
          if q == id
          then asked_for i a.manager_id user (has_member prisma id user s)
          else has_member prisma q user s)
  update-members actor id i s a q user e = elim (update_cases prisma actor id i s) [
    | inl (x, refused) ↦
        let threw_ok : threw x ≡ ok a = sym (ap (λ r. r.0) refused) ∙ e in absurd (cc)
    | inr (p, u) ↦
        let p_id : p.id ≡ id =
          Keys.find-key (λ r. r.id) id p (prisma.rows s.projects) u.seen.found in
        let answers : ok (updated prisma i p) ≡ ok a = sym (ap (λ r. r.0) u.result) ∙ e in
        let a_eq : updated prisma i p ≡ a = cc in
        let left : has_member prisma q user (update prisma actor id i s).1
            ≡ has_member prisma q user (replace_members prisma id i p s) =
          ap (λ r. has_member prisma q user r.1) u.result in
        rw (left, sym (ap (λ x. x.manager_id) a_eq), sym p_id) (replaced i p q user s)
  ]
