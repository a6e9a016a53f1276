-- ===== src/Roles/Escalation.antt =====
-- role.service.ts: nobody gives or takes a permission that they do not hold.
use time_flow_be.Prelude.{
  ℕ, ◌≡◌, refl, sym, subst, ap, ◌∙◌, inl, inr, ◌⊎◌, Option, none, some, is_some, List, [], ◌∷◌,
  ◌++◌, true, false, not, ◌&&◌, ◌||◌, ◌==◌, arith, Bool-cases, Option-cases,
}
use time_flow_be.Prisma.Keys
use time_flow_be.Roles.{
  Role, RolePermission, AuthContext, RoleError, CreateRoleInput, UpdateRoleInput, Env, mem,
  holds_all, State, find_role, keys_of, grant_all, create, added, removed, is_change, keys_refused,
  refused, replaced, update, all_known, name_taken, is_renamed, or_before,
}
use time_flow_be.Roles.Keys.{
  mem-filter, mem-append-left, mem-append-right, held_lem, keys_in, keys_in-deleted, keys_in-others,
  and_left,
}

module _ (env : Env) where
  open env use {prisma}

  grant_all-keys :
      (role other k : ℕ) (ks : List ℕ) (t : prisma.Table RolePermission)
      → mem k (keys_in other (prisma.rows (grant_all env role ks t)))
        ≡ ((role == other) && mem k ks) || mem k (keys_in other (prisma.rows t))
  grant_all-keys role other k [] t = elim (Bool-cases (role == other)) [
    | inl e ↦ rw e refl
    | inr e ↦ rw e refl
  ]
  grant_all-keys role other k (x ∷ xs) t =
      let rest = grant_all-keys role other k xs t in
      rw (prisma.rows-create (record { role_id = role; key = x }) (grant_all env role xs t))
        (elim (Bool-cases (role == other)) [
          | inl e ↦ rw e (ground (arith, rest))
          | inr e ↦ rw e (ground (arith, rest))
        ])

  -- Deleting the grants of one role.
  deleted-same :
      (role k : ℕ) (t : prisma.Table RolePermission)
      → mem k (keys_in role (prisma.rows (prisma.delete_many (λ g. g.role_id == role) t))) ≡ false
  deleted-same role k t =
      ap (λ gs. mem k (keys_in role gs)) (prisma.rows-delete_many (λ g. g.role_id == role) t)
      ∙ keys_in-deleted role k (prisma.rows t)

  deleted-other :
      (role other k : ℕ) (t : prisma.Table RolePermission)
      → (role == other) ≡ false
      → mem k (keys_in other (prisma.rows (prisma.delete_many (λ g. g.role_id == role) t)))
        ≡ mem k (keys_in other (prisma.rows t))
  deleted-other role other k t apart =
      ap (λ gs. mem k (keys_in other gs)) (prisma.rows-delete_many (λ g. g.role_id == role) t)
      ∙ ap (mem k) (keys_in-others role other (prisma.rows t) apart)

  -- A key that is in one of two sets only is held, if the checks of `update` have passed.
  changed-held :
      (actor : AuthContext) (k : ℕ) (current next : List ℕ)
      → holds_all actor (added env current next ++ removed env current next) ≡ true
      → (mem k next ≡ mem k current) ⊎ (actor.has k ≡ true)
  changed-held actor k current next holds = elim (Bool-cases (mem k next)) [
    | inl new ↦ elim (Bool-cases (mem k current)) [
      | inl old ↦ inl (new ∙ sym old)
      | inr fresh ↦
          let there = mem-filter (λ x. not (mem x current)) k next new (rw fresh refl) in
          inr (
            held_lem actor k (added env current next ++ removed env current next) holds
              (mem-append-left k (added env current next) (removed env current next) there))
    ]
    | inr gone ↦ elim (Bool-cases (mem k current)) [
      | inr absent ↦ inl (gone ∙ sym absent)
      | inl old ↦
          let there = mem-filter (λ x. not (mem x next)) k current old (rw gone refl) in
          inr (
            held_lem actor k (added env current next ++ removed env current next) holds
              (mem-append-right k (added env current next) (removed env current next) there))
    ]
  ]

  some-refused : (e : RoleError) → ¬ (some e ≡ none)
  some-refused e h = cc

  -- What the checks of a new set of permissions let through.
  keys_refused-none :
      (actor : AuthContext) (r : Role) (current next : List ℕ)
      → keys_refused env actor r current (some next) ≡ none
      → (is_change env current next && r.is_system ≡ false)
        × (holds_all actor (added env current next ++ removed env current next) ≡ true)
  keys_refused-none actor r current next e =
      elim (Bool-cases (is_change env current next && r.is_system)) [
        | inl system ↦
            let bad : keys_refused env actor r current (some next) ≡ some RoleError.system_role =
              rw system refl in
            absurd (some-refused RoleError.system_role (sym bad ∙ e))
        | inr free ↦ elim (Bool-cases (all_known env next)) [
          | inr unknown ↦
              let bad : keys_refused env actor r current (some next)
                  ≡ some RoleError.unknown_permission =
                rw (free, unknown) refl in
              absurd (some-refused RoleError.unknown_permission (sym bad ∙ e))
          | inl known ↦
              elim (Bool-cases
                (holds_all actor (added env current next ++ removed env current next))) [
                  | inl holds ↦ (free, holds)
                  | inr lacks ↦
                      let bad : keys_refused env actor r current (some next)
                          ≡ some RoleError.missing_permission =
                        rw (free, known, lacks) refl in
                      absurd (some-refused RoleError.missing_permission (sym bad ∙ e))
                ]
        ]
      ]

  refused-none :
      (actor : AuthContext) (i : UpdateRoleInput) (r : Role) (s : State env)
      → refused env actor i r s ≡ none
      → keys_refused env actor r (keys_of env r.id s) i.permissions ≡ none
  unfolding refused
  refused-none actor i r s e = elim (Bool-cases (is_renamed env i r && r.is_system)) [
    | inl system ↦
        let bad : refused env actor i r s ≡ some RoleError.system_role =
          rw (system, refused) refl in
        absurd (some-refused RoleError.system_role (sym bad ∙ e))
    | inr free ↦
        elim (Bool-cases
          (is_renamed env i r && name_taken env (or_before i.name r.name) (some r.id) s)) [
            | inl taken ↦
                let bad : refused env actor i r s ≡ some RoleError.name_exists =
                  rw (free, taken, refused) refl in
                absurd (some-refused RoleError.name_exists (sym bad ∙ e))
            | inr available ↦
                let passed : refused env actor i r s
                    ≡ keys_refused env actor r (keys_of env r.id s) i.permissions =
                  rw (free, available, refused) refl in
                sym passed ∙ e
          ]
  ]

  -- Why a role may have a key now that it did not have, or the other way round.
  pub record Granted (actor : AuthContext) (id role k : ℕ) (s : State env) : Type 0 where
    pub r : Role
    pub found : find_role env id s ≡ some r
    pub same_role : role ≡ id
    pub held : actor.has k ≡ true
    pub not_system : r.is_system ≡ false

  replaced-keys :
      (actor : AuthContext) (id role k : ℕ) (r : Role) (permissions : Option (List ℕ))
      (s : State env)
      → find_role env id s ≡ some r
      → keys_refused env actor r (keys_of env id s) permissions ≡ none
      → (mem k (keys_of env role (replaced env id (keys_of env id s) permissions s))
          ≡ mem k (keys_of env role s))
        ⊎ Granted actor id role k s
  replaced-keys actor id role k r none s found e = inl refl
  replaced-keys actor id role k r (some next) s found e =
      let current = keys_of env id s in
      let (free, holds) = keys_refused-none actor r current next e in
      let t = prisma.delete_many (λ g. g.role_id == id) s.grants in
      elim (Bool-cases (is_change env current next)) [
        | inr same ↦ inl (rw same refl)
        | inl change ↦ elim (Bool-cases (id == role)) [
          | inr apart ↦ inl (
              rw change (
                grant_all-keys id role k next t
                ∙ rw apart (deleted-other id role k s.grants apart)))
          | inl own ↦
              let role_id : role ≡ id = ground arith in
              let now : mem k (keys_in role (prisma.rows (grant_all env id next t))) ≡ mem k next =
                grant_all-keys id role k next t
                ∙ rw (own, role_id, deleted-same id k s.grants)
                    (elim (Bool-cases (mem k next)) [ inl x ↦ rw x refl | inr x ↦ rw x refl ]) in
              elim (changed-held actor k current next holds) [
                | inl unchanged ↦
                    inl (
                      rw change (now ∙ unchanged ∙ ap (λ x. mem k (keys_of env x s)) (sym role_id)))
                | inr held ↦ inr (record {
                  r = r;
                  found = found;
                  same_role = role_id;
                  held = held;
                  not_system = and_left (is_change env current next) r.is_system change free;
                })
              ]
        ]
      ]

  -- An update of a role changes whether a role has a key only for the role that it names, only where the
  -- actor holds that key, and never for a system role; whatever the answer is.
  pub update-escalation :
      (actor : AuthContext) (id role k : ℕ) (i : UpdateRoleInput) (s : State env)
      → (mem k (keys_of env role (update env actor id i s).1) ≡ mem k (keys_of env role s))
        ⊎ Granted actor id role k s
  unfolding update
  update-escalation actor id role k i s = elim (Option-cases (find_role env id s)) [
    | inl gone ↦ inl (rw (gone, update) refl)
    | inr (r, found) ↦ elim (Option-cases (refused env actor i r s)) [
      | inr (e, failed) ↦ inl (rw (found, update, failed) refl)
      | inl passed ↦
          let id_eq = Keys.find-key (λ x. x.id) id r (prisma.rows s.roles) found in
          let checked : keys_refused env actor r (keys_of env id s) i.permissions ≡ none =
            subst (λ x. keys_refused env actor r (keys_of env x s) i.permissions ≡ none) id_eq
              (refused-none actor i r s passed) in
          elim (replaced-keys actor id role k r i.permissions s found checked) [
            | inl same ↦ inl (rw (found, update, passed) same)
            | inr granted ↦ inr granted
          ]
    ]
  ]

  -- A role that is created gets only keys that the actor holds, and no other role changes; whatever the
  -- answer is.
  pub create-escalation :
      (id : ℕ) (actor : AuthContext) (i : CreateRoleInput) (role k : ℕ) (s : State env)
      → (mem k (keys_of env role (create env id actor i s).1) ≡ mem k (keys_of env role s))
        ⊎ ((role ≡ id) × (actor.has k ≡ true))
  unfolding create
  create-escalation id actor i role k s = elim (Bool-cases (name_taken env i.name none s)) [
    | inl taken ↦ inl (rw (taken, create) refl)
    | inr available ↦ elim (Bool-cases (all_known env i.permissions)) [
      | inr unknown ↦ inl (rw (available, unknown, create) refl)
      | inl known ↦ elim (Bool-cases (holds_all actor i.permissions)) [
        | inr lacks ↦ inl (rw (available, known, lacks, create) refl)
        | inl holds ↦ elim (Bool-cases (is_some (find_role env id s))) [
          | inl clash ↦ inl (rw (available, known, holds, clash, create) refl)
          | inr free ↦
              let after = grant_all-keys id role k i.permissions s.grants in
              elim (Bool-cases ((id == role) && mem k i.permissions)) [
                | inr not_given ↦
                    inl (rw (available, known, holds, free, create) (after ∙ rw not_given refl))
                | inl given ↦
                    inr (ground arith, held_lem actor k i.permissions holds (ground arith))
              ]
        ]
      ]
    ]
  ]
