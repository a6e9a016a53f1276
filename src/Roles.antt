-- ===== src/Roles.antt =====
-- src/modules/roles/role.service.ts and the guards of src/modules/permissions/rbac.service.ts. A permission
-- is given by its key; names, texts and keys are numbers.
mod Keys
mod Escalation
mod Tests
use mathlib.Core.Option
use time_flow_be.Prelude.{
  ℕ, Option, none, some, is_some, opt_eq, List, [], ◌∷◌, ◌++◌, Bool, true, false, not, ◌&&◌, ◌||◌,
  ◌==◌, any, if◌then◌else◌, filter, length, map,
}
use time_flow_be.Prisma
use time_flow_be.Prisma.{Prisma}

pub record Role : Type 0 where
  pub id : ℕ
  pub name : ℕ
  pub description : Option ℕ
  pub is_system : Bool

pub record RolePermission : Type 0 where
  pub role_id : ℕ
  pub key : ℕ

pub record User : Type 0 where
  pub id : ℕ
  pub role_id : ℕ

pub record AuthContext : Type 0 where
  pub id : ℕ
  pub has : ℕ → Bool

pub data RoleError : Type 0 where
  role_not_found name_exists unknown_permission missing_permission system_role role_in_use
        unique_violation :
      RoleError

pub data Event : Type 0 where
  role_created role_permissions_changed role_updated role_deleted : ℕ → Event
  -- Cache entries that are dropped.
  invalidated_role invalidated_user : ℕ → Event
  invalidated_lists : Event

pub data Result (A : Type 0) : Type 0 where
  ok : A → Result A
  threw : RoleError → Result A

pub record CreateRoleInput : Type 0 where
  pub name : ℕ
  pub description : Option ℕ
  pub permissions : List ℕ

pub record UpdateRoleInput : Type 0 where
  pub name : Option ℕ
  pub description : Option (Option ℕ)
  pub permissions : Option (List ℕ)

-- Names are compared without regard to case: `fold` is what the comparison makes of a name. `catalog` is
-- the table of permissions.
pub record Env : Type 1 where
  pub prisma : Prisma
  pub fold : ℕ → ℕ
  pub catalog : List ℕ

abbrev pub mem : ℕ → List ℕ → Bool
mem k xs = any (λ x. x == k) xs

abbrev pub or_before : {A : Type 0} → Option A → A → A
or_before none before = before
or_before (some a) before = a

abbrev pub same_text : Option ℕ → Option ℕ → Bool
same_text none none = true
same_text none (some b) = false
same_text (some a) none = false
same_text (some a) (some b) = a == b

-- `assertHoldsAll`
abbrev pub holds_all : AuthContext → List ℕ → Bool
holds_all actor keys = length (filter (λ k. not (actor.has k)) keys) == 0

module _ (env : Env) where
  open env use {prisma}

  pub record State : Type 0 where
    pub roles : prisma.Table Role
    pub grants : prisma.Table RolePermission
    pub users : prisma.Table User
    pub events : List Event

  abbrev pub find_role : ℕ → State → Option Role
  find_role id s = Prisma.find_first prisma (λ r. r.id == id) s.roles

  -- `resolvePermissionIds`: is every key in the catalog?
  abbrev pub all_known : List ℕ → Bool
  all_known keys = length (filter (λ k. not (mem k env.catalog)) keys) == 0

  -- `assertNameAvailable(name, excludeId)`
  abbrev pub name_taken : ℕ → Option ℕ → State → Bool
  name_taken name exclude s = is_some (
      Prisma.find_first prisma
        (λ r. env.fold r.name == env.fold name && not (opt_eq exclude (some r.id))) s.roles)

  -- The keys of a role.
  abbrev pub keys_of : ℕ → State → List ℕ
  keys_of role s = map (λ g. g.key) (Prisma.find_many prisma (λ g. g.role_id == role) s.grants)

  abbrev pub grant_all : ℕ → List ℕ → prisma.Table RolePermission → prisma.Table RolePermission
  grant_all role [] t = t
  grant_all role (k ∷ ks) t =
      prisma.create (record { role_id = role; key = k }) (grant_all role ks t)

  abbrev pub emit : List Event → State → State
  emit es s = record s { events = s.events ++ es }

  unfoldable pub create : ℕ → AuthContext → CreateRoleInput → State → Result Role × State
  create id actor i s =
      let role : Role = record {
        id = id;
        name = i.name;
        description = i.description;
        is_system = false;
      } in
      if name_taken i.name none s
      then (threw name_exists, s)
      else if not (all_known i.permissions)
      then (threw unknown_permission, s)
      else if not (holds_all actor i.permissions)
      then (threw missing_permission, s)
      else if is_some (find_role id s)
      then (threw unique_violation, s)
      else (
        ok role,
        emit (role_created id ∷ []) (record s {
          roles = prisma.create role s.roles;
          grants = grant_all id i.permissions s.grants;
        }),
      )

  abbrev pub added : List ℕ → List ℕ → List ℕ
  added current next = filter (λ k. not (mem k current)) next

  abbrev pub removed : List ℕ → List ℕ → List ℕ
  removed current next = filter (λ k. not (mem k next)) current

  abbrev pub is_change : List ℕ → List ℕ → Bool
  is_change current next =
      not (length (added current next) == 0) || not (length (removed current next) == 0)

  abbrev pub is_renamed : UpdateRoleInput → Role → Bool
  is_renamed i r = elim i.name [ none ↦ false | some name ↦ not (name == r.name) ]

  -- What `update` asks of a new set of permissions.
  abbrev pub keys_refused : AuthContext → Role → List ℕ → Option (List ℕ) → Option RoleError
  keys_refused actor r current none = none
  keys_refused actor r current (some next) =
      if is_change current next && r.is_system
      then some system_role
      else if not (all_known next)
      then some unknown_permission
      else if not (holds_all actor (added current next ++ removed current next))
      then some missing_permission
      else none

  unfoldable pub refused : AuthContext → UpdateRoleInput → Role → State → Option RoleError
  refused actor i r s =
      if is_renamed i r && r.is_system
      then some system_role
      else if is_renamed i r && name_taken (or_before i.name r.name) (some r.id) s
      then some name_exists
      else keys_refused actor r (keys_of r.id s) i.permissions

  -- The permission set is replaced, where it changes.
  abbrev pub replaced : ℕ → List ℕ → Option (List ℕ) → State → State
  replaced role current none s = s
  replaced role current (some next) s =
      if is_change current next
      then emit (invalidated_role role ∷ invalidated_lists ∷ role_permissions_changed role ∷ [])
          (record s {
            grants = grant_all role next (prisma.delete_many (λ g. g.role_id == role) s.grants);
          })
      else s

  abbrev pub edited : UpdateRoleInput → Role → Role
  edited i r = record r {
    name = or_before i.name r.name;
    description = or_before i.description r.description;
  }

  abbrev pub is_redescribed : UpdateRoleInput → Role → Bool
  is_redescribed i r = elim i.description [
    | none ↦ false
    | some d ↦ not (same_text d r.description)
  ]

  abbrev pub edited_events : UpdateRoleInput → Role → State → List Event
  edited_events i r s =
      (if is_renamed i r
        then map (λ u. invalidated_user u.id)
            (Prisma.find_many prisma (λ u. u.role_id == r.id) s.users)
        else [])
      ++ (if is_renamed i r || is_redescribed i r then role_updated r.id ∷ [] else [])

  unfoldable pub update : AuthContext → ℕ → UpdateRoleInput → State → Result Role × State
  update actor id i s = elim (find_role id s) [
    | none ↦ (threw role_not_found, s)
    | some r ↦ elim (refused actor i r s) [
      | some e ↦ (threw e, s)
      | none ↦
          let s' = replaced id (keys_of id s) i.permissions s in
          (
            ok (edited i r),
            emit (edited_events i r s)
                (record s' { roles = prisma.update_many (λ x. x.id == id) (edited i) s'.roles }),
          )
    ]
  ]

  -- Rows of the permissions of a role go with it.
  unfoldable pub remove : ℕ → State → Result (Unit {0}) × State
  remove id s = elim (find_role id s) [
    | none ↦ (threw role_not_found, s)
    | some r ↦
        if r.is_system
        then (threw system_role, s)
        else if not (Prisma.count prisma (λ u. u.role_id == id) s.users == 0)
        then (threw role_in_use, s)
        else (
          ok tt,
          emit (invalidated_role id ∷ role_deleted id ∷ []) (record s {
            roles = prisma.delete_many (λ x. x.id == id) s.roles;
            grants = prisma.delete_many (λ g. g.role_id == id) s.grants;
          }),
        )
  ]
