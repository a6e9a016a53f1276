-- ===== src/Accounts.antt =====
-- What invitations and users share: the accounts of prisma/schema.prisma, the checks of user.repository.ts and
-- the guard of rbac.service.ts. Texts are lists of code units.
use time_flow_be.Prelude.{
  ℕ, ◌≡◌, refl, Option, none, some, List, [], ◌∷◌, map, Bool, true, false, not, ◌&&◌, ◌==◌, leb,
  filter, arith,
}
use time_flow_be.Prisma
use time_flow_be.Prisma.{Prisma}
use time_flow_be.Roles.{AuthContext, RolePermission, holds_all}
use time_flow_be.SignupOtp.{UserStatus}
use time_flow_be.Tasks.{is_null}

abbrev pub Text : Type 0
Text = List ℕ

abbrev pub same_text : Text → Text → Bool
same_text [] [] = true
same_text [] (b ∷ bs) = false
same_text (a ∷ rest) [] = false
same_text (a ∷ rest) (b ∷ bs) = a == b && same_text rest bs

pub same_text_refl : (t : Text) → same_text t t ≡ true
same_text_refl [] = refl
same_text_refl (a ∷ rest) = ground (arith, same_text_refl rest)

pub record User : Type 0 where
  pub id : ℕ
  pub first_name : Text
  pub last_name : Text
  pub email : Text
  pub phone : Option Text
  pub avatar_url : Option Text
  pub password_hash : ℕ
  pub status : UserStatus
  pub role_id : ℕ
  pub token_version : ℕ
  pub two_factor_enabled : Bool
  pub deleted_at : Option ℕ

-- `phone.replace(/\D/g, '')`
abbrev pub digits_of : Text → Text
digits_of t = filter (λ c. leb 48 c && leb c 57) t

abbrev pub is_empty : {A : Type 0} → List A → Bool
is_empty [] = true
is_empty (x ∷ xs) = false

abbrev pub is_excluded : Option ℕ → ℕ → Bool
is_excluded none id = false
is_excluded (some excluded) id = id == excluded

abbrev pub has_phone : Text → Option Text → Bool
has_phone digits none = false
has_phone digits (some phone) = same_text (digits_of phone) digits

module _ (prisma : Prisma) where
  abbrev pub email_taken : Text → Option ℕ → prisma.Table User → Bool
  email_taken email excluded t = not (
      Prisma.count prisma
        (λ u. same_text u.email email && is_null u.deleted_at && not (is_excluded excluded u.id)) t
      == 0)

  -- `phoneTaken` with `excludeId`; nobody asks it here to ignore accounts that are pending.
  abbrev pub phone_taken : Text → Option ℕ → prisma.Table User → Bool
  phone_taken phone excluded t =
      let digits = digits_of phone in
      not (is_empty digits)
      && not (
          Prisma.count prisma
            (λ u.
              is_null u.deleted_at && has_phone digits u.phone && not (is_excluded excluded u.id))
            t
          == 0)

  -- `rbacService.getRolePermissions`, without its cache.
  abbrev pub permissions_of : ℕ → prisma.Table RolePermission → List ℕ
  permissions_of role t = map (λ g. g.key) (Prisma.find_many prisma (λ g. g.role_id == role) t)

  -- `rbacService.assertCanManageRole`
  abbrev pub can_manage_role : AuthContext → ℕ → prisma.Table RolePermission → Bool
  can_manage_role actor role t = holds_all actor (permissions_of role t)
