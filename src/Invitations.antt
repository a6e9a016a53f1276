-- ===== src/Invitations.antt =====
-- src/modules/invitations/invitation.service.ts. Accepting has its transaction as an operation of its own,
-- so that requests can overlap.
mod Types
mod Spared
mod Settled
mod SingleUse
mod Status
mod Tests
use time_flow_be.Prelude.{
  ℕ, ◌+◌, ◌*◌, Option, none, some, is_some, List, [], ◌∷◌, ◌++◌, Bool, true, false, not, ◌&&◌, ◌||◌,
  ◌==◌, ltb, leb, filter, if◌then◌else◌,
}
use time_flow_be.Results.{Result, ok, threw}
use time_flow_be.Prisma
use time_flow_be.Prisma.{Prisma}
use time_flow_be.Roles.{AuthContext, RolePermission}
use time_flow_be.SignupOtp.{UserStatus, active}
use time_flow_be.Tasks.{or_before}
use time_flow_be.Accounts.{Text, same_text, User, email_taken, can_manage_role}
unfoldable pub use time_flow_be.Invitations.Types.{name_from_email}
pub use time_flow_be.Invitations.Types.{
  InvitationStatus, status_number, same_status, Invitation, Role, InvitationError, Event,
  AcceptInput, Env, pending, accepted, expired, revoked, role_not_found, forbidden,
  user_email_exists, invitation_in_progress, invitation_not_found, invitation_not_pending,
  invitation_link_invalid, invited, invitation_expired, invitation_revoked, invitation_accepted,
  welcome_email, invalidated,
}

-- A pending row past its expiry is reported as expired.
abbrev pub effective_status : Invitation → ℕ → InvitationStatus
effective_status row now =
    if same_status row.status pending && leb row.expires_at now then expired else row.status

abbrev pub is_pending : Invitation → Bool
is_pending row = same_status row.status pending

-- `statusWhere`: the filter of the list.
abbrev pub status_where : Option InvitationStatus → ℕ → Invitation → Bool
status_where none now row = true
status_where (some pending) now row = is_pending row && ltb now row.expires_at
status_where (some expired) now row =
    same_status row.status expired || (is_pending row && leb row.expires_at now)
status_where (some accepted) now row = same_status row.status accepted
status_where (some revoked) now row = same_status row.status revoked

module _ (env : Env) where
  open env use {prisma}

  pub record State : Type 0 where
    pub invitations : prisma.Table Invitation
    pub users : prisma.Table User
    pub roles : prisma.Table Role
    pub grants : prisma.Table RolePermission
    pub events : List Event

  abbrev pub Answer : Type 0 → Type 0
  Answer A = Result InvitationError A × State

  abbrev pub find_invitation : ℕ → State → Option Invitation
  find_invitation id s = Prisma.find_first prisma (λ i. i.id == id) s.invitations

  abbrev pub find_hash : ℕ → State → Option Invitation
  find_hash hash s = Prisma.find_first prisma (λ i. i.token_hash == hash) s.invitations

  abbrev pub find_role : ℕ → State → Option Role
  find_role id s = Prisma.find_first prisma (λ r. r.id == id) s.roles

  abbrev pub emit : List Event → State → State
  emit es s = record s { events = s.events ++ es }

  -- Pending rows that match get another status.
  abbrev pub settle : (Invitation → Bool) → (Invitation → Invitation) → State → State
  settle test f s = record s {
    invitations = prisma.update_many (λ i. test i && is_pending i) f s.invitations;
  }

  abbrev pub settled_count : (Invitation → Bool) → State → ℕ
  settled_count test s = Prisma.count prisma (λ i. test i && is_pending i) s.invitations

  abbrev pub as_expired : Invitation → Invitation
  as_expired i = record i { status = expired }

  abbrev pub as_revoked : ℕ → Invitation → Invitation
  as_revoked now i = record i { status = revoked; revoked_at = some now }

  abbrev pub as_accepted : ℕ → Invitation → Invitation
  as_accepted now i = record i { status = accepted; accepted_at = some now }

  unfoldable pub mark_expired : Invitation → State → State
  mark_expired row s =
      let mine : Invitation → Bool = λ i. i.id == row.id in
      let written = settle mine as_expired s in
      if settled_count mine s == 1 then emit (invitation_expired row.id ∷ []) written else written

  -- A row that was found, and the state after its lapse has been noted.
  unfoldable pub find_usable : ℕ → ℕ → State → Answer Invitation
  find_usable now token s = elim (find_hash (env.sha256 token) s) [
    | none ↦ (threw invitation_link_invalid, s)
    | some row ↦
        let status = effective_status row now in
        (
          if same_status status pending then ok row else threw invitation_link_invalid,
          if same_status status expired && is_pending row then mark_expired row s else s,
        )
  ]

  abbrev pub new_invitation : ℕ → ℕ → ℕ → ℕ → ℕ → Text → Invitation
  new_invitation now id token actor role email = record {
    id = id;
    email = email;
    role_id = role;
    invited_by_id = some actor;
    token_hash = env.sha256 token;
    status = pending;
    expires_at = now + env.invitation_expiry_hours * 60 * 60 * 1000;
    accepted_user_id = none;
    accepted_at = none;
    revoked_at = none;
  }

  -- The transaction: links that are pending for the email are revoked, and the row is made unless its id or
  -- its token is there, which undoes the transaction.
  unfoldable pub replace_pending : ℕ → Invitation → State → Answer Invitation
  replace_pending now row s =
      let mine : Invitation → Bool = λ i. same_text i.email row.email in
      let cleared = settle mine (as_revoked now) s in
      if is_some (find_invitation row.id cleared) || is_some (find_hash row.token_hash cleared)
      then (threw invitation_in_progress, s)
      else (
        ok row,
        emit (invited row.id row.role_id (not (settled_count mine s == 0)) ∷ [])
            (record cleared { invitations = prisma.create row cleared.invitations }),
      )

  unfoldable pub create : ℕ → ℕ → ℕ → AuthContext → ℕ → Text → State → Answer Invitation
  create now id token actor role email s = elim (find_role role s) [
    | none ↦ (threw role_not_found, s)
    | some r ↦
        if not (can_manage_role prisma actor r.id s.grants)
        then (threw forbidden, s)
        else if email_taken prisma email none s.users
        then (threw user_email_exists, s)
        else replace_pending now (new_invitation now id token actor.id r.id email) s
  ]

  unfoldable pub revoke : ℕ → ℕ → State → Answer Invitation
  revoke now id s = elim (find_invitation id s) [
    | none ↦ (threw invitation_not_found, s)
    | some row ↦
        let mine : Invitation → Bool = λ i. i.id == id in
        if not (same_status (effective_status row now) pending) || not (settled_count mine s == 1)
        then (threw invitation_not_pending, s)
        else (
          ok (as_revoked now row),
          emit (invitation_revoked id ∷ []) (settle mine (as_revoked now) s),
        )
  ]

  unfoldable pub verify : ℕ → ℕ → State → Answer (Text × (ℕ × ℕ))
  verify now token s =
      let (found, noted) = find_usable now token s in
      elim found [
        | threw e ↦ (threw e, noted)
        | ok row ↦ (ok (row.email, (row.role_id, row.expires_at)), noted)
      ]

  abbrev pub new_user : ℕ → AcceptInput → Invitation → User
  new_user id i row = record {
    id = id;
    first_name = or_before i.first_name (name_from_email env row.email).0;
    last_name = or_before i.last_name (name_from_email env row.email).1;
    email = row.email;
    phone = none;
    avatar_url = none;
    password_hash = env.hash_password i.password;
    status = UserStatus.active;
    role_id = row.role_id;
    token_version = 0;
    two_factor_enabled = false;
    deleted_at = none;
  }

  abbrev pub claimable : ℕ → ℕ → Invitation → Bool
  claimable now id i = i.id == id && is_pending i && ltb now i.expires_at

  abbrev pub with_user : ℕ → Invitation → Invitation
  with_user user i = record i { accepted_user_id = some user }

  abbrev pub find_user : ℕ → State → Option User
  find_user id s = Prisma.find_first prisma (λ u. u.id == id) s.users

  abbrev pub accepted_events : ℕ → Invitation → List Event
  accepted_events user row =
      invalidated ∷ welcome_email user ∷ invitation_accepted row.id user row.invited_by_id ∷ []

  -- The transaction. The link is claimed, and the account is made unless its id or its email is there,
  -- which undoes the claim.
  unfoldable pub accept_row : ℕ → ℕ → AcceptInput → Invitation → State → Answer Text
  accept_row now user i row s =
      let claimed = record s {
        invitations =
            prisma.update_many (λ x. claimable now row.id x) (as_accepted now) s.invitations;
      } in
      if not (Prisma.count prisma (λ x. claimable now row.id x) s.invitations == 1)
      then (threw invitation_link_invalid, s)
      else if is_some (find_user user s) || email_taken prisma row.email none s.users
      then (threw user_email_exists, s)
      else (
        ok row.email,
        emit (accepted_events user row) (record claimed {
          users = prisma.create (new_user user i row) claimed.users;
          invitations =
              prisma.update_many (λ x. x.id == row.id) (with_user user) claimed.invitations;
        }),
      )

  unfoldable pub accept : ℕ → ℕ → AcceptInput → State → Answer Text
  accept now user i s =
      let (found, noted) = find_usable now i.token s in
      elim found [
        | threw e ↦ (threw e, noted)
        | ok row ↦
            if email_taken prisma row.email none noted.users
            then (threw user_email_exists, noted)
            else accept_row now user i row noted
      ]
