-- ===== src/Invitations/Tests.antt =====
-- Invitations over listed tables, and the theorems at those inputs.
use time_flow_be.Prelude.{◌+◌, ◌-◌, ◌≡◌, refl, none, some, List, [], ◌∷◌, false, ◌==◌, filter}
use time_flow_be.Results.{ok, threw}
use time_flow_be.Prisma
use time_flow_be.Roles.{AuthContext}
use time_flow_be.Accounts.{Text}
use time_flow_be.Invitations.{
  Invitation, AcceptInput, Env, State, pending, expired, status_where, effective_status,
  same_status, mark_expired, find_usable, replace_pending, create, revoke, verify, accept_row,
  accept, name_from_email, invitation_link_invalid, forbidden,
}
use time_flow_be.Invitations.Settled.{Request, verifies, creates, run_all}
use time_flow_be.Invitations.Spared.{DistinctIds}
use time_flow_be.Invitations.SingleUse.{Usable, Joined, accept-single_use}
use time_flow_be.Invitations.Status.{filter-status_where}

invitations : Unit {0}
unfolding Prisma.listed mark_expired find_usable replace_pending create revoke verify accept_row
    accept name_from_email
invitations = tt

abbrev env : Env
env = record {
  prisma = Prisma.listed;
  sha256 = λ token. token + 1000;
  hash_password = λ password. password + 5000;
  to_upper = λ c. c - 32;
  invitation_expiry_hours = 48;
}

-- "ab.c@d"
abbrev email : Text
email = 97 ∷ 98 ∷ 46 ∷ 99 ∷ 64 ∷ 100 ∷ []

names : name_from_email env email ≡ (65 ∷ 98 ∷ [], 67 ∷ [])
unfolding invitations
names = refl

no_names :
    name_from_email env (46 ∷ 64 ∷ 100 ∷ []) ≡ (78 ∷ 101 ∷ 119 ∷ [], 85 ∷ 115 ∷ 101 ∷ 114 ∷ [])
unfolding invitations
no_names = refl

abbrev link : Invitation
link = record {
  id = 1;
  email = email;
  role_id = 4;
  invited_by_id = some 9;
  token_hash = 1007;
  status = pending;
  expires_at = 800;
  accepted_user_id = none;
  accepted_at = none;
  revoked_at = none;
}

abbrev waits : State env
unfolding invitations
waits = record {
  invitations = link ∷ [];
  users = [];
  roles = record { id = 4; name = 1 } ∷ [];
  grants = record { role_id = 4; key = 2 } ∷ [];
  events = [];
}

abbrev input : AcceptInput
input = record { token = 7; first_name = none; last_name = none; password = 3 }

abbrev admin : AuthContext
admin = record { id = 9; has = λ key. key == 2 }

accepted_link : (accept env 700 20 input waits).0 ≡ ok email
unfolding invitations
accepted_link = refl

too_late : (accept env 800 20 input waits).0 ≡ threw invitation_link_invalid
unfolding invitations
too_late = refl

lacks_a_key :
    create env 700 2 8 (record { id = 9; has = λ key. false }) 4 email waits
    ≡ (threw forbidden, waits)
unfolding invitations
lacks_a_key = refl

abbrev requests : List Request
requests = verifies 710 7 ∷ creates 720 2 8 admin 4 email ∷ []

waits-Distinct : DistinctIds env waits
unfolding invitations
waits-Distinct = (refl, tt)

accept-single_use_example :
    ((row : Invitation) × Usable env 700 7 waits row
      × Joined env 700 20 input row email waits (accept env 700 20 input waits).1)
    × (accept env 750 21 input (run_all env requests (accept env 700 20 input waits).1)
        ≡ (threw invitation_link_invalid, run_all env requests (accept env 700 20 input waits).1))
accept-single_use_example =
    accept-single_use env 700 20 750 21 input input email waits requests waits-Distinct
      accepted_link refl

filter-status_where_example :
    filter (status_where (some expired) 900) (link ∷ [])
    ≡ filter (λ row. same_status (effective_status row 900) expired) (link ∷ [])
filter-status_where_example = filter-status_where expired 900 (link ∷ [])
