-- ===== src/Users/Tests.antt =====
-- Users over listed tables, and the theorems at those inputs.
use time_flow_be.Prelude.{ℕ, ◌+◌, ◌≡◌, refl, none, some, [], ◌∷◌, true, false, ◌==◌}
use time_flow_be.Results.{ok, threw}
use time_flow_be.Prisma
use time_flow_be.Roles.{AuthContext}
use time_flow_be.Sessions.{RefreshToken}
use time_flow_be.SignupOtp.{UserStatus}
use time_flow_be.Accounts.{User}
use time_flow_be.Users.{
  Env, UpdateUserInput, State, forbidden, own_role, own_account, assert_role_exists, load_target,
  create_checks, create, update_checks, revokes_sessions, rewrite, update, reset_two_factor, bury,
  remove, find_user,
}
use time_flow_be.Users.Escalation.{updates, removes, run, role_granted, run-role_granted}
use time_flow_be.Users.SignOut.{SignedOut, run-SignedOut}

users : Unit {0}
unfolding Prisma.listed assert_role_exists load_target create_checks create update_checks
    revokes_sessions rewrite update reset_two_factor bury remove
users = tt

abbrev env : Env
env = record { prisma = Prisma.listed; hash_password = λ p. p + 100 }

abbrev account : ℕ → ℕ → User
account id role = record {
  id = id;
  first_name = 65 ∷ [];
  last_name = 66 ∷ [];
  email = id ∷ [];
  phone = none;
  avatar_url = none;
  password_hash = 1;
  status = UserStatus.active;
  role_id = role;
  token_version = 0;
  two_factor_enabled = false;
  deleted_at = none;
}

abbrev token : RefreshToken
token = record {
  id = 1;
  user_id = 11;
  token_hash = 5;
  family_id = 3;
  expires_at = 900;
  revoked_at = none;
  replaced_by = none;
  ip_address = none;
  user_agent = none;
}

-- The role 1 allows 5, and the role 2 allows 5 and 6.
abbrev office : State env
unfolding users
office = record {
  users = account 10 1 ∷ account 11 1 ∷ account 12 2 ∷ [];
  roles = record { id = 1; name = 1 } ∷ record { id = 2; name = 2 } ∷ [];
  grants =
      record { role_id = 1; key = 5 }
      ∷ record { role_id = 2; key = 5 }
      ∷ record { role_id = 2; key = 6 }
      ∷ [];
  refresh_tokens = token ∷ [];
  members = [];
  events = [];
}

abbrev actor : AuthContext
actor = record { id = 10; has = λ key. key == 5 }

abbrev nothing : UpdateUserInput
nothing = record {
  first_name = none;
  last_name = none;
  email = none;
  phone = none;
  password = none;
  role_id = none;
  status = none;
  avatar_url = none;
}

abbrev promotes : UpdateUserInput
promotes = record nothing { role_id = some 2 }

abbrev resets_password : UpdateUserInput
resets_password = record nothing { password = some 8 }

may_not_promote : update env 500 actor 11 promotes office ≡ (threw forbidden, office)
unfolding users
may_not_promote = refl

may_not_promote_self : update env 500 actor 10 promotes office ≡ (threw own_role, office)
unfolding users
may_not_promote_self = refl

may_not_touch_superior : update env 500 actor 12 resets_password office ≡ (threw forbidden, office)
unfolding users
may_not_touch_superior = refl

may_not_remove_self : remove env 500 actor 10 office ≡ (threw own_account, office)
unfolding users
may_not_remove_self = refl

abbrev reset_user : User
reset_user = record (account 11 1) { password_hash = 108; token_version = 1 }

found_after :
    find_user env 11 (run env 500 actor (updates 11 resets_password) office) ≡ some reset_user
unfolding users
found_after = refl

run-role_granted_example :
    role_granted env actor office 11 (find_user env 11 office) reset_user ≡ true
run-role_granted_example =
    run-role_granted env 500 actor (updates 11 resets_password) office 11 reset_user found_after

found_before : find_user env 11 office ≡ some (account 11 1)
unfolding users
found_before = refl

removed : (remove env 500 actor 11 office).0 ≡ ok tt
unfolding users
removed = refl

run-SignedOut_example : SignedOut env 11 (account 11 1) (run env 500 actor (removes 11) office)
unfolding users
run-SignedOut_example =
    run-SignedOut env 500 actor (removes 11) office (account 11 1) refl found_before refl
