-- ===== src/Roles/Tests.antt =====
-- Roles over listed tables, and the theorems at those inputs.
use time_flow_be.Prelude.{ℕ, ◌≡◌, refl, ◌⊎◌, none, some, List, [], ◌∷◌, false, ◌==◌, ◌||◌}
use time_flow_be.Prisma
use time_flow_be.Roles.{
  missing_permission, role_in_use, AuthContext, UpdateRoleInput, threw, Env, State, mem, keys_of,
  create, refused, update, remove,
}
use time_flow_be.Roles.Escalation.{Granted, update-escalation}

-- The keys are 1 to 4.
abbrev env : Env
env = record { prisma = Prisma.listed; fold = λ n. n; catalog = 1 ∷ 2 ∷ 3 ∷ 4 ∷ [] }

roles : Unit {0}
unfolding Prisma.listed create refused update remove
roles = tt

-- The role 7 has the keys 1 and 4, and user 20.
abbrev staff : State env
unfolding roles
staff = record {
  roles = record { id = 7; name = 70; description = none; is_system = false } ∷ [];
  grants = record { role_id = 7; key = 1 } ∷ record { role_id = 7; key = 4 } ∷ [];
  users = record { id = 20; role_id = 7 } ∷ [];
  events = [];
}

-- An actor with the keys 1 and 2.
abbrev lead : AuthContext
lead = record { id = 9; has = λ k. k == 1 || k == 2 }

abbrev with_keys : List ℕ → UpdateRoleInput
with_keys keys = record { name = none; description = none; permissions = some keys }

gives_own : keys_of env 7 (update env lead 7 (with_keys (1 ∷ 2 ∷ 4 ∷ [])) staff).1 ≡ 1 ∷ 2 ∷ 4 ∷ []
unfolding roles
gives_own = refl

takes_another : update env lead 7 (with_keys (1 ∷ [])) staff ≡ (threw missing_permission, staff)
unfolding roles
takes_another = refl

in_use : (remove env 7 staff).0 ≡ threw role_in_use
unfolding roles
in_use = refl

update-escalation_example :
    (mem 2 (keys_of env 7 (update env lead 7 (with_keys (1 ∷ 2 ∷ 4 ∷ [])) staff).1)
      ≡ mem 2 (keys_of env 7 staff))
    ⊎ Granted env lead 7 7 2 staff
update-escalation_example = update-escalation env lead 7 7 2 (with_keys (1 ∷ 2 ∷ 4 ∷ [])) staff
