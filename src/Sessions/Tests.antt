-- ===== src/Sessions/Tests.antt =====
-- Sessions over listed tables, and the theorems at those inputs.
use time_flow_be.Prelude.{◌+◌, ◌≡◌, refl, none, some, [], ◌∷◌, arith}
use time_flow_be.Results.{ok, threw}
use time_flow_be.Prisma
use time_flow_be.SignupOtp.{UserStatus}
use time_flow_be.Sessions.{
  RefreshToken, User, ClientInfo, IssuedSession, Drawn, Env, State, token_revoked, find_token,
  issue_session, detect_reuse, claim, mark_replaced, refresh, logout, revoke_all_sessions,
  revoke_session, revoke_other_sessions,
}
use time_flow_be.Sessions.Live.{live}
use time_flow_be.Sessions.Overlap.{claims, Run, begin, then_happens}
use time_flow_be.Sessions.Rotation.{OneLive, Run-OneLive}
use time_flow_be.Sessions.SingleUse.{refresh-single_use}
use time_flow_be.Sessions.GraceRace.{refresh-grace_race}

sessions : Unit {0}
unfolding Prisma.listed issue_session detect_reuse claim mark_replaced refresh logout
    revoke_all_sessions revoke_session revoke_other_sessions
sessions = tt

abbrev env : Env
env = record { prisma = Prisma.listed; sha256 = λ raw. raw + 1000; refresh_token_ttl_days = 30 }

abbrev client : ClientInfo
client = record { ip = none; user_agent = none }

abbrev user : User
user = record { id = 7; status = UserStatus.active; deleted_at = none; token_version = 0 }

abbrev token : RefreshToken
token = record {
  id = 1;
  user_id = 7;
  token_hash = 1005;
  family_id = 3;
  expires_at = 90000;
  revoked_at = none;
  replaced_by = none;
  ip_address = none;
  user_agent = none;
}

abbrev signed_in : State env
unfolding sessions
signed_in = record { refresh_tokens = token ∷ []; users = user ∷ []; events = [] }

abbrev drawn : Drawn
drawn = record { raw = 6; id = 2 }

abbrev next_session : IssuedSession
next_session = record {
  access_token = record { sub = 7; tv = 0 };
  refresh_token = 6;
  refresh_expires_at = 2592000500;
  refresh_token_id = 2;
  user_id = 7;
}

abbrev rotated_state : State env
unfolding sessions
rotated_state = (refresh env 500 client 5 drawn signed_in).1

refreshed : (refresh env 500 client 5 drawn signed_in).0 ≡ ok next_session
unfolding sessions
refreshed = refl

stolen :
    (refresh env 10500 client 5 (record { raw = 8; id = 3 }) rotated_state).0 ≡ threw token_revoked
unfolding sessions rotated_state
stolen = refl

logged_out_token :
    (refresh env 600 client 5 drawn (logout env 500 (some 5) none signed_in)).0
    ≡ threw token_revoked
unfolding sessions
logged_out_token = refl

signed_in-OneLive : OneLive env signed_in []
unfolding sessions
signed_in-OneLive = record { distinct = (refl, tt); single = λ family. ground arith }

abbrev claimed_run : Run env signed_in [] (claim env 500 token signed_in).1 (token ∷ [])
unfolding sessions
claimed_run = then_happens begin (claims 500 token token refl refl refl)

Run-OneLive_example :
    OneLive env (claim env 500 token signed_in).1 (token ∷ [])
    × OneLive env (refresh env 600 client 5 drawn (claim env 500 token signed_in).1).1 (token ∷ [])
Run-OneLive_example = Run-OneLive env claimed_run signed_in-OneLive 600 client 5 drawn

refresh-single_use_example :
    (row : RefreshToken) × (find_token env 1005 signed_in ≡ some row)
    × ((refresh env 10500 client 5
          (record { raw = 8; id = 3 })
          (refresh env 500 client 5 drawn signed_in).1).0
        ≡ threw token_revoked)
    × (live env row.family_id
          (refresh env 10500 client 5
            (record { raw = 8; id = 3 })
            (refresh env 500 client 5 drawn signed_in).1).1
        ≡ 0)
refresh-single_use_example =
    refresh-single_use env 500 10500 client client 5 drawn (record { raw = 8; id = 3 }) signed_in
      (refresh env 500 client 5 drawn signed_in).1 [] [] next_session refreshed begin (omega arith)

token_found : find_token env 1005 signed_in ≡ some token
unfolding sessions
token_found = refl

refresh-grace_race_example :
    ((refresh env 501 client 5
        (record { raw = 8; id = 3 })
        (issue_session env 500 user client 3 drawn (claim env 500 token signed_in).1).1).0
      ≡ threw token_revoked)
    × (live env 3
          (refresh env 501 client 5
            (record { raw = 8; id = 3 })
            (issue_session env 500 user client 3 drawn (claim env 500 token signed_in).1).1).1
        ≡ 0)
refresh-grace_race_example =
    refresh-grace_race env 500 501 user client client 5 drawn (record { raw = 8; id = 3 }) signed_in
      token token_found refl refl
