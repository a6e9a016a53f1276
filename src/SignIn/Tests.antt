-- ===== src/SignIn/Tests.antt =====
-- A sign-in over listed tables and the library of tokens, and the theorems at those inputs.
use time_flow_be.Prelude.{◌+◌, ◌*◌, ◌≡◌, refl, none, some, [], ◌∷◌, true, false, ◌==◌, ◌⊎◌, arith}
use time_flow_be.Results.{ok, threw}
use time_flow_be.Prisma
use time_flow_be.RateLimiter.{absent, live, trim, run_script, put, consume}
use time_flow_be.Redis
use time_flow_be.Sessions
use time_flow_be.SignupOtp.{UserStatus}
use time_flow_be.Tokens
use time_flow_be.Tokens.{verify}
use time_flow_be.Tokens.Library.{library}
use time_flow_be.TwoFactor
use time_flow_be.SignIn.{
  Account, Env, Request, Token, State, by_email, with_passkey, challenge_invalid,
  invalid_credentials, two_factor_required, find_account, session, load_account, find_id_by_phone,
  claim_challenge, load_challenge, finish_two_factor_login, verify_second_factor, login,
}
use time_flow_be.SignIn.Challenge.{is_ok, second_factor-once}
use time_flow_be.SignIn.Found.{DistinctLogins, Names, IsOneUser}
use time_flow_be.SignIn.Password.{NoSession, Enters, login-session}

sign_in : Unit {0}
unfolding Prisma.listed Redis.listed absent live trim run_script put consume library
    TwoFactor.consume_attempt Sessions.issue_session Tokens.sign_two_factor_challenge
    Tokens.verify_two_factor_challenge load_account find_id_by_phone claim_challenge load_challenge
    finish_two_factor_login verify_second_factor login
sign_in = tt

-- A password's hash is the password, codes by email are off.
abbrev env : Env
env = record {
  tokens = record {
    jwt = library;
    access_token_ttl_minutes = 15;
    two_factor_challenge_ttl_minutes = 5;
  };
  sessions = record {
    prisma = Prisma.listed;
    sha256 = λ raw. raw + 1000;
    refresh_token_ttl_days = 30;
  };
  factors = record {
    prisma = Prisma.listed;
    redis = Redis.listed;
    hmac = λ k m. [];
    encrypt_secret = λ s. 0;
    decrypt_secret = λ n. none;
    sha256 = λ code. 0;
    password_matches = λ p h. p == h;
  };
  otp = record {
    prisma = Prisma.listed;
    hash_otp = λ id otp. id * 1000000 + otp;
    sms_service = record { provider_generates_code = false; check_otp = λ m o. false };
    ttl_ms = 300000;
    cooldown_ms = 30000;
  };
  login_otp_enabled = false;
}

-- User 3 signs in by the address 8 and the password 77, with two-factor authentication on.
abbrev before : State env
unfolding sign_in
before = record {
  logins = record { id = 3; email = 8; phone = none } ∷ [];
  sessions = record {
    refresh_tokens = [];
    users =
        record { id = 3; status = UserStatus.active; deleted_at = none; token_version = 2 } ∷ [];
    events = [];
  };
  factors = record {
    users =
        record {
          id = 3;
          deleted_at = none;
          password_hash = 77;
          enabled = true;
          enabled_at = some 10;
          secret = none;
          pending_secret = none;
          last_step = none;
        }
        ∷ [];
    codes = [];
    passkeys = [];
    code_budget = λ _. absent Redis.listed;
    password_budget = λ _. absent Redis.listed;
  };
  otps = [];
  spent = [];
  events = [];
}

abbrev request : Request
request = record {
  client = record { ip = none; user_agent = none };
  drawn = record { raw = 6; id = 2 };
  family = 4;
  jti = 9;
  otp_id = 0;
  otp = 0;
}

abbrev challenge : Token env
unfolding sign_in
challenge = (Tokens.sign_two_factor_challenge env.tokens 60000 9 3 2 verify).0

abbrev after : State env
after = (verify_second_factor env true 61000 request challenge (with_passkey true) before).1

wrong_password :
    (login env 60000 request (λ _. true) (by_email 8) 78 before).0 ≡ threw invalid_credentials
unfolding sign_in
wrong_password = refl

second_factor_asked :
    (login env 60000 request (λ _. true) (by_email 8) 77 before).0
    ≡ ok (two_factor_required challenge (TwoFactor.recovery ∷ []))
unfolding sign_in TwoFactor.methods
second_factor_asked = refl

bought_once :
    (verify_second_factor env true 62000 request challenge (with_passkey true) after).0
    ≡ threw challenge_invalid
unfolding sign_in
bought_once = refl

abbrev opened : Sessions.IssuedSession
opened = record {
  access_token = record { sub = 3; tv = 2 };
  refresh_token = 6;
  refresh_expires_at = 2592061000;
  refresh_token_id = 2;
  user_id = 3;
}

second_factor_opens :
    (verify_second_factor env true 61000 request challenge (with_passkey true) before).0 ≡ ok opened
unfolding sign_in
second_factor_opens = refl

second_factor-once_example :
    (is_ok (verify_second_factor env true 62000 request challenge (with_passkey true) after).0
      ≡ false)
    × ((verify_second_factor env true 62000 request challenge (with_passkey true) after).1.sessions
        ≡ after.sessions)
second_factor-once_example =
    second_factor-once env 61000 62000 request request challenge (with_passkey true)
      (with_passkey true) before after [] opened second_factor_opens (omega arith) refl

-- The same user without two-factor authentication.
abbrev plain : State env
unfolding sign_in
plain = record before {
  factors = record before.factors {
    users =
        record {
          id = 3;
          deleted_at = none;
          password_hash = 77;
          enabled = false;
          enabled_at = none;
          secret = none;
          pending_secret = none;
          last_step = none;
        }
        ∷ [];
  };
}

password_opens : (login env 61000 request (λ _. true) (by_email 8) 77 plain).0 ≡ ok (session opened)
unfolding sign_in
password_opens = refl

plain_distinct : DistinctLogins env plain
unfolding sign_in
plain_distinct = (refl, tt)

login-session_example :
    let r = login env 61000 request (λ _. true) (by_email 8) 77 plain in
    ((a : Account) × (find_account env (by_email 8) plain ≡ some a)
      × Names env (by_email 8) a.login
      × IsOneUser env a
      × Enters env request 77 a plain r)
    ⊎ ((find_account env (by_email 8) plain ≡ none) × NoSession env r plain)
login-session_example =
    login-session env 61000 request (λ _. true) (by_email 8) 77 plain plain_distinct
