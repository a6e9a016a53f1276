-- ===== src/LoginOtp/Tests.antt =====
-- Sign-in codes over listed tables, with a hash that is a sum, and the theorems at those inputs.
use time_flow_be.Prelude.{◌+◌, ◌*◌, ◌≤◌, ◌≡◌, refl, none, some, List, [], ◌∷◌, true, false}
use time_flow_be.Prisma
use time_flow_be.OtpDelivery.{
  email, Recipient, normalize_mobile, channels_for, sms_code_matches, deliver_otp,
}
use time_flow_be.LoginOtp.{
  LoginOtp, otp_invalid, resend_cooldown, ok, threw, Env, Table, find_otp, claim, use_code,
  settle_code, verify_row, verify, supersede, record_channels, discard, start, rotate, restore_sent,
  resend_row, resend_checked, resend, one_more, mark_used, login_otp_max_attempts,
}
use time_flow_be.LoginOtp.Interleaved.{
  Op, claims, uses, rotates, claims_of, rotates_of, uses_of, successes, attempts_left, uses_left,
}
use time_flow_be.LoginOtp.Limits.{claims-attempt_limit, uses-single}
use time_flow_be.LoginOtp.Verify.{Acceptable, verify-accepts, verify_sound}

abbrev env : Env
env = record {
  prisma = Prisma.listed;
  hash_otp = λ id otp. id * 1000000 + otp;
  sms_service = record { provider_generates_code = false; check_otp = λ m o. false };
  ttl_ms = 300000;
  cooldown_ms = 30000;
}

login_otp : Unit {0}
unfolding Prisma.listed normalize_mobile channels_for sms_code_matches deliver_otp claim use_code
    settle_code verify_row verify supersede record_channels discard start rotate restore_sent
    resend_row resend_checked resend
login_otp = tt

abbrev nobody : Table env
unfolding login_otp
nobody = []

abbrev vivek : Recipient
vivek = record { id = 3; phone = none }

-- User 3 signs in at 1000 and is sent the code 123456.
abbrev sent : Table env
sent = (start env 1000 9 123456 (λ _. true) vivek nobody).1

abbrev row : LoginOtp
row = record {
  id = 9;
  user_id = 3;
  otp_hash = 9123456;
  expires_at = 301000;
  attempts = 0;
  send_count = 1;
  last_sent_at = 1000;
  channels = email ∷ [];
  used_at = none;
  created_at = 1000;
}

is_stored : find_otp env 9 sent ≡ some row
unfolding login_otp
is_stored = refl

wrong_code : (verify env 2000 (λ _. none) 9 111111 sent).0 ≡ threw (otp_invalid 4)
unfolding login_otp
wrong_code = refl

too_soon :
    (resend env 2000 222222
      (λ _. true)
      (λ _. record { id = 3; phone = none; active = true; deleted_at = none })
      (email ∷ [])
      9
      sent).0
    ≡ threw (resend_cooldown 29)
unfolding login_otp
too_soon = refl

right_one : Acceptable env 2000 (λ _. none) 9 123456 sent row
unfolding login_otp
right_one = record { found = refl; is_unused = refl; in_time = refl; guesses = refl; right = refl }

verify-accepts_example :
    ((verify env 2000 (λ _. none) 9 123456 sent).0 ≡ ok 3)
    × (find_otp env 9 (verify env 2000 (λ _. none) 9 123456 sent).1
        ≡ some (mark_used env 2000 (one_more env row)))
unfolding login_otp
verify-accepts_example = verify-accepts env 2000 (λ _. none) 9 123456 sent row (refl, tt) right_one

verify_sound_example :
    (r : LoginOtp) × Acceptable env 2000 (λ _. none) 9 123456 sent r × (3 ≡ r.user_id)
unfolding login_otp
verify_sound_example = verify_sound env 2000 (λ _. none) 9 123456 sent 3 refl

-- Seven guesses that have all read the first row, with a second code after the fifth.
abbrev guesses : List Op
guesses =
    claims 2000 row
    ∷ claims 2000 row
    ∷ claims 2000 row
    ∷ claims 2000 row
    ∷ claims 2000 row
    ∷ claims 2001 row
    ∷ rotates 40000 row 9222222
    ∷ claims 40001 row
    ∷ uses 40002 row
    ∷ uses 40002 row
    ∷ []

five_guesses : successes env (claims_of 9) guesses sent ≡ 5
unfolding login_otp
five_guesses = refl

one_use : successes env (uses_of 9) guesses sent ≡ 1
unfolding login_otp
one_use = refl

claims-attempt_limit_example :
    successes env (claims_of 9) guesses sent
    ≤ attempts_left (find_otp env 9 sent)
      + login_otp_max_attempts * successes env (rotates_of 9) guesses sent
unfolding login_otp
claims-attempt_limit_example =
    claims-attempt_limit env 9 guesses sent (refl, tt)
      (tt, (tt, (tt, (tt, (tt, (tt, (tt, (tt, (tt, (tt, tt))))))))))

uses-single_example : successes env (uses_of 9) guesses sent ≤ uses_left (find_otp env 9 sent)
unfolding login_otp
uses-single_example =
    uses-single env 9 guesses sent (refl, tt)
      (tt, (tt, (tt, (tt, (tt, (tt, (tt, (tt, (tt, (tt, tt))))))))))
