-- ===== src/SignupOtp/Tests.antt =====
-- A sign-up over listed tables, and the theorem at that input.
use time_flow_be.Prelude.{◌+◌, ◌*◌, ◌≡◌, refl, none, some, [], ◌∷◌, true, false}
use time_flow_be.Prisma
use time_flow_be.OtpDelivery.{email, normalize_mobile, sms_code_matches, deliver_otp}
use time_flow_be.SignupOtp.{
  User, pending, SignupOtp, otp_invalid, threw, Env, State, find_user, claim, activate,
  activate_user, verify_row, verify, start, rotate, resend_row, resend,
}
use time_flow_be.SignupOtp.Activation.{Activatable, verify-Activatable}

abbrev env : Env
env = record {
  prisma = Prisma.listed;
  hash_otp = λ id otp. id * 1000000 + otp;
  sms_service = record { provider_generates_code = false; check_otp = λ m o. false };
  ttl_ms = 300000;
  cooldown_ms = 30000;
}

signup : Unit {0}
unfolding Prisma.listed normalize_mobile sms_code_matches deliver_otp claim activate_user verify_row
    verify start rotate resend_row resend
signup = tt

abbrev newcomer : User
newcomer = record { id = 3; phone = none; status = pending; deleted_at = none }

abbrev signed_up : State env
unfolding signup
signed_up =
    (start env 1000 9 123456 (λ _. true) (record { id = 3; phone = none })
      (record { otps = []; users = newcomer ∷ [] })).1

wrong_code : (verify env 2000 9 111111 signed_up).0 ≡ threw (otp_invalid 4)
unfolding signup
wrong_code = refl

resent :
    (verify env 50000 9 123456 (resend env 40000 9 222222 (λ _. true) (email ∷ []) signed_up).1).0
    ≡ threw (otp_invalid 4)
unfolding signup
resent = refl

verify-Activatable_example :
    (row : SignupOtp) × (user : User) × Activatable env 2000 9 123456 signed_up row user
    × (3 ≡ row.user_id)
    × (find_user env 3 (verify env 2000 9 123456 signed_up).1 ≡ some (activate env user))
unfolding signup
verify-Activatable_example = verify-Activatable env 2000 9 123456 signed_up 3 refl
