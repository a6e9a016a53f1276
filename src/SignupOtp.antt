-- ===== src/SignupOtp.antt =====
-- src/modules/auth/signup-otp.service.ts: the code that activates an account. Ids, codes and hashes are
-- numbers; a handler gives its answer and the state that it leaves.
mod Activation
mod Tests
use mathlib.Core.Option
use time_flow_be.Prelude.{
  ℕ, suc, ◌+◌, ◌-◌, ◌*◌, ◌/◌, Option, none, some, is_some, List, [], ◌∷◌, Bool, true, false, not,
  ◌&&◌, ◌||◌, ◌==◌, ltb, leb, if◌then◌else◌,
}
use time_flow_be.Prisma
use time_flow_be.Prisma.{Prisma}
use time_flow_be.OtpDelivery.{
  OtpChannel, Recipient, SmsService, otp_channels, sms_code_matches, deliver_otp,
}

abbrev pub signup_otp_max_attempts : ℕ
signup_otp_max_attempts = 5

abbrev pub signup_otp_max_sends : ℕ
signup_otp_max_sends = 5

abbrev pub signup_otp_lifetime_ms : ℕ
signup_otp_lifetime_ms = 30 * 60 * 1000

pub data UserStatus : Type 0 where
  pending active inactive : UserStatus

abbrev pub is_pending : UserStatus → Bool
is_pending pending = true
is_pending active = false
is_pending inactive = false

pub record User : Type 0 where
  pub id : ℕ
  pub phone : Option (List ℕ)
  pub status : UserStatus
  pub deleted_at : Option ℕ

-- The model SignupOtp of prisma/schema.prisma.
pub record SignupOtp : Type 0 where
  pub id : ℕ
  pub user_id : ℕ
  pub otp_hash : ℕ
  pub expires_at : ℕ
  pub attempts : ℕ
  pub send_count : ℕ
  pub last_sent_at : ℕ
  pub channels : List OtpChannel
  pub verified_at : Option ℕ
  pub created_at : ℕ

pub data OtpError : Type 0 where
  session_invalid otp_expired too_many_attempts resend_limit just_sent delivery_failed
        unique_violation :
      OtpError
  otp_invalid resend_cooldown : ℕ → OtpError

pub data Result (A : Type 0) : Type 0 where
  ok : A → Result A
  threw : OtpError → Result A

-- The keyed hash, the SMS provider and the settings.
pub record Env : Type 1 where
  pub prisma : Prisma
  pub hash_otp : ℕ → ℕ → ℕ
  pub sms_service : SmsService
  pub ttl_ms : ℕ
  pub cooldown_ms : ℕ

module _ (env : Env) where
  open env use {prisma}

  pub record State : Type 0 where
    pub otps : prisma.Table SignupOtp
    pub users : prisma.Table User

  abbrev pub find_otp : ℕ → State → Option SignupOtp
  find_otp id s = Prisma.find_first prisma (λ r. r.id == id) s.otps

  abbrev pub find_user : ℕ → State → Option User
  find_user id s = Prisma.find_first prisma (λ u. u.id == id) s.users

  -- `updateMany` of codes, with whether its count is not 0.
  abbrev pub write_otps : (SignupOtp → Bool) → (SignupOtp → SignupOtp) → State → Bool × State
  write_otps p f s =
      (not (Prisma.count prisma p s.otps == 0), record s { otps = prisma.update_many p f s.otps })

  abbrev pub claimable : ℕ → SignupOtp → SignupOtp → Bool
  claimable now row r =
      not (is_some r.verified_at)
      && (r.otp_hash == row.otp_hash)
      && ltb r.attempts signup_otp_max_attempts
      && ltb now r.expires_at

  unfoldable pub claim : ℕ → SignupOtp → State → Bool × State
  claim now row =
      write_otps (λ r. r.id == row.id && claimable now row r)
        (λ r. record r { attempts = suc r.attempts })

  abbrev pub right_code : SignupOtp → User → ℕ → Bool
  right_code row user otp =
      row.otp_hash == env.hash_otp row.id otp
      || sms_code_matches env.sms_service user.phone row.channels otp

  abbrev pub waits : ℕ → User → Bool
  waits id u = u.id == id && is_pending u.status && not (is_some u.deleted_at)

  abbrev pub activate : User → User
  activate u = record u { status = active }

  -- The transaction of `verify`. Where the user no longer waits, the code is spent all the same.
  unfoldable pub activate_user : ℕ → SignupOtp → State → Bool × State
  activate_user now row s =
      let used =
        write_otps (λ r. r.id == row.id && not (is_some r.verified_at))
          (λ r. record r { verified_at = some now }) s in
      let s' = used.1 in
      if not used.0 then (false, s') else (
        Prisma.count prisma (waits row.user_id) s'.users == 1,
        record s' { users = prisma.update_many (waits row.user_id) activate s'.users },
      )

  abbrev pub answered : SignupOtp → Bool × State → Result ℕ × State
  answered row (activated, s) = (if activated then ok row.user_id else threw session_invalid, s)

  abbrev pub compared : ℕ → SignupOtp → Bool → State → Result ℕ × State
  compared now row matched s =
      let remaining = signup_otp_max_attempts - suc row.attempts in
      if matched
      then answered row (activate_user now row s)
      else (threw (if remaining == 0 then too_many_attempts else otp_invalid remaining), s)

  unfoldable pub verify_row : ℕ → SignupOtp → User → ℕ → State → Result ℕ × State
  verify_row now row user otp s =
      let claimed = claim now row s in
      if is_some row.verified_at || is_some user.deleted_at || not (is_pending user.status)
      then (threw session_invalid, s)
      else if leb row.expires_at now
      then (threw otp_expired, s)
      else if leb signup_otp_max_attempts row.attempts
      then (threw too_many_attempts, s)
      else if not claimed.0
      then (threw too_many_attempts, claimed.1)
      else compared now row (right_code row user otp) claimed.1

  unfoldable pub verify : ℕ → ℕ → ℕ → State → Result ℕ × State
  verify now id otp s = elim (find_otp id s) [
    | none ↦ (threw session_invalid, s)
    | some row ↦ elim (find_user row.user_id s) [
      | none ↦ (threw session_invalid, s)
      | some user ↦ verify_row now row user otp s
    ]
  ]

  abbrev pub new_otp : ℕ → ℕ → ℕ → ℕ → SignupOtp
  new_otp now id user otp = record {
    id = id;
    user_id = user;
    otp_hash = env.hash_otp id otp;
    expires_at = now + env.ttl_ms;
    attempts = 0;
    send_count = 1;
    last_sent_at = now;
    channels = [];
    verified_at = none;
    created_at = now;
  }

  abbrev pub record_channels : ℕ → List OtpChannel → State → State
  record_channels id channels s =
      (write_otps (λ r. r.id == id) (λ r. record r { channels = channels }) s).1

  -- A code that could not be sent stays.
  unfoldable pub start :
      ℕ → ℕ → ℕ → (OtpChannel → Bool) → Recipient → State → Result (List OtpChannel) × State
  start now id otp accepts user s =
      let s' = record s { otps = prisma.create (new_otp now id user.id otp) s.otps } in
      if is_some (find_otp id s)
      then (threw unique_violation, s)
      else elim (deliver_otp accepts user otp_channels) [
        | none ↦ (threw delivery_failed, s')
        | some channels ↦ (ok channels, record_channels id channels s')
      ]

  unfoldable pub rotate : ℕ → SignupOtp → ℕ → State → Bool × State
  rotate now row hash =
      write_otps
        (λ r.
          r.id == row.id && (not (is_some r.verified_at) && (r.last_sent_at == row.last_sent_at)))
        (λ r. record r {
          otp_hash = hash;
          expires_at = now + env.ttl_ms;
          attempts = 0;
          send_count = suc r.send_count;
          last_sent_at = now;
          channels = [];
        })

  unfoldable pub resend_row :
      ℕ
      → ℕ
      → (OtpChannel → Bool)
      → User
      → List OtpChannel
      → SignupOtp
      → State
      → Result (List OtpChannel) × State
  resend_row now otp accepts user channels row s =
      let sent = rotate now row (env.hash_otp row.id otp) s in
      let to : Recipient = record { id = user.id; phone = user.phone } in
      let free_at = row.last_sent_at + env.cooldown_ms in
      if is_some row.verified_at || leb (row.created_at + signup_otp_lifetime_ms) now
      then (threw session_invalid, s)
      else if is_some user.deleted_at || not (is_pending user.status)
      then (threw session_invalid, s)
      else if leb signup_otp_max_sends row.send_count
      then (threw resend_limit, s)
      else if ltb now free_at
      then (threw (resend_cooldown ((free_at - now + 999) / 1000)), s)
      else if not sent.0
      then (threw just_sent, sent.1)
      else elim (deliver_otp accepts to channels) [
        | none ↦ (
          threw delivery_failed,
          (write_otps (λ r. r.id == row.id) (λ r. record r { last_sent_at = row.last_sent_at })
              sent.1).1,
        )
        | some taken ↦ (ok taken, record_channels row.id taken sent.1)
      ]

  unfoldable pub resend :
      ℕ → ℕ → ℕ → (OtpChannel → Bool) → List OtpChannel → State → Result (List OtpChannel) × State
  resend now id otp accepts channels s = elim (find_otp id s) [
    | none ↦ (threw session_invalid, s)
    | some row ↦ elim (find_user row.user_id s) [
      | none ↦ (threw session_invalid, s)
      | some user ↦ resend_row now otp accepts user channels row s
    ]
  ]
