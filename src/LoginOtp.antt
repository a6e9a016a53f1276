-- ===== src/LoginOtp.antt =====
-- src/modules/auth/login-otp.service.ts: the code that is asked for after the password. Each write of the
-- table is an operation of its own, which takes the row that the request has read before.
mod Interleaved
mod Limits
mod Verify
mod Tests
use mathlib.Core.Option
use time_flow_be.Prelude.{
  ℕ, suc, ◌+◌, ◌-◌, ◌*◌, ◌/◌, Option, none, some, is_some, List, [], ◌∷◌, Bool, true, false, not,
  ◌&&◌, ◌||◌, ◌==◌, ltb, leb, if◌then◌else◌, length,
}
use time_flow_be.Prisma
use time_flow_be.Prisma.{Prisma}
use time_flow_be.OtpDelivery.{
  OtpChannel, Recipient, SmsService, otp_channels, channels_for, sms_code_matches, deliver_otp,
}

abbrev pub login_otp_max_attempts : ℕ
login_otp_max_attempts = 5

abbrev pub login_otp_max_sends : ℕ
login_otp_max_sends = 5

abbrev pub login_otp_attempt_lifetime_ms : ℕ
login_otp_attempt_lifetime_ms = 30 * 60 * 1000

-- The model LoginOtp of prisma/schema.prisma.
pub record LoginOtp : Type 0 where
  pub id : ℕ
  pub user_id : ℕ
  pub otp_hash : ℕ
  pub expires_at : ℕ
  pub attempts : ℕ
  pub send_count : ℕ
  pub last_sent_at : ℕ
  pub channels : List OtpChannel
  pub used_at : Option ℕ
  pub created_at : ℕ

pub record OtpUser : Type 0 where
  pub id : ℕ
  pub phone : Option (List ℕ)
  pub active : Bool
  pub deleted_at : Option ℕ

pub data OtpError : Type 0 where
  session_invalid otp_expired too_many_attempts resend_limit just_sent invalid_phone_number
        delivery_failed unique_violation :
      OtpError
  -- `LOGIN_OTP_INVALID` with the attempts that are left, and the seconds to wait.
  otp_invalid resend_cooldown : ℕ → OtpError

pub data Result (A : Type 0) : Type 0 where
  ok : A → Result A
  threw : OtpError → Result A

-- The keyed hash, the SMS provider and the settings.
pub record Env : Type 1 where
  pub prisma : Prisma
  pub hash_otp : ℕ → ℕ → ℕ
  pub sms_service : SmsService
  pub ttl_ms : ℕ
  pub cooldown_ms : ℕ

module _ (env : Env) where
  open env use {prisma}

  abbrev pub Table : Type 0
  Table = prisma.Table LoginOtp

  -- `updateMany`, with whether its count is not 0.
  abbrev pub write : (LoginOtp → Bool) → (LoginOtp → LoginOtp) → Table → Bool × Table
  write p f t = (not (Prisma.count prisma p t == 0), prisma.update_many p f t)

  abbrev pub find_otp : ℕ → Table → Option LoginOtp
  find_otp id t = Prisma.find_first prisma (λ r. r.id == id) t

  -- The attempt is counted before the codes are compared.
  abbrev pub claimable : ℕ → LoginOtp → LoginOtp → Bool
  claimable now row r =
      not (is_some r.used_at)
      && (r.otp_hash == row.otp_hash)
      && ltb r.attempts login_otp_max_attempts
      && ltb now r.expires_at

  abbrev pub one_more : LoginOtp → LoginOtp
  one_more r = record r { attempts = suc r.attempts }

  unfoldable pub claim : ℕ → LoginOtp → Table → Bool × Table
  claim now row = write (λ r. r.id == row.id && claimable now row r) one_more

  abbrev pub unused : LoginOtp → Bool
  unused r = not (is_some r.used_at)

  abbrev pub mark_used : ℕ → LoginOtp → LoginOtp
  mark_used now r = record r { used_at = some now }

  unfoldable pub use_code : ℕ → LoginOtp → Table → Bool × Table
  use_code now row = write (λ r. r.id == row.id && unused r) (mark_used now)

  abbrev pub otp_matches : ℕ → ℕ → ℕ → Bool
  otp_matches stored id otp = stored == env.hash_otp id otp

  -- The end of `verify`, once the code has been compared.
  unfoldable pub settle_code : ℕ → LoginOtp → Bool → Table → Result ℕ × Table
  settle_code now row matched t =
      let remaining = login_otp_max_attempts - suc row.attempts in
      let used = use_code now row t in
      if not matched
      then (threw (if remaining == 0 then too_many_attempts else otp_invalid remaining), t)
      else ((if used.0 then ok row.user_id else threw session_invalid), used.1)

  unfoldable pub verify_row : ℕ → LoginOtp → Option (List ℕ) → ℕ → Table → Result ℕ × Table
  verify_row now row phone otp t =
      let claimed = claim now row t in
      let matched =
        otp_matches row.otp_hash row.id otp
        || sms_code_matches env.sms_service phone row.channels otp in
      if is_some row.used_at
      then (threw session_invalid, t)
      else if leb row.expires_at now
      then (threw otp_expired, t)
      else if leb login_otp_max_attempts row.attempts
      then (threw too_many_attempts, t)
      else if not claimed.0
      then (threw too_many_attempts, claimed.1)
      else settle_code now row matched claimed.1

  -- `verify` without interruption; `phone_of` is the phone of the user of a row.
  unfoldable pub verify : ℕ → (ℕ → Option (List ℕ)) → ℕ → ℕ → Table → Result ℕ × Table
  verify now phone_of id otp t = elim (find_otp id t) [
    | none ↦ (threw session_invalid, t)
    | some row ↦ verify_row now row (phone_of row.user_id) otp t
  ]

  -- Signing in again replaces an earlier attempt.
  abbrev pub new_otp : ℕ → ℕ → ℕ → ℕ → LoginOtp
  new_otp now id user otp = record {
    id = id;
    user_id = user;
    otp_hash = env.hash_otp id otp;
    expires_at = now + env.ttl_ms;
    attempts = 0;
    send_count = 1;
    last_sent_at = now;
    channels = [];
    used_at = none;
    created_at = now;
  }

  -- The transaction of `start`; the database refuses an id that is taken, and then nothing is deleted.
  unfoldable pub supersede : LoginOtp → Table → Bool × Table
  supersede row t =
      let kept = prisma.delete_many (λ r. r.user_id == row.user_id) t in
      if is_some (find_otp row.id kept) then (false, t) else (true, prisma.create row kept)

  unfoldable pub record_channels : ℕ → List OtpChannel → Table → Bool × Table
  record_channels id channels = write (λ r. r.id == id) (λ r. record r { channels = channels })

  unfoldable pub discard : ℕ → Table → Bool × Table
  discard id t = (true, prisma.delete_many (λ r. r.id == id) t)

  -- `start`, for the id and the code that are made up; `accepts` is what the providers do.
  unfoldable pub start :
      ℕ → ℕ → ℕ → (OtpChannel → Bool) → Recipient → Table → Result (List OtpChannel) × Table
  start now id otp accepts user t =
      let stored = supersede (new_otp now id user.id otp) t in
      if not stored.0
      then (threw unique_violation, stored.1)
      else elim (deliver_otp accepts user (channels_for user otp_channels)) [
        | none ↦ (threw delivery_failed, (discard id stored.1).1)
        | some channels ↦ (ok channels, (record_channels id channels stored.1).1)
      ]

  abbrev pub same_send : LoginOtp → LoginOtp → Bool
  same_send row r = not (is_some r.used_at) && (r.last_sent_at == row.last_sent_at)

  abbrev pub rotated : ℕ → ℕ → LoginOtp → LoginOtp
  rotated now hash r = record r {
    otp_hash = hash;
    expires_at = now + env.ttl_ms;
    attempts = 0;
    send_count = suc r.send_count;
    last_sent_at = now;
  }

  unfoldable pub rotate : ℕ → LoginOtp → ℕ → Table → Bool × Table
  rotate now row hash = write (λ r. r.id == row.id && same_send row r) (rotated now hash)

  -- A code that never left does not start a cooldown.
  unfoldable pub restore_sent : LoginOtp → Table → Bool × Table
  restore_sent row = write (λ r. r.id == row.id) (λ r. record r { last_sent_at = row.last_sent_at })

  unfoldable pub resend_row :
      ℕ
      → ℕ
      → (OtpChannel → Bool)
      → Recipient
      → List OtpChannel
      → LoginOtp
      → Table
      → Result (List OtpChannel) × Table
  resend_row now otp accepts user channels row t =
      let sent = rotate now row (env.hash_otp row.id otp) t in
      if not sent.0 then (threw just_sent, sent.1) else elim (deliver_otp accepts user channels) [
        | none ↦ (threw delivery_failed, (restore_sent row sent.1).1)
        | some taken ↦ (ok taken, (record_channels row.id taken sent.1).1)
      ]

  unfoldable pub resend_checked :
      ℕ
      → ℕ
      → (OtpChannel → Bool)
      → OtpUser
      → List OtpChannel
      → LoginOtp
      → Table
      → Result (List OtpChannel) × Table
  resend_checked now otp accepts user requested row t =
      let to : Recipient = record { id = user.id; phone = user.phone } in
      let channels = channels_for to requested in
      let free_at = row.last_sent_at + env.cooldown_ms in
      if is_some row.used_at || leb (row.created_at + login_otp_attempt_lifetime_ms) now
      then (threw session_invalid, t)
      else if is_some user.deleted_at || not user.active
      then (threw session_invalid, t)
      else if leb login_otp_max_sends row.send_count
      then (threw resend_limit, t)
      else if ltb now free_at
      then (threw (resend_cooldown ((free_at - now + 999) / 1000)), t)
      else if length channels == 0
      then (threw invalid_phone_number, t)
      else resend_row now otp accepts to channels row t

  -- `resend` without interruption; `user_of` is the user of a row.
  unfoldable pub resend :
      ℕ
      → ℕ
      → (OtpChannel → Bool)
      → (ℕ → OtpUser)
      → List OtpChannel
      → ℕ
      → Table
      → Result (List OtpChannel) × Table
  resend now otp accepts user_of requested id t = elim (find_otp id t) [
    | none ↦ (threw session_invalid, t)
    | some row ↦ resend_checked now otp accepts (user_of row.user_id) requested row t
  ]
