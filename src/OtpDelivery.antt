-- ===== src/OtpDelivery.antt =====
-- src/modules/auth/otp-delivery.ts: where one-time codes go. Strings are lists of code points.
use time_flow_be.Prelude.{
  ℕ, Option, none, some, is_some, List, [], ◌∷◌, Bool, true, false, not, ◌&&◌, ◌||◌, ◌==◌, leb,
  if◌then◌else◌, filter, all, any, length,
}

pub data OtpChannel : Type 0 where
  email sms : OtpChannel

abbrev pub is_email : OtpChannel → Bool
is_email email = true
is_email sms = false

abbrev pub between : ℕ → ℕ → ℕ → Bool
between low high x = leb low x && leb x high

-- `\d` and `\s` of a regular expression.
abbrev pub is_digit : ℕ → Bool
is_digit c = between b'0' b'9' c

abbrev pub is_space : ℕ → Bool
is_space c =
    between 9 13 c
    || between 8192 8202 c
    || any (λ x. x == c) (32 ∷ 160 ∷ 5760 ∷ 8232 ∷ 8233 ∷ 8239 ∷ 8287 ∷ 12288 ∷ 65279 ∷ [])

-- `[\s().-]`
abbrev pub is_formatting : ℕ → Bool
is_formatting c = is_space c || any (λ x. x == c) (b'(' ∷ b')' ∷ b'.' ∷ b'-' ∷ [])

-- `/^\+[1-9]\d{7,14}$/`
abbrev pub is_e164 : List ℕ → Bool
is_e164 [] = false
is_e164 (plus ∷ []) = false
is_e164 (plus ∷ first ∷ rest) =
    plus == b'+' && between b'1' b'9' first && all is_digit rest && between 7 14 (length rest)

-- Null and the empty string are both no number.
unfoldable pub normalize_mobile : Option (List ℕ) → Option (List ℕ)
normalize_mobile none = none
normalize_mobile (some phone) =
    let compact = filter (λ c. not (is_formatting c)) phone in
    if is_e164 compact then some compact else none

pub record Recipient : Type 0 where
  pub id : ℕ
  pub phone : Option (List ℕ)

-- `Boolean(user.phone)`
abbrev pub has_phone : Option (List ℕ) → Bool
has_phone none = false
has_phone (some []) = false
has_phone (some (c ∷ cs)) = true

abbrev pub otp_channels : List OtpChannel
otp_channels = email ∷ sms ∷ []

unfoldable pub channels_for : Recipient → List OtpChannel → List OtpChannel
channels_for user requested = filter (λ c. is_email c || has_phone user.phone) requested

-- The SMS provider: whether it makes up its own codes, and its check of one.
pub record SmsService : Type 0 where
  pub provider_generates_code : Bool
  pub check_otp : List ℕ → ℕ → Bool

unfoldable pub sms_code_matches : SmsService → Option (List ℕ) → List OtpChannel → ℕ → Bool
sms_code_matches service phone channels otp =
    if not service.provider_generates_code || not (any (λ c. not (is_email c)) channels)
    then false
    else elim (normalize_mobile phone) [ none ↦ false | some mobile ↦ service.check_otp mobile otp ]

-- Which of the channels took the code; `accepts` is what the providers did. An SMS goes only to a valid
-- number. None at all is the failure that `noneDelivered` makes.
unfoldable pub deliver_otp :
    (OtpChannel → Bool) → Recipient → List OtpChannel → Option (List OtpChannel)
deliver_otp accepts user channels =
    let delivered =
      filter (λ c. (is_email c || is_some (normalize_mobile user.phone)) && accepts c) channels in
    if length delivered == 0 then none else some delivered
