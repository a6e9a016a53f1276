-- ===== src/Totp.antt =====
-- src/common/utils/totp.ts: time-based one-time codes. `hmac` stands for HMAC-SHA1 of node:crypto, from a
-- key and a message to a digest, all lists of bytes.
pub mod Digits
pub mod Verify
mod Tests
use mathlib.Core.Option
use time_flow_be.Prelude.{
  ℕ, zero, suc, ◌+◌, ◌-◌, ◌*◌, ◌/◌, ◌%◌, ◌^◌, bit_and, Option, none, some, List, [], ◌∷◌, ◌++◌, map,
  Bool, true, ◌&&◌, leb, ltb, ◌==◌, if◌then◌else◌, length, get_or, all,
}
use time_flow_be.Base32.{base32_decode}

abbrev pub totp_step_seconds : ℕ
totp_step_seconds = 30

abbrev pub totp_digits : ℕ
totp_digits = 6

abbrev pub totp_window : ℕ
totp_window = 1

-- A call that may throw: on a secret that is no base32, or a counter that is no unsigned 64-bit
-- integer.
pub data Result {ℓ} (A : Type ℓ) : Type ℓ where
  returned : A → Result A
  threw : Result A

infixl 5 ◌>>=◌
abbrev pub ◌>>=◌ {ℓ κ} : {A : Type ℓ} {B : Type κ} → Result A → (A → Result B) → Result B
returned a >>= f = f a
threw >>= f = threw

abbrev pub or_throw {ℓ} : {A : Type ℓ} → Option A → Result A
or_throw none = threw
or_throw (some a) = returned a

unfoldable pub totp_step : ℕ → ℕ
totp_step at_ms = at_ms / 1000 / totp_step_seconds

-- `writeBigUInt64BE`: the `n` lowest bytes of `v`, the highest first.
unfoldable pub big_endian : ℕ → ℕ → List ℕ
big_endian zero v = []
big_endian (suc n) v = (v / 256 ^ n % 256) ∷ big_endian n v

unfoldable pub counter_bytes : ℕ → Result (List ℕ)
unfolding big_endian
counter_bytes step = if ltb step (2 ^ 64) then returned (big_endian 8 step) else threw

-- `readUInt32BE(offset)`, which throws where fewer than four bytes are left.
unfoldable pub read_uint32 : List ℕ → ℕ → Result ℕ
read_uint32 buf offset =
    if leb (offset + 4) (length buf)
    then returned (
        get_or buf offset 0 * 2 ^ 24
        + get_or buf (offset + 1) 0 * 2 ^ 16
        + get_or buf (offset + 2) 0 * 2 ^ 8
        + get_or buf (offset + 3) 0)
    else threw

-- `toString()`: a number below `fuel` has its decimal digits within `fuel` rounds.
unfoldable pub to_digits : ℕ → ℕ → List ℕ
to_digits zero n = []
to_digits (suc fuel) n =
    let rest = to_digits fuel (n / 10) ++ (b'0' + n % 10) ∷ [] in
    if ltb n 10 then (b'0' + n) ∷ [] else rest

-- `padStart`, by the number of zeros that are missing.
unfoldable pub pad_start : ℕ → List ℕ → List ℕ
pad_start zero text = text
pad_start (suc missing) text = b'0' ∷ pad_start missing text

-- The number that the digest stands for: four bytes at the offset that its last byte gives.
unfoldable pub truncate : List ℕ → Result ℕ
unfolding read_uint32
truncate digest = do
  let offset = bit_and (get_or digest (length digest - 1) 0) 0x0f
  number ← read_uint32 digest offset
  returned (bit_and number 0x7fffffff % 10 ^ totp_digits)

unfoldable pub print_code : ℕ → List ℕ
print_code binary =
    let text = to_digits (suc binary) binary in pad_start (totp_digits - length text) text

-- `/^\d{6}$/.test(code)`
unfoldable pub is_six_digits : List ℕ → Bool
is_six_digits code = length code == 6 && all (λ c. leb b'0' c && leb c b'9') code

-- `timingSafeEqual`, which throws on buffers of different lengths.
unfoldable pub same_bytes : List ℕ → List ℕ → Result Bool
same_bytes [] [] = returned true
same_bytes [] (_ ∷ _) = threw
same_bytes (_ ∷ _) [] = threw
same_bytes (x ∷ xs) (y ∷ ys) = do same ← same_bytes xs ys; returned (x == y && same)

module _ (hmac : List ℕ → List ℕ → List ℕ) where
  unfoldable pub generate_totp : List ℕ → ℕ → Result (List ℕ)
  generate_totp secret step = do
    counter ← counter_bytes step
    key ← or_throw (base32_decode secret)
    binary ← truncate (hmac key counter)
    returned (print_code binary)

  -- The loop of `verifyTotp` with `rounds` values of `delta` to go; the next step to try is one
  -- below `above`, and a step below 0 makes `writeBigUInt64BE` throw.
  unfoldable pub try_steps : List ℕ → List ℕ → ℕ → ℕ → Result (Option ℕ)
  try_steps secret given zero above = returned none
  try_steps secret given (suc rounds) zero = threw
  try_steps secret given (suc rounds) (suc step) =
      let rest = try_steps secret given rounds (suc (suc step)) in
      generate_totp secret step >>= λ code.
      same_bytes code given >>= λ same. if same then returned (some step) else rest

  unfoldable pub verify_totp : List ℕ → List ℕ → ℕ → Result (Option ℕ)
  verify_totp secret code at_ms =
      if is_six_digits code
      then try_steps secret code (totp_window * 2 + 1) (totp_step at_ms + 1 - totp_window)
      else returned none
