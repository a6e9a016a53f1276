-- ===== src/Totp/Tests.antt =====
-- The codes under a hash that is a constant, and the theorems at those inputs.
use time_flow_be.Prelude.{ℕ, ◌+◌, ◌≤◌, ◌≡◌, refl, Option, some, List, [], ◌∷◌, arith, true}
use time_flow_be.Base32.{base32_decode, decode_from, index_of, clean, upper, is_filler}
use time_flow_be.Totp.{
  returned, threw, totp_step, counter_bytes, big_endian, truncate, read_uint32, print_code,
  to_digits, pad_start, is_six_digits, same_bytes, generate_totp, try_steps, verify_totp,
}
use time_flow_be.Totp.Verify.{verify_totp_sound, verify_totp_total, verify_totp_complete}

-- The digest of the example in RFC 4226, section 5.4, whose code is 872921.
abbrev sample_hmac : List ℕ → List ℕ → List ℕ
sample_hmac key message =
    0x1f ∷ 0x86 ∷ 0x98 ∷ 0x69 ∷ 0x0e ∷ 0x02 ∷ 0xca ∷ 0x16 ∷ 0x61 ∷ 0x85 ∷ 0x50 ∷ 0xef ∷ 0x7f ∷ 0x19
    ∷ 0xda ∷ 0x8e ∷ 0x94 ∷ 0x5b ∷ 0x55 ∷ 0x5a ∷ []

abbrev sample_secret : List ℕ
sample_secret = b'M' ∷ b'Z' ∷ b'X' ∷ b'Q' ∷ []

abbrev sample_code : List ℕ
sample_code = b'8' ∷ b'7' ∷ b'2' ∷ b'9' ∷ b'2' ∷ b'1' ∷ []

totp : Unit {0}
unfolding generate_totp counter_bytes big_endian truncate read_uint32 print_code to_digits pad_start
    verify_totp try_steps totp_step is_six_digits same_bytes base32_decode decode_from index_of
    clean upper is_filler
totp = tt

sample_decodes : base32_decode sample_secret ≡ some (b'f' ∷ b'o' ∷ [])
unfolding totp
sample_decodes = refl

sample_generated : generate_totp sample_hmac sample_secret 100 ≡ returned sample_code
unfolding totp
sample_generated = refl

sample_verified : verify_totp sample_hmac sample_secret sample_code 3000000 ≡ returned (some 99)
unfolding totp
sample_verified = refl

before_the_first_step : verify_totp sample_hmac sample_secret sample_code 29999 ≡ threw
unfolding totp
before_the_first_step = refl

verify_totp_sound_example :
    (is_six_digits sample_code ≡ true)
    × (totp_step 3000000 ≤ 99 + 1)
    × (99 ≤ totp_step 3000000 + 1)
    × (generate_totp sample_hmac sample_secret 99 ≡ returned sample_code)
verify_totp_sound_example =
    verify_totp_sound sample_hmac sample_secret sample_code 3000000 99 sample_verified

verify_totp_total_example :
    (r : Option ℕ) × (verify_totp sample_hmac sample_secret sample_code 3000000 ≡ returned r)
unfolding totp_step
verify_totp_total_example =
    verify_totp_total sample_hmac sample_secret (b'f' ∷ b'o' ∷ []) sample_decodes (λ k m. refl)
      sample_code 3000000 (omega arith) (omega arith)

verify_totp_complete_example :
    (t : ℕ) × (verify_totp sample_hmac sample_secret sample_code 3000000 ≡ returned (some t))
    × (t ≤ 100)
unfolding totp_step
verify_totp_complete_example =
    verify_totp_complete sample_hmac sample_secret (b'f' ∷ b'o' ∷ []) sample_decodes (λ k m. refl)
      sample_code 3000000 100 (omega arith) (omega arith) (omega arith) (omega arith)
      sample_generated
