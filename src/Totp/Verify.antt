-- ===== src/Totp/Verify.antt =====
-- What `generateTotp` and `verifyTotp` promise.
use time_flow_be.Prelude.{
  ℕ, zero, suc, ◌+◌, ◌-◌, ◌*◌, ◌%◌, ◌^◌, ◌≤◌, ◌<◌, ◌≡◌, ◌≢◌, refl, ap, subst, ◌∙◌, inl, inr, Option,
  none, some, List, [], ◌∷◌, Bool, true, false, ◌&&◌, leb, ltb, ◌==◌, if◌then◌else◌, length, get_or,
  arith, Bool-cases, bit_and,
}
use time_flow_be.Prelude.Bits.{and_15}
use time_flow_be.Base32.{base32_decode}
use time_flow_be.Totp.{
  Result, returned, threw, ◌>>=◌, or_throw, totp_step, big_endian, counter_bytes, read_uint32,
  truncate, print_code, is_six_digits, same_bytes, generate_totp, try_steps, verify_totp,
}
use time_flow_be.Totp.Digits.{print_code-IsSixDigits}

-- Inversion of a bind that returns.
>>=-eq-returned {ℓ κ} :
    {A : Type ℓ} {B : Type κ} (m : Result A) (f : A → Result B) {b : B}
    → (m >>= f) ≡ returned b
    → (a : A) × (m ≡ returned a) × (f a ≡ returned b)
>>=-eq-returned (returned a) f h = (a, refl, h)
>>=-eq-returned threw f h = cc

same_bytes_sound : (xs ys : List ℕ) → same_bytes xs ys ≡ returned true → xs ≡ ys
unfolding same_bytes
same_bytes_sound [] [] h = refl
same_bytes_sound [] (y ∷ ys) h = cc
same_bytes_sound (x ∷ xs) [] h = cc
same_bytes_sound (x ∷ xs) (y ∷ ys) h = ground (arith, same_bytes_sound xs ys)

same_bytes_total :
    (xs ys : List ℕ) → length xs ≡ length ys → (b : Bool) × (same_bytes xs ys ≡ returned b)
unfolding same_bytes
same_bytes_total [] [] h = (true, refl)
same_bytes_total [] (y ∷ ys) h = absurd (omega arith)
same_bytes_total (x ∷ xs) [] h = absurd (omega arith)
same_bytes_total (x ∷ xs) (y ∷ ys) h =
    let (b, e) = same_bytes_total xs ys (omega arith) in (x == y && b, rw e)

same_bytes_refl : (xs : List ℕ) → same_bytes xs xs ≡ returned true
unfolding same_bytes
same_bytes_refl [] = refl
same_bytes_refl (x ∷ xs) = ground (arith, same_bytes_refl xs)

length_of_six_digits : (code : List ℕ) → is_six_digits code ≡ true → length code ≡ 6
unfolding is_six_digits
length_of_six_digits code h = ground arith

truncate_bound : (digest : List ℕ) {n : ℕ} → truncate digest ≡ returned n → n < 10 ^ 6
unfolding truncate
truncate_bound digest h =
    let (number, _, e) = >>=-eq-returned (read_uint32 digest _) _ h in ground (arith)

truncate_total : (digest : List ℕ) → length digest ≡ 20 → (n : ℕ) × (truncate digest ≡ returned n)
unfolding truncate
truncate_total digest h =
    let last = get_or digest (length digest - 1) 0 in
    let fits : leb (bit_and last 15 + 4) (length digest) ≡ true = ground (arith, and_15 last) in
    (
      bit_and
            (get_or digest (bit_and last 15) 0 * 2 ^ 24
              + get_or digest (bit_and last 15 + 1) 0 * 2 ^ 16
              + get_or digest (bit_and last 15 + 2) 0 * 2 ^ 8
              + get_or digest (bit_and last 15 + 3) 0)
            0x7fffffff
          % 10 ^ 6,
      rw fits,
    )

module _ (hmac : List ℕ → List ℕ → List ℕ) where
  -- Every code is six decimal digits.
  pub generate_totp-IsSixDigits :
      (secret : List ℕ) (step : ℕ) (code : List ℕ)
      → generate_totp hmac secret step ≡ returned code
      → is_six_digits code ≡ true
  unfolding generate_totp
  generate_totp-IsSixDigits secret step code h =
      let (counter, _, h₁) = >>=-eq-returned (counter_bytes step) _ h in
      let (key, _, h₂) = >>=-eq-returned (or_throw (base32_decode secret)) _ h₁ in
      let (n, truncated, h₃) = >>=-eq-returned (truncate (hmac key counter)) _ h₂ in
      let printed : print_code n ≡ code = cc in
      subst (λ c. is_six_digits c ≡ true) printed
        (print_code-IsSixDigits n (truncate_bound (hmac key counter) truncated))

  -- A secret that decodes, under digests of twenty bytes, has a code for every counter.
  generate_totp_total :
      (secret key : List ℕ) (step : ℕ)
      → base32_decode secret ≡ some key
      → ((k m : List ℕ) → length (hmac k m) ≡ 20)
      → step < 2 ^ 64
      → (code : List ℕ) × (generate_totp hmac secret step ≡ returned code)
  unfolding generate_totp counter_bytes
  generate_totp_total secret key step e len h =
      let small : ltb step (2 ^ 64) ≡ true = ground arith in
      let (n, truncated) = truncate_total (hmac key (big_endian 8 step)) (len key _) in
      (print_code n, rw (small, e, truncated))

  try_steps_sound :
      (rounds above s : ℕ) (secret given : List ℕ)
      → try_steps hmac secret given rounds above ≡ returned (some s)
      → (above ≤ suc s) × (suc s < above + rounds) × (generate_totp hmac secret s ≡ returned given)
  unfolding try_steps
  try_steps_sound zero above s secret given h = cc
  try_steps_sound (suc rounds) zero s secret given h = cc
  try_steps_sound (suc rounds) (suc step) s secret given h =
      let (code, generated, h₁) = >>=-eq-returned (generate_totp hmac secret step) _ h in
      let (same, compared, h₂) = >>=-eq-returned (same_bytes code given) _ h₁ in
      elim (Bool-cases same) [
        | inl hit ↦ ground (arith, same_bytes_sound code given)
        | inr miss ↦ ground (arith, try_steps_sound rounds (suc (suc step)) s secret given)
      ]

  -- A code that is accepted is six digits, and is the code of the step that is returned, which lies
  -- within one of the current step.
  pub verify_totp_sound :
      (secret code : List ℕ) (at_ms s : ℕ)
      → verify_totp hmac secret code at_ms ≡ returned (some s)
      → (is_six_digits code ≡ true)
        × (totp_step at_ms ≤ s + 1)
        × (s ≤ totp_step at_ms + 1)
        × (generate_totp hmac secret s ≡ returned code)
  unfolding verify_totp
  verify_totp_sound secret code at_ms s e =
      ground (arith, try_steps_sound 3 (totp_step at_ms + 1 - 1) s secret code)

  code_differs :
      (step s : ℕ) (secret code given : List ℕ)
      → generate_totp hmac secret step ≡ returned code
      → generate_totp hmac secret s ≡ returned given
      → same_bytes code given ≡ returned false
      → step ≢ s
  code_differs step s secret code given g e c = λ same. cc (same_bytes_refl given)

  module _ (secret key : List ℕ) (decodes : base32_decode secret ≡ some key)
      (digest_length : (k m : List ℕ) → length (hmac k m) ≡ 20) where
    -- The step tried first compares its code with the one given.
    compare_at :
        (given : List ℕ) (step : ℕ)
        → length given ≡ 6
        → step < 2 ^ 64
        → (code : List ℕ) × (same : Bool) × (generate_totp hmac secret step ≡ returned code)
          × (same_bytes code given ≡ returned same)
    compare_at given step six small =
        let (code, e) = generate_totp_total secret key step decodes digest_length small in
        let code_length =
          length_of_six_digits code (generate_totp-IsSixDigits secret step code e) in
        let (same, e') = same_bytes_total code given (omega arith) in (code, same, e, e')

    try_steps_total :
        (rounds above : ℕ) (given : List ℕ)
        → length given ≡ 6
        → 0 < above
        → above + rounds ≤ 2 ^ 64 + 1
        → (r : Option ℕ) × (try_steps hmac secret given rounds above ≡ returned r)
    unfolding try_steps
    try_steps_total zero above given six pos small = (none, refl)
    try_steps_total (suc rounds) zero given six pos small = absurd (omega arith)
    try_steps_total (suc rounds) (suc step) given six pos small =
        let (code, same, e, e') = compare_at given step six (omega arith) in
        let (r, later) =
          try_steps_total rounds (suc (suc step)) given six (omega arith) (omega arith) in
        (if same then some step else r, ground (arith))

    try_steps_complete :
        (rounds above s : ℕ) (given : List ℕ)
        → length given ≡ 6
        → 0 < above
        → above + rounds ≤ 2 ^ 64 + 1
        → above ≤ suc s
        → suc s < above + rounds
        → generate_totp hmac secret s ≡ returned given
        → (t : ℕ) × (try_steps hmac secret given rounds above ≡ returned (some t)) × (t ≤ s)
    unfolding try_steps
    try_steps_complete zero above s given six pos small from to e = absurd (omega arith)
    try_steps_complete (suc rounds) zero s given six pos small from to e = absurd (omega arith)
    try_steps_complete (suc rounds) (suc step) s given six pos small from to e =
        let (code, same, g, c) = compare_at given step six (omega arith) in
        elim (Bool-cases same) [
          | inl hit ↦ (step, ground arith, omega arith)
          | inr miss ↦
              let next : suc step ≤ s =
                omega (arith, code_differs step s secret code given g e (c ∙ ap returned miss)) in
              let (t, found, le) =
                try_steps_complete rounds (suc (suc step)) s given six (omega arith) (omega arith)
                  (omega arith) (omega arith) e in
              (t, ground arith, le)
        ]

    -- With a secret that decodes, a hash of twenty bytes and a clock that is at least one step past
    -- the epoch, and whose next step still fits 64 bits, checking a code of any form never throws.
    pub verify_totp_total :
        (code : List ℕ) (at_ms : ℕ)
        → 0 < totp_step at_ms
        → totp_step at_ms + 2 ≤ 2 ^ 64
        → (r : Option ℕ) × (verify_totp hmac secret code at_ms ≡ returned r)
    unfolding verify_totp
    verify_totp_total code at_ms pos small = elim (Bool-cases (is_six_digits code)) [
      | inr bad ↦ (none, rw bad)
      | inl six ↦ rw six (
          try_steps_total 3 (totp_step at_ms + 1 - 1) code (length_of_six_digits code six)
            (omega arith) (omega arith))
    ]

    -- With a secret that decodes, a hash of twenty bytes and a clock that is at least one step past the epoch, and
    -- whose next step still fits 64 bits, every code generated for a step within one of the current one is
    -- accepted, and the step that is returned is no later than that one.
    pub verify_totp_complete :
        (code : List ℕ) (at_ms s : ℕ)
        → 0 < totp_step at_ms
        → totp_step at_ms + 2 ≤ 2 ^ 64
        → totp_step at_ms ≤ s + 1
        → s ≤ totp_step at_ms + 1
        → generate_totp hmac secret s ≡ returned code
        → (t : ℕ) × (verify_totp hmac secret code at_ms ≡ returned (some t)) × (t ≤ s)
    unfolding verify_totp
    verify_totp_complete code at_ms s pos small from to e =
        let six = generate_totp-IsSixDigits secret s code e in
        rw six (
          try_steps_complete 3 (totp_step at_ms + 1 - 1) s code (length_of_six_digits code six)
            (omega arith) (omega arith) (omega arith) (omega arith) e)
