-- ===== src/Tokens/Stable.antt =====
-- token.service.ts: verifying one challenge at two times gives the same claims.
use time_flow_be.Prelude.{ℕ, ◌<◌, ◌≡◌, refl, sym, ap, ◌∙◌, inl, inr, Bool-cases}
use time_flow_be.Tokens.{
  Claim, missing, text, number, Claims, as_text, as_object, Outcome, verified, token_expired,
  refused, Env, Purpose, VerifiedChallenge, accepted, invalid, jwt_challenge_audience, seconds,
  has_purpose, challenge_claims, challenge_answer, verify_two_factor_challenge,
}

-- The claims that an accepted challenge had.
AgreesWith : VerifiedChallenge → Claims → Type 0
AgreesWith c d = (d.jti ≡ text c.jti) × (d.exp ≡ number c.exp)

read_claims :
    (p : Purpose) (sub tv pur jti exp : Claim) (c : VerifiedChallenge)
    → challenge_claims p (record { sub = sub; tv = tv; pur = pur; jti = jti; exp = exp })
      ≡ accepted c
    → AgreesWith c (record { sub = sub; tv = tv; pur = pur; jti = jti; exp = exp })
unfolding AgreesWith
read_claims p missing tv pur jti exp c e = absurd (cc)
read_claims p (number n) tv pur jti exp c e = absurd (cc)
read_claims p (text s) missing pur jti exp c e = absurd (cc)
read_claims p (text s) (text v) pur jti exp c e = absurd (cc)
read_claims p (text s) (number v) pur missing exp c e = absurd (cc)
read_claims p (text s) (number v) pur (number j) exp c e = absurd (cc)
read_claims p (text s) (number v) pur (text j) missing c e = absurd (cc)
read_claims p (text s) (number v) pur (text j) (text x) c e = absurd (cc)
read_claims p (text s) (number v) pur (text j) (number x) c e =
    elim (Bool-cases (has_purpose p pur)) [
      | inr other ↦
          let turned_down : challenge_claims p
                (record { sub = text s; tv = number v; pur = pur; jti = text j; exp = number x })
              ≡ invalid =
            rw other refl in
          absurd (cc)
      | inl same ↦
          let there : challenge_claims p
                (record { sub = text s; tv = number v; pur = pur; jti = text j; exp = number x })
              ≡ accepted (record { sub = s; tv = v; pur = p; jti = j; exp = x }) =
            rw same refl in
          let c_eq : record { sub = s; tv = v; pur = p; jti = j; exp = x } ≡ c = cc in
          (ap (λ k. text k.jti) c_eq, ap (λ k. number k.exp) c_eq)
    ]

read_answer :
    (p : Purpose) (o : Outcome) (c : VerifiedChallenge)
    → challenge_answer p o ≡ accepted c
    → (d : Claims) × (o ≡ verified (as_object d)) × AgreesWith c d
read_answer p (verified as_text) c e = absurd (cc)
read_answer p (verified (as_object d)) c e =
    (d, refl, read_claims p d.sub d.tv d.pur d.jti d.exp c e)
read_answer p token_expired c e = absurd (cc)
read_answer p refused c e = absurd (cc)

module _ (env : Env) where
  -- The library's answer for one token does not change until the token expires.
  pub verify-stable :
      (now later : ℕ) (t : env.jwt.Token) (p q : Purpose) (c d : VerifiedChallenge)
      → verify_two_factor_challenge env now t p ≡ accepted c
      → verify_two_factor_challenge env later t q ≡ accepted d
      → (d.jti ≡ c.jti) × (d.exp ≡ c.exp) × (seconds later < d.exp)
  unfolding verify_two_factor_challenge AgreesWith
  verify-stable now later t p q c d first second =
      let (x, x_verified, (x_jti, x_exp)) =
        read_answer p (env.jwt.verify jwt_challenge_audience (seconds now) t) c first in
      let (y, y_verified, (y_jti, y_exp)) =
        read_answer q (env.jwt.verify jwt_challenge_audience (seconds later) t) d second in
      let same : x ≡ y =
        env.jwt.verify-same jwt_challenge_audience (seconds now) (seconds later) t x y x_verified
          y_verified in
      let jti : text d.jti ≡ text c.jti = sym y_jti ∙ sym (ap (λ k. k.jti) same) ∙ x_jti in
      let exp : number d.exp ≡ number c.exp = sym y_exp ∙ sym (ap (λ k. k.exp) same) ∙ x_exp in
      (
        cc,
        cc,
        env.jwt.verify-clock jwt_challenge_audience (seconds later) d.exp t y y_verified y_exp,
      )
