-- ===== src/Tokens.antt =====
-- src/modules/auth/token.service.ts: access tokens and the challenges of a sign-in with two factors. The library
-- that signs and verifies is a parameter.
mod RoundTrip
pub mod Library
pub mod Stable
mod Tests
use time_flow_be.Prelude.{
  ℕ, ◌+◌, ◌*◌, ◌/◌, ◌<◌, ◌≡◌, refl, Option, none, some, Bool, true, false, ◌==◌, leb, if◌then◌else◌,
}

-- A claim as JavaScript sees it.
pub data Claim : Type 0 where
  missing : Claim
  text number : ℕ → Claim

pub record Claims : Type 0 where
  pub sub : Claim
  pub tv : Claim
  pub pur : Claim
  pub jti : Claim
  pub exp : Claim

-- What `jwt.verify` returns or throws.
pub data Decoded : Type 0 where
  as_text : Decoded
  as_object : Claims → Decoded

pub data Outcome : Type 0 where
  verified : Decoded → Outcome
  token_expired refused : Outcome

-- jsonwebtoken, with the secret, the algorithm and the issuer that the service always gives. The clock is in
-- seconds. A token that was signed has its claims and its expiry, and is verified for its audience until then.
pub record Jwt : Type 1 where
  pub Token : Type 0
  pub sign : (audience issued_at expires_in : ℕ) → Claims → Token
  pub verify : (audience clock : ℕ) → Token → Outcome
  pub verify-sign :
      (audience wanted issued_at expires_in clock : ℕ) (c : Claims)
      → verify wanted clock (sign audience issued_at expires_in c) ≡ (
          if leb (issued_at + expires_in) clock
          then token_expired
          else if audience == wanted
          then verified (as_object (record c { exp = number (issued_at + expires_in) }))
          else refused)
  pub verify-clock :
      (audience clock e : ℕ) (t : Token) (c : Claims)
      → verify audience clock t ≡ verified (as_object c)
      → c.exp ≡ number e
      → clock < e
  pub verify-same :
      (audience clock later : ℕ) (t : Token) (c d : Claims)
      → verify audience clock t ≡ verified (as_object c)
      → verify audience later t ≡ verified (as_object d)
      → c ≡ d

-- `JWT_AUDIENCE` and `JWT_CHALLENGE_AUDIENCE`
abbrev pub jwt_audience : ℕ
jwt_audience = 0

abbrev pub jwt_challenge_audience : ℕ
jwt_challenge_audience = 1

pub data Purpose : Type 0 where
  verify setup : Purpose

abbrev pub purpose_number : Purpose → ℕ
purpose_number verify = 0
purpose_number setup = 1

pub record VerifiedAccessToken : Type 0 where
  pub sub : ℕ
  pub tv : ℕ
  pub exp : ℕ

pub record VerifiedChallenge : Type 0 where
  pub sub : ℕ
  pub tv : ℕ
  pub pur : Purpose
  pub jti : ℕ
  pub exp : ℕ

pub data ChallengeAnswer : Type 0 where
  accepted : VerifiedChallenge → ChallengeAnswer
  expired invalid : ChallengeAnswer

pub record Env : Type 1 where
  pub jwt : Jwt
  pub access_token_ttl_minutes : ℕ
  pub two_factor_challenge_ttl_minutes : ℕ

-- `Math.floor(Date.now() / 1000)`
abbrev pub seconds : ℕ → ℕ
seconds now = now / 1000

-- The tests of the claims; anything else is refused.
abbrev pub access_claims : Claims → Option VerifiedAccessToken
access_claims c = elim c.sub [
  | text sub ↦ elim c.tv [
    | number tv ↦ elim c.exp [
      | number exp ↦ some (record { sub = sub; tv = tv; exp = exp })
      | _ ↦ none
    ]
    | _ ↦ none
  ]
  | _ ↦ none
]

abbrev pub has_purpose : Purpose → Claim → Bool
has_purpose purpose (text p) = p == purpose_number purpose
has_purpose purpose (number p) = false
has_purpose purpose missing = false

abbrev pub challenge_claims : Purpose → Claims → ChallengeAnswer
challenge_claims purpose c = elim c.sub [
  | text sub ↦ elim c.tv [
    | number tv ↦ elim c.jti [
      | text jti ↦ elim c.exp [
        | number exp ↦
            if has_purpose purpose c.pur
            then accepted (record { sub = sub; tv = tv; pur = purpose; jti = jti; exp = exp })
            else invalid
        | _ ↦ invalid
      ]
      | _ ↦ invalid
    ]
    | _ ↦ invalid
  ]
  | _ ↦ invalid
]

abbrev pub access_answer : Outcome → Option VerifiedAccessToken
access_answer (verified (as_object c)) = access_claims c
access_answer (verified as_text) = none
access_answer token_expired = none
access_answer refused = none

abbrev pub challenge_answer : Purpose → Outcome → ChallengeAnswer
challenge_answer purpose (verified (as_object c)) = challenge_claims purpose c
challenge_answer purpose (verified as_text) = invalid
challenge_answer purpose token_expired = expired
challenge_answer purpose refused = invalid

module _ (env : Env) where
  unfoldable pub sign_access_token : (now sub tv : ℕ) → env.jwt.Token
  sign_access_token now sub tv =
      env.jwt.sign jwt_audience (seconds now) (env.access_token_ttl_minutes * 60)
        (record { sub = text sub; tv = number tv; pur = missing; jti = missing; exp = missing })

  unfoldable pub verify_access_token : ℕ → env.jwt.Token → Option VerifiedAccessToken
  verify_access_token now t = access_answer (env.jwt.verify jwt_audience (seconds now) t)

  -- The token and when it expires; `jti` is the id that is drawn.
  unfoldable pub sign_two_factor_challenge : (now jti sub tv : ℕ) → Purpose → env.jwt.Token × ℕ
  sign_two_factor_challenge now jti sub tv purpose =
      let ttl_seconds = env.two_factor_challenge_ttl_minutes * 60 in
      (
        env.jwt.sign jwt_challenge_audience (seconds now) ttl_seconds (record {
          sub = text sub;
          tv = number tv;
          pur = text (purpose_number purpose);
          jti = text jti;
          exp = missing;
        }),
        now + ttl_seconds * 1000,
      )

  unfoldable pub verify_two_factor_challenge : ℕ → env.jwt.Token → Purpose → ChallengeAnswer
  verify_two_factor_challenge now t purpose =
      challenge_answer purpose (env.jwt.verify jwt_challenge_audience (seconds now) t)
