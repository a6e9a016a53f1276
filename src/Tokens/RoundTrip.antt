-- ===== src/Tokens/RoundTrip.antt =====
-- token.service.ts: what verifying makes of tokens that were signed, of either kind.
use time_flow_be.Prelude.{
  ℕ, ◌+◌, ◌*◌, ◌≡◌, refl, none, some, ◌==◌, leb, if◌then◌else◌, Bool-cases, inl, inr,
}
use time_flow_be.Tokens.{
  Env, jwt_audience, jwt_challenge_audience, text, number, missing, Purpose, purpose_number,
  seconds, accepted, expired, invalid, sign_access_token, verify_access_token,
  sign_two_factor_challenge, verify_two_factor_challenge,
}

module _ (env : Env) where
  abbrev pub challenge_ttl : ℕ
  challenge_ttl = env.two_factor_challenge_ttl_minutes * 60

  abbrev pub access_ttl : ℕ
  access_ttl = env.access_token_ttl_minutes * 60

  -- A challenge that was signed is accepted for its own purpose until it expires, with the claims that it was
  -- signed with, and for the other purpose it is refused. It never passes as an access token. An access token
  -- passes as such until it expires, and never as a challenge.
  pub sign-verify :
      (now at jti sub tv : ℕ) (purpose wanted : Purpose)
      → (verify_two_factor_challenge env at
            (sign_two_factor_challenge env now jti sub tv purpose).0
            wanted
          ≡ (if leb (seconds now + challenge_ttl) (seconds at)
              then expired
              else if purpose_number purpose == purpose_number wanted
              then accepted (record {
                sub = sub;
                tv = tv;
                pur = wanted;
                jti = jti;
                exp = seconds now + challenge_ttl;
              })
              else invalid))
        × (verify_access_token env at (sign_two_factor_challenge env now jti sub tv purpose).0
            ≡ none)
        × (verify_access_token env at (sign_access_token env now sub tv) ≡ (
            if leb (seconds now + access_ttl) (seconds at)
            then none
            else some (record { sub = sub; tv = tv; exp = seconds now + access_ttl })))
        × (verify_two_factor_challenge env at (sign_access_token env now sub tv) wanted
            ≡ (if leb (seconds now + access_ttl) (seconds at) then expired else invalid))
  unfolding sign_access_token verify_access_token sign_two_factor_challenge
      verify_two_factor_challenge
  sign-verify now at jti sub tv purpose wanted =
      let over = leb (seconds now + challenge_ttl) (seconds at) in
      let ended = leb (seconds now + access_ttl) (seconds at) in
      let challenged = λ (aud : ℕ).
        env.jwt.verify-sign jwt_challenge_audience aud (seconds now) challenge_ttl (seconds at)
          (record {
            sub = text sub;
            tv = number tv;
            pur = text (purpose_number purpose);
            jti = text jti;
            exp = missing;
          }) in
      let granted = λ (aud : ℕ).
        env.jwt.verify-sign jwt_audience aud (seconds now) access_ttl (seconds at) (record {
          sub = text sub;
          tv = number tv;
          pur = missing;
          jti = missing;
          exp = missing;
        }) in
      (
        rw (challenged jwt_challenge_audience)
            (elim (Bool-cases over) [ inl e ↦ rw e refl | inr e ↦ rw e refl ]),
        rw (challenged jwt_audience)
            (elim (Bool-cases over) [ inl e ↦ rw e refl | inr e ↦ rw e refl ]),
        rw (granted jwt_audience)
            (elim (Bool-cases ended) [ inl e ↦ rw e refl | inr e ↦ rw e refl ]),
        rw (granted jwt_challenge_audience)
            (elim (Bool-cases ended) [ inl e ↦ rw e refl | inr e ↦ rw e refl ]),
      )
