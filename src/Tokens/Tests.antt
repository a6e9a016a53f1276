-- ===== src/Tokens/Tests.antt =====
-- Tokens at concrete times, and the theorem at a token.
use time_flow_be.Prelude.{◌≡◌, refl, none, some}
use time_flow_be.Tokens.{
  Env, verify, setup, accepted, expired, invalid, sign_access_token, verify_access_token,
  sign_two_factor_challenge, verify_two_factor_challenge,
}
use time_flow_be.Tokens.RoundTrip.{sign-verify}
use time_flow_be.Tokens.Library.{library}

abbrev env : Env
env = record { jwt = library; access_token_ttl_minutes = 15; two_factor_challenge_ttl_minutes = 5 }

tokens : Unit {0}
unfolding library sign_access_token verify_access_token sign_two_factor_challenge
    verify_two_factor_challenge
tokens = tt

setup_is_no_verify :
    verify_two_factor_challenge env 61000 (sign_two_factor_challenge env 60000 9 7 0 setup).0 verify
    ≡ invalid
unfolding tokens
setup_is_no_verify = refl

too_late :
    verify_two_factor_challenge env 360000
      (sign_two_factor_challenge env 60000 9 7 0 verify).0
      verify
    ≡ expired
unfolding tokens
too_late = refl

sign-verify_example :
    (verify_two_factor_challenge env 61000 (sign_two_factor_challenge env 60000 9 7 0 setup).0 setup
      ≡ accepted (record { sub = 7; tv = 0; pur = setup; jti = 9; exp = 360 }))
    × (verify_access_token env 61000 (sign_two_factor_challenge env 60000 9 7 0 setup).0 ≡ none)
    × (verify_access_token env 61000 (sign_access_token env 60000 7 0)
        ≡ some (record { sub = 7; tv = 0; exp = 960 }))
    × (verify_two_factor_challenge env 61000 (sign_access_token env 60000 7 0) setup ≡ invalid)
sign-verify_example = sign-verify env 60000 61000 9 7 0 setup setup
