-- ===== src/Tokens/Library.antt =====
-- A library of tokens that keeps the laws: a token is what was signed.
use time_flow_be.Prelude.{
  ℕ, ◌+◌, ◌<◌, ◌≡◌, refl, sym, ap, ◌∙◌, false, ◌==◌, leb, if◌then◌else◌, arith, Bool-cases, inl,
  inr,
}
use time_flow_be.Tokens.{Jwt, Claims, Outcome, verified, token_expired, refused, as_object, number}

pub record Signed : Type 0 where
  pub audience : ℕ
  pub ends : ℕ
  pub claims : Claims

abbrev pub checked : ℕ → ℕ → Signed → Outcome
checked wanted clock t =
    if leb t.ends clock
    then token_expired
    else if t.audience == wanted
    then verified (as_object (record t.claims { exp = number t.ends }))
    else refused

stamped : Signed → Claims
stamped t = record t.claims { exp = number t.ends }

checked_ok :
    (wanted clock : ℕ) (t : Signed) (c : Claims)
    → checked wanted clock t ≡ verified (as_object c)
    → (leb t.ends clock ≡ false) × (stamped t ≡ c)
unfolding stamped
checked_ok wanted clock t c e = elim (Bool-cases (leb t.ends clock)) [
  | inl over ↦ let gone : checked wanted clock t ≡ token_expired = rw over refl in absurd (cc)
  | inr early ↦ elim (Bool-cases (t.audience == wanted)) [
    | inr other ↦
        let turned_down : checked wanted clock t ≡ refused = rw (early, other) refl in absurd (cc)
    | inl same ↦
        let found : checked wanted clock t ≡ verified (as_object (stamped t)) =
          rw (early, same) refl in
        (early, cc)
  ]
]

pub checked_time :
    (wanted clock e : ℕ) (t : Signed) (c : Claims)
    → checked wanted clock t ≡ verified (as_object c)
    → c.exp ≡ number e
    → clock < e
unfolding stamped
checked_time wanted clock e t c found at =
    let (early, c_eq) = checked_ok wanted clock t c found in
    let stamp : number t.ends ≡ number e = ap (λ x. x.exp) c_eq ∙ at in
    let ends : t.ends ≡ e = cc in ground (arith, early, ends)

pub checked_same :
    (wanted clock later : ℕ) (t : Signed) (c d : Claims)
    → checked wanted clock t ≡ verified (as_object c)
    → checked wanted later t ≡ verified (as_object d)
    → c ≡ d
checked_same wanted clock later t c d first second =
    sym (checked_ok wanted clock t c first).1 ∙ (checked_ok wanted later t d second).1

pub signed_after :
    (audience wanted issued_at expires_in clock : ℕ) (c : Claims)
    → checked wanted clock
        (record { audience = audience; ends = issued_at + expires_in; claims = c })
      ≡ (if leb (issued_at + expires_in) clock
          then token_expired
          else if audience == wanted
          then verified (as_object (record c { exp = number (issued_at + expires_in) }))
          else refused)
signed_after audience wanted issued_at expires_in clock c = refl

unfoldable pub library : Jwt
library = record {
  Token = Signed;
  sign = λ audience issued_at expires_in c. record {
    audience = audience;
    ends = issued_at + expires_in;
    claims = c;
  };
  verify = checked;
  verify-sign = signed_after;
  verify-clock = checked_time;
  verify-same = checked_same;
}
