-- ===== src/Totp/Digits.antt =====
-- The six digits that `generateTotp` prints.
use time_flow_be.Prelude.{
  ℕ, zero, suc, ◌+◌, ◌-◌, ◌*◌, ◌/◌, ◌%◌, ◌^◌, ◌≤◌, ◌<◌, ◌≡◌, refl, ◌∙◌, List, [], ◌∷◌, ◌++◌, Bool,
  true, ◌&&◌, leb, length, length-append, all, arith,
}
use time_flow_be.Totp.{to_digits, pad_start, print_code, is_six_digits}

-- The number that a decimal text stands for.
number_from : ℕ → List ℕ → ℕ
number_from acc [] = acc
number_from acc (c ∷ cs) = number_from (acc * 10 + (c - b'0')) cs

abbrev pub number_of : List ℕ → ℕ
unfolding number_from
number_of cs = number_from 0 cs

number_from-snoc :
    (acc c : ℕ) (cs : List ℕ)
    → number_from acc (cs ++ c ∷ []) ≡ number_from acc cs * 10 + (c - b'0')
unfolding number_from
number_from-snoc acc c [] = refl
number_from-snoc acc c (d ∷ cs) = number_from-snoc (acc * 10 + (d - b'0')) c cs

number_of-to_digits : (fuel n : ℕ) → n < fuel → number_from 0 (to_digits fuel n) ≡ n
unfolding to_digits number_from
number_of-to_digits zero n h = absurd (omega arith)
number_of-to_digits (suc fuel) n h = ground (
  arith,
  number_from-snoc 0 (b'0' + n % 10) (to_digits fuel (n / 10)),
  number_of-to_digits fuel (n / 10),
)

number_of-pad_start : (k : ℕ) (cs : List ℕ) → number_from 0 (pad_start k cs) ≡ number_from 0 cs
unfolding pad_start number_from
number_of-pad_start zero cs = refl
number_of-pad_start (suc k) cs = number_of-pad_start k cs

-- 10, 100, 1000, …
abbrev tens : ℕ → ℕ
tens zero = 10
tens (suc k) = tens k * 10

length-to_digits : (k fuel n : ℕ) → n < tens k → length (to_digits fuel n) ≤ suc k
unfolding to_digits
length-to_digits k zero n h = omega arith
length-to_digits zero (suc fuel) n h = ground arith
length-to_digits (suc k) (suc fuel) n h = ground (
  arith,
  length-append (to_digits fuel (n / 10)) ((b'0' + n % 10) ∷ []),
  length-to_digits k fuel (n / 10) (omega arith),
)

all_digits : List ℕ → Bool
all_digits cs = all (λ c. leb b'0' c && leb c b'9') cs

all-append :
    (p : ℕ → Bool) (xs ys : List ℕ) → all p xs ≡ true → all p ys ≡ true → all p (xs ++ ys) ≡ true
all-append p [] ys h k = k
all-append p (x ∷ xs) ys h k = ground (arith, all-append p xs ys)

to_digits-all_digits : (fuel n : ℕ) → all_digits (to_digits fuel n) ≡ true
unfolding to_digits all_digits
to_digits-all_digits zero n = refl
to_digits-all_digits (suc fuel) n = ground (
  arith,
  all-append (λ c. leb b'0' c && leb c b'9') (to_digits fuel (n / 10)) ((b'0' + n % 10) ∷ []),
  to_digits-all_digits fuel (n / 10),
)

pad_start-all_digits :
    (k : ℕ) (cs : List ℕ) → all_digits cs ≡ true → all_digits (pad_start k cs) ≡ true
unfolding pad_start all_digits
pad_start-all_digits zero cs h = h
pad_start-all_digits (suc k) cs h = pad_start-all_digits k cs h

length-pad_start : (k : ℕ) (cs : List ℕ) → length (pad_start k cs) ≡ k + length cs
unfolding pad_start
length-pad_start zero cs = omega arith
length-pad_start (suc k) cs = omega (arith, length-pad_start k cs)

padded_lem :
    (text : List ℕ)
    → all_digits text ≡ true
    → length text ≤ 6
    → is_six_digits (pad_start (6 - length text) text) ≡ true
unfolding is_six_digits all_digits
padded_lem text h k =
    ground (
      arith,
      length-pad_start (6 - length text) text,
      pad_start-all_digits (6 - length text) text h,
    )

pub print_code-IsSixDigits : (n : ℕ) → n < 10 ^ 6 → is_six_digits (print_code n) ≡ true
unfolding print_code
print_code-IsSixDigits n h =
    padded_lem (to_digits (suc n) n) (to_digits-all_digits (suc n) n)
      (length-to_digits 5 (suc n) n h)

pub number_of-print_code : (n : ℕ) → number_of (print_code n) ≡ n
unfolding print_code number_from
number_of-print_code n =
    number_of-pad_start (6 - length (to_digits (suc n) n)) (to_digits (suc n) n)
    ∙ number_of-to_digits (suc n) n (omega arith)
