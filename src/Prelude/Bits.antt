-- ===== src/Prelude/Bits.antt =====
-- Shifts, masks and disjoint `|` on 32-bit patterns as arithmetic, and checks by table.
use Prim.Native.Nat.{
  ℕ, zero, suc, ◌+◌, ◌*◌, ◌/◌, ◌%◌, ◌≤◌, ◌<◌, min, max, bit_and, bit_or, digits, bit_and-bitwise,
  bit_or-bitwise,
}
use mathlib.Core.Path.{◌≡◌, refl, ap}
use mathlib.Core.Bool.{Bool, true, ◌&&◌}
use native.Mathlib.Omega.{arith}
use time_flow_be.Prelude.Tests.{◌==◌}

pub every_below : ℕ → (ℕ → Bool) → Bool
every_below zero p = true
every_below (suc n) p = p n && every_below n p

pub every_below→eq :
    (n : ℕ) (f g : ℕ → ℕ) (x : ℕ) → every_below n (λ i. f i == g i) ≡ true → x < n → f x ≡ g x
unfolding every_below
every_below→eq zero f g x h lt = absurd (omega arith)
every_below→eq (suc n) f g x h lt = ground (arith, every_below→eq n f g x)

-- The digit recursion that the native operations stand for, one digit at a time.
module _ (rest : ℕ → ℕ) (op : ℕ → ℕ → ℕ) where
  digits-enough : (n m a b : ℕ) → a ≤ n → a ≤ m → digits rest op n a b ≡ digits rest op m a b
  digits-enough zero zero a b p q = refl
  digits-enough zero (suc m) zero b p q = refl
  digits-enough zero (suc m) (suc a) b p q = absurd (omega arith)
  digits-enough (suc n) zero zero b p q = refl
  digits-enough (suc n) zero (suc a) b p q = absurd (omega arith)
  digits-enough (suc n) (suc m) zero b p q = refl
  digits-enough (suc n) (suc m) (suc a) b p q =
      omega (arith, digits-enough n m (suc a / 2) (b / 2) (omega arith) (omega arith))

or_low : (b : ℕ) → bit_or 0 b ≡ b
or_low b = bit_or-bitwise 0 b

or_step : (a b : ℕ) → bit_or a b ≡ bit_or (a / 2) (b / 2) * 2 + max (a % 2) (b % 2)
or_step zero b = omega (arith, or_low b, or_low (b / 2))
or_step (suc a) b = omega (
  arith,
  bit_or-bitwise (suc a) b,
  bit_or-bitwise (suc a / 2) (b / 2),
  digits-enough (λ x. x) max a (suc a / 2) (suc a / 2) (b / 2) (omega arith) (omega arith),
)

or_zero_upto : (n a : ℕ) → a ≤ n → bit_or a 0 ≡ a
or_zero_upto n zero h = or_low 0
or_zero_upto zero (suc a) h = absurd (omega arith)
or_zero_upto (suc n) (suc a) h =
    omega (arith, or_step (suc a) 0, or_zero_upto n (suc a / 2) (omega arith))

-- `k` doublings; at a numeral `k` it computes to a product.
abbrev doubled : ℕ → ℕ → ℕ
doubled zero x = x
doubled (suc k) x = doubled k x * 2

or_doubled : (x b : ℕ) → bit_or (x * 2) b ≡ bit_or x (b / 2) * 2 + b % 2
or_doubled x b = omega (
  arith,
  or_step (x * 2) b,
  ap (λ t. bit_or t (b / 2)) (let e : x * 2 / 2 ≡ x = omega arith in e),
)

or-doubled : (k x b : ℕ) → b < doubled k 1 → bit_or (doubled k x) b ≡ doubled k x + b
or-doubled zero x b h =
    omega (arith, or_zero_upto x x (omega arith), ap (bit_or x) (let e : b ≡ 0 = omega arith in e))
or-doubled (suc k) x b h =
    omega (arith, or_doubled (doubled k x) b, or-doubled k x (b / 2) (omega arith))

-- `(x << 5) | b` and `(x << 8) | b`: the low digits of the left side are free.
pub or_shifted_5 : (x b : ℕ) → b < 32 → bit_or (x * 32) b ≡ x * 32 + b
or_shifted_5 x b h = omega (
  arith,
  or-doubled 5 x b (omega arith),
  ap (λ t. bit_or t b) (let e : x * 32 ≡ doubled 5 x = omega arith in e),
)

pub or_shifted_8 : (x b : ℕ) → b < 256 → bit_or (x * 256) b ≡ x * 256 + b
or_shifted_8 x b h = omega (
  arith,
  or-doubled 8 x b (omega arith),
  ap (λ t. bit_or t b) (let e : x * 256 ≡ doubled 8 x = omega arith in e),
)

-- `&` of two numbers, one digit at a time.
and_step : (a b : ℕ) → bit_and a b ≡ bit_and (a / 2) (b / 2) * 2 + min (a % 2) (b % 2)
and_step zero b = omega (arith, bit_and-bitwise 0 b, bit_and-bitwise 0 (b / 2))
and_step (suc a) b = omega (
  arith,
  bit_and-bitwise (suc a) b,
  bit_and-bitwise (suc a / 2) (b / 2),
  digits-enough (λ _. 0) min a (suc a / 2) (suc a / 2) (b / 2) (omega arith) (omega arith),
)

and_zero_upto : (n a : ℕ) → a ≤ n → bit_and a 0 ≡ 0
and_zero_upto n zero h = refl
and_zero_upto zero (suc a) h = absurd (omega arith)
and_zero_upto (suc n) (suc a) h =
    omega (arith, and_step (suc a) 0, and_zero_upto n (suc a / 2) (omega arith))

and_1 : (a : ℕ) → bit_and a 1 ≡ a % 2
and_1 a = omega (arith, and_step a 1, and_zero_upto (a / 2) (a / 2) (omega arith))

and_7 : (a : ℕ) → bit_and a 7 ≡ a % 8
and_7 a = omega (arith, and_step a 7, and_step (a / 2) 3, and_1 (a / 2 / 2))

-- The masks of the source: `& 0x0f`, `& 31` and `& 255`.
pub and_15 : (a : ℕ) → bit_and a 15 ≡ a % 16
and_15 a = omega (arith, and_step a 15, and_7 (a / 2))

pub and_31 : (a : ℕ) → bit_and a 31 ≡ a % 32
and_31 a = omega (arith, and_step a 31, and_15 (a / 2))

pub and_255 : (a : ℕ) → bit_and a 255 ≡ a % 256
and_255 a =
    omega
      (arith, and_step a 255, and_step (a / 2) 127, and_step (a / 2 / 2) 63, and_31 (a / 2 / 2 / 2))
