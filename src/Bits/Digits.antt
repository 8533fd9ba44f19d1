-- ===== src/Bits/Digits.antt =====
-- One digit of `bit_or` and `bit_and`, from the recursion on digits that both stand for.
use Prim.Native.Nat.{bit_and, bit_or, bit_and-bitwise, bit_or-bitwise, digits}
use native.Mathlib.Nat.{pow-suc}
use low_latency_pipeline.Prelude.{
  ℕ, zero, suc, ◌+◌, ◌*◌, ◌/◌, ◌%◌, ◌≤◌, ◌≡◌, refl, arith, min, max, ap, ◌<◌, ◌^◌,
}

-- The count of digits to go may be any that is large enough.
digits_enough :
    (z : ℕ → ℕ) (f : ℕ → ℕ → ℕ) (n m a b : ℕ) → a ≤ n → a ≤ m → digits z f n a b ≡ digits z f m a b
digits_enough z f zero zero a b p q = refl
digits_enough z f zero (suc m) zero b p q = refl
digits_enough z f zero (suc m) (suc a) b p q = absurd (omega arith)
digits_enough z f (suc n) zero zero b p q = refl
digits_enough z f (suc n) zero (suc a) b p q = absurd (omega arith)
digits_enough z f (suc n) (suc m) zero b p q = refl
digits_enough z f (suc n) (suc m) (suc a) b p q =
    omega (arith, digits_enough z f n m (suc a / 2) (b / 2) (omega arith) (omega arith))

pub bit_or_step : (a b : ℕ) → bit_or a b ≡ bit_or (a / 2) (b / 2) * 2 + max (a % 2) (b % 2)
bit_or_step zero b = omega (arith, bit_or-bitwise 0 b, bit_or-bitwise 0 (b / 2))
bit_or_step (suc a) b = omega (
  arith,
  bit_or-bitwise (suc a) b,
  bit_or-bitwise (suc a / 2) (b / 2),
  digits_enough (λ d. d) max a (suc a / 2) (suc a / 2) (b / 2) (omega arith) (omega arith),
)

pub bit_and_step : (a b : ℕ) → bit_and a b ≡ bit_and (a / 2) (b / 2) * 2 + min (a % 2) (b % 2)
bit_and_step zero b = omega (arith, bit_and-bitwise 0 b, bit_and-bitwise 0 (b / 2))
bit_and_step (suc a) b = omega (
  arith,
  bit_and-bitwise (suc a) b,
  bit_and-bitwise (suc a / 2) (b / 2),
  digits_enough (λ d. zero) min a (suc a / 2) (suc a / 2) (b / 2) (omega arith) (omega arith),
)

or-zero_upto : (n a : ℕ) → a ≤ n → bit_or a 0 ≡ a
or-zero_upto n zero h = refl
or-zero_upto zero (suc a) h = absurd (omega arith)
or-zero_upto (suc n) (suc a) h =
    omega (arith, bit_or_step (suc a) 0, or-zero_upto n (suc a / 2) (omega arith))

-- With the low `k` bits of the first number clear, `|` adds a number of `k` bits.
pub or-low : (k w b : ℕ) → b < 2 ^ k → bit_or (w * 2 ^ k) b ≡ w * 2 ^ k + b
or-low zero w b h =
    let eb : b ≡ 0 = omega arith in
    let ew : w * 2 ^ 0 ≡ w = omega arith in
    rw (eb, ew) (omega (arith, or-zero_upto w w (omega arith)))
or-low (suc k) w b h =
    let double : w * 2 ^ suc k ≡ 2 * (w * 2 ^ k) =
      omega (arith, ap (λ (t : ℕ). w * t) (pow-suc 2 k)) in
    let half : w * 2 ^ suc k / 2 ≡ w * 2 ^ k = omega (arith, double) in
    let rest : bit_or (w * 2 ^ suc k / 2) (b / 2) ≡ w * 2 ^ k + b / 2 =
      rw half (or-low k w (b / 2) (omega (arith, pow-suc 2 k))) in
    omega (arith, bit_or_step (w * 2 ^ suc k) b, double, rest)

pub or-lt : (n a b : ℕ) → a < 2 ^ n → b < 2 ^ n → bit_or a b < 2 ^ n
or-lt zero a b h k =
    let ea : a ≡ 0 = omega arith in let eb : b ≡ 0 = omega arith in rw (ea, eb) (omega arith)
or-lt (suc n) a b h k = omega (
  arith,
  bit_or_step a b,
  pow-suc 2 n,
  or-lt n (a / 2) (b / 2) (omega (arith, pow-suc 2 n)) (omega (arith, pow-suc 2 n)),
)

pub and-lt : (n a b : ℕ) → a < 2 ^ n → bit_and a b < 2 ^ n
and-lt zero a b h = let ea : a ≡ 0 = omega arith in rw ea (omega (arith, bit_and-bitwise 0 b))
and-lt (suc n) a b h =
    omega
      (arith, bit_and_step a b, pow-suc 2 n, and-lt n (a / 2) (b / 2) (omega (arith, pow-suc 2 n)))
