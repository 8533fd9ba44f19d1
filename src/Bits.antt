-- ===== src/Bits.antt =====
-- 64-bit words as numbers, bit by bit: what `|`, `&`, `~`, `<<`, `__builtin_ctzll` and
-- `__builtin_clzll` do, at every position.
pub mod Digits
pub mod Scan
use Prim.Native.Nat.{bit_and, bit_or}
use native.Mathlib.Nat.{pow-suc, one-le-pow, pow-le-pow_right}
use low_latency_pipeline.Prelude.{
  ℕ, zero, suc, ◌+◌, ◌-◌, ◌*◌, ◌/◌, ◌%◌, ◌^◌, ◌≤◌, ◌<◌, ◌≡◌, refl, Bool, true, false, not, ◌&&◌,
  ◌||◌, arith, ltb, leb, ◌==◌, if◌then◌else◌, ap, ◌∙◌,
}
use low_latency_pipeline.Bits.Digits.{bit_or_step, bit_and_step}

-- Bit `i` of `w`.
unfoldable pub testbit : ℕ → ℕ → Bool
testbit w zero = w % 2 == 1
testbit w (suc i) = testbit (w / 2) i

pub testbit-zero : (i : ℕ) → testbit 0 i ≡ false
unfolding testbit
testbit-zero zero = refl
testbit-zero (suc i) = testbit-zero i

pub testbit-or : (a b i : ℕ) → testbit (bit_or a b) i ≡ testbit a i || testbit b i
unfolding testbit
testbit-or a b zero = ground (arith, bit_or_step a b)
testbit-or a b (suc i) =
    let half : bit_or a b / 2 ≡ bit_or (a / 2) (b / 2) = omega (arith, bit_or_step a b) in
    ap (λ w. testbit w i) half ∙ testbit-or (a / 2) (b / 2) i

pub testbit-and : (a b i : ℕ) → testbit (bit_and a b) i ≡ testbit a i && testbit b i
unfolding testbit
testbit-and a b zero = ground (arith, bit_and_step a b)
testbit-and a b (suc i) =
    let half : bit_and a b / 2 ≡ bit_and (a / 2) (b / 2) = omega (arith, bit_and_step a b) in
    ap (λ w. testbit w i) half ∙ testbit-and (a / 2) (b / 2) i

-- The complement within `n` bits.
pub testbit-complement :
    (n a i : ℕ) → a < 2 ^ n → testbit (2 ^ n - 1 - a) i ≡ ltb i n && not (testbit a i)
unfolding testbit
testbit-complement zero a i h =
    let e : 2 ^ zero - 1 - a ≡ 0 = omega arith in
    ap (λ w. testbit w i) e ∙ ground (arith, testbit-zero i)
testbit-complement (suc n) a zero h = ground (arith, pow-suc 2 n, one-le-pow n 2)
testbit-complement (suc n) a (suc i) h =
    let half : (2 ^ suc n - 1 - a) / 2 ≡ 2 ^ n - 1 - a / 2 = omega (arith, pow-suc 2 n) in
    ap (λ w. testbit w i) half
    ∙ ground (arith, testbit-complement n (a / 2) i (omega (arith, pow-suc 2 n)))

pub testbit-pow : (k i : ℕ) → testbit (2 ^ k) i ≡ (i == k)
unfolding testbit
testbit-pow zero zero = refl
testbit-pow zero (suc i) = testbit-zero i ∙ ground arith
testbit-pow (suc k) zero = ground (arith, pow-suc 2 k)
testbit-pow (suc k) (suc i) =
    let half : 2 ^ suc k / 2 ≡ 2 ^ k = omega (arith, pow-suc 2 k) in
    ap (λ w. testbit w i) half ∙ testbit-pow k i ∙ ground arith

-- Arithmetic on uint64_t.
abbrev pub u64_mod : ℕ
u64_mod = 2 ^ 64

-- `a << k` at `k < 64`.
unfoldable pub shl : ℕ → ℕ → ℕ
shl a k = (a * 2 ^ k) % u64_mod

-- `~a`.
unfoldable pub complement : ℕ → ℕ
complement a = u64_mod - 1 - a

pow-lt : (k : ℕ) → k < 64 → 2 ^ k < u64_mod
pow-lt k h = omega (arith, pow-suc 2 k, pow-le-pow_right {n = 2} (omega arith) h, one-le-pow k 2)

pub shl-one : (k : ℕ) → k < 64 → shl 1 k ≡ 2 ^ k
unfolding shl
shl-one k h = omega (arith, pow-lt k h)

-- `1 << k` has bit `k` alone.
pub testbit-shl-one : (k i : ℕ) → k < 64 → testbit (shl 1 k) i ≡ (i == k)
testbit-shl-one k i h = rw (shl-one k h) (testbit-pow k i)

pub testbit-complement-shl-one :
    (k i : ℕ) → k < 64 → testbit (complement (shl 1 k)) i ≡ ltb i 64 && not (i == k)
unfolding complement
testbit-complement-shl-one k i h =
    rw (shl-one k h)
      (testbit-complement 64 (2 ^ k) i (pow-lt k h) ∙ ap (λ b. ltb i 64 && not b) (testbit-pow k i))

-- `(1 << k) - 1` has the bits below `k`.
low_mask : (k i : ℕ) → testbit (2 ^ k - 1) i ≡ ltb i k
low_mask k i =
    let whole : 2 ^ k - 1 ≡ 2 ^ k - 1 - 0 = omega arith in
    ap (λ w. testbit w i) whole
    ∙ testbit-complement k 0 i (omega (arith, one-le-pow k 2))
    ∙ ground (arith, testbit-zero i)

pub testbit-low_mask : (k i : ℕ) → k < 64 → testbit (shl 1 k - 1) i ≡ ltb i k
testbit-low_mask k i h = rw (shl-one k h) (low_mask k i)

-- `~0 << k` has the bits from `k` on.
shl-ones : (k : ℕ) → k < 64 → shl (complement 0) k ≡ u64_mod - 1 - (2 ^ k - 1)
unfolding shl complement
shl-ones k h = let t = 2 ^ k in omega (arith, pow-lt k h, one-le-pow k 2)

pub testbit-shl-ones : (k i : ℕ) → k < 64 → testbit (shl (complement 0) k) i ≡ ltb i 64 && leb k i
testbit-shl-ones k i h =
    rw (shl-ones k h) (
      testbit-complement 64 (2 ^ k - 1) i (omega (arith, pow-lt k h))
      ∙ ground (arith, low_mask k i))
