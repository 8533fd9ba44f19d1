-- ===== src/Bitmap/Words.antt =====
-- One word of a bitmap: its bits under each masked operation, and an index as word and bit.
use low_latency_pipeline.Prelude.{
  ℕ, zero, suc, ◌+◌, ◌*◌, ◌/◌, ◌%◌, ◌^◌, ◌<◌, ◌≤◌, ◌≡◌, inl, inr, ap, ◌∙◌, false, not, ◌&&◌, ◌||◌,
  arith, ◌==◌, leb, Bool-cases, ℕ_discrete,
}
use Prim.Native.Nat.{bit_and-bitwise}
use native.Mathlib.Nat.{pow-suc}
use low_latency_pipeline.Bits.{
  u64_mod, shl, testbit, testbit-zero, testbit-or, testbit-and, testbit-shl-one,
  testbit-complement-shl-one, testbit-low_mask, testbit-shl-ones,
}
use low_latency_pipeline.Bits.Digits.{or-low, or-lt, and-lt}
use low_latency_pipeline.Bits.Scan.{ctz, ctz_lem}
use low_latency_pipeline.Bitmap.{set_bit, clear_bit, from_bit, upto_bit, join}

pub testbit-set_bit : (w i j : ℕ) → i < 64 → testbit (set_bit w i) j ≡ testbit w j || (j == i)
unfolding set_bit
testbit-set_bit w i j h = testbit-or w _ j ∙ ap (λ b. testbit w j || b) (testbit-shl-one i j h)

-- A word of 64 bits has no bit from 64 on.
pub testbit_high : (n w j : ℕ) → w < 2 ^ n → n ≤ j → testbit w j ≡ false
unfolding testbit
testbit_high zero w j h le = let e : w ≡ 0 = omega arith in rw e (testbit-zero j)
testbit_high (suc n) w zero h le = absurd (omega arith)
testbit_high (suc n) w (suc j) h le =
    testbit_high n (w / 2) j (omega (arith, pow-suc 2 n)) (omega arith)

pub testbit-clear_bit :
    (w i j : ℕ) → w < u64_mod → i < 64 → testbit (clear_bit w i) j ≡ testbit w j && not (j == i)
unfolding clear_bit
testbit-clear_bit w i j small h =
    testbit-and w _ j
    ∙ ap (λ b. testbit w j && b) (testbit-complement-shl-one i j h)
    ∙ ground (arith, testbit_high 64 w j small)

pub testbit-from_bit :
    (w i j : ℕ) → w < u64_mod → i < 64 → testbit (from_bit w i) j ≡ testbit w j && leb i j
unfolding from_bit
testbit-from_bit w i j small h =
    testbit-and w _ j
    ∙ ap (λ b. testbit w j && b) (testbit-shl-ones i j h)
    ∙ ground (arith, testbit_high 64 w j small)

pub testbit-upto_bit : (w i j : ℕ) → w < u64_mod → testbit (upto_bit w i) j ≡ testbit w j && leb j i
unfolding upto_bit
testbit-upto_bit w i j small = elim (Bool-cases (leb 63 i)) [
  | inl high ↦ rw high (ground (arith, testbit_high 64 w j small))
  | inr low ↦ rw low (
      testbit-and w _ j
      ∙ ap (λ b. testbit w j && b) (testbit-low_mask (i + 1) j (ground arith))
      ∙ ground arith)
]

pub set_bit-lt : (w i : ℕ) → w < u64_mod → i < 64 → set_bit w i < u64_mod
unfolding set_bit shl
set_bit-lt w i h k = or-lt 64 w (shl 1 i) h (omega arith)

pub clear_bit-lt : (w i : ℕ) → w < u64_mod → clear_bit w i < u64_mod
unfolding clear_bit
clear_bit-lt w i h = and-lt 64 w _ h

pub clear_bit_zero : (w i : ℕ) → w ≡ 0 → clear_bit w i ≡ 0
unfolding clear_bit
clear_bit_zero w i e = rw e (bit_and-bitwise 0 _)

pub from_bit-lt : (w i : ℕ) → w < u64_mod → from_bit w i < u64_mod
unfolding from_bit
from_bit-lt w i h = and-lt 64 w _ h

pub upto_bit-lt : (w i : ℕ) → w < u64_mod → upto_bit w i < u64_mod
unfolding upto_bit
upto_bit-lt w i h = elim (Bool-cases (leb 63 i)) [
  | inl high ↦ rw high h
  | inr low ↦ rw low (and-lt 64 w _ h)
]

pub join_lem : (w b : ℕ) → w < 2 ^ 26 → b < 64 → join w b ≡ w * 64 + b
unfolding join
join_lem w b h k = let e : (w * 64) % 2 ^ 32 ≡ w * 64 = omega arith in rw e (or-low 6 w b k)

-- A word without bits is 0.
pub zero_of_no_bits : (w : ℕ) → w < u64_mod → ((j : ℕ) → testbit w j ≡ false) → w ≡ 0
zero_of_no_bits w h none_set = elim (ℕ_discrete w 0) [
  | yes e ↦ e
  | no nz ↦ cc ((ctz_lem w h nz).1, none_set (ctz w))
]
