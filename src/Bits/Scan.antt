-- ===== src/Bits/Scan.antt =====
-- `__builtin_ctzll` and `__builtin_clzll` at a word that is not 0 (at 0 they are undefined, and
-- the callers test for it).
use native.Mathlib.Nat.{pow-suc}
use low_latency_pipeline.Prelude.{
  ℕ, zero, suc, ◌-◌, ◌/◌, ◌%◌, ◌^◌, ◌<◌, ◌≤◌, ◌≡◌, ◌≢◌, inl, inr, true, false, arith, ◌==◌,
  if◌then◌else◌, Bool-cases,
}
use low_latency_pipeline.Bits.{testbit, testbit-zero}

-- The position of the lowest bit set, with `n` bits left to look at.
count_zeros : ℕ → ℕ → ℕ
count_zeros zero w = 0
count_zeros (suc n) w = if w % 2 == 1 then 0 else suc (count_zeros n (w / 2))

-- The position of the highest bit set.
highest : ℕ → ℕ → ℕ
highest zero w = 0
highest (suc n) w = if w / 2 == 0 then 0 else suc (highest n (w / 2))

unfoldable pub ctz : ℕ → ℕ
unfolding count_zeros
ctz w = count_zeros 64 w

unfoldable pub clz : ℕ → ℕ
unfolding highest
clz w = 63 - highest 64 w

-- A bit of `w` above the lowest is a bit of `w / 2`.
below_suc :
    (w k : ℕ)
    → (w % 2 == 1) ≡ false
    → ((j : ℕ) → j < k → testbit (w / 2) j ≡ false)
    → (j : ℕ) → j < suc k
    → testbit w j ≡ false
unfolding testbit
below_suc w k even below zero lt = even
below_suc w k even below (suc j) lt = below j (omega arith)

above_suc :
    (w k : ℕ)
    → ((j : ℕ) → k < j → testbit (w / 2) j ≡ false)
    → (j : ℕ) → suc k < j
    → testbit w j ≡ false
unfolding testbit
above_suc w k above zero lt = absurd (omega arith)
above_suc w k above (suc j) lt = above j (omega arith)

above_one : (w : ℕ) → (w / 2 == 0) ≡ true → (j : ℕ) → 0 < j → testbit w j ≡ false
unfolding testbit
above_one w one zero lt = absurd (omega arith)
above_one w one (suc j) lt = let e : w / 2 ≡ 0 = ground arith in rw e (testbit-zero j)

count_zeros_lem :
    (n w : ℕ)
    → w < 2 ^ n
    → w ≢ 0
    → (count_zeros n w < n)
      × (testbit w (count_zeros n w) ≡ true)
      × ((j : ℕ) → j < count_zeros n w → testbit w j ≡ false)
unfolding count_zeros testbit
count_zeros_lem zero w h nz = absurd (omega arith)
count_zeros_lem (suc n) w h nz = elim (Bool-cases (w % 2 == 1)) [
  | inl odd ↦ rw (odd, count_zeros) (omega arith, odd, λ j lt. absurd (omega arith))
  | inr even ↦
      let (small, here, below) =
        count_zeros_lem n (w / 2) (omega (arith, pow-suc 2 n)) (ground arith) in
      rw (even, count_zeros) (omega arith, here, λ j lt. below_suc w _ even below j lt)
]

highest_lem :
    (n w : ℕ)
    → w < 2 ^ n
    → w ≢ 0
    → (highest n w < n)
      × (testbit w (highest n w) ≡ true)
      × ((j : ℕ) → highest n w < j → testbit w j ≡ false)
unfolding highest testbit
highest_lem zero w h nz = absurd (omega arith)
highest_lem (suc n) w h nz = elim (Bool-cases (w / 2 == 0)) [
  | inl one ↦ rw (one, highest) (omega arith, ground arith, λ j lt. above_one w one j lt)
  | inr more ↦
      let (small, here, above) =
        highest_lem n (w / 2) (omega (arith, pow-suc 2 n)) (ground arith) in
      rw (more, highest) (omega arith, here, λ j lt. above_suc w _ above j lt)
]

highest_range : (n w : ℕ) → w < 2 ^ n → w ≢ 0 → (2 ^ highest n w ≤ w) × (w < 2 ^ suc (highest n w))
unfolding highest
highest_range zero w h nz = absurd (omega arith)
highest_range (suc n) w h nz = elim (Bool-cases (w / 2 == 0)) [
  | inl one ↦ rw (one, highest) (omega arith, ground arith)
  | inr more ↦
      let (low, high) = highest_range n (w / 2) (omega (arith, pow-suc 2 n)) (ground arith) in
      rw (more, highest)
        (
          omega (arith, low, pow-suc 2 (highest n (w / 2))),
          omega (arith, high, pow-suc 2 (suc (highest n (w / 2)))),
        )
]

module _ (w : ℕ) (h : w < 2 ^ 64) (nz : w ≢ 0) where
  pub ctz_lem :
      (ctz w < 64) × (testbit w (ctz w) ≡ true) × ((j : ℕ) → j < ctz w → testbit w j ≡ false)
  unfolding ctz
  ctz_lem = count_zeros_lem 64 w h nz

  -- As the callers use it, counted from the low end.
  pub clz_lem :
      (63 - clz w < 64)
      × (testbit w (63 - clz w) ≡ true)
      × ((j : ℕ) → 63 - clz w < j → testbit w j ≡ false)
  unfolding clz
  clz_lem =
      let (small, here, above) = highest_lem 64 w h nz in
      let twice : 63 - (63 - highest 64 w) ≡ highest 64 w = omega arith in
      rw twice (small, here, above)

  -- The place of the highest bit is the logarithm.
  pub clz_range : (2 ^ (63 - clz w) ≤ w) × (w < 2 ^ suc (63 - clz w))
  unfolding clz
  clz_range =
      let (small, here, above) = highest_lem 64 w h nz in
      let twice : 63 - (63 - highest 64 w) ≡ highest 64 w = omega arith in
      rw twice (highest_range 64 w h nz)
