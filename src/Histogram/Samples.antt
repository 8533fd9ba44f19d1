-- ===== src/Histogram/Samples.antt =====
-- The histogram of a list of samples.
use low_latency_pipeline.Prelude.{
  ℕ, suc, ◌+◌, ◌^◌, ◌<◌, ◌≤◌, ◌≡◌, ◌≢◌, Bool-cases, inl, inr, ltb, ◌==◌, if◌then◌else◌, List, [],
  ◌∷◌, length, arith,
}
use low_latency_pipeline.Bits.{u64_mod}
use low_latency_pipeline.Bits.Scan.{clz_range, clz_lem}
use low_latency_pipeline.Histogram.{Histogram, bucket_of, record_cycles}

-- How many samples are in a bucket, and what the largest is.
abbrev pub in_bucket : ℕ → List ℕ → ℕ
in_bucket b [] = 0
in_bucket b (x ∷ xs) = let n = in_bucket b xs in if bucket_of x == b then n + 1 else n

abbrev pub largest : List ℕ → ℕ
largest [] = 0
largest (x ∷ xs) = let m = largest xs in if ltb m x then x else m

abbrev pub AllSmall : List ℕ → Type 0
AllSmall [] = Unit {0}
AllSmall (x ∷ xs) = (x < u64_mod) × AllSmall xs

-- Fewer than 2 ^ 64 samples, each of 64 bits, in the histogram.
pub record Samples (h : Histogram) (xs : List ℕ) : Type 0 where
  pub few : length xs < u64_mod
  pub small : AllSmall xs
  pub bucketed : (b : ℕ) → h.buckets b ≡ in_bucket b xs
  pub counted : h.count ≡ length xs
  pub maximum : h.max_cycles ≡ largest xs

pub in_bucket-le : (b : ℕ) (xs : List ℕ) → in_bucket b xs ≤ length xs
in_bucket-le b [] = omega arith
in_bucket-le b (x ∷ xs) = ground (arith, in_bucket-le b xs)

-- One of the 64 buckets, whose bounds the sample lies between; 0 is in the first.
pub bucket_of_range :
    (x : ℕ)
    → x < u64_mod
    → (bucket_of x < 64) × (x < 2 ^ suc (bucket_of x)) × (x ≢ 0 → 2 ^ bucket_of x ≤ x)
unfolding bucket_of
bucket_of_range x lt = elim (Bool-cases (x == 0)) [
  | inl z ↦ rw z (omega arith, ground arith, λ n. absurd (ground arith))
  | inr n ↦
      let nz : x ≢ 0 = ground arith in
      rw n ((clz_lem x lt nz).0, (clz_range x lt nz).1, λ m. (clz_range x lt nz).0)
]

-- `record` adds a sample: to its bucket, to the count and to the maximum.
pub record_cycles-Samples :
    (h : Histogram) (xs : List ℕ) (x : ℕ)
    → Samples h xs
    → x < u64_mod
    → length xs + 1 < u64_mod
    → Samples (record_cycles h x) (x ∷ xs)
unfolding record_cycles
record_cycles-Samples h xs x s lt room = record {
  few = omega arith;
  small = (lt, s.small);
  bucketed = λ b. ground (arith, s.bucketed b, in_bucket-le b xs);
  counted = omega (arith, s.counted);
  maximum = ground (arith, s.maximum);
}
