-- ===== src/Histogram/Percentile.antt =====
-- What the percentile of a histogram says of its samples.
use native.Mathlib.Nat.{pow-suc, pow-le-pow_right}
use low_latency_pipeline.Prelude.{
  ℕ, zero, suc, ◌+◌, ◌-◌, ◌/◌, ◌%◌, ◌^◌, ◌<◌, ◌≤◌, ◌≡◌, refl, false, Bool-cases, inl, inr, ltb, leb,
  ◌==◌, if◌then◌else◌, List, [], ◌∷◌, length, arith, dec_lt, ℕ_discrete, ap, ◌∙◌, ◌*◌, subst,
}
use low_latency_pipeline.Bits.{u64_mod, shl, shl-one}
use low_latency_pipeline.Histogram.{Histogram, bucket_of, percentile_from, percentile_cycles}
use low_latency_pipeline.Histogram.Samples.{in_bucket, AllSmall, Samples, bucket_of_range}

-- How many samples are at most `r`, are less than `r`, and are in a bucket before `b`.
abbrev pub at_most : ℕ → List ℕ → ℕ
at_most r [] = 0
at_most r (x ∷ xs) = let n = at_most r xs in if leb x r then n + 1 else n

abbrev pub below : ℕ → List ℕ → ℕ
below r [] = 0
below r (x ∷ xs) = let n = below r xs in if ltb x r then n + 1 else n

abbrev before : ℕ → List ℕ → ℕ
before b [] = 0
before b (x ∷ xs) = let n = before b xs in if ltb (bucket_of x) b then n + 1 else n

before-zero : (xs : List ℕ) → before 0 xs ≡ 0
before-zero [] = refl
before-zero (x ∷ xs) = ground (arith, before-zero xs)

before_suc : (b : ℕ) (xs : List ℕ) → before (b + 1) xs ≡ before b xs + in_bucket b xs
before_suc b [] = refl
before_suc b (x ∷ xs) = ground (arith, before_suc b xs)

before-le : (b : ℕ) (xs : List ℕ) → before b xs ≤ length xs
before-le b [] = omega arith
before-le b (x ∷ xs) = ground (arith, before-le b xs)

before_all : (xs : List ℕ) → AllSmall xs → before 64 xs ≡ length xs
before_all [] small = refl
before_all (x ∷ xs) small = ground (arith, before_all xs small.1, (bucket_of_range x small.0).0)

-- A sample in a bucket up to `b` is less than the bucket's upper bound, and one below the bucket's
-- lower bound is in a bucket before.
bucket-upper : (x b : ℕ) → x < u64_mod → bucket_of x < b + 1 → x < 2 ^ (b + 1)
bucket-upper x b lt h =
    let grows : 2 ^ suc (bucket_of x) ≤ 2 ^ (b + 1) =
      pow-le-pow_right {n = 2} (omega arith) (omega arith) in
    omega (arith, (bucket_of_range x lt).1, grows)

bucket_of-zero : bucket_of 0 ≡ 0
unfolding bucket_of
bucket_of-zero = refl

bucket-lower : (x b : ℕ) → x < u64_mod → 0 < b → x < 2 ^ b → bucket_of x < b
bucket-lower x b lt pos h = elim (ℕ_discrete x 0) [
  | yes z ↦ let first : bucket_of x ≡ 0 = ap bucket_of z ∙ bucket_of-zero in omega arith
  | no n ↦ elim (dec_lt (bucket_of x) b) [
    | yes less ↦ less
    | no more ↦
        let grows : 2 ^ b ≤ 2 ^ bucket_of x =
          pow-le-pow_right {n = 2} (omega arith) (omega arith) in
        absurd (omega (arith, (bucket_of_range x lt).2 n, grows))
  ]
]

before-at_most :
    (b r : ℕ) (xs : List ℕ)
    → AllSmall xs
    → ((x : ℕ) → x < u64_mod → bucket_of x < b + 1 → x ≤ r)
    → before (b + 1) xs ≤ at_most r xs
before-at_most b r [] small bound = omega arith
before-at_most b r (x ∷ xs) small bound =
    ground (arith, before-at_most b r xs small.1 bound, bound x small.0)

below-before :
    (b r : ℕ) (xs : List ℕ)
    → AllSmall xs
    → ((x : ℕ) → x < u64_mod → x < r → bucket_of x < b)
    → below r xs ≤ before b xs
below-before b r [] small bound = omega arith
below-before b r (x ∷ xs) small bound =
    ground (arith, below-before b r xs small.1 bound, bound x small.0)

-- The bound at which the loop stops in bucket `b`.
abbrev bound_of : ℕ → ℕ
bound_of b = if ltb b 63 then shl 1 (b + 1) else u64_mod - 1

-- More than `threshold` samples are at most `r`, and, unless it is the bound of the first bucket,
-- no more than `threshold` are below half of it.
abbrev pub IsPercentile : (threshold : ℕ) → List ℕ → (r : ℕ) → Type 0
IsPercentile threshold xs r = (threshold < at_most r xs) × ((2 < r) → below (r / 2) xs ≤ threshold)

not_first : (b : ℕ) → 2 < 2 ^ (b + 1) → 0 < b
not_first b h = elim (ℕ_discrete b 0) [
  | yes z ↦ let two : 2 ^ (b + 1) ≡ 2 = ap (λ x. 2 ^ (x + 1)) z in absurd (omega arith)
  | no n ↦ omega arith
]

stops :
    (b threshold : ℕ) (xs : List ℕ)
    → AllSmall xs
    → b < 64
    → before b xs ≤ threshold
    → threshold < before (b + 1) xs
    → IsPercentile threshold xs (bound_of b)
stops b threshold xs small lt low high = elim (Bool-cases (ltb b 63)) [
  | inl inner ↦
      let fits : b + 1 < 64 = ground arith in
      let same : b + 1 ≡ suc b = omega arith in
      let step : 2 ^ suc b ≡ 2 ^ b * 2 = omega (arith, pow-suc 2 b) in
      let twice : 2 ^ (b + 1) ≡ 2 ^ b * 2 = ap (λ x. 2 ^ x) same ∙ step in
      let half : 2 ^ (b + 1) / 2 ≡ 2 ^ b = omega arith in
      rw (inner, shl-one (b + 1) fits)
        (
          omega (
            arith,
            before-at_most b (2 ^ (b + 1)) xs small
                (λ x x_lt in_b. omega (arith, bucket-upper x b x_lt in_b)),
          ),
          λ more. rw half (
              omega (
                arith,
                below-before b (2 ^ b) xs small
                    (λ x x_lt under. bucket-lower x b x_lt (not_first b more) under),
              )),
        )
  | inr last ↦
      let e : b ≡ 63 = ground arith in
      rw last (
        omega (arith, before-at_most b (u64_mod - 1) xs small (λ x x_lt in_b. omega arith)),
        λ more. omega (
          arith,
          below-before b ((u64_mod - 1) / 2) xs small
              (λ x x_lt under. bucket-lower x b x_lt (omega arith) (rw e (omega arith))),
        ),
      )
]

module _ (h : Histogram) (xs : List ℕ) (s : Samples h xs) (threshold : ℕ)
    (enough : threshold < length xs) where
  loop :
      (left b : ℕ)
      → left + b ≡ 64
      → before b xs ≤ threshold
      → IsPercentile threshold xs (percentile_from left b (before b xs) threshold h)
  unfolding percentile_from
  loop zero b e low =
      let last : b ≡ 64 = omega arith in
      absurd (omega (arith, before_all xs s.small, ap (λ x. before x xs) last))
  loop (suc left) b e low =
      let more : (before b xs + h.buckets b) % u64_mod ≡ before (b + 1) xs =
        omega (arith, s.bucketed b, before_suc b xs, before-le (b + 1) xs, s.few) in
      rw more (elim (Bool-cases (ltb threshold (before (b + 1) xs))) [
        | inl found ↦ rw found (stops b threshold xs s.small (omega arith) low (ground arith))
        | inr on ↦ rw on (loop left (b + 1) (omega arith) (ground arith))
      ])

  -- Of a histogram of fewer than 2 ^ 64 samples, `percentile_cycles` with a threshold below their
  -- number gives a bound that more than that many samples do not exceed, and no more than that many
  -- samples are below half of it, unless it is the bound 2 of the first bucket.
  pub percentile_cycles-IsPercentile : IsPercentile threshold xs (percentile_cycles h threshold)
  unfolding percentile_cycles
  percentile_cycles-IsPercentile =
      let some_there : (h.count == 0) ≡ false = ground (arith, s.counted) in
      let start = loop 64 0 refl (omega (arith, before-zero xs)) in
      rw some_there (
        subst (λ c. IsPercentile threshold xs (percentile_from 64 0 c threshold h)) (before-zero xs)
          start)
