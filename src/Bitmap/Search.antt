-- ===== src/Bitmap/Search.antt =====
-- `next_set` and `prev_set` find the nearest member, or none when there is none.
use low_latency_pipeline.Prelude.{
  ℕ, ◌+◌, ◌-◌, ◌*◌, ◌/◌, ◌%◌, ◌^◌, ◌<◌, ◌≤◌, ◌≡◌, ◌≢◌, ◌⊎◌, inl, inr, refl, ap, ◌∙◌, Bool, true,
  false, arith, ◌==◌, leb, if◌then◌else◌, Bool-cases, ℕ_discrete, dec_lt,
}
use low_latency_pipeline.Bits.{u64_mod, testbit, testbit-zero}
use low_latency_pipeline.Bits.Scan.{ctz, clz, ctz_lem, clz_lem}
use low_latency_pipeline.Bitmap.{
  OccupancyBitmap, leaf, interior, next_set, prev_set, from_bit, upto_bit, join, npos,
}
use low_latency_pipeline.Bitmap.Member.{member, IsValid, member-lt}
use low_latency_pipeline.Bitmap.Words.{
  testbit-from_bit, testbit-upto_bit, from_bit-lt, upto_bit-lt, join_lem, testbit_high,
}

-- `r` is the first index from `i` on that satisfies `p`, or `npos` if there is none.
abbrev pub First : (ℕ → Bool) → (i r : ℕ) → Type 0
First p i r =
    ((r ≡ npos) × ((j : ℕ) → i ≤ j → p j ≡ false))
    ⊎ ((i ≤ r) × (r < npos) × (p r ≡ true) × ((j : ℕ) → i ≤ j → j < r → p j ≡ false))

-- `r` is the last index up to `i` that satisfies `p`, or `npos` if there is none.
abbrev pub Last : (ℕ → Bool) → (i r : ℕ) → Type 0
Last p i r =
    ((r ≡ npos) × ((j : ℕ) → j ≤ i → p j ≡ false))
    ⊎ ((r ≤ i) × (r < npos) × (p r ≡ true) × ((j : ℕ) → r < j → j ≤ i → p j ≡ false))

-- The scan of one word.
abbrev Ahead : (w i : ℕ) → Type 0
Ahead w i =
    let m = from_bit w i in
    ((m ≡ 0) × ((j : ℕ) → i ≤ j → testbit w j ≡ false))
    ⊎ ((m ≢ 0)
        × (i ≤ ctz m)
        × (ctz m < 64)
        × (testbit w (ctz m) ≡ true)
        × ((j : ℕ) → i ≤ j → j < ctz m → testbit w j ≡ false))

ahead : (w i : ℕ) → w < u64_mod → i < 64 → Ahead w i
ahead w i small h =
    let m = from_bit w i in
    let bit = λ (j : ℕ). testbit-from_bit w i j small h in
    elim (ℕ_discrete m 0) [
      | yes e ↦ inl (e, λ j le. ground (arith, bit j, ap (λ x. testbit x j) e, testbit-zero j))
      | no nz ↦
          let (lt, here, below) = ctz_lem m (from_bit-lt w i small) nz in
          inr (
            nz,
            ground (arith, bit (ctz m)),
            lt,
            ground (arith, bit (ctz m)),
            λ j le k. ground (arith, bit j, below j k),
          )
    ]

abbrev Behind : (w i : ℕ) → Type 0
Behind w i =
    let m = upto_bit w i in
    ((m ≡ 0) × ((j : ℕ) → j ≤ i → testbit w j ≡ false))
    ⊎ ((m ≢ 0)
        × (63 - clz m ≤ i)
        × (63 - clz m < 64)
        × (testbit w (63 - clz m) ≡ true)
        × ((j : ℕ) → 63 - clz m < j → j ≤ i → testbit w j ≡ false))

behind : (w i : ℕ) → w < u64_mod → Behind w i
behind w i small =
    let m = upto_bit w i in
    let bit = λ (j : ℕ). testbit-upto_bit w i j small in
    elim (ℕ_discrete m 0) [
      | yes e ↦ inl (e, λ j le. ground (arith, bit j, ap (λ x. testbit x j) e, testbit-zero j))
      | no nz ↦
          let (lt, here, above) = clz_lem m (upto_bit-lt w i small) nz in
          inr (
            nz,
            ground (arith, bit (63 - clz m)),
            lt,
            ground (arith, bit (63 - clz m)),
            λ j k le. ground (arith, bit j, above j k),
          )
    ]

-- An interior node: its words, and what the summary says of them.
module _ (nbits nwords : ℕ) (words : ℕ → ℕ) (summary : OccupancyBitmap)
    (v : IsValid nbits (interior nwords words summary)) (fits : nbits + 63 < 2 ^ 32) where
  abbrev at : ℕ → Bool
  at = member (interior nwords words summary)

  small_word : (k : ℕ) → k < nwords → k < 2 ^ 26
  small_word k h = omega (arith, v.2)

  -- A word that the summary leaves out has no members.
  skipped : (j : ℕ) → member summary (j / 64) ≡ false → at j ≡ false
  skipped j e =
      let z : words (j / 64) ≡ 0 = ground (arith, v.3 (j / 64)) in
      ap (λ w. testbit w (j % 64)) z ∙ testbit-zero (j % 64)

  outside : (j : ℕ) → nwords ≤ j / 64 → at j ≡ false
  outside j h = elim (Bool-cases (at j)) [
    | inl in_set ↦ absurd (omega (arith, v.1 j in_set, v.2))
    | inr out ↦ out
  ]

  joined : (k b : ℕ) → k < nwords → b < 64 → testbit (words k) b ≡ true → at (join k b) ≡ true
  joined k b h lt e =
      let q : (k * 64 + b) / 64 ≡ k = omega arith in
      let r : (k * 64 + b) % 64 ≡ b = omega arith in rw (join_lem k b (small_word k h) lt, q, r) e

  -- The first member lies in the word `k`, at its lowest bit from `b` on.
  First-in :
      (i k c : ℕ)
      → k < nwords
      → c < 64
      → i ≤ k * 64 + c
      → testbit (words k) c ≡ true
      → ((j : ℕ) → i ≤ j → j / 64 < k → at j ≡ false)
      → ((j : ℕ) → i ≤ j → j / 64 ≡ k → j % 64 < c → at j ≡ false)
      → First at i (join k c)
  First-in i k c h lt le e before same =
      let eq = join_lem k c (small_word k h) lt in
      inr (
        omega (arith, eq),
        omega (arith, eq, small_word k h),
        joined k c h lt e,
        λ j p q. elim (dec_lt (j / 64) k) [
          | yes b ↦ before j p b
          | no b ↦ same j p (omega (arith, eq)) (omega (arith, eq))
        ],
      )

  Last-in :
      (i k c : ℕ)
      → k < nwords
      → c < 64
      → k * 64 + c ≤ i
      → testbit (words k) c ≡ true
      → ((j : ℕ) → j ≤ i → k < j / 64 → at j ≡ false)
      → ((j : ℕ) → j ≤ i → j / 64 ≡ k → c < j % 64 → at j ≡ false)
      → Last at i (join k c)
  Last-in i k c h lt le e after same =
      let eq = join_lem k c (small_word k h) lt in
      inr (
        omega (arith, eq),
        omega (arith, eq, small_word k h),
        joined k c h lt e,
        λ j p q. elim (dec_lt k (j / 64)) [
          | yes b ↦ after j q b
          | no b ↦ same j q (omega (arith, eq)) (omega (arith, eq))
        ],
      )

  -- Within the word of `i` the scan decides, beyond it the summary.
  in_word : (w j : ℕ) → j / 64 ≡ w → testbit (words w) (j % 64) ≡ false → at j ≡ false
  in_word w j e h = rw e h

  nonzero : (k : ℕ) → member summary k ≡ true → words k ≢ 0
  nonzero k h = ground (arith, v.3 k)

  next_word :
      (i k : ℕ)
      → ((j : ℕ) → i % 64 ≤ j → testbit (words (i / 64)) j ≡ false)
      → First (member summary) (i / 64 + 1) k
      → First at i (if k == npos then npos else join k (ctz (words k)))
  next_word i k empty (inl (e, free)) =
      let t : (k == npos) ≡ true = ground arith in
      rw t (
        inl (
          refl,
          λ j le. elim (dec_lt (i / 64) (j / 64)) [
            | yes b ↦ skipped j (free (j / 64) (omega arith))
            | no b ↦ in_word (i / 64) j (omega arith) (empty (j % 64) (omega arith))
          ],
        ))
  next_word i k empty (inr (ge, lt, here, free)) =
      let t : (k == npos) ≡ false = ground arith in
      let (c_lt, bit, below) = ctz_lem (words k) (v.0 k) (nonzero k here) in
      rw t (
        First-in i k (ctz (words k)) (member-lt nwords summary v.4 k here) c_lt (omega arith) bit
          (λ j le b. elim (dec_lt (i / 64) (j / 64)) [
            | yes q ↦ skipped j (free (j / 64) (omega arith) b)
            | no q ↦ in_word (i / 64) j (omega arith) (empty (j % 64) (omega arith))
          ])
          (λ j le e b. in_word k j e (below (j % 64) b)))

  prev_word :
      (i k : ℕ)
      → i / 64 ≢ 0
      → ((j : ℕ) → j ≤ i % 64 → testbit (words (i / 64)) j ≡ false)
      → Last (member summary) (i / 64 - 1) k
      → Last at i (if k == npos then npos else join k (63 - clz (words k)))
  prev_word i k nz empty (inl (e, free)) =
      let t : (k == npos) ≡ true = ground arith in
      rw t (
        inl (
          refl,
          λ j le. elim (dec_lt (j / 64) (i / 64)) [
            | yes b ↦ skipped j (free (j / 64) (omega arith))
            | no b ↦ in_word (i / 64) j (omega arith) (empty (j % 64) (omega arith))
          ],
        ))
  prev_word i k nz empty (inr (le, lt, here, free)) =
      let t : (k == npos) ≡ false = ground arith in
      let (c_lt, bit, above) = clz_lem (words k) (v.0 k) (nonzero k here) in
      rw t (
        Last-in i k (63 - clz (words k)) (member-lt nwords summary v.4 k here) c_lt (omega arith)
          bit
          (λ j le' b. elim (dec_lt (j / 64) (i / 64)) [
            | yes q ↦ skipped j (free (j / 64) b (omega arith))
            | no q ↦ in_word (i / 64) j (omega arith) (empty (j % 64) (omega arith))
          ])
          (λ j le' e b. in_word k j e (above (j % 64) b)))

  next_interior :
      (i k : ℕ)
      → First (member summary) (i / 64 + 1) k
      → First at i (
          if leb nwords (i / 64)
          then npos
          else if from_bit (words (i / 64)) (i % 64) == 0
          then (if k == npos then npos else join k (ctz (words k)))
          else join (i / 64) (ctz (from_bit (words (i / 64)) (i % 64))))
  next_interior i k rest = elim (Bool-cases (leb nwords (i / 64))) [
    | inl far ↦ rw far (inl (refl, λ j le. outside j (ground arith)))
    | inr near ↦ rw near (elim (ahead (words (i / 64)) (i % 64) (v.0 (i / 64)) (omega arith)) [
      | inl (e, free) ↦
          let t : (from_bit (words (i / 64)) (i % 64) == 0) ≡ true = ground arith in
          rw t (next_word i k free rest)
      | inr (nz, le, lt, here, free) ↦
          let t : (from_bit (words (i / 64)) (i % 64) == 0) ≡ false = ground arith in
          rw t (
            First-in i (i / 64) _ (ground arith) lt (omega arith) here
              (λ j p q. absurd (omega arith))
              (λ j p e q. in_word (i / 64) j e (free (j % 64) (omega arith) q)))
    ])
  ]

  prev_interior :
      (i k : ℕ)
      → i < nbits
      → (i / 64 ≢ 0 → Last (member summary) (i / 64 - 1) k)
      → Last at i (
          if upto_bit (words (i / 64)) (i % 64) == 0
          then (if i / 64 == 0
              then npos
              else if k == npos
              then npos
              else join k (63 - clz (words k)))
          else join (i / 64) (63 - clz (upto_bit (words (i / 64)) (i % 64))))
  prev_interior i k h rest = elim (behind (words (i / 64)) (i % 64) (v.0 (i / 64))) [
    | inl (e, free) ↦
        let t : (upto_bit (words (i / 64)) (i % 64) == 0) ≡ true = ground arith in
        rw t (elim (ℕ_discrete (i / 64) 0) [
          | yes z ↦
              let t' : (i / 64 == 0) ≡ true = ground arith in
              rw t'
                (inl (refl, λ j le. in_word (i / 64) j (omega arith) (free (j % 64) (omega arith))))
          | no z ↦
              let t' : (i / 64 == 0) ≡ false = ground arith in rw t' (prev_word i k z free (rest z))
        ])
    | inr (nz, le, lt, here, free) ↦
        let t : (upto_bit (words (i / 64)) (i % 64) == 0) ≡ false = ground arith in
        rw t (
          Last-in i (i / 64) _ (omega (arith, v.2)) lt (omega arith) here
            (λ j p q. absurd (omega arith))
            (λ j p e q. in_word (i / 64) j e (free (j % 64) q (omega arith))))
  ]

next_leaf : (word i : ℕ) → word < u64_mod → First (testbit word) i (next_set (leaf word) i)
unfolding next_set
next_leaf word i small = elim (Bool-cases (leb 64 i)) [
  | inl far ↦ rw far (inl (refl, λ j le. testbit_high 64 word j small (ground arith)))
  | inr near ↦ rw near (elim (ahead word i small (ground arith)) [
    | inl (e, free) ↦
        let t : (from_bit word i == 0) ≡ true = ground arith in rw t (inl (refl, free))
    | inr (nz, le, lt, here, free) ↦
        let t : (from_bit word i == 0) ≡ false = ground arith in
        rw t (inr (le, omega arith, here, free))
  ])
]

prev_leaf : (word i : ℕ) → word < u64_mod → Last (testbit word) i (prev_set (leaf word) i)
unfolding prev_set
prev_leaf word i small = elim (behind word i small) [
  | inl (e, free) ↦ let t : (upto_bit word i == 0) ≡ true = ground arith in rw t (inl (refl, free))
  | inr (nz, le, lt, here, free) ↦
      let t : (upto_bit word i == 0) ≡ false = ground arith in
      rw t (inr (le, omega arith, here, free))
]

-- On a valid bitmap `next_set` gives the first member from `i` on, or `npos` if there is none.
pub next_set-First :
    (nbits : ℕ) (b : OccupancyBitmap) (i : ℕ)
    → IsValid nbits b
    → nbits + 63 < 2 ^ 32
    → First (member b) i (next_set b i)
unfolding next_set
next_set-First nbits (leaf word) i v fits = next_leaf word i v.0
next_set-First nbits (interior nwords words summary) i v fits =
    next_interior nbits nwords words summary v fits i (next_set summary (i / 64 + 1))
      (next_set-First nwords summary (i / 64 + 1) v.4 (omega (arith, v.2)))

-- On a valid bitmap `prev_set` gives the last member up to `i`, or `npos` if there is none, for
-- an `i` within the bitmap.
pub prev_set-Last :
    (nbits : ℕ) (b : OccupancyBitmap) (i : ℕ)
    → IsValid nbits b
    → nbits + 63 < 2 ^ 32
    → i < nbits
    → Last (member b) i (prev_set b i)
unfolding prev_set
prev_set-Last nbits (leaf word) i v fits h = prev_leaf word i v.0
prev_set-Last nbits (interior nwords words summary) i v fits h =
    prev_interior nbits nwords words summary v fits i (prev_set summary (i / 64 - 1)) h
      (λ z. prev_set-Last nwords summary (i / 64 - 1) v.4 (omega (arith, v.2)) (omega (arith, v.2)))
