-- ===== src/Bitmap/Member.antt =====
-- The set that a bitmap stands for, and the invariant of the tree.
use native.Mathlib.Nat.{pow-suc}
use low_latency_pipeline.Prelude.{
  ℕ, ◌+◌, ◌/◌, ◌%◌, ◌^◌, ◌<◌, ◌≤◌, ◌≡◌, refl, Bool, true, false, not, arith, ◌==◌, leb, zero, suc,
  Bool-cases, inl, inr,
}
use low_latency_pipeline.Bits.{u64_mod, testbit, testbit-zero}
use low_latency_pipeline.Bitmap.{OccupancyBitmap, leaf, interior, fresh, reset}

-- Whether bit `i` is set. The summary plays no part.
abbrev pub member : OccupancyBitmap → ℕ → Bool
member (leaf word) i = testbit word i
member (interior nwords words summary) i = testbit (words (i / 64)) (i % 64)

-- Words are of 64 bits, set bits are below `nbits`, and a summary bit is set exactly if its word
-- is not 0, in every tier.
abbrev pub IsValid : ℕ → OccupancyBitmap → Type 0
IsValid nbits (leaf word) =
    (word < u64_mod) × ((j : ℕ) → testbit word j ≡ true → j < nbits) × (nbits ≤ 64)
IsValid nbits (interior nwords words summary) =
    ((k : ℕ) → words k < u64_mod)
    × ((j : ℕ) → testbit (words (j / 64)) (j % 64) ≡ true → j < nbits)
    × (nwords ≡ (nbits + 63) / 64)
    × ((k : ℕ) → member summary k ≡ not (words k == 0))
    × IsValid nwords summary

pub member-lt :
    (nbits : ℕ) (b : OccupancyBitmap) → IsValid nbits b → (j : ℕ) → member b j ≡ true → j < nbits
member-lt nbits (leaf word) v = v.1
member-lt nbits (interior nwords words summary) v = v.1

pub member-reset : (b : OccupancyBitmap) (j : ℕ) → member (reset b) j ≡ false
unfolding reset
member-reset (leaf word) j = testbit-zero j
member-reset (interior nwords words summary) j = testbit-zero (j % 64)

pub member-fresh : (tiers nbits j : ℕ) → member (fresh tiers nbits) j ≡ false
unfolding fresh
member-fresh zero nbits j = testbit-zero j
member-fresh (suc tiers) nbits j = elim (Bool-cases (leb nbits 64)) [
  | inl few ↦ rw few (testbit-zero j)
  | inr many ↦ rw many (testbit-zero (j % 64))
]

pub reset-IsValid : (nbits : ℕ) (b : OccupancyBitmap) → IsValid nbits b → IsValid nbits (reset b)
unfolding reset
reset-IsValid nbits (leaf word) v = (omega arith, λ j h. ground (arith, testbit-zero j), v.2)
reset-IsValid nbits (interior nwords words summary) v = (
  λ k. omega arith,
  λ j h. ground (arith, testbit-zero (j % 64)),
  v.2,
  λ k. member-reset summary k,
  reset-IsValid nwords summary v.4,
)

-- A bitmap of `nbits` bits has enough tiers if each takes a factor of 64.
pub fresh-IsValid : (tiers nbits : ℕ) → nbits ≤ 64 ^ suc tiers → IsValid nbits (fresh tiers nbits)
unfolding fresh
fresh-IsValid zero nbits h = (omega arith, λ j e. ground (arith, testbit-zero j), omega arith)
fresh-IsValid (suc tiers) nbits h = elim (Bool-cases (leb nbits 64)) [
  | inl few ↦ rw few (omega arith, λ j e. ground (arith, testbit-zero j), ground arith)
  | inr many ↦ rw many (
    λ k. omega arith,
    λ j e. ground (arith, testbit-zero (j % 64)),
    refl,
    λ k. member-fresh tiers _ k,
    fresh-IsValid tiers ((nbits + 63) / 64) (omega (arith, pow-suc 64 (suc tiers))),
  )
]
