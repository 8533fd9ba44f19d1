-- ===== src/Bitmap/Update.antt =====
-- `set` and `clear` change one member and keep the invariant in every tier.
use low_latency_pipeline.Prelude.{
  ℕ, ◌/◌, ◌%◌, ◌<◌, ◌≡◌, ◌≢◌, inl, inr, ap, true, not, ◌&&◌, ◌||◌, arith, ◌==◌, Bool-cases, update,
}
use low_latency_pipeline.Bits.{u64_mod, testbit, testbit-zero}
use low_latency_pipeline.Bitmap.{OccupancyBitmap, leaf, interior, set, clear, set_bit, clear_bit}
use low_latency_pipeline.Bitmap.Member.{member, IsValid}
use low_latency_pipeline.Bitmap.Words.{
  testbit-set_bit, testbit-clear_bit, set_bit-lt, clear_bit-lt, clear_bit_zero,
}

-- `set` makes its index a member and changes no other.
pub member-set :
    (nbits : ℕ) (b : OccupancyBitmap) (i j : ℕ)
    → IsValid nbits b
    → i < nbits
    → member (set b i) j ≡ (member b j || (j == i))
unfolding set
member-set nbits (leaf word) i j v h = testbit-set_bit word i j (omega (arith, v.2))
member-set nbits (interior nwords words summary) i j v h =
    ground (arith, testbit-set_bit (words (i / 64)) (i % 64) (j % 64))

-- `clear` takes its index out and changes no other.
pub member-clear :
    (nbits : ℕ) (b : OccupancyBitmap) (i j : ℕ)
    → IsValid nbits b
    → i < nbits
    → member (clear b i) j ≡ (member b j && not (j == i))
unfolding clear
member-clear nbits (leaf word) i j v h = testbit-clear_bit word i j v.0 (omega (arith, v.2))
member-clear nbits (interior nwords words summary) i j v h =
    ground (arith, testbit-clear_bit (words (i / 64)) (i % 64) (j % 64) (v.0 (i / 64)))

set_bit-ne_zero : (w i : ℕ) → i < 64 → set_bit w i ≢ 0
set_bit-ne_zero w i h e =
    let bit : testbit (set_bit w i) i ≡ true = ground (arith, testbit-set_bit w i i h) in
    cc (bit, ap (λ x. testbit x i) e, testbit-zero i)

-- `set` of an index within the bitmap keeps the tree valid.
pub set-IsValid :
    (nbits : ℕ) (b : OccupancyBitmap) (i : ℕ)
    → IsValid nbits b
    → i < nbits
    → IsValid nbits (set b i)
unfolding set
set-IsValid nbits (leaf word) i v h = (
  set_bit-lt word i v.0 (omega (arith, v.2)),
  λ j e. ground (arith, testbit-set_bit word i j (omega (arith, v.2)), v.1 j),
  v.2,
)
set-IsValid nbits (interior nwords words summary) i v h =
    let w = i / 64 in
    let below : w < nwords = omega (arith, v.2) in
    let fresh_word = set_bit (words w) (i % 64) in
    let nz = set_bit-ne_zero (words w) (i % 64) (omega arith) in
    (
      λ k. ground (arith, set_bit-lt (words w) (i % 64) (v.0 w) (omega arith), v.0 k),
      λ j e. ground (arith, testbit-set_bit (words w) (i % 64) (j % 64), v.1 j),
      v.2,
      λ k. ground (arith, member-set nwords summary w k v.4 below, v.3 k, nz),
      set-IsValid nwords summary w v.4 below,
    )

-- `clear` of an index within the bitmap keeps the tree valid: a summary bit goes exactly when its
-- word drains.
pub clear-IsValid :
    (nbits : ℕ) (b : OccupancyBitmap) (i : ℕ)
    → IsValid nbits b
    → i < nbits
    → IsValid nbits (clear b i)
unfolding clear
clear-IsValid nbits (leaf word) i v h = (
  clear_bit-lt word i v.0,
  λ j e. ground (arith, testbit-clear_bit word i j v.0 (omega (arith, v.2)), v.1 j),
  v.2,
)
clear-IsValid nbits (interior nwords words summary) i v h =
    let w = i / 64 in
    let below : w < nwords = omega (arith, v.2) in
    let drained = clear_bit (words w) (i % 64) in
    let rest = member-clear nwords summary w in
    let bound : (k : ℕ) → update words w drained k < u64_mod =
      λ k. ground (arith, clear_bit-lt (words w) (i % 64) (v.0 w), v.0 k) in
    let support : (j : ℕ) → testbit (update words w drained (j / 64)) (j % 64) ≡ true → j < nbits =
      λ j e. ground (arith, testbit-clear_bit (words w) (i % 64) (j % 64) (v.0 w), v.1 j) in
    elim (Bool-cases (drained == 0)) [
      | inl gone ↦ rw gone (
        bound,
        support,
        v.2,
        λ k. ground (arith, rest k v.4 below, v.3 k),
        clear-IsValid nwords summary w v.4 below,
      )
      | inr left ↦
          rw left (
            bound,
            support,
            v.2,
            λ k. ground (arith, v.3 k, clear_bit_zero (words w) (i % 64)),
            v.4,
          )
    ]
