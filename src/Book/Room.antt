-- ===== src/Book/Room.antt =====
-- A table with fewer orders than slots has a free slot.
use low_latency_pipeline.Prelude.{
  ℕ, zero, suc, ◌<◌, ◌≤◌, ◌≡◌, ◌≢◌, ◌⊎◌, inl, inr, sym, ◌∙◌, true, false, Bool-cases, some, arith,
  length, extend_below,
}
use low_latency_pipeline.OrderMap.{OrderEntry, Slots}
use low_latency_pipeline.OrderMap.Invariant.{HasRoom}
use low_latency_pipeline.OrderMap.Laws.{Models}
use low_latency_pipeline.Book.Resting.{
  Resting, lookup, IsUnique, remove, lookup-remove, remove-IsUnique, length-remove,
}

pub free_or_full :
    (slots : Slots) (n : ℕ)
    → ((p : ℕ) × (p < n) × ((slots p).occupied ≡ false))
      ⊎ ((p : ℕ) → p < n → (slots p).occupied ≡ true)
free_or_full slots zero = inr (λ p lt. ground arith)
free_or_full slots (suc n) = elim (free_or_full slots n) [
  | inl (p, lt, is_free) ↦ inl (p, omega arith, is_free)
  | inr full ↦ elim (Bool-cases (slots n).occupied) [
    | inl occ ↦
        inr (λ p lt. extend_below (λ x. (slots x).occupied ≡ true) n full occ p (omega arith))
    | inr is_free ↦ inl (n, omega arith, is_free)
  ]
]

-- Distinct references that all rest are no more than the resting orders.
distinct-le :
    (n : ℕ) (keys : ℕ → ℕ) (q : Resting)
    → IsUnique q
    → ((p : ℕ) → p < n → (e : OrderEntry) × (lookup q (keys p) ≡ some e))
    → ((p r : ℕ) → p < n → r < n → keys p ≡ keys r → p ≡ r)
    → n ≤ length q
distinct-le zero keys q u has distinct = omega arith
distinct-le (suc n) keys q u has distinct =
    let (e, at_n) = has n (omega arith) in
    let left = remove (keys n) q in
    let fewer = length-remove (keys n) e q at_n in
    let still : (p : ℕ) → p < n → (d : OrderEntry) × (lookup left (keys p) ≡ some d) = λ p lt.
      let (d, at_p) = has p (omega arith) in
      let other : keys n ≢ keys p =
        λ same. omega (arith, distinct n p (omega arith) (omega arith) same) in
      (d, sym (lookup-remove (keys n) (keys p) q u) ∙ ground (arith, other)) in
    omega (
      arith,
      fewer,
      distinct-le n keys left (remove-IsUnique (keys n) q u) still
          (λ p r p_lt r_lt. distinct p r (omega arith) (omega arith)),
    )

-- The table of fewer resting orders than slots has a free slot.
pub room :
    (c : ℕ) (hash : ℕ → ℕ) (slots : Slots) (q : Resting)
    → Models c hash slots (lookup q)
    → IsUnique q
    → length q < c
    → HasRoom c hash slots
room c hash slots q m u few = elim (free_or_full slots c) [
  | inl free ↦ free
  | inr full ↦
      let le : c ≤ length q =
        distinct-le c (λ p. (slots p).key) q u (λ p lt. ((slots p).entry, m.sound p lt (full p lt)))
          (λ p r p_lt r_lt. m.probed.unique p r p_lt r_lt (full p p_lt) (full r r_lt)) in
      ground arith
]
