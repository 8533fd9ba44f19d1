-- ===== src/Exec/Orders/Table.antt =====
-- src/exec/order_table.hpp: the table is a finite map from identifiers to rows; find looks
-- up.
use Prim.Native.Nat.{◌∣◌}
use low_latency_pipeline.Prelude.{
  ℕ, zero, suc, ◌^◌, ◌≤◌, ◌<◌, ◌≡◌, ◌⊎◌, inl, inr, refl, ap, sym, ◌∙◌, subst, arith, Option, none,
  some, ◌==◌, if◌then◌else◌,
}
use low_latency_pipeline.OrderMap.{OrderEntry, Slots, freed}
use low_latency_pipeline.OrderMap
use low_latency_pipeline.OrderMap.Invariant.{HoldsAt, HasRoom}
use low_latency_pipeline.OrderMap.Laws.{Models, find-Models}
use low_latency_pipeline.Book.Room.{free_or_full}
use low_latency_pipeline.Exec.Orders.{OrderRow, OrderTable, slot_of, find}
use low_latency_pipeline.Exec.Orders.Tally.{IsTallied}
use low_latency_pipeline.Exec.Orders.Index.{row_at, embed, slot_of_from-find}
use low_latency_pipeline.Exec.Orders.Mapped.{IsMapped}

-- Distinct numbers below `m` are no more than `m`.
distinct-le :
    (n m : ℕ) (g : ℕ → ℕ)
    → ((p : ℕ) → p < n → g p < m)
    → ((p q : ℕ) → p < n → q < n → g p ≡ g q → p ≡ q)
    → n ≤ m
distinct-le zero m g bound distinct = omega arith
distinct-le (suc n) zero g bound distinct = absurd (omega (arith, bound n (omega arith)))
distinct-le (suc n) (suc m) g bound distinct =
    let g' : ℕ → ℕ = λ p. if g p == m then g n else g p in
    let bound' : (p : ℕ) → p < n → g' p < m = λ p lt. ground (
      arith,
      bound p (omega arith),
      bound n (omega arith),
      distinct p n (omega arith) (omega arith),
    ) in
    let distinct' : (p q : ℕ) → p < n → q < n → g' p ≡ g' q → p ≡ q = λ p q p_lt q_lt e. ground (
      arith,
      e,
      distinct p q (omega arith) (omega arith),
      distinct p n (omega arith) (omega arith),
      distinct q n (omega arith) (omega arith),
    ) in
    omega (arith, distinct-le n m g' bound' distinct')

module _ (c max_rows : ℕ) (hash : ℕ → ℕ) where
  -- The table holds the rows that `orders` gives, and no others; the index finds them, and the open
  -- lots and the live counts are theirs.
  pub record Represents (t : OrderTable) (orders : ℕ → Option OrderRow) : Type 0 where
    pub places : ℕ → Option OrderEntry
    pub table : Models c hash (embed t.index) places
    pub mapped : IsMapped places t.rows t.size orders
    pub few : t.size ≤ max_rows
    pub tallied : IsTallied t

  module _ (roomy : max_rows < c) {t : OrderTable} {orders : ℕ → Option OrderRow}
      (r : Represents t orders) where
    price_of : ℕ → ℕ
    price_of p = (t.index p).pos

    -- Fewer rows than slots leave a slot free.
    pub room : HasRoom c hash (embed t.index)
    unfolding price_of
    room = elim (free_or_full (embed t.index) c) [
      | inl is_free ↦ is_free
      | inr occupied ↦
          let at : (p : ℕ)
              → p < c
              → (price_of p < t.size) × ((t.rows (price_of p)).id ≡ (t.index p).key) =
            λ p lt.
              let (i, i_lt, e, same) =
                r.mapped.backward (t.index p).key (row_at (t.index p).pos)
                  (r.table.sound p lt (occupied p lt)) in
              let price : (t.index p).pos ≡ i = ap (λ x. x.price) e in
              (omega arith, ap (λ k. (t.rows k).id) price ∙ same) in
          let le =
            distinct-le c t.size price_of (λ p lt. (at p lt).0)
              (λ p q p_lt q_lt e.
                r.table.probed.unique p q p_lt q_lt (occupied p p_lt) (occupied q q_lt)
                  (sym (at p p_lt).1 ∙ ap (λ k. (t.rows k).id) e ∙ (at q q_lt).1)) in
          absurd (omega (arith, le, r.few))
    ]

    module _ (divides : c ∣ 2 ^ 32) (hash_lt : (k : ℕ) → hash k < 2 ^ 32) (id : ℕ) where
      pub positive : 0 < c
      positive = omega (arith, roomy)

      slot_of-find : slot_of c max_rows hash t.index id ≡ OrderMap.find c hash (embed t.index) id
      unfolding slot_of OrderMap.find
      slot_of-find = slot_of_from-find c max_rows hash c t.index (hash id) id

      -- What the index says of an identifier.
      pub located :
          ((p : ℕ) × (slot_of c max_rows hash t.index id ≡ some (some p))
            × HoldsAt c hash (embed t.index) id p
            × (r.places id ≡ some (row_at (t.index p).pos))
            × ((t.index p).pos < t.size)
            × ((t.rows (t.index p).pos).id ≡ id))
          ⊎ ((slot_of c max_rows hash t.index id ≡ some none) × (r.places id ≡ none))
      located =
          elim (find-Models c hash divides hash_lt positive (embed t.index) r.places id r.table
            room) [
              | inl (p, run, held, has) ↦
                  let (i, lt, e, same) = r.mapped.backward id (row_at (t.index p).pos) has in
                  let place : (t.index p).pos ≡ i = ap (λ x. x.price) e in
                  inl (
                    p,
                    slot_of-find ∙ run,
                    held,
                    has,
                    omega (arith, place, lt),
                    ap (λ k. (t.rows k).id) place ∙ same,
                  )
              | inr (run, absent) ↦ inr (slot_of-find ∙ run, absent)
            ]

      find-found :
          (p : ℕ)
          → slot_of c max_rows hash t.index id ≡ some (some p)
          → find c max_rows hash t id ≡ some (some (t.index p).pos)
      unfolding find
      find-found p h = rw h refl

      find-missing :
          slot_of c max_rows hash t.index id ≡ some none → find c max_rows hash t id ≡ some none
      unfolding find
      find-missing h = rw h refl

      -- A table of fewer rows than index slots, their number a power of two up to 2 ^ 32, that
      -- stands for a map from identifiers to rows, with the open lots and live counts of those rows:
      -- find ends for any identifier, with the row that the map has, or with the null pointer if it
      -- has none.
      pub find-Represents :
          ((i : ℕ) × (find c max_rows hash t id ≡ some (some i))
            × (i < t.size)
            × (orders id ≡ some (t.rows i)))
          ⊎ ((find c max_rows hash t id ≡ some none) × (orders id ≡ none))
      find-Represents = elim located [
        | inl (p, run, held, has, lt, same) ↦
            let i = (t.index p).pos in
            inl (
              i,
              find-found p run,
              lt,
              subst (λ k. orders k ≡ some (t.rows i)) same (r.mapped.hit i lt),
            )
        | inr (run, absent) ↦ inr (find-missing run, r.mapped.miss id absent)
      ]
