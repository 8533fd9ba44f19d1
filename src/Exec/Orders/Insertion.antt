-- ===== src/Exec/Orders/Insertion.antt =====
-- src/exec/order_table.hpp: insert adds a row to the map, or refuses it.
use Prim.Native.Nat.{◌∣◌}
use low_latency_pipeline.Prelude.{
  ℕ, ◌^◌, ◌<◌, ◌≡◌, ◌≢◌, ◌⊎◌, inl, inr, refl, ap, sym, ◌∙◌, subst, true, false, arith, Option, none,
  some, ◌||◌, ◌==◌, update, Bool-cases, ◌>>=◌,
}
use low_latency_pipeline.OrderMap.{OrderEntry, Slots, freed}
use low_latency_pipeline.OrderMap
use low_latency_pipeline.OrderMap.Laws.{Models, insert-Models}
use low_latency_pipeline.Exec.Orders.{
  OrderRow, OrderTable, IndexSlot, full, slot_of, place_from, insert, append_row,
}
use low_latency_pipeline.Exec.Orders.Tally.{IsTallied, append_row-IsTallied}
use low_latency_pipeline.Exec.Orders.Index.{row_at, embed, place_from-insert}
use low_latency_pipeline.Exec.Orders.Mapped.{append-IsMapped}
use low_latency_pipeline.Exec.Orders.Table.{Represents, room, positive, located}

module _ (c max_rows : ℕ) (hash : ℕ → ℕ) where
  module _ (roomy : max_rows < c) {t : OrderTable} {orders : ℕ → Option OrderRow}
      (r : Represents c max_rows hash t orders) where
    module _ (row : OrderRow) where
      insert_refused :
          full c max_rows hash t || (row.id == 0) ≡ true
          → insert c max_rows hash t row ≡ some (t, none)
      unfolding insert
      insert_refused h = rw h refl

      insert_present :
          (p : ℕ)
          → full c max_rows hash t || (row.id == 0) ≡ false
          → slot_of c max_rows hash t.index row.id ≡ some (some p)
          → insert c max_rows hash t row ≡ some (t, none)
      unfolding insert
      insert_present p h k = rw (h, k) refl

      abbrev appended : (ℕ → IndexSlot) → OrderTable
      appended index' = record (append_row t row) { index = index' }

      insert_placed :
          (index' : ℕ → IndexSlot)
          → full c max_rows hash t || (row.id == 0) ≡ false
          → slot_of c max_rows hash t.index row.id ≡ some none
          → place_from c max_rows hash c t.index
              (hash row.id)
              (record { key = row.id; pos = t.size })
            ≡ some index'
          → insert c max_rows hash t row ≡ some (appended index', some t.size)
      unfolding insert
      insert_placed index' h k l = rw (h, k, l) refl

      module _ (divides : c ∣ 2 ^ 32) (hash_lt : (k : ℕ) → hash k < 2 ^ 32)
          (small : max_rows < 2 ^ 32) where
        -- The index with the new identifier.
        placed :
            (row.id == 0) ≡ false
            → r.places row.id ≡ none
            → (index' : ℕ → IndexSlot) × (place_from c max_rows hash c t.index
                  (hash row.id)
                  (record { key = row.id; pos = t.size })
                ≡ some index')
              × Models c hash (embed index') (update r.places row.id (some (row_at t.size)))
        unfolding OrderMap.insert
        placed proper new =
            let (s, run, m) =
              insert-Models c hash divides hash_lt
                (positive c max_rows hash roomy r divides hash_lt row.id) (embed t.index) r.places
                row.id r.table (room c max_rows hash roomy r) (row_at t.size) new in
            let simulated =
              place_from-insert c max_rows hash c t.index (hash row.id) row.id t.size proper in
            ended
              (place_from c max_rows hash c t.index (hash row.id)
                (record { key = row.id; pos = t.size }))
              (sym simulated ∙ run) m
          where
            ended :
                {s : Slots} {f : ℕ → Option OrderEntry} (o : Option (ℕ → IndexSlot))
                → (o >>= λ next. some (embed next)) ≡ some s
                → Models c hash s f
                → (index' : ℕ → IndexSlot) × (o ≡ some index') × Models c hash (embed index') f
            ended none h m = absurd (ground (arith, h))
            ended {s = s} {f = f} (some index') h m = (
              index',
              refl,
              subst (λ x. Models c hash x f) (sym (ap (λ o. elim o [ none ↦ s | some x ↦ x ]) h)) m,
            )

        -- A table of fewer rows than index slots, their number a power of two up to 2 ^ 32, that
        -- stands for a map from identifiers to rows, with the open lots and live counts of those
        -- rows: insert of a row whose identifier is not 0 and not in the map, while there is a row
        -- left, ends with the row behind the last, and the table then stands for the map with it;
        -- any other insert ends with the null pointer and leaves the table as it is.
        pub insert-Represents :
            ((t.size < max_rows)
              → (row.id ≢ 0)
              → (orders row.id ≡ none)
              → (t' : OrderTable) × (insert c max_rows hash t row ≡ some (t', some t.size))
                × Represents c max_rows hash t' (update orders row.id (some row)))
            × ((t.size ≡ max_rows) ⊎ ((row.id ≡ 0) ⊎ (orders row.id ≢ none))
                → insert c max_rows hash t row ≡ some (t, none))
        unfolding append_row
        insert-Represents = (
          λ fits proper new.
              let guard : full c max_rows hash t || (row.id == 0) ≡ false =
                ground (arith, fits, proper) in
              elim (located c max_rows hash roomy r divides hash_lt row.id) [
                | inl (p, run, held, has, lt, same) ↦ absurd (
                    clash (orders row.id) (t.rows (t.index p).pos) new (
                      subst (λ k. orders k ≡ some (t.rows (t.index p).pos)) same
                        (r.mapped.hit _ lt)))
                | inr (run, absent) ↦
                    let (index', placed_run, m) = placed (ground (arith, proper)) absent in
                    (
                      appended index',
                      insert_placed index' guard run placed_run,
                      record {
                        places = update r.places row.id (some (row_at t.size));
                        table = m;
                        mapped = append-IsMapped r.mapped row absent;
                        few = omega (arith, fits);
                        tallied =
                            with_index (append_row t row) index'
                              (append_row-IsTallied t row (omega (arith, fits, small)) r.tallied);
                      },
                    )
              ],
          λ refused. elim (Bool-cases (full c max_rows hash t || (row.id == 0))) [
            | inl h ↦ insert_refused h
            | inr h ↦ elim (located c max_rows hash roomy r divides hash_lt row.id) [
              | inl (p, run, held, has, lt, same) ↦ insert_present p h run
              | inr (run, absent) ↦ absurd (elim refused [
                | inl e ↦ ground (arith, h, e)
                | inr e ↦ elim e [
                  | inl z ↦ ground (arith, h, z)
                  | inr n ↦ n (r.mapped.miss row.id absent)
                ]
              ])
            ]
          ],
        )
          where
            clash : (o : Option OrderRow) (x : OrderRow) → o ≡ none → o ≡ some x → ⊥
            clash o x h k = ground (arith, sym h ∙ k)

            with_index :
                (u : OrderTable) (index' : ℕ → IndexSlot)
                → IsTallied u
                → IsTallied (record u { index = index' })
            with_index u index' k = record { buys = k.buys; sells = k.sells; lives = k.lives }
