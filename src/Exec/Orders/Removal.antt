-- ===== src/Exec/Orders/Removal.antt =====
-- src/exec/order_table.hpp: erase takes an identifier's row out of the map, moves the last row into its
-- place and repoints its index entry.
use Prim.Native.Nat.{◌∣◌}
use low_latency_pipeline.Prelude.{
  ℕ, suc, ◌+◌, ◌-◌, ◌%◌, ◌^◌, ◌≤◌, ◌<◌, ◌≡◌, ◌≢◌, inl, inr, refl, ap, sym, ◌∙◌, subst, true, false,
  arith, Option, none, some, ◌==◌, if◌then◌else◌, update, update_self, ℕ_discrete,
}
use low_latency_pipeline.OrderMap.{OrderEntry}
use low_latency_pipeline.OrderMap.Invariant.{HoldsAt}
use low_latency_pipeline.OrderMap.Laws.{Models}
use low_latency_pipeline.Exec.Orders.{
  OrderRow, OrderTable, IndexSlot, slot_of, remove_row, repoint, shift_from, erase,
}
use low_latency_pipeline.Exec.Orders.Tally.{remove_row-IsTallied}
use low_latency_pipeline.Exec.Orders.Index.{row_at, embed}
use low_latency_pipeline.Exec.Orders.Mapped.{IsMapped, drop-IsMapped, swap-IsMapped}
use low_latency_pipeline.Exec.Orders.Table.{Represents, room, located}
use low_latency_pipeline.Exec.Orders.Unindex.{shift-Models, repointed}

module _ (c max_rows : ℕ) (hash : ℕ → ℕ) (t : OrderTable) (id : ℕ) where
  erase_missing :
      slot_of c max_rows hash t.index id ≡ some none → erase c max_rows hash t id ≡ some t
  unfolding erase
  erase_missing h = rw h refl

  erase_found :
      (s : ℕ) (index' index'' : ℕ → IndexSlot)
      → slot_of c max_rows hash t.index id ≡ some (some s)
      → repoint c max_rows hash (remove_row t (t.index s).pos) (t.index s).pos ≡ some index'
      → shift_from c max_rows hash c index' s ((s + 1) % c) ≡ some index''
      → erase c max_rows hash t id
        ≡ some (record (remove_row t (t.index s).pos) { index = index'' })
  unfolding erase
  erase_found s index' index'' h k l = rw (h, k, l) refl

  repoint_last :
      (i : ℕ) → i ≡ t.size - 1 → repoint c max_rows hash (remove_row t i) i ≡ some t.index
  unfolding repoint remove_row
  repoint_last i e = let test : (i == t.size - 1) ≡ true = ground (arith, e) in rw test refl

  repoint_moved :
      (i q : ℕ)
      → i ≢ t.size - 1
      → slot_of c max_rows hash t.index (t.rows (t.size - 1)).id ≡ some (some q)
      → repoint c max_rows hash (remove_row t i) i
        ≡ some (update t.index q (record (t.index q) { pos = i }))
  unfolding repoint remove_row
  repoint_moved i q ne h =
      let test : (i == t.size - 1) ≡ false = ground (arith, ne) in
      rw (test, update_self t.rows i (t.rows (t.size - 1)), h) refl

module _ (c max_rows : ℕ) (hash : ℕ → ℕ) (roomy : max_rows < c) (divides : c ∣ 2 ^ 32)
    (hash_lt : (k : ℕ) → hash k < 2 ^ 32) (small : c ≤ 2 ^ 32) {t : OrderTable}
    {orders : ℕ → Option OrderRow} (r : Represents c max_rows hash t orders) (id : ℕ) where
  -- What the repointing and the shift leave, for the row that goes at slot `s`.
  abbrev Erased : (index'' : ℕ → IndexSlot) → (i : ℕ) → Type 0
  Erased index'' i =
      Represents c max_rows hash (record (remove_row t i) { index = index'' })
        (update orders id none)

  finished :
      (index'' : ℕ → IndexSlot) (i : ℕ) (places' : ℕ → Option OrderEntry) (rows' : ℕ → OrderRow)
      → i < t.size
      → Models c hash (embed index'') places'
      → (if i == t.size - 1 then t.rows else update t.rows i (t.rows (t.size - 1))) ≡ rows'
      → IsMapped places' rows' (t.size - 1) (update orders id none)
      → Erased index'' i
  unfolding remove_row
  finished index'' i places' rows' lt m same mapped =
      let tally = remove_row-IsTallied t i lt r.tallied (omega (arith, r.few, roomy, small)) in
      record {
        places = places';
        table = m;
        mapped =
            subst (λ x. IsMapped places' x (t.size - 1) (update orders id none)) (sym same) mapped;
        few = omega (arith, r.few);
        tallied = record { buys = tally.buys; sells = tally.sells; lives = tally.lives };
      }

  -- The slot that erase finds, and what it knows of it.
  module _ (s : ℕ) (run : slot_of c max_rows hash t.index id ≡ some (some s))
      (held : HoldsAt c hash (embed t.index) id s)
      (has : r.places id ≡ some (row_at (t.index s).pos)) (lt : (t.index s).pos < t.size)
      (same : (t.rows (t.index s).pos).id ≡ id) where
    abbrev i : ℕ
    i = (t.index s).pos

    abbrev n : ℕ
    n = t.size - 1

    abbrev Ends : Type 0
    Ends =
        (t' : OrderTable) × (erase c max_rows hash t id ≡ some t')
        × Represents c max_rows hash t' (update orders id none)

    sized : t.size ≡ suc n
    sized = omega (arith, lt)

    erase_last : i ≡ n → Ends
    erase_last last =
        let positive_c : 0 < c = omega (arith, roomy) in
        let (index'', shifted, m) =
          shift-Models c max_rows hash divides hash_lt positive_c small t.index r.places id s
            (row_at i) r.table (room c max_rows hash roomy r) held has in
        let gone : (t.rows n).id ≡ id = ap (λ k. (t.rows k).id) (sym last) ∙ same in
        let test : (i == n) ≡ true = ground (arith, last) in
        (
          record (remove_row t i) { index = index'' },
          erase_found c max_rows hash t id s t.index index'' run
              (repoint_last c max_rows hash t id i last) shifted,
          finished index'' i (update r.places id none) t.rows lt m
              (ap (λ b. if b then t.rows else update t.rows i (t.rows n)) test)
              (subst (λ k. IsMapped (update r.places k none) t.rows n (update orders k none)) gone
                (drop-IsMapped r.mapped n sized)),
        )

    -- The index after the repointing of the row that moves, which slot `q` holds.
    module _ (q : ℕ) (held_q : HoldsAt c hash (embed t.index) (t.rows n).id q) where
      abbrev index' : ℕ → IndexSlot
      index' = update t.index q (record (t.index q) { pos = i })

      abbrev places' : ℕ → Option OrderEntry
      places' = update r.places (t.rows n).id (some (row_at i))

      occupied_still : (p : ℕ) → (embed index' p).occupied ≡ (embed t.index p).occupied
      occupied_still p = ground arith

      key_still : (p : ℕ) → (embed index' p).key ≡ (embed t.index p).key
      key_still p = ground arith

      shift_moved :
          (index'' : ℕ → IndexSlot) × (shift_from c max_rows hash c index' s ((s + 1) % c)
            ≡ some index'')
          × Models c hash (embed index'') (update places' id none)
      shift_moved =
          let positive_c : 0 < c = omega (arith, roomy) in
          let space = room c max_rows hash roomy r in
          shift-Models c max_rows hash divides hash_lt positive_c small index' places' id s
            (row_at i)
            (repointed c hash divides hash_lt positive_c t.index r.places (t.rows n).id q i r.table
              space held_q)
            (space.0, space.1, occupied_still space.0 ∙ space.2)
            (held.0, occupied_still s ∙ held.1, key_still s ∙ held.2) (ground (arith, has))

      erase_moved : i ≢ n → slot_of c max_rows hash t.index (t.rows n).id ≡ some (some q) → Ends
      erase_moved other run_q =
          let (index'', shifted, m) = shift_moved in
          let test : (i == n) ≡ false = ground (arith, other) in
          (
            record (remove_row t i) { index = index'' },
            erase_found c max_rows hash t id s index' index'' run
                (repoint_moved c max_rows hash t id i q other run_q) shifted,
            finished index'' i (update places' id none) (update t.rows i (t.rows n)) lt m
                (ap (λ b. if b then t.rows else update t.rows i (t.rows n)) test)
                (subst
                  (λ k.
                    IsMapped (update places' k none) (update t.rows i (t.rows n)) n
                      (update orders k none))
                  same (swap-IsMapped r.mapped n i sized (omega (arith, lt, other)))),
          )

    erase_held : Ends
    erase_held = elim (ℕ_discrete i n) [
      | yes last ↦ erase_last last
      | no other ↦ elim (located c max_rows hash roomy r divides hash_lt (t.rows n).id) [
        | inl (q, run_q, held_q, has_q, lt_q, same_q) ↦ erase_moved q held_q other run_q
        | inr (run_q, absent) ↦
            absurd (ground (arith, sym absent ∙ r.mapped.forward n (omega (arith, lt))))
      ]
    ]

  -- A table of fewer rows than index slots, their number a power of two up to 2 ^ 32, that stands
  -- for a map from identifiers to rows, with the open lots and live counts of those rows: erase of
  -- an identifier that the map has ends, and the table then stands for the map without it; erase of
  -- any other ends and leaves the table as it is.
  pub erase-Represents :
      ((row : OrderRow)
        → orders id ≡ some row
        → (t' : OrderTable) × (erase c max_rows hash t id ≡ some t')
          × Represents c max_rows hash t' (update orders id none))
      × (orders id ≡ none → erase c max_rows hash t id ≡ some t)
  erase-Represents = elim (located c max_rows hash roomy r divides hash_lt id) [
    | inr (run, absent) ↦ (
      λ row has. absurd (clash (orders id) row (r.mapped.miss id absent) has),
      λ gone. erase_missing c max_rows hash t id run,
    )
    | inl (s, run, held, has, lt, same) ↦ (
      λ row here. erase_held s run held has lt same,
      λ gone. absurd (
          clash (orders id) (t.rows (t.index s).pos) gone
            (subst (λ k. orders k ≡ some (t.rows (t.index s).pos)) same (r.mapped.hit _ lt))),
    )
  ]
    where
      clash : (o : Option OrderRow) (x : OrderRow) → o ≡ none → o ≡ some x → ⊥
      clash o x h k = ground (arith, sym h ∙ k)
