-- ===== src/Exec/Orders/Write.antt =====
-- src/exec/order_table.hpp: writes through the pointer that find gives, and `set_leaves`, change one row of
-- the map.
use low_latency_pipeline.Prelude.{
  ℕ, ◌<◌, ◌≡◌, ◌≢◌, refl, ap, sym, ◌∙◌, subst, Option, none, some, arith, update, update_self,
  update_ne, ℕ_discrete,
}
use low_latency_pipeline.Prelude.Int.{ℤ, pos_part, neg_part, +ℤ_parts, eq_of_parts}
use low_latency_pipeline.Event.{Side}
use low_latency_pipeline.OrderMap.{OrderEntry}
use low_latency_pipeline.Exec.Orders.{OrderRow, OrderTable, set_leaves}
use low_latency_pipeline.Exec.Orders.Totals.{total, total-update}
use low_latency_pipeline.Exec.Orders.Tally.{open_lots, counted, set_leaves-IsTallied}
use low_latency_pipeline.Exec.Orders.Mapped.{IsMapped}
use low_latency_pipeline.Exec.Orders.Table.{Represents}

-- Row `i` replaced by a row with the same identifier.
write-IsMapped :
    {places : ℕ → Option OrderEntry} {rows : ℕ → OrderRow} {size : ℕ} {orders : ℕ → Option OrderRow}
    (m : IsMapped places rows size orders) (i : ℕ) (row : OrderRow)
    → i < size
    → row.id ≡ (rows i).id
    → IsMapped places (update rows i row) size (update orders row.id (some row))
write-IsMapped {places} {rows} {size} {orders} m i row lt same =
    let rows' = update rows i row in
    let here : rows' i ≡ row = update_self rows i row in
    let there : (j : ℕ) → i ≢ j → rows' j ≡ rows j = λ j ne. update_ne rows i j row ne in
    let id_still : (j : ℕ) → (rows' j).id ≡ (rows j).id = λ j. elim (ℕ_discrete i j) [
      | yes e ↦ subst (λ k. (rows' k).id ≡ (rows k).id) e (ap (λ r. r.id) here ∙ same)
      | no ne ↦ ap (λ r. r.id) (there j ne)
    ] in
    let apart : (j : ℕ) → j < size → i ≢ j → row.id ≢ (rows j).id = λ j j_lt ne e. ne (
      ap (λ o. elim o [ none ↦ 0 | some x ↦ x.price ])
        (sym (m.forward i lt) ∙ ap places (sym same ∙ e) ∙ m.forward j j_lt)) in
    record {
      forward = λ j j_lt. ap places (id_still j) ∙ m.forward j j_lt;
      backward =
          λ id e h. let (j, j_lt, at, eq) = m.backward id e h in (j, j_lt, at, id_still j ∙ eq);
      hit = λ j j_lt. elim (ℕ_discrete i j) [
        | yes e ↦
            subst (λ k. update orders row.id (some row) (rows' k).id ≡ some (rows' k)) e
              (ap (λ r. update orders row.id (some row) r.id) here
                ∙ update_self orders row.id (some row)
                ∙ ap some (sym here))
        | no ne ↦
            ap (λ r. update orders row.id (some row) r.id) (there j ne)
            ∙ update_ne orders row.id (rows j).id (some row) (apart j j_lt ne)
            ∙ m.hit j j_lt
            ∙ ap some (sym (there j ne))
      ];
      miss = λ id h. elim (ℕ_discrete row.id id) [
        | yes e ↦ absurd (ground (arith, sym (m.forward i lt) ∙ ap places (sym same ∙ e) ∙ h))
        | no ne ↦ update_ne orders row.id id (some row) ne ∙ m.miss id h
      ];
    }

-- A row with the same lots of the same instrument and side leaves every sum as it is.
same_total :
    (f : OrderRow → ℤ) (rows : ℕ → OrderRow) (n i : ℕ) (row : OrderRow)
    → i < n
    → f row ≡ f (rows i)
    → total f rows n ≡ total f (update rows i row) n
same_total f rows n i row lt e =
    let h = total-update f rows n i row lt in
    eq_of_parts _ _ (
      omega (
        arith,
        ap pos_part h,
        ap neg_part h,
        ap pos_part e,
        ap neg_part e,
        +ℤ_parts (total f (update rows i row) n) (f (rows i)),
        +ℤ_parts (total f rows n) (f row),
      ))

module _ (c max_rows : ℕ) (hash : ℕ → ℕ) {t : OrderTable} {orders : ℕ → Option OrderRow}
    (r : Represents c max_rows hash t orders) (i : ℕ) (lt : i < t.size) where
  pub write-Represents :
      (row : OrderRow)
      → row.id ≡ (t.rows i).id
      → row.instrument ≡ (t.rows i).instrument
      → row.side ≡ (t.rows i).side
      → row.leaves ≡ (t.rows i).leaves
      → Represents c max_rows hash
          (record t { rows = update t.rows i row })
          (update orders row.id (some row))
  write-Represents row same inst side leaves = record {
    places = r.places;
    table = r.table;
    mapped = write-IsMapped r.mapped i row lt same;
    few = r.few;
    tallied = record {
      buys = λ j.
          r.tallied.buys j
          ∙ same_total (open_lots Side.buy j) t.rows t.size i row lt (cc (inst, side, leaves));
      sells = λ j.
          r.tallied.sells j
          ∙ same_total (open_lots Side.sell j) t.rows t.size i row lt (cc (inst, side, leaves));
      lives = λ j. r.tallied.lives j ∙ same_total (counted j) t.rows t.size i row lt (cc inst);
    };
  }

  pub set_leaves-Represents :
      (leaves : ℤ)
      → Represents c max_rows hash
          (set_leaves t i leaves)
          (update orders (t.rows i).id (some (record (t.rows i) { leaves = leaves })))
  unfolding set_leaves
  set_leaves-Represents leaves =
      let row = record (t.rows i) { leaves = leaves } in
      record {
        places = r.places;
        table = r.table;
        mapped = write-IsMapped r.mapped i row lt refl;
        few = r.few;
        tallied = set_leaves-IsTallied t i lt r.tallied leaves;
      }

-- A row of the map has the identifier that it stands under.
pub row_id :
    {c max_rows : ℕ} {hash : ℕ → ℕ} {t : OrderTable} {orders : ℕ → Option OrderRow}
    (r : Represents c max_rows hash t orders) (id : ℕ) (row : OrderRow)
    → orders id ≡ some row
    → row.id ≡ id
row_id {t} {orders} r id row has = go (r.places id) refl
  where
    id_of : Option OrderRow → ℕ
    id_of none = id
    id_of (some x) = x.id

    go : (o : Option OrderEntry) → r.places id ≡ o → row.id ≡ id
    go none e = ap id_of (sym has ∙ r.mapped.miss id e)
    go (some e) found =
        let (i, lt, at, same) = r.mapped.backward id e found in
        ap id_of (sym has ∙ subst (λ k. orders k ≡ some (t.rows i)) same (r.mapped.hit i lt)) ∙ same
