-- ===== src/Exec/Orders/Tests.antt =====
-- A table of four rows over eight index slots, empty and with one row, put through the theorems.
use Prim.Native.Nat.{◌∣◌}
use native.Mathlib.Nat.{dvd_of_mod-eq-zero}
use low_latency_pipeline.Prelude.{
  ℕ, ◌%◌, ◌^◌, ◌<◌, ◌≡◌, ◌≢◌, ◌⊎◌, refl, Option, some, none, arith, update, ◌==◌, if◌then◌else◌,
}
use low_latency_pipeline.Prelude.Int.{ℤ, ◌+ℤ◌}
use low_latency_pipeline.OrderMap.Laws.{empty-Models}
use low_latency_pipeline.Exec.Orders.{OrderRow, OrderTable, id_hash, find, insert, erase}
use low_latency_pipeline.Exec.Orders.Totals.{total}
use low_latency_pipeline.Exec.Orders.Index.{embed, row_at}
use low_latency_pipeline.Exec.Orders.Table.{Represents, find-Represents}
use low_latency_pipeline.Exec.Orders.Insertion.{insert-Represents}
use low_latency_pipeline.Exec.Orders.Removal.{erase-Represents}
use low_latency_pipeline.Messages.{ExecType, OrdStatus, ExecReport}
use low_latency_pipeline.Exec.Context.{ExecContext, up, with_st, now_ns, apply_report}
use low_latency_pipeline.Exec.Context.Reports.{settled, apply_report-Represents}
use low_latency_pipeline.Exec.Samples.{row, no_orders, whole, request, context}
use low_latency_pipeline.Exec.Router.{answer}

divides : 8 ∣ 2 ^ 32
divides = dvd_of_mod-eq-zero 8 refl

id_hash-lt : (k : ℕ) → id_hash k < 2 ^ 32
unfolding id_hash
id_hash-lt k = omega arith

abbrev none_live : ℕ → Option OrderRow
none_live id = none

no_orders-Represents : Represents 8 4 id_hash no_orders none_live
unfolding total
no_orders-Represents = record {
  places = λ id. none;
  table = empty-Models 8 id_hash (embed no_orders.index) (λ p. refl);
  mapped = record {
    forward = λ i lt. absurd (omega arith);
    backward = λ id e h. absurd (ground (arith, h));
    hit = λ i lt. absurd (omega arith);
    miss = λ id h. refl;
  };
  few = omega arith;
  tallied = record { buys = λ j. refl; sells = λ j. refl; lives = λ j. refl };
}

insert-Represents_example :
    ((no_orders.size < 4)
      → (row.id ≢ 0)
      → (none_live row.id ≡ none)
      → (t' : OrderTable) × (insert 8 4 id_hash no_orders row ≡ some (t', some no_orders.size))
        × Represents 8 4 id_hash t' (update none_live row.id (some row)))
    × ((no_orders.size ≡ 4) ⊎ ((row.id ≡ 0) ⊎ (none_live row.id ≢ none))
        → insert 8 4 id_hash no_orders row ≡ some (no_orders, none))
insert-Represents_example =
    insert-Represents 8 4 id_hash (omega arith) no_orders-Represents row divides id_hash-lt
      (omega arith)

-- The row in the slot that its identifier hashes to.
abbrev one : OrderTable
one = record no_orders {
  index = update no_orders.index 0 (record { key = 7; pos = 0 });
  size = 1;
  live = λ i. if 0 == i then 1 else 0;
  open_buy = λ i. if 0 == i then ℤ.pos 2 else ℤ.pos 0;
}

abbrev one_live : ℕ → Option OrderRow
one_live = update none_live 7 (some row)

home_7 : id_hash 7 % 8 ≡ 0
unfolding id_hash
home_7 = refl

one-Represents : Represents 8 4 id_hash one one_live
unfolding total ◌+ℤ◌
one-Represents = record {
  places = update (λ id. none) 7 (some (row_at 0));
  table = record {
    probed = record {
      reached = λ p h p_lt h_lt occ is_free. ground (arith, home_7);
      unique = λ p q p_lt q_lt p_occ q_occ same. ground arith;
    };
    sound = λ p lt occ. ground arith;
    complete = λ ref e h. (0, (omega arith, refl, ground arith));
  };
  mapped = record {
    forward = λ i lt. ground arith;
    backward = λ id e h. (0, omega arith, ground (arith, h), ground (arith, h));
    hit = λ i lt. ground arith;
    miss = λ id h. ground (arith, h);
  };
  few = omega arith;
  tallied = record {
    buys = λ j. ground arith;
    sells = λ j. ground arith;
    lives = λ j. ground arith;
  };
}

find-Represents_example :
    ((i : ℕ) × (find 8 4 id_hash one 7 ≡ some (some i))
      × (i < one.size)
      × (one_live 7 ≡ some (one.rows i)))
    ⊎ ((find 8 4 id_hash one 7 ≡ some none) × (one_live 7 ≡ none))
find-Represents_example =
    find-Represents 8 4 id_hash (omega arith) one-Represents divides id_hash-lt 7

erase-Represents_example :
    ((r : OrderRow)
      → one_live 7 ≡ some r
      → (t' : OrderTable) × (erase 8 4 id_hash one 7 ≡ some t')
        × Represents 8 4 id_hash t' (update one_live 7 none))
    × (one_live 7 ≡ none → erase 8 4 id_hash one 7 ≡ some one)
erase-Represents_example =
    erase-Represents 8 4 id_hash (omega arith) divides id_hash-lt (omega arith) one-Represents 7

-- An execution of one of the two lots of the order in the table.
abbrev execution : ExecReport
execution = record (answer request ExecType.partial_fill OrdStatus.partially_filled (ℤ.pos 1)) {
  cl_ord_id = 7;
  last_px = ℤ.pos 50;
  last_qty = ℤ.pos 1;
}

abbrev with_one : ExecContext whole
with_one = record context { orders = one }

apply_report-Represents_example :
    ((one_live 7 ≡ none)
      × (apply_report 8 4 id_hash with_one execution 0
          ≡ some
              (with_st with_one (record with_one.st { unsolicited = up with_one.st.unsolicited }))))
    ⊎ ((r : OrderRow) × (one_live 7 ≡ some r)
        × (x' : ExecContext whole) × (apply_report 8 4 id_hash with_one execution 0 ≡ some x')
        × Represents 8 4 id_hash x'.orders
            (update one_live 7 (settled r execution (now_ns with_one 0))))
apply_report-Represents_example =
    apply_report-Represents 8 4 id_hash (omega arith) divides id_hash-lt (omega arith) with_one
      one-Represents execution 0
