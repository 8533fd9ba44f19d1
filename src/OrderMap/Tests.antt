-- ===== src/OrderMap/Tests.antt =====
-- A table of eight slots under the program's hash, run and put through the theorems.
use Prim.Native.Nat.{◌∣◌}
use native.Mathlib.Nat.{dvd_of_mod-eq-zero}
use low_latency_pipeline.Prelude.{
  ℕ, ◌+◌, ◌%◌, ◌^◌, ◌≡◌, ◌⊎◌, refl, true, false, Option, none, some, arith, update,
}
use low_latency_pipeline.Event.{Side}
use low_latency_pipeline.OrderMap.{
  OrderEntry, Slots, order_hash, masked_sub, find_from, find, insert_from, insert, locate_from,
  shift_from, erase,
}
use low_latency_pipeline.OrderMap.Invariant.{HoldsAt, HasRoom}
use low_latency_pipeline.OrderMap.Laws.{
  Orders, Models, empty-Models, find-Models, insert-Models, erase-Models, order_hash-lt,
}

abbrev order : ℕ → OrderEntry
order n = record { price = 1000000 + n; shares = 100; side = Side.buy }

abbrev vacant : Slots
vacant p = record { key = 0; entry = order 0; occupied = false }

divides : 8 ∣ 2 ^ 32
divides = dvd_of_mod-eq-zero 8 refl

abbrev no_orders : Orders
no_orders ref = none

insert-Models_example :
    (s : Slots) × (insert 8 order_hash vacant 77 (order 1) ≡ some s)
    × Models 8 order_hash s (update no_orders 77 (some (order 1)))
insert-Models_example =
    insert-Models 8 order_hash divides order_hash-lt (omega arith) vacant no_orders 77
      (empty-Models 8 order_hash vacant (λ p. refl)) (0, omega arith, refl) (order 1) refl

-- A table with one order, in the slot that its reference hashes to.
abbrev one : Slots
one = update vacant 1 (record { key = 77; entry = order 1; occupied = true })

abbrev one_order : Orders
one_order = update no_orders 77 (some (order 1))

home_77 : order_hash 77 % 8 ≡ 1
unfolding order_hash
home_77 = refl

one-Models : Models 8 order_hash one one_order
one-Models = record {
  probed = record {
    reached = λ p h p_lt h_lt occ is_free. ground (arith, home_77);
    unique = λ p q p_lt q_lt p_occ q_occ same. ground arith;
  };
  sound = λ p lt occ. ground arith;
  complete = λ ref e h. (1, (omega arith, refl, ground arith));
}

find-Models_example :
    ((p : ℕ) × (find 8 order_hash one 77 ≡ some (some p))
      × HoldsAt 8 order_hash one 77 p
      × (one_order 77 ≡ some (one p).entry))
    ⊎ ((find 8 order_hash one 77 ≡ some none) × (one_order 77 ≡ none))
find-Models_example =
    find-Models 8 order_hash divides order_hash-lt (omega arith) one one_order 77 one-Models
      (0, omega arith, refl)

erase-Models_example :
    (s : Slots) × (erase 8 order_hash one 77 ≡ some s)
    × Models 8 order_hash s (update one_order 77 none)
    × HasRoom 8 order_hash s
erase-Models_example =
    erase-Models 8 order_hash divides order_hash-lt (omega arith) one one_order 77 one-Models
      (0, omega arith, refl) (order 1) refl

-- Three orders that collide: the first goes, and the others are moved up to their homes.
program : Unit {0}
unfolding order_hash masked_sub find_from find insert_from insert locate_from shift_from erase
program = tt

abbrev collide : ℕ → ℕ
collide ref = ref % 8

abbrev session : Option (Option (Option ℕ) × Option (Option ℕ) × Option (Option ℕ))
session = elim (insert 8 collide vacant 7 (order 1)) [
  | none ↦ none
  | some a ↦ elim (insert 8 collide a 15 (order 2)) [
    | none ↦ none
    | some b ↦ elim (insert 8 collide b 8 (order 3)) [
      | none ↦ none
      | some c ↦ elim (erase 8 collide c 7) [
        | none ↦ none
        | some d ↦ some (find 8 collide d 7, find 8 collide d 15, find 8 collide d 8)
      ]
    ]
  ]
]

session_runs : session ≡ some (some none, some (some 7), some (some 0))
unfolding program
session_runs = refl
