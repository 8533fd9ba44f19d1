-- ===== src/Exec/Orders.antt =====
-- src/exec/order_table.hpp: `OrderTable`, the live orders in a dense array of rows, with an
-- open-addressed index from identifiers to rows and the open lots of each instrument. The number of
-- index slots, the number of rows and the hash are parameters; the program has 4096, 2048 and
-- `id_hash`. `none` stands for a probe that never ends, or for the write through `slot_of` of an
-- identifier that the index does not hold.
pub mod Totals
pub mod Tally
pub mod Index
pub mod Shift
pub mod Mapped
pub mod Table
pub mod Insertion
pub mod Unindex
pub mod Removal
pub mod Write
mod Tests
use low_latency_pipeline.Prelude.{
  ℕ, zero, suc, ◌+◌, ◌-◌, ◌*◌, ◌/◌, ◌%◌, ◌^◌, Bool, true, false, ◌||◌, Option, none, some, leb,
  ◌==◌, if◌then◌else◌, update, ◌>>=◌,
}
use low_latency_pipeline.Prelude.Int.{ℤ, ◌+ℤ◌, ◌-ℤ◌}
use low_latency_pipeline.Ring.{add32, sub32}
use low_latency_pipeline.Event.{Side}
use low_latency_pipeline.Messages.{Tif, OrdType, OrdStatus}
use low_latency_pipeline.OrderMap.{masked_sub}

-- `PendingBits`: one Boolean for each bit.
pub record Pending : Type 0 where
  pub cancel : Bool
  pub replace : Bool

abbrev pub nothing_pending : Pending
nothing_pending = record { cancel = false; replace = false }

pub record OrderRow : Type 0 where
  pub id : ℕ
  pub strategy_tag : ℕ
  pub tsc_decision : ℕ
  pub t_submit_ns : ℤ
  pub t_ack_ns : ℤ
  pub px : ℤ
  pub qty : ℤ
  pub leaves : ℤ
  pub cum : ℤ
  pub new_px : ℤ
  pub new_qty : ℤ
  pub instrument : ℕ
  pub side : Side
  pub tif : Tif
  pub ord_type : OrdType
  pub status : OrdStatus
  pub pending : Pending

-- Key 0 is an empty slot.
pub record IndexSlot : Type 0 where
  pub key : ℕ
  pub pos : ℕ

abbrev pub empty_slot : IndexSlot
empty_slot = record { key = 0; pos = 0 }

pub record OrderTable : Type 0 where
  pub index : ℕ → IndexSlot
  pub rows : ℕ → OrderRow
  pub size : ℕ
  pub gen : ℕ
  pub counter : ℕ
  pub live : ℕ → ℕ
  pub open_buy : ℕ → ℤ
  pub open_sell : ℕ → ℤ

-- `static_cast<uint32_t>((id * 0x9e3779b97f4a7c15ULL) >> 52)`, 12 bits.
unfoldable pub id_hash : ℕ → ℕ
id_hash id = (id * 0x9e3779b97f4a7c15) % 2 ^ 64 / 2 ^ 52

unfoldable pub set_generation : OrderTable → ℕ → OrderTable
set_generation t gen = record t { gen = gen % 2 ^ 24 }

-- `(gen_ << 40) | (++counter_ & ((1ull << 40) - 1))`: the two parts have no bit in common.
unfoldable pub next_id : OrderTable → OrderTable × ℕ
next_id t =
    let counter' = (t.counter + 1) % 2 ^ 64 in
    (record t { counter = counter' }, t.gen * 2 ^ 40 % 2 ^ 64 + counter' % 2 ^ 40)

unfoldable pub add_open : OrderTable → Side → ℕ → ℤ → OrderTable
add_open t Side.buy inst delta = record t {
  open_buy = update t.open_buy inst (t.open_buy inst +ℤ delta);
}
add_open t Side.sell inst delta = record t {
  open_sell = update t.open_sell inst (t.open_sell inst +ℤ delta);
}

-- The argument `i` is the row that the reference points to.
unfoldable pub set_leaves : OrderTable → (i : ℕ) → ℤ → OrderTable
set_leaves t i leaves =
    let r = t.rows i in
    let t' = add_open t r.side r.instrument (leaves -ℤ r.leaves) in
    record t {
      rows = update t.rows i (record r { leaves = leaves });
      open_buy = t'.open_buy;
      open_sell = t'.open_sell;
    }

-- The row at the end of the dense array, with the counters of its instrument.
unfoldable pub append_row : OrderTable → OrderRow → OrderTable
append_row t r =
    let t' = add_open t r.side r.instrument r.leaves in
    record t {
      open_buy = t'.open_buy;
      open_sell = t'.open_sell;
      rows = update t.rows t.size r;
      live = update t.live r.instrument (add32 (t.live r.instrument) 1);
      size = suc t.size;
    }

-- The swap-remove of row `pos`, with the counters of its instrument.
unfoldable pub remove_row : OrderTable → (pos : ℕ) → OrderTable
remove_row t pos =
    let r = t.rows pos in
    let last = t.size - 1 in
    let t' = add_open t r.side r.instrument (ℤ.pos 0 -ℤ r.leaves) in
    record t {
      open_buy = t'.open_buy;
      open_sell = t'.open_sell;
      rows = if pos == last then t.rows else update t.rows pos (t.rows last);
      live = update t.live r.instrument (sub32 (t.live r.instrument) 1);
      size = last;
    }

module _ (slots max_rows : ℕ) (hash : ℕ → ℕ) where
  abbrev pub full : OrderTable → Bool
  full t = t.size == max_rows

  unfoldable pub slot_of_from : ℕ → (ℕ → IndexSlot) → ℕ → ℕ → Option (Option ℕ)
  slot_of_from zero index pos id = none
  slot_of_from (suc fuel) index pos id =
      let rest = slot_of_from fuel index (pos + 1) id in
      let s = index (pos % slots) in
      if s.key == 0 then some none else (if s.key == id then some (some (pos % slots)) else rest)

  unfoldable pub slot_of : (ℕ → IndexSlot) → ℕ → Option (Option ℕ)
  slot_of index id = slot_of_from slots index (hash id) id

  -- The row that `find` points to; `some none` is the null pointer.
  unfoldable pub find : OrderTable → ℕ → Option (Option ℕ)
  find t id = do
    s ← slot_of t.index id
    elim s [ none ↦ some none | some p ↦ some (some (t.index p).pos) ]

  -- The probe of `insert` for an empty slot, with the write that follows it.
  unfoldable pub place_from : ℕ → (ℕ → IndexSlot) → ℕ → IndexSlot → Option (ℕ → IndexSlot)
  place_from zero index pos s = none
  place_from (suc fuel) index pos s =
      let rest = place_from fuel index (pos + 1) s in
      if (index (pos % slots)).key == 0 then some (update index (pos % slots) s) else rest

  unfoldable pub insert : OrderTable → OrderRow → Option (OrderTable × Option ℕ)
  insert t r = if full t || (r.id == 0) then some (t, none) else (do
    present ← slot_of t.index r.id
    elim present [
      | some s ↦ some (t, none)
      | none ↦ (do
        index' ← place_from slots t.index (hash r.id) (record { key = r.id; pos = t.size })
        some (record (append_row t r) { index = index' }, some t.size))
    ])

  -- The loop of the backward shift, with the write that clears the last hole.
  unfoldable pub shift_from : ℕ → (ℕ → IndexSlot) → (hole i : ℕ) → Option (ℕ → IndexSlot)
  shift_from zero index hole i = none
  shift_from (suc fuel) index hole i =
      let home = hash (index i).key % slots in
      let next = (i + 1) % slots in
      let after_move = shift_from fuel (update index hole (index i)) i next in
      let rest = shift_from fuel index hole next in
      if (index i).key == 0
      then some (update index hole empty_slot)
      else (if leb (masked_sub slots i hole) (masked_sub slots i home) then after_move else rest)

  -- `index_[slot_of(rows_[pos].id)].pos = pos` for the row that moved, if one did.
  unfoldable pub repoint : OrderTable → (pos : ℕ) → Option (ℕ → IndexSlot)
  repoint t pos = if pos == t.size then some t.index else (do
    found ← slot_of t.index (t.rows pos).id
    elim found [
      | none ↦ none
      | some p ↦ some (update t.index p (record (t.index p) { pos = pos }))
    ])

  unfoldable pub erase : OrderTable → ℕ → Option OrderTable
  erase t id = do
    found ← slot_of t.index id
    elim found [
      | none ↦ some t
      | some s ↦ (do
        let removed : OrderTable = remove_row t (t.index s).pos
        index' ← repoint removed (t.index s).pos
        shifted ← shift_from slots index' s ((s + 1) % slots)
        some (record removed { index = shifted }))
    ]
