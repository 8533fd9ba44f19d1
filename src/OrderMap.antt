-- ===== src/OrderMap.antt =====
-- src/core/core.hpp and src/core/core.cpp, `OrderMap<Capacity>`: open addressing with linear probing, and
-- deletion by backward shift. The slots are an array of `capacity` places; a probe counter `pos`
-- runs on from the hash and is masked when a slot is addressed. The loops have no exit of their
-- own on a full table, so each takes fuel, and `none` stands for a loop that never ends.
pub mod Distance
pub mod Invariant
pub mod Find
pub mod Insert
pub mod Shift
pub mod Move
pub mod Erase
pub mod Laws
mod Tests
use low_latency_pipeline.Prelude.{
  ℕ, zero, suc, ◌+◌, ◌-◌, ◌*◌, ◌/◌, ◌%◌, ◌^◌, Bool, true, false, Option, none, some, ltb, ◌==◌,
  if◌then◌else◌, update,
}
use low_latency_pipeline.Event.{Side}

pub record OrderEntry : Type 0 where
  pub price : ℕ
  pub shares : ℕ
  pub side : Side

pub record Slot : Type 0 where
  pub key : ℕ
  pub entry : OrderEntry
  pub occupied : Bool

abbrev pub Slots : Type 0
Slots = ℕ → Slot

-- `static_cast<uint32_t>((ref * 0x9e3779b97f4a7c15ULL) >> 44)`, 20 bits.
unfoldable pub order_hash : ℕ → ℕ
order_hash ref = (ref * 0x9e3779b97f4a7c15) % 2 ^ 64 / 2 ^ 44

-- `(a - b) & MASK` on uint32_t, for a capacity that is a power of two.
unfoldable pub masked_sub : (capacity a b : ℕ) → ℕ
masked_sub capacity a b = (a + 2 ^ 32 - b) % 2 ^ 32 % capacity

-- `s.occupied = false`, which leaves the key.
abbrev pub freed : Slot → Slot
freed s = record s { occupied = false }

-- `slots_[hole & MASK] = s; s.occupied = false` for the slot `i` of `s`.
abbrev pub moved : Slots → (hole i : ℕ) → Slots
moved slots hole i = update (update slots hole (slots i)) i (freed (slots i))

module _ (capacity : ℕ) (hash : ℕ → ℕ) where
  -- The index of the slot that `find` points into; `some none` is the null pointer.
  unfoldable pub find_from : ℕ → Slots → ℕ → ℕ → Option (Option ℕ)
  find_from zero slots pos ref = none
  find_from (suc fuel) slots pos ref =
      let rest = find_from fuel slots (pos + 1) ref in
      let s = slots (pos % capacity) in
      if s.occupied
      then (if s.key == ref then some (some (pos % capacity)) else rest)
      else some none

  unfoldable pub find : Slots → ℕ → Option (Option ℕ)
  find slots ref = find_from capacity slots (hash ref) ref

  unfoldable pub insert_from : ℕ → Slots → ℕ → ℕ → OrderEntry → Option Slots
  insert_from zero slots pos ref entry = none
  insert_from (suc fuel) slots pos ref entry =
      let rest = insert_from fuel slots (pos + 1) ref entry in
      if (slots (pos % capacity)).occupied
      then rest
      else some
          (update slots (pos % capacity) (record { key = ref; entry = entry; occupied = true }))

  unfoldable pub insert : Slots → ℕ → OrderEntry → Option Slots
  insert slots ref entry = insert_from capacity slots (hash ref) ref entry

  -- The first loop of `erase`, which looks at the keys alone: a slot that is free keeps its old
  -- key.
  unfoldable pub locate_from : ℕ → Slots → ℕ → ℕ → Option ℕ
  locate_from zero slots pos ref = none
  locate_from (suc fuel) slots pos ref =
      let rest = locate_from fuel slots (pos + 1) ref in
      if (slots (pos % capacity)).key == ref then some pos else rest

  -- The second loop: move back each entry whose home is not behind the hole.
  unfoldable pub shift_from : ℕ → Slots → (hole pos : ℕ) → Option Slots
  shift_from zero slots hole pos = none
  shift_from (suc fuel) slots hole pos =
      let s = slots (pos % capacity) in
      let home = hash s.key in
      let after_move =
        shift_from fuel (moved slots (hole % capacity) (pos % capacity)) pos (pos + 1) in
      let rest = shift_from fuel slots hole (pos + 1) in
      if s.occupied
      then (if ltb (masked_sub capacity hole home) (masked_sub capacity pos home)
          then after_move
          else rest)
      else some slots

  unfoldable pub erase : Slots → ℕ → Option Slots
  erase slots ref = elim (locate_from capacity slots (hash ref) ref) [
    | none ↦ none
    | some pos ↦
        shift_from capacity (update slots (pos % capacity) (freed (slots (pos % capacity)))) pos
          (pos + 1)
  ]
