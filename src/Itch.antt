-- ===== src/Itch.antt =====
-- src/exchange/itch/itch_parser.cpp, itch_parser.hpp and itch_event_types.hpp: the decoding of an ITCH
-- message into the claimed slot of the ring. A message is a function from the offset of a byte to
-- the byte; the offsets are those of the packed structs.
pub mod Layout
mod Tests
use low_latency_pipeline.Prelude.{
  ℕ, zero, suc, ◌+◌, ◌-◌, ◌*◌, ◌%◌, ◌^◌, List, [], ◌∷◌, Option, none, some, ◌==◌, if◌then◌else◌,
}
use low_latency_pipeline.Event.{Event, Side, buy, sell}

-- A field of `n` bytes at `at`, its bytes swapped from network order.
unfoldable pub big_endian : (m : ℕ → ℕ) (at n : ℕ) → ℕ
big_endian m at zero = 0
big_endian m at (suc n) = big_endian m at n * 256 + m (at + n)

-- `memcpy(out, m + at, n)`
unfoldable pub bytes : (m : ℕ → ℕ) (at n : ℕ) → List ℕ
bytes m at zero = []
bytes m at (suc n) = m at ∷ bytes m (at + 1) n

-- `buy_sell_indicator == 'B' ? Buy : Sell`
abbrev pub side_of : ℕ → Side
side_of indicator = if indicator == 66 then buy else sell

-- What every message writes.
unfoldable pub decode_head : (m : ℕ → ℕ) (message_type : ℕ) → Event → Event
decode_head m message_type slot = record slot {
  message_type = message_type;
  stock_locate = big_endian m 1 2;
  tracking_number = big_endian m 3 2;
  timestamp = big_endian m 5 6;
}

-- The switch on the type: the slot after it, or none for a type that is passed over.
unfoldable pub decode : (m : ℕ → ℕ) → Event → Option Event
decode m slot =
    let head = decode_head m (m 0) slot in
    let add = record head {
      order_ref_number = big_endian m 11 8;
      side = side_of (m 19);
      shares = big_endian m 20 4;
      stock = bytes m 24 8;
      price = big_endian m 32 4;
    } in
    let execute = record head {
      order_ref_number = big_endian m 11 8;
      shares = big_endian m 19 4;
      match_number = big_endian m 23 8;
    } in
    if m 0 == 65
    then some add
    else if m 0 == 70
    then some add
    else if m 0 == 69
    then some execute
    else if m 0 == 67
    then some (record execute { price = big_endian m 32 4 })
    else if m 0 == 88
    then some (record head { order_ref_number = big_endian m 11 8; shares = big_endian m 19 4 })
    else if m 0 == 68
    then some (record head { order_ref_number = big_endian m 11 8 })
    else if m 0 == 85
    then some (record head {
      order_ref_number = big_endian m 11 8;
      new_order_ref_number = big_endian m 19 8;
      shares = big_endian m 27 4;
      price = big_endian m 31 4;
    })
    else if m 0 == 80
    then some (record add { match_number = big_endian m 36 8 })
    else if m 0 == 81
    then some (record head {
      shares = big_endian m 11 8 % 2 ^ 32;
      stock = bytes m 19 8;
      price = big_endian m 27 4;
      match_number = big_endian m 31 8;
    })
    else none

-- `next` once it has a slot: the cursor after the frame, and the event that it publishes, if any,
-- stamped with the time counter.
unfoldable pub next_frame : (file : ℕ → ℕ) (cursor : ℕ) → Event → (tsc : ℕ) → ℕ × Option Event
next_frame file cursor slot tsc =
    let frame_length = big_endian file cursor 2 in
    let event = decode (λ i. file (cursor + 2 + i)) slot in
    (
      cursor + 3 + frame_length - 1,
      elim event [ none ↦ none | some ev ↦ some (record ev { tsc_in = tsc }) ],
    )
