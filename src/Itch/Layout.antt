-- ===== src/Itch/Layout.antt =====
-- The messages as the exchange lays them out, field after field, and that the parser reads them.
use low_latency_pipeline.Prelude.{
  ℕ, zero, suc, ◌+◌, ◌-◌, ◌/◌, ◌%◌, ◌^◌, ◌≡◌, refl, ap, ◌∙◌, List, [], ◌∷◌, length, some, arith,
}
use low_latency_pipeline.Event.{Event}
use low_latency_pipeline.Itch.{big_endian, bytes, side_of, decode_head, decode, next_frame}

-- A number on `width` bytes in network order, or bytes as they are.
pub data Field : Type 0 where
  num : (width value : ℕ) → Field
  raw : (xs : List ℕ) → Field

-- The last byte is the low one.
abbrev pub Encoded : (m : ℕ → ℕ) (at width value : ℕ) → Type 0
Encoded m at zero value = value ≡ 0
Encoded m at (suc width) value = (m (at + width) ≡ value % 256) × Encoded m at width (value / 256)

-- The fields stand one after the other from `at` on.
abbrev pub Stored : (m : ℕ → ℕ) (at : ℕ) → List Field → Type 0
Stored m at [] = Unit {0}
Stored m at (num width value ∷ fields) = Encoded m at width value × Stored m (at + width) fields
Stored m at (raw xs ∷ fields) = (bytes m at (length xs) ≡ xs) × Stored m (at + length xs) fields

-- What all messages begin with, after the type.
pub record Header : Type 0 where
  pub stock_locate : ℕ
  pub tracking_number : ℕ
  pub timestamp : ℕ

-- A ticker of eight bytes.
pub record Ticker : Type 0 where
  pub b0 : ℕ
  pub b1 : ℕ
  pub b2 : ℕ
  pub b3 : ℕ
  pub b4 : ℕ
  pub b5 : ℕ
  pub b6 : ℕ
  pub b7 : ℕ

abbrev pub ticker_bytes : Ticker → List ℕ
ticker_bytes t = t.b0 ∷ t.b1 ∷ t.b2 ∷ t.b3 ∷ t.b4 ∷ t.b5 ∷ t.b6 ∷ t.b7 ∷ []

-- The messages that the parser turns into events.
pub data ItchMessage : Type 0 where
  add_order : (ref indicator shares : ℕ) (stock : Ticker) (price : ℕ) → ItchMessage
  add_order_with_mpid :
      (ref indicator shares : ℕ) (stock : Ticker) (price attribution : ℕ) → ItchMessage
  exec_order : (ref executed_shares match_number : ℕ) → ItchMessage
  exec_order_with_message :
      (ref executed_shares match_number printable execution_price : ℕ) → ItchMessage
  cancel_order : (ref cancelled_shares : ℕ) → ItchMessage
  delete_order : (ref : ℕ) → ItchMessage
  replace_order : (original_ref new_ref shares price : ℕ) → ItchMessage
  trade_non_cross :
      (ref indicator shares : ℕ) (stock : Ticker) (price match_number : ℕ) → ItchMessage
  trade_cross :
      (shares : ℕ) (stock : Ticker) (cross_price match_number cross_type : ℕ) → ItchMessage

abbrev head_fields : (message_type : ℕ) → Header → List Field → List Field
head_fields message_type h fields =
    num 1 message_type ∷ num 2 h.stock_locate ∷ num 2 h.tracking_number ∷ num 6 h.timestamp ∷ fields

-- The type of a message.
abbrev pub type_of : ItchMessage → ℕ
type_of (add_order ref indicator shares stock price) = 65
type_of (add_order_with_mpid ref indicator shares stock price attribution) = 70
type_of (exec_order ref executed_shares match_number) = 69
type_of (exec_order_with_message ref executed_shares match_number printable execution_price) = 67
type_of (cancel_order ref cancelled_shares) = 88
type_of (delete_order ref) = 68
type_of (replace_order original_ref new_ref shares price) = 85
type_of (trade_non_cross ref indicator shares stock price match_number) = 80
type_of (trade_cross shares stock cross_price match_number cross_type) = 81

-- The fields after the timestamp, in the order of the exchange's specification.
abbrev pub body_fields : ItchMessage → List Field
body_fields (add_order ref indicator shares stock price) =
    num 8 ref ∷ num 1 indicator ∷ num 4 shares ∷ raw (ticker_bytes stock) ∷ num 4 price ∷ []
body_fields (add_order_with_mpid ref indicator shares stock price attribution) =
    num 8 ref
    ∷ num 1 indicator
    ∷ num 4 shares
    ∷ raw (ticker_bytes stock)
    ∷ num 4 price
    ∷ num 4 attribution
    ∷ []
body_fields (exec_order ref executed_shares match_number) =
    num 8 ref ∷ num 4 executed_shares ∷ num 8 match_number ∷ []
body_fields (exec_order_with_message ref executed_shares match_number printable execution_price) =
    num 8 ref
    ∷ num 4 executed_shares
    ∷ num 8 match_number
    ∷ num 1 printable
    ∷ num 4 execution_price
    ∷ []
body_fields (cancel_order ref cancelled_shares) = num 8 ref ∷ num 4 cancelled_shares ∷ []
body_fields (delete_order ref) = num 8 ref ∷ []
body_fields (replace_order original_ref new_ref shares price) =
    num 8 original_ref ∷ num 8 new_ref ∷ num 4 shares ∷ num 4 price ∷ []
body_fields (trade_non_cross ref indicator shares stock price match_number) =
    num 8 ref
    ∷ num 1 indicator
    ∷ num 4 shares
    ∷ raw (ticker_bytes stock)
    ∷ num 4 price
    ∷ num 8 match_number
    ∷ []
body_fields (trade_cross shares stock cross_price match_number cross_type) =
    num 8 shares
    ∷ raw (ticker_bytes stock)
    ∷ num 4 cross_price
    ∷ num 8 match_number
    ∷ num 1 cross_type
    ∷ []

abbrev pub layout : Header → ItchMessage → List Field
layout h msg = head_fields (type_of msg) h (body_fields msg)

abbrev headed : Header → (message_type : ℕ) → Event → Event
headed h message_type slot = record slot {
  message_type = message_type;
  stock_locate = h.stock_locate;
  tracking_number = h.tracking_number;
  timestamp = h.timestamp;
}

-- The event of a message: its fields over what the slot held before.
abbrev pub event_of : Header → ItchMessage → Event → Event
event_of h (add_order ref indicator shares stock price) slot = record (headed h 65 slot) {
  order_ref_number = ref;
  side = side_of indicator;
  shares = shares;
  stock = ticker_bytes stock;
  price = price;
}
event_of h (add_order_with_mpid ref indicator shares stock price attribution) slot =
    record (headed h 70 slot) {
      order_ref_number = ref;
      side = side_of indicator;
      shares = shares;
      stock = ticker_bytes stock;
      price = price;
    }
event_of h (exec_order ref executed_shares match_number) slot = record (headed h 69 slot) {
  order_ref_number = ref;
  shares = executed_shares;
  match_number = match_number;
}
event_of h (exec_order_with_message ref executed_shares match_number printable execution_price)
      slot =
    record (headed h 67 slot) {
      order_ref_number = ref;
      shares = executed_shares;
      match_number = match_number;
      price = execution_price;
    }
event_of h (cancel_order ref cancelled_shares) slot = record (headed h 88 slot) {
  order_ref_number = ref;
  shares = cancelled_shares;
}
event_of h (delete_order ref) slot = record (headed h 68 slot) { order_ref_number = ref }
event_of h (replace_order original_ref new_ref shares price) slot = record (headed h 85 slot) {
  order_ref_number = original_ref;
  new_order_ref_number = new_ref;
  shares = shares;
  price = price;
}
event_of h (trade_non_cross ref indicator shares stock price match_number) slot =
    record (headed h 80 slot) {
      order_ref_number = ref;
      side = side_of indicator;
      shares = shares;
      stock = ticker_bytes stock;
      price = price;
      match_number = match_number;
    }
event_of h (trade_cross shares stock cross_price match_number cross_type) slot =
    record (headed h 81 slot) {
      shares = shares % 2 ^ 32;
      stock = ticker_bytes stock;
      price = cross_price;
      match_number = match_number;
    }

big_endian-Encoded :
    (m : ℕ → ℕ) (at width value : ℕ) → Encoded m at width value → big_endian m at width ≡ value
unfolding big_endian
big_endian-Encoded m at zero value e = omega arith
big_endian-Encoded m at (suc width) value (low, high) =
    omega (arith, low, big_endian-Encoded m at width (value / 256) high)

one_byte : (m : ℕ → ℕ) (at value : ℕ) → Encoded m at 1 value → m at ≡ value
one_byte m at value e = let here : at ≡ at + 0 = omega arith in ap m here ∙ e.0 ∙ omega (arith, e.1)

headed_lem :
    (m : ℕ → ℕ) (h : Header) (message_type : ℕ) (fields : List Field) (slot : Event)
    → Stored m 0 (head_fields message_type h fields)
    → (m 0 ≡ message_type)
      × (decode_head m message_type slot ≡ headed h message_type slot)
      × Stored m 11 fields
unfolding decode_head
headed_lem m h message_type fields slot (t, (locate, (tracking, (time, rest)))) = (
  one_byte m 0 message_type t,
  simp (
    big_endian-Encoded m 1 2 h.stock_locate locate,
    big_endian-Encoded m 3 2 h.tracking_number tracking,
    big_endian-Encoded m 5 6 h.timestamp time,
  ),
  rest,
)

-- The layout of any message, at the start of the bytes `m` and with each number in network order on
-- its width: the parser reads its type and fields into the slot, which keeps what the message does
-- not carry.
pub decode-layout :
    (m : ℕ → ℕ) (h : Header) (msg : ItchMessage) (slot : Event)
    → Stored m 0 (layout h msg)
    → decode m slot ≡ some (event_of h msg slot)
unfolding decode
decode-layout m h (delete_order ref) slot s =
    let (t, head, (r, _)) = headed_lem m h 68 (body_fields (delete_order ref)) slot s in
    rw (t, head, big_endian-Encoded m 11 8 ref r) refl
decode-layout m h (cancel_order ref cancelled_shares) slot s =
    let (t, head, (r, (sh, _))) =
      headed_lem m h 88 (body_fields (cancel_order ref cancelled_shares)) slot s in
    rw (t, head, big_endian-Encoded m 11 8 ref r, big_endian-Encoded m 19 4 cancelled_shares sh)
      refl
decode-layout m h (exec_order ref executed_shares match_number) slot s =
    let (t, head, (r, (sh, (n, _)))) =
      headed_lem m h 69 (body_fields (exec_order ref executed_shares match_number)) slot s in
    rw
      (
        t,
        head,
        big_endian-Encoded m 11 8 ref r,
        big_endian-Encoded m 19 4 executed_shares sh,
        big_endian-Encoded m 23 8 match_number n,
      )
      refl
decode-layout m h (exec_order_with_message ref executed_shares match_number printable price) slot
      s =
    let (t, head, (r, (sh, (n, (pr, (px, _)))))) =
      headed_lem m h 67
        (body_fields (exec_order_with_message ref executed_shares match_number printable price))
        slot s in
    rw
      (
        t,
        head,
        big_endian-Encoded m 11 8 ref r,
        big_endian-Encoded m 19 4 executed_shares sh,
        big_endian-Encoded m 23 8 match_number n,
        big_endian-Encoded m 32 4 price px,
      )
      refl
decode-layout m h (replace_order original_ref new_ref shares price) slot s =
    let (t, head, (r, (nr, (sh, (px, _))))) =
      headed_lem m h 85 (body_fields (replace_order original_ref new_ref shares price)) slot s in
    rw
      (
        t,
        head,
        big_endian-Encoded m 11 8 original_ref r,
        big_endian-Encoded m 19 8 new_ref nr,
        big_endian-Encoded m 27 4 shares sh,
        big_endian-Encoded m 31 4 price px,
      )
      refl
decode-layout m h (add_order ref indicator shares stock price) slot s =
    let (t, head, (r, (i, (sh, (st, (px, _)))))) =
      headed_lem m h 65 (body_fields (add_order ref indicator shares stock price)) slot s in
    rw
      (
        t,
        head,
        big_endian-Encoded m 11 8 ref r,
        one_byte m 19 indicator i,
        big_endian-Encoded m 20 4 shares sh,
        st,
        big_endian-Encoded m 32 4 price px,
      )
      refl
decode-layout m h (add_order_with_mpid ref indicator shares stock price attribution) slot s =
    let (t, head, (r, (i, (sh, (st, (px, _)))))) =
      headed_lem m h 70
        (body_fields (add_order_with_mpid ref indicator shares stock price attribution)) slot s in
    rw
      (
        t,
        head,
        big_endian-Encoded m 11 8 ref r,
        one_byte m 19 indicator i,
        big_endian-Encoded m 20 4 shares sh,
        st,
        big_endian-Encoded m 32 4 price px,
      )
      refl
decode-layout m h (trade_non_cross ref indicator shares stock price match_number) slot s =
    let (t, head, (r, (i, (sh, (st, (px, (n, _))))))) =
      headed_lem m h 80
        (body_fields (trade_non_cross ref indicator shares stock price match_number)) slot s in
    rw
      (
        t,
        head,
        big_endian-Encoded m 11 8 ref r,
        one_byte m 19 indicator i,
        big_endian-Encoded m 20 4 shares sh,
        st,
        big_endian-Encoded m 32 4 price px,
        big_endian-Encoded m 36 8 match_number n,
      )
      refl
decode-layout m h (trade_cross shares stock cross_price match_number cross_type) slot s =
    let (t, head, (sh, (st, (px, (n, _))))) =
      headed_lem m h 81 (body_fields (trade_cross shares stock cross_price match_number cross_type))
        slot s in
    rw
      (
        t,
        head,
        big_endian-Encoded m 11 8 shares sh,
        st,
        big_endian-Encoded m 27 4 cross_price px,
        big_endian-Encoded m 31 8 match_number n,
      )
      refl

-- A frame at the cursor, its length on two bytes and then the message: `next` moves the cursor
-- behind the frame, by its length and the two bytes, and publishes the event of the message with
-- the time counter.
pub next_frame-layout :
    (file : ℕ → ℕ) (cursor len : ℕ) (h : Header) (msg : ItchMessage) (slot : Event) (tsc : ℕ)
    → Encoded file cursor 2 len
    → Stored (λ i. file (cursor + 2 + i)) 0 (layout h msg)
    → next_frame file cursor slot tsc
      ≡ (cursor + 2 + len, some (record (event_of h msg slot) { tsc_in = tsc }))
unfolding next_frame
next_frame-layout file cursor len h msg slot tsc framed stored =
    let behind : cursor + 3 + len - 1 ≡ cursor + 2 + len = omega arith in
    rw
      (
        big_endian-Encoded file cursor 2 len framed,
        decode-layout (λ i. file (cursor + 2 + i)) h msg slot stored,
        behind,
      )
      refl
