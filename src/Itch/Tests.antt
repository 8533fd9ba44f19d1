-- ===== src/Itch/Tests.antt =====
-- A frame with a delete message, read and put through the theorems.
use low_latency_pipeline.Prelude.{ℕ, zero, suc, ◌≡◌, List, [], ◌∷◌, some, arith}
use low_latency_pipeline.Event.{Event, buy}
use low_latency_pipeline.Itch.{next_frame}
use low_latency_pipeline.Itch.Layout.{Header, delete_order, event_of, next_frame-layout}

abbrev file_of : List ℕ → ℕ → ℕ
file_of [] i = 0
file_of (x ∷ xs) zero = x
file_of (x ∷ xs) (suc i) = file_of xs i

-- Nineteen bytes: type D, locate 3, tracking number 0, timestamp 5, order 333.
abbrev message : List ℕ
message = 68 ∷ 0 ∷ 3 ∷ 0 ∷ 0 ∷ 0 ∷ 0 ∷ 0 ∷ 0 ∷ 0 ∷ 5 ∷ 0 ∷ 0 ∷ 0 ∷ 0 ∷ 0 ∷ 0 ∷ 1 ∷ 77 ∷ []

abbrev file : ℕ → ℕ
file = file_of (0 ∷ 19 ∷ message)

abbrev header : Header
header = record { stock_locate = 3; tracking_number = 0; timestamp = 5 }

abbrev slot : Event
slot = record {
  message_type = 65;
  stock_locate = 9;
  tracking_number = 9;
  timestamp = 9;
  order_ref_number = 9;
  side = buy;
  shares = 9;
  stock = [];
  price = 9;
  match_number = 9;
  new_order_ref_number = 9;
  tsc_in = 9;
}

next_frame-layout_example :
    next_frame file 0 slot 1000
    ≡ (21, some (record (event_of header (delete_order 333) slot) { tsc_in = 1000 }))
next_frame-layout_example =
    next_frame-layout file 0 19 header (delete_order 333) slot 1000 (omega arith) (omega arith)
