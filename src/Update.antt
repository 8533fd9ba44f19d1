-- ===== src/Update.antt =====
-- src/core/snapshot/book_snapshot.hpp, src/core/market_update_builder.hpp and src/common/ipc/market_update.hpp: the
-- snapshot of a book and the frame that is published from it. An array of levels is a function, in
-- which the places past the count keep what was there before. Prices and sizes are not negative, so
-- the frame's int64_t are natural numbers.
pub mod Frame
pub mod Best
mod Tests
use Prim.Native.Nat.{bit_or}
use low_latency_pipeline.Prelude.{
  ℕ, zero, suc, ◌-◌, ◌^◌, Bool, ◌&&◌, List, [], ◌∷◌, length, ltb, leb, ◌==◌, if◌then◌else◌,
}
use low_latency_pipeline.Event.{Event, Side}
use low_latency_pipeline.Book.{OrderBook, Level, Trade, top_bids, top_asks}

pub record BookSnapshot : Type 0 where
  pub event_seq : ℕ
  pub stock_id : List ℕ
  pub best_bid : ℕ
  pub best_ask : ℕ
  pub nb : ℕ
  pub na : ℕ
  pub bids : ℕ → Level
  pub asks : ℕ → Level

-- What a walk that gave `xs` has written over `out`.
abbrev pub overwrite {ℓ} : {A : Type ℓ} → List A → (ℕ → A) → ℕ → A
overwrite [] out i = out i
overwrite (x ∷ xs) out zero = x
overwrite (x ∷ xs) out (suc i) = overwrite xs (λ j. out (suc j)) i

unfoldable pub capture :
    (depth : ℕ) → BookSnapshot → OrderBook → (symbol : List ℕ) (event_seq : ℕ) → BookSnapshot
capture depth out book symbol event_seq =
    let bids = top_bids book depth in
    let asks = top_asks book depth in
    record {
      event_seq = event_seq;
      stock_id = symbol;
      best_bid = book.tob.best_bid;
      best_ask = book.tob.best_ask;
      nb = length bids;
      na = length asks;
      bids = overwrite bids out.bids;
      asks = overwrite asks out.asks;
    }

-- FrameFlags
abbrev pub two_sided : ℕ
two_sided = 1

abbrev pub last_in_batch : ℕ
last_in_batch = 8

abbrev pub cross_print : ℕ
cross_print = 16

abbrev pub empty_bid : ℕ
empty_bid = 0

-- INT64_MAX
abbrev pub empty_ask : ℕ
empty_ask = 2 ^ 63 - 1

pub record FrameLevel : Type 0 where
  pub price : ℕ
  pub qty : ℕ
  pub order_count : ℕ

pub record MarketUpdate : Type 0 where
  pub event_seq : ℕ
  pub event_time : ℕ
  pub tsc_in : ℕ
  pub best_bid : ℕ
  pub best_ask : ℕ
  pub trade_price : ℕ
  pub trade_qty : ℕ
  pub instrument : ℕ
  pub trade_side : Side
  pub flags : ℕ
  pub nb : ℕ
  pub na : ℕ
  pub bids : ℕ → FrameLevel
  pub asks : ℕ → FrameLevel

abbrev pub widen : Level → FrameLevel
widen l = record { price = l.price; qty = l.shares; order_count = l.order_count }

abbrev pub min : ℕ → ℕ → ℕ
min a b = if leb a b then a else b

-- `for (int i = 0; i < n; ++i) out[i] = {levels[i] ...}`
unfoldable pub copy_levels : (n : ℕ) (levels : ℕ → Level) → (ℕ → FrameLevel) → ℕ → FrameLevel
copy_levels n levels out i = if ltb i n then widen (levels i) else out i

unfoldable pub frame_flags : (extra_flags nb na message_type : ℕ) → ℕ
frame_flags extra_flags nb na message_type =
    let batch = bit_or last_in_batch extra_flags in
    let sided = if ltb 0 nb && ltb 0 na then bit_or batch two_sided else batch in
    if message_type == 81 then bit_or sided cross_print else sided

unfoldable pub build_market_update :
    (exec_depth : ℕ)
    → MarketUpdate
    → Event
    → BookSnapshot
    → Trade
    → (instrument extra_flags : ℕ) → MarketUpdate
build_market_update exec_depth mu ev snap trade instrument extra_flags =
    let nb = min snap.nb exec_depth in
    let na = min snap.na exec_depth in
    record {
      event_seq = snap.event_seq;
      event_time = ev.timestamp;
      tsc_in = ev.tsc_in;
      best_bid = if ltb 0 snap.nb then snap.best_bid else empty_bid;
      best_ask = if ltb 0 snap.na then snap.best_ask else empty_ask;
      trade_price = trade.price;
      trade_qty = trade.shares;
      instrument = instrument;
      trade_side = trade.side;
      flags = frame_flags extra_flags nb na ev.message_type;
      nb = nb;
      na = na;
      bids = copy_levels nb snap.bids mu.bids;
      asks = copy_levels na snap.asks mu.asks;
    }
