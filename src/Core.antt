-- ===== src/Core.antt =====
-- src/core/core_main.cpp: `process`, what the hot thread does with one event: the book follows, and a frame
-- of it is built in the feed ring and a snapshot of it stored for the dashboard.
pub mod Frames
mod Tests
use low_latency_pipeline.Prelude.{
  ℕ, ◌+◌, ◌%◌, ◌^◌, Bool, true, false, Option, none, some, if◌then◌else◌, ◌>>=◌,
}
use low_latency_pipeline.Event.{Event}
use low_latency_pipeline.Ring.{SpscRing, try_claim, fill, publish}
use low_latency_pipeline.Book.{OrderBook, Trade, no_trade}
use low_latency_pipeline.Feed.{PrimaryFeed, apply}
use low_latency_pipeline.Update.{BookSnapshot, MarketUpdate, capture, build_market_update}

-- What `process` changes. `stored` is the snapshot that the seqlock has; the counters are those of
-- `feed_stats`.
pub record Core : Type 0 where
  pub feed : PrimaryFeed
  pub feed_ring : SpscRing MarketUpdate
  pub scratch : BookSnapshot
  pub stored : BookSnapshot
  pub frames_pushed : ℕ
  pub frames_dropped : ℕ
  pub pending_reset : Bool

module _ (exec_depth ring_size instrument : ℕ) where
  -- The frame, in the claimed slot if there is one.
  unfoldable pub push_frame : Core → Event → BookSnapshot → Trade → Core
  push_frame core ev snap trade = elim (try_claim ring_size core.feed_ring) [
    | none ↦ record core {
      frames_dropped = (core.frames_dropped + 1) % 2 ^ 64;
      pending_reset = true;
    }
    | some slot ↦
        let frame =
          build_market_update exec_depth (core.feed_ring.slots slot) ev snap trade instrument
            (if core.pending_reset then 4 else 0) in
        record core {
          feed_ring = publish (fill core.feed_ring slot frame);
          frames_pushed = (core.frames_pushed + 1) % 2 ^ 64;
          pending_reset = false;
        }
  ]

module _ (depth exec_depth ring_size instrument : ℕ) where
  -- `scratch` is captured, pushed to the ring and stored.
  unfoldable pub show : Core → Event → OrderBook → Trade → Core
  show core ev book trade =
      let snap = capture depth core.scratch book core.feed.symbol core.feed.count in
      let pushed =
        push_frame exec_depth ring_size instrument (record core { scratch = snap }) ev snap trade in
      record pushed { stored = snap }

  module _ (tiers max_levels capacity : ℕ) (hash : ℕ → ℕ) where
    -- `none` is a probe of an order table that never ends.
    unfoldable pub process : Core → Event → Option Core
    process core ev = do
      (feed, touched, trade) ← apply tiers max_levels capacity hash core.feed ev no_trade
      let core' : Core = record core { feed = feed }
      elim touched [
        | none ↦ some core'
        | some locate ↦ (do book ← feed.engine.books locate; some (show core' ev book trade))
      ]
