-- ===== src/Core/Frames.antt =====
-- One event, from the feed to the ring: what the frame says of the resting orders.
use low_latency_pipeline.Prelude.{
  ℕ, ◌+◌, ◌%◌, ◌^◌, ◌<◌, ◌≡◌, ◌⊎◌, Bool, true, false, List, [], ◌∷◌, ◌++◌, length, if◌then◌else◌,
}
use low_latency_pipeline.Event.{Event, buy, sell}
use low_latency_pipeline.Ring.Refine
use low_latency_pipeline.Ring.Refine.{Represents}
use low_latency_pipeline.Book.{Trade}
use low_latency_pipeline.Book.Depth.{IsNextBest, no_limit}
use low_latency_pipeline.Book.Resting.{Resting}
use low_latency_pipeline.Book.Invariant.{Holds}
use low_latency_pipeline.Update.{
  BookSnapshot, MarketUpdate, build_market_update, empty_bid, empty_ask,
}
use low_latency_pipeline.Update.Best.{IsBestOr}
use low_latency_pipeline.Exec.View.{has_feed_reset}
use low_latency_pipeline.Core.{Core}

-- What a frame says of the orders `q` after the event number `seq` with the trade `t`, where frames
-- before it were lost or not.
pub record Tells (f : MarketUpdate) (q : Resting) (ev : Event) (seq : ℕ) (t : Trade) (lost : Bool)
    : Type 0 where
  pub numbered : f.event_seq ≡ seq
  pub timed : f.event_time ≡ ev.timestamp
  pub best_bid : IsBestOr buy q empty_bid f.best_bid
  pub best_ask : IsBestOr sell q empty_ask f.best_ask
  pub traded : f.trade_qty ≡ t.shares
  pub priced : f.trade_price ≡ t.price
  pub gap : has_feed_reset f.flags ≡ lost

-- What a snapshot says of the orders `q` after the event number `seq`.
pub record Shows (snap : BookSnapshot) (q : Resting) (symbol : List ℕ) (seq : ℕ) : Type 0 where
  pub numbered : snap.event_seq ≡ seq
  pub named : snap.stock_id ≡ symbol
  pub best_bid : IsNextBest buy q (no_limit buy) snap.best_bid
  pub best_ask : IsNextBest sell q (no_limit sell) snap.best_ask

-- The ring and the counters after a frame that tells of `q`: it is behind the others, or the ring
-- is full, and the loss is kept for the next.
abbrev pub Pushed :
    (ring_size : ℕ) (core core' : Core) (frames : List MarketUpdate)
    → Resting
    → Event
    → Trade
    → Type 0
Pushed ring_size core core' frames q ev t =
    ((length frames ≡ ring_size)
      × Refine.Holds ring_size core'.feed_ring frames
      × (core'.frames_dropped ≡ (core.frames_dropped + 1) % 2 ^ 64)
      × (core'.frames_pushed ≡ core.frames_pushed)
      × (core'.pending_reset ≡ true))
    ⊎ ((length frames < ring_size)
        × (f : MarketUpdate) × Refine.Holds ring_size core'.feed_ring (frames ++ f ∷ [])
        × Tells f q ev core'.feed.count t core.pending_reset
        × (core'.frames_dropped ≡ core.frames_dropped)
        × (core'.frames_pushed ≡ (core.frames_pushed + 1) % 2 ^ 64)
        × (core'.pending_reset ≡ false))

module _ (exec_depth ring_size instrument : ℕ) (core : Core) (ev : Event) (snap : BookSnapshot)
    (t : Trade) where
  abbrev frame_in : ℕ → MarketUpdate
  frame_in slot =
      build_market_update exec_depth (core.feed_ring.slots slot) ev snap t instrument
        (if core.pending_reset then 4 else 0)
