-- ===== src/Exec/View.antt =====
-- src/exec/market_view.hpp: `MarketView`, the latest frame, the gaps before it and what is derived from
-- it.
pub mod Gaps
use low_latency_pipeline.Prelude.{
  ℕ, zero, suc, ◌+◌, ◌-◌, ◌/◌, ◌%◌, ◌^◌, Bool, true, false, ◌&&◌, ◌||◌, not, ltb, ◌==◌,
  if◌then◌else◌,
}
use low_latency_pipeline.Prelude.Int.{ℤ, ◌+ℤ◌}
use low_latency_pipeline.Update.{MarketUpdate, FrameLevel}
use low_latency_pipeline.Exec.Doubles.{Doubles}

pub record MarketView (D : Doubles) : Type 0 where
  pub u : MarketUpdate
  pub prev_mid : D.W
  pub var : D.W
  pub have_mid : Bool
  pub have_seq : Bool
  pub feed_reset : Bool
  pub frame_gaps : ℕ

-- `u.flags & FEED_RESET`
abbrev pub has_feed_reset : ℕ → Bool
has_feed_reset flags = flags / 4 % 2 == 1

-- `event_seq + 1` on uint64_t.
abbrev pub next_seq : ℕ → ℕ
next_seq seq = (seq + 1) % 2 ^ 64

abbrev pub frame_two_sided : MarketUpdate → Bool
frame_two_sided u = ltb 0 u.nb && ltb 0 u.na

-- The sum of the quantities of the first `n` levels.
unfoldable pub depth_qty : (ℕ → FrameLevel) → ℕ → ℕ
depth_qty levels zero = 0
depth_qty levels (suc n) = depth_qty levels n + (levels n).qty

module _ (D : Doubles) where
  abbrev pub of_nat : ℕ → D.W
  of_nat n = D.of_int (ℤ.pos n)

  unfoldable pub mid_of : MarketUpdate → D.W
  mid_of u = D.mul (D.decimal 5 1) (D.add (of_nat u.best_bid) (of_nat u.best_ask))

module _ {D : Doubles} where
  unfoldable pub two_sided : MarketView D → Bool
  two_sided v = frame_two_sided v.u

  unfoldable pub bid_size : MarketView D → ℕ
  bid_size v = if ltb 0 v.u.nb then (v.u.bids 0).qty else 0

  unfoldable pub ask_size : MarketView D → ℕ
  ask_size v = if ltb 0 v.u.na then (v.u.asks 0).qty else 0

  unfoldable pub mid2 : MarketView D → ℤ
  mid2 v = if two_sided v then ℤ.pos (v.u.best_bid + v.u.best_ask) else ℤ.pos 0

  unfoldable pub microprice : MarketView D → D.W
  microprice v =
      let bq = of_nat D (v.u.bids 0).qty in
      let aq = of_nat D (v.u.asks 0).qty in
      let q = D.add bq aq in
      if D.lt (D.decimal 0 1) q
      then D.div (D.add (D.mul (of_nat D v.u.best_bid) aq) (D.mul (of_nat D v.u.best_ask) bq)) q
      else mid_of D v.u

  unfoldable pub imbalance : MarketView D → D.W
  imbalance v =
      let bq = of_nat D (depth_qty v.u.bids v.u.nb) in
      let aq = of_nat D (depth_qty v.u.asks v.u.na) in
      let tot = D.add bq aq in
      if D.lt (D.decimal 0 1) tot then D.div (D.sub bq aq) tot else D.decimal 0 1

  unfoldable pub realized_vol : MarketView D → D.W
  realized_vol v = D.sqrt v.var

  -- The frame was not the one that follows the frame before it.
  abbrev pub out_of_order : MarketView D → MarketUpdate → Bool
  out_of_order v u = v.have_seq && not (u.event_seq == next_seq v.u.event_seq)

  -- The part of `on_update` that looks at the sequence.
  unfoldable pub on_sequence : MarketView D → MarketUpdate → MarketView D
  on_sequence v u =
      let expected = next_seq v.u.event_seq in
      let reset = has_feed_reset u.flags || out_of_order v u in
      record v {
        frame_gaps =
            if out_of_order v u && ltb expected u.event_seq
            then (v.frame_gaps + (u.event_seq - expected)) % 2 ^ 64
            else v.frame_gaps;
        feed_reset = reset;
        have_seq = true;
        have_mid = not reset && v.have_mid;
      }

  -- The variance with the change of the mid folded in; VOL_ALPHA is 0.01.
  unfoldable pub folded_var : MarketView D → D.W → D.W
  folded_var v m =
      let dm = D.sub m v.prev_mid in
      D.add (D.mul (D.sub (D.decimal 10 1) (D.decimal 1 2)) v.var)
        (D.mul (D.mul (D.decimal 1 2) dm) dm)

  unfoldable pub on_update : MarketView D → MarketUpdate → MarketView D
  on_update v u =
      let w = on_sequence v u in
      let m = mid_of D u in
      if frame_two_sided u
      then record w {
        u = u;
        var = if w.have_mid then folded_var w m else w.var;
        prev_mid = m;
        have_mid = true;
      }
      else record w { u = u }
