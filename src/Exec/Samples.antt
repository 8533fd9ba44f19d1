-- ===== src/Exec/Samples.antt =====
-- Small states of the execution process for the tests: numbers that are whole in place of doubles, one
-- instrument, and an account with funds.
use low_latency_pipeline.Prelude.{ℕ, true, false, none, some, [], ◌∷◌, ◌==◌, if◌then◌else◌}
use low_latency_pipeline.Prelude.Int.{ℤ, ◌+ℤ◌, ◌-ℤ◌, ◌*ℤ◌, ◌/ℤ◌, ltb_ℤ, leb_ℤ}
use low_latency_pipeline.Event.{Side}
use low_latency_pipeline.Histogram.{Histogram}
use low_latency_pipeline.Messages.{
  ReqType, OrdType, Tif, ExecType, OrdStatus, OrderRequest, Instrument,
}
use low_latency_pipeline.Update.{MarketUpdate}
use low_latency_pipeline.Exec.Doubles.{Doubles}
use low_latency_pipeline.Exec.Orders.{OrderRow, OrderTable, empty_slot, nothing_pending}
use low_latency_pipeline.Exec.Account.{Account, Balance, flat}
use low_latency_pipeline.Exec.Rate.{RateModel}
use low_latency_pipeline.Exec.Router.{NullRouter, answer}
use low_latency_pipeline.Exec.Risk.{RejectReason, OrderCheck}
use low_latency_pipeline.Exec.Risk.Gate.{RiskGate}
use low_latency_pipeline.Exec.View.{MarketView}
use low_latency_pipeline.Exec.Context.{ExecContext}

-- Whole numbers; a decimal drops its places.
abbrev pub whole : Doubles
whole = record {
  W = ℤ;
  of_int = λ n. n;
  decimal = λ m k. ℤ.pos m;
  to_int = λ x. x;
  add = λ a b. a +ℤ b;
  sub = λ a b. a -ℤ b;
  mul = λ a b. a *ℤ b;
  div = λ a b. a /ℤ b;
  neg = λ a. ℤ.pos 0 -ℤ a;
  sqrt = λ a. a;
  lt = ltb_ℤ;
  le = leb_ℤ;
}

abbrev pub request : OrderRequest
request = record {
  cl_ord_id = 7;
  orig_cl_ord_id = 0;
  tsc_decision = 100;
  strategy_tag = 0;
  price = ℤ.pos 50;
  qty = ℤ.pos 2;
  instrument = 0;
  type = ReqType.new;
  side = Side.buy;
  ord_type = OrdType.limit;
  tif = Tif.ioc;
}

abbrev pub idle_router : NullRouter
idle_router = record {
  q = λ i. answer request ExecType.ack OrdStatus.new (ℤ.pos 0);
  head = 0;
  tail = 0;
}

-- One cent a tick, one unit a lot.
abbrev pub instrument : Instrument
instrument = record {
  tick_mant = ℤ.pos 1;
  lot_mant = ℤ.pos 1;
  min_qty_lots = ℤ.pos 1;
  min_notional = ℤ.pos 0;
  symbol = 65 ∷ [];
  venue = [];
  tick_exp = ℤ.negsuc 1;
  lot_exp = ℤ.pos 0;
  price_precision = 2;
  qty_precision = 0;
  status = 0;
}

abbrev pub funds : Balance
funds = record { name = 65 ∷ []; total = ℤ.pos 1000000000000; reserved = ℤ.pos 0 }

abbrev pub account : Account
account = record {
  slot_of = λ i. if i == 0 then some 0 else none;
  inst = λ i. record {
    id = 0;
    base = 0;
    quote = 1;
    tl_exp = ℤ.pos 6;
    tl_mul = ℤ.pos 1;
    base_per_lot = ℤ.pos 100000000;
    position = flat;
  };
  n_inst = 1;
  bal = λ i. funds;
  n_assets = 2;
  peak = ℤ.pos 0;
  max_dd = ℤ.pos 0;
}

abbrev pub row : OrderRow
row = record {
  id = 7;
  strategy_tag = 0;
  tsc_decision = 100;
  t_submit_ns = ℤ.pos 0;
  t_ack_ns = ℤ.pos 0;
  px = ℤ.pos 50;
  qty = ℤ.pos 2;
  leaves = ℤ.pos 2;
  cum = ℤ.pos 0;
  new_px = ℤ.pos 0;
  new_qty = ℤ.pos 0;
  instrument = 0;
  side = Side.buy;
  tif = Tif.gtc;
  ord_type = OrdType.limit;
  status = OrdStatus.new;
  pending = nothing_pending;
}

abbrev pub no_orders : OrderTable
no_orders = record {
  index = λ i. empty_slot;
  rows = λ i. row;
  size = 0;
  gen = 1;
  counter = 0;
  live = λ i. 0;
  open_buy = λ i. ℤ.pos 0;
  open_sell = λ i. ℤ.pos 0;
}

abbrev pub rate : RateModel whole
rate = record {
  enabled = true;
  params = record { max = ℤ.pos 60; decay_per_s = ℤ.pos 1; max_open = 60; margin = ℤ.pos 5 };
  counters = λ i. record { count = ℤ.pos 0; last_ns = ℤ.pos 0 };
}

-- At most 10 lots in an order, at most 20 in the position.
abbrev pub gate : RiskGate whole
gate = record {
  limits = record {
    max_order_qty = ℤ.pos 10;
    max_order_notional = ℤ.pos 0;
    max_position = ℤ.pos 20;
    max_position_notional = ℤ.pos 0;
    max_open_orders = 4;
    price_band_bp = ℤ.pos 0;
    spot_only = true;
  };
  allowed = 65 ∷ [];
  allowed_inst = λ i. true;
}

abbrev pub order : OrderCheck
order = record {
  instrument = 0;
  side = Side.buy;
  ord_type = OrdType.limit;
  tif = Tif.gtc;
  px = ℤ.pos 50;
  qty = ℤ.pos 2;
  mid2 = ℤ.pos 100;
  now_ns = ℤ.pos 1000;
}

abbrev pub frame : (seq : ℕ) → MarketUpdate
frame seq = record {
  event_seq = seq;
  event_time = 1000;
  tsc_in = 90;
  best_bid = 49;
  best_ask = 51;
  trade_price = 0;
  trade_qty = 0;
  instrument = 0;
  trade_side = Side.buy;
  flags = 0;
  nb = 1;
  na = 1;
  bids = λ i. record { price = 49; qty = 3; order_count = 1 };
  asks = λ i. record { price = 51; qty = 4; order_count = 1 };
}

abbrev pub view : MarketView whole
view = record {
  u = frame 5;
  prev_mid = ℤ.pos 50;
  var = ℤ.pos 0;
  have_mid = true;
  have_seq = true;
  feed_reset = false;
  frame_gaps = 0;
}

abbrev pub no_samples : Histogram
no_samples = record { buckets = λ b. 0; count = 0; max_cycles = 0 }

abbrev pub context : ExecContext whole
context = record {
  view = view;
  account = account;
  orders = no_orders;
  risk = gate;
  rate = rate;
  event_clock = true;
  tsc_per_ns = ℤ.pos 1;
  event_ns = ℤ.pos 1000;
  frame_tsc_in = 90;
  in_tick = true;
  control_flags = 0;
  last_reject = RejectReason.none;
  st = record {
    feed_transit = no_samples;
    tick = no_samples;
    tick_to_order = no_samples;
    frames = 0;
    orders_new = 0;
    orders_cancel = 0;
    risk_rejects = 0;
    ring_full_rejects = 0;
    orders_replace = 0;
    acks = 0;
    venue_rejects = 0;
    canceled = 0;
    replaced = 0;
    expired = 0;
    fills = 0;
    unsolicited = 0;
    rejects = λ i. 0;
  };
}
