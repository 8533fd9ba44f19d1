-- ===== src/Exec/Strategy.antt =====
-- src/exec/strategy.hpp: `StrategyContext`, the calls by which a strategy submits, amends and cancels
-- orders. A router is its state and its `submit`; the instruments' rows are an argument; `tsc n` is
-- the n-th reading of the counter during a call.
pub mod Safety
use low_latency_pipeline.Prelude.{
  ℕ, zero, suc, ◌+◌, ◌-◌, ◌%◌, ◌^◌, Bool, true, false, ◌&&◌, ◌||◌, not, Option, none, some, ◌==◌,
  if◌then◌else◌, ◌>>=◌,
}
use low_latency_pipeline.Prelude.Int.{ℤ, ◌-ℤ◌, ◌/ℤ◌, ltb_ℤ, is_zero}
use low_latency_pipeline.Event.{Side}
use low_latency_pipeline.Histogram.{record_cycles}
use low_latency_pipeline.Messages.{ReqType, OrdType, Tif, OrdStatus, OrderRequest, Instrument}
use low_latency_pipeline.Exec.Doubles.{Doubles}
use low_latency_pipeline.Exec.Orders.{
  OrderTable, OrderRow, nothing_pending, find, full, next_id, insert, erase,
}
use low_latency_pipeline.Exec.Account.{Account, entry, reserve}
use low_latency_pipeline.Exec.Account.Equity.{avg_px, realized, unrealized}
use low_latency_pipeline.Exec.Rate.{RateOp, charge}
use low_latency_pipeline.Exec.Risk.{RejectReason, is_none, OrderCheck}
use low_latency_pipeline.Exec.Risk.Gate.{check_new, check_replace}
use low_latency_pipeline.Exec.View.{mid2}
use low_latency_pipeline.Exec.Context.{ExecContext, ExecStats, now_ns, count_reject, up, write_row}

pub record StrategyContext (D : Doubles) (R : Type 0) : Type 0 where
  pub x : ExecContext D
  pub router : R

pub record PositionView : Type 0 where
  pub qty : ℤ
  pub avg_px : ℤ
  pub realized : ℤ
  pub unrealized : ℤ

unfoldable pub position : Account → ℕ → PositionView
position a inst = record {
  qty = (entry a inst).position.qty;
  avg_px = avg_px a inst;
  realized = realized a inst;
  unrealized = unrealized a inst;
}

-- The age of an order, 0 until it is acknowledged.
abbrev pub order_age : OrderRow → ℤ → ℤ
order_age r now = if is_zero r.t_ack_ns then ℤ.pos 0 else now -ℤ r.t_ack_ns

-- The row of a new order. A market order is valued at the mid.
unfoldable pub new_row :
    (id inst tsc : ℕ) → (now mid2 : ℤ) → Side → (px qty : ℤ) → Tif → OrdType → OrderRow
new_row id inst tsc now mid2 side px qty tif type = record {
  id = id;
  strategy_tag = 0;
  tsc_decision = tsc;
  t_submit_ns = now;
  t_ack_ns = ℤ.pos 0;
  px = if ltb_ℤ (ℤ.pos 0) px then px else mid2 /ℤ ℤ.pos 2;
  qty = qty;
  leaves = qty;
  cum = ℤ.pos 0;
  new_px = ℤ.pos 0;
  new_qty = ℤ.pos 0;
  instrument = inst;
  side = side;
  tif = tif;
  ord_type = type;
  status = OrdStatus.pending_new;
  pending = nothing_pending;
}

unfoldable pub new_request : OrderRow → (px : ℤ) → OrderRequest
new_request row px = record {
  cl_ord_id = row.id;
  orig_cl_ord_id = 0;
  tsc_decision = row.tsc_decision;
  strategy_tag = 0;
  price = px;
  qty = row.qty;
  instrument = row.instrument;
  type = ReqType.new;
  side = row.side;
  ord_type = row.ord_type;
  tif = row.tif;
}

-- A request about a live order.
unfoldable pub amend_request : ReqType → OrderRow → (id tsc : ℕ) → (px qty : ℤ) → OrderRequest
amend_request type row id tsc px qty = record {
  cl_ord_id = id;
  orig_cl_ord_id = id;
  tsc_decision = tsc;
  strategy_tag = row.strategy_tag;
  price = px;
  qty = qty;
  instrument = row.instrument;
  type = type;
  side = row.side;
  ord_type = row.ord_type;
  tif = row.tif;
}

unfoldable pub record_tick_to_order : {D : Doubles} → ExecContext D → (tsc : ℕ) → ExecContext D
record_tick_to_order x tsc =
    if x.in_tick
    then record x {
      st = record x.st {
        tick_to_order = record_cycles x.st.tick_to_order ((tsc + 2 ^ 64 - x.frame_tsc_in) % 2 ^ 64);
      };
    }
    else x

module _ (slots max_rows : ℕ) (hash : ℕ → ℕ) {D : Doubles} {R : Type 0}
    (route : R → OrderRequest → R × Bool) (instruments : ℕ → Instrument) where
  abbrev rejected : StrategyContext D R → RejectReason → StrategyContext D R
  rejected c r = record c { x = count_reject c.x r }

  -- What `submit` checks, the room in the table last.
  unfoldable pub submit_check :
      StrategyContext D R → Side → (px qty : ℤ) → Tif → OrdType → (now : ℤ) → RejectReason
  submit_check c side px qty tif type now =
      let x = c.x in
      let inst = x.view.u.instrument in
      let oc : OrderCheck = record {
        instrument = inst;
        side = side;
        ord_type = type;
        tif = tif;
        px = px;
        qty = qty;
        mid2 = mid2 x.view;
        now_ns = now;
      } in
      let r = check_new x.risk oc (instruments inst) x.account x.orders x.rate x.control_flags in
      if is_none r && full slots max_rows hash x.orders then RejectReason.table_full else r

  -- The order is recorded, and taken out again if the router has no room for it. The result is
  -- the identifier, 0 for INVALID_ORDER.
  unfoldable pub place :
      StrategyContext D R → OrderRow → (px now : ℤ) → (tsc : ℕ) → Option (StrategyContext D R × ℕ)
  place c row px now tsc = do
    let x = c.x
    inserted ← insert slots max_rows hash x.orders row
    let routed = route c.router (new_request row px)
    (if routed.1
        then (let sent : ExecContext D = record x {
          orders = inserted.0;
          account = reserve x.account row.instrument row.side row.px row.qty;
          rate = charge x.rate row.instrument RateOp.add (ℤ.pos 0) now;
          st = record x.st { orders_new = up x.st.orders_new };
        } in
            some (record { x = record_tick_to_order sent tsc; router = routed.0 }, row.id))
        else (do
          orders' ← erase slots max_rows hash inserted.0 row.id
          some (
            record {
              x = count_reject (record x { orders = orders' }) RejectReason.ring_full;
              router = routed.0;
            },
            0,
          )))

  unfoldable pub submit :
      StrategyContext D R
      → Side
      → (px qty : ℤ) → Tif
      → OrdType
      → (tsc : ℕ → ℕ) → Option (StrategyContext D R × ℕ)
  submit c side px qty tif type tsc =
      let now = now_ns c.x (tsc 0) in
      let r = submit_check c side px qty tif type now in
      let fresh = next_id c.x.orders in
      let row =
        new_row fresh.1 c.x.view.u.instrument (tsc 1) now (mid2 c.x.view) side px qty tif type in
      let c' : StrategyContext D R = record c { x = record c.x { orders = fresh.0 } } in
      if is_none r then place c' row px now (tsc 2) else some (rejected c r, 0)

  -- The amendment of the order in row `i`, once it has passed the gate.
  unfoldable pub send_replace :
      StrategyContext D R
      → (i id : ℕ) → (px qty now : ℤ) → (tsc : ℕ → ℕ) → StrategyContext D R × Bool
  send_replace c i id px qty now tsc =
      let x = c.x in
      let row = x.orders.rows i in
      let routed = route c.router (amend_request ReqType.replace row id (tsc 1) px qty) in
      if routed.1
      then (let sent : ExecContext D = record x {
        orders = write_row x.orders i (record row {
          pending = record row.pending { replace = true };
          new_px = px;
          new_qty = qty;
        });
        rate = charge x.rate row.instrument RateOp.amend (order_age row now) now;
        st = record x.st { orders_replace = up x.st.orders_replace };
      } in
          (record { x = record_tick_to_order sent (tsc 2); router = routed.0 }, true))
      else (record { x = count_reject x RejectReason.ring_full; router = routed.0 }, false)

  unfoldable pub replace_row :
      StrategyContext D R → (i id : ℕ) → (px qty : ℤ) → (tsc : ℕ → ℕ) → StrategyContext D R × Bool
  replace_row c i id px qty tsc =
      let x = c.x in
      let row = x.orders.rows i in
      let now = now_ns x (tsc 0) in
      let r =
        check_replace x.risk row px qty (mid2 x.view) now (instruments row.instrument) x.account
          x.orders x.rate x.control_flags in
      if row.pending.cancel || row.pending.replace
      then (rejected c RejectReason.unknown_order, false)
      else if is_none r
      then send_replace c i id px qty now tsc
      else (rejected c r, false)

  unfoldable pub replace :
      StrategyContext D R
      → (id : ℕ) → (px qty : ℤ) → (tsc : ℕ → ℕ) → Option (StrategyContext D R × Bool)
  replace c id px qty tsc = do
    found ← find slots max_rows hash c.x.orders id
    elim found [
      | none ↦ some (rejected c RejectReason.unknown_order, false)
      | some i ↦ some (replace_row c i id px qty tsc)
    ]

  unfoldable pub cancel_row :
      StrategyContext D R → (i id : ℕ) → (tsc : ℕ → ℕ) → StrategyContext D R × Bool
  cancel_row c i id tsc =
      let x = c.x in
      let row = x.orders.rows i in
      let now = now_ns x (tsc 0) in
      let routed = route c.router (amend_request ReqType.cancel row id (tsc 1) row.px row.leaves) in
      if row.pending.cancel
      then (c, true)
      else if routed.1
      then (let sent : ExecContext D = record x {
        orders =
            write_row x.orders i (record row { pending = record row.pending { cancel = true } });
        rate = charge x.rate row.instrument RateOp.cancel (order_age row now) now;
        st = record x.st { orders_cancel = up x.st.orders_cancel };
      } in
          (record { x = sent; router = routed.0 }, true))
      else (record { x = count_reject x RejectReason.ring_full; router = routed.0 }, false)

  unfoldable pub cancel :
      StrategyContext D R → (id : ℕ) → (tsc : ℕ → ℕ) → Option (StrategyContext D R × Bool)
  cancel c id tsc = do
    found ← find slots max_rows hash c.x.orders id
    elim found [ none ↦ some (c, false) | some i ↦ some (cancel_row c i id tsc) ]

  -- The loop from row `i` on. A cancel leaves the number of rows as it is, so the loop has as many
  -- turns as there are rows at its start.
  unfoldable pub cancel_from :
      (left i : ℕ) → StrategyContext D R → (tsc : ℕ → ℕ → ℕ) → Option (StrategyContext D R)
  cancel_from zero i c tsc = some c
  cancel_from (suc left) i c tsc = do
    next ← cancel c (c.x.orders.rows i).id (tsc i)
    cancel_from left (i + 1) next.0 tsc

  unfoldable pub cancel_all : StrategyContext D R → (tsc : ℕ → ℕ → ℕ) → Option (StrategyContext D R)
  cancel_all c tsc = cancel_from c.x.orders.size 0 c tsc
