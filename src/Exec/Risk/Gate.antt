-- ===== src/Exec/Risk/Gate.antt =====
-- src/exec/risk.hpp: `check_new` and `check_replace`, the first reason that applies, in the code's
-- order, with the checks of status, position and price band that they share.
use low_latency_pipeline.Prelude.{
  ℕ, Bool, true, false, ◌&&◌, ◌||◌, not, List, leb, ◌==◌, if◌then◌else◌, update,
}
use low_latency_pipeline.Prelude.Int.{ℤ, ◌+ℤ◌, ◌-ℤ◌, ◌/ℤ◌, ltb_ℤ, leb_ℤ, is_zero}
use low_latency_pipeline.Event.{Side}
use low_latency_pipeline.Messages.{
  OrdType, Tif, Instrument, has_kill, has_pause, status_online, status_post_only, status_limit_only,
  status_cancel_only, status_halted,
}
use low_latency_pipeline.Exec.Doubles.{Doubles}
use low_latency_pipeline.Exec.Orders.{OrderTable, OrderRow}
use low_latency_pipeline.Exec.Account.{
  Account, entry, trades, notional, reservation, base_balance, quote_balance, available,
  split_symbol,
}
use low_latency_pipeline.Exec.Rate.{RateModel, RateOp, would_allow}
use low_latency_pipeline.Exec.Risk.{RejectReason, is_none, RiskLimits, OrderCheck}
use low_latency_pipeline.Exec.Risk.Allowed.{asset_allowed}

pub record RiskGate (D : Doubles) : Type 0 where
  pub limits : RiskLimits D
  pub allowed : List ℕ
  pub allowed_inst : ℕ → Bool

-- `if (b) return r;`
unfoldable pub reject : Bool → RejectReason → RejectReason
reject b r = if b then r else RejectReason.none

-- What is checked after `r`, if `r` lets the order pass.
infixr 4 ◌or_else◌
unfoldable pub ◌or_else◌ : RejectReason → RejectReason → RejectReason
r or_else later = if is_none r then later else r

abbrev pub is_limit : OrdType → Bool
is_limit OrdType.limit = true
is_limit OrdType.market = false

abbrev pub is_post_only : Tif → Bool
is_post_only Tif.gtc = false
is_post_only Tif.ioc = false
is_post_only Tif.fok = false
is_post_only Tif.post_only = true

abbrev pub is_buy : Side → Bool
is_buy Side.buy = true
is_buy Side.sell = false

abbrev pub zero : ℤ
zero = ℤ.pos 0

unfoldable pub status_check : OrderCheck → Instrument → RejectReason
status_check o inst =
    let blocked = RejectReason.instrument_status in
    if inst.status == status_online
    then RejectReason.none
    else if inst.status == status_post_only
    then (if is_post_only o.tif then RejectReason.none else blocked)
    else if inst.status == status_limit_only
    then (if is_limit o.ord_type then RejectReason.none else blocked)
    else blocked

-- The position if every open order of the side filled, and `add_qty` lots more.
unfoldable pub worst_position : Account → OrderTable → ℕ → Side → ℤ → ℤ
worst_position acct orders inst Side.buy add_qty =
    (entry acct inst).position.qty +ℤ orders.open_buy inst +ℤ add_qty
worst_position acct orders inst Side.sell add_qty =
    (entry acct inst).position.qty -ℤ orders.open_sell inst -ℤ add_qty

abbrev pub abs_lots : ℤ → ℤ
abs_lots q = if ltb_ℤ q zero then zero -ℤ q else q

-- The balance that an order of that side draws on.
abbrev pub side_available : Account → ℕ → Side → ℤ
side_available acct inst Side.buy = available (quote_balance acct inst)
side_available acct inst Side.sell = available (base_balance acct inst)

abbrev pub insufficient : Side → RejectReason
insufficient Side.buy = RejectReason.insufficient_quote
insufficient Side.sell = RejectReason.insufficient_base

-- A limit that is set, and is passed.
abbrev pub over : (limit value : ℤ) → Bool
over limit value = not (is_zero limit) && ltb_ℤ limit value

-- The price that an order is valued at: its limit, or the mid for a market order.
abbrev pub ref_px : OrderCheck → ℤ
ref_px o = if ltb_ℤ zero o.px then o.px else o.mid2 /ℤ ℤ.pos 2

module _ {D : Doubles} where
  unfoldable pub register_instrument : RiskGate D → ℕ → Instrument → RiskGate D
  register_instrument g inst row = record g {
    allowed_inst = update g.allowed_inst inst (asset_allowed g.allowed (split_symbol row.symbol).0);
  }

  unfoldable pub position_check :
      RiskLimits D → ℕ → Side → (add_qty px : ℤ) → Account → OrderTable → RejectReason
  position_check lim inst side add_qty px acct orders =
      let abs_worst = abs_lots (worst_position acct orders inst side add_qty) in
      if is_zero lim.max_position && is_zero lim.max_position_notional
      then RejectReason.none
      else (reject (over lim.max_position abs_worst) RejectReason.max_position
          or_else reject (over lim.max_position_notional (notional acct inst px abs_worst))
              RejectReason.max_position_notional)

  unfoldable pub band_check : RiskLimits D → (px mid2 : ℤ) → RejectReason
  band_check lim px mid2 =
      let mid = D.div (D.of_int mid2) (D.of_int (ℤ.pos 2)) in
      let dev_bp = D.mul (D.div (D.sub (D.of_int px) mid) mid) (D.decimal 10000 0) in
      if D.le lim.price_band_bp (D.of_int zero) || (leb_ℤ px zero || leb_ℤ mid2 zero)
      then RejectReason.none
      else if D.lt lim.price_band_bp dev_bp || D.lt dev_bp (D.neg lim.price_band_bp)
      then RejectReason.price_band
      else RejectReason.none

  unfoldable pub check_new :
      RiskGate D
      → OrderCheck
      → Instrument
      → Account
      → OrderTable
      → RateModel D
      → (control : ℕ) → RejectReason
  check_new g o inst acct orders rate control =
      let lim = g.limits in
      let value = notional acct o.instrument (ref_px o) o.qty in
      let need = reservation acct o.instrument o.side (ref_px o) o.qty in
      reject (has_kill control) RejectReason.kill
      or_else reject (has_pause control) RejectReason.pause
      or_else reject (not (trades acct o.instrument)) RejectReason.not_traded
      or_else reject (not (g.allowed_inst o.instrument)) RejectReason.not_allowed
      or_else status_check o inst
      or_else reject (leb_ℤ o.qty zero || (is_limit o.ord_type && leb_ℤ o.px zero))
          RejectReason.bad_order
      or_else reject (ltb_ℤ zero inst.min_qty_lots && ltb_ℤ o.qty inst.min_qty_lots)
          RejectReason.min_qty
      or_else reject (ltb_ℤ zero inst.min_notional && ltb_ℤ value inst.min_notional)
          RejectReason.min_notional
      or_else reject (over lim.max_order_qty o.qty) RejectReason.max_order_qty
      or_else reject (over lim.max_order_notional value) RejectReason.max_order_notional
      or_else position_check lim o.instrument o.side o.qty (ref_px o) acct orders
      or_else reject (not (lim.max_open_orders == 0) && leb lim.max_open_orders orders.size)
          RejectReason.max_open_orders
      or_else reject (rate.enabled && leb rate.params.max_open (orders.live o.instrument))
          RejectReason.open_order_limit
      or_else band_check lim o.px o.mid2
      or_else reject (lim.spot_only && ltb_ℤ (side_available acct o.instrument o.side) need)
          (insufficient o.side)
      or_else reject (not (would_allow rate o.instrument RateOp.add zero o.now_ns))
          RejectReason.rate_limit

  unfoldable pub check_replace :
      RiskGate D
      → OrderRow
      → (px qty mid2 now_ns : ℤ) → Instrument
      → Account
      → OrderTable
      → RateModel D
      → (control : ℕ) → RejectReason
  check_replace g row px qty mid2 now_ns inst acct orders rate control =
      let lim = g.limits in
      let value = notional acct row.instrument px qty in
      let new_leaves = qty -ℤ row.cum in
      let held = reservation acct row.instrument row.side row.px row.leaves in
      let need = reservation acct row.instrument row.side px new_leaves in
      let age = if is_zero row.t_ack_ns then zero else now_ns -ℤ row.t_ack_ns in
      reject (has_kill control) RejectReason.kill
      or_else reject (has_pause control) RejectReason.pause
      or_else reject ((inst.status == status_halted) || (inst.status == status_cancel_only))
          RejectReason.instrument_status
      or_else reject (leb_ℤ qty row.cum || leb_ℤ px zero) RejectReason.bad_order
      or_else reject (ltb_ℤ zero inst.min_qty_lots && ltb_ℤ qty inst.min_qty_lots)
          RejectReason.min_qty
      or_else reject (over lim.max_order_qty qty) RejectReason.max_order_qty
      or_else reject (over lim.max_order_notional value) RejectReason.max_order_notional
      or_else (if ltb_ℤ row.leaves new_leaves
          then position_check lim row.instrument row.side (new_leaves -ℤ row.leaves) px acct orders
          else RejectReason.none)
      or_else band_check lim px mid2
      or_else reject
          (lim.spot_only && ltb_ℤ (side_available acct row.instrument row.side) (need -ℤ held))
          (insufficient row.side)
      or_else reject (not (would_allow rate row.instrument RateOp.amend age now_ns))
          RejectReason.rate_limit
