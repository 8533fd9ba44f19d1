-- ===== src/Exec/Context.antt =====
-- src/exec/exec_context.hpp: `ExecContext`, what the execution process owns, and the effect of a venue's
-- report on the orders and the account. The order table's parameters are those of Exec/Orders.
use low_latency_pipeline.Prelude.{
  ℕ, ◌+◌, ◌%◌, ◌^◌, Bool, false, Option, none, some, ◌==◌, if◌then◌else◌, update, ◌>>=◌,
}
use low_latency_pipeline.Prelude.Int.{ℤ, ◌+ℤ◌, ◌-ℤ◌, ltb_ℤ, is_zero}
use low_latency_pipeline.Histogram.{Histogram}
use low_latency_pipeline.Messages.{ExecType, OrdStatus, ExecReport}
use low_latency_pipeline.Exec.Doubles.{Doubles}
use low_latency_pipeline.Exec.Orders.{
  OrderTable, OrderRow, find, set_leaves, erase, nothing_pending,
}
use low_latency_pipeline.Exec.Account.{Account, reserve, release}
use low_latency_pipeline.Exec.Account.Fill.{on_fill}
use low_latency_pipeline.Exec.Rate.{RateModel}
use low_latency_pipeline.Exec.Risk.{RejectReason, reason_index}
use low_latency_pipeline.Exec.Risk.Gate.{RiskGate}
use low_latency_pipeline.Exec.View.{MarketView}
pub mod Reports

-- The counters of `stats::ExecStats` that the process changes as it runs.
pub record ExecStats : Type 0 where
  pub feed_transit : Histogram
  pub tick : Histogram
  pub tick_to_order : Histogram
  pub frames : ℕ
  pub orders_new : ℕ
  pub orders_cancel : ℕ
  pub risk_rejects : ℕ
  pub ring_full_rejects : ℕ
  pub orders_replace : ℕ
  pub acks : ℕ
  pub venue_rejects : ℕ
  pub canceled : ℕ
  pub replaced : ℕ
  pub expired : ℕ
  pub fills : ℕ
  pub unsolicited : ℕ
  pub rejects : ℕ → ℕ

pub record ExecContext (D : Doubles) : Type 0 where
  pub view : MarketView D
  pub account : Account
  pub orders : OrderTable
  pub risk : RiskGate D
  pub rate : RateModel D
  pub event_clock : Bool
  pub tsc_per_ns : D.W
  pub event_ns : ℤ
  pub frame_tsc_in : ℕ
  pub in_tick : Bool
  pub control_flags : ℕ
  pub last_reject : RejectReason
  pub st : ExecStats

-- `++` on a uint64_t.
abbrev pub up : ℕ → ℕ
up n = (n + 1) % 2 ^ 64

-- Writes through a pointer to row `i`.
abbrev pub write_row : OrderTable → ℕ → OrderRow → OrderTable
write_row t i r = record t { rows = update t.rows i r }

module _ {D : Doubles} where
  -- `tsc` is the reading of the counter, which event time does without.
  unfoldable pub now_ns : ExecContext D → (tsc : ℕ) → ℤ
  now_ns x tsc =
      if x.event_clock then x.event_ns else D.to_int (D.div (D.of_int (ℤ.pos tsc)) x.tsc_per_ns)

  unfoldable pub count_reject : ExecContext D → RejectReason → ExecContext D
  count_reject x r =
      let full = reason_index r == 21 in
      record x {
        last_reject = r;
        st = record x.st {
          rejects = update x.st.rejects (reason_index r) (up (x.st.rejects (reason_index r)));
          ring_full_rejects = if full then up x.st.ring_full_rejects else x.st.ring_full_rejects;
          risk_rejects = if full then x.st.risk_rejects else up x.st.risk_rejects;
        };
      }

  abbrev pub with_st : ExecContext D → ExecStats → ExecContext D
  with_st x st = record x { st = st }

  unfoldable pub on_ack : ExecContext D → ℕ → (tsc : ℕ) → ExecContext D
  on_ack x i tsc = record x {
    orders =
        write_row x.orders i
          (record (x.orders.rows i) { status = OrdStatus.new; t_ack_ns = now_ns x tsc });
    st = record x.st { acks = up x.st.acks };
  }

  -- The part of an execution before the test whether the order is done.
  unfoldable pub on_execution :
      ExecContext D → ℕ → ExecReport → (status : OrdStatus) → ExecContext D
  on_execution x i rep status =
      let r = x.orders.rows i in
      let q = rep.last_qty in
      let account' =
        on_fill x.account r.instrument r.side rep.last_px q r.px rep.fee (rep.fee_ccy == 1) in
      let cum_written = write_row x.orders i (record r { cum = r.cum +ℤ q }) in
      let left = set_leaves cum_written i (if ltb_ℤ q r.leaves then r.leaves -ℤ q else ℤ.pos 0) in
      record x {
        account = account';
        orders = write_row left i (record (left.rows i) { status = status });
        st = record x.st { fills = up x.st.fills };
      }

  unfoldable pub on_replaced : ExecContext D → ℕ → ExecContext D
  on_replaced x i =
      let r = x.orders.rows i in
      let released = release x.account r.instrument r.side r.px r.leaves in
      let amended = write_row x.orders i (record r { px = r.new_px; qty = r.new_qty }) in
      let left = set_leaves amended i (r.new_qty -ℤ r.cum) in
      let r' = left.rows i in
      record x {
        account = reserve released r'.instrument r'.side r'.px r'.leaves;
        orders = write_row left i (record r' { pending = record r'.pending { replace = false } });
        st = record x.st { replaced = up x.st.replaced };
      }

  unfoldable pub on_cancel_reject : ExecContext D → ℕ → ExecContext D
  on_cancel_reject x i = record x {
    orders = write_row x.orders i (record (x.orders.rows i) { pending = nothing_pending });
  }

module _ (slots max_rows : ℕ) (hash : ℕ → ℕ) {D : Doubles} where
  -- The end of the order in row `i`.
  unfoldable pub finish : ExecContext D → ℕ → Option (ExecContext D)
  finish x i = do
    let r = x.orders.rows i
    let account' = release x.account r.instrument r.side r.px r.leaves
    orders' ← erase slots max_rows hash x.orders r.id
    some (record x { account = account'; orders = orders' })

  unfoldable pub apply_fill :
      ExecContext D → ℕ → ExecReport → (status : OrdStatus) → Option (ExecContext D)
  apply_fill x i rep status =
      let x' = on_execution x i rep status in
      if is_zero (x'.orders.rows i).leaves then finish x' i else some x'

  -- The switch on the kind of the report, for an order that is known.
  unfoldable pub apply_to_row : ExecContext D → ℕ → ExecReport → (tsc : ℕ) → Option (ExecContext D)
  apply_to_row x i rep tsc = elim rep.exec_type [
    | ExecType.ack ↦ some (on_ack x i tsc)
    | ExecType.partial_fill ↦ apply_fill x i rep OrdStatus.partially_filled
    | ExecType.fill ↦ apply_fill x i rep OrdStatus.filled
    | ExecType.replaced ↦ some (on_replaced x i)
    | ExecType.canceled ↦ finish (with_st x (record x.st { canceled = up x.st.canceled })) i
    | ExecType.expired ↦ finish (with_st x (record x.st { expired = up x.st.expired })) i
    | ExecType.reject ↦ finish (with_st x (record x.st { venue_rejects = up x.st.venue_rejects })) i
    | ExecType.cancel_reject ↦ some (on_cancel_reject x i)
    | ExecType.restated ↦ some x
  ]

  unfoldable pub apply_report : ExecContext D → ExecReport → (tsc : ℕ) → Option (ExecContext D)
  apply_report x rep tsc = do
    row ← find slots max_rows hash x.orders rep.cl_ord_id
    elim row [
      | none ↦ some (with_st x (record x.st { unsolicited = up x.st.unsolicited }))
      | some i ↦ apply_to_row x i rep tsc
    ]
