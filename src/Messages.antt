-- ===== src/Messages.antt =====
-- src/common/ipc/order_msgs.hpp, src/common/ipc/control.hpp and src/common/ipc/instrument.hpp: the requests
-- and reports between the execution process and a venue, the operator's flags, and the reference
-- data of an instrument.
use low_latency_pipeline.Prelude.{ℕ, ◌/◌, ◌%◌, Bool, List, ◌==◌}
use low_latency_pipeline.Prelude.Int.{ℤ}
use low_latency_pipeline.Event.{Side}

pub data ReqType : Type 0 where
  new cancel replace cancel_all : ReqType

pub data OrdType : Type 0 where
  limit market : OrdType

pub data Tif : Type 0 where
  gtc ioc fok post_only : Tif

pub record OrderRequest : Type 0 where
  pub cl_ord_id : ℕ
  pub orig_cl_ord_id : ℕ
  pub tsc_decision : ℕ
  pub strategy_tag : ℕ
  pub price : ℤ
  pub qty : ℤ
  pub instrument : ℕ
  pub type : ReqType
  pub side : Side
  pub ord_type : OrdType
  pub tif : Tif

pub data ExecType : Type 0 where
  ack reject partial_fill fill canceled cancel_reject replaced expired restated : ExecType

pub data OrdStatus : Type 0 where
  pending_new new partially_filled filled canceled rejected expired : OrdStatus

-- `fee_ccy` is 0 for the quote asset and 1 for the base. An unset `exec_type` is not a constructor:
-- the program sends no such report.
pub record ExecReport : Type 0 where
  pub cl_ord_id : ℕ
  pub orig_cl_ord_id : ℕ
  pub strategy_tag : ℕ
  pub tsc_sent : ℕ
  pub tsc_recv : ℕ
  pub venue_ts_ns : ℕ
  pub last_px : ℤ
  pub last_qty : ℤ
  pub cum_qty : ℤ
  pub leaves_qty : ℤ
  pub fee : ℤ
  pub instrument : ℕ
  pub exec_type : ExecType
  pub ord_status : OrdStatus
  pub liquidity : ℕ
  pub reject_reason : ℕ
  pub fee_ccy : ℕ

-- `ControlBits`, as the tests `flags & KILL` and so on.
abbrev pub has_shutdown : ℕ → Bool
has_shutdown flags = flags % 2 == 1

abbrev pub has_kill : ℕ → Bool
has_kill flags = flags / 2 % 2 == 1

abbrev pub has_pause : ℕ → Bool
has_pause flags = flags / 4 % 2 == 1

abbrev pub has_swap : ℕ → Bool
has_swap flags = flags / 8 % 2 == 1

-- The values of `InstrumentStatus`; the field of an instrument is any byte.
abbrev pub status_online : ℕ
status_online = 0

abbrev pub status_post_only : ℕ
status_post_only = 1

abbrev pub status_limit_only : ℕ
status_limit_only = 2

abbrev pub status_cancel_only : ℕ
status_cancel_only = 3

abbrev pub status_halted : ℕ
status_halted = 4

-- `symbol` and `venue` are the bytes before the terminating zero.
pub record Instrument : Type 0 where
  pub tick_mant : ℤ
  pub lot_mant : ℤ
  pub min_qty_lots : ℤ
  pub min_notional : ℤ
  pub symbol : List ℕ
  pub venue : List ℕ
  pub tick_exp : ℤ
  pub lot_exp : ℤ
  pub price_precision : ℕ
  pub qty_precision : ℕ
  pub status : ℕ
