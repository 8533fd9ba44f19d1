-- ===== src/Exec/Risk.antt =====
-- src/exec/risk.hpp: `RiskGate`, the checks that an order passes before it is recorded and routed.
pub mod Gate
pub mod Allowed
pub mod Limits
use low_latency_pipeline.Prelude.{ℕ, Bool, true, false, if◌then◌else◌}
use low_latency_pipeline.Prelude.Int.{ℤ}
use low_latency_pipeline.Event.{Side}
use low_latency_pipeline.Messages.{OrdType, Tif}
use low_latency_pipeline.Exec.Doubles.{Doubles}

-- `none` is the value 0.
pub data RejectReason : Type 0 where
  none kill pause not_traded not_allowed instrument_status bad_order min_qty min_notional :
      RejectReason
  max_order_qty max_order_notional max_position max_position_notional max_open_orders : RejectReason
  price_band insufficient_base insufficient_quote rate_limit open_order_limit : RejectReason
  unknown_order table_full ring_full : RejectReason

-- The number of a reason, which is its slot in `rejects`.
unfoldable pub reason_index : RejectReason → ℕ
reason_index RejectReason.none = 0
reason_index RejectReason.kill = 1
reason_index RejectReason.pause = 2
reason_index RejectReason.not_traded = 3
reason_index RejectReason.not_allowed = 4
reason_index RejectReason.instrument_status = 5
reason_index RejectReason.bad_order = 6
reason_index RejectReason.min_qty = 7
reason_index RejectReason.min_notional = 8
reason_index RejectReason.max_order_qty = 9
reason_index RejectReason.max_order_notional = 10
reason_index RejectReason.max_position = 11
reason_index RejectReason.max_position_notional = 12
reason_index RejectReason.max_open_orders = 13
reason_index RejectReason.price_band = 14
reason_index RejectReason.insufficient_base = 15
reason_index RejectReason.insufficient_quote = 16
reason_index RejectReason.rate_limit = 17
reason_index RejectReason.open_order_limit = 18
reason_index RejectReason.unknown_order = 19
reason_index RejectReason.table_full = 20
reason_index RejectReason.ring_full = 21

abbrev pub is_none : RejectReason → Bool
is_none r = elim r [ RejectReason.none ↦ true | _ ↦ false ]

pub record RiskLimits (D : Doubles) : Type 0 where
  pub max_order_qty : ℤ
  pub max_order_notional : ℤ
  pub max_position : ℤ
  pub max_position_notional : ℤ
  pub max_open_orders : ℕ
  pub price_band_bp : D.W
  pub spot_only : Bool

pub record OrderCheck : Type 0 where
  pub instrument : ℕ
  pub side : Side
  pub ord_type : OrdType
  pub tif : Tif
  pub px : ℤ
  pub qty : ℤ
  pub mid2 : ℤ
  pub now_ns : ℤ
