-- ===== src/Event.antt =====
-- src/common/event.hpp: the internal event that the parser produces and the core applies.
use low_latency_pipeline.Prelude.{ℕ, List}

pub data Side : Type 0 where
  sell buy : Side

-- `message_type` is the ITCH character, `stock` the eight bytes of the ticker.
pub record Event : Type 0 where
  pub message_type : ℕ
  pub stock_locate : ℕ
  pub tracking_number : ℕ
  pub timestamp : ℕ
  pub order_ref_number : ℕ
  pub side : Side
  pub shares : ℕ
  pub stock : List ℕ
  pub price : ℕ
  pub match_number : ℕ
  pub new_order_ref_number : ℕ
  pub tsc_in : ℕ
