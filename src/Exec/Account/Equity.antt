-- ===== src/Exec/Account/Equity.antt =====
-- src/exec/account.hpp: marks, profit and equity of `Account`, its peak and largest drawdown, and the
-- snapshots of positions and balances.
use low_latency_pipeline.Prelude.{
  ℕ, zero, suc, ◌+◌, ◌-◌, ◌^◌, ◌||◌, List, [], ◌∷◌, not, if◌then◌else◌, update,
}
use low_latency_pipeline.Prelude.Int.{ℤ, ◌+ℤ◌, ◌-ℤ◌, ◌*ℤ◌, ◌/ℤ◌, ltb_ℤ, to_i64, is_zero, equal_ℤ}
use low_latency_pipeline.Exec.Account.{Account, Position, Balance, entry, slot, trades, tl_to_money}

-- A write through the reference `in(inst).pos`.
abbrev pub set_position : Account → ℕ → Position → Account
set_position a inst p = record a {
  inst = update a.inst (slot a inst) (record (entry a inst) { position = p });
}

unfoldable pub realized : Account → ℕ → ℤ
realized a inst = tl_to_money (entry a inst) (entry a inst).position.realized

unfoldable pub unrealized : Account → ℕ → ℤ
unrealized a inst =
    let p = (entry a inst).position in
    if is_zero p.mark2 || is_zero p.qty
    then ℤ.pos 0
    else tl_to_money (entry a inst) ((p.qty *ℤ p.mark2 -ℤ ℤ.pos 2 *ℤ p.cost) /ℤ ℤ.pos 2)

-- The loop of `equity` over the first `n` slots.
unfoldable pub equity_of : Account → ℕ → ℤ
equity_of a zero = ℤ.pos 0
equity_of a (suc k) =
    let i = a.inst k in equity_of a k +ℤ (realized a i.id +ℤ unrealized a i.id -ℤ i.position.fees)

unfoldable pub equity : Account → ℤ
equity a = equity_of a a.n_inst

unfoldable pub track_equity : Account → Account
track_equity a =
    let e = equity a in
    let peak' = if ltb_ℤ a.peak e then e else a.peak in
    record a { peak = peak'; max_dd = if ltb_ℤ a.max_dd (peak' -ℤ e) then peak' -ℤ e else a.max_dd }

-- `EMPTY_BID` and `EMPTY_ASK`.
abbrev pub no_bid : ℤ
no_bid = ℤ.pos 0

abbrev pub no_ask : ℤ
no_ask = ℤ.pos (2 ^ 63 - 1)

unfoldable pub mark : Account → ℕ → (bid ask : ℤ) → Account
mark a inst bid ask =
    if not (trades a inst) || equal_ℤ bid no_bid || equal_ℤ ask no_ask
    then a
    else track_equity (set_position a inst (record (entry a inst).position { mark2 = bid +ℤ ask }))

unfoldable pub avg_px : Account → ℕ → ℤ
avg_px a inst =
    let p = (entry a inst).position in if is_zero p.qty then ℤ.pos 0 else to_i64 (p.cost /ℤ p.qty)

-- A row of `stats::PositionStats`, with the fields that `snapshot` sets.
pub record PositionRow : Type 0 where
  pub instrument : ℕ
  pub qty_lots : ℤ
  pub avg_px_ticks : ℤ
  pub realized_pnl : ℤ
  pub unrealized_pnl : ℤ
  pub fees : ℤ
  pub bought : ℤ
  pub sold : ℤ
  pub peak_equity : ℤ
  pub max_drawdown : ℤ
  pub fills : ℕ

unfoldable pub position_row : Account → ℕ → PositionRow
position_row a k =
    let i = a.inst k in
    record {
      instrument = i.id;
      qty_lots = i.position.qty;
      avg_px_ticks = avg_px a i.id;
      realized_pnl = realized a i.id;
      unrealized_pnl = unrealized a i.id;
      fees = i.position.fees;
      bought = i.position.bought;
      sold = i.position.sold;
      peak_equity = a.peak;
      max_drawdown = a.max_dd;
      fills = i.position.fills;
    }

-- The rows from `k` on, of `left` instruments.
unfoldable pub position_rows : Account → (left k : ℕ) → List PositionRow
position_rows a zero k = []
position_rows a (suc left) k = position_row a k ∷ position_rows a left (k + 1)

unfoldable pub snapshot_positions : Account → List PositionRow
snapshot_positions a = position_rows a a.n_inst 0

unfoldable pub balance_rows : Account → (left k : ℕ) → List Balance
balance_rows a zero k = []
balance_rows a (suc left) k = a.bal k ∷ balance_rows a left (k + 1)

unfoldable pub snapshot_balances : Account → List Balance
snapshot_balances a = balance_rows a a.n_assets 0
