-- ===== src/Exec/Account/Fill.antt =====
-- src/exec/account.hpp: `Account::on_fill`, an execution's effect on the balances and on the position at
-- average cost.
use low_latency_pipeline.Prelude.{ℕ, ◌+◌, ◌^◌, ◌%◌, Bool, true, false, ◌&&◌, not, if◌then◌else◌}
use low_latency_pipeline.Prelude.Int.{ℤ, ◌+ℤ◌, ◌-ℤ◌, ◌*ℤ◌, ◌/ℤ◌, ltb_ℤ, to_i64, is_zero}
use low_latency_pipeline.Event.{Side}
use low_latency_pipeline.Exec.Account.{
  Account, Inst, Position, entry, notional, base_units, release, add_total,
}
use low_latency_pipeline.Exec.Account.Equity.{track_equity, set_position}

abbrev pub signed : Side → ℤ → ℤ
signed Side.buy qty = qty
signed Side.sell qty = ℤ.pos 0 -ℤ qty

abbrev pub bought_lots : Side → ℤ → ℤ
bought_lots Side.buy qty = qty
bought_lots Side.sell qty = ℤ.pos 0

abbrev pub sold_lots : Side → ℤ → ℤ
sold_lots Side.buy qty = ℤ.pos 0
sold_lots Side.sell qty = qty

-- `p.qty > 0`
abbrev pub is_long : ℤ → Bool
is_long q = ltb_ℤ (ℤ.pos 0) q

abbrev pub size_of : ℤ → ℤ
size_of q = if is_long q then q else ℤ.pos 0 -ℤ q

-- The lots that a fill of `rest` closes of an open position `q`.
abbrev pub closed_lots : (q rest : ℤ) → ℤ
closed_lots q rest = if ltb_ℤ (size_of rest) (size_of q) then size_of rest else size_of q

abbrev pub toward_zero : (q r : ℤ) → ℤ
toward_zero q r = if is_long q then q -ℤ r else q +ℤ r

-- The reduction of a position by a fill in the other direction.
unfoldable pub reduce_position : Position → (px rest : ℤ) → Position
reduce_position p px rest =
    let r = closed_lots p.qty rest in
    let removed = p.cost *ℤ r /ℤ size_of p.qty in
    let sgn = if is_long p.qty then ℤ.pos 1 else ℤ.negsuc 0 in
    let qty' = toward_zero p.qty r in
    record p {
      realized = p.realized +ℤ (sgn *ℤ px *ℤ r -ℤ removed);
      cost = if is_zero qty' then ℤ.pos 0 else p.cost -ℤ removed;
      qty = qty';
    }

-- The opening of what is left of the fill.
unfoldable pub open_position : Position → (px rest : ℤ) → Position
open_position p px rest =
    if is_zero rest then p else record p { cost = p.cost +ℤ px *ℤ rest; qty = p.qty +ℤ rest }

-- `!=` on Booleans.
abbrev pub differ : Bool → Bool → Bool
differ true b = not b
differ false b = b

-- The average-cost part of `on_fill`.
unfoldable pub fill_position : Position → (px signed_qty : ℤ) → Position
fill_position p px rest =
    if not (is_zero p.qty) && differ (is_long p.qty) (is_long rest)
    then open_position (reduce_position p px rest) px (toward_zero rest (closed_lots p.qty rest))
    else open_position p px rest

-- `p.fees` for a fee in the base asset, at the price of the fill.
abbrev pub base_fee_value : Inst → (fee value qty : ℤ) → ℤ
base_fee_value i fee value qty =
    if is_zero i.base_per_lot then ℤ.pos 0 else to_i64 (fee *ℤ value /ℤ (qty *ℤ i.base_per_lot))

-- The balances and counters of `on_fill`, before the position changes.
unfoldable pub settle : Account → ℕ → Side → (px qty fee : ℤ) → (fee_in_base : Bool) → Account
settle a inst side px qty fee fee_in_base =
    let i = entry a inst in
    let p = i.position in
    let value = notional a inst px qty in
    let units = base_units a inst qty in
    let paid =
      add_total (add_total a i.base (signed side units)) i.quote (ℤ.pos 0 -ℤ signed side value) in
    let charged = add_total paid (if fee_in_base then i.base else i.quote) (ℤ.pos 0 -ℤ fee) in
    set_position charged inst (record p {
      bought = p.bought +ℤ bought_lots side qty;
      sold = p.sold +ℤ sold_lots side qty;
      fees = p.fees +ℤ (if fee_in_base then base_fee_value i fee value qty else fee);
      fills = (p.fills + 1) % 2 ^ 32;
    })

unfoldable pub on_fill :
    Account → ℕ → Side → (px qty order_px fee : ℤ) → (fee_in_base : Bool) → Account
on_fill a inst side px qty order_px fee fee_in_base =
    let released = release a inst side order_px qty in
    let settled = settle released inst side px qty fee fee_in_base in
    track_equity
      (set_position settled inst (fill_position (entry settled inst).position px (signed side qty)))
