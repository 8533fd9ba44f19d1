-- ===== src/Exec/Account.antt =====
-- src/exec/account.hpp: `Account`, positions, profit and balances of the instruments that the process
-- trades. Signed 64- and 128-bit sums are exact here, since their overflow is undefined in C++; a
-- conversion from 128 to 64 bits wraps. `in` of an instrument that is not registered reads out of
-- bounds in the code, and slot 0 here.
pub mod Equity
pub mod Fill
pub mod Cost
use low_latency_pipeline.Prelude.{
  ℕ, zero, suc, ◌+◌, ◌^◌, Bool, true, false, ◌||◌, ◌&&◌, not, Option, none, some, List, [], ◌∷◌,
  take, ◌==◌, if◌then◌else◌, update,
}
use low_latency_pipeline.Prelude.Int.{
  ℤ, pos_part, neg_part, ◌+ℤ◌, ◌-ℤ◌, ◌*ℤ◌, ◌/ℤ◌, ltb_ℤ, leb_ℤ, to_i64, is_zero,
}
use low_latency_pipeline.Event.{Side}
use low_latency_pipeline.Messages.{Instrument}

-- `pow10_i128`: the loop multiplies while `e` is above 0.
unfoldable pub pow10 : ℤ → ℤ
pow10 e = ℤ.pos (10 ^ pos_part e)

abbrev pub same_bytes : List ℕ → List ℕ → Bool
same_bytes [] [] = true
same_bytes [] (y ∷ ys) = false
same_bytes (x ∷ xs) [] = false
same_bytes (x ∷ xs) (y ∷ ys) = (x == y) && same_bytes xs ys

-- `strpbrk(symbol, "/-")` with what stands before and after it.
unfoldable pub split_at : List ℕ → Option (List ℕ × List ℕ)
split_at [] = none
split_at (c ∷ cs) =
    if (c == 47) || (c == 45)
    then some ([], cs)
    else elim (split_at cs) [ none ↦ none | some s ↦ some (c ∷ s.0, s.1) ]

-- Names of at most 7 bytes, as the arrays of 8 bytes hold; a bare ticker is quoted in "USD".
unfoldable pub split_symbol : List ℕ → List ℕ × List ℕ
split_symbol symbol = elim (split_at symbol) [
  | none ↦ (take 7 symbol, 85 ∷ 83 ∷ 68 ∷ [])
  | some s ↦ (take 7 s.0, take 7 s.1)
]

pub record Position : Type 0 where
  pub qty : ℤ
  pub cost : ℤ
  pub realized : ℤ
  pub fees : ℤ
  pub bought : ℤ
  pub sold : ℤ
  pub mark2 : ℤ
  pub fills : ℕ

pub record Balance : Type 0 where
  pub name : List ℕ
  pub total : ℤ
  pub reserved : ℤ

unfoldable pub available : Balance → ℤ
available b = b.total -ℤ b.reserved

pub record Inst : Type 0 where
  pub id : ℕ
  pub base : ℕ
  pub quote : ℕ
  pub tl_exp : ℤ
  pub tl_mul : ℤ
  pub base_per_lot : ℤ
  pub position : Position

-- `slot_of` is `none` for NO_SLOT.
pub record Account : Type 0 where
  pub slot_of : ℕ → Option ℕ
  pub inst : ℕ → Inst
  pub n_inst : ℕ
  pub bal : ℕ → Balance
  pub n_assets : ℕ
  pub peak : ℤ
  pub max_dd : ℤ

abbrev pub flat : Position
flat = record {
  qty = ℤ.pos 0;
  cost = ℤ.pos 0;
  realized = ℤ.pos 0;
  fees = ℤ.pos 0;
  bought = ℤ.pos 0;
  sold = ℤ.pos 0;
  mark2 = ℤ.pos 0;
  fills = 0;
}

-- MAX_TRADED and MAX_ASSETS.
abbrev pub max_traded : ℕ
max_traded = 16

abbrev pub max_assets : ℕ
max_assets = 16

-- The loop of `asset`: the first of the remaining names that agrees in its 8 bytes.
unfoldable pub asset_from : (ℕ → Balance) → List ℕ → (left i : ℕ) → Option ℕ
asset_from bal name zero i = none
asset_from bal name (suc left) i =
    let rest = asset_from bal name left (i + 1) in
    if same_bytes (take 8 (bal i).name) (take 8 name) then some i else rest

unfoldable pub asset : Account → List ℕ → Account × Option ℕ
asset a name = elim (asset_from a.bal name a.n_assets 0) [
  | some i ↦ (a, some i)
  | none ↦ if a.n_assets == max_assets then (a, none) else (
    record a {
      bal =
          update a.bal a.n_assets
            (record { name = take 7 name; total = ℤ.pos 0; reserved = ℤ.pos 0 });
      n_assets = a.n_assets + 1;
    },
    some a.n_assets,
  )
]

unfoldable pub inst_of : ℕ → Instrument → (base quote : ℕ) → Inst
inst_of inst row base quote = record {
  id = inst;
  base = base;
  quote = quote;
  tl_mul = row.tick_mant *ℤ row.lot_mant;
  tl_exp = row.tick_exp +ℤ row.lot_exp +ℤ ℤ.pos 8;
  base_per_lot = to_i64 (row.lot_mant *ℤ pow10 (row.lot_exp +ℤ ℤ.pos 8));
  position = flat;
}

unfoldable pub add_instrument : Account → ℕ → Instrument → Account × Bool
add_instrument a inst row = elim (a.slot_of inst) [
  | some k ↦ (a, true)
  | none ↦
      if a.n_inst == max_traded
      then (a, false)
      else (let names = split_symbol row.symbol in
          let with_base = asset a names.0 in
          let with_quote = asset with_base.0 names.1 in
          let a' = with_quote.0 in
          elim with_base.1 [
            | none ↦ (a', false)
            | some b ↦ elim with_quote.1 [
              | none ↦ (a', false)
              | some q ↦ (
                record a' {
                  inst = update a'.inst a'.n_inst (inst_of inst row b q);
                  slot_of = update a'.slot_of inst (some a'.n_inst);
                  n_inst = a'.n_inst + 1;
                },
                true,
              )
            ]
          ])
]

unfoldable pub set_balance : Account → List ℕ → ℤ → Account
set_balance a name total =
    let found = asset a name in
    elim found.1 [
      | none ↦ found.0
      | some i ↦ record found.0 {
        bal = update found.0.bal i (record (found.0.bal i) { total = total });
      }
    ]

abbrev pub trades : Account → ℕ → Bool
trades a inst = elim (a.slot_of inst) [ none ↦ false | some k ↦ true ]

abbrev pub slot : Account → ℕ → ℕ
slot a inst = elim (a.slot_of inst) [ none ↦ 0 | some k ↦ k ]

abbrev pub entry : Account → ℕ → Inst
entry a inst = a.inst (slot a inst)

-- Tick-lots in units of 10^-8 of the quote asset.
unfoldable pub tl_to_money : Inst → ℤ → ℤ
tl_to_money i tick_lots =
    let v = tick_lots *ℤ i.tl_mul in
    if leb_ℤ (ℤ.pos 0) i.tl_exp
    then to_i64 (v *ℤ pow10 i.tl_exp)
    else to_i64 (v /ℤ pow10 (ℤ.pos 0 -ℤ i.tl_exp))

unfoldable pub notional : Account → ℕ → (px qty : ℤ) → ℤ
notional a inst px qty = tl_to_money (entry a inst) (px *ℤ qty)

unfoldable pub base_units : Account → ℕ → ℤ → ℤ
base_units a inst lots = lots *ℤ (entry a inst).base_per_lot

unfoldable pub base_balance : Account → ℕ → Balance
base_balance a inst = a.bal (entry a inst).base

unfoldable pub quote_balance : Account → ℕ → Balance
quote_balance a inst = a.bal (entry a inst).quote

unfoldable pub reservation : Account → ℕ → Side → (px qty : ℤ) → ℤ
reservation a inst Side.buy px qty = notional a inst px qty
reservation a inst Side.sell px qty = base_units a inst qty

-- The index of `side_balance`.
unfoldable pub side_asset : Account → ℕ → Side → ℕ
side_asset a inst Side.buy = (entry a inst).quote
side_asset a inst Side.sell = (entry a inst).base

abbrev pub add_reserved : Account → ℕ → ℤ → Account
add_reserved a i d = record a {
  bal = update a.bal i (record (a.bal i) { reserved = (a.bal i).reserved +ℤ d });
}

abbrev pub add_total : Account → ℕ → ℤ → Account
add_total a i d = record a {
  bal = update a.bal i (record (a.bal i) { total = (a.bal i).total +ℤ d });
}

unfoldable pub reserve : Account → ℕ → Side → (px qty : ℤ) → Account
reserve a inst side px qty =
    add_reserved a (side_asset a inst side) (reservation a inst side px qty)

unfoldable pub release : Account → ℕ → Side → (px qty : ℤ) → Account
release a inst side px qty =
    add_reserved a (side_asset a inst side) (ℤ.pos 0 -ℤ reservation a inst side px qty)
