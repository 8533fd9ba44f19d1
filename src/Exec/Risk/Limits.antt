-- ===== src/Exec/Risk/Limits.antt =====
-- src/exec/risk.hpp: what holds of an order that the gate lets pass.
use low_latency_pipeline.Prelude.{
  ℕ, ◌<◌, ◌≡◌, ◌≢◌, inl, inr, refl, ap, sym, ◌∙◌, Bool, true, false, not, ◌&&◌, ◌||◌, arith, leb,
  ◌==◌, if◌then◌else◌, Bool-cases,
}
use low_latency_pipeline.Prelude.Int.{ℤ, ◌≤ℤ◌, ltb_ℤ, leb_ℤ, is_zero}
use low_latency_pipeline.Event.{Side}
use low_latency_pipeline.Messages.{OrdType, Instrument, has_kill, has_pause}
use low_latency_pipeline.Exec.Doubles.{Doubles}
use low_latency_pipeline.Exec.Orders.{OrderTable}
use low_latency_pipeline.Exec.Account.{Account, trades, notional, reservation}
use low_latency_pipeline.Exec.Rate.{RateModel, RateOp, would_allow}
use low_latency_pipeline.Exec.Risk.{RejectReason, is_none, RiskLimits, OrderCheck}
use low_latency_pipeline.Exec.Risk.Gate.{
  RiskGate, reject, ◌or_else◌, is_limit, zero, status_check, worst_position, abs_lots,
  side_available, insufficient, over, position_check, band_check, ref_px, check_new,
}

is_none-eq : (r : RejectReason) → is_none r ≡ true → r ≡ RejectReason.none
is_none-eq r h = ground arith

-- A chain of checks that lets an order pass does so at each of them.
passes :
    (r later : RejectReason)
    → (r or_else later) ≡ RejectReason.none
    → (r ≡ RejectReason.none) × (later ≡ RejectReason.none)
unfolding ◌or_else◌
passes r later h = elim (Bool-cases (is_none r)) [
  | inl e ↦ (is_none-eq r e, sym (ap (λ b. if b then later else r) e) ∙ h)
  | inr e ↦
      let stopped : r ≡ RejectReason.none = sym (ap (λ b. if b then later else r) e) ∙ h in
      absurd (true-ne-false (sym (ap is_none stopped) ∙ e))
]
  where
    true-ne-false : true ≡ false → ⊥
    true-ne-false e = ground arith

not_rejected :
    (b : Bool) (r : RejectReason) → is_none r ≡ false → reject b r ≡ RejectReason.none → b ≡ false
unfolding reject
not_rejected true r h k = absurd (ground (arith, h, k, ap is_none k))
not_rejected false r h k = refl

within : (limit value : ℤ) → over limit value ≡ false → is_zero limit ≡ false → value ≤ℤ limit
within limit value h k = ground arith

at_least :
    (limit value : ℤ)
    → ltb_ℤ zero limit && ltb_ℤ value limit ≡ false
    → ltb_ℤ zero limit ≡ true
    → limit ≤ℤ value
at_least limit value h k = ground arith

-- What the gate promises of an order that it lets pass.
pub record IsAccepted {D : Doubles} (g : RiskGate D) (o : OrderCheck) (inst : Instrument)
    (acct : Account) (orders : OrderTable) (rate : RateModel D) (control : ℕ) : Type 0 where
  pub not_killed : has_kill control ≡ false
  pub not_paused : has_pause control ≡ false
  pub traded : trades acct o.instrument ≡ true
  pub asset_is_allowed : g.allowed_inst o.instrument ≡ true
  pub market_open : status_check o inst ≡ RejectReason.none
  pub has_qty : ltb_ℤ zero o.qty ≡ true
  pub has_price : o.ord_type ≡ OrdType.limit → ltb_ℤ zero o.px ≡ true
  pub large_enough : ltb_ℤ zero inst.min_qty_lots ≡ true → inst.min_qty_lots ≤ℤ o.qty
  pub worth_enough :
      ltb_ℤ zero inst.min_notional ≡ true
      → inst.min_notional ≤ℤ notional acct o.instrument (ref_px o) o.qty
  pub qty_limit : is_zero g.limits.max_order_qty ≡ false → o.qty ≤ℤ g.limits.max_order_qty
  pub notional_limit :
      is_zero g.limits.max_order_notional ≡ false
      → notional acct o.instrument (ref_px o) o.qty ≤ℤ g.limits.max_order_notional
  pub position_limit :
      is_zero g.limits.max_position ≡ false
      → abs_lots (worst_position acct orders o.instrument o.side o.qty) ≤ℤ g.limits.max_position
  pub position_notional_limit :
      is_zero g.limits.max_position_notional ≡ false
      → notional acct o.instrument
          (ref_px o)
          (abs_lots (worst_position acct orders o.instrument o.side o.qty))
        ≤ℤ g.limits.max_position_notional
  pub room_for_order : g.limits.max_open_orders ≢ 0 → orders.size < g.limits.max_open_orders
  pub room_at_venue : rate.enabled ≡ true → orders.live o.instrument < rate.params.max_open
  pub in_band : band_check g.limits o.px o.mid2 ≡ RejectReason.none
  pub funded :
      g.limits.spot_only ≡ true
      → reservation acct o.instrument o.side (ref_px o) o.qty
        ≤ℤ side_available acct o.instrument o.side
  pub in_rate : would_allow rate o.instrument RateOp.add zero o.now_ns ≡ true

position_check-within :
    {D : Doubles} (lim : RiskLimits D) (inst : ℕ) (side : Side) (add_qty px : ℤ) (acct : Account)
    (orders : OrderTable)
    → position_check lim inst side add_qty px acct orders ≡ RejectReason.none
    → (is_zero lim.max_position ≡ false
        → abs_lots (worst_position acct orders inst side add_qty) ≤ℤ lim.max_position)
      × (is_zero lim.max_position_notional ≡ false
          → notional acct inst px (abs_lots (worst_position acct orders inst side add_qty))
            ≤ℤ lim.max_position_notional)
unfolding position_check
position_check-within lim inst side add_qty px acct orders h =
    let worst = abs_lots (worst_position acct orders inst side add_qty) in
    let value = notional acct inst px worst in
    both (is_zero lim.max_position) (is_zero lim.max_position_notional)
      (over lim.max_position worst) (over lim.max_position_notional value)
      (worst ≤ℤ lim.max_position) (value ≤ℤ lim.max_position_notional)
      (within lim.max_position worst) (within lim.max_position_notional value) h
  where
    checked :
        (o1 o2 : Bool) (P Q : Type 0) (z1 z2 : Bool)
        → (o1 ≡ false → z1 ≡ false → P)
        → (o2 ≡ false → z2 ≡ false → Q)
        → (reject o1 RejectReason.max_position or_else reject o2 RejectReason.max_position_notional)
          ≡ RejectReason.none
        → (z1 ≡ false → P) × (z2 ≡ false → Q)
    checked o1 o2 P Q z1 z2 f g h =
        let parts =
          passes (reject o1 RejectReason.max_position)
            (reject o2 RejectReason.max_position_notional) h in
        (
          f (not_rejected o1 RejectReason.max_position refl parts.0),
          g (not_rejected o2 RejectReason.max_position_notional refl parts.1),
        )

    both :
        (z1 z2 o1 o2 : Bool) (P Q : Type 0)
        → (o1 ≡ false → z1 ≡ false → P)
        → (o2 ≡ false → z2 ≡ false → Q)
        → (if z1 && z2
            then RejectReason.none
            else (reject o1 RejectReason.max_position
                or_else reject o2 RejectReason.max_position_notional))
          ≡ RejectReason.none
        → (z1 ≡ false → P) × (z2 ≡ false → Q)
    both true true o1 o2 P Q f g h =
        (λ e. absurd (ground (arith, e)), λ e. absurd (ground (arith, e)))
    both false z2 o1 o2 P Q f g h = checked o1 o2 P Q false z2 f g h
    both true false o1 o2 P Q f g h = checked o1 o2 P Q true false f g h

insufficient-reason : (s : Side) → is_none (insufficient s) ≡ false
insufficient-reason Side.buy = refl
insufficient-reason Side.sell = refl

-- An order that the gate lets pass is within every limit that is set: no operator's stop is in
-- force, the instrument is traded, allowed and open to it, its quantity and value are within the
-- instrument's and the process's bounds, the position would stay within its limits if every open
-- order of its side filled, there is room for it, it is funded if only spot is traded, and the
-- venue's rate counter has room.
pub check_new-IsAccepted :
    {D : Doubles} (g : RiskGate D) (o : OrderCheck) (inst : Instrument) (acct : Account)
    (orders : OrderTable) (rate : RateModel D) (control : ℕ)
    → check_new g o inst acct orders rate control ≡ RejectReason.none
    → IsAccepted g o inst acct orders rate control
unfolding check_new
check_new-IsAccepted g o inst acct orders rate control h0 =
    let (c1, h1) = passes _ _ h0 in
    let (c2, h2) = passes _ _ h1 in
    let (c3, h3) = passes _ _ h2 in
    let (c4, h4) = passes _ _ h3 in
    let (c5, h5) = passes _ _ h4 in
    let (c6, h6) = passes _ _ h5 in
    let (c7, h7) = passes _ _ h6 in
    let (c8, h8) = passes _ _ h7 in
    let (c9, h9) = passes _ _ h8 in
    let (c10, h10) = passes _ _ h9 in
    let (c11, h11) = passes _ _ h10 in
    let (c12, h12) = passes _ _ h11 in
    let (c13, h13) = passes _ _ h12 in
    let (c14, h14) = passes _ _ h13 in
    let (c15, c16) = passes _ _ h14 in
    let positions =
      position_check-within g.limits o.instrument o.side o.qty (ref_px o) acct orders c11 in
    record {
      not_killed = not_rejected _ _ refl c1;
      not_paused = not_rejected _ _ refl c2;
      traded = is_true _ (not_rejected _ _ refl c3);
      asset_is_allowed = is_true _ (not_rejected _ _ refl c4);
      market_open = c5;
      has_qty = proper_qty o.qty _ (not_rejected _ _ refl c6);
      has_price = λ e. proper_price o.qty o.px o.ord_type e (not_rejected _ _ refl c6);
      large_enough = at_least inst.min_qty_lots _ (not_rejected _ _ refl c7);
      worth_enough = at_least inst.min_notional _ (not_rejected _ _ refl c8);
      qty_limit = within g.limits.max_order_qty _ (not_rejected _ _ refl c9);
      notional_limit = within g.limits.max_order_notional _ (not_rejected _ _ refl c10);
      position_limit = positions.0;
      position_notional_limit = positions.1;
      room_for_order = λ e. below _ _ e (not_rejected _ _ refl c12);
      room_at_venue = λ e. under rate.enabled _ _ e (not_rejected _ _ refl c13);
      in_band = c14;
      funded = λ e.
          covered g.limits.spot_only (side_available acct o.instrument o.side)
            (reservation acct o.instrument o.side (ref_px o) o.qty) e
            (not_rejected _ _ (insufficient-reason o.side) c15);
      in_rate = is_true _ (not_rejected _ _ refl c16);
    }
  where
    is_true : (b : Bool) → not b ≡ false → b ≡ true
    is_true b h = ground arith

    proper_qty : (q : ℤ) (b : Bool) → leb_ℤ q zero || b ≡ false → ltb_ℤ zero q ≡ true
    proper_qty q b h = ground arith

    proper_price :
        (q px : ℤ) (t : OrdType)
        → t ≡ OrdType.limit
        → leb_ℤ q zero || (is_limit t && leb_ℤ px zero) ≡ false
        → ltb_ℤ zero px ≡ true
    proper_price q px t e h = ground arith

    below : (limit n : ℕ) → limit ≢ 0 → not (limit == 0) && leb limit n ≡ false → n < limit
    below limit n e h = ground arith

    under : (b : Bool) (limit n : ℕ) → b ≡ true → b && leb limit n ≡ false → n < limit
    under b limit n e h = ground arith

    covered : (b : Bool) (avail need : ℤ) → b ≡ true → b && ltb_ℤ avail need ≡ false → need ≤ℤ avail
    covered b avail need e h = ground arith
