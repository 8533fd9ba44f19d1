-- ===== src/Exec/Strategy/Safety.antt =====
-- src/exec/strategy.hpp: no new order reaches the router without passing the gate.
use low_latency_pipeline.Prelude.{
  ℕ, ◌≡◌, ◌≢◌, ◌⊎◌, inl, inr, refl, ap, sym, ◌∙◌, Bool, true, false, ◌&&◌, arith, some,
  if◌then◌else◌, Bool-cases,
}
use low_latency_pipeline.Prelude.Int.{ℤ}
use low_latency_pipeline.Event.{Side}
use low_latency_pipeline.Messages.{OrdType, Tif, OrderRequest, Instrument, has_kill, has_pause}
use low_latency_pipeline.Exec.Doubles.{Doubles}
use low_latency_pipeline.Exec.Orders.{full}
use low_latency_pipeline.Exec.Risk.{RejectReason, is_none, OrderCheck}
use low_latency_pipeline.Exec.Risk.Gate.{check_new}
use low_latency_pipeline.Exec.Risk.Limits.{IsAccepted, check_new-IsAccepted}
use low_latency_pipeline.Exec.View.{mid2}
use low_latency_pipeline.Exec.Context.{now_ns, count_reject}
use low_latency_pipeline.Exec.Strategy.{StrategyContext, submit_check, submit}

true_ne_false : true ≡ false → ⊥
true_ne_false e = ground arith

module _ (slots max_rows : ℕ) (hash : ℕ → ℕ) (D : Doubles) (R : Type 0)
    (route : R → OrderRequest → R × Bool) (instruments : ℕ → Instrument) (c : StrategyContext D R)
    (side : Side) (px qty : ℤ) (tif : Tif) (type : OrdType) where
  -- The order that the gate is asked about.
  abbrev pub asked : (now : ℤ) → OrderCheck
  asked now = record {
    instrument = c.x.view.u.instrument;
    side = side;
    ord_type = type;
    tif = tif;
    px = px;
    qty = qty;
    mid2 = mid2 c.x.view;
    now_ns = now;
  }

  abbrev gate : (now : ℤ) → RejectReason
  gate now =
      check_new c.x.risk (asked now) (instruments c.x.view.u.instrument) c.x.account c.x.orders
        c.x.rate c.x.control_flags

  is_none-eq : (r : RejectReason) → is_none r ≡ true → r ≡ RejectReason.none
  is_none-eq r h = ground arith

  -- A check that nothing stops was passed by the gate, with room in the table.
  gate_passed :
      (r : RejectReason) (b : Bool)
      → is_none (if is_none r && b then RejectReason.table_full else r) ≡ true
      → (r ≡ RejectReason.none) × (b ≡ false)
  gate_passed r true h = absurd (stopped (is_none r) refl)
    where
      stopped : (t : Bool) → is_none r ≡ t → ⊥
      stopped true e =
          true_ne_false
            (sym h ∙ ap (λ t. is_none (if t && true then RejectReason.table_full else r)) e)
      stopped false e =
          true_ne_false
            (sym h ∙ ap (λ t. is_none (if t && true then RejectReason.table_full else r)) e ∙ e)
  gate_passed r false h = (is_none-eq r (passed (is_none r) refl), refl)
    where
      passed : (t : Bool) → is_none r ≡ t → is_none r ≡ true
      passed true e = e
      passed false e = absurd (
          true_ne_false
            (sym h ∙ ap (λ t. is_none (if t && false then RejectReason.table_full else r)) e ∙ e))

  submit-rejected :
      (tsc : ℕ → ℕ)
      → is_none (
          submit_check slots max_rows hash route instruments c side px qty tif type
            (now_ns c.x (tsc 0)))
        ≡ false
      → submit slots max_rows hash route instruments c side px qty tif type tsc
        ≡ some (
          record c {
            x = count_reject c.x (
                submit_check slots max_rows hash route instruments c side px qty tif type
                  (now_ns c.x (tsc 0)));
          },
          0,
        )
  unfolding submit
  submit-rejected tsc h = rw h refl

  check_passed :
      (now : ℤ)
      → is_none (submit_check slots max_rows hash route instruments c side px qty tif type now)
        ≡ true
      → (gate now ≡ RejectReason.none) × (full slots max_rows hash c.x.orders ≡ false)
  unfolding submit_check
  check_passed now h = gate_passed (gate now) (full slots max_rows hash c.x.orders) h

  -- Any call of submit: either it ends with INVALID_ORDER and all that changed is the last reject
  -- and its counters, or the order passed the gate, so that it is within every limit that is set,
  -- and the table has room for it.
  pub submit-IsAccepted :
      (tsc : ℕ → ℕ)
      → ((reason : RejectReason) × (submit slots max_rows hash route instruments c side px qty tif
              type tsc
            ≡ some (record c { x = count_reject c.x reason }, 0)))
        ⊎ (IsAccepted c.x.risk
              (asked (now_ns c.x (tsc 0)))
              (instruments c.x.view.u.instrument)
              c.x.account
              c.x.orders
              c.x.rate
              c.x.control_flags
            × (c.x.orders.size ≢ max_rows))
  submit-IsAccepted tsc =
      let now = now_ns c.x (tsc 0) in
      let reason = submit_check slots max_rows hash route instruments c side px qty tif type now in
      elim (Bool-cases (is_none reason)) [
        | inr h ↦ inl (reason, submit-rejected tsc h)
        | inl h ↦
            let (passed, room) = check_passed now h in
            inr (
              check_new-IsAccepted c.x.risk (asked now) (instruments c.x.view.u.instrument)
                  c.x.account c.x.orders c.x.rate c.x.control_flags passed,
              λ e. ground (arith, room, e),
            )
      ]

  -- With the operator's KILL or PAUSE set, submit ends with INVALID_ORDER, whatever the order: the
  -- router, the orders, the account and the rate counter stay as they are.
  pub submit-stopped :
      (tsc : ℕ → ℕ)
      → (has_kill c.x.control_flags ≡ true) ⊎ (has_pause c.x.control_flags ≡ true)
      → (reason : RejectReason) × (submit slots max_rows hash route instruments c side px qty tif
            type tsc
          ≡ some (record c { x = count_reject c.x reason }, 0))
  submit-stopped tsc stop = elim (submit-IsAccepted tsc) [
    | inl r ↦ r
    | inr a ↦ absurd (elim stop [
      | inl k ↦ true_ne_false (sym k ∙ a.0.not_killed)
      | inr k ↦ true_ne_false (sym k ∙ a.0.not_paused)
    ])
  ]
