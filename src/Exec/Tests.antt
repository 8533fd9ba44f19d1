-- ===== src/Exec/Tests.antt =====
-- The theorems about the execution process, put to the small states of Exec/Samples.
use low_latency_pipeline.Prelude.{
  ℕ, ◌+◌, ◌-◌, ◌≤◌, ◌<◌, ◌≡◌, ◌≢◌, ◌⊎◌, refl, true, false, not, ◌||◌, arith, some, List, [], ◌∷◌,
  ◌++◌, length, ◌==◌,
}
use low_latency_pipeline.Prelude.Int.{ℤ, ◌+ℤ◌, ◌-ℤ◌, ◌*ℤ◌, ◌/ℤ◌, to_i64}
use low_latency_pipeline.Event.{Side}
use low_latency_pipeline.Messages.{OrdType, Tif, ExecReport, Instrument}
use low_latency_pipeline.Exec.Account.{
  flat, tl_to_money, notional, pow10, reservation, base_units, available, base_balance,
  quote_balance,
}
use low_latency_pipeline.Exec.Account.Cost.{fill_all, lots_of, cash_of, fill_all-paid_in}
use low_latency_pipeline.Exec.Rate.{RateOp, count, ceiling, would_allow, charge, kraken_rate_cost}
use low_latency_pipeline.Exec.Rate.Budget.{charge-le-ceiling}
use low_latency_pipeline.Exec.Router.{NullRouter, queue_size, submit, poll}
use low_latency_pipeline.Exec.Router.Answers.{
  Waits, stamped, wanted, outcomes, Answered, submit-poll,
}
use low_latency_pipeline.Exec.Risk.{RejectReason}
use low_latency_pipeline.Exec.Risk.Gate.{
  reject, ◌or_else◌, status_check, worst_position, position_check, band_check, check_new,
}
use low_latency_pipeline.Exec.Risk.Limits.{IsAccepted, check_new-IsAccepted}
use low_latency_pipeline.Exec.View.{on_update, has_feed_reset, next_seq}
use low_latency_pipeline.Exec.View.Gaps.{last_seq, frame_count, on_updates, on_updates-gaps}
use low_latency_pipeline.Update.{MarketUpdate}
use low_latency_pipeline.Exec.Orders.{id_hash}
use low_latency_pipeline.Exec.Context.{now_ns, count_reject}
use low_latency_pipeline.Exec.Strategy
use low_latency_pipeline.Exec.Strategy.{StrategyContext}
use low_latency_pipeline.Exec.Strategy.Safety.{asked, submit-IsAccepted}
use low_latency_pipeline.Exec.Samples.{
  whole, request, idle_router, instrument, account, no_orders, rate, gate, order, frame, view,
  context,
}

-- Five lots bought at 10, three sold at 12 and four sold at 11: two are short.
abbrev trades : List (ℤ × ℤ)
trades = (ℤ.pos 10, ℤ.pos 5) ∷ (ℤ.pos 12, ℤ.negsuc 2) ∷ (ℤ.pos 11, ℤ.negsuc 3) ∷ []

fill_all-paid_in_example :
    ((fill_all flat trades).qty ≡ flat.qty +ℤ lots_of trades)
    × ((fill_all flat trades).cost -ℤ (fill_all flat trades).realized
        ≡ flat.cost -ℤ flat.realized +ℤ cash_of trades)
    × ((fill_all flat trades).qty ≡ ℤ.pos 0
        → (fill_all flat trades).realized ≡ flat.realized -ℤ flat.cost -ℤ cash_of trades)
fill_all-paid_in_example = fill_all-paid_in flat trades (λ h. refl)

allowed : would_allow rate 0 RateOp.add (ℤ.pos 0) (ℤ.pos 1000) ≡ true
unfolding would_allow count kraken_rate_cost ◌+ℤ◌ ◌-ℤ◌ ◌*ℤ◌ ◌/ℤ◌
allowed = refl

charge-le-ceiling_example :
    (whole.le
        (count (charge rate 0 RateOp.add (ℤ.pos 0) (ℤ.pos 1000)) 0 (ℤ.pos 1000))
        (ceiling (charge rate 0 RateOp.add (ℤ.pos 0) (ℤ.pos 1000)))
      ≡ true)
    × ((other : ℕ)
        → other ≢ 0
        → (charge rate 0 RateOp.add (ℤ.pos 0) (ℤ.pos 1000)).counters other ≡ rate.counters other)
charge-le-ceiling_example =
    charge-le-ceiling whole rate 0 RateOp.add (ℤ.pos 0) (ℤ.pos 1000) refl allowed

idle-Waits : Waits idle_router []
idle-Waits = (0, record { head_at = refl; tail_at = omega arith; fits = omega arith; items = tt })

abbrev nothing : List ExecReport
nothing = []

submit-poll_example :
    (queue_size < length nothing + wanted request
      → submit idle_router request ≡ (idle_router, false))
    × (length nothing + wanted request ≤ queue_size
        → (r' : NullRouter) × (new_reps : List ExecReport) × (submit idle_router request
            ≡ (r', true))
          × Answered request (outcomes request) new_reps
          × Waits r' (nothing ++ new_reps)
          × ((fuel : ℕ) (tsc : ℕ → ℕ)
              → queue_size < fuel
              → (idle : NullRouter) × (poll fuel r' tsc
                  ≡ some (stamped fuel tsc (nothing ++ new_reps), idle))
                × Waits idle []))
submit-poll_example = submit-poll idle_router request nothing idle-Waits

passed : check_new gate order instrument account no_orders rate 0 ≡ RejectReason.none
unfolding check_new reject ◌or_else◌ status_check position_check worst_position band_check notional
    tl_to_money pow10 to_i64 reservation base_units available base_balance quote_balance would_allow
    count kraken_rate_cost ◌+ℤ◌ ◌-ℤ◌ ◌*ℤ◌ ◌/ℤ◌
passed = refl

check_new-IsAccepted_example : IsAccepted gate order instrument account no_orders rate 0
check_new-IsAccepted_example =
    check_new-IsAccepted gate order instrument account no_orders rate 0 passed

on_updates-gaps_example :
    ((on_updates view (frame 6 ∷ frame 9 ∷ [])).frame_gaps
      ≡ view.frame_gaps
        + (last_seq 5 (frame 6 ∷ frame 9 ∷ []) - (5 + frame_count (frame 6 ∷ frame 9 ∷ []))))
    × ((u : MarketUpdate)
        → (on_update view u).feed_reset
          ≡ (has_feed_reset u.flags || not (u.event_seq == next_seq view.u.event_seq)))
on_updates-gaps_example =
    on_updates-gaps view (frame 6 ∷ frame 9 ∷ []) refl
      ((omega arith, omega arith), ((omega arith, omega arith), tt)) (omega arith)

abbrev start : StrategyContext whole NullRouter
start = record { x = context; router = idle_router }

-- The sample instrument under every number.
abbrev instruments : ℕ → Instrument
instruments i = instrument

submit-IsAccepted_example :
    ((reason : RejectReason) × (Strategy.submit 8 4 id_hash submit instruments start Side.buy
          (ℤ.pos 50)
          (ℤ.pos 2)
          Tif.gtc
          OrdType.limit
          (λ n. n)
        ≡ some (record start { x = count_reject start.x reason }, 0)))
    ⊎ (IsAccepted start.x.risk
          (asked 8 4 id_hash whole NullRouter submit instruments start Side.buy
            (ℤ.pos 50)
            (ℤ.pos 2)
            Tif.gtc
            OrdType.limit
            (now_ns start.x 0))
          instrument
          start.x.account
          start.x.orders
          start.x.rate
          start.x.control_flags
        × (start.x.orders.size ≢ 4))
submit-IsAccepted_example =
    submit-IsAccepted 8 4 id_hash whole NullRouter submit instruments start Side.buy (ℤ.pos 50)
      (ℤ.pos 2) Tif.gtc OrdType.limit (λ n. n)
