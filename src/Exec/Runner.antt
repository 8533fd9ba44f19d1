-- ===== src/Exec/Runner.antt =====
-- src/exec/runner.hpp: the hot loop of the execution process, for any strategy and router. A strategy is
-- its callbacks on the state that they share; the feed is the queue that its ring stands for.
use low_latency_pipeline.Prelude.{
  ℕ, zero, suc, ◌+◌, ◌-◌, ◌%◌, ◌^◌, Bool, true, false, Option, none, some, List, [], ◌∷◌, leb, ◌==◌,
  if◌then◌else◌, ◌>>=◌,
}
use low_latency_pipeline.Prelude.Int.{ℤ, to_i64}
use low_latency_pipeline.Histogram.{record_cycles}
use low_latency_pipeline.Messages.{ExecReport, has_swap}
use low_latency_pipeline.Update.{MarketUpdate}
use low_latency_pipeline.Exec.Doubles.{Doubles}
use low_latency_pipeline.Exec.Account.Equity.{mark}
use low_latency_pipeline.Exec.View.{on_update}
use low_latency_pipeline.Exec.Context.{ExecContext, up, apply_report}
use low_latency_pipeline.Exec.Strategy.{StrategyContext}

pub data RunExit : Type 0 where
  shutdown swap : RunExit

-- `strat` is the strategy's own state.
pub record Run (D : Doubles) (R S : Type 0) : Type 0 where
  pub ctx : StrategyContext D R
  pub strat : S

-- The callbacks; a hook that a strategy does not define is `some`.
pub record Strategy (D : Doubles) (R S : Type 0) : Type 0 where
  pub on_tick : Run D R S → Option (Run D R S)
  pub on_exec : Run D R S → ExecReport → Option (Run D R S)
  pub on_timer : Run D R S → Option (Run D R S)

-- The router's side of the loop: `take` is one turn of `poll`, with the reading of the counter.
pub record Router (R : Type 0) : Type 0 where
  pub take : R → (tsc : ℕ) → Option (ExecReport × R)
  pub on_frame : R → MarketUpdate → R

module _ {D : Doubles} {R S : Type 0} where
  abbrev pub with_x : Run D R S → ExecContext D → Run D R S
  with_x run x = record run { ctx = record run.ctx { x = x } }

  abbrev pub with_router : Run D R S → R → Run D R S
  with_router run r = record run { ctx = record run.ctx { router = r } }

-- A difference of two readings on uint64_t.
abbrev pub elapsed : (later earlier : ℕ) → ℕ
elapsed later earlier = (later + 2 ^ 64 - earlier) % 2 ^ 64

module _ (slots max_rows : ℕ) (hash : ℕ → ℕ) {D : Doubles} {R S : Type 0} (router : Router R)
    (strategy : Strategy D R S) where
  -- The loop of `poll` with the callback: the report is applied before the strategy sees it. A
  -- callback may submit, and what the router then queues is polled too.
  unfoldable pub poll_reports : (fuel : ℕ) → Run D R S → (tsc : ℕ → ℕ) → Option (Run D R S)
  poll_reports zero run tsc = none
  poll_reports (suc fuel) run tsc = elim (router.take run.ctx.router (tsc fuel)) [
    | none ↦ some run
    | some next ↦ (do
      x' ← apply_report slots max_rows hash run.ctx.x next.0 (tsc fuel)
      told ← strategy.on_exec (with_x (with_router run next.1) x') next.0
      poll_reports fuel told tsc)
  ]

  -- What `handle_frame` does before the strategy's turn.
  unfoldable pub before_tick : Run D R S → MarketUpdate → (t0 : ℕ) → Run D R S
  before_tick run u t0 =
      let x = run.ctx.x in
      let x' : ExecContext D = record x {
        st = record x.st { feed_transit = record_cycles x.st.feed_transit (elapsed t0 u.tsc_in) };
        view = on_update x.view u;
        frame_tsc_in = u.tsc_in;
        event_ns = to_i64 (ℤ.pos u.event_time);
        account = mark x.account u.instrument (ℤ.pos u.best_bid) (ℤ.pos u.best_ask);
        in_tick = true;
      } in
      with_router (with_x run x') (router.on_frame run.ctx.router u)

  unfoldable pub after_tick : Run D R S → (cycles : ℕ) → Run D R S
  after_tick run cycles =
      let x = run.ctx.x in
      with_x run (record x {
        st = record x.st { tick = record_cycles x.st.tick cycles; frames = up x.st.frames };
        in_tick = false;
      })

  unfoldable pub handle_frame : Run D R S → MarketUpdate → (t0 t1 t2 : ℕ) → Option (Run D R S)
  handle_frame run u t0 t1 t2 = do
    ticked ← strategy.on_tick (before_tick run u t0)
    some (after_tick ticked (elapsed t2 t1))

  -- The loop that finishes what was published before the shutdown. `tsc` gives the readings of each
  -- turn, which are told apart by the frames that are left.
  unfoldable pub drain :
      (fuel : ℕ) → Run D R S → List MarketUpdate → (tsc : ℕ → ℕ → ℕ) → Option (Run D R S)
  drain fuel run [] tsc = poll_reports fuel run (tsc 0)
  drain fuel run (u ∷ feed) tsc = do
    let t = tsc (suc (size_of feed))
    polled ← poll_reports fuel run t
    handled ← handle_frame polled u (t 0) (t 1) (t 2)
    drain fuel handled feed tsc
    where
      size_of : List MarketUpdate → ℕ
      size_of [] = 0
      size_of (u ∷ us) = suc (size_of us)

  -- The timer's turn in every 1024th iteration; what it publishes is not kept here.
  unfoldable pub timer_turn :
      Run D R S → (iter next_timer timer_cycles now : ℕ) → Option (Run D R S × ℕ)
  timer_turn run iter next_timer timer_cycles now =
      if iter % 1024 == 0
      then (if leb next_timer now
          then (do run' ← strategy.on_timer run; some (run', (now + timer_cycles) % 2 ^ 64))
          else some (run, next_timer))
      else some (run, next_timer)

  -- One iteration that neither ends nor reloads: reports, then at most one frame.
  unfoldable pub work :
      (fuel : ℕ) → Run D R S → Option MarketUpdate → (tsc : ℕ → ℕ) → Option (Run D R S)
  work fuel run frame tsc = do
    polled ← poll_reports fuel run tsc
    elim frame [ none ↦ some polled | some u ↦ handle_frame polled u (tsc 0) (tsc 1) (tsc 2) ]

  -- One iteration of `run_strategy`: the new state, and how the loop ends if it does.
  unfoldable pub iterate :
      (fuel : ℕ)
      → Run D R S
      → (control : ℕ) → (stop : Bool) → List MarketUpdate
      → (tsc : ℕ → ℕ → ℕ) → Option (Run D R S × Option RunExit)
  iterate fuel run control stop feed tsc =
      let controlled = with_x run (record run.ctx.x { control_flags = control }) in
      if stop
      then (do drained ← drain fuel controlled feed tsc; some (drained, some RunExit.shutdown))
      else (if has_swap control
          then some (controlled, some RunExit.swap)
          else (do worked ← work fuel controlled (first feed) (tsc 0); some (worked, none)))
    where
      first : List MarketUpdate → Option MarketUpdate
      first [] = none
      first (u ∷ us) = some u
