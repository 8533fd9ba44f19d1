-- ===== src/Exec/Router.antt =====
-- src/exec/router.hpp: `NullRouter`, which answers every request itself: the reports wait in a ring
-- until the next poll. `read_tsc` is an argument.
pub mod Answers
use low_latency_pipeline.Prelude.{
  ℕ, zero, suc, ◌+◌, ◌%◌, Bool, true, false, ◌&&◌, ◌||◌, Option, none, some, List, [], ◌∷◌, ltb,
  ◌==◌, if◌then◌else◌, update,
}
use low_latency_pipeline.Prelude.Int.{ℤ}
use low_latency_pipeline.Ring.{add32, sub32}
use low_latency_pipeline.Messages.{ReqType, Tif, OrderRequest, ExecType, OrdStatus, ExecReport}

pub record NullRouter : Type 0 where
  pub q : ℕ → ExecReport
  pub head : ℕ
  pub tail : ℕ

-- QUEUE
abbrev pub queue_size : ℕ
queue_size = 1024

-- An order that is filled at once or not at all.
abbrev pub is_immediate : Tif → Bool
is_immediate Tif.gtc = false
is_immediate Tif.ioc = true
is_immediate Tif.fok = true
is_immediate Tif.post_only = false

unfoldable pub needed : OrderRequest → ℕ
needed req = elim req.type [
  | ReqType.new ↦ if is_immediate req.tif then 2 else 1
  | ReqType.cancel ↦ 1
  | ReqType.replace ↦ 1
  | ReqType.cancel_all ↦ 1
]

unfoldable pub push : NullRouter → ExecReport → NullRouter
push r rep = record r { q = update r.q (r.tail % queue_size) rep; tail = add32 r.tail 1 }

-- `r`, with the fields that are the same for every answer; the others are zero.
abbrev pub answer : OrderRequest → ExecType → OrdStatus → ℤ → ExecReport
answer req kind status leaves = record {
  cl_ord_id = req.cl_ord_id;
  orig_cl_ord_id = req.orig_cl_ord_id;
  strategy_tag = req.strategy_tag;
  tsc_sent = req.tsc_decision;
  tsc_recv = 0;
  venue_ts_ns = 0;
  last_px = ℤ.pos 0;
  last_qty = ℤ.pos 0;
  cum_qty = ℤ.pos 0;
  leaves_qty = leaves;
  fee = ℤ.pos 0;
  instrument = req.instrument;
  exec_type = kind;
  ord_status = status;
  liquidity = 0;
  reject_reason = 0;
  fee_ccy = 0;
}

-- The reports that a request is answered with, in their order.
unfoldable pub answers : OrderRequest → List ExecReport
answers req = elim req.type [
  | ReqType.new ↦
      answer req ExecType.ack OrdStatus.new req.qty
      ∷ (if needed req == 2
          then answer req ExecType.expired OrdStatus.expired (ℤ.pos 0) ∷ []
          else [])
  | ReqType.cancel ↦ answer req ExecType.canceled OrdStatus.canceled (ℤ.pos 0) ∷ []
  | ReqType.replace ↦ answer req ExecType.replaced OrdStatus.new req.qty ∷ []
  | ReqType.cancel_all ↦ []
]

unfoldable pub push_all : NullRouter → List ExecReport → NullRouter
push_all r [] = r
push_all r (rep ∷ reps) = push_all (push r rep) reps

unfoldable pub submit : NullRouter → OrderRequest → NullRouter × Bool
submit r req =
    if ltb (sub32 queue_size (sub32 r.tail r.head)) (needed req)
    then (r, false)
    else (push_all r (answers req), true)

-- One turn of the loop of `poll`: the report that the callback gets.
unfoldable pub take_report : NullRouter → (tsc : ℕ) → Option (ExecReport × NullRouter)
take_report r tsc =
    let rep : ExecReport = record (r.q (r.head % queue_size)) { tsc_recv = tsc } in
    if r.head == r.tail
    then none
    else some (rep, record r { q = update r.q (r.head % queue_size) rep; head = add32 r.head 1 })

-- The loop with a callback that leaves the router alone: the reports that it hands over. `tsc n`
-- is the reading when `n` turns are left.
unfoldable pub poll : ℕ → NullRouter → (ℕ → ℕ) → Option (List ExecReport × NullRouter)
poll zero r tsc = none
poll (suc fuel) r tsc = elim (take_report r (tsc fuel)) [
  | none ↦ some ([], r)
  | some next ↦ elim (poll fuel next.1 tsc) [
    | none ↦ none
    | some rest ↦ some (next.0 ∷ rest.0, rest.1)
  ]
]
