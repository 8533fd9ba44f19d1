-- ===== src/Exec/Router/Answers.antt =====
-- src/exec/router.hpp: the reports that wait in the null router are a queue, and each request that it
-- accepts is answered by the next poll.
use Prim.Native.Nat.{◌∣◌}
use native.Mathlib.Nat.{dvd_of_mod-eq-zero}
use low_latency_pipeline.Prelude.{
  ℕ, zero, suc, ◌+◌, ◌-◌, ◌%◌, ◌≤◌, ◌<◌, ◌≡◌, refl, ap, sym, ◌∙◌, subst, true, false, arith, ltb,
  ◌==◌, some, none, List, [], ◌∷◌, ◌++◌, append_assoc, length, length-append, update, update_self,
}
use low_latency_pipeline.Prelude.Mod.{mod_mod}
use low_latency_pipeline.Ring.{u32_mod, SpscRing, add32, sub32, publish, fill}
use low_latency_pipeline.Ring.Refine.{
  Slots, Represents, Slots-update, fill-Represents, publish-Represents, pop-Represents,
}
use low_latency_pipeline.Messages.{ReqType, Tif, OrderRequest, ExecType, OrdStatus, ExecReport}
use low_latency_pipeline.Prelude.Int.{ℤ}
use low_latency_pipeline.Exec.Router.{
  NullRouter, queue_size, needed, answer, push, push_all, answers, submit, take_report, poll,
}

abbrev ring_of : NullRouter → SpscRing ExecReport
ring_of r = record { head = r.head; tail = r.tail; slots = r.q }

abbrev From : NullRouter → ℕ → List ExecReport → Type 0
From r start reps = Represents queue_size (ring_of r) start reps

-- The reports `reps` wait in the router, oldest first.
abbrev pub Waits : NullRouter → List ExecReport → Type 0
Waits r reps = (start : ℕ) × From r start reps

queue_size_divides : queue_size ∣ u32_mod
queue_size_divides = dvd_of_mod-eq-zero queue_size refl

push-From :
    (r : NullRouter) (start : ℕ) (reps : List ExecReport) (rep : ExecReport)
    → From r start reps
    → length reps < queue_size
    → From (push r rep) start (reps ++ rep ∷ [])
unfolding push fill publish
push-From r start reps rep p room =
    let at : r.tail % queue_size ≡ (start + length reps) % queue_size =
      ap (λ t. t % queue_size) p.tail_at
      ∙ mod_mod queue_size u32_mod queue_size_divides (start + length reps) in
    let written =
      publish-Represents queue_size (fill-Represents queue_size p rep room) rep room
        (update_self r.q _ rep) in
    subst
      (λ i.
        Represents queue_size
          (record { head = r.head; tail = add32 r.tail 1; slots = update r.q i rep }) start
          (reps ++ rep ∷ []))
      (sym at) written

push_all-From :
    (r : NullRouter) (start : ℕ) (reps new_reps : List ExecReport)
    → From r start reps
    → length reps + length new_reps ≤ queue_size
    → From (push_all r new_reps) start (reps ++ new_reps)
unfolding push_all
push_all-From r start reps [] p room = subst (From r start) (sym (append_nil reps)) p
  where
    append_nil : (xs : List ExecReport) → xs ++ [] ≡ xs
    append_nil [] = refl
    append_nil (x ∷ xs) = ap (λ t. x ∷ t) (append_nil xs)
push_all-From r start reps (rep ∷ more) p room =
    subst (From (push_all (push r rep) more) start) (append_assoc reps (rep ∷ []) more) (
      push_all-From (push r rep) start (reps ++ rep ∷ []) more
        (push-From r start reps rep p (omega arith)) (omega (arith, length-append reps (rep ∷ []))))

-- What a poll hands over: the reports in their order, each with the time at which it is read.
abbrev pub stamped : ℕ → (ℕ → ℕ) → List ExecReport → List ExecReport
stamped zero tsc reps = []
stamped (suc fuel) tsc [] = []
stamped (suc fuel) tsc (rep ∷ reps) = record rep { tsc_recv = tsc fuel } ∷ stamped fuel tsc reps

take_report-empty : (r : NullRouter) (start tsc : ℕ) → From r start [] → take_report r tsc ≡ none
unfolding take_report
take_report-empty r start tsc p =
    let e : (r.head == r.tail) ≡ true = ground (arith, p.head_at, p.tail_at) in rw e refl

-- The router after the oldest report was stamped and taken.
abbrev taken : NullRouter → (tsc : ℕ) → NullRouter
taken r tsc = record r {
  q = update r.q (r.head % queue_size) (record (r.q (r.head % queue_size)) { tsc_recv = tsc });
  head = add32 r.head 1;
}

abbrev stamp : (tsc : ℕ) → ExecReport → ExecReport
stamp tsc rep = record rep { tsc_recv = tsc }

take_report-some :
    (r : NullRouter) (tsc : ℕ)
    → (r.head == r.tail) ≡ false
    → take_report r tsc ≡ some (stamp tsc (r.q (r.head % queue_size)), taken r tsc)
unfolding take_report
take_report-some r tsc e = rw e refl

take_report-next :
    (r : NullRouter) (start tsc : ℕ) (rep : ExecReport) (reps : List ExecReport)
    → From r start (rep ∷ reps)
    → (take_report r tsc ≡ some (record rep { tsc_recv = tsc }, taken r tsc))
      × From (taken r tsc) (start + 1) reps
unfolding take_report
take_report-next r start tsc rep reps p =
    let e : (r.head == r.tail) ≡ false = ground (arith, p.head_at, p.tail_at, p.fits) in
    let at : r.head % queue_size ≡ start % queue_size =
      ap (λ t. t % queue_size) p.head_at ∙ mod_mod queue_size u32_mod queue_size_divides start in
    let here : r.q (r.head % queue_size) ≡ rep = ap r.q at ∙ p.items.0 in
    let wrapped : (start + queue_size) % queue_size ≡ r.head % queue_size = omega (arith, at) in
    let rest = pop-Represents queue_size p in
    (
      take_report-some r tsc e ∙ ap (λ x. some (stamp tsc x, taken r tsc)) here,
      record {
        head_at = rest.head_at;
        tail_at = rest.tail_at;
        fits = rest.fits;
        items =
            subst
              (λ i.
                Slots queue_size
                  (update r.q i (record (r.q (r.head % queue_size)) { tsc_recv = tsc })) (start + 1)
                  reps)
              wrapped
              (Slots-update queue_size r.q (start + 1) (start + queue_size) reps _
                (omega (arith, p.fits)) (omega arith) rest.items);
      },
    )

poll-empty :
    (fuel : ℕ) (r : NullRouter) (start : ℕ) (tsc : ℕ → ℕ)
    → From r start []
    → poll (suc fuel) r tsc ≡ some ([], r)
unfolding poll
poll-empty fuel r start tsc p = rw (take_report-empty r start (tsc fuel) p, poll) refl

poll-next :
    (fuel : ℕ) (r r' r'' : NullRouter) (tsc : ℕ → ℕ) (rep : ExecReport) (reps : List ExecReport)
    → take_report r (tsc fuel) ≡ some (rep, r')
    → poll fuel r' tsc ≡ some (reps, r'')
    → poll (suc fuel) r tsc ≡ some (rep ∷ reps, r'')
unfolding poll
poll-next fuel r r' r'' tsc rep reps h k = rw (h, k, poll) refl

poll-From :
    (fuel : ℕ) (r : NullRouter) (start : ℕ) (reps : List ExecReport) (tsc : ℕ → ℕ)
    → From r start reps
    → length reps < fuel
    → (r' : NullRouter) × (poll fuel r tsc ≡ some (stamped fuel tsc reps, r')) × Waits r' []
poll-From zero r start reps tsc p h = absurd (omega arith)
poll-From (suc fuel) r start [] tsc p h = (r, poll-empty fuel r start tsc p, (start, p))
poll-From (suc fuel) r start (rep ∷ reps) tsc p h =
    let (head_eq, q) = take_report-next r start (tsc fuel) rep reps p in
    let (r', rest_eq, idle) =
      poll-From fuel (taken r (tsc fuel)) (start + 1) reps tsc q (omega arith) in
    (r', poll-next fuel r (taken r (tsc fuel)) r' tsc _ _ head_eq rest_eq, idle)

-- What the router promises for a request, as kinds, states and open lots: an order is acknowledged
-- and, if it may not rest, expires; a cancel and a replace are done; a cancel of all orders is left
-- to the cancels of each.
abbrev pub outcomes : OrderRequest → List (ExecType × OrdStatus × ℤ)
outcomes req = elim req.type [
  | ReqType.new ↦ (ExecType.ack, OrdStatus.new, req.qty) ∷ (elim req.tif [
    | Tif.gtc ↦ []
    | Tif.ioc ↦ (ExecType.expired, OrdStatus.expired, ℤ.pos 0) ∷ []
    | Tif.fok ↦ (ExecType.expired, OrdStatus.expired, ℤ.pos 0) ∷ []
    | Tif.post_only ↦ []
  ])
  | ReqType.cancel ↦ (ExecType.canceled, OrdStatus.canceled, ℤ.pos 0) ∷ []
  | ReqType.replace ↦ (ExecType.replaced, OrdStatus.new, req.qty) ∷ []
  | ReqType.cancel_all ↦ []
]

-- A report of the request's order in which nothing is filled.
abbrev pub IsAbout : OrderRequest → ExecReport → Type 0
IsAbout req rep =
    (rep.cl_ord_id ≡ req.cl_ord_id)
    × (rep.orig_cl_ord_id ≡ req.orig_cl_ord_id)
    × (rep.strategy_tag ≡ req.strategy_tag)
    × (rep.tsc_sent ≡ req.tsc_decision)
    × (rep.instrument ≡ req.instrument)
    × (rep.last_qty ≡ ℤ.pos 0)
    × (rep.cum_qty ≡ ℤ.pos 0)
    × (rep.fee ≡ ℤ.pos 0)

-- The reports are of the request's order, with the outcomes, one by one.
abbrev pub Answered : OrderRequest → List (ExecType × OrdStatus × ℤ) → List ExecReport → Type 0
Answered req [] [] = Unit {0}
Answered req [] (rep ∷ reps) = ⊥
Answered req (o ∷ os) [] = ⊥
Answered req (o ∷ os) (rep ∷ reps) =
    ((rep.exec_type ≡ o.0) × (rep.ord_status ≡ o.1) × (rep.leaves_qty ≡ o.2) × IsAbout req rep)
    × Answered req os reps

-- The places that a request wants: one for each outcome, and at least one.
abbrev pub wanted : OrderRequest → ℕ
wanted req = elim (outcomes req) [ [] ↦ 1 | o ∷ os ↦ suc (length os) ]

module _ (req : OrderRequest) where
  needed-wanted : needed req ≡ wanted req
  unfolding needed
  needed-wanted = ground arith

  answers-Answered : Answered req (outcomes req) (answers req)
  unfolding answers needed
  answers-Answered = go req.type req.tif refl refl
    where
      about :
          (kind : ExecType) (status : OrdStatus) (leaves : ℤ)
          → IsAbout req (answer req kind status leaves)
      about kind status leaves = (refl, refl, refl, refl, refl, refl, refl, refl)

      go :
          (k : ReqType) (t : Tif)
          → req.type ≡ k
          → req.tif ≡ t
          → Answered req (outcomes req) (answers req)
      go ReqType.new Tif.gtc e h =
          rw (e, h) ((refl, refl, refl, about ExecType.ack OrdStatus.new req.qty), tt)
      go ReqType.new Tif.ioc e h =
          rw (e, h)
            (
              (refl, refl, refl, about ExecType.ack OrdStatus.new req.qty),
              ((refl, refl, refl, about ExecType.expired OrdStatus.expired (ℤ.pos 0)), tt),
            )
      go ReqType.new Tif.fok e h =
          rw (e, h)
            (
              (refl, refl, refl, about ExecType.ack OrdStatus.new req.qty),
              ((refl, refl, refl, about ExecType.expired OrdStatus.expired (ℤ.pos 0)), tt),
            )
      go ReqType.new Tif.post_only e h =
          rw (e, h) ((refl, refl, refl, about ExecType.ack OrdStatus.new req.qty), tt)
      go ReqType.cancel t e h =
          rw e ((refl, refl, refl, about ExecType.canceled OrdStatus.canceled (ℤ.pos 0)), tt)
      go ReqType.replace t e h =
          rw e ((refl, refl, refl, about ExecType.replaced OrdStatus.new req.qty), tt)
      go ReqType.cancel_all t e h = rw e tt

  answers-le-wanted : length (answers req) ≤ wanted req
  unfolding answers needed
  answers-le-wanted = ground arith

sub32-size :
    (r : NullRouter) (start : ℕ) (reps : List ExecReport)
    → From r start reps
    → sub32 queue_size (sub32 r.tail r.head) ≡ queue_size - length reps
sub32-size r start reps p = ground (arith, p.head_at, p.tail_at, p.fits)

submit-room :
    (r : NullRouter) (req : OrderRequest)
    → ltb (sub32 queue_size (sub32 r.tail r.head)) (needed req) ≡ false
    → submit r req ≡ (push_all r (answers req), true)
unfolding submit
submit-room r req h = rw h refl

submit-refused :
    (r : NullRouter) (req : OrderRequest)
    → ltb (sub32 queue_size (sub32 r.tail r.head)) (needed req) ≡ true
    → submit r req ≡ (r, false)
unfolding submit
submit-refused r req h = rw h refl

-- A router in which reports wait, and a request, which wants a place for each report that answers
-- it, and at least one: if fewer are free, it is refused and the router is as it was; otherwise it
-- is accepted, and the reports behind those that waited are of its order, fill nothing and say that
-- a new order is acknowledged and, if IOC or FOK, then expired, a cancel or a replace done, and of a
-- cancel of all orders nothing; a poll of at least 1025 turns ends, hands over all of them in that
-- order, and leaves nothing waiting.
pub submit-poll :
    (r : NullRouter) (req : OrderRequest) (reps : List ExecReport)
    → Waits r reps
    → (queue_size < length reps + wanted req → submit r req ≡ (r, false))
      × (length reps + wanted req ≤ queue_size
          → (r' : NullRouter) × (new_reps : List ExecReport) × (submit r req ≡ (r', true))
            × Answered req (outcomes req) new_reps
            × Waits r' (reps ++ new_reps)
            × ((fuel : ℕ) (tsc : ℕ → ℕ)
                → queue_size < fuel
                → (idle : NullRouter) × (poll fuel r' tsc
                    ≡ some (stamped fuel tsc (reps ++ new_reps), idle))
                  × Waits idle []))
submit-poll r req reps (start, p) =
    let size = sub32-size r start reps p in
    let same : needed req ≡ wanted req = needed-wanted req in
    (
      λ full.
          submit-refused r req (ap (λ n. ltb n (needed req)) size ∙ (ground (arith, p.fits, same))),
      λ room.
          let room' : length reps + length (answers req) ≤ queue_size =
            omega (arith, answers-le-wanted req) in
          let q = push_all-From r start reps (answers req) p room' in
          (
            push_all r (answers req),
            answers req,
            submit-room r req (ap (λ n. ltb n (needed req)) size ∙ (ground (arith, same))),
            answers-Answered req,
            (start, q),
            λ fuel tsc h.
                poll-From fuel (push_all r (answers req)) start (reps ++ answers req) tsc q
                  (omega (arith, length-append reps (answers req))),
          ),
    )
