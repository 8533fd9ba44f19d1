-- ===== src/Ring/Tests.antt =====
-- The ring at capacity 2, run and put through the theorems.
use Prim.Native.Nat.{◌∣◌}
use native.Mathlib.Nat.{dvd_of_mod-eq-zero}
use low_latency_pipeline.Prelude.{
  ℕ, ◌≤◌, ◌%◌, ◌≡◌, ◌≢◌, refl, false, some, Option, Bool, List, [], ◌∷◌, ◌++◌, length, arith,
  update,
}
use low_latency_pipeline.Ring.{SpscRing, u32_mod, try_push, try_pop, size, try_claim, fill, publish}
use low_latency_pipeline.Ring.Queue.{push, pop}
use low_latency_pipeline.Ring.Refine.{Holds, try_push-push, try_pop-pop}
use low_latency_pipeline.Ring.Threads.{
  System, Reach, Producer, Consumer, here, next, start, load_tail, claim, write_slot, store_tail,
  load_head, see_item,
}
use low_latency_pipeline.Ring.Threads.Safety.{Reach-fifo, Reach-race_free}

divides : 2 ∣ u32_mod
divides = dvd_of_mod-eq-zero 2 refl

abbrev zeros : ℕ → ℕ
zeros i = 0

-- A ring whose counters are about to wrap.
abbrev wrapping : SpscRing ℕ
wrapping = record { head = 4294967295; tail = 4294967295; slots = zeros }

abbrev wrapping-Holds : Holds 2 wrapping []
wrapping-Holds =
    (4294967295, record { head_at = refl; tail_at = refl; fits = omega arith; items = tt })

try_push-push_example :
    ((try_push 2 wrapping 7).0 ≡ (push {A = ℕ} 2 [] 7).0)
    × Holds 2 (try_push 2 wrapping 7).1 (push {A = ℕ} 2 [] 7).1
try_push-push_example = try_push-push 2 divides (omega arith) wrapping [] 7 wrapping-Holds

try_pop-pop_example :
    ((try_pop 2 (try_push 2 wrapping 7).1).0 ≡ (pop (push {A = ℕ} 2 [] 7).1).0)
    × Holds 2 (try_pop 2 (try_push 2 wrapping 7).1).1 (pop (push {A = ℕ} 2 [] 7).1).1
try_pop-pop_example =
    try_pop-pop 2 divides (omega arith) (try_push 2 wrapping 7).1 (push {A = ℕ} 2 [] 7).1
      try_push-push_example.1

-- Three pushes into a ring of two places: the third is refused, and the first comes out first.
abbrev three : Bool × Option ℕ × ℕ
three =
    let a = (try_push 2 wrapping 7).1 in
    let b = (try_push 2 a 8).1 in
    let (third, c) = try_push 2 b 9 in let (out, d) = try_pop 2 c in (third, out, size 2 d)

three_runs : three ≡ (false, some 7, 1)
unfolding try_push try_pop size try_claim fill publish
three_runs = refl

-- One item is published, a second is being pushed, and the consumer is about to read the first.
abbrev both_busy : System ℕ
both_busy = record {
  ring = record { head = 0; tail = 1; slots = update zeros 0 7 };
  producer = Producer.claimed 8 1;
  consumer = Consumer.ready 0;
  published = 7 ∷ [];
  consumed = [];
}

both_busy-Reach : Reach 2 (start zeros) both_busy
unfolding fill publish
both_busy-Reach =
    next
      (next
        (next
          (next
            (next
              (next (next (next here (load_tail _ 7 refl)) (claim _ 7 0 refl (omega arith)))
                (write_slot _ 7 0 refl))
              (store_tail _ 7 refl))
            (load_tail _ 8 refl))
          (claim _ 8 1 refl (omega arith)))
        (load_head _ refl))
      (see_item _ 0 refl (omega arith))

Reach-fifo_example :
    (queue : List ℕ) × (both_busy.published ≡ both_busy.consumed ++ queue) × (length queue ≤ 2)
Reach-fifo_example = Reach-fifo 2 divides (omega arith) zeros both_busy-Reach

Reach-race_free_example : 1 ≢ 0 % 2
Reach-race_free_example =
    Reach-race_free 2 divides (omega arith) zeros 8 1 0 both_busy-Reach refl refl
