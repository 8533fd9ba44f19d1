-- ===== src/Exec/Orders/Unindex.antt =====
-- src/exec/order_table.hpp: the backward shift takes an identifier out of the index, and the write through
-- `slot_of` repoints one.
use Prim.Native.Nat.{◌∣◌}
use native.Mathlib.Nat.{mod-lt, mod-add-mod}
use low_latency_pipeline.Prelude.{
  ℕ, ◌+◌, ◌%◌, ◌^◌, ◌≤◌, ◌<◌, ◌≡◌, ◌≢◌, ap, sym, ◌∙◌, subst, true, false, not, arith, Option, none,
  some, ◌==◌, update,
}
use low_latency_pipeline.OrderMap.{OrderEntry, freed}
use low_latency_pipeline.OrderMap.Distance.{distance, wrap_once}
use low_latency_pipeline.OrderMap.Find.{locate-held}
use low_latency_pipeline.OrderMap.Erase.{erase_run}
use low_latency_pipeline.OrderMap.Invariant.{HoldsAt, HasRoom, probe_at}
use low_latency_pipeline.OrderMap.Laws.{Models, erase-Models, written-Models}
use low_latency_pipeline.Exec.Orders.{IndexSlot, empty_slot, shift_from}
use low_latency_pipeline.Exec.Orders.Index.{row_at, embed, Agrees, Agrees-Models, true_ne_false}
use low_latency_pipeline.Exec.Orders.Shift.{Ahead, shift_from-Agrees}

module _ (c max_rows : ℕ) (hash : ℕ → ℕ) (divides : c ∣ 2 ^ 32)
    (hash_lt : (k : ℕ) → hash k < 2 ^ 32) (positive_c : 0 < c) (small : c ≤ 2 ^ 32) where
  freed-Agrees :
      (index : ℕ → IndexSlot) (s : ℕ)
      → Agrees (update (embed index) s (freed (embed index s))) (embed (update index s empty_slot))
  freed-Agrees index s p = ground arith

  -- The backward shift from a slot that holds `id` takes it out of the index.
  pub shift-Models :
      (index : ℕ → IndexSlot) (places : ℕ → Option OrderEntry) (id s : ℕ) (e : OrderEntry)
      → Models c hash (embed index) places
      → HasRoom c hash (embed index)
      → HoldsAt c hash (embed index) id s
      → places id ≡ some e
      → (index' : ℕ → IndexSlot) × (shift_from c max_rows hash c index s ((s + 1) % c)
          ≡ some index')
        × Models c hash (embed index') (update places id none)
  shift-Models index places id s e m space held has =
      let (free, free_lt, is_free) = space in
      let n = hash id + distance c (hash id % c) s in
      let at : n % c ≡ s = probe_at c hash positive_c (hash id) s held.0 in
      let next : (s + 1) % c ≡ (n + 1) % c = ap (λ x. (x + 1) % c) (sym at) ∙ mod-add-mod n c 1 in
      let (slots', run, m', left) =
        erase-Models c hash divides hash_lt positive_c (embed index) places id m space e has in
      let shifted =
        sym (
          erase_run c hash divides hash_lt (embed index) id n s
            (locate-held c hash positive_c (embed index) id m.probed s held) at)
        ∙ run in
      let apart : free ≢ s =
        λ k. true_ne_false (sym held.1 ∙ ap (λ x. (embed index x).occupied) (sym k) ∙ is_free) in
      let one : distance c s ((s + 1) % c) ≡ 1 = one_step s free held.0 free_lt apart in
      let v : Ahead c max_rows hash index s ((s + 1) % c) free = record {
        hole_lt = held.0;
        i_lt = mod-lt (s + 1) positive_c;
        free_lt = free_lt;
        apart = apart;
        is_free = key_zero (t_key index free) is_free;
        ahead = omega (arith, one);
        before = ground (arith, one, apart, held.0, free_lt);
      } in
      let v' : Ahead c max_rows hash index (n % c) ((n + 1) % c) free =
        subst (λ x. Ahead c max_rows hash index x ((n + 1) % c) free) (sym at)
          (subst (λ x. Ahead c max_rows hash index s x free) next v) in
      let a =
        subst
          (λ x.
            Agrees (update (embed index) s (freed (embed index s)))
              (embed (update index x empty_slot)))
          (sym at) (freed-Agrees index s) in
      let (index', run', a') =
        shift_from-Agrees c max_rows hash divides hash_lt c index _ slots' n (n + 1) free positive_c
          small v' a shifted in
      (
        index',
        ap (λ x. shift_from c max_rows hash c index s x) next
            ∙ ap (λ x. shift_from c max_rows hash c index x ((n + 1) % c)) (sym at)
            ∙ run',
        Agrees-Models c hash slots' (embed index') _ a' m',
      )
    where
      t_key : (ℕ → IndexSlot) → ℕ → ℕ
      t_key index p = (index p).key

      key_zero : (k : ℕ) → not (k == 0) ≡ false → (k == 0) ≡ true
      key_zero k h = ground arith

      one_step : (i free : ℕ) → i < c → free < c → free ≢ i → distance c i ((i + 1) % c) ≡ 1
      one_step i free i_lt free_lt ne =
          ground (arith, wrap_once c (i + 1) (omega (arith, i_lt)), ne, i_lt, free_lt)

-- The index entry of a row that moved, as the order map's write through a pointer.
pub repointed :
    (c : ℕ) (hash : ℕ → ℕ) (divides : c ∣ 2 ^ 32) (hash_lt : (k : ℕ) → hash k < 2 ^ 32)
    (positive_c : 0 < c) (index : ℕ → IndexSlot) (places : ℕ → Option OrderEntry) (id q i : ℕ)
    → Models c hash (embed index) places
    → HasRoom c hash (embed index)
    → HoldsAt c hash (embed index) id q
    → Models c hash
        (embed (update index q (record (index q) { pos = i })))
        (update places id (some (row_at i)))
repointed c hash divides hash_lt positive_c index places id q i m space held =
    Agrees-Models c hash _ _ (update places id (some (row_at i))) (λ p. ground arith)
      (written-Models c hash divides hash_lt positive_c (embed index) places id m space q (row_at i)
        held)
