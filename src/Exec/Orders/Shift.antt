-- ===== src/Exec/Orders/Shift.antt =====
-- src/exec/order_table.hpp: the backward shift of `erase` does to the index what the order map's does to its
-- slots.
use Prim.Native.Nat.{◌∣◌}
use native.Mathlib.Nat.{mod-lt, mod-add-mod, mod-eq_of_lt}
use low_latency_pipeline.Prelude.{
  ℕ, zero, suc, ◌+◌, ◌%◌, ◌^◌, ◌≤◌, ◌<◌, ◌≡◌, ◌≢◌, inl, inr, refl, ap, sym, ◌∙◌, subst, Bool, true,
  false, not, arith, none, some, leb, ltb, ◌==◌, update, update_ne, Bool-cases,
}
use low_latency_pipeline.OrderMap.{OrderEntry, Slots, masked_sub, freed, moved}
use low_latency_pipeline.OrderMap
use low_latency_pipeline.OrderMap.Distance.{distance, distance_step, masked_sub-distance, wrap_once}
use low_latency_pipeline.OrderMap.Erase.{shift_stop, shift_move, shift_stay}
use low_latency_pipeline.Exec.Orders.Index.{embed_slot, embed, Agrees, true_ne_false}
use low_latency_pipeline.Exec.Orders.{IndexSlot, empty_slot, shift_from}

module _ (c max_rows : ℕ) (hash : ℕ → ℕ) where
  -- The two tests for moving an entry back.
  same_test :
      (hole i home : ℕ)
      → hole < c
      → i < c
      → home < c
      → hole ≢ i
      → ltb (distance c home hole) (distance c home i) ≡ leb (distance c hole i) (distance c home i)
  same_test hole i home hole_lt i_lt home_lt ne = ground arith

  -- Where the loop stands: at slot `i` behind the hole, with a free slot at `i` or ahead of it.
  pub record Ahead (index : ℕ → IndexSlot) (hole i free : ℕ) : Type 0 where
    pub hole_lt : hole < c
    pub i_lt : i < c
    pub free_lt : free < c
    pub apart : free ≢ hole
    pub is_free : ((index free).key == 0) ≡ true
    pub ahead : 0 < distance c hole i
    pub before : distance c hole i ≤ distance c hole free

  module _ {index : ℕ → IndexSlot} {hole i free : ℕ} (v : Ahead index hole i free)
      (full : ((index i).key == 0) ≡ false) where
    not_there : i ≢ free
    not_there e = true_ne_false (sym v.is_free ∙ sym (ap (λ x. (index x).key == 0) e) ∙ full)

    one_further : distance c hole ((i + 1) % c) ≡ distance c hole i + 1
    one_further =
        distance_step c hole i v.hole_lt v.i_lt
          (ground (arith, v.before, v.free_lt, v.hole_lt, v.i_lt, not_there))

    stays-Ahead : Ahead index hole ((i + 1) % c) free
    stays-Ahead = record {
      hole_lt = v.hole_lt;
      i_lt = mod-lt (i + 1) (omega (arith, v.i_lt));
      free_lt = v.free_lt;
      apart = v.apart;
      is_free = v.is_free;
      ahead = omega (arith, one_further);
      before = ground (arith, one_further, not_there, v.before, v.free_lt, v.hole_lt, v.i_lt);
    }

    one_step : distance c i ((i + 1) % c) ≡ 1
    one_step =
        ground (arith, wrap_once c (i + 1) (omega (arith, v.i_lt)), not_there, v.i_lt, v.free_lt)

    moves-Ahead : Ahead (update index hole (index i)) i ((i + 1) % c) free
    moves-Ahead = record {
      hole_lt = v.i_lt;
      i_lt = mod-lt (i + 1) (omega (arith, v.i_lt));
      free_lt = v.free_lt;
      apart = λ e. not_there (sym e);
      is_free = ground (arith, v.is_free, v.apart);
      ahead = omega (arith, one_step);
      before = ground (arith, one_step, not_there, v.i_lt, v.free_lt);
    }

  moved-Agrees :
      (index : ℕ → IndexSlot) (s : Slots) (hole i : ℕ)
      → hole ≢ i
      → Agrees s (embed (update index hole empty_slot))
      → ((index i).key == 0) ≡ false
      → Agrees (moved s hole i) (embed (update (update index hole (index i)) i empty_slot))
  moved-Agrees index s hole i ne a full p = ground (arith, a p, a i, full)

  -- One round of the loop, by what it finds at slot `i`.
  round_end :
      (fuel : ℕ) (index : ℕ → IndexSlot) (hole i : ℕ)
      → ((index i).key == 0) ≡ true
      → shift_from c max_rows hash (suc fuel) index hole i ≡ some (update index hole empty_slot)
  unfolding shift_from
  round_end fuel index hole i e = rw e refl

  abbrev goes_back : (ℕ → IndexSlot) → (hole i : ℕ) → Bool
  goes_back index hole i = leb (masked_sub c i hole) (masked_sub c i (hash (index i).key % c))

  round_move :
      (fuel : ℕ) (index : ℕ → IndexSlot) (hole i : ℕ)
      → ((index i).key == 0) ≡ false
      → goes_back index hole i ≡ true
      → shift_from c max_rows hash (suc fuel) index hole i
        ≡ shift_from c max_rows hash fuel (update index hole (index i)) i ((i + 1) % c)
  unfolding shift_from
  round_move fuel index hole i e g = rw (e, g) refl

  round_stay :
      (fuel : ℕ) (index : ℕ → IndexSlot) (hole i : ℕ)
      → ((index i).key == 0) ≡ false
      → goes_back index hole i ≡ false
      → shift_from c max_rows hash (suc fuel) index hole i
        ≡ shift_from c max_rows hash fuel index hole ((i + 1) % c)
  unfolding shift_from
  round_stay fuel index hole i e g = rw (e, g) refl

  module _ (divides : c ∣ 2 ^ 32) (hash_lt : (k : ℕ) → hash k < 2 ^ 32) where
    -- The two tests agree.
    test_lem :
        (index : ℕ → IndexSlot) (s : Slots) (hole_at place : ℕ)
        → 0 < c
        → c ≤ 2 ^ 32
        → hole_at % c ≢ place % c
        → s (place % c) ≡ embed index (place % c)
        → ltb
            (masked_sub c hole_at (hash (s (place % c)).key))
            (masked_sub c place (hash (s (place % c)).key))
          ≡ goes_back index (hole_at % c) (place % c)
    test_lem index s hole_at place positive small ne same =
        let k = hash (index (place % c)).key in
        let h = hole_at % c in
        let i = place % c in
        let h_lt : h < c = mod-lt hole_at positive in
        let i_lt : i < c = mod-lt place positive in
        let home_lt : k % c < c = mod-lt k positive in
        ap (λ x. ltb (masked_sub c hole_at (hash x.key)) (masked_sub c place (hash x.key))) same
        ∙ ap (λ d. ltb d (masked_sub c place k))
            (masked_sub-distance c hole_at k positive divides (hash_lt _))
        ∙ ap (λ d. ltb (distance c (k % c) h) d)
            (masked_sub-distance c place k positive divides (hash_lt _))
        ∙ same_test h i (k % c) h_lt i_lt home_lt ne
        ∙ ap (λ d. leb d (distance c (k % c) i)) (sym (to_distance i h i_lt h_lt))
        ∙ ap (λ d. leb (masked_sub c i h) d) (sym (to_distance i (k % c) i_lt home_lt))
      where
        to_distance : (a b : ℕ) → a < c → b < c → masked_sub c a b ≡ distance c b a
        to_distance a b a_lt b_lt =
            masked_sub-distance c a b positive divides (omega arith)
            ∙ ap (λ x. distance c x (a % c)) (mod-eq_of_lt b_lt)
            ∙ ap (λ x. distance c b x) (mod-eq_of_lt a_lt)

    out_of_fuel :
        (s : Slots) (hole_at place : ℕ) (s' : Slots)
        → OrderMap.shift_from c hash 0 s hole_at place ≡ some s'
        → ⊥
    unfolding OrderMap.shift_from
    out_of_fuel s hole_at place s' run = ground (arith, run)

    -- The loop does to the index what the order map's does to its slots.
    pub shift_from-Agrees :
        (fuel : ℕ) (index : ℕ → IndexSlot) (s s' : Slots) (hole_at place free : ℕ)
        → 0 < c
        → c ≤ 2 ^ 32
        → Ahead index (hole_at % c) (place % c) free
        → Agrees s (embed (update index (hole_at % c) empty_slot))
        → OrderMap.shift_from c hash fuel s hole_at place ≡ some s'
        → (index' : ℕ → IndexSlot) × (shift_from c max_rows hash fuel index
              (hole_at % c)
              (place % c)
            ≡ some index')
          × Agrees s' (embed index')
    shift_from-Agrees zero index s s' hole_at place free positive small v a run =
        absurd (out_of_fuel s hole_at place s' run)
    shift_from-Agrees (suc fuel) index s s' hole_at place free positive small v a run =
        let h = hole_at % c in
        let i = place % c in
        let ne : h ≢ i = λ e. ground (arith, v.ahead, e) in
        let next : (i + 1) % c ≡ (place + 1) % c = mod-add-mod place c 1 in
        let (occ, same) = at_place h i index s ne a in
        elim (Bool-cases ((index i).key == 0)) [
          | inl e ↦
              let stop = shift_stop c hash divides hash_lt fuel s hole_at place (occ ∙ ap not e) in
              (
                update index h empty_slot,
                round_end fuel index h i e,
                subst (λ t. Agrees t (embed (update index h empty_slot)))
                    (the_same (sym stop ∙ run)) a,
              )
          | inr e ↦
              let full : (s i).occupied ≡ true = occ ∙ ap not e in
              let test = test_lem index s hole_at place positive small ne (same (ap not e)) in
              elim (Bool-cases (goes_back index h i)) [
                | inl g ↦
                    let step =
                      shift_move c hash divides hash_lt fuel s hole_at place full (test ∙ g) in
                    let v' =
                      subst (λ x. Ahead (update index h (index i)) i x free) next
                        (moves-Ahead v e) in
                    let (index', run', a') =
                      shift_from-Agrees fuel (update index h (index i)) (moved s h i) s' place
                        (place + 1) free positive small v' (moved-Agrees index s h i ne a e)
                        (sym step ∙ run) in
                    (
                      index',
                      round_move fuel index h i e g
                          ∙ ap (λ x. shift_from c max_rows hash fuel (update index h (index i)) i x)
                              next
                          ∙ run',
                      a',
                    )
                | inr g ↦
                    let step =
                      shift_stay c hash divides hash_lt fuel s hole_at place full (test ∙ g) in
                    let v' = subst (λ x. Ahead index h x free) next (stays-Ahead v e) in
                    let (index', run', a') =
                      shift_from-Agrees fuel index s s' hole_at (place + 1) free positive small v' a
                        (sym step ∙ run) in
                    (
                      index',
                      round_stay fuel index h i e g
                          ∙ ap (λ x. shift_from c max_rows hash fuel index h x) next
                          ∙ run',
                      a',
                    )
              ]
        ]
      where
        at_place :
            (h i : ℕ) (index : ℕ → IndexSlot) (s : Slots)
            → h ≢ i
            → Agrees s (embed (update index h empty_slot))
            → ((s i).occupied ≡ not ((index i).key == 0))
              × (not ((index i).key == 0) ≡ true → s i ≡ embed index i)
        at_place h i index s ne a =
            let other : update index h empty_slot i ≡ index i = update_ne index h i empty_slot ne in
            (
              (a i).0 ∙ ap (λ x. not (x.key == 0)) other,
              λ full. (a i).1 (ap (λ x. not (x.key == 0)) other ∙ full) ∙ ap embed_slot other,
            )

        the_same : {s t : Slots} → some s ≡ some t → s ≡ t
        the_same {s = s} e = ap (λ o. elim o [ none ↦ s | some x ↦ x ]) e
