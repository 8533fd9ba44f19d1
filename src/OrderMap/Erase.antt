-- ===== src/OrderMap/Erase.antt =====
-- `erase` ends, keeps the invariant, and takes out one key.
use Prim.Native.Nat.{◌∣◌}
use native.Mathlib.Nat.{mod-lt, mod-add-mod}
use low_latency_pipeline.Prelude.{
  ℕ, zero, suc, ◌+◌, ◌%◌, ◌^◌, ◌≤◌, ◌<◌, ◌≡◌, ◌≢◌, inl, inr, refl, sym, ◌∙◌, ap, subst, Bool, true,
  false, Option, some, arith, ltb→lt, ltb, Bool-cases, update,
}
use low_latency_pipeline.OrderMap.{Slots, shift_from, freed, moved, masked_sub, erase, locate_from}
use low_latency_pipeline.OrderMap.Distance.{distance, wrap_once, distance_step, masked_sub-distance}
use low_latency_pipeline.OrderMap.Invariant.{IsProbed, HoldsAt, probe_at}
use low_latency_pipeline.OrderMap.Find.{locate-held}
use low_latency_pipeline.OrderMap.Shift.{
  Keeps, Keeps-refl, Keeps-trans, Shifting, closed-IsProbed, stays,
}
use low_latency_pipeline.OrderMap.Move.{moves, moved-Keeps, Keeps-moved}

module _ (c : ℕ) (hash : ℕ → ℕ) (divides : c ∣ 2 ^ 32) (hash_lt : (k : ℕ) → hash k < 2 ^ 32) where
  -- The table after the loop.
  abbrev pub Shifted : Slots → ℕ → Option Slots → Type 0
  Shifted slots free r =
      (s : Slots) × (r ≡ some s)
      × IsProbed c hash s
      × ((s free).occupied ≡ false)
      × Keeps c slots s
      × Keeps c s slots

  -- The free slot ahead comes nearer with each step.
  nearer :
      (i free : ℕ)
      → i < c
      → free < c
      → i ≢ free
      → distance c ((i + 1) % c) free + 1 ≡ distance c i free
  nearer i free i_lt free_lt ne = ground (arith, wrap_once c (i + 1))

  -- One round of the loop.
  module _ (fuel : ℕ) (slots : Slots) (hole pos : ℕ) where
    abbrev goes_back : Bool
    goes_back =
        ltb (masked_sub c hole (hash ((slots (pos % c)).key)))
          (masked_sub c pos (hash ((slots (pos % c)).key)))

    pub shift_stop :
        (slots (pos % c)).occupied ≡ false
        → shift_from c hash (suc fuel) slots hole pos ≡ some slots
    unfolding shift_from
    shift_stop gap = simp gap

    pub shift_move :
        (slots (pos % c)).occupied ≡ true
        → goes_back ≡ true
        → shift_from c hash (suc fuel) slots hole pos
          ≡ shift_from c hash fuel (moved slots (hole % c) (pos % c)) pos (pos + 1)
    unfolding shift_from
    shift_move occ goes = simp (occ, goes)

    pub shift_stay :
        (slots (pos % c)).occupied ≡ true
        → goes_back ≡ false
        → shift_from c hash (suc fuel) slots hole pos ≡ shift_from c hash fuel slots hole (pos + 1)
    unfolding shift_from
    shift_stay occ goes = simp (occ, goes)

  shift_from-Shifted :
      (fuel : ℕ) (slots : Slots) (hole pos free : ℕ)
      → Shifting c hash slots (hole % c) (pos % c) free
      → distance c (pos % c) free < fuel
      → Shifted slots free (shift_from c hash fuel slots hole pos)
  shift_from-Shifted zero slots hole pos free v lt = absurd (omega arith)
  shift_from-Shifted (suc fuel) slots hole pos free v lt =
      let i = pos % c in
      let c_pos : 0 < c = omega (arith, v.hole_lt) in
      let k = hash ((slots i).key) in
      let from_hole = masked_sub-distance c hole k c_pos divides (hash_lt _) in
      let from_pos = masked_sub-distance c pos k c_pos divides (hash_lt _) in
      elim (Bool-cases (slots i).occupied) [
        | inr gap ↦ rw (shift_stop fuel slots hole pos gap) (
          slots,
          refl,
          closed-IsProbed c hash v gap,
          v.free_free,
          Keeps-refl c slots,
          Keeps-refl c slots,
        )
        | inl occ ↦
            let next : (i + 1) % c ≡ (pos + 1) % c = mod-add-mod pos c 1 in
            let ne : i ≢ free = λ e. cc (ap (λ x. (slots x).occupied) e, occ, v.free_free) in
            let near : distance c ((pos + 1) % c) free < fuel =
              subst (λ x. distance c x free < fuel) next
                (omega (arith, nearer i free v.i_lt v.free_lt ne)) in
            elim (Bool-cases (ltb (masked_sub c hole k) (masked_sub c pos k))) [
              | inl goes ↦
                  let gt : distance c (k % c) (hole % c) < distance c (k % c) i =
                    omega (arith, ltb→lt _ _ goes, from_hole, from_pos) in
                  let v' =
                    subst (λ x. Shifting c hash (moved slots (hole % c) i) i x free) next
                      (moves c hash v occ gt) in
                  let (s, run, ok, fr, k1, k2) =
                    shift_from-Shifted fuel (moved slots (hole % c) i) pos (pos + 1) free v' near in
                  rw (shift_move fuel slots hole pos occ goes) (
                    s,
                    run,
                    ok,
                    fr,
                    Keeps-trans c _ _ _ (moved-Keeps c hash v occ) k1,
                    Keeps-trans c _ _ _ k2 (Keeps-moved c hash v occ),
                  )
              | inr stay ↦
                  let le : distance c (k % c) i ≤ distance c (k % c) (hole % c) =
                    ground (arith, stay, from_hole, from_pos) in
                  let v' =
                    subst (λ x. Shifting c hash slots (hole % c) x free) next
                      (stays c hash v occ le) in
                  let out = shift_from-Shifted fuel slots hole (pos + 1) free v' near in
                  rw (shift_stay fuel slots hole pos occ stay) out
            ]
      ]

  -- The hole that `erase` makes.
  opened :
      (slots : Slots) (p free : ℕ)
      → 0 < c
      → IsProbed c hash slots
      → (p < c) × ((slots p).occupied ≡ true)
      → (free < c) × ((slots free).occupied ≡ false)
      → Shifting c hash (update slots p (freed (slots p))) p ((p + 1) % c) free
  opened slots p free pos v (lt, occ) (free_lt, is_free) =
      let ne : free ≢ p = λ e. cc (ap (λ x. (slots x).occupied) e, occ, is_free) in
      let here : distance c p p ≡ 0 = ground arith in
      let one : distance c p ((p + 1) % c) ≡ 1 =
        omega (arith, here, distance_step c p p lt lt (omega (arith, here, ne, free_lt))) in
      record {
        hole_lt = lt;
        i_lt = mod-lt (p + 1) pos;
        free_lt = free_lt;
        hole_free = ground arith;
        free_free = ground arith;
        apart = ne;
        ahead = omega (arith, one);
        before = ground (arith, one, ne);
        reached = λ q h q_lt h_lt n q_occ h_free.
            let nq : q ≢ p = λ e. ground arith in
            let same : update slots p (freed (slots p)) q ≡ slots q = ground arith in
            rw same (v.reached q h q_lt h_lt (ground arith) (ground arith));
        passed = λ q q_lt q_occ h. let e : p ≡ q = ground (arith, one) in absurd (ground arith);
        full = λ q q_lt gt h. absurd (omega (arith, one));
        unique = λ q r q_lt r_lt q_occ r_occ same. ground (arith, v.unique q r q_lt r_lt);
      }

  pub erase_run :
      (slots : Slots) (ref n p : ℕ)
      → locate_from c hash c slots (hash ref) ref ≡ some n
      → n % c ≡ p
      → erase c hash slots ref ≡ shift_from c hash c (update slots p (freed (slots p))) n (n + 1)
  unfolding erase
  erase_run slots ref n p e at = rw (e, erase, at)

  -- On a table with a free slot `erase` of a held key ends. It keeps the invariant, and what is
  -- left are the entries of the other slots.
  pub erase-Keeps :
      (slots : Slots) (ref p free : ℕ)
      → 0 < c
      → IsProbed c hash slots
      → HoldsAt c hash slots ref p
      → (free < c) × ((slots free).occupied ≡ false)
      → Shifted (update slots p (freed (slots p))) free (erase c hash slots ref)
  erase-Keeps slots ref p free pos v held room =
      let n = hash ref + distance c (hash ref % c) p in
      let at : n % c ≡ p = probe_at c hash pos (hash ref) p held.0 in
      let next : (p + 1) % c ≡ (n + 1) % c =
        ap (λ (x : ℕ). (x + 1) % c) (sym at) ∙ mod-add-mod n c 1 in
      let state =
        subst (λ x. Shifting c hash (update slots p (freed (slots p))) x ((n + 1) % c) free)
          (sym at)
          (subst (λ x. Shifting c hash (update slots p (freed (slots p))) p x free) next
            (opened slots p free pos v (held.0, held.1) room)) in
      let near : distance c ((n + 1) % c) free < c = ground (arith, mod-lt (n + 1) pos, room.0) in
      let out = shift_from-Shifted c (update slots p (freed (slots p))) n (n + 1) free state near in
      rw (erase_run slots ref n p (locate-held c hash pos slots ref v p held) at) out
