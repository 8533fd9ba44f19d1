-- ===== src/OrderMap/Insert.antt =====
-- `insert` ends on a table with a free slot, and keeps the invariant.
use native.Mathlib.Nat.{mod-lt, mod-add-mod}
use low_latency_pipeline.Prelude.{
  ℕ, zero, suc, ◌+◌, ◌-◌, ◌%◌, ◌<◌, ◌≡◌, ◌≢◌, inl, inr, sym, ap, subst, true, false, some, arith,
  Bool-cases, dec_lt, extend_below, update, update_self, ℕ_discrete,
}
use low_latency_pipeline.OrderMap.{OrderEntry, Slots, insert_from, insert}
use low_latency_pipeline.OrderMap.Distance.{distance, distance_unique, distance_inj}
use low_latency_pipeline.OrderMap.Invariant.{
  home, IsProbed, Absent, HasRoom, probe_at, rest_of_probe,
}

module _ (c : ℕ) (hash : ℕ → ℕ) (pos : 0 < c) (slots : Slots) (ref : ℕ) (entry : OrderEntry) where
  abbrev pub placed : ℕ → Slots
  placed p = update slots p (record { key = ref; entry = entry; occupied = true })

  -- Slot `p` is free, and the probe for `ref` reaches it over occupied slots.
  abbrev pub Reaches : ℕ → Type 0
  Reaches p =
      (p < c)
      × ((slots p).occupied ≡ false)
      × ((e : ℕ) → e < distance c (hash ref % c) p → (slots ((hash ref + e) % c)).occupied ≡ true)

  insert_from-Reaches :
      (fuel d : ℕ)
      → fuel + d ≡ c
      → HasRoom c hash slots
      → ((e : ℕ) → e < d → (slots ((hash ref + e) % c)).occupied ≡ true)
      → (p : ℕ) × (insert_from c hash fuel slots (hash ref + d) ref entry ≡ some (placed p))
        × Reaches p
  unfolding insert_from
  insert_from-Reaches zero d e (free, lt, is_free) full =
      let t = distance c (hash ref % c) free in
      cc (
        full t (ground (arith, mod-lt (hash ref) pos)),
        ap (λ x. (slots x).occupied) (probe_at c hash pos (hash ref) free lt),
        is_free,
      )
  insert_from-Reaches (suc fuel) d e room full =
      let i = (hash ref + d) % c in
      let lt : i < c = mod-lt (hash ref + d) pos in
      elim (Bool-cases (slots i).occupied) [
        | inr free ↦
            let near : d ≡ distance c (hash ref % c) i =
              distance_unique c (hash ref % c) i d (mod-lt (hash ref) pos) lt (omega arith)
                (mod-add-mod (hash ref) c d) in
            (i, rw free, (lt, free, λ x h. full x (omega (arith, near))))
        | inl occ ↦
            let next : hash ref + d + 1 ≡ hash ref + (d + 1) = omega arith in
            rw (occ, next)
              (insert_from-Reaches fuel (d + 1) (omega arith) room
                (extend_below (λ x. (slots ((hash ref + x) % c)).occupied ≡ true) d full occ))
      ]

  pub insert-Reaches :
      HasRoom c hash slots → (p : ℕ) × (insert c hash slots ref entry ≡ some (placed p)) × Reaches p
  unfolding insert
  insert-Reaches room =
      let start : hash ref + 0 ≡ hash ref = omega arith in
      subst (λ x. (p : ℕ) × (insert_from c hash c slots x ref entry ≡ some (placed p)) × Reaches p)
        start (insert_from-Reaches c 0 (omega arith) room (λ e h. absurd (omega arith)))

  -- No free slot is on the way to the slot that the probe reaches.
  nothing_skipped :
      (p h : ℕ)
      → Reaches p
      → h < c
      → h ≢ p
      → (slots h).occupied ≡ false
      → distance c (hash ref % c) p < distance c h p
  nothing_skipped p h (lt, free, path) h_lt ne is_free =
      let t = distance c (hash ref % c) p in
      let u = distance c h p in
      let u_pos : 0 < u = ground arith in
      elim (dec_lt t u) [
        | yes far ↦ far
        | no near ↦
            let left = rest_of_probe c hash pos (hash ref) p (t - u) lt (omega arith) in
            let at : (hash ref + (t - u)) % c ≡ h =
              distance_inj c ((hash ref + (t - u)) % c) h p (mod-lt _ pos) h_lt lt
                (omega (arith, left)) in
            cc (path (t - u) (omega (arith, u_pos)), ap (λ x. (slots x).occupied) at, is_free)
      ]

  -- A new key in the slot that its probe reaches.
  pub placed-IsProbed :
      (p : ℕ)
      → Reaches p
      → Absent c hash slots ref
      → IsProbed c hash slots
      → IsProbed c hash (placed p)
  placed-IsProbed p (lt, free, path) absent v = record {
    reached = λ q h q_lt h_lt occ is_free.
        let ne : h ≢ p = λ e. ground arith in
        let was_free : (slots h).occupied ≡ false = ground arith in
        elim (ℕ_discrete q p) [
          | yes e ↦
              let far = nothing_skipped p h (lt, free, path) h_lt ne was_free in
              subst (λ x. distance c (home c hash (placed p) x) x < distance c h x) (sym e)
                (rw (update_self slots p (record { key = ref; entry = entry; occupied = true }))
                  far)
          | no n ↦
              let other : placed p q ≡ slots q = ground arith in
              rw other (v.reached q h q_lt h_lt (ground arith) was_free)
        ];
    unique = λ q r q_lt r_lt q_occ r_occ same.
        ground (arith, v.unique q r q_lt r_lt, absent q q_lt, absent r r_lt);
  }
