-- ===== src/OrderMap/Find.antt =====
-- `find` and the first loop of `erase` end, and find the entry of a key.
use native.Mathlib.Nat.{mod-lt}
use low_latency_pipeline.Prelude.{
  ℕ, zero, suc, ◌+◌, ◌%◌, ◌≤◌, ◌<◌, ◌≡◌, ◌≢◌, ◌⊎◌, inl, inr, refl, ◌∙◌, ap, subst, true, false,
  Option, none, some, arith, ◌==◌, Bool-cases, dec_lt, extend_below,
}
use low_latency_pipeline.OrderMap.{Slots, find_from, find, locate_from}
use low_latency_pipeline.OrderMap.Distance.{distance}
use low_latency_pipeline.OrderMap.Invariant.{
  IsProbed, HoldsAt, Absent, HasRoom, probe_at, occupied_before, other_before,
}

module _ (c : ℕ) (hash : ℕ → ℕ) where
  -- What `find` says of a key.
  abbrev pub Finds : Slots → ℕ → Option (Option ℕ) → Type 0
  Finds slots ref r =
      ((p : ℕ) × (r ≡ some (some p)) × HoldsAt c hash slots ref p)
      ⊎ ((r ≡ some none) × Absent c hash slots ref)

  module _ (pos : 0 < c) (slots : Slots) (ref : ℕ) (v : IsProbed c hash slots) where
    -- A key whose probe meets a free slot is in no slot.
    Absent-if_free :
        (d : ℕ)
        → ((e : ℕ) → e < d → (slots ((hash ref + e) % c)).key ≢ ref)
        → (slots ((hash ref + d) % c)).occupied ≡ false
        → Absent c hash slots ref
    Absent-if_free d passed free p lt occ key = elim (dec_lt (distance c (hash ref % c) p) d) [
      | yes h ↦ passed _ h (ap (λ x. (slots x).key) (probe_at c hash pos (hash ref) p lt) ∙ key)
      | no h ↦ elim (dec_lt d (distance c (hash ref % c) p)) [
        | yes k ↦ cc (occupied_before c hash pos slots ref p d v (lt, occ, key) k, free)
        | no k ↦
            let at : (hash ref + d) % c ≡ p =
              ap (λ (x : ℕ). (hash ref + x) % c) (omega arith)
              ∙ probe_at c hash pos (hash ref) p lt in
            cc (ap (λ x. (slots x).occupied) at, occ, free)
      ]
    ]

    find_from-Finds :
        (fuel d : ℕ)
        → fuel + d ≡ c
        → HasRoom c hash slots
        → ((e : ℕ) → e < d → (slots ((hash ref + e) % c)).occupied ≡ true)
        → ((e : ℕ) → e < d → (slots ((hash ref + e) % c)).key ≢ ref)
        → Finds slots ref (find_from c hash fuel slots (hash ref + d) ref)
    unfolding find_from
    find_from-Finds zero d e (free, lt, is_free) full passed =
        let t = distance c (hash ref % c) free in
        cc (
          full t (ground (arith, mod-lt (hash ref) pos)),
          ap (λ x. (slots x).occupied) (probe_at c hash pos (hash ref) free lt),
          is_free,
        )
    find_from-Finds (suc fuel) d e room full passed =
        let i = (hash ref + d) % c in
        let next : hash ref + d + 1 ≡ hash ref + (d + 1) = omega arith in
        elim (Bool-cases (slots i).occupied) [
          | inr free ↦ rw free (inr (refl, Absent-if_free d passed free))
          | inl occ ↦ elim (Bool-cases ((slots i).key == ref)) [
            | inl same ↦
                rw (occ, same) (inl (i, refl, (mod-lt (hash ref + d) pos, occ, ground arith)))
            | inr other ↦
                rw (occ, other, next)
                  (find_from-Finds fuel (d + 1) (omega arith) room
                    (extend_below (λ x. (slots ((hash ref + x) % c)).occupied ≡ true) d full occ)
                    (extend_below (λ x. (slots ((hash ref + x) % c)).key ≢ ref) d passed
                      (ground arith)))
          ]
        ]

    -- On a table with a free slot `find` ends; it gives the slot that holds the key, or the null
    -- pointer if no slot does.
    pub find-Finds : HasRoom c hash slots → Finds slots ref (find c hash slots ref)
    unfolding find
    find-Finds room =
        let start : hash ref + 0 ≡ hash ref = omega arith in
        subst (λ x. Finds slots ref (find_from c hash c slots x ref)) start
          (find_from-Finds c 0 (omega arith) room (λ e h. absurd (omega arith))
            (λ e h. absurd (omega arith)))

    locate_from-held :
        (p fuel d : ℕ)
        → HoldsAt c hash slots ref p
        → d ≤ distance c (hash ref % c) p
        → distance c (hash ref % c) p < d + fuel
        → locate_from c hash fuel slots (hash ref + d) ref
          ≡ some (hash ref + distance c (hash ref % c) p)
    unfolding locate_from
    locate_from-held p zero d held le lt = absurd (omega arith)
    locate_from-held p (suc fuel) d held le lt = elim (dec_lt d (distance c (hash ref % c) p)) [
      | no h ↦
          let at : (hash ref + d) % c ≡ p =
            ap (λ (x : ℕ). (hash ref + x) % c) (omega arith)
            ∙ probe_at c hash pos (hash ref) p held.0 in
          let t : ((slots ((hash ref + d) % c)).key == ref) ≡ true =
            rw at (ground (arith, held.2)) in
          rw t (ap some (omega arith))
      | yes h ↦
          let t : ((slots ((hash ref + d) % c)).key == ref) ≡ false =
            ground (arith, other_before c hash pos slots ref p d v held h) in
          let next : hash ref + d + 1 ≡ hash ref + (d + 1) = omega arith in
          rw (t, next) (locate_from-held p fuel (d + 1) held (omega arith) (omega arith))
    ]

    -- The first loop of `erase` stops at the slot that holds the key, though it looks at free
    -- slots' old keys too.
    pub locate-held :
        (p : ℕ)
        → HoldsAt c hash slots ref p
        → locate_from c hash c slots (hash ref) ref ≡ some (hash ref + distance c (hash ref % c) p)
    locate-held p held =
        let start : hash ref + 0 ≡ hash ref = omega arith in
        let near : distance c (hash ref % c) p < c =
          ground (arith, mod-lt (hash ref) pos, held.0) in
        subst
          (λ x. locate_from c hash c slots x ref ≡ some (hash ref + distance c (hash ref % c) p))
          start (locate_from-held p c 0 held (omega arith) (omega (arith, near)))
