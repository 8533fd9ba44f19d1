-- ===== src/OrderMap/Invariant.antt =====
-- The invariant of linear probing, and what a table holds.
use native.Mathlib.Nat.{mod-lt, mod-add-mod}
use low_latency_pipeline.Prelude.{
  ℕ, ◌+◌, ◌-◌, ◌%◌, ◌≤◌, ◌<◌, ◌≡◌, ◌≢◌, sym, ◌∙◌, ap, true, false, arith, Bool-cases, inl, inr,
  subst,
}
use low_latency_pipeline.OrderMap.{Slots}
use low_latency_pipeline.OrderMap.Distance.{distance, distance_unique, distance_walk}

module _ (c : ℕ) (hash : ℕ → ℕ) where
  -- The first slot that a probe for the key of slot `p` looks at.
  abbrev pub home : Slots → ℕ → ℕ
  home slots p = hash ((slots p).key) % c

  -- No free slot stands between an entry's home and the entry, and no key is held twice.
  pub record IsProbed (slots : Slots) : Type 0 where
    pub reached :
        (p free : ℕ)
        → p < c
        → free < c
        → (slots p).occupied ≡ true
        → (slots free).occupied ≡ false
        → distance c (home slots p) p < distance c free p
    pub unique :
        (p q : ℕ)
        → p < c
        → q < c
        → (slots p).occupied ≡ true
        → (slots q).occupied ≡ true
        → (slots p).key ≡ (slots q).key
        → p ≡ q

  -- Slot `p` holds `ref`.
  abbrev pub HoldsAt : Slots → ℕ → ℕ → Type 0
  HoldsAt slots ref p = (p < c) × ((slots p).occupied ≡ true) × ((slots p).key ≡ ref)

  abbrev pub Absent : Slots → ℕ → Type 0
  Absent slots ref = (p : ℕ) → p < c → (slots p).occupied ≡ true → (slots p).key ≢ ref

  abbrev pub HasRoom : Slots → Type 0
  HasRoom slots = (free : ℕ) × (free < c) × ((slots free).occupied ≡ false)

  module _ (pos : 0 < c) where
    -- The probe for `h` reaches slot `p` after the distance from its home.
    pub probe_at : (h p : ℕ) → p < c → (h + distance c (h % c) p) % c ≡ p
    probe_at h p lt =
        sym (mod-add-mod h c (distance c (h % c) p)) ∙ distance_walk c (h % c) p (mod-lt h pos) lt

    -- What is left of the way from a slot that the probe has passed.
    pub rest_of_probe :
        (h p e : ℕ)
        → p < c
        → e ≤ distance c (h % c) p
        → distance c ((h + e) % c) p ≡ distance c (h % c) p - e
    rest_of_probe h p e lt le =
        let t = distance c (h % c) p in
        let small : t < c = ground (arith, mod-lt h pos) in
        sym (
          distance_unique c ((h + e) % c) p (t - e) (mod-lt (h + e) pos) lt (omega arith)
            (mod-add-mod (h + e) c (t - e) ∙ ap (λ (x : ℕ). x % c) (omega arith) ∙ probe_at h p lt))

    -- A probe for an entry passes occupied slots only, and none of them holds its key.
    pub occupied_before :
        (slots : Slots) (ref p e : ℕ)
        → IsProbed slots
        → HoldsAt slots ref p
        → e < distance c (hash ref % c) p
        → (slots ((hash ref + e) % c)).occupied ≡ true
    occupied_before slots ref p e v (lt, occ, key) h =
        let q = (hash ref + e) % c in
        let near = rest_of_probe (hash ref) p e lt (omega arith) in
        let home_is : hash ((slots p).key) % c ≡ hash ref % c = ap (λ k. hash k % c) key in
        elim (Bool-cases (slots q).occupied) [
          | inl yes_occ ↦ yes_occ
          | inr free ↦
              let far : distance c (hash ref % c) p < distance c q p =
                subst (λ x. distance c x p < distance c q p) home_is
                  (v.reached p q lt (mod-lt (hash ref + e) pos) occ free) in
              absurd (omega (arith, far, near))
        ]

    pub other_before :
        (slots : Slots) (ref p e : ℕ)
        → IsProbed slots
        → HoldsAt slots ref p
        → e < distance c (hash ref % c) p
        → (slots ((hash ref + e) % c)).key ≢ ref
    other_before slots ref p e v (lt, occ, key) h same =
        let q = (hash ref + e) % c in
        let near = rest_of_probe (hash ref) p e lt (omega arith) in
        let q_is : q ≡ p =
          v.unique q p (mod-lt (hash ref + e) pos) lt
            (occupied_before slots ref p e v (lt, occ, key) h) occ (same ∙ sym key) in
        let none_left : distance c q p ≡ 0 = ground arith in absurd (omega (arith, near, none_left))
