-- ===== src/OrderMap/Shift.antt =====
-- The second loop of `erase`: it ends, it closes the hole, and it keeps the other entries.
use native.Mathlib.Nat.{mod-lt}
use low_latency_pipeline.Prelude.{
  ℕ, ◌+◌, ◌%◌, ◌≤◌, ◌<◌, ◌≡◌, ◌≢◌, ◌⊎◌, inl, inr, refl, ◌∙◌, ap, subst, true, false, arith, dec_lt,
  ℕ_discrete,
}
use low_latency_pipeline.OrderMap.{Slots}
use low_latency_pipeline.OrderMap.Distance.{
  distance, distance_inj_right, distance_step, distance_split,
}
use low_latency_pipeline.OrderMap.Invariant.{home, IsProbed}

module _ (c : ℕ) where
  -- Each entry of the first table is in the second.
  abbrev pub Keeps : Slots → Slots → Type 0
  Keeps s s' =
      (p : ℕ)
      → p < c
      → (s p).occupied ≡ true
      → (q : ℕ) × (q < c)
        × ((s' q).occupied ≡ true)
        × ((s' q).key ≡ (s p).key)
        × ((s' q).entry ≡ (s p).entry)

  pub Keeps-trans : (s t u : Slots) → Keeps s t → Keeps t u → Keeps s u
  Keeps-trans s t u f g p lt occ =
      let (q, q_lt, q_occ, q_key, q_entry) = f p lt occ in
      let (r, r_lt, r_occ, r_key, r_entry) = g q q_lt q_occ in
      (r, r_lt, r_occ, r_key ∙ q_key, r_entry ∙ q_entry)

  pub Keeps-refl : (s : Slots) → Keeps s s
  Keeps-refl s p lt occ = (p, lt, occ, refl, refl)

module _ (c : ℕ) (hash : ℕ → ℕ) where
  -- The table while the loop looks at slot `i`, with a hole at `hole` and another free slot `free`
  -- ahead. Only the hole may stand between an entry and its home, and not for an entry that the
  -- loop has passed.
  pub record Shifting (slots : Slots) (hole i free : ℕ) : Type 0 where
    pub hole_lt : hole < c
    pub i_lt : i < c
    pub free_lt : free < c
    pub hole_free : (slots hole).occupied ≡ false
    pub free_free : (slots free).occupied ≡ false
    pub apart : free ≢ hole
    pub ahead : 0 < distance c hole i
    pub before : distance c hole i ≤ distance c hole free
    pub reached :
        (p h : ℕ)
        → p < c
        → h < c
        → h ≢ hole
        → (slots p).occupied ≡ true
        → (slots h).occupied ≡ false
        → distance c (home c hash slots p) p < distance c h p
    pub passed :
        (p : ℕ)
        → p < c
        → (slots p).occupied ≡ true
        → distance c hole p < distance c hole i
        → distance c (home c hash slots p) p < distance c hole p
    pub full :
        (p : ℕ)
        → p < c
        → 0 < distance c hole p
        → distance c hole p < distance c hole i
        → (slots p).occupied ≡ true
    pub unique :
        (p q : ℕ)
        → p < c
        → q < c
        → (slots p).occupied ≡ true
        → (slots q).occupied ≡ true
        → (slots p).key ≡ (slots q).key
        → p ≡ q

  module _ {slots : Slots} {hole i free : ℕ} (v : Shifting slots hole i free) where
    closed_reached :
        (slots i).occupied ≡ false
        → (p h : ℕ) → p < c
        → h < c
        → (slots p).occupied ≡ true
        → (slots h).occupied ≡ false
        → distance c (home c hash slots p) p < distance c h p
    closed_reached gap p h p_lt h_lt occ is_free = elim (ℕ_discrete h hole) [
      | no n ↦ v.reached p h p_lt h_lt n occ is_free
      | yes e ↦ elim (dec_lt (distance c hole p) (distance c hole i)) [
        | yes near ↦ rw e (v.passed p p_lt occ near)
        | no far ↦
            let ne : i ≢ hole = λ same. ground (arith, v.ahead) in
            let w = v.reached p i p_lt v.i_lt ne occ gap in
            rw e (ground (arith, w, v.hole_lt, v.i_lt))
      ]
    ]

    -- The loop ends at a free slot.
    pub closed-IsProbed : (slots i).occupied ≡ false → IsProbed c hash slots
    closed-IsProbed gap = record { reached = closed_reached gap; unique = v.unique }

    pub not_there : (slots i).occupied ≡ true → distance c hole i < distance c hole free
    not_there occ =
        let ne : distance c hole i ≢ distance c hole free = λ e. cc (
          ap (λ x. (slots x).occupied)
              (distance_inj_right c hole i free v.hole_lt v.i_lt v.free_lt e),
          occ,
          v.free_free,
        ) in
        omega (arith, v.before, ne)

    free_near : distance c hole free < c
    free_near = ground (arith, v.hole_lt, v.free_lt)

    pub next_step :
        (slots i).occupied ≡ true → distance c hole ((i + 1) % c) ≡ distance c hole i + 1
    next_step occ =
        distance_step c hole i v.hole_lt v.i_lt (omega (arith, not_there occ, free_near))

    -- A slot is passed now if it was before or if it is `i`.
    passed_now :
        (p : ℕ)
        → p < c
        → (slots i).occupied ≡ true
        → distance c hole p < distance c hole ((i + 1) % c)
        → (distance c hole p < distance c hole i) ⊎ (i ≡ p)
    passed_now p p_lt occ lt = elim (dec_lt (distance c hole p) (distance c hole i)) [
      | yes h ↦ inl h
      | no h ↦
          inr (distance_inj_right c hole i p v.hole_lt v.i_lt p_lt (omega (arith, next_step occ)))
    ]

    pos : 0 < c
    pos = omega (arith, v.hole_lt)

    -- An entry that stays: its home is behind the hole.
    pub stays :
        (slots i).occupied ≡ true
        → distance c (home c hash slots i) i ≤ distance c (home c hash slots i) hole
        → Shifting slots hole ((i + 1) % c) free
    stays occ le = record {
      hole_lt = v.hole_lt;
      i_lt = mod-lt (i + 1) pos;
      free_lt = v.free_lt;
      hole_free = v.hole_free;
      free_free = v.free_free;
      apart = v.apart;
      ahead = omega (arith, next_step occ);
      before = omega (arith, next_step occ, not_there occ);
      reached = v.reached;
      passed = λ p p_lt p_occ lt. elim (passed_now p p_lt occ lt) [
        | inl old ↦ v.passed p p_lt p_occ old
        | inr e ↦
            let k = home c hash slots i in
            let k_lt : k < c = mod-lt (hash ((slots i).key)) pos in
            subst (λ x. distance c (home c hash slots x) x < distance c hole x) e
              (elim (dec_lt (distance c k i) (distance c hole i)) [
                | yes h ↦ h
                | no h ↦ absurd (
                    omega (
                      arith,
                      distance_split c k hole i k_lt v.hole_lt v.i_lt (omega arith),
                      v.ahead,
                    ))
              ])
      ];
      full = λ p p_lt gt lt. elim (passed_now p p_lt occ lt) [
        | inl old ↦ v.full p p_lt gt old
        | inr e ↦ subst (λ x. (slots x).occupied ≡ true) e occ
      ];
      unique = v.unique;
    }
