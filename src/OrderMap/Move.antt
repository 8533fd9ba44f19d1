-- ===== src/OrderMap/Move.antt =====
-- A step of the second loop of `erase` that moves an entry into the hole.
use native.Mathlib.Nat.{mod-lt}
use low_latency_pipeline.Prelude.{
  ℕ, ◌+◌, ◌%◌, ◌≤◌, ◌<◌, ◌≡◌, ◌≢◌, sym, ◌∙◌, ap, subst, true, false, arith, dec_lt, ℕ_discrete,
}
use low_latency_pipeline.OrderMap.{Slots, freed, moved}
use low_latency_pipeline.OrderMap.Distance.{distance, distance_step, distance_split}
use low_latency_pipeline.OrderMap.Invariant.{home}
use low_latency_pipeline.OrderMap.Shift.{Keeps, Shifting}

module _ (c : ℕ) (hash : ℕ → ℕ) {slots : Slots} {hole i free : ℕ}
    (v : Shifting c hash slots hole i free) where
  pos : 0 < c
  pos = omega (arith, v.hole_lt)

  -- The table after the move.
  away : i ≢ hole
  away e = ground (arith, v.ahead, v.hole_lt)

  at_hole : moved slots hole i hole ≡ slots i
  at_hole = ground (arith, away)

  at_i : moved slots hole i i ≡ freed (slots i)
  at_i = ground arith

  elsewhere : (p : ℕ) → p ≢ hole → p ≢ i → moved slots hole i p ≡ slots p
  elsewhere p n m = ground arith

  first_step : distance c i ((i + 1) % c) ≡ 1
  first_step =
      let here : distance c i i ≡ 0 = ground arith in
      omega (
        arith,
        here,
        distance_step c i i v.i_lt v.i_lt (omega (arith, here, away, v.hole_lt, v.i_lt)),
      )

  not_free : (slots i).occupied ≡ true → free ≢ i
  not_free occ e = cc (ap (λ x. (slots x).occupied) e, occ, v.free_free)

  -- In the hole the entry is nearer to its home than any free slot is.
  reached_in_hole :
      (h : ℕ)
      → h < c
      → h ≢ i
      → h ≢ hole
      → (slots i).occupied ≡ true
      → (slots h).occupied ≡ false
      → distance c (home c hash slots i) hole < distance c (home c hash slots i) i
      → distance c (home c hash slots i) hole < distance c h hole
  reached_in_hole h h_lt ni nh occ is_free gt =
      let k = home c hash slots i in
      let k_lt : k < c = mod-lt (hash ((slots i).key)) pos in
      let old = v.reached i h v.i_lt h_lt nh occ is_free in
      let over_hole : distance c hole i ≤ distance c k i =
        ground (arith, gt, k_lt, v.i_lt, v.hole_lt) in
      elim (dec_lt (distance c h i) (distance c hole i)) [
        | yes between ↦
            let gt0 : 0 < distance c hole h = ground (arith, between, h_lt, v.i_lt, v.hole_lt) in
            let lt : distance c hole h < distance c hole i =
              ground (arith, between, h_lt, v.i_lt, v.hole_lt) in
            cc (v.full h h_lt gt0 lt, is_free)
        | no beyond ↦ omega (
          arith,
          old,
          distance_split c k hole i k_lt v.hole_lt v.i_lt over_hole,
          distance_split c h hole i h_lt v.hole_lt v.i_lt (omega arith),
        )
      ]

  -- An entry that moves into the hole.
  pub moves :
      (slots i).occupied ≡ true
      → distance c (home c hash slots i) hole < distance c (home c hash slots i) i
      → Shifting c hash (moved slots hole i) i ((i + 1) % c) free
  moves occ gt = record {
    hole_lt = v.i_lt;
    i_lt = mod-lt (i + 1) pos;
    free_lt = v.free_lt;
    hole_free = ap (λ s. s.occupied) at_i;
    free_free = ap (λ s. s.occupied) (elsewhere free v.apart (not_free occ)) ∙ v.free_free;
    apart = not_free occ;
    ahead = omega (arith, first_step);
    before = ground (arith, first_step, not_free occ, v.i_lt, v.free_lt);
    reached = λ p h p_lt h_lt n p_occ is_free.
        let nh : h ≢ hole = λ e. ground (arith, away, occ) in
        let was : (slots h).occupied ≡ false =
          sym (ap (λ s. s.occupied) (elsewhere h nh n)) ∙ is_free in
        elim (ℕ_discrete p hole) [
          | yes e ↦
              subst (λ x. distance c (home c hash (moved slots hole i) x) x < distance c h x)
                (sym e) (rw at_hole (reached_in_hole h h_lt n nh occ was gt))
          | no np ↦
              let ni : p ≢ i = λ e. ground arith in
              let same = elsewhere p np ni in
              rw same (v.reached p h p_lt h_lt nh (sym (ap (λ s. s.occupied) same) ∙ p_occ) was)
        ];
    passed = λ p p_lt p_occ lt.
        let e : i ≡ p = ground (arith, first_step, v.i_lt, p_lt) in absurd (ground arith);
    full = λ p p_lt gt0 lt. absurd (omega (arith, first_step));
    unique = λ p q p_lt q_lt p_occ q_occ same. ground (
      arith,
      v.unique p q p_lt q_lt,
      v.unique i q v.i_lt q_lt occ,
      v.unique p i p_lt v.i_lt,
      occ,
    );
  }

  pub moved-Keeps : (slots i).occupied ≡ true → Keeps c slots (moved slots hole i)
  moved-Keeps occ p p_lt p_occ = elim (ℕ_discrete p i) [
    | yes e ↦ (
      hole,
      v.hole_lt,
      ap (λ s. s.occupied) at_hole ∙ occ,
      ap (λ s. s.key) at_hole ∙ ap (λ x. (slots x).key) (sym e),
      ap (λ s. s.entry) at_hole ∙ ap (λ x. (slots x).entry) (sym e),
    )
    | no n ↦
        let nh : p ≢ hole = λ e. cc (ap (λ x. (slots x).occupied) e, p_occ, v.hole_free) in
        let same = elsewhere p nh n in
        (p, p_lt, ap (λ s. s.occupied) same ∙ p_occ, ap (λ s. s.key) same, ap (λ s. s.entry) same)
  ]

  pub Keeps-moved : (slots i).occupied ≡ true → Keeps c (moved slots hole i) slots
  Keeps-moved occ p p_lt p_occ = elim (ℕ_discrete p hole) [
    | yes e ↦
        let here = ap (moved slots hole i) e ∙ at_hole in
        (i, v.i_lt, occ, sym (ap (λ s. s.key) here), sym (ap (λ s. s.entry) here))
    | no n ↦
        let ni : p ≢ i = λ e. ground arith in
        let same = elsewhere p n ni in
        (
          p,
          p_lt,
          sym (ap (λ s. s.occupied) same) ∙ p_occ,
          sym (ap (λ s. s.key) same),
          sym (ap (λ s. s.entry) same),
        )
  ]
