-- ===== src/Exec/Rate/Budget.antt =====
-- src/exec/rate_model.hpp: a request that the model allows leaves the counter below the ceiling.
use low_latency_pipeline.Prelude.{
  ℕ, ◌≡◌, ◌≢◌, inl, inr, refl, ap, sym, ◌∙◌, true, not, ◌||◌, arith, if◌then◌else◌, update,
  update_self, update_ne, Bool-cases,
}
use low_latency_pipeline.Prelude.Int.{ℤ, ltb_ℤ, leb_ℤ}
use low_latency_pipeline.Exec.Doubles.{Doubles}
use low_latency_pipeline.Exec.Rate.{
  RateOp, RateModel, Counter, count, charged, ceiling, would_allow, charge,
}

module _ (D : Doubles) (m : RateModel D) (inst : ℕ) (op : RateOp) (age_ns now_ns : ℤ) where
  after_charge : Counter D
  after_charge = record {
    count = charged m inst op age_ns now_ns;
    last_ns = if ltb_ℤ (m.counters inst).last_ns now_ns then now_ns else (m.counters inst).last_ns;
  }

  charge-counters :
      m.enabled ≡ true
      → (charge m inst op age_ns now_ns).counters ≡ update m.counters inst after_charge
  unfolding charge after_charge
  charge-counters h = rw h refl

  counter_here : m.enabled ≡ true → (charge m inst op age_ns now_ns).counters inst ≡ after_charge
  counter_here h = ap (λ c. c inst) (charge-counters h) ∙ update_self m.counters inst after_charge

  not_later : leb_ℤ now_ns after_charge.last_ns ≡ true
  unfolding after_charge
  not_later = ground arith

  held :
      (n : RateModel D)
      → leb_ℤ now_ns (n.counters inst).last_ns ≡ true
      → count n inst now_ns ≡ (n.counters inst).count
  unfolding count
  held n h = rw h refl

  charge-count :
      m.enabled ≡ true
      → count (charge m inst op age_ns now_ns) inst now_ns ≡ charged m inst op age_ns now_ns
  unfolding after_charge
  charge-count h =
      held (charge m inst op age_ns now_ns)
        (ap (λ c. leb_ℤ now_ns c.last_ns) (counter_here h) ∙ not_later)
      ∙ ap (λ c. c.count) (counter_here h)

  allowed_cost :
      m.enabled ≡ true
      → would_allow m inst op age_ns now_ns ≡ true
      → D.le (charged m inst op age_ns now_ns) (ceiling m) ≡ true
  unfolding would_allow
  allowed_cost h k =
      ap (λ e. not e || D.le (charged m inst op age_ns now_ns) (ceiling m)) (sym h) ∙ k

  charge-params : (charge m inst op age_ns now_ns).params ≡ m.params
  unfolding charge
  charge-params = elim (Bool-cases m.enabled) [ inl h ↦ rw h refl | inr h ↦ rw h refl ]

  -- A request that an enabled model allows, charged at the same time: the counter of its instrument
  -- is then at most the ceiling, and the counter of any other instrument is as it was.
  pub charge-le-ceiling :
      m.enabled ≡ true
      → would_allow m inst op age_ns now_ns ≡ true
      → (D.le
            (count (charge m inst op age_ns now_ns) inst now_ns)
            (ceiling (charge m inst op age_ns now_ns))
          ≡ true)
        × ((other : ℕ)
            → other ≢ inst
            → (charge m inst op age_ns now_ns).counters other ≡ m.counters other)
  charge-le-ceiling h k = (
    ap (λ c. D.le c (ceiling (charge m inst op age_ns now_ns))) (charge-count h)
        ∙ ap (λ p. D.le (charged m inst op age_ns now_ns) (D.sub p.max p.margin)) charge-params
        ∙ allowed_cost h k,
    λ other ne.
        ap (λ c. c other) (charge-counters h)
        ∙ update_ne m.counters inst other after_charge (λ e. ne (sym e)),
  )
