-- ===== src/Exec/View/Gaps.antt =====
-- src/exec/market_view.hpp: over any frames, `frame_gaps` is the number of frames that the sequence
-- numbers leave out.
use low_latency_pipeline.Prelude.{
  ℕ, suc, ◌+◌, ◌-◌, ◌^◌, ◌≤◌, ◌<◌, ◌≡◌, inl, inr, refl, ap, sym, ◌∙◌, subst, true, not, ◌&&◌, ◌||◌,
  arith, List, [], ◌∷◌, ◌==◌, Bool-cases,
}
use low_latency_pipeline.Update.{MarketUpdate}
use low_latency_pipeline.Exec.Doubles.{Doubles}
use low_latency_pipeline.Exec.View.{
  MarketView, next_seq, has_feed_reset, frame_two_sided, on_sequence, on_update,
}

-- Sequence numbers that go up, as one producer sends them, and stay below 2 ^ 64 - 1.
abbrev pub IsAscending : (last : ℕ) → List MarketUpdate → Type 0
IsAscending last [] = Unit
IsAscending last (u ∷ us) =
    ((last < u.event_seq) × (u.event_seq + 1 < 2 ^ 64)) × IsAscending u.event_seq us

abbrev pub last_seq : (last : ℕ) → List MarketUpdate → ℕ
last_seq last [] = last
last_seq last (u ∷ us) = last_seq u.event_seq us

abbrev pub frame_count : List MarketUpdate → ℕ
frame_count [] = 0
frame_count (u ∷ us) = suc (frame_count us)

ascends :
    (last : ℕ) (us : List MarketUpdate)
    → IsAscending last us
    → last + frame_count us ≤ last_seq last us
ascends last [] a = omega arith
ascends last (u ∷ us) a = omega (arith, a.0.0, ascends u.event_seq us a.1)

module _ {D : Doubles} where
  abbrev pub on_updates : MarketView D → List MarketUpdate → MarketView D
  on_updates v [] = v
  on_updates v (u ∷ us) = on_updates (on_update v u) us

  on_update-fields :
      (v : MarketView D) (u : MarketUpdate)
      → ((on_update v u).u ≡ u)
        × ((on_update v u).frame_gaps ≡ (on_sequence v u).frame_gaps)
        × ((on_update v u).have_seq ≡ true)
        × ((on_update v u).feed_reset ≡ (on_sequence v u).feed_reset)
  unfolding on_update on_sequence
  on_update-fields v u = elim (Bool-cases (frame_two_sided u)) [
    | inl h ↦ rw h (refl, refl, refl, refl)
    | inr h ↦ rw h (refl, refl, refl, refl)
  ]

  -- A later frame adds the frames between.
  on_sequence-gaps :
      (v : MarketView D) (u : MarketUpdate)
      → v.have_seq ≡ true
      → v.u.event_seq < u.event_seq
      → u.event_seq + 1 < 2 ^ 64
      → v.frame_gaps + (u.event_seq - v.u.event_seq - 1) < 2 ^ 64
      → (on_sequence v u).frame_gaps ≡ v.frame_gaps + (u.event_seq - v.u.event_seq - 1)
  unfolding on_sequence
  on_sequence-gaps v u seen later small fits = ground (arith, seen)

  gaps_lem :
      (v : MarketView D) (us : List MarketUpdate)
      → v.have_seq ≡ true
      → IsAscending v.u.event_seq us
      → v.frame_gaps + last_seq v.u.event_seq us < 2 ^ 64 + v.u.event_seq
      → (on_updates v us).frame_gaps + (v.u.event_seq + frame_count us)
        ≡ v.frame_gaps + last_seq v.u.event_seq us
  gaps_lem v [] seen a fits = omega arith
  gaps_lem v (u ∷ us) seen a fits =
      let (frame, gaps, seen', reset) = on_update-fields v u in
      let seq = ap (λ t. t.event_seq) frame in
      let climb = ascends u.event_seq us a.1 in
      let step = gaps ∙ on_sequence-gaps v u seen a.0.0 a.0.1 (omega (arith, climb, fits, a.0.0)) in
      let ascending : IsAscending (on_update v u).u.event_seq us =
        subst (λ n. IsAscending n us) (sym seq) a.1 in
      let last = ap (λ n. last_seq n us) seq in
      let rest =
        gaps_lem (on_update v u) us seen' ascending
          (omega (arith, step, last, fits, a.0.0, climb)) in
      omega (arith, rest, step, last, seq, a.0.0, climb)

  reset_lem :
      (v : MarketView D) (u : MarketUpdate)
      → (on_update v u).feed_reset
        ≡ (has_feed_reset u.flags || (v.have_seq && not (u.event_seq == next_seq v.u.event_seq)))
  unfolding on_sequence
  reset_lem v u = (on_update-fields v u).3

  -- A view that has seen a frame, and frames whose numbers go up from that frame's, the gaps counted
  -- so far and the numbers up to the last frame's together below 2 ^ 64: the gaps it counts for them
  -- are the numbers left out between the frame it had and the last, and it is marked as reset after
  -- a frame exactly if the frame says so or its number is not the next one.
  pub on_updates-gaps :
      (v : MarketView D) (us : List MarketUpdate)
      → v.have_seq ≡ true
      → IsAscending v.u.event_seq us
      → v.frame_gaps + last_seq v.u.event_seq us < 2 ^ 64 + v.u.event_seq
      → ((on_updates v us).frame_gaps
          ≡ v.frame_gaps + (last_seq v.u.event_seq us - (v.u.event_seq + frame_count us)))
        × ((u : MarketUpdate)
            → (on_update v u).feed_reset
              ≡ (has_feed_reset u.flags || not (u.event_seq == next_seq v.u.event_seq)))
  on_updates-gaps v us seen a fits = (
    omega (arith, gaps_lem v us seen a fits, ascends v.u.event_seq us a),
    λ u.
        reset_lem v u
        ∙ ap (λ b. has_feed_reset u.flags || (b && not (u.event_seq == next_seq v.u.event_seq)))
            seen,
  )
