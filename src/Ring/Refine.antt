-- ===== src/Ring/Refine.antt =====
-- The methods of the ring, run one at a time, are those of the queue.
use Prim.Native.Nat.{◌∣◌}
use low_latency_pipeline.Prelude.{
  ℕ, ◌+◌, ◌%◌, ◌≤◌, ◌<◌, ◌≡◌, ◌≢◌, refl, true, false, none, some, List, [], ◌∷◌, ◌++◌, length,
  length-append, arith, ◌==◌, if◌then◌else◌, update, update_self, update_ne, sym, ◌∙◌, ap,
  Bool-cases, inl, inr,
}
use low_latency_pipeline.Prelude.Mod.{mod_window, mod_mod}
use low_latency_pipeline.Ring.{
  u32_mod, add32, SpscRing, try_claim, fill, publish, try_push, try_pop, size,
}
use low_latency_pipeline.Ring.Queue.{push, pop}

module _ {ℓ} {A : Type ℓ} (capacity : ℕ) where
  -- `q` stands in the slots from `head` on, oldest first.
  abbrev pub Slots : (ℕ → A) → ℕ → List A → Type ℓ
  Slots slots i [] = Unit
  Slots slots i (x ∷ q) = (slots (i % capacity) ≡ x) × Slots slots (i + 1) q

  pub record Represents (r : SpscRing A) (start : ℕ) (q : List A) : Type ℓ where
    pub head_at : r.head ≡ start % u32_mod
    pub tail_at : r.tail ≡ (start + length q) % u32_mod
    pub fits : length q ≤ capacity
    pub items : Slots r.slots start q

  -- The ring holds the queue `q`, wherever it starts.
  abbrev pub Holds : SpscRing A → List A → Type ℓ
  Holds r q = (start : ℕ) × Represents r start q

  -- A write behind the last item leaves the others.
  pub Slots-update :
      (slots : ℕ → A) (i j : ℕ) (q : List A) (v : A)
      → i + length q ≤ j
      → j < i + capacity
      → Slots slots i q
      → Slots (update slots (j % capacity) v) i q
  Slots-update slots i j [] v e h s = tt
  Slots-update slots i j (x ∷ q) v e h s = (
    update_ne slots (j % capacity) (i % capacity) v (λ same.
          absurd (omega (arith, mod_window capacity i j (omega arith) (omega arith) (sym same))))
        ∙ s.0,
    Slots-update slots (i + 1) j q v (omega arith) (omega arith) s.1,
  )

  Slots-append :
      (slots : ℕ → A) (i j : ℕ) (q : List A) (v : A)
      → j ≡ i + length q
      → slots (j % capacity) ≡ v
      → Slots slots i q
      → Slots slots i (q ++ v ∷ [])
  Slots-append slots i j [] v e h s = let e' : i ≡ j = omega arith in (rw e' h, tt)
  Slots-append slots i j (x ∷ q) v e h s =
      (s.0, Slots-append slots (i + 1) j q v (omega arith) h s.1)

  -- The slot behind the last item can be filled while the queue is read.
  pub fill-Represents :
      {r : SpscRing A} {start : ℕ} {q : List A} (p : Represents r start q) (v : A)
      → length q < capacity
      → Represents (fill r ((start + length q) % capacity) v) start q
  unfolding fill
  fill-Represents {r} {start} {q} p v room = record {
    head_at = p.head_at;
    tail_at = p.tail_at;
    fits = p.fits;
    items = Slots-update r.slots start _ q v (omega arith) (omega arith) p.items;
  }

  -- `publish` appends what stands in the slot behind the last item.
  pub publish-Represents :
      {r : SpscRing A} {start : ℕ} {q : List A} (p : Represents r start q) (v : A)
      → length q < capacity
      → r.slots ((start + length q) % capacity) ≡ v
      → Represents (publish r) start (q ++ v ∷ [])
  unfolding publish
  publish-Represents {r} {start} {q} p v room here = record {
    head_at = p.head_at;
    tail_at = omega (arith, p.tail_at, length-append q (v ∷ []));
    fits = omega (arith, length-append q (v ∷ []));
    items = Slots-append r.slots start _ q v refl here p.items;
  }

  -- Moving the head drops the oldest item.
  pub pop-Represents :
      {r : SpscRing A} {start : ℕ} {x : A} {q : List A}
      → Represents r start (x ∷ q)
      → Represents (record r { head = add32 r.head 1 }) (start + 1) q
  pop-Represents p = record {
    head_at = omega (arith, p.head_at);
    tail_at = omega (arith, p.tail_at);
    fits = omega (arith, p.fits);
    items = p.items.1;
  }

  module _ (divides : capacity ∣ u32_mod) (small : capacity < u32_mod) where
    -- The difference of the counters is the number of items, across the wrap of either.
    pub size_lem :
        {r : SpscRing A} {start : ℕ} {q : List A}
        → Represents r start q
        → size capacity r ≡ length q
    unfolding size
    size_lem p = ground arith

    -- A slot is claimed exactly if the queue is not full, and it is the one behind the last item.
    pub try_claim-Represents :
        {r : SpscRing A} {start : ℕ} {q : List A} (p : Represents r start q)
        → try_claim capacity r
          ≡ (if length q == capacity then none else some ((start + length q) % capacity))
    unfolding try_claim size
    try_claim-Represents {r} {start} {q} p =
        rw (size_lem p, p.tail_at, mod_mod capacity u32_mod divides (start + length q))

    pub filled :
        (r : SpscRing A) (start : ℕ) (q : List A) (x : A) (p : Represents r start q)
        → length q ≢ capacity
        → Represents (publish (fill r ((start + length q) % capacity) x)) start (q ++ x ∷ [])
    unfolding fill
    filled r start q x p room =
        let roomy : length q < capacity = omega (arith, p.fits) in
        publish-Represents (fill-Represents p x roomy) x roomy (update_self r.slots _ x)

    -- `try_push` answers and changes the ring as `push` does the queue.
    pub try_push-push :
        (r : SpscRing A) (q : List A) (x : A)
        → Holds r q
        → ((try_push capacity r x).0 ≡ (push capacity q x).0)
          × Holds (try_push capacity r x).1 (push capacity q x).1
    unfolding try_push push
    try_push-push r q x (start, p) = elim (Bool-cases (length q == capacity)) [
      | inl full ↦ rw (try_claim-Represents p, try_push, full) (refl, (start, p))
      | inr room ↦
          rw (try_claim-Represents p, try_push, room)
            (refl, (start, filled r start q x p (ground arith)))
    ]

    -- `try_pop` answers and changes the ring as `pop` does the queue.
    pub try_pop-pop :
        (r : SpscRing A) (q : List A)
        → Holds r q
        → ((try_pop capacity r).0 ≡ (pop q).0) × Holds (try_pop capacity r).1 (pop q).1
    unfolding try_pop pop
    try_pop-pop r [] (start, p) =
        let e : (r.tail == r.head) ≡ true = ground arith in rw (e, try_pop) (refl, (start, p))
    try_pop-pop r (x ∷ q) (start, p) =
        let e : (r.tail == r.head) ≡ false = ground arith in
        let at : r.head % capacity ≡ start % capacity =
          rw p.head_at (mod_mod capacity u32_mod divides start) in
        rw (e, try_pop) (ap some (rw at p.items.0), (start + 1, pop-Represents p))
