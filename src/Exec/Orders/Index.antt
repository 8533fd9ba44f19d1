-- ===== src/Exec/Orders/Index.antt =====
-- src/exec/order_table.hpp: the index runs like the core's order map, with the row's number as the
-- order and key 0 as a free slot; its probes and its backward shift are simulated there.
use low_latency_pipeline.Prelude.{
  ℕ, zero, suc, ◌+◌, ◌%◌, ◌<◌, ◌≡◌, inl, inr, refl, ap, sym, ◌∙◌, subst, Bool, true, false, not,
  arith, Option, none, some, ◌==◌, if◌then◌else◌, update, Bool-cases, ◌>>=◌,
}
use low_latency_pipeline.Event.{Side}
use low_latency_pipeline.OrderMap.{OrderEntry, Slots, masked_sub, freed, moved}
use low_latency_pipeline.OrderMap
use low_latency_pipeline.OrderMap.Distance.{distance}
use low_latency_pipeline.OrderMap.Laws.{Models}
use low_latency_pipeline.Exec.Orders.{IndexSlot, slot_of_from, place_from}

abbrev pub row_at : ℕ → OrderEntry
row_at i = record { price = i; shares = 0; side = Side.sell }

abbrev pub embed_slot : IndexSlot → OrderMap.Slot
embed_slot s = record { key = s.key; entry = row_at s.pos; occupied = not (s.key == 0) }

abbrev pub embed : (ℕ → IndexSlot) → Slots
embed index p = embed_slot (index p)

-- Two tables with the same slots occupied, and the same in them.
abbrev pub Agrees : Slots → Slots → Type 0
Agrees s t = (p : ℕ) → ((s p).occupied ≡ (t p).occupied) × ((t p).occupied ≡ true → s p ≡ t p)

pub Agrees-Models :
    (c : ℕ) (hash : ℕ → ℕ) (s t : Slots) (f : ℕ → Option OrderEntry)
    → Agrees s t
    → Models c hash s f
    → Models c hash t f
Agrees-Models c hash s t f a m = record {
  probed = record {
    reached = λ p h p_lt h_lt occ is_free.
        subst (λ x. distance c (hash x.key % c) p < distance c h p) ((a p).1 occ)
          (m.probed.reached p h p_lt h_lt ((a p).0 ∙ occ) ((a h).0 ∙ is_free));
    unique = λ p q p_lt q_lt p_occ q_occ same.
        m.probed.unique p q p_lt q_lt ((a p).0 ∙ p_occ) ((a q).0 ∙ q_occ)
          (ap (λ x. x.key) ((a p).1 p_occ) ∙ same ∙ sym (ap (λ x. x.key) ((a q).1 q_occ)));
  };
  sound =
      λ p lt occ. subst (λ x. f x.key ≡ some x.entry) ((a p).1 occ) (m.sound p lt ((a p).0 ∙ occ));
  complete = λ ref e h.
      let (p, held) = m.complete ref e h in
      let occ = sym (a p).0 ∙ held.1 in
      (p, (held.0, occ, sym (ap (λ x. x.key) ((a p).1 occ)) ∙ held.2));
}

pub embed-update :
    (index : ℕ → IndexSlot) (p : ℕ) (s : IndexSlot) (q : ℕ)
    → embed (update index p s) q ≡ update (embed index) p (embed_slot s) q
embed-update index p s q = ground arith

abbrev slot_or : Option (Option ℕ) → ℕ → ℕ
slot_or none d = d
slot_or (some none) d = d
slot_or (some (some s)) d = s

abbrev found : Option (Option ℕ) → Bool
found none = false
found (some none) = false
found (some (some s)) = true

pub true_ne_false {ℓ} : {A : Type ℓ} → true ≡ false → A
true_ne_false e = absurd (ground (arith, e))

module _ (c max_rows : ℕ) (hash : ℕ → ℕ) where
  pub slot_of_from-find :
      (fuel : ℕ) (index : ℕ → IndexSlot) (i id : ℕ)
      → slot_of_from c max_rows hash fuel index i id
        ≡ OrderMap.find_from c hash fuel (embed index) i id
  unfolding slot_of_from OrderMap.find_from
  slot_of_from-find zero index i id = refl
  slot_of_from-find (suc fuel) index i id =
      let s = index (i % c) in
      let rest = slot_of_from-find fuel index (i + 1) id in
      elim (Bool-cases (s.key == 0)) [
        | inl e ↦ rw e refl
        | inr e ↦ rw e (ap (λ r. if s.key == id then some (some (i % c)) else r) rest)
      ]

  occupied_slot :
      (id row : ℕ)
      → (id == 0) ≡ false
      → embed_slot (record { key = id; pos = row })
        ≡ record { key = id; entry = row_at row; occupied = true }
  occupied_slot id row h = rw h refl

  pub place_from-insert :
      (fuel : ℕ) (index : ℕ → IndexSlot) (i id row : ℕ)
      → (id == 0) ≡ false
      → OrderMap.insert_from c hash fuel (embed index) i id (row_at row) ≡ (
          place_from c max_rows hash fuel index i (record { key = id; pos = row }) >>= λ next.
          some (embed next))
  unfolding place_from OrderMap.insert_from
  place_from-insert zero index i id row h = refl
  place_from-insert (suc fuel) index i id row h =
      let rest = place_from-insert fuel index (i + 1) id row h in
      let s : IndexSlot = record { key = id; pos = row } in
      let same : (q : ℕ)
          → update (embed index) (i % c) (record { key = id; entry = row_at row; occupied = true })
              q
            ≡ embed (update index (i % c) s) q =
        λ q.
          ap (λ v. update (embed index) (i % c) v q) (sym (occupied_slot id row h))
          ∙ sym (embed-update index (i % c) s q) in
      elim (Bool-cases ((index (i % c)).key == 0)) [
        | inl e ↦ rw e (ap some (λ k q. same q k))
        | inr e ↦ rw e rest
      ]

  slot_of_from-empty :
      (fuel : ℕ) (index : ℕ → IndexSlot) (i id : ℕ)
      → ((index (i % c)).key == 0) ≡ true
      → slot_of_from c max_rows hash (suc fuel) index i id ≡ some none
  unfolding slot_of_from
  slot_of_from-empty fuel index i id e = rw e refl

  slot_of_from-hit :
      (fuel : ℕ) (index : ℕ → IndexSlot) (i id : ℕ)
      → ((index (i % c)).key == 0) ≡ false
      → ((index (i % c)).key == id) ≡ true
      → slot_of_from c max_rows hash (suc fuel) index i id ≡ some (some (i % c))
  unfolding slot_of_from
  slot_of_from-hit fuel index i id e k = rw (e, k) refl

  slot_of_from-next :
      (fuel : ℕ) (index : ℕ → IndexSlot) (i id : ℕ)
      → ((index (i % c)).key == 0) ≡ false
      → ((index (i % c)).key == id) ≡ false
      → slot_of_from c max_rows hash (suc fuel) index i id
        ≡ slot_of_from c max_rows hash fuel index (i + 1) id
  unfolding slot_of_from
  slot_of_from-next fuel index i id e k = rw (e, k) refl

  slot_of_from-zero :
      (index : ℕ → IndexSlot) (i id : ℕ) → slot_of_from c max_rows hash 0 index i id ≡ none
  unfolding slot_of_from
  slot_of_from-zero index i id = refl

  -- A probe that finds a slot by its identifier, in terms of the map's search for the key.
  pub slot_of_from-locate :
      (fuel : ℕ) (index : ℕ → IndexSlot) (i id s : ℕ)
      → slot_of_from c max_rows hash fuel index i id ≡ some (some s)
      → (place : ℕ) × (OrderMap.locate_from c hash fuel (embed index) i id ≡ some place)
        × (place % c ≡ s)
  unfolding OrderMap.locate_from
  slot_of_from-locate zero index i id s h =
      true_ne_false (sym (ap found h) ∙ ap found (slot_of_from-zero index i id))
  slot_of_from-locate (suc fuel) index i id s h = elim (Bool-cases ((index (i % c)).key == 0)) [
    | inl e ↦ true_ne_false (sym (ap found h) ∙ ap found (slot_of_from-empty fuel index i id e))
    | inr e ↦ elim (Bool-cases ((index (i % c)).key == id)) [
      | inl k ↦ (
        i,
        rw (k, OrderMap.locate_from) refl,
        ap (λ o. slot_or o 0) (sym (slot_of_from-hit fuel index i id e k) ∙ h),
      )
      | inr k ↦
          let (place, run, at) =
            slot_of_from-locate fuel index (i + 1) id s
              (sym (slot_of_from-next fuel index i id e k) ∙ h) in
          (place, rw (k, OrderMap.locate_from) run, at)
    ]
  ]
