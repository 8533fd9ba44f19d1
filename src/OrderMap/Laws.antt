-- ===== src/OrderMap/Laws.antt =====
-- The table is a finite map from order references to orders.
use Prim.Native.Nat.{◌∣◌}
use low_latency_pipeline.Prelude.{
  ℕ, ◌^◌, ◌<◌, ◌≡◌, ◌≢◌, ◌⊎◌, inl, inr, sym, ◌∙◌, ap, true, false, Option, none, some, arith,
  Option-cases, update, ℕ_discrete,
}
use low_latency_pipeline.OrderMap.{OrderEntry, Slots, find, insert, erase, freed, order_hash}
use low_latency_pipeline.OrderMap.Invariant.{IsProbed, HoldsAt, Absent, HasRoom}
use low_latency_pipeline.OrderMap.Find.{find-Finds}
use low_latency_pipeline.OrderMap.Insert.{placed, Reaches, insert-Reaches, placed-IsProbed}
use low_latency_pipeline.OrderMap.Shift.{Keeps}
use low_latency_pipeline.OrderMap.Erase.{erase-Keeps}

abbrev pub Orders : Type 0
Orders = ℕ → Option OrderEntry

module _ (c : ℕ) (hash : ℕ → ℕ) where
  -- The table holds the orders of `f` and no others, where the probes find them.
  pub record Models (slots : Slots) (f : Orders) : Type 0 where
    pub probed : IsProbed c hash slots
    pub sound :
        (p : ℕ) → p < c → (slots p).occupied ≡ true → f ((slots p).key) ≡ some (slots p).entry
    pub complete :
        (ref : ℕ) (e : OrderEntry) → f ref ≡ some e → (p : ℕ) × HoldsAt c hash slots ref p

  -- The entries of a table may be moved.
  moved_sound :
      (s u : Slots) (f : Orders)
      → Keeps c s u
      → ((p : ℕ) → p < c → (u p).occupied ≡ true → f ((u p).key) ≡ some (u p).entry)
      → (p : ℕ) → p < c
      → (s p).occupied ≡ true
      → f ((s p).key) ≡ some (s p).entry
  moved_sound s u f keeps sound p lt occ =
      let (q, q_lt, q_occ, key, entry) = keeps p lt occ in
      ap f (sym key) ∙ sound q q_lt q_occ ∙ ap some entry

  moved_complete :
      (s u : Slots) (r : ℕ)
      → Keeps c u s
      → (p : ℕ) × HoldsAt c hash u r p
      → (p : ℕ) × HoldsAt c hash s r p
  moved_complete s u r keeps (p, held) =
      let (q, q_lt, q_occ, same, _) = keeps p held.0 held.1 in (q, (q_lt, q_occ, same ∙ held.2))

  -- A table of free slots, whatever else is in them.
  pub empty-Models :
      (slots : Slots) → ((p : ℕ) → (slots p).occupied ≡ false) → Models slots (λ ref. none)
  empty-Models slots free = record {
    probed = record {
      reached = λ p h p_lt h_lt occ is_free. cc (occ, free p);
      unique = λ p q p_lt q_lt p_occ q_occ same. cc (p_occ, free p);
    };
    sound = λ p lt occ. cc (occ, free p);
    complete = λ ref e h. cc;
  }

  module _ (divides : c ∣ 2 ^ 32) (hash_lt : (k : ℕ) → hash k < 2 ^ 32) (pos : 0 < c)
      (slots : Slots) (f : Orders) (ref : ℕ) (m : Models slots f)
      (room : HasRoom c hash slots) where
    -- `find` ends: with the slot of the order that the map has under the reference, or with the
    -- null pointer if it has none.
    pub find-Models :
        ((p : ℕ) × (find c hash slots ref ≡ some (some p))
          × HoldsAt c hash slots ref p
          × (f ref ≡ some (slots p).entry))
        ⊎ ((find c hash slots ref ≡ some none) × (f ref ≡ none))
    find-Models = elim (find-Finds c hash pos slots ref m.probed room) [
      | inl (p, run, held) ↦ inl (p, run, held, ap f (sym held.2) ∙ m.sound p held.0 held.1)
      | inr (run, absent) ↦ inr (
        run,
        elim (Option-cases (f ref)) [
          | inl e ↦ e
          | inr (e, h) ↦
              let (p, held) = m.complete ref e h in absurd (absent p held.0 held.1 held.2)
        ],
      )
    ]

    placed-Models :
        (entry : OrderEntry) (p : ℕ)
        → Reaches c hash pos slots ref entry p
        → f ref ≡ none
        → Models (placed c hash pos slots ref entry p) (update f ref (some entry))
    placed-Models entry p reach new =
        let absent : Absent c hash slots ref =
          λ q lt occ e. cc (ap f (sym e) ∙ m.sound q lt occ, new) in
        record {
          probed = placed-IsProbed c hash pos slots ref entry p reach absent m.probed;
          sound = λ q lt occ. ground (arith, m.sound q lt, absent q lt);
          complete = λ r e h. elim (ℕ_discrete r ref) [
            | yes same ↦ (p, (reach.0, ground arith, ground arith))
            | no n ↦
                let (q, held) = m.complete r e (ground arith) in
                let nq : q ≢ p = λ x. cc (ap (λ y. (slots y).occupied) x, held.1, reach.1) in
                (q, (held.0, ground arith, ground arith))
          ];
        }

    -- `insert` of a reference that the map does not have ends, and adds it.
    pub insert-Models :
        (entry : OrderEntry)
        → f ref ≡ none
        → (s : Slots) × (insert c hash slots ref entry ≡ some s)
          × Models s (update f ref (some entry))
    insert-Models entry new =
        let (p, run, reach) = insert-Reaches c hash pos slots ref entry room in
        (placed c hash pos slots ref entry p, run, placed-Models entry p reach new)

    -- The table with the slot of `ref` freed, before entries are moved.
    freed_sound :
        (p : ℕ)
        → HoldsAt c hash slots ref p
        → let u = update slots p (freed (slots p)) in
          (q : ℕ) → q < c → (u q).occupied ≡ true → update f ref none ((u q).key) ≡ some (u q).entry
    freed_sound p (lt, p_occ, key) q q_lt occ =
        let nq : p ≢ q = λ e. ground arith in
        let n : (slots q).key ≢ ref =
          λ e. nq (m.probed.unique p q lt q_lt p_occ (ground arith) (key ∙ sym e)) in
        ground (arith, m.sound q q_lt)

    freed_complete :
        (p r : ℕ) (e : OrderEntry)
        → HoldsAt c hash slots ref p
        → update f ref none r ≡ some e
        → (q : ℕ) × HoldsAt c hash (update slots p (freed (slots p))) r q
    freed_complete p r e (lt, p_occ, key) h =
        let n : ref ≢ r = λ same. ground arith in
        let (q, held) = m.complete r e (ground arith) in
        let nq : p ≢ q = λ x. n (sym key ∙ ap (λ y. (slots y).key) x ∙ held.2) in
        (q, (held.0, ground arith, ground arith))

    -- `erase` of a reference that the map has ends, and takes it out; a free slot stays free.
    pub erase-Models :
        (e : OrderEntry)
        → f ref ≡ some e
        → (s : Slots) × (erase c hash slots ref ≡ some s)
          × Models s (update f ref none)
          × HasRoom c hash s
    erase-Models e has =
        let (p, held) = m.complete ref e has in
        let u = update slots p (freed (slots p)) in
        let (s, run, probed, left, k1, k2) =
          erase-Keeps c hash divides hash_lt slots ref p room.0 pos m.probed held
            (room.1, room.2) in
        (
          s,
          run,
          record {
            probed = probed;
            sound = moved_sound s u (update f ref none) k2 (freed_sound p held);
            complete = λ r e' h. moved_complete s u r k1 (freed_complete p r e' held h);
          },
          (room.0, room.1, left),
        )

    -- A write of the entry through the pointer that `find` gave.
    abbrev pub written : ℕ → OrderEntry → Slots
    written p entry = update slots p (record (slots p) { entry = entry })

    occupied-written :
        (p q : ℕ) (entry : OrderEntry) → (written p entry q).occupied ≡ (slots q).occupied
    occupied-written p q entry = ground arith

    key-written : (p q : ℕ) (entry : OrderEntry) → (written p entry q).key ≡ (slots q).key
    key-written p q entry = ground arith

    -- It changes the order in place.
    pub written-Models :
        (p : ℕ) (entry : OrderEntry)
        → HoldsAt c hash slots ref p
        → Models (written p entry) (update f ref (some entry))
    written-Models p entry (lt, p_occ, key) = record {
      probed = record {
        reached = λ q h q_lt h_lt occ is_free. rw (key-written p q entry) (
            m.probed.reached q h q_lt h_lt (sym (occupied-written p q entry) ∙ occ)
              (sym (occupied-written p h entry) ∙ is_free));
        unique = λ q r q_lt r_lt q_occ r_occ same.
            m.probed.unique q r q_lt r_lt (sym (occupied-written p q entry) ∙ q_occ)
              (sym (occupied-written p r entry) ∙ r_occ)
              (sym (key-written p q entry) ∙ same ∙ key-written p r entry);
      };
      sound = λ q q_lt occ.
          let was : (slots q).occupied ≡ true = sym (occupied-written p q entry) ∙ occ in
          ground (arith, m.sound q q_lt was, m.probed.unique p q lt q_lt p_occ was);
      complete = λ r e h. elim (ℕ_discrete r ref) [
        | yes same ↦
            (p, (lt, occupied-written p p entry ∙ p_occ, key-written p p entry ∙ key ∙ sym same))
        | no n ↦
            let (q, held) = m.complete r e (ground arith) in
            (q, (held.0, occupied-written p q entry ∙ held.1, key-written p q entry ∙ held.2))
      ];
    }

    -- The free slots are those of before.
    pub written-HasRoom : (p : ℕ) (entry : OrderEntry) → HasRoom c hash (written p entry)
    written-HasRoom p entry = (room.0, room.1, occupied-written p room.0 entry ∙ room.2)

-- The program's hash has 20 bits.
pub order_hash-lt : (k : ℕ) → order_hash k < 2 ^ 32
unfolding order_hash
order_hash-lt k = omega arith
