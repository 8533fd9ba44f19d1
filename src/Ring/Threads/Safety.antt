-- ===== src/Ring/Threads/Safety.antt =====
-- Two threads over one ring, in any interleaving: nothing is lost, repeated or reordered, and the
-- threads never touch one slot at a time.
use Prim.Native.Nat.{◌∣◌}
use low_latency_pipeline.Prelude.{
  ℕ, ◌+◌, ◌%◌, ◌≤◌, ◌<◌, ◌≡◌, ◌≢◌, refl, List, [], ◌∷◌, ◌++◌, length, arith, sym, ap, ◌∙◌,
  length-append, subst, append_assoc, update_self, suc,
}
use low_latency_pipeline.Prelude.Mod.{mod_window, mod_mod}
use low_latency_pipeline.Ring.{u32_mod, add32, sub32, SpscRing, fill, publish}
use low_latency_pipeline.Ring.Refine.{
  Represents, fill-Represents, publish-Represents, pop-Represents,
}
use low_latency_pipeline.Ring.Threads.{
  Producer, Consumer, System, Step, Reach, load_tail, full, claim, write_slot, store_tail,
  load_head, empty, see_item, read_slot, store_head, here, next, start,
}

module _ {A : Type 0} (capacity : ℕ) where
  -- `behind` is the counter of the next push, and `count` the number of items in the queue.
  abbrev ProducerAt : (slots : ℕ → A) (tail behind count : ℕ) → Producer A → Type 0
  ProducerAt slots tail behind count Producer.idle = Unit
  ProducerAt slots tail behind count (Producer.pushing item w) = w ≡ tail
  ProducerAt slots tail behind count (Producer.claimed item slot) =
      (slot ≡ behind % capacity) × (count < capacity)
  ProducerAt slots tail behind count (Producer.filled item) =
      (slots (behind % capacity) ≡ item) × (count < capacity)

  abbrev ConsumerAt : (head : ℕ) → List A → Consumer A → Type 0
  ConsumerAt head q Consumer.idle = Unit
  ConsumerAt head q (Consumer.popping i) = i ≡ head
  ConsumerAt head q (Consumer.ready i) = (i ≡ head) × (0 < length q)
  ConsumerAt head q (Consumer.copied i out) = (i ≡ head) × (rest : List A) × (q ≡ out ∷ rest)

  -- The queue is what was published and not yet consumed, and the ring holds it.
  pub record Inv (s : System A) : Type 0 where
    pub queue : List A
    pub history : s.published ≡ s.consumed ++ queue
    pub first : ℕ
    pub holds : Represents capacity s.ring first queue
    pub producing :
        ProducerAt s.ring.slots s.ring.tail (first + length queue) (length queue) s.producer
    pub consuming : ConsumerAt s.ring.head queue s.consumer

  -- A push by the other thread is no loss to the consumer, nor a pop to the producer.
  ConsumerAt-append :
      (head : ℕ) (q : List A) (x : A) (c : Consumer A)
      → ConsumerAt head q c
      → ConsumerAt head (q ++ x ∷ []) c
  ConsumerAt-append head q x Consumer.idle h = tt
  ConsumerAt-append head q x (Consumer.popping i) h = h
  ConsumerAt-append head q x (Consumer.ready i) h =
      (h.0, omega (arith, h.1, length-append q (x ∷ [])))
  ConsumerAt-append head q x (Consumer.copied i out) (e, rest, h) =
      (e, rest ++ x ∷ [], ap (λ l. l ++ x ∷ []) h)

  ProducerAt-pop :
      (slots : ℕ → A) (tail behind behind' count : ℕ) (p : Producer A)
      → behind ≡ behind'
      → ProducerAt slots tail behind (suc count) p
      → ProducerAt slots tail behind' count p
  ProducerAt-pop slots tail b b' n Producer.idle e h = tt
  ProducerAt-pop slots tail b b' n (Producer.pushing item w) e h = h
  ProducerAt-pop slots tail b b' n (Producer.claimed item slot) e h =
      (rw e at (h.0), omega (arith, h.1))
  ProducerAt-pop slots tail b b' n (Producer.filled item) e h = (rw e at (h.0), omega (arith, h.1))

  module _ (divides : capacity ∣ u32_mod) (small : capacity < u32_mod) where
    -- Steps that only move a thread's own position.
    producer_moves :
        (s : System A) (v : Inv s) (p : Producer A)
        → ProducerAt s.ring.slots s.ring.tail (v.first + length v.queue) (length v.queue) p
        → Inv (record s { producer = p })
    producer_moves s v p at = record {
      queue = v.queue;
      history = v.history;
      first = v.first;
      holds = v.holds;
      producing = at;
      consuming = v.consuming;
    }

    consumer_moves :
        (s : System A) (v : Inv s) (c : Consumer A)
        → ConsumerAt s.ring.head v.queue c
        → Inv (record s { consumer = c })
    consumer_moves s v c at = record {
      queue = v.queue;
      history = v.history;
      first = v.first;
      holds = v.holds;
      producing = v.producing;
      consuming = at;
    }

    claimed_slot :
        (s : System A) (v : Inv s) (item : A) (w : ℕ)
        → s.producer ≡ Producer.pushing item w
        → sub32 w s.ring.head ≢ capacity
        → (w % capacity ≡ (v.first + length v.queue) % capacity) × (length v.queue < capacity)
    claimed_slot s v item w e h =
        let at : w ≡ s.ring.tail = rw e at v.producing in
        let p = v.holds in
        (
          rw (at, p.tail_at) (mod_mod capacity u32_mod divides _),
          omega (arith, p.head_at, p.tail_at, p.fits),
        )

    filled_slot :
        (s : System A) (v : Inv s) (item : A) (slot : ℕ)
        → s.producer ≡ Producer.claimed item slot
        → Inv (record s { ring = fill s.ring slot item; producer = Producer.filled item })
    unfolding fill
    filled_slot s v item slot e =
        let (at, room) =
          subst (ProducerAt s.ring.slots s.ring.tail (v.first + length v.queue) (length v.queue)) e
            v.producing in
        subst (λ k. Inv (record s { ring = fill s.ring k item; producer = Producer.filled item }))
          (sym at)
          (record {
            queue = v.queue;
            history = v.history;
            first = v.first;
            holds = fill-Represents capacity v.holds item room;
            producing = (update_self s.ring.slots _ item, room);
            consuming = v.consuming;
          })

    -- A store of the tail publishes the item, and a store of the head hands one out.
    published_item :
        (s : System A) (v : Inv s) (item : A)
        → s.producer ≡ Producer.filled item
        → Inv (record s {
          ring = publish s.ring;
          producer = Producer.idle;
          published = s.published ++ item ∷ [];
        })
    unfolding publish
    published_item s v item e =
        let (at, room) =
          subst (ProducerAt s.ring.slots s.ring.tail (v.first + length v.queue) (length v.queue)) e
            v.producing in
        record {
          queue = v.queue ++ item ∷ [];
          history =
              ap (λ l. l ++ item ∷ []) v.history ∙ append_assoc s.consumed v.queue (item ∷ []);
          first = v.first;
          holds = publish-Represents capacity v.holds item room at;
          producing = tt;
          consuming = ConsumerAt-append s.ring.head v.queue item s.consumer v.consuming;
        }

    -- What the consumer reads is the oldest item.
    oldest :
        (r : SpscRing A) (first : ℕ) (q : List A)
        → Represents capacity r first q
        → 0 < length q
        → (rest : List A) × (q ≡ r.slots (r.head % capacity) ∷ rest)
    oldest r first [] p h = absurd (omega arith)
    oldest r first (x ∷ rest) p h =
        let at : r.head % capacity ≡ first % capacity =
          rw p.head_at (mod_mod capacity u32_mod divides first) in
        (rest, ap (λ y. y ∷ rest) (sym (rw at p.items.0)))

    read_item :
        (s : System A) (v : Inv s) (i : ℕ)
        → s.consumer ≡ Consumer.ready i
        → (i ≡ s.ring.head) × (rest : List A) × (v.queue ≡ s.ring.slots (i % capacity) ∷ rest)
    read_item s v i e =
        let (at, more) = subst (ConsumerAt s.ring.head v.queue) e v.consuming in
        let (rest, eq) = oldest s.ring v.first v.queue v.holds more in (at, rest, rw at eq)

    consumed_item :
        (s : System A) (v : Inv s) (i : ℕ) (out : A)
        → s.consumer ≡ Consumer.copied i out
        → Inv (record s {
          ring = record (s.ring) { head = add32 i 1 };
          consumer = Consumer.idle;
          consumed = s.consumed ++ out ∷ [];
        })
    consumed_item s v i out e =
        let (at, rest, eq) = subst (ConsumerAt s.ring.head v.queue) e v.consuming in
        let holds' = subst (λ q. Represents capacity s.ring v.first q) eq v.holds in
        record {
          queue = rest;
          history =
              v.history
              ∙ ap (λ q. s.consumed ++ q) eq
              ∙ sym (append_assoc s.consumed (out ∷ []) rest);
          first = v.first + 1;
          holds = rw at (pop-Represents capacity holds');
          producing =
              ProducerAt-pop s.ring.slots s.ring.tail (v.first + length v.queue)
                (v.first + 1 + length rest) (length rest) s.producer
                (ap (λ q. v.first + length q) eq ∙ omega arith)
                (subst
                  (λ n. ProducerAt s.ring.slots s.ring.tail (v.first + length v.queue) n s.producer)
                  (ap length eq) v.producing);
          consuming = tt;
        }

    Step-Inv : {s t : System A} → Step capacity s t → Inv s → Inv t
    Step-Inv (load_tail s item e) v = producer_moves s v _ refl
    Step-Inv (full s item w e h) v = producer_moves s v _ tt
    Step-Inv (claim s item w e h) v = producer_moves s v _ (claimed_slot s v item w e h)
    Step-Inv (write_slot s item slot e) v = filled_slot s v item slot e
    Step-Inv (store_tail s item e) v = published_item s v item e
    Step-Inv (load_head s e) v = consumer_moves s v _ refl
    Step-Inv (empty s i e h) v = consumer_moves s v _ tt
    Step-Inv (see_item s i e h) v =
        let at : i ≡ s.ring.head = rw e at v.consuming in
        consumer_moves s v _ (at, omega (arith, v.holds.head_at, v.holds.tail_at))
    Step-Inv (read_slot s i e) v = consumer_moves s v _ (read_item s v i e)
    Step-Inv (store_head s i out e) v = consumed_item s v i out e

    Reach-Inv : {s t : System A} → Inv s → Reach capacity s t → Inv t
    Reach-Inv v here = v
    Reach-Inv v (next r st) = Step-Inv st (Reach-Inv v r)

    start-Inv : (slots : ℕ → A) → Inv (start slots)
    start-Inv slots = record {
      queue = [];
      history = refl;
      first = 0;
      holds = record { head_at = refl; tail_at = refl; fits = omega arith; items = tt };
      producing = tt;
      consuming = tt;
    }

    -- In every interleaving that starts with an empty ring, the consumed items followed by at most
    -- `capacity` items that are still in the ring are the published items, in the order in which
    -- they were published.
    pub Reach-fifo :
        (slots : ℕ → A) {t : System A}
        → Reach capacity (start slots) t
        → (queue : List A) × (t.published ≡ t.consumed ++ queue) × (length queue ≤ capacity)
    Reach-fifo slots r = let v = Reach-Inv (start-Inv slots) r in (v.queue, v.history, v.holds.fits)

    -- In every such interleaving, while the producer owns a claimed slot and the consumer is about
    -- to read one, the two slots differ: no slot is written and read at the same time.
    pub Reach-race_free :
        (slots : ℕ → A) {t : System A} (item : A) (slot read_idx : ℕ)
        → Reach capacity (start slots) t
        → t.producer ≡ Producer.claimed item slot
        → t.consumer ≡ Consumer.ready read_idx
        → slot ≢ read_idx % capacity
    Reach-race_free slots {t} item slot i r ep ec same =
        let v = Reach-Inv (start-Inv slots) r in
        let (pat, room) =
          subst (ProducerAt t.ring.slots t.ring.tail (v.first + length v.queue) (length v.queue)) ep
            v.producing in
        let (cat, more) = subst (ConsumerAt t.ring.head v.queue) ec v.consuming in
        let at : i % capacity ≡ v.first % capacity =
          rw (cat, v.holds.head_at) (mod_mod capacity u32_mod divides v.first) in
        absurd (
          omega (
            arith,
            mod_window capacity v.first (v.first + length v.queue) (omega arith) (omega arith)
                (sym at ∙ sym same ∙ pat),
          ))
