-- ===== src/Ring/Threads.antt =====
-- The producer and the consumer as two threads over one ring. Each load and store of the methods
-- is one step, and the steps of the threads interleave in any order (sequentially consistent: the
-- acquire loads and release stores of the source are what makes the slots follow the counters).
pub mod Safety
use low_latency_pipeline.Prelude.{ℕ, ◌+◌, ◌%◌, ◌≡◌, ◌≢◌, List, [], ◌∷◌, ◌++◌}
use low_latency_pipeline.Ring.{add32, sub32, SpscRing, empty_ring, fill, publish}

-- Where the producer stands in `try_push`, with its local variables.
pub data Producer (A : Type 0) : Type 0 where
  idle : Producer A
  pushing : (item : A) (write_idx : ℕ) → Producer A
  claimed : (item : A) (slot : ℕ) → Producer A
  filled : (item : A) → Producer A

-- Where the consumer stands in `try_pop`.
pub data Consumer (A : Type 0) : Type 0 where
  idle : Consumer A
  popping : (read_idx : ℕ) → Consumer A
  ready : (read_idx : ℕ) → Consumer A
  copied : (read_idx : ℕ) (out : A) → Consumer A

-- The two lists are the history: what was published, and what was handed to the consumer.
pub record System (A : Type 0) : Type 0 where
  pub ring : SpscRing A
  pub producer : Producer A
  pub consumer : Consumer A
  pub published : List A
  pub consumed : List A

module _ {A : Type 0} (capacity : ℕ) where
  pub data Step : System A → System A → Type 0 where
    load_tail :
        (s : System A) (item : A)
        → s.producer ≡ Producer.idle
        → Step s (record s { producer = Producer.pushing item s.ring.tail })
    full :
        (s : System A) (item : A) (write_idx : ℕ)
        → s.producer ≡ Producer.pushing item write_idx
        → sub32 write_idx s.ring.head ≡ capacity
        → Step s (record s { producer = Producer.idle })
    claim :
        (s : System A) (item : A) (write_idx : ℕ)
        → s.producer ≡ Producer.pushing item write_idx
        → sub32 write_idx s.ring.head ≢ capacity
        → Step s (record s { producer = Producer.claimed item (write_idx % capacity) })
    write_slot :
        (s : System A) (item : A) (slot : ℕ)
        → s.producer ≡ Producer.claimed item slot
        → Step s (record s { ring = fill s.ring slot item; producer = Producer.filled item })
    store_tail :
        (s : System A) (item : A)
        → s.producer ≡ Producer.filled item
        → Step s (record s {
          ring = publish s.ring;
          producer = Producer.idle;
          published = s.published ++ item ∷ [];
        })
    load_head :
        (s : System A)
        → s.consumer ≡ Consumer.idle
        → Step s (record s { consumer = Consumer.popping s.ring.head })
    empty :
        (s : System A) (read_idx : ℕ)
        → s.consumer ≡ Consumer.popping read_idx
        → s.ring.tail ≡ read_idx
        → Step s (record s { consumer = Consumer.idle })
    see_item :
        (s : System A) (read_idx : ℕ)
        → s.consumer ≡ Consumer.popping read_idx
        → s.ring.tail ≢ read_idx
        → Step s (record s { consumer = Consumer.ready read_idx })
    read_slot :
        (s : System A) (read_idx : ℕ)
        → s.consumer ≡ Consumer.ready read_idx
        → Step s
            (record s { consumer = Consumer.copied read_idx (s.ring.slots (read_idx % capacity)) })
    store_head :
        (s : System A) (read_idx : ℕ) (out : A)
        → s.consumer ≡ Consumer.copied read_idx out
        → Step s (record s {
          ring = record (s.ring) { head = add32 read_idx 1 };
          consumer = Consumer.idle;
          consumed = s.consumed ++ out ∷ [];
        })

  pub data Reach (s : System A) : System A → Type 0 where
    here : Reach s s
    next : {t u : System A} → Reach s t → Step t u → Reach s u

abbrev pub start : {A : Type 0} → (ℕ → A) → System A
start slots = record {
  ring = empty_ring slots;
  producer = Producer.idle;
  consumer = Consumer.idle;
  published = [];
  consumed = [];
}
