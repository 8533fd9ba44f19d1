-- ===== src/Seqlock/Consistency.antt =====
-- A reader of the seqlock never hands out a mixture of two payloads.
use low_latency_pipeline.Prelude.{
  ℕ, ◌+◌, ◌*◌, ◌%◌, ◌^◌, ◌≤◌, ◌<◌, ◌≡◌, refl, sym, subst, arith, update, update_self, update_ne,
  dec_lt,
}
use low_latency_pipeline.Seqlock.{
  u64_mod, Words, Writer, Reader, Lock, Step, Reach, load_seq, make_odd, write_word, make_even,
  load_pre, see_odd, read_word, accept, refuse, here, next, start,
}

module _ (size : ℕ) where
  -- The first `n` words of the two payloads agree.
  abbrev pub Agree : ℕ → Words → Words → Type 0
  Agree n a b = (j : ℕ) → j < n → a j ≡ b j

  abbrev IsCopying : Writer → Type 0
  IsCopying (Writer.copying v s i) = Unit {0}
  IsCopying w = ⊥

  abbrev WriterAt : (seq count : ℕ) (words current : Words) → Writer → Type 0
  WriterAt seq count words current Writer.idle =
      (seq ≡ 2 * count % u64_mod) × Agree size words current
  WriterAt seq count words current (Writer.loaded v s) =
      (seq ≡ 2 * count % u64_mod) × Agree size words current × (s ≡ seq)
  WriterAt seq count words current (Writer.copying v s i) =
      (seq ≡ (2 * count + 1) % u64_mod) × Agree i words v × (s ≡ 2 * count % u64_mod)

  -- `k` stores were finished when the reader loaded `pre`. What it copied is the payload of that
  -- store for as long as no later store writes.
  abbrev ReaderAt : (count : ℕ) (stored : ℕ → Words) → Writer → Reader → Type 0
  ReaderAt count stored w Reader.idle = Unit
  ReaderAt count stored w (Reader.reading pre i out) =
      (k : ℕ) × (k ≤ count)
      × (pre ≡ 2 * k % u64_mod)
      × (¬ IsCopying w → k ≡ count → Agree i out (stored count))
  ReaderAt count stored w Reader.failed = Unit
  ReaderAt count stored w (Reader.returned out) = (k : ℕ) × (k ≤ count) × Agree size out (stored k)

  record Inv (l : Lock) : Type 0 where
    writing : WriterAt l.seq l.count l.words (l.stored l.count) l.writer
    loading : ReaderAt l.count l.stored l.writer l.reader

  -- A step of the writer that is not its last.
  writer_moves :
      (count : ℕ) (stored : ℕ → Words) (w w' : Writer) (r : Reader)
      → (¬ IsCopying w' → ¬ IsCopying w)
      → ReaderAt count stored w r
      → ReaderAt count stored w' r
  writer_moves count stored w w' Reader.idle f h = tt
  writer_moves count stored w w' (Reader.reading pre i out) f (k, le, at, good) =
      (k, le, at, λ n e. good (f n) e)
  writer_moves count stored w w' Reader.failed f h = tt
  writer_moves count stored w w' (Reader.returned out) f h = h

  finish :
      (count : ℕ) (stored : ℕ → Words) (v : Words) (w w' : Writer) (r : Reader)
      → ReaderAt count stored w r
      → ReaderAt (count + 1) (update stored (count + 1) v) w' r
  finish count stored v w w' Reader.idle h = tt
  finish count stored v w w' (Reader.reading pre i out) (k, le, at, good) =
      (k, omega arith, at, λ n e. absurd (omega arith))
  finish count stored v w w' Reader.failed h = tt
  finish count stored v w w' (Reader.returned out) (k, le, same) =
      (k, omega arith, λ j h. rw (update_ne stored (count + 1) k v (omega arith)) (same j h))

  -- An unchanged counter means that no store is under way and none was finished since.
  quiet :
      (seq count pre k : ℕ) (words now : Words) (w : Writer)
      → WriterAt seq count words now w
      → k ≤ count
      → pre ≡ 2 * k % u64_mod
      → seq ≡ pre
      → count < 2 ^ 63
      → (¬ IsCopying w) × (k ≡ count)
  quiet seq count pre k words now Writer.idle h le at e small = (λ c. c, omega (arith, h.0))
  quiet seq count pre k words now (Writer.loaded x s) h le at e small = (λ c. c, omega (arith, h.0))
  quiet seq count pre k words now (Writer.copying x s i) h le at e small =
      absurd (omega (arith, h.0))

  Step-count : {l m : Lock} → Step size l m → l.count ≤ m.count
  Step-count (load_seq l v e) = omega arith
  Step-count (make_odd l v s e) = omega arith
  Step-count (write_word l v s i e h) = omega arith
  Step-count (make_even l v s e) = omega arith
  Step-count (load_pre l out e) = omega arith
  Step-count (see_odd l e) = omega arith
  Step-count (read_word l pre i out e h) = omega arith
  Step-count (accept l pre out e h) = omega arith
  Step-count (refuse l pre out e h) = omega arith

  -- While the writer is not copying, the payload is that of the last finished store.
  current :
      (l : Lock) (w : Writer)
      → WriterAt l.seq l.count l.words (l.stored l.count) w
      → ¬ IsCopying w
      → Agree size l.words (l.stored l.count)
  current l Writer.idle h n = h.1
  current l (Writer.loaded v s) h n = h.1
  current l (Writer.copying v s i) h n = absurd (n tt)

  -- An even counter is that of the finished stores.
  even :
      (l : Lock) (w : Writer)
      → WriterAt l.seq l.count l.words (l.stored l.count) w
      → l.seq % 2 ≡ 0
      → l.seq ≡ 2 * l.count % u64_mod
  even l Writer.idle h e = h.0
  even l (Writer.loaded v s) h e = h.0
  even l (Writer.copying v s i) h e = absurd (omega (arith, h.0))

  Agree-update :
      (i : ℕ) (a b : Words) → Agree i a b → (x : ℕ) → x ≡ b i → Agree (i + 1) (update a i x) b
  Agree-update i a b h x e j lt = elim (dec_lt j i) [
    | yes p ↦ rw (update_ne a i j x (omega arith)) (h j p)
    | no p ↦
        let here : i ≡ j = omega arith in
        subst (λ k. update a i x k ≡ b k) here (rw (update_self a i x) e)
  ]

  snapshot :
      (l : Lock) (inv : Inv l) (pre : ℕ) (out : Words)
      → l.reader ≡ Reader.reading pre size out
      → l.seq ≡ pre
      → l.count < 2 ^ 63
      → (j : ℕ) → j < size
      → (out j ≡ l.stored l.count j) × (l.words j ≡ l.stored l.count j)
  snapshot l inv pre out e same small j lt =
      let (k, le, at, good) = subst (ReaderAt l.count l.stored l.writer) e inv.loading in
      let (calm, now) =
        quiet l.seq l.count pre k l.words (l.stored l.count) l.writer inv.writing le at same
          small in
      (good calm now j lt, current l l.writer inv.writing calm j lt)

  Step-Inv : {l m : Lock} → Step size l m → m.count < 2 ^ 63 → Inv l → Inv m
  Step-Inv (load_seq l v e) small inv =
      let h = subst (WriterAt l.seq l.count l.words (l.stored l.count)) e inv.writing in
      record {
        writing = (h.0, h.1, refl);
        loading =
            writer_moves l.count l.stored l.writer (Writer.loaded v l.seq) l.reader
              (λ n. subst (λ w. ¬ IsCopying w) (sym e) (λ c. c)) inv.loading;
      }
  Step-Inv (make_odd l v s e) small inv =
      let h = subst (WriterAt l.seq l.count l.words (l.stored l.count)) e inv.writing in
      record {
        writing = (omega arith, λ j lt. absurd (omega arith), omega arith);
        loading =
            writer_moves l.count l.stored l.writer (Writer.copying v s 0) l.reader
              (λ n. absurd (n (tt {0}))) inv.loading;
      }
  Step-Inv (write_word l v s i e lt) small inv =
      let h = subst (WriterAt l.seq l.count l.words (l.stored l.count)) e inv.writing in
      record {
        writing = (h.0, Agree-update i l.words v h.1 (v i) refl, h.2);
        loading =
            writer_moves l.count l.stored l.writer (Writer.copying v s (i + 1)) l.reader
              (λ n. absurd (n (tt {0}))) inv.loading;
      }
  Step-Inv (make_even l v s e) small inv =
      let h = subst (WriterAt l.seq l.count l.words (l.stored l.count)) e inv.writing in
      record {
        writing = (omega arith, rw (update_self l.stored (l.count + 1) v) h.1);
        loading = finish l.count l.stored v l.writer Writer.idle l.reader inv.loading;
      }
  Step-Inv (load_pre l out e) small inv = record {
    writing = inv.writing;
    loading =
        (l.count, omega arith, even l l.writer inv.writing e, λ n e j lt. absurd (omega arith));
  }
  Step-Inv (see_odd l e) small inv = record { writing = inv.writing; loading = tt }
  Step-Inv (read_word l pre i out e lt) small inv =
      let h = subst (ReaderAt l.count l.stored l.writer) e inv.loading in
      record {
        writing = inv.writing;
        loading = (
          h.0,
          h.1,
          h.2,
          λ n k.
              Agree-update i out (l.stored l.count) (h.3 n k) (l.words i)
                (current l l.writer inv.writing n i lt),
        );
      }
  Step-Inv (accept l pre out e h) small inv = record {
    writing = inv.writing;
    loading = (l.count, omega arith, λ j lt. (snapshot l inv pre out e h small j lt).0);
  }
  Step-Inv (refuse l pre out e h) small inv = record { writing = inv.writing; loading = tt }

  Reach-Inv : {l m : Lock} → Inv l → Reach size l m → m.count < 2 ^ 63 → Inv m
  Reach-Inv v here small = v
  Reach-Inv v (next r st) small = Step-Inv st small (Reach-Inv v r (omega (arith, Step-count st)))

  start-Inv : (words : Words) → Inv (start words)
  start-Inv words = record { writing = (refl, λ j h. refl); loading = tt }

  -- In every interleaving of one writer and a reader with fewer than 2 ^ 63 finished stores, what
  -- a successful `try_load` hands out is, in all its words, the payload of one finished store (or
  -- the initial payload).
  pub Reach-consistent :
      (words out : Words) {l : Lock}
      → Reach size (start words) l
      → l.count < 2 ^ 63
      → l.reader ≡ Reader.returned out
      → (k : ℕ) × (k ≤ l.count) × ((j : ℕ) → j < size → out j ≡ l.stored k j)
  Reach-consistent words out {l} r small e =
      subst (ReaderAt l.count l.stored l.writer) e (Reach-Inv (start-Inv words) r small).loading

  -- In such an interleaving, a step that accepts a read gives the payload of the last store that
  -- is finished at that moment, and no store is under way.
  pub accept-latest :
      (words out : Words) (pre : ℕ) {l : Lock}
      → Reach size (start words) l
      → l.count < 2 ^ 63
      → l.reader ≡ Reader.reading pre size out
      → l.seq ≡ pre
      → (j : ℕ) → j < size
      → (out j ≡ l.stored l.count j) × (l.words j ≡ l.stored l.count j)
  accept-latest words out pre {l} r small e same j lt =
      snapshot l (Reach-Inv (start-Inv words) r small) pre out e same small j lt
