-- ===== src/Seqlock.antt =====
-- src/common/seqlock.hpp, `Seqlock<T>`: one writer, any readers. The payload is `size` words, which
-- `memcpy` moves one by one while the other thread runs; every load and store is a step, and the
-- steps interleave in any order (sequentially consistent, which is what the fences are for). A
-- reader changes nothing that others read, so one reader stands for all.
pub mod Consistency
mod Tests
use low_latency_pipeline.Prelude.{ℕ, ◌+◌, ◌%◌, ◌^◌, ◌<◌, ◌≡◌, ◌≢◌, update}

abbrev pub u64_mod : ℕ
u64_mod = 2 ^ 64

abbrev pub Words : Type 0
Words = ℕ → ℕ

-- Where the writer stands in `store(in)`.
pub data Writer : Type 0 where
  idle : Writer
  loaded : (in_value : Words) (s : ℕ) → Writer
  copying : (in_value : Words) (s i : ℕ) → Writer

-- Where the reader stands in `try_load(out)`, and what its last call gave.
pub data Reader : Type 0 where
  idle : Reader
  reading : (pre i : ℕ) (out : Words) → Reader
  failed : Reader
  returned : (out : Words) → Reader

-- `stored` and `count` are the history: the k-th finished `store` wrote `stored k`, and `stored 0`
-- is the payload before the first.
pub record Lock : Type 0 where
  pub seq : ℕ
  pub words : Words
  pub writer : Writer
  pub reader : Reader
  pub count : ℕ
  pub stored : ℕ → Words

module _ (size : ℕ) where
  pub data Step : Lock → Lock → Type 0 where
    load_seq :
        (l : Lock) (v : Words)
        → l.writer ≡ Writer.idle
        → Step l (record l { writer = Writer.loaded v l.seq })
    make_odd :
        (l : Lock) (v : Words) (s : ℕ)
        → l.writer ≡ Writer.loaded v s
        → Step l (record l { seq = (s + 1) % u64_mod; writer = Writer.copying v s 0 })
    write_word :
        (l : Lock) (v : Words) (s i : ℕ)
        → l.writer ≡ Writer.copying v s i
        → i < size
        → Step l (record l { words = update l.words i (v i); writer = Writer.copying v s (i + 1) })
    make_even :
        (l : Lock) (v : Words) (s : ℕ)
        → l.writer ≡ Writer.copying v s size
        → Step l (record l {
          seq = (s + 2) % u64_mod;
          writer = Writer.idle;
          count = l.count + 1;
          stored = update l.stored (l.count + 1) v;
        })
    load_pre :
        (l : Lock) (out : Words)
        → l.seq % 2 ≡ 0
        → Step l (record l { reader = Reader.reading l.seq 0 out })
    see_odd : (l : Lock) → l.seq % 2 ≡ 1 → Step l (record l { reader = Reader.failed })
    read_word :
        (l : Lock) (pre i : ℕ) (out : Words)
        → l.reader ≡ Reader.reading pre i out
        → i < size
        → Step l (record l { reader = Reader.reading pre (i + 1) (update out i (l.words i)) })
    accept :
        (l : Lock) (pre : ℕ) (out : Words)
        → l.reader ≡ Reader.reading pre size out
        → l.seq ≡ pre
        → Step l (record l { reader = Reader.returned out })
    refuse :
        (l : Lock) (pre : ℕ) (out : Words)
        → l.reader ≡ Reader.reading pre size out
        → l.seq ≢ pre
        → Step l (record l { reader = Reader.failed })

  pub data Reach (l : Lock) : Lock → Type 0 where
    here : Reach l l
    next : {m n : Lock} → Reach l m → Step m n → Reach l n

abbrev pub start : Words → Lock
start words = record {
  seq = 0;
  words = words;
  writer = Writer.idle;
  reader = Reader.idle;
  count = 0;
  stored = λ k. words;
}
