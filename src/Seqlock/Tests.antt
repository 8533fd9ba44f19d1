-- ===== src/Seqlock/Tests.antt =====
-- The seqlock over two words, put through the theorems.
use low_latency_pipeline.Prelude.{ℕ, ◌+◌, ◌≤◌, ◌<◌, ◌≡◌, refl, arith, update}
use low_latency_pipeline.Seqlock.{
  Words, Writer, Reader, Lock, Reach, load_seq, make_odd, write_word, make_even, load_pre,
  read_word, accept, here, next, start,
}
use low_latency_pipeline.Seqlock.Consistency.{Reach-consistent, accept-latest}

abbrev zeros : Words
zeros i = 0

abbrev sevens : Words
sevens i = i + 7

abbrev written : Words
written = update (update zeros 0 7) 1 8

-- One store has finished, and a reader has copied both words.
abbrev copied : Lock
copied = record {
  seq = 2;
  words = written;
  writer = Writer.idle;
  reader = Reader.reading 2 2 (update (update zeros 0 7) 1 8);
  count = 1;
  stored = update (λ k. zeros) 1 sevens;
}

copied-Reach : Reach 2 (start zeros) copied
copied-Reach =
    next
      (next
        (next
          (next
            (next
              (next (next (next here (load_seq _ sevens refl)) (make_odd _ sevens 0 refl))
                (write_word _ sevens 0 0 refl (omega arith)))
              (write_word _ sevens 0 1 refl (omega arith)))
            (make_even _ sevens 0 refl))
          (load_pre _ zeros refl))
        (read_word _ 2 0 zeros refl (omega arith)))
      (read_word _ 2 1 (update zeros 0 7) refl (omega arith))

abbrev done : Lock
done = record copied { reader = Reader.returned written }

done-Reach : Reach 2 (start zeros) done
done-Reach = next copied-Reach (accept _ 2 written refl refl)

Reach-consistent_example : (k : ℕ) × (k ≤ 1) × ((j : ℕ) → j < 2 → written j ≡ done.stored k j)
Reach-consistent_example = Reach-consistent 2 zeros written done-Reach (omega arith) refl

accept-latest_example : (written 1 ≡ sevens 1) × (written 1 ≡ sevens 1)
accept-latest_example =
    accept-latest 2 zeros written 2 copied-Reach (omega arith) refl refl 1 (omega arith)
