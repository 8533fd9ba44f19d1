-- ===== src/Histogram.antt =====
-- src/common/histogram.hpp, `Histogram`: latencies counted by their powers of two.
pub mod Samples
pub mod Percentile
mod Tests
use low_latency_pipeline.Prelude.{
  ℕ, zero, suc, ◌+◌, ◌-◌, ◌%◌, ◌^◌, ltb, ◌==◌, if◌then◌else◌, update,
}
use low_latency_pipeline.Bits.{u64_mod, shl}
use low_latency_pipeline.Bits.Scan.{clz}

pub record Histogram : Type 0 where
  pub buckets : ℕ → ℕ
  pub count : ℕ
  pub max_cycles : ℕ

abbrev pub empty_histogram : Histogram
empty_histogram = record { buckets = λ b. 0; count = 0; max_cycles = 0 }

-- The bucket of a sample.
unfoldable pub bucket_of : ℕ → ℕ
bucket_of cycles = if cycles == 0 then 0 else 63 - clz cycles

-- `record(cycles)`
unfoldable pub record_cycles : Histogram → ℕ → Histogram
record_cycles h cycles =
    let b = bucket_of cycles in
    record {
      count = (h.count + 1) % u64_mod;
      max_cycles = if ltb h.max_cycles cycles then cycles else h.max_cycles;
      buckets = update h.buckets b ((h.buckets b + 1) % u64_mod);
    }

-- The loop from bucket `b` on, with `left` buckets to go.
unfoldable pub percentile_from : (left b cum threshold : ℕ) → Histogram → ℕ
percentile_from zero b cum threshold h = h.max_cycles
percentile_from (suc left) b cum threshold h =
    let more = (cum + h.buckets b) % u64_mod in
    let rest = percentile_from left (b + 1) more threshold h in
    if ltb threshold more then (if ltb b 63 then shl 1 (b + 1) else u64_mod - 1) else rest

-- `percentile_cycles(p)`, where `threshold` is the number of samples that the product of p and the
-- count, computed in double, is truncated to.
unfoldable pub percentile_cycles : Histogram → (threshold : ℕ) → ℕ
percentile_cycles h threshold = if h.count == 0 then 0 else percentile_from 64 0 0 threshold h
