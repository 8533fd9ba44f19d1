-- ===== src/Histogram/Tests.antt =====
-- A histogram of one sample and then two, put through the theorems.
use low_latency_pipeline.Prelude.{◌≡◌, refl, [], ◌∷◌, arith}
use low_latency_pipeline.Bits.{shl}
use low_latency_pipeline.Bits.Scan.{clz}
use low_latency_pipeline.Histogram.{
  Histogram, empty_histogram, bucket_of, record_cycles, percentile_from, percentile_cycles,
}
use low_latency_pipeline.Histogram.Samples.{Samples, record_cycles-Samples}
use low_latency_pipeline.Histogram.Percentile.{IsPercentile, percentile_cycles-IsPercentile}

empty-Samples : Samples empty_histogram []
empty-Samples = record {
  few = omega arith;
  small = tt;
  bucketed = λ b. refl;
  counted = refl;
  maximum = refl;
}

record_cycles-Samples_example : Samples (record_cycles empty_histogram 300) (300 ∷ [])
record_cycles-Samples_example =
    record_cycles-Samples empty_histogram [] 300 empty-Samples (omega arith) (omega arith)

abbrev two : Histogram
two = record_cycles (record_cycles empty_histogram 300) 40

two-Samples : Samples two (40 ∷ 300 ∷ [])
two-Samples =
    record_cycles-Samples (record_cycles empty_histogram 300) (300 ∷ []) 40
      (record_cycles-Samples empty_histogram [] 300 empty-Samples (omega arith) (omega arith))
      (omega arith) (omega arith)

percentile_cycles-IsPercentile_example : IsPercentile 1 (40 ∷ 300 ∷ []) (percentile_cycles two 1)
percentile_cycles-IsPercentile_example =
    percentile_cycles-IsPercentile two (40 ∷ 300 ∷ []) two-Samples 1 (omega arith)

-- 40 is below 64 and 300 below 512.
percentiles_run :
    percentile_cycles two 0 ∷ percentile_cycles two 1 ∷ two.max_cycles ∷ [] ≡ 64 ∷ 512 ∷ 300 ∷ []
unfolding percentile_cycles percentile_from record_cycles bucket_of clz shl
percentiles_run = refl
