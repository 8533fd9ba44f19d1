-- ===== src/Exec/Doubles.antt =====
-- The operations on `double` that src/exec uses, as a parameter: nothing is assumed of them but what a
-- theorem names among its hypotheses.
use low_latency_pipeline.Prelude.{ℕ, Bool}
use low_latency_pipeline.Prelude.Int.{ℤ}

-- `decimal m k` is the literal m / 10 ^ k, `to_int` the conversion to int64_t.
pub record Doubles : Type 1 where
  pub W : Type 0
  pub of_int : ℤ → W
  pub decimal : ℕ → ℕ → W
  pub to_int : W → ℤ
  pub add : W → W → W
  pub sub : W → W → W
  pub mul : W → W → W
  pub div : W → W → W
  pub neg : W → W
  pub sqrt : W → W
  pub lt : W → W → Bool
  pub le : W → W → Bool
