-- ===== src/Bitmap/Tests.antt =====
-- A bitmap of 4096 bits in two tiers, run and put through the theorems.
use low_latency_pipeline.Prelude.{ℕ, ◌≡◌, refl, arith, List, [], ◌∷◌}
use low_latency_pipeline.Bits.{shl, complement}
use low_latency_pipeline.Bits.Scan.{ctz, clz}
use low_latency_pipeline.Bitmap.{
  OccupancyBitmap, npos, fresh, set, clear, set_bit, clear_bit, next_set, prev_set, from_bit,
  upto_bit, join,
}
use low_latency_pipeline.Bitmap.Member.{member, IsValid, fresh-IsValid}
use low_latency_pipeline.Bitmap.Update.{set-IsValid, clear-IsValid}
use low_latency_pipeline.Bitmap.Search.{First, Last, next_set-First, prev_set-Last}

abbrev two : OccupancyBitmap
two = set (set (fresh 1 4096) 70) 3000

two-IsValid : IsValid 4096 two
two-IsValid =
    set-IsValid 4096 (set (fresh 1 4096) 70) 3000
      (set-IsValid 4096 (fresh 1 4096) 70 (fresh-IsValid 1 4096 (omega arith)) (omega arith))
      (omega arith)

walk : List ℕ
walk =
    next_set two 0
    ∷ next_set two 71
    ∷ next_set two 3001
    ∷ prev_set two 2999
    ∷ prev_set two 69
    ∷ next_set (clear two 70) 0
    ∷ []

walk_runs : walk ≡ 70 ∷ 3000 ∷ npos ∷ 70 ∷ npos ∷ 3000 ∷ []
unfolding walk next_set prev_set from_bit upto_bit join ctz clz set clear set_bit clear_bit shl
    complement fresh
walk_runs = refl

clear-IsValid_example : IsValid 4096 (clear two 70)
clear-IsValid_example = clear-IsValid 4096 two 70 two-IsValid (omega arith)

next_set-First_example : First (member two) 71 (next_set two 71)
next_set-First_example = next_set-First 4096 two 71 two-IsValid (omega arith)

prev_set-Last_example : Last (member two) 2999 (prev_set two 2999)
prev_set-Last_example = prev_set-Last 4096 two 2999 two-IsValid (omega arith) (omega arith)
