-- ===== src/Exec/Rate.antt =====
-- src/exec/rate_model.hpp: `RateModel`, the venue's rate counter of each instrument.
pub mod Budget
use low_latency_pipeline.Prelude.{ℕ, ◌*◌, Bool, true, not, ◌||◌, if◌then◌else◌, update}
use low_latency_pipeline.Prelude.Int.{ℤ, ◌-ℤ◌, ltb_ℤ, leb_ℤ}
use low_latency_pipeline.Exec.Doubles.{Doubles}

pub data RateOp : Type 0 where
  add amend cancel : RateOp

-- `age_ns < n * SEC_NS`
abbrev pub younger : ℤ → ℕ → Bool
younger age_ns n = ltb_ℤ age_ns (ℤ.pos (n * 1000000000))

unfoldable pub kraken_rate_cost : RateOp → ℤ → ℕ
kraken_rate_cost RateOp.add age = 1
kraken_rate_cost RateOp.amend age =
    if younger age 5 then 4 else if younger age 10 then 3 else if younger age 15 then 2 else 1
kraken_rate_cost RateOp.cancel age =
    if younger age 5
    then 8
    else if younger age 10
    then 6
    else if younger age 15
    then 5
    else if younger age 45
    then 4
    else if younger age 90
    then 2
    else if younger age 300
    then 1
    else 0

pub record KrakenRateParams (D : Doubles) : Type 0 where
  pub max : D.W
  pub decay_per_s : D.W
  pub max_open : ℕ
  pub margin : D.W

pub record Counter (D : Doubles) : Type 0 where
  pub count : D.W
  pub last_ns : ℤ

pub record RateModel (D : Doubles) : Type 0 where
  pub enabled : Bool
  pub params : KrakenRateParams D
  pub counters : ℕ → Counter D

module _ {D : Doubles} where
  unfoldable pub configure : RateModel D → Bool → KrakenRateParams D → RateModel D
  configure m enabled p = record m { enabled = enabled; params = p }

  unfoldable pub count : RateModel D → ℕ → ℤ → D.W
  count m inst now_ns =
      let c = m.counters inst in
      if leb_ℤ now_ns c.last_ns
      then c.count
      else (let passed = D.of_int (now_ns -ℤ c.last_ns) in
          let v =
            D.sub c.count (D.div (D.mul m.params.decay_per_s passed) (D.decimal (1000000000) 0)) in
          if D.lt (D.of_int (ℤ.pos 0)) v then v else D.of_int (ℤ.pos 0))

  -- `max - margin`
  abbrev pub ceiling : RateModel D → D.W
  ceiling m = D.sub m.params.max m.params.margin

  unfoldable pub budget : RateModel D → ℕ → ℤ → D.W
  budget m inst now_ns =
      if m.enabled then D.sub (ceiling m) (count m inst now_ns) else D.decimal 1000000000000000000 0

  -- The counter with a request's cost added.
  abbrev pub charged : RateModel D → ℕ → RateOp → (age_ns now_ns : ℤ) → D.W
  charged m inst op age_ns now_ns =
      D.add (count m inst now_ns) (D.of_int (ℤ.pos (kraken_rate_cost op age_ns)))

  unfoldable pub would_allow : RateModel D → ℕ → RateOp → (age_ns now_ns : ℤ) → Bool
  would_allow m inst op age_ns now_ns =
      not m.enabled || D.le (charged m inst op age_ns now_ns) (ceiling m)

  unfoldable pub charge : RateModel D → ℕ → RateOp → (age_ns now_ns : ℤ) → RateModel D
  charge m inst op age_ns now_ns =
      let last = (m.counters inst).last_ns in
      if not m.enabled then m else record m {
        counters = update m.counters inst (record {
          count = charged m inst op age_ns now_ns;
          last_ns = if ltb_ℤ last now_ns then now_ns else last;
        });
      }
