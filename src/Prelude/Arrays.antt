-- ===== src/Prelude/Arrays.antt =====
-- A C array of fixed size as a function from its index.
use Prim.Native.Nat.{ℕ, ◌+◌, ◌<◌}
use mathlib.Core.Path.{◌≡◌, subst}
use mathlib.Core.Logic.{◌≢◌}
use native.Mathlib.Omega.{arith}
use native.Mathlib.Decide.{dec_lt}
use low_latency_pipeline.Prelude.Tests.{◌==◌, if◌then◌else◌}

-- `a[i] = v`
abbrev pub update {ℓ} : {A : Type ℓ} → (ℕ → A) → ℕ → A → ℕ → A
update a i v j = if i == j then v else a j

pub update_self {ℓ} : {A : Type ℓ} (a : ℕ → A) (i : ℕ) (v : A) → update a i v i ≡ v
update_self a i v = ground arith

pub update_ne {ℓ} : {A : Type ℓ} (a : ℕ → A) (i j : ℕ) (v : A) → i ≢ j → update a i v j ≡ a j
update_ne a i j v h = ground arith

-- What holds below `d`, and at `d`, holds below `d + 1`.
pub extend_below {ℓ} :
    (P : ℕ → Type ℓ) (d : ℕ) → ((e : ℕ) → e < d → P e) → P d → (e : ℕ) → e < d + 1 → P e
extend_below P d below here e h = elim (dec_lt e d) [
  | yes p ↦ below e p
  | no p ↦ let same : d ≡ e = omega arith in subst P same here
]
