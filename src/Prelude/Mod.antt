-- ===== src/Prelude/Mod.antt =====
-- Remainders: an index reduced twice, and windows of indices in which remainders differ.
use Prim.Native.Nat.{◌∣◌}
use native.Mathlib.Nat.{div-add-mod, mod-mod_of_dvd, mul-le-mul_left}
use low_latency_pipeline.Prelude.{ℕ, ◌+◌, ◌*◌, ◌/◌, ◌%◌, ◌≤◌, ◌<◌, ◌≡◌, arith, dec_lt}

-- Equal remainders in one window come from equal quotients.
div_window : (c a b q p r : ℕ) → b < a + c → a ≡ c * q + r → b ≡ c * p + r → p ≤ q
div_window c a b q p r k ea eb = elim (dec_lt q p) [
  | yes h ↦ absurd (omega (arith, mul-le-mul_left c h))
  | no h ↦ omega arith
]

-- In a window of `c` consecutive numbers equal remainders come from equal numbers.
pub mod_window : (c a b : ℕ) → a ≤ b → b < a + c → a % c ≡ b % c → a ≡ b
mod_window c a b h k e =
    let r = b % c in
    let ea : a ≡ c * (a / c) + r = omega (arith, div-add-mod a c) in
    let eb : b ≡ c * (b / c) + r = omega (arith, div-add-mod b c) in
    let below : b / c ≤ a / c = div_window c a b (a / c) (b / c) r k ea eb in
    omega (arith, mul-le-mul_left c below)

-- Reducing by a multiple of `c` first changes nothing.
pub mod_mod : (c n : ℕ) → c ∣ n → (a : ℕ) → a % n % c ≡ a % c
mod_mod c n d a = mod-mod_of_dvd c a d
