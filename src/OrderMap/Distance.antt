-- ===== src/OrderMap/Distance.antt =====
-- The distance from one slot to another, walking up and round the table.
use Prim.Native.Nat.{◌∣◌}
use native.Mathlib.Nat.{
  mod-lt, mod-add-mod, mod-eq_of_lt, mod-eq-sub-mod, mod-eq-zero_of_dvd, add-mod, add-zero,
}
use low_latency_pipeline.Prelude.{
  ℕ, ◌+◌, ◌-◌, ◌%◌, ◌^◌, ◌≤◌, ◌<◌, ◌≡◌, ◌⊎◌, inl, inr, sym, ◌∙◌, ap, arith, leb, if◌then◌else◌,
  dec_lt,
}
use low_latency_pipeline.Prelude.Mod.{mod_mod}
use low_latency_pipeline.OrderMap.{masked_sub}

-- From slot `a` to slot `b` of `c`.
abbrev pub distance : (c a b : ℕ) → ℕ
distance c a b = if leb a b then b - a else b + c - a

-- A number below twice the capacity wraps at most once.
pub wrap_once : (c x : ℕ) → x < c + c → ((x < c) × (x % c ≡ x)) ⊎ ((c ≤ x) × (x % c ≡ x - c))
wrap_once c x h = elim (dec_lt x c) [
  | yes p ↦ inl (p, mod-eq_of_lt p)
  | no p ↦
      let q : x - c < c = omega arith in
      inr (omega arith, mod-eq-sub-mod (omega arith) ∙ mod-eq_of_lt q)
]

-- It is the number of steps below `c` that lead from `a` to `b`.
pub distance_unique : (c a b r : ℕ) → a < c → b < c → r < c → (a + r) % c ≡ b → r ≡ distance c a b
distance_unique c a b r ha hb hr e = ground (arith, wrap_once c (a + r) (omega arith))

pub distance_walk : (c a b : ℕ) → a < c → b < c → (a + distance c a b) % c ≡ b
distance_walk c a b ha hb = ground (arith, wrap_once c (a + distance c a b) (ground arith))

-- The code's masked difference of two counters is the distance of their slots.
pub masked_sub-distance :
    (c a b : ℕ) → 0 < c → c ∣ 2 ^ 32 → b < 2 ^ 32 → masked_sub c a b ≡ distance c (b % c) (a % c)
unfolding masked_sub
masked_sub-distance c a b pos divides small =
    let x = a + 2 ^ 32 - b in
    let walk : (b % c + x % c) % c ≡ a % c =
      sym (add-mod b x c)
      ∙ ap (λ (t : ℕ). t % c) (omega arith)
      ∙ add-mod a (2 ^ 32) c
      ∙ ap (λ (t : ℕ). (a % c + t) % c) (mod-eq-zero_of_dvd c divides)
      ∙ ap (λ (t : ℕ). t % c) (add-zero (a % c))
      ∙ mod-eq_of_lt (mod-lt a pos) in
    mod_mod c (2 ^ 32) divides x
    ∙ distance_unique c (b % c) (a % c) (x % c) (mod-lt b pos) (mod-lt a pos) (mod-lt x pos) walk

pub distance_inj : (c a b p : ℕ) → a < c → b < c → p < c → distance c a p ≡ distance c b p → a ≡ b
distance_inj c a b p ha hb hp e = ground arith

pub distance_inj_right :
    (c h a b : ℕ) → h < c → a < c → b < c → distance c h a ≡ distance c h b → a ≡ b
distance_inj_right c h a b hh ha hb e = ground arith

-- The next slot is one step further, unless the walk is back at its start.
pub distance_step :
    (c h i : ℕ)
    → h < c
    → i < c
    → distance c h i + 1 < c
    → distance c h ((i + 1) % c) ≡ distance c h i + 1
distance_step c h i hh hi lt =
    let d = distance c h i in
    let walk : (h + (d + 1)) % c ≡ (i + 1) % c =
      ap (λ (t : ℕ). t % c) (omega arith)
      ∙ sym (mod-add-mod (h + d) c 1)
      ∙ ap (λ (t : ℕ). (t + 1) % c) (distance_walk c h i hh hi) in
    sym (distance_unique c h ((i + 1) % c) (d + 1) hh (mod-lt (i + 1) (omega arith)) lt walk)

-- A walk from `a` to `b` that passes `h` is the walk from `a` to `h` and on.
pub distance_split :
    (c a h b : ℕ)
    → a < c
    → h < c
    → b < c
    → distance c h b ≤ distance c a b
    → distance c a b ≡ distance c a h + distance c h b
distance_split c a h b ha hh hb le = ground arith
