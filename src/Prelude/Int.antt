-- ===== src/Prelude/Int.antt =====
-- Signed integers over the native numbers, under the library's names (its ℤ stands on the unary ℕ).
-- Sums and orders go through the two parts of an integer, which are numbers that `omega` reads.
use native.Mathlib.Nat.{mul-div_cancel}
use low_latency_pipeline.Prelude.{
  ℕ, zero, suc, ◌+◌, ◌-◌, ◌*◌, ◌/◌, ◌%◌, ◌^◌, ◌≤◌, ◌≡◌, refl, ap, ◌∙◌, ◌⊎◌, Bool, true, false,
  arith, ltb, leb, if◌then◌else◌, ◌==◌, ◌&&◌, true, false,
}

-- `negsuc n` is -(n + 1).
pub data ℤ : Type 0 where
  pos : ℕ → ℤ
  negsuc : ℕ → ℤ

abbrev pub pos_part : ℤ → ℕ
pos_part (pos n) = n
pos_part (negsuc n) = 0

abbrev pub neg_part : ℤ → ℕ
neg_part (pos n) = 0
neg_part (negsuc n) = suc n

-- a - b, as an integer.
abbrev pub sub_ℕ : ℕ → ℕ → ℤ
sub_ℕ a b = if leb b a then pos (a - b) else negsuc (b - a - 1)

infixl 65 ◌+ℤ◌ ◌-ℤ◌
infixl 70 ◌*ℤ◌ ◌/ℤ◌
infix 50 ◌≤ℤ◌
unfoldable pub ◌+ℤ◌ : ℤ → ℤ → ℤ
a +ℤ b = sub_ℕ (pos_part a + pos_part b) (neg_part a + neg_part b)

unfoldable pub ◌-ℤ◌ : ℤ → ℤ → ℤ
a -ℤ b = sub_ℕ (pos_part a + neg_part b) (neg_part a + pos_part b)

unfoldable pub ◌*ℤ◌ : ℤ → ℤ → ℤ
a *ℤ b =
    sub_ℕ (pos_part a * pos_part b + neg_part a * neg_part b)
      (pos_part a * neg_part b + neg_part a * pos_part b)

abbrev pub ◌≤ℤ◌ : ℤ → ℤ → Type 0
a ≤ℤ b = pos_part a + neg_part b ≤ pos_part b + neg_part a

abbrev pub ltb_ℤ : ℤ → ℤ → Bool
ltb_ℤ a b = ltb (pos_part a + neg_part b) (pos_part b + neg_part a)

abbrev pub leb_ℤ : ℤ → ℤ → Bool
leb_ℤ a b = leb (pos_part a + neg_part b) (pos_part b + neg_part a)

abbrev pub is_zero : ℤ → Bool
is_zero (pos zero) = true
is_zero (pos (suc n)) = false
is_zero (negsuc n) = false

abbrev pub equal_ℤ : ℤ → ℤ → Bool
equal_ℤ a b = (pos_part a == pos_part b) && (neg_part a == neg_part b)

-- Division truncates toward zero. C++ leaves division by 0 undefined; it is 0 here.
unfoldable pub ◌/ℤ◌ : ℤ → ℤ → ℤ
pos m /ℤ pos n = pos (m / n)
pos m /ℤ negsuc n = sub_ℕ 0 (m / suc n)
negsuc m /ℤ pos n = sub_ℕ 0 (suc m / n)
negsuc m /ℤ negsuc n = pos (suc m / suc n)

-- The conversion of a wider integer to int64_t keeps the low 64 bits.
unfoldable pub to_i64 : ℤ → ℤ
to_i64 a =
    let w = (pos_part a + (2 ^ 64 - neg_part a % 2 ^ 64)) % 2 ^ 64 in
    if ltb w (2 ^ 63) then pos w else sub_ℕ 0 (2 ^ 64 - w)

-- With the operations unfolded `ground` splits on the signs.
pub +ℤ_comm : (a b : ℤ) → a +ℤ b ≡ b +ℤ a
unfolding ◌+ℤ◌
+ℤ_comm a b = ground arith

pub +ℤ_assoc : (a b c : ℤ) → a +ℤ b +ℤ c ≡ a +ℤ (b +ℤ c)
unfolding ◌+ℤ◌
+ℤ_assoc a b c = ground arith

pub +ℤ_cancel : (a b : ℤ) → a +ℤ b -ℤ b ≡ a
unfolding ◌+ℤ◌ ◌-ℤ◌
+ℤ_cancel a b = ground arith

pub ≤ℤ_total : (a b : ℤ) → (a ≤ℤ b) ⊎ (b ≤ℤ a)
≤ℤ_total a b = omega arith

-- One lemma for each operation lets `omega` work with the operations shut, at any depth.
pub +ℤ_parts :
    (a b : ℤ)
    → pos_part (a +ℤ b) + neg_part a + neg_part b ≡ neg_part (a +ℤ b) + pos_part a + pos_part b
unfolding ◌+ℤ◌
+ℤ_parts a b = ground arith

pub -ℤ_parts :
    (a b : ℤ)
    → pos_part (a -ℤ b) + neg_part a + pos_part b ≡ neg_part (a -ℤ b) + pos_part a + neg_part b
unfolding ◌-ℤ◌
-ℤ_parts a b = ground arith

pub eq_of_parts : (a b : ℤ) → pos_part a + neg_part b ≡ pos_part b + neg_part a → a ≡ b
eq_of_parts a b h = ground arith

pub ruleset int_laws = (arith, +ℤ_parts, -ℤ_parts, eq_of_parts)

-- A product has no laws of its own for `omega`: each law below lists the parts it needs.
pub *ℤ_parts :
    (a b : ℤ)
    → pos_part (a *ℤ b) + (pos_part a * neg_part b + neg_part a * pos_part b)
      ≡ neg_part (a *ℤ b) + (pos_part a * pos_part b + neg_part a * neg_part b)
unfolding ◌*ℤ◌
*ℤ_parts a b = omega (arith, sub_ℕ_parts)
  where
    sub_ℕ_parts : (m n : ℕ) → pos_part (sub_ℕ m n) + n ≡ neg_part (sub_ℕ m n) + m
    sub_ℕ_parts m n = ground arith

pub *ℤ_comm : (a b : ℤ) → a *ℤ b ≡ b *ℤ a
*ℤ_comm a b = eq_of_parts _ _ (omega (arith, *ℤ_parts a b, *ℤ_parts b a))

pub *ℤ-+ℤ_distrib : (a b c : ℤ) → a *ℤ (b +ℤ c) ≡ a *ℤ b +ℤ a *ℤ c
*ℤ-+ℤ_distrib a b c = eq_of_parts _ _ (
    omega (
      arith,
      *ℤ_parts a (b +ℤ c),
      *ℤ_parts a b,
      *ℤ_parts a c,
      +ℤ_parts (a *ℤ b) (a *ℤ c),
      ap (λ t. pos_part a * t) (+ℤ_parts b c),
      ap (λ t. neg_part a * t) (+ℤ_parts b c),
    ))

pub *ℤ--ℤ_distrib : (a b c : ℤ) → a *ℤ (b -ℤ c) ≡ a *ℤ b -ℤ a *ℤ c
*ℤ--ℤ_distrib a b c = eq_of_parts _ _ (
    omega (
      arith,
      *ℤ_parts a (b -ℤ c),
      *ℤ_parts a b,
      *ℤ_parts a c,
      -ℤ_parts (a *ℤ b) (a *ℤ c),
      ap (λ t. pos_part a * t) (-ℤ_parts b c),
      ap (λ t. neg_part a * t) (-ℤ_parts b c),
    ))

pub *ℤ_assoc : (a b c : ℤ) → a *ℤ b *ℤ c ≡ a *ℤ (b *ℤ c)
*ℤ_assoc a b c = eq_of_parts _ _ (
    omega (
      arith,
      *ℤ_parts (a *ℤ b) c,
      *ℤ_parts a (b *ℤ c),
      ap (λ t. t * pos_part c) (*ℤ_parts a b),
      ap (λ t. t * neg_part c) (*ℤ_parts a b),
      ap (λ t. pos_part a * t) (*ℤ_parts b c),
      ap (λ t. neg_part a * t) (*ℤ_parts b c),
    ))

pub pos-* : (m n : ℕ) → pos m *ℤ pos n ≡ pos (m * n)
pos-* m n = eq_of_parts _ _ (omega (arith, *ℤ_parts (pos m) (pos n)))

-- A product with a positive number, divided by that number.
pub *ℤ-/ℤ_cancel : (a : ℤ) (n : ℕ) → a *ℤ pos (suc n) /ℤ pos (suc n) ≡ a
unfolding ◌/ℤ◌
*ℤ-/ℤ_cancel (pos m) n = rw (pos-* m (suc n), mul-div_cancel m {n = suc n} (omega arith)) refl
*ℤ-/ℤ_cancel (negsuc m) n =
    ap (λ t. t /ℤ pos (suc n)) minus
    ∙ ap (λ t. sub_ℕ 0 (t / suc n)) regrouped
    ∙ ap (λ t. sub_ℕ 0 t) (mul-div_cancel (suc m) {n = suc n} (omega arith))
    ∙ negated
  where
    negated : sub_ℕ 0 (suc m) ≡ negsuc m
    negated = ground arith

    minus : negsuc m *ℤ pos (suc n) ≡ negsuc (n + m * suc n)
    minus = eq_of_parts _ _ (omega (arith, *ℤ_parts (negsuc m) (pos (suc n))))

    regrouped : suc (n + m * suc n) ≡ suc m * suc n
    regrouped = omega arith

pub +ℤ_mono : (a b c d : ℤ) → a ≤ℤ b → c ≤ℤ d → a +ℤ c ≤ℤ b +ℤ d
+ℤ_mono a b c d h k = omega int_laws

pub regroup : (a b c d : ℤ) → a +ℤ b -ℤ c +ℤ d ≡ d +ℤ (b -ℤ c) +ℤ a
regroup a b c d = omega int_laws

pub abs : ℤ → ℤ
abs a = if ltb_ℤ a (pos 0) then pos 0 -ℤ a else a

pub abs_nonneg : (a : ℤ) → pos 0 ≤ℤ abs a
unfolding abs ◌-ℤ◌
abs_nonneg a = ground arith

truncated : negsuc 6 /ℤ pos 2 ≡ negsuc 2
unfolding ◌/ℤ◌
truncated = refl

wrapped : to_i64 (pos (2 ^ 63)) ≡ sub_ℕ 0 (2 ^ 63)
unfolding to_i64
wrapped = refl

mixed_signs : pos 3 -ℤ pos 10 *ℤ negsuc 1 ≡ pos 23
unfolding ◌-ℤ◌ ◌*ℤ◌
mixed_signs = refl
