-- ===== src/Exec/Account/Cost.antt =====
-- src/exec/account.hpp: positions at average cost keep the cash that the fills moved.
use low_latency_pipeline.Prelude.{
  ℕ, zero, suc, ◌≡◌, inl, inr, refl, ap, sym, ◌∙◌, subst, Bool, true, false, not, ◌&&◌, arith, List,
  [], ◌∷◌, if◌then◌else◌, Bool-cases,
}
use low_latency_pipeline.Prelude.Int.{
  ℤ, pos_part, neg_part, ◌+ℤ◌, ◌-ℤ◌, ◌*ℤ◌, ◌/ℤ◌, is_zero, int_laws, +ℤ_parts, -ℤ_parts, +ℤ_assoc,
  eq_of_parts, *ℤ_parts, *ℤ_assoc, *ℤ-+ℤ_distrib, *ℤ--ℤ_distrib, *ℤ-/ℤ_cancel,
}
use low_latency_pipeline.Exec.Account.{Position}
use low_latency_pipeline.Exec.Account.Fill.{
  is_long, size_of, closed_lots, toward_zero, differ, reduce_position, open_position, fill_position,
}

-- The cash that went into a position: what it cost, less the profit that was taken out.
abbrev pub paid_in : Position → ℤ
paid_in p = p.cost -ℤ p.realized

*ℤ_zero : (a : ℤ) → a *ℤ ℤ.pos 0 ≡ ℤ.pos 0
*ℤ_zero a = eq_of_parts _ _ (omega (arith, *ℤ_parts a (ℤ.pos 0)))

one-*ℤ : (a : ℤ) → ℤ.pos 1 *ℤ a ≡ a
one-*ℤ a = eq_of_parts _ _ (omega (arith, *ℤ_parts (ℤ.pos 1) a))

minus_one-*ℤ : (a b : ℤ) → ℤ.negsuc 0 *ℤ a *ℤ b ≡ ℤ.pos 0 -ℤ a *ℤ b
minus_one-*ℤ a b =
    *ℤ_assoc (ℤ.negsuc 0) a b
    ∙ eq_of_parts _ _ (omega (arith, *ℤ_parts (ℤ.negsuc 0) (a *ℤ b), -ℤ_parts (ℤ.pos 0) (a *ℤ b)))

is_zero-eq : (a : ℤ) → is_zero a ≡ true → a ≡ ℤ.pos 0
is_zero-eq (ℤ.pos zero) h = refl
is_zero-eq (ℤ.pos (suc n)) h = absurd (ground arith)
is_zero-eq (ℤ.negsuc n) h = absurd (ground arith)

open_position-paid_in :
    (p : Position) (px rest : ℤ)
    → (paid_in (open_position p px rest) ≡ paid_in p +ℤ px *ℤ rest)
      × ((open_position p px rest).qty ≡ p.qty +ℤ rest)
unfolding open_position
open_position-paid_in p px (ℤ.pos zero) = (
  eq_of_parts _ _ (
      omega (
        arith,
        +ℤ_parts (paid_in p) (px *ℤ ℤ.pos 0),
        ap pos_part (*ℤ_zero px),
        ap neg_part (*ℤ_zero px),
      )),
  omega int_laws,
)
open_position-paid_in p px (ℤ.pos (suc n)) = (omega int_laws, refl)
open_position-paid_in p px (ℤ.negsuc n) = (omega int_laws, refl)

size_of-eq : (q : ℤ) → is_zero q ≡ false → (n : ℕ) × (size_of q ≡ ℤ.pos (suc n))
unfolding ◌-ℤ◌
size_of-eq (ℤ.pos zero) h = absurd (ground arith)
size_of-eq (ℤ.pos (suc n)) h = (n, ground arith)
size_of-eq (ℤ.negsuc n) h = (n, ground arith)

-- What takes a position to 0 is all of it.
toward_zero-eq : (q r : ℤ) → toward_zero q r ≡ ℤ.pos 0 → r ≡ size_of q
unfolding ◌-ℤ◌ ◌+ℤ◌
toward_zero-eq q r h = ground arith

-- A position that is closed has all of its cost removed.
closed :
    (q r cost : ℤ)
    → is_zero q ≡ false
    → is_zero (toward_zero q r) ≡ true
    → cost *ℤ r /ℤ size_of q ≡ cost
closed q r cost h k =
    let (n, size_eq) = size_of-eq q h in
    let all = toward_zero-eq q r (is_zero-eq _ k) in
    ap (λ t. cost *ℤ t /ℤ size_of q) all ∙ ap (λ t. cost *ℤ t /ℤ t) size_eq ∙ *ℤ-/ℤ_cancel cost n

-- The signed lots that a reduction takes off.
abbrev closing : (q rest : ℤ) → ℤ
closing q rest = if is_long q then ℤ.pos 0 -ℤ closed_lots q rest else closed_lots q rest

cost_after :
    (b : Bool) (cost removed : ℤ)
    → (b ≡ true → removed ≡ cost)
    → (if b then ℤ.pos 0 else cost -ℤ removed) ≡ cost -ℤ removed
cost_after true cost removed h = omega (int_laws, ap pos_part (h refl), ap neg_part (h refl))
cost_after false cost removed h = refl

-- The proceeds of the lots that are closed are what `closing` lots would cost, taken out.
proceeds :
    (b : Bool) (px r : ℤ)
    → px *ℤ (if b then ℤ.pos 0 -ℤ r else r)
      ≡ ℤ.pos 0 -ℤ (if b then ℤ.pos 1 else ℤ.negsuc 0) *ℤ px *ℤ r
proceeds true px r =
    *ℤ--ℤ_distrib px (ℤ.pos 0) r
    ∙ ap (λ t. t -ℤ px *ℤ r) (*ℤ_zero px)
    ∙ ap (λ t. ℤ.pos 0 -ℤ t *ℤ r) (sym (one-*ℤ px))
proceeds false px r = negated (px *ℤ r) ∙ ap (λ t. ℤ.pos 0 -ℤ t) (sym (minus_one-*ℤ px r))
  where
    negated : (a : ℤ) → a ≡ ℤ.pos 0 -ℤ (ℤ.pos 0 -ℤ a)
    negated a = omega int_laws

toward_zero-closing :
    (b : Bool) (q r : ℤ) → (if b then q -ℤ r else q +ℤ r) ≡ q +ℤ (if b then ℤ.pos 0 -ℤ r else r)
toward_zero-closing true q r = omega int_laws
toward_zero-closing false q r = refl

gain_moves :
    (cost removed realized gain into : ℤ)
    → into ≡ ℤ.pos 0 -ℤ gain
    → cost -ℤ removed -ℤ (realized +ℤ (gain -ℤ removed)) ≡ cost -ℤ realized +ℤ into
gain_moves cost removed realized gain into h =
    eq_of_parts _ _ (omega (int_laws, ap pos_part h, ap neg_part h))

reduce_position-paid_in :
    (p : Position) (px rest : ℤ)
    → is_zero p.qty ≡ false
    → (paid_in (reduce_position p px rest) ≡ paid_in p +ℤ px *ℤ closing p.qty rest)
      × ((reduce_position p px rest).qty ≡ p.qty +ℤ closing p.qty rest)
unfolding reduce_position
reduce_position-paid_in p px rest h =
    let r = closed_lots p.qty rest in
    let removed = p.cost *ℤ r /ℤ size_of p.qty in
    let gain = (if is_long p.qty then ℤ.pos 1 else ℤ.negsuc 0) *ℤ px *ℤ r in
    (
      ap (λ t. t -ℤ (p.realized +ℤ (gain -ℤ removed)))
            (cost_after (is_zero (toward_zero p.qty r)) p.cost removed (closed p.qty r p.cost h))
          ∙ gain_moves p.cost removed p.realized gain (px *ℤ closing p.qty rest)
              (proceeds (is_long p.qty) px r),
      toward_zero-closing (is_long p.qty) p.qty r,
    )

-- What a fill leaves to open, and what it closes, are the whole of it.
closing_and_rest :
    (long buys : Bool) (rest r : ℤ)
    → differ long buys ≡ true
    → (if long then ℤ.pos 0 -ℤ r else r) +ℤ (if buys then rest -ℤ r else rest +ℤ r) ≡ rest
closing_and_rest true true rest r h = absurd (ground arith)
closing_and_rest true false rest r h = omega int_laws
closing_and_rest false true rest r h = omega int_laws
closing_and_rest false false rest r h = absurd (ground arith)

-- The fill goes against the open position.
abbrev closes : (q s : ℤ) → Bool
closes q s = not (is_zero q) && differ (is_long q) (is_long s)

closes-parts : (z d : Bool) → not z && d ≡ true → (z ≡ false) × (d ≡ true)
closes-parts z d h = ground arith

fill_position-closes :
    (p : Position) (px s : ℤ)
    → closes p.qty s ≡ true
    → fill_position p px s
      ≡ open_position (reduce_position p px s) px (toward_zero s (closed_lots p.qty s))
unfolding fill_position
fill_position-closes p px s h = rw h refl

fill_position-opens :
    (p : Position) (px s : ℤ) → closes p.qty s ≡ false → fill_position p px s ≡ open_position p px s
unfolding fill_position
fill_position-opens p px s h = rw h refl

abbrev Fills : Position → (px s : ℤ) → Position → Type 0
Fills p px s p' = (paid_in p' ≡ paid_in p +ℤ px *ℤ s) × (p'.qty ≡ p.qty +ℤ s)

both_steps :
    (p p1 p2 : Position) (px a b s : ℤ)
    → Fills p px a p1
    → Fills p1 px b p2
    → a +ℤ b ≡ s
    → Fills p px s p2
both_steps p p1 p2 px a b s f g h = (
  g.0
      ∙ ap (λ t. t +ℤ px *ℤ b) f.0
      ∙ +ℤ_assoc (paid_in p) (px *ℤ a) (px *ℤ b)
      ∙ ap (λ t. paid_in p +ℤ t) (sym (*ℤ-+ℤ_distrib px a b) ∙ ap (λ t. px *ℤ t) h),
  g.1 ∙ ap (λ t. t +ℤ b) f.1 ∙ +ℤ_assoc p.qty a b ∙ ap (λ t. p.qty +ℤ t) h,
)

pub fill_position-Fills : (p : Position) (px s : ℤ) → Fills p px s (fill_position p px s)
fill_position-Fills p px s = elim (Bool-cases (closes p.qty s)) [
  | inr h ↦ subst (Fills p px s) (sym (fill_position-opens p px s h)) (open_position-paid_in p px s)
  | inl h ↦
      let (z, d) = closes-parts (is_zero p.qty) (differ (is_long p.qty) (is_long s)) h in
      let rest = toward_zero s (closed_lots p.qty s) in
      subst (Fills p px s) (sym (fill_position-closes p px s h)) (
        both_steps p (reduce_position p px s) (open_position (reduce_position p px s) px rest) px
          (closing p.qty s) rest s (reduce_position-paid_in p px s z)
          (open_position-paid_in (reduce_position p px s) px rest)
          (closing_and_rest (is_long p.qty) (is_long s) s (closed_lots p.qty s) d))
]

-- A flat position costs nothing.
abbrev pub IsFlatFree : Position → Type 0
IsFlatFree p = p.qty ≡ ℤ.pos 0 → p.cost ≡ ℤ.pos 0

nothing_left :
    (q s : ℤ)
    → closes q s ≡ true
    → q +ℤ s ≡ ℤ.pos 0
    → is_zero (toward_zero s (closed_lots q s)) ≡ true
unfolding ◌+ℤ◌ ◌-ℤ◌
nothing_left q s h k = ground arith

nothing_filled :
    (q s : ℤ) → closes q s ≡ false → q +ℤ s ≡ ℤ.pos 0 → (is_zero s ≡ true) × (q ≡ ℤ.pos 0)
unfolding ◌+ℤ◌ ◌-ℤ◌
nothing_filled q s h k = ground arith

open_position-zero :
    (p : Position) (px rest : ℤ) → is_zero rest ≡ true → open_position p px rest ≡ p
unfolding open_position
open_position-zero p px rest h = rw h refl

reduce_position-IsFlatFree : (p : Position) (px rest : ℤ) → IsFlatFree (reduce_position p px rest)
unfolding reduce_position
reduce_position-IsFlatFree p px rest h =
    let removed = p.cost *ℤ closed_lots p.qty rest /ℤ size_of p.qty in
    ap (λ t. if is_zero t then ℤ.pos 0 else p.cost -ℤ removed) h

fill_position-IsFlatFree :
    (p : Position) (px s : ℤ) → IsFlatFree p → IsFlatFree (fill_position p px s)
fill_position-IsFlatFree p px s free h =
    let sum : p.qty +ℤ s ≡ ℤ.pos 0 = sym (fill_position-Fills p px s).1 ∙ h in
    elim (Bool-cases (closes p.qty s)) [
      | inl c ↦
          let same =
            fill_position-closes p px s c
            ∙ open_position-zero (reduce_position p px s) px _ (nothing_left p.qty s c sum) in
          subst IsFlatFree (sym same) (reduce_position-IsFlatFree p px s) h
      | inr c ↦
          let (z, at_zero) = nothing_filled p.qty s c sum in
          subst IsFlatFree (sym (fill_position-opens p px s c ∙ open_position-zero p px s z)) free h
    ]

-- Executions in order, each its price and its signed lots.
abbrev pub fill_all : Position → List (ℤ × ℤ) → Position
fill_all p [] = p
fill_all p (f ∷ fs) = fill_all (fill_position p f.0 f.1) fs

abbrev pub lots_of : List (ℤ × ℤ) → ℤ
lots_of [] = ℤ.pos 0
lots_of (f ∷ fs) = f.1 +ℤ lots_of fs

-- What the executions paid, or with its sign turned what they brought in.
abbrev pub cash_of : List (ℤ × ℤ) → ℤ
cash_of [] = ℤ.pos 0
cash_of (f ∷ fs) = f.0 *ℤ f.1 +ℤ cash_of fs

fill_all-Fills :
    (p : Position) (fs : List (ℤ × ℤ))
    → IsFlatFree p
    → (paid_in (fill_all p fs) ≡ paid_in p +ℤ cash_of fs)
      × ((fill_all p fs).qty ≡ p.qty +ℤ lots_of fs)
      × IsFlatFree (fill_all p fs)
fill_all-Fills p [] free = (omega int_laws, omega int_laws, free)
fill_all-Fills p (f ∷ fs) free =
    let p' = fill_position p f.0 f.1 in
    let (cash, lots) = fill_position-Fills p f.0 f.1 in
    let (cash', lots', free') = fill_all-Fills p' fs (fill_position-IsFlatFree p f.0 f.1 free) in
    (
      cash' ∙ ap (λ t. t +ℤ cash_of fs) cash ∙ +ℤ_assoc (paid_in p) (f.0 *ℤ f.1) (cash_of fs),
      lots' ∙ ap (λ t. t +ℤ lots_of fs) lots ∙ +ℤ_assoc p.qty f.1 (lots_of fs),
      free',
    )

-- Any executions from a position that costs nothing when it is flat: the lots add up, the cost less
-- the profit grows by what the executions paid, and if they leave the position flat, the profit is
-- what it was, less the cost it started with, less what they paid.
pub fill_all-paid_in :
    (p : Position) (fs : List (ℤ × ℤ))
    → IsFlatFree p
    → ((fill_all p fs).qty ≡ p.qty +ℤ lots_of fs)
      × ((fill_all p fs).cost -ℤ (fill_all p fs).realized ≡ p.cost -ℤ p.realized +ℤ cash_of fs)
      × ((fill_all p fs).qty ≡ ℤ.pos 0
          → (fill_all p fs).realized ≡ p.realized -ℤ p.cost -ℤ cash_of fs)
fill_all-paid_in p fs free =
    let (cash, lots, free') = fill_all-Fills p fs free in
    let p' = fill_all p fs in
    (lots, cash, λ h. profit p'.cost p'.realized p.cost p.realized (cash_of fs) cash (free' h))
  where
    profit :
        (cost' realized' cost realized into : ℤ)
        → cost' -ℤ realized' ≡ cost -ℤ realized +ℤ into
        → cost' ≡ ℤ.pos 0
        → realized' ≡ realized -ℤ cost -ℤ into
    profit cost' realized' cost realized into h k =
        eq_of_parts _ _
          (omega (int_laws, ap pos_part h, ap neg_part h, ap pos_part k, ap neg_part k))
