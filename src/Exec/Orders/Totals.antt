-- ===== src/Exec/Orders/Totals.antt =====
-- src/exec/order_table.hpp: sums over the rows of the dense array, and how a write, an append and a
-- swap-remove change them.
use low_latency_pipeline.Prelude.{
  ℕ, zero, suc, ◌≤◌, ◌<◌, ◌≡◌, refl, ap, sym, ◌∙◌, arith, ◌==◌, if◌then◌else◌, update, update_self,
  update_ne, dec_lt, ℕ_discrete, true, false, subst,
}
use low_latency_pipeline.Prelude.Int.{ℤ, pos_part, neg_part, ◌+ℤ◌, int_laws, +ℤ_parts, eq_of_parts}
use low_latency_pipeline.Exec.Orders.{OrderRow}

-- The sum of `f` over the first `n` rows.
unfoldable pub total : (OrderRow → ℤ) → (ℕ → OrderRow) → ℕ → ℤ
total f rows zero = ℤ.pos 0
total f rows (suc n) = total f rows n +ℤ f (rows n)

regroup : (a b c d x : ℤ) → a +ℤ b ≡ c +ℤ d → a +ℤ x +ℤ b ≡ c +ℤ x +ℤ d
regroup a b c d x e = eq_of_parts _ _ (omega (arith, +ℤ_parts, ap pos_part e, ap neg_part e))

swap_last : (a b c : ℤ) → a +ℤ b +ℤ c ≡ a +ℤ c +ℤ b
swap_last a b c = omega int_laws

module _ (f : OrderRow → ℤ) where
  total-suc : (rows : ℕ → OrderRow) (n : ℕ) → total f rows (suc n) ≡ total f rows n +ℤ f (rows n)
  unfolding total
  total-suc rows n = refl

  -- A write beyond the rows that are summed changes nothing.
  pub total-update_above :
      (rows : ℕ → OrderRow) (n i : ℕ) (r : OrderRow)
      → n ≤ i
      → total f (update rows i r) n ≡ total f rows n
  unfolding total
  total-update_above rows zero i r h = refl
  total-update_above rows (suc n) i r h =
      ap (λ t. t +ℤ f (update rows i r n)) (total-update_above rows n i r (omega arith))
      ∙ ap (λ t. total f rows n +ℤ f t) (update_ne rows i n r (λ e. omega arith))

  -- The rows that `append_row` leaves.
  pub total-update_last :
      (rows : ℕ → OrderRow) (n : ℕ) (r : OrderRow)
      → total f (update rows n r) (suc n) ≡ total f rows n +ℤ f r
  total-update_last rows n r =
      total-suc (update rows n r) n
      ∙ ap (λ t. t +ℤ f (update rows n r n)) (total-update_above rows n n r (omega arith))
      ∙ ap (λ t. total f rows n +ℤ f t) (update_self rows n r)

  pub total-update :
      (rows : ℕ → OrderRow) (n i : ℕ) (r : OrderRow)
      → i < n
      → total f (update rows i r) n +ℤ f (rows i) ≡ total f rows n +ℤ f r
  total-update rows zero i r h = absurd (omega arith)
  total-update rows (suc n) i r h = elim (dec_lt i n) [
    | yes below ↦
        ap (λ t. t +ℤ f (rows i)) (total-suc (update rows i r) n)
        ∙ ap (λ t. total f (update rows i r) n +ℤ f t +ℤ f (rows i))
            (update_ne rows i n r (λ e. omega arith))
        ∙ regroup _ _ _ _ _ (total-update rows n i r below)
        ∙ ap (λ t. t +ℤ f r) (sym (total-suc rows n))
    | no above ↦
        let same : n ≡ i = omega arith in
        subst (λ k. total f (update rows k r) (suc n) +ℤ f (rows k) ≡ total f rows (suc n) +ℤ f r)
          same
          (ap (λ t. t +ℤ f (rows n)) (total-update_last rows n r)
            ∙ swap_last (total f rows n) (f r) (f (rows n))
            ∙ ap (λ t. t +ℤ f r) (sym (total-suc rows n)))
  ]

  pub total-append :
      (rows : ℕ → OrderRow) (n : ℕ) (r : OrderRow)
      → total f (update rows n r) (suc n) ≡ total f rows n +ℤ f r
  unfolding total
  total-append rows n r =
      rw (total-update_above rows n n r (omega arith), update_self rows n r) refl

  -- The rows that `remove_row` leaves.
  pub total-swap_remove :
      (rows : ℕ → OrderRow) (n p : ℕ)
      → p < suc n
      → total f (if p == n then rows else update rows p (rows n)) n +ℤ f (rows p)
        ≡ total f rows (suc n)
  total-swap_remove rows n p h = elim (ℕ_discrete p n) [
    | yes same ↦
        let test : (p == n) ≡ true = ground (arith, same) in
        ap (λ t. total f (if t then rows else update rows p (rows n)) n +ℤ f (rows p)) test
        ∙ ap (λ t. total f rows n +ℤ f (rows t)) same
        ∙ sym (total-suc rows n)
    | no other ↦
        let test : (p == n) ≡ false = ground arith in
        ap (λ t. total f (if t then rows else update rows p (rows n)) n +ℤ f (rows p)) test
        ∙ total-update rows n p (rows n) (omega arith)
        ∙ sym (total-suc rows n)
  ]
