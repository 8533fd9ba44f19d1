-- ===== src/Exec/Orders/Tally.antt =====
-- src/exec/order_table.hpp: the open lots and the live count of each instrument are the sums over the
-- rows, and every change of the rows keeps them so.
use low_latency_pipeline.Prelude.{
  ℕ, zero, suc, ◌+◌, ◌-◌, ◌≤◌, ◌<◌, ◌^◌, ◌≡◌, refl, ap, sym, ◌∙◌, subst, arith, ◌==◌, if◌then◌else◌,
  update,
}
use low_latency_pipeline.Prelude.Int.{
  ℤ, pos_part, neg_part, ◌+ℤ◌, ◌-ℤ◌, +ℤ_parts, -ℤ_parts, eq_of_parts,
}
use low_latency_pipeline.Ring.{add32, sub32}
use low_latency_pipeline.Event.{Side}
use low_latency_pipeline.Exec.Orders.{
  OrderRow, OrderTable, add_open, set_leaves, append_row, remove_row,
}
use low_latency_pipeline.Exec.Orders.Totals.{
  total, total-update, total-update_last, total-swap_remove,
}

-- `d`, if an order of that side and instrument counts for side `want` of instrument `j`.
abbrev pub lots_at : (want side : Side) (inst j : ℕ) → ℤ → ℤ
lots_at Side.buy Side.buy inst j d = if inst == j then d else ℤ.pos 0
lots_at Side.buy Side.sell inst j d = ℤ.pos 0
lots_at Side.sell Side.buy inst j d = ℤ.pos 0
lots_at Side.sell Side.sell inst j d = if inst == j then d else ℤ.pos 0

abbrev pub open_lots : Side → ℕ → OrderRow → ℤ
open_lots want j r = lots_at want r.side r.instrument j r.leaves

abbrev pub counted : ℕ → OrderRow → ℤ
counted j r = if r.instrument == j then ℤ.pos 1 else ℤ.pos 0

pub record IsTallied (t : OrderTable) : Type 0 where
  pub buys : (j : ℕ) → t.open_buy j ≡ total (open_lots Side.buy j) t.rows t.size
  pub sells : (j : ℕ) → t.open_sell j ≡ total (open_lots Side.sell j) t.rows t.size
  pub lives : (j : ℕ) → ℤ.pos (t.live j) ≡ total (counted j) t.rows t.size

add_open-buys :
    (t : OrderTable) (s : Side) (inst : ℕ) (d : ℤ) (j : ℕ)
    → (add_open t s inst d).open_buy j ≡ t.open_buy j +ℤ lots_at Side.buy s inst j d
unfolding add_open ◌+ℤ◌
add_open-buys t Side.buy inst d j = ground arith
add_open-buys t Side.sell inst d j = ground arith

add_open-sells :
    (t : OrderTable) (s : Side) (inst : ℕ) (d : ℤ) (j : ℕ)
    → (add_open t s inst d).open_sell j ≡ t.open_sell j +ℤ lots_at Side.sell s inst j d
unfolding add_open ◌+ℤ◌
add_open-sells t Side.buy inst d j = ground arith
add_open-sells t Side.sell inst d j = ground arith

-- A change of lots is a change of what they count for.
lots_at-minus :
    (want s : Side) (inst j : ℕ) (a b : ℤ)
    → lots_at want s inst j (a -ℤ b) ≡ lots_at want s inst j a -ℤ lots_at want s inst j b
unfolding ◌-ℤ◌
lots_at-minus Side.buy Side.buy inst j a b = ground arith
lots_at-minus Side.buy Side.sell inst j a b = refl
lots_at-minus Side.sell Side.buy inst j a b = refl
lots_at-minus Side.sell Side.sell inst j a b = ground arith

lots_at-zero : (want s : Side) (inst j : ℕ) → lots_at want s inst j (ℤ.pos 0) ≡ ℤ.pos 0
lots_at-zero Side.buy Side.buy inst j = ground arith
lots_at-zero Side.buy Side.sell inst j = refl
lots_at-zero Side.sell Side.buy inst j = refl
lots_at-zero Side.sell Side.sell inst j = ground arith

counted-range :
    (j : ℕ) (rows : ℕ → OrderRow) (n : ℕ)
    → (neg_part (total (counted j) rows n) ≡ 0) × (pos_part (total (counted j) rows n) ≤ n)
unfolding total ◌+ℤ◌
counted-range j rows zero = (refl, omega arith)
counted-range j rows (suc n) = ground (arith, counted-range j rows n)

-- What the three sums have in common: a sum that follows the rows before the change, moved by `d`.
follow_change :
    (sum before after gained lost : ℤ)
    → sum ≡ before
    → after +ℤ lost ≡ before +ℤ gained
    → sum +ℤ (gained -ℤ lost) ≡ after
follow_change sum before after gained lost e h =
    subst (λ s. s +ℤ (gained -ℤ lost) ≡ after) (sym e)
      (eq_of_parts _ _ (
        omega (
          arith,
          +ℤ_parts before (gained -ℤ lost),
          -ℤ_parts gained lost,
          +ℤ_parts after lost,
          +ℤ_parts before gained,
          ap pos_part h,
          ap neg_part h,
        )))

count_up :
    (live : ℕ → ℕ) (inst j : ℕ)
    → live inst + 1 < 2 ^ 32
    → ℤ.pos (update live inst (add32 (live inst) 1) j)
      ≡ ℤ.pos (live j) +ℤ (if inst == j then ℤ.pos 1 else ℤ.pos 0)
unfolding ◌+ℤ◌
count_up live inst j h = ground arith

count_down :
    (live : ℕ → ℕ) (inst j : ℕ)
    → 0 < live inst
    → live inst < 2 ^ 32
    → ℤ.pos (update live inst (sub32 (live inst) 1) j)
      ≡ ℤ.pos (live j) +ℤ (ℤ.pos 0 -ℤ (if inst == j then ℤ.pos 1 else ℤ.pos 0))
unfolding ◌+ℤ◌ ◌-ℤ◌
count_down live inst j h k = ground arith

live_bound : (t : OrderTable) → IsTallied t → (j : ℕ) → t.live j ≤ t.size
live_bound t k j = omega (arith, counted-range j t.rows t.size, ap pos_part (k.lives j))

pub append_row-IsTallied :
    (t : OrderTable) (r : OrderRow) → t.size + 1 < 2 ^ 32 → IsTallied t → IsTallied (append_row t r)
unfolding append_row
append_row-IsTallied t r small k = record {
  buys = λ j.
      add_open-buys t r.side r.instrument r.leaves j
      ∙ ap (λ s. s +ℤ open_lots Side.buy j r) (k.buys j)
      ∙ sym (total-update_last (open_lots Side.buy j) t.rows t.size r);
  sells = λ j.
      add_open-sells t r.side r.instrument r.leaves j
      ∙ ap (λ s. s +ℤ open_lots Side.sell j r) (k.sells j)
      ∙ sym (total-update_last (open_lots Side.sell j) t.rows t.size r);
  lives = λ j.
      count_up t.live r.instrument j (omega (arith, live_bound t k r.instrument))
      ∙ ap (λ s. s +ℤ counted j r) (k.lives j)
      ∙ sym (total-update_last (counted j) t.rows t.size r);
}

-- A sum that loses one row.
follow_loss :
    (sum before after lost : ℤ)
    → sum ≡ before
    → after +ℤ lost ≡ before
    → sum +ℤ (ℤ.pos 0 -ℤ lost) ≡ after
follow_loss sum before after lost e h =
    follow_change sum before after (ℤ.pos 0) lost e
      (h ∙ eq_of_parts _ _ (omega (arith, +ℤ_parts before (ℤ.pos 0))))

module _ (t : OrderTable) (p : ℕ) (bound : p < t.size) (k : IsTallied t) where
  -- The rows are not empty, so their number is the successor of the last index.
  last_index : suc (t.size - 1) ≡ t.size
  last_index = omega (arith, bound)

  lost_row :
      (f : OrderRow → ℤ)
      → total f
            (if p == t.size - 1 then t.rows else update t.rows p (t.rows (t.size - 1)))
            (t.size - 1)
          +ℤ f (t.rows p)
        ≡ total f t.rows t.size
  lost_row f =
      total-swap_remove f t.rows (t.size - 1) p (omega (arith, bound))
      ∙ ap (λ n. total f t.rows n) last_index

  counted_once : 0 < t.live (t.rows p).instrument
  counted_once =
      let j = (t.rows p).instrument in
      let rest =
        total (counted j)
          (if p == t.size - 1 then t.rows else update t.rows p (t.rows (t.size - 1)))
          (t.size - 1) in
      let one : counted j (t.rows p) ≡ ℤ.pos 1 = ground arith in
      let sum : rest +ℤ ℤ.pos 1 ≡ ℤ.pos (t.live j) =
        ap (λ x. rest +ℤ x) (sym one) ∙ lost_row (counted j) ∙ sym (k.lives j) in
      let range =
        counted-range j (if p == t.size - 1 then t.rows else update t.rows p (t.rows (t.size - 1)))
          (t.size - 1) in
      omega (arith, range, +ℤ_parts rest (ℤ.pos 1), ap pos_part sum, ap neg_part sum)

  pub remove_row-IsTallied : t.size < 2 ^ 32 → IsTallied (remove_row t p)
  unfolding remove_row
  remove_row-IsTallied small =
      let r = t.rows p in
      record {
        buys = λ j.
            add_open-buys t r.side r.instrument (ℤ.pos 0 -ℤ r.leaves) j
            ∙ ap (λ d. t.open_buy j +ℤ d)
                (lots_at-minus Side.buy r.side r.instrument j (ℤ.pos 0) r.leaves)
            ∙ ap (λ d. t.open_buy j +ℤ (d -ℤ open_lots Side.buy j r))
                (lots_at-zero Side.buy r.side r.instrument j)
            ∙ follow_loss _ _ _ _ (k.buys j) (lost_row (open_lots Side.buy j));
        sells = λ j.
            add_open-sells t r.side r.instrument (ℤ.pos 0 -ℤ r.leaves) j
            ∙ ap (λ d. t.open_sell j +ℤ d)
                (lots_at-minus Side.sell r.side r.instrument j (ℤ.pos 0) r.leaves)
            ∙ ap (λ d. t.open_sell j +ℤ (d -ℤ open_lots Side.sell j r))
                (lots_at-zero Side.sell r.side r.instrument j)
            ∙ follow_loss _ _ _ _ (k.sells j) (lost_row (open_lots Side.sell j));
        lives = λ j.
            count_down t.live r.instrument j counted_once
              (omega (arith, live_bound t k r.instrument))
            ∙ follow_loss _ _ _ _ (k.lives j) (lost_row (counted j));
      }

  pub set_leaves-IsTallied : (leaves : ℤ) → IsTallied (set_leaves t p leaves)
  unfolding set_leaves
  set_leaves-IsTallied leaves =
      let r = t.rows p in
      let r' : OrderRow = record r { leaves = leaves } in
      record {
        buys = λ j.
            add_open-buys t r.side r.instrument (leaves -ℤ r.leaves) j
            ∙ ap (λ d. t.open_buy j +ℤ d)
                (lots_at-minus Side.buy r.side r.instrument j leaves r.leaves)
            ∙ follow_change _ _ _ _ _ (k.buys j)
                (total-update (open_lots Side.buy j) t.rows t.size p r' bound);
        sells = λ j.
            add_open-sells t r.side r.instrument (leaves -ℤ r.leaves) j
            ∙ ap (λ d. t.open_sell j +ℤ d)
                (lots_at-minus Side.sell r.side r.instrument j leaves r.leaves)
            ∙ follow_change _ _ _ _ _ (k.sells j)
                (total-update (open_lots Side.sell j) t.rows t.size p r' bound);
        lives = λ j.
            same_count j (counted j r) (k.lives j)
              (total-update (counted j) t.rows t.size p r' bound);
      }
    where
      same_count : (j : ℕ) {a b c : ℤ} (d : ℤ) → a ≡ b → c +ℤ d ≡ b +ℤ d → a ≡ c
      same_count j {a = a} {b = b} {c = c} d e h = eq_of_parts _ _ (
          omega (
            arith,
            ap pos_part e,
            ap neg_part e,
            ap pos_part h,
            ap neg_part h,
            +ℤ_parts b d,
            +ℤ_parts c d,
          ))
