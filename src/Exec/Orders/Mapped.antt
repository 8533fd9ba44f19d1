-- ===== src/Exec/Orders/Mapped.antt =====
-- src/exec/order_table.hpp: the dense array of rows as a map from identifiers to rows, and what an append
-- and a swap-remove do to it.
use low_latency_pipeline.Prelude.{
  ℕ, suc, ◌<◌, ◌≡◌, ◌≢◌, ap, sym, ◌∙◌, subst, arith, Option, none, some, update, update_self,
  update_ne, dec_lt, ℕ_discrete,
}
use low_latency_pipeline.OrderMap.{OrderEntry}
use low_latency_pipeline.Exec.Orders.{OrderRow}
use low_latency_pipeline.Exec.Orders.Index.{row_at}

-- `places` gives the place of each identifier among the first `size` rows, and `orders` its row.
pub record IsMapped (places : ℕ → Option OrderEntry) (rows : ℕ → OrderRow) (size : ℕ)
    (orders : ℕ → Option OrderRow) : Type 0 where
  pub forward : (i : ℕ) → i < size → places (rows i).id ≡ some (row_at i)
  pub backward :
      (id : ℕ) (e : OrderEntry)
      → places id ≡ some e
      → (i : ℕ) × (i < size) × (e ≡ row_at i) × ((rows i).id ≡ id)
  pub hit : (i : ℕ) → i < size → orders (rows i).id ≡ some (rows i)
  pub miss : (id : ℕ) → places id ≡ none → orders id ≡ none

module _ {places : ℕ → Option OrderEntry} {rows : ℕ → OrderRow} {size : ℕ}
    {orders : ℕ → Option OrderRow} (m : IsMapped places rows size orders) where
  -- No two rows have the same identifier.
  distinct : (i j : ℕ) → i < size → j < size → (rows i).id ≡ (rows j).id → i ≡ j
  distinct i j i_lt j_lt e =
      ap (λ o. elim o [ none ↦ 0 | some x ↦ x.price ])
        (sym (m.forward i i_lt) ∙ ap places e ∙ m.forward j j_lt)

  pub append-IsMapped :
      (r : OrderRow)
      → places r.id ≡ none
      → IsMapped
          (update places r.id (some (row_at size)))
          (update rows size r)
          (suc size)
          (update orders r.id (some r))
  append-IsMapped r new =
      let fresh : (i : ℕ) → i < size → r.id ≢ (rows i).id =
        λ i lt e. ground (arith, sym (m.forward i lt) ∙ ap places (sym e) ∙ new) in
      record {
        forward = λ i lt. elim (dec_lt i size) [
          | yes below ↦ ground (arith, m.forward i below, fresh i below)
          | no above ↦ let same : i ≡ size = omega arith in ground (arith, same)
        ];
        backward = λ id e h. elim (ℕ_discrete r.id id) [
          | yes same ↦ (size, omega arith, ground (arith, h, same), ground (arith, same))
          | no other ↦
              let (i, lt, at, eq) = m.backward id e (ground (arith, h, other)) in
              (i, omega arith, at, ground (arith, lt, eq))
        ];
        hit = λ i lt. elim (dec_lt i size) [
          | yes below ↦ ground (arith, m.hit i below, fresh i below)
          | no above ↦ let same : i ≡ size = omega arith in ground (arith, same)
        ];
        miss = λ id h. ground (arith, m.miss id, h);
      }

  -- The removal of the last row.
  pub drop-IsMapped :
      (n : ℕ)
      → size ≡ suc n
      → IsMapped (update places (rows n).id none) rows n (update orders (rows n).id none)
  drop-IsMapped n e =
      let apart : (i : ℕ) → i < n → (rows n).id ≢ (rows i).id =
        λ i lt same. omega (arith, distinct n i (omega arith) (omega arith) same) in
      record {
        forward = λ i lt. ground (arith, m.forward i (omega arith), apart i lt);
        backward = λ id x h. elim (ℕ_discrete (rows n).id id) [
          | yes same ↦ absurd (ground (arith, h, same))
          | no other ↦
              let (i, lt, at, eq) = m.backward id x (ground (arith, h, other)) in
              let ne : i ≢ n = λ same. other (ap (λ k. (rows k).id) (sym same) ∙ eq) in
              (i, omega arith, at, eq)
        ];
        hit = λ i lt. ground (arith, m.hit i (omega arith), apart i lt);
        miss = λ id h. ground (arith, m.miss id, h);
      }

  -- The removal of row `p`, which the last row then replaces.
  pub swap-IsMapped :
      (n p : ℕ)
      → size ≡ suc n
      → p < n
      → IsMapped
          (update (update places (rows n).id (some (row_at p))) (rows p).id none)
          (update rows p (rows n))
          n
          (update orders (rows p).id none)
  swap-IsMapped n p e lt_p =
      let moved_apart : (rows p).id ≢ (rows n).id =
        λ same. omega (arith, distinct p n (omega arith) (omega arith) same) in
      let apart_p : (i : ℕ) → i < n → i ≢ p → (rows p).id ≢ (rows i).id =
        λ i lt ne same. ne (sym (distinct p i (omega arith) (omega arith) same)) in
      let apart_n : (i : ℕ) → i < n → (rows n).id ≢ (rows i).id =
        λ i lt same. omega (arith, distinct n i (omega arith) (omega arith) same) in
      let rows' = update rows p (rows n) in
      let places' = update (update places (rows n).id (some (row_at p))) (rows p).id none in
      let orders' = update orders (rows p).id none in
      let here : rows' p ≡ rows n = update_self rows p (rows n) in
      let there : (i : ℕ) → p ≢ i → rows' i ≡ rows i = λ i ne. update_ne rows p i (rows n) ne in
      record {
        forward = λ i lt. elim (ℕ_discrete p i) [
          | yes same ↦
              subst (λ k. places' (rows' k).id ≡ some (row_at k)) same
                (ap (λ r. places' r.id) here ∙ ground (arith, moved_apart))
          | no other ↦
              ap (λ r. places' r.id) (there i other)
              ∙ ground (
                arith,
                m.forward i (omega arith),
                apart_p i lt (λ x. other (sym x)),
                apart_n i lt,
              )
        ];
        backward = λ id x h. elim (ℕ_discrete (rows p).id id) [
          | yes same ↦ absurd (ground (arith, h, same))
          | no not_p ↦ elim (ℕ_discrete (rows n).id id) [
            | yes same ↦ (p, lt_p, ground (arith, h, same, not_p), ap (λ r. r.id) here ∙ same)
            | no not_n ↦
                let (i, lt, at, eq) = m.backward id x (ground (arith, h, not_p, not_n)) in
                let ne_n : i ≢ n = λ k. not_n (ap (λ j. (rows j).id) (sym k) ∙ eq) in
                let ne_p : p ≢ i = λ k. not_p (ap (λ j. (rows j).id) k ∙ eq) in
                (i, omega (arith, lt, ne_n), at, ap (λ r. r.id) (there i ne_p) ∙ eq)
          ]
        ];
        hit = λ i lt. elim (ℕ_discrete p i) [
          | yes same ↦
              subst (λ k. orders' (rows' k).id ≡ some (rows' k)) same
                (ap (λ r. orders' r.id) here
                  ∙ ground (arith, m.hit n (omega arith), moved_apart)
                  ∙ ap some (sym here))
          | no other ↦
              ap (λ r. orders' r.id) (there i other)
              ∙ ground (arith, m.hit i (omega arith), apart_p i lt (λ x. other (sym x)))
              ∙ ap some (sym (there i other))
        ];
        miss = λ id h. ground (arith, m.miss id, h);
      }
