-- ===== src/Exec/Context/Reports.antt =====
-- src/exec/exec_context.hpp: apply_report changes the order of the report's identifier, and no other.
use Prim.Native.Nat.{◌∣◌}
use std.Path.{fun_ext}
use low_latency_pipeline.Prelude.{
  ℕ, ◌^◌, ◌≤◌, ◌<◌, ◌≡◌, ◌⊎◌, inl, inr, refl, ap, sym, Bool-cases, ◌∙◌, subst, arith, false, Option,
  none, some, if◌then◌else◌, update, update_self,
}
use low_latency_pipeline.Prelude.Int.{ℤ, ◌+ℤ◌, ◌-ℤ◌, ltb_ℤ, is_zero}
use low_latency_pipeline.Messages.{ExecType, OrdStatus, ExecReport}
use low_latency_pipeline.Exec.Doubles.{Doubles}
use low_latency_pipeline.Exec.Orders.{OrderTable, OrderRow, set_leaves, nothing_pending}
use low_latency_pipeline.Exec.Orders.Table.{Represents, find-Represents}
use low_latency_pipeline.Exec.Orders.Removal.{erase-Represents}
use low_latency_pipeline.Exec.Orders.Write.{row_id, write-Represents, set_leaves-Represents}
use low_latency_pipeline.Exec.Account.{Account, release}
use low_latency_pipeline.Exec.Context.{
  ExecContext, write_row, up, with_st, now_ns, on_ack, on_execution, on_replaced, on_cancel_reject,
  finish, apply_fill, apply_to_row, apply_report,
}

-- What an execution leaves of an order.
abbrev executed : OrderRow → ExecReport → OrdStatus → OrderRow
executed row rep status = record row {
  cum = row.cum +ℤ rep.last_qty;
  leaves = if ltb_ℤ rep.last_qty row.leaves then row.leaves -ℤ rep.last_qty else ℤ.pos 0;
  status = status;
}

abbrev unless_done : OrderRow → Option OrderRow
unless_done row = if is_zero row.leaves then none else some row

-- What a report leaves of an order: the order that is done is none.
abbrev pub settled : OrderRow → ExecReport → (now : ℤ) → Option OrderRow
settled row rep now = elim rep.exec_type [
  | ExecType.ack ↦ some (record row { status = OrdStatus.new; t_ack_ns = now })
  | ExecType.partial_fill ↦ unless_done (executed row rep OrdStatus.partially_filled)
  | ExecType.fill ↦ unless_done (executed row rep OrdStatus.filled)
  | ExecType.replaced ↦ some (record row {
    px = row.new_px;
    qty = row.new_qty;
    leaves = row.new_qty -ℤ row.cum;
    pending = record row.pending { replace = false };
  })
  | ExecType.canceled ↦ none
  | ExecType.expired ↦ none
  | ExecType.reject ↦ none
  | ExecType.cancel_reject ↦ some (record row { pending = nothing_pending })
  | ExecType.restated ↦ some row
]

update_twice :
    (f : ℕ → Option OrderRow) (k : ℕ) (a b : Option OrderRow)
    → update (update f k a) k b ≡ update f k b
update_twice f k a b = fun_ext (λ j. ground arith)

update_same : (f : ℕ → Option OrderRow) (k : ℕ) (a : Option OrderRow) → f k ≡ a → update f k a ≡ f
update_same f k a e = fun_ext (λ j. ground (arith, e))

module _ (c max_rows : ℕ) (hash : ℕ → ℕ) (orders : ℕ → Option OrderRow) (id i : ℕ) where
  -- Stands c max_rows hash orders id i `i` of the table stands for the identifier, with the value `row`; the other orders are
  -- those of `orders`.
  record Stands (t : OrderTable) (row : OrderRow) : Type 0 where
    all : Represents c max_rows hash t (update orders id (some row))
    lt : i < t.size
    at : t.rows i ≡ row
    same : row.id ≡ id

  again :
      {t : OrderTable} (row row' : OrderRow)
      → row'.id ≡ id
      → Represents c max_rows hash t (update (update orders id (some row)) row'.id (some row'))
      → Represents c max_rows hash t (update orders id (some row'))
  again {t} row row' same r =
      subst (Represents c max_rows hash t) (update_twice orders id (some row) (some row')) (
        subst
          (λ k. Represents c max_rows hash t (update (update orders id (some row)) k (some row')))
          same r)

  write-Stands :
      {t : OrderTable} {row : OrderRow} (change : OrderRow → OrderRow)
      → ((r : OrderRow) → (change r).id ≡ r.id)
      → ((r : OrderRow) → (change r).instrument ≡ r.instrument)
      → ((r : OrderRow) → (change r).side ≡ r.side)
      → ((r : OrderRow) → (change r).leaves ≡ r.leaves)
      → Stands t row
      → Stands (write_row t i (change (t.rows i))) (change row)
  write-Stands {t} {row} change id_still inst side leaves s =
      let same' : (change row).id ≡ id = id_still row ∙ s.same in
      let r = t.rows i in
      subst (λ r'. Stands (write_row t i (change r)) (change r')) s.at
        (record {
          all = again row (change r) (id_still r ∙ ap (λ k. k.id) s.at ∙ s.same) (
              write-Represents c max_rows hash s.all i s.lt (change r) (id_still r) (inst r)
                (side r) (leaves r));
          lt = s.lt;
          at = update_self t.rows i (change r);
          same = id_still r ∙ ap (λ k. k.id) s.at ∙ s.same;
        })

  set_leaves-Stands :
      {t : OrderTable} {row : OrderRow} (leaves : ℤ)
      → Stands t row
      → Stands (set_leaves t i leaves) (record row { leaves = leaves })
  unfolding set_leaves
  set_leaves-Stands {t} {row} leaves s =
      let r = t.rows i in
      let same' : r.id ≡ id = ap (λ k. k.id) s.at ∙ s.same in
      subst (λ r'. Stands (set_leaves t i leaves) (record r' { leaves = leaves })) s.at
        (record {
          all =
              again row (record r { leaves = leaves }) same'
                (set_leaves-Represents c max_rows hash s.all i s.lt leaves);
          lt = s.lt;
          at = update_self t.rows i (record r { leaves = leaves });
          same = same';
        })

module _ (c max_rows : ℕ) (hash : ℕ → ℕ) (roomy : max_rows < c) (divides : c ∣ 2 ^ 32)
    (hash_lt : (k : ℕ) → hash k < 2 ^ 32) (small : c ≤ 2 ^ 32) {D : Doubles}
    (orders : ℕ → Option OrderRow) (id i : ℕ) where
  -- A run of the handler that ends with `left` for the identifier.
  abbrev Leaves : Option (ExecContext D) → (left : Option OrderRow) → Type 0
  Leaves run left =
      (x' : ExecContext D) × (run ≡ some x')
      × Represents c max_rows hash x'.orders (update orders id left)

  finish-Represents :
      (x : ExecContext D) {row : OrderRow}
      → Stands c max_rows hash orders id i x.orders row
      → Leaves (finish c max_rows hash x i) none
  unfolding finish
  finish-Represents x {row} s =
      let known = erase-Represents c max_rows hash roomy divides hash_lt small s.all id in
      let (t', run, r) = known.0 row (update_self orders id (some row)) in
      let same : (x.orders.rows i).id ≡ id = ap (λ k. k.id) s.at ∙ s.same in
      let r' = x.orders.rows i in
      let account' : Account = release x.account r'.instrument r'.side r'.px r'.leaves in
      (
        record x { account = account'; orders = t' },
        rw (same, run) refl,
        subst (Represents c max_rows hash t') (update_twice orders id (some row) none) r,
      )

  on_execution-Stands :
      (x : ExecContext D) {row : OrderRow} (rep : ExecReport) (status : OrdStatus)
      → Stands c max_rows hash orders id i x.orders row
      → Stands c max_rows hash orders id i
          (on_execution x i rep status).orders
          (executed row rep status)
  unfolding on_execution
  on_execution-Stands x {row} rep status s =
      let r = x.orders.rows i in
      let q = rep.last_qty in
      let left = if ltb_ℤ q r.leaves then r.leaves -ℤ q else ℤ.pos 0 in
      let counted =
        write-Stands c max_rows hash orders id i (λ k. record k { cum = k.cum +ℤ q }) (λ k. refl)
          (λ k. refl) (λ k. refl) (λ k. refl) s in
      let lowered = set_leaves-Stands c max_rows hash orders id i left counted in
      let done =
        write-Stands c max_rows hash orders id i (λ k. record k { status = status }) (λ k. refl)
          (λ k. refl) (λ k. refl) (λ k. refl) lowered in
      subst
        (λ k. Stands c max_rows hash orders id i (on_execution x i rep status).orders (record row {
          cum = row.cum +ℤ q;
          leaves = if ltb_ℤ q k.leaves then k.leaves -ℤ q else ℤ.pos 0;
          status = status;
        }))
        s.at done

  apply_fill-Represents :
      (x : ExecContext D) {row : OrderRow} (rep : ExecReport) (status : OrdStatus)
      → Stands c max_rows hash orders id i x.orders row
      → Leaves (apply_fill c max_rows hash x i rep status) (unless_done (executed row rep status))
  unfolding apply_fill
  apply_fill-Represents x {row} rep status s =
      let x' = on_execution x i rep status in
      let s' = on_execution-Stands x rep status s in
      let same : is_zero (x'.orders.rows i).leaves ≡ is_zero (executed row rep status).leaves =
        ap (λ k. is_zero k.leaves) s'.at in
      let fin = finish-Represents x' s' in
      elim (Bool-cases (is_zero (executed row rep status).leaves)) [
        | inl done ↦ rw (same, done) fin
        | inr left ↦ rw (same, left) (x', refl, s'.all)
      ]

  on_replaced-Stands :
      (x : ExecContext D) {row : OrderRow}
      → Stands c max_rows hash orders id i x.orders row
      → Stands c max_rows hash orders id i (on_replaced x i).orders (record row {
        px = row.new_px;
        qty = row.new_qty;
        leaves = row.new_qty -ℤ row.cum;
        pending = record row.pending { replace = false };
      })
  unfolding on_replaced
  on_replaced-Stands x {row} s =
      let r = x.orders.rows i in
      let amended =
        write-Stands c max_rows hash orders id i (λ k. record k { px = k.new_px; qty = k.new_qty })
          (λ k. refl) (λ k. refl) (λ k. refl) (λ k. refl) s in
      let lowered = set_leaves-Stands c max_rows hash orders id i (r.new_qty -ℤ r.cum) amended in
      let done =
        write-Stands c max_rows hash orders id i
          (λ k. record k { pending = record k.pending { replace = false } }) (λ k. refl) (λ k. refl)
          (λ k. refl) (λ k. refl) lowered in
      subst
        (λ k. Stands c max_rows hash orders id i (on_replaced x i).orders (record row {
          px = row.new_px;
          qty = row.new_qty;
          leaves = k.new_qty -ℤ k.cum;
          pending = record row.pending { replace = false };
        }))
        s.at done

  apply_to_row-Represents :
      (x : ExecContext D) {row : OrderRow} (rep : ExecReport) (tsc : ℕ)
      → Stands c max_rows hash orders id i x.orders row
      → Leaves (apply_to_row c max_rows hash x i rep tsc) (settled row rep (now_ns x tsc))
  unfolding apply_to_row on_ack on_cancel_reject apply_fill on_execution
  apply_to_row-Represents x {row} rep tsc s = go rep.exec_type refl
    where
      go :
          (k : ExecType)
          → rep.exec_type ≡ k
          → Leaves (apply_to_row c max_rows hash x i rep tsc) (settled row rep (now_ns x tsc))
      go ExecType.ack e =
          let change : OrderRow → OrderRow =
            λ k. record k { status = OrdStatus.new; t_ack_ns = now_ns x tsc } in
          rw e (
            _,
            refl,
            (write-Stands c max_rows hash orders id i change (λ k. refl) (λ k. refl) (λ k. refl)
                (λ k. refl) s).all,
          )
      go ExecType.partial_fill e = rw e (apply_fill-Represents x rep OrdStatus.partially_filled s)
      go ExecType.fill e = rw e (apply_fill-Represents x rep OrdStatus.filled s)
      go ExecType.replaced e = rw e (_, refl, (on_replaced-Stands x s).all)
      go ExecType.canceled e =
          rw e (finish-Represents (with_st x (record x.st { canceled = up x.st.canceled })) s)
      go ExecType.expired e =
          rw e (finish-Represents (with_st x (record x.st { expired = up x.st.expired })) s)
      go ExecType.reject e =
          rw e (
            finish-Represents (with_st x (record x.st { venue_rejects = up x.st.venue_rejects })) s)
      go ExecType.cancel_reject e =
          let change : OrderRow → OrderRow = λ k. record k { pending = nothing_pending } in
          rw e (
            _,
            refl,
            (write-Stands c max_rows hash orders id i change (λ k. refl) (λ k. refl) (λ k. refl)
                (λ k. refl) s).all,
          )
      go ExecType.restated e = rw e (x, refl, s.all)

module _ (c max_rows : ℕ) (hash : ℕ → ℕ) (roomy : max_rows < c) (divides : c ∣ 2 ^ 32)
    (hash_lt : (k : ℕ) → hash k < 2 ^ 32) (small : c ≤ 2 ^ 32) {D : Doubles} (x : ExecContext D)
    {orders : ℕ → Option OrderRow} (r : Represents c max_rows hash x.orders orders)
    (rep : ExecReport) (tsc : ℕ) where
  -- A context whose order table has fewer rows than index slots, their number a power of two up to 2
  -- ^ 32, and stands for a map from identifiers to orders, with their open lots and live counts: any
  -- report ends. For an identifier that the map does not have, the context only counts the report as
  -- unsolicited; for one that it has, the table then stands for the map in which the order is what
  -- the report leaves of it, and is gone once it is filled, canceled, expired or rejected by the
  -- venue.
  pub apply_report-Represents :
      ((orders rep.cl_ord_id ≡ none)
        × (apply_report c max_rows hash x rep tsc
            ≡ some (with_st x (record x.st { unsolicited = up x.st.unsolicited }))))
      ⊎ ((row : OrderRow) × (orders rep.cl_ord_id ≡ some row)
          × (x' : ExecContext D) × (apply_report c max_rows hash x rep tsc ≡ some x')
          × Represents c max_rows hash x'.orders
              (update orders rep.cl_ord_id (settled row rep (now_ns x tsc))))
  unfolding apply_report
  apply_report-Represents =
      let id = rep.cl_ord_id in
      elim (find-Represents c max_rows hash roomy r divides hash_lt id) [
        | inr (run, absent) ↦ inl (absent, rw run refl)
        | inl (i, run, lt, has) ↦
            let row = x.orders.rows i in
            let s : Stands c max_rows hash orders id i x.orders row = record {
              all =
                  subst (Represents c max_rows hash x.orders)
                    (sym (update_same orders id (some row) has)) r;
              lt = lt;
              at = refl;
              same = row_id r id row has;
            } in
            let (x', ends, after) =
              apply_to_row-Represents c max_rows hash roomy divides hash_lt small orders id i x rep
                tsc s in
            inr (row, has, x', rw run ends, after)
      ]
