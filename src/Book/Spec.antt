-- ===== src/Book/Spec.antt =====
-- What each handler does to the list of resting orders.
use low_latency_pipeline.Prelude.{
  ℕ, ◌+◌, ◌*◌, Bool, none, some, ltb, leb, ◌==◌, ◌&&◌, if◌then◌else◌, ◌∷◌, ◌≡◌, refl, true, false,
  [], arith,
}
use low_latency_pipeline.Ring.{sub32}
use low_latency_pipeline.OrderMap.{OrderEntry}
use low_latency_pipeline.Levels.{price_tick}
use low_latency_pipeline.Book.{Trade, no_trade}
use low_latency_pipeline.Book.Resting.{Resting, lookup, remove, reshare}

-- The window of prices that the levels cover.
abbrev pub in_window : (max_levels base price : ℕ) → Bool
in_window max_levels base price = leb base price && ltb price (base + max_levels * price_tick)

-- An order comes to rest, or is dropped outside the window.
abbrev pub rest_order : (max_levels base ref : ℕ) → OrderEntry → Resting → Resting
rest_order max_levels base ref e q = if in_window max_levels base e.price then (ref, e) ∷ q else q

-- Shares leave an order, and an order without shares goes.
abbrev pub reduce_order : (ref shares : ℕ) → Resting → Resting
reduce_order ref shares q = elim (lookup q ref) [
  | none ↦ q
  | some e ↦
      let left = sub32 e.shares shares in if left == 0 then remove ref q else reshare ref left q
]

-- The trade of an execution: at the price of the resting order, on its side.
abbrev pub traded : (ref shares : ℕ) → Resting → Trade
traded ref shares q = elim (lookup q ref) [
  | none ↦ no_trade
  | some e ↦ record { price = e.price; shares = shares; side = e.side }
]

-- A new order in the place of one that rests, on the same side.
abbrev pub replace_order :
    (max_levels base old_ref new_ref new_price new_shares : ℕ) → Resting → Resting
replace_order max_levels base old_ref new_ref new_price new_shares q = elim (lookup q old_ref) [
  | none ↦ q
  | some e ↦
      rest_order max_levels base new_ref
        (record { price = new_price; shares = new_shares; side = e.side }) (remove old_ref q)
]

pub reduce_order-gone :
    (ref shares : ℕ) (q : Resting) (e : OrderEntry)
    → lookup q ref ≡ some e
    → (sub32 e.shares shares == 0) ≡ true
    → reduce_order ref shares q ≡ remove ref q
reduce_order-gone ref shares q e has z = rw (has, reduce_order, z) refl

pub reduce_order-stays :
    (ref shares : ℕ) (q : Resting) (e : OrderEntry)
    → lookup q ref ≡ some e
    → (sub32 e.shares shares == 0) ≡ false
    → reduce_order ref shares q ≡ reshare ref (sub32 e.shares shares) q
reduce_order-stays ref shares q e has n = rw (has, reduce_order, n) refl

pub reduce_order-none :
    (ref shares : ℕ) (q : Resting) → lookup q ref ≡ none → reduce_order ref shares q ≡ q
reduce_order-none ref shares q new = rw (new, reduce_order) refl

pub remove-none : (ref : ℕ) (q : Resting) → lookup q ref ≡ none → remove ref q ≡ q
remove-none ref [] new = refl
remove-none ref ((k, e) ∷ q) new = ground (arith, remove-none ref q)

pub traded-some :
    (ref shares : ℕ) (q : Resting) (e : OrderEntry)
    → lookup q ref ≡ some e
    → traded ref shares q ≡ record { price = e.price; shares = shares; side = e.side }
traded-some ref shares q e has = rw (has, traded) refl

pub traded-none :
    (ref shares : ℕ) (q : Resting) → lookup q ref ≡ none → traded ref shares q ≡ no_trade
traded-none ref shares q new = rw (new, traded) refl

pub replace_order-some :
    (max_levels base old_ref new_ref new_price new_shares : ℕ) (q : Resting) (e : OrderEntry)
    → lookup q old_ref ≡ some e
    → replace_order max_levels base old_ref new_ref new_price new_shares q
      ≡ rest_order max_levels base new_ref
          (record { price = new_price; shares = new_shares; side = e.side })
          (remove old_ref q)
replace_order-some max_levels base old_ref new_ref new_price new_shares q e has =
    rw (has, replace_order) refl

pub replace_order-none :
    (max_levels base old_ref new_ref new_price new_shares : ℕ) (q : Resting)
    → lookup q old_ref ≡ none
    → replace_order max_levels base old_ref new_ref new_price new_shares q ≡ q
replace_order-none max_levels base old_ref new_ref new_price new_shares q new =
    rw (new, replace_order) refl
