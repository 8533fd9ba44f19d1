-- ===== src/Book/Resting.antt =====
-- The abstract book: the list of the resting orders with their references.
use low_latency_pipeline.Prelude.{
  ℕ, ◌+◌, ◌<◌, ◌≤◌, ◌≡◌, refl, Bool, true, false, arith, ◌==◌, if◌then◌else◌, ◌&&◌, Option, none,
  some, List, [], ◌∷◌, length, update, Bool-cases, inl, inr,
}
use low_latency_pipeline.Event.{Side, sell, buy}
use low_latency_pipeline.OrderMap.{OrderEntry}

abbrev pub Resting : Type 0
Resting = List (ℕ × OrderEntry)

abbrev pub lookup : Resting → ℕ → Option OrderEntry
lookup [] ref = none
lookup ((k, e) ∷ q) ref = if k == ref then some e else lookup q ref

-- Each reference once.
abbrev pub IsUnique : Resting → Type 0
IsUnique [] = Unit {0}
IsUnique ((k, e) ∷ q) = (lookup q k ≡ none) × IsUnique q

abbrev pub remove : ℕ → Resting → Resting
remove ref [] = []
remove ref ((k, e) ∷ q) = let rest = remove ref q in if k == ref then q else (k, e) ∷ rest

-- The order under `ref` with other shares.
abbrev pub reshare : (ref shares : ℕ) → Resting → Resting
reshare ref shares [] = []
reshare ref shares ((k, e) ∷ q) =
    let rest = reshare ref shares q in
    if k == ref then (k, record e { shares = shares }) ∷ q else (k, e) ∷ rest

abbrev pub same_side : Side → Side → Bool
same_side buy buy = true
same_side sell sell = true
same_side buy sell = false
same_side sell buy = false

abbrev pub rests_at : Side → (price : ℕ) → OrderEntry → Bool
rests_at side price e = same_side side e.side && (e.price == price)

-- How many orders rest at a price of a side, and with how many shares.
abbrev pub orders_at : Side → (price : ℕ) → Resting → ℕ
orders_at side price [] = 0
orders_at side price ((k, e) ∷ q) =
    let others = orders_at side price q in if rests_at side price e then others + 1 else others

abbrev pub shares_at : Side → (price : ℕ) → Resting → ℕ
shares_at side price [] = 0
shares_at side price ((k, e) ∷ q) =
    let others = shares_at side price q in
    if rests_at side price e then others + e.shares else others

pub orders_at-le : (side : Side) (price : ℕ) (q : Resting) → orders_at side price q ≤ length q
orders_at-le side price [] = omega arith
orders_at-le side price ((k, e) ∷ q) = ground (arith, orders_at-le side price q)

pub lookup-remove :
    (ref r : ℕ) (q : Resting) → IsUnique q → update (lookup q) ref none r ≡ lookup (remove ref q) r
lookup-remove ref r [] u = ground arith
lookup-remove ref r ((k, e) ∷ q) u = ground (arith, lookup-remove ref r q u.1)

pub lookup-reshare :
    (ref r shares : ℕ) (e : OrderEntry) (q : Resting)
    → lookup q ref ≡ some e
    → update (lookup q) ref (some (record e { shares = shares })) r
      ≡ lookup (reshare ref shares q) r
lookup-reshare ref r shares e [] has = cc
lookup-reshare ref r shares e ((k, d) ∷ q) has = ground (arith, lookup-reshare ref r shares e q)

pub remove-IsUnique : (ref : ℕ) (q : Resting) → IsUnique q → IsUnique (remove ref q)
remove-IsUnique ref [] u = tt
remove-IsUnique ref ((k, e) ∷ q) u = elim (Bool-cases (k == ref)) [
  | inl same ↦ rw same u.1
  | inr other ↦ rw other (ground (arith, lookup-remove ref k q u.1), remove-IsUnique ref q u.1)
]

reshare_other :
    (ref r shares : ℕ) (q : Resting) → lookup q r ≡ none → lookup (reshare ref shares q) r ≡ none
reshare_other ref r shares [] new = refl
reshare_other ref r shares ((k, e) ∷ q) new = ground (arith, reshare_other ref r shares q)

pub reshare-IsUnique : (ref shares : ℕ) (q : Resting) → IsUnique q → IsUnique (reshare ref shares q)
reshare-IsUnique ref shares [] u = tt
reshare-IsUnique ref shares ((k, e) ∷ q) u = elim (Bool-cases (k == ref)) [
  | inl same ↦ rw same u
  | inr other ↦ rw other (reshare_other ref k shares q u.0, reshare-IsUnique ref shares q u.1)
]

pub length-remove :
    (ref : ℕ) (e : OrderEntry) (q : Resting)
    → lookup q ref ≡ some e
    → length (remove ref q) + 1 ≡ length q
length-remove ref e [] has = cc
length-remove ref e ((k, d) ∷ q) has = ground (arith, length-remove ref e q)

module _ (side : Side) (price ref : ℕ) (e : OrderEntry) where
  pub orders_at-remove :
      (q : Resting)
      → lookup q ref ≡ some e
      → (if rests_at side price e
          then orders_at side price (remove ref q) + 1
          else orders_at side price (remove ref q))
        ≡ orders_at side price q
  orders_at-remove [] has = cc
  orders_at-remove ((k, d) ∷ q) has = ground (arith, orders_at-remove q)

  pub shares_at-remove :
      (q : Resting)
      → lookup q ref ≡ some e
      → (if rests_at side price e
          then shares_at side price (remove ref q) + e.shares
          else shares_at side price (remove ref q))
        ≡ shares_at side price q
  shares_at-remove [] has = cc
  shares_at-remove ((k, d) ∷ q) has = ground (arith, shares_at-remove q)

  pub orders_at-reshare :
      (shares : ℕ) (q : Resting)
      → orders_at side price (reshare ref shares q) ≡ orders_at side price q
  orders_at-reshare shares [] = refl
  orders_at-reshare shares ((k, d) ∷ q) = ground (arith, orders_at-reshare shares q)

  pub shares_at-reshare :
      (shares : ℕ) (q : Resting)
      → lookup q ref ≡ some e
      → (if rests_at side price e
          then shares_at side price (reshare ref shares q) + e.shares
          else shares_at side price (reshare ref shares q))
        ≡ (if rests_at side price e
            then shares_at side price q + shares
            else shares_at side price q)
  shares_at-reshare shares [] has = cc
  shares_at-reshare shares ((k, d) ∷ q) has = ground (arith, shares_at-reshare shares q)

-- Where orders rest at a price, one of them is found.
pub some_order :
    (side : Side) (price : ℕ) (q : Resting)
    → IsUnique q
    → 0 < orders_at side price q
    → (ref : ℕ) × (e : OrderEntry) × (lookup q ref ≡ some e) × (rests_at side price e ≡ true)
some_order side price [] u more = ground (arith, more)
some_order side price ((k, e) ∷ q) u more = elim (Bool-cases (rests_at side price e)) [
  | inl here ↦ (k, e, ground arith, here)
  | inr there ↦
      let (ref, d, has, at_d) = some_order side price q u.1 (ground arith) in
      (ref, d, ground (arith, u), at_d)
]
