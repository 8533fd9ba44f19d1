-- ===== src/Book/Invariant.antt =====
-- The book stands for a list of resting orders.
use low_latency_pipeline.Prelude.{
  ℕ, ◌+◌, ◌*◌, ◌%◌, ◌<◌, ◌≡◌, refl, sym, ◌∙◌, ap, true, false, arith, some, if◌then◌else◌,
  Bool-cases, inl, inr, subst,
}
use low_latency_pipeline.Event.{Side, sell, buy}
use low_latency_pipeline.Ring.{u32_mod}
use low_latency_pipeline.OrderMap.{OrderEntry, Slots}
use low_latency_pipeline.OrderMap.Laws.{Models, Orders}
use low_latency_pipeline.Levels.{price_tick}
use low_latency_pipeline.Book.{OrderBook, side_levels, top}
use low_latency_pipeline.Book.Own.{Own}
use low_latency_pipeline.Book.Views.{Agrees}
use low_latency_pipeline.Book.Resting.{Resting, lookup, IsUnique, orders_at, shares_at, same_side}

-- The orders and the shares at each level, where the levels start at `base`.
abbrev pub counts : (base : ℕ) → Side → Resting → ℕ → ℕ
counts base side q i = orders_at side (base + i * price_tick) q

abbrev pub totals : (base : ℕ) → Side → Resting → ℕ → ℕ
totals base side q i = shares_at side (base + i * price_tick) q

-- Maps that agree everywhere.
pub Models-ext :
    (c : ℕ) (hash : ℕ → ℕ) (slots : Slots) (f g : Orders)
    → ((r : ℕ) → f r ≡ g r)
    → Models c hash slots f
    → Models c hash slots g
Models-ext c hash slots f g same m = record {
  probed = m.probed;
  sound = λ p lt occ. sym (same _) ∙ m.sound p lt occ;
  complete = λ ref e h. m.complete ref e (same ref ∙ h);
}

-- Where a bit may be left over: nowhere, or at one level of one side.
abbrev pub no_hole : ℕ → Side → ℕ
no_hole max_levels s = max_levels

abbrev pub hole_at : ℕ → Side → ℕ → Side → ℕ
hole_at max_levels side i s = if same_side s side then i else max_levels

pub same_side_self : (s : Side) → same_side s s ≡ true
same_side_self buy = refl
same_side_self sell = refl

same_side→eq : (s t : Side) → same_side s t ≡ true → s ≡ t
same_side→eq buy buy e = refl
same_side→eq sell sell e = refl
same_side→eq buy sell e = cc
same_side→eq sell buy e = cc

module _ (max_levels capacity : ℕ) (hash : ℕ → ℕ) (base : ℕ) where
  -- An order at the price of a level, above 0, with its shares in uint32_t.
  abbrev pub IsOnBook : OrderEntry → Type 0
  IsOnBook e =
      (i : ℕ) × (i < max_levels)
      × (e.price ≡ base + i * price_tick)
      × (0 < e.price)
      × (e.shares < u32_mod)

  -- The table holds the resting orders, each with its own reference and on the book. On each side,
  -- each level has the count and, on uint32_t, the shares of the orders that rest there, its bit is
  -- set exactly if it has orders, and the top is the best price of an order. In the midst of a
  -- handler the bit of one level, `hole`, may be left over from an order that has gone.
  pub record HoldsBut (hole : Side → ℕ) (book : OrderBook) (q : Resting) : Type 0 where
    pub table : Models capacity hash book.orders (lookup q)
    pub unique : IsUnique q
    pub on_book : (ref : ℕ) (e : OrderEntry) → lookup q ref ≡ some e → IsOnBook e
    pub sides : (s : Side) → Own max_levels base s book (counts base s q) (totals base s q) (hole s)

  abbrev pub Holds : OrderBook → Resting → Type 0
  Holds book q = HoldsBut (no_hole max_levels) book q

  -- A side that a handler left alone, where the orders there are those of before.
  pub other_side :
      (s : Side) (book book' : OrderBook) (count total count' total' : ℕ → ℕ) (hole : ℕ)
      → (side_levels s book' ≡ side_levels s book)
      → (top s book' ≡ top s book)
      → ((j : ℕ) → count' j ≡ count j)
      → ((j : ℕ) → total' j ≡ total j)
      → Own max_levels base s book count total hole
      → Own max_levels base s book' count' total' hole
  other_side s book book' count total count' total' hole el et cs ts o = record {
    based = rw el o.based;
    holds =
        rw (el, et)
          (record {
            window = o.holds.window;
            is_top = o.holds.is_top;
            counted = λ i lt. o.holds.counted i lt ∙ sym (cs i);
            totalled = λ i lt. o.holds.totalled i lt ∙ ap (λ x. x % u32_mod) (sym (ts i));
            small = λ i lt. rw (cs i) (o.holds.small i lt);
            has_bit = λ i lt p. o.holds.has_bit i lt (omega (arith, cs i));
            no_bit = λ i lt n z. o.holds.no_bit i lt n (sym (cs i) ∙ z);
            hole_bit = o.holds.hole_bit;
          });
  }

  -- A step is right if it is right on the side of its order and for the table.
  pub finish :
      (side : Side) (hole hole' : Side → ℕ) (book book' : OrderBook) (q q' : Resting)
      → HoldsBut hole book q
      → Models capacity hash book'.orders (lookup q')
      → IsUnique q'
      → ((ref : ℕ) (e : OrderEntry) → lookup q' ref ≡ some e → IsOnBook e)
      → Own max_levels base side book' (counts base side q') (totals base side q') (hole' side)
      → Agrees side book book'
      → ((s : Side) → same_side s side ≡ false → hole' s ≡ hole s)
      → ((s : Side) (price : ℕ)
          → same_side s side ≡ false
          → (orders_at s price q' ≡ orders_at s price q)
            × (shares_at s price q' ≡ shares_at s price q))
      → HoldsBut hole' book' q'
  finish side hole hole' book book' q q' h m u on own agrees holes same = record {
    table = m;
    unique = u;
    on_book = on;
    sides = λ s. elim (Bool-cases (same_side s side)) [
      | inl here ↦
          subst (λ x. Own max_levels base x book' (counts base x q') (totals base x q') (hole' x))
            (sym (same_side→eq s side here)) own
      | inr there ↦ rw (holes s there) (
          other_side s book book' _ _ _ _ (hole s) (agrees s there).0 (agrees s there).1
            (λ j. (same s (base + j * price_tick) there).0)
            (λ j. (same s (base + j * price_tick) there).1) (h.sides s))
    ];
  }
