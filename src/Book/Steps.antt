-- ===== src/Book/Steps.antt =====
-- How each step of the handlers changes one side of the book.
use low_latency_pipeline.Prelude.{
  ℕ, ◌+◌, ◌-◌, ◌%◌, ◌^◌, ◌<◌, ◌≤◌, ◌≡◌, ◌≢◌, inl, inr, refl, ap, true, arith, ◌==◌, if◌then◌else◌,
  Bool-cases, not, ◌&&◌, ◌||◌, update,
}
use low_latency_pipeline.Event.{Side}
use low_latency_pipeline.Ring.{u32_mod, add32, sub32}
use low_latency_pipeline.Bitmap.{set, clear}
use low_latency_pipeline.Bitmap.Member.{member, IsValid}
use low_latency_pipeline.Bitmap.Update.{member-set, member-clear, set-IsValid, clear-IsValid}
use low_latency_pipeline.Levels.{
  PriceLevel, PriceLevelArray, index_of, at, put, mark_occupied, mark_empty,
}
use low_latency_pipeline.Levels.Sides.{level_price, IsWindow, index_of-level_price}
use low_latency_pipeline.Book.{next_top, improves, rest_levels}
use low_latency_pipeline.Book.Tops.{next_top-Next}
use low_latency_pipeline.Book.Sides.{
  SideHolds, IsTop-levels, IsWindow-levels, IsTop-added, IsTop-cleared,
}

-- The array after an order of `shares` at level `i`.
abbrev added : PriceLevelArray → (shares i : ℕ) → PriceLevelArray
added a shares i =
    let lvl = a.levels i in
    let levels = update a.levels i (record {
      total_shares = add32 lvl.total_shares shares;
      order_count = add32 lvl.order_count 1;
    }) in
    if lvl.order_count == 0
    then record { base_price = a.base_price; levels = levels; occupied = set a.occupied i }
    else record { base_price = a.base_price; levels = levels; occupied = a.occupied }

rest_levels-added :
    (a : PriceLevelArray) (price shares : ℕ)
    → rest_levels a price shares ≡ added a shares (index_of a price)
unfolding rest_levels at put mark_occupied index_of
rest_levels-added a price shares = refl

-- The array without the bit of level `i`.
abbrev cleared : PriceLevelArray → (i : ℕ) → PriceLevelArray
cleared a i = record a { occupied = clear a.occupied i }

mark_empty-cleared :
    (a : PriceLevelArray) (price : ℕ) → mark_empty a price ≡ cleared a (index_of a price)
unfolding mark_empty
mark_empty-cleared a price = refl

-- No step moves the base.
pub rest_levels-base :
    (a : PriceLevelArray) (price shares : ℕ)
    → (rest_levels a price shares).base_price ≡ a.base_price
rest_levels-base a price shares =
    rw (rest_levels-added a price shares)
      (elim (Bool-cases ((a.levels (index_of a price)).order_count == 0)) [
        | inl z ↦ rw z refl
        | inr n ↦ rw n refl
      ])

pub put-base :
    (a : PriceLevelArray) (price : ℕ) (lvl : PriceLevel)
    → (put a price lvl).base_price ≡ a.base_price
unfolding put
put-base a price lvl = refl

pub mark_empty-base :
    (a : PriceLevelArray) (price : ℕ) → (mark_empty a price).base_price ≡ a.base_price
unfolding mark_empty
mark_empty-base a price = refl

module _ (max_levels : ℕ) {side : Side} {a : PriceLevelArray} {best : ℕ} {count total : ℕ → ℕ}
    {hole : ℕ} (h : SideHolds max_levels side a best count total hole) where
  -- A write of levels that leaves the bits.
  pub levels-Holds :
      (levels : ℕ → PriceLevel) (count' total' : ℕ → ℕ) (hole' : ℕ)
      → ((j : ℕ) → j < max_levels → (levels j).order_count ≡ count' j)
      → ((j : ℕ) → j < max_levels → (levels j).total_shares ≡ total' j % u32_mod)
      → ((j : ℕ) → j < max_levels → count' j ≤ count j)
      → ((j : ℕ) → j < max_levels → j ≢ hole' → count' j ≡ 0 → (count j ≡ 0) × (j ≢ hole))
      → (hole' < max_levels → member a.occupied hole' ≡ true)
      → SideHolds max_levels side (record a { levels = levels }) best count' total' hole'
  levels-Holds levels count' total' hole' cs ts less zeros bit = record {
    window = IsWindow-levels max_levels a levels h.window;
    is_top = IsTop-levels max_levels side a levels best h.is_top;
    counted = cs;
    totalled = ts;
    small = λ j lt. omega (arith, h.small j lt, less j lt);
    has_bit = λ j lt pos. h.has_bit j lt (omega (arith, less j lt));
    no_bit = λ j lt n z. let (was, other) = zeros j lt n z in h.no_bit j lt other was;
    hole_bit = bit;
  }

  -- An order more at level `i`, where the bits are those of before and that of `i`.
  bit-Holds :
      (i shares : ℕ) (count' total' : ℕ → ℕ) (u : PriceLevelArray)
      → u.base_price ≡ a.base_price
      → IsValid max_levels u.occupied
      → ((j : ℕ) → member u.occupied j ≡ (member a.occupied j || (j == i)))
      → ((j : ℕ)
          → u.levels j
            ≡ update a.levels i
                (record {
                  total_shares = add32 (a.levels i).total_shares shares;
                  order_count = add32 (a.levels i).order_count 1;
                })
                j)
      → i < max_levels
      → 0 < level_price a i
      → count i + 1 < u32_mod
      → ((j : ℕ) → count' j ≡ (if j == i then count j + 1 else count j))
      → ((j : ℕ) → total' j ≡ (if j == i then total j + shares else total j))
      → let price = level_price a i in
        SideHolds max_levels side u
          (if improves side price best then price else best)
          count'
          total'
          hole
  bit-Holds i shares count' total' u base valid bits levels lt pos room cs ts =
      let below : level_price a i < 2 ^ 32 - 1 = omega (arith, h.window.fits, h.window.on_tick) in
      record {
        window = record {
          on_tick = rw base h.window.on_tick;
          fits = rw base h.window.fits;
          valid = valid;
          positive = λ j bit. ground (arith, bits j, h.window.positive j);
        };
        is_top = IsTop-added max_levels side a u i best base bits pos below h.is_top;
        counted = λ j j_lt. ground (arith, levels j, cs j, h.counted j j_lt);
        totalled = λ j j_lt. ground (arith, levels j, ts j, h.totalled j j_lt);
        small = λ j j_lt. ground (arith, cs j, h.small j j_lt);
        has_bit = λ j j_lt p. ground (arith, bits j, cs j, h.has_bit j j_lt);
        no_bit = λ j j_lt n z. ground (arith, bits j, cs j, h.no_bit j j_lt n);
        hole_bit = λ x. ground (arith, bits hole, h.hole_bit x);
      }

  -- An order comes to rest at level `i`.
  pub rest-Holds :
      (i shares : ℕ) (count' total' : ℕ → ℕ)
      → i < max_levels
      → 0 < level_price a i
      → count i + 1 < u32_mod
      → ((j : ℕ) → count' j ≡ (if j == i then count j + 1 else count j))
      → ((j : ℕ) → total' j ≡ (if j == i then total j + shares else total j))
      → let price = level_price a i in
        SideHolds max_levels side
          (rest_levels a price shares)
          (if improves side price best then price else best)
          count'
          total'
          hole
  rest-Holds i shares count' total' lt pos room cs ts =
      rw
        (
          rest_levels-added a (level_price a i) shares,
          index_of-level_price max_levels a i h.window lt,
        )
        (elim (Bool-cases ((a.levels i).order_count == 0)) [
          | inl z ↦ rw z (
              bit-Holds i shares count' total' _ refl
                (set-IsValid max_levels a.occupied i h.window.valid lt)
                (λ j. member-set max_levels a.occupied i j h.window.valid lt) (λ j. refl) lt pos
                room cs ts)
          | inr n ↦
              let bit : member a.occupied i ≡ true =
                h.has_bit i lt (ground (arith, h.counted i lt)) in
              rw n (
                bit-Holds i shares count' total' _ refl h.window.valid (λ j. ground arith)
                  (λ j. refl) lt pos room cs ts)
        ])

  -- `shares` leave level `i`.
  pub take-Holds :
      (i shares : ℕ) (total' : ℕ → ℕ)
      → i < max_levels
      → hole ≡ max_levels
      → shares < u32_mod
      → (total' i + shares) % u32_mod ≡ total i % u32_mod
      → ((j : ℕ) → j ≢ i → total' j ≡ total j)
      → let lvl = at a (level_price a i) in
        SideHolds max_levels side
          (put a (level_price a i) (record lvl { total_shares = sub32 lvl.total_shares shares }))
          best
          count
          total'
          hole
  unfolding put at
  take-Holds i shares total' lt none_open fits at_i others =
      let idx = index_of-level_price max_levels a i h.window lt in
      let here : at a (level_price a i) ≡ a.levels i = ap a.levels idx in
      rw (here, idx)
        (levels-Holds _ count total' hole (λ j j_lt. ground (arith, h.counted j j_lt))
          (λ j j_lt. ground (arith, h.totalled j j_lt, others j, at_i)) (λ j j_lt. omega arith)
          (λ j j_lt n z. (z, n)) (λ x. omega arith))

  -- The count of level `i` goes down, and its bit may have to go.
  pub count_down-Holds :
      (i : ℕ) (count' : ℕ → ℕ)
      → i < max_levels
      → hole ≡ max_levels
      → count' i + 1 ≡ count i
      → ((j : ℕ) → j ≢ i → count' j ≡ count j)
      → let lvl = at a (level_price a i) in
        SideHolds max_levels side
          (put a (level_price a i) (record lvl { order_count = sub32 lvl.order_count 1 }))
          best
          count'
          total
          i
  unfolding put at
  count_down-Holds i count' lt none_open at_i others =
      let idx = index_of-level_price max_levels a i h.window lt in
      let here : at a (level_price a i) ≡ a.levels i = ap a.levels idx in
      rw (here, idx)
        (levels-Holds _ count' total i
          (λ j j_lt. ground (arith, h.counted j j_lt, h.small j j_lt, others j))
          (λ j j_lt. ground (arith, h.totalled j j_lt)) (λ j j_lt. ground (arith, others j))
          (λ j j_lt n z. (ground (arith, others j), omega arith))
          (λ x. h.has_bit i lt (omega arith)))

  -- A level that is empty loses its bit, and the top moves on if it was there.
  pub emptied-Holds :
      (i : ℕ)
      → i < max_levels
      → hole ≡ i
      → count i ≡ 0
      → let price = level_price a i in
        let u = mark_empty a price in
        SideHolds max_levels side u
          (if price == best then next_top side u price else best)
          count
          total
          max_levels
  emptied-Holds i lt gap z =
      let bits : (j : ℕ) → member (clear a.occupied i) j ≡ (member a.occupied j && not (j == i)) =
        λ j. member-clear max_levels a.occupied i j h.window.valid lt in
      let w : IsWindow max_levels (cleared a i) = record {
        on_tick = h.window.on_tick;
        fits = h.window.fits;
        valid = clear-IsValid max_levels a.occupied i h.window.valid lt;
        positive = λ j bit. ground (arith, bits j, h.window.positive j);
      } in
      let was : member a.occupied i ≡ true = ground (arith, h.hole_bit) in
      rw (mark_empty-cleared a (level_price a i), index_of-level_price max_levels a i h.window lt)
        (record {
          window = w;
          is_top =
              IsTop-cleared max_levels side a (cleared a i) i best _ refl bits was
                (next_top-Next max_levels side (cleared a i) i w lt) h.is_top;
          counted = h.counted;
          totalled = h.totalled;
          small = h.small;
          has_bit = λ j j_lt p. ground (arith, bits j, h.has_bit j j_lt);
          no_bit = λ j j_lt n e. ground (arith, bits j, h.no_bit j j_lt);
          hole_bit = λ x. ground arith;
        })

  -- A level that still has orders keeps its bit.
  pub kept-Holds :
      (i : ℕ) → hole ≡ i → 0 < count i → SideHolds max_levels side a best count total max_levels
  kept-Holds i gap pos = record {
    window = h.window;
    is_top = h.is_top;
    counted = h.counted;
    totalled = h.totalled;
    small = h.small;
    has_bit = h.has_bit;
    no_bit = λ j j_lt n z. h.no_bit j j_lt (λ e. ground arith) z;
    hole_bit = λ x. ground arith;
  }
