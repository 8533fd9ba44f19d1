-- ===== src/Update/Frame.antt =====
-- The frame carries the best levels of the book, as a second walk at the frame's depth would.
use low_latency_pipeline.Prelude.{
  ℕ, zero, suc, ◌<◌, ◌≤◌, ◌≡◌, refl, ap, ◌∙◌, Bool-cases, inl, inr, List, [], ◌∷◌, length, map,
  arith, ◌==◌,
}
use low_latency_pipeline.Event.{Event, Side, sell, buy}
use low_latency_pipeline.Levels.{PriceLevelArray, at}
use low_latency_pipeline.Book.{OrderBook, Level, Trade, walk, next_top, no_ask, top_bids, top_asks}
use low_latency_pipeline.Update.{
  BookSnapshot, MarketUpdate, FrameLevel, overwrite, capture, build_market_update, copy_levels,
  widen, min,
}

-- The first `n` places of an array.
abbrev pub counted {ℓ} : {A : Type ℓ} → (n : ℕ) → (ℕ → A) → List A
counted zero out = []
counted (suc n) out = out 0 ∷ counted n (λ i. out (suc i))

abbrev pub take {ℓ} : {A : Type ℓ} → ℕ → List A → List A
take zero xs = []
take (suc n) [] = []
take (suc n) (x ∷ xs) = x ∷ take n xs

counted-ext {ℓ} :
    {A : Type ℓ} (n : ℕ) (f g : ℕ → A) → ((i : ℕ) → i < n → f i ≡ g i) → counted n f ≡ counted n g
counted-ext zero f g same = refl
counted-ext (suc n) f g same = cc (
  same 0 (omega arith),
  counted-ext n (λ i. f (suc i)) (λ i. g (suc i)) (λ i lt. same (suc i) (omega arith)),
)

counted-map {ℓ κ} :
    {A : Type ℓ} {B : Type κ} (h : A → B) (n : ℕ) (f : ℕ → A)
    → counted n (λ i. h (f i)) ≡ map h (counted n f)
counted-map h zero f = refl
counted-map h (suc n) f = ap (λ x. h (f 0) ∷ x) (counted-map h n (λ i. f (suc i)))

counted-overwrite {ℓ} :
    {A : Type ℓ} (k : ℕ) (xs : List A) (out : ℕ → A)
    → counted (min (length xs) k) (overwrite xs out) ≡ take k xs
counted-overwrite zero xs out = let e : min (length xs) 0 ≡ 0 = ground arith in rw e refl
counted-overwrite (suc k) [] out = let e : min 0 (suc k) ≡ 0 = ground arith in rw e refl
counted-overwrite (suc k) (x ∷ xs) out =
    let e : min (suc (length xs)) (suc k) ≡ suc (min (length xs) k) = ground arith in
    rw e (ap (λ y. x ∷ y) (counted-overwrite k xs (λ j. out (suc j))))

-- The level that a walk emits at a price.
abbrev level : PriceLevelArray → (price : ℕ) → Level
level a price =
    let lvl = at a price in
    record { price = price; shares = lvl.total_shares; order_count = lvl.order_count }

-- A walk cut short is the walk to that depth.
take-walk :
    (side : Side) (a : PriceLevelArray) (k n price : ℕ)
    → k ≤ n
    → take k (walk side a price n) ≡ walk side a price k
unfolding walk
take-walk side a zero n price le = refl
take-walk side a (suc k) zero price le = ground arith
take-walk buy a (suc k) (suc n) price le = elim (Bool-cases (price == 0)) [
  | inl stop ↦ rw stop refl
  | inr go ↦
      rw go (ap (λ x. level a price ∷ x) (take-walk buy a k n (next_top buy a price) (omega arith)))
]
take-walk sell a (suc k) (suc n) price le = elim (Bool-cases (price == no_ask)) [
  | inl stop ↦ rw stop refl
  | inr go ↦
      rw go
        (ap (λ x. level a price ∷ x) (take-walk sell a k n (next_top sell a price) (omega arith)))
]

copied :
    (k : ℕ) (xs : List Level) (out : ℕ → Level) (frame : ℕ → FrameLevel)
    → let n = min (length xs) k in
      counted n (copy_levels n (overwrite xs out) frame) ≡ map widen (take k xs)
unfolding copy_levels
copied k xs out frame =
    counted-ext _ _ (λ i. widen (overwrite xs out i)) (λ i lt. ground arith)
    ∙ counted-map widen _ (overwrite xs out)
    ∙ ap (map widen) (counted-overwrite k xs out)

-- Where the snapshot is at least as deep as the frame, the counted levels of the frame are those
-- that a walk of the book to the frame's depth would give, on both sides, whatever the snapshot
-- and the frame held before.
pub build_market_update-walk :
    (depth exec_depth : ℕ) (old : BookSnapshot) (book : OrderBook) (symbol : List ℕ) (event_seq : ℕ)
    (mu : MarketUpdate) (ev : Event) (trade : Trade) (instrument extra_flags : ℕ)
    → exec_depth ≤ depth
    → let snap = capture depth old book symbol event_seq in
      let frame = build_market_update exec_depth mu ev snap trade instrument extra_flags in
      (counted frame.nb frame.bids ≡ map widen (top_bids book exec_depth))
      × (counted frame.na frame.asks ≡ map widen (top_asks book exec_depth))
unfolding capture build_market_update top_bids top_asks
build_market_update-walk depth exec_depth old book symbol event_seq mu ev trade instrument
      extra_flags deep =
    (
      copied exec_depth (top_bids book depth) old.bids mu.bids
          ∙ ap (map widen) (take-walk buy book.bids exec_depth depth book.tob.best_bid deep),
      copied exec_depth (top_asks book depth) old.asks mu.asks
          ∙ ap (map widen) (take-walk sell book.asks exec_depth depth book.tob.best_ask deep),
    )
