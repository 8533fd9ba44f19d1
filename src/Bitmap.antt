-- ===== src/Bitmap.antt =====
-- src/core/level_bitmap.hpp, `OccupancyBitmap<NBits>`: a set of bits as a tree of 64-bit words, with a
-- summary bit for each word in the tier above. The template recursion is a data type.
pub mod Member
pub mod Words
pub mod Update
pub mod Search
mod Tests
use Prim.Native.Nat.{bit_and, bit_or}
use low_latency_pipeline.Prelude.{
  ℕ, zero, suc, ◌+◌, ◌-◌, ◌*◌, ◌/◌, ◌%◌, ◌^◌, Bool, ◌||◌, ltb, leb, ◌==◌, if◌then◌else◌, update,
}
use low_latency_pipeline.Bits.{shl, complement}
use low_latency_pipeline.Bits.Scan.{ctz, clz}

-- BITMAP_NPOS, UINT32_MAX.
abbrev pub npos : ℕ
npos = 2 ^ 32 - 1

-- A leaf is one word. An interior node has `nwords` words and the bitmap of those that are not 0;
-- its words are an array that is addressed below `nwords`.
pub data OccupancyBitmap : Type 0 where
  leaf : (word : ℕ) → OccupancyBitmap
  interior : (nwords : ℕ) (words : ℕ → ℕ) (summary : OccupancyBitmap) → OccupancyBitmap

-- `OccupancyBitmap<nbits>{}`, with at most `tiers` interior tiers.
unfoldable pub fresh : (tiers nbits : ℕ) → OccupancyBitmap
fresh zero nbits = leaf 0
fresh (suc tiers) nbits =
    let summary = fresh tiers ((nbits + 63) / 64) in
    if leb nbits 64 then leaf 0 else interior ((nbits + 63) / 64) (λ k. 0) summary

unfoldable pub reset : OccupancyBitmap → OccupancyBitmap
reset (leaf word) = leaf 0
reset (interior nwords words summary) = interior nwords (λ k. 0) (reset summary)

-- `word |= 1 << i` and `word &= ~(1 << i)`.
unfoldable pub set_bit : ℕ → ℕ → ℕ
set_bit word i = bit_or word (shl 1 i)

unfoldable pub clear_bit : ℕ → ℕ → ℕ
clear_bit word i = bit_and word (complement (shl 1 i))

unfoldable pub set : OccupancyBitmap → ℕ → OccupancyBitmap
unfolding set_bit
set (leaf word) i = leaf (set_bit word i)
set (interior nwords words summary) i =
    interior nwords (update words (i / 64) (set_bit (words (i / 64)) (i % 64)))
      (set summary (i / 64))

unfoldable pub clear : OccupancyBitmap → ℕ → OccupancyBitmap
unfolding clear_bit
clear (leaf word) i = leaf (clear_bit word i)
clear (interior nwords words summary) i =
    let drained = clear_bit (words (i / 64)) (i % 64) in
    let rest = clear summary (i / 64) in
    interior nwords (update words (i / 64) drained) (if drained == 0 then rest else summary)

-- `word & (~0 << i)` keeps the bits from `i` on.
unfoldable pub from_bit : ℕ → ℕ → ℕ
from_bit word i = bit_and word (shl (complement 0) i)

-- The bits up to `i`, where `1 << (i + 1)` must not reach 64.
unfoldable pub upto_bit : ℕ → ℕ → ℕ
upto_bit word i = if leb 63 i then word else bit_and word (shl 1 (i + 1) - 1)

-- `(w << 6) | b` on uint32_t.
unfoldable pub join : ℕ → ℕ → ℕ
join w b = bit_or ((w * 64) % 2 ^ 32) b

unfoldable pub next_set : OccupancyBitmap → ℕ → ℕ
next_set (leaf word) i =
    let m = from_bit word i in if leb 64 i then npos else if m == 0 then npos else ctz m
next_set (interior nwords words summary) i =
    let w = i / 64 in
    let m = from_bit (words w) (i % 64) in
    let k = next_set summary (w + 1) in
    if leb nwords w
    then npos
    else if m == 0
    then (if k == npos then npos else join k (ctz (words k)))
    else join w (ctz m)

unfoldable pub prev_set : OccupancyBitmap → ℕ → ℕ
prev_set (leaf word) i = let m = upto_bit word i in if m == 0 then npos else 63 - clz m
prev_set (interior nwords words summary) i =
    let w = i / 64 in
    let m = upto_bit (words w) (i % 64) in
    let k = prev_set summary (w - 1) in
    if m == 0
    then (if w == 0 then npos else if k == npos then npos else join k (63 - clz (words k)))
    else join w (63 - clz m)
