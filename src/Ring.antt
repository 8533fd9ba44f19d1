-- ===== src/Ring.antt =====
-- src/common/spsc_ring.hpp, `SpscRing<T, capacity>`: a ring between one producer and one consumer.
-- `head` and `tail` are free-running uint32_t counters, masked only when a slot is addressed.
-- Here each method runs alone; Ring/Threads interleaves the loads and stores of the two threads.
pub mod Queue
pub mod Refine
pub mod Threads
mod Tests
use low_latency_pipeline.Prelude.{
  ℕ, ◌+◌, ◌-◌, ◌%◌, ◌^◌, Bool, true, false, Option, none, some, ◌==◌, if◌then◌else◌, update,
}

-- Arithmetic on uint32_t.
abbrev pub u32_mod : ℕ
u32_mod = 2 ^ 32

abbrev pub add32 : ℕ → ℕ → ℕ
add32 a b = (a + b) % u32_mod

abbrev pub sub32 : ℕ → ℕ → ℕ
sub32 a b = (a + u32_mod - b) % u32_mod

-- The slots are an array of `capacity` places, addressed below `capacity` alone.
pub record SpscRing {ℓ} (A : Type ℓ) : Type ℓ where
  pub head : ℕ
  pub tail : ℕ
  pub slots : ℕ → A

abbrev pub empty_ring {ℓ} : {A : Type ℓ} → (ℕ → A) → SpscRing A
empty_ring slots = record { head = 0; tail = 0; slots = slots }

module _ {ℓ} {A : Type ℓ} where
  unfoldable pub publish : SpscRing A → SpscRing A
  publish r = record r { tail = add32 r.tail 1 }

  -- `*slot = item`
  unfoldable pub fill : SpscRing A → ℕ → A → SpscRing A
  fill r slot item = record r { slots = update r.slots slot item }

module _ {ℓ} {A : Type ℓ} (capacity : ℕ) where
  -- `&slots[write_idx & MASK]`: the claimed slot is its index. The capacity is a power of two, so
  -- the mask is the remainder.
  unfoldable pub try_claim : SpscRing A → Option ℕ
  try_claim r = if sub32 r.tail r.head == capacity then none else some (r.tail % capacity)

  unfoldable pub try_push : SpscRing A → A → Bool × SpscRing A
  try_push r item = elim (try_claim r) [
    | none ↦ (false, r)
    | some slot ↦ (true, publish (fill r slot item))
  ]

  unfoldable pub try_pop : SpscRing A → Option A × SpscRing A
  try_pop r =
      if r.tail == r.head
      then (none, r)
      else (some (r.slots (r.head % capacity)), record r { head = add32 r.head 1 })

  unfoldable pub size : SpscRing A → ℕ
  size r = sub32 r.tail r.head
