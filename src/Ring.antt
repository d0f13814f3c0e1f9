-- ===== src/Ring.antt =====
-- ring_buffer.cc: the single-producer single-consumer ring buffer, as a sequence of calls.
-- A thread that uses both ends, or two threads whose calls do not overlap, see this.
pub mod Queue
pub mod Bounds
pub mod Refine
pub mod Size
pub mod Demo
mod Tests
use kernel_net.Prelude.{
  ℕ, ◌≡◌, Bool, true, false, List, [], ◌∷◌, Option, none, some, bit_and, add_size, sub_size, ltb,
  ◌==◌, if◌then◌else◌, get_or, set, replicate,
}

-- `std::atomic<size_t>` indices count all calls since the start, and wrap at 2 ^ 64.
pub record SpscRingBuffer {ℓ} (A : Type ℓ) : Type ℓ where
  pub write_idx : ℕ
  pub read_idx : ℕ
  pub buffer : List A

-- `(Size & (Size - 1)) == 0`, the `static_assert`
unfoldable pub size_accepted : ℕ → Bool
size_accepted size = bit_and size (sub_size size 1) == 0

-- `size` is the template argument `Size`. The place of an index in the vector:
abbrev pub slot : ℕ → ℕ → ℕ
slot size i = bit_and i (sub_size size 1)

-- A client's calls in order, and what each returns. A `pop` is given the variable to overwrite.
pub data Call {ℓ} (A : Type ℓ) : Type ℓ where
  pushes : A → Call A
  pops : A → Call A

pub data Reply {ℓ} (A : Type ℓ) : Type ℓ where
  pushed : Bool → Reply A
  popped : Bool → A → Reply A

module _ {ℓ} {A : Type ℓ} (size : ℕ) where
  -- `buffer(Size)` value-initialises `Size` elements, to `blank`.
  unfoldable pub init : A → SpscRingBuffer A
  init blank = record { write_idx = 0; read_idx = 0; buffer = replicate size blank }

  unfoldable pub push : A → SpscRingBuffer A → Bool × SpscRingBuffer A
  push item r =
      let current_write = r.write_idx in
      let next_write = add_size current_write 1 in
      if ltb size (sub_size next_write r.read_idx) then (false, r) else (
        true,
        record r { buffer = set r.buffer (slot size current_write) item; write_idx = next_write },
      )

  -- `item` is both argument and result: it keeps its value when the call fails. A read out of
  -- bounds would be undefined; `Ring.Bounds` excludes it.
  unfoldable pub pop : A → SpscRingBuffer A → Bool × A × SpscRingBuffer A
  pop item r =
      let current_read = r.read_idx in
      if current_read == r.write_idx then (false, item, r) else (
        true,
        get_or r.buffer (slot size current_read) item,
        record r { read_idx = add_size current_read 1 },
      )

  unfoldable pub run : SpscRingBuffer A → List (Call A) → List (Reply A)
  run r [] = []
  run r (pushes x ∷ calls) = let (done, r') = push x r in pushed done ∷ run r' calls
  run r (pops item ∷ calls) = let (done, v, r') = pop item r in popped done v ∷ run r' calls
