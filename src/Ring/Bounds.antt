-- ===== src/Ring/Bounds.antt =====
-- The representation invariant: at most `Size` items between the two indices, which wrap.
use kernel_net.Prelude.{
  ℕ, ◌^◌, ◌≤◌, ◌<◌, ◌≡◌, arith, sub_size, length, length-set, length-replicate, two-pow-bounds,
  bit_and-size,
}
use kernel_net.Ring.{SpscRingBuffer, init, slot, push, pop}

module _ {ℓ} {A : Type ℓ} where
  -- The number of items in the buffer.
  abbrev pub count : SpscRingBuffer A → ℕ
  count r = sub_size r.write_idx r.read_idx

  -- `Size` is `2 ^ k`.
  pub record IsValid (k : ℕ) (r : SpscRingBuffer A) : Type 0 where
    pub small : k ≤ 63
    pub write_word : r.write_idx < 2 ^ 64
    pub read_word : r.read_idx < 2 ^ 64
    pub fits : count r ≤ 2 ^ k
    pub storage : length r.buffer ≡ 2 ^ k

  -- Both slots that the next calls would touch lie inside the vector.
  pub slot_bounds :
      {k : ℕ} {r : SpscRingBuffer A}
      → IsValid k r
      → (slot (2 ^ k) r.write_idx < length r.buffer) × (slot (2 ^ k) r.read_idx < length r.buffer)
  slot_bounds {k} {r} v = omega (
    arith,
    bit_and-size k r.write_idx v.small,
    bit_and-size k r.read_idx v.small,
    two-pow-bounds k v.small,
  )

  -- The constructor's buffer is valid and empty.
  pub init-IsValid :
      (k : ℕ) (blank : A)
      → k ≤ 63
      → IsValid k (init (2 ^ k) blank) × (count (init (2 ^ k) blank) ≡ 0)
  unfolding init
  init-IsValid k blank h = ground (arith, length-replicate (2 ^ k) blank)

  -- `push` keeps the buffer valid, whether it stores the item or refuses it.
  pub push-IsValid :
      {k : ℕ} {r : SpscRingBuffer A} (item : A) → IsValid k r → IsValid k (push (2 ^ k) item r).1
  unfolding push
  push-IsValid {k} {r} item v =
      ground (arith, length-set r.buffer (slot (2 ^ k) r.write_idx) item, two-pow-bounds k)

  -- `pop` keeps the buffer valid.
  pub pop-IsValid :
      {k : ℕ} {r : SpscRingBuffer A} (item : A) → IsValid k r → IsValid k (pop (2 ^ k) item r).2
  unfolding pop
  pop-IsValid {k} {r} item v = ground (arith, two-pow-bounds k)
