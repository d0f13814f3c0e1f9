-- ===== src/Ring/Refine.antt =====
-- The ring buffer against the bounded queue.
use native.Mathlib.Nat.{mod-add-mod, add-zero}
use kernel_net.Prelude.{
  ℕ, zero, suc, ◌+◌, ◌-◌, ◌%◌, ◌^◌, ◌<◌, ◌≡◌, ◌≢◌, refl, sym, ap, ap₂, ◌∙◌, true, false, not, inl,
  inr, Bool-cases, ltb, ◌==◌, List, [], ◌∷◌, ◌++◌, arith, add_size, sub_size, length, get_or, set,
  get_or_default, get_or-set_self, get_or-set_ne, two-pow-bounds, bit_and-size, mod_word, mod-ne,
}
use kernel_net.Ring.{SpscRingBuffer, Call, pushes, pops, slot, push, pop, run}
use kernel_net.Ring.Bounds.{count, IsValid, slot_bounds, push-IsValid, pop-IsValid}
use kernel_net.Ring.Queue

module _ {ℓ} {A : Type ℓ} (blank : A) where
  -- The `n` items from index `h` on.
  abbrev pub window : List A → ℕ → ℕ → ℕ → List A
  window buf p h zero = []
  window buf p h (suc n) = get_or buf (h % p) blank ∷ window buf p (h + 1) n

  abbrev pub contents : ℕ → SpscRingBuffer A → List A
  contents k r = window r.buffer (2 ^ k) r.read_idx (count r)

  length-window : (buf : List A) (p h n : ℕ) → length (window buf p h n) ≡ n
  length-window buf p h zero = refl
  length-window buf p h (suc n) = ap suc (length-window buf p (h + 1) n)

  window_congr : (buf : List A) (p g h n : ℕ) → g % p ≡ h % p → window buf p g n ≡ window buf p h n
  window_congr buf p g h zero e = refl
  window_congr buf p g h (suc n) e =
      ap₂ ◌∷◌ (ap (λ i. get_or buf i blank) e) (window_congr buf p (g + 1) (h + 1) n step)
    where
      step : (g + 1) % p ≡ (h + 1) % p
      step = sym (mod-add-mod g p 1) ∙ ap (λ (t : ℕ). (t + 1) % p) e ∙ mod-add-mod h p 1

  window_pos :
      (buf : List A) (p h n : ℕ)
      → 0 < n
      → window buf p h n ≡ get_or buf (h % p) blank ∷ window buf p (h + 1) (n - 1)
  window_pos buf p h zero pos = absurd (omega arith)
  window_pos buf p h (suc n) pos = ap (λ m. window buf p h (suc m)) (omega arith)

  -- A write just past a window extends it.
  window-set :
      (buf : List A) (p h n i : ℕ) (x : A)
      → p ≡ length buf
      → n < p
      → i ≡ (h + n) % p
      → window (set buf i x) p h (suc n) ≡ window buf p h n ++ x ∷ []
  window-set buf p h zero i x len lt e =
      rw (e, add-zero) (ap (λ y. y ∷ []) (get_or-set_self buf (h % p) x blank (omega arith)))
  window-set buf p h (suc n) i x len lt e =
      ap₂ ◌∷◌ (get_or-set_ne buf i (h % p) x blank ne)
        (window-set buf p (h + 1) n i x len (omega arith) (e ∙ ap (λ (t : ℕ). t % p) shift))
    where
      ne : i ≢ h % p
      ne = rw e (mod-ne p h (suc n) (omega arith) lt)

      shift : h + suc n ≡ h + 1 + n
      shift = omega arith

  -- The slot that `push` writes is the one just past the contents.
  slot-write :
      {k : ℕ} {r : SpscRingBuffer A}
      → IsValid k r
      → slot (2 ^ k) r.write_idx ≡ (r.read_idx + count r) % 2 ^ k
  slot-write {k} {r} v =
      bit_and-size k r.write_idx v.small
      ∙ ap (λ (t : ℕ). t % 2 ^ k) same
      ∙ mod_word k (r.read_idx + count r) (omega arith)
    where
      same : r.write_idx ≡ (r.read_idx + count r) % 2 ^ 64
      same = omega arith

  -- The test for room that `push` makes, against the length of the queue.
  room-push :
      {k : ℕ} {r : SpscRingBuffer A}
      → IsValid k r
      → ltb (length (contents k r)) (2 ^ k)
        ≡ not (ltb (2 ^ k) (sub_size (add_size r.write_idx 1) r.read_idx))
  room-push {k} {r} v =
      ground (arith, two-pow-bounds k, length-window r.buffer (2 ^ k) r.read_idx (count r))

  contents-push :
      {k : ℕ} {r : SpscRingBuffer A} (item : A)
      → IsValid k r
      → ltb (2 ^ k) (sub_size (add_size r.write_idx 1) r.read_idx) ≡ false
      → window
          (set r.buffer (slot (2 ^ k) r.write_idx) item)
          (2 ^ k)
          r.read_idx
          (sub_size (add_size r.write_idx 1) r.read_idx)
        ≡ contents k r ++ item ∷ []
  contents-push {k} {r} item v fits =
      ap (window (set r.buffer (slot (2 ^ k) r.write_idx) item) (2 ^ k) r.read_idx) grown
      ∙ window-set r.buffer (2 ^ k) r.read_idx (count r) (slot (2 ^ k) r.write_idx) item
          (sym v.storage) (ground (arith, two-pow-bounds k)) (slot-write v)
    where
      grown : sub_size (add_size r.write_idx 1) r.read_idx ≡ suc (count r)
      grown = ground (arith, two-pow-bounds k)

  -- `push` answers as the queue of at most `2 ^ k` items does, and stores the item at its end.
  pub push_refines :
      {k : ℕ} {r : SpscRingBuffer A} (item : A)
      → IsValid k r
      → let (done, r') = push (2 ^ k) item r in
        (done, contents k r') ≡ Queue.push (2 ^ k) item (contents k r)
  unfolding push Queue.push
  push_refines {k} {r} item v =
      elim (Bool-cases (ltb (2 ^ k) (sub_size (add_size r.write_idx 1) r.read_idx))) [
        | inl full ↦ rw (room-push v, full)
        | inr fits ↦ rw (room-push v, fits) (ap (λ q. (true, q)) (contents-push item v fits))
      ]

  contents-pop :
      {k : ℕ} {r : SpscRingBuffer A}
      → (item : A) → IsValid k r
      → (r.read_idx == r.write_idx) ≡ false
      → contents k r
        ≡ get_or r.buffer (slot (2 ^ k) r.read_idx) item
          ∷ contents k (record r { read_idx = add_size r.read_idx 1 })
  contents-pop {k} {r} item v some_left =
      window_pos r.buffer (2 ^ k) r.read_idx (count r) (ground arith) ∙ ap₂ ◌∷◌ first rest
    where
      first :
          get_or r.buffer (r.read_idx % 2 ^ k) blank
          ≡ get_or r.buffer (slot (2 ^ k) r.read_idx) item
      first =
          ap (λ (i : ℕ). get_or r.buffer i blank) (sym (bit_and-size k r.read_idx v.small))
          ∙ get_or_default r.buffer (slot (2 ^ k) r.read_idx) blank item (slot_bounds v).1

      left : count r - 1 ≡ sub_size r.write_idx (add_size r.read_idx 1)
      left = ground arith

      rest :
          window r.buffer (2 ^ k) (r.read_idx + 1) (count r - 1)
          ≡ contents k (record r { read_idx = add_size r.read_idx 1 })
      rest =
          ap (window r.buffer (2 ^ k) (r.read_idx + 1)) left
          ∙ window_congr r.buffer (2 ^ k) (r.read_idx + 1) (add_size r.read_idx 1) _
              (sym (mod_word k (r.read_idx + 1) (omega arith)))

  -- `pop` answers as the queue does, and leaves the rest of the queue.
  pub pop_refines :
      {k : ℕ} {r : SpscRingBuffer A} (item : A)
      → IsValid k r
      → let (done, x, r') = pop (2 ^ k) item r in
        (done, x, contents k r') ≡ Queue.pop item (contents k r)
  unfolding pop Queue.pop
  pop_refines {k} {r} item v = elim (Bool-cases (r.read_idx == r.write_idx)) [
    | inl drained ↦ rw (drained, no_items drained)
    | inr some_left ↦ rw (some_left, contents-pop item v some_left)
  ]
    where
      none_counted : (r.read_idx == r.write_idx) ≡ true → count r ≡ 0
      none_counted drained = ground arith

      no_items : (r.read_idx == r.write_idx) ≡ true → contents k r ≡ []
      no_items drained = ap (window r.buffer (2 ^ k) r.read_idx) (none_counted drained)

  -- No sequence of calls tells a valid ring buffer from the bounded queue of its items, also when
  -- an index wraps on the way.
  pub run_refines :
      (calls : List (Call A)) {k : ℕ} {r : SpscRingBuffer A}
      → IsValid k r
      → run (2 ^ k) r calls ≡ Queue.run (2 ^ k) (contents k r) calls
  unfolding run Queue.run
  run_refines [] v = refl
  run_refines (pushes x ∷ calls) v = rw (run_refines calls (push-IsValid x v), ← push_refines x v)
  run_refines (pops item ∷ calls) v =
      rw (run_refines calls (pop-IsValid item v), ← pop_refines item v)
