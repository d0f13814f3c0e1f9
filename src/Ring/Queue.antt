-- ===== src/Ring/Queue.antt =====
-- What a ring buffer promises: a first-in first-out queue of at most `size` items, oldest first.
use kernel_net.Prelude.{ℕ, Bool, true, false, List, [], ◌∷◌, ◌++◌, ltb, if◌then◌else◌, length}
use kernel_net.Ring.{Call, Reply, pushes, pops, pushed, popped}

module _ {ℓ} {A : Type ℓ} where
  unfoldable pub pop : A → List A → Bool × A × List A
  pop item [] = (false, item, [])
  pop item (x ∷ q) = (true, x, q)

  unfoldable pub push : ℕ → A → List A → Bool × List A
  push size x q = if ltb (length q) size then (true, q ++ x ∷ []) else (false, q)

  unfoldable pub run : ℕ → List A → List (Call A) → List (Reply A)
  run size q [] = []
  run size q (pushes x ∷ calls) = let (done, q') = push size x q in pushed done ∷ run size q' calls
  run size q (pops item ∷ calls) =
      let (done, v, q') = pop item q in popped done v ∷ run size q' calls
