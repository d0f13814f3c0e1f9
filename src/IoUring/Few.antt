-- ===== src/IoUring/Few.antt =====
-- When the submission queue of the io_uring server does not run full.
use kernel_net.Prelude.{
  ℕ, zero, suc, ◌+◌, ◌≤◌, ◌<◌, ◌≡◌, ◌∙◌, true, List, [], ◌∷◌, Option, none, some, ℤ, pos, negsuc,
  ltb, length, arith,
}
use kernel_net.Uring.{Cqe, Platform}
use kernel_net.IoUring.{Server, System, handle_cqe}
use kernel_net.IoUring.Loop.{Reach, begin, round}
use kernel_net.IoUring.Room.{OnResult, AlwaysLeft, RoundLeft, Roomy}
use kernel_net.IoUring.Prepared.{Prepared, handle_cqe-Prepared, Reach-Prepared}

below : {m n : ℕ} → m < n → ltb m n ≡ true
below {m} {n} less = ground (arith, less)

module _ (os : Platform) where
  always_left :
      (depth : ℕ) (cqes : List Cqe) (n : ℕ) (s : Server)
      → ((m : ℕ) → os.sqe_left m ≡ ltb m depth)
      → Prepared n s
      → n + length cqes < depth
      → AlwaysLeft os cqes s
  always_left depth [] n s ring few room = ring (length s.sq) ∙ below (omega (arith, few, room))
  always_left depth (c ∷ cqes) n s ring few room = (
    ring (length s.sq) ∙ below (omega (arith, few, room)),
    after (handle_cqe os c s) (handle_cqe-Prepared os n c s few)
        (λ t fewer. always_left depth cqes (suc n) t ring fewer (omega (arith, room))),
  )
    where
      after :
          (o : Option Server)
          → OnResult (Prepared (suc n)) o
          → ((t : Server) → Prepared (suc n) t → AlwaysLeft os cqes t)
          → OnResult (AlwaysLeft os cqes) o
      after none few later = tt
      after (some t) few later = later t few

  -- No round hands over more than so many completions.
  abbrev FewEach : ℕ → {fd : ℤ} {s : System} → Reach os fd s → Type 0
  FewEach bound (begin e) = Unit
  FewEach bound (round ret cqes left reach c e) = FewEach bound reach × (length cqes ≤ bound)

  round_left :
      (depth : ℕ) (ret : ℤ) (cqes : List Cqe) (s : Server)
      → ((m : ℕ) → os.sqe_left m ≡ ltb m depth)
      → Prepared 1 s
      → 1 + length cqes < depth
      → RoundLeft os ret cqes s
  round_left depth (pos zero) cqes s ring few room = always_left depth cqes 1 s ring few room
  round_left depth (pos (suc n)) cqes s ring few room =
      always_left depth [] 1 s ring few (omega (arith, room))
  round_left depth (negsuc n) cqes s ring few room =
      always_left depth [] 1 s ring few (omega (arith, room))

  -- Where `io_uring_get_sqe` returns an entry while fewer than `depth` are prepared, in every run of the
  -- io_uring event loop whose rounds hand over at most `bound` completions, `bound` + 2 ≤ `depth`:
  -- the submission queue always has an entry left, for the first accept, before each completion is
  -- handled and before each renewal of the accept. For the program's ring of 256 entries the bound
  -- is 254.
  pub few_completions-Roomy :
      (depth bound : ℕ)
      → bound + 2 ≤ depth
      → ((m : ℕ) → os.sqe_left m ≡ ltb m depth)
      → {fd : ℤ} {s : System} (reach : Reach os fd s) → FewEach bound reach
      → Roomy reach
  unfolding Roomy
  few_completions-Roomy depth bound deep ring (begin e) few = ring 0 ∙ below (omega (arith, deep))
  few_completions-Roomy depth bound deep ring (round {s} ret cqes left reach c e) (before, few) = (
    few_completions-Roomy depth bound deep ring reach before,
    round_left depth ret cqes s.server ring (Reach-Prepared os reach) (omega (arith, few, deep)),
  )
