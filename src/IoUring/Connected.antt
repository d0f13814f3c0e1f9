-- ===== src/IoUring/Connected.antt =====
-- The clients of the event loop: each descriptor that accept returned is closed once or in one request.
use kernel_net.Prelude.{
  ℕ, zero, suc, ◌+◌, ◌≡◌, refl, subst, Bool, true, false, ◌||◌, List, Option, none, some, ℤ, pos,
  negsuc, ◌>>=◌, total, total-const_zero, arith, if◌then◌else◌,
}
use kernel_net.Uring.{Cqe, Platform, is_errno}
use kernel_net.IoUring.{
  Server, System, Turn, constructed, submit, for_each_cqe, renew_accept, phase_two, turn,
}
use kernel_net.IoUring.Loop.{Reach, begin, round}
use kernel_net.IoUring.Room.{Left, RoundLeft, OnResult, Roomy, room_after}
use kernel_net.IoUring.Tally.{holds, closings, Tallied, Tallies}
use kernel_net.IoUring.Tallies.{same-Tallied}
use kernel_net.IoUring.Arrivals.{
  arrivals, NotAgain, for_each_cqe-Tallies, submit_accept-Tallies, renew_accept-Tallies,
}

-- What a round brings; only a wait that returns 0 hands completions over.
abbrev pub found : Platform → ℕ → ℤ → List Cqe → Server → ℕ
found os k (pos zero) cqes s = arrivals os k cqes s
found os k ret cqes s = 0

-- How often accept has returned descriptor `k` in a run.
unfoldable pub connects : {os : Platform} {fd : ℤ} {s : System} → Reach os fd s → ℕ → ℕ
connects (begin e) k = 0
connects {os} (round {s} ret cqes left reach c e) k =
    connects reach k + found os k ret cqes s.server

-- A run in which no operation fails with EAGAIN.
unfoldable pub Calm : {os : Platform} {fd : ℤ} {s : System} → Reach os fd s → Type 0
Calm (begin e) = Unit
Calm {os} (round ret cqes left reach c e) = Calm reach × NotAgain os cqes

abbrev TurnTallies : Option (Option Turn) → (ℕ → ℕ) → Type 0
TurnTallies none m = Unit
TurnTallies (some none) m = Unit
TurnTallies (some (some u)) m = Tallied u.server m

module _ (os : Platform) where
  submits :
      (o : Option Server) (m : ℕ → ℕ)
      → Tallies o m
      → TurnTallies ((o >>= λ s. some (submit s)) >>= λ t. some (some t)) m
  unfolding submit
  submits none m t = tt
  submits (some s) m t = record { fresh = t.fresh; tally = t.tally }

  phase_two-Tallies :
      {s : Server} {m : ℕ → ℕ}
      → Left os s
      → Tallied s m
      → TurnTallies (phase_two os s >>= λ t. some (some t)) m
  unfolding phase_two
  phase_two-Tallies {s} {m} left t = submits (renew_accept os s) m (renew_accept-Tallies os left t)

  after_cqes :
      (o : Option Server) (m : ℕ → ℕ)
      → OnResult (Left os) o
      → Tallies o m
      → TurnTallies (o >>= λ s. phase_two os s >>= λ t. some (some t)) m
  after_cqes none m left t = tt
  after_cqes (some s) m left t = phase_two-Tallies left t

  turn-Tallies :
      {s : Server} {m : ℕ → ℕ} (ret : ℤ) (cqes : List Cqe)
      → RoundLeft os ret cqes s
      → Tallied s m
      → NotAgain os cqes
      → TurnTallies (turn os ret cqes s) (λ k. m k + found os k ret cqes s)
  unfolding turn
  turn-Tallies {s} {m} (pos zero) cqes left t calm =
      after_cqes (for_each_cqe os cqes s) _ (room_after os cqes s left)
        (for_each_cqe-Tallies os cqes left t calm)
  turn-Tallies (pos (suc n)) cqes left t calm =
      phase_two-Tallies left (same-Tallied t (λ k. omega arith))
  turn-Tallies {s} {m} (negsuc n) cqes left t calm =
      either (is_errno n os.etime || is_errno n os.eintr)
    where
      either :
          (b : Bool)
          → TurnTallies
              (if b then (phase_two os s >>= λ t. some (some t)) else some none)
              (λ k. m k + 0)
      either true = phase_two-Tallies left (same-Tallied t (λ k. omega arith))
      either false = tt

  constructed-Tallied : (fd : ℤ) → Tallied (constructed fd) (λ _. 0)
  unfolding constructed closings
  constructed-Tallied fd = record {
    fresh = λ p h. refl;
    tally = λ k. omega (arith, total-const_zero (holds k) 0 none refl);
  }

  Reach-Tallied :
      {fd : ℤ} {s : System} (reach : Reach os fd s)
      → Roomy reach
      → Calm reach
      → Tallied s.server (connects reach)
  unfolding connects Calm Roomy constructed
  Reach-Tallied {fd} (begin e) room calm =
      subst (λ o. Tallies o (λ _. 0)) e (submit_accept-Tallies os room (constructed-Tallied fd))
  Reach-Tallied (round {s = before} ret cqes left reach c e) (room, now) (calm, not_again) =
      subst (λ o. TurnTallies o (λ k. connects reach k + found os k ret cqes before.server)) e
        (turn-Tallies ret cqes now (Reach-Tallied reach room calm) not_again)

  -- In every run of the io_uring event loop in which the submission queue has an entry left for the
  -- first accept, before each completion is handled and before each renewal of the accept, and in
  -- which no operation fails with EAGAIN: a descriptor that accept has returned so many times has
  -- been closed, or is held by an allocated request, as many times together. So no client's descriptor leaks, and none is
  -- closed twice.
  pub connected_once :
      {fd : ℤ} {s : System} (reach : Reach os fd s) (k : ℕ)
      → Roomy reach
      → Calm reach
      → closings k s.server.closed + total (holds k) s.server.next s.server.heap ≡ connects reach k
  connected_once reach k room calm = (Reach-Tallied reach room calm).tally k
