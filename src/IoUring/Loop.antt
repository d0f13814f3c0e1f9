-- ===== src/IoUring/Loop.antt =====
-- The event loop beside a kernel that completes every operation once.
use kernel_net.Prelude.{
  ℕ, zero, suc, ◌+◌, ◌≤◌, ◌≡◌, ◌≢◌, refl, ap, subst, Bool, true, false, ◌||◌, List, [], ◌∷◌, ◌++◌,
  Option, none, some, ℤ, pos, negsuc, ◌>>=◌, arith, map, if◌then◌else◌,
}
use kernel_net.Uring.{Sqe, Cqe, Platform, is_errno}
use kernel_net.IoUring.{
  Server, System, Turn, constructed, submit_accept, submit, for_each_cqe, renew_accept, phase_two,
  turn,
}
use kernel_net.IoUring.Owners.{times, uses, uses-append, alive, Owned, Succeeds}
use kernel_net.IoUring.Handlers.{submit_accept-Owned, for_each_cqe-Owned, renew_accept-Owned}

abbrev pub pointers : List Cqe → List ℕ
pointers = map (λ c. c.request)

-- What a round may find, with `flying` in flight: each operation completes once or stays among
-- `left`. Only a wait that returns 0 hands completions over.
abbrev pub Completes : List Sqe → ℤ → List Cqe → List Sqe → Type 0
Completes flying (pos zero) cqes left =
    (p : ℕ) → uses p flying ≡ times p (pointers cqes) + uses p left
Completes flying ret cqes left = (cqes ≡ []) × (left ≡ flying)

-- States at the head of the loop.
pub data Reach (os : Platform) (listen_fd : ℤ) : System → Type 0 where
  begin :
      {s : Server}
      → submit_accept os (constructed listen_fd) ≡ some s
      → Reach os listen_fd (record { server = s; flying = [] })
  round :
      {s : System} {u : Turn} (ret : ℤ) (cqes : List Cqe) (left : List Sqe)
      → Reach os listen_fd s
      → Completes s.flying ret cqes left
      → turn os ret cqes s.server ≡ some (some u)
      → Reach os listen_fd (record { server = u.server; flying = left ++ u.submitted })

-- Every allocated request is in exactly one entry, prepared or in flight; no entry carries the
-- pointer of a request that is not allocated.
pub record InFlight (s : System) : Type 0 where
  pub once : (p : ℕ) → uses p s.server.sq + uses p s.flying ≡ alive (s.server.heap p)
  pub fresh : (p : ℕ) → s.server.next ≤ p → s.server.heap p ≡ none

abbrev pub entries : List Sqe → List ℕ
entries = map (λ e. e.request)

pub times-append : (p : ℕ) (xs ys : List ℕ) → times p (xs ++ ys) ≡ times p xs + times p ys
unfolding times
times-append p [] ys = omega arith
times-append p (x ∷ xs) ys = omega (arith, times-append p xs ys)

pub times-entries : (p : ℕ) (es : List Sqe) → times p (entries es) ≡ uses p es
unfolding times uses
times-entries p [] = refl
times-entries p (e ∷ es) = omega (arith, times-entries p es)

-- What a round must come to, with `left` still in flight; the inner `none` is the `break`.
abbrev Fits : List Sqe → Option (Option Turn) → Type 0
Fits left none = ⊥
Fits left (some none) = Unit
Fits left (some (some u)) = InFlight (record { server = u.server; flying = left ++ u.submitted })

module _ (os : Platform) where
  -- Phase 2 hands every prepared entry to the kernel.
  submits :
      (left : List Sqe) (r : Option Server)
      → Succeeds r (entries left)
      → Fits left ((r >>= λ s. some (submit s)) >>= λ t. some (some t))
  unfolding submit uses
  submits left none ok = absurd ok
  submits left (some s) o = record {
    once = λ p. omega (arith, o.owned p, uses-append p left s.sq, times-entries p left);
    fresh = o.fresh;
  }

  phase_two-Fits :
      (left : List Sqe) {s : Server}
      → Owned s (entries left)
      → Fits left (phase_two os s >>= λ t. some (some t))
  unfolding phase_two
  phase_two-Fits left {s} o = submits left (renew_accept os s) (renew_accept-Owned os o)

  after_cqes-Fits :
      (left : List Sqe) (r : Option Server)
      → Succeeds r (entries left)
      → Fits left (r >>= λ s. phase_two os s >>= λ t. some (some t))
  after_cqes-Fits left none ok = absurd ok
  after_cqes-Fits left (some s) o = phase_two-Fits left o

  pub Owned-of :
      {s : System} (others : List ℕ)
      → InFlight s
      → ((p : ℕ) → uses p s.flying ≡ times p others)
      → Owned s.server others
  Owned-of others f same = record { owned = λ p. omega (arith, f.once p, same p); fresh = f.fresh }

  if-Fits :
      (b : Bool) (left : List Sqe) (x : Option (Option Turn))
      → Fits left x
      → Fits left (if b then x else some none)
  if-Fits true left x f = f
  if-Fits false left x f = tt

  turn-Fits :
      {s : System} (ret : ℤ) (cqes : List Cqe) (left : List Sqe)
      → InFlight s
      → Completes s.flying ret cqes left
      → Fits left (turn os ret cqes s.server)
  unfolding turn
  turn-Fits {s} (pos zero) cqes left f c = after_cqes-Fits left (for_each_cqe os cqes s.server) (
      for_each_cqe-Owned os (entries left) cqes (
        Owned-of (pointers cqes ++ entries left) f (λ p.
          omega (arith, c p, times-append p (pointers cqes) (entries left), times-entries p left))))
  turn-Fits {s} (pos (suc n)) cqes left f c =
      phase_two-Fits left
        (Owned-of (entries left) f (λ p. omega (arith, times-entries p left, ap (uses p) c.1)))
  turn-Fits {s} (negsuc n) cqes left f c =
      if-Fits (is_errno n os.etime || is_errno n os.eintr) left _ (
        phase_two-Fits left
          (Owned-of (entries left) f (λ p. omega (arith, times-entries p left, ap (uses p) c.1))))

  pub constructed-Owned : (listen_fd : ℤ) → Owned (constructed listen_fd) []
  unfolding constructed times uses
  constructed-Owned listen_fd = record { owned = λ p. refl; fresh = λ p h. refl }

  -- When the kernel completes each operation once: in every state of the loop, each request that is
  -- allocated is in exactly one entry, prepared or in flight, and each such entry carries the
  -- pointer of a request that is allocated. No request leaks, and none is shared.
  pub Reach-InFlight : {fd : ℤ} {s : System} → Reach os fd s → InFlight s
  unfolding times uses
  Reach-InFlight {fd} (begin {s} e) =
      let o = subst (λ r. Succeeds r []) e (submit_accept-Owned os (constructed-Owned fd)) in
      record { once = o.owned; fresh = o.fresh }
  Reach-InFlight (round ret cqes left reach c e) =
      subst (Fits left) e (turn-Fits ret cqes left (Reach-InFlight reach) c)

  -- When the kernel completes each operation once, no round of the loop uses or releases a request
  -- that is not allocated, whatever the results of the wait and of the operations.
  pub turn_is_defined :
      {fd : ℤ} {s : System} (ret : ℤ) (cqes : List Cqe) (left : List Sqe)
      → Reach os fd s
      → Completes s.flying ret cqes left
      → turn os ret cqes s.server ≢ none
  turn_is_defined ret cqes left reach c e =
      subst (Fits left) e (turn-Fits ret cqes left (Reach-InFlight reach) c)
