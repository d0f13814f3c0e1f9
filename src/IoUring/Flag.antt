-- ===== src/IoUring/Flag.antt =====
-- The event loop and the flag `accept_pending_`, beside a kernel that completes every operation once.
use kernel_net.Prelude.{
  ℕ, zero, suc, ◌+◌, ◌≡◌, refl, sym, ap, ◌∙◌, subst, Bool, true, false, ◌||◌, List, [], ◌∷◌, ◌++◌,
  Option, none, some, ℤ, pos, negsuc, ◌>>=◌, arith, if◌then◌else◌,
}
use kernel_net.Uring.{Sqe, Cqe, Platform, is_errno}
use kernel_net.IoUring.{
  Request, Server, System, Turn, constructed, submit, for_each_cqe, renew_accept, phase_two, turn,
}
use kernel_net.IoUring.Owners.{times, uses}
use kernel_net.IoUring.Accepts.{bit, weigh, weigh_entries, weigh_entries-append, Waits, AllWait}
use kernel_net.IoUring.Pending.{submit_accept-Waits}
use kernel_net.IoUring.OneAccept.{for_each_cqe-Waits, renew_accept-Waits}
use kernel_net.IoUring.Often.{weigh_equal}
use kernel_net.IoUring.Loop.{
  pointers, entries, times-append, times-entries, Completes, Reach, begin, round, Owned-of,
  constructed-Owned, Reach-InFlight,
}

weigh-entries : (h : ℕ → Option Request) (es : List Sqe) → weigh h (entries es) ≡ weigh_entries h es
unfolding weigh weigh_entries
weigh-entries h [] = refl
weigh-entries h (e ∷ es) = omega (arith, weigh-entries h es)

-- The accepts that are prepared or in flight, against the flag.
abbrev pub Flagged : System → Type 0
Flagged s =
    weigh_entries s.server.heap s.server.sq + weigh_entries s.server.heap s.flying
    ≡ bit s.server.accept_pending

-- What a round must come to, with `left` still in flight; the inner `none` is the `break`.
abbrev Flags : List Sqe → Option (Option Turn) → Type 0
Flags left none = ⊥
Flags left (some none) = Unit
Flags left (some (some u)) = Flagged (record { server = u.server; flying = left ++ u.submitted })

module _ (os : Platform) where
  submits :
      (left : List Sqe) (r : Option Server)
      → AllWait r (entries left) 0
      → Flags left ((r >>= λ s. some (submit s)) >>= λ t. some (some t))
  unfolding submit weigh_entries
  submits left none ok = absurd ok
  submits left (some s) w =
      omega (arith, w.count, weigh_entries-append s.heap left s.sq, weigh-entries s.heap left)

  phase_two-Flags :
      (left : List Sqe) {s : Server}
      → Waits s (entries left) 0
      → Flags left (phase_two os s >>= λ t. some (some t))
  unfolding phase_two
  phase_two-Flags left {s} w = submits left (renew_accept os s) (renew_accept-Waits os w)

  after_cqes-Flags :
      (left : List Sqe) (r : Option Server)
      → AllWait r (entries left) 0
      → Flags left (r >>= λ s. phase_two os s >>= λ t. some (some t))
  after_cqes-Flags left none ok = absurd ok
  after_cqes-Flags left (some s) w = phase_two-Flags left w

  if-Flags :
      (b : Bool) (left : List Sqe) (x : Option (Option Turn))
      → Flags left x
      → Flags left (if b then x else some none)
  if-Flags true left x f = f
  if-Flags false left x f = tt

  -- Those in flight, in another order.
  Waits-of :
      {fd : ℤ} {s : System} (others : List ℕ)
      → Reach os fd s
      → Flagged s
      → ((p : ℕ) → uses p s.flying ≡ times p others)
      → Waits s.server others 0
  Waits-of {s = s} others reach flagged same = record {
    owned = Owned-of os others (Reach-InFlight os reach) same;
    count = omega (
      arith,
      flagged,
      weigh-entries s.server.heap s.flying,
      weigh_equal s.server.heap others (entries s.flying)
          (λ p. sym (same p) ∙ sym (times-entries p s.flying)),
    );
  }

  turn-Flags :
      {fd : ℤ} {s : System} (ret : ℤ) (cqes : List Cqe) (left : List Sqe)
      → Reach os fd s
      → Flagged s
      → Completes s.flying ret cqes left
      → Flags left (turn os ret cqes s.server)
  unfolding turn
  turn-Flags {s = s} (pos zero) cqes left reach f c =
      after_cqes-Flags left (for_each_cqe os cqes s.server) (
        for_each_cqe-Waits os (entries left) cqes (
          Waits-of (pointers cqes ++ entries left) reach f (λ p.
            omega
              (arith, c p, times-append p (pointers cqes) (entries left), times-entries p left))))
  turn-Flags (pos (suc n)) cqes left reach f c =
      phase_two-Flags left (
        Waits-of (entries left) reach f (λ p. omega (arith, times-entries p left, ap (uses p) c.1)))
  turn-Flags (negsuc n) cqes left reach f c =
      if-Flags (is_errno n os.etime || is_errno n os.eintr) left _ (
        phase_two-Flags left (
          Waits-of (entries left) reach f
            (λ p. omega (arith, times-entries p left, ap (uses p) c.1))))

  constructed-Waits : (listen_fd : ℤ) → Waits (constructed listen_fd) [] 0
  unfolding constructed weigh weigh_entries
  constructed-Waits listen_fd = record { owned = constructed-Owned os listen_fd; count = refl }

  starts-Flagged :
      {s : Server} → AllWait (some s) [] 0 → Flagged (record { server = s; flying = [] })
  unfolding weigh weigh_entries
  starts-Flagged w = omega (arith, w.count)

  -- When the kernel completes each operation once: in every state of the loop the flag is true
  -- exactly when a request that waits for a connection is prepared or in flight, and there is never
  -- more than one.
  pub Reach-Flagged : {fd : ℤ} {s : System} → Reach os fd s → Flagged s
  unfolding constructed
  Reach-Flagged {fd} (begin {s} e) =
      starts-Flagged
        (subst (λ r. AllWait r [] 0) e (submit_accept-Waits os (constructed-Waits fd) refl))
  Reach-Flagged (round ret cqes left reach c e) =
      subst (Flags left) e (turn-Flags ret cqes left reach (Reach-Flagged reach) c)
