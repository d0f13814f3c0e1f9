-- ===== src/IoUringZc/Run/Same.antt =====
-- The whole run of the zero-copy server beside that of the io_uring server.
use mathlib.Core.List.{map-append}
use kernel_net.Prelude.{
  ◌≡◌, refl, sym, ap, subst, ◌∙◌, Bool, true, false, List, [], ◌∷◌, Option, none, some, ℤ, ◌>>=◌,
  if◌then◌else◌, map,
}
use kernel_net.Uring.{Sqe, Platform}
use kernel_net.IoUring
use kernel_net.IoUringZc
use kernel_net.IoUring.{Server, Turn}
use kernel_net.IoUring.Run
use kernel_net.IoUring.Run.{Process, Round, Outcome, ended, looping}
use kernel_net.IoUringZc.Run as ZcRun
use kernel_net.IoUringZc.Translates.{as_sqe, as_server, as_result, as_turn, as_turned}
use kernel_net.IoUringZc.Alike.{submit_accept_alike, turn_alike}

abbrev pub as_round : Round → ZcRun.Round
as_round r = record { shut = r.shut; ret = r.ret; cqes = r.cqes; left = map as_sqe r.left }

abbrev pub as_system : IoUring.System → IoUringZc.System
as_system s = record { server = as_server s.server; flying = map as_sqe s.flying }

abbrev pub as_process : Process → ZcRun.Process
as_process p = record { running = p.running; system = as_system p.system }

abbrev pub as_outcome : Option Outcome → Option ZcRun.Outcome
as_outcome none = none
as_outcome (some (ended p)) = some (ZcRun.ended (as_process p))
as_outcome (some (looping p)) = some (ZcRun.looping (as_process p))

arrive_same :
    (shut : Bool) (p : Process) → ZcRun.arrive shut (as_process p) ≡ as_process (Run.arrive shut p)
unfolding ZcRun.arrive Run.arrive ZcRun.shutdown Run.shutdown
arrive_same true p = refl
arrive_same false p = refl

advance_same :
    (left : List Sqe) (u : Turn) (p : Process)
    → ZcRun.advance (map as_sqe left) (as_turn u) (as_process p) ≡ as_process (Run.advance left u p)
unfolding ZcRun.advance Run.advance
advance_same left u p =
    ap
      (λ flying. record {
        running = p.running;
        system = record { server = as_server u.server; flying = flying };
      })
      (sym (map-append as_sqe left u.submitted))

branch :
    (b : Bool) {x : Option ZcRun.Outcome} (o : Option Outcome) (p : Process)
    → x ≡ as_outcome o
    → (if b then x else some (ZcRun.ended (as_process p)))
      ≡ as_outcome (if b then o else some (ended p))
branch true o p same = same
branch false o p same = refl

module _ (os : Platform) where
  -- What follows a round.
  follows :
      (rs : List Round) (left : List Sqe) (p : Process) (o : Option (Option Turn))
      → ((q : Process)
          → ZcRun.rounds os (map as_round rs) (as_process q) ≡ as_outcome (Run.rounds os rs q))
      → (as_turned o >>= λ broke_or_went_on. elim broke_or_went_on [
        | none ↦ some (ZcRun.ended (as_process p))
        | some u ↦
            ZcRun.rounds os (map as_round rs) (ZcRun.advance (map as_sqe left) u (as_process p))
      ])
        ≡ as_outcome (
            o >>= λ broke_or_went_on. elim broke_or_went_on [
              | none ↦ some (ended p)
              | some u ↦ Run.rounds os rs (Run.advance left u p)
            ])
  follows rs left p none same = refl
  follows rs left p (some none) same = refl
  follows rs left p (some (some u)) same =
      ap (ZcRun.rounds os (map as_round rs)) (advance_same left u p) ∙ same _

  -- From the same answers of the kernel, the loop of the zero-copy server goes through the same
  -- rounds as that of the io_uring server and ends alike, with each send zero-copy.
  rounds_same :
      (rs : List Round) (p : Process)
      → ZcRun.rounds os (map as_round rs) (as_process p) ≡ as_outcome (Run.rounds os rs p)
  unfolding ZcRun.rounds Run.rounds
  rounds_same [] p = refl
  rounds_same (r ∷ rs) p =
      let q = Run.arrive r.shut p in
      subst
        (λ z.
          (if z.running
            then (IoUringZc.turn os r.ret r.cqes z.system.server >>= λ broke_or_went_on.
                elim broke_or_went_on [
                  | none ↦ some (ZcRun.ended z)
                  | some u ↦
                      ZcRun.rounds os (map as_round rs) (ZcRun.advance (map as_sqe r.left) u z)
                ])
            else some (ZcRun.ended z))
          ≡ as_outcome (Run.rounds os (r ∷ rs) p))
        (sym (arrive_same r.shut p))
        (rw (turn_alike os r.ret r.cqes q.system.server) (
          branch q.running _ q
            (follows rs r.left q (IoUring.turn os r.ret r.cqes q.system.server) (rounds_same rs))))

  -- From the same answers of the kernel, a new zero-copy server goes through the same rounds as a
  -- new io_uring server, with each send zero-copy, and ends alike, also when the wait fails,
  -- `shutdown` is called or a request is used that is not allocated.
  pub event_loop_same :
      (rs : List Round) (fd : ℤ)
      → ZcRun.event_loop os (map as_round rs) (IoUringZc.constructed fd)
        ≡ as_outcome (Run.event_loop os rs (IoUring.constructed fd))
  unfolding ZcRun.event_loop Run.event_loop IoUringZc.constructed IoUring.constructed
  event_loop_same rs fd =
      ap
        (λ r. r >>= λ primed.
          ZcRun.rounds os (map as_round rs)
            (record { running = true; system = record { server = primed; flying = [] } }))
        (submit_accept_alike os (IoUring.constructed fd))
      ∙ primes (IoUring.submit_accept os (IoUring.constructed fd))
    where
      primes :
          (r : Option Server)
          → (as_result r >>= λ primed.
              ZcRun.rounds os
                (map as_round rs)
                (record { running = true; system = record { server = primed; flying = [] } }))
            ≡ as_outcome (
                r >>= λ primed.
                Run.rounds os rs
                  (record { running = true; system = record { server = primed; flying = [] } }))
      primes none = refl
      primes (some s) = rounds_same rs _
