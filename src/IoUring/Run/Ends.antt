-- ===== src/IoUring/Run/Ends.antt =====
-- The event loop ends after a call of `shutdown`, in order.
use kernel_net.Prelude.{
  ◌≡◌, ◌≢◌, refl, sym, subst, Bool, true, false, List, [], ◌∷◌, Option, none, some, ℤ, ◌>>=◌,
  if◌then◌else◌, Option-cases, inl, inr, ◌⊎◌,
}
use kernel_net.Uring.{Sqe, Platform}
use kernel_net.IoUring.{Server, Turn, constructed, submit_accept, turn}
use kernel_net.IoUring.Owners.{Succeeds}
use kernel_net.IoUring.Handlers.{submit_accept-Owned}
use kernel_net.IoUring.Loop.{
  Completes, Reach, begin, round, InFlight, Reach-InFlight, turn_is_defined, constructed-Owned,
}
use kernel_net.IoUring.Run.{
  Process, Round, Outcome, ended, looping, shutdown, arrive, advance, rounds, event_loop,
}

-- Some round finds that `shutdown` has been called.
abbrev pub Shuts : List Round → Type 0
Shuts [] = ⊥
Shuts (r ∷ rs) = (r.shut ≡ true) ⊎ Shuts rs

module _ (os : Platform) where
  -- In every round that runs, each operation in flight completes once or stays in flight.
  abbrev pub Honest : List Round → Process → Type 0
  Honest [] p = Unit
  Honest (r ∷ rs) p =
      let q = arrive r.shut p in
      q.running ≡ true
      → Completes q.system.flying r.ret r.cqes r.left
        × ((u : Turn)
            → turn os r.ret r.cqes q.system.server ≡ some (some u)
            → Honest rs (advance r.left u q))

  abbrev pub Ended : ℤ → Option Outcome → Type 0
  Ended fd none = ⊥
  Ended fd (some (ended t)) = Reach os fd t.system
  Ended fd (some (looping t)) = ⊥

  -- What follows a round.
  follows :
      {fd : ℤ} (rs : List Round) (left : List Sqe) (p : Process) (o : Option (Option Turn))
      → o ≢ none
      → Reach os fd p.system
      → ((u : Turn) → o ≡ some (some u) → Ended fd (rounds os rs (advance left u p)))
      → Ended fd (
          o >>= λ broke_or_went_on. elim broke_or_went_on [
            | none ↦ some (ended p)
            | some u ↦ rounds os rs (advance left u p)
          ])
  follows rs left p none defined reach goes_on = absurd (defined refl)
  follows rs left p (some none) defined reach goes_on = reach
  follows rs left p (some (some u)) defined reach goes_on = goes_on u refl

  next_round :
      {fd : ℤ} (r : Round) (u : Turn) (p : Process)
      → Reach os fd p.system
      → Completes p.system.flying r.ret r.cqes r.left
      → turn os r.ret r.cqes p.system.server ≡ some (some u)
      → Reach os fd (advance r.left u p).system
  unfolding advance
  next_round r u p reach completes went_on = round r.ret r.cqes r.left reach completes went_on

  tests :
      {fd : ℤ} (b : Bool) (o : Option Outcome) (q : Process)
      → (b ≡ true → Ended fd o)
      → Reach os fd q.system
      → Ended fd (if b then o else some (ended q))
  tests true o q e reach = e refl
  tests false o q e reach = reach

  arrive_keeps : (shut : Bool) (p : Process) → (arrive shut p).system ≡ p.system
  unfolding arrive shutdown
  arrive_keeps true p = refl
  arrive_keeps false p = refl

  arrive_halts : (shut : Bool) (p : Process) → shut ≡ true → (arrive shut p).running ≡ false
  unfolding arrive shutdown
  arrive_halts true p now = refl
  arrive_halts false p now = absurd (cc now)

  rounds-Ended :
      {fd : ℤ} (rs : List Round) (p : Process)
      → Reach os fd p.system
      → Honest rs p
      → Shuts rs
      → Ended fd (rounds os rs p)
  unfolding rounds
  rounds-Ended [] p reach honest shuts = absurd shuts
  rounds-Ended {fd} (r ∷ rs) p reach honest shuts =
      let q = arrive r.shut p in
      let there : Reach os fd q.system = subst (Reach os fd) (sym (arrive_keeps r.shut p)) reach in
      elim shuts [
        | inl now ↦ rw (arrive_halts r.shut p now) there
        | inr later ↦
            tests q.running _ q
              (λ runs.
                follows rs r.left q (turn os r.ret r.cqes q.system.server)
                  (turn_is_defined os r.ret r.cqes r.left there (honest runs).0) there
                  (λ u went_on.
                    rounds-Ended rs (advance r.left u q)
                      (next_round r u q there (honest runs).0 went_on) ((honest runs).1 u went_on)
                      later))
              there
      ]

  abbrev pub primed : Server → Process
  primed s = record { running = true; system = record { server = s; flying = [] } }

  -- When each operation in flight completes once and `shutdown` is called at some time: the event
  -- loop of a new server ends, whatever the waits and the operations come to, no request is used or
  -- released that is not allocated, and at the end each request that is left is in exactly one
  -- entry, prepared or in flight.
  pub event_loop_ends :
      (fd : ℤ) (rs : List Round)
      → ((s : Server) → submit_accept os (constructed fd) ≡ some s → Honest rs (primed s))
      → Shuts rs
      → (t : Process) × (event_loop os rs (constructed fd) ≡ some (ended t))
        × Reach os fd t.system
        × InFlight t.system
  unfolding event_loop
  event_loop_ends fd rs honest shuts = elim (Option-cases (submit_accept os (constructed fd))) [
    | inl failed ↦
        absurd
          (subst (λ r. Succeeds r []) failed (submit_accept-Owned os (constructed-Owned os fd)))
    | inr (s, done) ↦ rw done (
        finishes (rounds os rs (primed s))
          (rounds-Ended rs (primed s) (begin done) (honest s done) shuts))
  ]
    where
      finishes :
          (o : Option Outcome)
          → Ended fd o
          → (t : Process) × (o ≡ some (ended t)) × Reach os fd t.system × InFlight t.system
      finishes none e = absurd e
      finishes (some (ended t)) reach = (t, refl, reach, Reach-InFlight os reach)
      finishes (some (looping t)) e = absurd e
