-- ===== src/ServerInterface.antt =====
-- echo_server/common/server_interface.h: what every flavor of server is to offer. The two io_uring servers
-- derive from it, and so do their stubs for other platforms than Linux.
pub mod Elsewhere
use kernel_net.Prelude.{
  ◌≡◌, ◌≢◌, refl, Bool, true, false, List, [], ◌∷◌, Option, none, some, ◌>>=◌, Option-cases, inl,
  inr,
}
use kernel_net.Uring.{Platform}
use kernel_net.IoUring
use kernel_net.IoUring.Run
use kernel_net.IoUringZc
use kernel_net.IoUringZc.Run as ZcRun

-- `run` answers none when it does something undefined, and none within some while it goes on.
pub record ServerInterface (S : Type 0) : Type 0 where
  pub run : S → Option (Option S)
  pub shutdown : S → S
  pub destroy : S → S

abbrev returned : Run.Outcome → Option Run.Process
returned (Run.ended p) = some p
returned (Run.looping p) = none

abbrev zc_returned : ZcRun.Outcome → Option ZcRun.Process
zc_returned (ZcRun.ended p) = some p
zc_returned (ZcRun.looping p) = none

-- `run`, from what each round finds, on a server that may have been shut down before.
abbrev pub iouring_run : Platform → List Run.Round → Run.Process → Option (Option Run.Process)
iouring_run os rounds p = IoUring.submit_accept os p.system.server >>= λ primed.
    Run.rounds os rounds (record p { system = record { server = primed; flying = [] } }) >>= λ o.
    some (returned o)

abbrev pub iouring_zc_run :
    Platform → List ZcRun.Round → ZcRun.Process → Option (Option ZcRun.Process)
iouring_zc_run os rounds p = IoUringZc.submit_accept os p.system.server >>= λ primed.
    ZcRun.rounds os rounds (record p { system = record { server = primed; flying = [] } }) >>= λ o.
    some (zc_returned o)

abbrev pub iouring : Platform → List Run.Round → ServerInterface Run.Process
iouring os rounds = record {
  run = iouring_run os rounds;
  shutdown = Run.shutdown;
  destroy = Run.destroy;
}

abbrev pub iouring_zc : Platform → List ZcRun.Round → ServerInterface ZcRun.Process
iouring_zc os rounds = record {
  run = iouring_zc_run os rounds;
  shutdown = ZcRun.shutdown;
  destroy = ZcRun.destroy;
}

-- What a client relies on: `run` does not go on when `shutdown` was called before.
abbrev pub Obeys : {S : Type 0} → ServerInterface S → Type 0
Obeys {S} server = (s : S) → server.run (server.shutdown s) ≢ some none

module _ (os : Platform) where
  stays_down :
      (shut : Bool) (p : Run.Process) → p.running ≡ false → (Run.arrive shut p).running ≡ false
  unfolding Run.arrive Run.shutdown
  stays_down true p down = refl
  stays_down false p down = down

  rounds_end :
      (r : Run.Round) (rs : List Run.Round) (p : Run.Process)
      → p.running ≡ false
      → Run.rounds os (r ∷ rs) p ≡ some (Run.ended (Run.arrive r.shut p))
  unfolding Run.rounds
  rounds_end r rs p down = rw (stays_down r.shut p down) refl

  -- The loop tests `running_` before its first round.
  pub iouring-Obeys :
      (first : Run.Round) (rest : List Run.Round) → Obeys (iouring os (first ∷ rest))
  unfolding Run.shutdown
  iouring-Obeys first rest p = after (IoUring.submit_accept os p.system.server)
    where
      after :
          (o : Option IoUring.Server)
          → (o >>= λ primed.
              Run.rounds os
                (first ∷ rest)
                (record { running = false; system = record { server = primed; flying = [] } })
              >>= λ o. some (returned o))
            ≢ some none
      after none e = cc
      after (some primed) e = cc (
          rw
            (rounds_end first rest
              (record { running = false; system = record { server = primed; flying = [] } }) refl)
            at e)

module _ (os : Platform) where
  zc_stays_down :
      (shut : Bool) (p : ZcRun.Process) → p.running ≡ false → (ZcRun.arrive shut p).running ≡ false
  unfolding ZcRun.arrive ZcRun.shutdown
  zc_stays_down true p down = refl
  zc_stays_down false p down = down

  zc_rounds_end :
      (r : ZcRun.Round) (rs : List ZcRun.Round) (p : ZcRun.Process)
      → p.running ≡ false
      → ZcRun.rounds os (r ∷ rs) p ≡ some (ZcRun.ended (ZcRun.arrive r.shut p))
  unfolding ZcRun.rounds
  zc_rounds_end r rs p down = rw (zc_stays_down r.shut p down) refl

  -- The loop tests `running_` before its first round.
  pub iouring_zc-Obeys :
      (first : ZcRun.Round) (rest : List ZcRun.Round) → Obeys (iouring_zc os (first ∷ rest))
  unfolding ZcRun.shutdown
  iouring_zc-Obeys first rest p = after (IoUringZc.submit_accept os p.system.server)
    where
      after :
          (o : Option IoUringZc.Server)
          → (o >>= λ primed.
              ZcRun.rounds os
                (first ∷ rest)
                (record { running = false; system = record { server = primed; flying = [] } })
              >>= λ o. some (zc_returned o))
            ≢ some none
      after none e = cc
      after (some primed) e = cc (
          rw
            (zc_rounds_end first rest
              (record { running = false; system = record { server = primed; flying = [] } }) refl)
            at e)
