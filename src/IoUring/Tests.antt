-- ===== src/IoUring/Tests.antt =====
-- Runs of the io_uring server on a queue of 256 entries, and the theorems at them.
use kernel_net.Prelude.{
  ℕ, ◌≡◌, refl, true, false, List, inl, inr, [], ◌∷◌, some, pos, negsuc, ltb, total, ◌+◌,
  ℕ_discrete, arith,
}
use kernel_net.Uring.{Platform, accept_on}
use kernel_net.IoUring.{
  System, constructed, submit_accept, allocate, prepare, submit, for_each_cqe, renew_accept,
  phase_two, turn, handle_cqe, dispatch, handle_accept, submit_recv, release, fill, handle_recv,
  submit_send, store,
}
use kernel_net.IoUring.Run.{Process, Round, ended, event_loop, arrive, shutdown, advance}
use kernel_net.IoUring.Run.Ends.{event_loop_ends}
use kernel_net.IoUring.Tally.{holds, closings}
use kernel_net.IoUring.Connected.{connects, Calm, connected_once}
use kernel_net.IoUring.Owners.{times, uses}
use kernel_net.IoUring.Flag.{Flagged, Reach-Flagged}
use kernel_net.IoUring.Loop.{Reach, begin, round, InFlight, Reach-InFlight}
use kernel_net.IoUring.Replies.{sends}
use kernel_net.IoUring.Room.{Roomy}
use kernel_net.IoUring.Few.{few_completions-Roomy}
use kernel_net.IoUring.Answered.{submitted_sends}

abbrev linux : ℕ → Platform
linux depth = record { eagain = 11; etime = 62; eintr = 4; sqe_left = λ n. ltb n depth }

record Run : Type 0 where
  last : System
  reach : Reach (linux 256) (pos 3) last

-- The first accept is prepared, and the first round submits it.
abbrev accepting : Run
unfolding constructed submit_accept allocate prepare turn phase_two renew_accept submit uses
accepting = record { last = _; reach = round (negsuc 61) [] [] (begin refl) (refl, refl) refl }

-- Client 7 has connected.
abbrev connected : Run
unfolding constructed submit_accept allocate prepare turn phase_two renew_accept submit uses times
    for_each_cqe handle_cqe dispatch handle_accept submit_recv release accepting ℕ_discrete fill
connected = record {
  last = _;
  reach =
      round (pos 0) (record { request = 0; res = pos 7; filled = [] } ∷ []) [] accepting.reach
        (λ p. omega arith) refl;
}

Reach-InFlight_example : InFlight connected.last
Reach-InFlight_example = Reach-InFlight (linux 256) connected.reach

Reach-Flagged_example : Flagged connected.last
Reach-Flagged_example = Reach-Flagged (linux 256) connected.reach

-- A wait that times out, and then a call of `shutdown`.
abbrev quiet_second : List Round
quiet_second =
    record { shut = false; ret = negsuc 61; cqes = []; left = [] }
    ∷ record { shut = true; ret = pos 0; cqes = []; left = [] }
    ∷ []

event_loop_ends_example :
    (t : Process) × (event_loop (linux 256) quiet_second (constructed (pos 3)) ≡ some (ended t))
    × Reach (linux 256) (pos 3) t.system
    × InFlight t.system
unfolding arrive shutdown advance
event_loop_ends_example =
    event_loop_ends (linux 256) (pos 3) quiet_second
      (λ s primed runs. ((refl, refl), λ u went_on stopped. absurd (cc stopped))) (inr (inl refl))

-- Client 7 connects.
abbrev joined : Run
unfolding constructed submit_accept allocate prepare turn phase_two renew_accept submit uses times
    for_each_cqe handle_cqe dispatch handle_accept submit_recv release ℕ_discrete fill
joined = record {
  last = _;
  reach =
      round (pos 0) (record { request = 0; res = pos 7; filled = [] } ∷ []) []
        (round (negsuc 61) [] [] (begin refl) (refl, refl) refl) (λ p. omega arith) refl;
}

connected_once_example :
    closings 7 joined.last.server.closed
      + total (holds 7) joined.last.server.next joined.last.server.heap
    ≡ connects joined.reach 7
unfolding Calm Roomy constructed submit_accept allocate prepare turn phase_two renew_accept submit
    uses times for_each_cqe handle_cqe dispatch handle_accept submit_recv release ℕ_discrete fill
connected_once_example =
    connected_once (linux 256) joined.reach 7 ((refl, refl), (refl, refl))
      ((tt, tt), ((λ n wrong. absurd (cc wrong)), tt))

-- Client 7 has sent two bytes.
abbrev spoken : Run
unfolding constructed submit_accept allocate prepare turn phase_two renew_accept submit uses times
    for_each_cqe handle_cqe dispatch handle_accept handle_recv submit_recv submit_send store release
    ℕ_discrete fill
spoken = record {
  last = _;
  reach =
      round (pos 0) (record { request = 1; res = pos 2; filled = 104 ∷ 105 ∷ [] } ∷ [])
        (record { call = accept_on (pos 3); request = 2 } ∷ []) joined.reach (λ p. omega arith)
        refl;
}

few_completions-Roomy_example : Roomy spoken.reach
unfolding spoken joined
few_completions-Roomy_example =
    few_completions-Roomy (linux 256) 256 254 (omega arith) (λ m. refl) spoken.reach
      (((tt, omega arith), omega arith), omega arith)

two_bytes_sent : submitted_sends spoken.reach ≡ record { client_fd = pos 7; bytes = 2 } ∷ []
unfolding submitted_sends sends constructed submit_accept allocate prepare turn phase_two
    renew_accept submit uses times for_each_cqe handle_cqe dispatch handle_accept handle_recv
    submit_recv submit_send store release ℕ_discrete fill
two_bytes_sent = refl
