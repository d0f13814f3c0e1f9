-- ===== src/Main/Pooled.antt =====
-- The epoll and the kqueue program: they end alike, and with which exit code.
use Prim.Native.String.{String}
use kernel_net.Prelude.{
  ◌≡◌, refl, ap, ◌∙◌, Bool, true, false, List, [], Option, none, some, ◌>>=◌, if◌then◌else◌, map,
}
use kernel_net.Arguments.{Numbers, Parsed, usage, threw, parsed, parse_loop}
use kernel_net.Epoll
use kernel_net.Epoll.{Errors}
use kernel_net.Epoll.Run as EpollRun
use kernel_net.Epoll.Run.Life.{Answered, Stops, rounds-Ended, Ended}
use kernel_net.Kqueue
use kernel_net.Kqueue.Run as KqueueRun
use kernel_net.Kqueue.Run.Alike.{
  as_round, as_outcome, as_calls, as_built, construct_same, loop_same,
}
use kernel_net.Main.{
  Options, epoll_defaults, kind, exited, serve, epoll_finished, epoll_run, kqueue_finished,
  kqueue_run, main, main_epoll, main_kqueue,
}
use kernel_net.Main.Exits.{exit_code}

abbrev pub epoll_made : Epoll.Built → Bool
epoll_made (Epoll.threw closed) = false
epoll_made (Epoll.built server epoll_fd) = true

module _ (os : Errors) where
  finished_same :
      (o : Option KqueueRun.Outcome) → (as_outcome o >>= epoll_finished) ≡ (o >>= kqueue_finished)
  unfolding epoll_finished kqueue_finished
  finished_same none = refl
  finished_same (some (KqueueRun.ended p)) = refl
  finished_same (some (KqueueRun.looping p)) = refl

  run_same :
      (rs : List KqueueRun.Round) (b : Kqueue.Built)
      → epoll_run os (map as_round rs) (as_built b) ≡ kqueue_run os rs b
  unfolding epoll_run kqueue_run
  run_same rs (Kqueue.threw closed) = refl
  run_same rs (Kqueue.built s kq) =
      let p : KqueueRun.Process = record { running = true; server = s; kq = kq; closed = [] } in
      ap (λ o. o >>= epoll_finished) (loop_same os rs p) ∙ finished_same (KqueueRun.rounds os rs p)

  serve_same :
      (f g : Options → Option Bool) (r : Parsed Options)
      → ((o : Options) → f o ≡ g o)
      → serve f r ≡ serve g r
  unfolding serve
  serve_same f g usage same = refl
  serve_same f g threw same = refl
  serve_same f g (parsed o) same =
      ap (λ run. run >>= λ made. some (exited (if made then 0 else 1))) (same o)

  -- From the same arguments and the same answers of the system calls, the kqueue program ends when and
  -- as the epoll program does.
  pub main_kqueue_same :
      (numbers : Numbers) (rs : List KqueueRun.Round) (calls : Options → Kqueue.Calls)
      (argv : List String)
      → main_epoll numbers os (map as_round rs) (λ o. as_calls (calls o)) argv
        ≡ main_kqueue numbers os rs calls argv
  unfolding main_epoll main_kqueue main
  main_kqueue_same numbers rs calls argv =
      serve_same _ _ (parse_loop (kind numbers) argv epoll_defaults) λ o.
        ap (epoll_run os (map as_round rs)) (construct_same (calls o))
        ∙ run_same rs (Kqueue.construct (calls o))

  ends :
      (quiet : Type 0) (p : EpollRun.Process) (o : Option EpollRun.Outcome)
      → Ended os quiet p o
      → (o >>= epoll_finished) ≡ some true
  unfolding epoll_finished
  ends quiet p none e = absurd e
  ends quiet p (some (EpollRun.ended q)) e = refl
  ends quiet p (some (EpollRun.looping q)) e = absurd e

  module _ (rs : List EpollRun.Round) (answered : Answered rs) (stops : Stops rs) where
    made_or_not : (b : Epoll.Built) → epoll_run os rs b ≡ some (epoll_made b)
    unfolding epoll_run
    made_or_not (Epoll.threw closed) = refl
    made_or_not (Epoll.built s epoll_fd) =
        let p : EpollRun.Process = record {
          running = true;
          server = s;
          epoll_fd = epoll_fd;
          closed = [];
        } in
        ends _ p (EpollRun.rounds os rs p) (rounds-Ended os [] s.listen_fd rs p refl answered stops)

    served :
        (calls : Options → Epoll.Calls) (r : Parsed Options)
        → serve (λ o. epoll_run os rs (Epoll.construct (calls o))) r
          ≡ some (exit_code (λ o. epoll_made (Epoll.construct (calls o))) r)
    unfolding serve
    served calls usage = refl
    served calls threw = refl
    served calls (parsed o) =
        ap (λ run. run >>= λ made. some (exited (if made then 0 else 1)))
          (made_or_not (Epoll.construct (calls o)))

    -- The pool left aside, when the accept loops come to an end and `shutdown` is called at some time
    -- or a wait fails, the epoll program ends, whatever its arguments and the answers to the
    -- constructor's calls: with 0 after the usage or when the server was made, with 1 when its
    -- constructor threw, and by an uncaught exception when the loop over the arguments throws.
    pub main_epoll_exits :
        (numbers : Numbers) (calls : Options → Epoll.Calls) (argv : List String)
        → main_epoll numbers os rs calls argv
          ≡ some (
              exit_code
                (λ o. epoll_made (Epoll.construct (calls o)))
                (parse_loop (kind numbers) argv epoll_defaults))
    unfolding main_epoll main
    main_epoll_exits numbers calls argv =
        served calls (parse_loop (kind numbers) argv epoll_defaults)
