-- ===== src/Kqueue/Run/Alike.antt =====
-- The whole life of a kqueue server beside that of an epoll server.
use kernel_net.Prelude.{
  ◌≡◌, refl, sym, ap, ◌∙◌, subst, Bool, true, false, List, [], ◌∷◌, ◌++◌, ◌==◌, ◌&&◌, take, ℕ, zero,
  suc, Option, none, some, ℤ, pos, negsuc, ◌>>=◌, if◌then◌else◌, map,
}
use kernel_net.Epoll
use kernel_net.Epoll.{Errors, Server}
use kernel_net.Epoll.Run as EpollRun
use kernel_net.Kqueue.{
  Event, turn, Calls, Built, threw, built, construct, listening, create_kqueue, watch_listen,
}
use kernel_net.Kqueue.Same.{as_epoll, turn_same}
use kernel_net.Kqueue.Run.{
  Process, Round, Outcome, ended, looping, shutdown, arrive, listen_errors, round_closes, rounds,
  destroy, leave, live, life,
}

abbrev pub as_round : Round → EpollRun.Round
as_round r = record { shut = r.shut; nfds = r.nfds; events = map as_epoll r.events }

-- The kqueue's descriptor in place of the epoll descriptor.
abbrev pub as_process : Process → EpollRun.Process
as_process p = record { running = p.running; server = p.server; epoll_fd = p.kq; closed = p.closed }

abbrev pub as_outcome : Option Outcome → Option EpollRun.Outcome
as_outcome none = none
as_outcome (some (ended p)) = some (EpollRun.ended (as_process p))
as_outcome (some (looping p)) = some (EpollRun.looping (as_process p))

abbrev pub as_calls : Calls → Epoll.Calls
as_calls c = record {
  socket = c.socket;
  bind = c.bind;
  listen = c.listen;
  epoll_create = c.kqueue_create;
  epoll_ctl = c.kevent_add;
}

abbrev pub as_built : Built → Epoll.Built
as_built (threw closed) = Epoll.threw closed
as_built (built server kq) = Epoll.built server kq

by_answers :
    (socket bind listen kqueue_create kevent_add : ℤ)
    → (let c : Calls = record {
      socket = socket;
      bind = bind;
      listen = listen;
      kqueue_create = kqueue_create;
      kevent_add = kevent_add;
    } in
        Epoll.construct (as_calls c) ≡ as_built (construct c))
unfolding construct listening create_kqueue watch_listen Epoll.construct Epoll.listening
    Epoll.create_epoll Epoll.watch_listen
by_answers (negsuc _) bind listen kqueue_create kevent_add = refl
by_answers (pos fd) (negsuc _) listen kqueue_create kevent_add = refl
by_answers (pos fd) (pos _) (negsuc _) kqueue_create kevent_add = refl
by_answers (pos fd) (pos _) (pos _) (negsuc _) kevent_add = refl
by_answers (pos fd) (pos _) (pos _) (pos _) (negsuc _) = refl
by_answers (pos fd) (pos _) (pos _) (pos _) (pos _) = refl

pub construct_same : (c : Calls) → Epoll.construct (as_calls c) ≡ as_built (construct c)
construct_same c = by_answers c.socket c.bind c.listen c.kqueue_create c.kevent_add

arrive_same :
    (shut : Bool) (p : Process) → EpollRun.arrive shut (as_process p) ≡ as_process (arrive shut p)
unfolding EpollRun.arrive arrive EpollRun.shutdown shutdown
arrive_same true p = refl
arrive_same false p = refl

branch :
    (b : Bool) {x : Option EpollRun.Outcome} (o : Option Outcome) (p : Process)
    → x ≡ as_outcome o
    → (if b then x else some (EpollRun.ended (as_process p)))
      ≡ as_outcome (if b then o else some (ended p))
branch true o p same = same
branch false o p same = refl

listen_errors_same :
    (listen_fd n : ℕ) (es : List Event)
    → EpollRun.listen_errors listen_fd (take n (map as_epoll es))
      ≡ listen_errors listen_fd (take n es)
unfolding EpollRun.listen_errors listen_errors
listen_errors_same listen_fd zero es = refl
listen_errors_same listen_fd (suc n) [] = refl
listen_errors_same listen_fd (suc n) (e ∷ es) =
    ap (λ rest. if e.ev_error && (e.ident == listen_fd) then listen_fd ∷ rest else rest)
      (listen_errors_same listen_fd n es)

round_closes_same :
    (listen_fd : ℕ) (nfds : ℤ) (es : List Event)
    → EpollRun.round_closes listen_fd nfds (map as_epoll es) ≡ round_closes listen_fd nfds es
unfolding EpollRun.round_closes round_closes
round_closes_same listen_fd (pos n) es = listen_errors_same listen_fd n es
round_closes_same listen_fd (negsuc n) es = refl

module _ (os : Errors) where
  -- What follows a round, which closes `gone`.
  follows :
      (rs : List Round) (p : Process) (gone gone' : List ℕ)
      → gone' ≡ gone
      → (o : Option (Option Server))
      → ((q : Process)
          → EpollRun.rounds os (map as_round rs) (as_process q) ≡ as_outcome (rounds os rs q))
      → (o >>= λ broke_or_went_on. elim broke_or_went_on [
        | none ↦ some (EpollRun.ended (as_process p))
        | some s ↦
            EpollRun.rounds os
              (map as_round rs)
              (record (as_process p) { server = s; closed = p.closed ++ gone' })
      ])
        ≡ as_outcome (
            o >>= λ broke_or_went_on. elim broke_or_went_on [
              | none ↦ some (ended p)
              | some s ↦ rounds os rs (record p { server = s; closed = p.closed ++ gone })
            ])
  follows rs p gone gone' equal none same = refl
  follows rs p gone gone' equal (some none) same = refl
  follows rs p gone gone' equal (some (some s)) same =
      ap
        (λ l.
          EpollRun.rounds os (map as_round rs)
            (record (as_process p) { server = s; closed = p.closed ++ l }))
        equal
      ∙ same (record p { server = s; closed = p.closed ++ gone })

  -- From the same answers of the system calls, and from any state, the loop of the kqueue server goes
  -- through the same states as that of the epoll server and ends alike: with the same clients'
  -- descriptors watched and open, the same tasks, and the same descriptors of its own.
  pub loop_same :
      (rs : List Round) (p : Process)
      → EpollRun.rounds os (map as_round rs) (as_process p) ≡ as_outcome (rounds os rs p)
  unfolding EpollRun.rounds rounds
  loop_same [] p = refl
  loop_same (r ∷ rs) p =
      let q = arrive r.shut p in
      subst
        (λ z.
          (if z.running
            then (Epoll.turn os r.nfds (map as_epoll r.events) z.server >>= λ broke_or_went_on.
                elim broke_or_went_on [
                  | none ↦ some (EpollRun.ended z)
                  | some s ↦ EpollRun.rounds os (map as_round rs) (record z {
                    server = s;
                    closed =
                        z.closed
                        ++ EpollRun.round_closes z.server.listen_fd r.nfds (map as_epoll r.events);
                  })
                ])
            else some (EpollRun.ended z))
          ≡ as_outcome (rounds os (r ∷ rs) p))
        (sym (arrive_same r.shut p))
        (branch q.running _ q (
          ap
            (λ o. o >>= λ broke_or_went_on. elim broke_or_went_on [
              | none ↦ some (EpollRun.ended (as_process q))
              | some s ↦ EpollRun.rounds os (map as_round rs) (record (as_process q) {
                server = s;
                closed =
                    q.closed
                    ++ EpollRun.round_closes q.server.listen_fd r.nfds (map as_epoll r.events);
              })
            ])
            (sym (turn_same os r.nfds r.events q.server))
          ∙ follows rs q _ _ (round_closes_same q.server.listen_fd r.nfds r.events)
              (turn os r.nfds r.events q.server) (loop_same rs)))

  leave_same : (o : Option Outcome) → (as_outcome o >>= EpollRun.leave) ≡ (o >>= leave)
  unfolding EpollRun.leave leave EpollRun.destroy destroy
  leave_same none = refl
  leave_same (some (ended p)) = refl
  leave_same (some (looping p)) = refl

  live_same :
      (rs : List Round) (b : Built) → EpollRun.live os (map as_round rs) (as_built b) ≡ live os rs b
  unfolding EpollRun.live live
  live_same rs (threw closed) = refl
  live_same rs (built s kq) =
      ap (λ o. o >>= EpollRun.leave)
        (loop_same rs (record { running = true; server = s; kq = kq; closed = [] }))
      ∙ leave_same _

  -- From the same answers of the system calls, the life of a kqueue server, from its constructor to
  -- its destructor, goes on as long as that of an epoll server and closes the same descriptors of
  -- its own, the kqueue's in place of the epoll descriptor.
  pub life_same :
      (rs : List Round) (c : Calls) → EpollRun.life os (map as_round rs) (as_calls c) ≡ life os rs c
  unfolding EpollRun.life life
  life_same rs c =
      ap (EpollRun.live os (map as_round rs)) (construct_same c) ∙ live_same rs (construct c)
