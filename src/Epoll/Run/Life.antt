-- ===== src/Epoll/Run/Life.antt =====
-- A server's life ends, and it closes its own descriptors once each.
use kernel_net.Prelude.{
  ℕ, ◌≡◌, refl, sym, ap, ◌∙◌, Bool, true, false, List, [], ◌∷◌, ◌++◌, Option, none, some, ℤ, pos,
  negsuc, ◌>>=◌, if◌then◌else◌, take, ◌⊎◌, inl, inr, times, arith, ◌≤◌, ◌==◌, ◌&&◌, zero, suc,
  subst, append-nil, Bool-cases, ==_iff,
}
use kernel_net.Epoll.{
  Errors, Server, Event, handle_events, turn, Calls, Built, threw, built, construct,
}
use kernel_net.Epoll.Boot.{opened, Accounts, construct-Accounts}
use kernel_net.Epoll.Run.{
  Process, Round, Outcome, ended, looping, shutdown, arrive, listen_errors, round_closes, rounds,
  destroy, leave, live, life,
}
use kernel_net.Epoll.Run.Listens.{AllDrained, Serves, handle_events-Serves}

abbrev pub Answered : List Round → Type 0
Answered [] = Unit
Answered (r ∷ rs) = AllDrained r.events × Answered rs

-- Some round finds that `shutdown` has been called, or that `epoll_wait` fails.
abbrev pub IsFailure : ℤ → Type 0
IsFailure (pos _) = ⊥
IsFailure (negsuc _) = Unit

abbrev pub Stops : List Round → Type 0
Stops [] = ⊥
Stops (r ∷ rs) = (r.shut ≡ true) ⊎ (IsFailure r.nfds ⊎ Stops rs)

-- No event of the rounds reports an error on one of these descriptors.
abbrev pub NoErrors : List ℕ → List Event → Type 0
NoErrors fds [] = Unit
NoErrors fds (e ∷ es) = (e.epollerr ≡ true → times e.fd fds ≡ 0) × NoErrors fds es

abbrev pub Sound : List ℕ → List Round → Type 0
Sound fds [] = Unit
Sound fds (r ∷ rs) = NoErrors fds r.events × Sound fds rs

missed :
    (l fd : ℕ) (fds : List ℕ) (err : Bool)
    → 1 ≤ times l fds
    → (err ≡ true → times fd fds ≡ 0)
    → (err && (fd == l)) ≡ false
missed l fd fds false own sound = refl
missed l fd fds true own sound = elim (Bool-cases (fd == l)) [
  | inl is ↦ absurd (omega (arith, own, sound refl, ap (λ f. times f fds) ((==_iff fd l).0 is)))
  | inr is_not ↦ is_not
]

no_listen_errors :
    (l : ℕ) (fds : List ℕ) (n : ℕ) (es : List Event)
    → 1 ≤ times l fds
    → NoErrors fds es
    → listen_errors l (take n es) ≡ []
unfolding listen_errors
no_listen_errors l fds zero es own sound = refl
no_listen_errors l fds (suc n) [] own sound = refl
no_listen_errors l fds (suc n) (e ∷ es) own (here, others) =
    rw (missed l e.fd fds e.epollerr own here) (no_listen_errors l fds n es own others)

no_round_closes :
    (l : ℕ) (fds : List ℕ) (nfds : ℤ) (es : List Event)
    → 1 ≤ times l fds
    → NoErrors fds es
    → round_closes l nfds es ≡ []
unfolding round_closes
no_round_closes l fds (pos n) es own sound = no_listen_errors l fds n es own sound
no_round_closes l fds (negsuc n) es own sound = refl

module _ (os : Errors) where
  -- The loop has ended, and if it met no such error, with the server's own descriptors as they were.
  abbrev pub Ended : Type 0 → Process → Option Outcome → Type 0
  Ended quiet p none = ⊥
  Ended quiet p (some (ended q)) =
      (q.server.listen_fd ≡ p.server.listen_fd)
      × (q.epoll_fd ≡ p.epoll_fd)
      × (quiet → q.closed ≡ p.closed)
  Ended quiet p (some (looping q)) = ⊥

  from_arrival :
      (quiet : Type 0) (shut : Bool) (p : Process) (o : Option Outcome)
      → Ended quiet (arrive shut p) o
      → Ended quiet p o
  unfolding arrive shutdown
  from_arrival quiet true p none e = e
  from_arrival quiet true p (some (ended q)) e = e
  from_arrival quiet true p (some (looping q)) e = e
  from_arrival quiet false p o e = e

  if_quiet :
      {quiet quiet' : Type 0} (q : Process) (o : Option Outcome)
      → (quiet → quiet')
      → Ended quiet' q o
      → Ended quiet q o
  if_quiet q none calm e = e
  if_quiet q (some (ended u)) calm (listens, epoll, closed) = (listens, epoll, λ h. closed (calm h))
  if_quiet q (some (looping u)) calm e = e

  arrive_halts : (shut : Bool) (p : Process) → shut ≡ true → (arrive shut p).running ≡ false
  unfolding arrive shutdown
  arrive_halts true p now = refl
  arrive_halts false p now = absurd (cc now)

  arrive_listens :
      (shut : Bool) (p : Process) → (arrive shut p).server.listen_fd ≡ p.server.listen_fd
  unfolding arrive shutdown
  arrive_listens true p = refl
  arrive_listens false p = refl

  tests :
      (quiet : Type 0) (b : Bool) (o : Option Outcome) (q : Process)
      → (b ≡ true → Ended quiet q o)
      → Ended quiet q (if b then o else some (ended q))
  tests quiet true o q e = e refl
  tests quiet false o q e = (refl, refl, λ h. refl)

  moved :
      {quiet later : Type 0} (q : Process) (t : Server) (gone : List ℕ) (o : Option Outcome)
      → t.listen_fd ≡ q.server.listen_fd
      → (quiet → (gone ≡ []) × later)
      → Ended later (record q { server = t; closed = q.closed ++ gone }) o
      → Ended quiet q o
  moved q t gone none same calm e = e
  moved q t gone (some (ended u)) same calm (listens, epoll, closed) = (
    listens ∙ same,
    epoll,
    λ h. closed (calm h).1 ∙ ap (λ more. q.closed ++ more) (calm h).0 ∙ append-nil q.closed,
  )
  moved q t gone (some (looping u)) same calm e = e

  -- What follows a round.
  follows :
      (fds : List ℕ) (nfds : ℤ) (es : List Event) (rs : List Round) (q : Process)
      → AllDrained es
      → IsFailure nfds ⊎ Stops rs
      → ((t : Server) (gone : List ℕ)
          → t.listen_fd ≡ q.server.listen_fd
          → Stops rs
          → Ended
              ((1 ≤ times q.server.listen_fd fds) × Sound fds rs)
              (record q { server = t; closed = q.closed ++ gone })
              (rounds os rs (record q { server = t; closed = q.closed ++ gone })))
      → Ended ((1 ≤ times q.server.listen_fd fds) × (NoErrors fds es × Sound fds rs)) q (
          turn os nfds es q.server >>= λ broke_or_went_on. elim broke_or_went_on [
            | none ↦ some (ended q)
            | some s ↦ rounds os rs (record q {
              server = s;
              closed = q.closed ++ round_closes q.server.listen_fd nfds es;
            })
          ])
  unfolding turn
  follows fds (negsuc n) es rs q drained stops goes_on = (refl, refl, λ h. refl)
  follows fds (pos n) es rs q drained (inl failed) goes_on = absurd failed
  follows fds (pos n) es rs q drained (inr later) goes_on =
      after (handle_events os (take n es) q.server) (handle_events-Serves os n es q.server drained)
    where
      gone : List ℕ
      gone = round_closes q.server.listen_fd (pos n) es

      after :
          (r : Option Server)
          → Serves q.server r
          → Ended ((1 ≤ times q.server.listen_fd fds) × (NoErrors fds es × Sound fds rs)) q (
              (r >>= λ s. some (some s)) >>= λ broke_or_went_on. elim broke_or_went_on [
                | none ↦ some (ended q)
                | some s ↦ rounds os rs (record q { server = s; closed = q.closed ++ gone })
              ])
      after none served = absurd served
      after (some t) same =
          moved q t gone _ same
            (λ h. (no_round_closes q.server.listen_fd fds (pos n) es h.0 h.1.0, (h.0, h.1.1)))
            (goes_on t gone same later)

  pub rounds-Ended :
      (fds : List ℕ) (l : ℕ) (rs : List Round) (p : Process)
      → p.server.listen_fd ≡ l
      → Answered rs
      → Stops rs
      → Ended ((1 ≤ times l fds) × Sound fds rs) p (rounds os rs p)
  unfolding rounds
  rounds-Ended fds l [] p listens answered stops = absurd stops
  rounds-Ended fds l (r ∷ rs) p listens (drained, answered) stops =
      let q = arrive r.shut p in
      let quiet = (1 ≤ times l fds) × Sound fds (r ∷ rs) in
      let same : q.server.listen_fd ≡ l = arrive_listens r.shut p ∙ listens in
      from_arrival quiet r.shut p _ (
        tests quiet q.running _ q (λ runs. elim stops [
          | inl now ↦ absurd (cc (runs, arrive_halts r.shut p now))
          | inr later ↦
              if_quiet q _ (subst (λ m. (1 ≤ times m fds) × Sound fds (r ∷ rs)) (sym same)) (
                follows fds r.nfds r.events rs q drained later (λ t gone kept stops_later.
                  rounds-Ended fds q.server.listen_fd rs
                    (record q { server = t; closed = q.closed ++ gone }) kept answered stops_later))
        ]))

  leaves :
      {quiet : Type 0} (p : Process) (o : Option Outcome)
      → Ended quiet p o
      → quiet
      → (o >>= leave) ≡ some (p.closed ++ p.epoll_fd ∷ p.server.listen_fd ∷ [])
  unfolding leave destroy
  leaves p none e h = absurd e
  leaves p (some (ended q)) (listens, epoll, closed) h = rw (listens, epoll, closed h) refl
  leaves p (some (looping q)) e h = absurd e

  swaps : (a b fd : ℕ) → times fd (a ∷ b ∷ []) ≡ times fd (b ∷ a ∷ [])
  unfolding times
  swaps a b fd = omega arith

  owns : (a b : ℕ) (fds : List ℕ) → (a ∷ b ∷ []) ≡ fds → 1 ≤ times a fds
  unfolding times
  owns a b fds same = subst (λ l. 1 ≤ times a l) same (ground arith)

  closes :
      (rs : List Round) (fds : List ℕ) (b : Built)
      → Answered rs
      → Stops rs
      → Sound fds rs
      → Accounts b fds
      → (closed : List ℕ) × (live os rs b ≡ some closed)
        × ((fd : ℕ) → times fd closed ≡ times fd fds)
  unfolding live
  closes rs fds (threw closed) answered stops sound accounts =
      (closed, refl, λ fd. ap (times fd) accounts)
  closes rs fds (built s epoll_fd) answered stops sound accounts =
      let p : Process = record { running = true; server = s; epoll_fd = epoll_fd; closed = [] } in
      (
        epoll_fd ∷ s.listen_fd ∷ [],
        leaves p (rounds os rs p) (rounds-Ended fds s.listen_fd rs p refl answered stops)
            (owns s.listen_fd epoll_fd fds accounts, sound),
        λ fd. swaps epoll_fd s.listen_fd fd ∙ ap (times fd) accounts,
      )

  -- The pool left aside, when the accept loops come to an end, `shutdown` is called at some time or a
  -- wait fails, and no event reports an error on one of the server's own descriptors, whichever
  -- calls fail in the constructor and whatever other events come: the life of a server comes to its
  -- end, and the descriptors of its own that the kernel gave it have then been closed, once each.
  pub life_closes :
      (rs : List Round) (c : Calls)
      → Answered rs
      → Stops rs
      → Sound (opened c) rs
      → (closed : List ℕ) × (life os rs c ≡ some closed)
        × ((fd : ℕ) → times fd closed ≡ times fd (opened c))
  unfolding life
  life_closes rs c answered stops sound =
      closes rs (opened c) (construct c) answered stops sound (construct-Accounts c)
