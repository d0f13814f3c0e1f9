-- ===== src/Client/Counts.antt =====
-- What the threads of the client count.
use kernel_net.Prelude.{
  ℕ, zero, suc, ◌+◌, ◌%◌, ◌^◌, ◌≤◌, ◌<◌, ◌≡◌, refl, sym, ap, ◌∙◌, subst, Bool, true, false, List,
  [], ◌∷◌, ◌++◌, append_assoc, append-nil, Option, none, some, ◌>>=◌, ◌==◌, if◌then◌else◌, length,
  length-append, arith,
}
use kernel_net.Client.{
  send_loop, receive_loop, Exchange, Tally, Connection, no_socket, no_address, refused, connected,
  complete, note_latency, request, requests, serve, thread_func, run_threads, close,
}

module _ {D : Type 0} where
  -- The descriptors that the first connections of a thread open, and those of all threads.
  abbrev pub sockets : Connection D → List ℕ
  sockets no_socket = []
  sockets (no_address fd) = fd ∷ []
  sockets (refused fd) = fd ∷ []
  sockets (connected fd es) = fd ∷ []

  abbrev pub thread_sockets : ℕ → List (Connection D) → List ℕ
  thread_sockets zero cs = []
  thread_sockets (suc n) [] = []
  thread_sockets (suc n) (c ∷ cs) = sockets c ++ thread_sockets n cs

  abbrev pub all_sockets : List ℕ → List (List (Connection D)) → List ℕ
  all_sockets [] inputs = []
  all_sockets (n ∷ shares) [] = []
  all_sockets (n ∷ shares) (cs ∷ inputs) = thread_sockets n cs ++ all_sockets shares inputs

  -- What `u` has more than `t`: so many requests completed, these descriptors closed, and at most
  -- one latency for each request.
  pub record After (t : Tally D) (n : ℕ) (fds : List ℕ) (u : Tally D) : Type 0 where
    pub completed : u.completed ≡ (t.completed + n) % 2 ^ 64
    pub closed : u.closed ≡ t.closed ++ fds
    pub latencies : length u.latencies_ms ≤ length t.latencies_ms + n

  abbrev pub Ends : Tally D → ℕ → List ℕ → Option (Tally D) → Type 0
  Ends t n fds none = ⊥
  Ends t n fds (some u) = After t n fds u

  nothing_after : (t : Tally D) → t.completed < 2 ^ 64 → After t 0 [] t
  nothing_after t fits = record {
    completed = omega (arith, fits);
    closed = sym (append-nil t.closed);
    latencies = omega arith;
  }

  After-trans :
      {t u v : Tally D} {n m : ℕ} {fds gds : List ℕ}
      → After t n fds u
      → After u m gds v
      → After t (n + m) (fds ++ gds) v
  After-trans {t} {fds = fds} {gds} a b = record {
    completed = omega (arith, a.completed, b.completed);
    closed = b.closed ∙ ap (λ l. l ++ gds) a.closed ∙ append_assoc t.closed fds gds;
    latencies = omega (arith, a.latencies, b.latencies);
  }

  then_Ends :
      {t u : Tally D} {n : ℕ} {fds : List ℕ} (m : ℕ) (gds : List ℕ)
      → After t n fds u
      → (r : Option (Tally D)) → Ends u m gds r
      → Ends t (n + m) (fds ++ gds) r
  then_Ends m gds a none ends = ends
  then_Ends m gds a (some v) b = After-trans a b

  -- What holds of two stages holds of one after the other.
  bind-Ends :
      {t : Tally D} {n : ℕ} {fds : List ℕ} (m : ℕ) (gds : List ℕ) (r : Option (Tally D))
      (f : Tally D → Option (Tally D))
      → Ends t n fds r
      → ((u : Tally D) → After t n fds u → Ends u m gds (f u))
      → Ends t (n + m) (fds ++ gds) (r >>= f)
  bind-Ends m gds none f ends next = ends
  bind-Ends m gds (some u) f a next = then_Ends m gds a (f u) (next u a)

  After-fits : {t u : Tally D} {n : ℕ} {fds : List ℕ} → After t n fds u → u.completed < 2 ^ 64
  After-fits a = omega (arith, a.completed)

  close-After : (fd : ℕ) (t : Tally D) → t.completed < 2 ^ 64 → After t 0 (fd ∷ []) (close fd t)
  close-After fd t fits = record {
    completed = omega (arith, fits);
    closed = refl;
    latencies = omega arith;
  }

  complete-After :
      (full : Bool) (ms : D) (t : Tally D)
      → After t 1 []
          (complete (if full then record t { latencies_ms = t.latencies_ms ++ ms ∷ [] } else t))
  unfolding complete
  complete-After true ms t = record {
    completed = refl;
    closed = sym (append-nil t.closed);
    latencies = omega (arith, length-append t.latencies_ms (ms ∷ []));
  }
  complete-After false ms t = record {
    completed = refl;
    closed = sym (append-nil t.closed);
    latencies = omega arith;
  }

  module _ (size : ℕ) where
    -- The two loops of a request end.
    pub record Settled (e : Exchange D) : Type 0 where
      pub sent : ℕ
      pub recvd : ℕ
      pub sends : send_loop e.writes size 0 ≡ some sent
      pub receives : receive_loop e.reads size 0 ≡ some recvd

    abbrev pub Ready : ℕ → List (Exchange D) → Type 0
    Ready zero es = Unit
    Ready (suc r) [] = ⊥
    Ready (suc r) (e ∷ es) = Settled e × Ready r es

    request-Ends : (e : Exchange D) (t : Tally D) → Settled e → Ends t 1 [] (request size e t)
    unfolding request note_latency
    request-Ends e t settled =
        rw (settled.sends, settled.receives) (complete-After (settled.recvd == size) e.ms t)

    requests-Ends :
        (r : ℕ) (es : List (Exchange D)) (t : Tally D)
        → t.completed < 2 ^ 64
        → Ready r es
        → Ends t r [] (requests size r es t)
    unfolding requests
    requests-Ends zero es t fits ready = nothing_after t fits
    requests-Ends (suc r) (e ∷ es) t fits (settled, ready) =
        subst (λ (k : ℕ). Ends t k [] (request size e t >>= requests size r es)) (omega arith)
          (bind-Ends r [] (request size e t) (requests size r es) (request-Ends e t settled)
            (λ u a. requests-Ends r es u (After-fits a) ready))
    requests-Ends (suc r) [] t fits ready = absurd ready

    module _ (r : ℕ) where
      -- The connections that are made have their requests settled.
      abbrev pub Serves : Connection D → Type 0
      Serves (connected fd es) = Ready r es
      Serves _ = Unit

      abbrev pub attempts : Connection D → ℕ
      attempts (connected fd es) = r
      attempts _ = 0

      serve-Ends :
          (c : Connection D) (t : Tally D)
          → t.completed < 2 ^ 64
          → Serves c
          → Ends t (attempts c) (sockets c) (serve size r c t)
      unfolding serve
      serve-Ends no_socket t fits ready = nothing_after t fits
      serve-Ends (no_address fd) t fits ready = close-After fd t fits
      serve-Ends (refused fd) t fits ready = close-After fd t fits
      serve-Ends (connected fd es) t fits ready =
          subst (λ (k : ℕ). Ends t k (fd ∷ []) (serve size r (connected fd es) t)) (omega arith)
            (bind-Ends 0 (fd ∷ []) (requests size r es t) (λ u. some (close fd u))
              (requests-Ends r es t fits ready) (λ u a. close-After fd u (After-fits a)))

      -- A thread has an input for each of its connections.
      abbrev pub Prepared : ℕ → List (Connection D) → Type 0
      Prepared zero cs = Unit
      Prepared (suc n) [] = ⊥
      Prepared (suc n) (c ∷ cs) = Serves c × Prepared n cs

      abbrev pub thread_attempts : ℕ → List (Connection D) → ℕ
      thread_attempts zero cs = 0
      thread_attempts (suc n) [] = 0
      thread_attempts (suc n) (c ∷ cs) = attempts c + thread_attempts n cs

      thread_func-Ends :
          (n : ℕ) (cs : List (Connection D)) (t : Tally D)
          → t.completed < 2 ^ 64
          → Prepared n cs
          → Ends t (thread_attempts n cs) (thread_sockets n cs) (thread_func size r n cs t)
      unfolding thread_func
      thread_func-Ends zero cs t fits ready = nothing_after t fits
      thread_func-Ends (suc n) [] t fits ready = absurd ready
      thread_func-Ends (suc n) (c ∷ cs) t fits (serves, ready) =
          bind-Ends (thread_attempts n cs) (thread_sockets n cs) (serve size r c t)
            (thread_func size r n cs) (serve-Ends c t fits serves)
            (λ u a. thread_func-Ends n cs u (After-fits a) ready)

      abbrev pub AllPrepared : List ℕ → List (List (Connection D)) → Type 0
      AllPrepared [] inputs = Unit
      AllPrepared (n ∷ shares) [] = ⊥
      AllPrepared (n ∷ shares) (cs ∷ inputs) = Prepared n cs × AllPrepared shares inputs

      abbrev pub all_attempts : List ℕ → List (List (Connection D)) → ℕ
      all_attempts [] inputs = 0
      all_attempts (n ∷ shares) [] = 0
      all_attempts (n ∷ shares) (cs ∷ inputs) = thread_attempts n cs + all_attempts shares inputs

      -- When every loop of every request ends: the threads come to an end, every request of a
      -- connection that was made is counted, modulo 2^64, whether its reply was full or not, at most
      -- one latency is noted for each, and the sockets that were opened are closed, once each.
      pub run_threads-Ends :
          (shares : List ℕ) (inputs : List (List (Connection D))) (t : Tally D)
          → t.completed < 2 ^ 64
          → AllPrepared shares inputs
          → Ends t
              (all_attempts shares inputs)
              (all_sockets shares inputs)
              (run_threads size r shares inputs t)
      unfolding run_threads
      run_threads-Ends [] inputs t fits ready = nothing_after t fits
      run_threads-Ends (n ∷ shares) [] t fits ready = absurd ready
      run_threads-Ends (n ∷ shares) (cs ∷ inputs) t fits (prepared, ready) =
          bind-Ends (all_attempts shares inputs) (all_sockets shares inputs)
            (thread_func size r n cs t) (run_threads size r shares inputs)
            (thread_func-Ends n cs t fits prepared)
            (λ u a. run_threads-Ends shares inputs u (After-fits a) ready)
