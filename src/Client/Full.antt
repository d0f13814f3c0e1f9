-- ===== src/Client/Full.antt =====
-- Which latencies the threads of the client note: those of the full replies.
use kernel_net.Prelude.{
  ℕ, zero, suc, ◌≡◌, refl, sym, ap, ◌∙◌, subst, Bool, true, false, List, [], ◌∷◌, ◌++◌,
  append_assoc, append-nil, Option, none, some, ◌>>=◌, ◌==◌, if◌then◌else◌,
}
use kernel_net.Client.{
  send_loop, receive_loop, Exchange, Tally, Connection, no_socket, no_address, refused, connected,
  complete, note_latency, request, requests, serve, thread_func, run_threads, close,
}

module _ {D : Type 0} where
  -- `u` has these latencies more than `t`, if there is a `u`.
  abbrev Notes : Tally D → List D → Option (Tally D) → Type 0
  Notes t more none = Unit
  Notes t more (some u) = u.latencies_ms ≡ t.latencies_ms ++ more

  then_Notes :
      (t u : Tally D) (xs ys : List D) (o : Option (Tally D))
      → u.latencies_ms ≡ t.latencies_ms ++ xs
      → Notes u ys o
      → Notes t (xs ++ ys) o
  then_Notes t u xs ys none first second = tt
  then_Notes t u xs ys (some v) first second =
      second ∙ ap (λ l. l ++ ys) first ∙ append_assoc t.latencies_ms xs ys

  bind-Notes :
      (t : Tally D) (xs ys : List D) (o : Option (Tally D)) (f : Tally D → Option (Tally D))
      → Notes t xs o
      → ((u : Tally D) → Notes u ys (f u))
      → Notes t (xs ++ ys) (o >>= f)
  bind-Notes t xs ys none f first second = tt
  bind-Notes t xs ys (some u) f first second = then_Notes t u xs ys (f u) first (second u)

  module _ (size : ℕ) where
    -- The time of a request whose reply is full: the loop that reads it ends with `size` bytes.
    abbrev reply_of : D → Option ℕ → List D
    reply_of ms none = []
    reply_of ms (some recvd) = if recvd == size then ms ∷ [] else []

    abbrev pub full_reply : Exchange D → List D
    full_reply e = reply_of e.ms (receive_loop e.reads size 0)

    abbrev pub full_replies : ℕ → List (Exchange D) → List D
    full_replies zero es = []
    full_replies (suc r) [] = []
    full_replies (suc r) (e ∷ es) = full_reply e ++ full_replies r es

    request-Notes : (e : Exchange D) (t : Tally D) → Notes t (full_reply e) (request size e t)
    unfolding request note_latency complete
    request-Notes e t = stages (send_loop e.writes size 0) (receive_loop e.reads size 0)
      where
        either :
            (b : Bool)
            → (if b
                then record t { latencies_ms = t.latencies_ms ++ e.ms ∷ [] }
                else t).latencies_ms
              ≡ t.latencies_ms ++ (if b then e.ms ∷ [] else [])
        either true = refl
        either false = sym (append-nil t.latencies_ms)

        stages :
            (sends receives : Option ℕ)
            → Notes t (reply_of e.ms receives) (
                sends >>= λ sent.
                receives >>= λ recvd. some (complete (note_latency size recvd e.ms t)))
        stages none receives = tt
        stages (some sent) none = tt
        stages (some sent) (some recvd) = either (recvd == size)

    requests-Notes :
        (r : ℕ) (es : List (Exchange D)) (t : Tally D)
        → Notes t (full_replies r es) (requests size r es t)
    unfolding requests
    requests-Notes zero es t = sym (append-nil t.latencies_ms)
    requests-Notes (suc r) [] t = tt
    requests-Notes (suc r) (e ∷ es) t =
        bind-Notes t (full_reply e) (full_replies r es) (request size e t) (requests size r es)
          (request-Notes e t) (requests-Notes r es)

    module _ (r : ℕ) where
      abbrev pub connection_full : Connection D → List D
      connection_full (connected fd es) = full_replies r es
      connection_full _ = []

      abbrev pub thread_full : ℕ → List (Connection D) → List D
      thread_full zero cs = []
      thread_full (suc n) [] = []
      thread_full (suc n) (c ∷ cs) = connection_full c ++ thread_full n cs

      -- The times of all full replies, thread by thread.
      abbrev pub all_full : List ℕ → List (List (Connection D)) → List D
      all_full [] inputs = []
      all_full (n ∷ counts) [] = []
      all_full (n ∷ counts) (cs ∷ inputs) = thread_full n cs ++ all_full counts inputs

      closes-Notes :
          (fd : ℕ) (t : Tally D) (xs : List D) (o : Option (Tally D))
          → Notes t xs o
          → Notes t xs (o >>= λ u. some (close fd u))
      closes-Notes fd t xs none notes = tt
      closes-Notes fd t xs (some u) notes = notes

      serve-Notes :
          (c : Connection D) (t : Tally D) → Notes t (connection_full c) (serve size r c t)
      unfolding serve
      serve-Notes no_socket t = sym (append-nil t.latencies_ms)
      serve-Notes (no_address fd) t = sym (append-nil t.latencies_ms)
      serve-Notes (refused fd) t = sym (append-nil t.latencies_ms)
      serve-Notes (connected fd es) t =
          closes-Notes fd t (full_replies r es) (requests size r es t) (requests-Notes r es t)

      thread_func-Notes :
          (n : ℕ) (cs : List (Connection D)) (t : Tally D)
          → Notes t (thread_full n cs) (thread_func size r n cs t)
      unfolding thread_func
      thread_func-Notes zero cs t = sym (append-nil t.latencies_ms)
      thread_func-Notes (suc n) [] t = tt
      thread_func-Notes (suc n) (c ∷ cs) t =
          bind-Notes t (connection_full c) (thread_full n cs) (serve size r c t)
            (thread_func size r n cs) (serve-Notes c t) (thread_func-Notes n cs)

      -- The threads note the latencies of the full replies, and no other.
      pub run_threads-Notes :
          (counts : List ℕ) (inputs : List (List (Connection D))) (t : Tally D)
          → Notes t (all_full counts inputs) (run_threads size r counts inputs t)
      unfolding run_threads
      run_threads-Notes [] inputs t = sym (append-nil t.latencies_ms)
      run_threads-Notes (n ∷ counts) [] t = tt
      run_threads-Notes (n ∷ counts) (cs ∷ inputs) t =
          bind-Notes t (thread_full n cs) (all_full counts inputs) (thread_func size r n cs t)
            (run_threads size r counts inputs) (thread_func-Notes n cs t)
            (run_threads-Notes counts inputs)

      -- So they have noted, when they have ended.
      pub noted_full :
          (counts : List ℕ) (inputs : List (List (Connection D))) (t u : Tally D)
          → run_threads size r counts inputs t ≡ some u
          → u.latencies_ms ≡ t.latencies_ms ++ all_full counts inputs
      noted_full counts inputs t u result =
          subst (Notes t (all_full counts inputs)) result (run_threads-Notes counts inputs t)
