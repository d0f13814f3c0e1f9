-- ===== src/Client.antt =====
-- echo_server/bench/bench_client.cpp: the benchmark client. What the system calls answer is an input;
-- `none` stands for a loop that has not ended with the answers given. The threads run one after
-- another on the shared tally here; Client/Effects has what each does to it, access by access, and
-- Client/Schedules runs them under any schedule.
pub mod Config
pub mod Shares
pub mod Counts
pub mod Replies
pub mod Total
pub mod Full
pub mod Whole
pub mod Program
pub mod Effects
pub mod Schedules
mod Tests
use kernel_net.Prelude.{
  ℕ, zero, suc, ◌+◌, ◌*◌, ◌/◌, ◌%◌, ◌^◌, Bool, true, false, List, [], ◌∷◌, ◌++◌, Option, none, some,
  ℤ, pos, negsuc, ◌>>=◌, ◌==◌, ltb, if◌then◌else◌, add_size, sub_size, length, map, upto,
}

-- The loop that writes the message: how many bytes were sent when it ends.
unfoldable pub send_loop : List ℤ → ℕ → ℕ → Option ℕ
send_loop [] size sent = if ltb sent size then none else some sent
send_loop (negsuc _ ∷ answers) size sent = some sent
send_loop (pos n ∷ answers) size sent =
    let rest = send_loop answers size (sent + n) in if ltb sent size then rest else some sent

-- The loop that reads the reply: how many bytes were received when it ends.
unfoldable pub receive_loop : List ℤ → ℕ → ℕ → Option ℕ
receive_loop [] size recvd = if ltb recvd size then none else some recvd
receive_loop (negsuc _ ∷ answers) size recvd = some recvd
receive_loop (pos zero ∷ answers) size recvd = some recvd
receive_loop (pos (suc n) ∷ answers) size recvd =
    let rest = receive_loop answers size (recvd + suc n) in
    if ltb recvd size then rest else some recvd

-- One request: what `write` and `read` answer, and the time that it takes.
pub record Exchange (D : Type 0) : Type 0 where
  pub writes : List ℤ
  pub reads : List ℤ
  pub ms : D

-- What the threads share, with the descriptors closed so far.
pub record Tally (D : Type 0) : Type 0 where
  pub latencies_ms : List D
  pub completed : ℕ
  pub closed : List ℕ

-- A connection fails at `socket`, `inet_pton` or `connect`, or is made.
pub data Connection (D : Type 0) : Type 0 where
  no_socket : Connection D
  no_address : (fd : ℕ) → Connection D
  refused : (fd : ℕ) → Connection D
  connected : (fd : ℕ) (exchanges : List (Exchange D)) → Connection D

module _ {D : Type 0} where
  abbrev pub close : ℕ → Tally D → Tally D
  close fd t = record t { closed = t.closed ++ fd ∷ [] }

  -- `completed.fetch_add(1)`
  unfoldable pub complete : Tally D → Tally D
  complete t = record t { completed = add_size t.completed 1 }

  unfoldable pub note_latency : ℕ → ℕ → D → Tally D → Tally D
  note_latency size recvd ms t =
      if recvd == size then record t { latencies_ms = t.latencies_ms ++ ms ∷ [] } else t

  module _ (size : ℕ) where
    unfoldable pub request : Exchange D → Tally D → Option (Tally D)
    request e t = send_loop e.writes size 0 >>= λ sent.
        receive_loop e.reads size 0 >>= λ recvd. some (complete (note_latency size recvd e.ms t))

    -- The loop over the requests of a connection.
    unfoldable pub requests : ℕ → List (Exchange D) → Tally D → Option (Tally D)
    requests zero es t = some t
    requests (suc r) [] t = none
    requests (suc r) (e ∷ es) t = request e t >>= requests r es

    module _ (requests_per_conn : ℕ) where
      unfoldable pub serve : Connection D → Tally D → Option (Tally D)
      serve no_socket t = some t
      serve (no_address fd) t = some (close fd t)
      serve (refused fd) t = some (close fd t)
      serve (connected fd es) t = requests requests_per_conn es t >>= λ u. some (close fd u)

      -- `thread_func`
      unfoldable pub thread_func : ℕ → List (Connection D) → Tally D → Option (Tally D)
      thread_func zero cs t = some t
      thread_func (suc conns) [] t = none
      thread_func (suc conns) (c ∷ cs) t = serve c t >>= thread_func conns cs

      -- The threads, each with the number of its connections.
      unfoldable pub run_threads : List ℕ → List (List (Connection D)) → Tally D → Option (Tally D)
      run_threads [] inputs t = some t
      run_threads (n ∷ shares) [] t = none
      run_threads (n ∷ shares) (cs ∷ inputs) t = thread_func n cs t >>= run_threads shares inputs

  abbrev pub no_tally : Tally D
  no_tally = record { latencies_ms = []; completed = 0; closed = [] }

-- How many connections thread `t` opens.
unfoldable pub share : (num_connections num_threads t : ℕ) → ℕ
share num_connections num_threads t =
    num_connections / num_threads + (if ltb t (num_connections % num_threads) then 1 else 0)

-- The shares of all threads; without threads the division is undefined.
unfoldable pub shares : (num_connections num_threads : ℕ) → Option (List ℕ)
shares num_connections zero = none
shares num_connections (suc n) = some (map (share num_connections (suc n)) (upto (suc n)))

-- What the client does with floating-point numbers.
pub record Doubles (D : Type 0) : Type 0 where
  pub nought : D
  pub sort : List D → List D
  pub ceil_99 : ℕ → ℕ  -- `static_cast<size_t>(std::ceil(0.99 * n))`
  pub rate : ℕ → D → D  -- `static_cast<double>(completed) / elapsed_sec`
  pub mean : List D → D

pub record Stats (D : Type 0) : Type 0 where
  pub rps : D
  pub p99_latency_ms : D
  pub avg_latency_ms : D

module _ {D : Type 0} where
  -- Reading past the end of a vector is undefined.
  abbrev pub at : List D → ℕ → Option D
  at [] i = none
  at (x ∷ xs) zero = some x
  at (x ∷ xs) (suc i) = at xs i

  -- What follows the joins of the threads.
  unfoldable pub report : Doubles D → Tally D → D → Option (Stats D)
  report d t elapsed_sec = elim t.latencies_ms [
    | [] ↦ some (record { rps = d.nought; p99_latency_ms = d.nought; avg_latency_ms = d.nought })
    | x ∷ xs ↦
        let sorted = d.sort (x ∷ xs) in
        at sorted (sub_size (d.ceil_99 (length (x ∷ xs))) 1) >>= λ p99. some (record {
          rps = d.rate t.completed elapsed_sec;
          p99_latency_ms = p99;
          avg_latency_ms = d.mean sorted;
        })
  ]

  -- The result of the whole benchmark, from what happens to the connections of each thread.
  unfoldable pub run_benchmark :
      Doubles D
      → (num_connections requests_per_conn message_size num_threads : ℕ)
      → List (List (Connection D))
      → (elapsed_sec : D) → Option (Stats D)
  run_benchmark d num_connections requests_per_conn message_size num_threads inputs elapsed_sec =
      shares num_connections num_threads >>= λ counts.
      run_threads message_size requests_per_conn counts inputs no_tally >>= λ t.
      report d t elapsed_sec
