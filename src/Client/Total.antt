-- ===== src/Client/Total.antt =====
-- The whole client: the shares, the threads and the report.
use native.Mathlib.Nat.{suc-mul, add-mul}
use kernel_net.Prelude.{
  ℕ, zero, suc, ◌*◌, ◌%◌, ◌^◌, ◌≤◌, ◌≡◌, refl, ap, ◌∙◌, subst, List, [], ◌∷◌, Option, none, some,
  arith, length,
}
use kernel_net.Client.{
  Tally, Connection, no_socket, no_address, refused, connected, run_threads, no_tally, shares,
}
use kernel_net.Client.Shares.{sum, Shared, shares-Shared}
use kernel_net.Client.Counts.{
  After, Ends, attempts, thread_attempts, all_attempts, all_sockets, AllPrepared, run_threads-Ends,
}

module _ {D : Type 0} where
  abbrev pub Connected : Connection D → Type 0
  Connected (connected fd es) = Unit
  Connected _ = ⊥

  abbrev pub AllConnected : ℕ → List (Connection D) → Type 0
  AllConnected zero cs = Unit
  AllConnected (suc n) [] = ⊥
  AllConnected (suc n) (c ∷ cs) = Connected c × AllConnected n cs

  abbrev pub EachConnected : List ℕ → List (List (Connection D)) → Type 0
  EachConnected [] inputs = Unit
  EachConnected (n ∷ counts) [] = ⊥
  EachConnected (n ∷ counts) (cs ∷ inputs) = AllConnected n cs × EachConnected counts inputs

  module _ (size r : ℕ) where
    attempts_of : (c : Connection D) → Connected c → attempts size r c ≡ r
    attempts_of no_socket made = elim made [ ]
    attempts_of (no_address fd) made = elim made [ ]
    attempts_of (refused fd) made = elim made [ ]
    attempts_of (connected fd es) made = refl

    thread_attempts_of :
        (n : ℕ) (cs : List (Connection D)) → AllConnected n cs → thread_attempts size r n cs ≡ n * r
    thread_attempts_of zero cs made = omega arith
    thread_attempts_of (suc n) [] made = elim made [ ]
    thread_attempts_of (suc n) (c ∷ cs) (made, others) =
        omega (arith, attempts_of c made, thread_attempts_of n cs others, suc-mul n r)

    all_attempts_of :
        (counts : List ℕ) (inputs : List (List (Connection D)))
        → EachConnected counts inputs
        → all_attempts size r counts inputs ≡ sum counts * r
    unfolding sum
    all_attempts_of [] inputs made = omega arith
    all_attempts_of (n ∷ counts) [] made = elim made [ ]
    all_attempts_of (n ∷ counts) (cs ∷ inputs) (made, others) = omega (
      arith,
      thread_attempts_of n cs made,
      all_attempts_of counts inputs others,
      add-mul n (sum counts) r,
    )

    -- What is left when the threads have ended.
    ended :
        (n : ℕ) (fds : List ℕ) (result : Option (Tally D))
        → Ends no_tally n fds result
        → (u : Tally D) × (result ≡ some u) × After no_tally n fds u
    ended n fds none ends = absurd ends
    ended n fds (some u) a = (u, refl, a)

    -- When every connection is made and every loop of every request ends, the threads among which
    -- the connections are shared complete as many requests as there are connections times requests
    -- for each, modulo 2^64, note at most one latency for each, and have closed the sockets that they
    -- opened, once each and in order.
    pub completes_all :
        (connections threads : ℕ) (counts : List ℕ) (inputs : List (List (Connection D)))
        → shares connections threads ≡ some counts
        → EachConnected counts inputs
        → AllPrepared size r counts inputs
        → (u : Tally D) × (run_threads size r counts inputs no_tally ≡ some u)
          × (u.completed ≡ connections * r % 2 ^ 64)
          × (u.closed ≡ all_sockets counts inputs)
          × (length u.latencies_ms ≤ connections * r)
    completes_all connections threads counts inputs shared made prepared =
        let (adds_up, _, _, _) =
          subst (Shared connections threads) shared (shares-Shared connections threads) in
        let (u, result, a) =
          ended (all_attempts size r counts inputs) (all_sockets counts inputs)
            (run_threads size r counts inputs no_tally)
            (run_threads-Ends size r counts inputs no_tally (omega arith) prepared) in
        (
          u,
          result,
          a.completed
              ∙ ap (λ (n : ℕ). n % 2 ^ 64)
                  (omega
                    (arith, all_attempts_of counts inputs made, ap (λ (n : ℕ). n * r) adds_up)),
          a.closed,
          omega (
            arith,
            a.latencies,
            all_attempts_of counts inputs made,
            ap (λ (n : ℕ). n * r) adds_up,
          ),
        )
