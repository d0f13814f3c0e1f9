-- ===== src/Client/Whole.antt =====
-- The result of the whole benchmark: it exists, and what it reports.
use kernel_net.Prelude.{
  ℕ, zero, suc, ◌*◌, ◌^◌, ◌≤◌, ◌<◌, ◌≡◌, ◌≢◌, ◌-◌, refl, ap, subst, List, [], ◌∷◌, none, some,
  arith, length, Option-cases, inl, inr, sub_size,
}
use kernel_net.Client.{
  Tally, Connection, shares, Doubles, Stats, at, report, run_benchmark, no_tally,
}
use kernel_net.Client.Counts.{AllPrepared}
use kernel_net.Client.Full.{all_full, noted_full}
use kernel_net.Client.Total.{EachConnected, completes_all}

module _ {D : Type 0} where
  at_within : (xs : List D) (i : ℕ) → i < length xs → at xs i ≢ none
  at_within [] i h e = absurd (omega (arith, h))
  at_within (x ∷ xs) zero h e = cc
  at_within (x ∷ xs) (suc i) h e = at_within xs i (omega (arith, h)) e

  -- What the report relies on: the rounded-up 99 per cent of a number from 1 on lies between 1 and
  -- that number, and sorting keeps the length.
  pub record Rounds (d : Doubles D) : Type 0 where
    pub ceil_bounds : (n : ℕ) → 1 ≤ n → (1 ≤ d.ceil_99 n) × (d.ceil_99 n ≤ n)
    pub keeps : (xs : List D) → length (d.sort xs) ≡ length xs

  -- What is reported of these latencies: zeros without any; else the rate of what was completed, the
  -- latency at the rank of the rounded-up 99 per cent, and the mean.
  abbrev pub Reports : Doubles D → (completed : ℕ) → (elapsed_sec : D) → List D → Stats D → Type 0
  Reports d completed elapsed_sec [] s =
      (s.rps ≡ d.nought) × (s.p99_latency_ms ≡ d.nought) × (s.avg_latency_ms ≡ d.nought)
  Reports d completed elapsed_sec (x ∷ xs) s =
      (s.rps ≡ d.rate completed elapsed_sec)
      × (at (d.sort (x ∷ xs)) (d.ceil_99 (length (x ∷ xs)) - 1) ≡ some s.p99_latency_ms)
      × (s.avg_latency_ms ≡ d.mean (d.sort (x ∷ xs)))

  module _ (d : Doubles D) (rounds : Rounds d) where
    -- The report reads no latency past the end.
    report_is_defined :
        (latencies : List D) (t : Tally D) (elapsed_sec : D)
        → t.latencies_ms ≡ latencies
        → length latencies < 2 ^ 64
        → (s : Stats D) × (report d t elapsed_sec ≡ some s)
          × Reports d t.completed elapsed_sec latencies s
    unfolding report
    report_is_defined [] t elapsed_sec same fits = rw same (
      record { rps = d.nought; p99_latency_ms = d.nought; avg_latency_ms = d.nought },
      refl,
      (refl, refl, refl),
    )
    report_is_defined (x ∷ xs) t elapsed_sec same fits =
        let sorted : List D = d.sort (x ∷ xs) in
        let rank : ℕ = d.ceil_99 (length (x ∷ xs)) in
        let bounds : (1 ≤ rank) × (rank ≤ length (x ∷ xs)) =
          rounds.ceil_bounds (length (x ∷ xs)) (omega arith) in
        let index : sub_size rank 1 ≡ rank - 1 = omega (arith, bounds, fits) in
        elim (Option-cases (at sorted (rank - 1))) [
          | inl outside ↦
              absurd
                (at_within sorted (rank - 1) (omega (arith, bounds, rounds.keeps (x ∷ xs))) outside)
          | inr (p99, found) ↦
              rw (same, index, found)
                (
                  record {
                    rps = d.rate t.completed elapsed_sec;
                    p99_latency_ms = p99;
                    avg_latency_ms = d.mean sorted;
                  },
                  refl,
                  (refl, refl, refl),
                )
        ]

    -- When every connection is made, every loop of every request ends, and there are fewer than 2^64
    -- requests: the benchmark returns, it reads no latency past the end, and it reports of the times
    -- of exactly those requests whose reply was full. Without any full reply it reports zeros; else
    -- its rate counts every request, whether its reply was full or cut short, its percentile is the
    -- time at the rank of the rounded-up 99 per cent of the sorted times of the full replies, and its
    -- average is their mean.
    pub run_benchmark_result :
        (connections r size threads : ℕ) (counts : List ℕ) (inputs : List (List (Connection D)))
        (elapsed_sec : D)
        → connections * r < 2 ^ 64
        → shares connections threads ≡ some counts
        → EachConnected counts inputs
        → AllPrepared size r counts inputs
        → (s : Stats D) × (run_benchmark d connections r size threads inputs elapsed_sec ≡ some s)
          × Reports d (connections * r) elapsed_sec (all_full size r counts inputs) s
    unfolding run_benchmark
    run_benchmark_result connections r size threads counts inputs elapsed_sec few shared made
          prepared =
        let (t, result, all, _, noted) =
          completes_all size r connections threads counts inputs shared made prepared in
        let full = all_full size r counts inputs in
        let times : t.latencies_ms ≡ full = noted_full size r counts inputs no_tally t result in
        let (s, is, reports) =
          report_is_defined full t elapsed_sec times (omega (arith, noted, few, ap length times)) in
        let same : t.completed ≡ connections * r = omega (arith, all, few) in
        (s, rw (shared, result) is, subst (λ (n : ℕ). Reports d n elapsed_sec full s) same reports)
