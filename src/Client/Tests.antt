-- ===== src/Client/Tests.antt =====
-- Three connections on two threads, one request of two bytes each, and the theorems at them.
use kernel_net.Prelude.{ℕ, ◌+◌, ◌*◌, ◌/◌, ◌≡◌, refl, List, [], ◌∷◌, some, pos, arith}
use kernel_net.Client.{
  Exchange, Connection, connected, send_loop, receive_loop, share, shares, Doubles, Stats,
  run_benchmark,
}
use kernel_net.Client.Counts.{Settled, AllPrepared}
use kernel_net.Client.Replies.{arriving, breaks, receive_loop_result}
use kernel_net.Client.Shares.{Shared, shares-Shared}
use kernel_net.Client.Whole.{Reports, run_benchmark_result}
use kernel_net.Client.Total.{EachConnected}

-- The reply comes in two pieces.
abbrev echoed : Exchange ℕ
echoed = record { writes = pos 2 ∷ []; reads = pos 1 ∷ pos 1 ∷ []; ms = 5 }

-- The connection ends after one byte.
abbrev cut : Exchange ℕ
cut = record { writes = pos 2 ∷ []; reads = pos 1 ∷ pos 0 ∷ []; ms = 5 }

abbrev inputs : List (List (Connection ℕ))
inputs =
    (connected 4 (echoed ∷ []) ∷ connected 5 (cut ∷ []) ∷ [])
    ∷ (connected 6 (echoed ∷ []) ∷ [])
    ∷ []

receive_loop_result_example : receive_loop (pos 1 ∷ pos 0 ∷ []) 2 0 ≡ some 1
unfolding arriving breaks
receive_loop_result_example = receive_loop_result (pos 1 ∷ pos 0 ∷ []) 2 (λ _. omega arith, tt)

echoed-Settled : Settled 2 echoed
unfolding send_loop receive_loop
echoed-Settled = record { sent = 2; recvd = 2; sends = refl; receives = refl }

cut-Settled : Settled 2 cut
unfolding send_loop receive_loop
cut-Settled = record { sent = 2; recvd = 1; sends = refl; receives = refl }

inputs_connected : EachConnected (2 ∷ 1 ∷ []) inputs
inputs_connected = ((tt, (tt, tt)), ((tt, tt), tt))

inputs_prepared : AllPrepared 2 1 (2 ∷ 1 ∷ []) inputs
inputs_prepared =
    (((echoed-Settled, tt), ((cut-Settled, tt), tt)), (((echoed-Settled, tt), tt), tt))

-- Whole milliseconds.
abbrev milliseconds : Doubles ℕ
milliseconds = record {
  nought = 0;
  sort = λ l. l;
  ceil_99 = λ n. (99 * n + 99) / 100;
  rate = λ n t. n / t;
  mean = λ l. 0;
}

run_benchmark_result_example :
    (s : Stats ℕ) × (run_benchmark milliseconds 3 1 2 2 inputs 1 ≡ some s)
    × Reports milliseconds 3 1 (5 ∷ 5 ∷ []) s
unfolding shares share send_loop receive_loop
run_benchmark_result_example =
    run_benchmark_result milliseconds
      (record { ceil_bounds = λ n some. omega (arith, some); keeps = λ l. refl }) 3 1 2 2
      (2 ∷ 1 ∷ []) inputs 1 (omega arith) refl inputs_connected inputs_prepared

shares-Shared_example : Shared 7 3 (shares 7 3)
shares-Shared_example = shares-Shared 7 3
