-- ===== src/Client/Schedules/Tests.antt =====
-- Two threads with one connection each; the second one pushes its latency first. Latencies are whole
-- milliseconds, sorted by insertion.
use mathlib.Core.List.{Perm, Permᴰ, flatten}
use mathlib.Core.Logic.{∥∥₁_elim}
use kernel_net.Prelude.{
  ℕ, ◌+◌, ◌*◌, ◌/◌, ◌≡◌, refl, ap₂, ◌∙◌, List, [], ◌∷◌, pos, arith, leb, if◌then◌else◌,
}
use kernel_net.Client.{
  Exchange, Connection, connected, send_loop, receive_loop, no_tally, share, shares, Doubles,
  report, run_benchmark,
}
use kernel_net.Client.Effects.{
  Effect, pushes, completes, closes, act_all, request_effects, requests_effects, connection_effects,
  thread_effects, programs,
}
use kernel_net.Client.Schedules.{Schedule, over, turn, schedules_agree}

abbrev insert : ℕ → List ℕ → List ℕ
insert x [] = x ∷ []
insert x (y ∷ ys) = if leb x y then x ∷ y ∷ ys else y ∷ insert x ys

abbrev insertion_sort : List ℕ → List ℕ
insertion_sort [] = []
insertion_sort (x ∷ xs) = insert x (insertion_sort xs)

insert_comm : (x y : ℕ) (zs : List ℕ) → insert x (insert y zs) ≡ insert y (insert x zs)
insert_comm x y [] = ground arith
insert_comm x y (z ∷ zs) = ground (arith, insert_comm x y zs)

insertion_sort-Permᴰ : {xs ys : List ℕ} → Permᴰ xs ys → insertion_sort xs ≡ insertion_sort ys
insertion_sort-Permᴰ Permᴰ.nil = refl
insertion_sort-Permᴰ (Permᴰ.cons e p) = ap₂ insert e (insertion_sort-Permᴰ p)
insertion_sort-Permᴰ (Permᴰ.swap {a} {b} {l = l} e f) =
    rw (← e, ← f) (insert_comm a b (insertion_sort l))
insertion_sort-Permᴰ (Permᴰ.trans p q) = insertion_sort-Permᴰ p ∙ insertion_sort-Permᴰ q

insertion_sort-perm : (xs ys : List ℕ) → Perm xs ys → insertion_sort xs ≡ insertion_sort ys
insertion_sort-perm xs ys p = ∥∥₁_elim p (hlevel) insertion_sort-Permᴰ

abbrev milliseconds : Doubles ℕ
milliseconds = record {
  nought = 0;
  sort = insertion_sort;
  ceil_99 = λ n. (99 * n + 99) / 100;
  rate = λ n t. n / t;
  mean = λ l. 0;
}

abbrev within : ℕ → Exchange ℕ
within ms = record { writes = pos 2 ∷ []; reads = pos 1 ∷ pos 1 ∷ []; ms = ms }

abbrev inputs : List (List (Connection ℕ))
inputs = (connected 4 (within 5 ∷ []) ∷ []) ∷ (connected 6 (within 3 ∷ []) ∷ []) ∷ []

abbrev accesses : List (List (Effect ℕ))
accesses = (pushes 5 ∷ completes ∷ closes 4 ∷ []) ∷ (pushes 3 ∷ completes ∷ closes 6 ∷ []) ∷ []

abbrev second_first : List (Effect ℕ)
second_first = pushes 3 ∷ pushes 5 ∷ completes ∷ completes ∷ closes 4 ∷ closes 6 ∷ []

abbrev interleaved : Schedule accesses second_first
unfolding flatten
interleaved = turn ((pushes 5 ∷ completes ∷ closes 4 ∷ []) ∷ []) [] (pushes 3) _ refl (
    turn [] ((completes ∷ closes 6 ∷ []) ∷ []) (pushes 5) _ refl (
      turn [] ((completes ∷ closes 6 ∷ []) ∷ []) completes _ refl (
        turn ((closes 4 ∷ []) ∷ []) [] completes _ refl (
          turn [] ((closes 6 ∷ []) ∷ []) (closes 4) [] refl
            (turn ([] ∷ []) [] (closes 6) [] refl (over refl))))))

schedules_agree_example :
    report milliseconds (act_all second_first no_tally) 1
    ≡ run_benchmark milliseconds 2 1 2 2 inputs 1
unfolding shares share programs thread_effects connection_effects requests_effects request_effects
    send_loop receive_loop
schedules_agree_example =
    schedules_agree milliseconds insertion_sort-perm 1 2 1 2 2 (1 ∷ 1 ∷ []) inputs accesses
      second_first refl refl interleaved
