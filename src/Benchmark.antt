-- ===== src/Benchmark.antt =====
-- The main function of ring_buffer_benchmark.cc: its argument, the best time of three runs of each
-- queue, and the rates that it reports. What the runs take is an input, in nanoseconds; floating-point
-- operations are parameters.
mod Tests
use Prim.Native.String.{String}
use text.Mathlib.Text.{◌==◌ as str_eq}
use kernel_net.Prelude.{
  ℕ, zero, suc, ◌+◌, ◌-◌, ◌*◌, ◌%◌, ◌^◌, ◌≤◌, ◌<◌, ◌≡◌, ◌⊎◌, inl, inr, refl, List, [], ◌∷◌, Option,
  none, some, ◌>>=◌, ltb, if◌then◌else◌, arith, dec_lt,
}
use kernel_net.Arguments.{
  Numbers, Kind, sets, help, skipped, Parsed, usage, threw, parsed, parse_loop,
}

abbrev pub default_messages : ℕ
default_messages = 10000000

module _ (numbers : Numbers) where
  open numbers use {stoul}

  -- `num_messages = std::stoul(argv[++i])`
  unfoldable pub set_messages : String → ℕ → Option ℕ
  set_messages value o = stoul value

  unfoldable pub kind : String → Kind ℕ
  kind arg =
      if str_eq arg "--messages"
      then sets set_messages
      else if str_eq arg "--help"
      then help
      else skipped

-- `if (t < best) best = t;`
unfoldable pub better : ℕ → ℕ → ℕ
better t best = if ltb t best then t else best

-- The loop of `run_bench`, over the times of its runs.
unfoldable pub best_from : List ℕ → ℕ → ℕ
best_from [] best = best
best_from (t ∷ times) best = best_from times (better t best)

-- Three calls of `fn`, numbered from 1, since a call with fewer messages comes before them.
unfoldable pub best_time : (fn : ℕ → ℕ) → ℕ
best_time fn = best_from (fn 1 ∷ fn 2 ∷ fn 3 ∷ []) (2 ^ 64 - 1)

-- The floating-point operations that `main` uses.
pub record Doubles (D : Type 0) : Type 0 where
  pub of_uint : ℕ → D  -- the conversion from an unsigned integer
  pub quotient : D → D → D
  pub million : D
  pub billion : D

-- What a line of the output tells.
pub record Rates (D : Type 0) : Type 0 where
  pub ms : D
  pub ops : D
  pub ns_per_op : D

pub record Report (D : Type 0) : Type 0 where
  pub ring : Rates D
  pub mutex : Rates D
  pub ratio : D

module _ {D : Type 0} where
  -- The product `num_messages * 2` wraps.
  unfoldable pub rates : Doubles D → (num_messages best : ℕ) → Rates D
  rates d num_messages best = record {
    ms = d.quotient (d.of_uint best) d.million;
    ops = d.quotient (d.of_uint num_messages) (d.quotient (d.of_uint best) d.billion);
    ns_per_op = d.quotient (d.of_uint best) (d.of_uint (num_messages * 2 % 2 ^ 64));
  }

  unfoldable pub run_bench : Doubles D → (num_messages : ℕ) → (fn : ℕ → ℕ) → Rates D
  run_bench d num_messages fn = rates d num_messages (best_time fn)

  unfoldable pub compare_queues : Doubles D → (ring mutex : ℕ → ℕ → ℕ) → ℕ → Report D
  compare_queues d ring mutex num_messages =
      let ring_rates = run_bench d num_messages (ring num_messages) in
      let mutex_rates = run_bench d num_messages (mutex num_messages) in
      record {
        ring = ring_rates;
        mutex = mutex_rates;
        ratio = d.quotient ring_rates.ops mutex_rates.ops;
      }

  -- What is reported of the two queues, or how the loop over the arguments ends the program.
  -- `ring n k` and `mutex n k` are the times of call `k` with `n` messages. The times of the calls that
  -- warm up are not used.
  unfoldable pub main :
      Doubles D → Numbers → (ring mutex : ℕ → ℕ → ℕ) → List String → Parsed (Report D)
  main d numbers ring mutex argv = elim (parse_loop (kind numbers) argv default_messages) [
    | usage ↦ usage
    | threw ↦ threw
    | parsed n ↦ parsed (compare_queues d ring mutex n)
  ]

abbrev pub NoneBelow : ℕ → List ℕ → Type 0
NoneBelow t [] = Unit
NoneBelow t (x ∷ xs) = (t ≤ x) × NoneBelow t xs

best_from_at_most : (times : List ℕ) (best : ℕ) → best_from times best ≤ best
unfolding best_from better
best_from_at_most [] best = omega arith
best_from_at_most (t ∷ times) best = elim (dec_lt t best) [
  | yes less ↦ ground (arith, best_from_at_most times t)
  | no over ↦ ground (arith, best_from_at_most times best)
]

-- The time that is reported is at most each time of the runs.
pub best_from-NoneBelow : (times : List ℕ) (best : ℕ) → NoneBelow (best_from times best) times
unfolding best_from better
best_from-NoneBelow [] best = tt
best_from-NoneBelow (t ∷ times) best = (
  elim (dec_lt t best) [
    | yes less ↦ ground (arith, best_from_at_most times t)
    | no over ↦ ground (arith, best_from_at_most times best)
  ],
  best_from-NoneBelow times (better t best),
)
