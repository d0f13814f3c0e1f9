-- ===== src/Benchmark/Tests.antt =====
-- Three runs of each queue, with whole numbers for floating-point ones.
use text.Mathlib.Text.{◌==◌ as str_eq}
use kernel_net.Prelude.{ℕ, ◌-◌, ◌*◌, ◌/◌, ◌≡◌, refl, [], ◌∷◌, none, some, if◌then◌else◌}
use kernel_net.Arguments.{Numbers, parsed, parse_loop}
use kernel_net.Benchmark.{
  Doubles, main, compare_queues, run_bench, rates, best_time, best_from, better, kind, set_messages,
}

abbrev readable : Numbers
readable = record { stoi = λ text. none; stoul = λ text. if str_eq text "5" then some 5 else none }

-- Floating-point numbers as whole ones, which divide by zero to zero.
abbrev whole : Doubles ℕ
whole = record {
  of_uint = λ n. n;
  quotient = λ a b. a / b;
  million = 1000000;
  billion = 1000000000;
}

-- Call 0, which warms up, is the fastest and does not count.
five_messages :
    main whole readable (λ n k. 2000000 * (n - k)) (λ n k. 8000000 * k) ("--messages" ∷ "5" ∷ [])
    ≡ parsed (record {
      ring = record { ms = 4; ops = 0; ns_per_op = 400000 };
      mutex = record { ms = 8; ops = 0; ns_per_op = 800000 };
      ratio = 0;
    })
unfolding main parse_loop kind set_messages compare_queues run_bench rates best_time best_from
    better
five_messages = refl
