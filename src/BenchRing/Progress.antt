-- ===== src/BenchRing/Progress.antt =====
-- How the work of `bench_ring` comes to an end.
use kernel_net.Prelude.{upto, ℕ, zero, suc, ◌^◌, ◌≤◌, ◌<◌, ◌≡◌, ◌≢◌, ◌⊎◌, inl, inr, refl, arith}
use kernel_net.BenchRing.{Consumer, exited, System, Step, Reach, next}
use kernel_net.BenchRing.Keeps.{Reach-Inv}
use kernel_net.BenchRing.Safety.{exited_received_all}
use kernel_net.BenchRing.Work.{work, Reach-done}
use kernel_net.BenchRing.Advance.{advances}

-- A run from one state to another, in so many steps.
pub data Steps (size n : ℕ) : System → ℕ → System → Type 0 where
  here : {s : System} → Steps size n s 0 s
  first : {s t u : System} {m : ℕ} → Step size n s t → Steps size n t m u → Steps size n s (suc m) u

-- A run of at most so many steps at whose end the consumer has exited.
abbrev pub Exits : (size n : ℕ) → System → ℕ → Type 0
Exits size n s bound =
    (t : System) × (m : ℕ) × (m ≤ bound)
    × Steps size n s m t
    × Reach size n t
    × (t.consumer ≡ exited)

exited_or_not : (c : Consumer) → (c ≡ exited) ⊎ (c ≢ exited)
exited_or_not c = ground arith

finishes_within :
    {k n : ℕ} (fuel : ℕ) {s : System}
    → k ≤ 63
    → n < 2 ^ 64
    → Reach (2 ^ k) n s
    → work n s < fuel
    → Exits (2 ^ k) n s (work n s)
finishes_within zero small fits reach h = absurd (omega (arith, h))
finishes_within (suc fuel) {s} small fits reach h = elim (exited_or_not s.consumer) [
  | inl over ↦ (s, 0, omega arith, here, reach, over)
  | inr busy ↦
      let (t, step, less) =
        advances (Reach-Inv small fits reach) s.consumer refl busy (Reach-done reach) in
      let (u, m, bound, run, there, over) =
        finishes_within fuel small fits (next reach step) (omega (arith, h, less)) in
      (u, suc m, omega (arith, bound, less), first step run, there, over)
]

-- bench_ring can always come to its end: with a ring of 2 ^ k slots, k ≤ 63, and num_messages < 2 ^ 64,
-- from every reachable state there is a run of at most as many steps as there is work left, at whose
-- end the consumer has exited and has received every message, in order and once each.
pub can_finish :
    {k n : ℕ} {s : System}
    → k ≤ 63
    → n < 2 ^ 64
    → Reach (2 ^ k) n s
    → (t : System) × (m : ℕ) × (m ≤ work n s)
      × Steps (2 ^ k) n s m t
      × (t.consumer ≡ exited)
      × (t.received ≡ upto n)
can_finish {n} {s} small fits reach =
    let (t, m, bound, run, there, over) =
      finishes_within (suc (work n s)) small fits reach (omega arith) in
    (t, m, bound, run, over, exited_received_all small fits there over)
