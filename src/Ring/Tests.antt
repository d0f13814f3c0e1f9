-- ===== src/Ring/Tests.antt =====
-- The ring buffer at concrete inputs. `near_end` has its indices about to wrap at 2 ^ 64.
use kernel_net.Prelude.{◌^◌, arith, ℕ, ℕ, ◌-◌, ◌^◌, ◌≡◌, refl, true, false, List, [], ◌∷◌, arith}
use kernel_net.Ring.{
  SpscRingBuffer, Call, pushes, pops, pushed, popped, push, pop, run, size_accepted,
}
use kernel_net.Ring.Bounds.{IsValid}
use kernel_net.Ring.Refine.{run_refines}
use kernel_net.Ring.Queue

abbrev near_end : SpscRingBuffer ℕ
near_end = record { write_idx = 1; read_idx = 2 ^ 64 - 2; buffer = 9 ∷ 0 ∷ 7 ∷ 8 ∷ [] }

near_end-IsValid : IsValid 2 near_end
near_end-IsValid = omega arith

abbrev script : List (Call ℕ)
script = pushes 5 ∷ pushes 6 ∷ pops 0 ∷ pops 0 ∷ pops 0 ∷ pops 0 ∷ pops 3 ∷ []

near_end_runs :
    run 4 near_end script
    ≡ pushed true
      ∷ pushed false
      ∷ popped true 7
      ∷ popped true 8
      ∷ popped true 9
      ∷ popped true 5
      ∷ popped false 3
      ∷ []
unfolding run push pop
near_end_runs = refl

sizes : (size_accepted 1024 ≡ true) × (size_accepted 1000 ≡ false) × (size_accepted 0 ≡ true)
unfolding size_accepted
sizes = (refl, refl, refl)

run_refines_example : run 4 near_end script ≡ Queue.run 4 (7 ∷ 8 ∷ 9 ∷ []) script
run_refines_example = run_refines 0 script near_end-IsValid
