-- ===== src/Client/Schedules.antt =====
-- The threads of the client under any schedule: a schedule is an order of all their accesses to the state
-- that they share, in which each thread's own come in their order. What the system calls answer and
-- the times are as given, whatever the schedule.
mod Tests
use mathlib.Core.List.{Perm, Permᴰ, perm_middle, flatten, filter_map}
use mathlib.Core.List.Perm
use mathlib.Core.List.Permᴰ
use mathlib.Core.Option.{Option-elim}
use mathlib.Core.Logic.{∥∥₁_elim}
use native.Mathlib.Nat.{ℕ_set}
use kernel_net.Prelude.{
  ℕ, zero, suc, ◌+◌, ◌≡◌, refl, sym, ap, ◌∙◌, subst, List, [], ◌∷◌, ◌++◌, Option, none, some, ◌>>=◌,
  length, add_size, arith, append_assoc, append-nil, List-cases, inl, inr,
}
use kernel_net.Client.{
  Tally, Connection, no_tally, complete, shares, Doubles, Stats, report, run_threads, run_benchmark,
}
use kernel_net.Client.Effects.{
  Effect, pushes, completes, closes, act, act_all, programs, run_threads_do,
}

-- Atomic additions of 1, so many of them.
bump : ℕ → ℕ → ℕ
bump zero c = c
bump (suc n) c = bump n (add_size c 1)

length-Permᴰ : {A : Type 0} {xs ys : List A} → Permᴰ xs ys → length xs ≡ length ys
length-Permᴰ Permᴰ.nil = refl
length-Permᴰ (Permᴰ.cons e p) = ap suc (length-Permᴰ p)
length-Permᴰ (Permᴰ.swap e f) = refl
length-Permᴰ (Permᴰ.trans p q) = length-Permᴰ p ∙ length-Permᴰ q

pub length-perm : {A : Type 0} {xs ys : List A} → Perm xs ys → length xs ≡ length ys
length-perm p = ∥∥₁_elim p (ℕ_set _ _) length-Permᴰ

module _ {D : Type 0} where
  -- No thread has an access left, or some thread makes its next one.
  pub data Schedule : List (List (Effect D)) → List (Effect D) → Type 0 where
    over : {ts : List (List (Effect D))} → flatten ts ≡ [] → Schedule ts []
    turn :
        {ts : List (List (Effect D))} (before after : List (List (Effect D))) (e : Effect D)
        (rest : List (Effect D)) {trace : List (Effect D)}
        → ts ≡ before ++ (e ∷ rest) ∷ after
        → Schedule (before ++ rest ∷ after) trace
        → Schedule ts (e ∷ trace)

  flatten-middle :
      (before after : List (List (Effect D))) (e : Effect D) (rest : List (Effect D))
      → Perm (flatten (before ++ (e ∷ rest) ∷ after)) (e ∷ flatten (before ++ rest ∷ after))
  unfolding flatten
  flatten-middle [] after e rest = Perm.refl _
  flatten-middle (b ∷ before) after e rest =
      Perm.trans (Perm.append_left b (flatten-middle before after e rest)) (perm_middle b _)

  -- A schedule is the accesses of all threads in some order.
  Schedule-perm :
      {ts : List (List (Effect D))} {trace : List (Effect D)}
      → Schedule ts trace
      → Perm trace (flatten ts)
  Schedule-perm (over e) = rw e (Perm.refl [])
  Schedule-perm (turn before after e rest same schedule) = rw same (
      Perm.trans (Perm.cons e (Schedule-perm schedule))
        (Perm.symm (flatten-middle before after e rest)))

  -- The latencies among the accesses, and how many requests they complete.
  abbrev latency : Effect D → Option D
  latency (pushes ms) = some ms
  latency _ = none

  abbrev completed_by : Effect D → ℕ
  completed_by completes = 1
  completed_by _ = 0

  completions : List (Effect D) → ℕ
  completions [] = 0
  completions (e ∷ es) = completed_by e + completions es

  completions-Permᴰ : {es fs : List (Effect D)} → Permᴰ es fs → completions es ≡ completions fs
  unfolding completions
  completions-Permᴰ Permᴰ.nil = refl
  completions-Permᴰ (Permᴰ.cons e p) = omega (arith, ap completed_by e, completions-Permᴰ p)
  completions-Permᴰ (Permᴰ.swap e f) = omega (arith, ap completed_by e, ap completed_by f)
  completions-Permᴰ (Permᴰ.trans p q) = completions-Permᴰ p ∙ completions-Permᴰ q

  act_all-latencies :
      (es : List (Effect D)) (t : Tally D)
      → (act_all es t).latencies_ms ≡ t.latencies_ms ++ filter_map latency es
  unfolding act_all act filter_map Option-elim complete
  act_all-latencies [] t = sym (append-nil t.latencies_ms)
  act_all-latencies (pushes ms ∷ es) t =
      act_all-latencies es (act (pushes ms) t)
      ∙ append_assoc t.latencies_ms (ms ∷ []) (filter_map latency es)
  act_all-latencies (completes ∷ es) t = act_all-latencies es (act completes t)
  act_all-latencies (closes fd ∷ es) t = act_all-latencies es (act (closes fd) t)

  no_more : (es : List (Effect D)) → completions es ≡ 0 + completions es
  no_more es = omega arith

  one_more : (es : List (Effect D)) → suc (completions es) ≡ 1 + completions es
  one_more es = omega arith

  act_all-completed :
      (es : List (Effect D)) (t : Tally D)
      → (act_all es t).completed ≡ bump (completions es) t.completed
  unfolding act_all act complete completions bump
  act_all-completed [] t = refl
  act_all-completed (pushes ms ∷ es) t =
      act_all-completed es (act (pushes ms) t) ∙ ap (λ (n : ℕ). bump n t.completed) (no_more es)
  act_all-completed (completes ∷ es) t =
      act_all-completed es (act completes t) ∙ ap (λ (n : ℕ). bump n t.completed) (one_more es)
  act_all-completed (closes fd ∷ es) t =
      act_all-completed es (act (closes fd) t) ∙ ap (λ (n : ℕ). bump n t.completed) (no_more es)

  -- The same requests completed, the same latencies in some order.
  pub record Agree (t u : Tally D) : Type 0 where
    pub completed : t.completed ≡ u.completed
    pub latencies : Perm t.latencies_ms u.latencies_ms

  -- Any two orders of the same accesses agree.
  perm-Agree :
      (es fs : List (Effect D)) (t : Tally D) → Perm es fs → Agree (act_all es t) (act_all fs t)
  perm-Agree es fs t p = record {
    completed =
        act_all-completed es t
        ∙ ap (λ (n : ℕ). bump n t.completed) (∥∥₁_elim p (ℕ_set _ _) completions-Permᴰ)
        ∙ sym (act_all-completed fs t);
    latencies =
        rw (act_all-latencies es t, act_all-latencies fs t)
          (Perm.append_left t.latencies_ms (Perm.filter_map latency p));
  }

  -- Sorting forgets the order.
  abbrev pub Sorts : Doubles D → Type 0
  Sorts d = (xs ys : List D) → Perm xs ys → d.sort xs ≡ d.sort ys

  module _ (d : Doubles D) (sorts : Sorts d) (elapsed_sec : D) where
    lists_agree :
        (xs ys : List D) (completed : ℕ) (closed closed' : List ℕ)
        → Perm xs ys
        → report d
            (record { latencies_ms = xs; completed = completed; closed = closed })
            elapsed_sec
          ≡ report d
              (record { latencies_ms = ys; completed = completed; closed = closed' })
              elapsed_sec
    unfolding report
    lists_agree [] [] completed closed closed' p = refl
    lists_agree [] (y ∷ ys) completed closed closed' p = absurd (omega (arith, length-perm p))
    lists_agree (x ∷ xs) [] completed closed closed' p = absurd (omega (arith, length-perm p))
    lists_agree (x ∷ xs) (y ∷ ys) completed closed closed' p =
        rw (sorts (x ∷ xs) (y ∷ ys) p, length-perm p) refl

    Agree-report : (t u : Tally D) → Agree t u → report d t elapsed_sec ≡ report d u elapsed_sec
    Agree-report t u agree =
        lists_agree t.latencies_ms u.latencies_ms t.completed t.closed u.closed agree.latencies
        ∙ ap (λ (c : ℕ). report d (record u { completed = c }) elapsed_sec) agree.completed

    -- When every loop of every request ends and sorting forgets the order, the client reports the same
    -- under every schedule of its threads: what it reports when they run one after another.
    pub schedules_agree :
        (connections r size threads : ℕ) (counts : List ℕ) (inputs : List (List (Connection D)))
        (ps : List (List (Effect D))) (trace : List (Effect D))
        → shares connections threads ≡ some counts
        → programs size r counts inputs ≡ some ps
        → Schedule ps trace
        → report d (act_all trace no_tally) elapsed_sec
          ≡ run_benchmark d connections r size threads inputs elapsed_sec
    unfolding run_benchmark
    schedules_agree connections r size threads counts inputs ps trace shared effects schedule =
        rw (shared, run_threads_do size r counts inputs no_tally, effects)
          (Agree-report (act_all trace no_tally) (act_all (flatten ps) no_tally)
            (perm-Agree trace (flatten ps) no_tally (Schedule-perm schedule)))
