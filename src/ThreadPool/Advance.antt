-- ===== src/ThreadPool/Advance.antt =====
-- Steps that can be taken.
use kernel_net.Prelude.{ℕ, zero, suc, ◌<◌, ◌≡◌, ◌≢◌, ◌⊎◌, inl, inr, refl, Bool, true, false, arith}
use kernel_net.ThreadPool.{
  Worker, checking, parking, asleep, passed, holding, gone, System, Step, check, park, spurious,
  go_on, unlock, call, stop,
}
use kernel_net.ThreadPool.Invariant.{locked}

-- Neither the begin of a call of `enqueue` or of `stop`, nor a spurious wake-up.
abbrev pub is_ordinary : {A : Type 0} {n : ℕ} {s t : System A} → Step n s t → Bool
is_ordinary (spurious i lt e) = false
is_ordinary (call task e) = false
is_ordinary (stop e) = false
is_ordinary _ = true

abbrev pub CanStep : {A : Type 0} → ℕ → System A → Type 0
CanStep {A} n s = (t : System A) × (step : Step n s t) × (is_ordinary step ≡ true)

module _ {A : Type 0} where
  pub gone_or_not : (w : Worker A) → (w ≡ gone) ⊎ (w ≢ gone)
  gone_or_not w = ground arith

  pub asleep_or_not : (w : Worker A) → (w ≡ asleep) ⊎ (w ≢ asleep)
  asleep_or_not w = ground arith

  -- All the workers are at `c`, or one is not.
  pub search :
      (c : Worker A)
      → ((w : Worker A) → (w ≡ c) ⊎ (w ≢ c))
      → (n : ℕ) (f : ℕ → Worker A) → ((i : ℕ) → i < n → f i ≡ c) ⊎ ((i : ℕ) × (i < n) × (f i ≢ c))
  search c is_c zero f = inl (λ i lt. absurd (omega (arith, lt)))
  search c is_c (suc n) f = elim (search c is_c n f) [
    | inr (i, lt, other) ↦ inr (i, omega (arith, lt), other)
    | inl all ↦ elim (is_c (f n)) [
      | inl last ↦ inl (λ i lt. ground (arith, all i, last, lt))
      | inr other ↦ inr (n, omega arith, other)
    ]
  ]

  -- The worker that has the mutex goes on.
  pub holder_steps :
      {n : ℕ} {s : System A} (i : ℕ)
      → i < n
      → (w : Worker A) → s.worker i ≡ w
      → locked w ≡ true
      → CanStep n s
  holder_steps i lt checking e has = (_, check i lt e, refl)
  holder_steps i lt parking e has = (_, park i lt e, refl)
  holder_steps i lt passed e has = (_, go_on i lt e, refl)
  holder_steps i lt (holding task) e has = (_, unlock i task lt e, refl)
  holder_steps i lt w e has = absurd (ground (arith, has))
