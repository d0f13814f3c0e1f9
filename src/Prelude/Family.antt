-- ===== src/Prelude/Family.antt =====
-- Families indexed by a number: the state of each thread, the cells of a heap. Update at one
-- index, and sums over the first `n`.
use Prim.Native.Nat.{ℕ, zero, suc, ◌+◌, ◌<◌}
use mathlib.Core.Path.{◌≡◌, refl, ap}
use mathlib.Core.Logic.{◌≢◌, ite}
use native.Mathlib.Decide.{ℕ_discrete}
use native.Mathlib.Omega.{arith}

abbrev pub update {ℓ} : {A : Type ℓ} → (ℕ → A) → ℕ → A → ℕ → A
update f i a j = ite (ℕ_discrete i j) a (f j)

pub update_self {ℓ} : {A : Type ℓ} (f : ℕ → A) (i : ℕ) (a : A) → update f i a i ≡ a
update_self f i a = ground arith

pub update_ne {ℓ} : {A : Type ℓ} (f : ℕ → A) (i j : ℕ) (a : A) → i ≢ j → update f i a j ≡ f j
update_ne f i j a h = ground arith

-- What a family holds from index 1 on.
abbrev shift {ℓ} : {A : Type ℓ} → (ℕ → A) → ℕ → A
shift f j = f (suc j)

module _ {ℓ} {A : Type ℓ} (weight : A → ℕ) where
  -- The weights of the first `n` members, added up.
  pub total : ℕ → (ℕ → A) → ℕ
  total zero f = 0
  total (suc n) f = weight (f 0) + total n (shift f)

  pub total_congr :
      (n : ℕ) (f g : ℕ → A) → ((k : ℕ) → weight (f k) ≡ weight (g k)) → total n f ≡ total n g
  unfolding total
  total_congr zero f g same = refl
  total_congr (suc n) f g same =
      omega (arith, total_congr n (shift f) (shift g) (λ k. same (suc k)), same 0)

  -- A change of one member changes the total by the difference of the two weights.
  pub total-update :
      (n : ℕ) (f : ℕ → A) (k : ℕ) (new : A)
      → k < n
      → total n (update f k new) + weight (f k) ≡ total n f + weight new
  unfolding total
  total-update zero f k new inside = absurd (omega arith)
  total-update (suc n) f zero new inside = omega (
    arith,
    total_congr n (shift (update f 0 new)) (shift f) (λ j. ground arith),
    ap weight (update_self f 0 new),
  )
  total-update (suc n) f (suc k) new inside = omega (
    arith,
    total_congr n (shift (update f (suc k) new)) (update (shift f) k new) (λ j. ground arith),
    total-update n (shift f) k new (omega arith),
    ap weight (update_ne f (suc k) 0 new (λ e. omega arith)),
  )

  pub total-const_zero : (n : ℕ) (a : A) → weight a ≡ 0 → total n (λ _. a) ≡ 0
  unfolding total
  total-const_zero zero a none_weighs = refl
  total-const_zero (suc n) a none_weighs = omega (arith, total-const_zero n a none_weighs)

  -- The total with the next member.
  pub total-suc : (n : ℕ) (f : ℕ → A) → total (suc n) f ≡ total n f + weight (f n)
  unfolding total
  total-suc zero f = omega arith
  total-suc (suc n) f = omega (arith, total-suc n (shift f))

  pub total-zero : (n : ℕ) (f : ℕ → A) → ((k : ℕ) → k < n → weight (f k) ≡ 0) → total n f ≡ 0
  unfolding total
  total-zero zero f none_weighs = refl
  total-zero (suc n) f none_weighs = omega (
    arith,
    none_weighs 0 (omega arith),
    total-zero n (shift f) (λ k lt. none_weighs (suc k) (omega (arith, lt))),
  )
