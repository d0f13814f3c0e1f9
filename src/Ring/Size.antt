-- ===== src/Ring/Size.antt =====
-- The sizes that the `static_assert` accepts.
use Prim.Native.Nat.{digits, bit_and-bitwise}
use kernel_net.Prelude.{
  ℕ, zero, suc, ◌-◌, ◌/◌, ◌%◌, ◌^◌, ◌≤◌, ◌<◌, ◌≡◌, ◌↔◌, ◌⊎◌, inl, inr, refl, sym, ap, ◌∙◌, subst,
  true, min, bit_and, arith, dec_lt, ℕ_discrete, ==_iff, ◌==◌, sub_size, bit_and-mask,
}
use native.Mathlib.Nat.{pow-suc, one-le-pow}
use kernel_net.Ring.{size_accepted}

-- `a & b`, digit by digit; `n` bounds `a`.
abbrev and_digits : ℕ → ℕ → ℕ → ℕ
and_digits n a b = digits (λ _. zero) min n a b

and_self : (n a : ℕ) → a ≤ n → and_digits n a a ≡ a
and_self zero zero h = refl
and_self zero (suc a) h = absurd (omega arith)
and_self (suc n) zero h = refl
and_self (suc n) (suc a) h = omega (arith, and_self n (suc a / 2) (omega arith))

and_pred : (n a : ℕ) → a ≤ n → 1 ≤ a → and_digits n a (a - 1) ≡ 0 → (k : ℕ) × (a ≡ 2 ^ k)
and_pred zero a h some e = absurd (omega (arith, h, some))
and_pred (suc n) zero h some e = absurd (omega (arith, some))
and_pred (suc n) (suc a) h some e = elim (ℕ_discrete (suc a % 2) 1) [
  | yes odd ↦
      let half : (suc a - 1) / 2 ≡ suc a / 2 = omega (arith, odd) in
      (
        0,
        omega (
          arith,
          odd,
          e,
          ap (λ (t : ℕ). and_digits n (suc a / 2) t) half,
          and_self n (suc a / 2) (omega arith),
        ),
      )
  | no even ↦
      let half : (suc a - 1) / 2 ≡ suc a / 2 - 1 = omega (arith, even) in
      let (k, power) =
        and_pred n (suc a / 2) (omega arith) (omega (arith, even))
          (omega (arith, even, e, ap (λ (t : ℕ). and_digits n (suc a / 2) t) half)) in
      (suc k, omega (arith, power, even, pow-suc 2 k))
]

one_less : (size : ℕ) → 1 ≤ size → size < 2 ^ 64 → sub_size size 1 ≡ size - 1
one_less size some fits = omega (arith, some, fits)

self_remainder : (n : ℕ) → 1 ≤ n → n % n ≡ 0
self_remainder n some = grind (arith, some)

-- A size below 2^64 passes the `static_assert` exactly when it is a power of two or 0.
pub size_accepted_iff :
    (size : ℕ)
    → size < 2 ^ 64
    → (size_accepted size ≡ true) ↔ ((size ≡ 0) ⊎ ((k : ℕ) × (size ≡ 2 ^ k)))
unfolding size_accepted
size_accepted_iff size fits = (
  λ e. elim (dec_lt 0 size) [
    | yes some ↦
        let zero_and : bit_and size (sub_size size 1) ≡ 0 =
          (==_iff (bit_and size (sub_size size 1)) 0).0 e in
        inr (
          and_pred size size (omega arith) some (
            sym (bit_and-bitwise size (size - 1))
            ∙ ap (bit_and size) (sym (one_less size some fits))
            ∙ zero_and))
    | no none_left ↦ inl (omega (arith, none_left))
  ],
  λ o. elim o [
    | inl empty ↦ subst (λ (n : ℕ). (bit_and n (sub_size n 1) == 0) ≡ true) (sym empty) refl
    | inr (k, power) ↦
        let some : 1 ≤ size = omega (arith, one-le-pow k 2 (omega arith), power) in
        (==_iff (bit_and size (sub_size size 1)) 0).1 (
          ap (bit_and size) (one_less size some fits ∙ ap (λ (n : ℕ). n - 1) power)
          ∙ bit_and-mask k size
          ∙ ap (λ (n : ℕ). size % n) (sym power)
          ∙ self_remainder size some)
  ],
)
