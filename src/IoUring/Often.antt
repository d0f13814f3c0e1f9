-- ===== src/IoUring/Often.antt =====
-- Lists in which each number occurs equally often.
use kernel_net.Prelude.{
  ℕ, ◌+◌, ◌≤◌, ◌≡◌, refl, ap, List, [], ◌∷◌, ◌++◌, Option, arith, ite, ℕ_discrete,
}
use kernel_net.IoUring.{Request}
use kernel_net.IoUring.Owners.{times}
use kernel_net.IoUring.Accepts.{kind, weigh}

remove : ℕ → List ℕ → List ℕ
remove p [] = []
remove p (q ∷ qs) = ite (ℕ_discrete q p) qs (q ∷ remove p qs)

times-remove :
    (p : ℕ) (qs : List ℕ)
    → 1 ≤ times p qs
    → (k : ℕ) → times k qs ≡ ite (ℕ_discrete p k) 1 0 + times k (remove p qs)
unfolding times remove
times-remove p [] occurs k = absurd (omega (arith, occurs))
times-remove p (q ∷ qs) occurs k = elim (ℕ_discrete q p) [
  | yes same ↦ ground (arith, same)
  | no other ↦ ground (arith, other, times-remove p qs (ground (arith, occurs, other)) k)
]

module _ (h : ℕ → Option Request) where
  weigh-remove :
      (p : ℕ) (qs : List ℕ) → 1 ≤ times p qs → weigh h qs ≡ kind (h p) + weigh h (remove p qs)
  unfolding weigh times remove
  weigh-remove p [] occurs = absurd (omega (arith, occurs))
  weigh-remove p (q ∷ qs) occurs = elim (ℕ_discrete q p) [
    | yes same ↦ ground (arith, ap (λ k. kind (h k)) same)
    | no other ↦ ground (arith, other, weigh-remove p qs (ground (arith, occurs, other)))
  ]

  pub weigh_equal : (ps qs : List ℕ) → ((k : ℕ) → times k ps ≡ times k qs) → weigh h ps ≡ weigh h qs
  unfolding weigh times
  weigh_equal [] [] same = refl
  weigh_equal [] (q ∷ qs) same = absurd (ground (arith, same q))
  weigh_equal (p ∷ ps) qs same =
      let occurs : 1 ≤ times p qs = ground (arith, same p) in
      weigh_more p ps qs occurs
        (weigh_equal ps (remove p qs) (λ k. omega (arith, same k, times-remove p qs occurs k)))
    where
      weigh_more :
          (p : ℕ) (ps qs : List ℕ)
          → 1 ≤ times p qs
          → weigh h ps ≡ weigh h (remove p qs)
          → kind (h p) + weigh h ps ≡ weigh h qs
      weigh_more p ps qs occurs rest = omega (arith, rest, weigh-remove p qs occurs)

  pub weigh-append : (ps qs : List ℕ) → weigh h (ps ++ qs) ≡ weigh h ps + weigh h qs
  unfolding weigh
  weigh-append [] qs = omega arith
  weigh-append (p ∷ ps) qs = omega (arith, weigh-append ps qs)
