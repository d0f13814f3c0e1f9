-- ===== src/Client/Shares.antt =====
-- How the connections are shared out among the threads.
use mathlib.Core.List.{map-append}
use kernel_net.Prelude.{
  length, length-map, length-upto, All, ℕ, zero, suc, ◌+◌, ◌*◌, ◌/◌, ◌%◌, ◌≡◌, ◌≤◌, ◌⊎◌, inl, inr,
  refl, ap, ◌∙◌, List, [], ◌∷◌, ◌++◌, Option, none, some, map, min, ltb, upto, arith, if◌then◌else◌,
  dec_lt,
}
use native.Mathlib.Nat.{suc-mul, div-add-mod', mod-lt}
use kernel_net.Client.{share, shares}

unfoldable pub sum : List ℕ → ℕ
sum [] = 0
sum (x ∷ xs) = x + sum xs

sum-append : (xs ys : List ℕ) → sum (xs ++ ys) ≡ sum xs + sum ys
unfolding sum
sum-append [] ys = omega arith
sum-append (x ∷ xs) ys = omega (arith, sum-append xs ys)

-- The first `k` threads.
sum-shares : (c n k : ℕ) → sum (map (share c n) (upto k)) ≡ k * (c / n) + min k (c % n)
unfolding sum share
sum-shares c n zero = omega arith
sum-shares c n (suc k) =
    ap sum (map-append (share c n) (upto k) (k ∷ []))
    ∙ sum-append (map (share c n) (upto k)) (share c n k ∷ [])
    ∙ last (c / n) (c % n) (sum-shares c n k)
  where
    last :
        (q e : ℕ) {total : ℕ}
        → total ≡ k * q + min k e
        → total + (q + (if ltb k e then 1 else 0) + 0) ≡ suc k * q + min (suc k) e
    last q e same = elim (dec_lt k e) [
      | yes less ↦ ground (arith, suc-mul k q)
      | no over ↦ ground (arith, suc-mul k q)
    ]

abbrev pub Shared : ℕ → ℕ → Option (List ℕ) → Type 0
Shared c n none = n ≡ 0
Shared c n (some counts) =
    (sum counts ≡ c)
    × (length counts ≡ n)
    × (1 ≤ n)
    × All (λ k. (k ≡ c / n) ⊎ (k ≡ c / n + 1)) counts

share-near : (c n : ℕ) (ks : List ℕ) → All (λ k. (k ≡ c / n) ⊎ (k ≡ c / n + 1)) (map (share c n) ks)
unfolding share
share-near c n [] = tt
share-near c n (k ∷ ks) = (
  elim (dec_lt k (c % n)) [ yes less ↦ inr (ground arith) | no over ↦ inl (ground arith) ],
  share-near c n ks,
)

-- With at least one thread, every connection is given to one thread: there is a share for each
-- thread, the shares add up to the connections, and no two differ by more than 1. Without threads
-- the shares are undefined.
pub shares-Shared :
    (num_connections num_threads : ℕ)
    → Shared num_connections num_threads (shares num_connections num_threads)
unfolding shares
shares-Shared c zero = refl
shares-Shared c (suc n) = (
  omega (
    arith,
    sum-shares c (suc n) (suc n),
    div-add-mod' c (suc n),
    mod-lt c {m = suc n} (omega arith),
  ),
  length-map (share c (suc n)) (upto (suc n)) ∙ length-upto (suc n),
  omega arith,
  share-near c (suc n) (upto (suc n)),
)
