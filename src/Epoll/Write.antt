-- ===== src/Epoll/Write.antt =====
-- The loop of an echo task, whatever `write` answers.
use kernel_net.Prelude.{
  ℕ, zero, suc, ◌+◌, ◌≤◌, ◌≡◌, refl, sym, ap, ◌∙◌, Bool, true, ◌&&◌, List, [], ◌∷◌, ◌++◌, none,
  some, leb, if◌then◌else◌, length, take, drop, arith, dec_lt, Bool-cases, inl, inr,
}
use kernel_net.Epoll.{Errors, would_block, Written, wrote, write_failed, write_loop}

module _ {ℓ} {A : Type ℓ} where
  take_nil : (n : ℕ) → ◌≡◌ {A = List A} (take n []) []
  take_nil zero = refl
  take_nil (suc n) = refl

  take_add : (m n : ℕ) (xs : List A) → take (m + n) xs ≡ take m xs ++ take n (drop m xs)
  take_add zero n xs = ap (λ k. take k xs) (omega arith)
  take_add (suc m) n [] = rw (take_nil (suc m + n), take_nil n) refl
  take_add (suc m) n (x ∷ xs) =
      let unary : suc m + n ≡ suc (m + n) = omega arith in
      ap (λ k. take k (x ∷ xs)) unary ∙ ap (λ ys. x ∷ ys) (take_add m n xs)

  take_all : (n : ℕ) (xs : List A) → length xs ≤ n → take n xs ≡ xs
  take_all zero [] h = refl
  take_all zero (x ∷ xs) h = absurd (omega arith)
  take_all (suc n) [] h = refl
  take_all (suc n) (x ∷ xs) h = ap (λ ys. x ∷ ys) (take_all n xs (omega arith))

-- How many bytes the kernel takes in all.
unfoldable pub taken : List Written → ℕ
taken [] = 0
taken (wrote nw ∷ answers) = nw + taken answers
taken (write_failed errno ∷ answers) = taken answers

-- No answer is an error other than a full send buffer.
unfoldable pub soft : Errors → List Written → Bool
soft os [] = true
soft os (wrote nw ∷ answers) = soft os answers
soft os (write_failed errno ∷ answers) = would_block os errno && soft os answers

-- The loop writes the buffer in order: with `total` bytes written the kernel has the first `total`.
write_loop_from :
    (os : Errors) (answers : List Written) (buf : List ℕ) (total : ℕ)
    → soft os answers ≡ true
    → write_loop os answers buf total (take total buf)
      ≡ (if leb (length buf) (total + taken answers) then some buf else none)
unfolding write_loop soft taken
write_loop_from os [] buf total ok = elim (dec_lt total (length buf)) [
  | yes less ↦ ground arith
  | no done ↦ ground (arith, take_all total buf (omega arith))
]
write_loop_from os (wrote nw ∷ answers) buf total ok = elim (dec_lt total (length buf)) [
  | yes less ↦
      rw (sym (take_add total nw buf))
        (ground (arith, write_loop_from os answers buf (total + nw) ok))
  | no done ↦ ground (arith, take_all total buf (omega arith))
]
write_loop_from os (write_failed errno ∷ answers) buf total ok = elim (dec_lt total (length buf)) [
  | yes less ↦ ground (arith, write_loop_from os answers buf total)
  | no done ↦ ground (arith, take_all total buf (omega arith))
]

prefix_from :
    (os : Errors) (answers : List Written) (buf : List ℕ) (total : ℕ) (sent : List ℕ)
    → write_loop os answers buf total (take total buf) ≡ some sent
    → (k : ℕ) × (sent ≡ take k buf)
unfolding write_loop
prefix_from os [] buf total sent e = elim (dec_lt total (length buf)) [
  | yes less ↦ absurd (ground (arith, e))
  | no done ↦ (total, ground (arith, e))
]
prefix_from os (wrote nw ∷ answers) buf total sent e = elim (dec_lt total (length buf)) [
  | yes less ↦
      prefix_from os answers buf (total + nw) sent (rw (take_add total nw buf) (ground (arith, e)))
  | no done ↦ (total, ground (arith, e))
]
prefix_from os (write_failed errno ∷ answers) buf total sent e = elim (dec_lt total (length buf)) [
  | yes less ↦ elim (Bool-cases (would_block os errno)) [
    | inl full ↦ prefix_from os answers buf total sent (ground (arith, e, full, less))
    | inr gone ↦ (total, ground (arith, e))
  ]
  | no done ↦ (total, ground (arith, e))
]

-- While `write` fails only for a full send buffer, the loop of an echo task ends exactly when the
-- kernel has taken as many bytes as the buffer holds, and then it has sent the buffer in order.
-- Until then it runs on.
pub write_loop-soft :
    (os : Errors) (answers : List Written) (buf : List ℕ)
    → soft os answers ≡ true
    → write_loop os answers buf 0 [] ≡ (if leb (length buf) (taken answers) then some buf else none)
write_loop-soft os answers buf ok =
    write_loop_from os answers buf 0 ok
    ∙ ap (λ n. if leb (length buf) n then some buf else none) (omega arith)

-- Whatever `write` answers, what an echo task has sent when it ends is a beginning of its buffer.
pub write_loop-prefix :
    (os : Errors) (answers : List Written) (buf sent : List ℕ)
    → write_loop os answers buf 0 [] ≡ some sent
    → (k : ℕ) × (sent ≡ take k buf)
write_loop-prefix os answers buf sent = prefix_from os answers buf 0 sent
