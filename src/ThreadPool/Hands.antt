-- ===== src/ThreadPool/Hands.antt =====
-- The tasks that the workers of a pool have in hand, in the order of the workers.
use kernel_net.Prelude.{
  ℕ, zero, suc, ◌<◌, ◌≤◌, ◌≡◌, refl, sym, ap, ◌∙◌, List, [], ◌∷◌, ◌++◌, append_assoc, append-nil,
  length, length-append, update, update_self, update_ne, arith,
}
use kernel_net.ThreadPool.{Worker, holding, executing}

abbrev pub in_hand : {A : Type 0} → Worker A → List A
in_hand (holding task) = task ∷ []
in_hand (executing task) = task ∷ []
in_hand _ = []

module _ {A : Type 0} where
  pub collect : ℕ → (ℕ → Worker A) → List A
  collect zero f = []
  collect (suc n) f = in_hand (f 0) ++ collect n (λ j. f (suc j))

  pub collect_congr :
      (n : ℕ) (f g : ℕ → Worker A)
      → ((k : ℕ) → in_hand (f k) ≡ in_hand (g k))
      → collect n f ≡ collect n g
  unfolding collect
  collect_congr zero f g same = refl
  collect_congr (suc n) f g same =
      rw (same 0, collect_congr n (λ j. f (suc j)) (λ j. g (suc j)) (λ k. same (suc k))) refl

  pub collect-nothing : (n : ℕ) (w : Worker A) → in_hand w ≡ [] → collect n (λ _. w) ≡ []
  unfolding collect
  collect-nothing zero w idle = refl
  collect-nothing (suc n) w idle = rw (idle, collect-nothing n w idle) refl

  pub collect_one : (f : ℕ → Worker A) → collect 1 f ≡ in_hand (f 0)
  unfolding collect
  collect_one f = append-nil (in_hand (f 0))

  -- What stands before and after the hand of one worker.
  pub record Split (n : ℕ) (f : ℕ → Worker A) (i : ℕ) : Type 0 where
    pub before : List A
    pub after : List A
    pub now : collect n f ≡ before ++ (in_hand (f i) ++ after)
    pub then : (w : Worker A) → collect n (update f i w) ≡ before ++ (in_hand w ++ after)

  pub split : (n : ℕ) (f : ℕ → Worker A) (i : ℕ) → i < n → Split n f i
  unfolding collect
  split zero f i inside = absurd (omega arith)
  split (suc n) f zero inside = record {
    before = [];
    after = collect n (λ j. f (suc j));
    now = refl;
    then = λ w.
        rw
          (
            update_self f 0 w,
            collect_congr n (λ j. update f 0 w (suc j)) (λ j. f (suc j))
                (λ k. ap in_hand (update_ne f 0 (suc k) w (λ e. omega arith))),
          )
          refl;
  }
  split (suc n) f (suc i) inside =
      let rest = split n (λ j. f (suc j)) i (omega arith) in
      record {
        before = in_hand (f 0) ++ rest.before;
        after = rest.after;
        now =
            rw (rest.now)
              (sym (append_assoc (in_hand (f 0)) rest.before (in_hand (f (suc i)) ++ rest.after)));
        then = λ w.
            ap (λ l. in_hand (update f (suc i) w 0) ++ l)
              (collect_congr n (λ j. update f (suc i) w (suc j)) (update (λ j. f (suc j)) i w)
                  (λ k. ground arith)
                ∙ rest.then w)
            ∙ ap (λ v. in_hand v ++ (rest.before ++ (in_hand w ++ rest.after)))
                (update_ne f (suc i) 0 w (λ e. omega arith))
            ∙ sym (append_assoc (in_hand (f 0)) rest.before (in_hand w ++ rest.after));
      }

  pub length-collect : (n : ℕ) (f : ℕ → Worker A) → length (collect n f) ≤ n
  unfolding collect
  length-collect zero f = omega arith
  length-collect (suc n) f = omega (
    arith,
    length-append (in_hand (f 0)) (collect n (λ j. f (suc j))),
    at_most_one (f 0),
    length-collect n (λ j. f (suc j)),
  )
    where
      at_most_one : (w : Worker A) → length (in_hand w) ≤ 1
      at_most_one w = ground arith
