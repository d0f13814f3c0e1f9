-- ===== src/Client/Effects.antt =====
-- What the threads of the client do to the state that they share, one access after another.
use mathlib.Core.List.{flatten}
use kernel_net.Prelude.{
  ℕ, zero, suc, ◌≡◌, refl, sym, ap, ◌∙◌, List, [], ◌∷◌, ◌++◌, Option, none, some, ◌>>=◌, ◌==◌,
  if◌then◌else◌, Option-cases, Bool-cases, inl, inr,
}
use kernel_net.Client.{
  send_loop, receive_loop, Exchange, Tally, Connection, no_socket, no_address, refused, connected,
  close, complete, note_latency, request, requests, serve, thread_func, run_threads,
}

-- `latencies_ms.push_back(ms)` under the mutex, `completed.fetch_add(1)`, `close(fd)`.
pub data Effect (D : Type 0) : Type 0 where
  pushes : (ms : D) → Effect D
  completes : Effect D
  closes : (fd : ℕ) → Effect D

module _ {D : Type 0} where
  unfoldable pub act : Effect D → Tally D → Tally D
  act (pushes ms) t = record t { latencies_ms = t.latencies_ms ++ ms ∷ [] }
  act completes t = complete t
  act (closes fd) t = close fd t

  unfoldable pub act_all : List (Effect D) → Tally D → Tally D
  act_all [] t = t
  act_all (e ∷ es) t = act_all es (act e t)

  pub act_all-append :
      (es fs : List (Effect D)) (t : Tally D) → act_all (es ++ fs) t ≡ act_all fs (act_all es t)
  unfolding act_all
  act_all-append [] fs t = refl
  act_all-append (e ∷ es) fs t = act_all-append es fs (act e t)

  -- What one stage does, then what the next one does; none when a loop of either does not end.
  abbrev pub followed_by :
      Option (List (Effect D)) → Option (List (Effect D)) → Option (List (Effect D))
  followed_by none o = none
  followed_by (some es) none = none
  followed_by (some es) (some fs) = some (es ++ fs)

  abbrev pub outcome : Option (List (Effect D)) → Tally D → Option (Tally D)
  outcome o t = o >>= λ es. some (act_all es t)

  outcome-followed_by :
      (o p : Option (List (Effect D))) (t : Tally D) (f : Tally D → Option (Tally D))
      → ((u : Tally D) → f u ≡ outcome p u)
      → (outcome o t >>= f) ≡ outcome (followed_by o p) t
  outcome-followed_by none p t f does = refl
  outcome-followed_by (some es) none t f does = does (act_all es t)
  outcome-followed_by (some es) (some fs) t f does =
      does (act_all es t) ∙ ap some (sym (act_all-append es fs t))

  flatten-cons :
      (es : List (Effect D)) (o : Option (List (List (Effect D)))) (t : Tally D)
      → (o >>= λ ps. some (act_all (flatten ps) (act_all es t)))
        ≡ ((o >>= λ rest. some (es ∷ rest)) >>= λ ps. some (act_all (flatten ps) t))
  unfolding flatten
  flatten-cons es none t = refl
  flatten-cons es (some ps) t = ap some (sym (act_all-append es (flatten ps) t))

  outcome-flatten :
      (o : Option (List (Effect D))) (p : Option (List (List (Effect D)))) (t : Tally D)
      (f : Tally D → Option (Tally D))
      → ((u : Tally D) → f u ≡ (p >>= λ ps. some (act_all (flatten ps) u)))
      → (outcome o t >>= f)
        ≡ ((o >>= λ es. p >>= λ rest. some (es ∷ rest)) >>= λ ps. some (act_all (flatten ps) t))
  outcome-flatten none p t f does = refl
  outcome-flatten (some es) p t f does = does (act_all es t) ∙ flatten-cons es p t

  module _ (size : ℕ) where
    unfoldable pub request_effects : Exchange D → Option (List (Effect D))
    request_effects e = send_loop e.writes size 0 >>= λ sent.
        receive_loop e.reads size 0 >>= λ recvd.
        some (if recvd == size then pushes e.ms ∷ completes ∷ [] else completes ∷ [])

    unfoldable pub requests_effects : ℕ → List (Exchange D) → Option (List (Effect D))
    requests_effects zero es = some []
    requests_effects (suc r) [] = none
    requests_effects (suc r) (e ∷ es) = followed_by (request_effects e) (requests_effects r es)

    module _ (r : ℕ) where
      unfoldable pub connection_effects : Connection D → Option (List (Effect D))
      connection_effects no_socket = some []
      connection_effects (no_address fd) = some (closes fd ∷ [])
      connection_effects (refused fd) = some (closes fd ∷ [])
      connection_effects (connected fd es) =
          followed_by (requests_effects r es) (some (closes fd ∷ []))

      -- `thread_func`, access by access
      unfoldable pub thread_effects : ℕ → List (Connection D) → Option (List (Effect D))
      thread_effects zero cs = some []
      thread_effects (suc conns) [] = none
      thread_effects (suc conns) (c ∷ cs) =
          followed_by (connection_effects c) (thread_effects conns cs)

      -- The threads, each with its accesses.
      unfoldable pub programs :
          List ℕ → List (List (Connection D)) → Option (List (List (Effect D)))
      programs [] inputs = some []
      programs (n ∷ shares) [] = none
      programs (n ∷ shares) (cs ∷ inputs) =
          thread_effects n cs >>= λ es. programs shares inputs >>= λ rest. some (es ∷ rest)

    request_does : (e : Exchange D) (t : Tally D) → request size e t ≡ outcome (request_effects e) t
    unfolding request request_effects note_latency act_all act
    request_does e t = elim (Option-cases (send_loop e.writes size 0)) [
      | inl runs_on ↦ rw runs_on refl
      | inr (sent, sends) ↦ elim (Option-cases (receive_loop e.reads size 0)) [
        | inl runs_on ↦ rw (sends, runs_on) refl
        | inr (recvd, receives) ↦ elim (Bool-cases (recvd == size)) [
          | inl full ↦ rw (sends, receives, full) refl
          | inr cut ↦ rw (sends, receives, cut) refl
        ]
      ]
    ]

    requests_do :
        (r : ℕ) (es : List (Exchange D)) (t : Tally D)
        → requests size r es t ≡ outcome (requests_effects r es) t
    unfolding requests requests_effects act_all
    requests_do zero es t = refl
    requests_do (suc r) [] t = refl
    requests_do (suc r) (e ∷ es) t =
        ap (λ o. o >>= requests size r es) (request_does e t)
        ∙ outcome-followed_by (request_effects e) (requests_effects r es) t (requests size r es)
            (requests_do r es)

    module _ (r : ℕ) where
      serve_does :
          (c : Connection D) (t : Tally D) → serve size r c t ≡ outcome (connection_effects r c) t
      unfolding serve connection_effects act_all act
      serve_does no_socket t = refl
      serve_does (no_address fd) t = refl
      serve_does (refused fd) t = refl
      serve_does (connected fd es) t =
          ap (λ o. o >>= λ u. some (close fd u)) (requests_do r es t)
          ∙ outcome-followed_by (requests_effects r es) (some (closes fd ∷ [])) t
              (λ u. some (close fd u)) (λ u. refl)

      thread_func_does :
          (n : ℕ) (cs : List (Connection D)) (t : Tally D)
          → thread_func size r n cs t ≡ outcome (thread_effects r n cs) t
      unfolding thread_func thread_effects act_all
      thread_func_does zero cs t = refl
      thread_func_does (suc n) [] t = refl
      thread_func_does (suc n) (c ∷ cs) t =
          ap (λ o. o >>= thread_func size r n cs) (serve_does c t)
          ∙ outcome-followed_by (connection_effects r c) (thread_effects r n cs) t
              (thread_func size r n cs) (thread_func_does n cs)

      -- One thread after another, the threads do all their accesses in turn.
      pub run_threads_do :
          (shares : List ℕ) (inputs : List (List (Connection D))) (t : Tally D)
          → run_threads size r shares inputs t
            ≡ (programs r shares inputs >>= λ ps. some (act_all (flatten ps) t))
      unfolding run_threads programs flatten act_all
      run_threads_do [] inputs t = refl
      run_threads_do (n ∷ shares) [] t = refl
      run_threads_do (n ∷ shares) (cs ∷ inputs) t =
          ap (λ o. o >>= run_threads size r shares inputs) (thread_func_does n cs t)
          ∙ outcome-flatten (thread_effects r n cs) (programs r shares inputs) t
              (run_threads size r shares inputs) (run_threads_do shares inputs)
