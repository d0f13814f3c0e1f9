-- ===== src/IoUring/Tally.antt =====
-- How many requests hold a client's descriptor, and how often it has been closed.
use kernel_net.Prelude.{
  ℕ, suc, ◌+◌, ◌≤◌, ◌<◌, ◌≡◌, ap, ◌∙◌, List, [], ◌∷◌, ◌++◌, Option, none, some, ℤ, pos, negsuc, ite,
  ℕ_discrete, update, update_ne, total, total-update, total-suc, arith, dec_lt,
}
use kernel_net.Uring.{Call}
use kernel_net.IoUring.{
  Op, accept, recv, send, Request, Server, allocate, release, store, prepare, close,
}

abbrev pub of_client : ℕ → ℤ → ℕ
of_client k (pos fd) = ite (ℕ_discrete fd k) 1 0
of_client k (negsuc _) = 0

-- A request that waits for a connection holds no client.
abbrev pub serves : Op → ℕ → ℤ → ℕ
serves accept k fd = 0
serves recv k fd = of_client k fd
serves send k fd = of_client k fd

abbrev pub holds : ℕ → Option Request → ℕ
holds k none = 0
holds k (some r) = serves r.op k r.client_fd

unfoldable pub closings : ℕ → List ℤ → ℕ
closings k [] = 0
closings k (fd ∷ fds) = of_client k fd + closings k fds

pub closings-append :
    (k : ℕ) (xs ys : List ℤ) → closings k (xs ++ ys) ≡ closings k xs + closings k ys
unfolding closings
closings-append k [] ys = omega arith
closings-append k (x ∷ xs) ys = omega (arith, closings-append k xs ys)

-- `m k` is how often descriptor `k` has been closed or is held by an allocated request.
pub record Tallied (s : Server) (m : ℕ → ℕ) : Type 0 where
  pub fresh : (p : ℕ) → s.next ≤ p → s.heap p ≡ none
  pub tally : (k : ℕ) → closings k s.closed + total (holds k) s.next s.heap ≡ m k

abbrev pub Tallies : Option Server → (ℕ → ℕ) → Type 0
Tallies none m = Unit
Tallies (some s) m = Tallied s m

-- A pointer in use was returned by `new`.
pub used_below :
    (s : Server) (p : ℕ) (r : Request)
    → ((q : ℕ) → s.next ≤ q → s.heap q ≡ none)
    → s.heap p ≡ some r
    → p < s.next
used_below s p r fresh used = elim (dec_lt p s.next) [
  | yes below ↦ below
  | no above ↦ absurd (cc (used, fresh p (omega (arith, above))))
]

fresh-update :
    (s : Server) (p : ℕ) (v : Option Request)
    → p < s.next
    → ((q : ℕ) → s.next ≤ q → s.heap q ≡ none)
    → (q : ℕ) → s.next ≤ q
    → update s.heap p v q ≡ none
fresh-update s p v below fresh q out =
    update_ne s.heap p q v (λ e. omega (arith, below, out, e)) ∙ fresh q out

module _ {s : Server} {m : ℕ → ℕ} (t : Tallied s m) where
  pub allocate-Tallied :
      (r : Request) → Tallied (allocate r s) (λ k. m k + serves r.op k r.client_fd)
  unfolding allocate
  allocate-Tallied r = record {
    fresh = λ p out.
        update_ne s.heap s.next p (some r) (λ e. omega (arith, out, e))
        ∙ t.fresh p (omega (arith, out));
    tally = λ k. omega (
      arith,
      t.tally k,
      total-update (holds k) (suc s.next) s.heap s.next (some r) (omega arith),
      total-suc (holds k) s.next s.heap,
      ap (holds k) (t.fresh s.next (omega arith)),
    );
  }

  -- A request is replaced by one that holds the same client.
  pub store-Tallied :
      (p : ℕ) (r new : Request)
      → s.heap p ≡ some r
      → ((k : ℕ) → holds k (some new) ≡ holds k (some r))
      → Tallied (store p new s) m
  unfolding store
  store-Tallied p r new used same = record {
    fresh = fresh-update s p (some new) (used_below s p r t.fresh used) t.fresh;
    tally = λ k. omega (
      arith,
      t.tally k,
      total-update (holds k) s.next s.heap p (some new) (used_below s p r t.fresh used),
      ap (holds k) used,
      same k,
    );
  }

  -- A request is deleted, and `m` does not count its client any more.
  pub release-Tallies :
      (p : ℕ) (r : Request) (rest : ℕ → ℕ)
      → s.heap p ≡ some r
      → ((k : ℕ) → m k ≡ rest k + holds k (some r))
      → Tallies (release p s) rest
  unfolding release
  release-Tallies p r rest used splits = rw used (record {
    fresh = fresh-update s p none (used_below s p r t.fresh used) t.fresh;
    tally = λ k. omega (
      arith,
      t.tally k,
      total-update (holds k) s.next s.heap p none (used_below s p r t.fresh used),
      ap (holds k) used,
      splits k,
    );
  })

  pub close-Tallied : (fd : ℤ) → Tallied (close fd s) (λ k. m k + of_client k fd)
  unfolding closings
  close-Tallied fd = record {
    fresh = t.fresh;
    tally = λ k. omega (arith, t.tally k, closings-append k s.closed (fd ∷ []));
  }

  pub prepare-Tallied : (p : ℕ) (call : Call) → Tallied (prepare p call s) m
  unfolding prepare
  prepare-Tallied p call = record { fresh = t.fresh; tally = t.tally }
