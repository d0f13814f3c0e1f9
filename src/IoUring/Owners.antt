-- ===== src/IoUring/Owners.antt =====
-- Who owns a request: the submission queue, or one of those who are named beside the server (the
-- kernel, the completion queue, the handler at work).
unfoldable pub use kernel_net.Prelude.{times}
use kernel_net.Prelude.{
  ℕ, ◌+◌, ◌≤◌, ◌≡◌, ite, ℕ_discrete, List, [], ◌∷◌, ◌++◌, Option, none, some, arith, Option-cases,
  inl, inr,
}
use kernel_net.Uring.{Call, Sqe}
use kernel_net.IoUring.{Request, Server, allocate, release, store, prepare}

-- How often a pointer occurs in entries.
unfoldable pub uses : ℕ → List Sqe → ℕ
uses p [] = 0
uses p (e ∷ es) = ite (ℕ_discrete e.request p) 1 0 + uses p es

pub uses-append : (p : ℕ) (xs ys : List Sqe) → uses p (xs ++ ys) ≡ uses p xs + uses p ys
unfolding uses
uses-append p [] ys = omega arith
uses-append p (x ∷ xs) ys = omega (arith, uses-append p xs ys)

abbrev pub alive : Option Request → ℕ
alive none = 0
alive (some _) = 1

-- Every request that is allocated has exactly one owner, and no other has any.
pub record Owned (s : Server) (others : List ℕ) : Type 0 where
  pub owned : (p : ℕ) → uses p s.sq + times p others ≡ alive (s.heap p)
  pub fresh : (p : ℕ) → s.next ≤ p → s.heap p ≡ none

-- The code did nothing undefined, and left the requests owned.
abbrev pub Succeeds : Option Server → List ℕ → Type 0
Succeeds none others = ⊥
Succeeds (some s) others = Owned s others

module _ {s : Server} {p : ℕ} {others : List ℕ} (o : Owned s (p ∷ others)) where
  pub request_of : (r : Request) × (s.heap p ≡ some r)
  unfolding times
  request_of = elim (Option-cases (s.heap p)) [
    | inl gone ↦ absurd (ground (arith, o.owned p))
    | inr found ↦ found
  ]

  pub release-Owned : Succeeds (release p s) others
  unfolding release times
  release-Owned =
      let (r, found) = request_of in
      rw (found, release)
        (record {
          owned = λ q. ground (arith, o.owned q, o.owned p);
          fresh = λ q h. ground (arith, o.fresh q);
        })

  pub prepare-Owned : (call : Call) → Owned (prepare p call s) others
  unfolding prepare times uses
  prepare-Owned call = record {
    owned = λ q.
        ground (arith, o.owned q, uses-append q s.sq (record { call = call; request = p } ∷ []));
    fresh = o.fresh;
  }

  pub store-Owned : (r : Request) → Owned (store p r s) (p ∷ others)
  unfolding store times
  store-Owned r = record {
    owned = λ q. ground (arith, o.owned q, request_of);
    fresh = λ q h. ground (arith, o.fresh q, request_of);
  }

pub allocate-Owned :
    {s : Server} {others : List ℕ} (r : Request)
    → Owned s others
    → Owned (allocate r s) (s.next ∷ others)
unfolding allocate times
allocate-Owned {s} r o = record {
  owned = λ q. ground (arith, o.owned q, o.fresh q);
  fresh = λ q h. ground (arith, o.fresh q);
}
