-- ===== src/IoUring/Accepts.antt =====
-- How many of the requests that are owned wait for a connection.
use kernel_net.Prelude.{
  ℕ, suc, ◌+◌, ◌≡◌, refl, sym, subst, Bool, true, false, List, [], ◌∷◌, ◌++◌, Option, none, some, ℤ,
  arith, update, update_self,
}
use kernel_net.Uring.{Call, Sqe}
use kernel_net.IoUring.{
  accept, recv, send, Request, Server, allocate, release, store, prepare, close,
}
use kernel_net.IoUring.Owners.{
  times, uses, Owned, Succeeds, request_of, release-Owned, prepare-Owned, store-Owned,
  allocate-Owned,
}

-- 1 for a request that waits for a connection.
abbrev pub kind : Option Request → ℕ
kind none = 0
kind (some r) = elim r.op [ accept ↦ 1 | recv ↦ 0 | send ↦ 0 ]

abbrev pub bit : Bool → ℕ
bit true = 1
bit false = 0

unfoldable pub weigh : (ℕ → Option Request) → List ℕ → ℕ
weigh heap [] = 0
weigh heap (p ∷ ps) = kind (heap p) + weigh heap ps

unfoldable pub weigh_entries : (ℕ → Option Request) → List Sqe → ℕ
weigh_entries heap [] = 0
weigh_entries heap (e ∷ es) = kind (heap e.request) + weigh_entries heap es

-- Beside the request that an entry of the queue waits for, `extra` more wait for a connection.
pub record Waits (s : Server) (others : List ℕ) (extra : ℕ) : Type 0 where
  pub owned : Owned s others
  pub count : weigh s.heap others + weigh_entries s.heap s.sq ≡ extra + bit s.accept_pending

abbrev pub AllWait : Option Server → List ℕ → ℕ → Type 0
AllWait none others extra = ⊥
AllWait (some s) others extra = Waits s others extra

module _ (h g : ℕ → Option Request) where
  weigh_congr : (ps : List ℕ) → ((p : ℕ) → kind (h p) ≡ kind (g p)) → weigh h ps ≡ weigh g ps
  unfolding weigh
  weigh_congr [] same = refl
  weigh_congr (p ∷ ps) same = omega (arith, same p, weigh_congr ps same)

  weigh_entries_congr :
      (es : List Sqe)
      → ((p : ℕ) → kind (h p) ≡ kind (g p))
      → weigh_entries h es ≡ weigh_entries g es
  unfolding weigh_entries
  weigh_entries_congr [] same = refl
  weigh_entries_congr (e ∷ es) same = omega (arith, same e.request, weigh_entries_congr es same)

module _ (h : ℕ → Option Request) (p : ℕ) (o : Option Request) where
  weigh-update : (ps : List ℕ) → times p ps ≡ 0 → weigh (update h p o) ps ≡ weigh h ps
  unfolding weigh times
  weigh-update [] absent = refl
  weigh-update (q ∷ ps) absent = ground (arith, absent, weigh-update ps)

  weigh_entries-update :
      (es : List Sqe) → uses p es ≡ 0 → weigh_entries (update h p o) es ≡ weigh_entries h es
  unfolding weigh_entries uses
  weigh_entries-update [] absent = refl
  weigh_entries-update (e ∷ es) absent = ground (arith, absent, weigh_entries-update es)

pub weigh_entries-append :
    (h : ℕ → Option Request) (xs ys : List Sqe)
    → weigh_entries h (xs ++ ys) ≡ weigh_entries h xs + weigh_entries h ys
unfolding weigh_entries
weigh_entries-append h [] ys = omega arith
weigh_entries-append h (x ∷ xs) ys = omega (arith, weigh_entries-append h xs ys)

-- What must be counted in a server.
abbrev Counted : List ℕ → ℕ → Server → Type 0
Counted others extra s =
    weigh s.heap others + weigh_entries s.heap s.sq ≡ extra + bit s.accept_pending

with_count :
    (result : Option Server) (others : List ℕ) (extra : ℕ)
    → Succeeds result others
    → ((t : Server) → result ≡ some t → Counted others extra t)
    → AllWait result others extra
with_count none others extra ok counts = ok
with_count (some t) others extra ok counts = record { owned = ok; count = counts t refl }

module _ {s : Server} {p : ℕ} {others : List ℕ} {extra : ℕ} (w : Waits s (p ∷ others) extra) where
  pub prepare-Waits : (call : Call) → Waits (prepare p call s) others extra
  unfolding prepare weigh weigh_entries
  prepare-Waits call = record {
    owned = prepare-Owned w.owned call;
    count = omega (
      arith,
      w.count,
      weigh_entries-append s.heap s.sq (record { call = call; request = p } ∷ []),
    );
  }

  same_kind :
      (o : Option Request)
      → kind o ≡ kind (s.heap p)
      → (q : ℕ) → kind (update s.heap p o q) ≡ kind (s.heap q)
  same_kind o same q = ground (arith, same)

  pub store-Waits :
      (r : Request) → kind (some r) ≡ kind (s.heap p) → Waits (store p r s) (p ∷ others) extra
  unfolding store
  store-Waits r same = record {
    owned = store-Owned w.owned r;
    count = omega (
      arith,
      w.count,
      weigh_congr (update s.heap p (some r)) s.heap (p ∷ others) (same_kind (some r) same),
      weigh_entries_congr (update s.heap p (some r)) s.heap s.sq (same_kind (some r) same),
    );
  }

  released : Server
  released = record s { heap = update s.heap p none }

  release_counts :
      (n : ℕ) → Counted others n released → (t : Server) → release p s ≡ some t → Counted others n t
  unfolding release released
  release_counts n count t e =
      let (r, found) = request_of w.owned in
      let same : released ≡ t = ground (arith, e, found) in subst (Counted others n) same count

  -- A release of a request that does not wait for a connection.
  pub release-Waits : kind (s.heap p) ≡ 0 → AllWait (release p s) others extra
  unfolding weigh released
  release-Waits quiet = with_count (release p s) others extra (release-Owned w.owned) (
      release_counts extra (
        omega (
          arith,
          w.count,
          quiet,
          weigh_congr (update s.heap p none) s.heap others (same_kind none (sym quiet)),
          weigh_entries_congr (update s.heap p none) s.heap s.sq (same_kind none (sym quiet)),
        )))

-- A release of one that does.
pub release_accept-Waits :
    {s : Server} {p : ℕ} {others : List ℕ} {extra : ℕ}
    → Waits s (p ∷ others) (suc extra)
    → kind (s.heap p) ≡ 1
    → AllWait (release p s) others extra
unfolding weigh released times
release_accept-Waits {s} {p} {others} {extra} w waits =
    let (r, found) = request_of w.owned in
    let alone : uses p s.sq + times p others ≡ 0 = ground (arith, w.owned.owned p, found) in
    with_count (release p s) others extra (release-Owned w.owned) (
      release_counts w extra (
        omega (
          arith,
          w.count,
          waits,
          weigh-update s.heap p none others (omega (arith, alone)),
          weigh_entries-update s.heap p none s.sq (omega (arith, alone)),
        )))

pub allocate-Waits :
    {s : Server} {others : List ℕ} {extra : ℕ} (r : Request)
    → Waits s others extra
    → Waits (allocate r s) (s.next ∷ others) (kind (some r) + extra)
unfolding allocate weigh
allocate-Waits {s} {others} r w =
    let unused : s.heap s.next ≡ none = w.owned.fresh s.next (omega arith) in
    let alone : uses s.next s.sq + times s.next others ≡ 0 =
      ground (arith, w.owned.owned s.next, unused) in
    record {
      owned = allocate-Owned r w.owned;
      count = rw (update_self s.heap s.next (some r)) (
          omega (
            arith,
            w.count,
            weigh-update s.heap s.next (some r) others (omega (arith, alone)),
            weigh_entries-update s.heap s.next (some r) s.sq (omega (arith, alone)),
          ));
    }

pub close-Waits :
    {s : Server} {others : List ℕ} {extra : ℕ} (fd : ℤ)
    → Waits s others extra
    → Waits (close fd s) others extra
close-Waits fd w = record {
  owned = record { owned = w.owned.owned; fresh = w.owned.fresh };
  count = w.count;
}

-- The accept has completed: its request is one more.
pub completed-Waits :
    {s : Server} {others : List ℕ}
    → Waits s others 0
    → s.accept_pending ≡ true
    → Waits (record s { accept_pending = false }) others 1
completed-Waits {s} w pending = record {
  owned = record { owned = w.owned.owned; fresh = w.owned.fresh };
  count = ground (arith, w.count, pending);
}

-- An accept is prepared.
pub prepared-Waits :
    {s : Server} {others : List ℕ}
    → Waits s others 1
    → s.accept_pending ≡ false
    → Waits (record s { accept_pending = true }) others 0
prepared-Waits {s} w idle = record {
  owned = record { owned = w.owned.owned; fresh = w.owned.fresh };
  count = ground (arith, w.count, idle);
}
