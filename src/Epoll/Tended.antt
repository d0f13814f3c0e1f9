-- ===== src/Epoll/Tended.antt =====
-- The order that the network thread keeps between the descriptors and the tasks.
use kernel_net.Prelude.{
  ℕ, zero, suc, ◌+◌, ◌≤◌, ◌≡◌, ◌≢◌, refl, sym, ap, subst, Bool, true, false, List, [], ◌∷◌, ◌++◌,
  some, ℤ, pos, negsuc, ite, ℕ_discrete, arith, take, Bool-cases, inl, inr, append_assoc,
  if◌then◌else◌,
}
use kernel_net.Epoll.{
  Errors, would_block, Task, echo, close_client, Server, enqueue, deregister, close, give_up,
  Accepted, client, no_client, register, accept_connection, Event, handle_read, handle_event,
}
use kernel_net.Epoll.Pool.{execute, Unused}

abbrev pub bit : Bool → ℕ
bit true = 1
bit false = 0

-- How many of the tasks close a descriptor, and how many write to it.
unfoldable pub closes : ℕ → List Task → ℕ
closes fd [] = 0
closes fd (close_client other ∷ ts) = ite (ℕ_discrete other fd) 1 0 + closes fd ts
closes fd (echo other buf ∷ ts) = closes fd ts

unfoldable pub echoes : ℕ → List Task → ℕ
echoes fd [] = 0
echoes fd (close_client other ∷ ts) = echoes fd ts
echoes fd (echo other buf ∷ ts) = ite (ℕ_discrete other fd) 1 0 + echoes fd ts

-- No task writes to a descriptor that an earlier one closes.
abbrev pub CloseLast : List Task → Type 0
CloseLast [] = Unit
CloseLast (close_client fd ∷ ts) = (echoes fd ts ≡ 0) × CloseLast ts
CloseLast (echo fd buf ∷ ts) = CloseLast ts

-- Of a server with `ts` to be done.
pub record Tended (s : Server) (ts : List Task) : Type 0 where
  pub one : (fd : ℕ) → bit (s.watched fd) + closes fd ts ≡ bit (s.is_open fd)
  pub live : (fd : ℕ) → 1 ≤ echoes fd ts → s.is_open fd ≡ true
  pub last : CloseLast ts

closes-append : (fd : ℕ) (xs ys : List Task) → closes fd (xs ++ ys) ≡ closes fd xs + closes fd ys
unfolding closes
closes-append fd [] ys = omega arith
closes-append fd (close_client other ∷ xs) ys = omega (arith, closes-append fd xs ys)
closes-append fd (echo other buf ∷ xs) ys = closes-append fd xs ys

echoes-append : (fd : ℕ) (xs ys : List Task) → echoes fd (xs ++ ys) ≡ echoes fd xs + echoes fd ys
unfolding echoes
echoes-append fd [] ys = omega arith
echoes-append fd (close_client other ∷ xs) ys = echoes-append fd xs ys
echoes-append fd (echo other buf ∷ xs) ys = omega (arith, echoes-append fd xs ys)

append_close-CloseLast :
    (fd : ℕ) (ts : List Task) → CloseLast ts → CloseLast (ts ++ close_client fd ∷ [])
unfolding echoes
append_close-CloseLast fd [] last = (refl, tt)
append_close-CloseLast fd (close_client other ∷ ts) (none_after, last) = (
  omega (arith, echoes-append other ts (close_client fd ∷ [])),
  append_close-CloseLast fd ts last,
)
append_close-CloseLast fd (echo other buf ∷ ts) last = append_close-CloseLast fd ts last

append_echo-CloseLast :
    (fd : ℕ) (buf : List ℕ) (ts : List Task)
    → closes fd ts ≡ 0
    → CloseLast ts
    → CloseLast (ts ++ echo fd buf ∷ [])
unfolding echoes closes
append_echo-CloseLast fd buf [] free last = tt
append_echo-CloseLast fd buf (close_client other ∷ ts) free (none_after, last) = (
  ground (arith, echoes-append other ts (echo fd buf ∷ [])),
  append_echo-CloseLast fd buf ts (omega (arith, free)) last,
)
append_echo-CloseLast fd buf (echo other b ∷ ts) free last =
    append_echo-CloseLast fd buf ts free last

module _ {s : Server} {ts : List Task} (tended : Tended s ts) where
  -- The end of the stream or an error, on a watched descriptor.
  give_up-Tended :
      (fd : ℕ) → s.watched fd ≡ true → Tended (give_up fd s) (ts ++ close_client fd ∷ [])
  unfolding give_up enqueue deregister closes echoes
  give_up-Tended fd seen = record {
    one = λ k. ground (arith, tended.one k, closes-append k ts (close_client fd ∷ []), seen);
    live = λ k h. tended.live k (omega (arith, h, echoes-append k ts (close_client fd ∷ [])));
    last = append_close-CloseLast fd ts tended.last;
  }

  echo-Tended :
      (fd : ℕ) (buf : List ℕ)
      → s.watched fd ≡ true
      → Tended (enqueue (echo fd buf) s) (ts ++ echo fd buf ∷ [])
  unfolding enqueue closes echoes
  echo-Tended fd buf seen = record {
    one = λ k. omega (arith, tended.one k, closes-append k ts (echo fd buf ∷ []));
    live = λ k h.
        ground (arith, tended.live k, tended.one k, echoes-append k ts (echo fd buf ∷ []), seen);
    last = append_echo-CloseLast fd buf ts (ground (arith, tended.one fd, seen)) tended.last;
  }

  register-Tended : (fd : ℕ) (added : Bool) → s.is_open fd ≡ false → Tended (register fd added s) ts
  unfolding register close
  register-Tended fd true unused = record {
    one = λ k. ground (arith, tended.one k, unused);
    live = λ k h. ground (arith, tended.live k h);
    last = tended.last;
  }
  register-Tended fd false unused = record {
    one = λ k. ground (arith, tended.one k, unused);
    live = λ k h. ground (arith, tended.live k h, unused);
    last = tended.last;
  }

  pub idle-Tended : (done : List Task) → Tended (record s { tasks = done }) ts
  idle-Tended done = record { one = tended.one; live = tended.live; last = tended.last }

pub execute-Tended :
    (t : Task) {s : Server} {ts : List Task} → Tended s (t ∷ ts) → Tended (execute t s) ts
unfolding execute close closes echoes
execute-Tended (echo fd buf) tended = record {
  one = tended.one;
  live = λ k h. tended.live k (omega (arith, h));
  last = tended.last;
}
execute-Tended (close_client fd) tended = record {
  one = λ k. ground (arith, tended.one k);
  live = λ k h. ground (arith, tended.live k, tended.last.0, h);
  last = tended.last.1;
}

accept-Tended :
    (answers : List Accepted) {s t : Server} {ts : List Task}
    → Tended s ts
    → Unused answers s
    → accept_connection answers s ≡ some t
    → Tended t ts × (t.tasks ≡ s.tasks)
unfolding accept_connection register close
accept-Tended [] tended unused e = absurd (ground (arith, e))
accept-Tended (no_client errno ∷ answers) {s} {t} {ts} tended unused e =
    let same : s ≡ t = ground (arith, e) in
    (subst (λ u. Tended u ts) same tended, ap (λ u. u.tasks) (sym same))
accept-Tended (client fd true ∷ answers) tended (unused, others) e =
    accept-Tended answers (register-Tended tended fd true unused) others e
accept-Tended (client fd false ∷ answers) tended (unused, others) e =
    accept-Tended answers (register-Tended tended fd false unused) others e

-- Of a server beside the tasks that the workers are at.
abbrev pub Kept : List Task → Server → Type 0
Kept hands s = Tended s (hands ++ s.tasks)

added :
    (hands : List Task) (s : Server) (t : Task)
    → Tended (enqueue t s) ((hands ++ s.tasks) ++ t ∷ [])
    → Kept hands (enqueue t s)
unfolding enqueue
added hands s t = subst (Tended (enqueue t s)) (append_assoc hands s.tasks (t ∷ []))

if_quiet :
    (b : Bool) (hands : List Task) {s u : Server}
    → Kept hands s
    → Kept hands u
    → Kept hands (if b then s else u)
if_quiet true hands p q = p
if_quiet false hands p q = q

handle_read-Kept :
    (os : Errors) (hands : List Task) {s : Server} (fd : ℕ) (n : ℤ) (errno : ℕ) (buf : List ℕ)
    → s.watched fd ≡ true
    → Kept hands s
    → Kept hands (handle_read os fd n errno buf s)
unfolding handle_read give_up deregister enqueue
handle_read-Kept os hands {s} fd (pos zero) errno buf seen kept =
    added hands _ (close_client fd) (give_up-Tended kept fd seen)
handle_read-Kept os hands fd (negsuc n) errno buf seen kept =
    if_quiet (would_block os errno) hands kept
      (added hands _ (close_client fd) (give_up-Tended kept fd seen))
handle_read-Kept os hands fd (pos (suc n)) errno buf seen kept =
    added hands _ (echo fd (take (suc n) buf)) (echo-Tended kept fd (take (suc n) buf) seen)

pub handle_event-Kept :
    (os : Errors) (hands : List Task) {s t : Server} (e : Event)
    → e.epollerr ≡ false
    → (e.fd ≢ s.listen_fd → s.watched e.fd ≡ true)
    → Unused e.accepts s
    → handle_event os e s ≡ some t
    → Kept hands s
    → Kept hands t
unfolding handle_event
handle_event-Kept os hands {s} {t} e calm seen unused result kept =
    elim (ℕ_discrete e.fd s.listen_fd) [
      | yes listens ↦
          let (tended, same) =
            accept-Tended e.accepts kept unused (ground (arith, result, calm, listens)) in
          subst (λ ts. Tended t (hands ++ ts)) (sym same) tended
      | no other ↦ elim (Bool-cases e.epollin) [
        | inl readable ↦
            let reads : handle_read os e.fd e.reads.n e.reads.errno e.reads.buf s ≡ t =
              ground (arith, result, calm, other, readable) in
            subst (Kept hands) reads (handle_read-Kept os hands e.fd _ _ _ (seen other) kept)
        | inr idle ↦
            let same : s ≡ t = ground (arith, result, calm, other, idle) in
            subst (Kept hands) same kept
      ]
    ]
