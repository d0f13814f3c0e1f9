-- ===== src/IoUring/Replies.antt =====
-- What the io_uring event loop sends for what it receives.
use kernel_net.Prelude.{
  ℕ, zero, suc, ◌≡◌, refl, sym, ap, ◌∙◌, subst, Bool, true, false, List, [], ◌∷◌, ◌++◌,
  append_assoc, append-nil, Option, none, some, ℤ, pos, negsuc, ◌>>=◌, update, update_self,
  if◌then◌else◌, Option-cases, Bool-cases, inl, inr,
}
use kernel_net.Uring.{Call, accept_on, recv_into, send_from, Sqe, Cqe, Platform, is_errno}
use kernel_net.IoUring.{
  Op, accept, recv, send, Request, Server, allocate, release, store, prepare, fill, close, buf_size,
  submit_accept, submit_recv, submit_send, handle_accept, handle_recv, handle_send, dispatch,
  handle_cqe, for_each_cqe, renew_accept,
}
use kernel_net.IoUring.Room.{Left, AlwaysLeft, OnResult}

-- A descriptor and a number of bytes.
pub record Message : Type 0 where
  pub client_fd : ℤ
  pub bytes : ℕ

abbrev pub sends_of : Call → List Message
sends_of (send_from fd len) = record { client_fd = fd; bytes = len } ∷ []
sends_of _ = []

-- The sends among some entries, in their order.
unfoldable pub sends : List Sqe → List Message
sends [] = []
sends (e ∷ es) = sends_of e.call ++ sends es

-- What a completion brings for a request: the bytes of a receive that did not fail or end.
abbrev pub brought : Op → ℤ → ℤ → List Message
brought recv fd (pos (suc n)) = record { client_fd = fd; bytes = suc n } ∷ []
brought _ fd res = []

abbrev pub brought_for : ℤ → Option Request → List Message
brought_for res none = []
brought_for res (some r) = brought r.op r.client_fd res

sends-append : (es fs : List Sqe) → sends (es ++ fs) ≡ sends es ++ sends fs
unfolding sends
sends-append [] fs = refl
sends-append (e ∷ es) fs =
    ap (λ l. sends_of e.call ++ l) (sends-append es fs)
    ∙ sym (append_assoc (sends_of e.call) (sends es) (sends fs))

sends-prepare :
    (p : ℕ) (call : Call) (s : Server) → sends (prepare p call s).sq ≡ sends s.sq ++ sends_of call
unfolding prepare sends
sends-prepare p call s =
    sends-append s.sq (record { call = call; request = p } ∷ [])
    ∙ ap (λ l. sends s.sq ++ l) (append-nil (sends_of call))

-- The entries prepared hold these sends, if the code went on.
abbrev pub Holds : Option Server → List Message → Type 0
Holds none ms = Unit
Holds (some t) ms = sends t.sq ≡ ms

module _ (os : Platform) where
  -- What some completions bring, in their order.
  unfoldable pub all_brought : List Cqe → Server → List Message
  all_brought [] s = []
  all_brought (c ∷ cs) s =
      brought_for c.res (s.heap c.request)
      ++ elim (handle_cqe os c s) [ none ↦ [] | some t ↦ all_brought cs t ]

module _ (os : Platform) where
  release-Holds : (p : ℕ) (s : Server) → Holds (release p s) (sends s.sq)
  unfolding release
  release-Holds p s = with_request (s.heap p)
    where
      with_request :
          (o : Option Request)
          → Holds (o >>= λ _. some (record s { heap = update s.heap p none })) (sends s.sq)
      with_request none = tt
      with_request (some r) = refl

  submit_recv-Holds : (p : ℕ) (s : Server) → Left os s → Holds (submit_recv os p s) (sends s.sq)
  unfolding submit_recv
  submit_recv-Holds p s left = elim (Option-cases (s.heap p)) [
    | inl freed ↦ rw freed tt
    | inr (r, used) ↦
        rw (used, left)
          (sends-prepare p (recv_into r.client_fd buf_size) s ∙ append-nil (sends s.sq))
  ]

  submit_send-Holds :
      (p : ℕ) (r : Request) (s : Server)
      → Left os s
      → s.heap p ≡ some r
      → Holds
          (submit_send os p s)
          (sends s.sq ++ record { client_fd = r.client_fd; bytes = r.len } ∷ [])
  unfolding submit_send
  submit_send-Holds p r s left used =
      rw (used, left) (sends-prepare p (send_from r.client_fd r.len) s)

  pub submit_accept-Holds : (s : Server) → Left os s → Holds (submit_accept os s) (sends s.sq)
  unfolding submit_accept allocate
  submit_accept-Holds s left = rw left (
      sends-prepare s.next (accept_on s.listen_fd)
        (allocate (record { op = accept; client_fd = negsuc 0; buf = []; len = 0 }) s)
      ∙ append-nil (sends s.sq))

  nothing_more : (o : Option Server) (ms : List Message) → Holds o ms → Holds o (ms ++ [])
  nothing_more none ms h = tt
  nothing_more (some t) ms h = h ∙ sym (append-nil ms)

  then_release :
      (p : ℕ) (o : Option Server) (ms : List Message) → Holds o ms → Holds (o >>= release p) ms
  then_release p none ms h = tt
  then_release p (some t) ms h = subst (Holds (release p t)) h (release-Holds p t)

  handle_accept-Holds :
      (res : ℤ) (s : Server) → Left os s → Holds (handle_accept os res s) (sends s.sq)
  unfolding handle_accept allocate
  handle_accept-Holds (negsuc _) s left = refl
  handle_accept-Holds (pos fd) s left =
      submit_recv-Holds s.next
        (allocate (record { op = recv; client_fd = pos fd; buf = []; len = 0 })
          (record s { accept_pending = false }))
        left

  handle_recv-Holds :
      (p : ℕ) (r : Request) (res : ℤ) (s : Server)
      → Left os s
      → s.heap p ≡ some r
      → Holds (handle_recv os p res s) (sends s.sq ++ brought recv r.client_fd res)
  unfolding handle_recv store
  handle_recv-Holds p r (pos zero) s left used =
      rw used (nothing_more _ _ (release-Holds p (close r.client_fd s)))
  handle_recv-Holds p r (negsuc n) s left used = rw used (
      nothing_more _ _ (elim (Bool-cases (is_errno n os.eagain)) [
        | inl again ↦ rw again (release-Holds p s)
        | inr failed ↦ rw failed (release-Holds p (close r.client_fd s))
      ]))
  handle_recv-Holds p r (pos (suc n)) s left used = rw used (
      submit_send-Holds p (record r { op = send; len = suc n })
        (store p (record r { op = send; len = suc n }) s) left
        (update_self s.heap p (some (record r { op = send; len = suc n }))))

  handle_send-Holds :
      (p : ℕ) (r : Request) (s : Server)
      → Left os s
      → s.heap p ≡ some r
      → Holds (handle_send os p s) (sends s.sq)
  unfolding handle_send store
  handle_send-Holds p r s left used =
      rw used (submit_recv-Holds p (store p (record r { op = recv; len = 0 }) s) left)

  dispatch-Holds :
      (op : Op) (c : Cqe) (r : Request) (s : Server)
      → Left os s
      → s.heap c.request ≡ some r
      → Holds (dispatch os op c (fill op c r s)) (sends s.sq ++ brought op r.client_fd c.res)
  unfolding dispatch fill store
  dispatch-Holds accept c r s left used = nothing_more _ _ (
      then_release c.request (handle_accept os c.res s) (sends s.sq)
        (handle_accept-Holds c.res s left))
  dispatch-Holds recv c r s left used =
      handle_recv-Holds c.request (record r { buf = c.filled }) c.res
        (store c.request (record r { buf = c.filled }) s) left
        (update_self s.heap c.request (some (record r { buf = c.filled })))
  dispatch-Holds send c r s left used = nothing_more _ _ (handle_send-Holds c.request r s left used)

  handle_cqe-Holds :
      (c : Cqe) (s : Server)
      → Left os s
      → Holds (handle_cqe os c s) (sends s.sq ++ brought_for c.res (s.heap c.request))
  unfolding handle_cqe
  handle_cqe-Holds c s left = elim (Option-cases (s.heap c.request)) [
    | inl freed ↦ rw freed tt
    | inr (r, used) ↦ rw used (dispatch-Holds r.op c r s left used)
  ]

  -- The completions of a round leave a send for each receive that brought bytes.
  pub for_each_cqe-Holds :
      (cs : List Cqe) (s : Server) (ms : List Message)
      → AlwaysLeft os cs s
      → sends s.sq ≡ ms
      → Holds (for_each_cqe os cs s) (ms ++ all_brought os cs s)
  unfolding for_each_cqe all_brought
  for_each_cqe-Holds [] s ms room h = h ∙ sym (append-nil ms)
  for_each_cqe-Holds (c ∷ cs) s ms (left, room) h =
      after (handle_cqe os c s) (handle_cqe-Holds c s left) room (λ t. for_each_cqe-Holds cs t)
    where
      first : List Message
      first = brought_for c.res (s.heap c.request)

      after :
          (o : Option Server)
          → Holds o (sends s.sq ++ first)
          → OnResult (AlwaysLeft os cs) o
          → ((t : Server) (ms : List Message)
              → AlwaysLeft os cs t
              → sends t.sq ≡ ms
              → Holds (for_each_cqe os cs t) (ms ++ all_brought os cs t))
          → Holds
              (o >>= for_each_cqe os cs)
              (ms ++ (first ++ elim o [ none ↦ [] | some t ↦ all_brought os cs t ]))
      after none held room later = tt
      after (some t) held room later =
          rw (← append_assoc ms first (all_brought os cs t))
            (later t (ms ++ first) room (held ∙ ap (λ l. l ++ first) h))

  pub renew_accept-Holds :
      (s : Server) (ms : List Message) → Left os s → sends s.sq ≡ ms → Holds (renew_accept os s) ms
  unfolding renew_accept
  renew_accept-Holds s ms left h = either s.accept_pending
    where
      either : (b : Bool) → Holds (if b then some s else submit_accept os s) ms
      either true = h
      either false = subst (Holds (submit_accept os s)) h (submit_accept-Holds s left)
