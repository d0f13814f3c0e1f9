-- ===== src/IoUringZc/Translates.antt =====
-- The zero-copy server beside the io_uring server.
use mathlib.Core.Path.{fun_ext}
use mathlib.Core.List.{map-append}
use kernel_net.Prelude.{
  ℕ, suc, ◌≡◌, refl, sym, ap, Bool, true, false, [], ◌∷◌, Option, none, some, ◌>>=◌, if◌then◌else◌,
  update, map, arith,
}
use kernel_net.Uring.{Call, send_from, send_zc_from, Sqe}
use kernel_net.IoUring
use kernel_net.IoUring.{Op, accept, recv, send, Request, Server, Turn}
use kernel_net.IoUringZc
use kernel_net.IoUringZc.{send_zc}

abbrev pub as_op : Op → IoUringZc.Op
as_op accept = IoUringZc.accept
as_op recv = IoUringZc.recv
as_op send = send_zc

abbrev pub as_request : Request → IoUringZc.Request
as_request r = record { op = as_op r.op; client_fd = r.client_fd; buf = r.buf; len = r.len }

-- A send becomes a zero-copy send.
abbrev pub as_call : Call → Call
as_call (send_from client_fd len) = send_zc_from client_fd len
as_call call = call

abbrev pub as_sqe : Sqe → Sqe
as_sqe e = record { call = as_call e.call; request = e.request }

abbrev pub as_held : Option Request → Option IoUringZc.Request
as_held none = none
as_held (some r) = some (as_request r)

abbrev pub as_server : Server → IoUringZc.Server
as_server s = record {
  heap = λ p. as_held (s.heap p);
  next = s.next;
  sq = map as_sqe s.sq;
  listen_fd = s.listen_fd;
  accept_pending = s.accept_pending;
  closed = s.closed;
}

abbrev pub as_result : Option Server → Option IoUringZc.Server
as_result none = none
as_result (some s) = some (as_server s)

abbrev pub as_turn : Turn → IoUringZc.Turn
as_turn u = record { server = as_server u.server; submitted = map as_sqe u.submitted }

abbrev pub as_turned : Option (Option Turn) → Option (Option IoUringZc.Turn)
as_turned none = none
as_turned (some none) = some none
as_turned (some (some u)) = some (some (as_turn u))

pub update_held :
    (h : ℕ → Option Request) (k : ℕ) (r : Option Request)
    → update (λ p. as_held (h p)) k (as_held r) ≡ (λ p. as_held (update h k r p))
update_held h k r = fun_ext (λ p. ground arith)

pub lookup :
    (h : Option Request) (f : IoUringZc.Request → Option IoUringZc.Server)
    (g : Request → Option Server)
    → ((r : Request) → f (as_request r) ≡ as_result (g r))
    → (as_held h >>= f) ≡ as_result (h >>= g)
lookup none f g same = refl
lookup (some r) f g same = same r

pub follow :
    (r : Option Server) (f : IoUringZc.Server → Option IoUringZc.Server)
    (g : Server → Option Server)
    → ((s : Server) → f (as_server s) ≡ as_result (g s))
    → (as_result r >>= f) ≡ as_result (r >>= g)
follow none f g same = refl
follow (some s) f g same = same s

pub branch :
    (b : Bool) {x y : Option IoUringZc.Server} (u v : Option Server)
    → x ≡ as_result u
    → y ≡ as_result v
    → (if b then x else y) ≡ as_result (if b then u else v)
branch true u v p q = p
branch false u v p q = q

pub allocate_same :
    (r : Request) (s : Server)
    → IoUringZc.allocate (as_request r) (as_server s) ≡ as_server (IoUring.allocate r s)
unfolding IoUringZc.allocate IoUring.allocate
allocate_same r s =
    ap (λ h. record (as_server s) { heap = h; next = suc s.next })
      (update_held s.heap s.next (some r))

pub store_same :
    (p : ℕ) (r : Request) (s : Server)
    → IoUringZc.store p (as_request r) (as_server s) ≡ as_server (IoUring.store p r s)
unfolding IoUringZc.store IoUring.store
store_same p r s = ap (λ h. record (as_server s) { heap = h }) (update_held s.heap p (some r))

pub release_same :
    (p : ℕ) (s : Server) → IoUringZc.release p (as_server s) ≡ as_result (IoUring.release p s)
unfolding IoUringZc.release IoUring.release
release_same p s =
    lookup (s.heap p) _ _
      (λ r. ap (λ h. some (record (as_server s) { heap = h })) (update_held s.heap p none))

pub prepare_same :
    (p : ℕ) (call : Call) (s : Server)
    → IoUringZc.prepare p (as_call call) (as_server s) ≡ as_server (IoUring.prepare p call s)
unfolding IoUringZc.prepare IoUring.prepare
prepare_same p call s =
    ap (λ sq. record (as_server s) { sq = sq })
      (sym (map-append as_sqe s.sq (record { call = call; request = p } ∷ [])))
