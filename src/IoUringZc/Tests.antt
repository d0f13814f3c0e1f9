-- ===== src/IoUringZc/Tests.antt =====
-- A zero-copy send of two bytes and its notification, on a queue of 256 entries.
use kernel_net.Prelude.{
  ◌≡◌, refl, true, false, List, [], ◌∷◌, map, negsuc, none, some, pos, ltb, update, ℕ_discrete,
}
use kernel_net.Uring.{recv_into, Platform}
use kernel_net.IoUringZc.{Request, Server, send_zc, buf_size, constructed, for_each_cqe}
use kernel_net.IoUring
use kernel_net.IoUring.Run.{Round, event_loop}
use kernel_net.IoUringZc.Run as ZcRun
use kernel_net.IoUringZc.Run.Same.{as_round, as_outcome, event_loop_same}
use kernel_net.IoUringZc.Notify.{sent, notification, notification_frees}

abbrev linux : Platform
linux = record { eagain = 11; etime = 62; eintr = 4; sqe_left = λ n. ltb n 256 }

abbrev sending : Request
sending = record { op = send_zc; client_fd = pos 7; buf = 104 ∷ 105 ∷ []; len = 2 }

abbrev serving : Server
serving = record {
  heap = update (λ _. none) 0 (some sending);
  next = 1;
  sq = [];
  listen_fd = pos 3;
  accept_pending = true;
  closed = [];
}

notification_frees_example :
    (t : Server) × (for_each_cqe linux (sent 0 (pos 2) ∷ notification 0 ∷ []) serving ≡ some t)
    × (t.sq ≡ record { call = recv_into (pos 7) buf_size; request = 0 } ∷ [])
    × (t.heap 0 ≡ none)
    × (t.closed ≡ pos 7 ∷ [])
unfolding ℕ_discrete
notification_frees_example = notification_frees linux serving 0 sending refl (pos 2) refl refl

-- The first accept times out, then a client connects, then `shutdown` is called.
abbrev accepted : List Round
accepted =
    record { shut = false; ret = negsuc 61; cqes = []; left = [] }
    ∷ record {
      shut = false;
      ret = pos 0;
      cqes = record { request = 0; res = pos 7; filled = [] } ∷ [];
      left = [];
    }
    ∷ record { shut = true; ret = pos 0; cqes = []; left = [] }
    ∷ []

event_loop_same_example :
    ZcRun.event_loop linux (map as_round accepted) (constructed (pos 3))
    ≡ as_outcome (event_loop linux accepted (IoUring.constructed (pos 3)))
event_loop_same_example = event_loop_same linux accepted (pos 3)
