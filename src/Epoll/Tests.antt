-- ===== src/Epoll/Tests.antt =====
-- Runs of the epoll server with Linux's error numbers, and the theorems at them.
use kernel_net.Prelude.{ℕ, ◌≡◌, refl, true, false, List, [], ◌∷◌, some, ℤ, arith}
use kernel_net.Epoll.{Errors, would_block, echo, Accepted, Event, wrote, write_failed, write_loop}
use kernel_net.Epoll.Pool.{System, Reach}
use kernel_net.Epoll.Write.{taken, soft, write_loop-soft}
use kernel_net.Epoll.Workers.{closed_while_echoing}

abbrev linux : Errors
linux = record { eagain = 11; ewouldblock = 11 }

-- Two short writes, with a full send buffer between them.
write_loop-soft_example :
    write_loop linux (wrote 2 ∷ write_failed 11 ∷ wrote 1 ∷ []) (7 ∷ 8 ∷ 9 ∷ []) 0 []
    ≡ some (7 ∷ 8 ∷ 9 ∷ [])
unfolding soft taken would_block
write_loop-soft_example =
    write_loop-soft linux (wrote 2 ∷ write_failed 11 ∷ wrote 1 ∷ []) (7 ∷ 8 ∷ 9 ∷ []) refl

abbrev two_bytes : List ℕ
two_bytes = 7 ∷ 8 ∷ []

-- Client 7 connects and sends two bytes.
abbrev event_at : ℕ → List Accepted → ℤ → Event
event_at fd accepts n = record {
  fd = fd;
  epollerr = false;
  epollin = true;
  accepts = accepts;
  reads = record { n = n; errno = 0; buf = 104 ∷ 105 ∷ [] };
}

closed_while_echoing_example :
    (s : System) × Reach linux 2 3 s
    × (s.hands ≡ echo 7 (104 ∷ 105 ∷ []) ∷ [])
    × (s.server.is_open 7 ≡ false)
closed_while_echoing_example =
    closed_while_echoing linux 2 3 7 1 (104 ∷ 105 ∷ []) (ground arith) (omega arith)
