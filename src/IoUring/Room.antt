-- ===== src/IoUring/Room.antt =====
-- Runs of the io_uring event loop in which `io_uring_get_sqe` never returns NULL.
use kernel_net.Prelude.{zero, ◌≡◌, true, List, [], ◌∷◌, Option, none, some, ℤ, pos, ◌>>=◌, length}
use kernel_net.Uring.{Cqe, Platform}
use kernel_net.IoUring.{Server, System, handle_cqe, for_each_cqe}
use kernel_net.IoUring.Loop.{Reach, begin, round}

-- There is an entry for the next call of `io_uring_get_sqe`.
abbrev pub Left : Platform → Server → Type 0
Left os s = os.sqe_left (length s.sq) ≡ true

-- It holds of the state that the code goes on with.
abbrev pub OnResult : (Server → Type 0) → Option Server → Type 0
OnResult P none = Unit
OnResult P (some s) = P s

-- There is one before each of these completions is handled, and after the last one.
abbrev pub AlwaysLeft : Platform → List Cqe → Server → Type 0
AlwaysLeft os [] s = Left os s
AlwaysLeft os (c ∷ cs) s = Left os s × OnResult (AlwaysLeft os cs) (handle_cqe os c s)

-- Only a wait that returns 0 hands completions over.
abbrev pub RoundLeft : Platform → ℤ → List Cqe → Server → Type 0
RoundLeft os (pos zero) cqes s = AlwaysLeft os cqes s
RoundLeft os ret cqes s = Left os s

-- There is one for the first accept, and in each round before each completion and before the accept
-- is renewed.
unfoldable pub Roomy : {os : Platform} {fd : ℤ} {s : System} → Reach os fd s → Type 0
Roomy {os} (begin e) = os.sqe_left 0 ≡ true
Roomy {os} (round {s} ret cqes left reach c e) = Roomy reach × RoundLeft os ret cqes s.server

-- After the completions of a round there is one.
pub room_after :
    (os : Platform) (cqes : List Cqe) (s : Server)
    → AlwaysLeft os cqes s
    → OnResult (Left os) (for_each_cqe os cqes s)
unfolding for_each_cqe
room_after os [] s room = room
room_after os (c ∷ cqes) s (left, room) = after (handle_cqe os c s) room (room_after os cqes)
  where
    after :
        (o : Option Server)
        → OnResult (AlwaysLeft os cqes) o
        → ((t : Server) → AlwaysLeft os cqes t → OnResult (Left os) (for_each_cqe os cqes t))
        → OnResult (Left os) (o >>= for_each_cqe os cqes)
    after none room later = tt
    after (some t) room later = later t room
