-- ===== src/IoUring/Answered.antt =====
-- In a run of the io_uring event loop, what is sent and what is received.
use kernel_net.Prelude.{zero, ◌≡◌, List, [], ◌++◌, Option, none, some, ℤ, pos}
use kernel_net.Uring.{Cqe, Platform}
use kernel_net.IoUring.{Server, System, Turn}
use kernel_net.IoUring.Loop.{Reach, begin, round}
use kernel_net.IoUring.Replies.{Message, sends, all_brought}

-- What a round brings; only a wait that returns 0 hands completions over.
abbrev pub heard : Platform → ℤ → List Cqe → Server → List Message
heard os (pos zero) cqes s = all_brought os cqes s
heard os ret cqes s = []

-- The receives of a run that brought bytes, in order.
unfoldable pub received : {os : Platform} {fd : ℤ} {s : System} → Reach os fd s → List Message
received (begin e) = []
received {os} (round {s} ret cqes left reach c e) = received reach ++ heard os ret cqes s.server

-- The sends that a run has submitted, in order.
unfoldable pub submitted_sends :
    {os : Platform} {fd : ℤ} {s : System} → Reach os fd s → List Message
submitted_sends (begin e) = []
submitted_sends (round {u} ret cqes left reach c e) = submitted_sends reach ++ sends u.submitted

-- A round submits these sends, and leaves none prepared.
abbrev Submits : Option (Option Turn) → List Message → Type 0
Submits none ms = Unit
Submits (some none) ms = Unit
Submits (some (some u)) ms = (sends u.submitted ≡ ms) × (sends u.server.sq ≡ [])
