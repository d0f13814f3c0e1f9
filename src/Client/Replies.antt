-- ===== src/Client/Replies.antt =====
-- The loop that reads a reply, and what a reply is counted as.
use kernel_net.Prelude.{
  ℕ, zero, suc, ◌+◌, ◌≤◌, ◌<◌, ◌≡◌, ◌≢◌, Bool, true, false, List, [], ◌∷◌, none, some, ℤ, pos,
  negsuc, leb, if◌then◌else◌, arith, dec_lt, add_size,
}
use kernel_net.Client.{send_loop, receive_loop, Exchange, Tally, complete, note_latency, request}

-- `read` returns no more bytes than it is asked for.
abbrev pub Within : List ℤ → ℕ → ℕ → Type 0
Within (pos (suc n) ∷ answers) size recvd =
    (recvd < size → recvd + suc n ≤ size) × Within answers size (recvd + suc n)
Within _ size recvd = Unit

-- The bytes that arrive before the end of the stream or an error, and whether one of these comes.
unfoldable pub arriving : List ℤ → ℕ
arriving (pos (suc n) ∷ answers) = suc n + arriving answers
arriving _ = 0

unfoldable pub breaks : List ℤ → Bool
breaks [] = false
breaks (pos (suc n) ∷ answers) = breaks answers
breaks (pos zero ∷ answers) = true
breaks (negsuc _ ∷ answers) = true

receive_loop_from :
    (answers : List ℤ) (size recvd : ℕ)
    → recvd ≤ size
    → Within answers size recvd
    → receive_loop answers size recvd ≡ (
        if leb size (recvd + arriving answers)
        then some size
        else if breaks answers
        then some (recvd + arriving answers)
        else none)
unfolding receive_loop arriving breaks
receive_loop_from [] size recvd le within = ground arith
receive_loop_from (negsuc n ∷ answers) size recvd le within = ground arith
receive_loop_from (pos zero ∷ answers) size recvd le within = ground arith
receive_loop_from (pos (suc n) ∷ answers) size recvd le (fits, within) = elim (dec_lt recvd size) [
  | yes less ↦ ground (arith, receive_loop_from answers size (recvd + suc n) (fits less) within)
  | no full ↦ ground arith
]

-- When no read returns more than was asked for, the loop ends with the whole reply as soon as that
-- many bytes have arrived; otherwise it ends with what has arrived when the stream ends or fails,
-- and until then it runs on.
pub receive_loop_result :
    (answers : List ℤ) (size : ℕ)
    → Within answers size 0
    → receive_loop answers size 0 ≡ (
        if leb size (arriving answers)
        then some size
        else if breaks answers
        then some (arriving answers)
        else none)
receive_loop_result answers size within =
    ground (arith, receive_loop_from answers size 0 (omega arith) within)

-- A request whose reply is cut short is counted as completed, and no latency is noted for it.
pub short_reply_counts :
    {D : Type 0} (size sent recvd : ℕ) (e : Exchange D) (t : Tally D)
    → send_loop e.writes size 0 ≡ some sent
    → receive_loop e.reads size 0 ≡ some recvd
    → recvd ≢ size
    → request size e t ≡ some (record t { completed = add_size t.completed 1 })
unfolding request complete note_latency
short_reply_counts size sent recvd e t sends receives short = ground (arith, sends, receives)
