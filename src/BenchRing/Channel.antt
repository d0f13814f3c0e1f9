-- ===== src/BenchRing/Channel.antt =====
-- What the two threads of `bench_ring` see of their ring buffer: a channel of at most `size` messages, the
-- oldest first.
use kernel_net.Prelude.{
  ℕ, ◌<◌, ◌≡◌, List, [], ◌∷◌, ◌++◌, Option, none, some, ◌>>=◌, ltb, ◌==◌, if◌then◌else◌, length,
  arith,
}

pub record Channel : Type 0 where
  pub contents : List ℕ
  pub received : List ℕ

-- What a thread does to the channel.
pub data Action : Type 0 where
  send : (item : ℕ) → Action
  receive : (item : ℕ) → Action
  silent : Action

-- The receiver of `item` finds that item first.
unfoldable pub receive_from : List ℕ → ℕ → Channel → Option Channel
receive_from [] item c = none
receive_from (first ∷ rest) item c =
    if first == item
    then some (record { contents = rest; received = c.received ++ first ∷ [] })
    else none

-- `none` for a send to a full channel, and for a receive of another item than the oldest.
unfoldable pub act : ℕ → Action → Channel → Option Channel
act size (send item) c =
    if ltb (length c.contents) size
    then some (record c { contents = c.contents ++ item ∷ [] })
    else none
act size (receive item) c = receive_from c.contents item c
act size silent c = some c

-- The actions from an empty channel on, the last one first.
unfoldable pub replay : ℕ → List Action → Option Channel
replay size [] = some (record { contents = []; received = [] })
replay size (a ∷ actions) = replay size actions >>= act size a

pub act-send :
    (size item : ℕ) (c : Channel)
    → length c.contents < size
    → act size (send item) c ≡ some (record c { contents = c.contents ++ item ∷ [] })
unfolding act
act-send size item c room = ground (arith, room)

pub act-receive :
    (size item : ℕ) (c : Channel) (rest : List ℕ)
    → c.contents ≡ item ∷ rest
    → act size (receive item) c
      ≡ some (record { contents = rest; received = c.received ++ item ∷ [] })
unfolding act receive_from
act-receive size item c rest first = rw first (ground arith)
