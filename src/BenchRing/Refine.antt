-- ===== src/BenchRing/Refine.antt =====
-- `bench_ring` as a channel.
use kernel_net.Prelude.{
  ℕ, zero, suc, ◌+◌, ◌-◌, ◌^◌, ◌≤◌, ◌<◌, ◌≡◌, refl, sym, ap, ap₂, ◌∙◌, Bool, List, [], ◌∷◌, ◌++◌,
  some, ◌>>=◌, map, length, get_or, add_size, arith, bit_and-size,
}
use kernel_net.Ring.{SpscRingBuffer, slot}
use kernel_net.BenchRing.{
  written, copied, System, start, Step, load_write, load_read, store_item, store_write, finish,
  begin_pop, load_written, read_item, store_read, done_unset, done_set, Reach, begin, next,
}
use kernel_net.BenchRing.Channel
use kernel_net.BenchRing.Invariant.{ProducerFits, ConsumerFits, Inv}
use kernel_net.BenchRing.Keeps.{Step-Inv, Reach-Inv}
use kernel_net.BenchRing.Stores.{producer_at, consumer_at}

-- a, a + 1, …, of which there are so many.
abbrev pub count_from : ℕ → ℕ → List ℕ
count_from a zero = []
count_from a (suc m) = a ∷ count_from (suc a) m

length-count_from : (a m : ℕ) → length (count_from a m) ≡ m
length-count_from a zero = refl
length-count_from a (suc m) = ap suc (length-count_from (suc a) m)

count_from-suc : (a m : ℕ) → count_from a (suc m) ≡ count_from a m ++ (a + m) ∷ []
count_from-suc a zero = ap (λ (b : ℕ). b ∷ []) (omega arith)
count_from-suc a (suc m) =
    ap (λ l. a ∷ l)
      (count_from-suc (suc a) m ∙ ap (λ (b : ℕ). count_from (suc a) m ++ b ∷ []) (omega arith))

-- A function that keeps what it is given.
map-count_from :
    (f : ℕ → ℕ) (a m : ℕ)
    → ((j : ℕ) → a ≤ j → j < a + m → f j ≡ j)
    → map f (count_from a m) ≡ count_from a m
map-count_from f a zero keeps = refl
map-count_from f a (suc m) keeps =
    ap₂ (◌∷◌) (keeps a (omega arith) (omega arith)) (
      map-count_from f (suc a) m (λ j low high. keeps j (omega (arith, low)) (omega (arith, high))))

-- The items in the slots from the read index up to the write index.
abbrev pub contents : ℕ → SpscRingBuffer ℕ → List ℕ
contents size r =
    map (λ j. get_or r.buffer (slot size j) 0) (count_from r.read_idx (r.write_idx - r.read_idx))

abbrev pub view : ℕ → System → Channel.Channel
view size s = record { contents = contents size s.ring; received = s.received }

module _ {k n : ℕ} {s : System} (inv : Inv k n s) where
  -- They are the messages of these numbers.
  contents_are : contents (2 ^ k) s.ring ≡ count_from s.read_idx (s.write_idx - s.read_idx)
  contents_are = map-count_from _ s.read_idx (s.write_idx - s.read_idx) λ j low high.
      rw (bit_and-size k j inv.small) (inv.live j low (omega (arith, high, inv.behind)))

-- What a step does to the channel: the store of the write index sends, that of the read index
-- receives.
abbrev pub action : {size n : ℕ} {s t : System} → Step size n s t → Channel.Action
action (load_write i e more) = Channel.silent
action (load_read i w r e low high) = Channel.silent
action (store_item i w e) = Channel.silent
action (store_write i w e) = Channel.send i
action (finish i e last) = Channel.silent
action (begin_pop drain e) = Channel.silent
action (load_written drain r w e low high) = Channel.silent
action (read_item drain r e) = Channel.silent
action (store_read drain r item e) = Channel.receive item
action (done_unset e) = Channel.silent
action (done_set e set_) = Channel.silent

-- The last one first.
unfoldable pub actions : {size n : ℕ} {s : System} → Reach size n s → List Channel.Action
actions begin = []
actions (next reach step) = action step ∷ actions reach

abbrev as_channel : List ℕ → List ℕ → Channel.Channel
as_channel items got = record { contents = items; received = got }

-- The view of a state with these messages in its slots, of which these were received.
recognize :
    {k n : ℕ} {t : System} (inv : Inv k n t) (items got : List ℕ)
    → count_from t.read_idx (t.write_idx - t.read_idx) ≡ items
    → t.received ≡ got
    → some (as_channel items got) ≡ some (view (2 ^ k) t)
recognize {k} {t = t} inv items got same received =
    ap₂ (λ items got. some (as_channel items got)) (sym (contents_are inv ∙ same)) (sym received)

module _ {k n : ℕ} {s : System} (inv : Inv k n s) where
  -- A step that leaves the indices and what was received alone is not seen.
  unseen :
      {t : System}
      → Inv k n t
      → t.read_idx ≡ s.read_idx
      → t.write_idx ≡ s.write_idx
      → t.received ≡ s.received
      → Channel.act (2 ^ k) Channel.silent (view (2 ^ k) s) ≡ some (view (2 ^ k) t)
  unfolding Channel.act
  unseen after reads writes receives =
      recognize after (contents (2 ^ k) s.ring) s.received
        (ap₂ (λ a b. count_from a (b - a)) reads writes ∙ sym (contents_are inv)) receives

  contents_s : contents (2 ^ k) s.ring ≡ count_from s.read_idx (s.write_idx - s.read_idx)
  contents_s = contents_are inv

  -- The store of the write index sends.
  sends :
      (i w : ℕ)
      → s.producer ≡ written i w
      → {t : System} → Inv k n t
      → t.read_idx ≡ s.read_idx
      → t.write_idx ≡ add_size w 1
      → t.received ≡ s.received
      → Channel.act (2 ^ k) (Channel.send i) (view (2 ^ k) s) ≡ some (view (2 ^ k) t)
  sends i w e {t} after reads writes receives =
      let fits : ProducerFits k n s (written i w) = producer_at inv e in
      let size : length (contents (2 ^ k) s.ring) ≡ s.write_idx - s.read_idx =
        ap length contents_s ∙ length-count_from s.read_idx (s.write_idx - s.read_idx) in
      let wider : t.write_idx - t.read_idx ≡ suc (s.write_idx - s.read_idx) =
        omega (arith, reads, writes, fits, inv.behind, inv.size_t) in
      let last : s.read_idx + (s.write_idx - s.read_idx) ≡ i = omega (arith, fits, inv.behind) in
      Channel.act-send (2 ^ k) i (view (2 ^ k) s) (omega (arith, size, fits, inv.behind))
      ∙ recognize after (contents (2 ^ k) s.ring ++ i ∷ []) s.received
          (ap₂ count_from reads wider
            ∙ count_from-suc s.read_idx (s.write_idx - s.read_idx)
            ∙ ap₂ (λ l b. l ++ b ∷ []) (sym contents_s) last)
          receives

  -- The store of the read index receives.
  receives :
      (drain : Bool) (r item : ℕ)
      → s.consumer ≡ copied drain r item
      → {t : System} → Inv k n t
      → t.read_idx ≡ add_size r 1
      → t.write_idx ≡ s.write_idx
      → t.received ≡ s.received ++ item ∷ []
      → Channel.act (2 ^ k) (Channel.receive item) (view (2 ^ k) s) ≡ some (view (2 ^ k) t)
  receives drain r item e {t} after reads writes got =
      let fits : ConsumerFits k n s (copied drain r item) = consumer_at inv e in
      let some_left : s.write_idx - s.read_idx ≡ suc (s.write_idx - suc s.read_idx) =
        omega (arith, fits, inv.stale_write) in
      let next_read : t.read_idx ≡ suc s.read_idx =
        omega (arith, reads, fits, inv.stale_write, inv.sent, inv.size_t) in
      let rest : List ℕ = count_from (suc s.read_idx) (s.write_idx - suc s.read_idx) in
      Channel.act-receive (2 ^ k) item (view (2 ^ k) s) rest (
        contents_s
        ∙ ap (count_from s.read_idx) some_left
        ∙ ap (λ (b : ℕ). b ∷ rest) (omega (arith, fits)))
      ∙ recognize after rest (s.received ++ item ∷ [])
          (ap₂ (λ a b. count_from a (b - a)) next_read writes) got

  step_acts :
      {t : System} (step : Step (2 ^ k) n s t)
      → Inv k n t
      → Channel.act (2 ^ k) (action step) (view (2 ^ k) s) ≡ some (view (2 ^ k) t)
  step_acts (load_write i e more) after = unseen after refl refl refl
  step_acts (load_read i w r e low high) after = unseen after refl refl refl
  step_acts (store_item i w e) after = unseen after refl refl refl
  step_acts (store_write i w e) after = sends i w e after refl refl refl
  step_acts (finish i e last) after = unseen after refl refl refl
  step_acts (begin_pop drain e) after = unseen after refl refl refl
  step_acts (load_written drain r w e low high) after = unseen after refl refl refl
  step_acts (read_item drain r e) after = unseen after refl refl refl
  step_acts (store_read drain r item e) after = receives drain r item e after refl refl refl
  step_acts (done_unset e) after = unseen after refl refl refl
  step_acts (done_set e set_) after = unseen after refl refl refl

-- bench_ring's ring buffer is a bounded channel, first in first out: with 2 ^ k slots, k ≤ 63, and
-- num_messages < 2 ^ 64, in every run, under stale loads of the indices. Take the run's stores of
-- the write index as sends of the loop's message, its stores of the read index as receives of the
-- item that was copied, and replay them in their order on an empty channel of 2 ^ k places: no send
-- finds it full, each receive is of its oldest item, and at the end the channel holds the items in
-- the slots between the indices, and its receiver has what the calls of pop have yielded.
pub refines_channel :
    {k n : ℕ} {s : System}
    → k ≤ 63
    → n < 2 ^ 64
    → (reach : Reach (2 ^ k) n s) → Channel.replay (2 ^ k) (actions reach) ≡ some (view (2 ^ k) s)
unfolding start Channel.replay actions
refines_channel small fits begin = refl
refines_channel {k} small fits (next reach step) =
    let inv = Reach-Inv small fits reach in
    ap (λ o. o >>= Channel.act (2 ^ k) (action step)) (refines_channel small fits reach)
    ∙ step_acts inv step (Step-Inv inv step)
