-- ===== src/ThreadPool/Abandon.antt =====
-- `stop` beside a worker that has not started.
use kernel_net.Prelude.{
  append-nil, append_assoc, ap, subst, ℕ, ◌<◌, ◌≡◌, ◌≢◌, refl, ℕ_discrete, List, [], ◌∷◌, ◌++◌,
  none, arith, update,
}
use kernel_net.ThreadPool.{
  Worker, looping, asleep, gone, away, serving, stopped, System, start, wake, quit, call, push,
  release, notify_none, stop, notify_all, join, Reach, begin, next,
}

-- The worker has not looked at the queue yet.
record Unserved {A : Type 0} (todo : List A) (s : System A) : Type 0 where
  reach : Reach 1 s
  fresh : s.worker 0 ≡ looping
  out : s.producer ≡ away
  free : s.mtx ≡ none
  open_ : s.stopper ≡ serving
  offered : s.enqueued ≡ todo
  waiting : s.tasks ≡ todo
  idle : s.finished ≡ []

-- `call`, `push`, `release` and a `notify_one` that finds nobody.
enqueue_one :
    {A : Type 0} {done : List A} {s : System A} (x : A)
    → Unserved done s
    → (t : System A) × Unserved (done ++ x ∷ []) t
enqueue_one {s} x u = (
  _,
  record {
    reach =
        next (next (next (next u.reach (call x u.out)) (push x refl u.free)) (release refl))
          (notify_none refl (λ i lt. nobody i lt));
    fresh = u.fresh;
    out = refl;
    free = refl;
    open_ = u.open_;
    offered = ap (λ q. q ++ x ∷ []) u.offered;
    waiting = ap (λ q. q ++ x ∷ []) u.waiting;
    idle = u.idle;
  },
)
  where
    nobody : (i : ℕ) → i < 1 → s.worker i ≢ asleep
    nobody i lt e =
        let zero_i : i ≡ 0 = omega arith in
        let down : s.worker 0 ≡ asleep = subst (λ k. s.worker k ≡ asleep) zero_i e in
        cc (u.fresh, down)

enqueue_all :
    {A : Type 0} (todo : List A) {done : List A} {s : System A}
    → Unserved done s
    → (t : System A) × Unserved (done ++ todo) t
enqueue_all [] {done} {s} u = (s, rw (append-nil done) u)
enqueue_all (x ∷ xs) {done} {s} u =
    let (t, v) = enqueue_one x u in
    let (r, w) = enqueue_all xs v in (r, rw (append_assoc done (x ∷ []) xs) at w)

all_gone : {A : Type 0} (f : ℕ → Worker A) (i : ℕ) → i < 1 → wake (update f 0 gone i) ≡ gone
unfolding wake
all_gone f i lt = ground arith

-- `stop` returns although tasks are left: with one worker and any tasks there is a run at whose
-- end `stop` has returned, all the tasks are still in the queue and none was executed.
pub stop_may_abandon :
    {A : Type 0} (todo : List A)
    → (s : System A) × Reach 1 s × (s.stopper ≡ stopped) × (s.tasks ≡ todo) × (s.finished ≡ [])
unfolding start wake ℕ_discrete
stop_may_abandon todo =
    let (s, u) = enqueue_all todo (record {
      reach = begin;
      fresh = refl;
      out = refl;
      free = refl;
      open_ = refl;
      offered = refl;
      waiting = refl;
      idle = refl;
    }) in
    (
      _,
      next
          (next (next (next u.reach (stop u.open_)) (quit 0 (omega arith) u.fresh refl))
            (notify_all refl))
          (join refl (λ i lt. all_gone s.worker i lt)),
      refl,
      u.waiting,
      u.idle,
    )
