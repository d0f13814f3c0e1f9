-- ===== src/ThreadPool/Idle.antt =====
-- A pool without workers, as `--workers 0` makes it.
use kernel_net.Prelude.{◌≡◌, refl, [], arith}
use kernel_net.ThreadPool.{
  System, start, enter, quit, lock, check, park, spurious, relock, go_on, unlock, execute, call,
  push, release, notify_one, notify_none, stop, notify_all, join, Reach, begin, next,
}

-- No task is ever executed.
pub none_executed : {A : Type 0} {s : System A} → Reach 0 s → s.finished ≡ []
unfolding start
none_executed begin = refl
none_executed (next reach (enter i lt e r)) = none_executed reach
none_executed (next reach (quit i lt e r)) = none_executed reach
none_executed (next reach (lock i lt e free)) = none_executed reach
none_executed (next reach (check i lt e)) = none_executed reach
none_executed (next reach (park i lt e)) = none_executed reach
none_executed (next reach (spurious i lt e)) = none_executed reach
none_executed (next reach (relock i lt e free)) = none_executed reach
none_executed (next reach (go_on i lt e)) = absurd (omega (arith, lt))
none_executed (next reach (unlock i task lt e)) = none_executed reach
none_executed (next reach (execute i task lt e)) = absurd (omega (arith, lt))
none_executed (next reach (call task e)) = none_executed reach
none_executed (next reach (push task e free)) = none_executed reach
none_executed (next reach (release e)) = none_executed reach
none_executed (next reach (notify_one i lt p e)) = none_executed reach
none_executed (next reach (notify_none p all)) = none_executed reach
none_executed (next reach (stop e)) = none_executed reach
none_executed (next reach (notify_all e)) = none_executed reach
none_executed (next reach (join e all)) = none_executed reach
