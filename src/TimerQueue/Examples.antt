-- ===== src/TimerQueue/Examples.antt =====
-- The theorems on timers at concrete queues.
use suduo.Prelude.{◌≡◌, refl, ◌++◌, true, false, some, [], ◌∷◌, List, arith}
use suduo.TimerQueue.{Timer, TimerQueue, new, handle_read}
use suduo.TimerQueue.Entries.{entry}
use suduo.TimerQueue.Invariant.{Inv}
use suduo.TimerQueue.Loop.{due, later, ids, quiet_callback}
use suduo.TimerQueue.Expiry.{put_back, handle_read-due}
use suduo.TimerQueue.Runs.{Event, add, cancel, expire, run, Shows, schedules, run-schedules}

abbrev early : Timer
early = record { id = 2; expertion_time = 5; repeated = true; interval = 10 }

abbrev late : Timer
late = record { id = 1; expertion_time = 9; repeated = false; interval = 0 }

abbrev both : TimerQueue
both = record {
  timers = entry early ∷ entry late ∷ [];
  active_timers = 2 ∷ 1 ∷ [];
  calling_expired_timers = false;
  canceling_timers = [];
  timer_fd = some 5;
  created = 3;
  ran = [];
}

both-Inv : Inv both (early ∷ late ∷ [])
both-Inv = record {
  timers = refl;
  sorted = ((refl, tt), (tt, tt));
  active = λ i. ground arith;
  once = λ i. ground arith;
  sizes = refl;
  fresh = λ i h. ground arith;
  quiet = refl;
}

handle_read-due_example :
    (q : TimerQueue) × (handle_read 3 quiet_callback both 7 ≡ some q)
    × Inv q (put_back 7 (due 7 (early ∷ late ∷ [])) (later 7 (early ∷ late ∷ [])))
    × (q.ran ≡ [] ++ ids (due 7 (early ∷ late ∷ [])))
    × (q.created ≡ 3)
handle_read-due_example = handle_read-due 3 7 both-Inv (omega arith) (omega arith)

abbrev four_events : List Event
four_events =
    add (record { when = 9; repeated = false; interval = 0 })
    ∷ add (record { when = 5; repeated = true; interval = 10 })
    ∷ cancel 1
    ∷ expire 7
    ∷ []

run-schedules_example :
    (q : TimerQueue) × (run new four_events ≡ some q)
    × Shows q (schedules (record { waiting = []; created = 1; ran = [] }) four_events)
run-schedules_example = run-schedules four_events (omega arith)
