-- ===== src/EventLoop/Examples.antt =====
-- The theorems on event loops at concrete schedules, and runs of the code.
use suduo.Prelude.{ℕ, ◌+◌, ◌<◌, ◌≡◌, refl, ◌⊎◌, true, false, List, [], ◌∷◌, ◌++◌, length}
use suduo.EventLoop.{
  polling, EventLoop, Event, queues, wakes, poll_returns, swaps_functors, calls_functor, start, run,
  step, loops, enter_loop, queue_in_loop, wake, poll_return, swap_functors, call_functor,
}
use suduo.EventLoop.Wakeups.{run-wakes}

-- Another thread queues a functor and has not come to its wakeup.
abbrev unwoken : List (Event ℕ)
unwoken = loops ∷ queues false 4 ∷ []

-- It comes to it while the loop calls the functor, which queues another one.
abbrev late : List (Event ℕ)
late =
    loops
    ∷ queues false 4
    ∷ poll_returns
    ∷ swaps_functors
    ∷ wakes
    ∷ calls_functor
    ∷ queues true 5
    ∷ []

run-wakes_example :
    ((run start unwoken).called
        ++ ((run start unwoken).functors ++ (run start unwoken).pending_functors)
      ≡ (run start unwoken).queued)
    × ((run start unwoken).phase ≡ polling
        → ((length (run start unwoken).pending_functors ≡ 0) × ((run start unwoken).running ≡ true))
          ⊎ ((0 < (run start unwoken).wakeups + (run start unwoken).to_wake)
              ⊎ (((run start unwoken).running ≡ true)
                  × ((run start unwoken).polled ≡ false)
                  × (0 < length (run start unwoken).early))))
run-wakes_example = run-wakes unwoken

-- A functor that the loop's own thread queues before `loop()` gives no wakeup.
abbrev own : List (Event ℕ)
own = queues true 4 ∷ loops ∷ []

unwoken_early :
    ((run start own).pending_functors ≡ 4 ∷ [])
    × ((run start own).wakeups ≡ 0)
    × ((run start own).phase ≡ polling)
unfolding run step start queue_in_loop enter_loop
unwoken_early = (refl, refl, refl)

late-wakeups : (run start late).wakeups ≡ 2
unfolding run step start queue_in_loop wake poll_return swap_functors call_functor enter_loop
late-wakeups = refl

abbrev waiting : EventLoop ℕ
waiting = record {
  running = true;
  phase = polling;
  pending_functors = 4 ∷ 5 ∷ [];
  functors = [];
  wakeups = 2;
  to_wake = 0;
  polled = true;
  early = [];
  queued = 4 ∷ 5 ∷ [];
  called = [];
  direct = [];
}
