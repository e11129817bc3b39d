-- ===== src/ThreadPool/Examples.antt =====
-- The theorem on schedules of a pool at a concrete schedule, and a run of the code.
use suduo.Prelude.{ℕ, ◌≡◌, refl, List, [], ◌∷◌, ◌++◌}
use suduo.BoundedBlockingQueue.{pick}
use suduo.ThreadPool.{
  Event, call_run, call_get, run_turn, get_turn, stops, start, wake_get, wake_run, run_task,
  take_task, get_next_task, stop, turn_run, turn_get, step, run,
}
use suduo.ThreadPool.Invariant.{Balanced, run-Balanced}

-- A queue of one task: the second caller waits until a worker takes the first one.
abbrev schedule : List (Event ℕ)
schedule =
    call_run 7
    ∷ run_turn 0
    ∷ call_run 8
    ∷ run_turn 0
    ∷ call_get
    ∷ get_turn 0
    ∷ run_turn 0
    ∷ stops
    ∷ []

run-Balanced_example :
    ((run (start 2 1) schedule).accepted
      ≡ (run (start 2 1) schedule).taken ++ (run (start 2 1) schedule).task_queue)
    × Balanced (run (start 2 1) schedule)
run-Balanced_example = run-Balanced 2 1 schedule

taken-schedule :
    ((run (start 2 1) schedule).taken ≡ 7 ∷ []) × ((run (start 2 1) schedule).task_queue ≡ 8 ∷ [])
unfolding pick start wake_get wake_run run_task take_task get_next_task stop turn_run turn_get step
    run
taken-schedule = (refl, refl)
