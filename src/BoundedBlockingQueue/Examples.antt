-- ===== src/BoundedBlockingQueue/Examples.antt =====
-- The theorem on schedules at a concrete schedule, and runs of the code.
use mathlib.Core.Option
use suduo.Prelude.{ℕ, ◌+◌, ◌≤◌, ◌≡◌, refl, ◌⊎◌, some, List, [], ◌∷◌, ◌++◌, arith, length}
use suduo.CircularBuffer.{full, empty, wrap}
use suduo.CircularBuffer
use suduo.CircularBuffer.Contents.{contents}
use suduo.BoundedBlockingQueue.{
  Monitor, Event, call_push, call_pop, push_turn, pop_turn, spurious_pop, new, run, step, turn_push,
  turn_pop, push, pop, pick, wake_pop, wake_push,
}
use suduo.BoundedBlockingQueue.Invariant.{run-new}

-- Three pushes into two cells, of which the last has to wait, and a pop that lets it go on.
abbrev schedule : List (Event ℕ)
schedule =
    call_pop
    ∷ pop_turn 0
    ∷ spurious_pop
    ∷ call_push 5
    ∷ push_turn 0
    ∷ call_push 6
    ∷ push_turn 0
    ∷ call_push 7
    ∷ push_turn 0
    ∷ pop_turn 0
    ∷ push_turn 0
    ∷ []

run-new_example :
    (m : Monitor ℕ) × (run (new 0 2) schedule ≡ some m)
    × (m.accepted ≡ m.delivered ++ contents m.queue)
    × (length (contents m.queue) ≤ 2)
    × ((m.not_empty ≡ 0) ⊎ (length (contents m.queue) ≤ m.to_pop))
    × ((length m.not_full ≡ 0) ⊎ (2 ≤ length (contents m.queue) + length m.to_push))
run-new_example = run-new 0 2 schedule (omega arith)

abbrev seen : Monitor ℕ → List ℕ × List ℕ
seen m = (m.delivered, contents m.queue)

seen-schedule : Option.map seen (run (new 0 2) schedule) ≡ some (5 ∷ [], 6 ∷ 7 ∷ [])
unfolding run new step turn_push turn_pop push pop pick wake_pop wake_push full empty wrap
    CircularBuffer.new CircularBuffer.push CircularBuffer.pop
seen-schedule = refl
