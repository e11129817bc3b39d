-- ===== src/AsyncLogger/Examples.antt =====
-- The theorem on schedules of a logger at a concrete schedule, and a run of the code.
use mathlib.Core.Option
use suduo.Prelude.{ℕ, ◌≡◌, refl, false, some, List, [], ◌∷◌, ◌++◌}
use suduo.AsyncLogger.{
  AsyncLogger, Event, appends, swaps, writes, new, append, swap, join, write, turn_swap, turn_write,
  step, run,
}
use suduo.AsyncLogger.Logs.{run-logs}

-- Buffers of four bytes; the second log needs a new one, and comes while the first is written.
abbrev busy : List Event
busy =
    appends (1 ∷ 2 ∷ 3 ∷ [])
    ∷ swaps
    ∷ appends (4 ∷ 5 ∷ [])
    ∷ appends (6 ∷ 7 ∷ [])
    ∷ writes []
    ∷ swaps
    ∷ []

run-logs_example :
    (l : AsyncLogger) × (run (new 4) busy ≡ some l)
    × (l.dropped ≡ false
        → l.file ++ (join l.buffer_to_write ++ (join l.buffer_poll ++ l.current_buffer))
          ≡ l.accepted)
run-logs_example = run-logs 4 busy

abbrev seen : AsyncLogger → List ℕ × List (List ℕ)
seen l = (l.file, l.buffer_to_write)

seen-busy :
    Option.map seen (run (new 4) busy) ≡ some (1 ∷ 2 ∷ 3 ∷ [], (4 ∷ 5 ∷ []) ∷ (6 ∷ 7 ∷ []) ∷ [])
unfolding run step new append swap write turn_swap turn_write
seen-busy = refl
