-- ===== src/TimerQueue/Early.antt =====
-- `handle_read` where a callback adds a timer.
use suduo.Prelude.{ℕ, false, some, List, [], ◌∷◌, if◌then◌else◌, ◌==◌}
use suduo.TimerQueue.{Timer, TimerQueue, Request}
use suduo.TimerQueue.Entries.{entry}

-- The queue with one timer, and a callback of this timer that adds another one.
abbrev pub only : Timer → ℕ → TimerQueue
only t n = record {
  timers = entry t ∷ [];
  active_timers = t.id ∷ [];
  calling_expired_timers = false;
  canceling_timers = [];
  timer_fd = some t.expertion_time;
  created = n;
  ran = [];
}

abbrev pub adds : ℕ → Request → ℕ → List Request
adds i r id = if id == i then r ∷ [] else []
