-- ===== src/EventLoopThreadPool/Examples.antt =====
-- The theorem on the turns of loops at a concrete pool.
use suduo.Prelude.{ℕ, ◌≡◌, true, some, [], ◌∷◌}
use suduo.EventLoopThreadPool.{EventLoopThreadPool, get_loops}
use suduo.EventLoopThreadPool.Rounds.{get_loops-round}

abbrev three : EventLoopThreadPool ℕ
three = record { base_loop = 0; started = true; next = 0; loops = 4 ∷ 5 ∷ 6 ∷ [] }

get_loops-round_example : get_loops 3 three ≡ some (4 ∷ 5 ∷ 6 ∷ [], three)
get_loops-round_example = get_loops-round 0 4 (5 ∷ 6 ∷ [])
