-- ===== src/TcpServer/Examples.antt =====
-- The theorem on the server at a concrete schedule, and a run of the code.
use mathlib.Core.Option
use suduo.Prelude.{ℕ, ◌+◌, ◌<◌, ◌≡◌, refl, some, List, [], ◌∷◌, arith, ap}
use suduo.EventLoopThreadPool.{get_next_loop, new as new_pool}
use suduo.TcpServer.{
  TcpServer, new, Event, starts, accepts, calls, closes, run, start, new_connection,
  remove_connection, remove_in_loop, call, conn_name, step,
}
use suduo.TcpServer.Invariant.{Served, run-Served}

-- A printer of numbers below 5.
abbrev digit : ℕ → List ℕ
digit i = (48 + i) ∷ []

abbrev code : List ℕ → ℕ
code [] = 0
code (c ∷ cs) = c

abbrev server_name : List ℕ
server_name = 115 ∷ []

abbrev address : List ℕ
address = 58 ∷ 56 ∷ 48 ∷ []

-- A connection is made, established, closed and destroyed.
abbrev life : List Event
life = starts (7 ∷ []) ∷ calls 0 ∷ accepts ∷ calls 0 ∷ closes 1 ∷ calls 0 ∷ calls 0 ∷ []

life_ends :
    Option.map (λ s. s.destroyed) (run server_name address digit (new (new_pool 0)) life)
    ≡ some (1 ∷ [])
unfolding run step start new_connection remove_connection remove_in_loop call conn_name new new_pool
    get_next_loop
life_ends = refl

digit-injective : (i j : ℕ) → i < 9 → j < 9 → digit i ≡ digit j → i ≡ j
digit-injective i j h k e = omega (arith, ap code e)

run-Served_example :
    (s : TcpServer) × (run server_name address digit (new (new_pool 0)) life ≡ some s)
    × Served server_name address digit 9 digit-injective (λ i h. omega arith) s
run-Served_example =
    run-Served server_name address digit 9 digit-injective (λ i h. omega arith) 0 life (omega arith)
