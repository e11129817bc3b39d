-- ===== src/Connector/Examples.antt =====
-- The theorem on connectors at a concrete run: the first connect is refused, and the second one, when
-- the timer fires, goes through.
use suduo.Prelude.{◌≤◌, ◌≡◌, refl, inl, true, false, some, List, [], ◌∷◌, ◌++◌}
use suduo.Connector.{
  Connector, new, retry, connect, connect_channel, start_in_loop, start, handle_write,
  remove_and_reset_channel,
}
use suduo.Connector.Sockets.{ended, held}
use suduo.Connector.Runs.{
  Input, starts, times_out, writable, step, run, fire, AllowedRun, run-sockets,
}

abbrev refused : List Input
refused = starts true 3 111 ∷ times_out 4 115 ∷ writable 0 false ∷ []

refused-Allowed : AllowedRun new refused
unfolding new step start start_in_loop connect connect_channel retry fire handle_write
    remove_and_reset_channel
refused-Allowed = ((refl, refl), ((refl, refl), (inl refl, tt)))

run-sockets_example :
    (c : Connector) × (run new refused ≡ some c)
    × (c.opened ≡ ended c.calls ++ held c.state c.channel)
    × (500 ≤ c.retry_delay_ms)
    × (c.retry_delay_ms ≤ 30000)
run-sockets_example = run-sockets refused refused-Allowed
