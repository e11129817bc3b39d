-- ===== src/TcpConnection/Examples.antt =====
-- The theorems on connections at a concrete run: with both callbacks set, a message is written in two
-- parts, the shutdown of another thread waits for the second one, and the peer's end of stream closes
-- the connection.
use suduo.Prelude.{
  ◌<◌, ◌≤◌, ◌≡◌, refl, ◌⊎◌, inl, inr, true, false, some, List, [], ◌∷◌, ◌++◌, arith, replicate,
}
use suduo.Buffer
use suduo.Buffer.{
  readable_bytes, append, ensure_writeable_bytes, make_space, has_written, write_range, to_string,
  read_range, retrieve, retrieve_all, writeadble_bytes,
}
use suduo.Buffer.Space.{contents}
use suduo.Buffer.ReadFd.{received, read_fd}
use suduo.TcpConnection.{
  wrote, connected, disconnected, disconnecting, Connection, new, log, shutdown_write,
  is_disconnected, high_water_mark_task, keep_rest, shutdown_in_loop, handle_write,
  connect_established, send, send_in_loop, write_directly, shutdown, carry_out, after_write,
  handle_read, after_read, handle_close,
}
use suduo.TcpConnection.Inputs.{
  Input, closes, hangs_up, establish, destroy, sends, shuts_down, readable, writable, step, run,
  sets_write_complete, sets_high_water_mark, carries_on, performs, perform, run_task,
}
use suduo.TcpConnection.Stream.{Inv, Waits, held}
use suduo.TcpConnection.Lifecycle.{AllowedRun, run-Inv}
use suduo.TcpConnection.Shutdown.{Finished, shutdown_in_loop-cases, handle_write-Finished}
use suduo.TcpConnection.HighWaterMark.{keep_rest-high_water_mark}
use suduo.TcpConnection.Announced.{Announced}
use suduo.TcpConnection.Race.{told_down, closes-race}
use suduo.Channel.{none_event}
use suduo.TcpConnection.Announcing.{run-Announced}

abbrev day : List Input
day =
    sets_write_complete
    ∷ sets_high_water_mark 2
    ∷ establish
    ∷ sends true (7 ∷ 8 ∷ 9 ∷ []) (wrote 1)
    ∷ shuts_down false
    ∷ carries_on 0
    ∷ performs (wrote 0)
    ∷ performs (wrote 0)
    ∷ writable (wrote 2)
    ∷ readable (received [])
    ∷ destroy
    ∷ []

day-Allowed : AllowedRun new day
unfolding new step connect_established send send_in_loop write_directly keep_rest shutdown carry_out
    perform run_task shutdown_in_loop handle_write after_write handle_read after_read handle_close
    Buffer.new append ensure_writeable_bytes make_space has_written write_range to_string read_range
    retrieve retrieve_all readable_bytes writeadble_bytes read_fd
day-Allowed = (
  tt,
  (
    tt,
    (
      refl,
      (
        (omega arith, omega arith),
        (tt, (inl refl, (tt, (tt, (omega arith, ((refl, (omega arith, omega arith)), (tt, tt))))))),
      ),
    ),
  ),
)

run-Inv_example :
    (c : Connection) × (run new day ≡ some c)
    × (c.sent ++ contents c.output ≡ c.accepted)
    × Waits (is_disconnected c.state) c.events.write (held c)
run-Inv_example = run-Inv day day-Allowed

run-Announced_example : (c : Connection) × (run new day ≡ some c) × Announced c
run-Announced_example = run-Announced day day-Allowed

-- The connection of this run before the second write.
abbrev closing : Connection
closing = record {
  state = disconnecting;
  reading = true;
  input = record { storage = replicate 1032 0; read_index = 8; write_index = 8 };
  has_write_complete = false;
  pending = [];
  decided = [];
  calls = [];
  events = record { read = true; write = true };
  output = record {
    storage = replicate 8 0 ++ (8 ∷ 9 ∷ replicate 1022 0);
    read_index = 8;
    write_index = 10;
  };
  has_high_water_mark = true;
  high_water_mark = 4;
  sent = 7 ∷ [];
  accepted = 7 ∷ 8 ∷ 9 ∷ [];
}

closing-Inv : Inv closing
closing-Inv = record {
  input_valid = record {
    ordered = omega arith;
    inside = omega arith;
    small = omega arith;
    room = omega arith;
  };
  output_valid = record {
    ordered = omega arith;
    inside = omega arith;
    small = omega arith;
    room = omega arith;
  };
  stream = refl;
  waits = inr (inl (refl, refl, omega arith));
}

shutdown_in_loop-cases_example :
    ((shutdown_in_loop closing ≡ closing) × (0 < held closing))
    ⊎ ((shutdown_in_loop closing ≡ log closing shutdown_write) × (closing.sent ≡ closing.accepted))
shutdown_in_loop-cases_example = shutdown_in_loop-cases closing-Inv refl

handle_write-Finished_example :
    (c : Connection) × (handle_write closing (wrote (readable_bytes closing.output)) ≡ some c)
    × Finished closing c
handle_write-Finished_example = handle_write-Finished closing-Inv refl refl

keep_rest-high_water_mark_example :
    (c : Connection) × (keep_rest closing (1 ∷ 2 ∷ []) ≡ some c)
    × (((held closing < 4)
          × (4 ≤ held c)
          × (c.pending ≡ closing.pending ++ high_water_mark_task (held c) ∷ []))
        ⊎ (((4 ≤ held closing) ⊎ (held c < 4)) × (c.pending ≡ closing.pending)))
keep_rest-high_water_mark_example =
    keep_rest-high_water_mark closing (1 ∷ 2 ∷ []) closing-Inv.output_valid refl (omega arith)

-- A connection that waits to write, and is to be closed by another thread.
abbrev writing : Connection
writing = record closing { state = connected }

closes-race_example :
    (c c' : Connection) × (run writing (shuts_down false ∷ hangs_up ∷ carries_on 0 ∷ []) ≡ some c)
    × (c.state ≡ disconnecting)
    × (c.events ≡ none_event)
    × (c.calls ≡ [] ++ told_down)
    × (held c ≡ held writing)
    × (c.sent ≡ writing.sent)
    × (run writing (closes false ∷ hangs_up ∷ carries_on 0 ∷ performs (wrote 0) ∷ []) ≡ some c')
    × (c'.state ≡ disconnected)
    × (c'.calls ≡ [] ++ (told_down ++ told_down))
closes-race_example = closes-race writing (wrote 0) refl refl refl
