-- ===== src/TcpConnection/Inputs.antt =====
-- What happens to a connection from outside: calls of the user and of the server, events of its
-- channel, and the loop's run of its functors. A write that an input leads to has its result.
use suduo.Prelude.{
  ℕ, zero, suc, none, ◌+◌, ◌≤◌, ◌≡◌, ◌⊎◌, Bool, true, false, Option, some, List, [], ◌∷◌, length,
  ◌>>=◌, max_size, if◌then◌else◌,
}
use suduo.Buffer.{readable_bytes, retrieve}
use suduo.Buffer.ReadFd.{Readv, failed, received, offered}
use suduo.TcpConnection.{
  State, Decision, carry_out, connecting, connected, disconnecting, Write, wrote, Task, send_task,
  shutdown_task, force_close_task, start_read_task, stop_read_task, write_complete_task,
  high_water_mark_task, Connection, log, queue, write_complete_callback, high_water_mark_callback,
  is_connected, is_disconnecting, send, send_in_loop, shutdown, shutdown_in_loop, force_close,
  force_close_with_delay, force_close_in_loop, start_read_in_loop, stop_read_in_loop,
  connect_established, connect_destroyed, handle_read, handle_write, handle_close,
}
use suduo.TcpConnection

pub data Input : Type 0 where
  establish destroy : Input
  -- the flag says whether the caller is the loop's thread
  sends : Bool → List ℕ → Write → Input
  shuts_down : Bool → Input
  closes closes_later : Bool → Input
  -- another thread, which has read `_state`, goes on: the one at this place
  carries_on : ℕ → Input
  sets_write_complete : Input
  sets_high_water_mark : ℕ → Input
  -- a callback takes bytes of the input buffer
  consumes : ℕ → Input
  starts_read stops_read : Bool → Input
  -- the loop runs the first functor
  performs : Write → Input
  readable : Readv → Input
  writable : Write → Input
  hangs_up : Input

unfoldable pub run_task : Connection → Task → Write → Option Connection
run_task c (send_task message) result = send_in_loop c message result
run_task c shutdown_task result = some (shutdown_in_loop c)
run_task c force_close_task result = force_close_in_loop c
run_task c start_read_task result = some (start_read_in_loop c)
run_task c stop_read_task result = some (stop_read_in_loop c)
run_task c write_complete_task result = some (log c write_complete_callback)
run_task c (high_water_mark_task n) result = some (log c (high_water_mark_callback n))

unfoldable pub perform : Connection → List Task → Write → Option Connection
perform c [] result = some c
perform c (t ∷ ts) result = run_task (record c { pending = ts }) t result

abbrev pub nth : List Decision → ℕ → Option Decision
nth [] n = none
nth (d ∷ ds) zero = some d
nth (d ∷ ds) (suc n) = nth ds n

abbrev pub without : List Decision → ℕ → List Decision
without [] n = []
without (d ∷ ds) zero = ds
without (d ∷ ds) (suc n) = d ∷ without ds n

abbrev pub carry_on : Connection → ℕ → Option Decision → Connection
carry_on c n none = c
carry_on c n (some d) = carry_out (record c { decided = without c.decided n }) d

unfoldable pub step : Connection → Input → Option Connection
step c establish = connect_established c
step c destroy = some (connect_destroyed c)
step c (sends in_loop message result) = send in_loop c message result
step c (shuts_down in_loop) = some (shutdown in_loop c)
step c (closes in_loop) = some (force_close in_loop c)
step c (closes_later in_loop) = some (force_close_with_delay in_loop c)
step c (carries_on n) = some (carry_on c n (nth c.decided n))
step c sets_write_complete = some (record c { has_write_complete = true })
step c (sets_high_water_mark n) =
    some (record c { has_high_water_mark = true; high_water_mark = n })
step c (consumes n) = some (record c { input = retrieve c.input n })
step c (starts_read in_loop) =
    some (if in_loop then start_read_in_loop c else queue c start_read_task)
step c (stops_read in_loop) = some (if in_loop then stop_read_in_loop c else queue c stop_read_task)
step c (performs result) = perform c c.pending result
step c (readable result) = handle_read c result
step c (writable result) = handle_write c result
step c hangs_up = handle_close c

unfoldable pub run : Connection → List Input → Option Connection
run c [] = some c
run c (i ∷ is) = step c i >>= λ c'. run c' is

-- What a write of a message may give: no more than its length.
abbrev pub Written : ℕ → Write → Type 0
Written n (TcpConnection.failed errno) = Unit {0}
Written n (wrote k) = k ≤ n

-- The message and its result fit: the result is documented, and the output buffer can hold it.
abbrev pub Sendable : Connection → List ℕ → Write → Type 0
Sendable c message result =
    Written (length message) result × (c.output.write_index + length message ≤ max_size)

abbrev pub IsOpen : Connection → Type 0
IsOpen c = (c.state ≡ connected) ⊎ (c.state ≡ disconnecting)

abbrev pub Performable : Connection → List Task → Write → Type 0
Performable c [] result = Unit {0}
Performable c (send_task message ∷ ts) result = Sendable c message result
Performable c (start_read_task ∷ ts) result = IsOpen c
Performable c (t ∷ ts) result = Unit {0}

abbrev pub Deliverable : Connection → Readv → Type 0
Deliverable c (failed errno) = Unit {0}
Deliverable c (received bytes) =
    (length bytes ≤ offered c.input) × (c.input.write_index + length bytes ≤ max_size)

-- The inputs that can come: the kernel's results are documented ones, the connection is established
-- once, a thread that has read `_state` sets it while the connection is still open, a callback takes
-- only bytes that are there, `start_read_in_loop` runs while the connection is open, readable events
-- come only while the channel waits for them, and hang-ups while the connection is open.
abbrev pub Allowed : Connection → Input → Type 0
Allowed c establish = c.state ≡ connecting
Allowed c destroy = Unit {0}
Allowed c (sends in_loop message result) = Sendable c message result
Allowed c (shuts_down in_loop) = Unit {0}
Allowed c (closes in_loop) = Unit {0}
Allowed c (closes_later in_loop) = Unit {0}
Allowed c (carries_on n) = IsOpen c
Allowed c sets_write_complete = Unit {0}
Allowed c (sets_high_water_mark n) = Unit {0}
Allowed c (consumes n) = n ≤ readable_bytes c.input
Allowed c (starts_read true) = IsOpen c
Allowed c (starts_read false) = Unit {0}
Allowed c (stops_read in_loop) = Unit {0}
Allowed c (performs result) = Performable c c.pending result
Allowed c (readable result) = (c.events.read ≡ true) × Deliverable c result
Allowed c (writable result) = Written (readable_bytes c.output) result
Allowed c hangs_up = IsOpen c
