-- ===== src/TcpConnection.antt =====
-- suduo/net/TcpConnection.h and TcpConnection.cpp: one connection, driven by its event loop. A user
-- callback stands in the log of calls; what it does is the next input. `none` is a failed assert,
-- undefined behaviour or an exception.
pub mod Inputs
pub mod Stream
pub mod Sending
pub mod Draining
pub mod Shutdown
pub mod HighWaterMark
pub mod Lifecycle
pub mod Reading
pub mod Announced
pub mod Announcing
pub mod Race
mod Examples
use suduo.Prelude.{
  ℕ, zero, suc, ◌+◌, ◌≤◌, Bool, true, false, ◌&&◌, ◌||◌, not, Option, none, some, List, [], ◌∷◌,
  ◌++◌, if◌then◌else◌, ltb, leb, ◌==◌, length, take, drop, ◌>>=◌, ◌>>◌, require, add_size, sub_size,
}
use suduo.Buffer
use suduo.Buffer.{Buffer, init_size, readable_bytes, retrieve, to_string}
use suduo.Buffer.ReadFd.{Readv, Returned, saved_errno, count, read_fd}
use suduo.Channel.{
  Events, none_event, enable_reading, disable_reading, enable_writing, disable_writing, disable_all,
  is_writing, is_reading,
}

pub data State : Type 0 where
  disconnected connecting connected disconnecting : State

-- What `::write` did: it failed with an `errno`, or took the first bytes.
pub data Write : Type 0 where
  failed : ℕ → Write
  wrote : ℕ → Write

-- Functors that the connection has put into its loop.
pub data Task : Type 0 where
  send_task : List ℕ → Task
  shutdown_task force_close_task start_read_task stop_read_task : Task
  write_complete_task : Task
  high_water_mark_task : ℕ → Task

-- Calls of other threads that have read `_state` and are to set it.
pub data Decision : Type 0 where
  shutdown_decided close_decided delayed_close_decided : Decision

-- Calls that leave the class.
pub data Call : Type 0 where
  connection_callback : State → Call
  message_callback close_callback shutdown_write remove_channel : Call
  write_complete_callback : Call
  high_water_mark_callback : ℕ → Call

pub record Connection : Type 0 where
  pub state : State
  pub reading : Bool
  pub events : Events
  pub input : Buffer
  pub output : Buffer
  pub has_write_complete : Bool
  pub has_high_water_mark : Bool
  pub high_water_mark : ℕ
  pub pending : List Task
  pub decided : List Decision
  pub calls : List Call
  -- the bytes that the socket has taken, and those of the messages that were not given up
  pub sent : List ℕ
  pub accepted : List ℕ

abbrev pub ewouldblock : ℕ
ewouldblock = 11

abbrev pub epipe : ℕ
epipe = 32

abbrev pub econnreset : ℕ
econnreset = 104

abbrev pub is_disconnected : State → Bool
is_disconnected disconnected = true
is_disconnected _ = false

abbrev pub is_connected : State → Bool
is_connected connected = true
is_connected _ = false

abbrev pub is_disconnecting : State → Bool
is_disconnecting disconnecting = true
is_disconnecting _ = false

abbrev pub is_connecting : State → Bool
is_connecting connecting = true
is_connecting _ = false

abbrev pub queue : Connection → Task → Connection
queue c t = record c { pending = c.pending ++ t ∷ [] }

-- A functor that is queued only under a condition.
abbrev pub queue_if : Bool → Connection → Task → Connection
queue_if test c t = record c { pending = if test then c.pending ++ t ∷ [] else c.pending }

abbrev pub log : Connection → Call → Connection
log c call = record c { calls = c.calls ++ call ∷ [] }

unfoldable pub new : Connection
unfolding Buffer.new
new = record {
  state = connecting;
  reading = true;
  events = none_event;
  input = Buffer.new init_size;
  output = Buffer.new init_size;
  has_write_complete = false;
  has_high_water_mark = false;
  high_water_mark = 67108864;
  pending = [];
  decided = [];
  calls = [];
  sent = [];
  accepted = [];
}

-- The second half of `send_in_loop`: what the socket did not take waits in the output buffer.
unfoldable pub keep_rest : Connection → List ℕ → Option Connection
keep_rest c rest =
    let old_len = readable_bytes c.output in
    let len = add_size old_len (length rest) in
    let crossed = leb c.high_water_mark len && ltb old_len c.high_water_mark in
    let noted = queue_if (crossed && c.has_high_water_mark) c (high_water_mark_task len) in
    (do
      output ← Buffer.append c.output rest
      some (record noted {
        output = output;
        events = if is_writing c.events then c.events else enable_writing c.events;
      }))

-- The errors that give a message up.
unfoldable pub fault : ℕ → Bool
fault errno = not (errno == ewouldblock) && (errno == epipe || errno == econnreset)

-- A direct write: the whole message, a part, or an error. `EPIPE` and `ECONNRESET` give it up.
unfoldable pub write_directly : Connection → List ℕ → Write → Option Connection
write_directly c message (wrote n) =
    let remaining = sub_size (length message) n in
    let written = record c { sent = c.sent ++ take n message; accepted = c.accepted ++ message } in
    let told = queue_if (remaining == 0 && c.has_write_complete) written write_complete_task in
    (do
      require (leb remaining (length message))
      if ltb 0 remaining then keep_rest told (drop n message) else some told)
write_directly c message (failed errno) =
    if fault errno
    then some c
    else (if ltb 0 (length message)
        then keep_rest (record c { accepted = c.accepted ++ message }) message
        else some c)

-- `result` is what the write returns, where there is one.
unfoldable pub send_in_loop : Connection → List ℕ → Write → Option Connection
send_in_loop c message result =
    if is_disconnected c.state
    then some c
    else (if not (is_writing c.events) && readable_bytes c.output == 0
        then write_directly c message result
        else (if ltb 0 (length message)
            then keep_rest (record c { accepted = c.accepted ++ message }) message
            else some c))

-- From the loop's thread a message is sent at once, from another one by a functor.
unfoldable pub send : Bool → Connection → List ℕ → Write → Option Connection
send in_loop c message result =
    if is_connected c.state
    then (if in_loop then send_in_loop c message result else some (queue c (send_task message)))
    else some c

unfoldable pub shutdown_in_loop : Connection → Connection
shutdown_in_loop c = if is_writing c.events then c else log c shutdown_write

abbrev pub decide : Connection → Decision → Connection
decide c d = record c { decided = c.decided ++ d ∷ [] }

-- What follows the test of `_state`: it is set, and a functor or the loop's timer takes over, in one step.
unfoldable pub carry_out : Connection → Decision → Connection
carry_out c shutdown_decided = queue (record c { state = disconnecting }) shutdown_task
carry_out c close_decided = queue (record c { state = disconnecting }) force_close_task
carry_out c delayed_close_decided = record c { state = disconnecting }

-- From the loop's thread nothing comes between the test and the rest; from another one the rest is a step
-- of its own.
unfoldable pub shutdown : Bool → Connection → Connection
shutdown in_loop c =
    if is_connected c.state
    then (if in_loop
        then shutdown_in_loop (record c { state = disconnecting })
        else decide c shutdown_decided)
    else c

abbrev pub decide_or_do : Bool → Connection → Decision → Connection
decide_or_do in_loop c d = if in_loop then carry_out c d else decide c d

-- `force_close`, also for the timer of `force_close_with_delay`.
unfoldable pub force_close : Bool → Connection → Connection
force_close in_loop c =
    if is_connected c.state || is_disconnecting c.state
    then decide_or_do in_loop c close_decided
    else c

-- The timer is the loop's.
unfoldable pub force_close_with_delay : Bool → Connection → Connection
force_close_with_delay in_loop c =
    if is_connected c.state || is_disconnecting c.state
    then decide_or_do in_loop c delayed_close_decided
    else c

unfoldable pub handle_close : Connection → Option Connection
handle_close c = do
  require (is_connected c.state || is_disconnecting c.state)
  some (
      log
        (log (record c { state = disconnected; events = disable_all c.events })
          (connection_callback disconnected))
        close_callback)

unfoldable pub force_close_in_loop : Connection → Option Connection
force_close_in_loop c =
    if is_connected c.state || is_disconnecting c.state then handle_close c else some c

unfoldable pub start_read_in_loop : Connection → Connection
start_read_in_loop c =
    if not c.reading || not (is_reading c.events)
    then record c { events = enable_reading c.events; reading = true }
    else c

unfoldable pub stop_read_in_loop : Connection → Connection
stop_read_in_loop c =
    if c.reading || is_reading c.events
    then record c { events = disable_reading c.events; reading = false }
    else c

unfoldable pub connect_established : Connection → Option Connection
connect_established c = do
  require (is_connecting c.state)
  some (
      log (record c { state = connected; events = enable_reading c.events })
        (connection_callback connected))

unfoldable pub connect_destroyed : Connection → Connection
connect_destroyed c =
    let down =
      if is_connected c.state
      then log (record c { state = disconnected; events = disable_all c.events })
          (connection_callback disconnected)
      else c in
    log down remove_channel

-- After the read: the user's callback, the peer's end of stream, or an error, which is logged.
unfoldable pub after_read : Connection → Returned → Option Connection
after_read c (count zero) = handle_close c
after_read c (count (suc n)) = some (log c message_callback)
after_read c (saved_errno errno) = some c

unfoldable pub handle_read : Connection → Readv → Option Connection
handle_read c result = do
  (input, n) ← read_fd c.input result
  after_read (record c { input = input }) n

-- After a write that took `n` bytes of the output buffer.
unfoldable pub after_write : Connection → ℕ → Connection
after_write c n =
    let left = record c { output = retrieve c.output n } in
    if readable_bytes left.output == 0
    then (let idle = record left { events = disable_writing c.events } in
        let told = queue_if c.has_write_complete idle write_complete_task in
        if is_disconnecting c.state then shutdown_in_loop told else told)
    else left

unfoldable pub handle_write : Connection → Write → Option Connection
handle_write c (failed errno) = some c
handle_write c (wrote n) =
    if is_writing c.events && ltb 0 n
    then (do
      bytes ← to_string c.output
      some (after_write (record c { sent = c.sent ++ take n bytes }) n))
    else some c
