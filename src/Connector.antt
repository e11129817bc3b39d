-- ===== src/Connector.antt =====
-- suduo/net/Connector.h and Connector.cpp: the client's way to a socket, with its retries. A socket
-- that the system makes, the error of `::connect` and that of the socket are part of an input.
-- `none` is a failed assertion or a null pointer.
pub mod Sockets
pub mod Runs
mod Examples
use suduo.Prelude.{
  ℕ, ◌*◌, Bool, true, false, ◌||◌, not, Option, none, some, List, [], ◌∷◌, ◌++◌, if◌then◌else◌, leb,
  ◌==◌, ◌>>=◌, ◌>>◌, require,
}

pub data State : Type 0 where
  disconnected connecting connected : State

-- Functors that the connector has put into its loop.
pub data Task : Type 0 where
  start_task stop_task reset_task : Task

pub data Call : Type 0 where
  closes new_connection : ℕ → Call

pub record Connector : Type 0 where
  -- `_connect`: whether the user wants a connection
  pub wanted : Bool
  pub state : State
  -- the descriptor of the channel
  pub channel : Option ℕ
  pub waits_to_write : Bool
  pub retry_delay_ms : ℕ
  pub pending : List Task
  -- the delays of the timers that start again
  pub timers : List ℕ
  pub calls : List Call
  -- the sockets that were made
  pub opened : List ℕ

abbrev pub max_retry_delay_ms : ℕ
max_retry_delay_ms = 30000

abbrev pub init_retry_delay_ms : ℕ
init_retry_delay_ms = 500

abbrev pub is_disconnected : State → Bool
is_disconnected disconnected = true
is_disconnected _ = false

abbrev pub is_connecting : State → Bool
is_connecting connecting = true
is_connecting _ = false

abbrev pub is_none : {A : Type 0} → Option A → Bool
is_none none = true
is_none (some x) = false

-- The errors of `::connect`: 0, `EINPROGRESS`, `EINTR`, `EISCONN`.
abbrev pub goes_on : ℕ → Bool
goes_on errno = errno == 0 || (errno == 115 || (errno == 4 || errno == 106))

-- `EAGAIN`, `EADDRINUSE`, `EADDRNOTAVAIL`, `ECONNREFUSED`, `ENETUNREACH`.
abbrev pub retries : ℕ → Bool
retries errno = errno == 11 || (errno == 98 || (errno == 99 || (errno == 111 || errno == 101)))

abbrev pub call : Connector → Call → Connector
call c it = record c { calls = c.calls ++ it ∷ [] }

abbrev pub queue : Connector → Task → Connector
queue c t = record c { pending = c.pending ++ t ∷ [] }

unfoldable pub new : Connector
new = record {
  wanted = false;
  state = disconnected;
  channel = none;
  waits_to_write = false;
  retry_delay_ms = init_retry_delay_ms;
  pending = [];
  timers = [];
  calls = [];
  opened = [];
}

unfoldable pub retry : Connector → ℕ → Connector
retry c sockfd =
    let delay = c.retry_delay_ms in
    record c {
      calls = c.calls ++ closes sockfd ∷ [];
      state = disconnected;
      timers = if c.wanted then c.timers ++ delay ∷ [] else c.timers;
      retry_delay_ms =
          if c.wanted
          then (if leb (delay * 2) max_retry_delay_ms then delay * 2 else max_retry_delay_ms)
          else delay;
    }

-- `connecting`: a new channel, whose callbacks are the two handlers below.
unfoldable pub connect_channel : Connector → ℕ → Option Connector
connect_channel c sockfd = do
  require (is_none c.channel)
  some (record c { state = connecting; channel = some sockfd; waits_to_write = true })

-- `connect`, with the socket that is made and the error of the call.
unfoldable pub connect : Connector → ℕ → ℕ → Option Connector
connect c sock_fd errno =
    let c' = record c { opened = c.opened ++ sock_fd ∷ [] } in
    if goes_on errno
    then connect_channel c' sock_fd
    else (if retries errno then some (retry c' sock_fd) else some (call c' (closes sock_fd)))

unfoldable pub start_in_loop : Connector → ℕ → ℕ → Option Connector
start_in_loop c sock_fd errno = do
  require (is_disconnected c.state)
  if c.wanted then connect c sock_fd errno else some c

unfoldable pub start : Bool → Connector → ℕ → ℕ → Option Connector
start in_loop c sock_fd errno =
    let c' = record c { wanted = true } in
    if in_loop then start_in_loop c' sock_fd errno else some (queue c' start_task)

unfoldable pub restart : Connector → ℕ → ℕ → Option Connector
restart c sock_fd errno =
    start_in_loop
      (record c { state = disconnected; retry_delay_ms = init_retry_delay_ms; wanted = true })
      sock_fd errno

unfoldable pub stop : Connector → Connector
stop c = queue (record c { wanted = false }) stop_task

-- `remove_and_reset_channel`: the descriptor is handed out, the channel goes later.
unfoldable pub remove_and_reset_channel : Connector → Option (ℕ × Connector)
remove_and_reset_channel c = do
  sock_fd ← c.channel
  some (sock_fd, queue (record c { waits_to_write = false }) reset_task)

unfoldable pub reset_channel : Connector → Connector
reset_channel c = record c { channel = none }

unfoldable pub stop_in_loop : Connector → Option Connector
stop_in_loop c =
    if is_connecting c.state
    then (do
      (sock_fd, c') ← remove_and_reset_channel (record c { state = disconnected })
      some (retry c' sock_fd))
    else some c

-- The socket's error and whether it is connected to itself.
unfoldable pub handle_write : Connector → ℕ → Bool → Option Connector
handle_write c err self_connect =
    if is_connecting c.state
    then (do
      (sock_fd, c') ← remove_and_reset_channel c
      some (
          if not (err == 0) || self_connect
          then retry c' sock_fd
          else call (record c' { state = connected })
              (if c.wanted then new_connection sock_fd else closes sock_fd)))
    else (do require (is_disconnected c.state); some c)

unfoldable pub handle_error : Connector → Option Connector
handle_error c =
    if is_connecting c.state
    then (do (sock_fd, c') ← remove_and_reset_channel c; some (retry c' sock_fd))
    else some c
