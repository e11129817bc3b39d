-- ===== src/Connector/Runs.antt =====
-- What happens to a connector from outside, and that no run of it loses a socket.
use suduo.Prelude.{
  ℕ, ◌≤◌, ◌≡◌, refl, ◌⊎◌, Bool, true, false, Option, none, some, List, [], ◌∷◌, ◌++◌, arith, ◌>>=◌,
}
use suduo.Connector.{
  disconnected, connecting, connected, Task, start_task, stop_task, reset_task, Connector, new,
  start_in_loop, start, restart, stop, reset_channel, stop_in_loop, handle_write, handle_error,
}
use suduo.Connector.Sockets.{
  Inv, Keeps, new-Inv, held, ended, start_in_loop-Keeps, stop_in_loop-Keeps, handle_error-Keeps,
  handle_write-Keeps, reset_channel-Inv,
}

-- An input that may connect has the socket made for it and the error of `::connect`.
pub data Input : Type 0 where
  starts : Bool → ℕ → ℕ → Input
  restarts : ℕ → ℕ → Input
  stops : Input
  -- the loop runs the first functor, or the first timer
  performs times_out : ℕ → ℕ → Input
  writable : ℕ → Bool → Input
  fails : Input

unfoldable pub run_task : Connector → Task → ℕ → ℕ → Option Connector
run_task c start_task sock_fd errno = start_in_loop c sock_fd errno
run_task c stop_task sock_fd errno = stop_in_loop c
run_task c reset_task sock_fd errno = some (reset_channel c)

unfoldable pub perform : Connector → List Task → ℕ → ℕ → Option Connector
perform c [] sock_fd errno = some c
perform c (t ∷ ts) sock_fd errno = run_task (record c { pending = ts }) t sock_fd errno

unfoldable pub fire : Connector → List ℕ → ℕ → ℕ → Option Connector
fire c [] sock_fd errno = some c
fire c (t ∷ ts) sock_fd errno = start_in_loop (record c { timers = ts }) sock_fd errno

unfoldable pub step : Connector → Input → Option Connector
step c (starts in_loop sock_fd errno) = start in_loop c sock_fd errno
step c (restarts sock_fd errno) = restart c sock_fd errno
step c stops = some (stop c)
step c (performs sock_fd errno) = perform c c.pending sock_fd errno
step c (times_out sock_fd errno) = fire c c.timers sock_fd errno
step c (writable err self_connect) = handle_write c err self_connect
step c fails = handle_error c

unfoldable pub run : Connector → List Input → Option Connector
run c [] = some c
run c (i ∷ is) = step c i >>= λ c'. run c' is

-- At rest, so that it may connect.
abbrev pub Idle : Connector → Type 0
Idle c = (c.state ≡ disconnected) × (c.channel ≡ none)

abbrev pub Performable : Connector → List Task → Type 0
Performable c [] = Unit {0}
Performable c (start_task ∷ ts) = Idle c
Performable c (stop_task ∷ ts) = Unit {0}
Performable c (reset_task ∷ ts) = (c.state ≡ disconnected) ⊎ (c.state ≡ connected)

abbrev pub Fires : Connector → List ℕ → Type 0
Fires c [] = Unit {0}
Fires c (t ∷ ts) = Idle c

-- What the class asks of its user and its loop: it connects only when it is at rest, and a channel
-- that is given up is gone before the next one.
abbrev pub Allowed : Connector → Input → Type 0
Allowed c (starts true sock_fd errno) = Idle c
Allowed c (starts false sock_fd errno) = Unit {0}
Allowed c (restarts sock_fd errno) = (c.state ≡ connected) × (c.channel ≡ none)
Allowed c stops = Unit {0}
Allowed c (performs sock_fd errno) = Performable c c.pending
Allowed c (times_out sock_fd errno) = Fires c c.timers
Allowed c (writable err self_connect) = (c.state ≡ connecting) ⊎ (c.state ≡ disconnected)
Allowed c fails = Unit {0}

-- Changes that no socket depends on.
kept-Inv :
    {c : Connector}
    → Inv c
    → (wanted : Bool) (pending : List Task) (timers : List ℕ)
    → Inv (record c { wanted = wanted; pending = pending; timers = timers })
kept-Inv inv wanted pending timers = record {
  sockets = inv.sockets;
  has_channel = inv.has_channel;
  delay_low = inv.delay_low;
  delay_high = inv.delay_high;
}

-- A connector that is connected holds no socket.
restart-Keeps :
    {c : Connector} (fd errno : ℕ)
    → Inv c
    → c.state ≡ connected
    → c.channel ≡ none
    → Keeps (restart c fd errno)
unfolding restart
restart-Keeps {c} fd errno inv up empty =
    start_in_loop-Keeps {c = down} fd errno
      (record {
        sockets = rw up at inv.sockets;
        has_channel = tt;
        delay_low = omega arith;
        delay_high = omega arith;
      })
      refl empty
  where
    down : Connector
    down = record c { state = disconnected; retry_delay_ms = 500; wanted = true }

run_task-Keeps :
    {c : Connector} (t : Task) (ts : List Task) (fd errno : ℕ)
    → Inv c
    → Performable c (t ∷ ts)
    → Keeps (run_task c t fd errno)
unfolding run_task
run_task-Keeps start_task ts fd errno inv (idle, empty) =
    start_in_loop-Keeps fd errno inv idle empty
run_task-Keeps stop_task ts fd errno inv a = stop_in_loop-Keeps inv
run_task-Keeps reset_task ts fd errno inv a = (_, refl, reset_channel-Inv inv a)

perform-Keeps :
    {c : Connector} (ts : List Task) (fd errno : ℕ)
    → Inv c
    → Performable c ts
    → Keeps (perform c ts fd errno)
unfolding perform
perform-Keeps {c} [] fd errno inv a = (c, refl, inv)
perform-Keeps {c} (t ∷ ts) fd errno inv a =
    run_task-Keeps {c = record c { pending = ts }} t ts fd errno (kept-Inv inv c.wanted ts c.timers)
      (still t a)
  where
    still : (u : Task) → Performable c (u ∷ ts) → Performable (record c { pending = ts }) (u ∷ ts)
    still start_task p = p
    still stop_task p = p
    still reset_task p = p

fire-Keeps :
    {c : Connector} (ts : List ℕ) (fd errno : ℕ) → Inv c → Fires c ts → Keeps (fire c ts fd errno)
unfolding fire
fire-Keeps {c} [] fd errno inv a = (c, refl, inv)
fire-Keeps {c} (t ∷ ts) fd errno inv (idle, empty) =
    start_in_loop-Keeps {c = record c { timers = ts }} fd errno (kept-Inv inv c.wanted c.pending ts)
      idle empty

step-Keeps : {c : Connector} (i : Input) → Inv c → Allowed c i → Keeps (step c i)
unfolding step
step-Keeps {c} (starts true fd errno) inv (idle, empty) =
    unfold start in
    start_in_loop-Keeps {c = record c { wanted = true }} fd errno
      (kept-Inv inv true c.pending c.timers) idle empty
step-Keeps {c} (starts false fd errno) inv a =
    unfold start in
    (
      record c { wanted = true; pending = c.pending ++ start_task ∷ [] },
      refl,
      kept-Inv inv true _ c.timers,
    )
step-Keeps {c} (restarts fd errno) inv (up, empty) = restart-Keeps fd errno inv up empty
step-Keeps {c} stops inv a =
    unfold stop in
    (
      record c { wanted = false; pending = c.pending ++ stop_task ∷ [] },
      refl,
      kept-Inv inv false _ c.timers,
    )
step-Keeps {c} (performs fd errno) inv a = perform-Keeps c.pending fd errno inv a
step-Keeps {c} (times_out fd errno) inv a = fire-Keeps c.timers fd errno inv a
step-Keeps (writable err self_connect) inv a = handle_write-Keeps inv err self_connect a
step-Keeps fails inv a = handle_error-Keeps inv

-- A property of the state that an operation leads to, if it does not fault.
abbrev pub After : Option Connector → (Connector → Type 0) → Type 0
After none P = Unit {0}
After (some c) P = P c

abbrev pub AllowedRun : Connector → List Input → Type 0
AllowedRun c [] = Unit {0}
AllowedRun c (i ∷ is) = Allowed c i × After (step c i) (λ c'. AllowedRun c' is)

run-Keeps : (is : List Input) {c : Connector} → Inv c → AllowedRun c is → Keeps (run c is)
unfolding run
run-Keeps [] {c} inv a = (c, refl, inv)
run-Keeps (i ∷ is) inv (now, later) =
    let (c', done, inv') = step-Keeps i inv now in rw done (run-Keeps is inv' (rw done at later))

-- From the construction no allowed run faults, and in the state that it reaches the sockets made, in
-- order, are those that were closed or handed over, once each, and the one in the channel of a
-- connector that is connecting; and the next delay lies between 500 and 30000 milliseconds.
pub run-sockets :
    (is : List Input)
    → AllowedRun new is
    → (c : Connector) × (run new is ≡ some c)
      × (c.opened ≡ ended c.calls ++ held c.state c.channel)
      × (500 ≤ c.retry_delay_ms)
      × (c.retry_delay_ms ≤ 30000)
run-sockets is a =
    let (c, done, inv) = run-Keeps is new-Inv a in
    (c, done, inv.sockets, inv.delay_low, inv.delay_high)
