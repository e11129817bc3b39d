-- ===== src/TcpConnection/Lifecycle.antt =====
-- Every input keeps the stream of a connection, from its construction on.
use suduo.Prelude.{
  if◌then◌else◌, Option, none, ℕ, zero, suc, ◌≡◌, refl, ◌⊎◌, inl, inr, Bool, true, false, ◌||◌, not,
  some, List, [], ◌∷◌, ◌++◌, length, Bool-cases,
}
use suduo.Buffer.{Buffer}
use suduo.Buffer.Contents.{retrieve-Holds}
use suduo.Buffer.Space.{IsValid, contents}
use suduo.Buffer.ReadFd.{Readv, failed, received, count, read_fd, read_fd-received}
use suduo.Channel.{none_event}
use suduo.TcpConnection.{
  State, Decision, shutdown_decided, close_decided, delayed_close_decided, carry_out, decide_or_do,
  disconnected, connecting, connected, disconnecting, Write, Task, send_task, shutdown_task,
  force_close_task, start_read_task, stop_read_task, write_complete_task, high_water_mark_task,
  connection_callback, message_callback, close_callback, remove_channel, write_complete_callback,
  high_water_mark_callback, Connection, is_disconnected, is_connected, is_disconnecting,
  is_connecting, new, shutdown, force_close, force_close_with_delay, handle_close,
  force_close_in_loop, start_read_in_loop, stop_read_in_loop, connect_established,
  connect_destroyed, after_read, handle_read,
}
use suduo.TcpConnection.Inputs.{
  Input, establish, destroy, sends, shuts_down, closes, closes_later, starts_read, stops_read,
  performs, readable, writable, hangs_up, carries_on, sets_write_complete, sets_high_water_mark,
  consumes, nth, without, carry_on, run_task, perform, step, run, IsOpen, Performable, Deliverable,
  Allowed,
}
use suduo.TcpConnection.Reading.{Reads, pending-Performable, step-Reads, new-Reads}
use suduo.TcpConnection.Stream.{Inv, Keeps, held, Waits, new-Inv, if-Inv}
use suduo.TcpConnection.Sending.{send_in_loop-Keeps, send-Keeps}
use suduo.TcpConnection.Draining.{log-Inv, shutdown_in_loop-Inv, handle_write-Keeps}

-- The tests of the code on an open connection.
open_tests :
    (s : State)
    → (s ≡ connected) ⊎ (s ≡ disconnecting)
    → ((is_connected s || is_disconnecting s) ≡ true) × (is_disconnected s ≡ false)
open_tests s (inl e) = rw e (refl, refl)
open_tests s (inr e) = rw e (refl, refl)

connected_here : (s : State) → is_connected s ≡ true → is_disconnected s ≡ false
connected_here connected h = refl
connected_here disconnected h = cc
connected_here connecting h = refl
connected_here disconnecting h = refl

open_here : (s : State) → (is_connected s || is_disconnecting s) ≡ true → is_disconnected s ≡ false
open_here connected h = refl
open_here disconnected h = cc
open_here connecting h = refl
open_here disconnecting h = refl

module _ {c : Connection} (inv : Inv c) where
  open inv use {input_valid, output_valid, stream, waits}

  -- A change of state that leaves the connection on this side of its end, and of the functors.
  change-Inv :
      (s : State) (pending : List Task)
      → is_disconnected c.state ≡ false
      → is_disconnected s ≡ false
      → Inv (record c { state = s; pending = pending })
  change-Inv s pending here there = record {
    input_valid = input_valid;
    output_valid = output_valid;
    stream = stream;
    waits = rw there (rw here at waits);
  }

  pending-Inv : (pending : List Task) → Inv (record c { pending = pending })
  pending-Inv pending = record {
    input_valid = input_valid;
    output_valid = output_valid;
    stream = stream;
    waits = waits;
  }

  decided-Inv : (decided : List Decision) → Inv (record c { decided = decided })
  decided-Inv decided = record {
    input_valid = input_valid;
    output_valid = output_valid;
    stream = stream;
    waits = waits;
  }

  callbacks-Inv :
      (complete high : Bool) (mark : ℕ)
      → Inv (record c {
        has_write_complete = complete;
        has_high_water_mark = high;
        high_water_mark = mark;
      })
  callbacks-Inv complete high mark = record {
    input_valid = input_valid;
    output_valid = output_valid;
    stream = stream;
    waits = waits;
  }

  end-Inv : Inv (record c { state = disconnected; events = none_event })
  end-Inv = record {
    input_valid = input_valid;
    output_valid = output_valid;
    stream = stream;
    waits = inl (refl, refl);
  }

  reads-Inv :
      (on now : Bool) → Inv (record c { events = record c.events { read = on }; reading = now })
  reads-Inv on now = record {
    input_valid = input_valid;
    output_valid = output_valid;
    stream = stream;
    waits = waits;
  }

carry_out-Inv :
    {c : Connection}
    → Inv c
    → (d : Decision) → is_disconnected c.state ≡ false
    → Inv (carry_out c d)
unfolding carry_out
carry_out-Inv inv shutdown_decided here = change-Inv inv disconnecting _ here refl
carry_out-Inv inv close_decided here = change-Inv inv disconnecting _ here refl
carry_out-Inv {c} inv delayed_close_decided here = change-Inv inv disconnecting c.pending here refl

module _ {c : Connection} (inv : Inv c) where
  handle_close-Keeps : IsOpen c → Keeps (handle_close c)
  unfolding handle_close
  handle_close-Keeps o =
      rw (open_tests c.state o).0
        (_, refl, log-Inv (log-Inv (end-Inv inv) (connection_callback disconnected)) close_callback)

  force_close_in_loop-Keeps : Keeps (force_close_in_loop c)
  unfolding force_close_in_loop handle_close
  force_close_in_loop-Keeps = elim (Bool-cases (is_connected c.state || is_disconnecting c.state)) [
    | inl o ↦
        rw o (
          _,
          refl,
          log-Inv (log-Inv (end-Inv inv) (connection_callback disconnected)) close_callback,
        )
    | inr over ↦ rw over (c, refl, inv)
  ]

  decide_or_do-Inv :
      (in_loop : Bool) (d : Decision)
      → Inv
          (if is_connected c.state || is_disconnecting c.state then decide_or_do in_loop c d else c)
  decide_or_do-Inv in_loop d =
      elim (Bool-cases (is_connected c.state || is_disconnecting c.state)) [
        | inl o ↦
            rw o (if-Inv in_loop (carry_out-Inv inv d (open_here c.state o)) (decided-Inv inv _))
        | inr over ↦ rw over inv
      ]

  carry_on-Inv : (n : ℕ) (found : Option Decision) → IsOpen c → Inv (carry_on c n found)
  carry_on-Inv n none o = inv
  carry_on-Inv n (some d) o =
      carry_out-Inv (decided-Inv inv (without c.decided n)) d (open_tests c.state o).1

  shutdown-Inv : (in_loop : Bool) → Inv (shutdown in_loop c)
  unfolding shutdown
  shutdown-Inv in_loop = elim (Bool-cases (is_connected c.state)) [
    | inl up ↦ rw up (
        if-Inv in_loop
          (shutdown_in_loop-Inv
            (change-Inv inv disconnecting c.pending (connected_here c.state up) refl))
          (decided-Inv inv _))
    | inr over ↦ rw over inv
  ]

  start_read_in_loop-Inv : Inv (start_read_in_loop c)
  unfolding start_read_in_loop
  start_read_in_loop-Inv = if-Inv (not c.reading || not c.events.read) (reads-Inv inv true true) inv

  stop_read_in_loop-Inv : Inv (stop_read_in_loop c)
  unfolding stop_read_in_loop
  stop_read_in_loop-Inv = if-Inv (c.reading || c.events.read) (reads-Inv inv false false) inv

  connect_established-Keeps : c.state ≡ connecting → Keeps (connect_established c)
  unfolding connect_established
  connect_established-Keeps e =
      let here : is_disconnected c.state ≡ false = rw e refl in
      let up : (is_connecting c.state) ≡ true = rw e refl in
      rw up (
        _,
        refl,
        log-Inv (reads-Inv (change-Inv inv connected c.pending here refl) true c.reading)
            (connection_callback connected),
      )

  connect_destroyed-Inv : Inv (connect_destroyed c)
  unfolding connect_destroyed
  connect_destroyed-Inv =
      log-Inv
        (if-Inv (is_connected c.state) (log-Inv (end-Inv inv) (connection_callback disconnected))
          inv)
        remove_channel

  after_read-Keeps : (n : ℕ) → (n ≡ 0 → IsOpen c) → Keeps (after_read c (count n))
  unfolding after_read
  after_read-Keeps zero o = handle_close-Keeps (o refl)
  after_read-Keeps (suc n) o = (_, refl, log-Inv inv message_callback)

input-Inv : {c : Connection} {b : Buffer} → Inv c → IsValid b → Inv (record c { input = b })
input-Inv inv v = record {
  input_valid = v;
  output_valid = inv.output_valid;
  stream = inv.stream;
  waits = inv.waits;
}

handle_read-Keeps :
    {c : Connection} (result : Readv)
    → Inv c
    → IsOpen c
    → Deliverable c result
    → Keeps (handle_read c result)
unfolding handle_read
handle_read-Keeps {c} (failed errno) inv o fits = unfold read_fd after_read in (c, refl, inv)
handle_read-Keeps {c} (received bytes) inv o (offered, small) =
    let (b, done, h) = read_fd-received bytes inv.input_valid offered small in
    rw done (after_read-Keeps (input-Inv inv h.valid) (length bytes) (λ e. o))

run_task-Keeps :
    {c : Connection} (t : Task) (ts : List Task) (result : Write)
    → Inv c
    → Performable c (t ∷ ts) result
    → Keeps (run_task c t result)
unfolding run_task
run_task-Keeps {c} (send_task message) ts result inv fits =
    send_in_loop-Keeps inv message result fits
run_task-Keeps {c} shutdown_task ts result inv fits = (_, refl, shutdown_in_loop-Inv inv)
run_task-Keeps {c} force_close_task ts result inv fits = force_close_in_loop-Keeps inv
run_task-Keeps {c} start_read_task ts result inv fits = (_, refl, start_read_in_loop-Inv inv)
run_task-Keeps {c} stop_read_task ts result inv fits = (_, refl, stop_read_in_loop-Inv inv)
run_task-Keeps {c} write_complete_task ts result inv fits =
    (_, refl, log-Inv inv write_complete_callback)
run_task-Keeps {c} (high_water_mark_task n) ts result inv fits =
    (_, refl, log-Inv inv (high_water_mark_callback n))

perform-Keeps :
    {c : Connection} (ts : List Task) (result : Write)
    → Inv c
    → Performable c ts result
    → Keeps (perform c ts result)
unfolding perform
perform-Keeps {c} [] result inv fits = (c, refl, inv)
perform-Keeps {c} (t ∷ ts) result inv fits =
    run_task-Keeps t ts result (pending-Inv inv ts) (pending-Performable c t ts result fits)

-- No input that is allowed faults, and each keeps the stream.
step-Keeps : {c : Connection} (i : Input) → Inv c → Reads c → Allowed c i → Keeps (step c i)
unfolding step
step-Keeps establish inv r a = connect_established-Keeps inv a
step-Keeps destroy inv r a = (_, refl, connect_destroyed-Inv inv)
step-Keeps (sends in_loop message result) inv r a = send-Keeps inv message in_loop result a
step-Keeps (shuts_down in_loop) inv r a = (_, refl, shutdown-Inv inv in_loop)
step-Keeps (closes in_loop) inv r a =
    unfold force_close in (_, refl, decide_or_do-Inv inv in_loop close_decided)
step-Keeps (closes_later in_loop) inv r a =
    unfold force_close_with_delay in (_, refl, decide_or_do-Inv inv in_loop delayed_close_decided)
step-Keeps {c} (carries_on n) inv r o = (_, refl, carry_on-Inv inv n (nth c.decided n) o)
step-Keeps {c} sets_write_complete inv r a =
    (_, refl, callbacks-Inv inv true c.has_high_water_mark c.high_water_mark)
step-Keeps {c} (sets_high_water_mark n) inv r a =
    (_, refl, callbacks-Inv inv c.has_write_complete true n)
step-Keeps (consumes n) inv r fits =
    (_, refl, input-Inv inv (retrieve-Holds inv.input_valid n).valid)
step-Keeps (starts_read in_loop) inv r a =
    (_, refl, if-Inv in_loop (start_read_in_loop-Inv inv) (pending-Inv inv _))
step-Keeps (stops_read in_loop) inv r a =
    (_, refl, if-Inv in_loop (stop_read_in_loop-Inv inv) (pending-Inv inv _))
step-Keeps {c} (performs result) inv r a = perform-Keeps c.pending result inv a
step-Keeps (readable result) inv r (on, fits) = handle_read-Keeps result inv (r.reads on) fits
step-Keeps (writable result) inv r a = handle_write-Keeps result inv a
step-Keeps hangs_up inv r a = handle_close-Keeps inv a

-- A property of the state that an operation leads to, if it does not fault.
abbrev pub After : Option Connection → (Connection → Type 0) → Type 0
After none P = Unit {0}
After (some c) P = P c

-- Each input of a run is allowed where it comes.
abbrev pub AllowedRun : Connection → List Input → Type 0
AllowedRun c [] = Unit {0}
AllowedRun c (i ∷ is) = Allowed c i × After (step c i) (λ c'. AllowedRun c' is)

run-Keeps :
    (is : List Input) {c : Connection} → Inv c → Reads c → AllowedRun c is → Keeps (run c is)
unfolding run
run-Keeps [] {c} inv r a = (c, refl, inv)
run-Keeps (i ∷ is) inv r (now, later) =
    let (c', done, inv') = step-Keeps i inv r now in
    rw done (run-Keeps is inv' (step-Reads i r now c' done) (rw done at later))

-- From its construction on, no run of allowed inputs faults, and in the state that it reaches: the
-- bytes that the socket has taken, followed by the output buffer, are the accepted messages in
-- order; and the channel waits to write exactly if the connection is not down and bytes are held.
-- Allowed is: the kernel's results are documented ones; buffers stay within the largest vector, and
-- a callback takes only bytes that are there; the connection is established once; between another
-- thread's test of the state and its setting of it the connection is not closed; the start of reading
-- and hang-ups come while it is open; and readable events while the channel waits for them.
pub run-Inv :
    (is : List Input)
    → AllowedRun new is
    → (c : Connection) × (run new is ≡ some c)
      × (c.sent ++ contents c.output ≡ c.accepted)
      × Waits (is_disconnected c.state) c.events.write (held c)
run-Inv is a =
    let (c, done, inv) = run-Keeps is new-Inv new-Reads a in (c, done, inv.stream, inv.waits)
