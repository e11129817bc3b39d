-- ===== src/TcpConnection/Announcing.antt =====
-- Every input of a connection tells the user's callback what it should, and nothing else.
use suduo.Prelude.{
  ℕ, zero, suc, ◌≡◌, refl, inl, inr, Bool, true, false, ◌&&◌, ◌||◌, not, ◌==◌, ltb, take, subst,
  Option, none, some, List, [], ◌∷◌, ◌++◌, append_assoc, arith, if◌then◌else◌, Bool-cases,
  Option-cases,
}
use suduo.Channel.{disable_writing}
use suduo.Buffer.{readable_bytes, retrieve, to_string}
use suduo.Buffer.ReadFd.{Readv, Returned, saved_errno, count, read_fd}
use suduo.TcpConnection.{
  State, Decision, shutdown_decided, close_decided, delayed_close_decided, carry_out, decide_or_do,
  disconnected, connecting, connected, disconnecting, Write, failed, wrote, Task, send_task,
  shutdown_task, force_close_task, start_read_task, stop_read_task, write_complete_task,
  high_water_mark_task, connection_callback, message_callback, close_callback, shutdown_write,
  remove_channel, write_complete_callback, high_water_mark_callback, Connection, is_disconnected,
  is_connected, is_connecting, is_disconnecting, new, shutdown, shutdown_in_loop, force_close,
  force_close_with_delay, handle_close, force_close_in_loop, start_read_in_loop, stop_read_in_loop,
  connect_established, connect_destroyed, after_read, handle_read, after_write, handle_write,
}
use suduo.TcpConnection.Inputs.{
  Input, establish, destroy, sends, shuts_down, closes, closes_later, starts_read, stops_read,
  performs, readable, writable, hangs_up, carries_on, sets_write_complete, sets_high_water_mark,
  consumes, nth, without, carry_on, IsOpen, Allowed, run_task, perform, step, run,
}
use suduo.TcpConnection.Lifecycle.{AllowedRun, run-Inv}
use suduo.TcpConnection.Announced.{
  ups-append, downs-append, Announced, send_in_loop-Same, send-Same, same-Announced, log-Announced,
  between-Announced, closes-Announced, open_states, connected_state, new-Announced,
}

if-Announced :
    {c d : Connection} (test : Bool) → Announced c → Announced d → Announced (if test then c else d)
if-Announced true p q = p
if-Announced false p q = q

carry_out-Announced :
    {c : Connection}
    → Announced c
    → (d : Decision) → (is_connecting c.state ≡ false) × (is_disconnected c.state ≡ false)
    → Announced (carry_out c d)
unfolding carry_out
carry_out-Announced ann shutdown_decided o = between-Announced ann _ o.0 o.1 refl
carry_out-Announced ann close_decided o = between-Announced ann _ o.0 o.1 refl
carry_out-Announced ann delayed_close_decided o = between-Announced ann _ o.0 o.1 refl

carry_on-Announced :
    {c : Connection} (n : ℕ) (found : Option Decision)
    → Announced c
    → IsOpen c
    → Announced (carry_on c n found)
carry_on-Announced n none ann o = ann
carry_on-Announced {c} n (some d) ann o =
    carry_out-Announced
      (same-Announced ann (record c { decided = without c.decided n }) (refl, refl)) d
      (elim o [ inl e ↦ rw e (refl, refl) | inr e ↦ rw e (refl, refl) ])

module _ {c : Connection} (ann : Announced c) where
  shutdown_in_loop-Announced : Announced (shutdown_in_loop c)
  unfolding shutdown_in_loop
  shutdown_in_loop-Announced = elim (Bool-cases c.events.write) [
    | inl writing ↦ same-Announced ann _ (ground arith, ground arith)
    | inr idle ↦ log-Announced ann _ shutdown_write refl refl (ground arith) (ground arith)
  ]

  handle_close-Tells : (c' : Connection) → handle_close c ≡ some c' → Announced c'
  unfolding handle_close
  handle_close-Tells c' e = elim (Bool-cases (is_connected c.state || is_disconnecting c.state)) [
    | inl o ↦
        closes-Announced ann c' (connection_callback disconnected ∷ close_callback ∷ [])
          (open_states c.state o).0 (open_states c.state o).1 refl refl (ground arith)
          (ground (arith, two_calls))
    | inr over ↦ absurd (ground arith)
  ]
    where
      two_calls :
          c.calls ++ connection_callback disconnected ∷ [] ++ close_callback ∷ []
          ≡ c.calls ++ connection_callback disconnected ∷ close_callback ∷ []
      two_calls = append_assoc c.calls (connection_callback disconnected ∷ []) (close_callback ∷ [])

  force_close_in_loop-Tells : (c' : Connection) → force_close_in_loop c ≡ some c' → Announced c'
  unfolding force_close_in_loop
  force_close_in_loop-Tells c' e =
      elim (Bool-cases (is_connected c.state || is_disconnecting c.state)) [
        | inl o ↦ handle_close-Tells c' (ground arith)
        | inr over ↦ same-Announced ann c' (ground arith, ground arith)
      ]

  decide_or_do-Announced :
      (in_loop : Bool) (d : Decision)
      → Announced
          (if is_connected c.state || is_disconnecting c.state then decide_or_do in_loop c d else c)
  decide_or_do-Announced in_loop d =
      elim (Bool-cases (is_connected c.state || is_disconnecting c.state)) [
        | inl o ↦ rw o (
            if-Announced in_loop (carry_out-Announced ann d (open_states c.state o))
              (same-Announced ann _ (refl, refl)))
        | inr over ↦ rw over ann
      ]

  connect_established-Tells : (c' : Connection) → connect_established c ≡ some c' → Announced c'
  unfolding connect_established
  connect_established-Tells c' e = elim (Bool-cases (is_connecting c.state)) [
    | inl fresh ↦ record {
      up = ground (arith, rw fresh at up, ups-append c.calls (connection_callback connected ∷ []));
      down = ground (
        arith,
        rw (connecting_here c.state fresh) at down,
        downs-append c.calls (connection_callback connected ∷ []),
      );
    }
    | inr late ↦ absurd (ground arith)
  ]
    where
      open ann use {up, down}

      connecting_here : (s : State) → is_connecting s ≡ true → is_disconnected s ≡ false
      connecting_here connecting h = refl
      connecting_here disconnected h = cc
      connecting_here connected h = refl
      connecting_here disconnecting h = refl

reads-Announced :
    {c : Connection}
    → Announced c
    → Announced (start_read_in_loop c) × Announced (stop_read_in_loop c)
unfolding start_read_in_loop stop_read_in_loop
reads-Announced {c} ann = (
  if-Announced (not c.reading || not c.events.read) (same-Announced ann _ (refl, refl)) ann,
  if-Announced (c.reading || c.events.read) (same-Announced ann _ (refl, refl)) ann,
)

shutdown-Announced :
    {c : Connection} (in_loop : Bool) → Announced c → Announced (shutdown in_loop c)
unfolding shutdown
shutdown-Announced {c} in_loop ann = elim (Bool-cases (is_connected c.state)) [
  | inl up ↦ rw up (
      if-Announced in_loop
        (shutdown_in_loop-Announced (
          between-Announced ann (record c { state = disconnecting }) (connected_state c.state up).0
            (connected_state c.state up).1 refl))
        (same-Announced ann _ (refl, refl)))
  | inr over ↦ rw over ann
]

connect_destroyed-Announced : {c : Connection} → Announced c → Announced (connect_destroyed c)
unfolding connect_destroyed
connect_destroyed-Announced {c} ann = elim (Bool-cases (is_connected c.state)) [
  | inl up ↦ rw up (
      closes-Announced ann _ (connection_callback disconnected ∷ remove_channel ∷ [])
        (connected_state c.state up).0 (connected_state c.state up).1 refl refl refl
        (append_assoc c.calls (connection_callback disconnected ∷ []) (remove_channel ∷ [])))
  | inr over ↦ rw over (log-Announced ann _ remove_channel refl refl refl refl)
]

after_write-Announced : {c : Connection} (n : ℕ) → Announced c → Announced (after_write c n)
unfolding after_write
after_write-Announced {c} n ann =
    if-Announced (readable_bytes (retrieve c.output n) == 0)
      (if-Announced (is_disconnecting c.state) (shutdown_in_loop-Announced idle) idle)
      (same-Announced ann _ (refl, refl))
  where
    idle : Announced (record c {
      output = retrieve c.output n;
      events = disable_writing c.events;
      pending = if c.has_write_complete then c.pending ++ write_complete_task ∷ [] else c.pending;
    })
    idle = same-Announced ann _ (refl, refl)

-- A result that is known is the state that was announced.
some-Announced : {c c' : Connection} → Announced c → some c ≡ some c' → Announced c'
some-Announced {c} {c'} ann e = let same : c ≡ c' = cc in subst Announced same ann

handle_write-Tells :
    (c : Connection) (result : Write)
    → Announced c
    → (c' : Connection) → handle_write c result ≡ some c'
    → Announced c'
unfolding handle_write
handle_write-Tells c (failed errno) ann c' e = some-Announced ann e
handle_write-Tells c (wrote n) ann c' e = elim (Bool-cases (c.events.write && ltb 0 n)) [
  | inr none_taken ↦ some-Announced ann (rw none_taken at e)
  | inl some_taken ↦ elim (Option-cases (to_string c.output)) [
    | inl fault ↦ absurd (ground arith)
    | inr (bytes, read) ↦
        some-Announced
          (after_write-Announced n
            (same-Announced ann (record c { sent = c.sent ++ take n bytes }) (refl, refl)))
          (rw (some_taken, read) at e)
  ]
]

after_read-Tells :
    (c : Connection) (n : Returned)
    → Announced c
    → (c' : Connection) → after_read c n ≡ some c'
    → Announced c'
unfolding after_read
after_read-Tells c (count zero) ann c' e = handle_close-Tells ann c' e
after_read-Tells c (count (suc n)) ann c' e =
    some-Announced (log-Announced ann _ message_callback refl refl refl refl) e
after_read-Tells c (saved_errno errno) ann c' e = some-Announced ann e

handle_read-Tells :
    (c : Connection) (result : Readv)
    → Announced c
    → (c' : Connection) → handle_read c result ≡ some c'
    → Announced c'
unfolding handle_read
handle_read-Tells c result ann c' e = elim (Option-cases (read_fd c.input result)) [
  | inl fault ↦ absurd (ground arith)
  | inr ((b, n), read) ↦
      after_read-Tells (record c { input = b }) n (same-Announced ann _ (refl, refl)) c'
        (rw read at e)
]

run_task-Tells :
    (c : Connection) (t : Task) (result : Write)
    → Announced c
    → (c' : Connection) → run_task c t result ≡ some c'
    → Announced c'
unfolding run_task
run_task-Tells c (send_task message) result ann c' e =
    same-Announced ann c' (send_in_loop-Same c message result c' e)
run_task-Tells c shutdown_task result ann c' e = some-Announced (shutdown_in_loop-Announced ann) e
run_task-Tells c force_close_task result ann c' e = force_close_in_loop-Tells ann c' e
run_task-Tells c start_read_task result ann c' e = some-Announced (reads-Announced ann).0 e
run_task-Tells c stop_read_task result ann c' e = some-Announced (reads-Announced ann).1 e
run_task-Tells c write_complete_task result ann c' e =
    some-Announced (log-Announced ann _ write_complete_callback refl refl refl refl) e
run_task-Tells c (high_water_mark_task n) result ann c' e =
    some-Announced (log-Announced ann _ (high_water_mark_callback n) refl refl refl refl) e

perform-Tells :
    (c : Connection) (ts : List Task) (result : Write)
    → Announced c
    → (c' : Connection) → perform c ts result ≡ some c'
    → Announced c'
unfolding perform
perform-Tells c [] result ann c' e = some-Announced ann e
perform-Tells c (t ∷ ts) result ann c' e =
    run_task-Tells (record c { pending = ts }) t result (same-Announced ann _ (refl, refl)) c' e

step-Tells :
    {c : Connection} (i : Input)
    → Announced c
    → Allowed c i
    → (c' : Connection) → step c i ≡ some c'
    → Announced c'
unfolding step
step-Tells establish ann a c' e = connect_established-Tells ann c' e
step-Tells destroy ann a c' e = some-Announced (connect_destroyed-Announced ann) e
step-Tells {c} (sends in_loop message result) ann a c' e =
    same-Announced ann c' (send-Same in_loop c message result c' e)
step-Tells (shuts_down in_loop) ann a c' e = some-Announced (shutdown-Announced in_loop ann) e
step-Tells (closes in_loop) ann a c' e =
    unfold force_close in some-Announced (decide_or_do-Announced ann in_loop close_decided) e
step-Tells (closes_later in_loop) ann a c' e =
    unfold force_close_with_delay in
    some-Announced (decide_or_do-Announced ann in_loop delayed_close_decided) e
step-Tells {c} (carries_on n) ann a c' e =
    some-Announced (carry_on-Announced n (nth c.decided n) ann a) e
step-Tells sets_write_complete ann a c' e = some-Announced (same-Announced ann _ (refl, refl)) e
step-Tells (sets_high_water_mark n) ann a c' e =
    some-Announced (same-Announced ann _ (refl, refl)) e
step-Tells (consumes n) ann a c' e = some-Announced (same-Announced ann _ (refl, refl)) e
step-Tells (starts_read in_loop) ann a c' e =
    some-Announced
      (if-Announced in_loop (reads-Announced ann).0 (same-Announced ann _ (refl, refl))) e
step-Tells (stops_read in_loop) ann a c' e =
    some-Announced
      (if-Announced in_loop (reads-Announced ann).1 (same-Announced ann _ (refl, refl))) e
step-Tells {c} (performs result) ann a c' e = perform-Tells c c.pending result ann c' e
step-Tells {c} (readable result) ann a c' e = handle_read-Tells c result ann c' e
step-Tells {c} (writable result) ann a c' e = handle_write-Tells c result ann c' e
step-Tells hangs_up ann a c' e = handle_close-Tells ann c' e

run-Tells :
    (is : List Input) {c : Connection}
    → Announced c
    → AllowedRun c is
    → (c' : Connection) → run c is ≡ some c'
    → Announced c'
unfolding run
run-Tells [] ann a c' e = some-Announced ann e
run-Tells (i ∷ is) {c} ann (now, later) c' e = elim (Option-cases (step c i)) [
  | inl fault ↦ absurd (ground arith)
  | inr (d, done) ↦ run-Tells is (step-Tells i ann now d done) (rw done at later) c' (rw done at e)
]

-- A run of allowed inputs from the construction ends without a fault, and up to then the user's
-- callback was told of the open connection once, or not yet if it is still connecting, and of the
-- closed connection once if the connection is down, and not before. Allowed is as for `run-Inv`:
-- above all, between another thread's test of the state and its setting of it the connection is not
-- closed, the start of reading and hang-ups come while it is open, and readable events while the
-- channel waits for them.
pub run-Announced :
    (is : List Input) → AllowedRun new is → (c : Connection) × (run new is ≡ some c) × Announced c
run-Announced is allowed =
    let (c, done, _, _) = run-Inv is allowed in
    (c, done, run-Tells is {c = new} new-Announced allowed c done)
