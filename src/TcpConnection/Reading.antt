-- ===== src/TcpConnection/Reading.antt =====
-- The channel waits for read events only while the connection is open.
use suduo.Prelude.{
  ℕ, zero, suc, ◌≡◌, refl, sym, ◌∙◌, inl, inr, Bool, true, false, ◌&&◌, ◌||◌, not, ◌==◌, ltb, take,
  subst, Option, none, some, List, [], ◌∷◌, ◌++◌, arith, if◌then◌else◌, Bool-cases, Option-cases,
}
use suduo.Buffer.{readable_bytes, retrieve, to_string}
use suduo.Buffer.ReadFd.{Readv, Returned, saved_errno, count, read_fd}
use suduo.TcpConnection.{
  Decision, shutdown_decided, close_decided, delayed_close_decided, carry_out, decide_or_do, Write,
  failed, wrote, Task, send_task, shutdown_task, force_close_task, start_read_task, stop_read_task,
  write_complete_task, high_water_mark_task, Connection, is_connected, is_disconnecting, new, send,
  send_in_loop, write_directly, keep_rest, shutdown, shutdown_in_loop, force_close,
  force_close_with_delay, handle_close, force_close_in_loop, start_read_in_loop, stop_read_in_loop,
  connect_established, connect_destroyed, after_read, handle_read, after_write, handle_write,
}
use suduo.TcpConnection.Inputs.{
  Input, establish, destroy, sends, shuts_down, closes, closes_later, carries_on,
  sets_write_complete, sets_high_water_mark, consumes, starts_read, stops_read, performs, readable,
  writable, hangs_up, nth, without, carry_on, run_task, perform, step, IsOpen, Performable, Allowed,
}
use suduo.TcpConnection.Announced.{send_in_loop-Same, send-Same}

pub record Reads (c : Connection) : Type 0 where
  pub reads : c.events.read ≡ true → IsOpen c

-- The same state, and the same wish to read.
same-Reads :
    {c : Connection}
    → Reads c
    → (c' : Connection) → c'.state ≡ c.state
    → c'.events.read ≡ c.events.read
    → Reads c'
same-Reads {c} h c' s e = record { reads = λ on. open_still (h.reads (sym e ∙ on)) }
  where
    open_still : IsOpen c → IsOpen c'
    open_still (inl up) = inl (s ∙ up)
    open_still (inr ends) = inr (s ∙ ends)

off-Reads : (c : Connection) → c.events.read ≡ false → Reads c
off-Reads c off = record { reads = λ on. absurd cc }

some-Reads : {c c' : Connection} → Reads c → some c ≡ some c' → Reads c'
some-Reads {c} {c'} h e = let same : c ≡ c' = cc in subst Reads same h

if-Reads : {c d : Connection} (test : Bool) → Reads c → Reads d → Reads (if test then c else d)
if-Reads true p q = p
if-Reads false p q = q

-- Sending changes the wish to write only.
abbrev SameRead : Connection → Option Connection → Type 0
SameRead c r = (c' : Connection) → r ≡ some c' → c'.events.read ≡ c.events.read

keep_rest-SameRead : (c : Connection) (rest : List ℕ) → SameRead c (keep_rest c rest)
unfolding keep_rest
keep_rest-SameRead c rest c' e = ground arith

write_directly-SameRead :
    (c : Connection) (message : List ℕ) (result : Write)
    → SameRead c (write_directly c message result)
unfolding write_directly keep_rest
write_directly-SameRead c message (wrote n) c' e = ground arith
write_directly-SameRead c message (failed errno) c' e = ground arith

send_in_loop-SameRead :
    (c : Connection) (message : List ℕ) (result : Write)
    → SameRead c (send_in_loop c message result)
unfolding send_in_loop
send_in_loop-SameRead c message result c' e = ground (
  arith,
  write_directly-SameRead c message result c',
  keep_rest-SameRead (record c { accepted = c.accepted ++ message }) message c',
)

send-SameRead :
    (in_loop : Bool) (c : Connection) (message : List ℕ) (result : Write)
    → SameRead c (send in_loop c message result)
unfolding send
send-SameRead in_loop c message result c' e =
    ground (arith, send_in_loop-SameRead c message result c')

module _ {c : Connection} (h : Reads c) where
  shutdown_in_loop-Reads : Reads (shutdown_in_loop c)
  unfolding shutdown_in_loop
  shutdown_in_loop-Reads = if-Reads c.events.write h (same-Reads h _ refl refl)

  carry_out-Reads : (d : Decision) → Reads (carry_out c d)
  unfolding carry_out
  carry_out-Reads shutdown_decided = record { reads = λ on. inr refl }
  carry_out-Reads close_decided = record { reads = λ on. inr refl }
  carry_out-Reads delayed_close_decided = record { reads = λ on. inr refl }

  decide_or_do-Reads :
      (in_loop : Bool) (d : Decision)
      → Reads
          (if is_connected c.state || is_disconnecting c.state then decide_or_do in_loop c d else c)
  decide_or_do-Reads in_loop d =
      if-Reads (is_connected c.state || is_disconnecting c.state)
        (if-Reads in_loop (carry_out-Reads d) (same-Reads h _ refl refl)) h

  stop_read_in_loop-Reads : Reads (stop_read_in_loop c)
  unfolding stop_read_in_loop
  stop_read_in_loop-Reads = if-Reads (c.reading || c.events.read) (off-Reads _ refl) h

  connect_destroyed-Reads : Reads (connect_destroyed c)
  unfolding connect_destroyed
  connect_destroyed-Reads =
      same-Reads (if-Reads (is_connected c.state) (off-Reads _ refl) h) _ refl refl

  after_write-Reads : (n : ℕ) → Reads (after_write c n)
  unfolding after_write shutdown_in_loop
  after_write-Reads n =
      if-Reads (readable_bytes (retrieve c.output n) == 0)
        (if-Reads (is_disconnecting c.state) (same-Reads h _ refl refl) (same-Reads h _ refl refl))
        (same-Reads h _ refl refl)

start_read_in_loop-Reads : (c : Connection) → IsOpen c → Reads (start_read_in_loop c)
unfolding start_read_in_loop
start_read_in_loop-Reads c o =
    if-Reads (not c.reading || not c.events.read) (record { reads = λ on. o })
      (record { reads = λ on. o })

carry_on-Reads :
    {c : Connection} (n : ℕ) (found : Option Decision) → Reads c → Reads (carry_on c n found)
carry_on-Reads n none h = h
carry_on-Reads {c} n (some d) h =
    carry_out-Reads (same-Reads h (record c { decided = without c.decided n }) refl refl) d

shutdown-Reads : {c : Connection} (in_loop : Bool) → Reads c → Reads (shutdown in_loop c)
unfolding shutdown
shutdown-Reads {c} in_loop h =
    if-Reads (is_connected c.state)
      (if-Reads in_loop (shutdown_in_loop-Reads (record { reads = λ on. inr refl }))
        (same-Reads h _ refl refl))
      h

handle_close-Reads : (c c' : Connection) → handle_close c ≡ some c' → c'.events.read ≡ false
unfolding handle_close
handle_close-Reads c c' e = ground arith

force_close_in_loop-Reads :
    {c : Connection} → Reads c → (c' : Connection) → force_close_in_loop c ≡ some c' → Reads c'
unfolding force_close_in_loop
force_close_in_loop-Reads {c} h c' e =
    elim (Bool-cases (is_connected c.state || is_disconnecting c.state)) [
      | inl o ↦ off-Reads c' (handle_close-Reads c c' (ground arith))
      | inr over ↦ some-Reads h (rw over at e)
    ]

connect_established-Reads : (c c' : Connection) → connect_established c ≡ some c' → Reads c'
unfolding connect_established
connect_established-Reads c c' e = record { reads = λ on. inl (ground arith) }

after_read-Reads :
    {c : Connection} (n : Returned)
    → Reads c
    → (c' : Connection) → after_read c n ≡ some c'
    → Reads c'
unfolding after_read
after_read-Reads {c} (count zero) h c' e = off-Reads c' (handle_close-Reads c c' e)
after_read-Reads (count (suc n)) h c' e = some-Reads (same-Reads h _ refl refl) e
after_read-Reads (saved_errno errno) h c' e = some-Reads h e

handle_read-Reads :
    {c : Connection} (result : Readv)
    → Reads c
    → (c' : Connection) → handle_read c result ≡ some c'
    → Reads c'
unfolding handle_read
handle_read-Reads {c} result h c' e = elim (Option-cases (read_fd c.input result)) [
  | inl fault ↦ absurd (ground arith)
  | inr ((b, n), read) ↦
      after_read-Reads n (same-Reads h (record c { input = b }) refl refl) c' (rw read at e)
]

handle_write-Reads :
    {c : Connection} (result : Write)
    → Reads c
    → (c' : Connection) → handle_write c result ≡ some c'
    → Reads c'
unfolding handle_write
handle_write-Reads (failed errno) h c' e = some-Reads h e
handle_write-Reads {c} (wrote n) h c' e = elim (Bool-cases (c.events.write && ltb 0 n)) [
  | inr none_taken ↦ some-Reads h (rw none_taken at e)
  | inl some_taken ↦ elim (Option-cases (to_string c.output)) [
    | inl fault ↦ absurd (ground arith)
    | inr (bytes, read) ↦
        some-Reads
          (after_write-Reads (same-Reads h (record c { sent = c.sent ++ take n bytes }) refl refl)
            n)
          (rw (some_taken, read) at e)
  ]
]

run_task-Reads :
    {c : Connection} (t : Task) (ts : List Task) (result : Write)
    → Reads c
    → Performable c (t ∷ ts) result
    → (c' : Connection) → run_task c t result ≡ some c'
    → Reads c'
unfolding run_task
run_task-Reads {c} (send_task message) ts result h a c' e =
    same-Reads h c' (send_in_loop-Same c message result c' e).0
      (send_in_loop-SameRead c message result c' e)
run_task-Reads shutdown_task ts result h a c' e = some-Reads (shutdown_in_loop-Reads h) e
run_task-Reads force_close_task ts result h a c' e = force_close_in_loop-Reads h c' e
run_task-Reads {c} start_read_task ts result h a c' e = some-Reads (start_read_in_loop-Reads c a) e
run_task-Reads stop_read_task ts result h a c' e = some-Reads (stop_read_in_loop-Reads h) e
run_task-Reads write_complete_task ts result h a c' e = some-Reads (same-Reads h _ refl refl) e
run_task-Reads (high_water_mark_task n) ts result h a c' e = some-Reads (same-Reads h _ refl refl) e

pub pending-Performable :
    (c : Connection) (t : Task) (ts : List Task) (result : Write)
    → Performable c (t ∷ ts) result
    → Performable (record c { pending = ts }) (t ∷ ts) result
pending-Performable c (send_task message) ts result a = a
pending-Performable c start_read_task ts result a = a
pending-Performable c _ ts result a = tt

perform-Reads :
    {c : Connection} (ts : List Task) (result : Write)
    → Reads c
    → Performable c ts result
    → (c' : Connection) → perform c ts result ≡ some c'
    → Reads c'
unfolding perform
perform-Reads [] result h a c' e = some-Reads h e
perform-Reads {c} (t ∷ ts) result h a c' e =
    run_task-Reads t ts result (same-Reads h (record c { pending = ts }) refl refl)
      (pending-Performable c t ts result a) c' e

started-Reads :
    {c : Connection} (in_loop : Bool)
    → Reads c
    → Allowed c (starts_read in_loop)
    → (c' : Connection) → step c (starts_read in_loop) ≡ some c'
    → Reads c'
unfolding step
started-Reads {c} true h o c' e = some-Reads (start_read_in_loop-Reads c o) e
started-Reads false h o c' e = some-Reads (same-Reads h _ refl refl) e

pub step-Reads :
    {c : Connection} (i : Input)
    → Reads c
    → Allowed c i
    → (c' : Connection) → step c i ≡ some c'
    → Reads c'
unfolding step
step-Reads {c} establish h a c' e = connect_established-Reads c c' e
step-Reads destroy h a c' e = some-Reads (connect_destroyed-Reads h) e
step-Reads {c} (sends in_loop message result) h a c' e =
    same-Reads h c' (send-Same in_loop c message result c' e).0
      (send-SameRead in_loop c message result c' e)
step-Reads (shuts_down in_loop) h a c' e = some-Reads (shutdown-Reads in_loop h) e
step-Reads (closes in_loop) h a c' e =
    unfold force_close in some-Reads (decide_or_do-Reads h in_loop close_decided) e
step-Reads (closes_later in_loop) h a c' e =
    unfold force_close_with_delay in
    some-Reads (decide_or_do-Reads h in_loop delayed_close_decided) e
step-Reads {c} (carries_on n) h a c' e = some-Reads (carry_on-Reads n (nth c.decided n) h) e
step-Reads sets_write_complete h a c' e = some-Reads (same-Reads h _ refl refl) e
step-Reads (sets_high_water_mark n) h a c' e = some-Reads (same-Reads h _ refl refl) e
step-Reads (consumes n) h a c' e = some-Reads (same-Reads h _ refl refl) e
step-Reads (starts_read in_loop) h a c' e = started-Reads in_loop h a c' e
step-Reads (stops_read in_loop) h a c' e =
    some-Reads (if-Reads in_loop (stop_read_in_loop-Reads h) (same-Reads h _ refl refl)) e
step-Reads {c} (performs result) h a c' e = perform-Reads c.pending result h a c' e
step-Reads (readable result) h a c' e = handle_read-Reads result h c' e
step-Reads (writable result) h a c' e = handle_write-Reads result h c' e
step-Reads {c} hangs_up h a c' e = off-Reads c' (handle_close-Reads c c' e)

pub new-Reads : Reads new
unfolding new
new-Reads = record { reads = λ on. absurd cc }
