-- ===== src/TcpConnection/Draining.antt =====
-- `handle_write` keeps the stream.
use suduo.Prelude.{
  ℕ, ◌-◌, ◌≤◌, ◌≡◌, ◌≢◌, refl, sym, ap, ◌∙◌, inl, inr, true, false, ◌&&◌, List, [], ◌∷◌, ◌++◌,
  append_assoc, arith, if◌then◌else◌, ltb, ◌==◌, length, take, drop, Bool-cases, length-drop,
  take-append-drop,
}
use suduo.Buffer.{readable_bytes, retrieve}
use suduo.Buffer.Space.{contents}
use suduo.Buffer.Contents.{Holds, retrieve-Holds, to_string-eq}
use suduo.Channel.{disable_writing}
use suduo.TcpConnection.{
  Write, failed, wrote, Connection, Task, Call, log, shutdown_write, write_complete_task,
  is_disconnected, is_disconnecting, after_write, handle_write, shutdown_in_loop,
}
use suduo.TcpConnection.Inputs.{Written}
use suduo.TcpConnection.Stream.{Inv, Keeps, readable-length, if-Inv}

module _ {c : Connection} (inv : Inv c) where
  open inv use {input_valid, output_valid, stream, waits}

  -- What is left when the socket has taken `n` bytes of the buffer.
  rest_held :
      (n : ℕ)
      → n ≤ readable_bytes c.output
      → Holds (drop n (contents c.output)) (retrieve c.output n)
        × (c.sent ++ take n (contents c.output) ++ drop n (contents c.output) ≡ c.accepted)
        × (length (drop n (contents c.output)) ≡ readable_bytes c.output - n)
  rest_held n h = (
    retrieve-Holds output_valid n,
    append_assoc c.sent (take n (contents c.output)) (drop n (contents c.output))
        ∙ ap (λ s. c.sent ++ s) (take-append-drop n (contents c.output))
        ∙ stream,
    omega (arith, length-drop n (contents c.output), readable-length output_valid),
  )

  open_now : c.events.write ≡ true → is_disconnected c.state ≡ false
  open_now writing = ground (arith, waits)

  -- The buffer is empty: the channel waits no more.
  drained-Inv :
      (n : ℕ) (pending : List Task)
      → c.events.write ≡ true
      → n ≤ readable_bytes c.output
      → readable_bytes (retrieve c.output n) ≡ 0
      → Inv (record c {
        sent = c.sent ++ take n (contents c.output);
        output = retrieve c.output n;
        events = disable_writing c.events;
        pending = pending;
      })
  drained-Inv n pending writing few empty =
      let (h, joined, _) = rest_held n few in
      record {
        input_valid = input_valid;
        output_valid = h.valid;
        stream = ap (λ s. c.sent ++ take n (contents c.output) ++ s) h.held ∙ joined;
        waits = inr (inr (open_now writing, refl, sym (readable-length h.valid) ∙ empty));
      }

  left-Inv :
      (n : ℕ)
      → c.events.write ≡ true
      → n ≤ readable_bytes c.output
      → readable_bytes (retrieve c.output n) ≢ 0
      → Inv (record c { sent = c.sent ++ take n (contents c.output); output = retrieve c.output n })
  left-Inv n writing few some_left =
      let (h, joined, _) = rest_held n few in
      record {
        input_valid = input_valid;
        output_valid = h.valid;
        stream = ap (λ s. c.sent ++ take n (contents c.output) ++ s) h.held ∙ joined;
        waits = inr (inl (open_now writing, writing, omega (arith, readable-length h.valid)));
      }

  pub log-Inv : (call : Call) → Inv (log c call)
  log-Inv call = record {
    input_valid = input_valid;
    output_valid = output_valid;
    stream = stream;
    waits = waits;
  }

  pub shutdown_in_loop-Inv : Inv (shutdown_in_loop c)
  unfolding shutdown_in_loop
  shutdown_in_loop-Inv = if-Inv c.events.write inv (log-Inv shutdown_write)

after_write-Inv :
    {c : Connection} (n : ℕ)
    → Inv c
    → c.events.write ≡ true
    → n ≤ readable_bytes c.output
    → Inv (after_write (record c { sent = c.sent ++ take n (contents c.output) }) n)
unfolding after_write
after_write-Inv {c} n inv writing few =
    elim (Bool-cases (readable_bytes (retrieve c.output n) == 0)) [
      | inl drained ↦
          let idle =
            drained-Inv inv n
              (if c.has_write_complete then c.pending ++ write_complete_task ∷ [] else c.pending)
              writing few (ground arith) in
          rw drained (if-Inv (is_disconnecting c.state) (shutdown_in_loop-Inv idle) idle)
      | inr some_left ↦ rw some_left (left-Inv inv n writing few (ground arith))
    ]

-- `handle_write` moves bytes from the front of the buffer to the socket.
pub handle_write-Keeps :
    {c : Connection} (result : Write)
    → Inv c
    → Written (readable_bytes c.output) result
    → Keeps (handle_write c result)
unfolding handle_write
handle_write-Keeps {c} (failed errno) inv written = (c, refl, inv)
handle_write-Keeps {c} (wrote n) inv written = elim (Bool-cases (c.events.write && ltb 0 n)) [
  | inl some_taken ↦
      rw (some_taken, to_string-eq inv.output_valid)
        (_, refl, after_write-Inv n inv (ground arith) written)
  | inr none_taken ↦ rw none_taken (c, refl, inv)
]
