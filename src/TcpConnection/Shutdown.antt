-- ===== src/TcpConnection/Shutdown.antt =====
-- The end of the stream: the write side is shut down only when all accepted bytes are with the
-- socket, at once or when the last byte has gone.
use suduo.Prelude.{
  ℕ, ◌<◌, ◌≡◌, refl, sym, ap, ◌∙◌, ◌⊎◌, inl, inr, Bool, true, false, ◌&&◌, some, [], ◌∷◌, ◌++◌,
  append-nil, arith, if◌then◌else◌, ltb, ◌==◌, length, drop, length-eq-zero, take_of_le, drop_of_le,
}
use suduo.Buffer.{readable_bytes, retrieve}
use suduo.Buffer.Space.{contents}
use suduo.Buffer.Contents.{Holds, retrieve-Holds, to_string-eq}
use suduo.TcpConnection.{
  disconnecting, wrote, Connection, log, shutdown_write, is_disconnected, is_disconnecting,
  shutdown_in_loop, after_write, handle_write,
}
use suduo.TcpConnection.Stream.{Inv, held, readable-length}

-- With nothing to write, all that was accepted is with the socket.
all_sent :
    {c : Connection}
    → Inv c
    → is_disconnected c.state ≡ false
    → c.events.write ≡ false
    → c.sent ≡ c.accepted
all_sent {c} inv here idle =
    let none_held : length (contents c.output) ≡ 0 = ground (arith, inv.waits) in
    sym (append-nil c.sent)
    ∙ ap (λ s. c.sent ++ s) (sym (length-eq-zero (contents c.output) none_held))
    ∙ inv.stream

-- Before the end of the connection `shutdown_in_loop` either waits, and bytes are held, or shuts the
-- write side down, and the socket has all accepted bytes.
pub shutdown_in_loop-cases :
    {c : Connection}
    → Inv c
    → is_disconnected c.state ≡ false
    → ((shutdown_in_loop c ≡ c) × (0 < held c))
      ⊎ ((shutdown_in_loop c ≡ log c shutdown_write) × (c.sent ≡ c.accepted))
unfolding shutdown_in_loop
shutdown_in_loop-cases {c} inv here = cases c.events.write refl
  where
    cases :
        (writing : Bool)
        → c.events.write ≡ writing
        → (((if writing then c else log c shutdown_write) ≡ c) × (0 < held c))
          ⊎ (((if writing then c else log c shutdown_write) ≡ log c shutdown_write)
              × (c.sent ≡ c.accepted))
    cases true e = inl (refl, ground (arith, inv.waits))
    cases false e = inr (refl, all_sent inv here e)

-- What `handle_write` leaves when a connection that is being shut down has written its last byte.
pub record Finished (c c' : Connection) : Type 0 where
  pub idle : c'.events.write ≡ false
  pub empty : contents c'.output ≡ []
  pub ended : c'.calls ≡ c.calls ++ shutdown_write ∷ []
  pub complete : c'.sent ≡ c.accepted
  pub same : c'.state ≡ disconnecting

-- A shutdown that had to wait is made up for: the write that takes the last held byte shuts the write
-- side down, with every accepted byte before it.
pub handle_write-Finished :
    {c : Connection}
    → Inv c
    → c.state ≡ disconnecting
    → c.events.write ≡ true
    → (c' : Connection) × (handle_write c (wrote (readable_bytes c.output)) ≡ some c')
      × Finished c c'
unfolding handle_write after_write shutdown_in_loop
handle_write-Finished {c} inv closing writing =
    rw (taken, to_string-eq inv.output_valid, emptied, ending)
      (
        _,
        refl,
        record {
          idle = refl;
          empty = h.held ∙ none_left;
          ended = refl;
          complete =
              ap (λ s. c.sent ++ s)
                (take_of_le (readable_bytes c.output) (contents c.output)
                  (omega (arith, readable-length inv.output_valid)))
              ∙ inv.stream;
          same = closing;
        },
      )
  where
    n : ℕ
    n = readable_bytes c.output

    h : Holds (drop n (contents c.output)) (retrieve c.output n)
    h = retrieve-Holds inv.output_valid n

    none_left : drop n (contents c.output) ≡ []
    none_left = drop_of_le n (contents c.output) (omega (arith, readable-length inv.output_valid))

    some_held : 0 < n
    some_held = ground (arith, inv.waits, readable-length inv.output_valid)

    taken : (c.events.write && ltb 0 n) ≡ true
    taken = ground (arith, some_held)

    emptied : (readable_bytes (retrieve c.output n) == 0) ≡ true
    emptied = ground (arith, readable-length h.valid, ap length h.held, ap length none_left)

    ending : is_disconnecting c.state ≡ true
    ending = rw closing refl
