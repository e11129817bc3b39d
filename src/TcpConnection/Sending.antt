-- ===== src/TcpConnection/Sending.antt =====
-- `send` and `send_in_loop` keep the stream.
use suduo.Prelude.{
  ℕ, ◌+◌, ◌-◌, ◌≤◌, ◌<◌, ◌≡◌, refl, sym, ap, ◌∙◌, inl, inr, Bool, true, false, ◌&&◌, not, some,
  List, [], ◌∷◌, ◌++◌, append_assoc, append-nil, arith, if◌then◌else◌, ltb, ◌==◌, length, take,
  drop, max_size, sub_size, Bool-cases, length-drop, length-append, take-append-drop, take_of_le,
  length-eq-zero, le→leb,
}
use suduo.Buffer.{readable_bytes}
use suduo.Buffer.Space.{IsValid, contents}
use suduo.Buffer.Append.{append-Returns}
use suduo.TcpConnection.{
  Write, failed, wrote, Connection, send_task, fault, is_disconnected, is_connected, keep_rest,
  write_directly, send_in_loop, send,
}
use suduo.TcpConnection.Inputs.{Sendable}
use suduo.TcpConnection.Stream.{Inv, Keeps, readable-length}

-- The rest of a message goes behind the output buffer.
keep_rest-Keeps :
    (c : Connection) (rest : List ℕ)
    → IsValid c.input
    → IsValid c.output
    → c.sent ++ contents c.output ++ rest ≡ c.accepted
    → is_disconnected c.state ≡ false
    → 0 < length rest
    → c.output.write_index + length rest ≤ max_size
    → Keeps (keep_rest c rest)
unfolding keep_rest
keep_rest-Keeps c rest vi vo stream here some_left small =
    let (b, done, h) = append-Returns rest vo small in
    rw done (
      _,
      refl,
      record {
        input_valid = vi;
        output_valid = h.valid;
        stream =
            ap (λ s. c.sent ++ s) h.held
            ∙ sym (append_assoc c.sent (contents c.output) rest)
            ∙ stream;
        waits = inr (
            inl (
              here,
              ground arith,
              omega (arith, ap length h.held, length-append (contents c.output) rest),
            ));
      },
    )

module _ {c : Connection} (inv : Inv c) (message : List ℕ) where
  open inv use {input_valid, output_valid, stream, waits}

  -- The message waits whole, behind what waits already.
  waits_whole :
      is_disconnected c.state ≡ false
      → c.output.write_index + length message ≤ max_size
      → Keeps (
          if ltb 0 (length message)
          then keep_rest (record c { accepted = c.accepted ++ message }) message
          else some c)
  waits_whole here small = elim (Bool-cases (ltb 0 (length message))) [
    | inl some_left ↦ rw some_left (
        keep_rest-Keeps (record c { accepted = c.accepted ++ message }) message input_valid
          output_valid (ap (λ s. s ++ message) stream) here (ground arith) small)
    | inr none_left ↦ rw none_left (c, refl, inv)
  ]

  -- A direct write: nothing waited before.
  wrote-Keeps :
      (n : ℕ)
      → is_disconnected c.state ≡ false
      → contents c.output ≡ []
      → c.events.write ≡ false
      → n ≤ length message
      → c.output.write_index + length message ≤ max_size
      → Keeps (write_directly c message (wrote n))
  unfolding write_directly
  wrote-Keeps n here empty idle few small =
      rw (remaining, le→leb (length message - n) (length message) (omega arith))
        (elim (Bool-cases (ltb 0 (length message - n))) [
          | inl some_left ↦ rw some_left (
              keep_rest-Keeps _ (drop n message) input_valid output_valid
                (append_assoc (c.sent ++ take n message) (contents c.output) (drop n message)
                  ∙ parts)
                here (ground (arith, length-drop n message)) (omega (arith, length-drop n message)))
          | inr none_left ↦ rw none_left (
            _,
            refl,
            record {
              input_valid = input_valid;
              output_valid = output_valid;
              stream = all (ground arith);
              waits = waits;
            },
          )
        ])
    where
      remaining : sub_size (length message) n ≡ length message - n
      remaining = omega arith

      done : c.sent ≡ c.accepted
      done = sym (append-nil c.sent) ∙ ap (λ s. c.sent ++ s) (sym empty) ∙ stream

      parts :
          c.sent ++ take n message ++ (contents c.output ++ drop n message) ≡ c.accepted ++ message
      parts = rw (empty, append_assoc, take-append-drop, done)

      all :
          length message ≤ n → c.sent ++ take n message ++ contents c.output ≡ c.accepted ++ message
      all h = rw (empty, append-nil, take_of_le n message h, done)

  failed-Keeps :
      (errno : ℕ)
      → is_disconnected c.state ≡ false
      → c.output.write_index + length message ≤ max_size
      → Keeps (write_directly c message (failed errno))
  unfolding write_directly
  failed-Keeps errno here small = elim (Bool-cases (fault errno)) [
    | inl fatal ↦ rw fatal (c, refl, inv)
    | inr again ↦ rw again (waits_whole here small)
  ]

  direct-Keeps :
      (result : Write)
      → is_disconnected c.state ≡ false
      → contents c.output ≡ []
      → c.events.write ≡ false
      → Sendable c message result
      → Keeps (write_directly c message result)
  direct-Keeps (failed errno) here empty idle (written, small) = failed-Keeps errno here small
  direct-Keeps (wrote n) here empty idle (written, small) =
      wrote-Keeps n here empty idle written small

  -- `send_in_loop` keeps the stream, whatever the write gives.
  pub send_in_loop-Keeps :
      (result : Write) → Sendable c message result → Keeps (send_in_loop c message result)
  unfolding send_in_loop
  send_in_loop-Keeps result fits = elim (Bool-cases (is_disconnected c.state)) [
    | inl gone ↦ rw gone (c, refl, inv)
    | inr here ↦ rw here (elim (Bool-cases (not c.events.write && readable_bytes c.output == 0)) [
      | inl direct ↦
          let idle : c.events.write ≡ false = ground arith in
          let none_held : readable_bytes c.output ≡ 0 = ground arith in
          rw direct (
            direct-Keeps result here
              (length-eq-zero (contents c.output) (omega (arith, readable-length output_valid)))
              idle fits)
      | inr later ↦ rw later (waits_whole here fits.1)
    ])
  ]

  pub send-Keeps :
      (in_loop : Bool) (result : Write)
      → Sendable c message result
      → Keeps (send in_loop c message result)
  unfolding send
  send-Keeps in_loop result fits = elim (Bool-cases (is_connected c.state)) [
    | inr closed ↦ rw closed (c, refl, inv)
    | inl open_now ↦ rw open_now (by_thread in_loop)
  ]
    where
      queued : Inv (record c { pending = c.pending ++ send_task message ∷ [] })
      queued = record {
        input_valid = input_valid;
        output_valid = output_valid;
        stream = stream;
        waits = waits;
      }

      by_thread :
          (here : Bool)
          → Keeps (
              if here
              then send_in_loop c message result
              else some (record c { pending = c.pending ++ send_task message ∷ [] }))
      by_thread true = send_in_loop-Keeps result fits
      by_thread false = (_, refl, queued)
