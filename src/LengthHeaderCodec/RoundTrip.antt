-- ===== src/LengthHeaderCodec/RoundTrip.antt =====
-- What `send` writes, decoded.
use suduo.Prelude.{
  ℕ, zero, suc, ◌+◌, ◌^◌, ◌%◌, ◌≤◌, ◌<◌, ◌≡◌, refl, sym, ap, ap₂, ◌∙◌, false, Option, some, List,
  [], ◌∷◌, ◌++◌, append_assoc, length, length-append, take, drop, arith, subst, inl, inr, ◌>>=◌,
}
use suduo.Buffer.{Buffer, init_size, new}
use suduo.Buffer.Space.{IsValid, contents}
use suduo.Buffer.Contents.{Holds, new_lem, retrieve_all_as_string-eq}
use suduo.Buffer.Append.{append-front}
use suduo.Buffer.Ints.{ByteOrder, int_32, from_memory, network_to_host, be_bytes}
use suduo.Buffer.Ints.Wire.{length-be_bytes, wire_value, front, prepend_int-Returns}
use suduo.LengthHeaderCodec.{Received, on_message, send}
use suduo.LengthHeaderCodec.Frames.{
  length_of, Decoded, frame, part, decode_part, decode, part-Full, part-shrinks, on_message-Shows,
}

-- A message with its length in front, and several of them one behind the other.
abbrev pub framed : List ℕ → List ℕ
framed message = be_bytes 4 (length message) ++ message

abbrev pub stream : List (List ℕ) → List ℕ
stream [] = []
stream (m ∷ ms) = framed m ++ stream ms

abbrev pub AllShort : List (List ℕ) → Type 0
AllShort [] = Unit {0}
AllShort (m ∷ ms) = (length m ≤ 65536) × AllShort ms

-- The bytes of all calls of `send`, in order.
unfoldable pub send_all : ByteOrder → List (List ℕ) → Option (List ℕ)
send_all o [] = some []
send_all o (m ∷ ms) = do bytes ← send o m; rest ← send_all o ms; some (bytes ++ rest)

new_ends : ((new init_size).read_index ≡ 8) × ((new init_size).write_index ≡ 8)
unfolding new
new_ends = (refl, refl)

send-framed : (o : ByteOrder) (m : List ℕ) → length m ≤ 65536 → send o m ≡ some (framed m)
unfolding send
send-framed o m short =
    let (valid, empty) = new_lem init_size in
    let (b, done, held, start) = append-front m valid (omega (arith, short, new_ends)) in
    let (b', done', held') =
      prepend_int-Returns o int_32 (length m % 2 ^ 32) held.valid (elim start [
        | inl same ↦ omega (arith, same, new_ends)
        | inr eight ↦ omega (arith, eight)
      ]) in
    rw (done, done', retrieve_all_as_string-eq held'.valid)
      (ap some (
        held'.held
        ∙ ap₂ (λ n bs. be_bytes 4 n ++ bs) (omega (arith, short))
            (held.held ∙ ap (λ bs. bs ++ m) empty)))

part-framed :
    (o : ByteOrder) (m rest : List ℕ) → length m ≤ 65536 → part o (framed m ++ rest) ≡ frame m rest
part-framed o m rest short =
    let whole : framed m ++ rest ≡ be_bytes 4 (length m) ++ (m ++ rest) =
      append_assoc (be_bytes 4 (length m)) m rest in
    let (header, behind) =
      front (be_bytes 4 (length m)) (m ++ rest) 4 (length-be_bytes 4 (length m)) in
    let (first, last) = front m rest (length m) refl in
    let len : length_of o (framed m ++ rest) ≡ length m =
      ap (λ bs. network_to_host o int_32 (from_memory o (take 4 bs))) whole
      ∙ ap (λ bs. network_to_host o int_32 (from_memory o bs)) header
      ∙ wire_value o int_32 (length m) (omega (arith, short)) in
    let body : drop 4 (framed m ++ rest) ≡ m ++ rest = ap (drop 4) whole ∙ behind in
    let size : length (framed m ++ rest) ≡ 4 + (length m + length rest) =
      ap length whole
      ∙ length-append (be_bytes 4 (length m)) (m ++ rest)
      ∙ ap₂ ◌+◌ (length-be_bytes 4 (length m)) (length-append m rest) in
    part-Full o (framed m ++ rest) m rest (record {
      header = ground (arith, size);
      fits = ground (arith, len, short);
      whole = ground (arith, len, size);
      message = ap₂ take len body ∙ first;
      behind = ap₂ drop len body ∙ last;
    })

decode-stream :
    (o : ByteOrder) (n : ℕ) (ms : List (List ℕ))
    → AllShort ms
    → length (stream ms) < n
    → decode o n (stream ms) ≡ record { messages = ms; shut_down = false; rest = [] }
unfolding decode
decode-stream o zero ms short h = absurd (omega arith)
decode-stream o (suc n) [] short h = refl
decode-stream o (suc n) (m ∷ ms) (short, all) h =
    ap (decode_part (decode o n) (stream (m ∷ ms))) (part-framed o m (stream ms) short)
    ∙ ap {A = Decoded} (λ d. record d { messages = m ∷ d.messages })
        (decode-stream o n ms all (
          omega (
            arith,
            part-shrinks o (stream (m ∷ ms)) m (stream ms) (part-framed o m (stream ms) short),
          )))

pub send_all-stream :
    (o : ByteOrder) (ms : List (List ℕ)) → AllShort ms → send_all o ms ≡ some (stream ms)
unfolding send_all
send_all-stream o [] all = refl
send_all-stream o (m ∷ ms) (short, all) = rw (send-framed o m short, send_all-stream o ms all) refl

-- Messages of up to 65536 bytes that are sent one after another from one host are delivered, each as it
-- was and in order, once all their bytes are in the buffer of another host, whatever the order of
-- bytes of the two; `onMessage` ends, does not shut the connection down, and leaves no byte.
pub on_message-send_all :
    {b : Buffer} (o o' : ByteOrder) (fuel : ℕ) (ms : List (List ℕ)) (bytes : List ℕ)
    → AllShort ms
    → send_all o ms ≡ some bytes
    → IsValid b
    → contents b ≡ bytes
    → length bytes < fuel
    → (r : Received) × (on_message o' fuel b ≡ some r)
      × (r.messages ≡ ms)
      × (r.shut_down ≡ false)
      × Holds [] r.left
on_message-send_all {b} o o' fuel ms bytes all sent v held enough =
    let both = sym (send_all-stream o ms all) ∙ sent in
    let same : stream ms ≡ bytes = cc in
    let all_held : contents b ≡ stream ms = held ∙ sym same in
    let (r, done, sh) = on_message-Shows o' fuel v (omega (arith, enough, ap length held)) in
    let d : decode o' fuel (contents b) ≡ record { messages = ms; shut_down = false; rest = [] } =
      ap (decode o' fuel) all_held
      ∙ decode-stream o' fuel ms all (omega (arith, enough, ap length same)) in
    (
      r,
      done,
      sh.messages ∙ ap (λ x. x.messages) d,
      sh.shut_down ∙ ap (λ x. x.shut_down) d,
      subst (λ x. Holds x.rest r.left) d sh.left,
    )
