-- ===== src/LengthHeaderCodec/Splits.antt =====
-- The stream of bytes cut in two: decoding the parts and decoding the whole.
use suduo.Prelude.{
  ℕ, zero, suc, ◌+◌, ◌≤◌, ◌<◌, ◌≡◌, refl, sym, ap, ap₂, ◌∙◌, false, some, List, ◌∷◌, ◌++◌, length,
  length-append, take, drop, arith, subst, max_size, length-drop, take-append_left,
  drop-append_left,
}
use suduo.Buffer.{Buffer, append}
use suduo.Buffer.Space.{IsValid, contents}
use suduo.Buffer.Append.{append-Returns}
use suduo.Buffer.Ints.{ByteOrder, int_32, from_memory, network_to_host}
use suduo.LengthHeaderCodec.{Received, is_invalid, on_message}
use suduo.LengthHeaderCodec.Frames.{
  length_of, Decoded, Part, incomplete, bad, frame, part, decode_part, decode, leb→≤, frame-Full,
  part-Full, part-shrinks, Shows, on_message-Shows,
}

decode_part-cong :
    (next next' : List ℕ → Decoded) (bytes : List ℕ) (p : Part)
    → ((x rest : List ℕ) → p ≡ frame x rest → next rest ≡ next' rest)
    → decode_part next bytes p ≡ decode_part next' bytes p
decode_part-cong next next' bytes incomplete h = refl
decode_part-cong next next' bytes bad h = refl
decode_part-cong next next' bytes (frame x rest) h =
    ap {A = Decoded} (λ d. record d { messages = x ∷ d.messages }) (h x rest refl)

-- More fuel than bytes makes no difference.
decode_enough :
    (o : ByteOrder) (n m : ℕ) (bytes : List ℕ)
    → length bytes < n
    → length bytes < m
    → decode o n bytes ≡ decode o m bytes
unfolding decode
decode_enough o zero m bytes h k = absurd (omega arith)
decode_enough o (suc n) zero bytes h k = absurd (omega arith)
decode_enough o (suc n) (suc m) bytes h k =
    decode_part-cong (decode o n) (decode o m) bytes (part o bytes) (λ x rest e.
      decode_enough o n m rest (omega (arith, part-shrinks o bytes x rest e))
        (omega (arith, part-shrinks o bytes x rest e)))

rest-shorter :
    (o : ByteOrder) (n : ℕ) (bytes : List ℕ) → length (decode o n bytes).rest ≤ length bytes
unfolding decode
rest-shorter o zero bytes = omega arith
rest-shorter o (suc n) bytes = by_part (part o bytes) refl (rest-shorter o n)
  where
    by_part :
        (p : Part)
        → part o bytes ≡ p
        → ((rest : List ℕ) → length (decode o n rest).rest ≤ length rest)
        → length (decode_part (decode o n) bytes p).rest ≤ length bytes
    by_part incomplete e h = omega arith
    by_part bad e h = omega arith
    by_part (frame x rest) e h = omega (arith, h rest, part-shrinks o bytes x rest e)

-- A message that is there is the same one with more bytes behind it.
part-append :
    (o : ByteOrder) (bytes ys x rest : List ℕ)
    → part o bytes ≡ frame x rest
    → part o (bytes ++ ys) ≡ frame x (rest ++ ys)
part-append o bytes ys x rest e =
    let f = frame-Full o bytes x rest e in
    let long = leb→≤ 4 _ f.header in
    let all = leb→≤ _ _ f.whole in
    let behind : drop 4 (bytes ++ ys) ≡ drop 4 bytes ++ ys = drop-append_left 4 bytes ys long in
    let size = length-drop 4 bytes in
    let same : length_of o (bytes ++ ys) ≡ length_of o bytes =
      ap (λ bs. network_to_host o int_32 (from_memory o bs)) (take-append_left 4 bytes ys long) in
    part-Full o (bytes ++ ys) x (rest ++ ys) (record {
      header = ground (arith, long, length-append bytes ys);
      fits = ap is_invalid same ∙ f.fits;
      whole = ground (arith, all, same, length-append bytes ys);
      message =
          ap₂ take same behind
          ∙ take-append_left (length_of o bytes) (drop 4 bytes) ys (omega (arith, all, size))
          ∙ f.message;
      behind =
          ap₂ drop same behind
          ∙ drop-append_left (length_of o bytes) (drop 4 bytes) ys (omega (arith, all, size))
          ∙ ap (λ bs. bs ++ ys) f.behind;
    })

abbrev joined : List (List ℕ) → Decoded → Decoded
joined xs d = record d { messages = xs ++ d.messages }

-- Decoding some bytes and then what is left of them with more bytes behind it.
decode-append :
    (o : ByteOrder) (n m : ℕ) (bytes ys : List ℕ)
    → length bytes < n
    → length (bytes ++ ys) < m
    → (decode o n bytes).shut_down ≡ false
    → decode o m (bytes ++ ys)
      ≡ joined (decode o n bytes).messages (decode o m ((decode o n bytes).rest ++ ys))
unfolding decode
decode-append o zero m bytes ys h k runs = absurd (omega arith)
decode-append o (suc n) zero bytes ys h k runs = absurd (omega arith)
decode-append o (suc n) (suc m) bytes ys h k runs =
    by_part (part o bytes) refl runs (λ rest. decode-append o n m rest ys)
      (λ rest. decode_enough o m (suc m) rest) (rest-shorter o n) refl
  where
    by_part :
        (p : Part)
        → part o bytes ≡ p
        → (decode_part (decode o n) bytes p).shut_down ≡ false
        → ((rest : List ℕ)
            → length rest < n
            → length (rest ++ ys) < m
            → (decode o n rest).shut_down ≡ false
            → decode o m (rest ++ ys)
              ≡ joined (decode o n rest).messages (decode o m ((decode o n rest).rest ++ ys)))
        → ((rest : List ℕ)
            → length rest < m
            → length rest < suc m
            → decode o m rest ≡ decode o (suc m) rest)
        → ((rest : List ℕ) → length (decode o n rest).rest ≤ length rest)
        → decode o (suc m) (bytes ++ ys)
          ≡ decode_part (decode o m) (bytes ++ ys) (part o (bytes ++ ys))
        → decode o (suc m) (bytes ++ ys)
          ≡ joined
              (decode_part (decode o n) bytes p).messages
              (decode o (suc m) ((decode_part (decode o n) bytes p).rest ++ ys))
    by_part incomplete e runs ih enough short step = refl
    by_part bad e runs ih enough short step = absurd cc
    by_part (frame x rest) e runs ih enough short step =
        let small = part-shrinks o bytes x rest e in
        let left = (decode o n rest).rest in
        let joins = length-append bytes ys in
        let joins' = length-append rest ys in
        let joins'' = length-append left ys in
        step
        ∙ ap (decode_part (decode o m) (bytes ++ ys)) (part-append o bytes ys x rest e)
        ∙ ap {A = Decoded} (λ d. record d { messages = x ∷ d.messages })
            (ih rest (omega arith) (omega arith) runs
              ∙ ap (joined (decode o n rest).messages)
                  (enough (left ++ ys) (omega (arith, short rest)) (omega (arith, short rest))))

-- What is delivered does not depend on where the stream is cut: if `onMessage` has not shut the
-- connection down, and more bytes come behind those it has left, then on these it delivers the other
-- messages that it delivers on all bytes at once, and shuts down if it does there.
pub on_message-split :
    {b whole : Buffer} (o : ByteOrder) (n k m : ℕ) (ys : List ℕ) (r : Received)
    → IsValid b
    → IsValid whole
    → contents whole ≡ contents b ++ ys
    → length (contents b) < n
    → length (contents whole) < k
    → length (contents whole) < m
    → on_message o n b ≡ some r
    → r.shut_down ≡ false
    → r.left.write_index + length ys ≤ max_size
    → (more : Buffer) × (r' w : Received) × (append r.left ys ≡ some more)
      × (on_message o k more ≡ some r')
      × (on_message o m whole ≡ some w)
      × (w.messages ≡ r.messages ++ r'.messages)
      × (w.shut_down ≡ r'.shut_down)
on_message-split {b} {whole} o n k m ys r v v' all h h' h'' first runs room =
    let (r0, done, sh0) = on_message-Shows o n v h in
    let both = sym done ∙ first in
    let same : r0 ≡ r = cc in
    let sh : Shows r (decode o n (contents b)) =
      subst (λ x. Shows x (decode o n (contents b))) same sh0 in
    let (more, appended, held) = append-Returns ys sh.left.valid room in
    let now : contents more ≡ (decode o n (contents b)).rest ++ ys =
      held.held ∙ ap (λ bs. bs ++ ys) sh.left.held in
    let short = rest-shorter o n (contents b) in
    let size : length (contents more) ≤ length (contents whole) = omega (
      arith,
      ap length now,
      length-append (decode o n (contents b)).rest ys,
      ap length all,
      length-append (contents b) ys,
      short,
    ) in
    let (r', done', sh') = on_message-Shows o k held.valid (omega (arith, h', size)) in
    let (w, done'', sh'') = on_message-Shows o m v' h'' in
    let parts : decode o m (contents whole)
        ≡ joined (decode o n (contents b)).messages (decode o k (contents more)) =
      ap (decode o m) all
      ∙ decode-append o n m (contents b) ys h (omega (arith, ap length all, h''))
          (sym sh.shut_down ∙ runs)
      ∙ ap (λ bs. joined (decode o n (contents b)).messages (decode o m bs)) (sym now)
      ∙ ap (joined (decode o n (contents b)).messages) (
          decode_enough o m k (contents more) (omega (arith, size, h''))
            (omega (arith, size, h'))) in
    (
      more,
      r',
      w,
      appended,
      done',
      done'',
      sh''.messages ∙ ap (λ d. d.messages) parts ∙ ap₂ ◌++◌ (sym sh.messages) (sym sh'.messages),
      sh''.shut_down ∙ ap (λ d. d.shut_down) parts ∙ sym sh'.shut_down,
    )
