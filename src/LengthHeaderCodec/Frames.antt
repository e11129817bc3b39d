-- ===== src/LengthHeaderCodec/Frames.antt =====
-- A decoder of lists of bytes, and how `onMessage` compares with it.
use suduo.Prelude.{
  ℕ, zero, suc, ◌+◌, ◌-◌, ◌≤◌, ◌<◌, ◌≡◌, refl, sym, ap, ap₂, ◌∙◌, inl, inr, Bool, true, false,
  Option, some, List, [], ◌∷◌, if◌then◌else◌, leb, length, take, drop, take-take, arith, Bool-cases,
  subst, ◌>>=◌, add_size, length-drop,
}
use suduo.Buffer.{Buffer, readable_bytes, retrieve}
use suduo.Buffer.Space.{IsValid, contents, readable-eq, length-contents, read_range-eq}
use suduo.Buffer.Contents.{Holds, retrieve-Holds}
use suduo.Buffer.Ints.{ByteOrder, int_32, peek_int, from_memory, network_to_host}
use suduo.LengthHeaderCodec.{
  Received, Turn, wait, invalid, deliver, is_invalid, take_message, turn, follow, on_message,
}

-- The length that the first 4 bytes stand for.
abbrev pub length_of : ByteOrder → List ℕ → ℕ
length_of o bytes = network_to_host o int_32 (from_memory o (take 4 bytes))

pub record Decoded : Type 0 where
  pub messages : List (List ℕ)
  pub shut_down : Bool
  pub rest : List ℕ

pub data Part : Type 0 where
  incomplete : Part
  bad : Part
  frame : List ℕ → List ℕ → Part

-- The first message in some bytes.
abbrev pub part : ByteOrder → List ℕ → Part
part o bytes =
    if leb 4 (length bytes)
    then (if is_invalid (length_of o bytes)
        then bad
        else (if leb (length_of o bytes + 4) (length bytes)
            then frame (take (length_of o bytes) (drop 4 bytes))
                (drop (length_of o bytes) (drop 4 bytes))
            else incomplete))
    else incomplete

abbrev pub decode_part : (List ℕ → Decoded) → List ℕ → Part → Decoded
decode_part next bytes incomplete = record { messages = []; shut_down = false; rest = bytes }
decode_part next bytes bad = record { messages = []; shut_down = true; rest = bytes }
decode_part next bytes (frame message rest) = record (next rest) {
  messages = message ∷ (next rest).messages;
}

unfoldable pub decode : ByteOrder → ℕ → List ℕ → Decoded
decode o zero bytes = record { messages = []; shut_down = false; rest = bytes }
decode o (suc n) bytes = decode_part (decode o n) bytes (part o bytes)

pub record Shows (r : Received) (d : Decoded) : Type 0 where
  pub messages : r.messages ≡ d.messages
  pub shut_down : r.shut_down ≡ d.shut_down
  pub left : Holds d.rest r.left

abbrev pub first_message : ByteOrder → List ℕ → List ℕ
first_message o bytes = take (length_of o bytes) (drop 4 bytes)

abbrev pub behind_first : ByteOrder → List ℕ → List ℕ
behind_first o bytes = drop (length_of o bytes) (drop 4 bytes)

pub data Cases (o : ByteOrder) (bytes : List ℕ) : Type 0 where
  no_header : leb 4 (length bytes) ≡ false → Cases o bytes
  too_long : leb 4 (length bytes) ≡ true → is_invalid (length_of o bytes) ≡ true → Cases o bytes
  partial :
      leb 4 (length bytes) ≡ true
      → is_invalid (length_of o bytes) ≡ false
      → leb (length_of o bytes + 4) (length bytes) ≡ false
      → Cases o bytes
  full :
      leb 4 (length bytes) ≡ true
      → is_invalid (length_of o bytes) ≡ false
      → leb (length_of o bytes + 4) (length bytes) ≡ true
      → Cases o bytes

pub cases : (o : ByteOrder) (bytes : List ℕ) → Cases o bytes
cases o bytes = elim (Bool-cases (leb 4 (length bytes))) [
  | inr few ↦ no_header few
  | inl header ↦ elim (Bool-cases (is_invalid (length_of o bytes))) [
    | inl long ↦ too_long header long
    | inr fits ↦ elim (Bool-cases (leb (length_of o bytes + 4) (length bytes))) [
      | inr few ↦ partial header fits few
      | inl whole ↦ full header fits whole
    ]
  ]
]

pub leb→≤ : (a b : ℕ) → leb a b ≡ true → a ≤ b
leb→≤ a b h = ground arith

valid_sum : (len : ℕ) → is_invalid len ≡ false → add_size len 4 ≡ len + 4
valid_sum len h = let small : len ≤ 65536 = ground arith in omega (arith, small)

-- A round on a buffer and a round on its bytes.
abbrev pub Matches : Turn → Part → Type 0
Matches wait incomplete = Unit {0}
Matches invalid bad = Unit {0}
Matches (deliver m b) (frame m' rest) = (m ≡ m') × Holds rest b
Matches _ _ = ⊥

module _ {b : Buffer} (o : ByteOrder) (v : IsValid b) where
  peek-length_of : 4 ≤ length (contents b) → peek_int o int_32 b ≡ some (length_of o (contents b))
  unfolding peek_int
  peek-length_of h =
      let enough : 4 ≤ b.write_index - b.read_index = omega (arith, length-contents v) in
      rw (read_range-eq b b.read_index 4 (omega (arith, enough, v.inside))) (
        ap (λ bs. some (network_to_host o int_32 (from_memory o bs)))
          (sym (take-take 4 (b.write_index - b.read_index) (drop b.read_index b.storage) enough)))

  take_message-deliver :
      (len : ℕ)
      → len + 4 ≤ length (contents b)
      → (t : Turn) × (take_message (retrieve b 4) len ≡ some t)
        × Matches t (frame (take len (drop 4 (contents b))) (drop len (drop 4 (contents b))))
  unfolding take_message
  take_message-deliver len h =
      let header = retrieve-Holds v 4 in
      let b' = retrieve b 4 in
      let size : b'.write_index - b'.read_index ≡ length (contents b) - 4 =
        sym (length-contents header.valid) ∙ ap length header.held ∙ length-drop 4 (contents b) in
      let few : len ≤ b'.write_index - b'.read_index = omega (arith, size) in
      let held : take len (contents b') ≡ take len (drop 4 (contents b)) =
        ap (take len) header.held in
      rw (read_range-eq b' b'.read_index len (omega (arith, few, header.valid.inside))) (
        _,
        refl,
        (
          sym (take-take len (b'.write_index - b'.read_index) (drop b'.read_index b'.storage) few)
              ∙ held,
          subst (λ bs. Holds (drop len bs) (retrieve b' len)) header.held
              (retrieve-Holds header.valid len),
        ),
      )

  turn-part : (t : Turn) × (turn o b ≡ some t) × Matches t (part o (contents b))
  unfolding turn
  turn-part =
      let size : readable_bytes b ≡ length (contents b) = readable-eq v ∙ sym (length-contents v) in
      let len = length_of o (contents b) in
      elim (cases o (contents b)) [
        | no_header few ↦ rw (size, few) (wait, refl, tt)
        | too_long header long ↦
            rw (size, header, peek-length_of (leb→≤ 4 _ header), long) (invalid, refl, tt)
        | partial header fits few ↦
            rw (size, header, peek-length_of (leb→≤ 4 _ header), fits, valid_sum len fits, few)
              (wait, refl, tt)
        | full header fits whole ↦
            rw (size, header, peek-length_of (leb→≤ 4 _ header), fits, valid_sum len fits, whole)
              (take_message-deliver len (leb→≤ _ _ whole))
      ]

abbrev is_frame : Part → Bool
is_frame (frame m rest) = true
is_frame _ = false

abbrev rest_of : Part → List ℕ
rest_of (frame m rest) = rest
rest_of _ = []

abbrev message_of : Part → List ℕ
message_of (frame m rest) = m
message_of _ = []

pub record Full (o : ByteOrder) (bytes m rest : List ℕ) : Type 0 where
  pub header : leb 4 (length bytes) ≡ true
  pub fits : is_invalid (length_of o bytes) ≡ false
  pub whole : leb (length_of o bytes + 4) (length bytes) ≡ true
  pub message : first_message o bytes ≡ m
  pub behind : behind_first o bytes ≡ rest

pub frame-Full :
    (o : ByteOrder) (bytes m rest : List ℕ) → part o bytes ≡ frame m rest → Full o bytes m rest
frame-Full o bytes m rest e = elim (cases o bytes) [
  | no_header few ↦ let clash = ap is_frame (rw few at e) in absurd cc
  | too_long header long ↦ let clash = ap is_frame (rw (header, long) at e) in absurd cc
  | partial header fits few ↦ let clash = ap is_frame (rw (header, fits, few) at e) in absurd cc
  | full header fits whole ↦ record {
    header = header;
    fits = fits;
    whole = whole;
    message = ap message_of (rw (header, fits, whole) at e);
    behind = ap rest_of (rw (header, fits, whole) at e);
  }
]

pub part-Full :
    (o : ByteOrder) (bytes m rest : List ℕ) → Full o bytes m rest → part o bytes ≡ frame m rest
part-Full o bytes m rest f = rw (f.header, f.fits, f.whole) (ap₂ frame f.message f.behind)

pub part-shrinks :
    (o : ByteOrder) (bytes m rest : List ℕ)
    → part o bytes ≡ frame m rest
    → length rest < length bytes
part-shrinks o bytes m rest e =
    let f = frame-Full o bytes m rest e in
    omega (
      arith,
      ap length f.behind,
      leb→≤ 4 _ f.header,
      leb→≤ _ _ f.whole,
      length-drop (length_of o bytes) (drop 4 bytes),
      length-drop 4 bytes,
    )

Decodes : ByteOrder → ℕ → Type 0
Decodes o fuel =
    (b : Buffer)
    → IsValid b
    → length (contents b) < fuel
    → (r : Received) × (on_message o fuel b ≡ some r) × Shows r (decode o fuel (contents b))

follow-Shows :
    {b : Buffer} (o : ByteOrder) (fuel : ℕ) (t : Turn) (p : Part)
    → IsValid b
    → length (contents b) < suc fuel
    → part o (contents b) ≡ p
    → Matches t p
    → Decodes o fuel
    → (r : Received) × (follow (on_message o fuel) b t ≡ some r)
      × Shows r (decode_part (decode o fuel) (contents b) p)
unfolding Decodes
follow-Shows {b} o fuel wait incomplete v h e m next = (
  _,
  refl,
  record { messages = refl; shut_down = refl; left = record { valid = v; held = refl } },
)
follow-Shows {b} o fuel invalid bad v h e m next = (
  _,
  refl,
  record { messages = refl; shut_down = refl; left = record { valid = v; held = refl } },
)
follow-Shows {b} o fuel (deliver x b') (frame x' rest) v h e (same, held) next =
    let (r, done, sh) =
      next b' held.valid
        (omega (arith, h, part-shrinks o (contents b) x' rest e, ap length held.held)) in
    let sh' : Shows r (decode o fuel rest) =
      subst (λ bs. Shows r (decode o fuel bs)) held.held sh in
    (
      _,
      ap {A = Option Received} (λ m. m >>= λ r. some (record r { messages = x ∷ r.messages })) done,
      record { messages = ap₂ ◌∷◌ same sh'.messages; shut_down = sh'.shut_down; left = sh'.left },
    )
follow-Shows o fuel wait bad v h e m next = absurd m
follow-Shows o fuel wait (frame x r) v h e m next = absurd m
follow-Shows o fuel invalid incomplete v h e m next = absurd m
follow-Shows o fuel invalid (frame x r) v h e m next = absurd m
follow-Shows o fuel (deliver x r) incomplete v h e m next = absurd m
follow-Shows o fuel (deliver x r) bad v h e m next = absurd m

-- What `onMessage` does with a buffer, by the bytes in it.
pub on_message-Shows :
    {b : Buffer} (o : ByteOrder) (fuel : ℕ)
    → IsValid b
    → length (contents b) < fuel
    → (r : Received) × (on_message o fuel b ≡ some r) × Shows r (decode o fuel (contents b))
unfolding on_message decode Decodes
on_message-Shows o zero v h = absurd (omega arith)
on_message-Shows {b} o (suc fuel) v h =
    let (t, done, m) = turn-part o v in
    let (r, ends, sh) =
      follow-Shows o fuel t (part o (contents b)) v h refl m (λ b. on_message-Shows o fuel) in
    (r, ap (λ m. m >>= follow (on_message o fuel) b) done ∙ ends, sh)
