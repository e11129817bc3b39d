-- ===== src/Buffer/Ints/Wire.antt =====
-- The integers on the wire: big-endian, whatever the host; and the round trip between hosts.
use mathlib.Core.List.{reverse, reverse-reverse, reverse-cons}
use native.Mathlib.Nat.{pow-suc}
use suduo.Prelude.{
  ℕ, zero, suc, ◌+◌, ◌-◌, ◌/◌, ◌^◌, ◌≤◌, ◌<◌, ◌≡◌, refl, ap, ap₂, ◌∙◌, sym, some, List, [], ◌∷◌,
  ◌++◌, arith, length, length-append, take, drop, max_size, subst, le→leb, slice, take-append_left,
  take-length, drop-append_right, take-take, append-nil,
}
use suduo.Buffer.{Buffer, readable_bytes, retrieve}
use suduo.Buffer.Space.{IsValid, contents, readable-eq, length-contents, read_range-eq}
use suduo.Buffer.Contents.{Holds, Returns, retrieve-Holds}
use suduo.Buffer.Append.{append-Returns, prepend-Returns}
use suduo.Buffer.Ints.{
  ByteOrder, little, big, Width, int_8, int_16, int_32, int_64, sizeof, le_bytes, le_value,
  be_bytes, to_memory, from_memory, swap_bytes, host_to_network, network_to_host, append_int,
  prepend_int, check_peek, peek_int, retrieve_int, read_int,
}

abbrev AllBytes : List ℕ → Type 0
AllBytes [] = Unit {0}
AllBytes (b ∷ bs) = (b < 256) × AllBytes bs

AllBytes-append : (xs ys : List ℕ) → AllBytes xs → AllBytes ys → AllBytes (xs ++ ys)
AllBytes-append [] ys hx hy = hy
AllBytes-append (x ∷ xs) ys hx hy = (hx.0, AllBytes-append xs ys hx.1 hy)

AllBytes-reverse : (xs : List ℕ) → AllBytes xs → AllBytes (reverse xs)
AllBytes-reverse [] h = tt
AllBytes-reverse (x ∷ xs) h =
    rw (reverse-cons x xs)
      (AllBytes-append (reverse xs) (x ∷ []) (AllBytes-reverse xs h.1) (h.0, tt))

length-reverse : (xs : List ℕ) → length (reverse xs) ≡ length xs
length-reverse [] = refl
length-reverse (x ∷ xs) =
    omega
      (arith, ap length (reverse-cons x xs), length-append (reverse xs) (x ∷ []), length-reverse xs)

length-le_bytes : (n x : ℕ) → length (le_bytes n x) ≡ n
unfolding le_bytes
length-le_bytes zero x = refl
length-le_bytes (suc n) x = ap suc (length-le_bytes n (x / 256))

AllBytes-le_bytes : (n x : ℕ) → AllBytes (le_bytes n x)
unfolding le_bytes
AllBytes-le_bytes zero x = tt
AllBytes-le_bytes (suc n) x = (omega arith, AllBytes-le_bytes n (x / 256))

-- Reading back the bytes of a number that fits.
le_value-le_bytes : (n x : ℕ) → x < 256 ^ n → le_value (le_bytes n x) ≡ x
unfolding le_bytes le_value
le_value-le_bytes zero x h = omega arith
le_value-le_bytes (suc n) x h =
    let fits : x / 256 < 256 ^ n = omega (arith, pow-suc 256 n) in
    rw (le_value-le_bytes n (x / 256) fits) (omega arith)

le_bytes-le_value : (bs : List ℕ) → AllBytes bs → le_bytes (length bs) (le_value bs) ≡ bs
unfolding le_bytes le_value
le_bytes-le_value [] h = refl
le_bytes-le_value (b ∷ bs) h =
    ap₂ ◌∷◌ (omega arith) (ap (le_bytes (length bs)) (omega arith) ∙ le_bytes-le_value bs h.1)

pub length-be_bytes : (n x : ℕ) → length (be_bytes n x) ≡ n
unfolding be_bytes
length-be_bytes n x = length-reverse (le_bytes n x) ∙ length-le_bytes n x

-- The bytes of the number that big-endian bytes make, read as little-endian ones.
le_bytes-be : (n x : ℕ) → le_bytes n (le_value (be_bytes n x)) ≡ be_bytes n x
unfolding be_bytes
le_bytes-be n x =
    ap (λ k. le_bytes k (le_value (be_bytes n x))) (sym (length-be_bytes n x))
    ∙ le_bytes-le_value (be_bytes n x) (AllBytes-reverse (le_bytes n x) (AllBytes-le_bytes n x))

to_memory-swap : (o : ByteOrder) (n x : ℕ) → to_memory o n (swap_bytes o n x) ≡ be_bytes n x
unfolding to_memory swap_bytes be_bytes
to_memory-swap little n x = le_bytes-be n x
to_memory-swap big n x = refl

swap-from_memory :
    (o : ByteOrder) (n x : ℕ) → x < 256 ^ n → swap_bytes o n (from_memory o (be_bytes n x)) ≡ x
unfolding from_memory swap_bytes be_bytes
swap-from_memory little n x h =
    rw (le_bytes-be n x, reverse-reverse (le_bytes n x)) (le_value-le_bytes n x h)
swap-from_memory big n x h = rw (reverse-reverse (le_bytes n x)) (le_value-le_bytes n x h)

to_memory_one : (o : ByteOrder) (x : ℕ) → to_memory o 1 x ≡ be_bytes 1 x
unfolding to_memory be_bytes le_bytes
to_memory_one little x = refl
to_memory_one big x = refl

from_memory_one : (o : ByteOrder) (x : ℕ) → x < 256 → from_memory o (be_bytes 1 x) ≡ x
unfolding from_memory be_bytes le_bytes le_value
from_memory_one little x h = omega arith
from_memory_one big x h = omega arith

-- What `append_int` puts on the wire.
wire_bytes :
    (o : ByteOrder) (w : Width) (x : ℕ)
    → to_memory o (sizeof w) (host_to_network o w x) ≡ be_bytes (sizeof w) x
unfolding host_to_network
wire_bytes o int_8 x = to_memory_one o x
wire_bytes o int_16 x = to_memory-swap o 2 x
wire_bytes o int_32 x = to_memory-swap o 4 x
wire_bytes o int_64 x = to_memory-swap o 8 x

pub wire_value :
    (o : ByteOrder) (w : Width) (x : ℕ)
    → x < 256 ^ sizeof w
    → network_to_host o w (from_memory o (be_bytes (sizeof w) x)) ≡ x
unfolding network_to_host
wire_value o int_8 x h = from_memory_one o x (omega arith)
wire_value o int_16 x h = swap-from_memory o 2 x h
wire_value o int_32 x h = swap-from_memory o 4 x h
wire_value o int_64 x h = swap-from_memory o 8 x h

-- `append_int` puts the big-endian bytes of the integer behind the contents.
pub append_int-Returns :
    {b : Buffer} (o : ByteOrder) (w : Width) (x : ℕ)
    → IsValid b
    → b.write_index + sizeof w ≤ max_size
    → Returns (contents b ++ be_bytes (sizeof w) x) (append_int o w b x)
unfolding append_int
append_int-Returns {b} o w x v small =
    rw (wire_bytes o w x)
      (append-Returns (be_bytes (sizeof w) x) v (omega (arith, length-be_bytes (sizeof w) x)))

-- `prepend_int` puts them before the contents.
pub prepend_int-Returns :
    {b : Buffer} (o : ByteOrder) (w : Width) (x : ℕ)
    → IsValid b
    → sizeof w ≤ b.read_index
    → Returns (be_bytes (sizeof w) x ++ contents b) (prepend_int o w b x)
unfolding prepend_int
prepend_int-Returns {b} o w x v room =
    rw (wire_bytes o w x)
      (prepend-Returns (be_bytes (sizeof w) x) v (omega (arith, length-be_bytes (sizeof w) x)))

check_peek-eq : (w : Width) (b : Buffer) → sizeof w ≤ readable_bytes b → check_peek w b ≡ some tt
unfolding check_peek
check_peek-eq int_8 b h = refl
check_peek-eq int_16 b h = rw (le→leb 2 (readable_bytes b) h)
check_peek-eq int_32 b h = refl
check_peek-eq int_64 b h = refl

pub front :
    (xs ys : List ℕ) (n : ℕ) → length xs ≡ n → (take n (xs ++ ys) ≡ xs) × (drop n (xs ++ ys) ≡ ys)
front xs ys n e = (
  rw (← e) (take-append_left (length xs) xs ys (omega arith) ∙ take-length xs),
  let e' : n ≡ length xs + 0 = omega arith in rw e' (drop-append_right 0 xs ys),
)

-- `read_int` takes an integer from the front of the contents, also one that a host of the other
-- byte order put there.
pub read_int-eq :
    {b : Buffer} (o : ByteOrder) (w : Width) (x : ℕ) (rest : List ℕ)
    → IsValid b
    → x < 256 ^ sizeof w
    → contents b ≡ be_bytes (sizeof w) x ++ rest
    → (b' : Buffer) × (read_int o w b ≡ some (x, b')) × Holds rest b'
unfolding read_int peek_int retrieve_int
read_int-eq {b} o w x rest v small held =
    rw
      (
        check_peek-eq w b (omega (arith, enough, readable-eq v)),
        read_range-eq b b.read_index n (omega (arith, enough, v.inside)),
        range,
        wire_value o w x small,
      )
      (retrieve b n, refl, left)
  where
    n : ℕ
    n = sizeof w

    enough : n ≤ b.write_index - b.read_index
    enough = omega (
      arith,
      length-contents v,
      ap length held,
      length-append (be_bytes n x) rest,
      length-be_bytes n x,
    )

    parts : (take n (contents b) ≡ be_bytes n x) × (drop n (contents b) ≡ rest)
    parts = rw held (front (be_bytes n x) rest n (length-be_bytes n x))

    range : slice b.read_index n b.storage ≡ be_bytes n x
    range =
        sym (take-take n (b.write_index - b.read_index) (drop b.read_index b.storage) enough)
        ∙ parts.0

    left : Holds rest (retrieve b n)
    left = subst (λ s. Holds s (retrieve b n)) parts.1 (retrieve-Holds v n)

-- An integer that is appended to an empty buffer on one host is read back on any other.
pub read_int-append_int :
    {b : Buffer} (o o' : ByteOrder) (w : Width) (x : ℕ)
    → IsValid b
    → contents b ≡ []
    → b.write_index + sizeof w ≤ max_size
    → x < 256 ^ sizeof w
    → (sent received : Buffer) × (append_int o w b x ≡ some sent)
      × (read_int o' w sent ≡ some (x, received))
      × Holds [] received
read_int-append_int {b} o o' w x v empty small fits =
    let (sent, done, h) = append_int-Returns o w x v small in
    let (received, read, left) =
      read_int-eq o' w x [] h.valid fits
        (h.held ∙ ap (λ s. s ++ be_bytes (sizeof w) x) empty ∙ sym (append-nil _)) in
    (sent, received, done, read, left)
