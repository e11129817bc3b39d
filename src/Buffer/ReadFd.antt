-- ===== src/Buffer/ReadFd.antt =====
-- suduo/net/Buffer.cpp: one `readv` into the free space and, behind it, a buffer on the stack.
use suduo.Prelude.{
  ℕ, ◌+◌, ◌-◌, ◌≤◌, ◌≡◌, refl, ◌∙◌, ap, Option, some, List, ◌++◌, append_assoc, arith,
  if◌then◌else◌, ltb, leb, length, take, drop, ◌>>=◌, ◌>>◌, require, max_size, length-take_of_le,
  length-drop, lt→leb, ◌<◌, subst, overwrite, dec_lt, take-append-drop, le→leb,
}
use suduo.Buffer.{Buffer, writeadble_bytes, write_range, has_written, append}
use suduo.Buffer.Space.{IsValid, contents, writeable-eq, write_range-eq}
use suduo.Buffer.Contents.{Holds, Returns}
use suduo.Buffer.Append.{extended, extended-Holds, extended_ends, append-Returns}

-- What `::readv` did: it failed with an `errno`, or put bytes into the two vectors in order.
pub data Readv : Type 0 where
  failed : ℕ → Readv
  received : List ℕ → Readv

-- What `read_fd` returns: a negative number beside the saved `errno`, or the count of bytes.
pub data Returned : Type 0 where
  saved_errno : ℕ → Returned
  count : ℕ → Returned

abbrev pub extrabuf_size : ℕ
extrabuf_size = 65536

-- The bytes that the call offers to the kernel: the second vector only if the first is small.
abbrev pub offered : Buffer → ℕ
offered b =
    writeadble_bytes b + (if ltb (writeadble_bytes b) extrabuf_size then extrabuf_size else 0)

-- The first vector is full, and the rest is in `extrabuf`.
unfoldable pub take_extra : Buffer → List ℕ → Option Buffer
unfolding writeadble_bytes write_range append
take_extra b bytes = do
  require (leb (length bytes - writeadble_bytes b) extrabuf_size)
  filled ← write_range b b.write_index (take (writeadble_bytes b) bytes)
  append (record filled { write_index = length filled.storage }) (drop (writeadble_bytes b) bytes)

unfoldable pub read_fd : Buffer → Readv → Option (Buffer × Returned)
unfolding take_extra writeadble_bytes write_range has_written
read_fd b (failed errno) = some (b, saved_errno errno)
read_fd b (received bytes) =
    if leb (length bytes) (writeadble_bytes b)
    then (do
      filled ← write_range b b.write_index bytes
      some (has_written filled (length bytes), count (length bytes)))
    else (do full ← take_extra b bytes; some (full, count (length bytes)))

module _ {b : Buffer} (v : IsValid b) (bytes : List ℕ) where
  direct :
      length bytes ≤ writeadble_bytes b
      → (b' : Buffer) × (read_fd b (received bytes) ≡ some (b', count (length bytes)))
        × Holds (contents b ++ bytes) b'
  unfolding read_fd
  direct fits =
      let room : b.write_index + length bytes ≤ length b.storage =
        omega (arith, writeable-eq v, v.inside) in
      rw
        (le→leb (length bytes) (writeadble_bytes b) fits, write_range-eq b b.write_index bytes room)
        (extended v bytes, refl, extended-Holds v bytes room)

  module _ (many : writeadble_bytes b < length bytes) where
    first : List ℕ
    first = take (writeadble_bytes b) bytes

    last : List ℕ
    last = drop (writeadble_bytes b) bytes

    length-first : length first ≡ writeadble_bytes b
    unfolding first
    length-first = length-take_of_le (writeadble_bytes b) bytes (omega arith)

    room : b.write_index + length first ≤ length b.storage
    room = omega (arith, length-first, writeable-eq v, v.inside)

    full : Buffer
    full = record b {
      storage = overwrite b.storage b.write_index first;
      write_index = length (overwrite b.storage b.write_index first);
    }

    full-Holds : Holds (contents b ++ first) full
    unfolding full
    full-Holds =
        subst
          (λ w.
            Holds (contents b ++ first)
              (record b { storage = overwrite b.storage b.write_index first; write_index = w }))
          (omega (arith, extended_ends v first room, length-first, writeable-eq v, v.inside))
          (extended-Holds v first room)

    take_extra-Holds :
        b.write_index + length bytes ≤ max_size
        → length bytes - writeadble_bytes b ≤ extrabuf_size
        → Returns (contents b ++ bytes) (take_extra b bytes)
    unfolding take_extra full first last
    take_extra-Holds small extra =
        let whole : contents b ++ first ++ last ≡ contents b ++ bytes =
          append_assoc (contents b) first last
          ∙ ap (λ s. contents b ++ s) (take-append-drop (writeadble_bytes b) bytes) in
        rw
          (
            le→leb (length bytes - writeadble_bytes b) extrabuf_size extra,
            write_range-eq b b.write_index first room,
            ← whole,
            ← full-Holds.held,
          )
          (append-Returns last full-Holds.valid (
            omega (
              arith,
              extended_ends v first room,
              length-drop (writeadble_bytes b) bytes,
              writeable-eq v,
              v.inside,
            )))

  spilled :
      writeadble_bytes b < length bytes
      → b.write_index + length bytes ≤ max_size
      → length bytes - writeadble_bytes b ≤ extrabuf_size
      → (b' : Buffer) × (read_fd b (received bytes) ≡ some (b', count (length bytes)))
        × Holds (contents b ++ bytes) b'
  unfolding read_fd
  spilled many small extra =
      let (b', done, holds) = take_extra-Holds many small extra in
      rw (lt→leb (length bytes) (writeadble_bytes b) many, done) (b', refl, holds)

-- Whatever `readv` delivers, up to what it was offered, stands behind the contents, in order; the
-- count is returned.
pub read_fd-received :
    {b : Buffer} (bytes : List ℕ)
    → IsValid b
    → length bytes ≤ offered b
    → b.write_index + length bytes ≤ max_size
    → (b' : Buffer) × (read_fd b (received bytes) ≡ some (b', count (length bytes)))
      × Holds (contents b ++ bytes) b'
read_fd-received {b} bytes v all small = elim (dec_lt (writeadble_bytes b) (length bytes)) [
  | yes many ↦ spilled v bytes many small (grind arith)
  | no few ↦ direct v bytes (omega arith)
]
