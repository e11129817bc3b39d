-- ===== src/Buffer/Append.antt =====
-- Bytes put behind and before the contents: `append` and `prepend`.
use suduo.Prelude.{
  ◌>>=◌, ℕ, ◌+◌, ◌-◌, ◌≤◌, ◌<◌, ◌≡◌, refl, ap, ◌∙◌, false, none, some, List, ◌++◌, arith, ltb,
  length, take, drop, slice, overwrite, sub_size, add_size, max_size, lt→leb, length-overwrite,
  slice-overwrite, slice-overwrite_end, slice-split, drop-overwrite, ap₂, ◌⊎◌,
}
use suduo.Buffer.{
  pre_append_size, Buffer, writeadble_bytes, write_range, ensure_writeable_bytes, has_written,
  append, prepend,
}
use suduo.Buffer.Space.{IsValid, contents, writeable-eq, write_range-eq, ensure-Roomy}
use suduo.Buffer.Contents.{Holds, Returns}

module _ {b : Buffer} (v : IsValid b) where
  -- The bytes stand behind the contents, in a vector of the same length.
  abbrev pub extended : List ℕ → Buffer
  extended bytes = record b {
    storage = overwrite b.storage b.write_index bytes;
    write_index = add_size b.write_index (length bytes);
  }

  pub extended-Holds :
      (bytes : List ℕ)
      → b.write_index + length bytes ≤ length b.storage
      → Holds (contents b ++ bytes) (extended bytes)
  extended-Holds bytes fits = rw moves (record {
    valid = record {
      ordered = omega arith;
      inside = omega (arith, size_kept);
      small = omega (arith, size_kept, v.small);
      room = omega (arith, size_kept, v.room);
    };
    held = same;
  })
    where
      n : ℕ
      n = b.write_index - b.read_index

      moves : add_size b.write_index (length bytes) ≡ b.write_index + length bytes
      moves = omega (arith, v.small)

      size_kept : length (overwrite b.storage b.write_index bytes) ≡ length b.storage
      size_kept = length-overwrite b.storage b.write_index bytes fits

      write_at : b.write_index ≡ b.read_index + n
      write_at = omega arith

      count : b.write_index + length bytes - b.read_index ≡ n + length bytes
      count = omega arith

      same :
          slice b.read_index
            (b.write_index + length bytes - b.read_index)
            (overwrite b.storage b.write_index bytes)
          ≡ contents b ++ bytes
      same = rw count (
          ap (λ w. slice b.read_index (n + length bytes) (overwrite b.storage w bytes)) write_at
          ∙ slice-overwrite_end b.storage b.read_index n bytes (omega arith))

  pub extended_ends :
      (bytes : List ℕ)
      → b.write_index + length bytes ≤ length b.storage
      → ((extended bytes).write_index ≡ b.write_index + length bytes)
        × (length (extended bytes).storage ≡ length b.storage)
  extended_ends bytes fits =
      (omega (arith, v.small), length-overwrite b.storage b.write_index bytes fits)

  pub write_behind :
      (bytes : List ℕ)
      → b.write_index + length bytes ≤ length b.storage
      → (write_range b b.write_index bytes >>= λ w. some (has_written w (length bytes)))
        ≡ some (extended bytes)
  unfolding has_written
  write_behind bytes fits = rw (write_range-eq b b.write_index bytes fits)

  -- With room there, `append` touches no index but the write index.
  pub append_in_place :
      (bytes : List ℕ)
      → b.write_index + length bytes ≤ length b.storage
      → append b bytes ≡ some (extended bytes)
  unfolding append ensure_writeable_bytes
  append_in_place bytes fits =
      let enough : ltb (writeadble_bytes b) (length bytes) ≡ false =
        ground (arith, writeable-eq v) in
      rw enough (write_behind bytes fits)

-- `append` leaves the free bytes in front, or as many as in a new buffer.
pub append-front :
    {b : Buffer} (bytes : List ℕ)
    → IsValid b
    → b.write_index + length bytes ≤ max_size
    → (b' : Buffer) × (append b bytes ≡ some b')
      × Holds (contents b ++ bytes) b'
      × ((b'.read_index ≡ b.read_index) ⊎ (b'.read_index ≡ pre_append_size))
unfolding append
append-front {b} bytes v small =
    let (roomy, made, r) = ensure-Roomy v (length bytes) small in
    rw made (
      extended r.valid bytes,
      write_behind r.valid bytes r.fits,
      (rw (← r.same) (extended-Holds r.valid bytes r.fits)),
      r.front,
    )

-- `append` puts the bytes behind the contents, whether it has to slide them, to grow, or neither.
pub append-Returns :
    {b : Buffer} (bytes : List ℕ)
    → IsValid b
    → b.write_index + length bytes ≤ max_size
    → Returns (contents b ++ bytes) (append b bytes)
append-Returns {b} bytes v small =
    let (b', done, held, front) = append-front bytes v small in (b', done, held)

-- `prepend` puts the bytes before the contents, if there are as many free bytes before them.
pub prepend-Returns :
    {b : Buffer} (bytes : List ℕ)
    → IsValid b
    → length bytes ≤ b.read_index
    → Returns (bytes ++ contents b) (prepend b bytes)
unfolding prepend
prepend-Returns {b} bytes v h =
    rw (starts, write_range-eq (record b { read_index = start }) start bytes (omega arith))
      (
        record b { storage = overwrite b.storage start bytes; read_index = start },
        refl,
        record {
          valid = record {
            ordered = omega arith;
            inside = omega (arith, size_kept);
            small = omega (arith, size_kept, v.small);
            room = omega (arith, size_kept, v.room);
          };
          held = rw count same;
        },
      )
  where
    start : ℕ
    start = b.read_index - length bytes

    n : ℕ
    n = b.write_index - b.read_index

    starts : sub_size b.read_index (length bytes) ≡ start
    starts = omega (arith, v.ordered, v.inside, v.small)

    size_kept : length (overwrite b.storage start bytes) ≡ length b.storage
    size_kept = length-overwrite b.storage start bytes (omega arith)

    count : b.write_index - start ≡ length bytes + n
    count = omega arith

    read_at : start + length bytes ≡ b.read_index
    read_at = omega arith

    same : slice start (length bytes + n) (overwrite b.storage start bytes) ≡ bytes ++ contents b
    same =
        slice-split (overwrite b.storage start bytes) start (length bytes) n
          (omega (arith, size_kept))
        ∙ ap₂ ◌++◌ (slice-overwrite b.storage start bytes (omega arith)) (
            ap (take n) (
              drop-overwrite b.storage start bytes (omega arith)
              ∙ ap (λ k. drop k b.storage) read_at))

-- With too few free bytes in front, the index wraps and the write is out of the vector.
pub prepend_fault :
    {b : Buffer} (bytes : List ℕ)
    → IsValid b
    → length bytes ≤ max_size
    → b.read_index < length bytes
    → prepend b bytes ≡ none
unfolding prepend write_range
prepend_fault {b} bytes v small h = rw (lt→leb _ (length b.storage) past)
  where
    past : length b.storage < sub_size b.read_index (length bytes) + length bytes
    past = omega (arith, v.small)
