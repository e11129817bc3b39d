-- ===== src/Buffer/Space.antt =====
-- The invariant of a buffer, and how `ensure_writeable_bytes` makes room.
use suduo.Prelude.{
  ◌⊎◌, ℕ, ◌+◌, ◌-◌, ◌≤◌, ◌<◌, ◌≡◌, refl, inl, inr, some, List, ◌++◌, arith, ltb, length, take,
  replicate, slice, overwrite, add_size, max_size, Bool-cases, le→leb, lt→ltb, ltb→lt,
  length-append, length-take, length-replicate, length-slice, length-overwrite, slice-overwrite,
  slice-append, take_of_le,
}
use suduo.Buffer.{
  Buffer, init_size, pre_append_size, readable_bytes, writeadble_bytes, pre_append_bytes,
  read_range, write_range, copy_within, resize, move_down, make_space, ensure_writeable_bytes,
}

pub record IsValid (b : Buffer) : Type 0 where
  pub ordered : b.read_index ≤ b.write_index
  pub inside : b.write_index ≤ length b.storage
  pub small : length b.storage ≤ max_size
  pub room : pre_append_size + init_size ≤ length b.storage

-- What the buffer holds: the bytes between its indices.
abbrev pub contents : Buffer → List ℕ
contents b = slice b.read_index (b.write_index - b.read_index) b.storage

pub readable-eq : {b : Buffer} → IsValid b → readable_bytes b ≡ b.write_index - b.read_index
unfolding readable_bytes
readable-eq v = omega arith

pub writeable-eq : {b : Buffer} → IsValid b → writeadble_bytes b ≡ length b.storage - b.write_index
unfolding writeadble_bytes
writeable-eq v = omega arith

pub length-contents : {b : Buffer} → IsValid b → length (contents b) ≡ b.write_index - b.read_index
length-contents {b} v =
    length-slice b.read_index (b.write_index - b.read_index) b.storage (omega arith)

pub read_range-eq :
    (b : Buffer) (i n : ℕ)
    → i + n ≤ length b.storage
    → read_range b i n ≡ some (slice i n b.storage)
unfolding read_range
read_range-eq b i n h = rw (le→leb (i + n) (length b.storage) h)

pub write_range-eq :
    (b : Buffer) (i : ℕ) (bytes : List ℕ)
    → i + length bytes ≤ length b.storage
    → write_range b i bytes ≡ some (record b { storage = overwrite b.storage i bytes })
unfolding write_range
write_range-eq b i bytes h = rw (le→leb (i + length bytes) (length b.storage) h)

-- Room was made: the contents are the same, and `len` bytes fit behind them.
pub record Roomy (b : Buffer) (len : ℕ) (b' : Buffer) : Type 0 where
  pub valid : IsValid b'
  pub same : contents b' ≡ contents b
  pub fits : b'.write_index + len ≤ length b'.storage
  pub front : (b'.read_index ≡ b.read_index) ⊎ (b'.read_index ≡ pre_append_size)

module _ {b : Buffer} (v : IsValid b) where
  resize-Roomy :
      (len : ℕ)
      → length b.storage - b.write_index < len
      → b.write_index + len ≤ max_size
      → (b' : Buffer) × (resize b (b.write_index + len) ≡ some b') × Roomy b len b'
  unfolding resize
  resize-Roomy len few small = (
    grown,
    rw (le→leb (w + len) max_size small),
    record {
      valid = record {
        ordered = v.ordered;
        inside = omega (arith, longer);
        small = omega (arith, longer);
        room = omega (arith, v.room, longer);
      };
      same = kept;
      fits = omega (arith, longer);
      front = inl refl;
    },
  )
    where
      w : ℕ
      w = b.write_index

      zeros : List ℕ
      zeros = replicate (w + len - length b.storage) 0

      grown : Buffer
      grown = record b { storage = take (w + len) b.storage ++ zeros }

      longer : length grown.storage ≡ w + len
      longer = omega (
        arith,
        length-append (take (w + len) b.storage) zeros,
        length-take (w + len) b.storage,
        length-replicate {A = ℕ} (w + len - length b.storage) 0,
      )

      kept : contents grown ≡ contents b
      kept =
          rw (take_of_le (w + len) b.storage (omega arith))
            (slice-append b.storage zeros b.read_index (w - b.read_index) (omega arith))

  moved : Buffer
  moved = record b {
    storage = overwrite b.storage pre_append_size (contents b);
    read_index = pre_append_size;
    write_index = add_size pre_append_size (readable_bytes b);
  }

  -- `std::copy` is defined here, since the data moves down.
  move_down-eq : pre_append_size < b.read_index → move_down b ≡ some moved
  unfolding move_down copy_within moved
  move_down-eq above = rw (
    le→leb b.read_index b.write_index v.ordered,
    lt→ltb pre_append_size b.read_index above,
    read_range-eq b b.read_index (b.write_index - b.read_index) (omega arith),
    write_range-eq b pre_append_size (contents b) (omega (arith, length-contents v)),
  )

  move_down-Roomy :
      (len : ℕ)
      → pre_append_size < b.read_index
      → pre_append_size + (b.write_index - b.read_index) + len ≤ length b.storage
      → (b' : Buffer) × (move_down b ≡ some b') × Roomy b len b'
  unfolding moved
  move_down-Roomy len above enough = (
    moved,
    move_down-eq above,
    record {
      valid = record {
        ordered = omega (arith, at_end);
        inside = omega (arith, at_end, size_kept);
        small = omega (arith, size_kept, v.small);
        room = omega (arith, size_kept, v.room);
      };
      same = kept;
      fits = omega (arith, at_end, size_kept);
      front = inr refl;
    },
  )
    where
      at_end :
          add_size pre_append_size (readable_bytes b)
          ≡ pre_append_size + (b.write_index - b.read_index)
      at_end = omega (arith, readable-eq v)

      size_kept : length moved.storage ≡ length b.storage
      size_kept =
          length-overwrite b.storage pre_append_size (contents b) (omega (arith, length-contents v))

      count : moved.write_index - pre_append_size ≡ length (contents b)
      count = omega (arith, at_end, length-contents v)

      kept : contents moved ≡ contents b
      kept = rw count (
          slice-overwrite b.storage pre_append_size (contents b) (omega (arith, length-contents v)))

  make_space-Roomy :
      (len : ℕ)
      → length b.storage - b.write_index < len
      → b.write_index + len ≤ max_size
      → (b' : Buffer) × (make_space b len ≡ some b') × Roomy b len b'
  unfolding make_space pre_append_bytes
  make_space-Roomy len few small = elim (Bool-cases (ltb here wanted)) [
    | inl grow ↦ rw (grow, write_end) (resize-Roomy len few small)
    | inr slide ↦ rw slide (move_down-Roomy len (ground (arith, sizes)) (ground (arith, sizes)))
  ]
    where
      here : ℕ
      here = add_size (writeadble_bytes b) (pre_append_bytes b)

      wanted : ℕ
      wanted = add_size len pre_append_size

      sizes :
          (here ≡ length b.storage - b.write_index + b.read_index)
          × (wanted ≡ len + pre_append_size)
      sizes = (omega (arith, writeable-eq v), omega arith)

      write_end : add_size b.write_index len ≡ b.write_index + len
      write_end = omega arith

  -- Room for `len` bytes is there, or is made by sliding the contents down or by growing.
  pub ensure-Roomy :
      (len : ℕ)
      → b.write_index + len ≤ max_size
      → (b' : Buffer) × (ensure_writeable_bytes b len ≡ some b') × Roomy b len b'
  unfolding ensure_writeable_bytes
  ensure-Roomy len small = elim (Bool-cases (ltb (writeadble_bytes b) len)) [
    | inl few ↦ rw few (make_space-Roomy len (omega (arith, ltb→lt _ _ few, writeable-eq v)) small)
    | inr enough ↦ rw enough (
      b,
      refl,
      record { valid = v; same = refl; fits = ground (arith, writeable-eq v); front = inl refl },
    )
  ]
