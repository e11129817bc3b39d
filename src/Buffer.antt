-- ===== src/Buffer.antt =====
-- suduo/net/Buffer.h: a vector of bytes with a read and a write index. A pointer into the vector
-- is the index of its byte. `none` is undefined behaviour or an exception of the vector.
pub mod Space
pub mod Contents
pub mod Append
pub mod Shrink
pub mod Search
pub mod Ints
pub mod ReadFd
mod Examples
use suduo.Prelude.{
  ℕ, ◌+◌, ◌-◌, Bool, ◌||◌, Option, none, some, List, ◌++◌, if◌then◌else◌, ltb, leb, length, take,
  replicate, slice, overwrite, ◌>>=◌, ◌>>◌, require, add_size, sub_size, max_size,
}

abbrev pub init_size : ℕ
init_size = 1024

abbrev pub pre_append_size : ℕ
pre_append_size = 8

pub record Buffer : Type 0 where
  pub storage : List ℕ
  pub read_index : ℕ
  pub write_index : ℕ

-- The constructor ignores its argument: every buffer begins with `init_size` bytes.
unfoldable pub new : ℕ → Buffer
new size = record {
  storage = replicate (pre_append_size + init_size) 0;
  read_index = pre_append_size;
  write_index = pre_append_size;
}

unfoldable pub readable_bytes : Buffer → ℕ
readable_bytes b = sub_size b.write_index b.read_index

unfoldable pub writeadble_bytes : Buffer → ℕ
writeadble_bytes b = sub_size (length b.storage) b.write_index

unfoldable pub pre_append_bytes : Buffer → ℕ
pre_append_bytes b = b.read_index

-- The bytes [i, i + n) of the vector, read through a pointer.
unfoldable pub read_range : Buffer → ℕ → ℕ → Option (List ℕ)
read_range b i n = require (leb (i + n) (length b.storage)) >> some (slice i n b.storage)

-- `std::copy` into the vector at index `i`.
unfoldable pub write_range : Buffer → ℕ → List ℕ → Option Buffer
write_range b i bytes =
    require (leb (i + length bytes) (length b.storage))
    >> some (record b { storage = overwrite b.storage i bytes })

-- `std::copy` inside the vector: the target does not begin in the source range.
unfoldable pub copy_within : Buffer → ℕ → ℕ → ℕ → Option Buffer
unfolding read_range write_range
copy_within b first last target = do
  require (leb first last)
  require (ltb target first || leb last target)
  bytes ← read_range b first (last - first)
  write_range b target bytes

-- `std::vector::resize`, which throws above `max_size`; new bytes are 0.
unfoldable pub resize : Buffer → ℕ → Option Buffer
resize b n =
    require (leb n max_size)
    >> some (record b { storage = take n b.storage ++ replicate (n - length b.storage) 0 })

unfoldable pub retrieve_all : Buffer → Buffer
retrieve_all b = record b { read_index = pre_append_size; write_index = pre_append_size }

unfoldable pub retrieve : Buffer → ℕ → Buffer
unfolding readable_bytes retrieve_all
retrieve b len =
    if ltb len (readable_bytes b)
    then record b { read_index = add_size b.read_index len }
    else retrieve_all b

-- `end` is the index of the byte that the pointer points at.
unfoldable pub retrieve_until : Buffer → ℕ → Buffer
unfolding retrieve
retrieve_until b end = retrieve b (sub_size end b.read_index)

unfoldable pub retrieve_as_string : Buffer → ℕ → Option (List ℕ × Buffer)
unfolding read_range retrieve
retrieve_as_string b len = do result ← read_range b b.read_index len; some (result, retrieve b len)

unfoldable pub retrieve_all_as_string : Buffer → Option (List ℕ × Buffer)
unfolding retrieve_as_string readable_bytes
retrieve_all_as_string b = retrieve_as_string b (readable_bytes b)

unfoldable pub to_string : Buffer → Option (List ℕ)
unfolding read_range readable_bytes
to_string b = read_range b b.read_index (readable_bytes b)

-- The readable bytes move down to `pre_append_size`.
unfoldable pub move_down : Buffer → Option Buffer
unfolding copy_within readable_bytes
move_down b = do
  moved ← copy_within b b.read_index b.write_index pre_append_size
  some (record moved {
    read_index = pre_append_size;
    write_index = add_size pre_append_size (readable_bytes b);
  })

unfoldable pub make_space : Buffer → ℕ → Option Buffer
unfolding writeadble_bytes pre_append_bytes resize move_down
make_space b len =
    if ltb (add_size (writeadble_bytes b) (pre_append_bytes b)) (add_size len pre_append_size)
    then resize b (add_size b.write_index len)
    else move_down b

unfoldable pub ensure_writeable_bytes : Buffer → ℕ → Option Buffer
unfolding make_space writeadble_bytes
ensure_writeable_bytes b len = if ltb (writeadble_bytes b) len then make_space b len else some b

unfoldable pub has_written : Buffer → ℕ → Buffer
has_written b len = record b { write_index = add_size b.write_index len }

unfoldable pub unwrite : Buffer → ℕ → Buffer
unwrite b len = record b { write_index = sub_size b.write_index len }

unfoldable pub append : Buffer → List ℕ → Option Buffer
unfolding ensure_writeable_bytes write_range has_written
append b bytes = do
  roomy ← ensure_writeable_bytes b (length bytes)
  written ← write_range roomy roomy.write_index bytes
  some (has_written written (length bytes))

unfoldable pub prepend : Buffer → List ℕ → Option Buffer
unfolding write_range
prepend b bytes =
    let start = sub_size b.read_index (length bytes) in
    write_range (record b { read_index = start }) start bytes

-- `swap(other)` leaves the new buffer in place of the old one.
unfoldable pub shrink : Buffer → ℕ → Option Buffer
unfolding new ensure_writeable_bytes readable_bytes to_string append
shrink b reserve = do
  other ← ensure_writeable_bytes (new init_size) (add_size (readable_bytes b) reserve)
  bytes ← to_string b
  append other bytes
