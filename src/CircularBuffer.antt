-- ===== src/CircularBuffer.antt =====
-- suduo/base/CircularBuffer.h: a circular queue in a vector of fixed size. An `int` is its 32-bit
-- pattern, and `none` is an access outside the vector.
mod Laps
pub mod Contents
mod Examples
use suduo.Prelude.{
  ℕ, ◌+◌, ◌-◌, ◌%◌, ◌^◌, Bool, Option, some, List, if◌then◌else◌, ltb, leb, ◌==◌, length, get_elem?,
  set, replicate, ◌>>=◌, ◌>>◌, require, sub_size,
}

pub record CircularBuffer {ℓ} (A : Type ℓ) : Type ℓ where
  pub cells : List A
  pub begin : ℕ
  pub end : ℕ
  pub size : ℕ

-- `++` and `--` on an `int`, and its conversion to `size_t`, which extends the sign.
abbrev pub increment : ℕ → ℕ
increment n = (n + 1) % 2 ^ 32

abbrev pub decrement : ℕ → ℕ
decrement n = (n + 2 ^ 32 - 1) % 2 ^ 32

abbrev pub to_size : ℕ → ℕ
to_size n = if ltb n (2 ^ 31) then n else n + (2 ^ 64 - 2 ^ 32)

module _ {ℓ} {A : Type ℓ} where
  -- `blank` is the value that the vector's elements begin with.
  unfoldable pub new : A → ℕ → CircularBuffer A
  new blank max_size = record { cells = replicate max_size blank; begin = 0; end = 0; size = 0 }

  unfoldable pub full : CircularBuffer A → Bool
  full c = to_size c.size == length c.cells

  unfoldable pub empty : CircularBuffer A → Bool
  empty c = c.size == 0

  -- The free cells, not the length of the vector.
  unfoldable pub capacity : CircularBuffer A → ℕ
  capacity c = sub_size (length c.cells) (to_size c.size) % 2 ^ 32

  -- An index that has just moved up goes back to the start at the end of the vector.
  unfoldable pub wrap : CircularBuffer A → ℕ → ℕ
  wrap c i = if leb (length c.cells) (to_size i) then 0 else i

  unfoldable pub push : CircularBuffer A → A → Option (CircularBuffer A)
  unfolding full wrap
  push c val = if full c then some c else (do
    require (ltb (to_size c.end) (length c.cells))
    some (record c {
      cells = set c.cells (to_size c.end) val;
      end = wrap c (increment c.end);
      size = increment c.size;
    }))

  -- No test for an empty buffer.
  unfoldable pub pop : CircularBuffer A → Option (A × CircularBuffer A)
  unfolding wrap
  pop c = do
    val ← get_elem? c.cells (to_size c.begin)
    some (val, record c { begin = wrap c (increment c.begin); size = decrement c.size })
