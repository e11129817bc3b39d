-- ===== src/AsyncLogger.antt =====
-- suduo/base/AsyncLogger.h and AsyncLogger.cpp, with StreamBuffer of LogStream.h: threads append logs
-- to a buffer, and a thread of the logger writes full buffers to the file. A section under the mutex
-- is one step, and so is the logger's part between two of them. `none` is the use of a null pointer or
-- of the last element of an empty vector. The file is the list of bytes that it was given.
pub mod Logs
mod Examples
use suduo.Prelude.{
  ℕ, ◌+◌, ◌-◌, Bool, true, false, ◌||◌, Option, none, some, List, [], ◌∷◌, ◌++◌, if◌then◌else◌, ltb,
  leb, length, take, ◌>>=◌, ◌>>◌, require,
}

pub record AsyncLogger : Type 0 where
  -- the size of a buffer
  pub size : ℕ
  pub current_buffer : List ℕ
  -- whether there is a `_next_buffer`, which is empty, and the two spare ones of the logger's thread
  pub next_buffer : Bool
  pub new_buffer_1 : Bool
  pub new_buffer_2 : Bool
  pub buffer_poll : List (List ℕ)
  pub buffer_to_write : List (List ℕ)
  pub file : List ℕ
  -- the logs that a buffer can hold, in order, and whether buffers were dropped
  pub accepted : List ℕ
  pub dropped : Bool

pub data Event : Type 0 where
  appends : List ℕ → Event
  swaps : Event
  -- with the text of the message on dropped buffers
  writes : List ℕ → Event

unfoldable pub new : ℕ → AsyncLogger
new size = record {
  size = size;
  current_buffer = [];
  next_buffer = true;
  new_buffer_1 = true;
  new_buffer_2 = true;
  buffer_poll = [];
  buffer_to_write = [];
  file = [];
  accepted = [];
  dropped = false;
}

-- `StreamBuffer::append`: nothing if the log does not fit.
abbrev pub put : ℕ → List ℕ → List ℕ → List ℕ
put size buffer log = if ltb (length log) (size - length buffer) then buffer ++ log else buffer

unfoldable pub append : AsyncLogger → List ℕ → AsyncLogger
append l log =
    let fits = ltb (length log) (l.size - length l.current_buffer) in
    record l {
      buffer_poll = if fits then l.buffer_poll else l.buffer_poll ++ l.current_buffer ∷ [];
      next_buffer = if fits then l.next_buffer else false;
      current_buffer = if fits then l.current_buffer ++ log else put l.size [] log;
      accepted = if ltb (length log) l.size then l.accepted ++ log else l.accepted;
    }

-- The section under the mutex: all buffers are taken, and the spare ones take their places.
unfoldable pub swap : AsyncLogger → Option AsyncLogger
swap l = do
  require l.new_buffer_1
  some (record l {
    buffer_to_write = l.buffer_poll ++ l.current_buffer ∷ [];
    buffer_poll = [];
    current_buffer = [];
    new_buffer_1 = false;
    next_buffer = l.next_buffer || l.new_buffer_2;
    new_buffer_2 = if l.next_buffer then l.new_buffer_2 else false;
  })

abbrev pub join : List (List ℕ) → List ℕ
join [] = []
join (b ∷ bs) = b ++ join bs

-- How many buffers are left to refill the spare ones.
abbrev pub spare : List (List ℕ) → ℕ
spare bs = length (take 2 bs)

-- The rest of the round: more than 25 buffers are dropped but for two, and two are kept as spares.
unfoldable pub write : AsyncLogger → List ℕ → Option AsyncLogger
write l message =
    let many = ltb 25 (length l.buffer_to_write) in
    let wanted = (if l.new_buffer_1 then 0 else 1) + (if l.new_buffer_2 then 0 else 1) in
    (do
      require (leb wanted (spare l.buffer_to_write))
      some (record l {
        file =
            if many
            then l.file ++ (message ++ join (take 2 l.buffer_to_write))
            else l.file ++ join l.buffer_to_write;
        dropped = l.dropped || many;
        buffer_to_write = [];
        new_buffer_1 = true;
        new_buffer_2 = true;
      }))

-- The logger's thread swaps and writes in turn.
unfoldable pub turn_swap : AsyncLogger → List (List ℕ) → Option AsyncLogger
turn_swap l [] = swap l
turn_swap l (b ∷ bs) = some l

unfoldable pub turn_write : AsyncLogger → List ℕ → List (List ℕ) → Option AsyncLogger
turn_write l message [] = some l
turn_write l message (b ∷ bs) = write l message

unfoldable pub step : AsyncLogger → Event → Option AsyncLogger
step l (appends log) = some (append l log)
step l swaps = turn_swap l l.buffer_to_write
step l (writes message) = turn_write l message l.buffer_to_write

unfoldable pub run : AsyncLogger → List Event → Option AsyncLogger
run l [] = some l
run l (e ∷ es) = step l e >>= λ l'. run l' es
