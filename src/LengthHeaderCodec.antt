-- ===== src/LengthHeaderCodec.antt =====
-- suduo/bench/zeromq/codec.h: messages with their length in front, as 4 bytes. `none` is undefined
-- behaviour or that the fuel is used up.
pub mod Frames
mod Splits
mod RoundTrip
mod Examples
use suduo.Prelude.{
  ℕ, zero, suc, ◌%◌, ◌^◌, Bool, true, false, ◌||◌, Option, none, some, List, [], ◌∷◌, if◌then◌else◌,
  ltb, leb, length, ◌>>=◌, add_size,
}
use suduo.Buffer.{
  Buffer, init_size, new, readable_bytes, read_range, retrieve, retrieve_all_as_string, append,
}
use suduo.Buffer.Ints.{ByteOrder, int_32, peek_int, prepend_int}

abbrev pub header_len : ℕ
header_len = 4

-- What `onMessage` has done: the messages that the callback got, whether the connection was shut
-- down, and the buffer it leaves.
pub record Received : Type 0 where
  pub messages : List (List ℕ)
  pub shut_down : Bool
  pub left : Buffer

-- One round of the loop.
pub data Turn : Type 0 where
  wait : Turn
  invalid : Turn
  deliver : List ℕ → Buffer → Turn

-- The bit pattern of a length that is above 65536 or, as an `int32_t`, negative.
abbrev pub is_invalid : ℕ → Bool
is_invalid len = ltb 65536 len || leb (2 ^ 31) len

unfoldable pub take_message : Buffer → ℕ → Option Turn
take_message b len = do
  message ← read_range b b.read_index len
  some (deliver message (retrieve b len))

unfoldable pub turn : ByteOrder → Buffer → Option Turn
turn o b =
    if leb header_len (readable_bytes b)
    then (peek_int o int_32 b >>= λ len.
        if is_invalid len
        then some invalid
        else (if leb (add_size len header_len) (readable_bytes b)
            then take_message (retrieve b header_len) len
            else some wait))
    else some wait

abbrev pub follow : (Buffer → Option Received) → Buffer → Turn → Option Received
follow next b wait = some (record { messages = []; shut_down = false; left = b })
follow next b invalid = some (record { messages = []; shut_down = true; left = b })
follow next b (deliver message b') =
    next b' >>= λ r. some (record r { messages = message ∷ r.messages })

unfoldable pub on_message : ByteOrder → ℕ → Buffer → Option Received
on_message o zero b = none
on_message o (suc fuel) b = turn o b >>= follow (on_message o fuel) b

-- The bytes that `send` gives to the connection.
unfoldable pub send : ByteOrder → List ℕ → Option (List ℕ)
send o message = do
  b ← append (new init_size) message
  b' ← prepend_int o int_32 b (length message % 2 ^ 32)
  (bytes, b'') ← retrieve_all_as_string b'
  some bytes
