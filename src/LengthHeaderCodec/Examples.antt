-- ===== src/LengthHeaderCodec/Examples.antt =====
-- The theorems on the codec at concrete streams.
use suduo.Prelude.{ℕ, ◌≡◌, refl, false, some, List, [], ◌∷◌, ◌++◌, arith, replicate}
use suduo.Buffer.{Buffer, append, readable_bytes, read_range}
use suduo.Buffer.Space.{IsValid, contents}
use suduo.Buffer.Contents.{Holds}
use suduo.Buffer.Ints.{
  little, big, le_bytes, be_bytes, peek_int, check_peek, from_memory, network_to_host, swap_bytes,
  le_value,
}
use suduo.LengthHeaderCodec.{Received, on_message, turn}
use suduo.LengthHeaderCodec.Splits.{on_message-split}
use suduo.LengthHeaderCodec.RoundTrip.{stream, send_all-stream, on_message-send_all}

-- "hi" and an empty message in a buffer.
abbrev two_messages : List (List ℕ)
two_messages = (104 ∷ 105 ∷ []) ∷ [] ∷ []

abbrev both : Buffer
both = record {
  storage = replicate 8 0 ++ (0 ∷ 0 ∷ 0 ∷ 2 ∷ 104 ∷ 105 ∷ 0 ∷ 0 ∷ 0 ∷ 0 ∷ replicate 1014 0);
  read_index = 8;
  write_index = 18;
}

-- The first 5 of these bytes.
abbrev cut : Buffer
cut = record both { write_index = 13 }

both-IsValid : IsValid both
both-IsValid = record {
  ordered = omega arith;
  inside = omega arith;
  small = omega arith;
  room = omega arith;
}

cut-IsValid : IsValid cut
cut-IsValid = record {
  ordered = omega arith;
  inside = omega arith;
  small = omega arith;
  room = omega arith;
}

both-held : contents both ≡ stream two_messages
unfolding be_bytes le_bytes
both-held = refl

on_message-send_all_example :
    (r : Received) × (on_message big 20 both ≡ some r)
    × (r.messages ≡ two_messages)
    × (r.shut_down ≡ false)
    × Holds [] r.left
unfolding be_bytes le_bytes
on_message-send_all_example =
    on_message-send_all little big 20 two_messages (stream two_messages)
      (omega arith, (omega arith, tt))
      (send_all-stream little two_messages (omega arith, (omega arith, tt))) both-IsValid both-held
      (omega arith)

first_waits :
    on_message little 20 cut ≡ some (record { messages = []; shut_down = false; left = cut })
unfolding on_message turn readable_bytes peek_int check_peek read_range from_memory network_to_host
    swap_bytes le_bytes le_value
first_waits = refl

on_message-split_example :
    (more : Buffer) × (r' w : Received) × (append cut (105 ∷ 0 ∷ 0 ∷ 0 ∷ 0 ∷ []) ≡ some more)
    × (on_message little 20 more ≡ some r')
    × (on_message little 20 both ≡ some w)
    × (w.messages ≡ [] ++ r'.messages)
    × (w.shut_down ≡ r'.shut_down)
on_message-split_example =
    on_message-split little 20 20 20 (105 ∷ 0 ∷ 0 ∷ 0 ∷ 0 ∷ [])
      (record { messages = []; shut_down = false; left = cut }) cut-IsValid both-IsValid refl
      (omega arith) (omega arith) (omega arith) first_waits refl (omega arith)
