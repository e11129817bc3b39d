-- ===== src/Buffer/Examples.antt =====
-- The theorems on buffers at concrete inputs, and runs of the code.
use mathlib.Core.Option
use suduo.Prelude.{
  ℕ, ◌+◌, ◌-◌, ◌≤◌, ◌≡◌, refl, ◌⊎◌, none, some, [], ◌∷◌, ◌++◌, arith, take, drop, replicate,
}
use suduo.Buffer.{
  Buffer, new, writeadble_bytes, readable_bytes, retrieve, retrieve_as_string, unwrite, append,
  prepend, shrink, ensure_writeable_bytes,
}
use suduo.Buffer.Space.{IsValid, contents, Roomy, ensure-Roomy}
use suduo.Buffer.Contents.{
  Holds, Returns, new_lem, retrieve-Holds, retrieve_as_string-eq, unwrite-Holds,
}
use suduo.Buffer.Append.{append-Returns, prepend-Returns, prepend_fault}
use suduo.Buffer.Shrink.{shrink_lem}
use suduo.Buffer.Search.{find_crlf, starts_crlf, IsFirst, Misses, find_crlf-cases}
use suduo.Buffer.ReadFd.{read_fd, received, count, read_fd-received}
use suduo.Buffer.Ints.{little, big, int_32, append_int, read_int, be_bytes}
use suduo.Buffer.Ints.Wire.{append_int-Returns, read_int-append_int}

-- "A\r\n" in a buffer of the first size.
abbrev line : Buffer
line = record {
  storage = replicate 8 0 ++ (65 ∷ 13 ∷ 10 ∷ replicate 1021 0);
  read_index = 8;
  write_index = 11;
}

line-IsValid : IsValid line
line-IsValid = record {
  ordered = omega arith;
  inside = omega arith;
  small = omega arith;
  room = omega arith;
}

-- The bytes move over when the vector is too short behind them.
abbrev late : Buffer
late = record line { read_index = 1000; write_index = 1010 }

late-IsValid : IsValid late
late-IsValid = record {
  ordered = omega arith;
  inside = omega arith;
  small = omega arith;
  room = omega arith;
}

late_slides : Option.map (λ b. b.write_index) (ensure_writeable_bytes late 100) ≡ some 18
unfolding ensure_writeable_bytes
late_slides = refl

ensure-Roomy_example :
    (b' : Buffer) × (ensure_writeable_bytes late 100 ≡ some b') × Roomy late 100 b'
ensure-Roomy_example = ensure-Roomy late-IsValid 100 (omega arith)

append-Returns_example : Returns (contents line ++ (66 ∷ [])) (append line (66 ∷ []))
append-Returns_example = append-Returns (66 ∷ []) line-IsValid (omega arith)

prepend-Returns_example : Returns ((1 ∷ 2 ∷ []) ++ contents line) (prepend line (1 ∷ 2 ∷ []))
prepend-Returns_example = prepend-Returns (1 ∷ 2 ∷ []) line-IsValid (omega arith)

prepend_fault_example : prepend line (replicate 9 0) ≡ none
prepend_fault_example = prepend_fault (replicate 9 0) line-IsValid (omega arith) (omega arith)

retrieve-Holds_example : Holds (drop 1 (contents line)) (retrieve line 1)
retrieve-Holds_example = retrieve-Holds line-IsValid 1

retrieve_as_string-eq_example : retrieve_as_string line 2 ≡ some (65 ∷ 13 ∷ [], retrieve line 2)
unfolding readable_bytes
retrieve_as_string-eq_example = retrieve_as_string-eq line-IsValid 2 (omega arith)

unwrite-Holds_example : Holds (take (readable_bytes line - 2) (contents line)) (unwrite line 2)
unfolding readable_bytes
unwrite-Holds_example = unwrite-Holds line-IsValid 2 (omega arith)

shrink_lem_example :
    (b' : Buffer) × (shrink line 7 ≡ some b') × Holds (contents line) b' × (7 ≤ writeadble_bytes b')
unfolding readable_bytes
shrink_lem_example = shrink_lem 7 line-IsValid (omega arith)

find_crlf-cases_example :
    ((find_crlf line ≡ some none) × Misses starts_crlf (contents line))
    ⊎ ((n : ℕ) × (find_crlf line ≡ some (some (8 + n))) × IsFirst starts_crlf (contents line) n)
find_crlf-cases_example = find_crlf-cases line-IsValid

find_crlf-line : find_crlf line ≡ some (some 9)
unfolding find_crlf
find_crlf-line = refl

read_fd-received_example :
    (b' : Buffer) × (read_fd line (received (7 ∷ 8 ∷ [])) ≡ some (b', count 2))
    × Holds (contents line ++ (7 ∷ 8 ∷ [])) b'
unfolding writeadble_bytes
read_fd-received_example = read_fd-received (7 ∷ 8 ∷ []) line-IsValid (omega arith) (omega arith)

append_int-Returns_example :
    Returns (contents line ++ be_bytes 4 258) (append_int little int_32 line 258)
append_int-Returns_example = append_int-Returns little int_32 258 line-IsValid (omega arith)

wire_258 : be_bytes 4 258 ≡ 0 ∷ 0 ∷ 1 ∷ 2 ∷ []
unfolding be_bytes
wire_258 = refl

read_int-append_int_example :
    (sent got : Buffer) × (append_int little int_32 (new 0) 258 ≡ some sent)
    × (read_int big int_32 sent ≡ some (258, got))
    × Holds [] got
unfolding new
read_int-append_int_example =
    read_int-append_int little big int_32 258 (new_lem 0).0 (new_lem 0).1 (omega arith)
      (omega arith)
