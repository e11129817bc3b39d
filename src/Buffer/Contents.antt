-- ===== src/Buffer/Contents.antt =====
-- A buffer seen as the bytes that it holds: what each operation does to them.
use suduo.Prelude.{
  ℕ, ◌+◌, ◌-◌, ◌≤◌, ◌<◌, ◌≡◌, refl, sym, ap, ◌∙◌, Option, some, List, [], inl, inr, arith, ltb,
  take, drop, slice, sub_size, add_size, Bool-cases, ltb→lt, length-replicate, take-drop, drop-drop,
  drop_of_le, take_of_le, take-take,
}
use suduo.Buffer.{
  Buffer, init_size, pre_append_size, new, readable_bytes, retrieve_all, retrieve,
  retrieve_as_string, retrieve_all_as_string, to_string, unwrite,
}
use suduo.Buffer.Space.{IsValid, contents, readable-eq, length-contents, read_range-eq}

-- A new buffer is valid and empty, whatever size was asked for.
pub new_lem : (size : ℕ) → IsValid (new size) × (contents (new size) ≡ [])
unfolding new
new_lem size = (
  record {
    ordered = omega arith;
    inside = omega (arith, length-replicate {A = ℕ} (pre_append_size + init_size) 0);
    small = omega (arith, length-replicate {A = ℕ} (pre_append_size + init_size) 0);
    room = omega (arith, length-replicate {A = ℕ} (pre_append_size + init_size) 0);
  },
  refl,
)

-- After an operation that ends well: the new buffer is valid and holds `bytes`.
pub record Holds (bytes : List ℕ) (b : Buffer) : Type 0 where
  pub valid : IsValid b
  pub held : contents b ≡ bytes

abbrev pub Returns : List ℕ → Option Buffer → Type 0
Returns bytes r = (b : Buffer) × (r ≡ some b) × Holds bytes b

module _ {b : Buffer} (v : IsValid b) where
  pub retrieve_all-Holds : Holds [] (retrieve_all b)
  unfolding retrieve_all
  retrieve_all-Holds = record {
    valid = record {
      ordered = omega arith;
      inside = omega (arith, v.room);
      small = v.small;
      room = v.room;
    };
    held = refl;
  }

  partly :
      (n : ℕ)
      → n < b.write_index - b.read_index
      → Holds (drop n (contents b)) (record b { read_index = add_size b.read_index n })
  partly n h = rw moves (record {
    valid = record { ordered = omega arith; inside = v.inside; small = v.small; room = v.room };
    held = sym same;
  })
    where
      moves : add_size b.read_index n ≡ b.read_index + n
      moves = omega (arith, v.ordered, v.inside, v.small)

      rest : b.write_index - b.read_index ≡ n + (b.write_index - (b.read_index + n))
      rest = omega arith

      same :
          drop n (contents b)
          ≡ slice (b.read_index + n) (b.write_index - (b.read_index + n)) b.storage
      same =
          ap (λ k. drop n (take k (drop b.read_index b.storage))) rest
          ∙ take-drop n (b.write_index - (b.read_index + n)) (drop b.read_index b.storage)
          ∙ ap (take (b.write_index - (b.read_index + n))) (drop-drop n b.read_index b.storage)

  -- `retrieve` drops bytes at the front; more than there are empties the buffer.
  pub retrieve-Holds : (n : ℕ) → Holds (drop n (contents b)) (retrieve b n)
  unfolding retrieve
  retrieve-Holds n = elim (Bool-cases (ltb n (readable_bytes b))) [
    | inl some_left ↦ rw some_left (partly n (omega (arith, ltb→lt _ _ some_left, readable-eq v)))
    | inr none_left ↦
        rw (none_left, drop_of_le n (contents b) (ground (arith, readable-eq v, length-contents v)))
          retrieve_all-Holds
  ]

  pub to_string-eq : to_string b ≡ some (contents b)
  unfolding to_string
  to_string-eq =
      rw (readable-eq v) (read_range-eq b b.read_index (b.write_index - b.read_index) (omega arith))

  -- A prefix is handed out and dropped.
  pub retrieve_as_string-eq :
      (n : ℕ)
      → n ≤ readable_bytes b
      → retrieve_as_string b n ≡ some (take n (contents b), retrieve b n)
  unfolding retrieve_as_string
  retrieve_as_string-eq n h =
      let few : n ≤ b.write_index - b.read_index = omega (arith, readable-eq v) in
      rw (
        read_range-eq b b.read_index n (omega arith),
        take-take n (b.write_index - b.read_index) (drop b.read_index b.storage) few,
      )

  pub retrieve_all_as_string-eq :
      retrieve_all_as_string b ≡ some (contents b, retrieve b (readable_bytes b))
  unfolding retrieve_all_as_string
  retrieve_all_as_string-eq =
      retrieve_as_string-eq (readable_bytes b) (omega arith)
      ∙ ap (λ s. some (s, retrieve b (readable_bytes b)))
          (take_of_le (readable_bytes b) (contents b)
            (omega (arith, readable-eq v, length-contents v)))

  -- `unwrite` drops bytes at the end.
  pub unwrite-Holds :
      (n : ℕ)
      → n ≤ readable_bytes b
      → Holds (take (readable_bytes b - n) (contents b)) (unwrite b n)
  unfolding unwrite
  unwrite-Holds n h =
      rw (back, readable-eq v)
        (record {
          valid = record {
            ordered = omega (arith, readable-eq v);
            inside = omega (arith, v.inside);
            small = v.small;
            room = v.room;
          };
          held = same;
        })
    where
      back : sub_size b.write_index n ≡ b.write_index - n
      back = omega (arith, readable-eq v, v.inside, v.small)

      count : b.write_index - n - b.read_index ≡ b.write_index - b.read_index - n
      count = omega arith

      same :
          slice b.read_index (b.write_index - n - b.read_index) b.storage
          ≡ take (b.write_index - b.read_index - n) (contents b)
      same = rw count (
          sym (
            take-take (b.write_index - b.read_index - n) (b.write_index - b.read_index)
              (drop b.read_index b.storage) (omega arith)))
