-- ===== src/CircularBuffer/Contents.antt =====
-- A circular buffer seen as a queue of at most as many values as the vector has cells.
use suduo.Prelude.{
  ℕ, suc, ◌+◌, ◌^◌, ◌≤◌, ◌<◌, ◌≡◌, refl, sym, ap, ◌∙◌, ◌⊎◌, inl, inr, true, false, some, List, [],
  ◌∷◌, ◌++◌, arith, if◌then◌else◌, leb, ◌==◌, length, get_elem?, set, slice, length-append,
  length-set, length-replicate, length-slice, dec_lt, lt→ltb,
}
use suduo.CircularBuffer.{CircularBuffer, increment, decrement, to_size, new, full, wrap, push, pop}
use suduo.CircularBuffer.Laps.{write_before, write_after, read_begin}

module _ {ℓ} {A : Type ℓ} where
  pub record IsValid (c : CircularBuffer A) : Type 0 where
    pub small : length c.cells < 2 ^ 31
    pub filled : c.size ≤ length c.cells
    pub begin_in : (c.begin < length c.cells) ⊎ (c.begin ≡ 0)
    pub end_at :
        ((c.begin + c.size < length c.cells) × (c.end ≡ c.begin + c.size))
        ⊎ ((length c.cells ≤ c.begin + c.size) × (c.end + length c.cells ≡ c.begin + c.size))

  -- The values from `begin` on, oldest first; the vector is read twice so that the range goes
  -- round its end.
  abbrev pub contents : CircularBuffer A → List A
  contents c = slice c.begin c.size (c.cells ++ c.cells)

  pub length-contents : {c : CircularBuffer A} → IsValid c → length (contents c) ≡ c.size
  length-contents {c} v = elim v.begin_in [
    | inl h ↦
        length-slice c.begin c.size (c.cells ++ c.cells)
          (omega (arith, length-append c.cells c.cells, v.filled))
    | inr h ↦
        length-slice c.begin c.size (c.cells ++ c.cells)
          (omega (arith, length-append c.cells c.cells, v.filled))
  ]

  -- What a write at `end` does to the contents.
  write_end :
      {c : CircularBuffer A} (x : A)
      → IsValid c
      → c.size < length c.cells
      → slice c.begin (c.size + 1) (set c.cells c.end x ++ set c.cells c.end x)
        ≡ contents c ++ x ∷ []
  write_end {c} x v room = elim v.end_at [
    | inl (h, e) ↦ rw e (write_before c.cells c.begin c.size x h)
    | inr (h, e) ↦ write_after c.cells c.begin c.end c.size x (omega (arith, v.begin_in)) room e
  ]

  end_in : {c : CircularBuffer A} → IsValid c → c.size < length c.cells → c.end < length c.cells
  end_in v room = omega (arith, v.begin_in, v.end_at)

  pushed : CircularBuffer A → A → CircularBuffer A
  pushed c x = record c {
    cells = set c.cells c.end x;
    end = if leb (length c.cells) (c.end + 1) then 0 else c.end + 1;
    size = c.size + 1;
  }

  pushed-IsValid :
      {c : CircularBuffer A} (x : A) → IsValid c → c.size < length c.cells → IsValid (pushed c x)
  unfolding pushed
  pushed-IsValid {c} x v room = record {
    small = omega (arith, v.small, same);
    filled = omega (arith, same);
    begin_in = omega (arith, same, v.begin_in);
    end_at = ground (arith, same, v.end_at, v.begin_in);
  }
    where
      same : length (set c.cells c.end x) ≡ length c.cells
      same = length-set c.cells c.end x

  push-eq :
      {c : CircularBuffer A} (x : A)
      → IsValid c
      → c.size < length c.cells
      → push c x ≡ some (pushed c x)
  unfolding push full wrap pushed
  push-eq {c} x v room = rw (
    index c.size (omega (arith, v.small)),
    not_full,
    index c.end (omega (arith, inside, v.small)),
    lt→ltb c.end (length c.cells) inside,
    step c.end (omega (arith, inside, v.small)),
    step c.size (omega (arith, v.small)),
    index (c.end + 1) (omega (arith, inside, v.small)),
  )
    where
      inside : c.end < length c.cells
      inside = end_in v room

      index : (n : ℕ) → n < 2 ^ 31 → to_size n ≡ n
      index n h = ground arith

      step : (n : ℕ) → n + 1 < 2 ^ 32 → increment n ≡ n + 1
      step n h = omega arith

      not_full : (c.size == length c.cells) ≡ false
      not_full = ground arith

  pub new-IsValid : (blank : A) (n : ℕ) → n < 2 ^ 31 → IsValid (new blank n)
  unfolding new
  new-IsValid blank n h = record {
    small = omega (arith, length-replicate n blank);
    filled = omega arith;
    begin_in = inr refl;
    end_at = ground (arith, length-replicate n blank);
  }

  pub full-eq : {c : CircularBuffer A} → IsValid c → full c ≡ (c.size == length c.cells)
  unfolding full
  full-eq v = ground (arith, v.small, v.filled)

  -- `push` drops the value when the buffer is full, and otherwise puts it behind the others.
  pub push-cases :
      {c : CircularBuffer A} (x : A)
      → IsValid c
      → ((length (contents c) ≡ length c.cells) × (push c x ≡ some c))
        ⊎ ((length (contents c) < length c.cells)
            × ((c' : CircularBuffer A) × (push c x ≡ some c')
                × IsValid c'
                × (contents c' ≡ contents c ++ x ∷ [])
                × (length c'.cells ≡ length c.cells)))
  unfolding push pushed
  push-cases {c} x v = elim (dec_lt c.size (length c.cells)) [
    | yes room ↦ inr (
      omega (arith, length-contents v),
      (
        pushed c x,
        push-eq x v room,
        pushed-IsValid x v room,
        write_end x v room,
        length-set c.cells c.end x,
      ),
    )
    | no over ↦
        let at_end : (c.size == length c.cells) ≡ true = ground (arith, v.filled) in
        inl (omega (arith, length-contents v, v.filled), rw (full-eq v, at_end))
  ]

  popped : CircularBuffer A → ℕ → CircularBuffer A
  popped c n = record c {
    begin = if leb (length c.cells) (c.begin + 1) then 0 else c.begin + 1;
    size = n;
  }

  popped-IsValid :
      {c : CircularBuffer A} (n : ℕ) → IsValid c → c.size ≡ suc n → IsValid (popped c n)
  unfolding popped
  popped-IsValid {c} n v e = record {
    small = v.small;
    filled = omega (arith, v.filled);
    begin_in = ground (arith, v.begin_in, v.filled);
    end_at = ground (arith, v.begin_in, v.filled, v.end_at);
  }

  pop-eq :
      {c : CircularBuffer A} (n : ℕ) {x : A}
      → IsValid c
      → c.size ≡ suc n
      → get_elem? c.cells c.begin ≡ some x
      → pop c ≡ some (x, popped c n)
  unfolding pop wrap popped
  pop-eq {c} n {x} v e at = rw (
    index c.begin (omega (arith, inside, v.small)),
    at,
    up,
    index (c.begin + 1) (omega (arith, inside, v.small)),
    down,
  )
    where
      inside : c.begin < length c.cells
      inside = omega (arith, v.begin_in, v.filled)

      index : (k : ℕ) → k < 2 ^ 31 → to_size k ≡ k
      index k h = ground arith

      up : increment c.begin ≡ c.begin + 1
      up = omega (arith, inside, v.small)

      down : decrement c.size ≡ n
      down = omega (arith, v.filled, v.small)

  -- `pop` takes the oldest value, where there is one.
  pub pop-oldest :
      {c : CircularBuffer A} (x : A) (xs : List A)
      → IsValid c
      → contents c ≡ x ∷ xs
      → (c' : CircularBuffer A) × (pop c ≡ some (x, c'))
        × IsValid c'
        × (contents c' ≡ xs)
        × (length c'.cells ≡ length c.cells)
  pop-oldest {c} x xs v held =
      let (y, at, split) = read_begin c.cells c.begin n inside (omega (arith, count, v.filled)) in
      let both : x ∷ xs ≡ y ∷ contents (popped c n) =
        sym held ∙ ap (λ k. slice c.begin k (c.cells ++ c.cells)) count ∙ unfold popped in split in
      let same : y ≡ x = cc in
      let rest : contents (popped c n) ≡ xs = cc in
      (popped c n, pop-eq n v count (at ∙ ap some same), popped-IsValid n v count, rest, kept)
    where
      n : ℕ
      n = length xs

      count : c.size ≡ suc n
      count = omega (arith, length-contents v, ap length held)

      inside : c.begin < length c.cells
      inside = omega (arith, count, v.begin_in, v.filled)

      kept : length (popped c n).cells ≡ length c.cells
      kept = unfold popped in refl
