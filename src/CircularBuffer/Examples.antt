-- ===== src/CircularBuffer/Examples.antt =====
-- The theorems on circular buffers at concrete inputs, and runs of the code.
use mathlib.Core.Option
use suduo.Prelude.{ℕ, ◌<◌, ◌≡◌, refl, ◌⊎◌, inl, inr, some, [], ◌∷◌, arith, length}
use suduo.CircularBuffer.{CircularBuffer, new, push, pop, capacity}
use suduo.CircularBuffer.Contents.{IsValid, contents, push-cases, pop-oldest}

-- Two values that go round the end of three cells.
abbrev round : CircularBuffer ℕ
round = record { cells = 9 ∷ 7 ∷ 8 ∷ []; begin = 2; end = 1; size = 2 }

round-IsValid : IsValid round
round-IsValid = record {
  small = omega arith;
  filled = omega arith;
  begin_in = inl (omega arith);
  end_at = inr (omega arith, refl);
}

contents-round : contents round ≡ 8 ∷ 9 ∷ []
contents-round = refl

push-cases_example :
    ((length (contents round) ≡ 3) × (push round 5 ≡ some round))
    ⊎ ((length (contents round) < 3)
        × ((c : CircularBuffer ℕ) × (push round 5 ≡ some c)
            × IsValid c
            × (contents c ≡ 8 ∷ 9 ∷ 5 ∷ [])
            × (length c.cells ≡ 3)))
push-cases_example = push-cases 5 round-IsValid

pop-oldest_example :
    (c : CircularBuffer ℕ) × (pop round ≡ some (8, c))
    × IsValid c
    × (contents c ≡ 9 ∷ [])
    × (length c.cells ≡ 3)
pop-oldest_example = pop-oldest 8 (9 ∷ []) round-IsValid refl

capacity-round : capacity round ≡ 1
unfolding capacity
capacity-round = refl

-- A pop of an empty buffer hands out a stale value and makes the size -1.
pop-empty : Option.map (λ r. r.1.size) (pop {A = ℕ} (new 7 3)) ≡ some 4294967295
unfolding pop new
pop-empty = refl
