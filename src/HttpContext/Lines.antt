-- ===== src/HttpContext/Lines.antt =====
-- The first line of some bytes, and what `find_CRLF`, `peek` and `retrieve_until` make of it.
use suduo.Prelude.{
  ℕ, zero, suc, ◌+◌, ◌-◌, ◌<◌, ◌≡◌, refl, sym, ap, ◌∙◌, ◌⊎◌, inl, inr, Option, none, some, List, [],
  ◌∷◌, if◌then◌else◌, length, length-drop, take, drop, take-take, arith, subst, ◌>>=◌, sub_size,
  add_size,
}
use suduo.Buffer.{Buffer, read_range, retrieve_until, retrieve}
use suduo.Buffer.Space.{IsValid, contents, length-contents, read_range-eq}
use suduo.Buffer.Contents.{Holds, retrieve-Holds}
use suduo.Buffer.Search.{find_crlf, starts_crlf, IsFirst, Misses, find_crlf-cases}

-- The first line and what is behind its end.
abbrev pub split_line : List ℕ → Option (List ℕ × List ℕ)
split_line [] = none
split_line (x ∷ xs) =
    if starts_crlf (x ∷ xs)
    then some ([], drop 1 xs)
    else (split_line xs >>= λ r. some (x ∷ r.0, r.1))

split_line-Misses : (xs : List ℕ) → Misses starts_crlf xs → split_line xs ≡ none
split_line-Misses [] h = refl
split_line-Misses (x ∷ xs) h =
    rw (h 0 (omega arith), split_line-Misses xs (λ m lt. h (suc m) (omega arith))) refl

split_line-IsFirst :
    (xs : List ℕ) (n : ℕ)
    → IsFirst starts_crlf xs n
    → split_line xs ≡ some (take n xs, drop (n + 2) xs)
split_line-IsFirst [] n f = absurd (omega (arith, f.inside))
split_line-IsFirst (x ∷ xs) zero f = rw f.hit refl
split_line-IsFirst (x ∷ xs) (suc n) f =
    let e' : suc (n + 2) ≡ suc n + 2 = omega arith in
    rw
      (
        f.before 0 (omega arith),
        split_line-IsFirst xs n (record {
          inside = omega (arith, f.inside);
          hit = f.hit;
          before = λ m lt. f.before (suc m) (omega arith);
        }),
      )
      (ap (λ k. some (x ∷ take n xs, drop k (x ∷ xs))) e')

-- What the code reads as the next line of a buffer.
pub record NextLine (b : Buffer) (crlf : ℕ) (line rest : List ℕ) : Type 0 where
  pub found : find_crlf b ≡ some (some crlf)
  pub split : split_line (contents b) ≡ some (line, rest)
  pub read : read_range b b.read_index (sub_size crlf b.read_index) ≡ some line
  pub left : Holds rest (retrieve_until b (add_size crlf 2))
  pub shorter : length rest < length (contents b)

pub next_line :
    {b : Buffer}
    → IsValid b
    → ((find_crlf b ≡ some none) × (split_line (contents b) ≡ none))
      ⊎ ((crlf : ℕ) × (line rest : List ℕ) × NextLine b crlf line rest)
unfolding retrieve_until
next_line {b} v = elim (find_crlf-cases v) [
  | inl (missing, misses) ↦ inl (missing, split_line-Misses (contents b) misses)
  | inr (n, found, first) ↦
      let total = length-contents v in
      let len : sub_size (b.read_index + n) b.read_index ≡ n =
        omega (arith, v.ordered, v.inside, v.small, first.inside, total) in
      let all : sub_size (add_size (b.read_index + n) 2) b.read_index ≡ n + 2 =
        omega (arith, v.ordered, v.inside, v.small, first.inside, total) in
      inr (
        b.read_index + n,
        take n (contents b),
        drop (n + 2) (contents b),
        record {
          found = found;
          split = split_line-IsFirst (contents b) n first;
          read =
              ap (read_range b b.read_index) len
              ∙ read_range-eq b b.read_index n
                  (omega (arith, v.inside, v.ordered, first.inside, total))
              ∙ ap some (
                  sym (
                    take-take n (b.write_index - b.read_index) (drop b.read_index b.storage)
                      (omega (arith, first.inside, total))));
          left =
              subst (λ k. Holds (drop (n + 2) (contents b)) (retrieve b k)) (sym all)
                (retrieve-Holds v (n + 2));
          shorter = omega (arith, first.inside, length-drop (n + 2) (contents b));
        },
      )
]
