-- ===== src/Buffer/Search.antt =====
-- `find_CRLF` and `find_EOL` of suduo/net/Buffer.h: `std::search` and `std::find` over the readable
-- bytes. The outer `none` is a search that begins past the written bytes.
use native.Mathlib.Nat.{add-zero}
use suduo.Prelude.{
  take, slice, sym, take-drop, drop-drop, length-drop, ℕ, zero, suc, ◌+◌, ◌-◌, ◌≤◌, ◌<◌, ◌≡◌, refl,
  ap, ◌∙◌, ◌⊎◌, inl, inr, Bool, true, false, ◌&&◌, Option, none, some, List, [], ◌∷◌, arith,
  if◌then◌else◌, ◌==◌, length, drop, ◌>>=◌, sub_size, Bool-cases,
}
use suduo.Buffer.{Buffer, read_range}
use suduo.Buffer.Space.{IsValid, contents, length-contents, read_range-eq}

abbrev pub cr : ℕ
cr = 13

abbrev pub lf : ℕ
lf = 10

-- Where the first suffix that passes the test begins; the length if there is none.
unfoldable pub search_suffix : (List ℕ → Bool) → List ℕ → ℕ
search_suffix test [] = 0
search_suffix test (x ∷ xs) = if test (x ∷ xs) then 0 else suc (search_suffix test xs)

abbrev pub starts_crlf : List ℕ → Bool
starts_crlf [] = false
starts_crlf (x ∷ []) = false
starts_crlf (x ∷ y ∷ xs) = x == cr && y == lf

abbrev pub starts_with : ℕ → List ℕ → Bool
starts_with c [] = false
starts_with c (x ∷ xs) = x == c

-- `std::search(start, write_begin(), CRLF, CRLF + 2)` and `std::find(..., '\n')`, where the end of
-- the range stands for "not found" and becomes a null pointer.
unfoldable pub find_from : (List ℕ → Bool) → Buffer → ℕ → Option (Option ℕ)
unfolding search_suffix read_range
find_from test b start = do
  range ← read_range b start (sub_size b.write_index start)
  some (
      if start + search_suffix test range == b.write_index
      then none
      else some (start + search_suffix test range))

unfoldable pub find_crlf_from : Buffer → ℕ → Option (Option ℕ)
unfolding find_from
find_crlf_from b start = find_from starts_crlf b start

unfoldable pub find_crlf : Buffer → Option (Option ℕ)
unfolding find_crlf_from
find_crlf b = find_crlf_from b b.read_index

unfoldable pub find_eol_from : Buffer → ℕ → Option (Option ℕ)
unfolding find_from
find_eol_from b start = find_from (starts_with lf) b start

unfoldable pub find_eol : Buffer → Option (Option ℕ)
unfolding find_eol_from
find_eol b = find_eol_from b b.read_index

-- `n` is the first place of `xs` where the test passes.
pub record IsFirst (test : List ℕ → Bool) (xs : List ℕ) (n : ℕ) : Type 0 where
  pub inside : n < length xs
  pub hit : test (drop n xs) ≡ true
  pub before : (m : ℕ) → m < n → test (drop m xs) ≡ false

-- No place of `xs` passes the test.
abbrev pub Misses : (List ℕ → Bool) → List ℕ → Type 0
Misses test xs = (m : ℕ) → m < length xs → test (drop m xs) ≡ false

module _ (test : List ℕ → Bool) where
  -- One more byte in front, which fails the test.
  later :
      (x : ℕ) (xs : List ℕ) (n : ℕ)
      → test (x ∷ xs) ≡ false
      → ((m : ℕ) → m < n → test (drop m xs) ≡ false)
      → (m : ℕ) → m < suc n
      → test (drop m (x ∷ xs)) ≡ false
  later x xs n miss h zero lt = miss
  later x xs n miss h (suc m) lt = h m (omega arith)

  Found : List ℕ → ℕ → Type 0
  Found xs n = ((n ≡ length xs) × Misses test xs) ⊎ IsFirst test xs n

  Found-cons :
      (x : ℕ) (xs : List ℕ) (n : ℕ) → test (x ∷ xs) ≡ false → Found xs n → Found (x ∷ xs) (suc n)
  unfolding Found
  Found-cons x xs n miss (inl (all, none_hit)) =
      inl (ap suc all, later x xs (length xs) miss none_hit)
  Found-cons x xs n miss (inr first) = inr (record {
    inside = omega (arith, first.inside);
    hit = first.hit;
    before = later x xs n miss first.before;
  })

  search_suffix-Found : (xs : List ℕ) → Found xs (search_suffix test xs)
  unfolding search_suffix Found
  search_suffix-Found [] = inl (refl, λ m h. absurd (omega arith))
  search_suffix-Found (x ∷ xs) = elim (Bool-cases (test (x ∷ xs))) [
    | inl hit ↦
        rw hit
          (inr (record { inside = omega arith; hit = hit; before = λ m h. absurd (omega arith) }))
    | inr miss ↦ rw miss (Found-cons x xs (search_suffix test xs) miss (search_suffix-Found xs))
  ]

  -- A search from the `k`-th readable byte on gives the first place that passes the test, and the
  -- null pointer exactly when there is none.
  pub find_from-cases :
      {b : Buffer} (k : ℕ)
      → IsValid b
      → k ≤ b.write_index - b.read_index
      → ((find_from test b (b.read_index + k) ≡ some none) × Misses test (drop k (contents b)))
        ⊎ ((n : ℕ) × (find_from test b (b.read_index + k) ≡ some (some (b.read_index + k + n)))
            × IsFirst test (drop k (contents b)) n)
  unfolding find_from Found
  find_from-cases {b} k v inside =
      rw (size, read_range-eq b start (b.write_index - start) (omega arith), range)
        (elim (search_suffix-Found rest) [
          | inl (all, none_hit) ↦
              inl (rw (hits (search_suffix test rest) (omega (arith, count))), none_hit)
          | inr first ↦ inr (
            search_suffix test rest,
            rw (misses (search_suffix test rest) (omega (arith, count, first.inside))),
            first,
          )
        ])
    where
      start : ℕ
      start = b.read_index + k

      rest : List ℕ
      rest = drop k (contents b)

      size : sub_size b.write_index start ≡ b.write_index - start
      size = omega (arith, v.ordered, v.inside, v.small)

      split : b.write_index - b.read_index ≡ k + (b.write_index - start)
      split = omega arith

      range : slice start (b.write_index - start) b.storage ≡ rest
      range = sym (
          ap (λ n. drop k (take n (drop b.read_index b.storage))) split
          ∙ take-drop k (b.write_index - start) (drop b.read_index b.storage)
          ∙ ap (take (b.write_index - start)) (drop-drop k b.read_index b.storage))

      count : length rest ≡ b.write_index - start
      count = omega (arith, length-drop k (contents b), length-contents v)

      hits : (n : ℕ) → start + n ≡ b.write_index → (start + n == b.write_index) ≡ true
      hits n e = ground arith

      misses : (n : ℕ) → start + n < b.write_index → (start + n == b.write_index) ≡ false
      misses n e = ground arith

-- `find_CRLF` finds the first "\r\n" among the readable bytes, or there is none.
pub find_crlf-cases :
    {b : Buffer}
    → IsValid b
    → ((find_crlf b ≡ some none) × Misses starts_crlf (contents b))
      ⊎ ((n : ℕ) × (find_crlf b ≡ some (some (b.read_index + n)))
          × IsFirst starts_crlf (contents b) n)
unfolding find_crlf find_crlf_from
find_crlf-cases {b} v = rw add-zero at (find_from-cases starts_crlf 0 v (omega arith))

-- `find_EOL` finds the first line feed among the readable bytes, or there is none.
pub find_eol-cases :
    {b : Buffer}
    → IsValid b
    → ((find_eol b ≡ some none) × Misses (starts_with lf) (contents b))
      ⊎ ((n : ℕ) × (find_eol b ≡ some (some (b.read_index + n)))
          × IsFirst (starts_with lf) (contents b) n)
unfolding find_eol find_eol_from
find_eol-cases {b} v = rw add-zero at (find_from-cases (starts_with lf) 0 v (omega arith))
