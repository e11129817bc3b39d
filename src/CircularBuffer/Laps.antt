-- ===== src/CircularBuffer/Laps.antt =====
-- Ranges of a vector that is read twice in a row, so that they go round its end.
use suduo.Prelude.{
  lt→leb, le→leb, ℕ, zero, suc, ◌+◌, ◌-◌, ◌≤◌, ◌<◌, ◌≡◌, refl, sym, ap, ap₂, ◌∙◌, some, List, [],
  ◌∷◌, ◌++◌, arith, if◌then◌else◌, leb, length, get_elem?, set, take, drop, slice, overwrite,
  length-append, slice-append, slice-split, slice-overwrite_end, drop-overwrite, drop-append_right,
  take-append_left, dec_lt, length-overwrite, drop-drop, append_assoc,
}

module _ {ℓ} {A : Type ℓ} where
  set-overwrite :
      (xs : List A) (i : ℕ) (x : A) → i < length xs → set xs i x ≡ overwrite xs i (x ∷ [])
  set-overwrite [] i x h = absurd (omega arith)
  set-overwrite (y ∷ xs) zero x h = refl
  set-overwrite (y ∷ xs) (suc i) x h =
      let e : suc i + 1 ≡ suc (i + 1) = omega arith in
      rw e (ap (λ zs. y ∷ zs) (set-overwrite xs i x (omega arith)))

  slice-suc :
      (xs : List A) (i n : ℕ)
      → i < length xs
      → (x : A) × (get_elem? xs i ≡ some x) × (slice i (suc n) xs ≡ x ∷ slice (i + 1) n xs)
  slice-suc [] i n h = absurd (omega arith)
  slice-suc (x ∷ xs) zero n h = (x, refl, refl)
  slice-suc (x ∷ xs) (suc i) n h =
      let e : suc i + 1 ≡ suc (i + 1) = omega arith in rw e (slice-suc xs i n (omega arith))

  get_elem?-append :
      (xs ys : List A) (i : ℕ) → i < length xs → get_elem? (xs ++ ys) i ≡ get_elem? xs i
  get_elem?-append [] ys i h = absurd (omega arith)
  get_elem?-append (x ∷ xs) ys zero h = refl
  get_elem?-append (x ∷ xs) ys (suc i) h = get_elem?-append xs ys i (omega arith)

  -- One lap: the second copy of the vector reads like the first.
  slice-lap :
      (xs : List A) (n : ℕ) → n ≤ length xs → slice (length xs) n (xs ++ xs) ≡ slice 0 n (xs ++ xs)
  slice-lap xs n h =
      let e : length xs ≡ length xs + 0 = omega arith in
      ap (λ k. take n (drop k (xs ++ xs))) e
      ∙ ap (take n) (drop-append_right 0 xs xs)
      ∙ sym (take-append_left n xs xs h)

  -- A write at `begin + n` extends the range by the value, before and after the end of the vector.
  pub write_before :
      (xs : List A) (b n : ℕ) (x : A)
      → b + n < length xs
      → slice b (n + 1) (set xs (b + n) x ++ set xs (b + n) x) ≡ slice b n (xs ++ xs) ++ x ∷ []
  write_before xs b n x h = rw (set-overwrite xs (b + n) x h) (
      slice-append (overwrite xs (b + n) (x ∷ [])) _ b (n + 1)
        (omega (arith, length-overwrite xs (b + n) (x ∷ []) (omega arith)))
      ∙ slice-overwrite_end xs b n (x ∷ []) (omega arith)
      ∙ ap (λ zs. zs ++ x ∷ []) (sym (slice-append xs xs b n (omega arith))))

  around :
      (xs : List A) (b e n : ℕ)
      → b ≤ length xs
      → e ≤ length xs
      → n ≡ length xs - b + e
      → slice b n (xs ++ xs) ≡ slice b (length xs - b) xs ++ slice 0 e xs
  around xs b e n hb he q =
      ap (λ k. slice b k (xs ++ xs)) q
      ∙ slice-split (xs ++ xs) b (length xs - b) e (omega (arith, length-append xs xs))
      ∙ ap₂ ◌++◌ (slice-append xs xs b (length xs - b) (omega arith)) (
          ap (λ k. slice k e (xs ++ xs)) (omega arith)
          ∙ slice-lap xs e he
          ∙ slice-append xs xs 0 e (omega arith))

  pub write_after :
      (xs : List A) (b e n : ℕ) (x : A)
      → b < length xs
      → n < length xs
      → e + length xs ≡ b + n
      → slice b (n + 1) (set xs e x ++ set xs e x) ≡ slice b n (xs ++ xs) ++ x ∷ []
  write_after xs b e n x hb hn q = rw (set-overwrite xs e x (omega arith)) (
      around ys b (e + 1) (n + 1) (omega (arith, same_length)) (omega (arith, same_length))
        (omega (arith, same_length))
      ∙ ap₂ ◌++◌ front back
      ∙ sym (append_assoc (slice b (length xs - b) xs) (slice 0 e xs) (x ∷ []))
      ∙ ap (λ zs. zs ++ x ∷ []) (sym (around xs b e n (omega arith) (omega arith) (omega arith))))
    where
      ys : List A
      ys = overwrite xs e (x ∷ [])

      same_length : length ys ≡ length xs
      same_length = length-overwrite xs e (x ∷ []) (omega arith)

      skip : b ≡ e + 1 + (b - (e + 1))
      skip = omega arith

      behind : drop b ys ≡ drop b xs
      behind =
          ap (λ k. drop k ys) skip
          ∙ sym (drop-drop (b - (e + 1)) (e + 1) ys)
          ∙ ap (drop (b - (e + 1))) (drop-overwrite xs e (x ∷ []) (omega arith))
          ∙ drop-drop (b - (e + 1)) (e + 1) xs
          ∙ ap (λ k. drop k xs) (sym skip)

      front : slice b (length ys - b) ys ≡ slice b (length xs - b) xs
      front = ap₂ take (ap (λ k. k - b) same_length) behind

      back : slice 0 (e + 1) ys ≡ slice 0 e xs ++ x ∷ []
      back =
          ap (λ k. slice 0 (e + 1) (overwrite xs k (x ∷ []))) (omega arith)
          ∙ slice-overwrite_end xs 0 e (x ∷ []) (omega arith)

  -- What is left after the value at `begin` is read.
  pub read_begin :
      (xs : List A) (b n : ℕ)
      → b < length xs
      → n < length xs
      → (x : A) × (get_elem? xs b ≡ some x)
        × (slice b (suc n) (xs ++ xs)
            ≡ x ∷ slice (if leb (length xs) (b + 1) then 0 else b + 1) n (xs ++ xs))
  read_begin xs b n hb hn =
      let (x, at, split) = slice-suc (xs ++ xs) b n (omega (arith, length-append xs xs)) in
      (x, sym (get_elem?-append xs xs b hb) ∙ at, split ∙ ap (λ zs. x ∷ zs) (lap x))
    where
      lap :
          A
          → slice (b + 1) n (xs ++ xs)
            ≡ slice (if leb (length xs) (b + 1) then 0 else b + 1) n (xs ++ xs)
      lap x = elim (dec_lt (b + 1) (length xs)) [
        | yes h ↦ rw (lt→leb (length xs) (b + 1) h)
        | no h ↦
            let e : b + 1 ≡ length xs = omega arith in
            rw (le→leb (length xs) (b + 1) (omega arith))
              (ap (λ k. slice k n (xs ++ xs)) e ∙ slice-lap xs n (omega arith))
      ]
