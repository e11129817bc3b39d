-- ===== src/Prelude/Slices.antt =====
-- Ranges of an array: the part from a position, and a write over such a part.
use Prim.Native.Nat.{ℕ, ◌+◌, ◌≤◌}
use mathlib.Core.Path.{◌≡◌, sym, ap, ◌≡⟨◌⟩◌, ◌∎, ◌∙◌}
use mathlib.Core.List.{List, ◌++◌}
use native.Mathlib.Omega.{arith}
use suduo.Prelude.Lists.{
  length, take, drop, length-append, length-take_of_le, length-drop, take-append_left,
  take-append_right, drop-append_left, drop-append_right, take-drop, take-length, drop-drop,
  take-append-drop,
}

module _ {ℓ} {A : Type ℓ} where
  -- The `n` elements from index `i` on.
  abbrev pub slice : ℕ → ℕ → List A → List A
  slice i n xs = take n (drop i xs)

  -- `xs` with `ys` written over it from index `i` on.
  abbrev pub overwrite : List A → ℕ → List A → List A
  overwrite xs i ys = take i xs ++ (ys ++ drop (i + length ys) xs)

module _ {ℓ} {A : Type ℓ} where
  pub length-slice : (i n : ℕ) (xs : List A) → i + n ≤ length xs → length (slice i n xs) ≡ n
  length-slice i n xs h = length-take_of_le n (drop i xs) (omega (arith, length-drop i xs))

  pub length-overwrite :
      (xs : List A) (i : ℕ) (ys : List A)
      → i + length ys ≤ length xs
      → length (overwrite xs i ys) ≡ length xs
  length-overwrite xs i ys h = omega (
    arith,
    length-append (take i xs) (ys ++ drop (i + length ys) xs),
    length-append ys (drop (i + length ys) xs),
    length-take_of_le i xs (omega arith),
    length-drop (i + length ys) xs,
  )

  -- What is read back where it was written.
  pub slice-overwrite :
      (xs : List A) (i : ℕ) (ys : List A)
      → i + length ys ≤ length xs
      → slice i (length ys) (overwrite xs i ys) ≡ ys
  slice-overwrite xs i ys h =
      slice i (length ys) (overwrite xs i ys)
      ≡⟨ ap (take (length ys)) (skip i (length-take_of_le i xs (omega arith))) ⟩
        take (length ys) (ys ++ drop (i + length ys) xs)
      ≡⟨ take-append_left (length ys) ys _ (omega arith) ⟩ take (length ys) ys
      ≡⟨ take-length ys ⟩ ys ∎
    where
      skip :
          (k : ℕ)
          → length (take i xs) ≡ k
          → drop k (take i xs ++ (ys ++ drop (i + length ys) xs)) ≡ ys ++ drop (i + length ys) xs
      skip k e =
          let f : k ≡ length (take i xs) + 0 = omega arith in
          rw f (drop-append_right 0 (take i xs) (ys ++ drop (i + length ys) xs))

  -- A write just past a slice extends it.
  pub slice-overwrite_end :
      (xs : List A) (r n : ℕ) (ys : List A)
      → r + n + length ys ≤ length xs
      → slice r (n + length ys) (overwrite xs (r + n) ys) ≡ slice r n xs ++ ys
  slice-overwrite_end xs r n ys h =
      slice r (n + length ys) (overwrite xs (r + n) ys)
      ≡⟨ ap (take (n + length ys)) (
          drop-append_left r (take (r + n) xs) _
            (omega (arith, length-take_of_le (r + n) xs (omega arith)))) ⟩
        take (n + length ys) (drop r (take (r + n) xs) ++ rest)
      ≡⟨ ap (λ zs. take (n + length ys) (zs ++ rest)) (take-drop r n xs) ⟩
        take (n + length ys) (slice r n xs ++ rest)
      ≡⟨ ap (λ k. take (k + length ys) (slice r n xs ++ rest))
          (omega (arith, length-slice r n xs (omega arith))) ⟩
        take (length (slice r n xs) + length ys) (slice r n xs ++ rest)
      ≡⟨ take-append_right (length ys) (slice r n xs) rest ⟩ slice r n xs ++ take (length ys) rest
      ≡⟨ ap (λ zs. slice r n xs ++ zs)
          (take-append_left (length ys) ys _ (omega arith) ∙ take-length ys) ⟩
        slice r n xs ++ ys ∎
    where
      rest : List A
      rest = ys ++ drop (r + n + length ys) xs

  -- What stands behind a write is as it was.
  pub drop-overwrite :
      (xs : List A) (i : ℕ) (ys : List A)
      → i + length ys ≤ length xs
      → drop (i + length ys) (overwrite xs i ys) ≡ drop (i + length ys) xs
  drop-overwrite xs i ys h =
      drop (i + length ys) (overwrite xs i ys)
      ≡⟨ ap (λ k. drop (k + length ys) (overwrite xs i ys))
          (omega (arith, length-take_of_le i xs (omega arith))) ⟩
        drop (length (take i xs) + length ys) (overwrite xs i ys)
      ≡⟨ drop-append_right (length ys) (take i xs) _ ⟩
        drop (length ys) (ys ++ drop (i + length ys) xs)
      ≡⟨ ap (λ k. drop k (ys ++ drop (i + length ys) xs)) (omega arith) ⟩
        drop (length ys + 0) (ys ++ drop (i + length ys) xs)
      ≡⟨ drop-append_right 0 ys _ ⟩ drop (i + length ys) xs ∎

  -- Bytes added at the end of the array leave a slice as it was.
  pub slice-append :
      (xs zs : List A) (i n : ℕ) → i + n ≤ length xs → slice i n (xs ++ zs) ≡ slice i n xs
  slice-append xs zs i n h =
      slice i n (xs ++ zs)
      ≡⟨ ap (take n) (drop-append_left i xs zs (omega arith)) ⟩ take n (drop i xs ++ zs)
      ≡⟨ take-append_left n (drop i xs) zs (omega (arith, length-drop i xs)) ⟩ slice i n xs ∎

  -- A slice falls into two.
  pub slice-split :
      (xs : List A) (i m n : ℕ)
      → i + (m + n) ≤ length xs
      → slice i (m + n) xs ≡ slice i m xs ++ slice (i + m) n xs
  slice-split xs i m n h =
      slice i (m + n) xs
      ≡⟨ ap (take (m + n)) (sym (take-append-drop m (drop i xs))) ⟩
        take (m + n) (slice i m xs ++ drop m (drop i xs))
      ≡⟨ ap (λ k. take (k + n) (slice i m xs ++ drop m (drop i xs)))
          (omega (arith, length-slice i m xs (omega arith))) ⟩
        take (length (slice i m xs) + n) (slice i m xs ++ drop m (drop i xs))
      ≡⟨ take-append_right n (slice i m xs) _ ⟩ slice i m xs ++ take n (drop m (drop i xs))
      ≡⟨ ap (λ zs. slice i m xs ++ take n zs) (drop-drop m i xs) ⟩
        slice i m xs ++ slice (i + m) n xs ∎
