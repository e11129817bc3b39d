-- ===== src/Prelude/Strings.antt =====
-- Equality of strings, which are lists of the codes of their characters.
use Prim.Native.Nat.{ℕ}
use mathlib.Core.Path.{◌≡◌, refl, ap₂}
use mathlib.Core.Bool.{Bool, true, false, ◌&&◌}
use mathlib.Core.List.{List, [], ◌∷◌}
use native.Mathlib.Omega.{arith}
use suduo.Prelude.Tests.{◌==◌}

abbrev pub equal : List ℕ → List ℕ → Bool
equal [] [] = true
equal (x ∷ xs) (y ∷ ys) = x == y && equal xs ys
equal _ _ = false

pub equal_refl : (xs : List ℕ) → equal xs xs ≡ true
equal_refl [] = refl
equal_refl (x ∷ xs) = ground (arith, equal_refl xs)

pub equal→≡ : (xs ys : List ℕ) → equal xs ys ≡ true → xs ≡ ys
equal→≡ [] [] h = refl
equal→≡ [] (y ∷ ys) h = absurd cc
equal→≡ (x ∷ xs) [] h = absurd cc
equal→≡ (x ∷ xs) (y ∷ ys) h = ap₂ ◌∷◌ (ground arith) (equal→≡ xs ys (ground arith))
