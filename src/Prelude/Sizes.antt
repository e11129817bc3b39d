-- ===== src/Prelude/Sizes.antt =====
-- `size_t` arithmetic, which wraps at 2^64.
use Prim.Native.Nat.{ℕ, ◌+◌, ◌-◌, ◌%◌, ◌^◌, ◌≤◌, ◌<◌}
use mathlib.Core.Path.{◌≡◌}
use native.Mathlib.Omega.{arith}

abbrev pub size_mod : ℕ
size_mod = 2 ^ 64

-- The longest object and the longest `std::vector<char>` (`PTRDIFF_MAX`).
abbrev pub max_size : ℕ
max_size = 2 ^ 63 - 1

abbrev pub add_size : ℕ → ℕ → ℕ
add_size a b = (a + b) % 2 ^ 64

abbrev pub sub_size : ℕ → ℕ → ℕ
sub_size a b = (a + 2 ^ 64 - b) % 2 ^ 64

pub add_size-eq : (a b : ℕ) → a + b < size_mod → add_size a b ≡ a + b
add_size-eq a b h = omega arith

pub sub_size-eq : (a b : ℕ) → b ≤ a → a < size_mod → sub_size a b ≡ a - b
sub_size-eq a b h k = omega arith
