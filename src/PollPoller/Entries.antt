-- ===== src/PollPoller/Entries.antt =====
-- What stands at a place of a vector of descriptors after it has changed.
use suduo.Prelude.{
  ℕ, zero, suc, ◌<◌, ◌≡◌, refl, ap, ◌⊎◌, inl, inr, some, List, [], ◌∷◌, ◌++◌, length, get_elem?,
  set, take, arith,
}
use suduo.PollPoller.{Pollfd}

pub get-append-cases :
    (xs : List Pollfd) (x : Pollfd) (i : ℕ) (e : Pollfd)
    → get_elem? (xs ++ x ∷ []) i ≡ some e
    → (get_elem? xs i ≡ some e) ⊎ ((i ≡ length xs) × (e ≡ x))
get-append-cases [] x zero e h = inr (refl, cc)
get-append-cases [] x (suc i) e h = absurd cc
get-append-cases (y ∷ xs) x zero e h = inl h
get-append-cases (y ∷ xs) x (suc i) e h = elim (get-append-cases xs x i e h) [
  | inl old ↦ inl old
  | inr (at_end, last) ↦ inr (ap suc at_end, last)
]

pub get-append-left :
    (xs : List Pollfd) (x : Pollfd) (i : ℕ) (e : Pollfd)
    → get_elem? xs i ≡ some e
    → get_elem? (xs ++ x ∷ []) i ≡ some e
get-append-left [] x i e h = absurd cc
get-append-left (y ∷ xs) x zero e h = h
get-append-left (y ∷ xs) x (suc i) e h = get-append-left xs x i e h

pub get-append-right :
    (xs : List Pollfd) (x : Pollfd) → get_elem? (xs ++ x ∷ []) (length xs) ≡ some x
get-append-right [] x = refl
get-append-right (y ∷ xs) x = get-append-right xs x

pub get-set-cases :
    (xs : List Pollfd) (j : ℕ) (x : Pollfd) (i : ℕ) (e : Pollfd)
    → get_elem? (set xs j x) i ≡ some e
    → ((i ≡ j) × (e ≡ x)) ⊎ ((¬ (i ≡ j)) × (get_elem? xs i ≡ some e))
get-set-cases [] j x i e h = absurd cc
get-set-cases (y ∷ xs) zero x zero e h = inl (refl, cc)
get-set-cases (y ∷ xs) zero x (suc i) e h = inr (omega arith, h)
get-set-cases (y ∷ xs) (suc j) x zero e h = inr (omega arith, h)
get-set-cases (y ∷ xs) (suc j) x (suc i) e h = elim (get-set-cases xs j x i e h) [
  | inl (same, is_x) ↦ inl (ap suc same, is_x)
  | inr (other, old) ↦ inr (omega arith, old)
]

pub get-set-same :
    (xs : List Pollfd) (j : ℕ) (x y : Pollfd)
    → get_elem? xs j ≡ some y
    → get_elem? (set xs j x) j ≡ some x
get-set-same [] j x y h = absurd cc
get-set-same (z ∷ xs) zero x y h = refl
get-set-same (z ∷ xs) (suc j) x y h = get-set-same xs j x y h

pub get-set-other :
    (xs : List Pollfd) (j : ℕ) (x : Pollfd) (i : ℕ)
    → ¬ (i ≡ j)
    → get_elem? (set xs j x) i ≡ get_elem? xs i
get-set-other [] j x i h = refl
get-set-other (y ∷ xs) zero x zero h = absurd (h refl)
get-set-other (y ∷ xs) zero x (suc i) h = refl
get-set-other (y ∷ xs) (suc j) x zero h = refl
get-set-other (y ∷ xs) (suc j) x (suc i) h = get-set-other xs j x i (omega arith)

pub get-take-cases :
    (n : ℕ) (xs : List Pollfd) (i : ℕ) (e : Pollfd)
    → get_elem? (take n xs) i ≡ some e
    → (i < n) × (get_elem? xs i ≡ some e)
get-take-cases zero xs i e h = absurd cc
get-take-cases (suc n) [] i e h = absurd cc
get-take-cases (suc n) (x ∷ xs) zero e h = (omega arith, h)
get-take-cases (suc n) (x ∷ xs) (suc i) e h =
    let (low, old) = get-take-cases n xs i e h in (omega arith, old)

pub get-take : (n : ℕ) (xs : List Pollfd) (i : ℕ) → i < n → get_elem? (take n xs) i ≡ get_elem? xs i
get-take zero xs i h = absurd (omega arith)
get-take (suc n) [] i h = refl
get-take (suc n) (x ∷ xs) zero h = refl
get-take (suc n) (x ∷ xs) (suc i) h = get-take n xs i (omega arith)

pub get-bound : (xs : List Pollfd) (i : ℕ) (e : Pollfd) → get_elem? xs i ≡ some e → i < length xs
get-bound [] i e h = absurd cc
get-bound (x ∷ xs) zero e h = omega arith
get-bound (x ∷ xs) (suc i) e h = omega (arith, get-bound xs i e h)

pub get-some : (xs : List Pollfd) (i : ℕ) → i < length xs → (e : Pollfd) × (get_elem? xs i ≡ some e)
get-some [] i h = absurd (omega arith)
get-some (x ∷ xs) zero h = (x, refl)
get-some (x ∷ xs) (suc i) h = get-some xs i (omega arith)
