-- ===== src/TcpServer/Functors.antt =====
-- The functors of the loops, counted, and the turns of the pool.
use suduo.Prelude.{
  ℕ, zero, suc, ◌+◌, ◌<◌, ◌≡◌, refl, ◌⊎◌, inl, inr, true, none, some, List, [], ◌∷◌, ◌++◌,
  if◌then◌else◌, leb, ◌==◌, length, get_elem?, arith, Bool-cases,
}
use suduo.EventLoopThreadPool.{EventLoopThreadPool, get_next_loop}
use suduo.TcpServer.{
  Functor, listen, connect_established, remove_connection_in_loop, connect_destroyed, elem, remove,
  pick,
}

abbrev pub count : ℕ → List ℕ → ℕ
count i [] = 0
count i (j ∷ js) = (if j == i then 1 else 0) + count i js

-- How often a functor is about to establish a connection or to take it out of the map, to destroy it, and to
-- begin to listen.
abbrev pub is_live : ℕ → Functor → ℕ
is_live i (connect_established j) = if j == i then 1 else 0
is_live i (remove_connection_in_loop j) = if j == i then 1 else 0
is_live i _ = 0

abbrev pub is_dead : ℕ → Functor → ℕ
is_dead i (connect_destroyed j) = if j == i then 1 else 0
is_dead i _ = 0

abbrev pub is_listen : Functor → ℕ
is_listen listen = 1
is_listen _ = 0

abbrev pub total : (Functor → ℕ) → List Functor → ℕ
total w [] = 0
total w (f ∷ fs) = w f + total w fs

pub total-end :
    (w : Functor → ℕ) (fs : List Functor) (f : Functor) → total w (fs ++ f ∷ []) ≡ total w fs + w f
total-end w [] f = omega arith
total-end w (g ∷ fs) f = omega (arith, total-end w fs f)

-- Picking a functor fails, or takes its weight out.
pub pick-cases :
    (k : ℕ) (fs : List Functor)
    → (pick k fs ≡ none)
      ⊎ ((f : Functor) × (rest : List Functor) × (pick k fs ≡ some (f, rest))
          × ((w : Functor → ℕ) → total w fs ≡ w f + total w rest))
pick-cases k [] = inl refl
pick-cases zero (f ∷ fs) = inr (f, fs, refl, λ w. refl)
pick-cases (suc k) (f ∷ fs) = elim (pick-cases k fs) [
  | inl gone ↦ inl (rw gone refl)
  | inr (g, rest, there, weighs) ↦ inr (g, f ∷ rest, rw there refl, λ w. omega (arith, weighs w))
]

pub count-remove :
    (i j : ℕ) (js : List ℕ)
    → elem j js ≡ true
    → count i (remove j js) + (if j == i then 1 else 0) ≡ count i js
count-remove i j [] h = absurd cc
count-remove i j (k ∷ js) h = ground (arith, count-remove i j js)

abbrev pub InTurn : EventLoopThreadPool ℕ → Type 0
InTurn p = (p.next ≡ 0) ⊎ (p.next < length p.loops)

has_elem : (k : ℕ) (xs : List ℕ) → k < length xs → (x : ℕ) × (get_elem? xs k ≡ some x)
has_elem k [] h = absurd (omega arith)
has_elem zero (x ∷ xs) h = (x, refl)
has_elem (suc k) (x ∷ xs) h = has_elem k xs (omega arith)

pub next-InTurn :
    (p : EventLoopThreadPool ℕ)
    → p.started ≡ true
    → InTurn p
    → (loop : ℕ) × (p' : EventLoopThreadPool ℕ) × (get_next_loop p ≡ some (loop, p'))
      × (p'.started ≡ true)
      × InTurn p'
unfolding get_next_loop
next-InTurn p s t = elim (Bool-cases (length p.loops == 0)) [
  | inl empty ↦ rw (s, empty) (p.base_loop, _, refl, refl, t)
  | inr loops ↦
      let inside : p.next < length p.loops = elim t [ inl z ↦ ground (arith, z) | inr h ↦ h ] in
      let (x, there) = has_elem p.next p.loops inside in
      let turn : InTurn
          (record p { next = if leb (length p.loops) (suc p.next) then 0 else suc p.next }) =
        elim (Bool-cases (leb (length p.loops) (suc p.next))) [
          | inl last ↦ inl (rw last refl)
          | inr inner ↦ inr (ground arith)
        ] in
      rw (s, loops, there) (x, _, refl, refl, turn)
]
