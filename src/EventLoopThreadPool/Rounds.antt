-- ===== src/EventLoopThreadPool/Rounds.antt =====
-- The loops of a pool take turns.
use suduo.Prelude.{
  ℕ, zero, suc, ◌+◌, ◌≡◌, refl, ap, true, false, Option, none, some, List, [], ◌∷◌, arith, leb,
  ◌==◌, length, get_elem?, drop,
}
use suduo.EventLoopThreadPool.{EventLoopThreadPool, get_next_loop, get_loops}

module _ {ℓ} {Loop : Type ℓ} where
  abbrev tail_of : List Loop → List Loop
  tail_of [] = []
  tail_of (x ∷ xs) = xs

  abbrev head_of : List Loop → Option Loop
  head_of [] = none
  head_of (x ∷ xs) = some x

  last_drop :
      (xs : List Loop) (n : ℕ) (x : Loop) (rest : List Loop)
      → drop n xs ≡ x ∷ rest
      → (get_elem? xs n ≡ some x) × (drop (suc n) xs ≡ rest) × (length xs ≡ n + suc (length rest))
  last_drop [] zero x rest h = absurd cc
  last_drop [] (suc n) x rest h = absurd cc
  last_drop (y ∷ xs) zero x rest h = (ap head_of h, ap tail_of h, omega (arith, ap length h))
  last_drop (y ∷ xs) (suc n) x rest h =
      let (there, tail, long) = last_drop xs n x rest h in (there, tail, omega (arith, long))

  next-last :
      (p : EventLoopThreadPool Loop) (x : Loop)
      → p.started ≡ true
      → drop p.next p.loops ≡ x ∷ []
      → get_next_loop p ≡ some (x, record p { next = 0 })
  unfolding get_next_loop
  next-last p x s h =
      let (there, tail, long) = last_drop p.loops p.next x [] h in
      let some_loops : (length p.loops == 0) ≡ false = ground arith in
      let at_end : leb (length p.loops) (suc p.next) ≡ true = ground arith in
      rw (s, some_loops, there, at_end) refl

  next-inner :
      (p : EventLoopThreadPool Loop) (x y : Loop) (rest : List Loop)
      → p.started ≡ true
      → drop p.next p.loops ≡ x ∷ y ∷ rest
      → (get_next_loop p ≡ some (x, record p { next = suc p.next }))
        × (drop (suc p.next) p.loops ≡ y ∷ rest)
  unfolding get_next_loop
  next-inner p x y rest s h =
      let (there, tail, long) = last_drop p.loops p.next x (y ∷ rest) h in
      let some_loops : (length p.loops == 0) ≡ false = ground arith in
      let inner : leb (length p.loops) (suc p.next) ≡ false = ground arith in
      (rw (s, some_loops, there, inner) refl, tail)

  get_loops-suc :
      (n : ℕ) (p p' p'' : EventLoopThreadPool Loop) {x : Loop} {xs : List Loop}
      → get_next_loop p ≡ some (x, p')
      → get_loops n p' ≡ some (xs, p'')
      → get_loops (suc n) p ≡ some (x ∷ xs, p'')
  unfolding get_loops
  get_loops-suc n p p' p'' e e' = rw (e, e') refl

  -- From the next loop on, the calls give the loops up to the last one, and then it is the first's
  -- turn.
  to_end :
      (rest : List Loop) (p : EventLoopThreadPool Loop) (x : Loop)
      → p.started ≡ true
      → drop p.next p.loops ≡ x ∷ rest
      → get_loops (suc (length rest)) p ≡ some (x ∷ rest, record p { next = 0 })
  to_end [] p x s h = get_loops-suc 0 p _ _ (next-last p x s h) (unfold get_loops in refl)
  to_end (y ∷ rest) p x s h =
      let (now, tail) = next-inner p x y rest s h in
      get_loops-suc (suc (length rest)) p _ _ now
        (to_end rest (record p { next = suc p.next }) y s tail)

  -- As many calls as there are loops, in a started pool with the first loop next, give every loop once,
  -- in order, and leave the pool as it was.
  pub get_loops-round :
      (base_loop x : Loop) (rest : List Loop)
      → let p : EventLoopThreadPool Loop = record {
        base_loop = base_loop;
        started = true;
        next = 0;
        loops = x ∷ rest;
      } in
        get_loops (suc (length rest)) p ≡ some (x ∷ rest, p)
  get_loops-round base_loop x rest = to_end rest _ x refl refl
