-- ===== src/TcpServer/Names.antt =====
-- The names of connections, and the map by name as a map by number.
use suduo.Prelude.{
  ℕ, suc, ◌+◌, ◌≤◌, ◌<◌, ◌≡◌, refl, sym, ap, ◌∙◌, inl, inr, true, false, List, [], ◌∷◌, ◌++◌,
  if◌then◌else◌, ◌==◌, length, length-append, take, take_of_le, arith, Bool-cases, equal,
  equal_refl, equal→≡,
}
use suduo.TcpServer.{put, erase, conn_name}

-- How often a connection is in the map.
abbrev pub count_conn : ℕ → List (List ℕ × ℕ) → ℕ
count_conn i [] = 0
count_conn i ((name, j) ∷ rest) = (if j == i then 1 else 0) + count_conn i rest

abbrev drop_one : List ℕ → List ℕ
drop_one [] = []
drop_one (x ∷ xs) = xs

cancel_left : (xs ys zs : List ℕ) → xs ++ ys ≡ xs ++ zs → ys ≡ zs
cancel_left [] ys zs h = h
cancel_left (x ∷ xs) ys zs h = cancel_left xs ys zs (ap drop_one h)

-- `limit` bounds the numbers that are printed.
module _ (name ip_port : List ℕ) (print : ℕ → List ℕ) (limit : ℕ)
    (differ : (i j : ℕ) → i < limit → j < limit → print i ≡ print j → i ≡ j)
    (short : (i : ℕ) → i < limit → length ip_port + length (print i) ≤ 61) where
  whole :
      (i : ℕ)
      → i < limit
      → take 63 (45 ∷ (ip_port ++ 35 ∷ print i)) ≡ 45 ∷ (ip_port ++ 35 ∷ print i)
  whole i h =
      take_of_le 63 (45 ∷ (ip_port ++ 35 ∷ print i))
        (omega (arith, short i h, length-append ip_port (35 ∷ print i)))

  -- Two connections with one name are one.
  pub conn_name-injective :
      (i j : ℕ)
      → i < limit
      → j < limit
      → equal (conn_name name ip_port print i) (conn_name name ip_port print j) ≡ true
      → i ≡ j
  unfolding conn_name
  conn_name-injective i j hi hj e = differ i j hi hj (
      ap drop_one (
        cancel_left ip_port (35 ∷ print i) (35 ∷ print j)
          (ap drop_one (sym (whole i hi) ∙ cancel_left name _ _ (equal→≡ _ _ e) ∙ whole j hj))))

  -- The names of the map's entries are those of their connections.
  abbrev pub Named : List (List ℕ × ℕ) → Type 0
  Named [] = Unit {0}
  Named ((n, i) ∷ rest) = (n ≡ conn_name name ip_port print i) × (i < limit) × Named rest

  other_name :
      (i j : ℕ) (n : List ℕ)
      → i < limit
      → j < limit
      → n ≡ conn_name name ip_port print j
      → (j == i) ≡ false
      → equal (conn_name name ip_port print i) n ≡ false
  other_name i j n hi hj named other =
      elim (Bool-cases (equal (conn_name name ip_port print i) n)) [
        | inl same ↦
            let together =
              conn_name-injective i j hi hj
                (ap (equal (conn_name name ip_port print i)) (sym named) ∙ same) in
            absurd (ground arith)
        | inr differs ↦ differs
      ]

  pub put_new :
      (i : ℕ) (es : List (List ℕ × ℕ))
      → i < limit
      → Named es
      → count_conn i es ≡ 0
      → put (conn_name name ip_port print i) i es ≡ es ++ (conn_name name ip_port print i, i) ∷ []
  put_new i [] h named absent = refl
  put_new i ((n, j) ∷ rest) h (named, hj, all) absent =
      rw
        (
          other_name i j n h hj named (ground (arith, absent)),
          put_new i rest h all (omega (arith, absent)),
        )
        refl

  pub Named-end :
      (i : ℕ) (es : List (List ℕ × ℕ))
      → i < limit
      → Named es
      → Named (es ++ (conn_name name ip_port print i, i) ∷ [])
  Named-end i [] h named = (refl, h, tt)
  Named-end i ((n, j) ∷ rest) h (named, hj, all) = (named, hj, Named-end i rest h all)

  -- Erasing the name of a connection that is there takes out its entry and no other.
  pub erase_lem :
      (i : ℕ) (es : List (List ℕ × ℕ))
      → i < limit
      → Named es
      → 0 < count_conn i es
      → (length es ≡ suc (length (erase (conn_name name ip_port print i) es)))
        × Named (erase (conn_name name ip_port print i) es)
        × ((k : ℕ)
            → count_conn k es
              ≡ (if i == k then 1 else 0)
                + count_conn k (erase (conn_name name ip_port print i) es))
  erase_lem i [] h named there = absurd (omega arith)
  erase_lem i ((n, j) ∷ rest) h (named, hj, all) there = elim (Bool-cases (j == i)) [
    | inl same ↦
        let one : j ≡ i = ground arith in
        let hit : equal (conn_name name ip_port print i) n ≡ true =
          ap (equal (conn_name name ip_port print i))
            (named ∙ ap (conn_name name ip_port print) one)
          ∙ equal_refl (conn_name name ip_port print i) in
        rw hit (refl, all, λ k. ap (λ j. (if j == k then 1 else 0) + count_conn k rest) one)
    | inr other ↦
        let (long, left, counts) = erase_lem i rest h all (ground (arith, there)) in
        rw (other_name i j n h hj named other)
          (ap suc long, (named, hj, left), λ k. omega (arith, counts k))
  ]

pub count_conn-end :
    (k i : ℕ) (n : List ℕ) (es : List (List ℕ × ℕ))
    → count_conn k (es ++ (n, i) ∷ []) ≡ count_conn k es + (if i == k then 1 else 0)
count_conn-end k i n [] = omega arith
count_conn-end k i n ((m, j) ∷ rest) = omega (arith, count_conn-end k i n rest)
