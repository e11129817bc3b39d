-- ===== src/HttpRequest/Headers.antt =====
-- The headers of a request, and the spaces around a value.
use suduo.Prelude.{
  equal, equal_refl, ℕ, ◌≤◌, ◌<◌, ◌≢◌, ◌⊎◌, ◌&&◌, ◌==◌, length, if◌then◌else◌, arith, ◌≡◌, refl, ap,
  ◌∙◌, true, false, List, [], ◌∷◌, ◌++◌,
}
use suduo.HttpRequest.{HttpRequest, is_space, skip_spaces, drop_spaces, add_header, get_header}

-- The spaces of the C locale, and the other characters, by their codes.
abbrev pub Blank : ℕ → Type 0
Blank c = (c ≡ 32) ⊎ ((9 ≤ c) × (c ≤ 13))

abbrev pub Plain : ℕ → Type 0
Plain c = (c ≢ 32) × ((c < 9) ⊎ (13 < c))

is_space-Blank : (c : ℕ) → Blank c → is_space c ≡ true
is_space-Blank c h = ground arith

is_space-Plain : (c : ℕ) → Plain c → is_space c ≡ false
is_space-Plain c h = ground arith

abbrev pub Spaces : List ℕ → Type 0
Spaces [] = Unit {0}
Spaces (c ∷ cs) = Blank c × Spaces cs

-- A value that begins with no space, and one that ends with none.
abbrev pub Starts : List ℕ → Type 0
Starts [] = Unit {0}
Starts (c ∷ cs) = Plain c

abbrev pub Ends : List ℕ → Type 0
Ends [] = Unit {0}
Ends (c ∷ []) = Plain c
Ends (c ∷ d ∷ cs) = Ends (d ∷ cs)

drop_spaces-Ends : (value : List ℕ) → Ends value → drop_spaces value ≡ value
drop_spaces-Ends [] h = refl
drop_spaces-Ends (c ∷ []) h = rw (is_space-Plain c h) refl
drop_spaces-Ends (c ∷ d ∷ cs) h =
    let rest : drop_spaces (d ∷ cs) ≡ d ∷ cs = drop_spaces-Ends (d ∷ cs) h in
    kept (drop_spaces (d ∷ cs)) rest
  where
    kept :
        (tail : List ℕ)
        → tail ≡ d ∷ cs
        → (if is_space c && length tail == 0 then [] else c ∷ tail) ≡ c ∷ d ∷ cs
    kept [] e = absurd cc
    kept (x ∷ xs) e =
        let long : (is_space c && length (x ∷ xs) == 0) ≡ false = ground arith in
        rw long (ap (λ tail. c ∷ tail) e)

skip_spaces-append : (ss v : List ℕ) → Spaces ss → skip_spaces (ss ++ v) ≡ skip_spaces v
skip_spaces-append [] v h = refl
skip_spaces-append (c ∷ cs) v (blank, h) = rw (is_space-Blank c blank) (skip_spaces-append cs v h)

skip_spaces-nil : (ss : List ℕ) → Spaces ss → skip_spaces ss ≡ []
skip_spaces-nil [] h = refl
skip_spaces-nil (c ∷ cs) (blank, h) = rw (is_space-Blank c blank) (skip_spaces-nil cs h)

drop_spaces-nil : (ss : List ℕ) → Spaces ss → drop_spaces ss ≡ []
drop_spaces-nil [] h = refl
drop_spaces-nil (c ∷ cs) (blank, h) = rw (is_space-Blank c blank, drop_spaces-nil cs h) refl

drop_spaces-append : (v ss : List ℕ) → Spaces ss → drop_spaces (v ++ ss) ≡ drop_spaces v
drop_spaces-append [] ss h = drop_spaces-nil ss h
drop_spaces-append (c ∷ cs) ss h = rw (drop_spaces-append cs ss h) refl

skip_spaces-stop :
    (v ss : List ℕ) → Starts v → Spaces ss → drop_spaces (skip_spaces (v ++ ss)) ≡ drop_spaces v
skip_spaces-stop [] ss h k = ap drop_spaces (skip_spaces-nil ss k)
skip_spaces-stop (c ∷ cs) ss h k =
    rw (is_space-Plain c h) (rw (is_space-Plain c h, drop_spaces-append cs ss k) refl)

-- A value that neither begins nor ends with a space is found under its field, without the spaces
-- that stood around it; under a field that differs, what was there before.
pub get_header-add_header :
    (r : HttpRequest) (field before value behind : List ℕ)
    → Spaces before
    → Starts value
    → Ends value
    → Spaces behind
    → (get_header (add_header r field (before ++ (value ++ behind))) field ≡ value)
      × ((other : List ℕ)
          → equal field other ≡ false
          → get_header (add_header r field (before ++ (value ++ behind))) other
            ≡ get_header r other)
unfolding get_header add_header
get_header-add_header r field before value behind sp starts ends sp' = (
  rw (equal_refl field, skip_spaces-append before (value ++ behind) sp)
      (skip_spaces-stop value behind starts sp' ∙ drop_spaces-Ends value ends),
  λ other differs. rw differs refl,
)
