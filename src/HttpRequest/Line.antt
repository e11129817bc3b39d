-- ===== src/HttpRequest/Line.antt =====
-- A request line that is printed is parsed again, and headers can be looked up.
use suduo.Prelude.{
  ℕ, ◌≡◌, refl, ap, ◌⊎◌, inl, inr, true, false, some, List, [], ◌∷◌, ◌++◌, append-nil, arith, ◌==◌,
}
use suduo.HttpRequest.{
  Method, invalid, get, post, head, put, delete, Version, unknown, http_10, http_11, HttpRequest,
  space, question_mark, new, find, method_string, method_of, is_invalid, set_method,
  process_version, set_target, process_target, process_method, process_request_line,
}

-- No character is `c`.
abbrev pub Without : ℕ → List ℕ → Type 0
Without c [] = Unit {0}
Without c (x ∷ xs) = ((x == c) ≡ false) × Without c xs

same_char : (c : ℕ) → (c == c) ≡ true
same_char c = ground arith

pub find-stop : (c : ℕ) (xs ys : List ℕ) → Without c xs → find c (xs ++ c ∷ ys) ≡ (xs, c ∷ ys)
find-stop c [] ys h = rw (same_char c) refl
find-stop c (x ∷ xs) ys (other, h) = rw (other, find-stop c xs ys h) refl

pub find-end : (c : ℕ) (xs : List ℕ) → Without c xs → find c xs ≡ (xs, [])
find-end c [] h = refl
find-end c (x ∷ xs) (other, h) = rw (other, find-end c xs h) refl

abbrev pub version_string : Version → List ℕ
version_string http_10 = 72 ∷ 84 ∷ 84 ∷ 80 ∷ 47 ∷ 49 ∷ 46 ∷ 48 ∷ []
version_string http_11 = 72 ∷ 84 ∷ 84 ∷ 80 ∷ 47 ∷ 49 ∷ 46 ∷ 49 ∷ []
version_string unknown = []

-- A query, which begins with its question mark, or none.
abbrev pub IsQuery : List ℕ → Type 0
IsQuery query = (query ≡ []) ⊎ ((q : List ℕ) × (query ≡ question_mark ∷ q))

pub Without-append : (c : ℕ) (xs ys : List ℕ) → Without c xs → Without c ys → Without c (xs ++ ys)
Without-append c [] ys h k = k
Without-append c (x ∷ xs) ys (other, h) k = (other, Without-append c xs ys h k)

process_version-print :
    (r : HttpRequest) (v : Version)
    → (v ≡ http_10) ⊎ (v ≡ http_11)
    → process_version r (version_string v) ≡ (true, record r { version = v })
unfolding process_version
process_version-print r http_10 h = refl
process_version-print r http_11 h = refl
process_version-print r unknown (inl h) = absurd cc
process_version-print r unknown (inr h) = absurd cc

set_target-print :
    (r : HttpRequest) (path query : List ℕ)
    → r.query ≡ []
    → Without question_mark path
    → IsQuery query
    → set_target r
        (path ++ query)
        (find question_mark (path ++ query)).0
        (find question_mark (path ++ query)).1
      ≡ record r { path = path; query = query }
unfolding set_target
set_target-print r path query fresh h (inl none_given) =
    rw (none_given, append-nil path, find-end question_mark path h)
      (ap (λ q. record r { path = path; query = q }) fresh)
set_target-print r path query fresh h (inr (q, given)) =
    rw (given, find-stop question_mark path q h) refl

module _ (path query : List ℕ) (v : Version) (in_path : Without space path)
    (no_mark : Without question_mark path) (is_query : IsQuery query)
    (in_query : Without space query) (is_v : (v ≡ http_10) ⊎ (v ≡ http_11)) where
  abbrev rest : List ℕ
  rest = (path ++ query) ++ space ∷ version_string v

  -- Behind the method.
  targets :
      (r : HttpRequest)
      → r.query ≡ []
      → process_target r (find space rest).0 (find space rest).1
        ≡ (true, record r { path = path; query = query; version = v })
  unfolding process_target
  targets r fresh =
      rw
        (
          find-stop space (path ++ query) (version_string v)
              (Without-append space path query in_path in_query),
          set_target-print r path query fresh no_mark is_query,
        )
        (process_version-print (record r { path = path; query = query }) v is_v)

  by_method :
      (n : Method)
      → is_invalid n ≡ false
      → process_request_line new (method_string n ++ space ∷ rest)
        ≡ some (true, record new { method = n; path = path; query = query; version = v })
  unfolding process_request_line process_method set_method method_of new
  by_method get k = ap some (targets (record new { method = get }) refl)
  by_method post k = ap some (targets (record new { method = post }) refl)
  by_method head k = ap some (targets (record new { method = head }) refl)
  by_method put k = ap some (targets (record new { method = put }) refl)
  by_method delete k = ap some (targets (record new { method = delete }) refl)
  by_method invalid k = absurd cc

-- A request line with a method that is known, a path without a space and a question mark, a query
-- without a space, which is empty or begins with its question mark, and one of the two versions is
-- parsed into these four, by a request that is new.
pub process_request_line-print :
    (m : Method) (path query : List ℕ) (v : Version)
    → is_invalid m ≡ false
    → Without space path
    → Without question_mark path
    → IsQuery query
    → Without space query
    → (v ≡ http_10) ⊎ (v ≡ http_11)
    → process_request_line new
        (method_string m ++ space ∷ ((path ++ query) ++ space ∷ version_string v))
      ≡ some (true, record new { method = m; path = path; query = query; version = v })
process_request_line-print m path query v known in_path no_mark is_query in_query is_v =
    by_method path query v in_path no_mark is_query in_query is_v m known
