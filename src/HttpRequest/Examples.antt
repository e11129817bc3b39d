-- ===== src/HttpRequest/Examples.antt =====
-- The theorems on requests at concrete inputs.
use suduo.Prelude.{equal, ℕ, ◌≡◌, refl, inl, inr, arith, false, some, true, List, [], ◌∷◌, ◌++◌}
use suduo.HttpRequest.{
  get, http_11, space, new, method_string, process_request_line, add_header, get_header,
}
use suduo.HttpRequest.Line.{version_string, process_request_line-print}
use suduo.HttpRequest.Headers.{get_header-add_header}

-- "/a" and "?b".
process_request_line-print_example :
    process_request_line new (
      method_string get
      ++ space ∷ (((47 ∷ 97 ∷ []) ++ (63 ∷ 98 ∷ [])) ++ space ∷ version_string http_11))
    ≡ some (
      true,
      record new { method = get; path = 47 ∷ 97 ∷ []; query = 63 ∷ 98 ∷ []; version = http_11 },
    )
process_request_line-print_example =
    process_request_line-print get (47 ∷ 97 ∷ []) (63 ∷ 98 ∷ []) http_11 refl (refl, (refl, tt))
      (refl, (refl, tt)) (inr (98 ∷ [], refl)) (refl, (refl, tt)) (inr refl)

-- The field "A" with the value "x y" between spaces.
get_header-add_header_example :
    (get_header
        (add_header new (65 ∷ []) ((32 ∷ []) ++ ((120 ∷ 32 ∷ 121 ∷ []) ++ (9 ∷ 32 ∷ []))))
        (65 ∷ [])
      ≡ 120 ∷ 32 ∷ 121 ∷ [])
    × ((other : List ℕ)
        → equal (65 ∷ []) other ≡ false
        → get_header
            (add_header new (65 ∷ []) ((32 ∷ []) ++ ((120 ∷ 32 ∷ 121 ∷ []) ++ (9 ∷ 32 ∷ []))))
            other
          ≡ get_header new other)
get_header-add_header_example =
    get_header-add_header new (65 ∷ []) (32 ∷ []) (120 ∷ 32 ∷ 121 ∷ []) (9 ∷ 32 ∷ []) (inl refl, tt)
      (ground arith, inr (omega arith)) (ground arith, inr (omega arith))
      (inr (omega arith, omega arith), (inl refl, tt))
