-- ===== src/HttpContext/Examples.antt =====
-- The theorems on parsing at concrete requests.
use suduo.Prelude.{
  ℕ, sub_size, ◌≡◌, refl, inl, inr, true, false, none, some, [], ◌∷◌, ◌++◌, arith, replicate,
}
use suduo.Buffer.{Buffer, read_range}
use suduo.Buffer.Search.{find_crlf}
use suduo.Buffer.Space.{IsValid, contents}
use suduo.Buffer.Contents.{Holds}
use suduo.HttpRequest.{get, http_11, method_string, set_method, process_request_line, space}
use suduo.HttpContext.{got_all, Progress, new, parse_request}
use suduo.HttpContext.RoundTrip.{add_all, parse_request-print}
use suduo.HttpContext.Repeats.{parse_request-again}

-- "GET /a HTTP/1.1", one header, and the empty line.
abbrev whole : Buffer
whole = record {
  storage =
      replicate 8 0
      ++ (71
          ∷ 69
          ∷ 84
          ∷ 32
          ∷ 47
          ∷ 97
          ∷ 32
          ∷ 72
          ∷ 84
          ∷ 84
          ∷ 80
          ∷ 47
          ∷ 49
          ∷ 46
          ∷ 49
          ∷ 13
          ∷ 10
          ∷ 65
          ∷ 58
          ∷ 98
          ∷ 13
          ∷ 10
          ∷ 13
          ∷ 10
          ∷ replicate 1000 0);
  read_index = 8;
  write_index = 32;
}

-- "GET /a" with an end of line.
abbrev short : Buffer
short = record {
  storage = replicate 8 0 ++ (71 ∷ 69 ∷ 84 ∷ 32 ∷ 47 ∷ 97 ∷ 13 ∷ 10 ∷ replicate 1016 0);
  read_index = 8;
  write_index = 16;
}

-- The same, with two more bytes behind it.
abbrev longer : Buffer
longer = record {
  storage = replicate 8 0 ++ (71 ∷ 69 ∷ 84 ∷ 32 ∷ 47 ∷ 97 ∷ 13 ∷ 10 ∷ 65 ∷ 66 ∷ replicate 1014 0);
  read_index = 8;
  write_index = 18;
}

longer-IsValid : IsValid longer
longer-IsValid = record {
  ordered = omega arith;
  inside = omega arith;
  small = omega arith;
  room = omega arith;
}

whole-IsValid : IsValid whole
whole-IsValid = record {
  ordered = omega arith;
  inside = omega arith;
  small = omega arith;
  room = omega arith;
}

short-IsValid : IsValid short
short-IsValid = record {
  ordered = omega arith;
  inside = omega arith;
  small = omega arith;
  room = omega arith;
}

parse_request-print_example :
    (p : Progress Buffer) × (parse_request 30 new whole ≡ some p)
    × (p.ok ≡ true)
    × (p.context ≡ record {
      state = got_all;
      request =
          add_all
            (record {
              method = get;
              version = http_11;
              path = 47 ∷ 97 ∷ [];
              query = [];
              headers = [];
            })
            ((65 ∷ [], 98 ∷ []) ∷ []);
    })
    × Holds [] p.left
parse_request-print_example =
    parse_request-print 30 get (47 ∷ 97 ∷ []) [] http_11 ((65 ∷ [], 98 ∷ []) ∷ []) [] refl
      (refl, (refl, tt)) (refl, (refl, tt)) (refl, (refl, tt)) (inl refl) tt tt (inr refl)
      ((refl, tt), (refl, tt), (refl, tt), tt) whole-IsValid refl (omega arith)

parse_request-again_example :
    (p : Progress Buffer) × (crlf : ℕ) × (parse_request 9 new short ≡ some p)
    × (p.ok ≡ false)
    × (contents p.left ≡ contents short)
    × (find_crlf longer ≡ some (some crlf))
    × (read_range longer longer.read_index (sub_size crlf longer.read_index)
        ≡ some (method_string get ++ space ∷ 47 ∷ 97 ∷ []))
    × (set_method p.context.request (method_string get) ≡ none)
    × (process_request_line p.context.request (method_string get ++ space ∷ 47 ∷ 97 ∷ []) ≡ none)
    × (parse_request 2 p.context longer ≡ none)
parse_request-again_example =
    parse_request-again 9 1 get (47 ∷ 97 ∷ []) [] (65 ∷ 66 ∷ []) refl (refl, (refl, tt))
      (refl, (refl, (refl, (refl, (refl, (refl, tt)))))) short-IsValid refl (omega arith)
      longer-IsValid refl
