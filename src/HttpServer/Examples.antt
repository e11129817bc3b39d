-- ===== src/HttpServer/Examples.antt =====
-- The theorem on the server at a concrete request.
use suduo.Prelude.{
  ℕ, zero, suc, ◌+◌, ◌/◌, ◌%◌, ◌≡◌, refl, inl, inr, some, List, [], ◌∷◌, ◌++◌, arith, replicate,
  if◌then◌else◌, ltb,
}
use suduo.Buffer.{Buffer}
use suduo.Buffer.Space.{IsValid}
use suduo.Buffer.Contents.{Holds}
use suduo.HttpRequest.{HttpRequest, get, http_11, add_header, get_header}
use suduo.HttpContext.{new}
use suduo.HttpServer.{Session, on_message, default_http_callback}
use suduo.HttpServer.Serves.{answers, on_message-answers}

-- "GET /a HTTP/1.1", one header, and the empty line.
abbrev whole : Buffer
whole = record {
  storage =
      replicate 8 0
      ++ (71
          ∷ 69
          ∷ 84
          ∷ 32
          ∷ 47
          ∷ 97
          ∷ 32
          ∷ 72
          ∷ 84
          ∷ 84
          ∷ 80
          ∷ 47
          ∷ 49
          ∷ 46
          ∷ 49
          ∷ 13
          ∷ 10
          ∷ 65
          ∷ 58
          ∷ 98
          ∷ 13
          ∷ 10
          ∷ 13
          ∷ 10
          ∷ replicate 1000 0);
  read_index = 8;
  write_index = 32;
}

whole-IsValid : IsValid whole
whole-IsValid = record {
  ordered = omega arith;
  inside = omega arith;
  small = omega arith;
  room = omega arith;
}

-- The digits of a number, of which there are few.
abbrev digits : ℕ → ℕ → List ℕ
digits zero n = []
digits (suc fuel) n = if ltb n 10 then (48 + n) ∷ [] else digits fuel (n / 10) ++ (48 + n % 10) ∷ []

abbrev asked : HttpRequest
asked =
    add_header
      (record { method = get; version = http_11; path = 47 ∷ 97 ∷ []; query = []; headers = [] })
      (65 ∷ []) (98 ∷ [])

on_message-answers_example :
    (s : Session) × (on_message
        (digits 20)
        default_http_callback
        30
        (record { context = new; input = whole; calls = [] })
      ≡ some s)
    × (s.calls ≡ [] ++ answers (digits 20) default_http_callback asked)
    × (s.context ≡ new)
    × Holds [] s.input
unfolding default_http_callback get_header add_header
on_message-answers_example =
    on_message-answers (digits 20) default_http_callback 30 [] get (47 ∷ 97 ∷ []) [] http_11
      ((65 ∷ [], 98 ∷ []) ∷ []) [] refl (refl, (refl, tt)) (refl, (refl, tt)) (refl, (refl, tt))
      (inl refl) tt tt (inr refl) ((refl, tt), (refl, tt), (refl, tt), tt) whole-IsValid refl
      (omega arith) ((omega arith, omega arith), omega arith)
