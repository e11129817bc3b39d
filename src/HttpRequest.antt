-- ===== src/HttpRequest.antt =====
-- suduo/bench/http/HttpRequest.h and the request line of HttpContext.cpp: a range of characters is a
-- list of bytes. `none` is a failed assertion.
pub mod Line
pub mod Headers
mod Examples
use suduo.Prelude.{
  ℕ, ◌+◌, Bool, true, false, ◌&&◌, ◌||◌, not, Option, none, some, List, [], ◌∷◌, ◌++◌,
  if◌then◌else◌, ltb, leb, ◌==◌, length, take, drop, equal, ◌>>=◌, ◌>>◌, require,
}

pub data Method : Type 0 where
  invalid get post head put delete : Method

pub data Version : Type 0 where
  unknown http_10 http_11 : Version

pub record HttpRequest : Type 0 where
  pub method : Method
  pub version : Version
  pub path : List ℕ
  pub query : List ℕ
  -- the map of headers, the last one that was set first
  pub headers : List (List ℕ × List ℕ)

abbrev pub space : ℕ
space = 32

abbrev pub question_mark : ℕ
question_mark = 63

unfoldable pub new : HttpRequest
new = record { method = invalid; version = unknown; path = []; query = []; headers = [] }

-- `std::find`: the characters before the first `c`, and those from there on, none if it is missing.
abbrev pub find : ℕ → List ℕ → List ℕ × List ℕ
find c [] = ([], [])
find c (x ∷ xs) = if x == c then ([], x ∷ xs) else (x ∷ (find c xs).0, (find c xs).1)

abbrev pub method_string : Method → List ℕ
method_string get = 71 ∷ 69 ∷ 84 ∷ []
method_string post = 80 ∷ 79 ∷ 83 ∷ 84 ∷ []
method_string head = 72 ∷ 69 ∷ 65 ∷ 68 ∷ []
method_string put = 80 ∷ 85 ∷ 84 ∷ []
method_string delete = 68 ∷ 69 ∷ 76 ∷ 69 ∷ 84 ∷ 69 ∷ []
method_string invalid = 85 ∷ 78 ∷ 75 ∷ 78 ∷ 79 ∷ 87 ∷ 78 ∷ []

unfoldable pub method_of : List ℕ → Method
method_of m =
    if equal m (method_string get)
    then get
    else (if equal m (method_string post)
        then post
        else (if equal m (method_string head)
            then head
            else (if equal m (method_string put)
                then put
                else (if equal m (method_string delete) then delete else invalid))))

abbrev pub is_invalid : Method → Bool
is_invalid invalid = true
is_invalid _ = false

-- `setMethod`, and whether it knows the method.
unfoldable pub set_method : HttpRequest → List ℕ → Option (Bool × HttpRequest)
set_method r m = do
  require (is_invalid r.method)
  some (not (is_invalid (method_of m)), record r { method = method_of m })

-- `isspace` in the C locale.
abbrev pub is_space : ℕ → Bool
is_space c = c == 32 || leb 9 c && leb c 13

abbrev pub skip_spaces : List ℕ → List ℕ
skip_spaces [] = []
skip_spaces (c ∷ cs) = if is_space c then skip_spaces cs else c ∷ cs

abbrev pub drop_spaces : List ℕ → List ℕ
drop_spaces [] = []
drop_spaces (c ∷ cs) = if is_space c && length (drop_spaces cs) == 0 then [] else c ∷ drop_spaces cs

-- `addHeader`: the field, and the line behind the colon.
unfoldable pub add_header : HttpRequest → List ℕ → List ℕ → HttpRequest
add_header r field rest = record r { headers = (field, drop_spaces (skip_spaces rest)) ∷ r.headers }

abbrev pub look_up : List ℕ → List (List ℕ × List ℕ) → List ℕ
look_up field [] = []
look_up field ((key, value) ∷ rest) = if equal key field then value else look_up field rest

unfoldable pub get_header : HttpRequest → List ℕ → List ℕ
get_header r field = look_up field r.headers

-- The three parts of `processRequestLine`, from the last one on.
unfoldable pub process_version : HttpRequest → List ℕ → Bool × HttpRequest
process_version r v =
    if length v == 8 && equal (take 7 v) (72 ∷ 84 ∷ 84 ∷ 80 ∷ 47 ∷ 49 ∷ 46 ∷ [])
    then (if equal (take 1 (drop 7 v)) (49 ∷ [])
        then (true, record r { version = http_11 })
        else (if equal (take 1 (drop 7 v)) (48 ∷ [])
            then (true, record r { version = http_10 })
            else (false, r)))
    else (false, r)

unfoldable pub set_target : HttpRequest → List ℕ → List ℕ → List ℕ → HttpRequest
set_target r target before [] = record r { path = target }
set_target r target before (q ∷ qs) = record r { path = before; query = q ∷ qs }

unfoldable pub process_target : HttpRequest → List ℕ → List ℕ → Bool × HttpRequest
process_target r target [] = (false, r)
process_target r target (c ∷ version) =
    process_version
      (set_target r target (find question_mark target).0 (find question_mark target).1) version

unfoldable pub process_method : HttpRequest → List ℕ → List ℕ → Option (Bool × HttpRequest)
process_method r method [] = some (false, r)
process_method r method (c ∷ rest) = do
  (known, r') ← set_method r method
  some (if known then process_target r' (find space rest).0 (find space rest).1 else (false, r'))

unfoldable pub process_request_line : HttpRequest → List ℕ → Option (Bool × HttpRequest)
process_request_line r line = process_method r (find space line).0 (find space line).1
