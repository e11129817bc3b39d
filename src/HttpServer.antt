-- ===== src/HttpServer.antt =====
-- suduo/bench/http/HttpResponse.h, HttpResponse.cpp and HttpServer.cpp: what the server answers. `print`
-- is what `%d` and `%zd` write. `none` is undefined behaviour, a failed assertion, or that the fuel
-- of the parser is used up.
pub mod Response
pub mod Serves
mod Examples
use suduo.Prelude.{
  ℕ, zero, suc, Bool, true, false, ◌&&◌, ◌||◌, not, Option, none, some, List, [], ◌∷◌, ◌++◌,
  if◌then◌else◌, ltb, ◌==◌, length, take, equal, ◌>>=◌,
}
use suduo.Buffer.{Buffer, init_size, new as new_buffer, append, retrieve_all_as_string}
use suduo.HttpRequest.{HttpRequest, Version, http_10, get_header}
use suduo.HttpContext.{HttpContext, is_got_all, new as new_context, Progress, parse_request}

pub record HttpResponse : Type 0 where
  -- the map of headers, in the order of its keys
  pub headers : List (List ℕ × List ℕ)
  pub status_code : ℕ
  pub status_message : List ℕ
  pub close_connection : Bool
  pub body : List ℕ

unfoldable pub new_response : Bool → HttpResponse
new_response close = record {
  headers = [];
  status_code = 0;
  status_message = [];
  close_connection = close;
  body = [];
}

-- The order of strings.
abbrev pub before : List ℕ → List ℕ → Bool
before [] [] = false
before [] (y ∷ ys) = true
before (x ∷ xs) [] = false
before (x ∷ xs) (y ∷ ys) = ltb x y || (x == y && before xs ys)

abbrev pub put_header : List ℕ → List ℕ → List (List ℕ × List ℕ) → List (List ℕ × List ℕ)
put_header key value [] = (key, value) ∷ []
put_header key value ((key', value') ∷ rest) =
    if equal key key'
    then (key, value) ∷ rest
    else (if before key key'
        then (key, value) ∷ (key', value') ∷ rest
        else (key', value') ∷ put_header key value rest)

unfoldable pub add_header : HttpResponse → List ℕ → List ℕ → HttpResponse
add_header r key value = record r { headers = put_header key value r.headers }

unfoldable pub default_http_callback : HttpRequest → HttpResponse → HttpResponse
default_http_callback request r = record r {
  status_code = 404;
  status_message = 78 ∷ 111 ∷ 116 ∷ 32 ∷ 70 ∷ 111 ∷ 117 ∷ 110 ∷ 100 ∷ [];
  close_connection = true;
}

abbrev pub crlf : List ℕ
crlf = 13 ∷ 10 ∷ []

-- The strings that `appendToBuffer` appends, in order. `buf` has 32 characters, of which the last is 0.
abbrev pub header_pieces : List (List ℕ × List ℕ) → List (List ℕ)
header_pieces [] = []
header_pieces ((key, value) ∷ rest) = key ∷ (58 ∷ 32 ∷ []) ∷ value ∷ crlf ∷ header_pieces rest

abbrev pub close_string : List ℕ
close_string = 99 ∷ 108 ∷ 111 ∷ 115 ∷ 101 ∷ []

abbrev pub keep_alive_string : List ℕ
keep_alive_string = 75 ∷ 101 ∷ 101 ∷ 112 ∷ 45 ∷ 65 ∷ 108 ∷ 105 ∷ 118 ∷ 101 ∷ []

abbrev pub connection_string : List ℕ
connection_string = 67 ∷ 111 ∷ 110 ∷ 110 ∷ 101 ∷ 99 ∷ 116 ∷ 105 ∷ 111 ∷ 110 ∷ []

unfoldable pub connection_pieces : (ℕ → List ℕ) → HttpResponse → List (List ℕ)
connection_pieces print r =
    if r.close_connection
    then (connection_string ++ 58 ∷ 32 ∷ (close_string ++ crlf)) ∷ []
    else take 31 (
        (67 ∷ 111 ∷ 110 ∷ 116 ∷ 101 ∷ 110 ∷ 116 ∷ 45 ∷ 76 ∷ 101 ∷ 110 ∷ 103 ∷ 116 ∷ 104 ∷ 58 ∷ 32
          ∷ [])
        ++ (print (length r.body) ++ crlf))
      ∷ (connection_string ++ 58 ∷ 32 ∷ (keep_alive_string ++ crlf))
      ∷ []

unfoldable pub pieces : (ℕ → List ℕ) → HttpResponse → List (List ℕ)
pieces print r =
    (take 31 ((72 ∷ 84 ∷ 84 ∷ 80 ∷ 47 ∷ 49 ∷ 46 ∷ 49 ∷ 32 ∷ []) ++ (print r.status_code ++ 32 ∷ []))
      ∷ r.status_message
      ∷ crlf
      ∷ [])
    ++ (connection_pieces print r ++ (header_pieces r.headers ++ crlf ∷ r.body ∷ []))

unfoldable pub append_all : Buffer → List (List ℕ) → Option Buffer
append_all b [] = some b
append_all b (p ∷ ps) = append b p >>= λ b'. append_all b' ps

unfoldable pub append_to_buffer : (ℕ → List ℕ) → HttpResponse → Buffer → Option Buffer
append_to_buffer print r b = append_all b (pieces print r)

-- What the server asks of the connection.
pub data Call : Type 0 where
  sends : List ℕ → Call
  shuts_down : Call

pub record Session : Type 0 where
  pub context : HttpContext
  pub input : Buffer
  pub calls : List Call

abbrev pub is_http_10 : Version → Bool
is_http_10 http_10 = true
is_http_10 _ = false

unfoldable pub closes : HttpRequest → Bool
closes request =
    equal (get_header request connection_string) close_string
    || is_http_10 request.version
      && not (equal (get_header request connection_string) keep_alive_string)

abbrev pub bad_request : List ℕ
bad_request =
    72 ∷ 84 ∷ 84 ∷ 80 ∷ 47 ∷ 49 ∷ 46 ∷ 49 ∷ 32 ∷ 52 ∷ 48 ∷ 48 ∷ 32 ∷ 66 ∷ 97 ∷ 100 ∷ 32 ∷ 82 ∷ 101
    ∷ 113 ∷ 117 ∷ 101 ∷ 115 ∷ 116 ∷ 13 ∷ 10 ∷ 13 ∷ 10 ∷ []

module _ (print : ℕ → List ℕ) (callback : HttpRequest → HttpResponse → HttpResponse) where
  unfoldable pub on_request : List Call → HttpRequest → Option (List Call)
  on_request calls request = do
    let response = callback request (new_response (closes request))
    b ← append_to_buffer print response (new_buffer init_size)
    (bytes, b') ← retrieve_all_as_string b
    some (calls ++ sends bytes ∷ (if response.close_connection then shuts_down ∷ [] else []))

  unfoldable pub answer : List Call → Progress Buffer → Option Session
  answer calls p =
      if is_got_all p.context.state
      then (on_request calls p.context.request >>= λ calls'.
          some (record { context = new_context; input = p.left; calls = calls' }))
      else some (record { context = p.context; input = p.left; calls = calls })

  unfoldable pub on_message : ℕ → Session → Option Session
  on_message fuel s = do
    p ← parse_request fuel s.context s.input
    answer (if p.ok then s.calls else s.calls ++ sends bad_request ∷ shuts_down ∷ []) p
