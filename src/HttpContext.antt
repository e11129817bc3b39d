-- ===== src/HttpContext.antt =====
-- suduo/bench/http/HttpContext.h and HttpContext.cpp: parsing the requests in a buffer. `none` is
-- undefined behaviour, a failed assertion, or that the fuel is used up.
pub mod Lines
pub mod Parses
pub mod RoundTrip
mod Repeats
mod Examples
use suduo.Prelude.{
  ℕ, zero, suc, ◌+◌, Bool, true, false, ◌&&◌, ◌||◌, not, Option, none, some, List, [], ◌∷◌, ◌++◌,
  if◌then◌else◌, ltb, leb, ◌==◌, length, sub_size, add_size, ◌>>=◌, ◌>>◌, require,
}
use suduo.Buffer.{Buffer, read_range, retrieve_until}
use suduo.Buffer.Search.{find_crlf}
use suduo.HttpRequest.{HttpRequest, new as new_request, find, add_header, process_request_line}

pub data State : Type 0 where
  expect_request_line expect_headers expect_body got_all : State

pub record HttpContext : Type 0 where
  pub state : State
  pub request : HttpRequest

abbrev pub is_got_all : State → Bool
is_got_all got_all = true
is_got_all _ = false

unfoldable pub new : HttpContext
new = record { state = expect_request_line; request = new_request }

-- After a round of the loop: `hasMore`, `ok`, the context, and what is left to read.
pub record Progress (B : Type 0) : Type 0 where
  pub has_more : Bool
  pub ok : Bool
  pub context : HttpContext
  pub left : B

abbrev pub colon : ℕ
colon = 58

-- A round of the loop on a line, with `rest` behind its end.
unfoldable pub take_request_line : {B : Type 0} → HttpContext → B → List ℕ → B → Option (Progress B)
take_request_line c whole line rest = do
  (ok, request) ← process_request_line c.request line
  some (
      if ok
      then record {
        has_more = true;
        ok = true;
        context = record { state = expect_headers; request = request };
        left = rest;
      }
      else record {
        has_more = false;
        ok = false;
        context = record c { request = request };
        left = whole;
      })

abbrev pub take_field : {B : Type 0} → HttpContext → List ℕ → List ℕ → B → Progress B
take_field c field [] rest = record {
  has_more = false;
  ok = true;
  context = record c { state = got_all };
  left = rest;
}
take_field c field (mark ∷ value) rest = record {
  has_more = true;
  ok = true;
  context = record c { request = add_header c.request field value };
  left = rest;
}

unfoldable pub take_header : {B : Type 0} → HttpContext → List ℕ → B → Progress B
take_header c line rest = take_field c (find colon line).0 (find colon line).1 rest

-- A round on a line, by the state. In the last two states the loop turns on the spot.
unfoldable pub take_line : {B : Type 0} → State → HttpContext → B → List ℕ → B → Option (Progress B)
take_line expect_request_line c whole line rest = take_request_line c whole line rest
take_line expect_headers c whole line rest = some (take_header c line rest)
take_line _ c whole line rest =
    some (record { has_more = true; ok = true; context = c; left = whole })

abbrev pub reads_lines : State → Bool
reads_lines expect_request_line = true
reads_lines expect_headers = true
reads_lines _ = false

-- No line is complete.
abbrev pub waits : {B : Type 0} → HttpContext → B → Progress B
waits c whole = record {
  has_more = not (reads_lines c.state);
  ok = true;
  context = c;
  left = whole;
}

unfoldable pub turn_at : HttpContext → Buffer → Option ℕ → Option (Progress Buffer)
turn_at c b none = some (waits c b)
turn_at c b (some crlf) = do
  line ← read_range b b.read_index (sub_size crlf b.read_index)
  take_line c.state c b line (retrieve_until b (add_size crlf 2))

unfoldable pub turn : HttpContext → Buffer → Option (Progress Buffer)
turn c b = find_crlf b >>= turn_at c b

abbrev pub follow :
    {B : Type 0} → (HttpContext → B → Option (Progress B)) → Progress B → Option (Progress B)
follow next p = elim p.has_more [ true ↦ next p.context p.left | false ↦ some p ]

unfoldable pub parse_request : ℕ → HttpContext → Buffer → Option (Progress Buffer)
parse_request zero c b = none
parse_request (suc fuel) c b = turn c b >>= follow (parse_request fuel)
