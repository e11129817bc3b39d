-- ===== src/HttpContext/RoundTrip.antt =====
-- Requests as a client prints them, and the parser on them.
use suduo.Prelude.{
  ℕ, zero, suc, ◌<◌, ◌≡◌, refl, sym, ap, ◌∙◌, ◌⊎◌, true, false, some, List, [], ◌∷◌, ◌++◌, ◌==◌,
  length, length-append, arith, subst,
}
use suduo.Buffer.{Buffer}
use suduo.Buffer.Space.{IsValid, contents}
use suduo.Buffer.Contents.{Holds}
use suduo.Buffer.Search.{starts_crlf}
use suduo.HttpRequest.{
  HttpRequest, Method, invalid, get, post, head, put, delete, Version, unknown, http_10, http_11,
  is_invalid, method_string, add_header, process_request_line, space, question_mark,
  new as new_request,
}
use suduo.HttpRequest.Line.{
  Without, IsQuery, Without-append, find-stop, version_string, process_request_line-print,
}
use suduo.HttpContext.{
  expect_headers, got_all, Progress, colon, new, take_request_line, take_header, take_line,
  parse_request,
}
use suduo.HttpContext.Lines.{split_line}
use suduo.HttpContext.Parses.{parse_bytes, parse_request-Shows}

abbrev cr : ℕ
cr = 13

no_crlf : (x : ℕ) (ys : List ℕ) → (x == 13) ≡ false → starts_crlf (x ∷ ys) ≡ false
no_crlf x [] h = refl
no_crlf x (y ∷ ys) h = rw h refl

pub split_line-print :
    (line rest : List ℕ) → Without 13 line → split_line (line ++ 13 ∷ 10 ∷ rest) ≡ some (line, rest)
split_line-print [] rest h = refl
split_line-print (x ∷ xs) rest (other, h) =
    rw (no_crlf x (xs ++ 13 ∷ 10 ∷ rest) other, split_line-print xs rest h) refl

-- Headers as they stand in a request, with the empty line and what is behind it.
abbrev pub header_lines : List (List ℕ × List ℕ) → List ℕ → List ℕ
header_lines [] rest = 13 ∷ 10 ∷ rest
header_lines ((field, value) ∷ hs) rest = (field ++ colon ∷ value) ++ 13 ∷ 10 ∷ header_lines hs rest

abbrev pub add_all : HttpRequest → List (List ℕ × List ℕ) → HttpRequest
add_all r [] = r
add_all r ((field, value) ∷ hs) = add_all (add_header r field value) hs

abbrev pub AllPlain : List (List ℕ × List ℕ) → Type 0
AllPlain [] = Unit {0}
AllPlain ((field, value) ∷ hs) =
    Without colon field × Without 13 field × Without 13 value × AllPlain hs

abbrev pub request_line : Method → List ℕ → List ℕ → Version → List ℕ
request_line m path query v =
    method_string m ++ space ∷ ((path ++ query) ++ space ∷ version_string v)

headers-fit :
    (hs : List (List ℕ × List ℕ)) (rest : List ℕ) → length hs < length (header_lines hs rest)
headers-fit [] rest = omega arith
headers-fit ((field, value) ∷ hs) rest = omega (
  arith,
  headers-fit hs rest,
  length-append (field ++ colon ∷ value) (13 ∷ 10 ∷ header_lines hs rest),
)

parse_headers :
    (fuel : ℕ) (r : HttpRequest) (hs : List (List ℕ × List ℕ)) (rest : List ℕ)
    → AllPlain hs
    → length hs < fuel
    → parse_bytes fuel (record { state = expect_headers; request = r }) (header_lines hs rest)
      ≡ some (record {
        has_more = false;
        ok = true;
        context = record { state = got_all; request = add_all r hs };
        left = rest;
      })
unfolding parse_bytes take_line take_header
parse_headers zero r hs rest plain h = absurd (omega arith)
parse_headers (suc fuel) r [] rest plain h = refl
parse_headers (suc fuel) r ((field, value) ∷ hs) rest (no_mark, no_cr, no_cr', plain) h =
    rw
      (
        split_line-print (field ++ colon ∷ value) (header_lines hs rest)
            (Without-append 13 field (colon ∷ value) no_cr (refl, no_cr')),
        find-stop colon field value no_mark,
      )
      (parse_headers fuel (add_header r field value) hs rest plain (omega arith))

plain_version : (v : Version) → (v ≡ http_10) ⊎ (v ≡ http_11) → Without 13 (version_string v)
plain_version http_10 h = (refl, (refl, (refl, (refl, (refl, (refl, (refl, (refl, tt))))))))
plain_version http_11 h = (refl, (refl, (refl, (refl, (refl, (refl, (refl, (refl, tt))))))))
plain_version unknown h = tt

plain_method : (m : Method) → Without 13 (method_string m)
plain_method get = (refl, (refl, (refl, tt)))
plain_method post = (refl, (refl, (refl, (refl, tt))))
plain_method head = (refl, (refl, (refl, (refl, tt))))
plain_method put = (refl, (refl, (refl, tt)))
plain_method delete = (refl, (refl, (refl, (refl, (refl, (refl, tt))))))
plain_method invalid = (refl, (refl, (refl, (refl, (refl, (refl, (refl, tt)))))))

first_line :
    (fuel : ℕ) (line rest : List ℕ) (r : HttpRequest)
    → Without 13 line
    → process_request_line new_request line ≡ some (true, r)
    → parse_bytes (suc fuel) new (line ++ 13 ∷ 10 ∷ rest)
      ≡ parse_bytes fuel (record { state = expect_headers; request = r }) rest
unfolding parse_bytes take_line take_request_line new
first_line fuel line rest r no_cr done = rw (split_line-print line rest no_cr, done) refl

-- A request with a known method, a path without a space and a question mark, a query without a space,
-- which is empty or begins with its question mark, one of the two versions, and headers whose fields
-- have no colon, none of them with a carriage return, is parsed into these parts, in a context that
-- is new, whatever stands behind it, and that is left in the buffer; the loop ends.
pub parse_request-print :
    {b : Buffer} (fuel : ℕ) (m : Method) (path query : List ℕ) (v : Version)
    (hs : List (List ℕ × List ℕ)) (rest : List ℕ)
    → is_invalid m ≡ false
    → Without space path
    → Without question_mark path
    → Without 13 path
    → IsQuery query
    → Without space query
    → Without 13 query
    → (v ≡ http_10) ⊎ (v ≡ http_11)
    → AllPlain hs
    → IsValid b
    → contents b ≡ request_line m path query v ++ 13 ∷ 10 ∷ header_lines hs rest
    → length (contents b) < fuel
    → (p : Progress Buffer) × (parse_request fuel new b ≡ some p)
      × (p.ok ≡ true)
      × (p.context ≡ record {
        state = got_all;
        request =
            add_all
              (record { method = m; version = v; path = path; query = query; headers = [] })
              hs;
      })
      × Holds rest p.left
unfolding new new_request
parse_request-print {b} zero m path query v hs rest known p1 p2 p3 is_query q1 q2 is_v plain valid
      held h =
    absurd (omega arith)
parse_request-print {b} (suc fuel) m path query v hs rest known p1 p2 p3 is_query q1 q2 is_v plain
      valid held h =
    let line = request_line m path query v in
    let r : HttpRequest = record {
      method = m;
      version = v;
      path = path;
      query = query;
      headers = [];
    } in
    let no_cr : Without 13 line = Without-append 13 (method_string m) _ (plain_method m) (
      refl,
      Without-append 13 (path ++ query) _ (Without-append 13 path query p3 q2)
          (refl, plain_version v is_v),
    ) in
    let (p, p', done, done', sh) = parse_request-Shows (suc fuel) new refl valid h in
    let all : parse_bytes (suc fuel) new (line ++ 13 ∷ 10 ∷ header_lines hs rest)
        ≡ some (record {
          has_more = false;
          ok = true;
          context = record { state = got_all; request = add_all r hs };
          left = rest;
        }) =
      first_line fuel line (header_lines hs rest) r no_cr
        (process_request_line-print m path query v known p1 p2 is_query q1 is_v)
      ∙ parse_headers fuel r hs rest plain (
          omega (
            arith,
            h,
            ap length held,
            headers-fit hs rest,
            length-append line (13 ∷ 10 ∷ header_lines hs rest),
          )) in
    let both = sym done' ∙ ap (parse_bytes (suc fuel) new) held ∙ all in
    let same : p' ≡ record {
      has_more = false;
      ok = true;
      context = record { state = got_all; request = add_all r hs };
      left = rest;
    } =
      cc in
    (
      p,
      done,
      sh.ok ∙ ap (λ x. x.ok) same,
      sh.context ∙ ap (λ x. x.context) same,
      subst (λ x. Holds x.left p.left) same sh.left,
    )
