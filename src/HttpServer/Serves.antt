-- ===== src/HttpServer/Serves.antt =====
-- The server's answer to a request as a client prints it.
use suduo.Prelude.{
  Bool, true, not, ◌&&◌, ◌||◌, Bool-cases, inl, inr, equal, equal→≡, take_of_le, length-append,
  append_assoc, append-nil, arith, ℕ, ◌+◌, ◌≤◌, ◌<◌, ◌≡◌, refl, ap, ◌∙◌, ◌⊎◌, false, some, List, [],
  ◌∷◌, ◌++◌, if◌then◌else◌, length, max_size, ◌>>=◌,
}
use suduo.Buffer.{Buffer}
use suduo.Buffer.Space.{IsValid, contents}
use suduo.Buffer.Contents.{Holds, retrieve_all_as_string-eq}
use suduo.HttpRequest.{
  HttpRequest, Method, Version, unknown, get_header, http_10, http_11, is_invalid, space,
  question_mark,
}
use suduo.HttpRequest.Line.{Without, IsQuery}
use suduo.HttpContext.{HttpContext, got_all, is_got_all, Progress, new as new_context}
use suduo.HttpContext.RoundTrip.{header_lines, add_all, AllPlain, request_line, parse_request-print}
use suduo.HttpServer.{
  crlf, close_string, keep_alive_string, connection_string, is_http_10, header_pieces,
  connection_pieces, HttpResponse, new_response, closes, pieces, Call, sends, shuts_down, Session,
  on_request, answer, on_message, bad_request,
}
use suduo.HttpServer.Response.{concat, append_to_buffer-Returns}

-- One line for each header, ended by a carriage return and a line feed.
abbrev pub header_text : List (List ℕ × List ℕ) → List ℕ
header_text [] = []
header_text ((key, value) ∷ rest) = key ++ 58 ∷ 32 ∷ (value ++ 13 ∷ 10 ∷ header_text rest)

-- "Connection: close", or "Content-Length: ", the length, and "Connection: Keep-Alive".
abbrev pub connection_text : Bool → List ℕ → List ℕ
connection_text true len =
    67 ∷ 111 ∷ 110 ∷ 110 ∷ 101 ∷ 99 ∷ 116 ∷ 105 ∷ 111 ∷ 110 ∷ 58 ∷ 32 ∷ 99 ∷ 108 ∷ 111 ∷ 115 ∷ 101
    ∷ 13 ∷ 10 ∷ []
connection_text false len =
    67
    ∷ 111
    ∷ 110
    ∷ 116
    ∷ 101
    ∷ 110
    ∷ 116
    ∷ 45
    ∷ 76
    ∷ 101
    ∷ 110
    ∷ 103
    ∷ 116
    ∷ 104
    ∷ 58
    ∷ 32
    ∷ (len
        ++ 13 ∷ 10 ∷ 67 ∷ 111 ∷ 110 ∷ 110 ∷ 101 ∷ 99 ∷ 116 ∷ 105 ∷ 111 ∷ 110 ∷ 58 ∷ 32 ∷ 75 ∷ 101
          ∷ 101 ∷ 112 ∷ 45 ∷ 65 ∷ 108 ∷ 105 ∷ 118 ∷ 101 ∷ 13 ∷ 10 ∷ [])

-- "HTTP/1.1 ", the code, a space and the message; the lines of the connection and of the headers; an empty
-- line; the body.
abbrev pub reply : (ℕ → List ℕ) → HttpResponse → List ℕ
reply print r =
    72
    ∷ 84
    ∷ 84
    ∷ 80
    ∷ 47
    ∷ 49
    ∷ 46
    ∷ 49
    ∷ 32
    ∷ (print r.status_code
        ++ 32
          ∷ (r.status_message
              ++ 13
                ∷ 10
                ∷ (connection_text r.close_connection (print (length r.body))
                    ++ (header_text r.headers ++ 13 ∷ 10 ∷ r.body))))

-- The numbers are short enough for the 31 characters that `snprintf` may write.
abbrev pub Short : (ℕ → List ℕ) → HttpResponse → Type 0
Short print r = (length (print r.status_code) ≤ 21) × (length (print (length r.body)) ≤ 13)

-- Whether the answer closes the connection, by the value of the request's "Connection" header: under HTTP/1.0
-- unless it is "Keep-Alive", else if it is "close".
abbrev pub wants_close : Version → List ℕ → Bool
wants_close http_10 value =
    not (equal value (75 ∷ 101 ∷ 101 ∷ 112 ∷ 45 ∷ 65 ∷ 108 ∷ 105 ∷ 118 ∷ 101 ∷ []))
wants_close unknown value = equal value (99 ∷ 108 ∷ 111 ∷ 115 ∷ 101 ∷ [])
wants_close http_11 value = equal value (99 ∷ 108 ∷ 111 ∷ 115 ∷ 101 ∷ [])

-- The response before the callback.
abbrev pub fresh : HttpRequest → HttpResponse
fresh request = record {
  headers = [];
  status_code = 0;
  status_message = [];
  close_connection =
      wants_close request.version
        (get_header request (67 ∷ 111 ∷ 110 ∷ 110 ∷ 101 ∷ 99 ∷ 116 ∷ 105 ∷ 111 ∷ 110 ∷ []));
  body = [];
}

wants_close_lem :
    (v : Version) (value : List ℕ)
    → (equal value close_string || is_http_10 v && not (equal value keep_alive_string))
      ≡ wants_close v value
wants_close_lem http_10 value = elim (Bool-cases (equal value close_string)) [
  | inl same ↦ let is : value ≡ close_string = equal→≡ value close_string same in rw is refl
  | inr other ↦ rw other refl
]
wants_close_lem http_11 value = elim (Bool-cases (equal value close_string)) [
  | inl same ↦ rw same refl
  | inr other ↦ rw other refl
]
wants_close_lem unknown value = elim (Bool-cases (equal value close_string)) [
  | inl same ↦ rw same refl
  | inr other ↦ rw other refl
]

fresh-eq : (request : HttpRequest) → new_response (closes request) ≡ fresh request
unfolding new_response closes
fresh-eq request =
    ap
      (λ close. record {
        headers = [];
        status_code = 0;
        status_message = [];
        close_connection = close;
        body = [];
      })
      (wants_close_lem request.version (get_header request connection_string))

header_text-eq :
    (hs : List (List ℕ × List ℕ)) (rest : List (List ℕ))
    → concat (header_pieces hs ++ rest) ≡ header_text hs ++ concat rest
header_text-eq [] rest = refl
header_text-eq ((key, value) ∷ hs) rest = rw (header_text-eq hs rest) (simp append_assoc)

connection_text-eq :
    (print : ℕ → List ℕ) (r : HttpResponse) (close : Bool) (rest : List (List ℕ))
    → r.close_connection ≡ close
    → length (print (length r.body)) ≤ 13
    → concat (connection_pieces print r ++ rest)
      ≡ connection_text close (print (length r.body)) ++ concat rest
unfolding connection_pieces
connection_text-eq print r true rest e small = rw e refl
connection_text-eq print r false rest e small =
    rw
      (
        e,
        take_of_le 15 (print (length r.body) ++ crlf)
            (omega (arith, length-append (print (length r.body)) crlf)),
      )
      (simp append_assoc)

reply-eq :
    (print : ℕ → List ℕ) (r : HttpResponse)
    → Short print r
    → concat (pieces print r) ≡ reply print r
unfolding pieces
reply-eq print r (code, len) =
    rw
      (
        take_of_le 22 (print r.status_code ++ 32 ∷ [])
            (omega (arith, length-append (print r.status_code) (32 ∷ []))),
        connection_text-eq print r r.close_connection
            (header_pieces r.headers ++ crlf ∷ r.body ∷ []) refl len,
        header_text-eq r.headers (crlf ∷ r.body ∷ []),
        append-nil r.body,
      )
      (simp append_assoc)

module _ (print : ℕ → List ℕ) (callback : HttpRequest → HttpResponse → HttpResponse) where
  abbrev pub response_to : HttpRequest → HttpResponse
  response_to request = callback request (fresh request)

  -- The calls that answer a request.
  abbrev pub answers : HttpRequest → List Call
  answers request =
      sends (reply print (response_to request))
      ∷ (if (response_to request).close_connection then shuts_down ∷ [] else [])

  -- The response fits a buffer, and its numbers the room for them.
  abbrev pub Fits : HttpRequest → Type 0
  Fits request =
      Short print (response_to request)
      × (8 + length (reply print (response_to request)) ≤ max_size)

  on_request-answers :
      (calls : List Call) (request : HttpRequest)
      → Fits request
      → on_request print callback calls request ≡ some (calls ++ answers request)
  unfolding on_request
  on_request-answers calls request (short, room) =
      let text = reply-eq print (response_to request) short in
      let (b, done, held) =
        append_to_buffer-Returns print (response_to request)
          (omega (arith, room, ap length text)) in
      rw (fresh-eq request, done, retrieve_all_as_string-eq held.valid)
        (ap
          (λ bs. some (
            calls
            ++ sends bs ∷ (if (response_to request).close_connection then shuts_down ∷ [] else [])))
          (held.held ∙ text))

  answer-answers :
      (calls : List Call) (p : Progress Buffer) (request : HttpRequest)
      → p.context ≡ record { state = got_all; request = request }
      → Fits request
      → answer print callback calls p
        ≡ some (record { context = new_context; input = p.left; calls = calls ++ answers request })
  unfolding answer
  answer-answers calls p request context room =
      ap {A = HttpContext}
        (λ c.
          if is_got_all c.state
          then (on_request print callback calls c.request >>= λ calls'. some (after calls'))
          else some (record { context = c; input = p.left; calls = calls }))
        context
      ∙ ap (λ m. m >>= λ calls'. some (after calls')) (on_request-answers calls request room)
    where
      after : List Call → Session
      after calls' = record { context = new_context; input = p.left; calls = calls' }

  -- A request as a client prints it, with a known method, a path, a query, a version and headers of the
  -- form that the parser takes, is answered by the text of the response that the callback makes of
  -- a new one: the status line, the line or lines of the connection, those of the headers, an
  -- empty line and the body; and by a shutdown if that response closes the connection, which a new
  -- one does under HTTP/1.0 unless the request has "Connection: Keep-Alive", and under HTTP/1.1 if
  -- it has "Connection: close". The context is new again, and what stands behind the request is
  -- left in the input. The response has to fit a buffer, its code is printed in at most 21
  -- characters and the length of its body in at most 13.
  pub on_message-answers :
      {b : Buffer} (fuel : ℕ) (calls : List Call) (m : Method) (path query : List ℕ) (v : Version)
      (hs : List (List ℕ × List ℕ)) (rest : List ℕ)
      → is_invalid m ≡ false
      → Without space path
      → Without question_mark path
      → Without 13 path
      → IsQuery query
      → Without space query
      → Without 13 query
      → (v ≡ http_10) ⊎ (v ≡ http_11)
      → AllPlain hs
      → IsValid b
      → contents b ≡ request_line m path query v ++ 13 ∷ 10 ∷ header_lines hs rest
      → length (contents b) < fuel
      → Fits (
          add_all (record { method = m; version = v; path = path; query = query; headers = [] }) hs)
      → (s : Session) × (on_message print callback fuel
            (record { context = new_context; input = b; calls = calls })
          ≡ some s)
        × (s.calls
            ≡ calls
              ++ answers (
                  add_all
                    (record { method = m; version = v; path = path; query = query; headers = [] })
                    hs))
        × (s.context ≡ new_context)
        × Holds rest s.input
  unfolding on_message answer
  on_message-answers {b} fuel calls m path query v hs rest k p1 p2 p3 q q1 q2 is_v plain valid held
        h room =
      let request : HttpRequest =
        add_all (record { method = m; version = v; path = path; query = query; headers = [] }) hs in
      let (p, done, ok, context, left) =
        parse_request-print fuel m path query v hs rest k p1 p2 p3 q q1 q2 is_v plain valid held
          h in
      let s : Session = record {
        context = new_context;
        input = p.left;
        calls = calls ++ answers request;
      } in
      (
        s,
        ap
              (λ m. m >>= λ p.
                answer print callback
                  (if p.ok then calls else calls ++ sends bad_request ∷ shuts_down ∷ []) p)
              done
            ∙ ap
                (λ ok.
                  answer print callback
                    (if ok then calls else calls ++ sends bad_request ∷ shuts_down ∷ []) p)
                ok
            ∙ answer-answers calls p request context room,
        refl,
        refl,
        left,
      )
