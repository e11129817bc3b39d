-- ===== src/HttpContext/Repeats.antt =====
-- A request line that is rejected, and the call after it.
use suduo.Prelude.{
  append_assoc, sub_size, ℕ, zero, suc, ◌<◌, ◌≡◌, refl, sym, ap, ◌∙◌, inl, inr, false, none, some,
  List, [], ◌∷◌, ◌++◌, length, arith,
}
use suduo.Buffer.Search.{find_crlf}
use suduo.Buffer.{read_range, Buffer}
use suduo.Buffer.Space.{IsValid, contents}
use suduo.HttpRequest.{
  HttpRequest, Method, invalid, get, post, head, put, delete, unknown, is_invalid, method_string,
  method_of, process_request_line, process_method, process_target, set_method, space,
  new as new_request,
}
use suduo.HttpRequest.Line.{Without, find-stop, find-end}
use suduo.HttpContext.{
  HttpContext, expect_request_line, Progress, new, take_request_line, take_line, turn, turn_at,
  parse_request,
}
use suduo.HttpContext.Lines.{split_line, next_line}
use suduo.HttpContext.Parses.{parse_bytes, parse_request-Shows}
use suduo.HttpContext.RoundTrip.{split_line-print}

-- The context after the rejected line.
abbrev pub stuck : Method → HttpContext
stuck m = record {
  state = expect_request_line;
  request = record { method = m; version = unknown; path = []; query = []; headers = [] };
}

method_space : (m : Method) → Without space (method_string m)
method_space get = (refl, (refl, (refl, tt)))
method_space post = (refl, (refl, (refl, (refl, tt))))
method_space head = (refl, (refl, (refl, (refl, tt))))
method_space put = (refl, (refl, (refl, tt)))
method_space delete = (refl, (refl, (refl, (refl, (refl, (refl, tt))))))
method_space invalid = (refl, (refl, (refl, (refl, (refl, (refl, (refl, tt)))))))

method_of-string : (m : Method) → is_invalid m ≡ false → method_of (method_string m) ≡ m
unfolding method_of
method_of-string get h = refl
method_of-string post h = refl
method_of-string head h = refl
method_of-string put h = refl
method_of-string delete h = refl
method_of-string invalid h = absurd cc

rejects :
    (m : Method) (target : List ℕ)
    → is_invalid m ≡ false
    → Without space target
    → process_request_line new_request (method_string m ++ space ∷ target)
      ≡ some (false, (stuck m).request)
unfolding process_request_line process_method process_target set_method new_request
rejects m target known plain =
    rw
      (
        find-stop space (method_string m) target (method_space m),
        method_of-string m known,
        known,
        find-end space target plain,
      )
      refl

-- With the method set, a line with a space in it fails the assertion of `setMethod`.
asserts :
    (m : Method) (target : List ℕ)
    → is_invalid m ≡ false
    → (set_method (stuck m).request (method_string m) ≡ none)
      × (process_request_line (stuck m).request (method_string m ++ space ∷ target) ≡ none)
unfolding process_request_line process_method set_method
asserts m target known =
    (rw known refl, rw (find-stop space (method_string m) target (method_space m), known) refl)

turn_asserts :
    {b : Buffer} (fuel : ℕ) (m : Method) (target rest : List ℕ)
    → is_invalid m ≡ false
    → Without 13 (method_string m ++ space ∷ target)
    → IsValid b
    → contents b ≡ (method_string m ++ space ∷ target) ++ 13 ∷ 10 ∷ rest
    → (crlf : ℕ) × (find_crlf b ≡ some (some crlf))
      × (read_range b b.read_index (sub_size crlf b.read_index)
          ≡ some (method_string m ++ space ∷ target))
      × (parse_request (suc fuel) (stuck m) b ≡ none)
unfolding parse_request turn turn_at take_line take_request_line
turn_asserts {b} fuel m target rest known plain v held =
    let print =
      ap split_line held ∙ split_line-print (method_string m ++ space ∷ target) rest plain in
    elim (next_line v) [
      | inl (missing, no_line) ↦ let clash = sym no_line ∙ print in absurd cc
      | inr (crlf, line, behind, n) ↦
          let both = sym n.split ∙ print in
          let same : line ≡ method_string m ++ space ∷ target = cc in
          (
            crlf,
            n.found,
            n.read ∙ ap some same,
            rw (n.found, n.read, same, (asserts m target known).1) refl,
          )
    ]

rejected :
    (fuel : ℕ) (line rest : List ℕ) (r : HttpRequest)
    → Without 13 line
    → process_request_line new_request line ≡ some (false, r)
    → parse_bytes (suc fuel) new (line ++ 13 ∷ 10 ∷ rest)
      ≡ some (record {
        has_more = false;
        ok = false;
        context = record { state = expect_request_line; request = r };
        left = line ++ 13 ∷ 10 ∷ rest;
      })
unfolding parse_bytes take_line take_request_line new
rejected fuel line rest r plain done = rw (split_line-print line rest plain, done) refl

-- A first line with a known method but no space behind its target is rejected, and left in the buffer
-- with all that follows. When a later call on the same connection finds these bytes with any
-- others behind them, it reads the line once more, and `setMethod` fails its assertion that no method
-- is set.
pub parse_request-again :
    {b again : Buffer} (fuel fuel' : ℕ) (m : Method) (target rest more : List ℕ)
    → is_invalid m ≡ false
    → Without space target
    → Without 13 (method_string m ++ space ∷ target)
    → IsValid b
    → contents b ≡ (method_string m ++ space ∷ target) ++ 13 ∷ 10 ∷ rest
    → length (contents b) < fuel
    → IsValid again
    → contents again ≡ contents b ++ more
    → (p : Progress Buffer) × (crlf : ℕ) × (parse_request fuel new b ≡ some p)
      × (p.ok ≡ false)
      × (contents p.left ≡ contents b)
      × (find_crlf again ≡ some (some crlf))
      × (read_range again again.read_index (sub_size crlf again.read_index)
          ≡ some (method_string m ++ space ∷ target))
      × (set_method p.context.request (method_string m) ≡ none)
      × (process_request_line p.context.request (method_string m ++ space ∷ target) ≡ none)
      × (parse_request (suc fuel') p.context again ≡ none)
unfolding new new_request
parse_request-again {b} zero fuel' m target rest more known plain plain' v held h v' held' =
    absurd (omega arith)
parse_request-again {b} {again} (suc fuel) fuel' m target rest more known plain plain' v held h v'
      held' =
    let line = method_string m ++ space ∷ target in
    let (p, p', done, done', sh) = parse_request-Shows (suc fuel) new refl v h in
    let all = rejected fuel line rest (stuck m).request plain' (rejects m target known plain) in
    let both = sym done' ∙ ap (parse_bytes (suc fuel) new) held ∙ all in
    let same : p' ≡ record {
      has_more = false;
      ok = false;
      context = stuck m;
      left = line ++ 13 ∷ 10 ∷ rest;
    } =
      cc in
    let left : contents p.left ≡ line ++ 13 ∷ 10 ∷ rest = sh.left.held ∙ ap (λ x. x.left) same in
    let context : p.context ≡ stuck m = sh.context ∙ ap (λ x. x.context) same in
    let all_held : contents again ≡ line ++ 13 ∷ 10 ∷ (rest ++ more) =
      held' ∙ ap (λ bs. bs ++ more) held ∙ append_assoc line (13 ∷ 10 ∷ rest) more in
    let (crlf, found, read, fails) =
      turn_asserts fuel' m target (rest ++ more) known plain' v' all_held in
    let (fails_set, fails_line) = asserts m target known in
    (
      p,
      crlf,
      done,
      sh.ok ∙ ap (λ x. x.ok) same,
      left ∙ sym held,
      found,
      read,
      ap (λ c. set_method c.request (method_string m)) context ∙ fails_set,
      ap (λ c. process_request_line c.request line) context ∙ fails_line,
      ap (λ c. parse_request (suc fuel') c again) context ∙ fails,
    )
