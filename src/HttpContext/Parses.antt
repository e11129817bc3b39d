-- ===== src/HttpContext/Parses.antt =====
-- The parser's loop on a list of bytes, and how the loop over a buffer compares with it.
use suduo.Prelude.{
  ℕ, zero, suc, ◌<◌, ◌≡◌, refl, sym, ap, ◌∙◌, inl, inr, Bool, true, false, not, Option, none, some,
  List, [], ◌∷◌, length, arith, Bool-cases, subst, ◌>>=◌, add_size,
}
use suduo.Buffer.{Buffer, retrieve_until}
use suduo.Buffer.Space.{IsValid, contents}
use suduo.Buffer.Contents.{Holds}
use suduo.HttpRequest.{
  HttpRequest, is_invalid, add_header, find, process_request_line, process_method, set_method,
}
use suduo.HttpContext.{
  HttpContext, State, expect_request_line, expect_headers, expect_body, got_all, Progress, colon,
  take_request_line, take_field, take_header, take_line, waits, reads_lines, turn_at, turn, follow,
  parse_request,
}
use suduo.HttpContext.Lines.{split_line, NextLine, next_line}

abbrev pub line_turn : HttpContext → List ℕ → Option (List ℕ × List ℕ) → Option (Progress (List ℕ))
line_turn c bytes none = some (waits c bytes)
line_turn c bytes (some (line, rest)) = take_line c.state c bytes line rest

unfoldable pub parse_bytes : ℕ → HttpContext → List ℕ → Option (Progress (List ℕ))
parse_bytes zero c bytes = none
parse_bytes (suc fuel) c bytes = line_turn c bytes (split_line bytes) >>= follow (parse_bytes fuel)

-- The same progress, on a buffer and on its bytes.
pub record Shows (p : Progress Buffer) (p' : Progress (List ℕ)) : Type 0 where
  pub has_more : p.has_more ≡ p'.has_more
  pub ok : p.ok ≡ p'.ok
  pub context : p.context ≡ p'.context
  pub left : Holds p'.left p.left

-- The loop makes progress, and the method may be set.
abbrev pub ReadyAt : State → HttpRequest → Type 0
ReadyAt expect_request_line r = is_invalid r.method ≡ true
ReadyAt expect_headers r = Unit {0}
ReadyAt _ r = ⊥

process_method-ends :
    (r : HttpRequest) (method rest : List ℕ)
    → is_invalid r.method ≡ true
    → (ok : Bool) × (r' : HttpRequest) × (process_method r method rest ≡ some (ok, r'))
unfolding process_method set_method
process_method-ends r method [] h = (false, r, refl)
process_method-ends r method (c ∷ rest) h = rw h (_, _, refl)

process_request_line-ends :
    (r : HttpRequest) (line : List ℕ)
    → is_invalid r.method ≡ true
    → (ok : Bool) × (r' : HttpRequest) × (process_request_line r line ≡ some (ok, r'))
unfolding process_request_line
process_request_line-ends r line h = process_method-ends r (find 32 line).0 (find 32 line).1 h

-- A round on a line of a buffer and on the same line of its bytes.
abbrev Rounds : Option (Progress Buffer) → Option (Progress (List ℕ)) → List ℕ → Type 0
Rounds m m' rest =
    (p : Progress Buffer) × (p' : Progress (List ℕ)) × (m ≡ some p)
    × (m' ≡ some p')
    × Shows p p'
    × (p'.has_more ≡ true → ReadyAt p'.context.state p'.context.request × (p'.left ≡ rest))

take_request_line-Rounds :
    (c : HttpContext) {b left : Buffer} {bytes rest : List ℕ} (line : List ℕ) (ok : Bool)
    (r : HttpRequest)
    → process_request_line c.request line ≡ some (ok, r)
    → Holds bytes b
    → Holds rest left
    → Rounds (take_request_line c b line left) (take_request_line c bytes line rest) rest
unfolding take_request_line
take_request_line-Rounds c line true r done held held' = rw done (
  _,
  _,
  refl,
  refl,
  record { has_more = refl; ok = refl; context = refl; left = held' },
  λ h. (tt, refl),
)
take_request_line-Rounds c line false r done held held' = rw done (
  _,
  _,
  refl,
  refl,
  record { has_more = refl; ok = refl; context = refl; left = held },
  λ h. absurd cc,
)

take_field-Rounds :
    (c : HttpContext) {left : Buffer} {rest : List ℕ} (field from_mark : List ℕ)
    → ReadyAt c.state c.request
    → c.state ≡ expect_headers
    → Holds rest left
    → Rounds
        (some (take_field c field from_mark left))
        (some (take_field c field from_mark rest))
        rest
take_field-Rounds c field [] ready s held = (
  _,
  _,
  refl,
  refl,
  record { has_more = refl; ok = refl; context = refl; left = held },
  λ h. absurd cc,
)
take_field-Rounds c field (mark ∷ value) ready s held = (
  _,
  _,
  refl,
  refl,
  record { has_more = refl; ok = refl; context = refl; left = held },
  λ h. (subst (λ s. ReadyAt s (add_header c.request field value)) (sym s) tt, refl),
)

take_line-Rounds :
    (s : State) (c : HttpContext) {b left : Buffer} {bytes rest : List ℕ} (line : List ℕ)
    → c.state ≡ s
    → ReadyAt s c.request
    → Holds bytes b
    → Holds rest left
    → Rounds (take_line s c b line left) (take_line s c bytes line rest) rest
unfolding take_line take_header
take_line-Rounds expect_request_line c line e ready held held' =
    let (ok, r, done) = process_request_line-ends c.request line ready in
    take_request_line-Rounds c line ok r done held held'
take_line-Rounds expect_headers c line e ready held held' =
    take_field-Rounds c (find colon line).0 (find colon line).1
      (subst (λ s. ReadyAt s c.request) (sym e) tt) e held'
take_line-Rounds expect_body c line e ready held held' = absurd ready
take_line-Rounds got_all c line e ready held held' = absurd ready

ready-reads : (s : State) (r : HttpRequest) → ReadyAt s r → reads_lines s ≡ true
ready-reads expect_request_line r h = refl
ready-reads expect_headers r h = refl
ready-reads expect_body r h = absurd h
ready-reads got_all r h = absurd h

module _ {B : Type 0} (next : HttpContext → B → Option (Progress B)) (p : Progress B) where
  pub follow-end : p.has_more ≡ false → follow next p ≡ some p
  follow-end h = ap (λ b. elim b [ true ↦ next p.context p.left | false ↦ some p ]) h

  pub follow-on : p.has_more ≡ true → follow next p ≡ next p.context p.left
  follow-on h = ap (λ b. elim b [ true ↦ next p.context p.left | false ↦ some p ]) h

-- What the loop over a buffer does, by the bytes in it: it ends, with fuel for each byte.
abbrev pub Ends : ℕ → HttpContext → Buffer → Type 0
Ends fuel c b =
    (p : Progress Buffer) × (p' : Progress (List ℕ)) × (parse_request fuel c b ≡ some p)
    × (parse_bytes fuel c (contents b) ≡ some p')
    × Shows p p'

turn-line :
    (c : HttpContext) {b : Buffer} {crlf : ℕ} {line rest : List ℕ} {p : Progress Buffer}
    → NextLine b crlf line rest
    → take_line c.state c b line (retrieve_until b (add_size crlf 2)) ≡ some p
    → turn c b ≡ some p
unfolding turn turn_at
turn-line c {b} {crlf} n done =
    ap (λ m. m >>= turn_at c b) n.found
    ∙ ap (λ m. m >>= λ line. take_line c.state c b line (retrieve_until b (add_size crlf 2))) n.read
    ∙ done

line-Ends :
    (fuel : ℕ) (c : HttpContext) {b : Buffer} {crlf : ℕ} {line rest : List ℕ}
    → ReadyAt c.state c.request
    → IsValid b
    → length (contents b) < suc fuel
    → NextLine b crlf line rest
    → ((c : HttpContext) (b : Buffer)
        → ReadyAt c.state c.request
        → IsValid b
        → length (contents b) < fuel
        → Ends fuel c b)
    → Ends (suc fuel) c b
unfolding parse_request parse_bytes
line-Ends fuel c {b} {rest = rest} ready v h n next =
    let (p, p', done, done', sh, more) =
      take_line-Rounds c.state c _ refl ready (record { valid = v; held = refl }) n.left in
    let starts = ap (λ m. m >>= follow (parse_request fuel)) (turn-line c n done) in
    let starts' =
      ap (λ m. m >>= follow (parse_bytes fuel)) (ap (line_turn c (contents b)) n.split ∙ done') in
    elim (Bool-cases p'.has_more) [
      | inr stop ↦ (
        p,
        p',
        starts ∙ follow-end (parse_request fuel) p (sh.has_more ∙ stop),
        starts' ∙ follow-end (parse_bytes fuel) p' stop,
        sh,
      )
      | inl goes ↦
          let (ready', same) = more goes in
          let (q, q', ends, ends', sh') =
            next p'.context p.left ready' sh.left.valid
              (omega (arith, h, n.shorter, ap length sh.left.held, ap length same)) in
          (
            q,
            q',
            starts
                ∙ follow-on (parse_request fuel) p (sh.has_more ∙ goes)
                ∙ ap (λ c. parse_request fuel c p.left) sh.context
                ∙ ends,
            starts'
                ∙ follow-on (parse_bytes fuel) p' goes
                ∙ ap (parse_bytes fuel p'.context) (sym sh.left.held)
                ∙ ends',
            sh',
          )
    ]

pub parse_request-Shows :
    (fuel : ℕ) (c : HttpContext) {b : Buffer}
    → ReadyAt c.state c.request
    → IsValid b
    → length (contents b) < fuel
    → Ends fuel c b
unfolding parse_request parse_bytes turn turn_at
parse_request-Shows zero c ready v h = absurd (omega arith)
parse_request-Shows (suc fuel) c {b} ready v h = elim (next_line v) [
  | inr (crlf, line, rest, n) ↦ line-Ends fuel c ready v h n (λ c b. parse_request-Shows fuel c)
  | inl (missing, no_line) ↦
      let stop : not (reads_lines c.state) ≡ false = ap not (ready-reads c.state c.request ready) in
      (
        waits c b,
        waits c (contents b),
        ap (λ m. m >>= turn_at c b >>= follow (parse_request fuel)) missing
            ∙ follow-end (parse_request fuel) (waits c b) stop,
        ap (λ m. line_turn c (contents b) m >>= follow (parse_bytes fuel)) no_line
            ∙ follow-end (parse_bytes fuel) (waits c (contents b)) stop,
        record {
          has_more = refl;
          ok = refl;
          context = refl;
          left = record { valid = v; held = refl };
        },
      )
]
