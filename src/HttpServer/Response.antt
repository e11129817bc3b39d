-- ===== src/HttpServer/Response.antt =====
-- The pieces of a response in a new buffer.
use suduo.Prelude.{
  ℕ, ◌+◌, ◌≤◌, ◌≡◌, refl, sym, ap, ◌∙◌, inl, inr, List, [], ◌∷◌, ◌++◌, append_assoc, append-nil,
  arith, length, length-append, max_size, subst, ◌>>=◌,
}
use suduo.Buffer.{Buffer, init_size, new}
use suduo.Buffer.Space.{IsValid, contents, length-contents}
use suduo.Buffer.Contents.{Holds, Returns, new_lem}
use suduo.Buffer.Append.{append-front}
use suduo.HttpServer.{HttpResponse, pieces, append_all, append_to_buffer}

abbrev pub concat : List (List ℕ) → List ℕ
concat [] = []
concat (p ∷ ps) = p ++ concat ps

-- In a buffer with its bytes in front free, appending pieces.
append_all-Returns :
    (ps : List (List ℕ)) {b : Buffer}
    → IsValid b
    → b.read_index ≡ 8
    → 8 + (length (contents b) + length (concat ps)) ≤ max_size
    → Returns (contents b ++ concat ps) (append_all b ps)
unfolding append_all
append_all-Returns [] {b} v start room =
    (b, refl, record { valid = v; held = sym (append-nil (contents b)) })
append_all-Returns (p ∷ ps) {b} v start room =
    let (b', done, held, front) =
      append-front p v (omega (arith, v.ordered, length-contents v, length-append p (concat ps))) in
    let start' : b'.read_index ≡ 8 = elim front [ inl same ↦ same ∙ start | inr eight ↦ eight ] in
    let (b'', done', held') = append_all-Returns ps held.valid start' (
      omega
        (arith, ap length held.held, length-append (contents b) p, length-append p (concat ps))) in
    (
      b'',
      ap (λ m. m >>= λ b. append_all b ps) done ∙ done',
      subst (λ bs. Holds bs b'')
          (ap (λ bs. bs ++ concat ps) held.held ∙ append_assoc (contents b) p (concat ps)) held',
    )

new_start : (new init_size).read_index ≡ 8
unfolding new
new_start = refl

pub append_to_buffer-Returns :
    (print : ℕ → List ℕ) (r : HttpResponse)
    → 8 + length (concat (pieces print r)) ≤ max_size
    → Returns (concat (pieces print r)) (append_to_buffer print r (new init_size))
unfolding append_to_buffer
append_to_buffer-Returns print r room =
    let (v, empty) = new_lem init_size in
    let (b, done, held) =
      append_all-Returns (pieces print r) v new_start (omega (arith, ap length empty)) in
    (b, done, subst (λ bs. Holds (bs ++ concat (pieces print r)) b) empty held)
