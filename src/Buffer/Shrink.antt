-- ===== src/Buffer/Shrink.antt =====
-- `shrink`: the contents move to a new vector.
use suduo.Prelude.{
  ℕ, ◌+◌, ◌≤◌, ◌≡◌, refl, ◌∙◌, some, List, [], ◌++◌, arith, length, add_size, max_size, subst,
}
use suduo.Buffer.{
  Buffer, init_size, pre_append_size, new, readable_bytes, writeadble_bytes, append, shrink,
}
use suduo.Buffer.Space.{
  IsValid, contents, readable-eq, writeable-eq, length-contents, Roomy, ensure-Roomy,
}
use suduo.Buffer.Contents.{Holds, new_lem, to_string-eq}
use suduo.Buffer.Append.{extended, extended-Holds, extended_ends, append_in_place}

-- An empty buffer with room for `n` bytes takes `bytes` and keeps room for the rest.
fill :
    {fresh other : Buffer} (n reserve : ℕ) (bytes : List ℕ)
    → Roomy fresh n other
    → contents fresh ≡ []
    → length bytes + reserve ≤ n
    → (b : Buffer) × (append other bytes ≡ some b) × Holds bytes b × (reserve ≤ writeadble_bytes b)
fill {other} n reserve bytes r empty enough =
    (extended r.valid bytes, append_in_place r.valid bytes fits, held, room)
  where
    fits : other.write_index + length bytes ≤ length other.storage
    fits = omega (arith, r.fits)

    none_before : contents other ≡ []
    none_before = r.same ∙ empty

    held : Holds bytes (extended r.valid bytes)
    held =
        subst (λ old. Holds (old ++ bytes) (extended r.valid bytes)) none_before
          (extended-Holds r.valid bytes fits)

    room : reserve ≤ writeadble_bytes (extended r.valid bytes)
    room = omega (arith, writeable-eq held.valid, extended_ends r.valid bytes fits, r.fits)

-- `shrink` keeps the contents, in a vector with `reserve` bytes behind them.
pub shrink_lem :
    {b : Buffer} (reserve : ℕ)
    → IsValid b
    → pre_append_size + readable_bytes b + reserve ≤ max_size
    → (b' : Buffer) × (shrink b reserve ≡ some b')
      × Holds (contents b) b'
      × (reserve ≤ writeadble_bytes b')
unfolding shrink
shrink_lem {b} reserve v small =
    let (other, made, r) = ensure-Roomy (new_lem init_size).0 wanted (omega (arith, starts, sum)) in
    rw (made, to_string-eq v)
      (fill wanted reserve (contents b) r (new_lem init_size).1
        (omega (arith, sum, readable-eq v, length-contents v)))
  where
    wanted : ℕ
    wanted = add_size (readable_bytes b) reserve

    sum : wanted ≡ readable_bytes b + reserve
    sum = omega arith

    starts : (new init_size).write_index ≡ pre_append_size
    starts = unfold new in refl
