-- ===== src/TcpConnection/HighWaterMark.antt =====
-- When the high-water mark of the output buffer is reported.
use suduo.Prelude.{
  ℕ, ◌+◌, ◌≤◌, ◌<◌, ◌≡◌, refl, ap, ◌∙◌, ◌⊎◌, inl, inr, true, ◌&&◌, some, List, [], ◌∷◌, ◌++◌, arith,
  if◌then◌else◌, lt→leb, le→leb, lt→ltb, ge→ltb, dec_lt, ltb, leb, length, add_size, max_size,
  length-append,
}
use suduo.Buffer.{Buffer, readable_bytes}
use suduo.Buffer.Space.{readable-eq, IsValid, contents}
use suduo.Buffer.Append.{append-Returns}
use suduo.TcpConnection.{Connection, high_water_mark_task, keep_rest}
use suduo.TcpConnection.Stream.{held, readable-length}

-- The high-water mark is reported exactly when a message takes the held bytes from below it to it or
-- above, with the new amount; nothing else is queued.
pub keep_rest-high_water_mark :
    (c : Connection) (rest : List ℕ)
    → IsValid c.output
    → c.has_high_water_mark ≡ true
    → c.output.write_index + length rest ≤ max_size
    → (c' : Connection) × (keep_rest c rest ≡ some c')
      × (((held c < c.high_water_mark)
            × (c.high_water_mark ≤ held c')
            × (c'.pending ≡ c.pending ++ high_water_mark_task (held c') ∷ []))
          ⊎ (((c.high_water_mark ≤ held c) ⊎ (held c' < c.high_water_mark))
              × (c'.pending ≡ c.pending)))
unfolding keep_rest
keep_rest-high_water_mark c rest v set small =
    let (b, done, h) = append-Returns rest v small in
    let sum : length (contents b) ≡ length (contents c.output) + length rest =
      ap length h.held ∙ length-append (contents c.output) rest in
    let amount : add_size (readable_bytes c.output) (length rest) ≡ length (contents b) =
      omega (arith, readable-eq v, readable-length v) in
    rw done (_, refl, rw (amount, set, readable-length v) (crossing b))
  where
    crossing :
        (b : Buffer)
        → ((held c < c.high_water_mark)
            × (c.high_water_mark ≤ length (contents b))
            × ((if (leb c.high_water_mark (length (contents b)) && ltb (held c) c.high_water_mark)
                    && true
                  then c.pending ++ high_water_mark_task (length (contents b)) ∷ []
                  else c.pending)
                ≡ c.pending ++ high_water_mark_task (length (contents b)) ∷ []))
          ⊎ (((c.high_water_mark ≤ held c) ⊎ (length (contents b) < c.high_water_mark))
              × ((if (leb c.high_water_mark (length (contents b)) && ltb (held c) c.high_water_mark)
                      && true
                    then c.pending ++ high_water_mark_task (length (contents b)) ∷ []
                    else c.pending)
                  ≡ c.pending))
    crossing b = elim (dec_lt (held c) c.high_water_mark) [
      | yes below ↦ elim (dec_lt (length (contents b)) c.high_water_mark) [
        | yes still ↦ inr (inr still, rw (lt→leb _ _ still) refl)
        | no over ↦ inl (
          below,
          omega arith,
          rw (le→leb c.high_water_mark (length (contents b)) (omega arith), lt→ltb _ _ below) refl,
        )
      ]
      | no above ↦
          inr
            (inl (omega arith), rw (ge→ltb (held c) c.high_water_mark (omega arith)) (ground arith))
    ]
