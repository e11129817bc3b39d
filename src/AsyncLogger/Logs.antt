-- ===== src/AsyncLogger/Logs.antt =====
-- No log is lost on its way to the file, and the logger's thread has its spare buffers.
use suduo.Prelude.{
  ℕ, ◌+◌, ◌-◌, ◌<◌, ◌≡◌, refl, sym, ap, ◌∙◌, ◌⊎◌, inl, inr, Bool, true, false, ◌||◌, Option, some,
  List, [], ◌∷◌, ◌++◌, append_assoc, append-nil, arith, if◌then◌else◌, ltb, leb, length,
  length-append, take,
}
use suduo.AsyncLogger.{
  AsyncLogger, Event, appends, swaps, writes, new, put, append, swap, join, spare, write, turn_swap,
  turn_write, step, run,
}

pub record Inv (l : AsyncLogger) : Type 0 where
  pub logs :
      l.dropped ≡ false
      → l.file ++ (join l.buffer_to_write ++ (join l.buffer_poll ++ l.current_buffer)) ≡ l.accepted
  -- the next buffer is in use only if a full one waits
  pub next : (l.next_buffer ≡ true) ⊎ (0 < length l.buffer_poll)
  -- between two rounds both spares are there, and in a round there are buffers to make up for them
  pub spares :
      ((length l.buffer_to_write ≡ 0) × (l.new_buffer_1 ≡ true) × (l.new_buffer_2 ≡ true))
      ⊎ ((0 < length l.buffer_to_write)
          × ((l.new_buffer_2 ≡ true) ⊎ (1 < length l.buffer_to_write)))

abbrev pub Keeps : Option AsyncLogger → Type 0
Keeps r = (l : AsyncLogger) × (r ≡ some l) × Inv l

new-Inv : (size : ℕ) → Inv (new size)
unfolding new
new-Inv size = record { logs = λ h. refl; next = inl refl; spares = inl (refl, refl, refl) }

sub-zero : (n : ℕ) → n - 0 ≡ n
sub-zero n = omega arith

join-append : (bs cs : List (List ℕ)) → join (bs ++ cs) ≡ join bs ++ join cs
join-append [] cs = refl
join-append (b ∷ bs) cs =
    ap (λ xs. b ++ xs) (join-append bs cs) ∙ sym (append_assoc b (join bs) (join cs))

join-last : (bs : List (List ℕ)) (b : List ℕ) → join (bs ++ b ∷ []) ≡ join bs ++ b
join-last bs b = join-append bs (b ∷ []) ∙ ap (λ xs. join bs ++ xs) (append-nil b)

module _ {l : AsyncLogger} (inv : Inv l) where
  open inv use {logs, next, spares}

  -- A log in a new buffer, if it fits there.
  kept :
      (log : List ℕ)
      → (small : Bool)
      → l.file
          ++ (join l.buffer_to_write
              ++ ((join l.buffer_poll ++ l.current_buffer) ++ (if small then log else [])))
        ≡ (if small
            then (l.file ++ (join l.buffer_to_write ++ (join l.buffer_poll ++ l.current_buffer)))
              ++ log
            else l.file ++ (join l.buffer_to_write ++ (join l.buffer_poll ++ l.current_buffer)))
  kept log true = simp append_assoc
  kept log false = rw (append-nil (join l.buffer_poll ++ l.current_buffer)) refl

  append-Inv : (log : List ℕ) → Inv (append l log)
  unfolding append
  append-Inv log = appended (ltb (length log) (l.size - length l.current_buffer)) refl
    where
      appended :
          (fits : Bool)
          → ltb (length log) (l.size - length l.current_buffer) ≡ fits
          → Inv (record l {
            buffer_poll = if fits then l.buffer_poll else l.buffer_poll ++ l.current_buffer ∷ [];
            next_buffer = if fits then l.next_buffer else false;
            current_buffer = if fits then l.current_buffer ++ log else put l.size [] log;
            accepted = if ltb (length log) l.size then l.accepted ++ log else l.accepted;
          })
      appended true e = record {
        logs = λ h.
            let small : ltb (length log) l.size ≡ true = ground arith in
            rw (small, sym (logs h)) (simp append_assoc);
        next = next;
        spares = spares;
      }
      appended false e = record {
        logs = λ h.
            rw (sym (logs h), join-last l.buffer_poll l.current_buffer, sub-zero l.size)
              (kept log (ltb (length log) l.size));
        next = inr (omega (arith, length-append l.buffer_poll (l.current_buffer ∷ [])));
        spares = spares;
      }

  turn_swap-Keeps : (bs : List (List ℕ)) → l.buffer_to_write ≡ bs → Keeps (turn_swap l bs)
  unfolding turn_swap swap
  turn_swap-Keeps (b ∷ bs) e = (l, refl, inv)
  turn_swap-Keeps [] e =
      let (there, there') : (l.new_buffer_1 ≡ true) × (l.new_buffer_2 ≡ true) =
        ground (arith, spares, ap length e) in
      let grown : length (l.buffer_poll ++ l.current_buffer ∷ []) ≡ length l.buffer_poll + 1 =
        length-append l.buffer_poll (l.current_buffer ∷ []) in
      rw (there, there')
        (
          _,
          refl,
          record {
            logs = λ h.
                rw
                  (
                    join-last l.buffer_poll l.current_buffer,
                    append-nil (join l.buffer_poll ++ l.current_buffer),
                  )
                  (rw e at (logs h));
            next = inl (ground arith);
            spares = inr (omega (arith, grown), ground (arith, next, grown));
          },
        )

  enough :
      (b : List ℕ) (bs : List (List ℕ))
      → l.buffer_to_write ≡ b ∷ bs
      → leb
          ((if l.new_buffer_1 then 0 else 1) + (if l.new_buffer_2 then 0 else 1))
          (spare l.buffer_to_write)
        ≡ true
  enough b [] e = rw e (ground (arith, spares, ap length e))
  enough b (c ∷ bs) e = rw e (ground arith)

  written :
      (message : List ℕ) (many : Bool)
      → (l.dropped || many) ≡ false
      → (if many
            then l.file ++ (message ++ join (take 2 l.buffer_to_write))
            else l.file ++ join l.buffer_to_write)
          ++ (join l.buffer_poll ++ l.current_buffer)
        ≡ l.accepted
  written message true h = absurd (ground arith)
  written message false h =
      let kept_all : l.dropped ≡ false = ground arith in
      append_assoc l.file (join l.buffer_to_write) (join l.buffer_poll ++ l.current_buffer)
      ∙ logs kept_all

  turn_write-Keeps :
      (message : List ℕ) (bs : List (List ℕ))
      → l.buffer_to_write ≡ bs
      → Keeps (turn_write l message bs)
  unfolding turn_write write
  turn_write-Keeps message [] e = (l, refl, inv)
  turn_write-Keeps message (b ∷ bs) e = rw (enough b bs e) (
    _,
    refl,
    record {
      logs = written message (ltb 25 (length l.buffer_to_write));
      next = next;
      spares = inl (refl, refl, refl);
    },
  )

step-Keeps : {l : AsyncLogger} (e : Event) → Inv l → Keeps (step l e)
unfolding step
step-Keeps (appends log) inv = (_, refl, append-Inv inv log)
step-Keeps {l} swaps inv = turn_swap-Keeps inv l.buffer_to_write refl
step-Keeps {l} (writes message) inv = turn_write-Keeps inv message l.buffer_to_write refl

run-Keeps : (es : List Event) {l : AsyncLogger} → Inv l → Keeps (run l es)
unfolding run
run-Keeps [] {l} inv = (l, refl, inv)
run-Keeps (e ∷ es) inv = let (l', done, inv') = step-Keeps e inv in rw done (run-Keeps es inv')

-- From the start no schedule uses a missing buffer, and in the state that it reaches, unless buffers
-- were dropped, the file, the buffers on their way to it, the full ones and the current one are, in
-- this order, the logs that a buffer can hold.
pub run-logs :
    (size : ℕ) (es : List Event)
    → (l : AsyncLogger) × (run (new size) es ≡ some l)
      × (l.dropped ≡ false
          → l.file ++ (join l.buffer_to_write ++ (join l.buffer_poll ++ l.current_buffer))
            ≡ l.accepted)
run-logs size es = let (l, done, inv) = run-Keeps es (new-Inv size) in (l, done, inv.logs)
