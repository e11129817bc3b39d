-- ===== src/BoundedBlockingQueue/Invariant.antt =====
-- In every schedule: first in, first out, within the capacity, and no wake-up is lost.
use suduo.Prelude.{
  ℕ, zero, suc, ◌+◌, ◌^◌, ◌≤◌, ◌<◌, ◌≡◌, refl, sym, ap, ◌∙◌, ◌⊎◌, inl, inr, ◌==◌, Option, some,
  List, [], ◌∷◌, ◌++◌, append_assoc, arith, length, length-append, length-replicate, ◌≢◌, ◌>>=◌,
  Bool-cases,
}
use suduo.CircularBuffer
use suduo.CircularBuffer.{CircularBuffer, full, empty}
use suduo.CircularBuffer.Contents.{
  IsValid, contents, length-contents, full-eq, push-cases, pop-oldest, new-IsValid,
}
use suduo.BoundedBlockingQueue.{
  Monitor, Event, call_push, call_pop, push_turn, pop_turn, spurious_push, spurious_pop, new, pick,
  wake_pop, wake_push, push, pop, turn_push, turn_pop, step, run,
}

module _ {ℓ} {A : Type ℓ} where
  -- Threads wait for a value only if enough threads for all values are on their way to the mutex,
  -- and threads wait for a free cell only if enough are on their way for all free cells.
  pub record Inv (cap : ℕ) (m : Monitor A) : Type ℓ where
    pub valid : IsValid m.queue
    pub cells : length m.queue.cells ≡ cap
    pub fifo : m.accepted ≡ m.delivered ++ contents m.queue
    pub consumers : (m.not_empty ≡ 0) ⊎ (m.queue.size ≤ m.to_pop)
    pub producers : (length m.not_full ≡ 0) ⊎ (cap ≤ m.queue.size + length m.to_push)

  -- A result without a fault that keeps the invariant.
  abbrev pub Keeps : ℕ → Option (Monitor A) → Type ℓ
  Keeps cap r = (m : Monitor A) × (r ≡ some m) × Inv cap m

  pub new-Inv : (blank : A) (n : ℕ) → n < 2 ^ 31 → Inv n (new blank n)
  unfolding new CircularBuffer.new
  new-Inv blank n h = record {
    valid = unfold CircularBuffer.new in new-IsValid blank n h;
    cells = length-replicate n blank;
    fifo = refl;
    consumers = inl refl;
    producers = inl refl;
  }

  pub length-pick : (i : ℕ) (v : A) (vs : List A) → length (pick i v vs).1 ≡ length vs
  unfolding pick
  length-pick i v [] = refl
  length-pick zero v (w ∷ ws) = refl
  length-pick (suc i) v (w ∷ ws) = ap suc (length-pick i w ws)

  module _ {cap : ℕ} where
    -- `notify` on the condition of the consumers, when the queue has just grown.
    wake_pop-Inv :
        (m : Monitor A) (n : ℕ)
        → n ≡ m.not_empty
        → IsValid m.queue
        → length m.queue.cells ≡ cap
        → m.accepted ≡ m.delivered ++ contents m.queue
        → (n ≡ 0) ⊎ (m.queue.size ≤ suc m.to_pop)
        → (length m.not_full ≡ 0) ⊎ (cap ≤ m.queue.size + length m.to_push)
        → Inv cap (wake_pop m n)
    unfolding wake_pop
    wake_pop-Inv m zero e v c f few producers = record {
      valid = v;
      cells = c;
      fifo = f;
      consumers = inl (sym e);
      producers = producers;
    }
    wake_pop-Inv m (suc n) e v c f few producers = record {
      valid = v;
      cells = c;
      fifo = f;
      consumers = inr (omega arith);
      producers = producers;
    }

    -- `notify` on the condition of the producers, when the queue has just shrunk.
    wake_push-Inv :
        (i : ℕ) (m : Monitor A) (vs : List A)
        → vs ≡ m.not_full
        → IsValid m.queue
        → length m.queue.cells ≡ cap
        → m.accepted ≡ m.delivered ++ contents m.queue
        → (m.not_empty ≡ 0) ⊎ (m.queue.size ≤ m.to_pop)
        → (length vs ≡ 0) ⊎ (cap ≤ m.queue.size + suc (length m.to_push))
        → Inv cap (wake_push i m vs)
    unfolding wake_push
    wake_push-Inv i m [] e v c f consumers few = record {
      valid = v;
      cells = c;
      fifo = f;
      consumers = consumers;
      producers = inl (ap length (sym e));
    }
    wake_push-Inv i m (x ∷ vs) e v c f consumers (inl h) = absurd (omega arith)
    wake_push-Inv i m (x ∷ vs) e v c f consumers (inr h) = record {
      valid = v;
      cells = c;
      fifo = f;
      consumers = consumers;
      producers = inr h;
    }

  module _ {cap : ℕ} {m : Monitor A} (inv : Inv cap m) where
    open inv use {valid, cells, fifo, consumers, producers}

    full-push :
        (x : A) (rest : List A)
        → length m.to_push ≡ suc (length rest)
        → m.queue.size ≡ length m.queue.cells
        → Inv cap (record m { to_push = rest; not_full = x ∷ m.not_full })
    full-push x rest e all = record {
      valid = valid;
      cells = cells;
      fifo = fifo;
      consumers = consumers;
      producers = inr (omega (arith, cells));
    }

    push-Keeps :
        (x : A) (rest : List A)
        → length m.to_push ≡ suc (length rest)
        → Keeps cap (push (record m { to_push = rest }) x)
    unfolding push
    push-Keeps x rest e = elim (Bool-cases (m.queue.size == length m.queue.cells)) [
      | inl all ↦
          rw (full-eq valid, all)
            (
              record m { to_push = rest; not_full = x ∷ m.not_full },
              refl,
              full-push x rest e (ground arith),
            )
      | inr some_free ↦ rw (full-eq valid, some_free) (stores (push-cases x valid) (ground arith))
    ]
      where
        stores :
            ((length (contents m.queue) ≡ length m.queue.cells)
                × (CircularBuffer.push m.queue x ≡ some m.queue))
              ⊎ ((length (contents m.queue) < length m.queue.cells)
                  × ((c : CircularBuffer A) × (CircularBuffer.push m.queue x ≡ some c)
                      × IsValid c
                      × (contents c ≡ contents m.queue ++ x ∷ [])
                      × (length c.cells ≡ length m.queue.cells)))
            → m.queue.size ≢ length m.queue.cells
            → Keeps cap (
                CircularBuffer.push m.queue x >>= λ q. some (
                  wake_pop
                    (record m { to_push = rest; queue = q; accepted = m.accepted ++ x ∷ [] })
                    m.not_empty))
        stores (inl (h, _)) free = absurd (free (omega (arith, length-contents valid)))
        stores (inr (h, (c, done, v, held, same))) free = rw done (
          wake_pop (record m { to_push = rest; queue = c; accepted = m.accepted ++ x ∷ [] })
              m.not_empty,
          refl,
          wake_pop-Inv _ m.not_empty refl v (same ∙ cells)
              (ap (λ s. s ++ x ∷ []) fifo
                ∙ append_assoc m.delivered (contents m.queue) (x ∷ [])
                ∙ ap (λ s. m.delivered ++ s) (sym held))
              (omega (arith, more, consumers)) (omega (arith, more, e, producers)),
        )
          where
            more : c.size ≡ suc m.queue.size
            more = omega (
              arith,
              length-contents v,
              length-contents valid,
              ap length held,
              length-append (contents m.queue) (x ∷ []),
            )

    empty-Keeps :
        (n : ℕ)
        → m.to_pop ≡ suc n
        → m.queue.size ≡ 0
        → Inv cap (record m { to_pop = n; not_empty = suc m.not_empty })
    empty-Keeps n e none_left = record {
      valid = valid;
      cells = cells;
      fifo = fifo;
      consumers = inr (omega arith);
      producers = producers;
    }

    takes :
        (i n : ℕ) (xs : List A)
        → m.to_pop ≡ suc n
        → m.queue.size ≢ 0
        → contents m.queue ≡ xs
        → Keeps cap (
            CircularBuffer.pop m.queue >>= λ (x, q). some (
              wake_push i
                (record m { to_pop = n; queue = q; delivered = m.delivered ++ x ∷ [] })
                m.not_full))
    takes i n [] e h held = absurd (h (omega (arith, length-contents valid, ap length held)))
    takes i n (x ∷ xs) e h held =
        let (c, done, v, left, same) = pop-oldest x xs valid held in
        let fewer : m.queue.size ≡ suc c.size =
          omega (arith, length-contents v, length-contents valid, ap length held, ap length left) in
        rw done (
          wake_push i (record m { to_pop = n; queue = c; delivered = m.delivered ++ x ∷ [] })
              m.not_full,
          refl,
          wake_push-Inv i _ m.not_full refl v (same ∙ cells)
              (fifo
                ∙ ap (λ s. m.delivered ++ s) (held ∙ ap (λ s. x ∷ s) (sym left))
                ∙ sym (append_assoc m.delivered (x ∷ []) (contents c)))
              (omega (arith, fewer, e, consumers)) (omega (arith, fewer, producers)),
        )

    pop-Keeps : (i n : ℕ) → m.to_pop ≡ suc n → Keeps cap (pop i (record m { to_pop = n }))
    unfolding pop empty
    pop-Keeps i n e = elim (Bool-cases (m.queue.size == 0)) [
      | inl none_left ↦ rw none_left (
        record m { to_pop = n; not_empty = suc m.not_empty },
        refl,
        empty-Keeps n e (ground arith),
      )
      | inr some_left ↦ rw some_left (takes i n (contents m.queue) e (ground arith) refl)
    ]

    turn_push-Keeps : (i : ℕ) (vs : List A) → m.to_push ≡ vs → Keeps cap (turn_push i m vs)
    unfolding turn_push
    turn_push-Keeps i [] e = (m, refl, inv)
    turn_push-Keeps i (v ∷ vs) e =
        push-Keeps (pick i v vs).0 (pick i v vs).1 (omega (arith, ap length e, length-pick i v vs))

    turn_pop-Keeps : (i n : ℕ) → m.to_pop ≡ n → Keeps cap (turn_pop i m n)
    unfolding turn_pop
    turn_pop-Keeps i zero e = (m, refl, inv)
    turn_pop-Keeps i (suc n) e = pop-Keeps i n e

    -- No event faults, and each keeps the invariant.
    pub step-Keeps : (ev : Event A) → Keeps cap (step m ev)
    unfolding step
    step-Keeps (call_push val) = (
      record m { to_push = val ∷ m.to_push },
      refl,
      record {
        valid = valid;
        cells = cells;
        fifo = fifo;
        consumers = consumers;
        producers = omega (arith, producers);
      },
    )
    step-Keeps call_pop = (
      record m { to_pop = suc m.to_pop },
      refl,
      record {
        valid = valid;
        cells = cells;
        fifo = fifo;
        consumers = omega (arith, consumers);
        producers = producers;
      },
    )
    step-Keeps (push_turn i) = turn_push-Keeps i m.to_push refl
    step-Keeps (pop_turn i) = turn_pop-Keeps i m.to_pop refl
    step-Keeps (spurious_push i) = (
      wake_push i m m.not_full,
      refl,
      wake_push-Inv i m m.not_full refl valid cells fifo consumers (omega (arith, producers)),
    )
    step-Keeps spurious_pop = (
      wake_pop m m.not_empty,
      refl,
      wake_pop-Inv m m.not_empty refl valid cells fifo (omega (arith, consumers)) producers,
    )

  run-Keeps : {cap : ℕ} (es : List (Event A)) {m : Monitor A} → Inv cap m → Keeps cap (run m es)
  unfolding run
  run-Keeps [] {m} inv = (m, refl, inv)
  run-Keeps (e ∷ es) inv = let (m', done, inv') = step-Keeps inv e in rw done (run-Keeps es inv')

  -- From a new queue no schedule faults, and in the state that it reaches: what was handed out,
  -- followed by what is stored, is what was accepted, in order; at most `n` values are stored; a
  -- thread waits for a value only while others are on their way to take all there are; and a
  -- thread waits for a free cell only while others are on their way to fill all there are.
  pub run-new :
      (blank : A) (n : ℕ) (es : List (Event A))
      → n < 2 ^ 31
      → (m : Monitor A) × (run (new blank n) es ≡ some m)
        × (m.accepted ≡ m.delivered ++ contents m.queue)
        × (length (contents m.queue) ≤ n)
        × ((m.not_empty ≡ 0) ⊎ (length (contents m.queue) ≤ m.to_pop))
        × ((length m.not_full ≡ 0) ⊎ (n ≤ length (contents m.queue) + length m.to_push))
  run-new blank n es h =
      let (m, done, inv) = run-Keeps es (new-Inv blank n h) in
      (
        m,
        done,
        inv.fifo,
        omega (arith, length-contents inv.valid, inv.cells, inv.valid.filled),
        omega (arith, length-contents inv.valid, inv.consumers),
        ground (arith, length-contents inv.valid, inv.producers),
      )
