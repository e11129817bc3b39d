-- ===== src/EventLoop/Wakeups.antt =====
-- No wakeup of a loop is lost, and its functors are called in order.
use suduo.Prelude.{
  ℕ, zero, suc, ◌+◌, ◌≡◌, ◌<◌, refl, sym, ap, ◌∙◌, ◌⊎◌, inl, inr, Bool, true, false, List, [], ◌∷◌,
  ◌++◌, length-append, append_assoc, append-nil, arith, if◌then◌else◌, length, length-eq-zero,
  replicate,
}
use suduo.EventLoop.{
  Phase, idle, polling, handling, calling, done, EventLoop, Event, queues, runs, quits, wakes,
  poll_returns, reads_wakeups, swaps_functors, calls_functor, turns, is_busy, is_calling, is_idle,
  wakeup, loops, enter_loop, start, queue_in_loop, run_in_loop, quit, wake, poll_return,
  handle_read, swap_functors, call_functor, turn, step, run,
}

-- Before the loop, in the poll, and while functors are called: nothing is to be done, or the next poll returns
-- at once, or a thread is about to see to that, or no poll has returned and the loop's own thread
-- queued a functor before the loop.
abbrev pub Woken : Phase → Bool → ℕ → ℕ → ℕ → Bool → ℕ → Type 0
Woken idle running pending wakeups to_wake polled early =
    (polled ≡ false) × ((pending ≡ 0) ⊎ ((0 < wakeups + to_wake) ⊎ (0 < early)))
Woken polling running pending wakeups to_wake polled early =
    ((pending ≡ 0) × (running ≡ true))
    ⊎ ((0 < wakeups + to_wake) ⊎ ((running ≡ true) × (polled ≡ false) × (0 < early)))
Woken calling running pending wakeups to_wake polled early = (pending ≡ 0) ⊎ (0 < wakeups + to_wake)
Woken _ running pending wakeups to_wake polled early = Unit {0}

abbrev Left : Phase → ℕ → Type 0
Left calling n = Unit {0}
Left _ n = n ≡ 0

module _ {ℓ} {F : Type ℓ} where
  pub record Inv (l : EventLoop F) : Type ℓ where
    pub fifo : l.called ++ (l.functors ++ l.pending_functors) ≡ l.queued
    pub woken :
        Woken l.phase l.running
          (length l.pending_functors)
          l.wakeups
          l.to_wake
          l.polled
          (length l.early)
    pub left : Left l.phase (length l.functors)

  start-Inv : Inv start
  unfolding start
  start-Inv = record { fifo = refl; woken = (refl, inl refl); left = refl }

  if-Inv : {l m : EventLoop F} (test : Bool) → Inv l → Inv m → Inv (if test then l else m)
  if-Inv true p q = p
  if-Inv false p q = q

  module _ {l : EventLoop F} (inv : Inv l) where
    open inv use {fifo, woken, left}

    -- One more functor at the end.
    queued-fifo :
        (cb : F) → l.called ++ (l.functors ++ (l.pending_functors ++ cb ∷ [])) ≡ l.queued ++ cb ∷ []
    queued-fifo cb = rw (sym fifo) (simp append_assoc)

    other-Woken :
        (p : Phase) (r r' : Bool) (n n' w t n'' : ℕ)
        → Woken p r n w t l.polled (length l.early)
        → n'' ≡ length l.early
        → Woken p r' n' w (suc t) l.polled n''
    other-Woken idle r r' n n' w t n'' h e = (h.0, inr (inl (omega arith)))
    other-Woken polling r r' n n' w t n'' h e = inr (inl (omega arith))
    other-Woken calling r r' n n' w t n'' h e = inr (omega arith)
    other-Woken handling r r' n n' w t n'' h e = tt
    other-Woken done r r' n n' w t n'' h e = tt

    queue_in_loop-other : (cb : F) → Inv (queue_in_loop false l cb)
    unfolding queue_in_loop
    queue_in_loop-other cb = record {
      fifo = queued-fifo cb;
      woken = other-Woken l.phase l.running l.running _ _ l.wakeups l.to_wake _ woken refl;
      left = left;
    }

    own-Woken :
        (p : Phase) (cb : F) (n : ℕ)
        → is_busy p ≡ true
        → Woken p l.running n l.wakeups l.to_wake l.polled (length l.early)
        → (n' : ℕ)
        → Woken p l.running n'
            (if is_calling p then wakeup l.wakeups else l.wakeups)
            l.to_wake
            l.polled
            (length (if is_idle p then l.early ++ cb ∷ [] else l.early))
    own-Woken idle cb n e h n' = (h.0, inr (inr (omega (arith, length-append l.early (cb ∷ [])))))
    own-Woken calling cb n e h n' = inr (ground arith)
    own-Woken handling cb n e h n' = tt
    own-Woken polling cb n e h n' = absurd cc
    own-Woken done cb n e h n' = tt

    queue_in_loop-own : (cb : F) → is_busy l.phase ≡ true → Inv (queue_in_loop true l cb)
    unfolding queue_in_loop
    queue_in_loop-own cb e = record {
      fifo = queued-fifo cb;
      woken = own-Woken l.phase cb _ e woken _;
      left = left;
    }

    run_in_loop-other : (cb : F) → Inv (run_in_loop false l cb)
    unfolding run_in_loop
    run_in_loop-other cb = queue_in_loop-other cb

    run_in_loop-own : (cb : F) → Inv (run_in_loop true l cb)
    unfolding run_in_loop
    run_in_loop-own cb = record { fifo = fifo; woken = woken; left = left }

    quit-other : Inv (quit false l)
    unfolding quit
    quit-other = record {
      fifo = fifo;
      woken = other-Woken l.phase l.running false _ _ l.wakeups l.to_wake _ woken refl;
      left = left;
    }

    stopped-Woken :
        (p : Phase) (n w t k : ℕ)
        → is_busy p ≡ true
        → Woken p l.running n w t l.polled k
        → Woken p false n w t l.polled k
    stopped-Woken idle n w t k e h = h
    stopped-Woken calling n w t k e h = h
    stopped-Woken handling n w t k e h = tt
    stopped-Woken polling n w t k e h = absurd cc
    stopped-Woken done n w t k e h = tt

    quit-own : is_busy l.phase ≡ true → Inv (quit true l)
    unfolding quit
    quit-own e = record { fifo = fifo; woken = stopped-Woken l.phase _ _ _ _ e woken; left = left }

    added-Woken :
        (p : Phase) (n t : ℕ)
        → Woken p l.running n l.wakeups l.to_wake l.polled (length l.early)
        → Woken p l.running n (wakeup l.wakeups) t l.polled (length l.early)
    added-Woken idle n t h = (h.0, inr (inl (ground arith)))
    added-Woken polling n t h = inr (inl (ground arith))
    added-Woken calling n t h = inr (ground arith)
    added-Woken handling n t h = tt
    added-Woken done n t h = tt

    wake-Inv : (n : ℕ) → Inv (wake l n)
    unfolding wake
    wake-Inv zero = inv
    wake-Inv (suc n) = record { fifo = fifo; woken = added-Woken l.phase _ n woken; left = left }

    entered-Woken :
        (n w t k : ℕ) → Woken idle l.running n w t l.polled k → Woken polling true n w t l.polled k
    entered-Woken n w t k (fresh, inl none_pending) = inl (none_pending, refl)
    entered-Woken n w t k (fresh, inr (inl woken_up)) = inr (inl woken_up)
    entered-Woken n w t k (fresh, inr (inr some_early)) = inr (inr (refl, fresh, some_early))

    enter_loop-Inv : (p : Phase) → l.phase ≡ p → Inv (enter_loop l p)
    unfolding enter_loop
    enter_loop-Inv idle e = record {
      fifo = fifo;
      woken = entered-Woken _ _ _ _ (rw e at woken);
      left = rw e at left;
    }
    enter_loop-Inv polling e = inv
    enter_loop-Inv handling e = inv
    enter_loop-Inv calling e = inv
    enter_loop-Inv done e = inv

    poll_return-Inv : (p : Phase) → l.phase ≡ p → Inv (poll_return l p)
    unfolding poll_return
    poll_return-Inv polling e = record { fifo = fifo; woken = tt; left = rw e at left }
    poll_return-Inv handling e = inv
    poll_return-Inv calling e = inv
    poll_return-Inv done e = inv
    poll_return-Inv idle e = inv

    handle_read-Inv : (p : Phase) → l.phase ≡ p → Inv (handle_read l p)
    unfolding handle_read
    handle_read-Inv handling e = record { fifo = fifo; woken = rw e tt; left = left }
    handle_read-Inv polling e = inv
    handle_read-Inv calling e = inv
    handle_read-Inv done e = inv
    handle_read-Inv idle e = inv

    swap_functors-Inv : (p : Phase) → l.phase ≡ p → Inv (swap_functors l p)
    unfolding swap_functors
    swap_functors-Inv handling e = record {
      fifo =
          ap (λ fs. l.called ++ fs) (append-nil l.pending_functors)
          ∙ ap (λ fs. l.called ++ (fs ++ l.pending_functors))
              (sym (length-eq-zero l.functors (rw e at left)))
          ∙ fifo;
      woken = inl refl;
      left = tt;
    }
    swap_functors-Inv polling e = inv
    swap_functors-Inv calling e = inv
    swap_functors-Inv done e = inv
    swap_functors-Inv idle e = inv

    call_functor-Inv :
        (p : Phase) (fs : List F) → l.phase ≡ p → l.functors ≡ fs → Inv (call_functor l p fs)
    unfolding call_functor
    call_functor-Inv calling (f ∷ fs) e e' = record {
      fifo = append_assoc l.called (f ∷ []) (fs ++ l.pending_functors) ∙ (rw e' at fifo);
      woken = woken;
      left = rw e tt;
    }
    call_functor-Inv calling [] e e' = inv
    call_functor-Inv handling fs e e' = inv
    call_functor-Inv polling fs e e' = inv
    call_functor-Inv done fs e e' = inv
    call_functor-Inv idle fs e e' = inv

    next-Woken :
        (running : Bool)
        → (length l.pending_functors ≡ 0) ⊎ (0 < l.wakeups + l.to_wake)
        → Woken
            (if running then polling else done)
            running
            (length l.pending_functors)
            l.wakeups
            l.to_wake
            l.polled
            (length l.early)
    next-Woken true (inl none_pending) = inl (none_pending, refl)
    next-Woken true (inr woken_up) = inr (inl woken_up)
    next-Woken false h = tt

    next-Left : (running : Bool) → Left (if running then polling else done) 0
    next-Left true = refl
    next-Left false = refl

    turn-Inv : (p : Phase) (fs : List F) → l.phase ≡ p → l.functors ≡ fs → Inv (turn l p fs)
    unfolding turn
    turn-Inv calling [] e e' = record {
      fifo = fifo;
      woken = next-Woken l.running (rw e at woken);
      left = rw e' (next-Left l.running);
    }
    turn-Inv calling (f ∷ fs) e e' = inv
    turn-Inv handling fs e e' = inv
    turn-Inv polling fs e e' = inv
    turn-Inv done fs e e' = inv
    turn-Inv idle fs e e' = inv

  busy-Inv :
      {l m : EventLoop F}
      → Inv l
      → (is_busy l.phase ≡ true → Inv m)
      → Inv (if is_busy l.phase then m else l)
  busy-Inv {l} {m} inv h = busy (is_busy l.phase) h
    where
      busy : (test : Bool) → (test ≡ true → Inv m) → Inv (if test then m else l)
      busy true h' = h' refl
      busy false h' = inv

  step-Inv : {l : EventLoop F} (e : Event F) → Inv l → Inv (step l e)
  unfolding step
  step-Inv (queues true cb) inv = busy-Inv inv (queue_in_loop-own inv cb)
  step-Inv (queues false cb) inv = queue_in_loop-other inv cb
  step-Inv (runs true cb) inv = busy-Inv inv (λ e. run_in_loop-own inv cb)
  step-Inv (runs false cb) inv = run_in_loop-other inv cb
  step-Inv (quits true) inv = busy-Inv inv (quit-own inv)
  step-Inv (quits false) inv = quit-other inv
  step-Inv {l} loops inv = enter_loop-Inv inv l.phase refl
  step-Inv {l} wakes inv = wake-Inv inv l.to_wake
  step-Inv {l} poll_returns inv = poll_return-Inv inv l.phase refl
  step-Inv {l} reads_wakeups inv = handle_read-Inv inv l.phase refl
  step-Inv {l} swaps_functors inv = swap_functors-Inv inv l.phase refl
  step-Inv {l} calls_functor inv = call_functor-Inv inv l.phase l.functors refl refl
  step-Inv {l} turns inv = turn-Inv inv l.phase l.functors refl refl

  run-Inv : (es : List (Event F)) {l : EventLoop F} → Inv l → Inv (run l es)
  unfolding run
  run-Inv [] inv = inv
  run-Inv (e ∷ es) inv = run-Inv es (step-Inv e inv)

  -- In every state that a schedule reaches from the construction, with one call of `loop()`: the functors
  -- called, those taken out and those pending are the queued ones in order; and if the loop's thread is in the poll, then no
  -- functor is pending and the loop is to run on, or the event descriptor's counter is positive, or
  -- another thread is about to write to it, or it is still the first poll of a loop that is to run
  -- on and whose own thread queued a functor before `loop()`.
  pub run-wakes :
      (es : List (Event F))
      → ((run start es).called ++ ((run start es).functors ++ (run start es).pending_functors)
          ≡ (run start es).queued)
        × ((run start es).phase ≡ polling
            → ((length (run start es).pending_functors ≡ 0) × ((run start es).running ≡ true))
              ⊎ ((0 < (run start es).wakeups + (run start es).to_wake)
                  ⊎ (((run start es).running ≡ true)
                      × ((run start es).polled ≡ false)
                      × (0 < length (run start es).early))))
  run-wakes es = let inv = run-Inv es start-Inv in (inv.fifo, λ e. rw e at inv.woken)

  abbrev pub one_turn : EventLoop F → List (Event F)
  one_turn l =
      poll_returns
      ∷ reads_wakeups
      ∷ swaps_functors
      ∷ (replicate (length l.pending_functors) calls_functor ++ turns ∷ [])
