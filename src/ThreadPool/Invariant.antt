-- ===== src/ThreadPool/Invariant.antt =====
-- In every schedule of a pool: tasks are handed out in order, the queue is bounded, no wakeup is lost,
-- and after `stop` no thread waits.
use suduo.Prelude.{
  ℕ, zero, suc, ◌+◌, ◌≤◌, ◌<◌, ◌≡◌, refl, sym, ap, ◌∙◌, ◌⊎◌, inl, inr, Bool, true, false, ◌&&◌, not,
  List, [], ◌∷◌, ◌++◌, append_assoc, arith, if◌then◌else◌, length, length-append, ltb, leb, ◌==◌,
}
use suduo.BoundedBlockingQueue.{pick}
use suduo.BoundedBlockingQueue.Invariant.{length-pick}
use suduo.ThreadPool.{
  ThreadPool, Event, call_run, call_get, run_turn, get_turn, stops, spurious_run, spurious_get,
  start, wake_get, wake_run, run_task, take_task, get_next_task, stop, turn_run, turn_get, step,
  run,
}

-- Queued tasks, waiting workers and callers, and those on their way to the mutex.
pub record Balance (most : ℕ) (running : Bool) (q ne nf tg tr : ℕ) : Type 0 where
  pub bounded : (most ≡ 0) ⊎ (q ≤ most)
  pub workers : (ne ≡ 0) ⊎ (q ≤ tg)
  pub callers : (nf ≡ 0) ⊎ ((0 < most) × (most ≤ q + tr))
  pub stopped : (running ≡ true) ⊎ ((ne ≡ 0) × (nf ≡ 0))

module _ {ℓ} {Task : Type ℓ} where
  abbrev pub Balanced : ThreadPool Task → Type 0
  Balanced p =
      Balance p.max_queue_size p.running (length p.task_queue) p.not_empty (length p.not_full)
        p.to_get (length p.to_run)

  pub record Inv (p : ThreadPool Task) : Type ℓ where
    pub fifo : p.accepted ≡ p.taken ++ p.task_queue
    pub balanced : Balanced p

  start-Inv : (n most : ℕ) → Inv (start n most)
  unfolding start
  start-Inv n most = record {
    fifo = refl;
    balanced = record {
      bounded = ground arith;
      workers = inl refl;
      callers = inl refl;
      stopped = inl refl;
    };
  }

  -- `_not_empty.notify()` after a task was queued.
  wake_get-Inv :
      (p : ThreadPool Task) (n : ℕ)
      → n ≡ p.not_empty
      → p.accepted ≡ p.taken ++ p.task_queue
      → (p.max_queue_size ≡ 0) ⊎ (length p.task_queue ≤ p.max_queue_size)
      → (n ≡ 0) ⊎ (length p.task_queue ≤ suc p.to_get)
      → (length p.not_full ≡ 0)
        ⊎ ((0 < p.max_queue_size) × (p.max_queue_size ≤ length p.task_queue + length p.to_run))
      → (p.running ≡ true) ⊎ ((n ≡ 0) × (length p.not_full ≡ 0))
      → Inv (wake_get p n)
  unfolding wake_get
  wake_get-Inv p zero e f b w c s = record {
    fifo = f;
    balanced = record { bounded = b; workers = inl (sym e); callers = c; stopped = rw (sym e) s };
  }
  wake_get-Inv p (suc n) e f b w c s = record {
    fifo = f;
    balanced = record {
      bounded = b;
      workers = inr (omega arith);
      callers = c;
      stopped = ground arith;
    };
  }

  -- `_not_full.notify()` after a task was taken.
  wake_run-Inv :
      (i : ℕ) (p : ThreadPool Task) (ts : List Task)
      → ts ≡ p.not_full
      → p.accepted ≡ p.taken ++ p.task_queue
      → (p.max_queue_size ≡ 0) ⊎ (length p.task_queue ≤ p.max_queue_size)
      → (p.not_empty ≡ 0) ⊎ (length p.task_queue ≤ p.to_get)
      → (length ts ≡ 0)
        ⊎ ((0 < p.max_queue_size)
            × (p.max_queue_size ≤ length p.task_queue + suc (length p.to_run)))
      → (p.running ≡ true) ⊎ ((p.not_empty ≡ 0) × (length ts ≡ 0))
      → Inv (wake_run i p ts)
  unfolding wake_run
  wake_run-Inv i p [] e f b w c s = record {
    fifo = f;
    balanced = record {
      bounded = b;
      workers = w;
      callers = inl (ap length (sym e));
      stopped = rw (sym e) s;
    };
  }
  wake_run-Inv i p (t ∷ ts) e f b w c s = record {
    fifo = f;
    balanced = record { bounded = b; workers = w; callers = ground arith; stopped = ground arith };
  }

  module _ {p : ThreadPool Task} (inv : Inv p) where
    open inv use {fifo, balanced}
    open balanced use {bounded, workers, callers, stopped}

    run_task-Inv :
        (task : Task) (rest : List Task)
        → length p.to_run ≡ suc (length rest)
        → Inv (run_task (record p { to_run = rest }) task)
    unfolding run_task
    run_task-Inv task rest e =
        runs (ltb 0 p.max_queue_size && leb p.max_queue_size (length p.task_queue)) p.running refl
          refl
      where
        grown : length (p.task_queue ++ task ∷ []) ≡ length p.task_queue + 1
        grown = length-append p.task_queue (task ∷ [])

        runs :
            (full running : Bool)
            → (ltb 0 p.max_queue_size && leb p.max_queue_size (length p.task_queue)) ≡ full
            → p.running ≡ running
            → Inv (
                if full && running
                then record p { to_run = rest; not_full = task ∷ p.not_full }
                else (if not running
                    then record p { to_run = rest }
                    else wake_get
                        (record p {
                          to_run = rest;
                          task_queue = p.task_queue ++ task ∷ [];
                          accepted = p.accepted ++ task ∷ [];
                        })
                        p.not_empty))
        runs true true f r = record {
          fifo = fifo;
          balanced = record {
            bounded = bounded;
            workers = workers;
            callers = inr (ground arith);
            stopped = inl r;
          };
        }
        runs true false f r = record {
          fifo = fifo;
          balanced = record {
            bounded = bounded;
            workers = workers;
            callers = ground (arith, stopped);
            stopped = stopped;
          };
        }
        runs false false f r = record {
          fifo = fifo;
          balanced = record {
            bounded = bounded;
            workers = workers;
            callers = ground (arith, stopped);
            stopped = stopped;
          };
        }
        runs false true f r =
            wake_get-Inv _ p.not_empty refl
              (ap (λ ts. ts ++ task ∷ []) fifo ∙ append_assoc p.taken p.task_queue (task ∷ []))
              (ground (arith, bounded, grown)) (ground (arith, workers, grown))
              (ground (arith, callers, grown)) (inl r)

    take_task-Inv :
        (i n : ℕ) (ts : List Task)
        → p.to_get ≡ suc n
        → p.task_queue ≡ ts
        → (0 < length ts) ⊎ (p.running ≡ false)
        → Inv (take_task i (record p { to_get = n }) ts)
    unfolding take_task
    take_task-Inv i n [] e q h = record {
      fifo = fifo;
      balanced = record {
        bounded = bounded;
        workers = inl (ground (arith, stopped));
        callers = callers;
        stopped = stopped;
      };
    }
    take_task-Inv i n (t ∷ ts) e q h = takes (ltb 0 p.max_queue_size) refl
      where
        shrunk : length p.task_queue ≡ suc (length ts)
        shrunk = ap length q

        order : p.accepted ≡ (p.taken ++ t ∷ []) ++ ts
        order = fifo ∙ ap (λ xs. p.taken ++ xs) q ∙ sym (append_assoc p.taken (t ∷ []) ts)

        takes :
            (small : Bool)
            → ltb 0 p.max_queue_size ≡ small
            → Inv (
                let p' : ThreadPool Task = record p {
                  to_get = n;
                  task_queue = ts;
                  taken = p.taken ++ t ∷ [];
                } in
                if small then wake_run i p' p.not_full else p')
        takes true m =
            wake_run-Inv i _ p.not_full refl order (ground (arith, bounded, shrunk))
              (ground (arith, workers, shrunk)) (ground (arith, callers, shrunk)) stopped
        takes false m = record {
          fifo = order;
          balanced = record {
            bounded = ground (arith, bounded, shrunk);
            workers = ground (arith, workers, shrunk);
            callers = ground (arith, callers);
            stopped = stopped;
          };
        }

    get_next_task-Inv :
        (i n : ℕ) → p.to_get ≡ suc n → Inv (get_next_task i (record p { to_get = n }))
    unfolding get_next_task
    get_next_task-Inv i n e = gets (length p.task_queue == 0) p.running refl refl
      where
        gets :
            (none_left running : Bool)
            → (length p.task_queue == 0) ≡ none_left
            → p.running ≡ running
            → Inv (
                if none_left && running
                then record p { to_get = n; not_empty = suc p.not_empty }
                else take_task i (record p { to_get = n }) p.task_queue)
        gets true true z r = record {
          fifo = fifo;
          balanced = record {
            bounded = bounded;
            workers = inr (ground arith);
            callers = callers;
            stopped = inl r;
          };
        }
        gets true false z r = take_task-Inv i n p.task_queue e refl (inr r)
        gets false running z r = take_task-Inv i n p.task_queue e refl (inl (ground arith))

    stop-Inv : Inv (stop p)
    unfolding stop
    stop-Inv = record {
      fifo = fifo;
      balanced = record {
        bounded = bounded;
        workers = inl refl;
        callers = inl refl;
        stopped = inr (refl, refl);
      };
    }

    turn_run-Inv : (i : ℕ) (ts : List Task) → p.to_run ≡ ts → Inv (turn_run i p ts)
    unfolding turn_run
    turn_run-Inv i [] e = inv
    turn_run-Inv i (t ∷ ts) e =
        run_task-Inv (pick i t ts).0 (pick i t ts).1
          (omega (arith, ap length e, length-pick i t ts))

    turn_get-Inv : (i n : ℕ) → p.to_get ≡ n → Inv (turn_get i p n)
    unfolding turn_get
    turn_get-Inv i zero e = inv
    turn_get-Inv i (suc n) e = get_next_task-Inv i n e

    called-Inv :
        (r : List Task) (d : List Task) (g : ℕ)
        → length p.to_run ≤ length r
        → p.to_get ≤ g
        → Inv (record p { direct = d; to_run = r; to_get = g })
    called-Inv r d g more more' = record {
      fifo = fifo;
      balanced = record {
        bounded = bounded;
        workers = ground (arith, workers, more');
        callers = ground (arith, callers, more);
        stopped = stopped;
      };
    }

    step-Inv : (e : Event Task) → Inv (step p e)
    unfolding step
    step-Inv (call_run task) = called-Inv _ _ p.to_get (ground arith) (omega arith)
    step-Inv call_get = called-Inv p.to_run p.direct _ (omega arith) (ground arith)
    step-Inv (run_turn i) = turn_run-Inv i p.to_run refl
    step-Inv (get_turn i) = turn_get-Inv i p.to_get refl
    step-Inv stops = stop-Inv
    step-Inv (spurious_run i) =
        wake_run-Inv i p p.not_full refl fifo bounded workers (ground (arith, callers)) stopped
    step-Inv spurious_get =
        wake_get-Inv p p.not_empty refl fifo bounded (ground (arith, workers)) callers stopped

  run-Inv : (es : List (Event Task)) {p : ThreadPool Task} → Inv p → Inv (run p es)
  unfolding run
  run-Inv [] inv = inv
  run-Inv (e ∷ es) inv = run-Inv es (step-Inv inv e)

  -- In every state that a schedule reaches from a started pool: the queued tasks, in order, are those
  -- handed to a worker followed by the queue; the queue keeps to its size if there is one; a worker
  -- waits only if as many others as there are tasks are on their way to take them; a caller waits
  -- only if there is a size and the tasks queued and on their way reach it; and once the pool has
  -- stopped, no thread waits.
  pub run-Balanced :
      (n most : ℕ) (es : List (Event Task))
      → ((run (start n most) es).accepted
          ≡ (run (start n most) es).taken ++ (run (start n most) es).task_queue)
        × Balanced (run (start n most) es)
  run-Balanced n most es = let inv = run-Inv es (start-Inv n most) in (inv.fifo, inv.balanced)
