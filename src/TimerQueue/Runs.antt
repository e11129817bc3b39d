-- ===== src/TimerQueue/Runs.antt =====
-- The queue in a loop: timers are added and cancelled by functors, and the descriptor expires.
use suduo.Prelude.{
  ℕ, suc, ◌+◌, ◌-◌, ◌^◌, ◌≤◌, ◌≡◌, refl, ap, ◌∙◌, Option, some, List, [], ◌∷◌, ◌++◌, length, arith,
  subst, ◌>>=◌,
}
use suduo.TimerQueue.{Timer, TimerQueue, Request, new, add_timer, cancel_in_loop, handle_read}
use suduo.TimerQueue.Entries.{insert_timer, remove}
use suduo.TimerQueue.Invariant.{Inv, new-Inv, add_timer-Inv, cancel_in_loop-Inv, length-entries}
use suduo.TimerQueue.Loop.{due, later, ids, quiet_callback}
use suduo.TimerQueue.Expiry.{put_back, handle_read-due}

pub data Event : Type 0 where
  add : Request → Event
  cancel : ℕ → Event
  expire : ℕ → Event

-- One event of the loop; as many rounds of the loop of `handle_read` as there are timers, and one.
unfoldable pub step : TimerQueue → Event → Option TimerQueue
step q (add r) = add_timer q r
step q (cancel id) = cancel_in_loop q id
step q (expire now) = handle_read (suc (length q.timers)) quiet_callback q now

unfoldable pub run : TimerQueue → List Event → Option TimerQueue
run q [] = some q
run q (e ∷ es) = step q e >>= λ q'. run q' es

-- What a user sees: the timers that wait, in order, how many were made, and those that were run.
pub record Schedule : Type 0 where
  pub waiting : List Timer
  pub created : ℕ
  pub ran : List ℕ

abbrev pub schedule : Schedule → Event → Schedule
schedule s (add r) = record {
  waiting =
      insert_timer
        (record {
          id = s.created;
          expertion_time = r.when;
          repeated = r.repeated;
          interval = r.interval;
        })
        s.waiting;
  created = suc s.created;
  ran = s.ran;
}
schedule s (cancel id) = record s { waiting = remove id s.waiting }
schedule s (expire now) = record s {
  waiting = put_back now (due now s.waiting) (later now s.waiting);
  ran = s.ran ++ ids (due now s.waiting);
}

abbrev pub schedules : Schedule → List Event → Schedule
schedules s [] = s
schedules s (e ∷ es) = schedules (schedule s e) es

pub record Shows (q : TimerQueue) (s : Schedule) : Type 0 where
  pub inv : Inv q s.waiting
  pub created : q.created ≡ s.created
  pub ran : q.ran ≡ s.ran

step-Shows :
    {q : TimerQueue} {s : Schedule} (e : Event)
    → Shows q s
    → q.created ≤ 2 ^ 64 - 1
    → (q' : TimerQueue) × (step q e ≡ some q')
      × Shows q' (schedule s e)
      × (q'.created ≤ suc q.created)
unfolding step
step-Shows {q} {s} (add r) sh small =
    let (q', done, inv, made, ran) = add_timer-Inv r sh.inv in
    (
      q',
      done,
      record {
        inv =
            subst
              (λ n. Inv q' (
                insert_timer
                  (record {
                    id = n;
                    expertion_time = r.when;
                    repeated = r.repeated;
                    interval = r.interval;
                  })
                  s.waiting))
              sh.created inv;
        created = made ∙ ap suc sh.created;
        ran = ran ∙ sh.ran;
      },
      omega (arith, made),
    )
step-Shows {q} {s} (cancel id) sh small =
    let (q', done, inv, made, ran) = cancel_in_loop-Inv id sh.inv in
    (
      q',
      done,
      record { inv = inv; created = made ∙ sh.created; ran = ran ∙ sh.ran },
      omega (arith, made),
    )
step-Shows {q} {s} (expire now) sh small =
    let (q', done, inv, ran, made) =
      handle_read-due (suc (length q.timers)) now sh.inv
        (omega (arith, ap length sh.inv.timers, length-entries s.waiting)) small in
    (
      q',
      done,
      record {
        inv = inv;
        created = made ∙ sh.created;
        ran = ran ∙ ap (λ is. is ++ ids (due now s.waiting)) sh.ran;
      },
      omega (arith, made),
    )

run-Shows :
    (es : List Event) {q : TimerQueue} {s : Schedule}
    → Shows q s
    → q.created + length es ≤ 2 ^ 64 - 1
    → (q' : TimerQueue) × (run q es ≡ some q') × Shows q' (schedules s es)
unfolding run
run-Shows [] {q} sh small = (q, refl, sh)
run-Shows (e ∷ es) {q} sh small =
    let (q', done, sh', few) = step-Shows e sh (omega (arith, small)) in
    let (q'', done', sh'') = run-Shows es sh' (omega (arith, small, few)) in
    (q'', ap (λ m. m >>= λ q. run q es) done ∙ done', sh'')

-- Where no callback adds a timer, any run of up to 2^64 - 2 calls of `add_timer` and `cancel` and
-- expirations from a new queue fails no assertion and ends, and what it runs and what waits at its end
-- are those of a sorted list into which timers are put, from which they are removed by their id, and
-- of which the due ones are run and, if they repeat, put back.
pub run-schedules :
    (es : List Event)
    → length es ≤ 2 ^ 64 - 2
    → (q : TimerQueue) × (run new es ≡ some q)
      × Shows q (schedules (record { waiting = []; created = 1; ran = [] }) es)
unfolding new
run-schedules es few =
    run-Shows es (record { inv = new-Inv; created = refl; ran = refl }) (omega (arith, few))
