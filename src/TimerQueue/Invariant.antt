-- ===== src/TimerQueue/Invariant.antt =====
-- The invariant of a queue: the sorted list of timers that its two maps stand for.
use suduo.Prelude.{
  ℕ, suc, ◌≤◌, ◌<◌, ◌≡◌, refl, sym, ap, ◌∙◌, inl, inr, true, false, some, List, [], ◌∷◌, ◌==◌,
  length, arith, Bool-cases,
}
use suduo.TimerQueue.{
  Timer, TimerQueue, Request, new, elem, erase, is_earliest, insert, add_timer, cancel_active,
  cancel_in_loop,
}
use suduo.TimerQueue.Entries.{
  entries, count, count_id, Sorted, insert_timer, remove, entries-insert_timer, length-insert_timer,
  count_id-insert_timer, Sorted-insert_timer, has_key-count_id, elem-count, count-elem,
  not_elem-count, count-erase, length-erase, at_id_lem, remove_absent, count_id-remove,
  length-remove, Sorted-remove,
}

pub record Inv (q : TimerQueue) (ts : List Timer) : Type 0 where
  pub timers : q.timers ≡ entries ts
  pub sorted : Sorted ts
  pub active : (i : ℕ) → count i q.active_timers ≡ count_id i ts
  pub once : (i : ℕ) → count_id i ts ≤ 1
  pub sizes : length q.active_timers ≡ length ts
  pub fresh : (i : ℕ) → q.created ≤ i → count_id i ts ≡ 0
  pub quiet : q.calling_expired_timers ≡ false

pub new-Inv : Inv new []
unfolding new
new-Inv = record {
  timers = refl;
  sorted = tt;
  active = λ i. refl;
  once = λ i. omega arith;
  sizes = refl;
  fresh = λ i h. refl;
  quiet = refl;
}

pub length-entries : (ts : List Timer) → length (entries ts) ≡ length ts
length-entries [] = refl
length-entries (t ∷ ts) = ap suc (length-entries ts)

-- A timer with an id that is not in the queue goes in.
pub insert-Inv :
    {q : TimerQueue} {ts : List Timer} (t : Timer)
    → Inv q ts
    → count_id t.id ts ≡ 0
    → t.id < q.created
    → (q' : TimerQueue) × (insert q t ≡ some (is_earliest t.expertion_time (entries ts), q'))
      × Inv q' (insert_timer t ts)
      × (q' ≡ record q { timers = q'.timers; active_timers = q'.active_timers })
unfolding insert
insert-Inv {q} {ts} t inv absent old =
    let level : (length q.timers == length q.active_timers) ≡ true =
      ground (arith, ap length inv.timers, length-entries ts, inv.sizes) in
    let no_entry = has_key-count_id (t.expertion_time, t.id) ts absent in
    let idle = elem-count t.id q.active_timers (inv.active t.id ∙ absent) in
    rw (level, inv.timers, no_entry, idle)
      (
        _,
        refl,
        record {
          timers = entries-insert_timer t ts;
          sorted = Sorted-insert_timer t ts absent inv.sorted;
          active = λ i. omega (arith, inv.active i, count_id-insert_timer i t ts);
          once = λ i. ground (arith, inv.once i, count_id-insert_timer i t ts, absent);
          sizes = omega (arith, inv.sizes, length-insert_timer t ts);
          fresh = λ i h. ground (arith, inv.fresh i h, count_id-insert_timer i t ts);
          quiet = inv.quiet;
        },
        refl,
      )

abbrev pub requested : TimerQueue → Request → Timer
requested q r = record {
  id = q.created;
  expertion_time = r.when;
  repeated = r.repeated;
  interval = r.interval;
}

pub add_timer-Inv :
    {q : TimerQueue} {ts : List Timer} (r : Request)
    → Inv q ts
    → (q' : TimerQueue) × (add_timer q r ≡ some q')
      × Inv q' (insert_timer (requested q r) ts)
      × (q'.created ≡ suc q.created)
      × (q'.ran ≡ q.ran)
unfolding add_timer
add_timer-Inv {q} {ts} r inv =
    let next : Inv (record q { created = suc q.created }) ts = record {
      timers = inv.timers;
      sorted = inv.sorted;
      active = inv.active;
      once = inv.once;
      sizes = inv.sizes;
      fresh = λ i h. inv.fresh i (omega arith);
      quiet = inv.quiet;
    } in
    let (q', done, inv', same) =
      insert-Inv (requested q r) next (inv.fresh q.created (omega arith)) (omega arith) in
    rw done (
      _,
      refl,
      record {
        timers = inv'.timers;
        sorted = inv'.sorted;
        active = inv'.active;
        once = inv'.once;
        sizes = inv'.sizes;
        fresh = inv'.fresh;
        quiet = inv'.quiet;
      },
      ap (λ x. x.created) same,
      ap (λ x. x.ran) same,
    )

-- Cancelling takes the timer with this id out, if there is one.
pub cancel_in_loop-Inv :
    {q : TimerQueue} {ts : List Timer} (id : ℕ)
    → Inv q ts
    → (q' : TimerQueue) × (cancel_in_loop q id ≡ some q')
      × Inv q' (remove id ts)
      × (q'.created ≡ q.created)
      × (q'.ran ≡ q.ran)
unfolding cancel_in_loop cancel_active
cancel_in_loop-Inv {q} {ts} id inv = elim (Bool-cases (elem id q.active_timers)) [
  | inl there ↦
      let here : 0 < count_id id ts =
        omega (arith, count-elem id q.active_timers there, inv.active id) in
      let (t, at, has, gone) = at_id_lem id ts here in
      let level : (length (entries (remove id ts)) == length (erase id q.active_timers)) ≡ true =
        ground (
          arith,
          length-entries (remove id ts),
          length-remove id ts here,
          length-erase id q.active_timers (count-elem id q.active_timers there),
          inv.sizes,
        ) in
      rw (there, inv.timers, at, has, gone, level)
        (
          _,
          refl,
          record {
            timers = refl;
            sorted = Sorted-remove id ts inv.sorted;
            active = λ i. omega (
              arith,
              inv.active i,
              count_id-remove i id ts here,
              count-erase i id q.active_timers (count-elem id q.active_timers there),
            );
            once = λ i. ground (arith, inv.once i, count_id-remove i id ts here);
            sizes = omega (
              arith,
              inv.sizes,
              length-remove id ts here,
              length-erase id q.active_timers (count-elem id q.active_timers there),
            );
            fresh = λ i h. ground (arith, inv.fresh i h, count_id-remove i id ts here);
            quiet = inv.quiet;
          },
          refl,
          refl,
        )
  | inr absent ↦
      let none_there : count_id id ts ≡ 0 =
        sym (inv.active id) ∙ not_elem-count id q.active_timers absent in
      let level : (length q.timers == length q.active_timers) ≡ true =
        ground (arith, ap length inv.timers, length-entries ts, inv.sizes) in
      rw (absent, inv.quiet, remove_absent id ts none_there, level)
        (
          _,
          refl,
          record {
            timers = inv.timers;
            sorted = inv.sorted;
            active = inv.active;
            once = inv.once;
            sizes = inv.sizes;
            fresh = inv.fresh;
            quiet = refl;
          },
          refl,
          refl,
        )
]
