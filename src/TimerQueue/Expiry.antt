-- ===== src/TimerQueue/Expiry.antt =====
-- `handle_read` where no callback adds a timer.
use suduo.Prelude.{
  ℕ, ◌+◌, ◌-◌, ◌^◌, ◌≤◌, ◌<◌, ◌≡◌, refl, sym, ap, ◌∙◌, inl, inr, Bool, true, false, ◌&&◌, not,
  Option, some, List, [], ◌∷◌, ◌++◌, if◌then◌else◌, ◌==◌, length, length-append, arith, Bool-cases,
  subst, ◌>>=◌,
}
use suduo.TimerQueue.{
  Timer, TimerQueue, Key, first, lower_bound, from, elem, erase, insert, run_expired, restart,
  restart_all, next_expired, reset, handle_read,
}
use suduo.TimerQueue.Entries.{
  entries, key_of, count, count_id, Sorted, insert_timer, count-erase, length-erase,
  count_id-insert_timer,
}
use suduo.TimerQueue.Invariant.{Inv, insert-Inv}
use suduo.TimerQueue.Loop.{
  due, later, ids, quiet_callback, cleared, erase_all, due-later, later_bound, from-cleared,
  Sorted-split, Sorted-right, before_irrefl, run_expired-due,
}

-- What is in the queue once the timers that were run are put back.
abbrev pub put_back : ℕ → List Timer → List Timer → List Timer
put_back now [] ts = ts
put_back now (e ∷ es) ts =
    put_back now es
      (if e.repeated then insert_timer (record e { expertion_time = now + e.interval }) ts else ts)

count_id-append :
    (i : ℕ) (xs ys : List Timer) → count_id i (xs ++ ys) ≡ count_id i xs + count_id i ys
count_id-append i [] ys = omega arith
count_id-append i (x ∷ xs) ys = omega (arith, count_id-append i xs ys)

-- The ids of the timers that were run leave the active ones.
erase_all_lem :
    (rs : List Timer) (js : List ℕ) (rest : ℕ → ℕ)
    → ((i : ℕ) → count i js ≡ count_id i rs + rest i)
    → (length (erase_all rs js) + length rs ≡ length js)
      × ((i : ℕ) → count i (erase_all rs js) ≡ rest i)
erase_all_lem [] js rest h = (omega arith, λ i. omega (arith, h i))
erase_all_lem (r ∷ rs) js rest h =
    let here : 0 < count r.id js = ground (arith, h r.id) in
    let (long, counts) =
      erase_all_lem rs (erase r.id js) rest (λ i. omega (arith, h i, count-erase i r.id js here)) in
    (omega (arith, long, length-erase r.id js here), counts)

-- The entries up to the iterator are erased.
from-due :
    (ds ls : List Timer)
    → Sorted (ds ++ ls)
    → from (first (entries ls)) (cleared ds ++ entries ls) ≡ entries ls
from-due ds [] s = refl
from-due ds (l ∷ ls) s =
    let (b, a) = Sorted-split ds l ls s in
    from-cleared (key_of l) ds (entries (l ∷ ls)) b ∙ rw (before_irrefl (key_of l)) refl

if_true : {A : Type 0} {b : Bool} (x y : A) → b ≡ true → (if b then x else y) ≡ x
if_true x y h = rw h refl

if_false : {A : Type 0} {b : Bool} (x y : A) → b ≡ false → (if b then x else y) ≡ y
if_false x y h = rw h refl

restart-eq :
    (now : ℕ) (e : Timer)
    → e.repeated ≡ true
    → restart now e ≡ record e { expertion_time = now + e.interval }
unfolding restart
restart-eq now e h = ap (λ b. record e { expertion_time = if b then now + e.interval else 0 }) h

-- With no cancelled ids, a timer is put back if it repeats.
kept :
    (e : Timer) (q : TimerQueue)
    → q.canceling_timers ≡ []
    → (e.repeated && not (elem e.id q.canceling_timers)) ≡ e.repeated
kept e q c = ap (λ is. e.repeated && not (elem e.id is)) c ∙ ground arith

restart_all-Inv :
    (es : List Timer) {ls : List Timer} (q : TimerQueue) (now : ℕ)
    → Inv q ls
    → q.canceling_timers ≡ []
    → ((i : ℕ) → count_id i es + count_id i ls ≤ 1)
    → ((i : ℕ) → q.created ≤ i → count_id i es ≡ 0)
    → (q' : TimerQueue) × (restart_all q now es ≡ some q')
      × Inv q' (put_back now es ls)
      × (q'.ran ≡ q.ran)
      × (q'.created ≡ q.created)
unfolding restart_all
restart_all-Inv [] q now inv c once old = (q, refl, inv, refl, refl)
restart_all-Inv (e ∷ es) {ls} q now inv c once old = elim (Bool-cases e.repeated) [
  | inr one_shot ↦
      let (q', done, inv', ran, made) =
        restart_all-Inv es q now inv c (λ i. omega (arith, once i))
          (λ i h. omega (arith, old i h)) in
      (
        q',
        if_false _ _ (kept e q c ∙ one_shot) ∙ done,
        subst (λ ts. Inv q' (put_back now es ts)) (sym (if_false _ _ one_shot)) inv',
        ran,
        made,
      )
  | inl again ↦
      let t : Timer = record e { expertion_time = now + e.interval } in
      let (q', done, inv', same) =
        insert-Inv t inv (ground (arith, once e.id)) (ground (arith, old e.id)) in
      let (q'', done', inv'', ran, made) =
        restart_all-Inv es q' now inv' (ap (λ x. x.canceling_timers) same ∙ c)
          (λ i. omega (arith, once i, count_id-insert_timer i t ls))
          (λ i h. omega (arith, old i (rw (ap (λ x. x.created) same) at h))) in
      (
        q'',
        if_true _ _ (kept e q c ∙ again)
            ∙ ap (λ u. insert q u >>= λ r. restart_all (r.1) now es) (restart-eq now e again)
            ∙ ap (λ m. m >>= λ r. restart_all (r.1) now es) done
            ∙ done',
        subst (λ ts. Inv q'' (put_back now es ts)) (sym (if_true _ _ again)) inv'',
        ran ∙ ap (λ x. x.ran) same,
        made ∙ ap (λ x. x.created) same,
      )
]

first-time : (ts : List Timer) → (n : ℕ) × (next_expired (entries ts) ≡ some n)
first-time [] = (0, refl)
first-time (t ∷ ts) = (t.expertion_time, refl)

reset-Inv :
    (es : List Timer) {ls : List Timer} (q : TimerQueue) (now : ℕ)
    → Inv q ls
    → q.canceling_timers ≡ []
    → ((i : ℕ) → count_id i es + count_id i ls ≤ 1)
    → ((i : ℕ) → q.created ≤ i → count_id i es ≡ 0)
    → (q' : TimerQueue) × (reset q es now ≡ some q')
      × Inv q' (put_back now es ls)
      × (q'.ran ≡ q.ran)
      × (q'.created ≡ q.created)
unfolding reset
reset-Inv es {ls} q now inv c once old =
    let (q', done, inv', ran, made) = restart_all-Inv es q now inv c once old in
    let (n, next) = first-time (put_back now es ls) in
    (
      _,
      ap (λ m. m >>= λ r. next_expired r.timers >>= λ m. some (timed r m)) done
          ∙ ap (λ es. next_expired es >>= λ m. some (timed q' m)) inv'.timers
          ∙ ap (λ m. m >>= λ m. some (timed q' m)) next,
      record {
        timers = inv'.timers;
        sorted = inv'.sorted;
        active = inv'.active;
        once = inv'.once;
        sizes = inv'.sizes;
        fresh = inv'.fresh;
        quiet = inv'.quiet;
      },
      ran,
      made,
    )
  where
    timed : TimerQueue → ℕ → TimerQueue
    timed r m = record r { timer_fd = if m == 0 then r.timer_fd else some m }

-- The queue once the timers that are due were run, and before `reset`.
abbrev run_due : List Timer → List Timer → TimerQueue → TimerQueue
run_due ds ls q = record q {
  timers = entries ls;
  active_timers = erase_all ds q.active_timers;
  calling_expired_timers = false;
  canceling_timers = [];
  ran = q.ran ++ ids ds;
}

started : TimerQueue → TimerQueue
started q = record q { calling_expired_timers = true; canceling_timers = [] }

handle_read-reset :
    (q : TimerQueue) (ds ls : List Timer) (fuel now : ℕ)
    → Sorted (ds ++ ls)
    → q.timers ≡ entries (ds ++ ls)
    → length ds < fuel
    → lower_bound (now, 2 ^ 64 - 1) q.timers ≡ first (entries ls)
    → handle_read fuel quiet_callback q now ≡ reset (run_due ds ls q) ds now
unfolding handle_read started
handle_read-reset q ds ls fuel now s e enough bound =
    ap (λ it. run_expired fuel quiet_callback (started q) it (first q.timers) [] >>= done it) bound
    ∙ ap
        (λ es.
          run_expired fuel quiet_callback (started q) (first (entries ls)) (first es) []
          >>= done (first (entries ls)))
        e
    ∙ ap (λ m. m >>= done (first (entries ls)))
        (run_expired-due ds fuel (started q) [] ls [] enough s e)
    ∙ ap (λ es. reset (record (run_due ds ls q) { timers = es }) ds now) (from-due ds ls s)
  where
    done : Option Key → TimerQueue × List Timer → Option TimerQueue
    done it r =
        reset (record (r.0) { timers = from it (r.0.timers); calling_expired_timers = false }) (r.1)
          now

run_due-Inv :
    {q : TimerQueue} {ts : List Timer} (ds ls : List Timer)
    → Inv q ts
    → ds ++ ls ≡ ts
    → ((i : ℕ) → count_id i ts ≡ count_id i ds + count_id i ls)
    → Inv (run_due ds ls q) ls
run_due-Inv {q} {ts} ds ls inv whole counts =
    let (long, active) =
      erase_all_lem ds q.active_timers (λ i. count_id i ls) (λ i. inv.active i ∙ counts i) in
    record {
      timers = refl;
      sorted = Sorted-right ds ls (subst Sorted (sym whole) inv.sorted);
      active = active;
      once = λ i. omega (arith, inv.once i, counts i);
      sizes = omega (arith, long, inv.sizes, length-append ds ls, ap length whole);
      fresh = λ i h. omega (arith, inv.fresh i h, counts i);
      quiet = refl;
    }

-- Where no callback adds a timer and ids are below the largest one, `handle_read` fails no assertion,
-- runs the timers whose time has come, each once, in order, and keeps the others and those that
-- repeat, at their next time.
pub handle_read-due :
    {q : TimerQueue} {ts : List Timer} (fuel now : ℕ)
    → Inv q ts
    → length ts < fuel
    → q.created ≤ 2 ^ 64 - 1
    → (q' : TimerQueue) × (handle_read fuel quiet_callback q now ≡ some q')
      × Inv q' (put_back now (due now ts) (later now ts))
      × (q'.ran ≡ q.ran ++ ids (due now ts))
      × (q'.created ≡ q.created)
handle_read-due {q} {ts} fuel now inv enough small =
    let ds = due now ts in
    let ls = later now ts in
    let whole : ds ++ ls ≡ ts = due-later now ts in
    let counts : ((i : ℕ) → count_id i ts ≡ count_id i ds + count_id i ls) =
      λ i. ap (count_id i) (sym whole) ∙ count_id-append i ds ls in
    let (q', done, inv', ran, made) =
      reset-Inv ds (run_due ds ls q) now (run_due-Inv ds ls inv whole counts) refl
        (λ i. omega (arith, inv.once i, counts i))
        (λ i h. omega (arith, inv.fresh i h, counts i)) in
    (
      q',
      handle_read-reset q ds ls fuel now (subst Sorted (sym whole) inv.sorted)
            (inv.timers ∙ ap entries (sym whole))
            (omega (arith, length-append ds ls, ap length whole))
            (ap (lower_bound (now, 2 ^ 64 - 1)) inv.timers
              ∙ later_bound now ts (λ i h. inv.fresh i (omega (arith, small))))
          ∙ done,
      inv',
      ran,
      made,
    )
