-- ===== src/TimerQueue/Loop.antt =====
-- The loop of `handle_read` where no callback adds a timer.
use suduo.Prelude.{
  ℕ, zero, suc, ◌-◌, ◌^◌, ◌≤◌, ◌<◌, ◌≡◌, refl, sym, ap, ◌∙◌, true, false, Option, none, some, List,
  [], ◌∷◌, ◌++◌, append_assoc, append-nil, if◌then◌else◌, leb, length, arith,
}
use suduo.TimerQueue.{
  Timer, Entry, TimerQueue, Request, Key, before, same_key, first, same_iter, at_key, next_after,
  lower_bound, from, clear, erase, add_timers, run_expired,
}
use suduo.TimerQueue.Entries.{entries, key_of, count_id, Above, Sorted}

-- The timers whose time has come, the others, and what is in the queue afterwards.
abbrev pub due : ℕ → List Timer → List Timer
due now [] = []
due now (t ∷ ts) = if leb t.expertion_time now then t ∷ due now ts else []

abbrev pub later : ℕ → List Timer → List Timer
later now [] = []
later now (t ∷ ts) = if leb t.expertion_time now then later now ts else t ∷ ts

abbrev pub ids : List Timer → List ℕ
ids [] = []
ids (t ∷ ts) = t.id ∷ ids ts

abbrev pub quiet_callback : ℕ → List Request
quiet_callback id = []

abbrev pub cleared : List Timer → List Entry
cleared [] = []
cleared (t ∷ ts) = record { when = t.expertion_time; id = t.id; timer = none } ∷ cleared ts

abbrev pub erase_all : List Timer → List ℕ → List ℕ
erase_all [] js = js
erase_all (t ∷ ts) js = erase_all ts (erase t.id js)

abbrev pub Below : Key → List Timer → Type 0
Below k [] = Unit {0}
Below k (t ∷ ts) = (before (key_of t) k ≡ true) × Below k ts

cleared-append :
    (ds : List Timer) (r : Timer) (es : List Entry)
    → cleared (ds ++ r ∷ []) ++ es ≡ cleared ds ++ (cleared (r ∷ []) ++ es)
cleared-append [] r es = refl
cleared-append (d ∷ ds) r es = rw (cleared-append ds r es) refl

pub due-later : (now : ℕ) (ts : List Timer) → due now ts ++ later now ts ≡ ts
due-later now [] = refl
due-later now (t ∷ ts) = ground (arith, due-later now ts)

pub later_bound :
    (now : ℕ) (ts : List Timer)
    → ((i : ℕ) → 2 ^ 64 - 1 ≤ i → count_id i ts ≡ 0)
    → lower_bound (now, 2 ^ 64 - 1) (entries ts) ≡ first (entries (later now ts))
later_bound now [] small = refl
later_bound now (t ∷ ts) small =
    ground (arith, small t.id, later_bound now ts (λ i h. ground (arith, small i h)))

pub before_irrefl : (k : Key) → before k k ≡ false
before_irrefl (w, i) = ground arith

before_asym : (k k' : Key) → before k k' ≡ true → before k' k ≡ false
before_asym (w, i) (w', i') h = ground arith

before_differs : (k k' : Key) → before k k' ≡ true → same_key k k' ≡ false
before_differs (w, i) (w', i') h = ground arith

same_key_refl : (k : Key) → same_key k k ≡ true
same_key_refl (w, i) = ground arith

same_iter_refl : (it : Option Key) → same_iter it it ≡ true
same_iter_refl none = refl
same_iter_refl (some k) = same_key_refl k

-- In a sorted list what stands in front comes before, and what stands behind comes behind.
pub Sorted-split :
    (ds : List Timer) (r : Timer) (xs : List Timer)
    → Sorted (ds ++ r ∷ xs)
    → Below (key_of r) ds × Above (key_of r) xs
Sorted-split [] r xs (a, s) = (tt, a)
Sorted-split (d ∷ ds) r xs (a, s) =
    let (b, c) = Sorted-split ds r xs s in ((before-Above ds a, b), c)
  where
    before-Above :
        (es : List Timer) → Above (key_of d) (es ++ r ∷ xs) → before (key_of d) (key_of r) ≡ true
    before-Above [] (h, k) = h
    before-Above (e ∷ es) (h, k) = before-Above es k

pub Sorted-right : (ds xs : List Timer) → Sorted (ds ++ xs) → Sorted xs
Sorted-right [] xs s = s
Sorted-right (d ∷ ds) xs (a, s) = Sorted-right ds xs s

at_key-cleared :
    (k : Key) (ds : List Timer) (es : List Entry)
    → Below k ds
    → at_key k (cleared ds ++ es) ≡ at_key k es
at_key-cleared k [] es b = refl
at_key-cleared k (d ∷ ds) es (h, b) = rw (before_differs (key_of d) k h) (at_key-cleared k ds es b)

clear-cleared :
    (k : Key) (ds : List Timer) (es : List Entry)
    → Below k ds
    → clear k (cleared ds ++ es) ≡ cleared ds ++ clear k es
clear-cleared k [] es b = refl
clear-cleared k (d ∷ ds) es (h, b) =
    rw (before_differs (key_of d) k h, clear-cleared k ds es b) refl

next_after-cleared :
    (k : Key) (ds : List Timer) (es : List Entry)
    → Below k ds
    → next_after k (cleared ds ++ es) ≡ next_after k es
next_after-cleared k [] es b = refl
next_after-cleared k (d ∷ ds) es (h, b) =
    rw (before_asym (key_of d) k h) (next_after-cleared k ds es b)

pub from-cleared :
    (k : Key) (ds : List Timer) (es : List Entry)
    → Below k ds
    → from (some k) (cleared ds ++ es) ≡ from (some k) es
from-cleared k [] es b = refl
from-cleared k (d ∷ ds) es (h, b) = rw h (from-cleared k ds es b)

next-first :
    (k : Key) (xs : List Timer) → Above k xs → next_after k (entries xs) ≡ first (entries xs)
next-first k [] a = refl
next-first k (x ∷ xs) (h, a) = rw h refl

-- An entry that is due is not the first of the later ones.
not_end :
    (r : Timer) (rs ls : List Timer)
    → Above (key_of r) (rs ++ ls)
    → same_iter (some (key_of r)) (first (entries ls)) ≡ false
not_end r rs [] a = refl
not_end r [] (l ∷ ls) (h, a) = before_differs (key_of r) (key_of l) h
not_end r (s ∷ rs) (l ∷ ls) (h, a) = not_end r rs (l ∷ ls) a

-- The loop, with `ds` behind it and `rs` to run.
pub run_expired-due :
    (rs : List Timer) (fuel : ℕ) (q : TimerQueue) (ds ls acc : List Timer)
    → length rs < fuel
    → Sorted (ds ++ (rs ++ ls))
    → q.timers ≡ cleared ds ++ entries (rs ++ ls)
    → run_expired fuel quiet_callback q (first (entries ls)) (first (entries (rs ++ ls))) acc
      ≡ some (
        record q {
          timers = cleared (ds ++ rs) ++ entries ls;
          active_timers = erase_all rs q.active_timers;
          ran = q.ran ++ ids rs;
        },
        acc ++ rs,
      )
unfolding run_expired add_timers
run_expired-due rs zero q ds ls acc h s e = absurd (omega arith)
run_expired-due [] (suc fuel) q ds ls acc h s e =
    rw (same_iter_refl (first (entries ls)), append-nil ds, append-nil q.ran, append-nil acc)
      (ap (λ es. some (record q { timers = es }, acc)) e)
run_expired-due (r ∷ rs) (suc fuel) q ds ls acc h s e =
    let (b, a) = Sorted-split ds r (rs ++ ls) s in
    let k : Key = key_of r in
    rw
      (
        not_end r rs ls a,
        e,
        at_key-cleared k ds (entries (r ∷ (rs ++ ls))) b,
        clear-cleared k ds (entries (r ∷ (rs ++ ls))) b,
        next_after-cleared k ds (entries (r ∷ (rs ++ ls))) b,
        same_key_refl k,
        before_irrefl k,
        next-first k (rs ++ ls) a,
      )
      (run_expired-due rs fuel
          (record q {
            timers = cleared ds ++ (cleared (r ∷ []) ++ entries (rs ++ ls));
            active_timers = erase r.id q.active_timers;
            ran = q.ran ++ r.id ∷ [];
          })
          (ds ++ r ∷ []) ls (acc ++ r ∷ []) (omega arith)
          (rw (append_assoc ds (r ∷ []) (rs ++ ls)) s)
          (sym (cleared-append ds r (entries (rs ++ ls))))
        ∙ simp append_assoc)
