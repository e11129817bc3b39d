-- ===== src/TimerQueue.antt =====
-- suduo/net/TimerQueue.h, TimerQueue.cpp and Timer.h: the timers of a loop, a map by time and id and a
-- map by id. A time is a number of nanoseconds. `none` is a failed assertion, an access behind the
-- end, or the use of a null pointer or of a reference to an entry that is gone.
pub mod Entries
pub mod Invariant
mod Loop
pub mod Expiry
pub mod Runs
mod Early
mod Examples
use suduo.Prelude.{
  ℕ, zero, suc, ◌+◌, ◌-◌, ◌^◌, Bool, true, false, ◌&&◌, ◌||◌, not, Option, none, some, List, [],
  ◌∷◌, ◌++◌, if◌then◌else◌, ltb, ◌==◌, length, ◌>>=◌, ◌>>◌, require,
}

pub record Timer : Type 0 where
  pub id : ℕ
  pub expertion_time : ℕ
  pub repeated : Bool
  -- `_interval` in the unit of a time, to which it is added
  pub interval : ℕ

-- An entry of `_timers`: its key, and its pointer, which is null once the timer was moved out.
pub record Entry : Type 0 where
  pub when : ℕ
  pub id : ℕ
  pub timer : Option Timer

pub record TimerQueue : Type 0 where
  pub timers : List Entry
  -- the ids of `_active_timers`, each of which refers to the entry of its id
  pub active_timers : List ℕ
  pub calling_expired_timers : Bool
  pub canceling_timers : List ℕ
  -- the time that the timer descriptor was set to last
  pub timer_fd : Option ℕ
  -- `Timer::_created`, which is static; the timers of other queues would count here too
  pub created : ℕ
  -- the timers that were run
  pub ran : List ℕ

-- What `add_timer` is called with: a time, whether the interval, a `double`, is positive, and the interval
-- in the unit of a time.
pub record Request : Type 0 where
  pub when : ℕ
  pub repeated : Bool
  pub interval : ℕ

abbrev pub Key : Type 0
Key = ℕ × ℕ

-- The order of keys: by time, then by id.
abbrev pub before : Key → Key → Bool
before (w, i) (w', i') = ltb w w' || (w == w' && ltb i i')

abbrev pub same_key : Key → Key → Bool
same_key (w, i) (w', i') = w == w' && i == i'

abbrev pub key : Entry → Key
key e = (e.when, e.id)

-- The iterator of `begin()`, and the equality of iterators; the end is `none`.
abbrev pub first : List Entry → Option Key
first [] = none
first (e ∷ es) = some (key e)

abbrev pub same_iter : Option Key → Option Key → Bool
same_iter none none = true
same_iter (some k) (some k') = same_key k k'
same_iter _ _ = false

abbrev pub has_key : Key → List Entry → Bool
has_key k [] = false
has_key k (e ∷ es) = same_key (key e) k || has_key k es

abbrev pub at_key : Key → List Entry → Option Entry
at_key k [] = none
at_key k (e ∷ es) = if same_key (key e) k then some e else at_key k es

abbrev pub at_id : ℕ → List Entry → Option Entry
at_id id [] = none
at_id id (e ∷ es) = if e.id == id then some e else at_id id es

-- `std::map::insert` of a key that is not there.
abbrev pub insert_entry : Entry → List Entry → List Entry
insert_entry n [] = n ∷ []
insert_entry n (e ∷ es) = if before (key n) (key e) then n ∷ e ∷ es else e ∷ insert_entry n es

-- `std::map::erase` of a key.
abbrev pub erase_key : Key → List Entry → List Entry
erase_key k [] = []
erase_key k (e ∷ es) = if same_key (key e) k then es else e ∷ erase_key k es

-- `++` on an iterator: the first key behind this one.
abbrev pub next_after : Key → List Entry → Option Key
next_after k [] = none
next_after k (e ∷ es) = if before k (key e) then some (key e) else next_after k es

-- `lower_bound`, and what stands from an iterator on.
abbrev pub lower_bound : Key → List Entry → Option Key
lower_bound k [] = none
lower_bound k (e ∷ es) = if before (key e) k then lower_bound k es else some (key e)

abbrev pub from : Option Key → List Entry → List Entry
from none es = []
from (some k) [] = []
from (some k) (e ∷ es) = if before (key e) k then from (some k) es else e ∷ es

-- The pointer of an entry is moved out.
abbrev pub clear : Key → List Entry → List Entry
clear k [] = []
clear k (e ∷ es) = if same_key (key e) k then record e { timer = none } ∷ es else e ∷ clear k es

abbrev pub elem : ℕ → List ℕ → Bool
elem id [] = false
elem id (i ∷ is) = i == id || elem id is

abbrev pub erase : ℕ → List ℕ → List ℕ
erase id [] = []
erase id (i ∷ is) = if i == id then is else i ∷ erase id is

unfoldable pub new : TimerQueue
new = record {
  timers = [];
  active_timers = [];
  calling_expired_timers = false;
  canceling_timers = [];
  timer_fd = none;
  created = 1;
  ran = [];
}

-- Whether a time comes before all others.
abbrev pub is_earliest : ℕ → List Entry → Bool
is_earliest when [] = true
is_earliest when (e ∷ es) = ltb when e.when

-- `insert`: the result says whether the earliest time has changed.
unfoldable pub insert : TimerQueue → Timer → Option (Bool × TimerQueue)
insert q t = do
  require (length q.timers == length q.active_timers)
  require (not (has_key (t.expertion_time, t.id) q.timers))
  require (not (elem t.id q.active_timers))
  some (
    is_earliest t.expertion_time q.timers,
    record q {
      timers =
          insert_entry (record { when = t.expertion_time; id = t.id; timer = some t }) q.timers;
      active_timers = t.id ∷ q.active_timers;
    },
  )

unfoldable pub add_timer : TimerQueue → Request → Option TimerQueue
add_timer q r = do
  (earliest_changed, q') ←
      insert (record q { created = suc q.created })
        (record {
          id = q.created;
          expertion_time = r.when;
          repeated = r.repeated;
          interval = r.interval;
        })
  some (record q' { timer_fd = if earliest_changed then some r.when else q'.timer_fd })

-- `_timers.erase` of the key of a timer that `_active_timers` refers to.
unfoldable pub cancel_active : TimerQueue → ℕ → Option TimerQueue
cancel_active q timer_id = do
  e ← at_id timer_id q.timers
  t ← e.timer
  require (has_key (t.expertion_time, timer_id) q.timers)
  some (record q {
    timers = erase_key (t.expertion_time, timer_id) q.timers;
    active_timers = erase timer_id q.active_timers;
  })

unfoldable pub cancel_in_loop : TimerQueue → ℕ → Option TimerQueue
cancel_in_loop q timer_id = do
  q' ←
      (if elem timer_id q.active_timers
        then cancel_active q timer_id
        else some (record q {
          canceling_timers =
              if q.calling_expired_timers && not (elem timer_id q.canceling_timers)
              then timer_id ∷ q.canceling_timers
              else q.canceling_timers;
        }))
  require (length q'.timers == length q'.active_timers)
  some q'

-- The timers that a callback adds.
unfoldable pub add_timers : TimerQueue → List Request → Option TimerQueue
add_timers q [] = some q
add_timers q (r ∷ rs) = add_timer q r >>= λ q'. add_timers q' rs

-- The loop of `handle_read` from `ptr` to `iter`. `callback` gives what a timer's callback adds.
unfoldable pub run_expired :
    ℕ
    → (ℕ → List Request)
    → TimerQueue
    → Option Key
    → Option Key
    → List Timer
    → Option (TimerQueue × List Timer)
run_expired zero callback q iter ptr expired = none
run_expired (suc fuel) callback q iter ptr expired =
    let rest : Option (TimerQueue × List Timer) = (do
      k ← ptr
      e ← at_key k q.timers
      t ← e.timer
      q' ← add_timers (record q { ran = q.ran ++ t.id ∷ [] }) (callback t.id)
      run_expired fuel callback
          (record q' { timers = clear k q'.timers; active_timers = erase (k.1) q'.active_timers })
          iter (next_after k q'.timers) (expired ++ t ∷ [])) in
    if same_iter ptr iter then some (q, expired) else rest

unfoldable pub restart : ℕ → Timer → Timer
restart now t = record t { expertion_time = if t.repeated then now + t.interval else 0 }

unfoldable pub restart_all : TimerQueue → ℕ → List Timer → Option TimerQueue
restart_all q now [] = some q
restart_all q now (t ∷ ts) =
    if t.repeated && not (elem t.id q.canceling_timers)
    then (insert q (restart now t) >>= λ r. restart_all (r.1) now ts)
    else restart_all q now ts

-- The expiration of the first timer; a time of 0 is not valid.
abbrev pub next_expired : List Entry → Option ℕ
next_expired [] = some 0
next_expired (e ∷ es) = e.timer >>= λ t. some t.expertion_time

unfoldable pub reset : TimerQueue → List Timer → ℕ → Option TimerQueue
reset q expired now = do
  q' ← restart_all q now expired
  next ← next_expired q'.timers
  some (record q' { timer_fd = if next == 0 then q'.timer_fd else some next })

unfoldable pub handle_read : ℕ → (ℕ → List Request) → TimerQueue → ℕ → Option TimerQueue
handle_read fuel callback q now = do
  let iter = lower_bound (now, 2 ^ 64 - 1) q.timers
  (q', expired) ←
      run_expired fuel callback (record q { calling_expired_timers = true; canceling_timers = [] })
        iter (first q.timers) []
  reset (record q' { timers = from iter q'.timers; calling_expired_timers = false }) expired now
