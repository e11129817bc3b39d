-- ===== src/ThreadPool.antt =====
-- suduo/base/ThreadPool.h and ThreadPool.cpp: workers that take tasks from a queue, under one mutex
-- and two conditions. As for the bounded queue, what a thread does with the mutex is one turn.
pub mod Invariant
mod Examples
use suduo.Prelude.{
  ℕ, zero, suc, ◌+◌, Bool, true, false, ◌&&◌, not, List, [], ◌∷◌, ◌++◌, if◌then◌else◌, ltb, leb,
  ◌==◌, length,
}
use suduo.BoundedBlockingQueue.{pick}

pub record ThreadPool {ℓ} (Task : Type ℓ) : Type ℓ where
  -- the threads of the pool
  pub threads : ℕ
  pub max_queue_size : ℕ
  pub running : Bool
  pub task_queue : List Task
  -- workers inside `_not_empty.wait()`, and the tasks of callers inside `_not_full.wait()`
  pub not_empty : ℕ
  pub not_full : List Task
  -- threads in `get_next_task` and in `run` that want the mutex
  pub to_get : ℕ
  pub to_run : List Task
  -- the tasks queued, those handed to a worker, and those that the caller ran itself
  pub accepted : List Task
  pub taken : List Task
  pub direct : List Task

pub data Event {ℓ} (Task : Type ℓ) : Type ℓ where
  call_run : Task → Event Task
  -- a worker comes round its loop
  call_get : Event Task
  run_turn : ℕ → Event Task
  get_turn : ℕ → Event Task
  stops : Event Task
  spurious_run : ℕ → Event Task
  spurious_get : Event Task

abbrev is_empty {ℓ} : {A : Type ℓ} → List A → Bool
is_empty xs = length xs == 0

module _ {ℓ} {Task : Type ℓ} where
  -- A pool after `start`.
  unfoldable pub start : ℕ → ℕ → ThreadPool Task
  start threads_num max_queue_size = record {
    threads = threads_num;
    max_queue_size = max_queue_size;
    running = true;
    task_queue = [];
    not_empty = 0;
    not_full = [];
    to_get = 0;
    to_run = [];
    accepted = [];
    taken = [];
    direct = [];
  }

  abbrev pub is_full : ThreadPool Task → Bool
  is_full p = ltb 0 p.max_queue_size && leb p.max_queue_size (length p.task_queue)

  -- `_not_empty.notify()` and `_not_full.notify()`.
  unfoldable pub wake_get : ThreadPool Task → ℕ → ThreadPool Task
  wake_get p zero = p
  wake_get p (suc n) = record p { not_empty = n; to_get = suc p.to_get }

  unfoldable pub wake_run : ℕ → ThreadPool Task → List Task → ThreadPool Task
  wake_run i p [] = p
  wake_run i p (t ∷ ts) = record p {
    not_full = (pick i t ts).1;
    to_run = (pick i t ts).0 ∷ p.to_run;
  }

  -- `run`, with the mutex.
  unfoldable pub run_task : ThreadPool Task → Task → ThreadPool Task
  run_task p task =
      if is_full p && p.running
      then record p { not_full = task ∷ p.not_full }
      else (if not p.running
          then p
          else wake_get
              (record p {
                task_queue = p.task_queue ++ task ∷ [];
                accepted = p.accepted ++ task ∷ [];
              })
              p.not_empty)

  -- The second half of `get_next_task`. An empty task is handed out when the pool has stopped.
  unfoldable pub take_task : ℕ → ThreadPool Task → List Task → ThreadPool Task
  take_task i p [] = p
  take_task i p (t ∷ ts) =
      let p' = record p { task_queue = ts; taken = p.taken ++ t ∷ [] } in
      if ltb 0 p.max_queue_size then wake_run i p' p.not_full else p'

  unfoldable pub get_next_task : ℕ → ThreadPool Task → ThreadPool Task
  get_next_task i p =
      if is_empty p.task_queue && p.running
      then record p { not_empty = suc p.not_empty }
      else take_task i p p.task_queue

  -- `stop`, but for the joins: both conditions wake all their threads.
  unfoldable pub stop : ThreadPool Task → ThreadPool Task
  stop p = record p {
    running = false;
    to_get = p.not_empty + p.to_get;
    not_empty = 0;
    to_run = p.not_full ++ p.to_run;
    not_full = [];
  }

  -- A turn of one of the threads that want the mutex, if there is one.
  unfoldable pub turn_run : ℕ → ThreadPool Task → List Task → ThreadPool Task
  turn_run i p [] = p
  turn_run i p (t ∷ ts) = run_task (record p { to_run = (pick i t ts).1 }) (pick i t ts).0

  unfoldable pub turn_get : ℕ → ThreadPool Task → ℕ → ThreadPool Task
  turn_get i p zero = p
  turn_get i p (suc n) = get_next_task i (record p { to_get = n })

  unfoldable pub step : ThreadPool Task → Event Task → ThreadPool Task
  step p (call_run task) = record p {
    direct = if p.threads == 0 then p.direct ++ task ∷ [] else p.direct;
    to_run = if p.threads == 0 then p.to_run else task ∷ p.to_run;
  }
  step p call_get = record p { to_get = if p.running then suc p.to_get else p.to_get }
  step p (run_turn i) = turn_run i p p.to_run
  step p (get_turn i) = turn_get i p p.to_get
  step p stops = stop p
  step p (spurious_run i) = wake_run i p p.not_full
  step p spurious_get = wake_get p p.not_empty

  unfoldable pub run : ThreadPool Task → List (Event Task) → ThreadPool Task
  run p [] = p
  run p (e ∷ es) = run (step p e) es
