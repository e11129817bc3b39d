-- ===== src/BoundedBlockingQueue.antt =====
-- suduo/base/BoundedBlockingQueue.h, with Mutex.h and Condition.h below it: threads that push and
-- pop under one mutex and wait on two conditions. What a thread does from taking the mutex to
-- giving it up, in `wait()` or at the end, is one turn.
pub mod Invariant
mod Examples
use suduo.Prelude.{
  ℕ, zero, suc, ◌+◌, Bool, Option, none, some, List, [], ◌∷◌, ◌++◌, if◌then◌else◌, length, ◌>>=◌,
}
use suduo.CircularBuffer.{CircularBuffer, full, empty}
use suduo.CircularBuffer

pub record Monitor {ℓ} (A : Type ℓ) : Type ℓ where
  pub queue : CircularBuffer A
  -- threads inside `_not_empty.wait()`, and the values of those inside `_not_full.wait()`
  pub not_empty : ℕ
  pub not_full : List A
  -- threads in `pop` and in `push` that want the mutex: new calls, and threads woken up
  pub to_pop : ℕ
  pub to_push : List A
  -- the values stored and handed out so far
  pub accepted : List A
  pub delivered : List A

-- What the scheduler and the callers do next. An index chooses among several threads.
pub data Event {ℓ} (A : Type ℓ) : Type ℓ where
  call_push : A → Event A
  call_pop : Event A
  push_turn : ℕ → Event A
  pop_turn : ℕ → Event A
  -- `pthread_cond_wait` may return with no signal
  spurious_push : ℕ → Event A
  spurious_pop : Event A

module _ {ℓ} {A : Type ℓ} where
  unfoldable pub new : A → ℕ → Monitor A
  new blank max_size = record {
    queue = CircularBuffer.new blank max_size;
    not_empty = 0;
    not_full = [];
    to_pop = 0;
    to_push = [];
    accepted = [];
    delivered = [];
  }

  -- The chosen entry and the others; the last one if the index is too large.
  unfoldable pub pick : ℕ → A → List A → A × List A
  pick i v [] = (v, [])
  pick zero v (w ∷ ws) = (v, w ∷ ws)
  pick (suc i) v (w ∷ ws) = let (x, rest) = pick i w ws in (x, v ∷ rest)

  -- `_not_empty.notify()`: a waiting thread, if there is one, goes for the mutex.
  unfoldable pub wake_pop : Monitor A → ℕ → Monitor A
  wake_pop m zero = m
  wake_pop m (suc n) = record m { not_empty = n; to_pop = suc m.to_pop }

  -- `_not_full.notify()`: which of the waiting threads it wakes is not said.
  unfoldable pub wake_push : ℕ → Monitor A → List A → Monitor A
  unfolding pick
  wake_push i m [] = m
  wake_push i m (v ∷ ws) =
      let (x, rest) = pick i v ws in record m { not_full = rest; to_push = x ∷ m.to_push }

  -- `push`: a turn of a thread with a value, when it has the mutex.
  unfoldable pub push : Monitor A → A → Option (Monitor A)
  push m val = if full m.queue then some (record m { not_full = val ∷ m.not_full }) else (do
    q ← CircularBuffer.push m.queue val
    some (wake_pop (record m { queue = q; accepted = m.accepted ++ val ∷ [] }) m.not_empty))

  -- `pop`, in the same way.
  unfoldable pub pop : ℕ → Monitor A → Option (Monitor A)
  pop i m = if empty m.queue then some (record m { not_empty = suc m.not_empty }) else (do
    (val, q) ← CircularBuffer.pop m.queue
    some (wake_push i (record m { queue = q; delivered = m.delivered ++ val ∷ [] }) m.not_full))

  -- A turn of one of the threads that want the mutex; none if there is no such thread.
  unfoldable pub turn_push : ℕ → Monitor A → List A → Option (Monitor A)
  turn_push i m [] = some m
  turn_push i m (v ∷ vs) = let (x, rest) = pick i v vs in push (record m { to_push = rest }) x

  unfoldable pub turn_pop : ℕ → Monitor A → ℕ → Option (Monitor A)
  turn_pop i m zero = some m
  turn_pop i m (suc n) = pop i (record m { to_pop = n })

  unfoldable pub step : Monitor A → Event A → Option (Monitor A)
  step m (call_push val) = some (record m { to_push = val ∷ m.to_push })
  step m call_pop = some (record m { to_pop = suc m.to_pop })
  step m (push_turn i) = turn_push i m m.to_push
  step m (pop_turn i) = turn_pop i m m.to_pop
  step m (spurious_push i) = some (wake_push i m m.not_full)
  step m spurious_pop = some (wake_pop m m.not_empty)

  unfoldable pub run : Monitor A → List (Event A) → Option (Monitor A)
  run m [] = some m
  run m (e ∷ es) = step m e >>= λ m'. run m' es
