-- ===== src/EventLoop.antt =====
-- suduo/net/EventLoop.h and EventLoop.cpp: the functors that threads put into a loop, and the event
-- descriptor that ends its poll. Other threads take their steps between those of the loop's thread;
-- `queue_in_loop` of another thread is two of them, since it wakes the loop without the mutex.
pub mod Wakeups
mod Examples
use suduo.Prelude.{
  ℕ, zero, suc, ◌^◌, ◌-◌, Bool, true, false, ◌&&◌, List, [], ◌∷◌, ◌++◌, if◌then◌else◌, ltb,
}

-- Where the loop's thread stands: before `loop()`, which it calls once, in the poll, in the callbacks of the
-- channels, in `do_pending_functors`, or behind the loop.
pub data Phase : Type 0 where
  idle polling handling calling done : Phase

pub record EventLoop {ℓ} (F : Type ℓ) : Type ℓ where
  pub running : Bool
  pub phase : Phase
  pub pending_functors : List F
  -- the vector of `do_pending_functors`, less those that were called
  pub functors : List F
  -- the counter of the event descriptor, and the threads that are about to add to it
  pub wakeups : ℕ
  pub to_wake : ℕ
  -- whether a poll has returned, and the functors that the loop's own thread queued before `loop()`
  pub polled : Bool
  pub early : List F
  -- all functors that were queued, those of them that were called, and those called at once
  pub queued : List F
  pub called : List F
  pub direct : List F

pub data Event {ℓ} (F : Type ℓ) : Type ℓ where
  -- the flag says whether the caller is the loop's thread
  queues : Bool → F → Event F
  runs : Bool → F → Event F
  quits : Bool → Event F
  -- the loop's thread calls `loop()`
  loops : Event F
  -- another thread comes to `wakeup`
  wakes : Event F
  -- the poll returns, for an event or after its time
  poll_returns : Event F
  -- the callback of the event descriptor's channel
  reads_wakeups : Event F
  swaps_functors : Event F
  calls_functor : Event F
  -- `do_pending_functors` is through, and the loop looks at `_running`
  turns : Event F

abbrev pub is_calling : Phase → Bool
is_calling calling = true
is_calling _ = false

abbrev pub is_idle : Phase → Bool
is_idle idle = true
is_idle _ = false

-- Whether the loop's thread is at work, so that it can call a method.
abbrev pub is_busy : Phase → Bool
is_busy idle = true
is_busy handling = true
is_busy calling = true
is_busy _ = false

-- `write` on the event descriptor: the counter stays when it is at its top.
abbrev pub wakeup : ℕ → ℕ
wakeup n = if ltb n (2 ^ 64 - 2) then suc n else n

module _ {ℓ} {F : Type ℓ} where
  unfoldable pub start : EventLoop F
  start = record {
    running = false;
    phase = idle;
    pending_functors = [];
    functors = [];
    wakeups = 0;
    to_wake = 0;
    polled = false;
    early = [];
    queued = [];
    called = [];
    direct = [];
  }

  unfoldable pub queue_in_loop : Bool → EventLoop F → F → EventLoop F
  queue_in_loop in_loop l cb = record l {
    pending_functors = l.pending_functors ++ cb ∷ [];
    queued = l.queued ++ cb ∷ [];
    wakeups = if in_loop && is_calling l.phase then wakeup l.wakeups else l.wakeups;
    to_wake = if in_loop then l.to_wake else suc l.to_wake;
    early = if in_loop && is_idle l.phase then l.early ++ cb ∷ [] else l.early;
  }

  unfoldable pub run_in_loop : Bool → EventLoop F → F → EventLoop F
  run_in_loop in_loop l cb =
      if in_loop then record l { direct = l.direct ++ cb ∷ [] } else queue_in_loop false l cb

  unfoldable pub quit : Bool → EventLoop F → EventLoop F
  quit in_loop l = record l {
    running = false;
    to_wake = if in_loop then l.to_wake else suc l.to_wake;
  }

  unfoldable pub wake : EventLoop F → ℕ → EventLoop F
  wake l zero = l
  wake l (suc n) = record l { to_wake = n; wakeups = wakeup l.wakeups }

  unfoldable pub enter_loop : EventLoop F → Phase → EventLoop F
  enter_loop l idle = record l { running = true; phase = polling }
  enter_loop l _ = l

  unfoldable pub poll_return : EventLoop F → Phase → EventLoop F
  poll_return l polling = record l { phase = handling; polled = true }
  poll_return l _ = l

  unfoldable pub handle_read : EventLoop F → Phase → EventLoop F
  handle_read l handling = record l { wakeups = 0 }
  handle_read l _ = l

  unfoldable pub swap_functors : EventLoop F → Phase → EventLoop F
  swap_functors l handling = record l {
    phase = calling;
    functors = l.pending_functors;
    pending_functors = [];
  }
  swap_functors l _ = l

  unfoldable pub call_functor : EventLoop F → Phase → List F → EventLoop F
  call_functor l calling (f ∷ fs) = record l { functors = fs; called = l.called ++ f ∷ [] }
  call_functor l _ _ = l

  unfoldable pub turn : EventLoop F → Phase → List F → EventLoop F
  turn l calling [] = record l { phase = if l.running then polling else done }
  turn l _ _ = l

  unfoldable pub step : EventLoop F → Event F → EventLoop F
  step l (queues true cb) = if is_busy l.phase then queue_in_loop true l cb else l
  step l (queues false cb) = queue_in_loop false l cb
  step l (runs true cb) = if is_busy l.phase then run_in_loop true l cb else l
  step l (runs false cb) = run_in_loop false l cb
  step l (quits true) = if is_busy l.phase then quit true l else l
  step l (quits false) = quit false l
  step l loops = enter_loop l l.phase
  step l wakes = wake l l.to_wake
  step l poll_returns = poll_return l l.phase
  step l reads_wakeups = handle_read l l.phase
  step l swaps_functors = swap_functors l l.phase
  step l calls_functor = call_functor l l.phase l.functors
  step l turns = turn l l.phase l.functors

  unfoldable pub run : EventLoop F → List (Event F) → EventLoop F
  run l [] = l
  run l (e ∷ es) = run (step l e) es
