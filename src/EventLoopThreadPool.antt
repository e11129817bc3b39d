-- ===== src/EventLoopThreadPool.antt =====
-- suduo/net/EventLoopThreadPool.h and EventLoopThreadPool.cpp: the loop that is to take the next
-- connection. Starting the threads gives the list of their loops. `none` is a failed assertion or an
-- access outside the vector.
mod Rounds
mod Examples
use suduo.Prelude.{
  ℕ, zero, suc, Bool, true, false, not, Option, some, List, [], ◌∷◌, if◌then◌else◌, leb, ◌==◌,
  length, get_elem?, ◌>>=◌, ◌>>◌, require,
}

pub record EventLoopThreadPool {ℓ} (Loop : Type ℓ) : Type ℓ where
  pub base_loop : Loop
  pub started : Bool
  pub next : ℕ
  pub loops : List Loop

module _ {ℓ} {Loop : Type ℓ} where
  unfoldable pub new : Loop → EventLoopThreadPool Loop
  new base_loop = record { base_loop = base_loop; started = false; next = 0; loops = [] }

  unfoldable pub start : EventLoopThreadPool Loop → List Loop → Option (EventLoopThreadPool Loop)
  start p loops = do require (not p.started); some (record p { started = true; loops = loops })

  unfoldable pub get_next_loop : EventLoopThreadPool Loop → Option (Loop × EventLoopThreadPool Loop)
  get_next_loop p = do
    require p.started
    if length p.loops == 0 then some (p.base_loop, p) else (do
      loop ← get_elem? p.loops p.next
      some (loop, record p { next = if leb (length p.loops) (suc p.next) then 0 else suc p.next }))

  unfoldable pub get_all_loops : EventLoopThreadPool Loop → Option (List Loop)
  get_all_loops p = do
    require p.started
    some (if length p.loops == 0 then p.base_loop ∷ [] else p.loops)

  -- The loops that a number of calls give.
  unfoldable pub get_loops :
      ℕ → EventLoopThreadPool Loop → Option (List Loop × EventLoopThreadPool Loop)
  get_loops zero p = some ([], p)
  get_loops (suc n) p = do
    (loop, p') ← get_next_loop p
    (loops, p'') ← get_loops n p'
    some (loop ∷ loops, p'')
