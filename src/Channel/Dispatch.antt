-- ===== src/Channel/Dispatch.antt =====
-- `Channel::handle_event`: which callbacks run, and in which order.
use suduo.Prelude.{Bool, ◌&&◌, ◌||◌, not, List, [], ◌∷◌, ◌++◌, if◌then◌else◌}

-- The bits of `_revents`.
pub record Revents : Type 0 where
  pub pollin : Bool
  pub pollpri : Bool
  pub pollout : Bool
  pub pollhup : Bool
  pub pollrdhup : Bool
  pub pollerr : Bool
  pub pollnval : Bool

pub data Callback : Type 0 where
  close_callback error_callback read_callback write_callback : Callback

-- Which of the four callbacks are set.
pub record Callbacks : Type 0 where
  pub close : Bool
  pub error : Bool
  pub read : Bool
  pub write : Bool

abbrev call : Bool → Bool → Callback → List Callback
call test is_set c = if test && is_set then c ∷ [] else []

-- The callbacks that run, in order.
unfoldable pub handle_event_with_guard : Callbacks → Revents → List Callback
handle_event_with_guard c r =
    call (r.pollhup && not r.pollin) c.close close_callback
    ++ (call (r.pollerr || r.pollnval) c.error error_callback
        ++ (call (r.pollin || r.pollpri || r.pollrdhup) c.read read_callback
            ++ call r.pollout c.write write_callback))

-- `guard` says whether the tied object is still alive.
unfoldable pub handle_event : Bool → Bool → Callbacks → Revents → List Callback
unfolding handle_event_with_guard
handle_event tied guard c r =
    if tied
    then (if guard then handle_event_with_guard c r else [])
    else handle_event_with_guard c r
