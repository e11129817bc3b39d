-- ===== src/TcpServer.antt =====
-- suduo/net/TcpServer.h and TcpServer.cpp: the map of connections by name, and the functors that go
-- between the server's loop and the loops of the connections. A pointer to a connection is the number
-- in its name. `none` is a failed assertion.
pub mod Names
pub mod Functors
pub mod Invariant
mod Examples
use suduo.Prelude.{
  ℕ, zero, suc, ◌-◌, Bool, true, false, ◌&&◌, ◌||◌, not, Option, none, some, List, [], ◌∷◌, ◌++◌,
  if◌then◌else◌, ◌==◌, length, take, equal, ◌>>=◌, ◌>>◌, require,
}
use suduo.EventLoopThreadPool.{EventLoopThreadPool, get_next_loop}

-- What the loops still have to call: `Acceptor::listen` and `remove_connection_in_loop` in the
-- server's loop, the other two in the loop of the connection.
pub data Functor : Type 0 where
  listen : Functor
  connect_established : ℕ → Functor
  remove_connection_in_loop : ℕ → Functor
  connect_destroyed : ℕ → Functor

pub record TcpServer : Type 0 where
  pub thread_pool : EventLoopThreadPool ℕ
  pub listening : Bool
  pub started : Bool
  pub next_conn_id : ℕ
  -- the keys of `_connections`, each with its pointer
  pub connections : List (List ℕ × ℕ)
  pub functors : List Functor
  -- the connections that are established, and those that were destroyed
  pub established : List ℕ
  pub destroyed : List ℕ

-- `_connections[name] = conn`, and the number of entries that `erase(name)` erases.
abbrev pub put : List ℕ → ℕ → List (List ℕ × ℕ) → List (List ℕ × ℕ)
put name id [] = (name, id) ∷ []
put name id ((name', id') ∷ rest) =
    if equal name name' then (name, id) ∷ rest else (name', id') ∷ put name id rest

abbrev pub erase : List ℕ → List (List ℕ × ℕ) → List (List ℕ × ℕ)
erase name [] = []
erase name ((name', id') ∷ rest) = if equal name name' then rest else (name', id') ∷ erase name rest

abbrev pub elem : ℕ → List ℕ → Bool
elem id [] = false
elem id (i ∷ is) = i == id || elem id is

abbrev pub remove : ℕ → List ℕ → List ℕ
remove id [] = []
remove id (i ∷ is) = if i == id then is else i ∷ remove id is

unfoldable pub new : EventLoopThreadPool ℕ → TcpServer
new pool = record {
  thread_pool = pool;
  listening = false;
  started = false;
  next_conn_id = 1;
  connections = [];
  functors = [];
  established = [];
  destroyed = [];
}

-- The threads of the pool, once they are started, run `loops`.
unfoldable pub start : TcpServer → List ℕ → Option TcpServer
start s loops = if s.started then some s else (do
  require (not s.thread_pool.started)
  require (not s.listening)
  some (record s {
    started = true;
    thread_pool = record s.thread_pool { started = true; loops = loops };
    functors = s.functors ++ listen ∷ [];
  }))

unfoldable pub remove_connection : TcpServer → ℕ → TcpServer
remove_connection s conn = record s { functors = s.functors ++ remove_connection_in_loop conn ∷ [] }

-- The server has a name and the address it listens on; `print` is what `%d` writes.
module _ (name ip_port : List ℕ) (print : ℕ → List ℕ) where
  -- `snprintf` into 64 characters, of which the last is 0: "-%s#%d".
  unfoldable pub conn_name : ℕ → List ℕ
  conn_name id = name ++ take 63 (45 ∷ (ip_port ++ 35 ∷ print id))

  unfoldable pub new_connection : TcpServer → Option TcpServer
  new_connection s = do
    (io_loop, pool) ← get_next_loop s.thread_pool
    some (record s {
      thread_pool = pool;
      next_conn_id = suc s.next_conn_id;
      connections = put (conn_name s.next_conn_id) s.next_conn_id s.connections;
      functors = s.functors ++ connect_established s.next_conn_id ∷ [];
    })

  unfoldable pub remove_in_loop : TcpServer → ℕ → Option TcpServer
  remove_in_loop s conn =
      let rest = erase (conn_name conn) s.connections in
      do
        require ((length s.connections - length rest) == 1)
        some (record s { connections = rest; functors = s.functors ++ connect_destroyed conn ∷ [] })

  -- A loop calls a functor.
  unfoldable pub call : TcpServer → Functor → Option TcpServer
  call s listen = some (record s { listening = true })
  call s (connect_established id) = some (record s { established = id ∷ s.established })
  call s (remove_connection_in_loop id) = remove_in_loop s id
  call s (connect_destroyed id) = some (record s { destroyed = id ∷ s.destroyed })

-- What may happen next: a start, a new connection of a listening acceptor, the first functor of some
-- loop or another one, the end of an established connection. What cannot happen changes nothing.
pub data Event : Type 0 where
  starts : List ℕ → Event
  accepts : Event
  calls : ℕ → Event
  closes : ℕ → Event

-- The `k`-th functor, and the others.
abbrev pub pick : ℕ → List Functor → Option (Functor × List Functor)
pick k [] = none
pick zero (f ∷ fs) = some (f, fs)
pick (suc k) (f ∷ fs) = pick k fs >>= λ r. some (r.0, f ∷ r.1)

module _ (name ip_port : List ℕ) (print : ℕ → List ℕ) where
  abbrev pub call_picked : TcpServer → Option (Functor × List Functor) → Option TcpServer
  call_picked s none = some s
  call_picked s (some (f, fs)) = call name ip_port print (record s { functors = fs }) f

  unfoldable pub step : TcpServer → Event → Option TcpServer
  step s (starts loops) = start s loops
  step s accepts = if s.listening then new_connection name ip_port print s else some s
  step s (calls k) = call_picked s (pick k s.functors)
  step s (closes id) =
      if elem id s.established
      then some (remove_connection (record s { established = remove id s.established }) id)
      else some s

  unfoldable pub run : TcpServer → List Event → Option TcpServer
  run s [] = some s
  run s (e ∷ es) = step s e >>= λ s'. run s' es
