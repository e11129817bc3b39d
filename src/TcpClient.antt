-- ===== src/TcpClient.antt =====
-- suduo/net/TcpClient.h and TcpClient.cpp, in the loop's thread: a connector and at most one connection,
-- which is the number in its name. `none` is a failed assertion or a null pointer.
mod Ends
mod Examples
use suduo.Prelude.{
  ℕ, zero, suc, Bool, true, false, ◌&&◌, Option, none, some, List, [], ◌∷◌, ◌++◌, if◌then◌else◌,
  ◌==◌, length, drop, ◌>>=◌, ◌>>◌, require,
}
use suduo.Connector.{
  Connector, Call, closes, new_connection, new as new_connector, start as start_connector,
  stop as stop_connector, restart as restart_connector, handle_write as write_connector,
}

pub record TcpClient : Type 0 where
  pub connector : Connector
  pub retry : Bool
  -- `_connect`: whether the user wants a connection
  pub wanted : Bool
  pub next_conn_id : ℕ
  pub connection : Option ℕ
  -- the connections that were established with their sockets, and those that were shut down
  pub established : List (ℕ × ℕ)
  pub shut_down : List ℕ
  -- the functors `connect_destroyed` in the loop
  pub functors : List ℕ

unfoldable pub new : TcpClient
new = record {
  connector = new_connector;
  retry = false;
  wanted = true;
  next_conn_id = 1;
  connection = none;
  established = [];
  shut_down = [];
  functors = [];
}

-- With the socket that the connector makes, and the error of `::connect`.
unfoldable pub connect : TcpClient → ℕ → ℕ → Option TcpClient
connect c sock_fd errno = do
  k ← start_connector true c.connector sock_fd errno
  some (record c { wanted = true; connector = k })

abbrev pub shut : TcpClient → Option ℕ → TcpClient
shut c none = c
shut c (some conn) = record c { shut_down = c.shut_down ++ conn ∷ [] }

unfoldable pub disconnect : TcpClient → TcpClient
disconnect c = shut (record c { wanted = false }) c.connection

unfoldable pub stop : TcpClient → TcpClient
stop c = record c { wanted = false; connector = stop_connector c.connector }

unfoldable pub establish : TcpClient → ℕ → TcpClient
establish c sock_fd = record c {
  next_conn_id = suc c.next_conn_id;
  connection = some c.next_conn_id;
  established = c.established ++ (c.next_conn_id, sock_fd) ∷ [];
}

-- The connector calls `new_connection` for each socket that it hands out.
abbrev pub take_sockets : TcpClient → List Call → TcpClient
take_sockets c [] = c
take_sockets c (new_connection sock_fd ∷ calls) = take_sockets (establish c sock_fd) calls
take_sockets c (closes sock_fd ∷ calls) = take_sockets c calls

-- The connector's channel is writable.
unfoldable pub handle_write : TcpClient → ℕ → Bool → Option TcpClient
handle_write c err self_connect = do
  k ← write_connector c.connector err self_connect
  some (take_sockets (record c { connector = k }) (drop (length c.connector.calls) k.calls))

abbrev pub is_connection : Option ℕ → ℕ → Bool
is_connection none conn = false
is_connection (some id) conn = id == conn

unfoldable pub remove_connection : TcpClient → ℕ → ℕ → ℕ → Option TcpClient
remove_connection c conn sock_fd errno =
    let c' = record c { connection = none; functors = c.functors ++ conn ∷ [] } in
    do
      require (is_connection c.connection conn)
      if c.retry && c.wanted
          then (restart_connector c.connector sock_fd errno >>= λ k.
              some (record c' { connector = k }))
          else some c'
