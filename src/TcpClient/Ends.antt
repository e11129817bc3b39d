-- ===== src/TcpClient/Ends.antt =====
-- What comes after the end of a connection.
use suduo.Prelude.{
  ℕ, suc, ◌≡◌, refl, ap, ◌⊎◌, inl, inr, true, false, ◌&&◌, none, some, List, [], ◌∷◌, ◌++◌, ◌==◌,
  length, drop, arith, Bool-cases,
}
use suduo.Connector.{
  Connector, connected, connecting, init_retry_delay_ms, reset_task, Call, new_connection, goes_on,
  connect as connect_connector, connect_channel, start_in_loop, start, restart,
  remove_and_reset_channel, handle_write as write_connector,
}
use suduo.TcpClient.{TcpClient, connect, establish, take_sockets, handle_write, remove_connection}

-- A client with a connection: its connector has handed the socket out and let its channel go.
abbrev pub linked : TcpClient → Connector → ℕ → TcpClient
linked c k id = record c {
  connector = record k { state = connected; channel = none };
  connection = some id;
}

drop-last : (calls : List Call) (x : Call) → drop (length calls) (calls ++ x ∷ []) ≡ x ∷ []
drop-last [] x = refl
drop-last (y ∷ calls) x = drop-last calls x

stays :
    (c : TcpClient) (k : Connector) (id sock_fd errno : ℕ)
    → (c.retry && c.wanted) ≡ false
    → (c' : TcpClient) × (remove_connection (linked c k id) id sock_fd errno ≡ some c')
      × (c'.connection ≡ none)
      × (c'.functors ≡ c.functors ++ id ∷ [])
      × (connect c' sock_fd errno ≡ none)
unfolding remove_connection connect start start_in_loop
stays c k id sock_fd errno ends =
    let same : (id == id) ≡ true = ground arith in rw (same, ends) (_, refl, refl, refl, refl)

-- A connector that connects, and what it is once its socket was handed out.
abbrev linking : TcpClient → Connector → ℕ → TcpClient
linking c k sock_fd = record c {
  connector = record k {
    wanted = true;
    state = connecting;
    channel = some sock_fd;
    waits_to_write = true;
  };
}

abbrev handed_out : TcpClient → Connector → ℕ → TcpClient
handed_out c k sock_fd = record c {
  connector = record k {
    wanted = true;
    state = connected;
    channel = some sock_fd;
    waits_to_write = false;
    pending = k.pending ++ reset_task ∷ [];
    calls = k.calls ++ new_connection sock_fd ∷ [];
  };
}

writes :
    (c : TcpClient) (k : Connector) (sock_fd : ℕ)
    → handle_write (linking c k sock_fd) 0 false ≡ some (establish (handed_out c k sock_fd) sock_fd)
unfolding handle_write write_connector remove_and_reset_channel
writes c k sock_fd =
    ap (λ calls. some (take_sockets (handed_out c k sock_fd) calls))
      (drop-last k.calls (new_connection sock_fd))

reconnects :
    (c : TcpClient) (k : Connector) (id sock_fd errno : ℕ)
    → (c.retry && c.wanted) ≡ true
    → goes_on errno ≡ true
    → (c' : TcpClient) × (remove_connection (linked c k id) id sock_fd errno ≡ some c')
      × (c'' : TcpClient) × (handle_write c' 0 false ≡ some c'')
      × (c''.connection ≡ some c.next_conn_id)
      × (c''.next_conn_id ≡ suc c.next_conn_id)
      × (c''.established ≡ c.established ++ (c.next_conn_id, sock_fd) ∷ [])
      × (c''.functors ≡ c.functors ++ id ∷ [])
unfolding remove_connection restart start_in_loop connect_connector connect_channel establish
reconnects c k id sock_fd errno again ok =
    let same : (id == id) ≡ true = ground arith in
    rw (same, again, ok)
      (
        _,
        refl,
        _,
        writes (record c { connection = none; functors = c.functors ++ id ∷ [] })
            (record k { retry_delay_ms = init_retry_delay_ms; opened = k.opened ++ sock_fd ∷ [] })
            sock_fd,
        refl,
        refl,
        refl,
        refl,
      )

-- When the connection of a client ends: a client that is to retry and wants a connection connects anew, and once
-- the new socket is writable without an error it has one connection again, with the next
-- number; any other client has none, and the next `connect` fails the assertion of its
-- connector, which was never told. The old connection is to be destroyed in both cases. The new
-- `::connect` succeeds at once or gives EINPROGRESS, EINTR or EISCONN, and the socket is not
-- connected to itself.
pub remove_connection-cases :
    (c : TcpClient) (k : Connector) (id sock_fd errno : ℕ)
    → goes_on errno ≡ true
    → (((c.retry && c.wanted) ≡ true)
        × (c' c'' : TcpClient) × (remove_connection (linked c k id) id sock_fd errno ≡ some c')
        × (handle_write c' 0 false ≡ some c'')
        × (c''.connection ≡ some c.next_conn_id)
        × (c''.next_conn_id ≡ suc c.next_conn_id)
        × (c''.established ≡ c.established ++ (c.next_conn_id, sock_fd) ∷ [])
        × (c''.functors ≡ c.functors ++ id ∷ []))
      ⊎ (((c.retry && c.wanted) ≡ false)
          × (c' : TcpClient) × (remove_connection (linked c k id) id sock_fd errno ≡ some c')
          × (c'.connection ≡ none)
          × (c'.functors ≡ c.functors ++ id ∷ [])
          × (connect c' sock_fd errno ≡ none))
remove_connection-cases c k id sock_fd errno ok = elim (Bool-cases (c.retry && c.wanted)) [
  | inr ends ↦
      let (c', done, gone, queued, fails) = stays c k id sock_fd errno ends in
      inr (ends, c', done, gone, queued, fails)
  | inl again ↦
      let (c', done, c'', done', one, next, all, queued) =
        reconnects c k id sock_fd errno again ok in
      inl (again, c', c'', done, done', one, next, all, queued)
]
