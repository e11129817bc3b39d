-- ===== src/TcpClient/Examples.antt =====
-- The theorem on the end of a connection at a concrete client.
use suduo.Prelude.{◌≡◌, refl, ◌⊎◌, true, false, none, some, [], ◌∷◌}
use suduo.Connector.{Connector, connected}
use suduo.TcpClient.{TcpClient, connect, handle_write, remove_connection}
use suduo.TcpClient.Ends.{linked, remove_connection-cases}

abbrev idle : Connector
idle = record {
  wanted = true;
  state = connected;
  channel = none;
  waits_to_write = false;
  retry_delay_ms = 1000;
  pending = [];
  timers = [];
  calls = [];
  opened = 7 ∷ [];
}

abbrev client : TcpClient
client = record {
  connector = idle;
  retry = true;
  wanted = true;
  next_conn_id = 2;
  connection = some 1;
  established = (1, 7) ∷ [];
  shut_down = [];
  functors = [];
}

remove_connection-cases_example :
    ((true ≡ true)
      × (c' c'' : TcpClient) × (remove_connection (linked client idle 1) 1 8 115 ≡ some c')
      × (handle_write c' 0 false ≡ some c'')
      × (c''.connection ≡ some 2)
      × (c''.next_conn_id ≡ 3)
      × (c''.established ≡ (1, 7) ∷ (2, 8) ∷ [])
      × (c''.functors ≡ 1 ∷ []))
    ⊎ ((true ≡ false)
        × (c' : TcpClient) × (remove_connection (linked client idle 1) 1 8 115 ≡ some c')
        × (c'.connection ≡ none)
        × (c'.functors ≡ 1 ∷ [])
        × (connect c' 8 115 ≡ none))
remove_connection-cases_example = remove_connection-cases client idle 1 8 115 refl
