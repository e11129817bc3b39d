-- ===== src/TcpConnection/Race.antt =====
-- Another thread that has read `_state` before the connection is closed, and sets it afterwards.
use suduo.Prelude.{◌≡◌, refl, some, false, List, [], ◌∷◌, ◌++◌, append_assoc}
use suduo.Channel.{none_event}
use suduo.TcpConnection.{
  disconnected, connected, disconnecting, Write, Call, connection_callback, close_callback,
  Connection, shutdown, force_close, carry_out, handle_close, force_close_in_loop,
}
use suduo.TcpConnection.Inputs.{
  shuts_down, closes, carries_on, performs, hangs_up, run_task, perform, step, run,
}
use suduo.TcpConnection.Stream.{held}

-- What a close tells the user and the owner.
abbrev pub told_down : List Call
told_down = connection_callback disconnected ∷ close_callback ∷ []

abbrev pub told_twice : List Call → List Call
told_twice calls =
    (((calls ++ connection_callback disconnected ∷ []) ++ close_callback ∷ [])
      ++ connection_callback disconnected ∷ [])
    ++ close_callback ∷ []

told_twice-eq : (calls : List Call) → told_twice calls ≡ calls ++ (told_down ++ told_down)
told_twice-eq calls = simp append_assoc

-- On a connection in the state connected, with no functors, of which nobody else has read the state: when a hang-up comes after
-- another thread's `shutdown` has read `_state` and before it sets it, the connection is
-- disconnecting although the user was told of its end, it waits for no event, and the bytes that it
-- holds stay unwritten; when it comes so between the two steps of `force_close`, the functor closes
-- the connection again, and the user is told of its end twice.
pub closes-race :
    (c : Connection) (result : Write)
    → c.state ≡ connected
    → c.pending ≡ []
    → c.decided ≡ []
    → (c' c'' : Connection) × (run c (shuts_down false ∷ hangs_up ∷ carries_on 0 ∷ []) ≡ some c')
      × (c'.state ≡ disconnecting)
      × (c'.events ≡ none_event)
      × (c'.calls ≡ c.calls ++ told_down)
      × (held c' ≡ held c)
      × (c'.sent ≡ c.sent)
      × (run c (closes false ∷ hangs_up ∷ carries_on 0 ∷ performs result ∷ []) ≡ some c'')
      × (c''.state ≡ disconnected)
      × (c''.calls ≡ c.calls ++ (told_down ++ told_down))
unfolding run step shutdown force_close carry_out handle_close perform run_task force_close_in_loop
closes-race c result up idle quiet =
    rw (up, idle, quiet)
      (
        _,
        _,
        refl,
        refl,
        refl,
        append_assoc c.calls (connection_callback disconnected ∷ []) (close_callback ∷ []),
        refl,
        refl,
        refl,
        refl,
        told_twice-eq c.calls,
      )
