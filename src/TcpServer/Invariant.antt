-- ===== src/TcpServer/Invariant.antt =====
-- The invariant of a server: its map of connections against the functors of the loops.
use suduo.Prelude.{
  ℕ, suc, ◌+◌, ◌-◌, ◌≤◌, ◌<◌, ◌≡◌, refl, sym, ap, ◌∙◌, inl, inr, true, false, ◌&&◌, some, List, [],
  ◌∷◌, ◌++◌, if◌then◌else◌, ltb, leb, ◌==◌, length, arith, Bool-cases, ◌>>=◌,
}
use suduo.EventLoopThreadPool.{new as new_pool}
use suduo.TcpServer.{
  Functor, listen, connect_established, remove_connection_in_loop, connect_destroyed, TcpServer,
  erase, elem, remove, new, start, remove_connection, conn_name, new_connection, remove_in_loop,
  call, Event, starts, accepts, calls, closes, call_picked, step, run,
}
use suduo.TcpServer.Names.{count_conn, Named, put_new, Named-end, erase_lem, count_conn-end}
use suduo.TcpServer.Functors.{
  count, is_live, is_dead, is_listen, total, total-end, pick-cases, count-remove, InTurn,
  next-InTurn,
}

-- Whether an event may be a call of `new_connection`, and how many of a schedule may be.
abbrev pub is_accept : Event → ℕ
is_accept accepts = 1
is_accept _ = 0

abbrev pub connections_in : List Event → ℕ
connections_in [] = 0
connections_in (e ∷ es) = is_accept e + connections_in es

module _ (name ip_port : List ℕ) (print : ℕ → List ℕ) (limit : ℕ)
    (differ : (i j : ℕ) → i < limit → j < limit → print i ≡ print j → i ≡ j)
    (short : (i : ℕ) → i < limit → length ip_port + length (print i) ≤ 61) where
  pub record Served (s : TcpServer) : Type 0 where
    pub in_map :
        (i : ℕ) → count_conn i s.connections ≡ total (is_live i) s.functors + count i s.established
    pub once :
        (i : ℕ)
        → count_conn i s.connections + (total (is_dead i) s.functors + count i s.destroyed)
          ≡ (if leb 1 i && ltb i s.next_conn_id then 1 else 0)
    pub named : Named name ip_port print limit differ short s.connections
    pub pool : s.thread_pool.started ≡ s.started
    pub in_turn : InTurn s.thread_pool
    pub unstarted :
        s.started ≡ false
        → (s.thread_pool.next ≡ 0) × (s.listening ≡ false) × (total is_listen s.functors ≡ 0)

  new-Served : (base_loop : ℕ) → Served (new (new_pool base_loop))
  unfolding new new_pool
  new-Served base_loop = record {
    in_map = λ i. refl;
    once = λ i. ground arith;
    named = tt;
    pool = refl;
    in_turn = inl refl;
    unstarted = λ h. (refl, refl, refl);
  }

  start-Served :
      {s : TcpServer} (loops : List ℕ)
      → Served s
      → (s' : TcpServer) × (start s loops ≡ some s')
        × Served s'
        × (s'.next_conn_id ≡ s.next_conn_id)
  unfolding start
  start-Served {s} loops inv = elim (Bool-cases s.started) [
    | inl again ↦ (s, simp again, inv, refl)
    | inr first ↦
        let (turn, deaf, _) = inv.unstarted first in
        rw (first, inv.pool ∙ first, deaf)
          (
            _,
            refl,
            record {
              in_map = λ i. omega (arith, inv.in_map i, total-end (is_live i) s.functors listen);
              once = λ i. omega (arith, inv.once i, total-end (is_dead i) s.functors listen);
              named = inv.named;
              pool = refl;
              in_turn = inl turn;
              unstarted = λ h. absurd cc;
            },
            refl,
          )
  ]

  new_connection-Served :
      {s : TcpServer}
      → Served s
      → s.started ≡ true
      → s.next_conn_id < limit
      → 0 < s.next_conn_id
      → (s' : TcpServer) × (new_connection name ip_port print s ≡ some s')
        × Served s'
        × (s'.next_conn_id ≡ suc s.next_conn_id)
  unfolding new_connection
  new_connection-Served {s} inv started small positive =
      let id = s.next_conn_id in
      let (loop, pool, taken, ready, turn) =
        next-InTurn s.thread_pool (inv.pool ∙ started) inv.in_turn in
      let absent : count_conn id s.connections ≡ 0 = ground (arith, inv.once id) in
      let added =
        put_new name ip_port print limit differ short id s.connections small inv.named absent in
      rw (taken, added)
        (
          _,
          refl,
          record {
            in_map = λ i. omega (
              arith,
              inv.in_map i,
              total-end (is_live i) s.functors (connect_established id),
              count_conn-end i id (conn_name name ip_port print id) s.connections,
            );
            once = λ i. ground (
              arith,
              inv.once i,
              positive,
              total-end (is_dead i) s.functors (connect_established id),
              count_conn-end i id (conn_name name ip_port print id) s.connections,
            );
            named =
                Named-end name ip_port print limit differ short id s.connections small inv.named;
            pool = ready ∙ sym started;
            in_turn = turn;
            unstarted = λ h. absurd (ground (arith, h, started));
          },
          refl,
        )

  remove_in_loop-Served :
      (s : TcpServer) (id : ℕ)
      → Named name ip_port print limit differ short s.connections
      → id < limit
      → 0 < count_conn id s.connections
      → (s' : TcpServer) × (remove_in_loop name ip_port print s id ≡ some s')
        × (s' ≡ record s {
          connections = erase (conn_name name ip_port print id) s.connections;
          functors = s.functors ++ connect_destroyed id ∷ [];
        })
  unfolding remove_in_loop
  remove_in_loop-Served s id named small there =
      let (long, left, counts) =
        erase_lem name ip_port print limit differ short id s.connections small named there in
      let one : (length s.connections
              - length (erase (conn_name name ip_port print id) s.connections)
            == 1)
          ≡ true =
        ground (arith, long) in
      rw one (_, refl, refl)

  call-Served :
      {s : TcpServer} (f : Functor) (rest : List Functor)
      → Served s
      → s.next_conn_id ≤ limit
      → ((w : Functor → ℕ) → total w s.functors ≡ w f + total w rest)
      → (s' : TcpServer) × (call name ip_port print (record s { functors = rest }) f ≡ some s')
        × Served s'
        × (s'.next_conn_id ≡ s.next_conn_id)
  unfolding call
  call-Served {s} listen rest inv small weighs =
      let started : s.started ≡ true = elim (Bool-cases s.started) [
        | inl up ↦ up
        | inr down ↦ absurd (omega (arith, weighs is_listen, (inv.unstarted down).2))
      ] in
      (
        _,
        refl,
        record {
          in_map = λ i. omega (arith, inv.in_map i, weighs (is_live i));
          once = λ i. omega (arith, inv.once i, weighs (is_dead i));
          named = inv.named;
          pool = inv.pool;
          in_turn = inv.in_turn;
          unstarted = λ h. absurd (ground (arith, h, started));
        },
        refl,
      )
  call-Served {s} (connect_established id) rest inv small weighs = (
    _,
    refl,
    record {
      in_map = λ i. omega (arith, inv.in_map i, weighs (is_live i));
      once = λ i. omega (arith, inv.once i, weighs (is_dead i));
      named = inv.named;
      pool = inv.pool;
      in_turn = inv.in_turn;
      unstarted = λ h. (
        (inv.unstarted h).0,
        (inv.unstarted h).1,
        omega (arith, (inv.unstarted h).2, weighs is_listen),
      );
    },
    refl,
  )
  call-Served {s} (connect_destroyed id) rest inv small weighs = (
    _,
    refl,
    record {
      in_map = λ i. omega (arith, inv.in_map i, weighs (is_live i));
      once = λ i. omega (arith, inv.once i, weighs (is_dead i));
      named = inv.named;
      pool = inv.pool;
      in_turn = inv.in_turn;
      unstarted = λ h. (
        (inv.unstarted h).0,
        (inv.unstarted h).1,
        omega (arith, (inv.unstarted h).2, weighs is_listen),
      );
    },
    refl,
  )
  call-Served {s} (remove_connection_in_loop id) rest inv small weighs =
      let there : 0 < count_conn id s.connections =
        ground (arith, inv.in_map id, weighs (is_live id)) in
      let made : id < s.next_conn_id = ground (arith, inv.once id, there) in
      let below : id < limit = omega (arith, made, small) in
      let (s', done, same) =
        remove_in_loop-Served (record s { functors = rest }) id inv.named below there in
      let (long, left, counts) =
        erase_lem name ip_port print limit differ short id s.connections below inv.named there in
      (
        _,
        done ∙ ap some same,
        record {
          in_map = λ i. omega (
            arith,
            inv.in_map i,
            weighs (is_live i),
            counts i,
            total-end (is_live i) rest (connect_destroyed id),
          );
          once = λ i. omega (
            arith,
            inv.once i,
            weighs (is_dead i),
            counts i,
            total-end (is_dead i) rest (connect_destroyed id),
          );
          named = left;
          pool = inv.pool;
          in_turn = inv.in_turn;
          unstarted = λ h. (
            (inv.unstarted h).0,
            (inv.unstarted h).1,
            omega (
              arith,
              (inv.unstarted h).2,
              weighs is_listen,
              total-end is_listen rest (connect_destroyed id),
            ),
          );
        },
        refl,
      )

  step-Served :
      {s : TcpServer} (e : Event)
      → Served s
      → 0 < s.next_conn_id
      → s.next_conn_id + is_accept e ≤ limit
      → (s' : TcpServer) × (step name ip_port print s e ≡ some s')
        × Served s'
        × (s.next_conn_id ≤ s'.next_conn_id)
        × (s'.next_conn_id ≤ s.next_conn_id + is_accept e)
  unfolding step remove_connection
  step-Served {s} (starts loops) inv positive small =
      let (s', done, inv', same) = start-Served loops inv in
      (s', done, inv', omega (arith, same), omega (arith, same))
  step-Served {s} accepts inv positive small = elim (Bool-cases s.listening) [
    | inr deaf ↦ (s, simp deaf, inv, omega arith, omega arith)
    | inl hears ↦
        let started : s.started ≡ true = elim (Bool-cases s.started) [
          | inl up ↦ up
          | inr down ↦ absurd (ground (arith, (inv.unstarted down).1, hears))
        ] in
        let (s', done, inv', same) =
          new_connection-Served inv started (omega (arith, small)) positive in
        (s', (simp hears) ∙ done, inv', omega (arith, same), omega (arith, same))
  ]
  step-Served {s} (calls k) inv positive small = elim (pick-cases k s.functors) [
    | inl gone ↦ (s, ap (call_picked name ip_port print s) gone, inv, omega arith, omega arith)
    | inr (f, rest, there, weighs) ↦
        let (s', done, inv', same) = call-Served f rest inv (omega (arith, small)) weighs in
        (
          s',
          ap (call_picked name ip_port print s) there ∙ done,
          inv',
          omega (arith, same),
          omega (arith, same),
        )
  ]
  step-Served {s} (closes id) inv positive small = elim (Bool-cases (elem id s.established)) [
    | inr absent ↦ (s, simp absent, inv, omega arith, omega arith)
    | inl there ↦ (
      remove_connection (record s { established = remove id s.established }) id,
      simp there,
      record {
        in_map = λ i. omega (
          arith,
          inv.in_map i,
          count-remove i id s.established there,
          total-end (is_live i) s.functors (remove_connection_in_loop id),
        );
        once = λ i.
            omega
              (arith, inv.once i, total-end (is_dead i) s.functors (remove_connection_in_loop id));
        named = inv.named;
        pool = inv.pool;
        in_turn = inv.in_turn;
        unstarted = λ h. (
          (inv.unstarted h).0,
          (inv.unstarted h).1,
          omega (
            arith,
            (inv.unstarted h).2,
            total-end is_listen s.functors (remove_connection_in_loop id),
          ),
        );
      },
      omega arith,
      omega arith,
    )
  ]

  run-keeps :
      (es : List Event) {s : TcpServer}
      → Served s
      → 0 < s.next_conn_id
      → s.next_conn_id + connections_in es ≤ limit
      → (s' : TcpServer) × (run name ip_port print s es ≡ some s') × Served s'
  unfolding run
  run-keeps [] {s} inv positive few = (s, refl, inv)
  run-keeps (e ∷ es) {s} inv positive few =
      let (s', done, inv', more, at_most) = step-Served e inv positive (omega (arith, few)) in
      let (s'', done', inv'') =
        run-keeps es inv' (omega (arith, positive, more)) (omega (arith, few, at_most)) in
      (s'', ap (λ m. m >>= λ s. run name ip_port print s es) done ∙ done', inv'')

  -- From a new server no schedule of starts, new connections, functors that the loops call in any order,
  -- and ends of established connections fails an assertion, if `%d` prints numbers below a limit
  -- differently, the name fits its buffer, and the calls of
  -- `new_connection` are fewer than the limit; in the state
  -- that it reaches, each connection made stands once in the map, or is to be destroyed, or was
  -- destroyed, and those in the map, each under its own name, are to be established, are
  -- established or are to be removed.
  pub run-Served :
      (base_loop : ℕ) (es : List Event)
      → connections_in es < limit
      → (s : TcpServer) × (run name ip_port print (new (new_pool base_loop)) es ≡ some s) × Served s
  unfolding new
  run-Served base_loop es few =
      run-keeps es (new-Served base_loop) (omega arith) (omega (arith, few))
