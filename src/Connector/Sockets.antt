-- ===== src/Connector/Sockets.antt =====
-- What becomes of the sockets of a connector: each is closed or handed over once, or in its channel.
use suduo.Prelude.{
  ℕ, ◌≤◌, ◌≡◌, refl, sym, ap, ◌∙◌, ◌⊎◌, inl, inr, Bool, true, false, ◌||◌, not, Option, none, some,
  List, [], ◌∷◌, ◌++◌, append-nil, arith, if◌then◌else◌, ◌==◌, ◌>>◌, require, Bool-cases,
}
use suduo.Connector.{
  State, disconnected, connecting, connected, reset_task, Call, closes, new_connection, Connector,
  is_disconnected, is_connecting, goes_on, retries, call, new, retry, connect_channel, connect,
  start_in_loop, remove_and_reset_channel, reset_channel, stop_in_loop, handle_write, handle_error,
}

-- The sockets of calls that end the connector's hold on them.
abbrev pub ended : List Call → List ℕ
ended [] = []
ended (closes fd ∷ calls) = fd ∷ ended calls
ended (new_connection fd ∷ calls) = fd ∷ ended calls

ended-append : (xs ys : List Call) → ended (xs ++ ys) ≡ ended xs ++ ended ys
ended-append [] ys = refl
ended-append (closes fd ∷ xs) ys = ap (λ fds. fd ∷ fds) (ended-append xs ys)
ended-append (new_connection fd ∷ xs) ys = ap (λ fds. fd ∷ fds) (ended-append xs ys)

-- The socket of a connector that is connecting.
abbrev pub held : State → Option ℕ → List ℕ
held connecting (some fd) = fd ∷ []
held _ _ = []

abbrev HasChannel : State → Option ℕ → Type 0
HasChannel connecting channel = (fd : ℕ) × (channel ≡ some fd)
HasChannel _ channel = Unit {0}

pub record Inv (c : Connector) : Type 0 where
  -- the sockets made, in order, are those that have ended and the one that is held
  pub sockets : c.opened ≡ ended c.calls ++ held c.state c.channel
  pub has_channel : HasChannel c.state c.channel
  pub delay_low : 500 ≤ c.retry_delay_ms
  pub delay_high : c.retry_delay_ms ≤ 30000

abbrev pub Keeps : Option Connector → Type 0
Keeps r = (c : Connector) × (r ≡ some c) × Inv c

pub new-Inv : Inv new
unfolding new
new-Inv = record {
  sockets = refl;
  has_channel = tt;
  delay_low = omega arith;
  delay_high = omega arith;
}

-- A socket that has just left, or not yet reached, the channel, is closed.
retry-Inv :
    (c : Connector) (fd : ℕ)
    → c.opened ≡ ended c.calls ++ fd ∷ []
    → 500 ≤ c.retry_delay_ms
    → c.retry_delay_ms ≤ 30000
    → Inv (retry c fd)
unfolding retry
retry-Inv c fd sockets low high = record {
  sockets = sockets ∙ sym (append-nil _ ∙ ended-append c.calls (closes fd ∷ []));
  has_channel = tt;
  delay_low = ground arith;
  delay_high = ground arith;
}

hand-Inv :
    (c : Connector) (fd : ℕ) (it : Call)
    → c.opened ≡ ended c.calls ++ fd ∷ []
    → ended (it ∷ []) ≡ fd ∷ []
    → held c.state c.channel ≡ []
    → HasChannel c.state c.channel
    → 500 ≤ c.retry_delay_ms
    → c.retry_delay_ms ≤ 30000
    → Inv (call c it)
hand-Inv c fd it sockets one gone has low high = record {
  sockets =
      sockets
      ∙ ap (λ fds. ended c.calls ++ fds) (sym one)
      ∙ sym (ended-append c.calls (it ∷ []))
      ∙ sym (append-nil _)
      ∙ ap (λ fds. ended (c.calls ++ it ∷ []) ++ fds) (sym gone);
  has_channel = has;
  delay_low = low;
  delay_high = high;
}

disconnected_state : (s : State) → is_disconnected s ≡ true → s ≡ disconnected
disconnected_state disconnected e = refl
disconnected_state connecting e = absurd cc
disconnected_state connected e = absurd cc

connecting_state : (s : State) → is_connecting s ≡ true → s ≡ connecting
connecting_state connecting e = refl
connecting_state disconnected e = absurd cc
connecting_state connected e = absurd cc

if-Keeps :
    {r s : Option Connector} (test : Bool)
    → (test ≡ true → Keeps r)
    → (test ≡ false → Keeps s)
    → Keeps (if test then r else s)
if-Keeps true p q = p refl
if-Keeps false p q = q refl

if-Inv : {c d : Connector} (test : Bool) → Inv c → Inv d → Inv (if test then c else d)
if-Inv true p q = p
if-Inv false p q = q

-- A socket is handed over or closed, as the user still wants it or not.
ended_one :
    (wanted : Bool) (fd : ℕ)
    → ended ((if wanted then new_connection fd else closes fd) ∷ []) ≡ fd ∷ []
ended_one true fd = refl
ended_one false fd = refl

require-Keeps :
    {r : Option Connector} {test : Bool} → test ≡ true → Keeps r → Keeps (require test >> r)
require-Keeps e p = rw e p

-- Before a connect nothing is held.
connect-Keeps :
    {c : Connector} (fd errno : ℕ)
    → Inv c
    → c.state ≡ disconnected
    → c.channel ≡ none
    → Keeps (connect c fd errno)
unfolding connect connect_channel
connect-Keeps {c} fd errno inv idle empty = elim (Bool-cases (goes_on errno)) [
  | inl on ↦
      rw (on, empty)
        (
          _,
          refl,
          record {
            sockets = more;
            has_channel = (fd, refl);
            delay_low = inv.delay_low;
            delay_high = inv.delay_high;
          },
        )
  | inr failed ↦ rw failed (elim (Bool-cases (retries errno)) [
    | inl again ↦ rw again (_, refl, retry-Inv _ fd more inv.delay_low inv.delay_high)
    | inr never ↦ rw never (
      _,
      refl,
      hand-Inv _ fd (closes fd) more refl (rw idle refl) (rw idle tt) inv.delay_low inv.delay_high,
    )
  ])
]
  where
    more : c.opened ++ fd ∷ [] ≡ ended c.calls ++ fd ∷ []
    more = ap (λ fds. fds ++ fd ∷ []) ((rw idle at inv.sockets) ∙ append-nil (ended c.calls))

pub start_in_loop-Keeps :
    {c : Connector} (fd errno : ℕ)
    → Inv c
    → c.state ≡ disconnected
    → c.channel ≡ none
    → Keeps (start_in_loop c fd errno)
unfolding start_in_loop
start_in_loop-Keeps {c} fd errno inv idle empty =
    require-Keeps (ap is_disconnected idle)
      (if-Keeps c.wanted (λ e. connect-Keeps fd errno inv idle empty) (λ e. (c, refl, inv)))

-- What the handlers do with the socket of a connector that is connecting.
module _ {c : Connector} (inv : Inv c) (busy : c.state ≡ connecting) where
  open inv use {delay_low, delay_high}

  channel_there : (fd : ℕ) × (c.channel ≡ some fd)
  channel_there = rw busy at inv.has_channel

  one_held : c.opened ≡ ended c.calls ++ channel_there.0 ∷ []
  one_held = rw (busy, channel_there.1) at inv.sockets

  -- The connector once its channel gives the socket up.
  freed : State → Connector
  freed s = record c { state = s; waits_to_write = false; pending = c.pending ++ reset_task ∷ [] }

  removed :
      (s : State)
      → remove_and_reset_channel (record c { state = s }) ≡ some (channel_there.0, freed s)
  unfolding remove_and_reset_channel freed
  removed s = rw (channel_there.1) refl

  retried-Inv : (s : State) → Inv (retry (freed s) channel_there.0)
  unfolding freed
  retried-Inv s = retry-Inv (freed s) channel_there.0 one_held delay_low delay_high

  handed-Inv :
      (it : Call) → ended (it ∷ []) ≡ channel_there.0 ∷ [] → Inv (call (freed connected) it)
  unfolding freed
  handed-Inv it one =
      hand-Inv (freed connected) channel_there.0 it one_held one refl tt delay_low delay_high

module _ {c : Connector} (inv : Inv c) where
  pub stop_in_loop-Keeps : Keeps (stop_in_loop c)
  unfolding stop_in_loop
  stop_in_loop-Keeps =
      if-Keeps (is_connecting c.state)
        (λ e.
          let busy : c.state ≡ connecting = connecting_state c.state e in
          rw (removed inv busy disconnected) (_, refl, retried-Inv inv busy disconnected))
        (λ e. (c, refl, inv))

  same-removed :
      (busy : c.state ≡ connecting)
      → remove_and_reset_channel c ≡ some ((channel_there inv busy).0, freed inv busy c.state)
  same-removed busy = removed inv busy c.state

  pub handle_error-Keeps : Keeps (handle_error c)
  unfolding handle_error
  handle_error-Keeps =
      if-Keeps (is_connecting c.state)
        (λ e.
          let busy : c.state ≡ connecting = connecting_state c.state e in
          rw (same-removed busy) (_, refl, retried-Inv inv busy c.state))
        (λ e. (c, refl, inv))

  -- The state after a write event whose socket has an error or is connected to itself, or not.
  pub handle_write-Keeps :
      (err : ℕ) (self_connect : Bool)
      → (c.state ≡ connecting) ⊎ (c.state ≡ disconnected)
      → Keeps (handle_write c err self_connect)
  unfolding handle_write freed
  handle_write-Keeps err self_connect at_work =
      if-Keeps (is_connecting c.state)
        (λ e.
          let busy : c.state ≡ connecting = connecting_state c.state e in
          rw (same-removed busy) (
            _,
            refl,
            if-Inv (not (err == 0) || self_connect) (retried-Inv inv busy c.state)
                (handed-Inv inv busy _ (ended_one c.wanted (channel_there inv busy).0)),
          ))
        (λ e. require-Keeps (idle e at_work) (c, refl, inv))
    where
      idle :
          is_connecting c.state ≡ false
          → (c.state ≡ connecting) ⊎ (c.state ≡ disconnected)
          → is_disconnected c.state ≡ true
      idle e (inl busy) =
          absurd (let busy' : is_connecting c.state ≡ true = ap is_connecting busy in cc)
      idle e (inr down) = ap is_disconnected down

  pub reset_channel-Inv : (c.state ≡ disconnected) ⊎ (c.state ≡ connected) → Inv (reset_channel c)
  unfolding reset_channel
  reset_channel-Inv idle = record {
    sockets = freed_sockets c.state c.channel idle inv.sockets;
    has_channel = no_need c.state idle;
    delay_low = inv.delay_low;
    delay_high = inv.delay_high;
  }
    where
      freed_sockets :
          (s : State) (channel : Option ℕ)
          → (s ≡ disconnected) ⊎ (s ≡ connected)
          → c.opened ≡ ended c.calls ++ held s channel
          → c.opened ≡ ended c.calls ++ held s none
      freed_sockets disconnected channel i h = h
      freed_sockets connected channel i h = h
      freed_sockets connecting channel (inl i) h = absurd cc
      freed_sockets connecting channel (inr i) h = absurd cc

      no_need : (s : State) → (s ≡ disconnected) ⊎ (s ≡ connected) → HasChannel s none
      no_need disconnected i = tt
      no_need connected i = tt
      no_need connecting (inl i) = absurd cc
      no_need connecting (inr i) = absurd cc
