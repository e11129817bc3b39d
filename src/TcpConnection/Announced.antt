-- ===== src/TcpConnection/Announced.antt =====
-- What the user's connection callback is told: up once, and down once at the end.
use suduo.Prelude.{
  ℕ, ◌+◌, ◌≡◌, refl, Bool, true, false, ◌||◌, Option, some, List, [], ◌∷◌, ◌++◌, arith,
  if◌then◌else◌,
}
use suduo.TcpConnection.{
  State, disconnected, connecting, connected, disconnecting, Write, failed, wrote, Call,
  connection_callback, Connection, new, is_disconnected, is_connected, is_connecting,
  is_disconnecting, send, send_in_loop, write_directly, keep_rest,
}

-- How often the callback was told of an open connection, and of a closed one.
abbrev pub ups_of : Call → ℕ
ups_of (connection_callback connected) = 1
ups_of _ = 0

abbrev pub downs_of : Call → ℕ
downs_of (connection_callback disconnected) = 1
downs_of _ = 0

abbrev pub ups : List Call → ℕ
ups [] = 0
ups (call ∷ calls) = ups_of call + ups calls

abbrev pub downs : List Call → ℕ
downs [] = 0
downs (call ∷ calls) = downs_of call + downs calls

pub ups-append : (xs ys : List Call) → ups (xs ++ ys) ≡ ups xs + ups ys
ups-append [] ys = omega arith
ups-append (x ∷ xs) ys = omega (arith, ups-append xs ys)

pub downs-append : (xs ys : List Call) → downs (xs ++ ys) ≡ downs xs + downs ys
downs-append [] ys = omega arith
downs-append (x ∷ xs) ys = omega (arith, downs-append xs ys)

pub record Announced (c : Connection) : Type 0 where
  pub up : ups c.calls ≡ (if is_connecting c.state then 0 else 1)
  pub down : downs c.calls ≡ (if is_disconnected c.state then 1 else 0)

-- Sending and writing change neither the state nor the calls, but for the end of the stream.
abbrev pub Same : Connection → Option Connection → Type 0
Same c r = (c' : Connection) → r ≡ some c' → (c'.state ≡ c.state) × (c'.calls ≡ c.calls)

keep_rest-Same : (c : Connection) (rest : List ℕ) → Same c (keep_rest c rest)
unfolding keep_rest
keep_rest-Same c rest c' e = (ground arith, ground arith)

write_directly-Same :
    (c : Connection) (message : List ℕ) (result : Write) → Same c (write_directly c message result)
unfolding write_directly keep_rest
write_directly-Same c message (wrote n) c' e = (ground arith, ground arith)
write_directly-Same c message (failed errno) c' e = (ground arith, ground arith)

pub send_in_loop-Same :
    (c : Connection) (message : List ℕ) (result : Write) → Same c (send_in_loop c message result)
unfolding send_in_loop
send_in_loop-Same c message result c' e = ground (
  arith,
  write_directly-Same c message result c',
  keep_rest-Same (record c { accepted = c.accepted ++ message }) message c',
)

pub send-Same :
    (in_loop : Bool) (c : Connection) (message : List ℕ) (result : Write)
    → Same c (send in_loop c message result)
unfolding send
send-Same in_loop c message result c' e = ground (arith, send_in_loop-Same c message result c')

module _ {c : Connection} (ann : Announced c) where
  open ann use {up, down}

  pub same-Announced :
      (c' : Connection) → (c'.state ≡ c.state) × (c'.calls ≡ c.calls) → Announced c'
  same-Announced c' (s, l) = record { up = rw (l, s) up; down = rw (l, s) down }

  -- A call that tells the user nothing.
  pub log-Announced :
      (c' : Connection) (call : Call)
      → ups_of call ≡ 0
      → downs_of call ≡ 0
      → c'.state ≡ c.state
      → c'.calls ≡ c.calls ++ call ∷ []
      → Announced c'
  log-Announced c' call u d s l = record {
    up = rw (l, s) (omega (arith, ups-append c.calls (call ∷ []), up));
    down = rw (l, s) (omega (arith, downs-append c.calls (call ∷ []), down));
  }

  -- A state between the start and the end.
  pub between-Announced :
      (c' : Connection)
      → is_connecting c.state ≡ is_connecting c'.state
      → is_disconnected c.state ≡ is_disconnected c'.state
      → c'.calls ≡ c.calls
      → Announced c'
  between-Announced c' a b l = record { up = rw l (rw a at up); down = rw l (rw b at down) }

  pub closes-Announced :
      (c' : Connection) (calls : List Call)
      → is_connecting c.state ≡ false
      → is_disconnected c.state ≡ false
      → ups calls ≡ 0
      → downs calls ≡ 1
      → c'.state ≡ disconnected
      → c'.calls ≡ c.calls ++ calls
      → Announced c'
  closes-Announced c' calls a b u d s l = record {
    up = rw (l, s) (omega (arith, ups-append c.calls calls, rw a at up));
    down = rw (l, s) (omega (arith, downs-append c.calls calls, rw b at down));
  }

-- The states of an open connection.
pub open_states :
    (s : State)
    → (is_connected s || is_disconnecting s) ≡ true
    → (is_connecting s ≡ false) × (is_disconnected s ≡ false)
open_states connected h = (refl, refl)
open_states disconnecting h = (refl, refl)
open_states connecting h = cc
open_states disconnected h = cc

pub connected_state :
    (s : State) → is_connected s ≡ true → (is_connecting s ≡ false) × (is_disconnected s ≡ false)
connected_state connected h = (refl, refl)
connected_state disconnecting h = cc
connected_state connecting h = cc
connected_state disconnected h = cc

pub new-Announced : Announced new
unfolding new
new-Announced = record { up = refl; down = refl }
