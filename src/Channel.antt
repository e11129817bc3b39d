-- ===== src/Channel.antt =====
-- suduo/net/Channel.h and Channel.cpp: the events that a file descriptor waits for, and the calls
-- that an event leads to. `POLLIN` and `POLLPRI` are only ever set and cleared together.
pub mod Dispatch
use Prim.Native.Nat.{bit_or, bit_and}
use suduo.Prelude.{ℕ, ◌+◌, ◌-◌, ◌≡◌, refl, Bool, true, false, if◌then◌else◌}

pub record Events : Type 0 where
  pub read : Bool
  pub write : Bool

abbrev pub pollin : ℕ
pollin = 0x1

abbrev pub pollpri : ℕ
pollpri = 0x2

abbrev pub pollout : ℕ
pollout = 0x4

abbrev pub read_event : ℕ
read_event = pollin + pollpri

abbrev pub write_event : ℕ
write_event = pollout

abbrev pub none_event : Events
none_event = record { read = false; write = false }

-- The `_events` word.
abbrev pub mask : Events → ℕ
mask e = (if e.read then read_event else 0) + (if e.write then write_event else 0)

abbrev pub enable_reading : Events → Events
enable_reading e = record e { read = true }

abbrev pub disable_reading : Events → Events
disable_reading e = record e { read = false }

abbrev pub enable_writing : Events → Events
enable_writing e = record e { write = true }

abbrev pub disable_writing : Events → Events
disable_writing e = record e { write = false }

abbrev pub disable_all : Events → Events
disable_all e = none_event

abbrev pub is_writing : Events → Bool
is_writing e = e.write

abbrev pub is_reading : Events → Bool
is_reading e = e.read

-- On the word these are `|=` and `&= ~` with the event's bits; 7 holds every bit in use.
mask-enable_reading :
    (r w : Bool)
    → let e : Events = record { read = r; write = w } in
      (mask (enable_reading e) ≡ bit_or (mask e) read_event)
      × (mask (disable_reading e) ≡ bit_and (mask e) (7 - read_event))
      × (mask (enable_writing e) ≡ bit_or (mask e) write_event)
      × (mask (disable_writing e) ≡ bit_and (mask e) (7 - write_event))
mask-enable_reading true true = (refl, refl, refl, refl)
mask-enable_reading true false = (refl, refl, refl, refl)
mask-enable_reading false true = (refl, refl, refl, refl)
mask-enable_reading false false = (refl, refl, refl, refl)
