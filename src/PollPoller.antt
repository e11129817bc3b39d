-- ===== src/PollPoller.antt =====
-- suduo/net/poller/PollPoller.h and PollPoller.cpp: the vector of descriptors for `::poll`, and the
-- map of channels, whose `_index` is the place in that vector. A channel is known by its descriptor.
-- `none` is a failed assertion.
mod Entries
pub mod Places
mod Examples
use suduo.Prelude.{
  ℕ, ◌+◌, ◌-◌, Bool, true, false, ◌&&◌, not, Option, none, some, List, [], ◌∷◌, ◌++◌, if◌then◌else◌,
  ltb, ◌==◌, length, get_elem?, set, take, ◌>>=◌, ◌>>◌, require, add_size,
}
use suduo.Channel.{Events, none_event}

-- A `pollfd`: one that poll is to ignore has -fd - 1 in the place of its descriptor.
pub record Pollfd : Type 0 where
  pub fd : ℕ
  pub ignored : Bool
  pub events : Events

pub record Poller : Type 0 where
  pub poll_fds : List Pollfd
  -- which descriptors `_channels` has
  pub channels : ℕ → Bool
  -- the channels' `_index`, where -1 is `none`
  pub index : ℕ → Option ℕ

abbrev pub is_disable_all : Events → Bool
is_disable_all e = not e.read && not e.write

abbrev pub same : Bool → Bool → Bool
same a b = if a then b else not b

abbrev pub same_events : Events → Events → Bool
same_events a b = same a.read b.read && same a.write b.write

-- A map with one entry changed.
abbrev pub put {ℓ} : {A : Type ℓ} → (ℕ → A) → ℕ → A → ℕ → A
put f key a other = if other == key then a else f other

unfoldable pub new : Poller
new = record { poll_fds = []; channels = λ fd. false; index = λ fd. none }

unfoldable pub add_channel : Poller → ℕ → Events → Option Poller
add_channel p fd events = do
  require (not (p.channels fd))
  some (record p {
    poll_fds = p.poll_fds ++ record { fd = fd; ignored = false; events = events } ∷ [];
    index = put p.index fd (some (length p.poll_fds));
    channels = put p.channels fd true;
  })

unfoldable pub change_channel : Poller → ℕ → Events → ℕ → Option Poller
change_channel p fd events idx = do
  require (p.channels fd)
  pfd ← get_elem? p.poll_fds idx
  require (pfd.fd == fd)
  some (record p {
    poll_fds =
        set p.poll_fds idx (record { fd = fd; ignored = is_disable_all events; events = events });
  })

unfoldable pub update_at : Poller → ℕ → Events → Option ℕ → Option Poller
update_at p fd events none = add_channel p fd events
update_at p fd events (some idx) = change_channel p fd events idx

unfoldable pub update_channel : Poller → ℕ → Events → Option Poller
update_channel p fd events = update_at p fd events (p.index fd)

-- The end of `remove_channel`: the last entry takes the place of the one that goes.
unfoldable pub drop_entry : Poller → ℕ → Pollfd → Option Poller
drop_entry p idx back =
    if idx + 1 == length p.poll_fds then some (record p { poll_fds = take idx p.poll_fds }) else (do
      require (p.channels back.fd)
      some (record p {
        poll_fds = take (length p.poll_fds - 1) (set p.poll_fds idx back);
        index = put p.index back.fd (some idx);
      }))

unfoldable pub remove_channel : Poller → ℕ → Events → Option Poller
remove_channel p fd events = do
  require (p.channels fd)
  require (is_disable_all events)
  idx ← p.index fd
  pfd ← get_elem? p.poll_fds idx
  require (pfd.ignored && (pfd.fd == fd && same_events pfd.events events))
  back ← get_elem? p.poll_fds (length p.poll_fds - 1)
  drop_entry (record p { channels = put p.channels fd false }) idx back
