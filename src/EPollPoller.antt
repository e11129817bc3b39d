-- ===== src/EPollPoller.antt =====
-- suduo/net/poller/EPollPoller.h and EPollPoller.cpp: the map of channels and the kernel's list, which is a
-- parameter. A channel is the number of its pointer, its descriptor and its events. `failed` is an error
-- of `epoll_ctl`, with its number, on which the program ends.
pub mod Mirror
mod Examples
use suduo.Prelude.{
  ℕ, ◌*◌, ◌≡◌, ◌≢◌, ◌⊎◌, Bool, true, false, Option, none, some, List, [], ◌∷◌, ◌++◌, if◌then◌else◌,
  ◌==◌, length, ◌>>=◌,
}
use suduo.Channel.{Events}

pub data Operation : Type 0 where
  ctl_add ctl_mod ctl_del : Operation

-- An `epoll_event`: the events and the pointer that come with it.
pub record EpollEvent : Type 0 where
  pub events : Events
  pub ptr : ℕ

pub record Channel : Type 0 where
  pub address : ℕ
  pub fd : ℕ
  pub events : Events

-- A map with one entry changed.
abbrev pub put {ℓ} : {A : Type ℓ} → (ℕ → A) → ℕ → A → ℕ → A
put f key a other = if other == key then a else f other

pub data Outcome (A : Type 0) : Type 0 where
  ok : A → Outcome A
  failed : ℕ → Outcome A

abbrev pub then_run : {A B : Type 0} → Outcome A → (A → Outcome B) → Outcome B
then_run (ok a) f = f a
then_run (failed errno) f = failed errno

abbrev pub eexist : ℕ
eexist = 17

abbrev pub enoent : ℕ
enoent = 2

-- An operation has succeeded with these entries, or has failed for another reason than that the descriptor
-- is there already, or is not there.
abbrev pub Answers :
    {Interest : Type 0}
    → (Interest → ℕ → Option EpollEvent)
    → Outcome Interest
    → (ℕ → Option EpollEvent)
    → Type 0
Answers {Interest} entry result entries =
    ((l : Interest) × (result ≡ ok l) × ((i : ℕ) → entry l i ≡ entries i))
    ⊎ ((errno : ℕ) × (result ≡ failed errno) × (errno ≢ eexist) × (errno ≢ enoent))

-- The kernel's interest list, as epoll_ctl(2) documents it. `EEXIST` is only for adding a descriptor that is
-- there, and `ENOENT` only for changing or deleting one that is not; there may be other errors;
-- an operation that succeeds changes this entry only.
pub record Epoll : Type 1 where
  pub Interest : Type 0
  pub create : Interest
  pub ctl : Operation → ℕ → EpollEvent → Interest → Outcome Interest
  pub entry : Interest → ℕ → Option EpollEvent
  pub entry-create : (fd : ℕ) → entry create fd ≡ none
  pub ctl-add :
      (fd : ℕ) (e : EpollEvent) (l : Interest)
      → entry l fd ≡ none
      → Answers entry (ctl ctl_add fd e l) (put (entry l) fd (some e))
  pub ctl-mod :
      (fd : ℕ) (e old : EpollEvent) (l : Interest)
      → entry l fd ≡ some old
      → Answers entry (ctl ctl_mod fd e l) (put (entry l) fd (some e))
  pub ctl-del :
      (fd : ℕ) (e old : EpollEvent) (l : Interest)
      → entry l fd ≡ some old
      → Answers entry (ctl ctl_del fd e l) (put (entry l) fd none)

module _ (kernel : Epoll) where
  pub record EPollPoller : Type 0 where
    pub epoll : kernel.Interest
    -- `_channels`: the channel of each descriptor
    pub channels : ℕ → Option ℕ
    -- the size of `_events`, and the room that was reserved for it
    pub event_list_size : ℕ
    pub event_list_capacity : ℕ

  unfoldable pub new : EPollPoller
  new = record {
    epoll = kernel.create;
    channels = λ fd. none;
    event_list_size = 16;
    event_list_capacity = 16;
  }

  unfoldable pub update : EPollPoller → Operation → Channel → Outcome EPollPoller
  update p operation c =
      then_run (kernel.ctl operation c.fd (record { events = c.events; ptr = c.address }) p.epoll)
        (λ l. ok (record p { epoll = l }))

  -- By what `_channels.find` gives.
  abbrev pub update_found : EPollPoller → Channel → Option ℕ → Outcome EPollPoller
  update_found p c none =
      update (record p { channels = put p.channels c.fd (some c.address) }) ctl_add c
  update_found p c (some old) = update p ctl_mod c

  unfoldable pub update_channel : EPollPoller → Channel → Outcome EPollPoller
  update_channel p c = update_found p c (p.channels c.fd)

  abbrev pub remove_found : EPollPoller → Channel → Option ℕ → Outcome EPollPoller
  remove_found p c none = ok p
  remove_found p c (some old) = update (record p { channels = put p.channels c.fd none }) ctl_del c

  unfoldable pub remove_channel : EPollPoller → Channel → Outcome EPollPoller
  remove_channel p c = remove_found p c (p.channels c.fd)

  -- The channels that `fill_active_channels` sets the events of and puts behind the active ones.
  abbrev pub fill_active_channels : List EpollEvent → List (ℕ × Events) → List (ℕ × Events)
  fill_active_channels [] active = active
  fill_active_channels (e ∷ es) active = fill_active_channels es (active ++ (e.ptr, e.events) ∷ [])

  -- `poll`, with the events that `epoll_wait` has stored, no more than `_events` holds.
  unfoldable pub poll : EPollPoller → List EpollEvent → List (ℕ × Events) × EPollPoller
  poll p stored = (
    fill_active_channels stored [],
    record p {
      event_list_capacity =
          if length stored == p.event_list_size
          then p.event_list_size * 2
          else p.event_list_capacity;
    },
  )

-- The calls on a poller.
pub data Call : Type 0 where
  updates removes : Channel → Call
  polls : List EpollEvent → Call

module _ (kernel : Epoll) where
  unfoldable pub step : EPollPoller kernel → Call → Outcome (EPollPoller kernel)
  step p (updates c) = update_channel kernel p c
  step p (removes c) = remove_channel kernel p c
  step p (polls stored) = ok (poll kernel p stored).1

  unfoldable pub run : EPollPoller kernel → List Call → Outcome (EPollPoller kernel)
  run p [] = ok p
  run p (c ∷ cs) = then_run (step p c) (λ p'. run p' cs)
