-- ===== src/PollPoller/Examples.antt =====
-- The theorems on pollers at concrete inputs.
use suduo.Prelude.{
  ℕ, zero, suc, ◌≡◌, refl, inr, true, false, ◌&&◌, none, some, [], ◌∷◌, arith, ℕ_discrete, ap, sym,
}
use suduo.Channel.{Events, none_event}
use suduo.PollPoller.{Pollfd, Poller, same_events, put, new, update_channel, remove_channel}
use suduo.PollPoller.Places.{Inv, IsAt, new-Inv, update_channel-Inv, remove_channel-Inv}

abbrev reads : Events
reads = record { read = true; write = false }

update_channel-Inv_example :
    (p : Poller) × (update_channel new 3 reads ≡ some p)
    × Inv p
    × ((i : ℕ) × (e : Pollfd) × (p.index 3 ≡ some i) × IsAt p i e × (e.fd ≡ 3) × (e.events ≡ reads))
unfolding new
update_channel-Inv_example = update_channel-Inv new 3 reads new-Inv (inr (refl, refl))

abbrev idle_entry : Pollfd
idle_entry = record { fd = 3; ignored = true; events = none_event }

abbrev busy_entry : Pollfd
busy_entry = record { fd = 5; ignored = false; events = reads }

abbrev two : Poller
two = record {
  poll_fds = idle_entry ∷ busy_entry ∷ [];
  channels = put (put (λ fd. false) 3 true) 5 true;
  index = put (put (λ fd. none) 3 (some 0)) 5 (some 1);
}

two-Inv : Inv two
two-Inv = record { known = known; placed = placed }
  where
    known :
        (i : ℕ) (e : Pollfd) → IsAt two i e → (two.index e.fd ≡ some i) × (two.channels e.fd ≡ true)
    known zero e h =
        let is_idle : idle_entry ≡ e = cc in
        (ap (λ x. two.index x.fd) (sym is_idle), ap (λ x. two.channels x.fd) (sym is_idle))
    known (suc zero) e h =
        let is_busy : busy_entry ≡ e = cc in
        (ap (λ x. two.index x.fd) (sym is_busy), ap (λ x. two.channels x.fd) (sym is_busy))
    known (suc (suc i)) e h = absurd cc

    placed :
        (fd : ℕ)
        → two.channels fd ≡ true
        → (i : ℕ) × (e : Pollfd) × (two.index fd ≡ some i) × IsAt two i e × (e.fd ≡ fd)
    placed fd h = elim (ℕ_discrete fd 5) [
      | yes five ↦ (1, busy_entry, ap two.index five, refl, sym five)
      | no other ↦ elim (ℕ_discrete fd 3) [
        | yes three ↦ (0, idle_entry, ap two.index three, refl, sym three)
        | no neither ↦ absurd (ground arith)
      ]
    ]

-- The entry that is removed is not the last one.
remove_channel-Inv_example :
    (p : Poller) × (remove_channel two 3 none_event ≡ some p)
    × Inv p
    × (p.channels ≡ put two.channels 3 false)
remove_channel-Inv_example = remove_channel-Inv two 3 none_event two-Inv refl refl ready
  where
    ready :
        (i : ℕ) (e : Pollfd)
        → two.index 3 ≡ some i
        → IsAt two i e
        → (e.ignored && same_events e.events none_event) ≡ true
    ready zero e at_i here =
        let is_idle : idle_entry ≡ e = cc in
        ap (λ x. x.ignored && same_events x.events none_event) (sym is_idle)
    ready (suc i) e at_i here = absurd cc
