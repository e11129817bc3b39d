-- ===== src/PollPoller/Places.antt =====
-- A channel's index is its place in the vector of descriptors, whatever is added and removed.
use suduo.Prelude.{
  ℕ, ◌+◌, ◌-◌, ◌<◌, ◌≡◌, refl, sym, ap, ◌∙◌, ◌⊎◌, inl, inr, true, false, ◌&&◌, Option, none, some,
  [], ◌∷◌, ◌++◌, ◌==◌, length, get_elem?, set, take, arith, Bool-cases, ℕ_discrete,
}
use suduo.Channel.{Events}
use suduo.PollPoller.Entries.{
  get-append-cases, get-append-left, get-append-right, get-set-cases, get-set-same, get-set-other,
  get-take-cases, get-take, get-bound, get-some,
}
use suduo.PollPoller.{
  Pollfd, Poller, is_disable_all, same_events, put, new, add_channel, change_channel, update_at,
  update_channel, drop_entry, remove_channel,
}

-- The entry at a place.
abbrev pub IsAt : Poller → ℕ → Pollfd → Type 0
IsAt p i e = get_elem? p.poll_fds i ≡ some e

pub record Inv (p : Poller) : Type 0 where
  -- the channel of each entry is in the map and knows its place
  pub known : (i : ℕ) (e : Pollfd) → IsAt p i e → (p.index e.fd ≡ some i) × (p.channels e.fd ≡ true)
  -- each channel of the map has an entry
  pub placed :
      (fd : ℕ)
      → p.channels fd ≡ true
      → (i : ℕ) × (e : Pollfd) × (p.index fd ≡ some i) × IsAt p i e × (e.fd ≡ fd)

same_entry : {a b : Pollfd} → some a ≡ some b → a ≡ b
same_entry h = cc

same_place : {i j : ℕ} → some i ≡ some j → i ≡ j
same_place h = cc

put-same : {A : Type 0} (f : ℕ → A) (key : ℕ) (a : A) → put f key a key ≡ a
put-same f key a = ground arith

put-other :
    {A : Type 0} (f : ℕ → A) (key : ℕ) (a : A) (other : ℕ)
    → ¬ (other ≡ key)
    → put f key a other ≡ f other
put-other f key a other h = ground arith

pub new-Inv : Inv new
unfolding new
new-Inv = record { known = λ i e h. absurd cc; placed = λ fd h. absurd cc }

module _ {p : Poller} (inv : Inv p) (fd : ℕ) where
  open inv use {known, placed}

  add-Inv :
      (x : Pollfd)
      → x.fd ≡ fd
      → p.channels fd ≡ false
      → Inv (record p {
        poll_fds = p.poll_fds ++ x ∷ [];
        index = put p.index fd (some (length p.poll_fds));
        channels = put p.channels fd true;
      })
  add-Inv x own absent = record { known = known'; placed = placed' }
    where
      other : (e : Pollfd) → p.channels e.fd ≡ true → ¬ (e.fd ≡ fd)
      other e there eq = let here : p.channels fd ≡ true = rw eq at there in absurd cc

      known' :
          (i : ℕ) (e : Pollfd)
          → get_elem? (p.poll_fds ++ x ∷ []) i ≡ some e
          → (put p.index fd (some (length p.poll_fds)) e.fd ≡ some i)
            × (put p.channels fd true e.fd ≡ true)
      known' i e h = elim (get-append-cases p.poll_fds x i e h) [
        | inl old ↦
            let (at_i, there) = known i e old in
            (
              put-other p.index fd _ e.fd (other e there) ∙ at_i,
              put-other p.channels fd _ e.fd (other e there) ∙ there,
            )
        | inr (at_end, is_x) ↦
            let same_fd : e.fd ≡ fd = ap (λ y. y.fd) is_x ∙ own in
            (
              rw same_fd (put-same p.index fd _ ∙ ap some (sym at_end)),
              rw same_fd (put-same p.channels fd true),
            )
      ]

      placed' :
          (g : ℕ)
          → put p.channels fd true g ≡ true
          → (i : ℕ) × (e : Pollfd) × (put p.index fd (some (length p.poll_fds)) g ≡ some i)
            × (get_elem? (p.poll_fds ++ x ∷ []) i ≡ some e)
            × (e.fd ≡ g)
      placed' g h = elim (ℕ_discrete g fd) [
        | yes same_fd ↦ (
          length p.poll_fds,
          x,
          rw same_fd (put-same p.index fd _),
          get-append-right p.poll_fds x,
          own ∙ sym same_fd,
        )
        | no other_fd ↦
            let (i, e, at_i, here, is_g) =
              placed g (sym (put-other p.channels fd true g other_fd) ∙ h) in
            (
              i,
              e,
              put-other p.index fd _ g other_fd ∙ at_i,
              get-append-left p.poll_fds x i e here,
              is_g,
            )
      ]

  set-Inv :
      (j : ℕ) (x y : Pollfd)
      → IsAt p j y
      → x.fd ≡ y.fd
      → Inv (record p { poll_fds = set p.poll_fds j x })
  set-Inv j x y here own = record { known = known'; placed = placed' }
    where
      known' :
          (i : ℕ) (e : Pollfd)
          → get_elem? (set p.poll_fds j x) i ≡ some e
          → (p.index e.fd ≡ some i) × (p.channels e.fd ≡ true)
      known' i e h = elim (get-set-cases p.poll_fds j x i e h) [
        | inl (at_j, is_x) ↦ rw (ap (λ z. z.fd) is_x ∙ own, at_j) (known j y here)
        | inr (other, old) ↦ known i e old
      ]

      placed' :
          (g : ℕ)
          → p.channels g ≡ true
          → (i : ℕ) × (e : Pollfd) × (p.index g ≡ some i)
            × (get_elem? (set p.poll_fds j x) i ≡ some e)
            × (e.fd ≡ g)
      placed' g h =
          let (i, e, at_i, there, is_g) = placed g h in
          elim (ℕ_discrete i j) [
            | yes at_j ↦ (
              i,
              x,
              at_i,
              rw at_j (get-set-same p.poll_fds j x y here),
              own ∙ ap (λ z. z.fd) (same_entry (sym here ∙ (rw at_j at there))) ∙ is_g,
            )
            | no other ↦ (i, e, at_i, get-set-other p.poll_fds j x i other ∙ there, is_g)
          ]

  distinct : {g h i j : ℕ} → p.index g ≡ some i → p.index h ≡ some j → ¬ (i ≡ j) → ¬ (g ≡ h)
  distinct a b other eq = other (same_place (sym a ∙ ap p.index eq ∙ b))

  -- The channel at `idx` goes.
  module _ (idx : ℕ) (y : Pollfd) (at_idx : p.index fd ≡ some idx) (here : IsAt p idx y)
      (own : y.fd ≡ fd) where
    -- The others are elsewhere.
    elsewhere :
        (g : ℕ)
        → put p.channels fd false g ≡ true
        → (¬ (g ≡ fd))
          × ((i : ℕ) × (e : Pollfd) × (p.index g ≡ some i)
              × IsAt p i e
              × (e.fd ≡ g)
              × (¬ (i ≡ idx)))
    elsewhere g h =
        let other : ¬ (g ≡ fd) = (λ eq.
          let gone : put p.channels fd false g ≡ false = rw eq (put-same p.channels fd false) in
          absurd cc) in
        let (i, e, at_i, there, is_g) =
          placed g (sym (put-other p.channels fd false g other) ∙ h) in
        (
          other,
          (
            i,
            e,
            at_i,
            there,
            is_g,
            λ eq. other (
                sym is_g
                ∙ ap (λ z. z.fd)
                    (same_entry (sym there ∙ ap (λ k. get_elem? p.poll_fds k) eq ∙ here))
                ∙ own),
          ),
        )

    still : (i : ℕ) (e : Pollfd) → IsAt p i e → ¬ (i ≡ idx) → put p.channels fd false e.fd ≡ true
    still i e there other =
        let (at_i, member) = known i e there in
        put-other p.channels fd false e.fd (distinct at_i at_idx other) ∙ member

    last-Inv :
        idx + 1 ≡ length p.poll_fds
        → Inv (record p { channels = put p.channels fd false; poll_fds = take idx p.poll_fds })
    last-Inv end = record { known = known'; placed = placed' }
      where
        known' :
            (i : ℕ) (e : Pollfd)
            → get_elem? (take idx p.poll_fds) i ≡ some e
            → (p.index e.fd ≡ some i) × (put p.channels fd false e.fd ≡ true)
        known' i e h =
            let (low, old) = get-take-cases idx p.poll_fds i e h in
            ((known i e old).0, still i e old (omega arith))

        placed' :
            (g : ℕ)
            → put p.channels fd false g ≡ true
            → (i : ℕ) × (e : Pollfd) × (p.index g ≡ some i)
              × (get_elem? (take idx p.poll_fds) i ≡ some e)
              × (e.fd ≡ g)
        placed' g h =
            let (other, (i, e, at_i, there, is_g, not_idx)) = elsewhere g h in
            (
              i,
              e,
              at_i,
              get-take idx p.poll_fds i (omega (arith, get-bound p.poll_fds i e there)) ∙ there,
              is_g,
            )

    swap-Inv :
        (back : Pollfd)
        → IsAt p (length p.poll_fds - 1) back
        → ¬ (idx + 1 ≡ length p.poll_fds)
        → Inv (record p {
          channels = put p.channels fd false;
          poll_fds = take (length p.poll_fds - 1) (set p.poll_fds idx back);
          index = put p.index back.fd (some idx);
        })
    swap-Inv back at_end inner = record { known = known'; placed = placed' }
      where
        n : ℕ
        n = length p.poll_fds - 1

        below : idx < length p.poll_fds
        below = get-bound p.poll_fds idx y here

        known' :
            (i : ℕ) (e : Pollfd)
            → get_elem? (take n (set p.poll_fds idx back)) i ≡ some e
            → (put p.index back.fd (some idx) e.fd ≡ some i) × (put p.channels fd false e.fd ≡ true)
        known' i e h =
            let (low, old) = get-take-cases n (set p.poll_fds idx back) i e h in
            elim (get-set-cases p.poll_fds idx back i e old) [
              | inl (at_place, is_back) ↦
                  rw (ap (λ z. z.fd) is_back, at_place)
                    (
                      put-same p.index back.fd (some idx),
                      still n back at_end (omega (arith, below)),
                    )
              | inr (other, there) ↦
                  let at_i : p.index e.fd ≡ some i = (known i e there).0 in
                  (
                    put-other p.index back.fd (some idx) e.fd
                          (distinct at_i (known n back at_end).0 (omega arith))
                        ∙ at_i,
                    still i e there other,
                  )
            ]

        placed' :
            (g : ℕ)
            → put p.channels fd false g ≡ true
            → (i : ℕ) × (e : Pollfd) × (put p.index back.fd (some idx) g ≡ some i)
              × (get_elem? (take n (set p.poll_fds idx back)) i ≡ some e)
              × (e.fd ≡ g)
        placed' g h =
            let (other, (i, e, at_i, there, is_g, not_idx)) = elsewhere g h in
            elim (ℕ_discrete i n) [
              | yes moved ↦
                  let is_back : back.fd ≡ g =
                    ap (λ z. z.fd) (same_entry (sym at_end ∙ (rw moved at there))) ∙ is_g in
                  (
                    idx,
                    back,
                    rw (sym is_back) (put-same p.index back.fd (some idx)),
                    get-take n _ idx (omega (arith, below))
                        ∙ get-set-same p.poll_fds idx back y here,
                    is_back,
                  )
              | no stays ↦ (
                i,
                e,
                put-other p.index back.fd (some idx) g (distinct at_i (known n back at_end).0 stays)
                    ∙ at_i,
                get-take n _ i (omega (arith, get-bound p.poll_fds i e there))
                    ∙ get-set-other p.poll_fds idx back i not_idx
                    ∙ there,
                is_g,
              )
            ]

abbrev pub Keeps : Option Poller → Type 0
Keeps r = (p : Poller) × (r ≡ some p) × Inv p

-- A channel that is new to the poller, or that the poller has, is watched afterwards: the poller keeps
-- its invariant, and at the channel's index stands an entry with its descriptor and events.
pub update_channel-Inv :
    (p : Poller) (fd : ℕ) (events : Events)
    → Inv p
    → (p.channels fd ≡ true) ⊎ ((p.channels fd ≡ false) × (p.index fd ≡ none))
    → (p' : Poller) × (update_channel p fd events ≡ some p')
      × Inv p'
      × ((i : ℕ) × (e : Pollfd) × (p'.index fd ≡ some i)
          × IsAt p' i e
          × (e.fd ≡ fd)
          × (e.events ≡ events))
unfolding update_channel update_at add_channel change_channel
update_channel-Inv p fd events inv (inr (absent, fresh)) =
    rw (fresh, absent)
      (
        _,
        refl,
        add-Inv inv fd _ refl absent,
        (length p.poll_fds, _, put-same p.index fd _, get-append-right p.poll_fds _, refl, refl),
      )
update_channel-Inv p fd events inv (inl there) =
    let (i, e, at_i, here, own) = inv.placed fd there in
    let same_fd : (e.fd == fd) ≡ true = ground (arith, own) in
    rw (at_i, there, here, same_fd)
      (
        _,
        refl,
        set-Inv inv fd i _ e here (sym own),
        (i, _, at_i, get-set-same p.poll_fds i _ e here, refl, refl),
      )

drops :
    {p : Poller} (inv : Inv p) (fd idx : ℕ) (y : Pollfd)
    → p.index fd ≡ some idx
    → IsAt p idx y
    → y.fd ≡ fd
    → (back : Pollfd) → IsAt p (length p.poll_fds - 1) back
    → (p' : Poller) × (drop_entry (record p { channels = put p.channels fd false }) idx back
        ≡ some p')
      × Inv p'
      × (p'.channels ≡ put p.channels fd false)
unfolding drop_entry
drops {p} inv fd idx y at_i here own back at_end =
    elim (Bool-cases (idx + 1 == length p.poll_fds)) [
      | inl end ↦ rw end (_, refl, last-Inv inv fd idx y at_i here own (ground arith), refl)
      | inr inner ↦
          let not_last : ¬ (idx + 1 ≡ length p.poll_fds) = ground arith in
          let member : put p.channels fd false back.fd ≡ true =
            still inv fd idx y at_i here own (length p.poll_fds - 1) back at_end
              (omega (arith, get-bound p.poll_fds idx y here)) in
          rw (inner, member)
            (_, refl, swap-Inv inv fd idx y at_i here own back at_end not_last, refl)
    ]

-- A channel whose entry waits for nothing and is ignored can be removed: the poller keeps its
-- invariant, and has all channels but this one.
pub remove_channel-Inv :
    (p : Poller) (fd : ℕ) (events : Events)
    → Inv p
    → p.channels fd ≡ true
    → is_disable_all events ≡ true
    → ((i : ℕ) (e : Pollfd)
        → p.index fd ≡ some i
        → IsAt p i e
        → (e.ignored && same_events e.events events) ≡ true)
    → (p' : Poller) × (remove_channel p fd events ≡ some p')
      × Inv p'
      × (p'.channels ≡ put p.channels fd false)
unfolding remove_channel drop_entry
remove_channel-Inv p fd events inv there idle ready =
    let (i, e, at_i, here, own) = inv.placed fd there in
    let (back, at_end) =
      get-some p.poll_fds (length p.poll_fds - 1) (omega (arith, get-bound p.poll_fds i e here)) in
    let fits : (e.ignored && (e.fd == fd && same_events e.events events)) ≡ true =
      ground (arith, own, ready i e at_i here) in
    rw (there, idle, at_i, here, fits, at_end) (drops inv fd i e at_i here own back at_end)
