-- ===== src/EPollPoller/Mirror.antt =====
-- The kernel's list against what the channels ask for.
use suduo.Prelude.{
  ℕ, ◌≡◌, ◌≢◌, ◌⊎◌, refl, sym, ap, ◌∙◌, Bool, true, false, Option, none, some, List, [], ◌∷◌, ◌==◌,
  arith, Bool-cases, inl, inr,
}
use suduo.EPollPoller.{
  Outcome, ok, failed, eexist, enoent, Answers, Operation, ctl_add, ctl_mod, ctl_del, EpollEvent,
  Channel, put, Epoll, EPollPoller, new, update, update_found, update_channel, remove_found,
  remove_channel, poll, Call, updates, removes, polls, step, run,
}

-- What the channels ask for: the last update of each descriptor that was not removed since.
abbrev pub asks : (ℕ → Option EpollEvent) → Call → ℕ → Option EpollEvent
asks wanted (updates c) = put wanted c.fd (some (record { events = c.events; ptr = c.address }))
asks wanted (removes c) = put wanted c.fd none
asks wanted (polls stored) = wanted

abbrev pub all_ask : (ℕ → Option EpollEvent) → List Call → ℕ → Option EpollEvent
all_ask wanted [] = wanted
all_ask wanted (c ∷ cs) = all_ask (asks wanted c) cs

abbrev pub is_some : {A : Type 0} → Option A → Bool
is_some none = false
is_some (some a) = true

some_there : {A : Type 0} (m : Option A) → is_some m ≡ true → (a : A) × (m ≡ some a)
some_there none h = absurd cc
some_there (some a) h = (a, refl)

none_there : {A : Type 0} (m : Option A) → is_some m ≡ false → m ≡ none
none_there none h = refl
none_there (some a) h = absurd cc

put-is_some :
    {A B : Type 0} (f : ℕ → Option A) (g : ℕ → Option B) (key : ℕ) (a : Option A) (b : Option B)
    → ((i : ℕ) → is_some (f i) ≡ is_some (g i))
    → is_some a ≡ is_some b
    → (i : ℕ) → is_some (put f key a i) ≡ is_some (put g key b i)
put-is_some f g key a b h e i = elim (Bool-cases (i == key)) [
  | inl here ↦ rw here e
  | inr other ↦ rw other (h i)
]

put-cong :
    {A : Type 0} (f g : ℕ → A) (key : ℕ) (a : A)
    → ((i : ℕ) → f i ≡ g i)
    → (i : ℕ) → put f key a i ≡ put g key a i
put-cong f g key a h i = elim (Bool-cases (i == key)) [
  | inl here ↦ rw here refl
  | inr other ↦ rw other (h i)
]

-- Removing a descriptor that is not there.
put_absent :
    {A : Type 0} (f : ℕ → Option A) (key : ℕ) → f key ≡ none → (i : ℕ) → f i ≡ put f key none i
put_absent f key absent i = elim (Bool-cases (i == key)) [
  | inl here ↦ let same : i ≡ key = ground arith in rw here (ap f same ∙ absent)
  | inr other ↦ rw other refl
]

module _ (kernel : Epoll) where
  pub record Mirrors (p : EPollPoller kernel) (wanted : ℕ → Option EpollEvent) : Type 0 where
    pub listed : (fd : ℕ) → kernel.entry p.epoll fd ≡ wanted fd
    pub known : (fd : ℕ) → is_some (p.channels fd) ≡ is_some (wanted fd)

  -- A result mirrors what is wanted, or is an error that has another reason than the list itself.
  abbrev pub Served : Outcome (EPollPoller kernel) → (ℕ → Option EpollEvent) → Type 0
  Served result wanted =
      ((p : EPollPoller kernel) × (result ≡ ok p) × Mirrors p wanted)
      ⊎ ((errno : ℕ) × (result ≡ failed errno) × (errno ≢ eexist) × (errno ≢ enoent))

  -- An operation on the list, from what the kernel answers.
  answered :
      (p : EPollPoller kernel) (wanted : ℕ → Option EpollEvent) (op : Operation) (c : Channel)
      (e : Option EpollEvent)
      → ((fd : ℕ) → kernel.entry p.epoll fd ≡ wanted fd)
      → ((fd : ℕ) → is_some (p.channels fd) ≡ is_some (put wanted c.fd e fd))
      → Answers kernel.entry
          (kernel.ctl op c.fd (record { events = c.events; ptr = c.address }) p.epoll)
          (put (kernel.entry p.epoll) c.fd e)
      → Served (update kernel p op c) (put wanted c.fd e)
  unfolding update
  answered p wanted op c e listed known (inl (l, done, entries)) = rw done (
      inl (
        _,
        refl,
        record {
          listed = λ i. entries i ∙ put-cong (kernel.entry p.epoll) wanted c.fd e listed i;
          known = known;
        },
      ))
  answered p wanted op c e listed known (inr (errno, fails, no_eexist, no_enoent)) =
      rw fails (inr (errno, refl, no_eexist, no_enoent))

  update-Served :
      {p : EPollPoller kernel} {wanted : ℕ → Option EpollEvent} (c : Channel) (found : Option ℕ)
      → Mirrors p wanted
      → p.channels c.fd ≡ found
      → Served (update_found kernel p c found) (asks wanted (updates c))
  update-Served {p} {wanted} c none m e =
      let ev : EpollEvent = record { events = c.events; ptr = c.address } in
      let absent = none_there (wanted c.fd) (sym (m.known c.fd) ∙ ap is_some e) in
      answered (record p { channels = put p.channels c.fd (some c.address) }) wanted ctl_add c
        (some ev) m.listed
        (put-is_some p.channels wanted c.fd (some c.address) (some ev) m.known refl)
        (kernel.ctl-add c.fd ev p.epoll (m.listed c.fd ∙ absent))
  update-Served {p} {wanted} c (some old) m e =
      let ev : EpollEvent = record { events = c.events; ptr = c.address } in
      let (was, there) = some_there (wanted c.fd) (sym (m.known c.fd) ∙ ap is_some e) in
      answered p wanted ctl_mod c (some ev) m.listed (λ i. put_known i)
        (kernel.ctl-mod c.fd ev was p.epoll (m.listed c.fd ∙ there))
    where
      put_known :
          (i : ℕ)
          → is_some (p.channels i)
            ≡ is_some (put wanted c.fd (some (record { events = c.events; ptr = c.address })) i)
      put_known i = elim (Bool-cases (i == c.fd)) [
        | inl here ↦
            let same : i ≡ c.fd = ground arith in
            rw here (ap (λ k. is_some (p.channels k)) same ∙ ap is_some e)
        | inr other ↦ rw other (m.known i)
      ]

  remove-Served :
      {p : EPollPoller kernel} {wanted : ℕ → Option EpollEvent} (c : Channel) (found : Option ℕ)
      → Mirrors p wanted
      → p.channels c.fd ≡ found
      → Served (remove_found kernel p c found) (asks wanted (removes c))
  remove-Served {p} {wanted} c none m e =
      let absent = none_there (wanted c.fd) (sym (m.known c.fd) ∙ ap is_some e) in
      inl (
        p,
        refl,
        record {
          listed = λ i. m.listed i ∙ put_absent wanted c.fd absent i;
          known = λ i. m.known i ∙ ap is_some (put_absent wanted c.fd absent i);
        },
      )
  remove-Served {p} {wanted} c (some old) m e =
      let ev : EpollEvent = record { events = c.events; ptr = c.address } in
      let (was, there) = some_there (wanted c.fd) (sym (m.known c.fd) ∙ ap is_some e) in
      answered (record p { channels = put p.channels c.fd none }) wanted ctl_del c none m.listed
        (put-is_some p.channels wanted c.fd none none m.known refl)
        (kernel.ctl-del c.fd ev was p.epoll (m.listed c.fd ∙ there))

  step-Served :
      {p : EPollPoller kernel} {wanted : ℕ → Option EpollEvent} (c : Call)
      → Mirrors p wanted
      → Served (step kernel p c) (asks wanted c)
  unfolding step update_channel remove_channel poll
  step-Served {p} (updates c) m = update-Served c (p.channels c.fd) m refl
  step-Served {p} (removes c) m = remove-Served c (p.channels c.fd) m refl
  step-Served (polls stored) m = inl (_, refl, record { listed = m.listed; known = m.known })

  keeps-Mirrors :
      (cs : List Call) {p : EPollPoller kernel} {wanted : ℕ → Option EpollEvent}
      → Mirrors p wanted
      → Served (run kernel p cs) (all_ask wanted cs)
  unfolding run
  keeps-Mirrors [] {p} m = inl (p, refl, m)
  keeps-Mirrors (c ∷ cs) {p} m = elim (step-Served c m) [
    | inl (p', done, m') ↦ rw done (keeps-Mirrors cs m')
    | inr (errno, fails, no_eexist, no_enoent) ↦ rw fails (inr (errno, refl, no_eexist, no_enoent))
  ]

  -- From a new poller, and as long as no listed descriptor is closed without being removed, a sequence of
  -- updates, removals and polls either ends, and then the kernel's list holds for each descriptor
  -- the events and the channel of the last update that was not followed by a removal, and the map
  -- of channels knows exactly these descriptors; or it stops at an error of epoll_ctl, which is
  -- never that a descriptor is there already or is not there.
  pub run-Mirrors : (cs : List Call) → Served (run kernel (new kernel) cs) (all_ask (λ fd. none) cs)
  unfolding new
  run-Mirrors cs = keeps-Mirrors cs (record { listed = kernel.entry-create; known = λ fd. refl })
