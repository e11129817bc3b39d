-- ===== src/EPollPoller/Examples.antt =====
-- The theorem on the poller with a kernel that is a function.
use suduo.Prelude.{
  ℕ, ◌≡◌, refl, inl, inr, Bool, Bool-cases, ltb, arith, true, false, Option, none, some, List, [],
  ◌∷◌,
}
use suduo.EPollPoller.{
  Outcome, ok, failed, eexist, enoent, Answers, Operation, ctl_add, ctl_mod, ctl_del, EpollEvent,
  Channel, put, Epoll, new, Call, updates, removes, run,
}
use suduo.EPollPoller.Mirror.{Served, all_ask, run-Mirrors}

abbrev Table : Type 0
Table = ℕ → Option EpollEvent

-- An addition to an entry that is there fails, the other two where none is, and all on descriptors that
-- cannot be open.
abbrev ctl_found : Operation → ℕ → EpollEvent → Table → Option EpollEvent → Bool → Outcome Table
ctl_found op fd e l found false = failed 9
ctl_found ctl_add fd e l none true = ok (put l fd (some e))
ctl_found ctl_add fd e l (some old) true = failed eexist
ctl_found ctl_mod fd e l none true = failed enoent
ctl_found ctl_mod fd e l (some old) true = ok (put l fd (some e))
ctl_found ctl_del fd e l none true = failed enoent
ctl_found ctl_del fd e l (some old) true = ok (put l fd none)

abbrev table_entry : Table → ℕ → Option EpollEvent
table_entry l = l

bad_fd :
    {result : Outcome Table} {entries : Table}
    → result ≡ failed 9
    → Answers table_entry result entries
bad_fd e = inr (9, e, omega arith, omega arith)

answers :
    (op : Operation) (fd : ℕ) (e : EpollEvent) (l : Table) (found : Option EpollEvent)
    (entries : Table)
    → l fd ≡ found
    → ctl_found op fd e l found true ≡ ok entries
    → Answers table_entry (ctl_found op fd e l (l fd) (ltb fd 1024)) entries
answers op fd e l found entries h done = elim (Bool-cases (ltb fd 1024)) [
  | inl open_fd ↦ rw (open_fd, h) (inl (entries, done, λ i. refl))
  | inr none_open ↦ rw none_open (bad_fd refl)
]

abbrev kernel : Epoll
kernel = record {
  Interest = Table;
  create = λ fd. none;
  ctl = λ op fd e l. ctl_found op fd e l (l fd) (ltb fd 1024);
  entry = table_entry;
  entry-create = λ fd. refl;
  ctl-add = λ fd e l h. answers ctl_add fd e l none (put l fd (some e)) h refl;
  ctl-mod = λ fd e old l h. answers ctl_mod fd e l (some old) (put l fd (some e)) h refl;
  ctl-del = λ fd e old l h. answers ctl_del fd e l (some old) (put l fd none) h refl;
}

abbrev listener : Channel
listener = record { address = 100; fd = 3; events = record { read = true; write = false } }

abbrev connection : Channel
connection = record { address = 200; fd = 4; events = record { read = true; write = true } }

abbrev some_calls : List Call
some_calls =
    updates listener
    ∷ updates connection
    ∷ updates listener
    ∷ removes connection
    ∷ removes connection
    ∷ []

run-Mirrors_example :
    Served kernel (run kernel (new kernel) some_calls) (all_ask (λ fd. none) some_calls)
run-Mirrors_example = run-Mirrors kernel some_calls
