-- ===== src/TimerQueue/Entries.antt =====
-- The entries of a queue as a list of timers: the map's operations on it.
use suduo.Prelude.{
  ℕ, suc, ◌+◌, ◌<◌, ◌≡◌, refl, inl, inr, true, false, some, List, [], ◌∷◌, if◌then◌else◌, ◌==◌,
  length, arith, Bool-cases,
}
use suduo.TimerQueue.{
  Timer, Entry, Key, before, has_key, at_id, insert_entry, erase_key, elem, erase,
}

abbrev pub entry : Timer → Entry
entry t = record { when = t.expertion_time; id = t.id; timer = some t }

abbrev pub key_of : Timer → Key
key_of t = (t.expertion_time, t.id)

abbrev pub entries : List Timer → List Entry
entries [] = []
entries (t ∷ ts) = entry t ∷ entries ts

abbrev pub count : ℕ → List ℕ → ℕ
count i [] = 0
count i (j ∷ js) = (if j == i then 1 else 0) + count i js

-- How many timers have an id.
abbrev pub count_id : ℕ → List Timer → ℕ
count_id i [] = 0
count_id i (t ∷ ts) = (if t.id == i then 1 else 0) + count_id i ts

-- All keys come behind `k`.
abbrev pub Above : Key → List Timer → Type 0
Above k [] = Unit {0}
Above k (t ∷ ts) = (before k (key_of t) ≡ true) × Above k ts

abbrev pub Sorted : List Timer → Type 0
Sorted [] = Unit {0}
Sorted (t ∷ ts) = Above (key_of t) ts × Sorted ts

abbrev pub insert_timer : Timer → List Timer → List Timer
insert_timer n [] = n ∷ []
insert_timer n (t ∷ ts) = if before (key_of n) (key_of t) then n ∷ t ∷ ts else t ∷ insert_timer n ts

abbrev pub remove : ℕ → List Timer → List Timer
remove i [] = []
remove i (t ∷ ts) = if t.id == i then ts else t ∷ remove i ts

before_trans : (a b c : Key) → before a b ≡ true → before b c ≡ true → before a c ≡ true
before_trans (a, i) (b, j) (c, k) h h' = ground arith

Above-trans : (k k' : Key) (ts : List Timer) → before k k' ≡ true → Above k' ts → Above k ts
Above-trans k k' [] h a = tt
Above-trans k k' (t ∷ ts) h (b, a) = (before_trans k k' (key_of t) h b, Above-trans k k' ts h a)

pub entries-insert_timer :
    (n : Timer) (ts : List Timer)
    → insert_entry (entry n) (entries ts) ≡ entries (insert_timer n ts)
entries-insert_timer n [] = refl
entries-insert_timer n (t ∷ ts) = elim (Bool-cases (before (key_of n) (key_of t))) [
  | inl here ↦ rw here refl
  | inr further ↦ rw (further, entries-insert_timer n ts) refl
]

pub length-insert_timer :
    (n : Timer) (ts : List Timer) → length (insert_timer n ts) ≡ suc (length ts)
length-insert_timer n [] = refl
length-insert_timer n (t ∷ ts) = ground (arith, length-insert_timer n ts)

pub count_id-insert_timer :
    (i : ℕ) (n : Timer) (ts : List Timer)
    → count_id i (insert_timer n ts) ≡ (if n.id == i then 1 else 0) + count_id i ts
count_id-insert_timer i n [] = refl
count_id-insert_timer i n (t ∷ ts) = ground (arith, count_id-insert_timer i n ts)

Above-insert_timer :
    (k : Key) (n : Timer) (ts : List Timer)
    → before k (key_of n) ≡ true
    → Above k ts
    → Above k (insert_timer n ts)
Above-insert_timer k n [] h a = (h, tt)
Above-insert_timer k n (t ∷ ts) h (b, a) = elim (Bool-cases (before (key_of n) (key_of t))) [
  | inl here ↦ rw here (h, (b, a))
  | inr further ↦ rw further (b, Above-insert_timer k n ts h a)
]

before_total :
    (n t : Timer)
    → (t.id == n.id) ≡ false
    → before (key_of n) (key_of t) ≡ false
    → before (key_of t) (key_of n) ≡ true
before_total n t other h = ground arith

pub Sorted-insert_timer :
    (n : Timer) (ts : List Timer) → count_id n.id ts ≡ 0 → Sorted ts → Sorted (insert_timer n ts)
Sorted-insert_timer n [] new s = (tt, tt)
Sorted-insert_timer n (t ∷ ts) new (a, s) = elim (Bool-cases (before (key_of n) (key_of t))) [
  | inl here ↦ rw here ((here, Above-trans (key_of n) (key_of t) ts here a), (a, s))
  | inr further ↦
      let other : (t.id == n.id) ≡ false = ground arith in
      rw further (
        Above-insert_timer (key_of t) n ts (before_total n t other further) a,
        Sorted-insert_timer n ts (ground arith) s,
      )
]

pub has_key-count_id :
    (k : Key) (ts : List Timer) → count_id (k.1) ts ≡ 0 → has_key k (entries ts) ≡ false
has_key-count_id k [] h = refl
has_key-count_id (w, i) (t ∷ ts) h = ground (arith, has_key-count_id (w, i) ts)

pub elem-count : (i : ℕ) (js : List ℕ) → count i js ≡ 0 → elem i js ≡ false
elem-count i [] h = refl
elem-count i (j ∷ js) h = ground (arith, elem-count i js)

pub count-elem : (i : ℕ) (js : List ℕ) → elem i js ≡ true → 0 < count i js
count-elem i [] h = cc
count-elem i (j ∷ js) h = ground (arith, count-elem i js)

pub not_elem-count : (i : ℕ) (js : List ℕ) → elem i js ≡ false → count i js ≡ 0
not_elem-count i [] h = refl
not_elem-count i (j ∷ js) h = ground (arith, not_elem-count i js)

pub count-erase :
    (i j : ℕ) (js : List ℕ)
    → 0 < count j js
    → count i (erase j js) + (if j == i then 1 else 0) ≡ count i js
count-erase i j [] h = absurd (omega arith)
count-erase i j (k ∷ js) h = ground (arith, count-erase i j js)

pub length-erase : (j : ℕ) (js : List ℕ) → 0 < count j js → suc (length (erase j js)) ≡ length js
length-erase j [] h = absurd (omega arith)
length-erase j (k ∷ js) h = ground (arith, length-erase j js)

-- An id that some timer has: the entry that it refers to, and what erasing that entry's key leaves.
pub at_id_lem :
    (i : ℕ) (ts : List Timer)
    → 0 < count_id i ts
    → (t : Timer) × (at_id i (entries ts) ≡ some (entry t))
      × (has_key (t.expertion_time, i) (entries ts) ≡ true)
      × (erase_key (t.expertion_time, i) (entries ts) ≡ entries (remove i ts))
at_id_lem i [] h = absurd (omega arith)
at_id_lem i (t ∷ ts) h = elim (Bool-cases (t.id == i)) [
  | inl here ↦ (t, ground arith, ground arith, ground arith)
  | inr further ↦
      let (u, at, there, gone) = at_id_lem i ts (ground arith) in
      (u, ground arith, ground arith, ground arith)
]

pub remove_absent : (i : ℕ) (ts : List Timer) → count_id i ts ≡ 0 → remove i ts ≡ ts
remove_absent i [] h = refl
remove_absent i (t ∷ ts) h = ground (arith, remove_absent i ts)

pub count_id-remove :
    (i j : ℕ) (ts : List Timer)
    → 0 < count_id j ts
    → count_id i (remove j ts) + (if j == i then 1 else 0) ≡ count_id i ts
count_id-remove i j [] h = absurd (omega arith)
count_id-remove i j (t ∷ ts) h = ground (arith, count_id-remove i j ts)

pub length-remove :
    (j : ℕ) (ts : List Timer) → 0 < count_id j ts → suc (length (remove j ts)) ≡ length ts
length-remove j [] h = absurd (omega arith)
length-remove j (t ∷ ts) h = ground (arith, length-remove j ts)

Above-remove : (k : Key) (j : ℕ) (ts : List Timer) → Above k ts → Above k (remove j ts)
Above-remove k j [] a = tt
Above-remove k j (t ∷ ts) (b, a) = elim (Bool-cases (t.id == j)) [
  | inl here ↦ rw here a
  | inr further ↦ rw further (b, Above-remove k j ts a)
]

pub Sorted-remove : (j : ℕ) (ts : List Timer) → Sorted ts → Sorted (remove j ts)
Sorted-remove j [] s = tt
Sorted-remove j (t ∷ ts) (a, s) = elim (Bool-cases (t.id == j)) [
  | inl here ↦ rw here s
  | inr further ↦ rw further (Above-remove (key_of t) j ts a, Sorted-remove j ts s)
]
