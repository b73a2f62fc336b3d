-- ===== src/Locks/Counts.antt =====
-- src/file_rw_locks.rs: how many jobs hold each file, and what `hold` and `release` do to the table.
use hk.Prelude.{
  ℕ, zero, suc, ◌+◌, ◌-◌, ◌≡◌, refl, ◌⊎◌, inr, Bool, true, false, ◌&&◌, ◌||◌, not, some, List, [],
  ◌∷◌, ◌++◌, arith, ◌==◌, if◌then◌else◌,
}
use hk.Locks.{Mode, read, write, Held, Locks, hold, release, can_start, get_held, remove_at}

-- How often file `f` stands in a request, and whether it does.
unfoldable pub occurs : ℕ → List ℕ → ℕ
occurs f [] = 0
occurs f (g ∷ gs) = (if f == g then 1 else 0) + occurs f gs

unfoldable pub elem : ℕ → List ℕ → Bool
elem f [] = false
elem f (g ∷ gs) = f == g || elem f gs

abbrev pub reads_of : ℕ → Held → ℕ
reads_of f h = elim h.mode [ read ↦ occurs f h.files | write ↦ 0 ]

abbrev pub writes_of : ℕ → Held → ℕ
writes_of f h = elim h.mode [ read ↦ 0 | write ↦ (if elem f h.files then 1 else 0) ]

-- The read locks on `f`, and the jobs with a write lock on `f`.
unfoldable pub reads : ℕ → List Held → ℕ
unfolding occurs
reads f [] = 0
reads f (h ∷ hs) = reads_of f h + reads f hs

unfoldable pub writers : ℕ → List Held → ℕ
unfolding elem
writers f [] = 0
writers f (h ∷ hs) = writes_of f h + writers f hs

pub reads-append : (f : ℕ) (xs ys : List Held) → reads f (xs ++ ys) ≡ reads f xs + reads f ys
unfolding reads
reads-append f [] ys = omega arith
reads-append f (x ∷ xs) ys = omega (arith, reads-append f xs ys)

pub writers-append :
    (f : ℕ) (xs ys : List Held) → writers f (xs ++ ys) ≡ writers f xs + writers f ys
unfolding writers
writers-append f [] ys = omega arith
writers-append f (x ∷ xs) ys = omega (arith, writers-append f xs ys)

pub reads-remove_at :
    (f k : ℕ) (hs : List Held) (h : Held)
    → get_held k hs ≡ some h
    → reads f hs ≡ reads_of f h + reads f (remove_at k hs)
unfolding reads get_held remove_at
reads-remove_at f k [] h e = cc
reads-remove_at f zero (g ∷ hs) h e = ground arith
reads-remove_at f (suc k) (g ∷ hs) h e = omega (arith, reads-remove_at f k hs h e)

pub writers-remove_at :
    (f k : ℕ) (hs : List Held) (h : Held)
    → get_held k hs ≡ some h
    → writers f hs ≡ writes_of f h + writers f (remove_at k hs)
unfolding writers get_held remove_at
writers-remove_at f k [] h e = cc
writers-remove_at f zero (g ∷ hs) h e = ground arith
writers-remove_at f (suc k) (g ∷ hs) h e = omega (arith, writers-remove_at f k hs h e)

pub occurs-elem : (f : ℕ) (fs : List ℕ) → (elem f fs ≡ true) ⊎ (occurs f fs ≡ 0)
unfolding occurs elem
occurs-elem f [] = inr refl
occurs-elem f (g ∷ gs) = ground (arith, occurs-elem f gs)

pub hold-read :
    (f : ℕ) (l : Locks) (fs : List ℕ)
    → ((hold l fs read).readers f ≡ l.readers f + occurs f fs)
      × ((hold l fs read).writer f ≡ l.writer f)
      × ((hold l fs read).writes f ≡ l.writes f)
unfolding hold occurs
hold-read f l [] = (omega arith, refl, refl)
hold-read f l (g ∷ gs) =
    let (a, b, c) =
      hold-read f (record l { readers = λ j. if j == g then l.readers g + 1 else l.readers j })
        gs in
    (ground (arith, a), b, c)

pub hold-write :
    (f : ℕ) (l : Locks) (fs : List ℕ)
    → ((hold l fs write).readers f ≡ l.readers f)
      × ((hold l fs write).writer f ≡ l.writer f || elem f fs)
      × ((hold l fs write).writes f ≡ l.writes f)
unfolding hold elem
hold-write f l [] = ground arith
hold-write f l (g ∷ gs) =
    let (a, b, c) =
      hold-write f (record l { writer = λ j. if j == g then true else l.writer j }) gs in
    (a, ground (arith, b), c)

pub release-read :
    (f : ℕ) (l : Locks) (fs : List ℕ)
    → ((release l fs read).readers f ≡ l.readers f - occurs f fs)
      × ((release l fs read).writer f ≡ l.writer f)
      × ((release l fs read).writes f ≡ l.writes f)
unfolding release occurs
release-read f l [] = (omega arith, refl, refl)
release-read f l (g ∷ gs) =
    let (a, b, c) =
      release-read f (record l { readers = λ j. if j == g then l.readers g - 1 else l.readers j })
        gs in
    (ground (arith, a), b, c)

pub release-write :
    (f : ℕ) (l : Locks) (fs : List ℕ)
    → ((release l fs write).readers f ≡ l.readers f)
      × ((release l fs write).writer f ≡ l.writer f && not (elem f fs))
      × ((release l fs write).writes f ≡ l.writes f + occurs f fs)
unfolding release elem occurs
release-write f l [] = ground arith
release-write f l (g ∷ gs) =
    let (a, b, c) =
      release-write f
        (record l {
          writer = λ j. if j == g then false else l.writer j;
          writes = λ j. if j == g then l.writes g + 1 else l.writes j;
        })
        gs in
    (a, ground (arith, b), ground (arith, c))

pub can_start-elem :
    (f : ℕ) (l : Locks) (fs : List ℕ) (mode : Mode)
    → can_start l fs mode ≡ true
    → elem f fs ≡ true
    → (l.writer f ≡ false) × (mode ≡ write → l.readers f ≡ 0)
unfolding can_start elem
can_start-elem f l [] mode h e = cc
can_start-elem f l (g ∷ gs) read h e = (ground (arith, can_start-elem f l gs read), λ q. cc)
can_start-elem f l (g ∷ gs) write h e = ground (arith, can_start-elem f l gs write)
