-- ===== src/Locks.antt =====
-- src/file_rw_locks.rs: the table of read and write locks on files, its queue of waiting jobs, and the
-- calls on it. A path is a value of a type with the source's equality and order as parameters.
-- The per-file vectors are functions of the position, 0 past the end, which is what `position` pushes.
pub mod Counts
pub mod Wake
pub mod Safety
mod Tests
use hk.Prelude.{
  ℕ, zero, suc, ◌+◌, ◌-◌, Bool, true, false, ◌&&◌, not, Option, none, some, List, [], ◌∷◌, ◌++◌,
  length, ltb, leb, ◌==◌, if◌then◌else◌,
}

pub data Mode : Type 0 where
  read write : Mode

-- A job in the queue. Its `ready` channel is the list of granted jobs that `wake` returns.
pub record Waiter : Type 0 where
  pub id : ℕ
  pub mode : Mode
  pub files : List ℕ

-- Locks held on a set of files: `Held`, or a granted `Wait`, whose drop does the same.
pub record Held : Type 0 where
  pub mode : Mode
  pub files : List ℕ

-- The part of `Table` about locks.
pub record Locks : Type 0 where
  pub readers : ℕ → ℕ
  pub writer : ℕ → Bool
  pub writes : ℕ → ℕ

-- The part of `Table` about paths.
pub record Index (P : Type 0) : Type 0 where
  pub index : List (P × ℕ)
  pub paths : List P
  pub order : List ℕ
  pub sorted : Bool

pub record Table (P : Type 0) : Type 0 where
  pub known : Index P
  pub locks : Locks
  pub queue : List Waiter
  pub next_id : ℕ

abbrev pub put {ℓ} : {A : Type ℓ} → (ℕ → A) → ℕ → A → ℕ → A
put f i a j = if j == i then a else f j

unfoldable pub can_start : Locks → List ℕ → Mode → Bool
can_start l [] mode = true
can_start l (f ∷ fs) read = not (l.writer f) && can_start l fs read
can_start l (f ∷ fs) write = (not (l.writer f) && l.readers f == 0) && can_start l fs write

unfoldable pub hold : Locks → List ℕ → Mode → Locks
hold l [] mode = l
hold l (f ∷ fs) read = hold (record l { readers = put l.readers f (l.readers f + 1) }) fs read
hold l (f ∷ fs) write = hold (record l { writer = put l.writer f true }) fs write

unfoldable pub release : Locks → List ℕ → Mode → Locks
release l [] mode = l
release l (f ∷ fs) read = release (record l { readers = put l.readers f (l.readers f - 1) }) fs read
release l (f ∷ fs) write =
    release (record l { writer = put l.writer f false; writes = put l.writes f (l.writes f + 1) })
      fs write

-- What `wake` leaves: the locks, the jobs that still wait, and the jobs it started, in queue order.
pub record Woken : Type 0 where
  pub locks : Locks
  pub waiting : List Waiter
  pub started : List Waiter

abbrev pub keep_waiting : Waiter → Woken → Woken
keep_waiting w r = record r { waiting = w ∷ r.waiting }

abbrev pub start_waiting : Waiter → Woken → Woken
start_waiting w r = record r { started = w ∷ r.started }

unfoldable pub wake : Locks → List Waiter → Woken
wake l [] = record { locks = l; waiting = []; started = [] }
wake l (w ∷ ws) =
    let started = start_waiting w (wake (hold l w.files w.mode) ws) in
    let kept = keep_waiting w (wake l ws) in if can_start l w.files w.mode then started else kept

module _ {P : Type 0} (eq le : P → P → Bool) where
  lookup : P → List (P × ℕ) → Option ℕ
  lookup p [] = none
  lookup p ((q, i) ∷ rest) = if eq q p then some i else lookup p rest

  get_path : List P → ℕ → Option P
  get_path [] i = none
  get_path (p ∷ ps) zero = some p
  get_path (p ∷ ps) (suc i) = get_path ps i

  last : List ℕ → Option ℕ
  last [] = none
  last (i ∷ []) = some i
  last (i ∷ j ∷ is) = last (j ∷ is)

  -- `self.paths[last] >= *file` for the last position of `order`.
  last_ge : Index P → P → Bool
  last_ge k p = elim (last k.order) [
    | none ↦ false
    | some i ↦ elim (get_path k.paths i) [ none ↦ false | some q ↦ le p q ]
  ]

  pub position : Index P → P → Index P × ℕ
  unfolding lookup last_ge
  position k p = elim (lookup p k.index) [
    | some i ↦ (k, i)
    | none ↦ (
      record {
        index = (p, length k.paths) ∷ k.index;
        paths = k.paths ++ p ∷ [];
        order = k.order ++ length k.paths ∷ [];
        sorted = k.sorted && not (last_ge k p);
      },
      length k.paths,
    )
  ]

  pub positions : Index P → List P → Index P × List ℕ
  unfolding position
  positions k [] = (k, [])
  positions k (p ∷ ps) =
      let (k', i) = position k p in let (k'', is) = positions k' ps in (k'', i ∷ is)

-- `is_sorted_by(|a, b| a < b)`.
pub is_increasing : List ℕ → Bool
is_increasing [] = true
is_increasing (a ∷ []) = true
is_increasing (a ∷ b ∷ rest) = ltb a b && is_increasing (b ∷ rest)

insert_sorted : ℕ → List ℕ → List ℕ
insert_sorted a [] = a ∷ []
insert_sorted a (b ∷ bs) = if leb a b then a ∷ b ∷ bs else b ∷ insert_sorted a bs

-- `sort_unstable`.
sort : List ℕ → List ℕ
unfolding insert_sorted
sort [] = []
sort (a ∷ as') = insert_sorted a (sort as')

-- `dedup`: of equal neighbours the first stays.
dedup : List ℕ → List ℕ
dedup [] = []
dedup (a ∷ []) = a ∷ []
dedup (a ∷ b ∷ rest) = let tail = dedup (b ∷ rest) in if a == b then tail else a ∷ tail

pub normal : List ℕ → List ℕ
unfolding is_increasing sort dedup
normal is = if is_increasing is then is else dedup (sort is)

-- The table together with the locks that jobs hold.
pub record System (P : Type 0) : Type 0 where
  pub table : Table P
  pub held : List Held

pub held_of : List Waiter → List Held
held_of [] = []
held_of (w ∷ ws) = record { mode = w.mode; files = w.files } ∷ held_of ws

pub remove_at : ℕ → List Held → List Held
remove_at k [] = []
remove_at zero (h ∷ hs) = hs
remove_at (suc k) (h ∷ hs) = h ∷ remove_at k hs

pub get_held : ℕ → List Held → Option Held
get_held k [] = none
get_held zero (h ∷ hs) = some h
get_held (suc k) (h ∷ hs) = get_held k hs

-- `Wait::drop` of a request that is still in the queue.
pub cancel : ℕ → List Waiter → List Waiter
cancel id [] = []
cancel id (w ∷ ws) = if w.id == id then ws else w ∷ cancel id ws

module _ {P : Type 0} (eq le : P → P → Bool) where
  pub resolve : Table P → List P → Table P × List ℕ
  unfolding positions normal
  resolve t ps = let (k, is) = positions eq le t.known ps in (record t { known = k }, normal is)

  -- `start`, with the locks taken.
  pub granted : System P → Table P → List ℕ → Mode → System P
  unfolding hold
  granted s t fs mode = record {
    table = record t { locks = hold t.locks fs mode };
    held = record { mode = mode; files = fs } ∷ s.held;
  }

  -- `try_read` and `try_write`; the result says whether the locks were taken.
  pub try_lock : System P → List P → Mode → System P × Bool
  unfolding resolve can_start granted
  try_lock s ps mode =
      let (t, fs) = resolve s.table ps in
      if can_start t.locks fs mode
      then (granted s t fs mode, true)
      else (record s { table = t }, false)

  pub enqueue : Table P → List ℕ → Mode → Table P
  enqueue t fs mode = record t {
    queue = t.queue ++ record { id = t.next_id; mode = mode; files = fs } ∷ [];
    next_id = t.next_id + 1;
  }

  -- `read_locks` and `write_locks` up to the wait.
  pub lock : System P → List P → Mode → System P
  unfolding resolve can_start granted enqueue
  lock s ps mode =
      let (t, fs) = resolve s.table ps in
      if can_start t.locks fs mode
      then granted s t fs mode
      else record s { table = enqueue t fs mode }

  -- `Held::drop` of the `k`-th holder, or `Wait::drop` of a request granted in the meantime.
  pub drop_held : System P → ℕ → System P
  unfolding release wake held_of remove_at get_held
  drop_held s k = elim (get_held k s.held) [
    | none ↦ s
    | some h ↦
        let w = wake (release s.table.locks h.files h.mode) s.table.queue in
        record {
          table = record (s.table) { locks = w.locks; queue = w.waiting };
          held = held_of w.started ++ remove_at k s.held;
        }
  ]

  pub drop_wait : System P → ℕ → System P
  unfolding cancel
  drop_wait s id = record s { table = record (s.table) { queue = cancel id s.table.queue } }

  -- `add_files`.
  pub add_files : System P → List P → System P
  unfolding positions
  add_files s ps = record s {
    table = record (s.table) { known = (positions eq le s.table.known ps).0 };
  }

abbrev pub no_locks : Locks
no_locks = record { readers = λ _. 0; writer = λ _. false; writes = λ _. 0 }

-- `FileRwLocks::new` without files, which `add_files` brings in.
abbrev pub initial : {P : Type 0} → System P
initial = record {
  table = record {
    known = record { index = []; paths = []; order = []; sorted = true };
    locks = no_locks;
    queue = [];
    next_id = 0;
  };
  held = [];
}
