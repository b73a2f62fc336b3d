-- ===== src/Locks/Tests.antt =====
-- src/file_rw_locks.rs: runs and instances over numbered paths.
use hk.Prelude.{ℕ, ◌≤◌, ◌≡◌, refl, Bool, [], ◌∷◌, ◌==◌, leb}
use hk.Locks.{read, write, System, lock, drop_held, initial}
use hk.Locks.Counts.{reads, writers}
use hk.Locks.Wake.{AllBlocked}
use hk.Locks.Safety.{
  Reach, start, next, locks, drops, mutual_exclusion, waiting-blocked, no_deadlock,
}

abbrev eq_path : ℕ → ℕ → Bool
eq_path a b = a == b

-- One job writes file 7; a second waits to read 7 and 8.
abbrev one_writer : System ℕ
one_writer = lock eq_path leb initial (7 ∷ []) write

abbrev one_waiting : System ℕ
one_waiting = lock eq_path leb one_writer (7 ∷ 8 ∷ []) read

-- The writer is done, and the second job has started.
abbrev one_reader : System ℕ
one_reader = drop_held eq_path leb one_waiting 0

waiting_queue : one_waiting.table.queue ≡ record { id = 0; mode = read; files = 0 ∷ 1 ∷ [] } ∷ []
unfolding lock
waiting_queue = refl

reader_started : one_reader.held ≡ record { mode = read; files = 0 ∷ 1 ∷ [] } ∷ []
unfolding lock drop_held
reader_started = refl

Reach-one_waiting : Reach eq_path leb one_waiting
Reach-one_waiting = next (next start (locks (7 ∷ []) write)) (locks (7 ∷ 8 ∷ []) read)

Reach-one_reader : Reach eq_path leb one_reader
Reach-one_reader = next Reach-one_waiting (drops 0)

mutual_exclusion_example :
    (writers 0 one_waiting.held ≤ 1)
    × (writers 0 one_waiting.held ≡ 1 → reads 0 one_waiting.held ≡ 0)
mutual_exclusion_example = mutual_exclusion eq_path leb Reach-one_waiting 0

waiting-blocked_example : AllBlocked one_waiting.table.locks one_waiting.table.queue
waiting-blocked_example = waiting-blocked eq_path leb Reach-one_waiting

-- After the reader is done too, nothing is held.
no_deadlock_example : (drop_held eq_path leb one_reader 0).table.queue ≡ []
unfolding lock drop_held
no_deadlock_example = no_deadlock eq_path leb (next Reach-one_reader (drops 0)) refl
