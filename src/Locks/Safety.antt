-- ===== src/Locks/Safety.antt =====
-- src/file_rw_locks.rs: what holds in every state that calls and drops can reach, in any order.
use hk.Prelude.{
  ℕ, ◌≤◌, ◌<◌, ◌≡◌, refl, subst, ◌∙◌, inl, inr, Bool, true, false, some, List, [], ◌∷◌, ◌++◌, arith,
  ◌==◌, if_cases, Option-cases,
}
use hk.Locks.{
  Mode, read, write, Held, Locks, Waiter, Table, System, hold, release, can_start, get_held,
  remove_at, resolve, granted, try_lock, enqueue, lock, drop_held, drop_wait, cancel, add_files,
  initial,
}
use hk.Locks.Counts.{reads, writers, release-read, release-write, writers-remove_at, occurs-elem}
use hk.Locks.Wake.{
  Inv, hold-Inv, release-Inv, wake-Inv, AllBlocked, AllBlocked-mono, hold-Below, wake-AllBlocked,
  wake-writes,
}

can_start-free :
    (l : Locks) (fs : List ℕ) (mode : Mode)
    → ((f : ℕ) → l.writer f ≡ false)
    → ((f : ℕ) → l.readers f ≡ 0)
    → can_start l fs mode ≡ true
unfolding can_start
can_start-free l [] mode a b = refl
can_start-free l (f ∷ fs) read a b = ground (arith, a f, can_start-free l fs read a b)
can_start-free l (f ∷ fs) write a b = ground (arith, a f, b f, can_start-free l fs write a b)

AllBlocked-free :
    (l : Locks) (ws : List Waiter)
    → ((f : ℕ) → l.writer f ≡ false)
    → ((f : ℕ) → l.readers f ≡ 0)
    → AllBlocked l ws
    → ws ≡ []
AllBlocked-free l [] a b c = refl
AllBlocked-free l (w ∷ ws) a b c = cc (can_start-free l w.files w.mode a b, c.0)

release-writes_of_reader :
    (l : Locks) (held : List Held)
    → Inv l held
    → (f k : ℕ) (h : Held) → get_held k held ≡ some h
    → 0 < reads f held
    → (release l h.files h.mode).writes f ≡ l.writes f
release-writes_of_reader l held v f k h e pos = go h.mode refl
  where
    go : (m : Mode) → h.mode ≡ m → (release l h.files m).writes f ≡ l.writes f
    go read q = (release-read f l h.files).2
    go write q = ground (
      arith,
      release-write f l h.files,
      v.writing f,
      v.reading f,
      v.apart f,
      writers-remove_at f k held h e,
      occurs-elem f h.files,
    )

-- The calls that change the table: a request that does not wait, one that may, the end of a
-- holder, the end of a waiting task, and new files.
module _ {P : Type 0} (eq le : P → P → Bool) where
  pub data Step (s : System P) : System P → Type 0 where
    tries : (ps : List P) (mode : Mode) → Step s (try_lock eq le s ps mode).0
    locks : (ps : List P) (mode : Mode) → Step s (lock eq le s ps mode)
    drops : (k : ℕ) → Step s (drop_held eq le s k)
    cancels : (id : ℕ) → Step s (drop_wait eq le s id)
    adds : (ps : List P) → Step s (add_files eq le s ps)

  pub data Reach : System P → Type 0 where
    start : Reach initial
    next : {s t : System P} → Reach s → Step s t → Reach t

  record Good (s : System P) : Type 0 where
    counts : Inv s.table.locks s.held
    blocked : AllBlocked s.table.locks s.table.queue

  resolve-locks :
      (t : Table P) (ps : List P)
      → ((resolve eq le t ps).0.locks ≡ t.locks) × ((resolve eq le t ps).0.queue ≡ t.queue)
  unfolding resolve
  resolve-locks t ps = (refl, refl)

  granted-Good :
      (s : System P) (t : Table P) (fs : List ℕ) (mode : Mode)
      → Inv t.locks s.held
      → AllBlocked t.locks t.queue
      → can_start t.locks fs mode ≡ true
      → Good (granted eq le s t fs mode)
  unfolding granted
  granted-Good s t fs mode v b c = record {
    counts = hold-Inv t.locks s.held fs mode v c;
    blocked = AllBlocked-mono t.locks (hold t.locks fs mode) t.queue (hold-Below t.locks fs mode) b;
  }

  AllBlocked-append :
      (l : Locks) (ws : List Waiter) (w : Waiter)
      → AllBlocked l ws
      → can_start l w.files w.mode ≡ false
      → AllBlocked l (ws ++ w ∷ [])
  AllBlocked-append l [] w a c = (c, tt)
  AllBlocked-append l (x ∷ ws) w (a, as') c = (a, AllBlocked-append l ws w as' c)

  AllBlocked-cancel :
      (l : Locks) (id : ℕ) (ws : List Waiter) → AllBlocked l ws → AllBlocked l (cancel id ws)
  unfolding cancel
  AllBlocked-cancel l id [] a = tt
  AllBlocked-cancel l id (w ∷ ws) (a, as') =
      if_cases {A = List Waiter} (AllBlocked l) (w.id == id) _ _ (λ _. as')
        λ _. (a, AllBlocked-cancel l id ws as')

  Step-Good : {s t : System P} → Step s t → Good s → Good t
  unfolding try_lock lock drop_held drop_wait add_files resolve enqueue
  Step-Good {s} (tries ps mode) g =
      if_cases {A = System P × Bool} (λ r. Good r.0)
        (can_start s.table.locks (resolve eq le s.table ps).1 mode) _ _
        (granted-Good s (resolve eq le s.table ps).0 _ mode g.counts g.blocked)
        λ _. record { counts = g.counts; blocked = g.blocked }
  Step-Good {s} (locks ps mode) g =
      if_cases {A = System P} Good (can_start s.table.locks (resolve eq le s.table ps).1 mode) _ _
        (granted-Good s (resolve eq le s.table ps).0 _ mode g.counts g.blocked)
        λ c. record {
          counts = g.counts;
          blocked = AllBlocked-append s.table.locks s.table.queue _ g.blocked c;
        }
  Step-Good {s} (drops k) g = elim (Option-cases (get_held k s.held)) [
    | inl e ↦ rw (e, drop_held) g
    | inr (h, e) ↦
        rw (e, drop_held)
          (record {
            counts =
                wake-Inv (release s.table.locks h.files h.mode) s.table.queue (remove_at k s.held)
                  (release-Inv s.table.locks s.held k h g.counts e);
            blocked = wake-AllBlocked (release s.table.locks h.files h.mode) s.table.queue;
          })
  ]
  Step-Good {s} (cancels id) g = record {
    counts = g.counts;
    blocked = AllBlocked-cancel s.table.locks id s.table.queue g.blocked;
  }
  Step-Good {s} (adds ps) g = record { counts = g.counts; blocked = g.blocked }

  Reach-Good : {s : System P} → Reach s → Good s
  unfolding reads writers
  Reach-Good start = record {
    counts = record { reading = λ f. refl; writing = λ f. refl; apart = λ f e. refl };
    blocked = tt;
  }
  Reach-Good (next r st) = Step-Good st (Reach-Good r)

  -- In every reachable state a file has at most one job with a write lock on it, and then no job
  -- with a read lock.
  pub mutual_exclusion :
      {s : System P}
      → Reach s
      → (f : ℕ) → (writers f s.held ≤ 1) × (writers f s.held ≡ 1 → reads f s.held ≡ 0)
  mutual_exclusion {s} r f =
      let v = (Reach-Good r).counts in
      (ground (arith, v.writing f), λ e. ground (arith, v.writing f, v.apart f, v.reading f))

  -- In every reachable state `can_start` is false for each waiting job: no wake-up was missed.
  pub waiting-blocked : {s : System P} → Reach s → AllBlocked s.table.locks s.table.queue
  waiting-blocked r = (Reach-Good r).blocked

  -- In every reachable state, if no job holds a lock then no job waits.
  pub no_deadlock : {s : System P} → Reach s → s.held ≡ [] → s.table.queue ≡ []
  unfolding reads writers
  no_deadlock {s} r e =
      let g = Reach-Good r in
      let v = subst (Inv s.table.locks) e g.counts in
      AllBlocked-free s.table.locks s.table.queue (λ f. ground (arith, v.writing f)) v.reading
        g.blocked

  -- In every reachable state where a job holds a read lock on `f`, dropping any holder leaves the
  -- count of released write locks on `f` as it is.
  pub write_count-stable :
      {s : System P}
      → Reach s
      → (f k : ℕ) → 0 < reads f s.held
      → (drop_held eq le s k).table.locks.writes f ≡ s.table.locks.writes f
  unfolding drop_held
  write_count-stable {s} r f k h = elim (Option-cases (get_held k s.held)) [
    | inl e ↦ rw (e, drop_held)
    | inr (g, e) ↦
        rw (e, drop_held)
          (wake-writes f (release s.table.locks g.files g.mode) s.table.queue
            ∙ release-writes_of_reader s.table.locks s.held (Reach-Good r).counts f k g e h)
  ]
