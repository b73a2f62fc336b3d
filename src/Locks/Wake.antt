-- ===== src/Locks/Wake.antt =====
-- src/file_rw_locks.rs: the invariant between the table and the jobs that hold locks, and what
-- `hold`, `release` and `wake` do to it.
use hk.Prelude.{
  ℕ, ◌≡◌, refl, sym, ◌∙◌, true, false, some, List, [], ◌∷◌, ◌++◌, arith, if◌then◌else◌, if_cases,
}
use hk.Locks.{
  Mode, read, write, Held, Locks, Waiter, Woken, hold, release, can_start, wake, held_of, get_held,
  remove_at,
}
use hk.Locks.Counts.{
  reads, writers, reads-append, writers-append, reads-remove_at, writers-remove_at, occurs-elem,
  hold-read, hold-write, release-read, release-write, can_start-elem,
}

-- The table counts exactly the locks held, and no file has a writer beside another holder.
pub record Inv (l : Locks) (held : List Held) : Type 0 where
  pub reading : (f : ℕ) → l.readers f ≡ reads f held
  pub writing : (f : ℕ) → writers f held ≡ (if l.writer f then 1 else 0)
  pub apart : (f : ℕ) → l.writer f ≡ true → l.readers f ≡ 0

pub hold-Inv :
    (l : Locks) (held : List Held) (fs : List ℕ) (mode : Mode)
    → Inv l held
    → can_start l fs mode ≡ true
    → Inv (hold l fs mode) (record { mode = mode; files = fs } ∷ held)
hold-Inv l held fs read v c = record {
  reading = λ f. unfold reads in ground (arith, hold-read f l fs, v.reading f);
  writing = λ f. unfold writers in ground (arith, hold-read f l fs, v.writing f);
  apart = λ f e.
      ground (arith, hold-read f l fs, v.apart f, can_start-elem f l fs read c, occurs-elem f fs);
}
hold-Inv l held fs write v c = record {
  reading = λ f. unfold reads in ground (arith, hold-write f l fs, v.reading f);
  writing = λ f.
      unfold writers in
      ground (arith, hold-write f l fs, v.writing f, can_start-elem f l fs write c);
  apart = λ f e. ground (arith, hold-write f l fs, v.apart f, can_start-elem f l fs write c);
}

pub release-Inv :
    (l : Locks) (held : List Held) (k : ℕ) (h : Held)
    → Inv l held
    → get_held k held ≡ some h
    → Inv (release l h.files h.mode) (remove_at k held)
release-Inv l held k h v e = go h.mode refl
  where
    go : (m : Mode) → h.mode ≡ m → Inv (release l h.files m) (remove_at k held)
    go read q = record {
      reading =
          λ f. ground (arith, release-read f l h.files, v.reading f, reads-remove_at f k held h e);
      writing = λ f.
          ground (arith, release-read f l h.files, v.writing f, writers-remove_at f k held h e);
      apart = λ f p. ground (arith, release-read f l h.files, v.apart f);
    }
    go write q = record {
      reading =
          λ f. ground (arith, release-write f l h.files, v.reading f, reads-remove_at f k held h e);
      writing = λ f.
          ground (arith, release-write f l h.files, v.writing f, writers-remove_at f k held h e);
      apart = λ f p. ground (arith, release-write f l h.files, v.apart f);
    }

-- The invariant sees the holders only through the counts.
Inv-same :
    (l : Locks) (xs ys : List Held)
    → ((f : ℕ) → reads f xs ≡ reads f ys)
    → ((f : ℕ) → writers f xs ≡ writers f ys)
    → Inv l xs
    → Inv l ys
Inv-same l xs ys p q v = record {
  reading = λ f. v.reading f ∙ p f;
  writing = λ f. sym (q f) ∙ v.writing f;
  apart = v.apart;
}

pub wake-Inv :
    (l : Locks) (ws : List Waiter) (held : List Held)
    → Inv l held
    → Inv (wake l ws).locks (held_of (wake l ws).started ++ held)
unfolding wake held_of
wake-Inv l [] held v = v
wake-Inv l (w ∷ ws) held v =
    if_cases {A = Woken} (λ r. Inv r.locks (held_of r.started ++ held)) (can_start l w.files w.mode)
      _ _
      (λ c.
        let now : Held = record { mode = w.mode; files = w.files } in
        let r = wake (hold l w.files w.mode) ws in
        Inv-same _ (held_of r.started ++ now ∷ held) (now ∷ (held_of r.started ++ held))
          (λ f.
            unfold reads in
            omega (
              arith,
              reads-append f (held_of r.started) (now ∷ held),
              reads-append f (held_of r.started) held,
            ))
          (λ f.
            unfold writers in
            omega (
              arith,
              writers-append f (held_of r.started) (now ∷ held),
              writers-append f (held_of r.started) held,
            ))
          (wake-Inv (hold l w.files w.mode) ws (now ∷ held) (hold-Inv l held w.files w.mode v c)))
      λ _. wake-Inv l ws held v

-- `m` has every lock that `l` has.
abbrev pub Below : Locks → Locks → Type 0
Below l m =
    (f : ℕ) → ((m.writer f ≡ false) → l.writer f ≡ false) × ((m.readers f ≡ 0) → l.readers f ≡ 0)

pub can_start_mono :
    (l m : Locks) (fs : List ℕ) (mode : Mode)
    → Below l m
    → can_start l fs mode ≡ false
    → can_start m fs mode ≡ false
unfolding can_start
can_start_mono l m [] mode b h = h
can_start_mono l m (f ∷ fs) read b h = ground (arith, b f, can_start_mono l m fs read b)
can_start_mono l m (f ∷ fs) write b h = ground (arith, b f, can_start_mono l m fs write b)

pub hold-Below : (l : Locks) (fs : List ℕ) (mode : Mode) → Below l (hold l fs mode)
hold-Below l fs read f =
    (λ h. ground (arith, hold-read f l fs), λ h. ground (arith, hold-read f l fs))
hold-Below l fs write f =
    (λ h. ground (arith, hold-write f l fs), λ h. ground (arith, hold-write f l fs))

Below-trans : (l m k : Locks) → Below l m → Below m k → Below l k
Below-trans l m k p q f = (λ h. (p f).0 ((q f).0 h), λ h. (p f).1 ((q f).1 h))

wake-Below : (l : Locks) (ws : List Waiter) → Below l (wake l ws).locks
unfolding wake
wake-Below l [] = λ f. (λ h. h, λ h. h)
wake-Below l (w ∷ ws) =
    if_cases {A = Woken} (λ r. Below l r.locks) (can_start l w.files w.mode) _ _
      (λ c.
        Below-trans l (hold l w.files w.mode) (wake (hold l w.files w.mode) ws).locks
          (hold-Below l w.files w.mode) (wake-Below (hold l w.files w.mode) ws))
      λ _. wake-Below l ws

-- Every waiting job conflicts with a job that holds locks.
abbrev pub AllBlocked : Locks → List Waiter → Type 0
AllBlocked l [] = Unit
AllBlocked l (w ∷ ws) = (can_start l w.files w.mode ≡ false) × AllBlocked l ws

pub AllBlocked-mono :
    (l m : Locks) (ws : List Waiter) → Below l m → AllBlocked l ws → AllBlocked m ws
AllBlocked-mono l m [] b a = tt
AllBlocked-mono l m (w ∷ ws) b (a, as') =
    (can_start_mono l m w.files w.mode b a, AllBlocked-mono l m ws b as')

pub wake-AllBlocked :
    (l : Locks) (ws : List Waiter) → AllBlocked (wake l ws).locks (wake l ws).waiting
unfolding wake
wake-AllBlocked l [] = tt
wake-AllBlocked l (w ∷ ws) =
    if_cases {A = Woken} (λ r. AllBlocked r.locks r.waiting) (can_start l w.files w.mode) _ _
      (λ c. wake-AllBlocked (hold l w.files w.mode) ws)
      λ c. (can_start_mono l _ w.files w.mode (wake-Below l ws) c, wake-AllBlocked l ws)

pub wake-writes : (f : ℕ) (l : Locks) (ws : List Waiter) → (wake l ws).locks.writes f ≡ l.writes f
unfolding wake
wake-writes f l [] = refl
wake-writes f l (w ∷ ws) =
    if_cases {A = Woken} (λ r. r.locks.writes f ≡ l.writes f) (can_start l w.files w.mode) _ _
      (λ c. wake-writes f (hold l w.files w.mode) ws ∙ hold-writes w.mode) λ _. wake-writes f l ws
  where
    hold-writes : (m : Mode) → (hold l w.files m).writes f ≡ l.writes f
    hold-writes read = (hold-read f l w.files).2
    hold-writes write = (hold-write f l w.files).2
