-- ===== src/StageQueue/Shared.antt =====
-- src/stage_queue.rs: what every caller of `stage` gets, however the callers interleave.
use hk.Prelude.{
  ℕ, zero, suc, ◌≤◌, ◌≡◌, refl, ◌⊎◌, inl, inr, Option, none, some, List, [], ◌∷◌, arith,
  Option-cases, subst,
}
use hk.StageQueue.{
  PathEq, Staged, Caller, Returned, System, retain_new, queue, get_caller, remove_caller, set_cell,
  stage_all, finish, initial,
}
use hk.StageQueue.Paths.{AllIn, AllIn-queue, AllIn-extend}

module _ {P : Type 0} (e : PathEq P) where
  -- A caller queues its files, or one that waits has the mutex back.
  pub data Step (s : System P) : System P → Type 0 where
    queues : (paths : List P) → Step s (queue e s paths)
    finishes : (k : ℕ) (error : Option ℕ) → Step s (finish e s k error)

  pub data Reach : System P → Type 0 where
    start : Reach initial
    next : {s t : System P} → Reach s → Step s t → Reach t

  -- A waiting caller's files are still queued under its own cell, or an `add` had them all.
  abbrev pub Waits : System P → Caller P → Type 0
  Waits s c =
      ((c.cell ≡ s.current) × AllIn e c.asked s.pending)
      ⊎ ((v : Staged P) × (s.cells c.cell ≡ some v) × AllIn e c.asked v.files)

  abbrev pub AllWait : System P → List (Caller P) → Type 0
  AllWait s [] = Unit
  AllWait s (c ∷ cs) = Waits s c × AllWait s cs

  -- A caller that returned had its files in one call of `add`, and has that call's error.
  abbrev pub Served : System P → Returned P → Type 0
  Served s r =
      (v : Staged P) × (s.cells r.caller.cell ≡ some v)
      × AllIn e r.caller.asked v.files
      × (r.error ≡ v.error)

  abbrev pub AllServed : System P → List (Returned P) → Type 0
  AllServed s [] = Unit
  AllServed s (r ∷ rs) = Served s r × AllServed s rs

  record Inv (s : System P) : Type 0 where
    fresh : (c : ℕ) → s.current ≤ c → s.cells c ≡ none
    waits : AllWait s s.waiting
    served : AllServed s s.returned

  AllWait-queue :
      (s : System P) (paths : List P) (cs : List (Caller P))
      → AllWait s cs
      → AllWait (queue e s paths) cs
  unfolding queue
  AllWait-queue s paths [] a = tt
  AllWait-queue s paths (c ∷ cs) (inl (p, q), a) = (
    inl (p, AllIn-extend e c.asked s.pending (retain_new e s.pending paths) q),
    AllWait-queue s paths cs a,
  )
  AllWait-queue s paths (c ∷ cs) (inr p, a) = (inr p, AllWait-queue s paths cs a)

  AllServed-same :
      (s t : System P) (rs : List (Returned P))
      → ((c : ℕ) (v : Staged P) → s.cells c ≡ some v → t.cells c ≡ some v)
      → AllServed s rs
      → AllServed t rs
  AllServed-same s t [] h a = tt
  AllServed-same s t (r ∷ rs) h ((v, p, q, o), a) =
      ((v, h r.caller.cell v p, q, o), AllServed-same s t rs h a)

  set_cell-keeps :
      (s : System P) (v w : Staged P)
      → ((c : ℕ) → s.current ≤ c → s.cells c ≡ none)
      → (c : ℕ) → s.cells c ≡ some w
      → set_cell e s.cells s.current v c ≡ some w
  set_cell-keeps s v w fresh c h = ground (arith, fresh c)

  AllWait-remove :
      (s : System P) (k : ℕ) (cs : List (Caller P))
      → AllWait s cs
      → AllWait s (remove_caller e k cs)
  unfolding remove_caller
  AllWait-remove s k [] a = tt
  AllWait-remove s zero (c ∷ cs) a = a.1
  AllWait-remove s (suc k) (c ∷ cs) (a, b) = (a, AllWait-remove s k cs b)

  AllWait-get :
      (s : System P) (k : ℕ) (cs : List (Caller P)) (c : Caller P)
      → AllWait s cs
      → get_caller e k cs ≡ some c
      → Waits s c
  unfolding get_caller
  AllWait-get s k [] c a h = cc
  AllWait-get s zero (d ∷ cs) c a h = subst (Waits s) (cc) a.0
  AllWait-get s (suc k) (d ∷ cs) c (a, b) h = AllWait-get s k cs c b h

  -- When the queue is staged, the files of every waiting caller have been handed over.
  AllWait-stage_all :
      (s : System P) (by : Caller P) (error : Option ℕ) (others cs : List (Caller P))
      → ((c : ℕ) → s.current ≤ c → s.cells c ≡ none)
      → AllWait s cs
      → AllWait (stage_all e s by error others) cs
  unfolding stage_all
  AllWait-stage_all s by error others [] fresh a = tt
  AllWait-stage_all s by error others (c ∷ cs) fresh (inl (p, q), a) = (
    inr (record { files = s.pending; error = error }, ground (arith, p), q),
    AllWait-stage_all s by error others cs fresh a,
  )
  AllWait-stage_all s by error others (c ∷ cs) fresh (inr (v, p, q), a) = (
    inr (v, set_cell-keeps s _ v fresh c.cell p, q),
    AllWait-stage_all s by error others cs fresh a,
  )

  -- The caller that stages the queue has its own files in it.
  Served-by_itself :
      (s : System P) (c : Caller P) (error : Option ℕ) (others : List (Caller P))
      → s.cells c.cell ≡ none
      → Waits s c
      → Served (stage_all e s c error others) (record { caller = c; error = error })
  unfolding stage_all
  Served-by_itself s c error others free (inl (p, q)) =
      (record { files = s.pending; error = error }, ground (arith, p), q, refl)
  Served-by_itself s c error others free (inr (v, p, q)) = cc

  -- A caller whose files another one staged.
  Served-by_other :
      (s : System P) (c : Caller P) (v : Staged P)
      → ((d : ℕ) → s.current ≤ d → s.cells d ≡ none)
      → s.cells c.cell ≡ some v
      → Waits s c
      → Served s (record { caller = c; error = v.error })
  Served-by_other s c v fresh set (inl (p, q)) =
      let unset : s.cells c.cell ≡ none = fresh c.cell (omega arith) in cc
  Served-by_other s c v fresh set (inr (w, p, q)) =
      let same : w ≡ v = cc in (v, set, subst (λ x. AllIn e c.asked x.files) same q, refl)

  finish-Inv : (s : System P) (k : ℕ) (error : Option ℕ) → Inv s → Inv (finish e s k error)
  unfolding finish stage_all
  finish-Inv s k error v = elim (Option-cases (get_caller e k s.waiting)) [
    | inl q ↦ rw (q, finish) v
    | inr (c, q) ↦ elim (Option-cases (s.cells c.cell)) [
      | inl free ↦
          rw (q, free, finish)
            (let rest = remove_caller e k s.waiting in
              record {
                fresh = λ d le. ground (arith, v.fresh d);
                waits =
                    AllWait-stage_all s c error rest rest v.fresh
                      (AllWait-remove s k s.waiting v.waits);
                served = (
                  Served-by_itself s c error rest free (AllWait-get s k s.waiting c v.waits q),
                  AllServed-same s (stage_all e s c error rest) s.returned
                      (λ d w h. set_cell-keeps s _ w v.fresh d h) v.served,
                );
              })
      | inr (staged, set) ↦
          rw (q, set, finish)
            (record {
              fresh = v.fresh;
              waits = AllWait-remove s k s.waiting v.waits;
              served = (
                Served-by_other s c staged v.fresh set (AllWait-get s k s.waiting c v.waits q),
                v.served,
              );
            })
    ]
  ]

  Step-Inv : {s t : System P} → Step s t → Inv s → Inv t
  Step-Inv {s} (queues paths) v =
      unfold queue in
      record {
        fresh = v.fresh;
        waits =
            (inl (refl, AllIn-queue e s.pending paths), AllWait-queue s paths s.waiting v.waits);
        served = AllServed-same s (queue e s paths) s.returned (λ c w h. h) v.served;
      }
  Step-Inv {s} (finishes k error) v = finish-Inv s k error v

  Reach-Inv : {s : System P} → Reach s → Inv s
  Reach-Inv start = record { fresh = λ c le. refl; waits = tt; served = tt }
  Reach-Inv (next r st) = Step-Inv st (Reach-Inv r)

  -- In every reachable state each caller that returned had all the files that it asked for in one
  -- call of `add`, and has exactly the error of that call, or none if the call succeeded.
  pub returned-served : {s : System P} → Reach s → AllServed s s.returned
  returned-served r = (Reach-Inv r).served

  -- In every reachable state a waiting caller whose result is not set holds the result of the
  -- current queue, as `stage` asserts before it takes the queue.
  pub unset-current :
      {s : System P}
      → Reach s
      → (k : ℕ) (c : Caller P) → get_caller e k s.waiting ≡ some c
      → s.cells c.cell ≡ none
      → c.cell ≡ s.current
  unset-current {s} r k c q free = unset_waits (AllWait-get s k s.waiting c (Reach-Inv r).waits q)
    where
      unset_waits : Waits s c → c.cell ≡ s.current
      unset_waits (inl (p, _)) = p
      unset_waits (inr (v, p, _)) = cc
