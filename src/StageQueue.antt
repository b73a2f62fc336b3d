-- ===== src/StageQueue.antt =====
-- src/stage_queue.rs: one `git add` for all the callers that queue files while another one runs.
-- `stage` is modelled by its two critical sections: `queue` up to the release of the mutex, and
-- `finish` from the moment that the caller has it back. The `add` callback is a parameter: a step
-- carries the error that it returns, if any. An `Arc` is a number, and `cells` holds what is set.
pub mod Paths
pub mod Shared
mod Tests
use hk.Prelude.{
  ℕ, zero, suc, ◌+◌, ◌≡◌, ◌↔◌, Bool, true, false, ◌||◌, not, Option, none, some, List, [], ◌∷◌,
  ◌++◌, ◌==◌, if◌then◌else◌,
}

-- The equality of paths.
pub record PathEq (P : Type 0) : Type 0 where
  pub same : P → P → Bool
  pub same_iff : (p q : P) → (same p q ≡ true) ↔ (p ≡ q)

-- What the caller that staged the queue has done: the files that it handed to `add`, and the
-- error that it set in `result`, if `add` failed.
pub record Staged (P : Type 0) : Type 0 where
  pub files : List P
  pub error : Option ℕ

-- A caller between its two critical sections: the files that it asked for, and its `result`.
pub record Caller (P : Type 0) : Type 0 where
  pub asked : List P
  pub cell : ℕ

-- A caller that returned, with its error if it has one.
pub record Returned (P : Type 0) : Type 0 where
  pub caller : Caller P
  pub error : Option ℕ

pub record System (P : Type 0) : Type 0 where
  pub pending : List P  -- `Pending.paths`
  pub current : ℕ  -- the identity of `Pending.result`
  pub cells : ℕ → Option (Staged P)
  pub waiting : List (Caller P)
  pub returned : List (Returned P)

module _ {P : Type 0} (e : PathEq P) where
  unfoldable pub contains : List P → P → Bool
  contains [] p = false
  contains (q ∷ qs) p = e.same q p || contains qs p

  -- `IndexSet::insert` and `IndexSet::extend`.
  abbrev pub insert : List P → P → List P
  insert set p = if contains set p then set else set ++ p ∷ []

  unfoldable pub extend : List P → List P → List P
  unfolding contains
  extend set [] = set
  extend set (p ∷ ps) = extend (insert set p) ps

  -- `paths.retain(|p| !pending.paths.contains(p))`.
  unfoldable pub retain_new : List P → List P → List P
  unfolding contains
  retain_new set [] = []
  retain_new set (p ∷ ps) =
      let rest = retain_new set ps in if contains set p then rest else p ∷ rest

  -- The first critical section of a caller.
  pub queue : System P → List P → System P
  unfolding extend retain_new
  queue s paths = record s {
    pending = extend s.pending (retain_new s.pending paths);
    waiting = record { asked = paths; cell = s.current } ∷ s.waiting;
  }

  pub get_caller : ℕ → List (Caller P) → Option (Caller P)
  get_caller k [] = none
  get_caller zero (c ∷ cs) = some c
  get_caller (suc k) (c ∷ cs) = get_caller k cs

  pub remove_caller : ℕ → List (Caller P) → List (Caller P)
  remove_caller k [] = []
  remove_caller zero (c ∷ cs) = cs
  remove_caller (suc k) (c ∷ cs) = c ∷ remove_caller k cs

  abbrev pub set_cell : (ℕ → Option (Staged P)) → ℕ → Staged P → ℕ → Option (Staged P)
  set_cell cells c v d = if d == c then some v else cells d

  -- `std::mem::take` of the queue, the call of `add` and `result.set`.
  stage_all : System P → Caller P → Option ℕ → List (Caller P) → System P
  stage_all s c error others = record {
    pending = [];
    current = s.current + 1;
    cells = set_cell s.cells s.current (record { files = s.pending; error = error });
    waiting = others;
    returned = record { caller = c; error = error } ∷ s.returned;
  }

  -- The second critical section of the `k`-th waiting caller; `error` is what `add` would return.
  pub finish : System P → ℕ → Option ℕ → System P
  unfolding get_caller remove_caller stage_all
  finish s k error = elim (get_caller k s.waiting) [
    | none ↦ s
    | some c ↦ elim (s.cells c.cell) [
      | none ↦ stage_all s c error (remove_caller k s.waiting)
      | some staged ↦ record s {
        waiting = remove_caller k s.waiting;
        returned = record { caller = c; error = staged.error } ∷ s.returned;
      }
    ]
  ]

abbrev pub initial : {P : Type 0} → System P
initial = record { pending = []; current = 0; cells = λ _. none; waiting = []; returned = [] }
