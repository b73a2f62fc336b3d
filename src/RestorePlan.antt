-- ===== src/RestorePlan.antt =====
-- src/git.rs, `restore_plan`: which paths of a stash can be restored over what the steps left. Paths are
-- bytes. The two trees of the stash, the files on disk and `std::path`'s parents of a path are parameters.
mod Safe
mod Tests
use hk.Prelude.{
  ℕ, Bool, true, false, ◌&&◌, ◌||◌, not, Option, none, some, List, [], ◌∷◌, ◌++◌, Bytes, bytes_eq,
  any, filter, map, ◌==◌, if◌then◌else◌,
}

-- What is at a path; a regular file may be executable.
pub data Metadata : Type 0 where
  directory : Metadata
  link : Metadata
  file : Bool → Metadata
  special : Metadata

-- A mode and an object name.
abbrev pub TreeEntry : Type 0
TreeEntry = ℕ × Bytes

pub record Worktree : Type 0 where
  pub metadata : Bytes → Option Metadata
  pub link_has : Bytes → Bytes → Bool
  pub hash : Bytes → Bytes
  pub parents : Bytes → List Bytes
  pub index : Bytes → Option TreeEntry
  pub stashed : Bytes → Option TreeEntry
  pub file_mode : Bool

abbrev pub is_dir : Metadata → Bool
is_dir directory = true
is_dir _ = false

abbrev pub is_link : Metadata → Bool
is_link link = true
is_link _ = false

abbrev pub is_file : Metadata → Bool
is_file (file x) = true
is_file _ = false

abbrev pub is_executable : Metadata → Bool
is_executable (file x) = x
is_executable _ = false

-- The modes 100644 and 100755.
abbrev pub is_regular : ℕ → Bool
is_regular mode = mode == 33188 || mode == 33261

abbrev pub is_regular_entry : Option TreeEntry → Bool
is_regular_entry none = false
is_regular_entry (some (mode, object)) = is_regular mode

-- The hash of a regular file that one of the trees has as a regular file.
unfoldable pub hash_of : Worktree → Bytes → Metadata → Option Bytes
hash_of w p m =
    if (is_regular_entry (w.index p) || is_regular_entry (w.stashed p)) && is_file m
    then some (w.hash p)
    else none

abbrev pub names_object : Option Bytes → Bytes → Bool
names_object none object = false
names_object (some h) object = bytes_eq h object

abbrev pub executable_matches : Metadata → ℕ → Bool
executable_matches m mode = if is_executable m then mode == 33261 else not (mode == 33261)

abbrev pub entry_matches : Worktree → Bytes → Option TreeEntry → Option Metadata → Bool
entry_matches w p none none = true
entry_matches w p none (some m) = false
entry_matches w p (some e) none = false
entry_matches w p (some (mode, object)) (some m) =
    if mode == 16384
    then is_dir m
    else if mode == 40960
    then is_link m && w.link_has p object
    else if is_regular mode
    then is_file m
      && ((not w.file_mode || executable_matches m mode) && names_object (hash_of w p m) object)
    else true

-- `WorktreeMatcher::matches`.
unfoldable pub matches : Worktree → Bytes → Option TreeEntry → Bool
unfolding hash_of bytes_eq
matches w p entry = entry_matches w p entry (w.metadata p)

-- A path to restore, with its modes in the index and in the worktree when it is tracked.
pub record ToRestore : Type 0 where
  pub path : Bytes
  pub modes : Option (ℕ × ℕ)
  pub mergeable : Bool

-- The changes that a stash set aside.
pub record StashedChanges : Type 0 where
  pub modes : List (Bytes × (ℕ × ℕ))
  pub untracked : List Bytes
  pub unnamed_untracked : List Bytes
  pub unnamed_modes : List (Bytes × (ℕ × ℕ))

abbrev pub tracked : Bool → Bytes × (ℕ × ℕ) → ToRestore
tracked mergeable (path, modes) = record { path = path; modes = some modes; mergeable = mergeable }

abbrev pub untracked_path : Bytes → ToRestore
untracked_path path = record { path = path; modes = none; mergeable = false }

abbrev pub is_not_skipped : List Bytes → Bytes × (ℕ × ℕ) → Bool
is_not_skipped skip (path, modes) = not (any (bytes_eq path) skip)

unfoldable pub to_restore : StashedChanges → List Bytes → List ToRestore
unfolding filter any bytes_eq
to_restore s skip =
    map (tracked true) (filter (is_not_skipped skip) s.modes)
    ++ (map (tracked false) s.unnamed_modes
        ++ (map untracked_path s.untracked ++ map untracked_path s.unnamed_untracked))

pub data Reason : Type 0 where
  parent_changed : Bytes → Reason
  path_changed : Reason

pub record RestorePlan : Type 0 where
  pub unchanged : List Bytes
  pub conflicts : List (Bytes × Reason)
  pub merged : List Bytes

abbrev pub is_at : Bytes → Bytes × Reason → Bool
is_at p (q, r) = bytes_eq p q

-- Whether restoring leaves a path alone.
unfoldable pub skips : RestorePlan → Bytes → Bool
unfolding any
skips plan p = any (bytes_eq p) plan.unchanged || any (is_at p) plan.conflicts

-- The first parent that a step changed; what is under a parent that is not there does not exist either.
unfoldable pub changed_parent : Worktree → List Bytes → Option Bytes
unfolding matches
changed_parent w [] = none
changed_parent w (p ∷ ps) =
    let later = changed_parent w ps in
    elim (w.metadata p) [
      | none ↦ none
      | some m ↦ if not (is_dir m) && not (matches w p (w.index p)) then some p else later
    ]

abbrev pub has_file : Option Metadata → Bool
has_file none = false
has_file (some m) = is_file m

abbrev pub has_regular_modes : Option (ℕ × ℕ) → Bool
has_regular_modes none = false
has_regular_modes (some (old, new)) = is_regular old && is_regular new

-- Whether a step's change to a path is merged with the stashed edits.
abbrev pub can_merge : Worktree → ToRestore → Bool
can_merge w t = t.mergeable && (has_regular_modes t.modes && has_file (w.metadata t.path))

abbrev pub add_conflict : Bytes → Reason → RestorePlan → RestorePlan
add_conflict p r plan = record plan { conflicts = (p, r) ∷ plan.conflicts }

-- One round of `restore_plan`'s loop.
unfoldable pub plan_path : Worktree → ToRestore → RestorePlan → RestorePlan
unfolding changed_parent matches
plan_path w t plan = elim (changed_parent w (w.parents t.path)) [
  | some p ↦ add_conflict t.path (parent_changed p) plan
  | none ↦
      if matches w t.path (w.stashed t.path)
      then record plan { unchanged = t.path ∷ plan.unchanged }
      else if matches w t.path (w.index t.path)
      then plan
      else if can_merge w t
      then record plan { merged = t.path ∷ plan.merged }
      else add_conflict t.path path_changed plan
]

unfoldable pub plan_paths : Worktree → List ToRestore → RestorePlan → RestorePlan
unfolding plan_path
plan_paths w [] plan = plan
plan_paths w (t ∷ ts) plan = plan_paths w ts (plan_path w t plan)

abbrev pub empty_plan : RestorePlan
empty_plan = record { unchanged = []; conflicts = []; merged = [] }

abbrev pub restore_plan : Worktree → StashedChanges → List Bytes → RestorePlan
restore_plan w s skip = plan_paths w (to_restore s skip) empty_plan
