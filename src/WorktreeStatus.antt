-- ===== src/WorktreeStatus.antt =====
-- src/git.rs, `GitStatus`: the files of a repository by their state, from the entries of
-- `git status --porcelain=v2`. The order of a `BTreeSet` is not modelled: a set is a list without
-- duplicates. Skipped paths are kept as bytes, not as they are shown. Whether a path exists, is an
-- empty file or is valid UTF-8 are parameters.
mod Parsing
mod Printed
mod Changes
mod Agreement
mod Tests
use hk.Prelude.{
  ℕ, Bool, true, false, ◌&&◌, ◌||◌, not, Option, none, some, List, [], ◌∷◌, ◌++◌, Bytes, bytes_eq,
  any, is_empty, ◌==◌, if◌then◌else◌,
}

-- An entry, with `32` for an unchanged side and `63` on both sides of an untracked path.
pub record StatusEntry : Type 0 where
  pub index : ℕ
  pub worktree : ℕ
  pub unmerged : Bool
  pub rename_modified : Bool
  pub path : Bytes
  pub orig_path : Option Bytes

pub record SkippedPaths : Type 0 where
  pub raw : List Bytes
  pub unstaged : Bool
  pub untracked : Bool

pub record GitStatus : Type 0 where
  pub unstaged_files : List Bytes
  pub staged_files : List Bytes
  pub untracked_files : List Bytes
  pub modified_files : List Bytes
  pub staged_added_files : List Bytes
  pub staged_modified_files : List Bytes
  pub staged_deleted_files : List Bytes
  pub staged_renamed_files : List Bytes
  pub staged_copied_files : List Bytes
  pub unstaged_modified_files : List Bytes
  pub unstaged_deleted_files : List Bytes
  pub unstaged_renamed_files : List Bytes
  pub skipped_unstaged : Bool
  pub skipped_untracked : Bool
  pub intent_to_add_files : List Bytes
  pub unmerged_files : List Bytes

abbrev pub default_status : GitStatus
default_status = record {
  unstaged_files = [];
  staged_files = [];
  untracked_files = [];
  modified_files = [];
  staged_added_files = [];
  staged_modified_files = [];
  staged_deleted_files = [];
  staged_renamed_files = [];
  staged_copied_files = [];
  unstaged_modified_files = [];
  unstaged_deleted_files = [];
  unstaged_renamed_files = [];
  skipped_unstaged = false;
  skipped_untracked = false;
  intent_to_add_files = [];
  unmerged_files = [];
}

-- `BTreeSet::insert`.
unfoldable pub insert_path : Bytes → List Bytes → List Bytes
unfolding any
insert_path p s = if any (bytes_eq p) s then s else p ∷ s

-- An insertion where a test holds.
abbrev pub insert_if : Bool → Bytes → List Bytes → List Bytes
insert_if true p s = insert_path p s
insert_if false p s = s

-- `BTreeSet::extend`.
unfoldable pub insert_all : List Bytes → List Bytes → List Bytes
unfolding insert_path
insert_all s [] = s
insert_all s (p ∷ ps) = insert_all (insert_path p s) ps

unfoldable pub has_unstaged_changes : Bool → GitStatus → Bool
has_unstaged_changes include_untracked s =
    not (is_empty s.unstaged_files)
    || (s.skipped_unstaged
        || (not (is_empty s.intent_to_add_files)
            || (include_untracked && (not (is_empty s.untracked_files) || s.skipped_untracked))))

abbrev pub set_skipped : SkippedPaths → GitStatus → GitStatus
set_skipped skipped s = record s {
  skipped_unstaged = s.skipped_unstaged || skipped.unstaged;
  skipped_untracked = s.skipped_untracked || skipped.untracked;
}

unfoldable pub extend_status : GitStatus → GitStatus → GitStatus
unfolding insert_all
extend_status s other = record {
  unstaged_files = insert_all s.unstaged_files other.unstaged_files;
  staged_files = insert_all s.staged_files other.staged_files;
  untracked_files = insert_all s.untracked_files other.untracked_files;
  modified_files = insert_all s.modified_files other.modified_files;
  staged_added_files = insert_all s.staged_added_files other.staged_added_files;
  staged_modified_files = insert_all s.staged_modified_files other.staged_modified_files;
  staged_deleted_files = insert_all s.staged_deleted_files other.staged_deleted_files;
  staged_renamed_files = insert_all s.staged_renamed_files other.staged_renamed_files;
  staged_copied_files = insert_all s.staged_copied_files other.staged_copied_files;
  unstaged_modified_files = insert_all s.unstaged_modified_files other.unstaged_modified_files;
  unstaged_deleted_files = insert_all s.unstaged_deleted_files other.unstaged_deleted_files;
  unstaged_renamed_files = insert_all s.unstaged_renamed_files other.unstaged_renamed_files;
  skipped_unstaged = s.skipped_unstaged || other.skipped_unstaged;
  skipped_untracked = s.skipped_untracked || other.skipped_untracked;
  intent_to_add_files = insert_all s.intent_to_add_files other.intent_to_add_files;
  unmerged_files = insert_all s.unmerged_files other.unmerged_files;
}

-- The letters M, T, A, R and C.
abbrev pub is_modified : ℕ → Bool
is_modified c = c == 77 || (c == 84 || (c == 65 || (c == 82 || c == 67)))

-- One round of `from_entries`, of an entry whose path exists or not.
unfoldable pub classify : Bool → StatusEntry → GitStatus → GitStatus
unfolding insert_path
classify exists e s =
    let x = e.index in
    let y = e.worktree in
    record s {
      unmerged_files = insert_if (e.unmerged && exists) e.path s.unmerged_files;
      staged_files = insert_if (is_modified x && (not (y == 68) && exists)) e.path s.staged_files;
      staged_added_files = insert_if (x == 65) e.path s.staged_added_files;
      staged_modified_files = insert_if (x == 77 || x == 84) e.path s.staged_modified_files;
      staged_deleted_files = insert_if (x == 68) e.path s.staged_deleted_files;
      staged_renamed_files = insert_if (x == 82) e.path s.staged_renamed_files;
      staged_copied_files = insert_if (x == 67) e.path s.staged_copied_files;
      unstaged_files = insert_if (is_modified y && exists) e.path s.unstaged_files;
      untracked_files = insert_if (y == 63 && exists) e.path s.untracked_files;
      intent_to_add_files =
          insert_if ((x == 32 || x == 68) && ((y == 65 || y == 82) && exists)) e.path
            s.intent_to_add_files;
      modified_files =
          insert_if ((is_modified x || is_modified y) && exists) e.path s.modified_files;
      unstaged_modified_files = insert_if (y == 77 || y == 84) e.path s.unstaged_modified_files;
      unstaged_deleted_files = insert_if (y == 68) e.path s.unstaged_deleted_files;
      unstaged_renamed_files = insert_if (y == 82) e.path s.unstaged_renamed_files;
    }

unfoldable pub classify_all : (Bytes → Bool) → List StatusEntry → GitStatus → GitStatus
unfolding classify
classify_all path_exists [] s = s
classify_all path_exists (e ∷ es) s =
    classify_all path_exists es (classify (path_exists e.path) e s)

abbrev pub from_entries : (Bytes → Bool) → List StatusEntry → GitStatus
from_entries path_exists es = classify_all path_exists es default_status

-- `utf8_path`, of a path and whether it is valid.
abbrev pub utf8_path : Bool → Bytes → SkippedPaths → Option Bytes × SkippedPaths
utf8_path true bytes skipped = (some bytes, skipped)
utf8_path false bytes skipped = (none, record skipped { raw = skipped.raw ++ bytes ∷ [] })

abbrev pub insert_some : Option Bytes → List Bytes → List Bytes
insert_some none s = s
insert_some (some p) s = insert_path p s

-- An entry that is added to the worktree only: one made with `git add -N`.
abbrev pub is_added_only : StatusEntry → Bool
is_added_only e = e.index == 32 && (e.worktree == 65 || e.worktree == 82)

-- The original path of a worktree rename, and the paths skipped so far with it where it is not valid.
abbrev pub renamed_from :
    (Bytes → Bool) → StatusEntry → Option Bytes → SkippedPaths → Option Bytes × SkippedPaths
renamed_from is_utf8 e none skipped = (none, skipped)
renamed_from is_utf8 e (some orig) skipped =
    if is_added_only e && e.worktree == 82
    then utf8_path (is_utf8 orig) orig skipped
    else (none, skipped)

-- The sides of an entry as libgit2 has them.
abbrev pub index_side : StatusEntry → ℕ
index_side e = if is_added_only e then 65 else e.index

abbrev pub worktree_side : Bool → StatusEntry → ℕ
worktree_side empty e = if is_added_only e then (if empty then 32 else 77) else e.worktree

-- One round of `from_entries_libgit2` for an entry that is not unmerged; `orig` is the valid original
-- path of a worktree rename.
unfoldable pub classify_libgit2 : Bool → Bool → Option Bytes → StatusEntry → GitStatus → GitStatus
unfolding insert_path
classify_libgit2 exists empty orig e s =
    let x = index_side e in
    let y = worktree_side empty e in
    record s {
      intent_to_add_files =
          insert_if
            ((e.index == 32 || e.index == 68) && ((e.worktree == 65 || e.worktree == 82) && exists))
            e.path s.intent_to_add_files;
      unstaged_deleted_files =
          insert_if (y == 68) e.path (insert_some orig s.unstaged_deleted_files);
      staged_added_files = insert_if (x == 65 || x == 67) e.path s.staged_added_files;
      staged_modified_files =
          insert_if (x == 77 || (x == 84 || (x == 82 && e.rename_modified))) e.path
            s.staged_modified_files;
      staged_deleted_files = insert_if (x == 68) e.path s.staged_deleted_files;
      staged_renamed_files = insert_if (x == 82) e.path s.staged_renamed_files;
      staged_files = insert_if (not (x == 32 || x == 63) && exists) e.path s.staged_files;
      untracked_files = insert_if (y == 63) e.path s.untracked_files;
      modified_files = insert_if (y == 77 || y == 84) e.path s.modified_files;
      unstaged_modified_files = insert_if (y == 77 || y == 84) e.path s.unstaged_modified_files;
      unstaged_files = insert_if (exists && not (y == 32 || y == 63)) e.path s.unstaged_files;
    }

unfoldable pub classify_unmerged : Bool → StatusEntry → GitStatus → GitStatus
unfolding insert_path
classify_unmerged exists e s = record s {
  staged_files = insert_if exists e.path s.staged_files;
  unmerged_files = insert_if exists e.path s.unmerged_files;
  unstaged_files = insert_if exists e.path s.unstaged_files;
}

abbrev pub round_libgit2 :
    (Bytes → Bool)
    → (Bytes → Bool)
    → (Bytes → Bool)
    → StatusEntry
    → GitStatus × SkippedPaths
    → GitStatus × SkippedPaths
round_libgit2 path_exists is_empty_file is_utf8 e (s, skipped) =
    if e.unmerged
    then (classify_unmerged (path_exists e.path) e s, skipped)
    else let from = renamed_from is_utf8 e e.orig_path skipped in
      (classify_libgit2 (path_exists e.path) (is_empty_file e.path) from.0 e s, from.1)

unfoldable pub from_entries_libgit2 :
    (Bytes → Bool)
    → (Bytes → Bool)
    → (Bytes → Bool)
    → List StatusEntry
    → GitStatus × SkippedPaths
    → GitStatus × SkippedPaths
unfolding classify_libgit2 classify_unmerged
from_entries_libgit2 path_exists is_empty_file is_utf8 [] acc = acc
from_entries_libgit2 path_exists is_empty_file is_utf8 (e ∷ es) acc =
    from_entries_libgit2 path_exists is_empty_file is_utf8 es
      (round_libgit2 path_exists is_empty_file is_utf8 e acc)
