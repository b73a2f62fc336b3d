-- ===== src/WorktreeStatus/Agreement.antt =====
-- src/git.rs, `from_entries` and `from_entries_libgit2` on the same entries.
use hk.Prelude.{
  ℕ, ◌≡◌, refl, ap, ap₂, sym, subst, ◌∙◌, Bool, true, false, ◌&&◌, ◌||◌, not, Option, none, some,
  List, [], ◌∷◌, arith, Bytes, ◌==◌, if◌then◌else◌, if_cases,
}
use hk.WorktreeStatus.{
  StatusEntry, SkippedPaths, GitStatus, default_status, insert_if, classify, classify_all,
  from_entries, is_added_only, renamed_from, classify_libgit2, round_libgit2, from_entries_libgit2,
}

-- The letters of a side of the index: unchanged, M, T, A, R or D; and of the worktree: unchanged, M, T or D.
abbrev pub is_index_letter : ℕ → Bool
is_index_letter x = x == 32 || (x == 77 || (x == 84 || (x == 65 || (x == 82 || x == 68))))

abbrev pub is_worktree_letter : ℕ → Bool
is_worktree_letter y = y == 32 || (y == 77 || (y == 84 || y == 68))

-- An entry that is not unmerged, a copy, or made by `git add -N`, of a path that exists unless it is deleted
-- in the index or the worktree.
abbrev pub is_ordinary : Bool → StatusEntry → Bool
is_ordinary exists e =
    not e.unmerged
    && ((exists && (e.index == 63 && e.worktree == 63))
        || (is_index_letter e.index
            && (is_worktree_letter e.worktree
                && (if exists
                    then not (e.index == 68 || e.worktree == 68)
                    else e.index == 68 || e.worktree == 68))))

abbrev pub AllOrdinary : (Bytes → Bool) → List StatusEntry → Type 0
AllOrdinary path_exists [] = Unit
AllOrdinary path_exists (e ∷ es) =
    (is_ordinary (path_exists e.path) e ≡ true) × AllOrdinary path_exists es

-- Every list but those of modified and of copied files.
pub record Agree (s t : GitStatus) : Type 0 where
  pub unstaged : s.unstaged_files ≡ t.unstaged_files
  pub staged : s.staged_files ≡ t.staged_files
  pub untracked : s.untracked_files ≡ t.untracked_files
  pub staged_added : s.staged_added_files ≡ t.staged_added_files
  pub staged_deleted : s.staged_deleted_files ≡ t.staged_deleted_files
  pub staged_renamed : s.staged_renamed_files ≡ t.staged_renamed_files
  pub unstaged_modified : s.unstaged_modified_files ≡ t.unstaged_modified_files
  pub unstaged_deleted : s.unstaged_deleted_files ≡ t.unstaged_deleted_files
  pub unstaged_renamed : s.unstaged_renamed_files ≡ t.unstaged_renamed_files
  pub intent_to_add : s.intent_to_add_files ≡ t.intent_to_add_files
  pub unmerged : s.unmerged_files ≡ t.unmerged_files

insert_if-none : {s t : List Bytes} (b : Bool) (p : Bytes) → b ≡ false → s ≡ t → insert_if b p s ≡ t
insert_if-none {s = s} b p e h = ap (λ b. insert_if b p s) e ∙ h

classify-Agree :
    (exists empty : Bool) (e : StatusEntry) (s t : GitStatus)
    → is_ordinary exists e ≡ true
    → Agree s t
    → Agree (classify exists e s) (classify_libgit2 exists empty none e t)
unfolding classify classify_libgit2
classify-Agree exists empty e s t o h = record {
  unstaged = ap₂ (λ b s. insert_if b e.path s) (ground (arith, o)) h.unstaged;
  staged = ap₂ (λ b s. insert_if b e.path s) (ground (arith, o)) h.staged;
  untracked = ap₂ (λ b s. insert_if b e.path s) (ground (arith, o)) h.untracked;
  staged_added = ap₂ (λ b s. insert_if b e.path s) (ground (arith, o)) h.staged_added;
  staged_deleted = ap₂ (λ b s. insert_if b e.path s) (ground (arith, o)) h.staged_deleted;
  staged_renamed = ap₂ (λ b s. insert_if b e.path s) (ground (arith, o)) h.staged_renamed;
  unstaged_modified = ap₂ (λ b s. insert_if b e.path s) (ground (arith, o)) h.unstaged_modified;
  unstaged_deleted = ap₂ (λ b s. insert_if b e.path s) (ground (arith, o)) h.unstaged_deleted;
  unstaged_renamed =
      insert_if-none (e.worktree == 82) e.path (ground (arith, o)) h.unstaged_renamed;
  intent_to_add = ap₂ (λ b s. insert_if b e.path s) (ground (arith, o)) h.intent_to_add;
  unmerged = insert_if-none (e.unmerged && exists) e.path (ground (arith, o)) h.unmerged;
}

module _ (path_exists is_empty_file is_utf8 : Bytes → Bool) where
  renamed_from-ordinary :
      (exists : Bool) (e : StatusEntry) (orig : Option Bytes) (skipped : SkippedPaths)
      → is_ordinary exists e ≡ true
      → renamed_from is_utf8 e orig skipped ≡ (none, skipped)
  renamed_from-ordinary exists e none skipped o = refl
  renamed_from-ordinary exists e (some orig) skipped o =
      let h : (is_added_only e && e.worktree == 82) ≡ false = ground (arith, o) in rw h refl

  round-ordinary :
      (e : StatusEntry) (t : GitStatus) (skipped : SkippedPaths)
      → is_ordinary (path_exists e.path) e ≡ true
      → round_libgit2 path_exists is_empty_file is_utf8 e (t, skipped)
        ≡ (classify_libgit2 (path_exists e.path) (is_empty_file e.path) none e t, skipped)
  round-ordinary e t skipped o =
      if_cases {A = GitStatus × SkippedPaths}
        (λ r. r ≡ (classify_libgit2 (path_exists e.path) (is_empty_file e.path) none e t, skipped))
        e.unmerged _ _ (λ u. absurd (ground (arith, o)))
        (λ u.
          ap (λ r. (classify_libgit2 (path_exists e.path) (is_empty_file e.path) r.0 e t, r.1))
            (renamed_from-ordinary (path_exists e.path) e e.orig_path skipped o))

  all-Agree :
      (es : List StatusEntry) (s t : GitStatus) (skipped : SkippedPaths)
      → AllOrdinary path_exists es
      → Agree s t
      → Agree
          (classify_all path_exists es s)
          (from_entries_libgit2 path_exists is_empty_file is_utf8 es (t, skipped)).0
  unfolding classify_all from_entries_libgit2
  all-Agree [] s t skipped os h = h
  all-Agree (e ∷ es) s t skipped (o, os) h =
      subst
        (λ acc.
          Agree (classify_all path_exists (e ∷ es) s)
            (from_entries_libgit2 path_exists is_empty_file is_utf8 es acc).0)
        (sym (round-ordinary e t skipped o))
        (all-Agree es (classify (path_exists e.path) e s)
          (classify_libgit2 (path_exists e.path) (is_empty_file e.path) none e t) skipped os
          (classify-Agree (path_exists e.path) (is_empty_file e.path) e s t o h))

-- For entries that are neither unmerged, copies nor made by `git add -N`, of paths that exist unless they are
-- deleted in the index or the worktree, git's classification and libgit2's give the same lists of unstaged,
-- staged, untracked, added, deleted, renamed and conflicted files.
pub from_entries-Agree :
    (path_exists is_empty_file is_utf8 : Bytes → Bool) (es : List StatusEntry)
    (skipped : SkippedPaths)
    → AllOrdinary path_exists es
    → Agree
        (from_entries path_exists es)
        (from_entries_libgit2 path_exists is_empty_file is_utf8 es (default_status, skipped)).0
from_entries-Agree path_exists is_empty_file is_utf8 es skipped os =
    all-Agree path_exists is_empty_file is_utf8 es default_status default_status skipped os
      (record {
        unstaged = refl;
        staged = refl;
        untracked = refl;
        staged_added = refl;
        staged_deleted = refl;
        staged_renamed = refl;
        unstaged_modified = refl;
        unstaged_deleted = refl;
        unstaged_renamed = refl;
        intent_to_add = refl;
        unmerged = refl;
      })
