-- ===== src/WorktreeStatus/Changes.antt =====
-- src/git.rs, `has_unstaged_changes` of a status as `Git::status` reads it.
use hk.Prelude.{
  any-append, ◌≡◌, refl, ap, ap₂, sym, ◌∙◌, inl, inr, Bool, true, false, ◌&&◌, ◌||◌, not, Option,
  none, some, List, [], ◌∷◌, arith, Bytes, any, is_empty, ◌==◌, if◌then◌else◌, if_cases, Bool-cases,
}
use hk.WorktreeStatus.{
  StatusEntry, SkippedPaths, GitStatus, default_status, insert_path, insert_if,
  has_unstaged_changes, set_skipped, is_modified, classify, classify_all, from_entries,
  is_added_only, utf8_path, renamed_from, worktree_side, classify_libgit2, classify_unmerged,
  round_libgit2, from_entries_libgit2,
}
use hk.WorktreeStatus.Parsing.{no_skipped, Parsed, parse_porcelain_status}
use hk.WorktreeStatus.Printed.{
  Record, AllRecords, NoNul, printed_lines, printed_status, status_entry, entries, add_entry,
  is_worktree_changed, parse_porcelain_status-printed,
}

module _ (repo : Bool) (path_exists is_empty_file is_utf8 : Bytes → Bool) where
  abbrev pub classified : List StatusEntry → SkippedPaths → GitStatus
  classified es skipped =
      if repo
      then set_skipped
          (from_entries_libgit2 path_exists is_empty_file is_utf8 es (default_status, skipped)).1
          (from_entries_libgit2 path_exists is_empty_file is_utf8 es (default_status, skipped)).0
      else set_skipped skipped (from_entries path_exists es)

  abbrev pub of_parsed : Parsed → Option GitStatus
  of_parsed none = none
  of_parsed (some (es, skipped)) = some (classified es skipped)

  -- `status_with_untracked` from what git prints; `repo` is whether hk uses libgit2.
  abbrev pub status_of_output : Bytes → Option GitStatus
  status_of_output output = of_parsed (parse_porcelain_status is_utf8 output no_skipped)

-- Whether an entry with a valid path is a change to stash.
abbrev pub shows_git : Bool → Bool → StatusEntry → Bool
shows_git exists include_untracked e =
    exists && (is_modified e.worktree || (include_untracked && e.worktree == 63))

abbrev pub shows_libgit2 : Bool → Bool → StatusEntry → Bool
shows_libgit2 exists include_untracked e =
    if e.unmerged
    then exists
    else (exists && is_worktree_changed e) || (include_untracked && e.worktree == 63)

abbrev pub shows : Bool → Bool → Bool → StatusEntry → Bool
shows true exists include_untracked e = shows_libgit2 exists include_untracked e
shows false exists include_untracked e = shows_git exists include_untracked e

abbrev pub shows_skipped : Bool → StatusEntry → Bool
shows_skipped include_untracked e = is_worktree_changed e || (include_untracked && e.worktree == 63)

is_empty-insert_path : (p : Bytes) (s : List Bytes) → is_empty (insert_path p s) ≡ false
unfolding insert_path any
is_empty-insert_path p [] = refl
is_empty-insert_path p (q ∷ s) = ground arith

is_empty-insert_if :
    (b : Bool) (p : Bytes) (s : List Bytes) → is_empty (insert_if b p s) ≡ (not b && is_empty s)
is_empty-insert_if true p s = is_empty-insert_path p s
is_empty-insert_if false p s = refl

module _ (include_untracked : Bool) where
  has_unstaged_changes-classify :
      (exists : Bool) (e : StatusEntry) (s : GitStatus)
      → has_unstaged_changes include_untracked (classify exists e s)
        ≡ (has_unstaged_changes include_untracked s || shows_git exists include_untracked e)
  unfolding has_unstaged_changes classify
  has_unstaged_changes-classify exists e s =
      let x = e.index in
      let y = e.worktree in
      let a = is_empty-insert_if (is_modified y && exists) e.path s.unstaged_files in
      let b =
        is_empty-insert_if ((x == 32 || x == 68) && ((y == 65 || y == 82) && exists)) e.path
          s.intent_to_add_files in
      let c = is_empty-insert_if (y == 63 && exists) e.path s.untracked_files in
      ground (arith, a, b, c)

  has_unstaged_changes-classify_unmerged :
      (exists : Bool) (e : StatusEntry) (s : GitStatus)
      → has_unstaged_changes include_untracked (classify_unmerged exists e s)
        ≡ (has_unstaged_changes include_untracked s || exists)
  unfolding has_unstaged_changes classify_unmerged
  has_unstaged_changes-classify_unmerged exists e s =
      ground (arith, is_empty-insert_if exists e.path s.unstaged_files)

  has_unstaged_changes-classify_libgit2 :
      (exists empty : Bool) (orig : Option Bytes) (e : StatusEntry) (s : GitStatus)
      → has_unstaged_changes include_untracked (classify_libgit2 exists empty orig e s) ≡ (
          has_unstaged_changes include_untracked s
          || ((exists && is_worktree_changed e) || (include_untracked && e.worktree == 63)))
  unfolding has_unstaged_changes classify_libgit2
  has_unstaged_changes-classify_libgit2 exists empty orig e s =
      let y = worktree_side empty e in
      let a = is_empty-insert_if (exists && not (y == 32 || y == 63)) e.path s.unstaged_files in
      let b =
        is_empty-insert_if
          ((e.index == 32 || e.index == 68) && ((e.worktree == 65 || e.worktree == 82) && exists))
          e.path s.intent_to_add_files in
      let c = is_empty-insert_if (y == 63) e.path s.untracked_files in ground (arith, a, b, c)

or_assoc : (a b c : Bool) → ((a || b) || c) ≡ (a || (b || c))
or_assoc true b c = refl
or_assoc false b c = refl

and_false : (a : Bool) → (a && false) ≡ false
and_false true = refl
and_false false = refl

or_true : (a : Bool) → (a || false) ≡ a
or_true true = refl
or_true false = refl

module _ (include_untracked : Bool) (path_exists is_empty_file is_utf8 : Bytes → Bool) where
  has_unstaged_changes-classify_all :
      (es : List StatusEntry) (s : GitStatus)
      → has_unstaged_changes include_untracked (classify_all path_exists es s) ≡ (
          has_unstaged_changes include_untracked s
          || any (λ e. shows_git (path_exists e.path) include_untracked e) es)
  unfolding classify_all any
  has_unstaged_changes-classify_all [] s = sym (or_true _)
  has_unstaged_changes-classify_all (e ∷ es) s =
      has_unstaged_changes-classify_all es (classify (path_exists e.path) e s)
      ∙ ap (λ b. b || any (λ e. shows_git (path_exists e.path) include_untracked e) es)
          (has_unstaged_changes-classify include_untracked (path_exists e.path) e s)
      ∙ or_assoc (has_unstaged_changes include_untracked s) _ _

  round_libgit2-changes :
      (e : StatusEntry) (s : GitStatus) (skipped : SkippedPaths)
      → has_unstaged_changes include_untracked
          (round_libgit2 path_exists is_empty_file is_utf8 e (s, skipped)).0
        ≡ (has_unstaged_changes include_untracked s
            || shows_libgit2 (path_exists e.path) include_untracked e)
  unfolding classify_unmerged classify_libgit2
  round_libgit2-changes e s skipped = elim (Bool-cases e.unmerged) [
    | inl u ↦
        rw u (has_unstaged_changes-classify_unmerged include_untracked (path_exists e.path) e s)
    | inr u ↦ rw u (
        has_unstaged_changes-classify_libgit2 include_untracked (path_exists e.path)
          (is_empty_file e.path) (renamed_from is_utf8 e e.orig_path skipped).0 e s)
  ]

  from_entries_libgit2-changes :
      (es : List StatusEntry) (s : GitStatus) (skipped : SkippedPaths)
      → has_unstaged_changes include_untracked
          (from_entries_libgit2 path_exists is_empty_file is_utf8 es (s, skipped)).0
        ≡ (has_unstaged_changes include_untracked s
            || any (λ e. shows_libgit2 (path_exists e.path) include_untracked e) es)
  unfolding from_entries_libgit2 any
  from_entries_libgit2-changes [] s skipped = sym (or_true _)
  from_entries_libgit2-changes (e ∷ es) s skipped =
      let next = round_libgit2 path_exists is_empty_file is_utf8 e (s, skipped) in
      from_entries_libgit2-changes es next.0 next.1
      ∙ ap (λ b. b || any (λ e. shows_libgit2 (path_exists e.path) include_untracked e) es)
          (round_libgit2-changes e s skipped)
      ∙ or_assoc (has_unstaged_changes include_untracked s) _ _

  abbrev SkippedFlags : Type 0
  SkippedFlags = Bool × Bool

  abbrev flags : SkippedPaths → SkippedFlags
  flags s = (s.unstaged, s.untracked)

  renamed_from-flags :
      (e : StatusEntry) (orig : Option Bytes) (skipped : SkippedPaths)
      → flags (renamed_from is_utf8 e orig skipped).1 ≡ flags skipped
  renamed_from-flags e none skipped = refl
  renamed_from-flags e (some orig) skipped =
      if_cases {A = Option Bytes × SkippedPaths} (λ r. flags r.1 ≡ flags skipped)
        (is_added_only e && e.worktree == 82) _ _ (λ _. utf8_path-flags (is_utf8 orig) orig)
        (λ _. refl)
    where
      utf8_path-flags : (b : Bool) (p : Bytes) → flags (utf8_path b p skipped).1 ≡ flags skipped
      utf8_path-flags true p = refl
      utf8_path-flags false p = refl

  round_libgit2-flags :
      (e : StatusEntry) (s : GitStatus) (skipped : SkippedPaths)
      → flags (round_libgit2 path_exists is_empty_file is_utf8 e (s, skipped)).1 ≡ flags skipped
  round_libgit2-flags e s skipped =
      if_cases {A = GitStatus × SkippedPaths} (λ r. flags r.1 ≡ flags skipped) e.unmerged _ _
        (λ _. refl) (λ _. renamed_from-flags e e.orig_path skipped)

  from_entries_libgit2-flags :
      (es : List StatusEntry) (s : GitStatus) (skipped : SkippedPaths)
      → flags (from_entries_libgit2 path_exists is_empty_file is_utf8 es (s, skipped)).1
        ≡ flags skipped
  unfolding from_entries_libgit2
  from_entries_libgit2-flags [] s skipped = refl
  from_entries_libgit2-flags (e ∷ es) s skipped =
      let next = round_libgit2 path_exists is_empty_file is_utf8 e (s, skipped) in
      from_entries_libgit2-flags es next.0 next.1 ∙ round_libgit2-flags e s skipped

module _ (repo include_untracked : Bool) (path_exists is_empty_file is_utf8 : Bytes → Bool) where
  -- Whether a record is a change to stash.
  abbrev pub shows_record : Record → Bool
  shows_record r =
      if is_utf8 (status_entry r).path
      then shows repo (path_exists (status_entry r).path) include_untracked (status_entry r)
      else shows_skipped include_untracked (status_entry r)

  abbrev shows_entry : StatusEntry → Bool
  shows_entry e = shows repo (path_exists e.path) include_untracked e

  abbrev shows_acc : List StatusEntry × SkippedPaths → Bool
  shows_acc (es, skipped) =
      any shows_entry es || (skipped.unstaged || (include_untracked && skipped.untracked))

  add_entry-shows :
      (r : Record) (acc : List StatusEntry × SkippedPaths)
      → shows_acc (add_entry (is_utf8 (status_entry r).path) (status_entry r) acc)
        ≡ (shows_acc acc || shows_record r)
  unfolding any
  add_entry-shows r (es, skipped) = go (is_utf8 (status_entry r).path)
    where
      go :
          (b : Bool)
          → shows_acc (add_entry b (status_entry r) (es, skipped)) ≡ (
              shows_acc (es, skipped)
              || (if b
                  then shows_entry (status_entry r)
                  else shows_skipped include_untracked (status_entry r)))
      go true = ground (arith, any-append shows_entry es (status_entry r ∷ []))
      go false = ground arith

  entries-shows :
      (rs : List Record) (acc : List StatusEntry × SkippedPaths)
      → shows_acc (entries is_utf8 rs acc) ≡ (shows_acc acc || any shows_record rs)
  unfolding entries any
  entries-shows [] acc = sym (or_true (shows_acc acc))
  entries-shows (r ∷ rs) acc =
      entries-shows rs (add_entry (is_utf8 (status_entry r).path) (status_entry r) acc)
      ∙ ap (λ b. b || any shows_record rs) (add_entry-shows r acc)
      ∙ or_assoc (shows_acc acc) (shows_record r) (any shows_record rs)

  has_unstaged_changes-set_skipped :
      (skipped : SkippedPaths) (s : GitStatus)
      → has_unstaged_changes include_untracked (set_skipped skipped s) ≡ (
          has_unstaged_changes include_untracked s
          || (skipped.unstaged || (include_untracked && skipped.untracked)))
  unfolding has_unstaged_changes
  has_unstaged_changes-set_skipped skipped s = ground arith

module _ (include_untracked : Bool) (path_exists is_empty_file is_utf8 : Bytes → Bool) where
  has_unstaged_changes-classified :
      (repo : Bool) (es : List StatusEntry) (skipped : SkippedPaths)
      → has_unstaged_changes include_untracked
          (classified repo path_exists is_empty_file is_utf8 es skipped)
        ≡ (any (λ e. shows repo (path_exists e.path) include_untracked e) es
            || (skipped.unstaged || (include_untracked && skipped.untracked)))
  unfolding has_unstaged_changes
  has_unstaged_changes-classified true es skipped =
      let read =
        from_entries_libgit2 path_exists is_empty_file is_utf8 es (default_status, skipped) in
      let e =
        from_entries_libgit2-flags include_untracked path_exists is_empty_file is_utf8 es
          default_status skipped in
      has_unstaged_changes-set_skipped true include_untracked path_exists is_empty_file is_utf8
        read.1 read.0
      ∙ ap₂ (λ a f. a || (f.0 || (include_untracked && f.1)))
          (from_entries_libgit2-changes include_untracked path_exists is_empty_file is_utf8 es
            default_status skipped)
          e
      ∙ ap
          (λ b.
            (b || any (λ e. shows_libgit2 (path_exists e.path) include_untracked e) es)
            || (skipped.unstaged || (include_untracked && skipped.untracked)))
          (and_false include_untracked)
  has_unstaged_changes-classified false es skipped =
      has_unstaged_changes-set_skipped false include_untracked path_exists is_empty_file is_utf8
        skipped (from_entries path_exists es)
      ∙ ap (λ b. b || (skipped.unstaged || (include_untracked && skipped.untracked)))
          (has_unstaged_changes-classify_all include_untracked path_exists is_empty_file is_utf8 es
              default_status
            ∙ ap (λ b. b || any (λ e. shows_git (path_exists e.path) include_untracked e) es)
                (and_false include_untracked))

-- What git prints of records with all fields and no NUL in them is read, and the status has changes to stash
-- exactly if one of the records is such a change: a record whose path is not valid UTF-8 and that is changed
-- in the worktree (or untracked, where untracked files are included), or one whose path is valid and that the
-- classification in use counts.
pub has_unstaged_changes-printed :
    (repo include_untracked : Bool) (path_exists is_empty_file is_utf8 : Bytes → Bool)
    (rs : List Record)
    → AllRecords rs
    → NoNul (printed_lines rs)
    → (s : GitStatus) × (status_of_output repo path_exists is_empty_file is_utf8 (printed_status rs)
        ≡ some s)
      × (has_unstaged_changes include_untracked s
          ≡ any (shows_record repo include_untracked path_exists is_empty_file is_utf8) rs)
unfolding any
has_unstaged_changes-printed repo include_untracked path_exists is_empty_file is_utf8 rs h n =
    let acc = entries is_utf8 rs ([], no_skipped) in
    (
      classified repo path_exists is_empty_file is_utf8 acc.0 acc.1,
      ap (of_parsed repo path_exists is_empty_file is_utf8)
          (parse_porcelain_status-printed is_utf8 rs no_skipped h n),
      has_unstaged_changes-classified include_untracked path_exists is_empty_file is_utf8 repo acc.0
            acc.1
          ∙ entries-shows repo include_untracked path_exists is_empty_file is_utf8 rs
              ([], no_skipped)
          ∙ ap
              (λ b.
                b || any (shows_record repo include_untracked path_exists is_empty_file is_utf8) rs)
              (and_false include_untracked),
    )
