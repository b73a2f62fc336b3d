-- ===== src/Journal/Tests.antt =====
-- Inputs for the recovery of stashed changes: a journal with one entry of each kind.
use hk.Prelude.{
  ◌&&◌, ◌||◌, contains_byte, ◌≡◌, ◌≤◌, ◌⊎◌, refl, true, false, none, some, List, [], ◌∷◌, Bytes,
  codes, bytes_eq, any,
}
use hk.Journal.{
  unstaged, intent_to_add, JournalEntry, Journal, new_journal, starts_differ, owner, StashRow,
  message_pid, is_pid, is_intent_to_add, is_commit, in_stash, has_commit, count_kind, decide,
  unknown_owner_commits,
}
use hk.Journal.Status.{
  StatusEntry, modified, unmodified, printed, is_dirty, status_has_worktree_changes,
  status_has_worktree_changes-printed,
}
use hk.Journal.Recovery.{named, owner-gone, decide-names_recorded, decide-restore}

abbrev entry_a : JournalEntry
entry_a = record { commit = codes "a1"; kind = unstaged }

abbrev entry_b : JournalEntry
entry_b = record { commit = codes "b2"; kind = intent_to_add }

abbrev journal : Journal
journal =
    record (new_journal 7 (some (codes "s")) (some (codes "host")) 0 (codes "pre-commit")
      (codes "/w") (codes "old" ∷ [])) { entries = entry_a ∷ entry_b ∷ [] }

abbrev row_of : Bytes → Bytes → StashRow
row_of c s = record { commit = c; subject = s }

abbrev first_row : StashRow
first_row = row_of (codes "b2") (codes "On main: hk: 7-1-2")

abbrev later_rows : List StashRow
later_rows =
    row_of (codes "a1") (codes "On main: hk: 7-1-1")
    ∷ row_of (codes "old") (codes "WIP on main: x")
    ∷ []

abbrev stash : List StashRow
stash = first_row ∷ later_rows

abbrev with_lost : List StashRow
with_lost = row_of (codes "c3") (codes "On main: hk: 7-1-3") ∷ stash

pid_of_message : message_pid (codes "On main: hk: 7-1-2") ≡ some 7
unfolding message_pid
pid_of_message = refl

listed : unknown_owner_commits journal with_lost ≡ some (codes "a1" ∷ codes "b2" ∷ codes "c3" ∷ [])
unfolding unknown_owner_commits
listed = refl

owner-gone_example :
    (((h : Bytes) × ((some (codes "host") ≡ some h) × (journal.owner_host ≡ some h)))
      × ((false ≡ false) ⊎ (starts_differ journal.pid_start none ≡ true)))
    ⊎ ((journal.owner_host ≡ none)
        × ((false ≡ true) × (starts_differ journal.pid_start none ≡ true)))
unfolding owner
owner-gone_example = owner-gone journal (some (codes "host")) false none refl

decide-names_recorded_example : has_commit (named (decide journal stash false)) (codes "b2") ≡ true
unfolding any in_stash bytes_eq
decide-names_recorded_example = decide-names_recorded journal stash false (codes "b2") refl refl

decide-restore_example :
    (true ≡ true)
    × (any (is_commit (codes "a1")) (entry_a ∷ entry_b ∷ []) ≡ (
        any (is_commit (codes "a1")) journal.entries
        && any (λ (r : StashRow). bytes_eq r.commit (codes "a1")) stash))
    × (count_kind unstaged (entry_a ∷ entry_b ∷ []) ≤ 1)
    × (count_kind intent_to_add (entry_a ∷ entry_b ∷ []) ≤ 1)
    × (((is_pid (message_pid first_row.subject) journal.pid || is_intent_to_add first_row.subject)
          ≡ false)
        ⊎ ((any (λ d. bytes_eq d first_row.commit) journal.stashes_before
              || any (is_commit first_row.commit) journal.entries)
            ≡ true))
unfolding decide
decide-restore_example =
    decide-restore journal [] later_rows first_row true (entry_a ∷ entry_b ∷ []) (codes "a1") refl

abbrev staged_only : StatusEntry
staged_only = record { index = modified; worktree = unmodified; path = codes "a" }

abbrev changed : StatusEntry
changed = record { index = unmodified; worktree = modified; path = codes "b" }

status_has_worktree_changes-printed_example :
    status_has_worktree_changes (printed (staged_only ∷ changed ∷ []))
    ≡ any is_dirty (staged_only ∷ changed ∷ [])
unfolding contains_byte
status_has_worktree_changes-printed_example =
    status_has_worktree_changes-printed (staged_only ∷ changed ∷ []) (refl, (refl, tt))
