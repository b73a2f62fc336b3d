-- ===== src/WorktreeStatus/Tests.antt =====
-- src/git.rs: statuses at concrete outputs.
use hk.Prelude.{
  split_on, ◌≡◌, refl, Bool, false, none, some, List, [], ◌∷◌, codes, Bytes, bytes_eq, any, not,
  contains_byte,
}
use hk.WorktreeStatus.{
  StatusEntry, GitStatus, default_status, has_unstaged_changes, extend_status, classify_all,
  from_entries, from_entries_libgit2,
}
use hk.WorktreeStatus.Parsing.{no_skipped, parse_lines, parse_porcelain_status}
use hk.WorktreeStatus.Printed.{
  Record, changed, moved, untracked, AllRecords, AllFields, NoNul, printed_lines, printed_status,
  status_entry, entries, parse_porcelain_status-printed,
}
use hk.WorktreeStatus.Changes.{status_of_output, shows_record, has_unstaged_changes-printed}
use hk.WorktreeStatus.Agreement.{Agree, from_entries-Agree}

abbrev names : List Bytes
names =
    codes "N..." ∷ codes "100644" ∷ codes "100644" ∷ codes "100644" ∷ codes "aa" ∷ codes "bb" ∷ []

abbrev score : Bytes
score = codes "R90"

-- A path is valid unless it has the byte 255.
abbrev is_ascii : Bytes → Bool
is_ascii p = not (contains_byte p 255)

abbrev present : Bytes → Bool
present p = not (bytes_eq p (codes "gone"))

abbrev nowhere : Bytes → Bool
nowhere p = false

abbrev records : List Record
records =
    changed 77 46 names (codes "a b")
    ∷ moved 82 46
        (codes "N..." ∷ codes "1" ∷ codes "1" ∷ codes "1" ∷ codes "aa" ∷ codes "bb" ∷ score ∷ [])
        (codes "new") (codes "old")
    ∷ changed 46 77 names (255 ∷ [])
    ∷ untracked (codes "note")
    ∷ []

malformed_refused : parse_porcelain_status is_ascii (codes "1 M") no_skipped ≡ none
unfolding parse_lines split_on
malformed_refused = refl

deleted_and_extended :
    extend_status default_status
      (from_entries present (status_entry (untracked (codes "note")) ∷ []))
    ≡ record default_status { untracked_files = codes "note" ∷ [] }
unfolding extend_status classify_all bytes_eq
deleted_and_extended = refl

names-AllFields : AllFields names
unfolding contains_byte
names-AllFields = (refl, (refl, (refl, (refl, (refl, (refl, tt))))))

records-AllRecords : AllRecords records
unfolding contains_byte
records-AllRecords = (
  (refl, (refl, names-AllFields)),
  (
    (refl, (refl, (refl, (refl, (refl, (refl, (refl, (refl, (refl, tt))))))))),
    ((refl, (refl, names-AllFields)), (tt, tt)),
  ),
)

records-NoNul : NoNul (printed_lines records)
unfolding contains_byte
records-NoNul = (refl, (refl, (refl, (refl, (refl, tt)))))

parse_porcelain_status-printed_example :
    parse_porcelain_status is_ascii (printed_status records) no_skipped
    ≡ some (entries is_ascii records ([], no_skipped))
parse_porcelain_status-printed_example =
    parse_porcelain_status-printed is_ascii records no_skipped records-AllRecords records-NoNul

has_unstaged_changes-printed_example :
    (s : GitStatus) × (status_of_output false present nowhere is_ascii (printed_status records)
      ≡ some s)
    × (has_unstaged_changes false s
        ≡ any (shows_record false false present nowhere is_ascii) records)
has_unstaged_changes-printed_example =
    has_unstaged_changes-printed false false present nowhere is_ascii records records-AllRecords
      records-NoNul

abbrev ordinary : List StatusEntry
ordinary =
    status_entry (changed 77 77 names (codes "a b"))
    ∷ status_entry (changed 46 68 names (codes "gone"))
    ∷ status_entry (untracked (codes "note"))
    ∷ []

from_entries-Agree_example :
    Agree
      (from_entries present ordinary)
      (from_entries_libgit2 present nowhere is_ascii ordinary (default_status, no_skipped)).0
unfolding bytes_eq
from_entries-Agree_example =
    from_entries-Agree present nowhere is_ascii ordinary no_skipped (refl, (refl, (refl, tt)))
