-- ===== src/Restore.antt =====
-- src/git.rs, `resolve_restore_text` and `merge_step_change`: what is written to the worktree where the
-- stashed changes are restored over what the steps left. Texts are bytes; `none` is a file that is
-- absent or no text, and an outer `none` would be a panic of the merge.
mod Text
mod Edits
mod Tests
use hk.Prelude.{
  ℕ, ◌+◌, Bool, true, false, ◌&&◌, ◌||◌, not, Option, none, some, List, [], ◌∷◌, ◌++◌, Bytes,
  newline, bytes_eq, strip_prefix, is_empty, length, ◌==◌, if◌then◌else◌,
}
use hk.Fixers.Suffix.{init, ends_with, trim_end}
use hk.Merge.{three_way_merge_hunks, hunks_overlap}

-- What the worktree has after the index, if that is all its difference; or nothing where it is the
-- index less its last newline.
unfoldable pub tail_of : Bytes → Bytes → Option Bytes
unfolding strip_prefix ends_with init
tail_of i w = elim (strip_prefix i w) [
  | some tail ↦ some tail
  | none ↦
      if ends_with i newline
      then elim (strip_prefix (init i) w) [ some [] ↦ some [] | some (c ∷ s) ↦ none | none ↦ none ]
      else none
]

abbrev pub append_tail : Bytes → Option Bytes → Option Bytes → Option Bytes
append_tail f none merged = merged
append_tail f (some tail) merged = some (f ++ tail)

abbrev pub combine : Option Bytes → Option Bytes → Option Bytes → Option Bytes → Option Bytes
combine (some i) (some w) (some f) merged = append_tail f (tail_of i w) merged
combine (some i) (some w) none merged = merged
combine (some i) none fixer merged = merged
combine none work fixer merged = merged

-- Whether one text is the other and a newline.
unfoldable pub is_newline_after : Bytes → Bytes → Bool
unfolding ends_with init bytes_eq
is_newline_after s t = length s + 1 == length t && (ends_with t newline && bytes_eq (init t) s)

unfoldable pub newline_only_change : Option Bytes → Option Bytes → Bool
unfolding is_newline_after
newline_only_change (some i) (some w) = is_newline_after w i || is_newline_after i w
newline_only_change (some i) none = false
newline_only_change none work = false

abbrev is_newline : ℕ → Bool
is_newline c = c == newline

-- The merged text with the final newline of the worktree, where that was all the change.
unfoldable pub keep_newline : Bytes → Bytes → Bytes → Bytes
unfolding ends_with trim_end
keep_newline i w merged =
    if ends_with w newline && not (ends_with i newline)
    then (if ends_with merged newline then merged else merged ++ newline ∷ [])
    else if not (ends_with w newline) && ends_with i newline
    then trim_end is_newline merged
    else merged

unfoldable pub adjust : Option Bytes → Option Bytes → Bytes → Bytes
unfolding keep_newline newline_only_change
adjust (some i) (some w) merged =
    if newline_only_change (some i) (some w) then keep_newline i w merged else merged
adjust (some i) none merged = merged
adjust none work merged = merged

unfoldable pub prefer_fixer : Option Bytes → Option Bytes → Option Bytes → Bytes → Bytes
unfolding newline_only_change bytes_eq
prefer_fixer (some i) (some w) (some f) merged =
    if not (newline_only_change (some i) (some w)) && bytes_eq w i then f else merged
prefer_fixer (some i) (some w) none merged = merged
prefer_fixer (some i) none fixer merged = merged
prefer_fixer none work fixer merged = merged

abbrev pub base_for_merge : Bytes → Option Bytes → Bytes
base_for_merge base none = base
base_for_merge base (some i) = i

unfoldable pub resolve_restore_text :
    Bytes → Option Bytes → Option Bytes → Option Bytes → Option (Bytes × Bool)
unfolding three_way_merge_hunks tail_of adjust prefer_fixer newline_only_change
resolve_restore_text base index work fixer =
    elim (combine index work fixer (three_way_merge_hunks (base_for_merge base index) fixer work)) [
      | none ↦ none
      | some merged ↦
          some (
            prefer_fixer index work fixer (adjust index work merged),
            newline_only_change index work,
          )
    ]

-- What becomes of a file that a step changed and the stash changed too: it is left as it is, with a
-- conflict, or it is written.
pub data StepChange : Type 0 where
  not_text : StepChange
  same_lines : StepChange
  panicked : StepChange
  write_failed : Bytes → StepChange
  written : Bytes → StepChange

abbrev pub write_merged : Bool → Option Bytes → StepChange
write_merged writes none = panicked
write_merged writes (some merged) = if writes then written merged else write_failed merged

-- `merge_step_change`, of the three versions and of whether writing succeeds.
unfoldable pub merge_step_change : Option Bytes → Option Bytes → Option Bytes → Bool → StepChange
unfolding hunks_overlap three_way_merge_hunks
merge_step_change (some index) (some stashed) (some step) writes =
    if hunks_overlap index step stashed
    then same_lines
    else write_merged writes (three_way_merge_hunks index (some step) (some stashed))
merge_step_change (some index) (some stashed) none writes = not_text
merge_step_change (some index) none step writes = not_text
merge_step_change none stashed step writes = not_text
