-- ===== src/Merge/Tests.antt =====
-- src/merge.rs: runs at concrete inputs.
use hk.Prelude.{◌≡◌, refl, some, true, codes, Bytes, List, length, split_inclusive, concat}
use hk.Merge.{Hunk, fixer, worktree, diff_hunks, three_way_merge_hunks, hunks_overlap}
use hk.Merge.Hunks.{patched, InOrder}
use hk.Merge.RoundTrip.{patched-diff_hunks}
use hk.Merge.Choice.{of_source}
use hk.Merge.Verdict.{merge-keeps_worktree, merge-keeps_both}

abbrev base_text : Bytes
base_text = codes "a\nb\nc\n"

abbrev fixed_text : Bytes
fixed_text = codes "A\nb\nc\n"

abbrev work_text : Bytes
work_text = codes "a\nb\nc\nd\n"

both_changes_kept :
    three_way_merge_hunks base_text (some fixed_text) (some work_text) ≡ some (codes "A\nb\nc\nd\n")
unfolding three_way_merge_hunks concat
both_changes_kept = refl

overlap_found : hunks_overlap base_text fixed_text (codes "B\nb\nc\n") ≡ true
unfolding hunks_overlap
overlap_found = refl

patched-diff_hunks_example :
    concat (patched 0 (split_inclusive base_text) (diff_hunks base_text work_text worktree))
    ≡ work_text
patched-diff_hunks_example = patched-diff_hunks base_text work_text worktree

merge-keeps_worktree_example :
    (hs : List Hunk) × (three_way_merge_hunks base_text (some fixed_text) (some work_text)
      ≡ some (concat (patched 0 (split_inclusive base_text) hs)))
    × InOrder 0 0 (length (split_inclusive base_text)) hs
    × (of_source worktree hs ≡ diff_hunks base_text work_text worktree)
merge-keeps_worktree_example = merge-keeps_worktree base_text fixed_text work_text

merge-keeps_both_example :
    (hs : List Hunk) × (three_way_merge_hunks base_text (some fixed_text) (some work_text)
      ≡ some (concat (patched 0 (split_inclusive base_text) hs)))
    × (of_source fixer hs ≡ diff_hunks base_text fixed_text fixer)
    × (of_source worktree hs ≡ diff_hunks base_text work_text worktree)
unfolding hunks_overlap
merge-keeps_both_example = merge-keeps_both base_text fixed_text work_text refl
