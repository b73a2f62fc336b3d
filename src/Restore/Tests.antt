-- ===== src/Restore/Tests.antt =====
-- src/git.rs: restores at concrete texts.
use hk.Prelude.{
  none, strip_prefix, ◌≡◌, refl, ◌⊎◌, true, false, some, ◌++◌, ◌∷◌, [], codes, Bytes, newline,
  concat,
}
use hk.Fixers.Suffix.{ends_with}
use hk.Restore.{
  newline_only_change, resolve_restore_text, is_newline_after, merge_step_change, same_lines,
}
use hk.Restore.Edits.{
  WorkKept, resolve-keeps_work, resolve-unchanged, resolve-loses_newline, Merged,
  merge_step_change-Merged,
}

abbrev staged : Bytes
staged = codes "a\nb\nc\n"

abbrev stashed : Bytes
stashed = codes "a\nb\nc\nd\n"

abbrev fixed : Bytes
fixed = codes "A\nb\nc\n"

tail_restored :
    resolve_restore_text [] (some staged) (some stashed) (some fixed)
    ≡ some (codes "A\nb\nc\nd\n", false)
unfolding resolve_restore_text concat
tail_restored = refl

newline_dropped :
    resolve_restore_text [] (some staged) (some (codes "a\nb\nc")) (some fixed)
    ≡ some (codes "A\nb\nc", true)
unfolding resolve_restore_text concat
newline_dropped = refl

same_lines_found :
    merge_step_change (some staged) (some (codes "B\nb\nc\n")) (some fixed) true ≡ same_lines
unfolding merge_step_change
same_lines_found = refl

resolve-keeps_work_example :
    ((tail : Bytes) × (stashed ≡ staged ++ tail)
      × (resolve_restore_text [] (some staged) (some stashed) (some fixed)
          ≡ some (fixed ++ tail, false)))
    ⊎ ((strip_prefix staged stashed ≡ none)
        × ((merged : Bytes) × WorkKept staged stashed merged
            × (resolve_restore_text [] (some staged) (some stashed) (some fixed)
                ≡ some (merged, false))))
unfolding newline_only_change
resolve-keeps_work_example = resolve-keeps_work [] staged stashed fixed refl

resolve-unchanged_example :
    resolve_restore_text [] (some staged) (some (codes "a\nb\nc")) (some staged)
    ≡ some (codes "a\nb\nc", newline_only_change (some staged) (some (codes "a\nb\nc")))
unfolding is_newline_after ends_with
resolve-unchanged_example = resolve-unchanged [] staged (codes "a\nb\nc") (λ _. refl)

resolve-loses_newline_example :
    resolve_restore_text []
      (some (codes "a\n" ++ newline ∷ []))
      (some (codes "a\n"))
      (some (codes "b\n\n"))
    ≡ some (codes "b\n\n", true)
unfolding ends_with
resolve-loses_newline_example = resolve-loses_newline [] (codes "a\n") (codes "b\n\n") refl

merge_step_change-Merged_example :
    Merged
      (some staged)
      (some stashed)
      (some fixed)
      true
      (merge_step_change (some staged) (some stashed) (some fixed) true)
merge_step_change-Merged_example =
    merge_step_change-Merged (some staged) (some stashed) (some fixed) true
