-- ===== src/DiffLines/Tests.antt =====
-- Inputs for the marking of diff lines: a hunk that removes a line starting with two dashes.
use hk.Prelude.{◌≡◌, refl, false, some, List, [], ◌∷◌, ◌++◌, Bytes, codes}
use hk.DiffLines.{hunk_lengths, split_line_ending, kind_of, mark}
use hk.DiffLines.Bodies.{all_inside, mark-hunk}

abbrev header : Bytes
header = codes "@@ -3,2 +3 @@ fn f\r\n"

abbrev body : List Bytes
body = codes "--- x\n" ∷ codes " y\n" ∷ []

abbrev rest : List Bytes
rest = codes "--- a/file\n" ∷ []

lengths : hunk_lengths (split_line_ending header).0 ≡ some (2, 1)
unfolding hunk_lengths split_line_ending
lengths = refl

mark-hunk_example :
    mark (0, 0) (header ∷ body ++ rest) ≡ (header, false) ∷ all_inside body ++ mark (0, 0) rest
unfolding hunk_lengths split_line_ending kind_of
mark-hunk_example = mark-hunk header body rest (refl, (refl, tt)) refl
