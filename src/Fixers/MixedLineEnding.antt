-- ===== src/Fixers/MixedLineEnding.antt =====
-- src/cli/util/mixed_line_ending.rs: counting the line endings of a file, and rewriting them all as the
-- most frequent one. A loop over `memchr(b'\n', ..)` is a recursion on the segments between the
-- newlines; a file is what `is_dir` and `read` give.
mod Laws
mod Tests
use hk.Prelude.{
  ℕ, ◌+◌, ◌<◌, Bool, true, false, ◌&&◌, Option, none, some, List, [], ◌∷◌, ◌++◌, Bytes, newline,
  carriage_return, contains_byte, ltb, ◌==◌, if◌then◌else◌,
}
use hk.Fixers.Suffix.{ends_with, strip_byte}

-- A text cut at its newlines: the lines that end in one, and what follows the last.
pub record Segments : Type 0 where
  pub ended : List Bytes
  pub tail : Bytes

abbrev pub push : ℕ → Segments → Segments
push c (r) = elim r.ended [
  | [] ↦ record { ended = []; tail = c ∷ r.tail }
  | l ∷ ls ↦ record { ended = (c ∷ l) ∷ ls; tail = r.tail }
]

unfoldable pub segments : Bytes → Segments
segments [] = record { ended = []; tail = [] }
segments (c ∷ s) =
    let r = segments s in
    if c == newline then record { ended = [] ∷ r.ended; tail = r.tail } else push c r

-- The bare LF endings and the CRLF endings of the ended lines.
unfoldable pub count_lf : List Bytes → ℕ
unfolding ends_with
count_lf [] = 0
count_lf (l ∷ ls) = (if ends_with l carriage_return then 0 else 1) + count_lf ls

unfoldable pub count_crlf : List Bytes → ℕ
unfolding ends_with
count_crlf [] = 0
count_crlf (l ∷ ls) = (if ends_with l carriage_return then 1 else 0) + count_crlf ls

unfoldable pub count_line_endings : Bytes → ℕ × ℕ
unfolding segments count_lf count_crlf
count_line_endings content = let s = segments content in (count_lf s.ended, count_crlf s.ended)

abbrev pub ending_for : ℕ → ℕ → Bytes
ending_for lf crlf = if ltb lf crlf then carriage_return ∷ newline ∷ [] else newline ∷ []

unfoldable pub rewrite_lines : Bytes → List Bytes → Bytes → Bytes
unfolding strip_byte
rewrite_lines ending [] tail = tail
rewrite_lines ending (l ∷ ls) tail =
    strip_byte l carriage_return ++ (ending ++ rewrite_lines ending ls tail)

unfoldable pub normalize : Bytes → Bytes
unfolding count_line_endings segments rewrite_lines
normalize content =
    let (lf, crlf) = count_line_endings content in
    let s = segments content in rewrite_lines (ending_for lf crlf) s.ended s.tail

-- `lf > 0 && crlf > 0`.
unfoldable pub is_mixed : Bytes → Bool
unfolding count_line_endings
is_mixed content = let (lf, crlf) = count_line_endings content in ltb 0 lf && ltb 0 crlf

-- A path that a check may be given.
pub data File : Type 0 where
  dir : File
  regular : Bytes → File

unfoldable pub has_mixed_line_endings : File → Bool
unfolding is_mixed contains_byte
has_mixed_line_endings dir = false
has_mixed_line_endings (regular content) =
    if contains_byte content 0 then false else is_mixed content

-- The file after `fix_line_endings`.
unfoldable pub fix_line_endings : File → File
unfolding has_mixed_line_endings normalize
fix_line_endings dir = dir
fix_line_endings (regular content) =
    if has_mixed_line_endings (regular content)
    then regular (normalize content)
    else regular content
