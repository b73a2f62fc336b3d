-- ===== src/Fixers/EndOfFile.antt =====
-- src/cli/util/end_of_file_fixer.rs: a text file ends with exactly one line terminator.
mod Laws
mod Tests
use hk.Prelude.{
  ℕ, suc, ◌+◌, ◌-◌, ◌<◌, Bool, true, false, ◌&&◌, ◌||◌, not, Option, none, some, List, [], ◌∷◌,
  ◌++◌, Bytes, newline, carriage_return, length, drop, ltb, ◌==◌, if◌then◌else◌,
}
use hk.Fixers.Suffix.{last, init, strip_byte, trim_end}
use hk.Fixers.TextFile.{Utf8, Read, failed, not_text, text, read_text_probe, read_rest_to_string}

abbrev pub is_line_end : ℕ → Bool
is_line_end c = c == newline || c == carriage_return

-- `matches!(before.last(), Some(b'\n' | b'\r'))`.
ends_in_line_end : Bytes → Bool
unfolding last
ends_in_line_end s = elim (last s) [ none ↦ false | some c ↦ is_line_end c ]

unfoldable pub ends_properly : Bytes → Bool
unfolding ends_in_line_end strip_byte last init
ends_properly tail = elim (last tail) [
  | none ↦ false
  | some c ↦
      if c == newline
      then not (ends_in_line_end (strip_byte (init tail) carriage_return))
      else false
]

-- The last four bytes of the file.
unfoldable pub tail_bytes : Bytes → Bytes
tail_bytes content = drop (length content - 4) content

-- `matches('\n').count()` and `matches("\r\n").count()`.
count_newlines : Bytes → ℕ
count_newlines [] = 0
count_newlines (c ∷ s) = (if c == newline then 1 else 0) + count_newlines s

count_pairs : Bytes → ℕ
count_pairs [] = 0
count_pairs (c ∷ []) = 0
count_pairs (c ∷ d ∷ s) =
    (if c == carriage_return && d == newline then 1 else 0) + count_pairs (d ∷ s)

abbrev pub crlf : Bytes
crlf = carriage_return ∷ newline ∷ []

unfoldable pub dominant_terminator : Bytes → Bytes
unfolding count_newlines count_pairs
dominant_terminator content =
    let lf = count_newlines content in
    let pairs = count_pairs content in if ltb (lf - pairs) pairs then crlf else newline ∷ []

unfoldable pub normalize_ending : Bytes → Bytes
unfolding dominant_terminator trim_end
normalize_ending content = trim_end is_line_end content ++ dominant_terminator content

module _ (from_utf8 : Bytes → Utf8) where
  -- `open_if_improper`: whether the file is text and does not end properly.
  unfoldable pub open_if_improper : Bytes → Bool
  unfolding read_text_probe ends_properly tail_bytes
  open_if_improper [] = false
  open_if_improper (c ∷ s) =
      if read_text_probe from_utf8 (c ∷ s) then not (ends_properly (tail_bytes (c ∷ s))) else false

  improper_content : Bytes → Read
  unfolding open_if_improper read_rest_to_string
  improper_content content =
      if open_if_improper content then read_rest_to_string from_utf8 content else not_text

  -- The new content of the file: a failure, no change, or the fixed text.
  unfoldable pub fixed_content : Bytes → Read
  unfolding improper_content normalize_ending
  fixed_content content = elim (improper_content content) [
    | failed ↦ failed
    | not_text ↦ not_text
    | text s ↦ text (normalize_ending s)
  ]
