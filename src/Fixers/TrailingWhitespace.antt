-- ===== src/Fixers/TrailingWhitespace.antt =====
-- src/cli/util/trailing_whitespace.rs: spaces and tabs before the end of a line. A file is its content,
-- or nothing where the path is no regular file.
mod Laws
mod Tests
use hk.Prelude.{
  ℕ, Bool, true, false, ◌&&◌, ◌||◌, not, Option, none, some, List, [], ◌∷◌, ◌++◌, Bytes, newline,
  carriage_return, bytes_eq, split_inclusive, any, ◌==◌, if◌then◌else◌,
}
use hk.Fixers.Suffix.{init, ends_with, trim_end}
use hk.Fixers.TextFile.{Utf8, Read, failed, not_text, text, read_text_probe, read_rest_to_string}

abbrev pub is_blank : ℕ → Bool
is_blank c = c == 32 || c == 9

pub data Terminator : Type 0 where
  unterminated : Terminator
  lf : Terminator
  crlf : Terminator

abbrev pub terminator_text : Terminator → Bytes
terminator_text unterminated = []
terminator_text lf = newline ∷ []
terminator_text crlf = carriage_return ∷ newline ∷ []

abbrev pub is_same : Terminator → Terminator → Bool
is_same unterminated unterminated = true
is_same lf lf = true
is_same crlf crlf = true
is_same _ _ = false

pub record Line : Type 0 where
  pub body : Bytes
  pub terminator : Terminator

abbrev pub line_text : Line → Bytes
line_text l = l.body ++ terminator_text l.terminator

-- One piece of `split_inclusive`, as `lines` cuts it.
unfoldable pub line_of : Bytes → Line
unfolding ends_with init
line_of s =
    if ends_with s newline
    then (if ends_with (init s) carriage_return
        then record { body = init (init s); terminator = crlf }
        else record { body = init s; terminator = lf })
    else record { body = s; terminator = unterminated }

unfoldable pub fix_line : Line → Line
unfolding trim_end ends_with init
fix_line l =
    let body = trim_end is_blank l.body in
    if is_same l.terminator lf && ends_with body carriage_return
    then record { body = trim_end is_blank (init body); terminator = crlf }
    else record { body = body; terminator = l.terminator }

-- Whether fixing the piece changes it.
unfoldable pub is_changed : Bytes → Bool
unfolding line_of fix_line bytes_eq
is_changed s =
    let l = line_of s in
    let fixed = fix_line l in
    not (bytes_eq fixed.body l.body && is_same fixed.terminator l.terminator)

unfoldable pub strip_lines : List Bytes → Bytes
unfolding line_of fix_line
strip_lines [] = []
strip_lines (s ∷ ss) = line_text (fix_line (line_of s)) ++ strip_lines ss

unfoldable pub strip_trailing_whitespace : Bytes → Bytes
unfolding strip_lines split_inclusive
strip_trailing_whitespace original = strip_lines (split_inclusive original)

module _ (from_utf8 : Bytes → Utf8) where
  unfoldable pub read_text : Option Bytes → Read
  unfolding read_text_probe read_rest_to_string
  read_text none = not_text
  read_text (some []) = read_rest_to_string from_utf8 []
  read_text (some (c ∷ s)) =
      if read_text_probe from_utf8 (c ∷ s) then read_rest_to_string from_utf8 (c ∷ s) else not_text

  -- `has_trailing_whitespace`, where `none` is a failure.
  unfoldable pub has_trailing_whitespace : Option Bytes → Option Bool
  unfolding read_text is_changed any split_inclusive
  has_trailing_whitespace file = elim (read_text file) [
    | failed ↦ none
    | not_text ↦ some false
    | text s ↦ some (any is_changed (split_inclusive s))
  ]

  -- A failure, no change, or the fixed text.
  unfoldable pub fixed_content : Option Bytes → Read
  unfolding read_text strip_trailing_whitespace bytes_eq
  fixed_content file = elim (read_text file) [
    | failed ↦ failed
    | not_text ↦ not_text
    | text s ↦
        let fixed = strip_trailing_whitespace s in if bytes_eq s fixed then not_text else text fixed
  ]
