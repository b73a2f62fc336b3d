-- ===== src/Fixers/TrailingWhitespace/Tests.antt =====
-- Inputs for the trailing whitespace fixer: blanks before LF, before CRLF and after a stray CR.
use hk.Prelude.{◌≡◌, refl, true, some, Bytes, codes}
use hk.Fixers.TextFile.{Utf8, valid}
use hk.Fixers.TrailingWhitespace.{strip_trailing_whitespace, has_trailing_whitespace, fixed_content}
use hk.Fixers.TrailingWhitespace.Laws.{is_text, has_trailing_whitespace-fixed_content}

abbrev always_valid : Bytes → Utf8
always_valid s = valid

abbrev blanks : Bytes
blanks = codes "a  \nb\t\r\nc\r \nd "

strips : strip_trailing_whitespace blanks ≡ codes "a\nb\r\nc\r\nd"
unfolding strip_trailing_whitespace
strips = refl

has_trailing_whitespace-fixed_content_example :
    is_text (fixed_content always_valid (some blanks)) ≡ true
unfolding has_trailing_whitespace
has_trailing_whitespace-fixed_content_example =
    has_trailing_whitespace-fixed_content always_valid (some blanks) true refl
