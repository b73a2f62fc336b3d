-- ===== src/Fixers/MixedLineEnding/Tests.antt =====
-- Inputs for the laws of the line ending fixer.
use hk.Prelude.{◌≡◌, refl, true, false, Bytes, codes, arith}
use hk.Fixers.MixedLineEnding.{
  regular, segments, count_line_endings, normalize, has_mixed_line_endings, fix_line_endings,
}
use hk.Fixers.Suffix.{init}
use hk.Fixers.MixedLineEnding.Laws.{count_double, fix-not_mixed, fix-stays_mixed}

abbrev more_crlf : Bytes
more_crlf = codes "a\r\nb\r\nc\n"

abbrev doubled : Bytes
doubled = codes "a\r\r\nb\n"

fix-not_mixed_example : has_mixed_line_endings (fix_line_endings (regular more_crlf)) ≡ false
unfolding count_double segments init
fix-not_mixed_example = fix-not_mixed more_crlf refl

fix-stays_mixed_example : has_mixed_line_endings (fix_line_endings (regular doubled)) ≡ true
unfolding has_mixed_line_endings normalize count_double segments count_line_endings
fix-stays_mixed_example =
    fix-stays_mixed doubled refl refl (omega arith) (omega arith) (omega arith)
