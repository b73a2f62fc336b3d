-- ===== src/Fixers/EndOfFile/Tests.antt =====
-- Inputs for the laws of the end-of-file fixer: contents with no, one and two terminators.
use hk.Prelude.{◌≡◌, refl, Bytes, codes}
use hk.Fixers.TextFile.{Utf8, valid, not_text}
use hk.Fixers.EndOfFile.{normalize_ending, fixed_content}
use hk.Fixers.EndOfFile.Laws.{fixed_content-normalize_ending}

abbrev two_blank : Bytes
two_blank = codes "one\r\ntwo\r\n\n"

abbrev always_valid : Bytes → Utf8
always_valid s = valid

normalizes : normalize_ending two_blank ≡ codes "one\r\ntwo\r\n"
unfolding normalize_ending
normalizes = refl

fixed_content-normalize_ending_example :
    fixed_content always_valid (normalize_ending two_blank) ≡ not_text
fixed_content-normalize_ending_example = fixed_content-normalize_ending always_valid two_blank
