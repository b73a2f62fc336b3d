-- ===== src/Fixers.antt =====
-- src/cli/util: the built-in fixers and checks that work on the bytes of one file.
pub mod Suffix
pub mod TextFile
pub mod MixedLineEnding
pub mod EndOfFile
pub mod TrailingWhitespace
