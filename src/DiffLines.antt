-- ===== src/DiffLines.antt =====
-- src/step/mod.rs, `diff_lines`: which lines of a unified diff are in the body of a hunk.
mod Bodies
mod Tests
use hk.Prelude.{
  ℕ, ◌+◌, ◌-◌, ◌^◌, Bool, true, false, ◌||◌, Option, none, some, List, [], ◌∷◌, ◌++◌, Bytes, codes,
  newline, carriage_return, length, drop, strip_prefix, split_once, parse_unsigned, split_inclusive,
  ltb, ◌==◌, if◌then◌else◌,
}
use hk.Fixers.Suffix.{strip_byte}

-- The content of a line and its terminator.
unfoldable pub split_line_ending : Bytes → Bytes × Bytes
unfolding strip_byte
split_line_ending line =
    let content = strip_byte (strip_byte line newline) carriage_return in
    (content, drop (length content) line)

-- `parse::<usize>` on a machine of 64 bits.
abbrev pub parse_usize : Bytes → Option ℕ
parse_usize s = parse_unsigned (2 ^ 64) s

unfoldable pub range_count : Bytes → Option ℕ
unfolding split_once parse_unsigned
range_count range = elim (split_once (codes ",") range) [
  | some (_, count) ↦ parse_usize count
  | none ↦ elim (parse_usize range) [ none ↦ none | some _ ↦ some 1 ]
]

abbrev both : Option ℕ → Option ℕ → Option (ℕ × ℕ)
both none n = none
both (some o) none = none
both (some o) (some n) = some (o, n)

-- The counts between `@@ -` and ` @@`.
abbrev ranges : Option (Bytes × Bytes) → Option (Bytes × Bytes)
ranges none = none
ranges (some (old, rest)) = elim (split_once (codes " @@") rest) [
  | none ↦ none
  | some (new, _) ↦ some (old, new)
]

unfoldable pub hunk_lengths : Bytes → Option (ℕ × ℕ)
unfolding strip_prefix split_once range_count
hunk_lengths line = elim (strip_prefix (codes "@@ -") line) [
  | none ↦ none
  | some rest ↦ elim (ranges (split_once (codes " +") rest)) [
    | none ↦ none
    | some (old, new) ↦ both (range_count old) (range_count new)
  ]
]

-- The kinds of lines in a body, by their first byte.
pub data Kind : Type 0 where
  removed : Kind
  added : Kind
  remark : Kind
  context : Kind

unfoldable pub kind_of : Bytes → Kind
kind_of [] = context
kind_of (c ∷ s) =
    if c == 45 then removed else if c == 43 then added else if c == 92 then remark else context

abbrev pub consume : Kind → ℕ × ℕ → ℕ × ℕ
consume removed (old, new) = (old - 1, new)
consume added (old, new) = (old, new - 1)
consume remark (old, new) = (old, new)
consume context (old, new) = (old - 1, new - 1)

abbrev pub is_inside : ℕ × ℕ → Bool
is_inside (old, new) = ltb 0 old || ltb 0 new

abbrev pub or_left : Option (ℕ × ℕ) → ℕ × ℕ → ℕ × ℕ
or_left none left = left
or_left (some lengths) left = lengths

-- What is left of a hunk after the line.
unfoldable pub advance : ℕ × ℕ → Bytes → ℕ × ℕ
unfolding kind_of hunk_lengths split_line_ending
advance left line =
    if is_inside left
    then consume (kind_of line) left
    else or_left (hunk_lengths (split_line_ending line).0) left

-- The loop over the lines.
unfoldable pub mark : ℕ × ℕ → List Bytes → List (Bytes × Bool)
unfolding advance
mark left [] = []
mark left (line ∷ lines) = (line, is_inside left) ∷ mark (advance left line) lines

unfoldable pub diff_lines : Bytes → List (Bytes × Bool)
unfolding mark split_inclusive
diff_lines diff = mark (0, 0) (split_inclusive diff)
