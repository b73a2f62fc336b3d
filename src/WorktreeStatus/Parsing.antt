-- ===== src/WorktreeStatus/Parsing.antt =====
-- src/git.rs, `parse_porcelain_status`: the entries of `git status --porcelain=v2 -z`.
use hk.Prelude.{
  split_on, ℕ, Bool, true, false, ◌&&◌, ◌||◌, not, Option, none, some, List, [], ◌∷◌, ◌++◌, suc,
  zero, Bytes, bytes_eq, cons_head, get_elem?, length, ◌==◌, if◌then◌else◌,
}
use hk.WorktreeStatus.{StatusEntry, SkippedPaths}

abbrev pub space : ℕ
space = 32

-- `splitn` into at most one piece more than the number: the last is the rest of the text.
unfoldable pub splitn : ℕ → Bytes → List Bytes
splitn zero s = s ∷ []
splitn (suc n) [] = [] ∷ []
splitn (suc n) (c ∷ s) =
    let next = splitn n s in
    let same = splitn (suc n) s in if c == space then [] ∷ next else cons_head c same

-- What a line is by its first byte: an entry with so many fields before its path, nothing to read, or
-- malformed.
pub data LineKind : Type 0 where
  fields : ℕ → LineKind
  skip : LineKind
  malformed : LineKind

unfoldable pub line_kind : Bytes → LineKind
line_kind [] = skip
line_kind (c ∷ s) =
    if c == 49
    then fields 8
    else if c == 50
    then fields 9
    else if c == 117
    then fields 10
    else if c == 63
    then fields 1
    else if c == 35 || c == 33
    then skip
    else malformed

abbrev pub unchanged : ℕ → ℕ
unchanged c = if c == 46 then space else c

abbrev pub field : List Bytes → ℕ → Bytes
field parts i = elim (get_elem? parts i) [ none ↦ [] | some f ↦ f ]

abbrev pub is_line_kind : ℕ → List Bytes → Bool
is_line_kind c parts = bytes_eq (field parts 0) (c ∷ [])

-- The letters of the second field, unless it has not two bytes.
abbrev pub letters : Bytes → Option (ℕ × ℕ)
letters (x ∷ y ∷ []) = some (unchanged x, unchanged y)
letters _ = none

abbrev pub sides : List Bytes → Option (ℕ × ℕ)
sides parts = if is_line_kind 63 parts then some (63, 63) else letters (field parts 1)

-- An entry that is not read to the end is an error; else what is read goes before what the other lines
-- give.
abbrev pub Parsed : Type 0
Parsed = Option (List StatusEntry × SkippedPaths)

abbrev pub entry_of : List Bytes → ℕ × ℕ → Option Bytes → Bytes → StatusEntry
entry_of parts (x, y) orig path = record {
  index = x;
  worktree = y;
  unmerged = is_line_kind 117 parts;
  rename_modified = is_line_kind 50 parts && not (bytes_eq (field parts 6) (field parts 7));
  path = path;
  orig_path = orig;
}

-- The entries and the paths skipped with one line more; the entries are in the order of the lines.
abbrev pub push_entry :
    Bool
    → List Bytes
    → ℕ × ℕ
    → Option Bytes
    → Bytes
    → List StatusEntry × SkippedPaths
    → List StatusEntry × SkippedPaths
push_entry true parts xy orig path (es, skipped) = (es ++ entry_of parts xy orig path ∷ [], skipped)
push_entry false parts (x, y) orig path (es, skipped) = (
  es,
  record {
    raw = skipped.raw ++ path ∷ [];
    unstaged = skipped.unstaged || not (y == space || y == 63);
    untracked = skipped.untracked || y == 63;
  },
)

abbrev pub has_parts : ℕ → List Bytes → Bool
has_parts n parts = length parts == suc n && length (field parts 0) == 1

-- `parse_porcelain_status` of the lines that are left.
unfoldable pub parse_lines : (Bytes → Bool) → List Bytes → List StatusEntry × SkippedPaths → Parsed
unfolding line_kind splitn
parse_lines is_utf8 [] acc = some acc
parse_lines is_utf8 (line ∷ []) acc = elim (line_kind line) [
  | skip ↦ some acc
  | malformed ↦ none
  | fields n ↦
      let parts = splitn n line in
      if not (has_parts n parts) then none else elim (sides parts) [
        | none ↦ none
        | some xy ↦
            if is_line_kind 50 parts
            then none
            else let path = field parts n in some (push_entry (is_utf8 path) parts xy none path acc)
      ]
]
parse_lines is_utf8 (line ∷ next ∷ rest) acc = elim (line_kind line) [
  | skip ↦ parse_lines is_utf8 (next ∷ rest) acc
  | malformed ↦ none
  | fields n ↦
      let parts = splitn n line in
      if not (has_parts n parts) then none else elim (sides parts) [
        | none ↦ none
        | some xy ↦
            let path = field parts n in
            let paired =
              parse_lines is_utf8 rest (push_entry (is_utf8 path) parts xy (some next) path acc) in
            let alone =
              parse_lines is_utf8 (next ∷ rest)
                (push_entry (is_utf8 path) parts xy none path acc) in
            if is_line_kind 50 parts then paired else alone
      ]
]

abbrev pub no_skipped : SkippedPaths
no_skipped = record { raw = []; unstaged = false; untracked = false }

abbrev pub parse_porcelain_status : (Bytes → Bool) → Bytes → SkippedPaths → Parsed
parse_porcelain_status is_utf8 output skipped =
    parse_lines is_utf8 (split_on 0 output) ([], skipped)
