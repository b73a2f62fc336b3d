-- ===== src/CommitTitle.antt =====
-- src/cli/util/check_conventional_commit.rs: whether the title of a commit message follows the
-- conventional format. The lines of the message are those that `BufReader::lines` reads up to the first
-- failure.
mod Grammar
mod Accepts
mod Tests
use hk.Prelude.{
  ℕ, Bool, true, false, ◌&&◌, ◌||◌, not, Option, none, some, List, [], ◌∷◌, Bytes, codes, bytes_eq,
  starts_with, contains_byte, any, is_empty, ◌==◌, if◌then◌else◌,
}
use hk.Fixers.Suffix.{init, ends_with, trim_end}

-- `Result<bool>`: the title is accepted, or the message that it is not.
pub data Verdict : Type 0 where
  accepted : Verdict
  empty_message : Verdict
  missing_type : Verdict
  invalid_type : (commit_type : Bytes) → (example : Option Bytes) → Verdict
  unclosed_scope : Verdict
  empty_scope : Verdict
  unexpected_parentheses : Verdict
  missing_description : Verdict

abbrev pub colon : ℕ
colon = 58

abbrev pub open_parenthesis : ℕ
open_parenthesis = 40

abbrev pub close_parenthesis : ℕ
close_parenthesis = 41

abbrev pub is_bang : ℕ → Bool
is_bang c = c == 33

abbrev pub generated_prefixes : List Bytes
generated_prefixes =
    codes "fixup! "
    ∷ codes "squash! "
    ∷ codes "amend! "
    ∷ codes "Merge branch '"
    ∷ codes "Merge branches '"
    ∷ codes "Merge tag '"
    ∷ codes "Merge tags '"
    ∷ codes "Merge commit '"
    ∷ codes "Merge remote-tracking branch '"
    ∷ codes "Merge remote-tracking branches '"
    ∷ codes "Merge pull request "
    ∷ codes "Revert \""
    ∷ []

-- Whether Git wrote the title itself.
unfoldable pub is_generated : Bytes → Bool
unfolding any starts_with
is_generated title = any (starts_with title) generated_prefixes

-- `splitn(2, ..)` of one byte: the text before it, and the text after it if it is there.
abbrev pub cons_piece : ℕ → Bytes × Option Bytes → Bytes × Option Bytes
cons_piece c (a, r) = (c ∷ a, r)

unfoldable pub split_at : ℕ → Bytes → Bytes × Option Bytes
split_at b [] = ([], none)
split_at b (c ∷ s) =
    let later = cons_piece c (split_at b s) in if c == b then ([], some s) else later

unfoldable pub check_commit_type : Bytes → List Bytes → Bool
unfolding any bytes_eq
check_commit_type commit_type allowed_types = any (λ t. bytes_eq t commit_type) allowed_types

-- The type that the message names as an example: none where the title has a colon.
unfoldable pub example_type : Bytes → List Bytes → Option Bytes
unfolding contains_byte check_commit_type
example_type title allowed_types =
    if contains_byte title colon
    then none
    else if check_commit_type (codes "fix") allowed_types
    then some (codes "fix")
    else elim allowed_types [ [] ↦ some (codes "fix") | t ∷ _ ↦ some t ]

-- The error for what follows the first parenthesis, if there is one.
unfoldable pub scope_error : Option Bytes → Option Verdict
unfolding ends_with init contains_byte
scope_error none = none
scope_error (some scope) =
    if not (ends_with scope close_parenthesis)
    then some unclosed_scope
    else if is_empty (init scope)
    then some empty_scope
    else if contains_byte (init scope) open_parenthesis
        || contains_byte (init scope) close_parenthesis
    then some unexpected_parentheses
    else none

abbrev pub description_text : Bytes → Bytes
description_text [] = []
description_text (c ∷ s) = if c == 32 then s else []

unfoldable pub description_verdict : Option Bytes → Verdict
description_verdict none = missing_description
description_verdict (some description) =
    if is_empty (description_text description) then missing_description else accepted

-- The part of the title before its first colon, checked before the description is.
unfoldable pub prefix_verdict : Bytes → List Bytes → Bytes → Option Bytes → Verdict
unfolding split_at trim_end check_commit_type example_type scope_error description_verdict
prefix_verdict title allowed_types prefix description =
    let (commit_type, scope) = split_at open_parenthesis (trim_end is_bang prefix) in
    if is_empty prefix
    then missing_type
    else if not (check_commit_type commit_type allowed_types)
    then invalid_type commit_type (example_type title allowed_types)
    else elim (scope_error scope) [ some e ↦ e | none ↦ description_verdict description ]

unfoldable pub parse_commit_title : Bytes → List Bytes → Verdict
unfolding is_generated split_at prefix_verdict
parse_commit_title title allowed_types =
    if is_generated title
    then accepted
    else prefix_verdict title allowed_types (split_at colon title).0 (split_at colon title).1

-- `check_conventional_commit`: the title is the first line that is no comment.
unfoldable pub check_conventional_commit : List Bytes → List Bytes → Verdict
unfolding parse_commit_title starts_with
check_conventional_commit [] allowed_types = empty_message
check_conventional_commit (line ∷ lines) allowed_types =
    let rest = check_conventional_commit lines allowed_types in
    if starts_with line (codes "#") then rest else parse_commit_title line allowed_types
