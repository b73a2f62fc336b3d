-- ===== src/Patches.antt =====
-- src/step/diff.rs, `apply_patch`: a patch is applied to the files under a directory, all of it or nothing.
-- Texts are code points. The parser of patches and `diffy::apply` are parameters, and so is what paths
-- are on the file system besides their texts: their components, and the file that a path of such
-- components names, which may be the file of other components too, as for `./a` and `a`.
mod Plan
mod Commit
mod Disk
mod Undo
mod Progress
mod Steps
mod Atomic
mod Hidden
mod Copies
mod Saved
mod Planned
mod Inside
mod Transaction
mod Tests
use hk.Prelude.{
  ℕ, ◌+◌, ◌++◌, Bool, true, false, ◌&&◌, ◌||◌, not, Option, none, some, List, [], ◌∷◌, Bytes,
  bytes_eq, starts_with, split_inclusive, split_on, take_until, any, filter, is_empty, leb, ◌==◌,
  if◌then◌else◌, codes, map,
}
use hk.Fixers.Suffix.{trim_end}

-- `std::path::Component`, with its text.
pub data Component : Type 0 where
  normal : Bytes → Component
  cur_dir : Component
  other : Bytes → Component

pub data Operation : Type 0 where
  modify : Bytes → Bytes → Operation
  create : Bytes → Operation
  delete : Bytes → Operation
  rename_or_copy : Operation

pub data PatchKind (P : Type 0) : Type 0 where
  text : P → PatchKind P
  binary : PatchKind P

pub record FilePatch (P : Type 0) : Type 0 where
  pub operation : Operation
  pub patch : PatchKind P

-- What a directory or file on the way to a path is.
pub data Node : Type 0 where
  symlink : Node
  present : Node
  missing : Node

-- How a path can be read: it is no symlink and, where there is a file, a text; or not.
pub data Access : Type 0 where
  readable : Access
  refused : Access

pub record Env (P : Type 0) : Type 0 where
  pub parse : Bytes → List (Option (FilePatch P))
  pub strip_prefix : ℕ → Operation → Operation
  pub apply : P → Bytes → Option Bytes
  pub components : Bytes → List Component
  pub file : List Component → Bytes
  pub node : List Component → Node
  pub hard_links : Bytes → Bool
  pub access : Bytes → Access
  pub exists : Bytes → Bool

abbrev pub same_component : Component → Component → Bool
same_component (normal s) (normal t) = bytes_eq s t
same_component (normal s) cur_dir = false
same_component (normal s) (other t) = false
same_component cur_dir (normal t) = false
same_component cur_dir cur_dir = true
same_component cur_dir (other t) = false
same_component (other s) (normal t) = false
same_component (other s) cur_dir = false
same_component (other s) (other t) = bytes_eq s t

-- `PathBuf`'s equality, by components.
unfoldable pub same_path : List Component → List Component → Bool
unfolding bytes_eq
same_path [] [] = true
same_path [] (d ∷ ds) = false
same_path (c ∷ cs) [] = false
same_path (c ∷ cs) (d ∷ ds) = same_component c d && same_path cs ds

abbrev pub component_text : Component → Bytes
component_text (normal t) = t
component_text cur_dir = 46 ∷ []
component_text (other t) = t

-- The code points that HFS+ ignores in names.
abbrev pub ignorable : ℕ → Bool
ignorable c =
    leb 8204 c && leb c 8207
    || (leb 8234 c && leb c 8238 || (leb 8298 c && leb c 8303 || c == 65279))

abbrev pub to_ascii_lowercase : ℕ → ℕ
to_ascii_lowercase c = if leb 65 c && leb c 90 then c + 32 else c

abbrev pub is_dot_or_space : ℕ → Bool
is_dot_or_space c = c == 46 || c == 32

abbrev pub is_visible : ℕ → Bool
is_visible c = not (ignorable c)

-- The name that a piece between backslashes has to a file system.
unfoldable pub spelled : Bytes → Bytes
unfolding filter trim_end take_until
spelled piece =
    map to_ascii_lowercase (trim_end is_dot_or_space (take_until 58 (filter is_visible piece)))

abbrev pub dot_git : Bytes
dot_git = 46 ∷ 103 ∷ 105 ∷ 116 ∷ []

abbrev pub git_tilde_1 : Bytes
git_tilde_1 = 103 ∷ 105 ∷ 116 ∷ 126 ∷ 49 ∷ []

abbrev pub is_git_piece : Bytes → Bool
is_git_piece piece = bytes_eq (spelled piece) dot_git || bytes_eq (spelled piece) git_tilde_1

unfoldable pub is_dot_git : Bytes → Bool
unfolding any split_on spelled bytes_eq
is_dot_git component = any is_git_piece (split_on 92 component)

abbrev pub is_git_component : Component → Bool
is_git_component c = is_dot_git (component_text c)

abbrev pub is_below : Component → Bool
is_below (normal t) = true
is_below cur_dir = true
is_below (other t) = false

abbrev pub leaves : Component → Bool
leaves c = not (is_below c)

-- Whether `refuse_dot_git` refuses a path.
unfoldable pub names_dot_git : List Component → Bool
unfolding any is_dot_git
names_dot_git cs = any is_git_component cs

-- Whether `checked_path` accepts a path.
unfoldable pub is_checked : Bytes → List Component → Bool
unfolding any names_dot_git
is_checked path cs = not (is_empty path || any leaves cs) && not (names_dot_git cs)

-- Whether `refuse_symlinks` refuses the components that are left, under those passed.
unfoldable pub meets_symlink : (List Component → Node) → List Component → List Component → Bool
meets_symlink node passed [] = false
meets_symlink node passed (c ∷ cs) =
    let further = meets_symlink node (passed ++ c ∷ []) cs in
    elim (node (passed ++ c ∷ [])) [ symlink ↦ true | present ↦ further | missing ↦ false ]

-- The headers that only git's extended patches have.
abbrev unsupported_headers : List Bytes
unsupported_headers =
    codes "old mode "
    ∷ codes "new mode "
    ∷ codes "new file mode "
    ∷ codes "deleted file mode "
    ∷ codes "rename from "
    ∷ codes "rename to "
    ∷ codes "copy from "
    ∷ codes "copy to "
    ∷ codes "Binary files "
    ∷ codes "GIT binary patch"
    ∷ []

abbrev is_unsupported : Bytes → Bool
is_unsupported line = any (starts_with line) unsupported_headers

unfoldable pub has_unsupported_header : Bytes → Bool
unfolding any starts_with split_inclusive
has_unsupported_header diff = any is_unsupported (split_inclusive diff)

-- A line that starts a file header, directly followed by its other line.
unfoldable pub has_file_header : List Bytes → Bool
unfolding starts_with
has_file_header [] = false
has_file_header (l ∷ []) = false
has_file_header (l ∷ m ∷ ls) =
    let later = has_file_header (m ∷ ls) in
    (starts_with l (codes "--- ") && starts_with m (codes "+++ ")) || later

abbrev pub looks_like_patch : Bytes → Bool
looks_like_patch diff = has_file_header (split_inclusive diff)
