-- ===== src/Patches/Plan.antt =====
-- src/step/diff.rs, `apply_patch` up to its first write: the new contents of every file that a patch
-- changes. The maps `files` and `originals` have the same paths and are one list of changes.
use hk.Prelude.{
  ℕ, Bool, true, false, ◌&&◌, ◌||◌, not, Option, none, some, List, [], ◌∷◌, Bytes, if◌then◌else◌,
}
use hk.Patches.{
  Operation, modify, create, delete, rename_or_copy, text, binary, FilePatch, Access, readable,
  refused, Env, Component, same_path, names_dot_git, is_checked, meets_symlink,
  has_unsupported_header,
}

-- A path's file, with its contents before and after, `none` where there is no file.
pub record Change : Type 0 where
  pub path : List Component
  pub file : Bytes
  pub original : Option Bytes
  pub contents : Option Bytes

-- The texts of files, of which each has one name, whatever paths lead to it.
abbrev pub Disk : Type 0
Disk = Bytes → Option Bytes

-- The last contents of a path among the changes so far, if it is there.
unfoldable pub lookup : List Component → List Change → Option (Option Bytes)
unfolding same_path
lookup p [] = none
lookup p (c ∷ cs) = let later = lookup p cs in if same_path c.path p then some c.contents else later

-- `IndexMap::insert`: a path that is there keeps its place and its original.
unfoldable pub put_change :
    List Component → Bytes → Option Bytes → Option Bytes → List Change → List Change
unfolding same_path
put_change p f original contents [] =
    record { path = p; file = f; original = original; contents = contents } ∷ []
put_change p f original contents (c ∷ cs) =
    let rest = put_change p f original contents cs in
    if same_path c.path p then record c { contents = contents } ∷ cs else c ∷ rest

-- What is patched, and whether it is created or deleted.
pub record Target : Type 0 where
  pub path : Bytes
  pub creates : Bool
  pub deletes : Bool

abbrev pub is_some : Option Bytes → Bool
is_some none = false
is_some (some t) = true

-- The result of `read_existing`: `none` is an error.
abbrev pub read_existing : Access → Option Bytes → Option (Option Bytes)
read_existing readable t = some t
read_existing refused t = none

abbrev pub contents_after : Bool → Bytes → Option Bytes
contents_after true t = none
contents_after false t = some t

abbrev pub or_empty : Option Bytes → Bytes
or_empty none = []
or_empty (some t) = t

module _ {P : Type 0} (env : Env P) (disk : Disk) where
  abbrev pub accepts : Bytes → Bool
  accepts p = is_checked p (env.components p)

  abbrev pub file_at : Bytes → Bytes
  file_at p = env.file (env.components p)

  abbrev pub is_known : List Change → Bytes → Bool
  is_known files p = elim (lookup (env.components p) files) [ some c ↦ true | none ↦ env.exists p ]

  abbrev pub target_if : Bytes → Bool → Bool → Option Target
  target_if p creates deletes =
      if accepts p then some (record { path = p; creates = creates; deletes = deletes }) else none

  unfoldable pub target : List Change → Operation → Option Target
  unfolding names_dot_git is_checked lookup
  target files (modify original modified) =
      if names_dot_git (env.components original) || names_dot_git (env.components modified)
      then none
      else if accepts original && is_known files original
      then target_if original false false
      else target_if modified false false
  target files (create p) = target_if p true false
  target files (delete p) = target_if p false true
  target files rename_or_copy = none

  -- The contents that a patch is applied to, and those of the file on disk: `none` is an error.
  unfoldable pub current : List Change → Bytes → Option (Option Bytes)
  unfolding lookup
  current files p = elim (lookup (env.components p) files) [
    | some c ↦ some c
    | none ↦ read_existing (env.access p) (disk (file_at p))
  ]

  abbrev pub fits_operation : Target → Option Bytes → Bool
  fits_operation t now = if is_some now then not t.creates else t.creates

  abbrev pub patched_to : P → Option Bytes → Option Bytes
  patched_to patch now = env.apply patch (or_empty now)

  abbrev pub is_refused : Bytes → Bool
  is_refused p = meets_symlink env.node [] (env.components p) || env.hard_links p

  abbrev pub put_if : List Change → Target → Option Bytes → Option (List Change)
  put_if files t none = none
  put_if files t (some new) = some (
      put_change (env.components t.path) (file_at t.path) (disk (file_at t.path))
        (contents_after t.deletes new) files)

  unfoldable pub change_file : List Change → P → Target → Option (List Change)
  unfolding meets_symlink current put_change
  change_file files patch t = if is_refused t.path then none else elim (current files t.path) [
    | none ↦ none
    | some now ↦ if fits_operation t now then put_if files t (patched_to patch now) else none
  ]

  abbrev pub change_target : List Change → P → Option Target → Option (List Change)
  change_target files patch none = none
  change_target files patch (some t) = change_file files patch t

  -- One round: the next file patch, `none` where it does not parse.
  unfoldable pub plan_one : ℕ → List Change → Option (FilePatch P) → Option (List Change)
  unfolding target change_file
  plan_one strip files none = none
  plan_one strip files (some fp) = elim fp.patch [
    | binary ↦ none
    | text p ↦ change_target files p (target files (env.strip_prefix strip fp.operation))
  ]

  unfoldable pub plan_all : ℕ → List Change → List (Option (FilePatch P)) → Option (List Change)
  unfolding plan_one
  plan_all strip files [] = some files
  plan_all strip files (fp ∷ fps) = elim (plan_one strip files fp) [
    | none ↦ none
    | some more ↦ plan_all strip more fps
  ]

  abbrev pub unless_empty : Option (List Change) → Option (List Change)
  unless_empty none = none
  unless_empty (some []) = none
  unless_empty (some (c ∷ cs)) = some (c ∷ cs)

  -- The changes of a patch, or nothing where it is rejected.
  unfoldable pub plan : Bytes → ℕ → Option (List Change)
  unfolding has_unsupported_header plan_all
  plan diff strip =
      if has_unsupported_header diff
      then none
      else unless_empty (plan_all strip [] (env.parse diff))
