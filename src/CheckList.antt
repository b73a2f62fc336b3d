-- ===== src/CheckList.antt =====
-- src/step/check_parsing.rs, `match_listed_files`: the files of a job that the output of a check names.
-- Sets are lists. A path is its components joined by single slashes, since the sets of the source compare
-- paths by components; so `a//b` and `a/./b` are both written `a/b`. What paths resolve to is a parameter.
mod Named
mod Tests
use hk.Prelude.{
  ℕ, Bool, true, false, ◌&&◌, ◌||◌, not, Option, none, some, List, [], ◌∷◌, ◌++◌, Bytes, bytes_eq,
  any, filter, is_empty, map, if◌then◌else◌,
}

-- What `canonicalize` gives of a path, of its directory with its name, and a path relative to where hk runs.
pub record Paths : Type 0 where
  pub canonicalize : Bytes → Option Bytes
  pub in_canonical_dir : Bytes → Option Bytes
  pub relative : Bytes → Option Bytes

abbrev pub contains_path : List Bytes → Bytes → Bool
contains_path ps p = any (bytes_eq p) ps

abbrev pub or_self : Option Bytes → Bytes → Bytes
or_self none p = p
or_self (some q) p = q

unfoldable pub try_canonicalize : Paths → Bytes → Bytes
try_canonicalize paths p = or_self (paths.canonicalize p) p

-- What a loop over the listed paths has found: files, the readings that match none as written, and the
-- readings in the step's directory that are still to be resolved.
pub record Matching : Type 0 where
  pub matched : List Bytes
  pub unmatched : List (List Bytes)
  pub in_dir : List Bytes

abbrev pub in_dir_of : List Bytes → List Bytes → List Bytes
in_dir_of originals (d ∷ r ∷ []) = if contains_path originals d then [] else d ∷ []
in_dir_of originals _ = []

unfoldable pub match_direct : List Bytes → List Bytes → Matching → Matching
unfolding filter any bytes_eq
match_direct originals readings m =
    let direct = filter (contains_path originals) readings in
    if is_empty direct then record m { unmatched = m.unmatched ++ readings ∷ [] } else record m {
      matched = m.matched ++ direct;
      in_dir = m.in_dir ++ in_dir_of originals readings;
    }

unfoldable pub match_all : List Bytes → List (List Bytes) → Matching → Matching
unfolding match_direct
match_all originals [] m = m
match_all originals (readings ∷ listed) m =
    match_all originals listed (match_direct originals readings m)

abbrev pub listed_option : Option Bytes → List Bytes
listed_option none = []
listed_option (some p) = p ∷ []

abbrev pub as_written : Paths → Option Bytes → List Bytes
as_written paths none = []
as_written paths (some p) = p ∷ listed_option (paths.relative p)

-- The paths that a reading in the step's directory may stand for.
abbrev pub candidates : Paths → Bytes → List Bytes
candidates paths d =
    as_written paths (paths.canonicalize d) ++ as_written paths (paths.in_canonical_dir d)

unfoldable pub resolve_in_dir : Paths → List Bytes → List Bytes → List Bytes
unfolding filter any bytes_eq
resolve_in_dir paths originals [] = []
resolve_in_dir paths originals (d ∷ ds) =
    filter (contains_path originals) (candidates paths d) ++ resolve_in_dir paths originals ds

abbrev pub is_canonical : Paths → Bytes → Bytes → Bool
is_canonical paths c f = bytes_eq (try_canonicalize paths f) c

-- The files with one of these canonical paths.
unfoldable pub hits : Paths → List Bytes → List Bytes → List Bytes
unfolding filter try_canonicalize bytes_eq
hits paths originals [] = []
hits paths originals (c ∷ cs) = filter (is_canonical paths c) originals ++ hits paths originals cs

-- `IndexSet::insert`.
unfoldable pub insert_last : List Bytes → Bytes → List Bytes
unfolding any bytes_eq
insert_last s p = if contains_path s p then s else s ++ p ∷ []

abbrev pub insert_first : List Bytes → List Bytes → List Bytes
insert_first s [] = s
insert_first s (p ∷ ps) = insert_last s p

-- The files found and the extras after the readings that match none as written.
unfoldable pub match_canonical :
    Paths → List Bytes → List (List Bytes) → List Bytes × List Bytes → List Bytes × List Bytes
unfolding hits insert_last try_canonicalize
match_canonical paths originals [] acc = acc
match_canonical paths originals (readings ∷ rest) (matched, extras) =
    let canonical = map (try_canonicalize paths) readings in
    let found = hits paths originals canonical in
    match_canonical paths originals rest (
      if is_empty found
      then (matched, insert_first extras canonical)
      else (matched ++ found, extras))

unfoldable pub unique : List Bytes → List Bytes → List Bytes
unfolding insert_last
unique s [] = s
unique s (p ∷ ps) = unique (insert_last s p) ps

abbrev pub no_matching : Matching
no_matching = record { matched = []; unmatched = []; in_dir = [] }

unfoldable pub match_listed_files : Paths → List Bytes → List (List Bytes) → List Bytes × List Bytes
unfolding match_all resolve_in_dir match_canonical unique filter any bytes_eq
match_listed_files paths originals listed =
    let m = match_all originals listed no_matching in
    let found =
      match_canonical paths originals m.unmatched
        (m.matched ++ resolve_in_dir paths originals m.in_dir, []) in
    (unique [] (filter (contains_path found.0) originals), found.1)
