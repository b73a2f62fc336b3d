-- ===== src/CheckList/Tests.antt =====
-- src/step/check_parsing.rs: the files that a check lists, at concrete paths.
use hk.Prelude.{
  ◌≡◌, refl, true, ◌&&◌, none, some, List, [], ◌∷◌, codes, Bytes, bytes_eq, any, if◌then◌else◌,
}
use hk.CheckList.{Paths, contains_path, match_listed_files}
use hk.CheckList.Named.{is_named, match_listed_files-finds, match_listed_files-named}

-- `x` is a link to `b`.
abbrev paths : Paths
paths = record {
  canonicalize = λ p. if bytes_eq p (codes "x") then some (codes "b") else some p;
  in_canonical_dir = λ p. none;
  relative = λ p. none;
}

abbrev originals : List Bytes
originals = codes "a" ∷ codes "b" ∷ codes "c" ∷ []

abbrev listed : List (List Bytes)
listed = (codes "a" ∷ []) ∷ (codes "x" ∷ []) ∷ (codes "z" ∷ []) ∷ []

found_with_extra :
    match_listed_files paths originals listed ≡ (codes "a" ∷ codes "b" ∷ [], codes "z" ∷ [])
unfolding match_listed_files
found_with_extra = refl

match_listed_files-finds_example :
    contains_path (match_listed_files paths originals listed).0 (codes "a") ≡ true
unfolding any bytes_eq
match_listed_files-finds_example = match_listed_files-finds paths originals listed (codes "a") refl

match_listed_files-named_example :
    (contains_path originals (codes "b") && is_named paths (codes "b") listed) ≡ true
unfolding match_listed_files
match_listed_files-named_example = match_listed_files-named paths originals listed (codes "b") refl
