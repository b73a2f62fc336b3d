-- ===== src/CheckList/Named.antt =====
-- src/step/check_parsing.rs, `match_listed_files`: the files that it finds are those that a listed path names.
use hk.Prelude.{
  ◌≡◌, refl, ap, sym, ◌∙◌, inl, inr, Bool, true, false, ◌&&◌, ◌||◌, List, [], ◌∷◌, ◌++◌, arith,
  Bytes, bytes_eq, bytes_eq→eq, any, any-append, filter, is_empty, map, if_cases, Bool-cases,
}
use hk.CheckList.{
  Paths, contains_path, try_canonicalize, Matching, in_dir_of, match_direct, match_all, candidates,
  resolve_in_dir, is_canonical, hits, insert_last, insert_first, match_canonical, unique,
  no_matching, match_listed_files,
}

module _ {A : Type 0} (p q : A → Bool) where
  any-of_filter : (xs : List A) → any p (filter q xs) ≡ true → any p xs ≡ true
  unfolding any filter
  any-of_filter [] h = h
  any-of_filter (x ∷ xs) h = ground (arith, h, any-of_filter xs)

contains_path-filter :
    (q : Bytes → Bool) (f : Bytes) (xs : List Bytes)
    → contains_path (filter q xs) f ≡ (contains_path xs f && q f)
unfolding any filter
contains_path-filter q f [] = refl
contains_path-filter q f (x ∷ xs) = elim (Bool-cases (bytes_eq f x)) [
  | inl e ↦
      let k : q x ≡ q f = ap q (sym (bytes_eq→eq f x e)) in
      ground (arith, contains_path-filter q f xs, k, e)
  | inr e ↦ ground (arith, contains_path-filter q f xs, e)
]

contains_path-insert_last :
    (f p : Bytes) (s : List Bytes)
    → contains_path (insert_last s p) f ≡ (contains_path s f || bytes_eq f p)
unfolding insert_last any
contains_path-insert_last f p s = elim (Bool-cases (contains_path s p)) [
  | inl e ↦ elim (Bool-cases (bytes_eq f p)) [
    | inl k ↦
        let g : contains_path s f ≡ true = ap (contains_path s) (bytes_eq→eq f p k) ∙ e in
        rw e (ground (arith, g))
    | inr k ↦ rw e (ground (arith, k))
  ]
  | inr e ↦ rw e (any-append (bytes_eq f) s (p ∷ []) ∙ ground arith)
]

contains_path-unique :
    (f : Bytes) (s ps : List Bytes)
    → contains_path (unique s ps) f ≡ (contains_path s f || contains_path ps f)
unfolding unique any
contains_path-unique f s [] = ground arith
contains_path-unique f s (p ∷ ps) =
    ground (arith, contains_path-unique f (insert_last s p) ps, contains_path-insert_last f p s)

found_or :
    (q : Bytes → Bool) (f : Bytes) (xs ys : List Bytes) (b : Bool)
    → contains_path (filter q xs ++ ys) f ≡ true
    → (contains_path ys f ≡ true → b ≡ true)
    → (contains_path xs f || b) ≡ true
found_or q f xs ys b h k =
    ground (arith, h, k, any-append (bytes_eq f) (filter q xs) ys, any-of_filter (bytes_eq f) q xs)

module _ (paths : Paths) (f : Bytes) where
  abbrev same_canonical : Bytes → Bool
  same_canonical r = bytes_eq (try_canonicalize paths f) (try_canonicalize paths r)

  -- A listed path names a file as written, as what it resolves to, or as a path to the same file.
  abbrev pub names_file : Bytes → Bool
  names_file r = bytes_eq f r || (contains_path (candidates paths r) f || same_canonical r)

  abbrev resolves : Bytes → Bool
  resolves d = contains_path (candidates paths d) f

  abbrev any_same : List Bytes → Bool
  any_same rs = any same_canonical rs

  abbrev claims : Matching → Bool
  claims m = contains_path m.matched f || (any resolves m.in_dir || any any_same m.unmatched)

  any-weaken :
      (p q : Bytes → Bool) (xs : List Bytes)
      → ((x : Bytes) → p x ≡ true → q x ≡ true)
      → any p xs ≡ true
      → any q xs ≡ true
  unfolding any
  any-weaken p q [] h k = k
  any-weaken p q (x ∷ xs) h k = ground (arith, k, h x, any-weaken p q xs h)

  in_dir_of-names :
      (originals rs : List Bytes)
      → any resolves (in_dir_of originals rs) ≡ true
      → any names_file rs ≡ true
  unfolding any
  in_dir_of-names originals [] h = h
  in_dir_of-names originals (d ∷ []) h = absurd (cc)
  in_dir_of-names originals (d ∷ r ∷ []) h =
      if_cases {A = List Bytes} (λ x. any resolves x ≡ true → any names_file (d ∷ r ∷ []) ≡ true)
        (contains_path originals d) [] (d ∷ []) (λ _ k. absurd (cc)) (λ _ k. ground (arith, k)) h
  in_dir_of-names originals (d ∷ r ∷ t ∷ rs) h = absurd (cc)

  match_direct-claims :
      (originals rs : List Bytes) (m : Matching)
      → claims (match_direct originals rs m) ≡ true
      → (claims m || any names_file rs) ≡ true
  unfolding match_direct any
  match_direct-claims originals rs m =
      if_cases {A = Matching} (λ n. claims n ≡ true → (claims m || any names_file rs) ≡ true)
        (is_empty (filter (contains_path originals) rs)) _ _
        (λ _ h. ground (
          arith,
          h,
          any-append any_same m.unmatched (rs ∷ []),
          any-weaken same_canonical names_file rs (λ x k. ground (arith, k)),
        ))
        (λ _ h. ground (
          arith,
          h,
          any-append (bytes_eq f) m.matched (filter (contains_path originals) rs),
          any-append resolves m.in_dir (in_dir_of originals rs),
          in_dir_of-names originals rs,
          any-of_filter (bytes_eq f) (contains_path originals) rs,
          any-weaken (bytes_eq f) names_file rs (λ x k. ground (arith, k)),
        ))

  -- Whether one of the listed paths names the file.
  abbrev pub is_named : List (List Bytes) → Bool
  is_named listed = any (any names_file) listed

  match_all-claims :
      (originals : List Bytes) (listed : List (List Bytes)) (m : Matching)
      → claims (match_all originals listed m) ≡ true
      → (claims m || is_named listed) ≡ true
  unfolding match_all any
  match_all-claims originals [] m h = ground (arith, h)
  match_all-claims originals (rs ∷ listed) m h = ground (
    arith,
    match_all-claims originals listed (match_direct originals rs m) h,
    match_direct-claims originals rs m,
  )

  resolve_in_dir-resolves :
      (originals ds : List Bytes)
      → contains_path (resolve_in_dir paths originals ds) f ≡ true
      → any resolves ds ≡ true
  unfolding resolve_in_dir any
  resolve_in_dir-resolves originals [] h = h
  resolve_in_dir-resolves originals (d ∷ ds) h =
      found_or (contains_path originals) f (candidates paths d) (resolve_in_dir paths originals ds)
        (any resolves ds) h (resolve_in_dir-resolves originals ds)

  hits-same :
      (originals rs : List Bytes)
      → contains_path (hits paths originals (map (try_canonicalize paths) rs)) f ≡ true
      → any_same rs ≡ true
  unfolding hits any
  hits-same originals [] h = h
  hits-same originals (r ∷ rs) h = ground (
    arith,
    h,
    any-append (bytes_eq f) (filter (is_canonical paths (try_canonicalize paths r)) originals)
        (hits paths originals (map (try_canonicalize paths) rs)),
    contains_path-filter (is_canonical paths (try_canonicalize paths r)) f originals,
    hits-same originals rs,
  )

  match_canonical-same :
      (originals : List Bytes) (rest : List (List Bytes)) (matched extras : List Bytes)
      → contains_path (match_canonical paths originals rest (matched, extras)).0 f ≡ true
      → (contains_path matched f || any any_same rest) ≡ true
  unfolding match_canonical any
  match_canonical-same originals [] matched extras h = ground (arith, h)
  match_canonical-same originals (rs ∷ rest) matched extras h =
      if_cases {A = List Bytes × List Bytes}
        (λ acc.
          contains_path (match_canonical paths originals rest acc).0 f ≡ true
          → (contains_path matched f || (any_same rs || any any_same rest)) ≡ true)
        (is_empty (hits paths originals (map (try_canonicalize paths) rs)))
        (matched, insert_first extras (map (try_canonicalize paths) rs))
        (matched ++ hits paths originals (map (try_canonicalize paths) rs), extras)
        (λ _ k. ground (
          arith,
          match_canonical-same originals rest matched
              (insert_first extras (map (try_canonicalize paths) rs)) k,
        ))
        (λ _ k. ground (
          arith,
          match_canonical-same originals rest
              (matched ++ hits paths originals (map (try_canonicalize paths) rs)) extras k,
          any-append (bytes_eq f) matched (hits paths originals (map (try_canonicalize paths) rs)),
          hits-same originals rs,
        ))
        h

  -- What is found as written stays found.
  match_direct-matched :
      (originals rs : List Bytes) (m : Matching)
      → (contains_path m.matched f || (contains_path originals f && contains_path rs f)) ≡ true
      → contains_path (match_direct originals rs m).matched f ≡ true
  unfolding match_direct any
  match_direct-matched originals rs m h =
      elim (Bool-cases (is_empty (filter (contains_path originals) rs))) [
        | inl e ↦ rw e (
            ground (
              arith,
              h,
              contains_path-filter (contains_path originals) f rs,
              nothing (filter (contains_path originals) rs) e,
            ))
        | inr e ↦ rw e (
            ground (
              arith,
              h,
              contains_path-filter (contains_path originals) f rs,
              any-append (bytes_eq f) m.matched (filter (contains_path originals) rs),
            ))
      ]
    where
      nothing : (xs : List Bytes) → is_empty xs ≡ true → any (bytes_eq f) xs ≡ false
      nothing [] k = refl
      nothing (x ∷ xs) k = absurd (cc)

  match_all-matched :
      (originals : List Bytes) (listed : List (List Bytes)) (m : Matching)
      → contains_path originals f ≡ true
      → (contains_path m.matched f || any (any (bytes_eq f)) listed) ≡ true
      → contains_path (match_all originals listed m).matched f ≡ true
  unfolding match_all any
  match_all-matched originals [] m o h = ground (arith, h)
  match_all-matched originals (rs ∷ listed) m o h =
      match_all-matched originals listed (match_direct originals rs m) o
        (ground (arith, h, o, match_direct-matched originals rs m))

  match_canonical-keeps :
      (originals : List Bytes) (rest : List (List Bytes)) (matched extras : List Bytes)
      → contains_path matched f ≡ true
      → contains_path (match_canonical paths originals rest (matched, extras)).0 f ≡ true
  unfolding match_canonical
  match_canonical-keeps originals [] matched extras h = h
  match_canonical-keeps originals (rs ∷ rest) matched extras h =
      let found = hits paths originals (map (try_canonicalize paths) rs) in
      if_cases {A = List Bytes × List Bytes}
        (λ acc. contains_path (match_canonical paths originals rest acc).0 f ≡ true)
        (is_empty found) (matched, insert_first extras (map (try_canonicalize paths) rs))
        (matched ++ found, extras)
        (λ _.
          match_canonical-keeps originals rest matched
            (insert_first extras (map (try_canonicalize paths) rs)) h)
        (λ _.
          match_canonical-keeps originals rest (matched ++ found) extras
            (ground (arith, h, any-append (bytes_eq f) matched found)))

module _ (paths : Paths) (originals : List Bytes) (listed : List (List Bytes)) (f : Bytes) where
  contains_path-found : contains_path (match_listed_files paths originals listed).0 f ≡ (
      contains_path originals f
      && contains_path
          (match_canonical paths originals (match_all originals listed no_matching).unmatched (
            (match_all originals listed no_matching).matched
                ++ resolve_in_dir paths originals (match_all originals listed no_matching).in_dir,
            [],
          )).0
          f)
  unfolding match_listed_files any
  contains_path-found =
      let m = match_all originals listed no_matching in
      let found =
        (match_canonical paths originals m.unmatched
          (m.matched ++ resolve_in_dir paths originals m.in_dir, [])).0 in
      contains_path-unique f [] (filter (contains_path found) originals)
      ∙ contains_path-filter (contains_path found) f originals

-- A file of the job that a listed path names as written is among the files that are found.
pub match_listed_files-finds :
    (paths : Paths) (originals : List Bytes) (listed : List (List Bytes)) (f : Bytes)
    → (contains_path originals f && any (any (bytes_eq f)) listed) ≡ true
    → contains_path (match_listed_files paths originals listed).0 f ≡ true
unfolding any
match_listed_files-finds paths originals listed f h =
    let m = match_all originals listed no_matching in
    let resolved = resolve_in_dir paths originals m.in_dir in
    let first : contains_path m.matched f ≡ true =
      match_all-matched paths f originals listed no_matching (ground (arith, h))
        (ground (arith, h)) in
    let last =
      match_canonical-keeps paths f originals m.unmatched (m.matched ++ resolved) []
        (ground (arith, any-append (bytes_eq f) m.matched resolved, first)) in
    ground (arith, h, contains_path-found paths originals listed f, last)

-- A file that is found is a file of the job that a listed path names: as written, as what it resolves to, or by
-- the same canonical path.
pub match_listed_files-named :
    (paths : Paths) (originals : List Bytes) (listed : List (List Bytes)) (f : Bytes)
    → contains_path (match_listed_files paths originals listed).0 f ≡ true
    → (contains_path originals f && is_named paths f listed) ≡ true
unfolding any
match_listed_files-named paths originals listed f h =
    let m = match_all originals listed no_matching in
    let resolved = resolve_in_dir paths originals m.in_dir in
    let known = sym (contains_path-found paths originals listed f) ∙ h in
    let same =
      match_canonical-same paths f originals m.unmatched (m.matched ++ resolved) []
        (ground (arith, known)) in
    let claimed : claims paths f m ≡ true = ground (
      arith,
      same,
      any-append (bytes_eq f) m.matched resolved,
      resolve_in_dir-resolves paths f originals m.in_dir,
    ) in
    ground (arith, known, match_all-claims paths f originals listed no_matching claimed)
