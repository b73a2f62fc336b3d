-- ===== src/Patches/Planned.antt =====
-- src/step/diff.rs, `apply_patch` up to its first write: what its plan of changes is.
use hk.Prelude.{
  inl, inr, Bool-cases, ℕ, ◌≡◌, refl, subst, inl, inr, Bool, true, false, ◌&&◌, ◌||◌, Option, none,
  some, List, [], ◌∷◌, arith, Bytes, any, if◌then◌else◌, if_cases, Bool-cases,
}
use hk.Patches.{
  Operation, modify, create, delete, rename_or_copy, PatchKind, text, binary, FilePatch, Env,
  Component, same_path, leaves, names_dot_git, is_checked, has_unsupported_header,
}
use hk.Patches.Plan.{
  Change, Disk, put_change, Target, contents_after, accepts, file_at, is_known, target_if, target,
  current, fits_operation, patched_to, is_refused, put_if, change_file, change_target, plan_one,
  plan_all, unless_empty, plan,
}
use hk.Patches.Commit.{}
use hk.Patches.Undo.{AllHonest}

abbrev pub at_path : List Component → Change → Bool
at_path p c = same_path c.path p

-- No path is a path of a later change.
abbrev pub DistinctPaths : List Change → Type 0
DistinctPaths [] = Unit
DistinctPaths (c ∷ cs) =
    (any (λ (d : Change). same_path c.path d.path) cs ≡ false) × DistinctPaths cs

put_change-later :
    (q p : List Component) (f : Bytes) (o t : Option Bytes) (cs : List Change)
    → any (λ (d : Change). same_path q d.path) cs ≡ false
    → same_path q p ≡ false
    → any (λ (d : Change). same_path q d.path) (put_change p f o t cs) ≡ false
unfolding any put_change
put_change-later q p f o t [] h k = ground (arith, k)
put_change-later q p f o t (c ∷ cs) h k = elim (Bool-cases (same_path c.path p)) [
  | inl e ↦ rw e (ground (arith, h))
  | inr e ↦ rw e (ground (arith, h, put_change-later q p f o t cs (ground (arith, h)) k))
]

put_change-DistinctPaths :
    (p : List Component) (f : Bytes) (o t : Option Bytes) (cs : List Change)
    → DistinctPaths cs
    → DistinctPaths (put_change p f o t cs)
unfolding put_change any
put_change-DistinctPaths p f o t [] d = (refl, tt)
put_change-DistinctPaths p f o t (c ∷ cs) (d, ds) =
    if_cases {A = List Change} DistinctPaths (same_path c.path p) (record c { contents = t } ∷ cs)
      (c ∷ put_change p f o t cs) (λ _. (d, ds))
      (λ e. (put_change-later c.path p f o t cs d e, put_change-DistinctPaths p f o t cs ds))

module _ {P : Type 0} (env : Env P) (disk : Disk) where
  -- What `checked_path` lets through.
  abbrev pub IsAccepted : List Component → Type 0
  IsAccepted p = (any leaves p ≡ false) × (names_dot_git p ≡ false)

  abbrev pub AllAccepted : List Change → Type 0
  AllAccepted [] = Unit
  AllAccepted (c ∷ cs) = IsAccepted c.path × AllAccepted cs

  -- What holds of the changes that a plan collects.
  pub record IsPlan (cs : List Change) : Type 0 where
    pub distinct : DistinctPaths cs
    pub honest : AllHonest disk cs
    pub accepted : AllAccepted cs

  put_change-AllHonest :
      (p : List Component) (f : Bytes) (t : Option Bytes) (cs : List Change)
      → AllHonest disk cs
      → AllHonest disk (put_change p f (disk f) t cs)
  unfolding put_change
  put_change-AllHonest p f t [] h = (refl, tt)
  put_change-AllHonest p f t (c ∷ cs) (h, hs) =
      if_cases {A = List Change} (AllHonest disk) (same_path c.path p)
        (record c { contents = t } ∷ cs) (c ∷ put_change p f (disk f) t cs) (λ _. (h, hs))
        (λ _. (h, put_change-AllHonest p f t cs hs))

  put_change-AllAccepted :
      (p : List Component) (f : Bytes) (o t : Option Bytes) (cs : List Change)
      → IsAccepted p
      → AllAccepted cs
      → AllAccepted (put_change p f o t cs)
  unfolding put_change
  put_change-AllAccepted p f o t [] a h = (a, tt)
  put_change-AllAccepted p f o t (c ∷ cs) a (h, hs) =
      if_cases {A = List Change} AllAccepted (same_path c.path p) (record c { contents = t } ∷ cs)
        (c ∷ put_change p f o t cs) (λ _. (h, hs))
        (λ _. (h, put_change-AllAccepted p f o t cs a hs))

  accepts-IsAccepted : (p : Bytes) → accepts env disk p ≡ true → IsAccepted (env.components p)
  unfolding is_checked
  accepts-IsAccepted p h = (ground (arith, h), ground (arith, h))

  abbrev PathAccepted : Option Target → Type 0
  PathAccepted none = Unit
  PathAccepted (some t) = accepts env disk t.path ≡ true

  target_if-PathAccepted : (p : Bytes) (c d : Bool) → PathAccepted (target_if env disk p c d)
  target_if-PathAccepted p c d =
      if_cases {A = Option Target} PathAccepted (accepts env disk p)
        (some (record { path = p; creates = c; deletes = d })) none (λ e. e) (λ _. tt)

  target-PathAccepted :
      (files : List Change) (op : Operation) → PathAccepted (target env disk files op)
  unfolding target
  target-PathAccepted files (modify o m) =
      if_cases {A = Option Target} PathAccepted
        (names_dot_git (env.components o) || names_dot_git (env.components m)) none _ (λ _. tt)
        (λ _.
          if_cases {A = Option Target} PathAccepted
            (accepts env disk o && is_known env disk files o) (target_if env disk o false false)
            (target_if env disk m false false) (λ _. target_if-PathAccepted o false false)
            (λ _. target_if-PathAccepted m false false))
  target-PathAccepted files (create p) = target_if-PathAccepted p true false
  target-PathAccepted files (delete p) = target_if-PathAccepted p false true
  target-PathAccepted files rename_or_copy = tt

  abbrev PlanOf : Option (List Change) → Type 0
  PlanOf none = Unit
  PlanOf (some cs) = IsPlan cs

  put_if-PlanOf :
      (files : List Change) (t : Target) (new : Option Bytes)
      → IsPlan files
      → accepts env disk t.path ≡ true
      → PlanOf (put_if env disk files t new)
  put_if-PlanOf files t none h a = tt
  put_if-PlanOf files t (some new) h a =
      let p = env.components t.path in
      let f = file_at env disk t.path in
      let after = contents_after t.deletes new in
      record {
        distinct = put_change-DistinctPaths p f (disk f) after files h.distinct;
        honest = put_change-AllHonest p f after files h.honest;
        accepted =
            put_change-AllAccepted p f (disk f) after files (accepts-IsAccepted t.path a)
              h.accepted;
      }

  change_target-PlanOf :
      (files : List Change) (p : P) (t : Option Target)
      → IsPlan files
      → PathAccepted t
      → PlanOf (change_target env disk files p t)
  unfolding change_file
  change_target-PlanOf files p none h a = tt
  change_target-PlanOf files p (some t) h a =
      if_cases {A = Option (List Change)} PlanOf (is_refused env disk t.path) none _ (λ _. tt)
        (λ _. read (current env disk files t.path))
    where
      read :
          (o : Option (Option Bytes))
          → PlanOf (elim o as (λ _. Option (List Change)) [
            | none ↦ none
            | some now ↦
                if fits_operation env disk t now
                then put_if env disk files t (patched_to env disk p now)
                else none
          ])
      read none = tt
      read (some now) =
          if_cases {A = Option (List Change)} PlanOf (fits_operation env disk t now)
            (put_if env disk files t (patched_to env disk p now)) none
            (λ _. put_if-PlanOf files t (patched_to env disk p now) h a) (λ _. tt)

  plan_one-PlanOf :
      (strip : ℕ) (files : List Change) (fp : Option (FilePatch P))
      → IsPlan files
      → PlanOf (plan_one env disk strip files fp)
  unfolding plan_one
  plan_one-PlanOf strip files none h = tt
  plan_one-PlanOf strip files (some fp) h = go fp.patch
    where
      go :
          (k : PatchKind P)
          → PlanOf (elim k as (λ _. Option (List Change)) [
            | binary ↦ none
            | text p ↦
                change_target env disk files p
                  (target env disk files (env.strip_prefix strip fp.operation))
          ])
      go binary = tt
      go (text p) =
          let op = env.strip_prefix strip fp.operation in
          change_target-PlanOf files p (target env disk files op) h (target-PathAccepted files op)

  plan_all-PlanOf :
      (strip : ℕ) (files : List Change) (fps : List (Option (FilePatch P)))
      → IsPlan files
      → PlanOf (plan_all env disk strip files fps)
  unfolding plan_all
  plan_all-PlanOf strip files [] h = h
  plan_all-PlanOf strip files (fp ∷ fps) h =
      go (plan_one env disk strip files fp) (plan_one-PlanOf strip files fp h)
        (λ more k. plan_all-PlanOf strip more fps k)
    where
      go :
          (o : Option (List Change))
          → PlanOf o
          → ((more : List Change) → IsPlan more → PlanOf (plan_all env disk strip more fps))
          → PlanOf (elim o as (λ _. Option (List Change)) [
            | none ↦ none
            | some more ↦ plan_all env disk strip more fps
          ])
      go none k rest = tt
      go (some more) k rest = rest more k

  unless_empty-PlanOf : (o : Option (List Change)) → PlanOf o → PlanOf (unless_empty env disk o)
  unless_empty-PlanOf none h = tt
  unless_empty-PlanOf (some []) h = tt
  unless_empty-PlanOf (some (c ∷ cs)) h = h

  pub plan-IsPlan :
      (diff : Bytes) (strip : ℕ) (cs : List Change) → plan env disk diff strip ≡ some cs → IsPlan cs
  unfolding plan
  plan-IsPlan diff strip cs h = subst PlanOf h (
      if_cases {A = Option (List Change)} PlanOf (has_unsupported_header diff) none _ (λ _. tt)
        (λ _. unless_empty-PlanOf (plan_all env disk strip [] (env.parse diff)) (
          plan_all-PlanOf strip [] (env.parse diff)
            (record { distinct = tt; honest = tt; accepted = tt }))))
