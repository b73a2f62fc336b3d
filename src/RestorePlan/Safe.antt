-- ===== src/RestorePlan/Safe.antt =====
-- src/git.rs, `restore_plan`: what steps changed is not overwritten.
use hk.Prelude.{
  ◌≡◌, refl, inl, inr, ◌⊎◌, true, false, ◌&&◌, not, Option, none, some, List, [], ◌∷◌, arith, Bytes,
  bytes_eq, bytes_eq_refl, any, if◌then◌else◌, if_cases, Bool-cases,
}
use hk.RestorePlan.{
  Metadata, Worktree, matches, ToRestore, StashedChanges, to_restore, Reason, parent_changed,
  path_changed, RestorePlan, is_dir, skips, changed_parent, can_merge, add_conflict, plan_path,
  plan_paths, empty_plan, restore_plan,
}

-- Up to the first that is not there, each parent is a directory or is as the index has it.
abbrev pub KeptParents : Worktree → List Bytes → Type 0
KeptParents w [] = Unit
KeptParents w (p ∷ ps) =
    (w.metadata p ≡ none)
    ⊎ ((m : Metadata) × (w.metadata p ≡ some m)
        × ((is_dir m ≡ true) ⊎ (matches w p (w.index p) ≡ true))
        × KeptParents w ps)

changed_parent-none :
    (w : Worktree) (ps : List Bytes) → changed_parent w ps ≡ none → KeptParents w ps
unfolding changed_parent
changed_parent-none w [] h = tt
changed_parent-none w (p ∷ ps) h = go (w.metadata p) refl h (changed_parent-none w ps)
  where
    go :
        (o : Option Metadata)
        → w.metadata p ≡ o
        → elim o as (λ _. Option Bytes) [
          | none ↦ none
          | some m ↦
              if not (is_dir m) && not (matches w p (w.index p))
              then some p
              else changed_parent w ps
        ]
          ≡ none
        → (changed_parent w ps ≡ none → KeptParents w ps)
        → KeptParents w (p ∷ ps)
    go none e k later = inl e
    go (some m) e k later =
        if_cases {A = Option Bytes} (λ o. o ≡ none → KeptParents w (p ∷ ps))
          (not (is_dir m) && not (matches w p (w.index p))) (some p) (changed_parent w ps)
          (λ b i. absurd (cc)) (λ b i. inr (m, e, kept b, later i)) k
      where
        kept :
            (not (is_dir m) && not (matches w p (w.index p))) ≡ false
            → (is_dir m ≡ true) ⊎ (matches w p (w.index p) ≡ true)
        kept b = elim (Bool-cases (is_dir m)) [ inl d ↦ inl d | inr d ↦ inr (ground (arith, b, d)) ]

-- What makes restoring a path over the worktree safe.
abbrev pub IsRestorable : Worktree → RestorePlan → ToRestore → Type 0
IsRestorable w plan t =
    KeptParents w (w.parents t.path)
    × ((matches w t.path (w.index t.path) ≡ true)
        ⊎ ((any (bytes_eq t.path) plan.merged ≡ true) × (can_merge w t ≡ true)))

-- A later plan skips and merges what an earlier one does.
pub record Extends (a b : RestorePlan) : Type 0 where
  pub skips_more : (p : Bytes) → skips a p ≡ true → skips b p ≡ true
  pub merges_more :
      (p : Bytes) → any (bytes_eq p) a.merged ≡ true → any (bytes_eq p) b.merged ≡ true

-- The ways that one round goes.
plan_path_cases :
    (P : RestorePlan → Type 0) (w : Worktree) (t : ToRestore) (plan : RestorePlan)
    → ((r : Reason) → P (add_conflict t.path r plan))
    → P (record plan { unchanged = t.path ∷ plan.unchanged })
    → (KeptParents w (w.parents t.path) → matches w t.path (w.index t.path) ≡ true → P plan)
    → (KeptParents w (w.parents t.path)
        → can_merge w t ≡ true
        → P (record plan { merged = t.path ∷ plan.merged }))
    → P (plan_path w t plan)
unfolding plan_path
plan_path_cases P w t plan f g h k = go (changed_parent w (w.parents t.path)) refl
  where
    free : RestorePlan
    free =
        if matches w t.path (w.stashed t.path)
        then record plan { unchanged = t.path ∷ plan.unchanged }
        else if matches w t.path (w.index t.path)
        then plan
        else if can_merge w t
        then record plan { merged = t.path ∷ plan.merged }
        else add_conflict t.path path_changed plan

    go :
        (o : Option Bytes)
        → changed_parent w (w.parents t.path) ≡ o
        → P (elim o as (λ _. RestorePlan) [
          | some p ↦ add_conflict t.path (parent_changed p) plan
          | none ↦ free
        ])
    go (some p) e = f (parent_changed p)
    go none e =
        let kept = changed_parent-none w (w.parents t.path) e in
        if_cases {A = RestorePlan} P (matches w t.path (w.stashed t.path)) _ _ (λ _. g)
          (λ _.
            if_cases {A = RestorePlan} P (matches w t.path (w.index t.path)) _ _ (h kept) (λ _.
              if_cases {A = RestorePlan} P (can_merge w t) _ _ (k kept) (λ _. f path_changed)))

plan_path-Extends :
    (w : Worktree) (t : ToRestore) (plan : RestorePlan) → Extends plan (plan_path w t plan)
unfolding skips any
plan_path-Extends w t plan =
    plan_path_cases (Extends plan) w t plan
      (λ r. record { skips_more = λ p h. ground (arith, h); merges_more = λ p h. h })
      (record { skips_more = λ p h. ground (arith, h); merges_more = λ p h. h })
      (λ _ _. record { skips_more = λ p h. h; merges_more = λ p h. h })
      (λ _ _. record { skips_more = λ p h. h; merges_more = λ p h. ground (arith, h) })

plan_paths-Extends :
    (w : Worktree) (ts : List ToRestore) (plan : RestorePlan) → Extends plan (plan_paths w ts plan)
unfolding plan_paths
plan_paths-Extends w [] plan = record { skips_more = λ p h. h; merges_more = λ p h. h }
plan_paths-Extends w (t ∷ ts) plan =
    let a = plan_path-Extends w t plan in
    let b = plan_paths-Extends w ts (plan_path w t plan) in
    record {
      skips_more = λ p h. b.skips_more p (a.skips_more p h);
      merges_more = λ p h. b.merges_more p (a.merges_more p h);
    }

not_skipped : (a b : RestorePlan) (p : Bytes) → Extends a b → skips b p ≡ false → skips a p ≡ false
not_skipped a b p e h = elim (Bool-cases (skips a p)) [
  | inl k ↦ absurd (cc (h, e.skips_more p k))
  | inr k ↦ k
]

plan_path-IsRestorable :
    (w : Worktree) (t : ToRestore) (plan : RestorePlan)
    → skips (plan_path w t plan) t.path ≡ false
    → IsRestorable w (plan_path w t plan) t
unfolding skips any
plan_path-IsRestorable w t plan =
    plan_path_cases (λ r. skips r t.path ≡ false → IsRestorable w r t) w t plan
      (λ r h. absurd (ground (arith, h, bytes_eq_refl t.path)))
      (λ h. absurd (ground (arith, h, bytes_eq_refl t.path))) (λ kept e h. (kept, inl e))
      (λ kept e h. (kept, inr (ground (arith, bytes_eq_refl t.path), e)))

IsRestorable-Extends :
    (w : Worktree) (t : ToRestore) (a b : RestorePlan)
    → Extends a b
    → IsRestorable w a t
    → IsRestorable w b t
IsRestorable-Extends w t a b e (kept, inl i) = (kept, inl i)
IsRestorable-Extends w t a b e (kept, inr (m, c)) = (kept, inr (e.merges_more t.path m, c))

abbrev pub AllRestorable : Worktree → RestorePlan → List ToRestore → Type 0
AllRestorable w plan [] = Unit
AllRestorable w plan (t ∷ ts) =
    ((skips plan t.path ≡ true) ⊎ IsRestorable w plan t) × AllRestorable w plan ts

plan_paths-AllRestorable :
    (w : Worktree) (ts : List ToRestore) (plan : RestorePlan)
    → AllRestorable w (plan_paths w ts plan) ts
unfolding plan_paths
plan_paths-AllRestorable w [] plan = tt
plan_paths-AllRestorable w (t ∷ ts) plan =
    let next = plan_path w t plan in
    let e = plan_paths-Extends w ts next in
    (
      elim (Bool-cases (skips (plan_paths w ts next) t.path)) [
        | inl k ↦ inl k
        | inr k ↦ inr (
            IsRestorable-Extends w t next (plan_paths w ts next) e (
              plan_path-IsRestorable w t plan (not_skipped next (plan_paths w ts next) t.path e k)))
      ],
      plan_paths-AllRestorable w ts next,
    )

-- Each path to restore is skipped by the plan or safe to write: up to the first that is not there, each
-- of its parents is a directory or is as the stashed index has it; and the path itself is as the stashed
-- index has it, or it is planned to be merged, and is a regular file on disk, in the index and in the stash.
pub restore_plan-AllRestorable :
    (w : Worktree) (s : StashedChanges) (skip : List Bytes)
    → AllRestorable w (restore_plan w s skip) (to_restore s skip)
restore_plan-AllRestorable w s skip = plan_paths-AllRestorable w (to_restore s skip) empty_plan
