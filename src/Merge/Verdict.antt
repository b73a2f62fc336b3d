-- ===== src/Merge/Verdict.antt =====
-- src/merge.rs: the theorems about `three_way_merge_hunks` and `hunks_overlap` as they are called.
use hk.Prelude.{
  ℕ, ◌+◌, ◌≡◌, refl, ap, sym, ◌∙◌, inl, inr, some, List, [], Bytes, true, false, arith, length, ◌∷◌,
  bytes_eq, bytes_eq→eq, bytes_eq_refl, Bool-cases, split_inclusive, concat,
}
use hk.Merge.{
  Hunk, HunkSource, fixer, worktree, any_overlaps, diff_hunks, hunks_overlap, three_way_merge_hunks,
}
use hk.Merge.Hunks.{patched, InOrder, InOrder-gap}
use hk.Merge.RoundTrip.{diff_hunks-InOrder, patched-diff_hunks}
use hk.Merge.Choice.{chosen, of_source, AllFrom}
use hk.Merge.ThreeWay.{merge_loop-chosen}
use hk.Merge.Sources.{Ready, diff_hunks-AllFrom}
use hk.Merge.Keeps.{chosen-of_worktree, chosen-of_fixer, chosen-InOrder}

-- The two texts of a merge and their hunks.
module _ (base f w : Bytes) where
  abbrev fixes : List Hunk
  fixes = diff_hunks base f fixer

  abbrev works : List Hunk
  works = diff_hunks base w worktree

  abbrev rounds : ℕ
  rounds = length fixes + length works + 1

  merge-Ready : Ready rounds 0 0 (length (split_inclusive base)) fixes works
  merge-Ready = record {
    fuelled = omega arith;
    inside = omega arith;
    fixes = diff_hunks-InOrder base f fixer;
    works = diff_hunks-InOrder base w worktree;
    from_fixer = diff_hunks-AllFrom base f fixer;
    from_worktree = diff_hunks-AllFrom base w worktree;
  }

  abbrev applied : List Hunk
  applied = chosen rounds 0 fixes works

  merge-changed :
      bytes_eq w base ≡ false
      → three_way_merge_hunks base (some f) (some w)
        ≡ some (concat (patched 0 (split_inclusive base) applied))
  unfolding three_way_merge_hunks
  merge-changed e =
      let r = merge-Ready in
      rw (
        e,
        merge_loop-chosen (split_inclusive base) rounds 0 0 fixes works r.fuelled r.inside r.fixes
            r.works,
      )

diff_hunks_self :
    (base other : Bytes) (s : HunkSource) → base ≡ other → diff_hunks base other s ≡ []
unfolding diff_hunks
diff_hunks_self base other s e = rw (← e, bytes_eq_refl base)

of_source-AllFrom_fixer : (hs : List Hunk) → AllFrom fixer hs → of_source worktree hs ≡ []
unfolding of_source
of_source-AllFrom_fixer [] a = refl
of_source-AllFrom_fixer (h ∷ hs) (a, b) = simp a (of_source-AllFrom_fixer hs b)

of_source_self : (hs : List Hunk) → AllFrom fixer hs → of_source fixer hs ≡ hs
unfolding of_source
of_source_self [] a = refl
of_source_self (h ∷ hs) (a, b) = simp a (ap (λ t. h ∷ t) (of_source_self hs b))

-- Hunks of which none is the fixer's are the worktree's.
of_source-no_fixer : (hs : List Hunk) → of_source fixer hs ≡ [] → of_source worktree hs ≡ hs
unfolding of_source
of_source-no_fixer [] a = refl
of_source-no_fixer (h ∷ hs) a = ground (arith, of_source-no_fixer hs)

hunks_overlap_lem :
    (base f w : Bytes)
    → hunks_overlap base f w ≡ any_overlaps (diff_hunks base f fixer) (diff_hunks base w worktree)
unfolding hunks_overlap
hunks_overlap_lem base f w = refl

-- A text that differs from a text already equal to the base.
merge-unchanged :
    (base f w : Bytes)
    → bytes_eq w base ≡ true
    → three_way_merge_hunks base (some f) (some w)
      ≡ some (concat (patched 0 (split_inclusive base) (diff_hunks base f fixer)))
unfolding three_way_merge_hunks
merge-unchanged base f w e = rw e (ap some (sym (patched-diff_hunks base f fixer)))

-- The merge ends without a panic for all texts. Its result is the base with hunks applied that lie
-- within the base, in order and without overlap, and those with source `Worktree` among them are
-- exactly the hunks of the worktree: no change of the worktree is lost.
pub merge-keeps_worktree :
    (base f w : Bytes)
    → (hs : List Hunk) × (three_way_merge_hunks base (some f) (some w)
        ≡ some (concat (patched 0 (split_inclusive base) hs)))
      × InOrder 0 0 (length (split_inclusive base)) hs
      × (of_source worktree hs ≡ diff_hunks base w worktree)
merge-keeps_worktree base f w = elim (Bool-cases (bytes_eq w base)) [
  | inl e ↦ (
    diff_hunks base f fixer,
    merge-unchanged base f w e,
    InOrder-gap 0 (length (split_inclusive base)) (diff_hunks base f fixer)
        (diff_hunks-InOrder base f fixer),
    of_source-AllFrom_fixer (diff_hunks base f fixer) (diff_hunks-AllFrom base f fixer)
        ∙ sym (diff_hunks_self base w worktree (sym (bytes_eq→eq w base e))),
  )
  | inr e ↦ (
    applied base f w,
    merge-changed base f w e,
    chosen-InOrder _ _ 0 0 (fixes base f w) (works base f w) (merge-Ready base f w),
    chosen-of_worktree _ _ 0 0 (fixes base f w) (works base f w) (merge-Ready base f w),
  )
]

-- Where `hunks_overlap` is false, the merge applies exactly the hunks of both sides: the fixer's and
-- the worktree's, each in their order.
pub merge-keeps_both :
    (base f w : Bytes)
    → hunks_overlap base f w ≡ false
    → (hs : List Hunk) × (three_way_merge_hunks base (some f) (some w)
        ≡ some (concat (patched 0 (split_inclusive base) hs)))
      × (of_source fixer hs ≡ diff_hunks base f fixer)
      × (of_source worktree hs ≡ diff_hunks base w worktree)
merge-keeps_both base f w v = elim (Bool-cases (bytes_eq w base)) [
  | inl e ↦ (
    diff_hunks base f fixer,
    merge-unchanged base f w e,
    of_source_self (diff_hunks base f fixer) (diff_hunks-AllFrom base f fixer),
    of_source-AllFrom_fixer (diff_hunks base f fixer) (diff_hunks-AllFrom base f fixer)
        ∙ sym (diff_hunks_self base w worktree (sym (bytes_eq→eq w base e))),
  )
  | inr e ↦ (
    applied base f w,
    merge-changed base f w e,
    chosen-of_fixer _ _ 0 (fixes base f w) (works base f w) (merge-Ready base f w)
        (sym (hunks_overlap_lem base f w) ∙ v),
    chosen-of_worktree _ _ 0 0 (fixes base f w) (works base f w) (merge-Ready base f w),
  )
]

hunks_overlap-unchanged : (base w : Bytes) → hunks_overlap base base w ≡ false
hunks_overlap-unchanged base w =
    rw (hunks_overlap_lem base base w, diff_hunks_self base base fixer refl)
      (unfold any_overlaps in refl)

-- If the fixer changed nothing, the merge is the worktree's text; if the worktree changed nothing,
-- it is the fixer's.
pub merge-one_side :
    (base other : Bytes)
    → (three_way_merge_hunks base (some base) (some other) ≡ some other)
      × (three_way_merge_hunks base (some other) (some base) ≡ some other)
merge-one_side base other = (worktree_only, unfold three_way_merge_hunks in rw (bytes_eq_refl base))
  where
    worktree_only : three_way_merge_hunks base (some base) (some other) ≡ some other
    worktree_only =
        let (hs, e, p, q) = merge-keeps_both base base other (hunks_overlap-unchanged base other) in
        let all : hs ≡ diff_hunks base other worktree =
          sym (of_source-no_fixer hs (p ∙ diff_hunks_self base base fixer refl)) ∙ q in
        e
        ∙ ap (λ t. some (concat (patched 0 (split_inclusive base) t))) all
        ∙ ap some (patched-diff_hunks base other worktree)
