-- ===== src/Merge/Sources.antt =====
-- src/merge.rs: every hunk of `diff_hunks` carries the source that it was asked for, and what the
-- merge keeps of each source.
use hk.Prelude.{
  ℕ, suc, ◌+◌, ◌≤◌, ◌<◌, refl, subst, inl, inr, Option, none, some, List, [], ◌∷◌, ◌++◌, Bytes,
  arith, length, if_cases, bytes_eq, leb, split_inclusive,
}
use hk.Merge.{
  Hunk, HunkSource, fixer, worktree, finish, close, opened, walk, entry, skip_fixer, diff_hunks,
}
use hk.Merge.Hunks.{InOrder}
use hk.Merge.Choice.{AllFrom, Picked, length-skip_fixer-le, skip_fixer-AllFrom}
use hk.Merge.ThreeWay.{picked_length}

finish-AllFrom :
    (s : HunkSource) (n i : ℕ) (cur : Option ℕ) (lines xs ys : List Bytes)
    → AllFrom s (finish s n i cur lines xs ys)
unfolding finish
finish-AllFrom s n i (some b) lines xs ys = (refl, tt)
finish-AllFrom s n i none lines xs (y ∷ ys) = (refl, tt)
finish-AllFrom s n i none lines (x ∷ xs) [] = (refl, tt)
finish-AllFrom s n i none lines [] [] = tt

close-AllFrom :
    (s : HunkSource) (i : ℕ) (cur : Option ℕ) (lines : List Bytes) (hs : List Hunk)
    → AllFrom s hs
    → AllFrom s (close s i cur lines hs)
unfolding close
close-AllFrom s i none lines hs a = a
close-AllFrom s i (some b) lines hs a = (refl, a)

walk-AllFrom :
    (s : HunkSource) (dp : List (List ℕ)) (n i j : ℕ) (cur : Option ℕ) (lines xs ys : List Bytes)
    → AllFrom s (walk s dp n i j cur lines xs ys)
unfolding walk
walk-AllFrom s dp n i j cur lines [] ys = finish-AllFrom s n i cur lines [] ys
walk-AllFrom s dp n i j cur lines (x ∷ xs) [] = finish-AllFrom s n i cur lines (x ∷ xs) []
walk-AllFrom s dp n i j cur lines (x ∷ xs) (y ∷ ys) =
    if_cases (AllFrom s) (bytes_eq x y) _ _
      (λ _. close-AllFrom s i cur lines _ (walk-AllFrom s dp n (i + 1) (j + 1) none [] xs ys))
      λ _.
        if_cases (AllFrom s) (leb (entry dp i (j + 1)) (entry dp (i + 1) j)) _ _
          (λ _. walk-AllFrom s dp n (i + 1) j (some (opened cur i)) lines xs (y ∷ ys))
          λ _. walk-AllFrom s dp n i (j + 1) (some (opened cur i)) (lines ++ y ∷ []) (x ∷ xs) ys

pub diff_hunks-AllFrom : (base other : Bytes) (s : HunkSource) → AllFrom s (diff_hunks base other s)
unfolding diff_hunks
diff_hunks-AllFrom base other s =
    if_cases (AllFrom s) (bytes_eq base other) _ _ (λ _. tt)
      λ _. walk-AllFrom s _ _ 0 0 none [] (split_inclusive base) (split_inclusive other)

-- What is known of the loop's arguments.
pub record Ready (fuel idx q n : ℕ) (fs ws : List Hunk) : Type 0 where
  pub fuelled : length fs + length ws < fuel
  pub inside : idx ≤ n
  pub fixes : InOrder 1 q n fs
  pub works : InOrder 1 idx n ws
  pub from_fixer : AllFrom fixer fs
  pub from_worktree : AllFrom worktree ws

pub Picked-Ready :
    (fuel idx q n : ℕ) (fs ws : List Hunk) (h : Hunk) (fs' ws' : List Hunk)
    → Ready (suc fuel) idx q n fs ws
    → Picked idx n (skip_fixer idx fs) ws (some (h, fs', ws'))
    → Ready fuel h.end 0 n fs' ws'
Picked-Ready fuel idx q n fs ws h fs' ws' r (a, b, c, d, e, s) = record {
  fuelled =
      omega (arith, picked_length h (skip_fixer idx fs) ws fs' ws' s, length-skip_fixer-le idx fs);
  inside = c;
  fixes = d;
  works = e;
  from_fixer = elim s [
    | inl (p, q') ↦ (subst (AllFrom fixer) p kept).1
    | inr (p, q') ↦ subst (AllFrom fixer) p kept
  ];
  from_worktree = elim s [
    | inl (p, q') ↦ subst (AllFrom worktree) q' r.from_worktree
    | inr (p, q') ↦ (subst (AllFrom worktree) q' r.from_worktree).1
  ];
}
  where
    kept : AllFrom fixer (skip_fixer idx fs)
    kept = skip_fixer-AllFrom idx fixer fs r.from_fixer
