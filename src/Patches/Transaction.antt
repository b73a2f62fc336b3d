-- ===== src/Patches/Transaction.antt =====
-- src/step/diff.rs, `apply_patch` as a whole: a transaction on the disk.
use hk.Prelude.{
  ◌⊎◌, inl, inr, Bool-cases, ℕ, ◌≡◌, refl, subst, Bool, true, false, ◌&&◌, not, Option, none, some,
  List, [], ◌∷◌, arith, Bytes, bytes_eq, length, any,
}
use hk.Patches.{Env, same_path}
use hk.Patches.Plan.{Change, plan}
use hk.Patches.Commit.{
  World, Applied, applied, rejected, rollback_failed, commit, commit_plan, apply_patch,
}
use hk.Patches.Disk.{at_change}
use hk.Patches.Undo.{Distinct, Progress}
use hk.Patches.Atomic.{changed_disk, commit-rejected, commit-elsewhere, commit-applied}
use hk.Patches.Hidden.{CopiesAfter}
use hk.Patches.Copies.{commit-CopiesAfter}
use hk.Patches.Planned.{DistinctPaths, IsPlan, plan-IsPlan}
use hk.Patches.Saved.{writes_to, IsSaved, SavedAfter, commit-SavedAfter}
use hk.Patches.Progress.{AllFresh}

-- Whether two changes are of one file by different paths, such as `./a` and `a`.
abbrev pub shares_file : Change → Change → Bool
shares_file c d = bytes_eq c.file d.file && not (same_path c.path d.path)

unfoldable pub names_each_file_one_way : List Change → Bool
unfolding any bytes_eq same_path
names_each_file_one_way [] = true
names_each_file_one_way (c ∷ cs) = not (any (shares_file c) cs) && names_each_file_one_way cs

abbrev pub is_unambiguous : Option (List Change) → Bool
is_unambiguous none = true
is_unambiguous (some cs) = names_each_file_one_way cs

file_elsewhere :
    (c : Change) (cs : List Change)
    → any (λ (d : Change). same_path c.path d.path) cs ≡ false
    → any (shares_file c) cs ≡ false
    → any (at_change c.file) cs ≡ false
unfolding any
file_elsewhere c [] h k = refl
file_elsewhere c (d ∷ cs) h k =
    ground (arith, h, k, file_elsewhere c cs (ground (arith, h)) (ground (arith, k)))

DistinctPaths-Distinct :
    (cs : List Change) → DistinctPaths cs → names_each_file_one_way cs ≡ true → Distinct cs
unfolding names_each_file_one_way
DistinctPaths-Distinct [] d h = tt
DistinctPaths-Distinct (c ∷ cs) (d, ds) h =
    (file_elsewhere c cs d (ground (arith, h)), DistinctPaths-Distinct cs ds (ground (arith, h)))

-- What is on the disk after each outcome: all changes of the plan; nothing but what was there; or, where a
-- file could not be put back, at least nothing of the files that the plan does not change, and the texts
-- of those that it does not write.
abbrev pub Transaction : {P : Type 0} → Env P → Bytes → ℕ → World → Applied → World → Type 0
Transaction env diff strip w (applied n) after =
    (cs : List Change) × (plan env w.disk diff strip ≡ some cs)
    × (n ≡ length cs)
    × ((q : Bytes) → after.disk q ≡ changed_disk cs w.disk q)
Transaction env diff strip w rejected after = (q : Bytes) → after.disk q ≡ w.disk q
Transaction env diff strip w rollback_failed after =
    (cs : List Change) × (plan env w.disk diff strip ≡ some cs)
    × ((q : Bytes) → (any (at_change q) cs ≡ true) ⊎ (after.disk q ≡ w.disk q))
    × ((q : Bytes) → (any (writes_to q) cs ≡ true) ⊎ IsSaved w.disk q after)

AllFresh-start : (cs : List Change) → AllFresh cs [] []
unfolding any
AllFresh-start [] = tt
AllFresh-start (c ∷ cs) = ((refl, refl), AllFresh-start cs)

commit-elsewhere_start :
    (w : World) (n : ℕ) (cs : List Change) (q : Bytes)
    → any (at_change q) cs ≡ false
    → (commit n cs [] [] w).1.disk q ≡ w.disk q
unfolding any
commit-elsewhere_start w n cs q off = commit-elsewhere w.disk n cs [] [] w q off refl refl

-- Whichever operations on files fail, and however much a failing write has written, `apply_patch` is a
-- transaction, as long as the plan has no file by two different paths and the run made no hidden copy before.
-- Where it says how many files it patched, they are those of its plan and all have their new contents, no
-- other file has changed, and a hidden copy that could not be removed is of a file that is gone, with its
-- text. Where it says that the patch is rejected, every file is as it was and no hidden copy is left. Where
-- it says that a rollback failed, the files that the plan does not change are as they were, a file that
-- the plan deletes has its text or has a hidden copy with it, and a hidden copy that is left has its file's
-- text.
pub apply_patch-Transaction :
    {P : Type 0} (env : Env P) (diff : Bytes) (strip : ℕ) (w : World)
    → is_unambiguous (plan env w.disk diff strip) ≡ true
    → ((q : Bytes) → w.hidden q ≡ none)
    → Transaction env diff strip w (apply_patch env diff strip w).0 (apply_patch env diff strip w).1
      × CopiesAfter w.disk (apply_patch env diff strip w).0 (apply_patch env diff strip w).1
unfolding any
apply_patch-Transaction env diff strip w u b = go (plan env w.disk diff strip) refl u
  where
    started : (cs : List Change) → Progress w.disk [] [] w.disk
    started cs = record {
      distinct = tt;
      honest = tt;
      kept = tt;
      moved = tt;
      apart = tt;
      off = λ q _ _. refl;
    }

    go :
        (o : Option (List Change))
        → plan env w.disk diff strip ≡ o
        → is_unambiguous o ≡ true
        → Transaction env diff strip w (commit_plan o w).0 (commit_plan o w).1
          × CopiesAfter w.disk (commit_plan o w).0 (commit_plan o w).1
    go none e a = ((λ q. refl), b)
    go (some cs) e a = (
      outcome (commit (length cs) cs [] [] w).0 refl,
      commit-CopiesAfter w.disk (length cs) cs [] [] w (started cs) (AllFresh-start cs) d p.honest
          (λ q. inl (b q)),
    )
      where
        p : IsPlan env w.disk cs
        p = plan-IsPlan env w.disk diff strip cs e

        d : Distinct cs
        d = DistinctPaths-Distinct cs p.distinct a

        outcome :
            (r : Applied)
            → (commit (length cs) cs [] [] w).0 ≡ r
            → Transaction env diff strip w r (commit (length cs) cs [] [] w).1
        outcome (applied n) h =
            let (i, j) = commit-applied (length cs) cs [] [] w n d h in (cs, e, i, j)
        outcome rejected h =
            commit-rejected w.disk (length cs) cs [] [] w (started cs) (AllFresh-start cs) d
              p.honest h
        outcome rollback_failed h = (
          cs,
          e,
          λ q. elim (Bool-cases (any (at_change q) cs)) [
            | inl on ↦ inl on
            | inr off ↦ inr (commit-elsewhere_start w (length cs) cs q off)
          ],
          λ q. elim (Bool-cases (any (writes_to q) cs)) [
            | inl on ↦ inl on
            | inr off ↦ inr (
                subst (λ r. SavedAfter w.disk q r (commit (length cs) cs [] [] w).1) h
                  (commit-SavedAfter w.disk q (length cs) cs [] [] w (started cs)
                    (AllFresh-start cs) d p.honest off refl (inl refl)))
          ],
        )
