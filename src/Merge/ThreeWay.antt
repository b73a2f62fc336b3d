-- ===== src/Merge/ThreeWay.antt =====
-- src/merge.rs: `three_way_merge_hunks` ends, stays in bounds and loses no change of the worktree;
-- where `hunks_overlap` is false it loses none of the fixer's either.
use hk.Prelude.{
  ℕ, zero, suc, ◌+◌, ◌-◌, ◌≤◌, ◌<◌, ◌≡◌, refl, ap, sym, subst, ◌⊎◌, inl, inr, Option, none, some,
  List, [], ◌∷◌, Bytes, arith, length, take, drop, if_cases, ltb,
}
use hk.Merge.{Hunk, slice, merge_round, merge_loop, pick, skip_fixer}
use hk.Merge.Hunks.{patched, InOrder, drop-drop}
use hk.Merge.Choice.{
  chosen, chosen_round, Picked, pick-Picked, skip_work_self, skip_fixer-InOrder,
  length-skip_fixer-le,
}

slice-in_bounds :
    (a : List Bytes) (idx s : ℕ)
    → idx ≤ s
    → s ≤ length a
    → slice a idx s ≡ some (take (s - idx) (drop idx a))
unfolding slice
slice-in_bounds a idx s le le' =
    if_cases (λ r. r ≡ some (take (s - idx) (drop idx a))) (ltb idx s) _ _ (λ _. ground arith)
      λ e. let z : s - idx ≡ 0 = ground arith in rw z

pub picked_length :
    (h : Hunk) (fs ws fs' ws' : List Hunk)
    → ((fs ≡ h ∷ fs') × (ws ≡ ws')) ⊎ ((fs ≡ fs') × (ws ≡ h ∷ ws'))
    → length fs' + length ws' + 1 ≡ length fs + length ws
picked_length h fs ws fs' ws' (inl (e, e')) =
    omega (arith, ap (length {A = Hunk}) e, ap (length {A = Hunk}) e')
picked_length h fs ws fs' ws' (inr (e, e')) =
    omega (arith, ap (length {A = Hunk}) e, ap (length {A = Hunk}) e')

drop-length-le : (a : List Bytes) (i : ℕ) → length a ≤ i → drop i a ≡ []
drop-length-le [] zero le = refl
drop-length-le [] (suc i) le = refl
drop-length-le (x ∷ a) zero le = absurd (omega arith)
drop-length-le (x ∷ a) (suc i) le = drop-length-le a i (omega arith)

-- The first round's hunk, then what the rest of the loop gives.
merge_round-chosen :
    (a : List Bytes) (fuel idx : ℕ) (fs ws : List Hunk) (o : Option (Hunk × List Hunk × List Hunk))
    → idx ≤ length a
    → Picked idx (length a) fs ws o
    → ((h : Hunk) (fs' ws' : List Hunk)
        → o ≡ some (h, fs', ws')
        → merge_loop fuel a h.end fs' ws'
          ≡ some (patched h.end (drop h.end a) (chosen fuel h.end fs' ws')))
    → merge_round (merge_loop fuel a) a idx o
      ≡ some (patched idx (drop idx a) (chosen_round (chosen fuel) o))
unfolding merge_round patched chosen_round
merge_round-chosen a fuel idx fs ws none le p ih =
    if_cases (λ r. some r ≡ some (drop idx a)) (ltb idx (length a)) (drop idx a) [] (λ _. refl)
      λ e. ap some (sym (drop-length-le a idx (ground arith)))
merge_round-chosen a fuel idx fs ws (some (h, fs', ws')) le (p, q, r, _, _, _) ih = rw (
  slice-in_bounds a idx h.start p (omega arith),
  ih h fs' ws' refl,
  drop-drop idx h.end a (omega arith),
)

-- The loop ends within its fuel and without a panic, and applies the chosen hunks.
pub merge_loop-chosen :
    (a : List Bytes) (fuel idx q : ℕ) (fs ws : List Hunk)
    → length fs + length ws < fuel
    → idx ≤ length a
    → InOrder 1 q (length a) fs
    → InOrder 1 idx (length a) ws
    → merge_loop fuel a idx fs ws ≡ some (patched idx (drop idx a) (chosen fuel idx fs ws))
unfolding merge_loop chosen
merge_loop-chosen a zero idx q fs ws lt le o p = absurd (omega arith)
merge_loop-chosen a (suc fuel) idx q fs ws lt le o p = rw (skip_work_self 1 idx (length a) ws p) (
    merge_round-chosen a fuel idx (skip_fixer idx fs) ws (pick (skip_fixer idx fs) ws) le picked
      (λ h fs' ws' e.
        let (b, c, d, o', p', s) = subst (Picked idx (length a) (skip_fixer idx fs) ws) e picked in
        merge_loop-chosen a fuel h.end 0 fs' ws'
          (omega
            (arith, picked_length h (skip_fixer idx fs) ws fs' ws' s, length-skip_fixer-le idx fs))
          d o' p'))
  where
    picked : Picked idx (length a) (skip_fixer idx fs) ws (pick (skip_fixer idx fs) ws)
    picked =
        pick-Picked idx (length a) (skip_fixer idx fs) ws (skip_fixer-InOrder idx q (length a) fs o)
          p
