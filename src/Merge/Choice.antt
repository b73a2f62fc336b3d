-- ===== src/Merge/Choice.antt =====
-- src/merge.rs: the hunks that the loop of `three_way_merge_hunks` applies, as a list, and one
-- round of the loop.
use hk.Prelude.{
  ℕ, zero, suc, ◌+◌, ◌≤◌, ◌≡◌, refl, ◌⊎◌, inl, inr, Option, none, some, List, [], ◌∷◌, false, ◌&&◌,
  arith, length, if_cases, ltb,
}
use hk.Merge.{
  Hunk, HunkSource, fixer, worktree, any_overlaps, is_empty, skip_fixer, skip_work, take_worktree,
  pick,
}
use hk.Merge.Hunks.{InOrder, InOrder-weaken}

unfoldable pub chosen_round :
    (ℕ → List Hunk → List Hunk → List Hunk) → Option (Hunk × List Hunk × List Hunk) → List Hunk
chosen_round next none = []
chosen_round next (some (h, fs, ws)) = h ∷ next h.end fs ws

-- The hunks that the loop applies from index `idx` on.
unfoldable pub chosen : ℕ → ℕ → List Hunk → List Hunk → List Hunk
unfolding chosen_round
chosen zero idx fs ws = []
chosen (suc fuel) idx fs ws =
    chosen_round (chosen fuel) (pick (skip_fixer idx fs) (skip_work idx ws))

-- The hunks of one side.
unfoldable pub of_source : HunkSource → List Hunk → List Hunk
of_source s [] = []
of_source fixer (h ∷ hs) =
    let rest = of_source fixer hs in elim h.source [ fixer ↦ h ∷ rest | worktree ↦ rest ]
of_source worktree (h ∷ hs) =
    let rest = of_source worktree hs in elim h.source [ fixer ↦ rest | worktree ↦ h ∷ rest ]

abbrev pub AllFrom : HunkSource → List Hunk → Type 0
AllFrom s [] = Unit
AllFrom s (h ∷ hs) = (h.source ≡ s) × AllFrom s hs

pub skip_work_self : (gap idx n : ℕ) (ws : List Hunk) → InOrder gap idx n ws → skip_work idx ws ≡ ws
unfolding skip_work
skip_work_self gap idx n [] o = refl
skip_work_self gap idx n (w ∷ ws) o = ground arith

pub skip_fixer-InOrder :
    (idx q n : ℕ) (fs : List Hunk) → InOrder 1 q n fs → InOrder 1 idx n (skip_fixer idx fs)
unfolding skip_fixer
skip_fixer-InOrder idx q n [] o = tt
skip_fixer-InOrder idx q n (h ∷ hs) (a, b, c, d) =
    if_cases (InOrder 1 idx n) (ltb h.start idx) _ _
      (λ _.
        if_cases (InOrder 1 idx n) (is_empty h.lines && ltb idx h.end) _ _
          (λ e. (ground arith, ground arith, c, d))
          (λ _. skip_fixer-InOrder idx (h.end + 1) n hs d))
      λ e. (ground arith, b, c, d)

pub length-skip_fixer-le : (idx : ℕ) (fs : List Hunk) → length (skip_fixer idx fs) ≤ length fs
unfolding skip_fixer
length-skip_fixer-le idx [] = omega arith
length-skip_fixer-le idx (h ∷ hs) = ground (arith, length-skip_fixer-le idx hs)

pub skip_fixer-AllFrom :
    (idx : ℕ) (s : HunkSource) (fs : List Hunk) → AllFrom s fs → AllFrom s (skip_fixer idx fs)
unfolding skip_fixer
skip_fixer-AllFrom idx s [] o = tt
skip_fixer-AllFrom idx s (h ∷ hs) (a, b) =
    if_cases (AllFrom s) (ltb h.start idx) _ _
      (λ _.
        if_cases (AllFrom s) (is_empty h.lines && ltb idx h.end) _ _ (λ _. (a, b))
          (λ _. skip_fixer-AllFrom idx s hs b))
      λ _. (a, b)

-- What `pick` does with two ordered lists: the hunk that it takes lies ahead of the worktree's
-- hunks that stay, and it is the first hunk of one side.
abbrev pub Picked :
    (idx n : ℕ) → List Hunk → List Hunk → Option (Hunk × List Hunk × List Hunk) → Type 0
Picked idx n fs ws none = (fs ≡ []) × (ws ≡ [])
Picked idx n fs ws (some (h, fs', ws')) =
    (idx ≤ h.start)
    × (h.start ≤ h.end)
    × (h.end ≤ n)
    × InOrder 1 0 n fs'
    × InOrder 1 h.end n ws'
    × (((fs ≡ h ∷ fs') × (ws ≡ ws')) ⊎ ((fs ≡ fs') × (ws ≡ h ∷ ws')))

pub pick-Picked :
    (idx n : ℕ) (fs ws : List Hunk)
    → InOrder 1 idx n fs
    → InOrder 1 idx n ws
    → Picked idx n fs ws (pick fs ws)
unfolding pick
pick-Picked idx n [] [] o p = (refl, refl)
pick-Picked idx n [] (w ∷ ws) o (a, b, c, d) =
    (a, b, c, tt, InOrder-weaken 1 (w.end + 1) w.end n ws (omega arith) d, inr (refl, refl))
pick-Picked idx n (f ∷ fs) [] (a, b, c, d) p =
    (a, b, c, InOrder-weaken 1 (f.end + 1) 0 n fs (omega arith) d, tt, inl (refl, refl))
pick-Picked idx n (f ∷ fs) (w ∷ ws) (a, b, c, d) (a', b', c', d') =
    if_cases (Picked idx n (f ∷ fs) (w ∷ ws)) (take_worktree f w) _ _
      (λ _. (
        a',
        b',
        c',
        (omega arith, b, c, d),
        InOrder-weaken 1 (w.end + 1) w.end n ws (omega arith) d',
        inr (refl, refl),
      ))
      λ e. (
        a,
        b,
        c,
        InOrder-weaken 1 (f.end + 1) 0 n fs (omega arith) d,
        (ground arith, b', c', d'),
        inl (refl, refl),
      )

pub skip_fixer_self :
    (gap idx n : ℕ) (fs : List Hunk) → InOrder gap idx n fs → skip_fixer idx fs ≡ fs
unfolding skip_fixer
skip_fixer_self gap idx n [] o = refl
skip_fixer_self gap idx n (h ∷ hs) o = ground arith

any_overlaps-drop_work :
    (fs ws : List Hunk) (w : Hunk) → any_overlaps fs (w ∷ ws) ≡ false → any_overlaps fs ws ≡ false
unfolding any_overlaps
any_overlaps-drop_work [] ws w h = refl
any_overlaps-drop_work (f ∷ fs) ws w h = ground (arith, any_overlaps-drop_work fs ws w)

-- Where nothing overlaps, a round leaves both sides in order behind the hunk that it takes.
abbrev pub PickedApart : (n : ℕ) → Option (Hunk × List Hunk × List Hunk) → Type 0
PickedApart n none = Unit
PickedApart n (some (h, fs', ws')) = InOrder 1 h.end n fs' × (any_overlaps fs' ws' ≡ false)

pub pick-PickedApart :
    (idx n : ℕ) (fs ws : List Hunk)
    → InOrder 1 idx n fs
    → InOrder 1 idx n ws
    → any_overlaps fs ws ≡ false
    → PickedApart n (pick fs ws)
unfolding pick
pick-PickedApart idx n [] [] o p v = tt
pick-PickedApart idx n [] (w ∷ ws) o p v = (tt, any_overlaps-drop_work [] ws w v)
pick-PickedApart idx n (f ∷ fs) [] (a, b, c, d) p v =
    unfold any_overlaps in (InOrder-weaken 1 (f.end + 1) f.end n fs (omega arith) d, ground arith)
pick-PickedApart idx n (f ∷ fs) (w ∷ ws) (a, b, c, d) (a', b', c', d') v =
    if_cases (PickedApart n) (take_worktree f w) _ _
      (λ e.
        ((unfold any_overlaps in ground arith, b, c, d), any_overlaps-drop_work (f ∷ fs) ws w v))
      λ e. (
        InOrder-weaken 1 (f.end + 1) f.end n fs (omega arith) d,
        unfold any_overlaps in ground arith,
      )
