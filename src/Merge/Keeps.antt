-- ===== src/Merge/Keeps.antt =====
-- src/merge.rs: what `three_way_merge_hunks` keeps of either side's changes.
use hk.Prelude.{
  ℕ, zero, suc, ◌+◌, ◌≡◌, refl, ap, sym, subst, ◌∙◌, ◌⊎◌, inl, inr, Option, none, some, List, ◌∷◌,
  false, arith,
}
use hk.Merge.{Hunk, HunkSource, fixer, worktree, pick, skip_fixer, any_overlaps}
use hk.Merge.Hunks.{InOrder, InOrder-weaken}
use hk.Merge.Choice.{
  chosen, chosen_round, of_source, AllFrom, Picked, pick-Picked, skip_work_self, skip_fixer-InOrder,
  skip_fixer-AllFrom, skip_fixer_self, PickedApart, pick-PickedApart,
}
use hk.Merge.Sources.{Ready, Picked-Ready}

-- The hunk that a round takes, seen from either side.
source-picked :
    (h : Hunk) (fs ws fs' ws' : List Hunk)
    → AllFrom fixer fs
    → AllFrom worktree ws
    → ((fs ≡ h ∷ fs') × (ws ≡ ws')) ⊎ ((fs ≡ fs') × (ws ≡ h ∷ ws'))
    → ((h.source ≡ fixer) × (fs ≡ h ∷ fs') × (ws ≡ ws'))
      ⊎ ((h.source ≡ worktree) × (fs ≡ fs') × (ws ≡ h ∷ ws'))
source-picked h fs ws fs' ws' a b (inl (p, q)) = inl ((subst (AllFrom fixer) p a).0, p, q)
source-picked h fs ws fs' ws' a b (inr (p, q)) = inr ((subst (AllFrom worktree) q b).0, p, q)

cons-of_source :
    (s : HunkSource) (h : Hunk) (hs : List Hunk)
    → h.source ≡ s
    → of_source s (h ∷ hs) ≡ h ∷ of_source s hs
unfolding of_source
cons-of_source fixer h hs e = simp e
cons-of_source worktree h hs e = simp e

skip-of_worktree :
    (h : Hunk) (hs : List Hunk)
    → h.source ≡ fixer
    → of_source worktree (h ∷ hs) ≡ of_source worktree hs
unfolding of_source
skip-of_worktree h hs e = rw e

skip-of_fixer :
    (h : Hunk) (hs : List Hunk)
    → h.source ≡ worktree
    → of_source fixer (h ∷ hs) ≡ of_source fixer hs
unfolding of_source
skip-of_fixer h hs e = rw e

module _ (n : ℕ) where
  round-of_worktree :
      (fuel idx : ℕ) (fs ws : List Hunk) (o : Option (Hunk × List Hunk × List Hunk))
      → AllFrom fixer fs
      → AllFrom worktree ws
      → Picked idx n fs ws o
      → ((h : Hunk) (fs' ws' : List Hunk)
          → o ≡ some (h, fs', ws')
          → of_source worktree (chosen fuel h.end fs' ws') ≡ ws')
      → of_source worktree (chosen_round (chosen fuel) o) ≡ ws
  unfolding chosen_round
  round-of_worktree fuel idx fs ws none a b (e, e') ih = unfold of_source in sym e'
  round-of_worktree fuel idx fs ws (some (h, fs', ws')) a b (_, _, _, _, _, s) ih =
      elim (source-picked h fs ws fs' ws' a b s) [
        | inl (e, p, q) ↦ skip-of_worktree h _ e ∙ ih h fs' ws' refl ∙ sym q
        | inr (e, p, q) ↦
            cons-of_source worktree h _ e ∙ ap (λ t. h ∷ t) (ih h fs' ws' refl) ∙ sym q
      ]

  -- Every hunk of the worktree is applied, in order.
  pub chosen-of_worktree :
      (fuel idx q : ℕ) (fs ws : List Hunk)
      → Ready fuel idx q n fs ws
      → of_source worktree (chosen fuel idx fs ws) ≡ ws
  unfolding chosen
  chosen-of_worktree zero idx q fs ws r = absurd (omega (arith, r.fuelled))
  chosen-of_worktree (suc fuel) idx q fs ws r = rw (skip_work_self 1 idx n ws r.works) (
      round-of_worktree fuel idx (skip_fixer idx fs) ws _
        (skip_fixer-AllFrom idx fixer fs r.from_fixer) r.from_worktree picked
        (λ h fs' ws' e. chosen-of_worktree fuel h.end 0 fs' ws' (
          Picked-Ready fuel idx q n fs ws h fs' ws' r
            (subst (Picked idx n (skip_fixer idx fs) ws) e picked))))
    where
      picked : Picked idx n (skip_fixer idx fs) ws (pick (skip_fixer idx fs) ws)
      picked =
          pick-Picked idx n (skip_fixer idx fs) ws (skip_fixer-InOrder idx q n fs r.fixes) r.works

  round-of_fixer :
      (fuel idx : ℕ) (fs ws : List Hunk) (o : Option (Hunk × List Hunk × List Hunk))
      → AllFrom fixer fs
      → AllFrom worktree ws
      → Picked idx n fs ws o
      → ((h : Hunk) (fs' ws' : List Hunk)
          → o ≡ some (h, fs', ws')
          → of_source fixer (chosen fuel h.end fs' ws') ≡ fs')
      → of_source fixer (chosen_round (chosen fuel) o) ≡ fs
  unfolding chosen_round
  round-of_fixer fuel idx fs ws none a b (e, e') ih = unfold of_source in sym e
  round-of_fixer fuel idx fs ws (some (h, fs', ws')) a b (_, _, _, _, _, s) ih =
      elim (source-picked h fs ws fs' ws' a b s) [
        | inl (e, p, q) ↦ cons-of_source fixer h _ e ∙ ap (λ t. h ∷ t) (ih h fs' ws' refl) ∙ sym p
        | inr (e, p, q) ↦ skip-of_fixer h _ e ∙ ih h fs' ws' refl ∙ sym p
      ]

  refit :
      {fuel idx q p : ℕ} {fs ws : List Hunk}
      → Ready fuel idx q n fs ws
      → InOrder 1 p n fs
      → Ready fuel idx p n fs ws
  refit r o = record {
    fuelled = r.fuelled;
    inside = r.inside;
    fixes = o;
    works = r.works;
    from_fixer = r.from_fixer;
    from_worktree = r.from_worktree;
  }

  -- Where no two hunks overlap, every hunk of the fixer is applied, in order.
  pub chosen-of_fixer :
      (fuel idx : ℕ) (fs ws : List Hunk)
      → Ready fuel idx idx n fs ws
      → any_overlaps fs ws ≡ false
      → of_source fixer (chosen fuel idx fs ws) ≡ fs
  unfolding chosen
  chosen-of_fixer zero idx fs ws r v = absurd (omega (arith, r.fuelled))
  chosen-of_fixer (suc fuel) idx fs ws r v =
      rw (skip_work_self 1 idx n ws r.works, skip_fixer_self 1 idx n fs r.fixes)
        (round-of_fixer fuel idx fs ws (pick fs ws) r.from_fixer r.from_worktree picked
          (λ h fs' ws' e.
            let (o, v') =
              subst (PickedApart n) e (pick-PickedApart idx n fs ws r.fixes r.works v) in
            let r' =
              Picked-Ready fuel idx idx n fs ws h fs' ws' r
                (rw (skip_fixer_self 1 idx n fs r.fixes) (subst (Picked idx n fs ws) e picked)) in
            chosen-of_fixer fuel h.end fs' ws' (refit r' o) v'))
    where
      picked : Picked idx n fs ws (pick fs ws)
      picked = pick-Picked idx n fs ws r.fixes r.works

  round-InOrder :
      (fuel idx : ℕ) (fs ws : List Hunk) (o : Option (Hunk × List Hunk × List Hunk))
      → Picked idx n fs ws o
      → ((h : Hunk) (fs' ws' : List Hunk)
          → o ≡ some (h, fs', ws')
          → InOrder 0 h.end n (chosen fuel h.end fs' ws'))
      → InOrder 0 idx n (chosen_round (chosen fuel) o)
  unfolding chosen_round
  round-InOrder fuel idx fs ws none p ih = tt
  round-InOrder fuel idx fs ws (some (h, fs', ws')) (a, b, c, _, _, _) ih =
      (a, b, c, InOrder-weaken 0 h.end (h.end + 0) n _ (omega arith) (ih h fs' ws' refl))

  -- The applied hunks do not overlap.
  pub chosen-InOrder :
      (fuel idx q : ℕ) (fs ws : List Hunk)
      → Ready fuel idx q n fs ws
      → InOrder 0 idx n (chosen fuel idx fs ws)
  unfolding chosen
  chosen-InOrder zero idx q fs ws r = tt
  chosen-InOrder (suc fuel) idx q fs ws r = rw (skip_work_self 1 idx n ws r.works) (
      round-InOrder fuel idx (skip_fixer idx fs) ws _ picked (λ h fs' ws' e.
        chosen-InOrder fuel h.end 0 fs' ws' (
          Picked-Ready fuel idx q n fs ws h fs' ws' r
            (subst (Picked idx n (skip_fixer idx fs) ws) e picked))))
    where
      picked : Picked idx n (skip_fixer idx fs) ws (pick (skip_fixer idx fs) ws)
      picked =
          pick-Picked idx n (skip_fixer idx fs) ws (skip_fixer-InOrder idx q n fs r.fixes) r.works
