-- ===== src/Patches/Copies.antt =====
-- src/step/diff.rs, the writes of `apply_patch` as a whole: the hidden copies that they leave.
use hk.Prelude.{
  ℕ, ◌≡◌, refl, ap, sym, ◌∙◌, subst, ◌⊎◌, inl, inr, false, none, some, List, [], ◌∷◌, ◌++◌, arith,
  Bytes, bytes_eq, bytes_eq→eq, any, any-append, Bool-cases,
}
use hk.Patches.Plan.{Change, Disk}
use hk.Patches.Commit.{World, write_contents, Aside, hide, move_aside, commit, remove_asides}
use hk.Patches.Disk.{at_change, at_aside, Elsewhere, update-Elsewhere}
use hk.Patches.Undo.{Distinct, AllHonest, Progress}
use hk.Patches.Progress.{AllFresh, AllFresh-written, AllFresh-moved, Progress-write, Progress-move}
use hk.Patches.Steps.{commit_cases, move_aside-some, move_aside-Elsewhere, remove_asides-disk}
use hk.Patches.Hidden.{
  write_contents-hidden, Copies, WasMoved, IsGone, Copies-map, remove_asides-Copies, CopiesAfter,
  undo-CopiesAfter, Gone, Gone-write,
}

pub move_aside-hidden :
    (p : Bytes) (w : World) → (move_aside p w).1.hidden ≡ hide (move_aside p w).0 w.hidden
unfolding move_aside
move_aside-hidden p w = refl

module _ (before : Disk) (n : ℕ) where
  Gone-WasMoved :
      (asides : List Aside) (w : World)
      → Gone before asides w
      → Copies before (WasMoved asides) w.hidden
  Gone-WasMoved asides w k =
      Copies-map before (IsGone asides w.disk) (WasMoved asides) w.hidden (λ q x. x.0) k

  -- The move of a file that was not moved before.
  Gone-move :
      (asides : List Aside) (a : Aside) (p : Bytes) (w : World)
      → (move_aside p w).0 ≡ some a
      → a.file ≡ p
      → before p ≡ some a.text
      → (move_aside p w).1.disk p ≡ none
      → Gone before asides w
      → Gone before (asides ++ a ∷ []) (move_aside p w).1
  unfolding any
  Gone-move asides a p w m f o d k =
      let after = (move_aside p w).1.disk in
      subst (Copies before (IsGone (asides ++ a ∷ []) after))
        (sym (move_aside-hidden p w ∙ ap (λ x. hide x w.hidden) m))
        (λ q. elim (Bool-cases (bytes_eq q a.file)) [
          | inl e ↦
              let i = bytes_eq→eq q a.file e in
              inr (
                (ground (arith, any-append (at_aside q) asides (a ∷ []), e), ap after (i ∙ f) ∙ d),
                rw e (sym (ap before (i ∙ f) ∙ o)),
              )
          | inr e ↦
              let s : after q ≡ w.disk q =
                move_aside-Elsewhere p w q (ap (bytes_eq q) (sym f) ∙ e) in
              subst (λ x. (x ≡ none) ⊎ (IsGone (asides ++ a ∷ []) after q × (x ≡ before q)))
                (sym (update-Elsewhere a.file (some a.text) w.hidden q e))
                (elim (k q) [
                  | inl i ↦ inl i
                  | inr ((x, y), i) ↦
                      inr ((ground (arith, any-append (at_aside q) asides (a ∷ []), x), s ∙ y), i)
                ])
        ])

  pub commit-CopiesAfter :
      (cs written : List Change) (asides : List Aside) (w : World)
      → Progress before written asides w.disk
      → AllFresh cs written asides
      → Distinct cs
      → AllHonest before cs
      → Gone before asides w
      → CopiesAfter before (commit n cs written asides w).0 (commit n cs written asides w).1
  unfolding commit
  commit-CopiesAfter [] written asides w p f d o k =
      let after = remove_asides asides w in
      subst (λ x. Copies before (λ q. x q ≡ none) after.hidden) (sym (remove_asides-disk asides w))
        (Copies-map before (IsGone asides w.disk) (λ q. w.disk q ≡ none) after.hidden (λ q x. x.1)
          (remove_asides-Copies before (IsGone asides w.disk) asides w k))
  commit-CopiesAfter (c ∷ cs) written asides w p (f, fs) (d, ds) (o, os) k =
      commit_cases (λ r. CopiesAfter before r.0 r.1) n c cs written asides w
        (λ t e _.
          commit-CopiesAfter cs (written ++ c ∷ []) asides (write_contents c.file (some t) w).1
            (Progress-write before written asides c t w p f o e)
            (AllFresh-written cs written asides c d fs) ds os
            (Gone-write before asides c (some t) w f.1 k))
        (λ t e.
          undo-CopiesAfter before (written ++ c ∷ []) asides (write_contents c.file (some t) w).1 (
            subst (Copies before (WasMoved asides)) (sym (write_contents-hidden c.file (some t) w))
              (Gone-WasMoved asides w k)))
        (λ a e m.
          let (i, x, y) = move_aside-some c.file w a m in
          commit-CopiesAfter cs written (asides ++ a ∷ []) (move_aside c.file w).1
            (Progress-move before written asides a w.disk (move_aside c.file w).1.disk p
              (subst (λ z. any (at_change z) written ≡ false) (sym i) f.0)
              (subst (λ z. any (at_aside z) asides ≡ false) (sym i) f.1) (ap w.disk i ∙ x)
              (subst (λ z. Elsewhere z w.disk (move_aside c.file w).1.disk) (sym i)
                (move_aside-Elsewhere c.file w)))
            (AllFresh-moved cs written asides a
              (subst (λ z. any (at_change z) cs ≡ false) (sym i) d) fs)
            ds os (Gone-move asides a c.file w m i (sym (p.off c.file f.1 f.0) ∙ x) y k))
        (λ m. undo-CopiesAfter before written asides (move_aside c.file w).1 (
          subst (Copies before (WasMoved asides))
            (sym (move_aside-hidden c.file w ∙ ap (λ x. hide x w.hidden) m))
            (Gone-WasMoved asides w k)))
