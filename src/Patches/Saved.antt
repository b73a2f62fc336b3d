-- ===== src/Patches/Saved.antt =====
-- src/step/diff.rs, the writes of `apply_patch`: the text of a file that is to be deleted is not lost.
use hk.Prelude.{
  ℕ, ◌≡◌, refl, ap, sym, ◌∙◌, subst, ◌⊎◌, inl, inr, Bool, true, false, ◌&&◌, Option, none, some,
  List, [], ◌∷◌, ◌++◌, arith, Bytes, bytes_eq, bytes_eq→eq, any, any-append, if_cases, Bool-cases,
}
use hk.Patches.Plan.{Change, Disk, is_some}
use hk.Patches.Commit.{
  Fate, succeeds, fails, cut, World, next_fate, write_contents, Aside, hide, move_aside, unhide,
  restore_by, restore_aside, restore_all, roll_back_all, Applied, applied, rejected,
  rollback_failed, undo, commit,
}
use hk.Patches.Disk.{
  at_change, at_aside, Elsewhere, update-Elsewhere, update_self, write_contents-Elsewhere,
}
use hk.Patches.Undo.{
  Distinct, AllHonest, AllMoved, Progress, restore_aside-Elsewhere, roll_back_all-elsewhere,
}
use hk.Patches.Progress.{AllFresh, AllFresh-written, AllFresh-moved, Progress-write, Progress-move}
use hk.Patches.Steps.{commit_cases, move_aside-some, move_aside-none, move_aside-Elsewhere}
use hk.Patches.Hidden.{write_contents-hidden, roll_back_all-hidden, restore_aside-hidden}
use hk.Patches.Copies.{move_aside-hidden}

-- Whether one of the changes writes the file.
abbrev pub writes_to : Bytes → Change → Bool
writes_to q c = at_change q c && is_some c.contents

-- A file that has its text, or whose hidden copy has it.
abbrev pub IsSaved : Disk → Bytes → World → Type 0
IsSaved before q w = (w.disk q ≡ before q) ⊎ (w.hidden q ≡ before q)

-- What is where a file was moved aside from, after the try to restore it.
restore_aside_cases :
    (a : Aside) (w : World)
    → ((restore_aside a w).1.disk a.file ≡ some a.text)
      ⊎ (((restore_aside a w).0 ≡ false) × ((restore_aside a w).1.disk a.file ≡ w.disk a.file))
unfolding restore_aside
restore_aside_cases a w = go (next_fate w.fates).0 (w.disk a.file) refl
  where
    go :
        (f : Fate) (t : Option Bytes)
        → w.disk a.file ≡ t
        → ((restore_by f a t w.disk).1 a.file ≡ some a.text)
          ⊎ (((restore_by f a t w.disk).0 ≡ false)
              × ((restore_by f a t w.disk).1 a.file ≡ w.disk a.file))
    go succeeds none e = inl (update_self a.file (some a.text) w.disk)
    go succeeds (some t) e = inr (refl, refl)
    go fails t e = inr (refl, refl)
    go (cut n) none e = inl (update_self a.file (some a.text) w.disk)
    go (cut n) (some t) e = inr (refl, refl)

unhide-elsewhere :
    (q : Bytes) (ok : Bool) (a : Aside) (h : Disk)
    → bytes_eq q a.file ≡ false
    → unhide ok a h q ≡ h q
unhide-elsewhere q true a h e = update-Elsewhere a.file none h q e
unhide-elsewhere q false a h e = refl

module _ (before : Disk) (q : Bytes) where
  IsSaved-same :
      (w after : World)
      → after.disk q ≡ w.disk q
      → after.hidden q ≡ w.hidden q
      → IsSaved before q w
      → IsSaved before q after
  IsSaved-same w after d h s = elim s [ inl e ↦ inl (d ∙ e) | inr e ↦ inr (h ∙ e) ]

  restore_aside-IsSaved :
      (a : Aside) (w : World)
      → before a.file ≡ some a.text
      → IsSaved before q w
      → IsSaved before q (restore_aside a w).1
  restore_aside-IsSaved a w m s =
      let one = restore_aside a w in
      elim (Bool-cases (bytes_eq q a.file)) [
        | inr e ↦
            IsSaved-same w one.1 (restore_aside-Elsewhere a w q e)
              (ap (λ d. d q) (restore_aside-hidden a w) ∙ unhide-elsewhere q one.0 a w.hidden e) s
        | inl e ↦
            let i = bytes_eq→eq q a.file e in
            elim (restore_aside_cases a w) [
              | inl d ↦ inl (ap one.1.disk i ∙ d ∙ sym m ∙ ap before (sym i))
              | inr (failed, d) ↦
                  IsSaved-same w one.1 (ap one.1.disk i ∙ d ∙ ap w.disk (sym i))
                    (ap (λ x. x q)
                      (restore_aside-hidden a w ∙ ap (λ b. unhide b a w.hidden) failed))
                    s
            ]
      ]

  restore_all-IsSaved :
      (more : List Aside) (w : World)
      → AllMoved before more
      → IsSaved before q w
      → IsSaved before q (restore_all more w).1
  unfolding restore_all
  restore_all-IsSaved [] w m s = s
  restore_all-IsSaved (a ∷ more) w (m, ms) s =
      restore_all-IsSaved more (restore_aside a w).1 ms (restore_aside-IsSaved a w m s)

  -- Where not all changes are made.
  abbrev pub SavedAfter : Applied → World → Type 0
  SavedAfter (applied n) after = Unit
  SavedAfter rejected after = IsSaved before q after
  SavedAfter rollback_failed after = IsSaved before q after

  undo-SavedAfter :
      (written : List Change) (asides : List Aside) (w : World)
      → AllMoved before asides
      → any (at_change q) written ≡ false
      → IsSaved before q w
      → SavedAfter (undo written asides w).0 (undo written asides w).1
  unfolding undo
  undo-SavedAfter written asides w m h s =
      let a = restore_all asides w in
      let b = roll_back_all written a.1 in
      let saved : IsSaved before q b.1 =
        IsSaved-same a.1 b.1 (roll_back_all-elsewhere written a.1 q h)
          (ap (λ d. d q) (roll_back_all-hidden written a.1)) (restore_all-IsSaved asides w m s) in
      if_cases {A = Applied} (λ r. SavedAfter r b.1) (a.0 && b.0) rejected rollback_failed
        (λ _. saved) (λ _. saved)

  write_contents-IsSaved :
      (p : Bytes) (t : Option Bytes) (w : World)
      → bytes_eq q p ≡ false
      → IsSaved before q w
      → IsSaved before q (write_contents p t w).1
  write_contents-IsSaved p t w e s =
      IsSaved-same w (write_contents p t w).1 (write_contents-Elsewhere p t w q e)
        (ap (λ d. d q) (write_contents-hidden p t w)) s

  move_aside-IsSaved :
      (p : Bytes) (w : World) (a : Aside)
      → (move_aside p w).0 ≡ some a
      → a.file ≡ p
      → before p ≡ some a.text
      → IsSaved before q w
      → IsSaved before q (move_aside p w).1
  move_aside-IsSaved p w a m f o s =
      let h = move_aside-hidden p w ∙ ap (λ x. hide x w.hidden) m in
      elim (Bool-cases (bytes_eq q a.file)) [
        | inl e ↦
            inr (ap (λ d. d q) h ∙ rw e refl ∙ sym o ∙ ap before (sym (bytes_eq→eq q a.file e ∙ f)))
        | inr e ↦
            IsSaved-same w (move_aside p w).1
              (move_aside-Elsewhere p w q (ap (bytes_eq q) (sym f) ∙ e))
              (ap (λ d. d q) h ∙ update-Elsewhere a.file (some a.text) w.hidden q e) s
      ]

  -- A file that no change writes is saved, if it is so before.
  pub commit-SavedAfter :
      (n : ℕ) (cs written : List Change) (asides : List Aside) (w : World)
      → Progress before written asides w.disk
      → AllFresh cs written asides
      → Distinct cs
      → AllHonest before cs
      → any (writes_to q) cs ≡ false
      → any (at_change q) written ≡ false
      → IsSaved before q w
      → SavedAfter (commit n cs written asides w).0 (commit n cs written asides w).1
  unfolding commit any
  commit-SavedAfter n [] written asides w p f d o h g s = tt
  commit-SavedAfter n (c ∷ cs) written asides w p (f, fs) (d, ds) (o, os) h g s =
      commit_cases (λ r. SavedAfter r.0 r.1) n c cs written asides w
        (λ t e _.
          let off = away t e in
          commit-SavedAfter n cs (written ++ c ∷ []) asides (write_contents c.file (some t) w).1
            (Progress-write before written asides c t w p f o e)
            (AllFresh-written cs written asides c d fs) ds os (ground (arith, h)) (grown off)
            (write_contents-IsSaved c.file (some t) w off s))
        (λ t e.
          let off = away t e in
          undo-SavedAfter (written ++ c ∷ []) asides (write_contents c.file (some t) w).1 p.moved
            (grown off) (write_contents-IsSaved c.file (some t) w off s))
        (λ a e m.
          let (i, x, y) = move_aside-some c.file w a m in
          commit-SavedAfter n cs written (asides ++ a ∷ []) (move_aside c.file w).1
            (Progress-move before written asides a w.disk (move_aside c.file w).1.disk p
              (subst (λ z. any (at_change z) written ≡ false) (sym i) f.0)
              (subst (λ z. any (at_aside z) asides ≡ false) (sym i) f.1) (ap w.disk i ∙ x)
              (subst (λ z. Elsewhere z w.disk (move_aside c.file w).1.disk) (sym i)
                (move_aside-Elsewhere c.file w)))
            (AllFresh-moved cs written asides a
              (subst (λ z. any (at_change z) cs ≡ false) (sym i) d) fs)
            ds os (ground (arith, h)) g
            (move_aside-IsSaved c.file w a m i (sym (p.off c.file f.1 f.0) ∙ x) s))
        (λ m. undo-SavedAfter written asides (move_aside c.file w).1 p.moved g (
          IsSaved-same w (move_aside c.file w).1 (ap (λ d. d q) (move_aside-none c.file w m))
            (ap (λ d. d q) (move_aside-hidden c.file w ∙ ap (λ x. hide x w.hidden) m)) s))
    where
      away : (t : Bytes) → c.contents ≡ some t → bytes_eq q c.file ≡ false
      away t e = ground (arith, h, e)

      grown : bytes_eq q c.file ≡ false → any (at_change q) (written ++ c ∷ []) ≡ false
      grown off = ground (arith, any-append (at_change q) written (c ∷ []), g, off)
