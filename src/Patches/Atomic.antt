-- ===== src/Patches/Atomic.antt =====
-- src/step/diff.rs, the writes of `apply_patch`: all of them or none.
use hk.Prelude.{
  ℕ, ◌≡◌, refl, ap, sym, ◌∙◌, subst, inl, inr, false, Option, none, some, List, [], ◌∷◌, ◌++◌,
  arith, Bytes, bytes_eq, bytes_eq→eq, bytes_eq_sym, any, any-append, if◌then◌else◌, Bool-cases,
}
use hk.Patches.Plan.{Change, Disk}
use hk.Patches.Commit.{
  World, write_contents, Aside, move_aside, Applied, applied, rejected, rollback_failed, commit,
}
use hk.Patches.Disk.{at_change, at_aside, Elsewhere, write_contents-Elsewhere, write_contents-ok}
use hk.Patches.Progress.{AllFresh, AllFresh-written, AllFresh-moved, Progress-write, Progress-move}
use hk.Patches.Undo.{Distinct, AllHonest, Progress, undo-rejected, undo-elsewhere, undo-not_applied}
use hk.Patches.Steps.{
  remove_asides-disk, commit_cases, move_aside-some, move_aside-none, move_aside-Elsewhere,
}

module _ (before : Disk) (n : ℕ) where
  pub commit-rejected :
      (cs written : List Change) (asides : List Aside) (w : World)
      → Progress before written asides w.disk
      → AllFresh cs written asides
      → Distinct cs
      → AllHonest before cs
      → (commit n cs written asides w).0 ≡ rejected
      → (q : Bytes) → (commit n cs written asides w).1.disk q ≡ before q
  unfolding commit
  commit-rejected [] written asides w p f d o = λ h. absurd (cc)
  commit-rejected (c ∷ cs) written asides w p (f, fs) (d, ds) (o, os) =
      commit_cases (λ r. r.0 ≡ rejected → (q : Bytes) → r.1.disk q ≡ before q) n c cs written asides
        w
        (λ t e _.
          commit-rejected cs (written ++ c ∷ []) asides (write_contents c.file (some t) w).1
            (Progress-write before written asides c t w p f o e)
            (AllFresh-written cs written asides c d fs) ds os)
        (λ t e.
          undo-rejected before (written ++ c ∷ []) asides (write_contents c.file (some t) w).1
            (Progress-write before written asides c t w p f o e))
        (λ a e m.
          let (k, x, y) = move_aside-some c.file w a m in
          commit-rejected cs written (asides ++ a ∷ []) (move_aside c.file w).1
            (Progress-move before written asides a w.disk (move_aside c.file w).1.disk p
              (subst (λ z. any (at_change z) written ≡ false) (sym k) f.0)
              (subst (λ z. any (at_aside z) asides ≡ false) (sym k) f.1) (ap w.disk k ∙ x)
              (subst (λ z. Elsewhere z w.disk (move_aside c.file w).1.disk) (sym k)
                (move_aside-Elsewhere c.file w)))
            (AllFresh-moved cs written asides a
              (subst (λ z. any (at_change z) cs ≡ false) (sym k) d) fs)
            ds os)
        (λ m.
          undo-rejected before written asides (move_aside c.file w).1
            (subst (Progress before written asides) (sym (move_aside-none c.file w m)) p))

  -- What none of the changes is about stays as it was, whatever the outcome.
  pub commit-elsewhere :
      (cs written : List Change) (asides : List Aside) (w : World) (q : Bytes)
      → any (at_change q) cs ≡ false
      → any (at_change q) written ≡ false
      → any (at_aside q) asides ≡ false
      → (commit n cs written asides w).1.disk q ≡ w.disk q
  unfolding commit any
  commit-elsewhere [] written asides w q h i j = ap (λ d. d q) (remove_asides-disk asides w)
  commit-elsewhere (c ∷ cs) written asides w q h i j =
      let away : bytes_eq q c.file ≡ false = ground (arith, h) in
      let i' : any (at_change q) (written ++ c ∷ []) ≡ false =
        ground (arith, any-append (at_change q) written (c ∷ []), away, i) in
      commit_cases (λ r. r.1.disk q ≡ w.disk q) n c cs written asides w
        (λ t e _.
          commit-elsewhere cs (written ++ c ∷ []) asides (write_contents c.file (some t) w).1 q
            (ground (arith, h)) i' j
          ∙ write_contents-Elsewhere c.file (some t) w q away)
        (λ t e.
          undo-elsewhere (written ++ c ∷ []) asides (write_contents c.file (some t) w).1 q j i'
          ∙ write_contents-Elsewhere c.file (some t) w q away)
        (λ a e m.
          let (k, x, y) = move_aside-some c.file w a m in
          commit-elsewhere cs written (asides ++ a ∷ []) (move_aside c.file w).1 q
            (ground (arith, h)) i
            (ground (arith, any-append (at_aside q) asides (a ∷ []), away, j, ap (bytes_eq q) k))
          ∙ move_aside-Elsewhere c.file w q away)
        (λ m.
          undo-elsewhere written asides (move_aside c.file w).1 q j i
          ∙ move_aside-Elsewhere c.file w q away)

-- The contents that the changes give a file.
unfoldable pub change_of : Bytes → List Change → Option (Option Bytes)
change_of q [] = none
change_of q (c ∷ cs) =
    let later = change_of q cs in if bytes_eq c.file q then some c.contents else later

-- The disk with all changes made.
abbrev pub or_old : Option (Option Bytes) → Option Bytes → Option Bytes
or_old none old = old
or_old (some t) old = t

abbrev pub changed_disk : List Change → Disk → Disk
changed_disk cs d q = or_old (change_of q cs) (d q)

change_of-absent :
    (q : Bytes) (cs : List Change) → any (at_change q) cs ≡ false → change_of q cs ≡ none
unfolding change_of any
change_of-absent q [] h = refl
change_of-absent q (c ∷ cs) h = ground (arith, bytes_eq_sym q c.file, change_of-absent q cs)

changed_disk-cons :
    (c : Change) (cs : List Change) (d after : Disk)
    → any (at_change c.file) cs ≡ false
    → after c.file ≡ c.contents
    → Elsewhere c.file d after
    → (q : Bytes) → changed_disk cs after q ≡ changed_disk (c ∷ cs) d q
unfolding change_of
changed_disk-cons c cs d after h e s q = elim (Bool-cases (bytes_eq c.file q)) [
  | inl i ↦
      let p = bytes_eq→eq c.file q i in
      ap (λ o. or_old o (after q))
        (change_of-absent q cs (subst (λ z. any (at_change z) cs ≡ false) p h))
      ∙ ap after (sym p)
      ∙ e
      ∙ ap (λ b. or_old (if b then some c.contents else change_of q cs) (d q)) (sym i)
  | inr i ↦
      ap (or_old (change_of q cs)) (s q (bytes_eq_sym q c.file ∙ i))
      ∙ ap (λ b. or_old (if b then some c.contents else change_of q cs) (d q)) (sym i)
]

module _ (n : ℕ) where
  pub commit-applied :
      (cs written : List Change) (asides : List Aside) (w : World) (m : ℕ)
      → Distinct cs
      → (commit n cs written asides w).0 ≡ applied m
      → (m ≡ n) × ((q : Bytes) → (commit n cs written asides w).1.disk q ≡ changed_disk cs w.disk q)
  unfolding commit change_of
  commit-applied [] written asides w m d =
      λ h. (count_of h, λ q. ap (λ d. d q) (remove_asides-disk asides w))
    where
      count : Applied → ℕ
      count (applied k) = k
      count rejected = 0
      count rollback_failed = 0

      count_of : {k l : ℕ} → applied k ≡ applied l → l ≡ k
      count_of h = sym (ap count h)
  commit-applied (c ∷ cs) written asides w m (d, ds) =
      commit_cases
        (λ r.
          r.0 ≡ applied m → (m ≡ n) × ((q : Bytes) → r.1.disk q ≡ changed_disk (c ∷ cs) w.disk q))
        n c cs written asides w
        (λ t e b h.
          let one = (write_contents c.file (some t) w).1 in
          let (i, j) = commit-applied cs (written ++ c ∷ []) asides one m ds h in
          (
            i,
            λ q.
                j q
                ∙ changed_disk-cons c cs w.disk one.disk d
                    (write_contents-ok c.file (some t) w b ∙ sym e)
                    (write_contents-Elsewhere c.file (some t) w) q,
          ))
        (λ t e h.
          absurd
            (undo-not_applied (written ++ c ∷ []) asides (write_contents c.file (some t) w).1 m h))
        (λ a e k h.
          let one = (move_aside c.file w).1 in
          let (x, y, z) = move_aside-some c.file w a k in
          let (i, j) = commit-applied cs written (asides ++ a ∷ []) one m ds h in
          (
            i,
            λ q.
                j q
                ∙ changed_disk-cons c cs w.disk one.disk d (z ∙ sym e)
                    (move_aside-Elsewhere c.file w) q,
          ))
        (λ k h. absurd (undo-not_applied written asides (move_aside c.file w).1 m h))
