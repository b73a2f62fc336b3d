-- ===== src/Patches/Steps.antt =====
-- src/step/diff.rs, the writes of `apply_patch`: the ways that one of them goes.
use hk.Prelude.{
  ℕ, ◌≡◌, refl, ap, sym, ◌∙◌, true, Option, none, some, List, [], ◌∷◌, ◌++◌, Bytes, if◌then◌else◌,
  if_cases,
}
use hk.Patches.Plan.{Change}
use hk.Patches.Commit.{
  Fate, succeeds, fails, cut, World, next_fate, write_contents, Aside, move_by, move_aside, Applied,
  undo, commit, remove_asides, is_done, unhide,
}
use hk.Patches.Disk.{Elsewhere, move_by-Elsewhere, update_self}

-- A removed copy is no file of the disk.
pub remove_asides-disk : (more : List Aside) (w : World) → (remove_asides more w).disk ≡ w.disk
unfolding remove_asides
remove_asides-disk [] w = refl
remove_asides-disk (a ∷ more) w = remove_asides-disk more (record w {
  hidden = unhide (is_done (next_fate w.fates).0) a w.hidden;
  fates = (next_fate w.fates).1;
})

-- The four ways that one change goes.
pub commit_cases :
    (P : Applied × World → Type 0) (n : ℕ) (c : Change) (cs written : List Change)
    (asides : List Aside) (w : World)
    → ((t : Bytes)
        → c.contents ≡ some t
        → (write_contents c.file (some t) w).0 ≡ true
        → P (commit n cs (written ++ c ∷ []) asides (write_contents c.file (some t) w).1))
    → ((t : Bytes)
        → c.contents ≡ some t
        → P (undo (written ++ c ∷ []) asides (write_contents c.file (some t) w).1))
    → ((a : Aside)
        → c.contents ≡ none
        → (move_aside c.file w).0 ≡ some a
        → P (commit n cs written (asides ++ a ∷ []) (move_aside c.file w).1))
    → ((move_aside c.file w).0 ≡ none → P (undo written asides (move_aside c.file w).1))
    → P (commit n (c ∷ cs) written asides w)
unfolding commit
commit_cases P n c cs written asides w f g h k = go c.contents refl
  where
    moved :
        (o : Option Aside)
        → c.contents ≡ none
        → (move_aside c.file w).0 ≡ o
        → P (elim o as (λ _. Applied × World) [
          | some a ↦ commit n cs written (asides ++ a ∷ []) (move_aside c.file w).1
          | none ↦ undo written asides (move_aside c.file w).1
        ])
    moved (some a) d e = h a d e
    moved none d e = k e

    go :
        (o : Option Bytes)
        → c.contents ≡ o
        → P (elim o as (λ _. Applied × World) [
          | some t ↦
              if (write_contents c.file (some t) w).0
              then commit n cs (written ++ c ∷ []) asides (write_contents c.file (some t) w).1
              else undo (written ++ c ∷ []) asides (write_contents c.file (some t) w).1
          | none ↦ elim (move_aside c.file w).0 as (λ _. Applied × World) [
            | some a ↦ commit n cs written (asides ++ a ∷ []) (move_aside c.file w).1
            | none ↦ undo written asides (move_aside c.file w).1
          ]
        ])
    go (some t) e =
        if_cases {A = Applied × World} P (write_contents c.file (some t) w).0 _ _ (λ b. f t e b)
          (λ _. g t e)
    go none e = moved (move_aside c.file w).0 e refl

-- What a file that was moved aside says.
pub move_aside-some :
    (p : Bytes) (w : World) (a : Aside)
    → (move_aside p w).0 ≡ some a
    → (a.file ≡ p) × (w.disk p ≡ some a.text) × ((move_aside p w).1.disk p ≡ none)
unfolding move_aside
move_aside-some p w a h = go (next_fate w.fates).0 (w.disk p) refl h
  where
    get : Option Aside → Aside
    get none = a
    get (some b) = b

    go :
        (f : Fate) (t : Option Bytes)
        → w.disk p ≡ t
        → (move_by f p t w.disk).0 ≡ some a
        → (a.file ≡ p) × (w.disk p ≡ some a.text) × ((move_by f p t w.disk).1 p ≡ none)
    go succeeds (some t) e k = (
      ap Aside.file (sym (ap get k)),
      e ∙ ap (λ b. some (Aside.text b)) (ap get k),
      update_self p none w.disk,
    )
    go succeeds none e k = absurd (cc)
    go fails t e k = absurd (cc)
    go (cut n) t e k = absurd (cc)

pub move_aside-none :
    (p : Bytes) (w : World) → (move_aside p w).0 ≡ none → (move_aside p w).1.disk ≡ w.disk
unfolding move_aside
move_aside-none p w h = go (next_fate w.fates).0 (w.disk p) h
  where
    go :
        (f : Fate) (t : Option Bytes)
        → (move_by f p t w.disk).0 ≡ none
        → (move_by f p t w.disk).1 ≡ w.disk
    go succeeds (some t) k = absurd (cc)
    go succeeds none k = refl
    go fails t k = refl
    go (cut n) t k = refl

pub move_aside-Elsewhere : (p : Bytes) (w : World) → Elsewhere p w.disk (move_aside p w).1.disk
unfolding move_aside
move_aside-Elsewhere p w = move_by-Elsewhere (next_fate w.fates).0 p (w.disk p) w.disk
