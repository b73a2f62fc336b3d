-- ===== src/Patches/Undo.antt =====
-- src/step/diff.rs, what puts the files back when a write of `apply_patch` fails.
use hk.Prelude.{
  ℕ, ◌≡◌, refl, ap, sym, ◌∙◌, inl, inr, Bool, true, false, ◌&&◌, Option, none, some, List, [], ◌∷◌,
  arith, Bytes, bytes_eq, bytes_eq→eq, bytes_eq_sym, any, if_cases, Bool-cases,
}
use hk.Patches.Plan.{Change, Disk}
use hk.Patches.Commit.{
  Fate, succeeds, fails, cut, World, next_fate, Done, with_disk, write_contents, Aside, restore_by,
  restore_aside, is_prefix_of, set_permissions, put_back, roll_back, restore_all, roll_back_all,
  Applied, applied, rejected, rollback_failed, undo,
}
use hk.Patches.Disk.{
  at_change, at_aside, Elsewhere, update_self, write_contents-Elsewhere, restore_by-Elsewhere,
  set_permissions-disk, set_permissions-ok, write_contents-ok,
}

roll_back-Elsewhere : (c : Change) (w : World) → Elsewhere c.file w.disk (roll_back c w).1.disk
unfolding roll_back
roll_back-Elsewhere c w = go (next_fate w.fates).0
  where
    after : World
    after = with_disk w (next_fate w.fates).1 w.disk

    written :
        (t : Bytes)
        → Elsewhere c.file w.disk (set_permissions (write_contents c.file (some t) after)).1.disk
    written t q h =
        ap (λ d. d q) (set_permissions-disk (write_contents c.file (some t) after))
        ∙ write_contents-Elsewhere c.file (some t) after q h

    put :
        (o t : Option Bytes) → Elsewhere c.file w.disk (put_back c.file o t c.contents after).1.disk
    put (some o) (some t) q h =
        if_cases {A = Done} (λ r. r.1.disk q ≡ w.disk q) (bytes_eq t o) (true, after)
          (set_permissions (write_contents c.file (some o) after)) (λ _. refl) (λ _. written o q h)
    put (some o) none q h = written o q h
    put none (some t) q h =
        if_cases {A = Done} (λ r. r.1.disk q ≡ w.disk q) (is_prefix_of t c.contents)
          (write_contents c.file none after) (true, after)
          (λ _. write_contents-Elsewhere c.file none after q h) (λ _. refl)
    put none none q h = refl

    go :
        (f : Fate)
        → Elsewhere c.file w.disk
            (elim f as (λ _. Done) [
              | succeeds ↦ put_back c.file c.original (w.disk c.file) c.contents after
              | fails ↦ (false, after)
              | cut n ↦ (false, after)
            ]).1.disk
    go succeeds = put c.original (w.disk c.file)
    go fails = λ q h. refl
    go (cut n) = λ q h. refl

-- What may be at a path that had no file: nothing, or what hk may have written.
abbrev pub leftover : Option Bytes → Option Bytes → Bool
leftover contents none = true
leftover contents (some t) = is_prefix_of t contents

abbrev pub Kept : Change → Disk → Type 0
Kept c d = c.original ≡ none → leftover c.contents (d c.file) ≡ true

roll_back-ok :
    (c : Change) (w : World)
    → Kept c w.disk
    → (roll_back c w).0 ≡ true
    → (roll_back c w).1.disk c.file ≡ c.original
unfolding roll_back
roll_back-ok c w k h = go (next_fate w.fates).0 h
  where
    after : World
    after = with_disk w (next_fate w.fates).1 w.disk

    Good : Option Bytes → Done → Type 0
    Good o r = r.0 ≡ true → r.1.disk c.file ≡ o

    written : (o : Bytes) → Good (some o) (set_permissions (write_contents c.file (some o) after))
    written o h =
        ap (λ d. d c.file) (set_permissions-disk (write_contents c.file (some o) after))
        ∙ write_contents-ok c.file (some o) after
            (set_permissions-ok (write_contents c.file (some o) after) h)

    put :
        (o t : Option Bytes)
        → w.disk c.file ≡ t
        → (o ≡ none → leftover c.contents t ≡ true)
        → Good o (put_back c.file o t c.contents after)
    put (some o) (some t) e l =
        if_cases {A = Done} (Good (some o)) (bytes_eq t o) (true, after)
          (set_permissions (write_contents c.file (some o) after))
          (λ b _. e ∙ ap some (bytes_eq→eq t o b)) (λ _. written o)
    put (some o) none e l = written o
    put none (some t) e l =
        if_cases {A = Done} (Good none) (is_prefix_of t c.contents)
          (write_contents c.file none after) (true, after)
          (λ _. write_contents-ok c.file none after) (λ b _. absurd (cc (b, l refl)))
    put none none e l = λ _. e

    go :
        (f : Fate)
        → Good c.original (elim f as (λ _. Done) [
          | succeeds ↦ put_back c.file c.original (w.disk c.file) c.contents after
          | fails ↦ (false, after)
          | cut n ↦ (false, after)
        ])
    go succeeds = put c.original (w.disk c.file) refl k
    go fails = λ h. absurd (cc)
    go (cut n) = λ h. absurd (cc)

pub restore_by-ok :
    (f : Fate) (a : Aside) (t : Option Bytes) (d : Disk)
    → (restore_by f a t d).0 ≡ true
    → (restore_by f a t d).1 a.file ≡ some a.text
restore_by-ok succeeds a none d h = update_self a.file (some a.text) d
restore_by-ok succeeds a (some t) d h = absurd (cc)
restore_by-ok fails a t d h = absurd (cc)
restore_by-ok (cut n) a none d h = absurd (cc)
restore_by-ok (cut n) a (some t) d h = absurd (cc)

pub restore_aside-Elsewhere :
    (a : Aside) (w : World) → Elsewhere a.file w.disk (restore_aside a w).1.disk
unfolding restore_aside
restore_aside-Elsewhere a w = restore_by-Elsewhere (next_fate w.fates).0 a (w.disk a.file) w.disk

restore_aside-ok :
    (a : Aside) (w : World)
    → (restore_aside a w).0 ≡ true
    → (restore_aside a w).1.disk a.file ≡ some a.text
unfolding restore_aside
restore_aside-ok a w = restore_by-ok (next_fate w.fates).0 a (w.disk a.file) w.disk

abbrev pub AllKept : List Change → Disk → Type 0
AllKept [] d = Unit
AllKept (c ∷ cs) d = Kept c d × AllKept cs d

abbrev pub Distinct : List Change → Type 0
Distinct [] = Unit
Distinct (c ∷ cs) = (any (at_change c.file) cs ≡ false) × Distinct cs

pub AllKept-Elsewhere :
    (p : Bytes) (d d' : Disk) (cs : List Change)
    → any (at_change p) cs ≡ false
    → Elsewhere p d d'
    → AllKept cs d
    → AllKept cs d'
unfolding any
AllKept-Elsewhere p d d' [] h s k = tt
AllKept-Elsewhere p d d' (c ∷ cs) h s (k, ks) =
    let e : bytes_eq c.file p ≡ false = ground (arith, bytes_eq_sym c.file p, h) in
    (
      (λ o. ap (leftover c.contents) (s c.file e) ∙ k o),
      AllKept-Elsewhere p d d' cs (ground (arith, h)) s ks,
    )

pub roll_back_all-elsewhere :
    (cs : List Change) (w : World) (q : Bytes)
    → any (at_change q) cs ≡ false
    → (roll_back_all cs w).1.disk q ≡ w.disk q
unfolding roll_back_all any
roll_back_all-elsewhere [] w q h = refl
roll_back_all-elsewhere (c ∷ cs) w q h =
    roll_back_all-elsewhere cs (roll_back c w).1 q (ground (arith, h))
    ∙ roll_back-Elsewhere c w q (ground (arith, h))

restore_all-elsewhere :
    (more : List Aside) (w : World) (q : Bytes)
    → any (at_aside q) more ≡ false
    → (restore_all more w).1.disk q ≡ w.disk q
unfolding restore_all any
restore_all-elsewhere [] w q h = refl
restore_all-elsewhere (a ∷ more) w q h =
    restore_all-elsewhere more (restore_aside a w).1 q (ground (arith, h))
    ∙ restore_aside-Elsewhere a w q (ground (arith, h))

module _ (before : Disk) where
  abbrev pub AllHonest : List Change → Type 0
  AllHonest [] = Unit
  AllHonest (c ∷ cs) = (c.original ≡ before c.file) × AllHonest cs

  abbrev pub AllMoved : List Aside → Type 0
  AllMoved [] = Unit
  AllMoved (a ∷ more) = (before a.file ≡ some a.text) × AllMoved more

  roll_back_all-ok :
      (cs : List Change) (w : World)
      → Distinct cs
      → AllHonest cs
      → AllKept cs w.disk
      → ((q : Bytes) → any (at_change q) cs ≡ false → w.disk q ≡ before q)
      → (roll_back_all cs w).0 ≡ true
      → (q : Bytes) → (roll_back_all cs w).1.disk q ≡ before q
  unfolding roll_back_all any
  roll_back_all-ok [] w s o k e h = λ q. e q refl
  roll_back_all-ok (c ∷ cs) w (s, ss) (o, os) (k, ks) e h =
      let one = (roll_back c w).1 in
      roll_back_all-ok cs one ss os
        (AllKept-Elsewhere c.file w.disk one.disk cs s (roll_back-Elsewhere c w) ks)
        (λ q off. elim (Bool-cases (bytes_eq q c.file)) [
          | inl i ↦
              let p = bytes_eq→eq q c.file i in
              ap one.disk p ∙ roll_back-ok c w k (ground (arith, h)) ∙ o ∙ ap before (sym p)
          | inr i ↦ roll_back-Elsewhere c w q i ∙ e q (ground (arith, i, off))
        ])
        (ground (arith, h))

  restore_all-ok :
      (more : List Aside) (written : List Change) (w : World)
      → AllMoved more
      → ((q : Bytes)
          → any (at_aside q) more ≡ false
          → any (at_change q) written ≡ false
          → w.disk q ≡ before q)
      → (restore_all more w).0 ≡ true
      → (q : Bytes) → any (at_change q) written ≡ false
      → (restore_all more w).1.disk q ≡ before q
  unfolding restore_all any
  restore_all-ok [] written w m e h = λ q off. e q refl off
  restore_all-ok (a ∷ more) written w (m, ms) e h =
      let one = (restore_aside a w).1 in
      restore_all-ok more written one ms
        (λ q off away. elim (Bool-cases (bytes_eq q a.file)) [
          | inl i ↦
              let p = bytes_eq→eq q a.file i in
              ap one.disk p ∙ restore_aside-ok a w (ground (arith, h)) ∙ sym m ∙ ap before (sym p)
          | inr i ↦ restore_aside-Elsewhere a w q i ∙ e q (ground (arith, i, off)) away
        ])
        (ground (arith, h))

-- No file that was moved aside was written too.
abbrev pub AllApart : List Aside → List Change → Type 0
AllApart [] written = Unit
AllApart (a ∷ more) written = (any (at_change a.file) written ≡ false) × AllApart more written

restore_all-AllKept :
    (more : List Aside) (written : List Change) (w : World)
    → AllApart more written
    → AllKept written w.disk
    → AllKept written (restore_all more w).1.disk
unfolding restore_all
restore_all-AllKept [] written w a k = k
restore_all-AllKept (a ∷ more) written w (x, xs) k =
    restore_all-AllKept more written (restore_aside a w).1 xs (
      AllKept-Elsewhere a.file w.disk (restore_aside a w).1.disk written x
        (restore_aside-Elsewhere a w) k)

-- What the writes of a patch have done so far to the disk as it was before them.
pub record Progress (before : Disk) (written : List Change) (asides : List Aside) (d : Disk)
    : Type 0 where
  pub distinct : Distinct written
  pub honest : AllHonest before written
  pub kept : AllKept written d
  pub moved : AllMoved before asides
  pub apart : AllApart asides written
  pub off :
      (q : Bytes)
      → any (at_aside q) asides ≡ false
      → any (at_change q) written ≡ false
      → d q ≡ before q

pub undo-rejected :
    (before : Disk) (written : List Change) (asides : List Aside) (w : World)
    → Progress before written asides w.disk
    → (undo written asides w).0 ≡ rejected
    → (q : Bytes) → (undo written asides w).1.disk q ≡ before q
unfolding undo
undo-rejected before written asides w p h =
    let a = restore_all asides w in
    let b = roll_back_all written a.1 in
    elim (Bool-cases (a.0 && b.0)) [
      | inl e ↦
          roll_back_all-ok before written a.1 p.distinct p.honest
            (restore_all-AllKept asides written w p.apart p.kept)
            (restore_all-ok before asides written w p.moved p.off (ground (arith, e)))
            (ground (arith, e))
      | inr e ↦ absurd (cc)
    ]

pub undo-elsewhere :
    (written : List Change) (asides : List Aside) (w : World) (q : Bytes)
    → any (at_aside q) asides ≡ false
    → any (at_change q) written ≡ false
    → (undo written asides w).1.disk q ≡ w.disk q
unfolding undo
undo-elsewhere written asides w q a c =
    roll_back_all-elsewhere written (restore_all asides w).1 q c
    ∙ restore_all-elsewhere asides w q a

pub undo-not_applied :
    (written : List Change) (asides : List Aside) (w : World) (n : ℕ)
    → (undo written asides w).0 ≡ applied n
    → ⊥
unfolding undo
undo-not_applied written asides w n h =
    if_cases {A = Applied} (λ r. r ≡ applied n → ⊥)
      ((restore_all asides w).0 && (roll_back_all written (restore_all asides w).1).0) rejected
      rollback_failed (λ _ e. absurd (cc)) (λ _ e. absurd (cc)) h
