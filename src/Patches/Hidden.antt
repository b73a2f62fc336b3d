-- ===== src/Patches/Hidden.antt =====
-- src/step/diff.rs, the writes of `apply_patch`: which hidden copies of deleted files may stay.
use hk.Prelude.{
  ◌≡◌, refl, ap, sym, ◌∙◌, subst, ◌⊎◌, inl, inr, Bool, true, false, ◌&&◌, Option, none, some, List,
  [], ◌∷◌, arith, Bytes, bytes_eq, bytes_eq→eq, any, if_cases, Bool-cases,
}
use hk.Patches.Plan.{Change, Disk}
use hk.Patches.Commit.{
  Fate, succeeds, fails, cut, World, next_fate, Done, with_disk, write_contents, Aside, unhide,
  restore_aside, is_prefix_of, set_permissions, put_back, roll_back, restore_all, roll_back_all,
  Applied, applied, rejected, rollback_failed, undo, is_done, remove_asides,
}
use hk.Patches.Disk.{at_aside, update-Elsewhere, write_contents-Elsewhere}
use hk.Patches.Steps.{}

pub write_contents-hidden :
    (p : Bytes) (t : Option Bytes) (w : World) → (write_contents p t w).1.hidden ≡ w.hidden
unfolding write_contents
write_contents-hidden p (some t) w = refl
write_contents-hidden p none w = refl

set_permissions-hidden : (x : Done) → (set_permissions x).1.hidden ≡ x.1.hidden
set_permissions-hidden (false, w) = refl
set_permissions-hidden (true, w) = go (next_fate w.fates).0
  where
    go :
        (f : Fate)
        → (elim f as (λ _. Done) [
          | succeeds ↦ (true, with_disk w (next_fate w.fates).1 w.disk)
          | fails ↦ (false, with_disk w (next_fate w.fates).1 w.disk)
          | cut n ↦ (false, with_disk w (next_fate w.fates).1 w.disk)
        ]).1.hidden
          ≡ w.hidden
    go succeeds = refl
    go fails = refl
    go (cut n) = refl

-- A rollback writes and removes no hidden copy.
put_back-hidden :
    (p : Bytes) (o t contents : Option Bytes) (w : World)
    → (put_back p o t contents w).1.hidden ≡ w.hidden
put_back-hidden p (some o) (some t) contents w =
    if_cases {A = Done} (λ r. r.1.hidden ≡ w.hidden) (bytes_eq t o) (true, w)
      (set_permissions (write_contents p (some o) w)) (λ _. refl)
      (λ _.
        set_permissions-hidden (write_contents p (some o) w) ∙ write_contents-hidden p (some o) w)
put_back-hidden p (some o) none contents w =
    set_permissions-hidden (write_contents p (some o) w) ∙ write_contents-hidden p (some o) w
put_back-hidden p none (some t) contents w =
    if_cases {A = Done} (λ r. r.1.hidden ≡ w.hidden) (is_prefix_of t contents)
      (write_contents p none w) (true, w) (λ _. write_contents-hidden p none w) (λ _. refl)
put_back-hidden p none none contents w = refl

roll_back-hidden : (c : Change) (w : World) → (roll_back c w).1.hidden ≡ w.hidden
unfolding roll_back
roll_back-hidden c w = go (next_fate w.fates).0
  where
    after : World
    after = with_disk w (next_fate w.fates).1 w.disk

    go :
        (f : Fate)
        → (elim f as (λ _. Done) [
          | succeeds ↦ put_back c.file c.original (w.disk c.file) c.contents after
          | fails ↦ (false, after)
          | cut n ↦ (false, after)
        ]).1.hidden
          ≡ w.hidden
    go succeeds = put_back-hidden c.file c.original (w.disk c.file) c.contents after
    go fails = refl
    go (cut n) = refl

pub roll_back_all-hidden : (cs : List Change) (w : World) → (roll_back_all cs w).1.hidden ≡ w.hidden
unfolding roll_back_all
roll_back_all-hidden [] w = refl
roll_back_all-hidden (c ∷ cs) w = roll_back_all-hidden cs (roll_back c w).1 ∙ roll_back-hidden c w

pub restore_aside-hidden :
    (a : Aside) (w : World) → (restore_aside a w).1.hidden ≡ unhide (restore_aside a w).0 a w.hidden
unfolding restore_aside
restore_aside-hidden a w = refl

-- What a hidden copy may be: of a file that `Of` holds of, with the text that it had before.
abbrev pub Copies : Disk → (Bytes → Type 0) → Disk → Type 0
Copies before Of hidden = (q : Bytes) → (hidden q ≡ none) ⊎ (Of q × (hidden q ≡ before q))

abbrev pub WasMoved : List Aside → Bytes → Type 0
WasMoved asides q = any (at_aside q) asides ≡ true

-- A file that was moved aside and is not there.
abbrev pub IsGone : List Aside → Disk → Bytes → Type 0
IsGone asides d q = WasMoved asides q × (d q ≡ none)

module _ (before : Disk) where
  pub Copies-map :
      (P Q : Bytes → Type 0) (h : Disk)
      → ((q : Bytes) → P q → Q q)
      → Copies before P h
      → Copies before Q h
  Copies-map P Q h f k q = elim (k q) [ inl e ↦ inl e | inr (x, e) ↦ inr (f q x, e) ]

  unhide-Copies :
      (Of : Bytes → Type 0) (ok : Bool) (a : Aside) (h : Disk)
      → Copies before Of h
      → Copies before Of (unhide ok a h)
  unhide-Copies Of false a h k = k
  unhide-Copies Of true a h k = λ q. elim (Bool-cases (bytes_eq q a.file)) [
    | inl e ↦ inl (rw e refl)
    | inr e ↦
        subst (λ x. (x ≡ none) ⊎ (Of q × (x ≡ before q))) (sym (update-Elsewhere a.file none h q e))
          (k q)
  ]

  -- With its copy, a file is none of those moved aside.
  unhide-WasMoved :
      (a : Aside) (more : List Aside) (h : Disk)
      → Copies before (WasMoved (a ∷ more)) h
      → Copies before (WasMoved more) (unhide true a h)
  unfolding any
  unhide-WasMoved a more h k q = elim (Bool-cases (bytes_eq q a.file)) [
    | inl e ↦ inl (rw e refl)
    | inr e ↦
        subst (λ x. (x ≡ none) ⊎ (WasMoved more q × (x ≡ before q)))
          (sym (update-Elsewhere a.file none h q e))
          (elim (k q) [ inl i ↦ inl i | inr (m, i) ↦ inr (ground (arith, m, e), i) ])
  ]

  restore_all-Copies :
      (Of : Bytes → Type 0) (more : List Aside) (w : World)
      → Copies before Of w.hidden
      → Copies before Of (restore_all more w).1.hidden
  unfolding restore_all
  restore_all-Copies Of [] w k = k
  restore_all-Copies Of (a ∷ more) w k = restore_all-Copies Of more (restore_aside a w).1 (
      subst (Copies before Of) (sym (restore_aside-hidden a w))
        (unhide-Copies Of (restore_aside a w).0 a w.hidden k))

  restore_all-none :
      (more : List Aside) (w : World)
      → Copies before (WasMoved more) w.hidden
      → (restore_all more w).0 ≡ true
      → Copies before (WasMoved []) (restore_all more w).1.hidden
  unfolding restore_all
  restore_all-none [] w k h = k
  restore_all-none (a ∷ more) w k h =
      let ok : (restore_aside a w).0 ≡ true = ground (arith, h) in
      restore_all-none more (restore_aside a w).1
        (subst (Copies before (WasMoved more))
          (sym (restore_aside-hidden a w ∙ ap (λ b. unhide b a w.hidden) ok))
          (unhide-WasMoved a more w.hidden k))
        (ground (arith, h))

  pub remove_asides-Copies :
      (Of : Bytes → Type 0) (more : List Aside) (w : World)
      → Copies before Of w.hidden
      → Copies before Of (remove_asides more w).hidden
  unfolding remove_asides
  remove_asides-Copies Of [] w k = k
  remove_asides-Copies Of (a ∷ more) w k =
      let ok = is_done (next_fate w.fates).0 in
      remove_asides-Copies Of more
        (record w { hidden = unhide ok a w.hidden; fates = (next_fate w.fates).1 })
        (unhide-Copies Of ok a w.hidden k)

  -- The hidden copies that each outcome may leave: of files that are gone, with their text; none; of
  -- any file, with its text.
  abbrev pub CopiesAfter : Applied → World → Type 0
  CopiesAfter (applied n) after = Copies before (λ q. after.disk q ≡ none) after.hidden
  CopiesAfter rejected after = (q : Bytes) → after.hidden q ≡ none
  CopiesAfter rollback_failed after = Copies before (λ q. Unit {0}) after.hidden

  pub undo-CopiesAfter :
      (written : List Change) (asides : List Aside) (w : World)
      → Copies before (WasMoved asides) w.hidden
      → CopiesAfter (undo written asides w).0 (undo written asides w).1
  unfolding undo any
  undo-CopiesAfter written asides w k =
      let a = restore_all asides w in
      let b = roll_back_all written a.1 in
      if_cases {A = Applied} (λ r. CopiesAfter r b.1) (a.0 && b.0) rejected rollback_failed
        (λ e q. elim (restore_all-none asides w k (ground (arith, e)) q) [
          | inl i ↦ ap (λ d. d q) (roll_back_all-hidden written a.1) ∙ i
          | inr (m, i) ↦ absurd (cc)
        ])
        (λ _. subst (Copies before (λ q. Unit {0})) (sym (roll_back_all-hidden written a.1)) (
          Copies-map (WasMoved asides) (λ q. Unit {0}) a.1.hidden (λ q m. tt)
            (restore_all-Copies (WasMoved asides) asides w k)))

  abbrev pub Gone : List Aside → World → Type 0
  Gone asides w = Copies before (IsGone asides w.disk) w.hidden

  pub Gone-write :
      (asides : List Aside) (c : Change) (t : Option Bytes) (w : World)
      → any (at_aside c.file) asides ≡ false
      → Gone asides w
      → Gone asides (write_contents c.file t w).1
  Gone-write asides c t w g k =
      subst (Copies before (IsGone asides (write_contents c.file t w).1.disk))
        (sym (write_contents-hidden c.file t w))
        (Copies-map (IsGone asides w.disk) (IsGone asides (write_contents c.file t w).1.disk)
          w.hidden
          (λ q (m, e). elim (Bool-cases (bytes_eq q c.file)) [
            | inl i ↦
                let n = subst (λ z. any (at_aside z) asides ≡ true) (bytes_eq→eq q c.file i) m in
                absurd (cc (n, g))
            | inr i ↦ (m, write_contents-Elsewhere c.file t w q i ∙ e)
          ])
          k)
