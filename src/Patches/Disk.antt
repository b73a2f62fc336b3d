-- ===== src/Patches/Disk.antt =====
-- src/step/diff.rs, the writes of `apply_patch`: what each leaves on the disk.
use hk.Prelude.{
  ℕ, suc, zero, ◌≡◌, refl, sym, subst, Bool, true, false, Option, none, some, [], ◌∷◌, arith, Bytes,
  bytes_eq, bytes_eq_refl, starts_with, take,
}
use hk.Patches.Plan.{Change, Disk}
use hk.Patches.Commit.{
  Fate, succeeds, fails, cut, World, update, next_fate, is_absent, Done, with_disk, write_by,
  remove_by, write_contents, Aside, move_by, restore_by, set_permissions,
}

abbrev pub at_change : Bytes → Change → Bool
at_change q c = bytes_eq q c.file

abbrev pub at_aside : Bytes → Aside → Bool
at_aside q a = bytes_eq q a.file

pub starts_with_self : (t : Bytes) → starts_with t t ≡ true
unfolding starts_with
starts_with_self [] = refl
starts_with_self (c ∷ t) = ground (arith, starts_with_self t)

pub starts_with-take : (t : Bytes) (n : ℕ) → starts_with t (take n t) ≡ true
unfolding starts_with
starts_with-take t zero = refl
starts_with-take [] (suc n) = refl
starts_with-take (c ∷ t) (suc n) = ground (arith, starts_with-take t n)

-- What an operation on a path leaves on every other one.
abbrev pub Elsewhere : Bytes → Disk → Disk → Type 0
Elsewhere p before after = (q : Bytes) → bytes_eq q p ≡ false → after q ≡ before q

pub update-Elsewhere : (p : Bytes) (t : Option Bytes) (d : Disk) → Elsewhere p d (update p t d)
update-Elsewhere p t d q h = rw h refl

pub update_self : (p : Bytes) (t : Option Bytes) (d : Disk) → update p t d p ≡ t
update_self p t d = rw (bytes_eq_refl p) refl

write_by-Elsewhere : (f : Fate) (p t : Bytes) (d : Disk) → Elsewhere p d (write_by f p t d).1
write_by-Elsewhere succeeds p t d = update-Elsewhere p (some t) d
write_by-Elsewhere fails p t d = λ q h. refl
write_by-Elsewhere (cut n) p t d = update-Elsewhere p (some (take n t)) d

remove_by-Elsewhere : (f : Fate) (p : Bytes) (d : Disk) → Elsewhere p d (remove_by f p d).1
remove_by-Elsewhere succeeds p d = update-Elsewhere p none d
remove_by-Elsewhere fails p d = λ q h. refl
remove_by-Elsewhere (cut n) p d = λ q h. refl

pub write_contents-Elsewhere :
    (p : Bytes) (t : Option Bytes) (w : World) → Elsewhere p w.disk (write_contents p t w).1.disk
unfolding write_contents
write_contents-Elsewhere p (some t) w = write_by-Elsewhere (next_fate w.fates).0 p t w.disk
write_contents-Elsewhere p none w = remove_by-Elsewhere (next_fate w.fates).0 p w.disk

pub move_by-Elsewhere :
    (f : Fate) (p : Bytes) (t : Option Bytes) (d : Disk) → Elsewhere p d (move_by f p t d).1
move_by-Elsewhere succeeds p (some t) d = update-Elsewhere p none d
move_by-Elsewhere succeeds p none d = λ q h. refl
move_by-Elsewhere fails p t d = λ q h. refl
move_by-Elsewhere (cut n) p t d = λ q h. refl

pub restore_by-Elsewhere :
    (f : Fate) (a : Aside) (t : Option Bytes) (d : Disk) → Elsewhere a.file d (restore_by f a t d).1
restore_by-Elsewhere succeeds a none d = update-Elsewhere a.file (some a.text) d
restore_by-Elsewhere succeeds a (some t) d = λ q h. refl
restore_by-Elsewhere fails a t d = λ q h. refl
restore_by-Elsewhere (cut n) a none d = update-Elsewhere a.file (some a.text) d
restore_by-Elsewhere (cut n) a (some t) d = λ q h. refl

pub set_permissions-disk : (x : Done) → (set_permissions x).1.disk ≡ x.1.disk
set_permissions-disk (false, w) = refl
set_permissions-disk (true, w) = go (next_fate w.fates).0
  where
    go :
        (f : Fate)
        → (elim f as (λ _. Done) [
          | succeeds ↦ (true, with_disk w (next_fate w.fates).1 w.disk)
          | fails ↦ (false, with_disk w (next_fate w.fates).1 w.disk)
          | cut n ↦ (false, with_disk w (next_fate w.fates).1 w.disk)
        ]).1.disk
          ≡ w.disk
    go succeeds = refl
    go fails = refl
    go (cut n) = refl

pub set_permissions-ok : (x : Done) → (set_permissions x).0 ≡ true → x.0 ≡ true
set_permissions-ok (false, w) h = h
set_permissions-ok (true, w) h = refl

is_absent-none : (t : Option Bytes) → is_absent t ≡ true → t ≡ none
is_absent-none none h = refl
is_absent-none (some t) h = absurd (cc)

write_by-ok :
    (f : Fate) (p t : Bytes) (d : Disk)
    → (write_by f p t d).0 ≡ true
    → (write_by f p t d).1 p ≡ some t
write_by-ok succeeds p t d h = update_self p (some t) d
write_by-ok fails p t d h = absurd (cc)
write_by-ok (cut n) p t d h = absurd (cc)

remove_by-ok :
    (f : Fate) (p : Bytes) (d : Disk) → (remove_by f p d).0 ≡ true → (remove_by f p d).1 p ≡ none
remove_by-ok succeeds p d h = update_self p none d
remove_by-ok fails p d h = is_absent-none (d p) h
remove_by-ok (cut n) p d h = is_absent-none (d p) h

pub write_contents-ok :
    (p : Bytes) (t : Option Bytes) (w : World)
    → (write_contents p t w).0 ≡ true
    → (write_contents p t w).1.disk p ≡ t
unfolding write_contents
write_contents-ok p (some t) w h = write_by-ok (next_fate w.fates).0 p t w.disk h
write_contents-ok p none w h = remove_by-ok (next_fate w.fates).0 p w.disk h

-- What a write may leave: the file as it was, or the start of the text.
pub data Left (t : Bytes) (before : Option Bytes) : Option Bytes → Type 0 where
  same : Left t before before
  start : (u : Bytes) → starts_with t u ≡ true → Left t before (some u)

pub write_contents-Left :
    (p t : Bytes) (w : World) → Left t (w.disk p) ((write_contents p (some t) w).1.disk p)
unfolding write_contents
write_contents-Left p t w = go (next_fate w.fates).0
  where
    go : (f : Fate) → Left t (w.disk p) ((write_by f p t w.disk).1 p)
    go succeeds =
        subst (Left t (w.disk p)) (sym (update_self p (some t) w.disk))
          (start t (starts_with_self t))
    go fails = same
    go (cut n) =
        subst (Left t (w.disk p)) (sym (update_self p (some (take n t)) w.disk))
          (start (take n t) (starts_with-take t n))
