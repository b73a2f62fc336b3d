-- ===== src/Patches/Progress.antt =====
-- src/step/diff.rs, the writes of `apply_patch`: what each adds to those done so far.
use hk.Prelude.{
  ◌≡◌, refl, ap, sym, ◌∙◌, true, false, Option, none, some, List, [], ◌∷◌, ◌++◌, arith, Bytes,
  bytes_eq_sym, any, any-append,
}
use hk.Patches.Plan.{Change, Disk}
use hk.Patches.Commit.{World, write_contents, Aside}
use hk.Patches.Disk.{
  at_change, at_aside, Elsewhere, write_contents-Elsewhere, Left, same, start, write_contents-Left,
}
use hk.Patches.Undo.{
  leftover, Kept, AllKept, Distinct, AllHonest, AllMoved, AllApart, AllKept-Elsewhere, Progress,
}

-- The path of a change that is none of those written and moved aside.
abbrev pub IsFresh : Change → List Change → List Aside → Type 0
IsFresh c written asides =
    (any (at_change c.file) written ≡ false) × (any (at_aside c.file) asides ≡ false)

abbrev pub AllFresh : List Change → List Change → List Aside → Type 0
AllFresh [] written asides = Unit
AllFresh (c ∷ cs) written asides = IsFresh c written asides × AllFresh cs written asides

Distinct-snoc :
    (cs : List Change) (c : Change)
    → any (at_change c.file) cs ≡ false
    → Distinct cs
    → Distinct (cs ++ c ∷ [])
unfolding any
Distinct-snoc [] c h d = (refl, tt)
Distinct-snoc (e ∷ cs) c h (d, ds) = (
  ground (arith, any-append (at_change e.file) cs (c ∷ []), bytes_eq_sym e.file c.file, h, d),
  Distinct-snoc cs c (ground (arith, h)) ds,
)

AllHonest-snoc :
    (before : Disk) (cs : List Change) (c : Change)
    → AllHonest before cs
    → c.original ≡ before c.file
    → AllHonest before (cs ++ c ∷ [])
AllHonest-snoc before [] c h e = (e, tt)
AllHonest-snoc before (d ∷ cs) c (h, hs) e = (h, AllHonest-snoc before cs c hs e)

AllKept-snoc :
    (cs : List Change) (c : Change) (d : Disk) → AllKept cs d → Kept c d → AllKept (cs ++ c ∷ []) d
AllKept-snoc [] c d k e = (e, tt)
AllKept-snoc (b ∷ cs) c d (k, ks) e = (k, AllKept-snoc cs c d ks e)

AllMoved-snoc :
    (before : Disk) (more : List Aside) (a : Aside)
    → AllMoved before more
    → before a.file ≡ some a.text
    → AllMoved before (more ++ a ∷ [])
AllMoved-snoc before [] a h e = (e, tt)
AllMoved-snoc before (b ∷ more) a (h, hs) e = (h, AllMoved-snoc before more a hs e)

AllApart-snoc :
    (more : List Aside) (a : Aside) (written : List Change)
    → AllApart more written
    → any (at_change a.file) written ≡ false
    → AllApart (more ++ a ∷ []) written
AllApart-snoc [] a written h e = (e, tt)
AllApart-snoc (b ∷ more) a written (h, hs) e = (h, AllApart-snoc more a written hs e)

AllApart-written :
    (more : List Aside) (written : List Change) (c : Change)
    → any (at_aside c.file) more ≡ false
    → AllApart more written
    → AllApart more (written ++ c ∷ [])
unfolding any
AllApart-written [] written c h x = tt
AllApart-written (a ∷ more) written c h (x, xs) = (
  ground (arith, any-append (at_change a.file) written (c ∷ []), bytes_eq_sym a.file c.file, h, x),
  AllApart-written more written c (ground (arith, h)) xs,
)

pub AllFresh-written :
    (cs written : List Change) (asides : List Aside) (c : Change)
    → any (at_change c.file) cs ≡ false
    → AllFresh cs written asides
    → AllFresh cs (written ++ c ∷ []) asides
unfolding any
AllFresh-written [] written asides c h f = tt
AllFresh-written (e ∷ cs) written asides c h ((f, g), fs) = (
  (
    ground
        (arith, any-append (at_change e.file) written (c ∷ []), bytes_eq_sym e.file c.file, h, f),
    g,
  ),
  AllFresh-written cs written asides c (ground (arith, h)) fs,
)

pub AllFresh-moved :
    (cs written : List Change) (asides : List Aside) (a : Aside)
    → any (at_change a.file) cs ≡ false
    → AllFresh cs written asides
    → AllFresh cs written (asides ++ a ∷ [])
unfolding any
AllFresh-moved [] written asides a h f = tt
AllFresh-moved (e ∷ cs) written asides a h ((f, g), fs) = (
  (
    f,
    ground (arith, any-append (at_aside e.file) asides (a ∷ []), bytes_eq_sym e.file a.file, h, g),
  ),
  AllFresh-moved cs written asides a (ground (arith, h)) fs,
)

-- A write that succeeds or fails leaves what `roll_back` may remove.
Left-leftover :
    (t : Bytes) (old new : Option Bytes)
    → Left t old new
    → old ≡ none
    → leftover (some t) new ≡ true
Left-leftover t old _ same e = ap (leftover (some t)) e
Left-leftover t old _ (start u h) e = h

module _ (before : Disk) (written : List Change) (asides : List Aside) where
  pub Progress-write :
      (c : Change) (t : Bytes) (w : World)
      → Progress before written asides w.disk
      → IsFresh c written asides
      → c.original ≡ before c.file
      → c.contents ≡ some t
      → Progress before (written ++ c ∷ []) asides (write_contents c.file (some t) w).1.disk
  unfolding any
  Progress-write c t w p (f, g) o e =
      let after = (write_contents c.file (some t) w).1.disk in
      let was : w.disk c.file ≡ c.original = p.off c.file g f ∙ sym o in
      record {
        distinct = Distinct-snoc written c f p.distinct;
        honest = AllHonest-snoc before written c p.honest o;
        kept =
            AllKept-snoc written c after
              (AllKept-Elsewhere c.file w.disk after written f
                (write_contents-Elsewhere c.file (some t) w) p.kept)
              (λ n.
                ap (λ x. leftover x (after c.file)) e
                ∙ Left-leftover t (w.disk c.file) (after c.file) (write_contents-Left c.file t w)
                    (was ∙ n));
        moved = p.moved;
        apart = AllApart-written asides written c g p.apart;
        off = λ q a b.
            write_contents-Elsewhere c.file (some t) w q
              (ground (arith, any-append (at_change q) written (c ∷ []), b))
            ∙ p.off q a (ground (arith, any-append (at_change q) written (c ∷ []), b));
      }

  pub Progress-move :
      (a : Aside) (d after : Disk)
      → Progress before written asides d
      → any (at_change a.file) written ≡ false
      → any (at_aside a.file) asides ≡ false
      → d a.file ≡ some a.text
      → Elsewhere a.file d after
      → Progress before written (asides ++ a ∷ []) after
  unfolding any
  Progress-move a d after p f g h e = record {
    distinct = p.distinct;
    honest = p.honest;
    kept = AllKept-Elsewhere a.file d after written f e p.kept;
    moved = AllMoved-snoc before asides a p.moved (sym (p.off a.file g f) ∙ h);
    apart = AllApart-snoc asides a written p.apart f;
    off = λ q x b.
        e q (ground (arith, any-append (at_aside q) asides (a ∷ []), x))
        ∙ p.off q (ground (arith, any-append (at_aside q) asides (a ∷ []), x)) b;
  }
