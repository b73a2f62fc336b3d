-- ===== src/Patches/Commit.antt =====
-- src/step/diff.rs, the writes of `apply_patch` and what puts files back when one fails. Every operation
-- on a file takes the next fate; when none is left, all succeed.
use hk.Prelude.{
  ℕ, Bool, true, false, ◌&&◌, Option, none, some, List, [], ◌∷◌, ◌++◌, Bytes, bytes_eq, starts_with,
  take, length, if◌then◌else◌,
}
use hk.Patches.{Env}
use hk.Patches.Plan.{Change, Disk, plan}

-- An operation succeeds, fails and changes nothing, or fails after it wrote so many characters.
pub data Fate : Type 0 where
  succeeds : Fate
  fails : Fate
  cut : ℕ → Fate

-- The texts of the files, and of the hidden copies that the run has made of the files that it moved aside,
-- each by the name of the file that it is a copy of. The loop of `move_aside` over hidden names finds one
-- that nothing has.
pub record World : Type 0 where
  pub disk : Disk
  pub hidden : Disk
  pub fates : List Fate

abbrev pub update : Bytes → Option Bytes → Disk → Disk
update p t disk q = if bytes_eq q p then t else disk q

abbrev pub next_fate : List Fate → Fate × List Fate
next_fate [] = (succeeds, [])
next_fate (f ∷ fs) = (f, fs)

-- An operation's success, and the world after it.
abbrev pub Done : Type 0
Done = Bool × World

abbrev pub with_disk : World → List Fate → Disk → World
with_disk w fates disk = record w { disk = disk; fates = fates }

abbrev pub write_by : Fate → Bytes → Bytes → Disk → Bool × Disk
write_by succeeds p t disk = (true, update p (some t) disk)
write_by fails p t disk = (false, disk)
write_by (cut n) p t disk = (false, update p (some (take n t)) disk)

abbrev pub is_absent : Option Bytes → Bool
is_absent none = true
is_absent (some t) = false

-- `remove_file`, for which a file that is not there is no error.
abbrev pub remove_by : Fate → Bytes → Disk → Bool × Disk
remove_by succeeds p disk = (true, update p none disk)
remove_by fails p disk = (is_absent (disk p), disk)
remove_by (cut n) p disk = (is_absent (disk p), disk)

abbrev pub done : World → List Fate → Bool × Disk → Done
done w fates (ok, disk) = (ok, with_disk w fates disk)

unfoldable pub write_contents : Bytes → Option Bytes → World → Done
unfolding bytes_eq
write_contents p (some t) w = let f = next_fate w.fates in done w f.1 (write_by f.0 p t w.disk)
write_contents p none w = let f = next_fate w.fates in done w f.1 (remove_by f.0 p w.disk)

-- A file to be deleted is renamed to a new hidden name, under which its text is kept.
pub record Aside : Type 0 where
  pub file : Bytes
  pub text : Bytes

-- The hidden copies after a file was moved aside.
abbrev pub hide : Option Aside → Disk → Disk
hide none hidden = hidden
hide (some a) hidden = update a.file (some a.text) hidden

abbrev pub move_by : Fate → Bytes → Option Bytes → Disk → Option Aside × Disk
move_by succeeds p (some t) disk = (some (record { file = p; text = t }), update p none disk)
move_by succeeds p none disk = (none, disk)
move_by fails p t disk = (none, disk)
move_by (cut n) p t disk = (none, disk)

unfoldable pub move_aside : Bytes → World → Option Aside × World
unfolding bytes_eq
move_aside p w =
    let f = next_fate w.fates in
    let moved = move_by f.0 p (w.disk p) w.disk in
    (moved.0, record w { disk = moved.1; hidden = hide moved.0 w.hidden; fates = f.1 })

-- A restore that is cut puts the file back by a link and leaves the hidden copy.
abbrev pub restore_by : Fate → Aside → Option Bytes → Disk → Bool × Disk
restore_by succeeds a none disk = (true, update a.file (some a.text) disk)
restore_by succeeds a (some t) disk = (false, disk)
restore_by fails a t disk = (false, disk)
restore_by (cut n) a none disk = (false, update a.file (some a.text) disk)
restore_by (cut n) a (some t) disk = (false, disk)

-- The hidden copies after one may have been removed or renamed back.
abbrev pub unhide : Bool → Aside → Disk → Disk
unhide true a hidden = update a.file none hidden
unhide false a hidden = hidden

-- Another file at the path is not replaced.
unfoldable pub restore_aside : Aside → World → Done
unfolding bytes_eq
restore_aside a w =
    let f = next_fate w.fates in
    let (ok, after) = restore_by f.0 a (w.disk a.file) w.disk in
    (ok, record w { disk = after; hidden = unhide ok a w.hidden; fates = f.1 })

-- Whether what is there is what hk may have written.
abbrev pub is_prefix_of : Bytes → Option Bytes → Bool
is_prefix_of t none = false
is_prefix_of t (some attempted) = starts_with attempted t

abbrev pub set_permissions : Done → Done
set_permissions (false, w) = (false, w)
set_permissions (true, w) = elim (next_fate w.fates).0 [
  | succeeds ↦ (true, with_disk w (next_fate w.fates).1 w.disk)
  | fails ↦ (false, with_disk w (next_fate w.fates).1 w.disk)
  | cut n ↦ (false, with_disk w (next_fate w.fates).1 w.disk)
]

-- What `roll_back` does from the file it has read: the original, what is there, and what was attempted.
abbrev pub put_back : Bytes → Option Bytes → Option Bytes → Option Bytes → World → Done
put_back p (some original) (some t) attempted w =
    if bytes_eq t original then (true, w) else set_permissions (write_contents p (some original) w)
put_back p (some original) none attempted w = set_permissions (write_contents p (some original) w)
put_back p none (some t) attempted w =
    if is_prefix_of t attempted then write_contents p none w else (true, w)
put_back p none none attempted w = (true, w)

-- A file that cannot be read is an error.
unfoldable pub roll_back : Change → World → Done
unfolding write_contents starts_with
roll_back c w = elim (next_fate w.fates).0 [
  | succeeds ↦
      put_back c.file c.original (w.disk c.file) c.contents
        (with_disk w (next_fate w.fates).1 w.disk)
  | fails ↦ (false, with_disk w (next_fate w.fates).1 w.disk)
  | cut n ↦ (false, with_disk w (next_fate w.fates).1 w.disk)
]

unfoldable pub restore_all : List Aside → World → Done
unfolding restore_aside
restore_all [] w = (true, w)
restore_all (a ∷ more) w =
    let one = restore_aside a w in let rest = restore_all more one.1 in (one.0 && rest.0, rest.1)

unfoldable pub roll_back_all : List Change → World → Done
unfolding roll_back
roll_back_all [] w = (true, w)
roll_back_all (c ∷ cs) w =
    let one = roll_back c w in let rest = roll_back_all cs one.1 in (one.0 && rest.0, rest.1)

-- `apply_patch`'s result: the number of files, or why nothing was applied.
pub data Applied : Type 0 where
  applied : ℕ → Applied
  rejected : Applied
  rollback_failed : Applied

-- The files that were moved aside are put back first, then those that were written.
unfoldable pub undo : List Change → List Aside → World → Applied × World
unfolding restore_all roll_back_all
undo written asides w =
    let a = restore_all asides w in
    let b = roll_back_all written a.1 in (if a.0 && b.0 then rejected else rollback_failed, b.1)

abbrev pub is_done : Fate → Bool
is_done succeeds = true
is_done fails = false
is_done (cut n) = false

-- The loop that removes the hidden copies in the end; one that cannot be removed stays.
unfoldable pub remove_asides : List Aside → World → World
unfolding bytes_eq
remove_asides [] w = w
remove_asides (a ∷ more) w =
    let f = next_fate w.fates in
    remove_asides more (record w { hidden = unhide (is_done f.0) a w.hidden; fates = f.1 })

-- The changes that are left, with those written, the files moved aside, and how many changes there are.
unfoldable pub commit : ℕ → List Change → List Change → List Aside → World → Applied × World
unfolding undo write_contents move_aside remove_asides
commit n [] written asides w = (applied n, remove_asides asides w)
commit n (c ∷ cs) written asides w = elim c.contents [
  | some t ↦
      let one = write_contents c.file (some t) w in
      if one.0
      then commit n cs (written ++ c ∷ []) asides one.1
      else undo (written ++ c ∷ []) asides one.1
  | none ↦
      let one = move_aside c.file w in
      elim one.0 [
        | some a ↦ commit n cs written (asides ++ a ∷ []) one.1
        | none ↦ undo written asides one.1
      ]
]

abbrev pub commit_plan : Option (List Change) → World → Applied × World
commit_plan none w = (rejected, w)
commit_plan (some cs) w = commit (length cs) cs [] [] w

abbrev pub apply_patch : {P : Type 0} → Env P → Bytes → ℕ → World → Applied × World
apply_patch env diff strip w = commit_plan (plan env w.disk diff strip) w
