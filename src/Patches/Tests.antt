-- ===== src/Patches/Tests.antt =====
-- src/step/diff.rs: patches at concrete texts; the parser is one that knows a single patch.
use hk.Prelude.{
  ◌≡◌, refl, true, false, none, some, List, [], ◌∷◌, codes, Bytes, bytes_eq, starts_with, ◌++◌,
  if◌then◌else◌,
}
use hk.Patches.{
  normal, modify, create, text, present, readable, Env, is_dot_git, Component, cur_dir,
  component_text, delete,
}
use hk.Patches.Plan.{Change, Disk, plan}
use hk.Patches.Commit.{World, succeeds, fails, cut, applied, rejected, apply_patch, commit}
use hk.Patches.Hidden.{CopiesAfter}
use hk.Patches.Inside.{Inside, plan-Inside}
use hk.Patches.Transaction.{Transaction, names_each_file_one_way, apply_patch-Transaction}

-- A path is taken to name the file of its last component.
abbrev file_of : List Component → Bytes
file_of [] = []
file_of (c ∷ []) = component_text c
file_of (c ∷ d ∷ cs) = file_of (d ∷ cs)

-- A patch is the text that it leaves.
abbrev env : Env Bytes
env = record {
  parse = λ diff.
      some (record { operation = modify (codes "a") (codes "a"); patch = text (codes "new a") })
      ∷ some (record { operation = create (codes "b"); patch = text (codes "new b") })
      ∷ [];
  strip_prefix = λ n op. op;
  apply = λ p t. some p;
  components = λ p. normal p ∷ [];
  file = file_of;
  node = λ cs. present;
  hard_links = λ p. false;
  access = λ p. readable;
  exists = λ p. true;
}

abbrev disk : Disk
disk p = if bytes_eq p (codes "a") then some (codes "old a") else none

abbrev changes : List Change
changes =
    record {
      path = normal (codes "a") ∷ [];
      file = codes "a";
      original = some (codes "old a");
      contents = some (codes "new a");
    }
    ∷ record {
      path = normal (codes "b") ∷ [];
      file = codes "b";
      original = none;
      contents = some (codes "new b");
    }
    ∷ []

abbrev world : World
world = record { disk = disk; hidden = λ p. none; fates = succeeds ∷ cut 3 ∷ [] }

planned : plan env disk (codes "diff") 0 ≡ some changes
unfolding plan bytes_eq
planned = refl

rolled_back : (apply_patch env (codes "diff") 0 world).0 ≡ rejected
unfolding plan bytes_eq commit
rolled_back = refl

git_directory_refused : is_dot_git (codes ".GIT. ::$DATA") ≡ true
unfolding is_dot_git
git_directory_refused = refl

gitignore_accepted : is_dot_git (codes ".gitignore") ≡ false
unfolding is_dot_git
gitignore_accepted = refl

plan-Inside_example : Inside (normal (codes "b"))
unfolding plan bytes_eq
plan-Inside_example =
    plan-Inside env disk (codes "diff") 0
      (record {
        path = normal (codes "a") ∷ [];
        file = codes "a";
        original = some (codes "old a");
        contents = some (codes "new a");
      }
        ∷ [])
      []
      (record {
        path = normal (codes "b") ∷ [];
        file = codes "b";
        original = none;
        contents = some (codes "new b");
      })
      [] [] (normal (codes "b")) refl refl

apply_patch-Transaction_example :
    Transaction env
      (codes "diff")
      0
      world
      (apply_patch env (codes "diff") 0 world).0
      (apply_patch env (codes "diff") 0 world).1
    × CopiesAfter disk
        (apply_patch env (codes "diff") 0 world).0
        (apply_patch env (codes "diff") 0 world).1
unfolding plan bytes_eq names_each_file_one_way
apply_patch-Transaction_example = apply_patch-Transaction env (codes "diff") 0 world refl λ q. refl

-- One file by two paths, `./a` and `a`: two edits, each of which puts its text before what is there.
abbrev components_of : Bytes → List Component
components_of p =
    if starts_with p (codes "./") then cur_dir ∷ normal (codes "a") ∷ [] else normal p ∷ []

abbrev two_ways : Env Bytes
two_ways = record env {
  parse = λ diff.
      some (record { operation = modify (codes "./a") (codes "./a"); patch = text (codes "one ") })
      ∷ some (record { operation = modify (codes "a") (codes "a"); patch = text (codes "two ") })
      ∷ [];
  apply = λ p t. some (p ++ t);
  components = components_of;
}

abbrev calm : World
calm = record { disk = disk; hidden = λ p. none; fates = [] }

first_edit_lost :
    ((apply_patch two_ways (codes "diff") 0 calm).0 ≡ applied 2)
    × ((apply_patch two_ways (codes "diff") 0 calm).1.disk (codes "a") ≡ some (codes "two old a"))
unfolding plan bytes_eq commit
first_edit_lost = (refl, refl)

-- A deleted file whose copy cannot be removed leaves it.
abbrev deletes : Env Bytes
deletes = record env {
  parse = λ diff. some (record { operation = delete (codes "a"); patch = text [] }) ∷ [];
}

copy_left :
    (apply_patch deletes (codes "diff") 0 (record calm { fates = succeeds ∷ fails ∷ [] })).1.hidden
      (codes "a")
    ≡ some (codes "old a")
unfolding plan bytes_eq commit
copy_left = refl
