-- ===== src/RestorePlan/Tests.antt =====
-- src/git.rs: the plan of a restore at a concrete worktree.
use hk.Prelude.{◌≡◌, refl, true, false, some, [], ◌∷◌, codes, bytes_eq, if◌then◌else◌}
use hk.RestorePlan.{
  file, Worktree, StashedChanges, to_restore, path_changed, restore_plan, plan_paths,
}
use hk.RestorePlan.Safe.{AllRestorable, restore_plan-AllRestorable}

-- A step changed `a` and `b`; `c` is as it was.
abbrev worktree : Worktree
worktree = record {
  metadata = λ p. some (file false);
  link_has = λ p o. false;
  hash = λ p. if bytes_eq p (codes "c") then codes "index" else codes "step";
  parents = λ p. [];
  index = λ p. some (33188, codes "index");
  stashed = λ p. some (33188, codes "stash");
  file_mode = true;
}

abbrev stash : StashedChanges
stash = record {
  modes = (codes "a", (33188, 33188)) ∷ (codes "c", (33188, 33188)) ∷ [];
  untracked = codes "b" ∷ [];
  unnamed_untracked = [];
  unnamed_modes = [];
}

planned :
    restore_plan worktree stash []
    ≡ record { unchanged = []; conflicts = (codes "b", path_changed) ∷ []; merged = codes "a" ∷ [] }
unfolding plan_paths to_restore bytes_eq
planned = refl

restore_plan-AllRestorable_example :
    AllRestorable worktree (restore_plan worktree stash []) (to_restore stash [])
restore_plan-AllRestorable_example = restore_plan-AllRestorable worktree stash []
