-- ===== src/StepGroup/Tests.antt =====
-- Inputs for the settling of a cancelled run.
use hk.Prelude.{◌≡◌, refl, List, [], ◌∷◌, ◌++◌, true, false, codes}
use hk.StepGroup.Grouping.{
  Step, step, group, insert_step, build_all, build_all-exclusive, build_all-joins_group,
}
use hk.StepGroup.{fresh, Joined, error, settle}
use hk.StepGroup.Causes.{Cause, ctrl_c, failure, after, settled_by, settle-after}

abbrev late_interrupt : List Cause
late_interrupt = failure ∷ ctrl_c ∷ []

abbrev explained : Joined Cause
explained = error true

settle-after_example :
    settle (after fresh late_interrupt) explained ≡ settled_by late_interrupt explained
settle-after_example = settle-after late_interrupt explained

abbrev lint : Step
lint = record { name = codes "lint"; exclusive = false }

abbrev format : Step
format = record { name = codes "format"; exclusive = true }

abbrev test : Step
test = record { name = codes "test"; exclusive = false }

joined : build_all (group (lint ∷ []) ∷ step test ∷ []) ≡ (lint ∷ test ∷ []) ∷ []
unfolding build_all
joined = refl

build_all-exclusive_example :
    build_all ((step lint ∷ []) ++ step format ∷ step test ∷ [])
    ≡ build_all (step lint ∷ []) ++ (format ∷ []) ∷ build_all (step test ∷ [])
build_all-exclusive_example = build_all-exclusive (step lint ∷ []) (step test ∷ []) format refl

build_all-joins_group_example :
    build_all ((step lint ∷ []) ++ group (lint ∷ []) ∷ step test ∷ [])
    ≡ build_all (step lint ∷ []) ++ insert_step test (lint ∷ []) ∷ []
build_all-joins_group_example = build_all-joins_group (step lint ∷ []) (lint ∷ []) test refl
