-- ===== src/StepGroup.antt =====
-- src/step_group.rs: why a run was cancelled, and what becomes of the result of its joined jobs.
mod Causes
mod Grouping
mod Selection
mod Tests
use hk.Prelude.{Bool, true, false, ◌&&◌, not, Option, none, some, List, [], ◌∷◌, if◌then◌else◌}

-- The token that cancels a run, and whether a step's failure was the first to cancel it.
pub record Flags : Type 0 where
  pub failed : Bool
  pub aborted : Bool

abbrev pub fresh : Flags
fresh = record { failed = false; aborted = false }

unfoldable pub user_cancelled : Flags → Bool
user_cancelled f = f.failed && not f.aborted

unfoldable pub mark_failure_abort : Flags → Flags
mark_failure_abort f = if f.failed then f else record f { aborted = true }

-- The flags after `abort_running_steps`, which marks the abort and then cancels.
unfoldable pub abort_running_steps : Flags → Flags
unfolding mark_failure_abort
abort_running_steps f = record (mark_failure_abort f) { failed = true }

-- The flags after Ctrl-C.
abbrev pub interrupt : Flags → Flags
interrupt f = record f { failed = true }

-- The result of the joined jobs: a value, or an error of which `is_allowed` says whether it is a failure
-- that the step allows.
pub data Joined {ℓ} (T : Type ℓ) : Type ℓ where
  value : T → Joined T
  error : (is_allowed : Bool) → Joined T

-- What `settle` returns: `Ok(Some(..))`, `Ok(None)`, the jobs' own error, or the cancellation.
pub data Settled {ℓ} (T : Type ℓ) : Type ℓ where
  done : T → Settled T
  stopped : Settled T
  own_error : Settled T
  cancelled : Settled T

unfoldable pub settle {ℓ} : {T : Type ℓ} → Flags → Joined T → Settled T
unfolding user_cancelled
settle f (value v) =
    if user_cancelled f then cancelled else if not f.failed then done v else stopped
settle f (error is_allowed) =
    if not (user_cancelled f && is_allowed)
    then own_error
    else if user_cancelled f
    then cancelled
    else own_error
