-- ===== src/StepGroup/Causes.antt =====
-- src/step_group.rs: the first cause of a cancellation decides how its run is settled.
use hk.Prelude.{◌≡◌, refl, ap, Bool, true, false, List, [], ◌∷◌}
use hk.StepGroup.{
  Flags, fresh, user_cancelled, mark_failure_abort, abort_running_steps, interrupt, Joined, value,
  error, Settled, done, stopped, own_error, cancelled, settle,
}

-- What may cancel a run.
pub data Cause : Type 0 where
  ctrl_c : Cause
  failure : Cause

abbrev pub after : Flags → List Cause → Flags
after f [] = f
after f (ctrl_c ∷ causes) = after (interrupt f) causes
after f (failure ∷ causes) = after (abort_running_steps f) causes

-- A run that was cancelled stays so, with its cause.
after_cancelled :
    (causes : List Cause) (aborted : Bool)
    → after (record { failed = true; aborted = aborted }) causes
      ≡ record { failed = true; aborted = aborted }
unfolding abort_running_steps mark_failure_abort
after_cancelled [] aborted = refl
after_cancelled (ctrl_c ∷ causes) aborted = after_cancelled causes aborted
after_cancelled (failure ∷ causes) aborted = after_cancelled causes aborted

-- How a joined result is settled by the first cause alone, if there is one.
abbrev pub settled_by {ℓ} : {T : Type ℓ} → List Cause → Joined T → Settled T
settled_by [] (value v) = done v
settled_by [] (error is_allowed) = own_error
settled_by (ctrl_c ∷ causes) (value v) = cancelled
settled_by (ctrl_c ∷ causes) (error true) = cancelled
settled_by (ctrl_c ∷ causes) (error false) = own_error
settled_by (failure ∷ causes) (value v) = stopped
settled_by (failure ∷ causes) (error is_allowed) = own_error

-- Whatever happens in a run after its first cancellation, `settle` goes by that one. With no
-- cancellation the result is returned as it is; an error that is no allowed failure is returned in any
-- case; a value, or an allowed failure, becomes the cancellation where Ctrl-C came first; where a step's
-- failure came first a value becomes nothing and every error is returned.
pub settle-after {ℓ} :
    {T : Type ℓ} (causes : List Cause) (joined : Joined T)
    → settle (after fresh causes) joined ≡ settled_by causes joined
unfolding settle abort_running_steps mark_failure_abort user_cancelled
settle-after [] (value v) = refl
settle-after [] (error is_allowed) = refl
settle-after (ctrl_c ∷ causes) (value v) =
    ap (λ f. settle f (value v)) (after_cancelled causes false)
settle-after (ctrl_c ∷ causes) (error true) =
    ap (λ f. settle f (error true)) (after_cancelled causes false)
settle-after (ctrl_c ∷ causes) (error false) =
    ap (λ f. settle f (error false)) (after_cancelled causes false)
settle-after (failure ∷ causes) (value v) =
    ap (λ f. settle f (value v)) (after_cancelled causes true)
settle-after (failure ∷ causes) (error is_allowed) =
    ap (λ f. settle f (error is_allowed)) (after_cancelled causes true)
