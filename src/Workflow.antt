-- ===== src/Workflow.antt =====
-- `CheckWorkflow` of src/api_manager/check_workflow.{h,cc}: handlers that are run one behind the other,
-- each of which is given what to do with its status.
pub mod Control
pub mod Order
pub mod Admission
pub mod Examples
use esp.Base.{Bool, true, false, List, [], ◌∷◌, if◌then◌else◌}
use esp.StatusCode.Names.{Status, is_ok, ok_status}

-- A handler of a context: its continuation takes the status, with what has become of the context.
abbrev pub Handler : Type 0 → Type 0 → Type 0
Handler S R = S → (Status → S → R) → R

module _ {S R : Type 0} where
  -- `RunOneHandler` of the first of the handlers from an index on; `complete` is `CompleteCheck`.
  unfoldable pub run_one_handler : (Status → S → R) → Handler S R → List (Handler S R) → S → R
  run_one_handler complete handler [] s = handler s complete
  run_one_handler complete handler (next ∷ handlers) s = handler s (λ status t.
      if is_ok status then run_one_handler complete next handlers t else complete status t)

  -- `Run`.
  unfoldable pub run : (Status → S → R) → List (Handler S R) → S → R
  run complete [] s = complete ok_status s
  run complete (handler ∷ handlers) s = run_one_handler complete handler handlers s
