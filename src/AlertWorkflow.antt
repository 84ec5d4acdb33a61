-- ===== src/AlertWorkflow.antt =====
-- alert_workflow.py: the triage states of an alert and the check of a requested change.
pub mod Paths
pub mod Updates
pub mod Trail
mod Tests
use mini_siem.Base.{
  ℕ, Bool, not, ◌&&◌, Option, none, some, List, [], ◌∷◌, if◌then◌else◌, ◌==◌, any_of, Text, codes,
  fold_text, Dict, lookup, nat_eq, string_eq, text_eq,
}

-- STATES
pub data State : Type 0 where
  new acknowledged investigating resolved closed : State

unfoldable pub states : Dict Text State
states =
    (codes "new", new)
    ∷ (codes "acknowledged", acknowledged)
    ∷ (codes "investigating", investigating)
    ∷ (codes "resolved", resolved)
    ∷ (codes "closed", closed)
    ∷ []

-- the position in STATES, by which two states are told apart
abbrev pub position : State → ℕ
position new = 0
position acknowledged = 1
position investigating = 2
position resolved = 3
position closed = 4

-- the spelling of a state
abbrev pub spelling : State → Text
spelling new = codes "new"
spelling acknowledged = codes "acknowledged"
spelling investigating = codes "investigating"
spelling resolved = codes "resolved"
spelling closed = codes "closed"

abbrev pub same : State → State → Bool
same s t = position s == position t

-- TRANSITIONS
abbrev pub transitions : State → List State
transitions new = acknowledged ∷ investigating ∷ resolved ∷ []
transitions acknowledged = investigating ∷ resolved ∷ []
transitions investigating = resolved ∷ []
transitions resolved = closed ∷ investigating ∷ []
transitions closed = investigating ∷ []

-- `str(value or "new").strip().lower()`: `None` and the empty text are falsy
abbrev pub or_new : Option Text → Text
or_new none = codes "new"
or_new (some []) = codes "new"
or_new (some (c ∷ s)) = c ∷ s

unfoldable pub normalize : Option Text → Text
normalize value = fold_text (or_new value)

pub data Verdict : Type 0 where
  accepted : State → State → Verdict
  -- "invalid alert workflow status"
  bad_status : Text → Verdict
  -- "invalid alert workflow transition"
  bad_transition : State → State → Verdict

-- `if current not in STATES: current = "new"`
abbrev pub or_start : Option State → State
or_start none = new
or_start (some s) = s

unfoldable pub check_step : State → State → Verdict
check_step current target =
    if not (same target current) && not (any_of (same target) (transitions current))
    then bad_transition current target
    else accepted current target

-- The tests of `validate_transition` on the two states as looked up, `text` the folded target.
unfoldable pub judge : Option State → Option State → Text → Verdict
unfolding check_step
judge current none text = bad_status text
judge current (some target) text = check_step (or_start current) target

unfoldable pub validate_transition : Option Text → Option Text → Verdict
unfolding normalize judge states
validate_transition current target =
    judge (lookup (normalize current) states) (lookup (normalize target) states) (normalize target)
