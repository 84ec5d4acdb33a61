-- ===== src/AlertWorkflow/Tests.antt =====
-- alert_workflow.py at concrete requests.
use mini_siem.Base.{
  ◌≡◌, refl, true, Option, none, some, List, [], ◌∷◌, nat_eq, string_eq, any_of, Text, codes,
  text_eq, fold_text, ◌↔◌, lookup,
}
use mini_siem.AlertWorkflow.{
  new, same, validate_transition, investigating, resolved, closed, accepted, bad_transition, states,
  normalize, or_start,
}
use mini_siem.AlertWorkflow.Updates.{
  Alert, alert_workflow_update, alert_workflow_bulk, Store, Body, conflict, updated, skipped,
}
use mini_siem.AlertWorkflow.Trail.{Explained, last_to, update-Explained, bulk-Explained}
use mini_siem.AlertWorkflow.Paths.{
  visited, closed_needs_resolved, validate_transition_iff_Step, Step,
}

close_new : validate_transition none (some (codes "Closed ")) ≡ bad_transition new closed
unfolding validate_transition fold_text
close_new = refl

reopen :
    validate_transition (some (codes "closed")) (some (codes "investigating"))
    ≡ accepted closed investigating
unfolding validate_transition fold_text
reopen = refl

abbrev requests : List (Option Text)
requests =
    some (codes "investigating")
    ∷ some (codes "bogus")
    ∷ some (codes "resolved")
    ∷ some (codes "closed")
    ∷ []

closed_needs_resolved_example : any_of (λ t. same t resolved) (visited new requests) ≡ true
unfolding visited validate_transition fold_text
closed_needs_resolved_example = closed_needs_resolved new requests refl refl

abbrev alert_row : Alert
alert_row = record {
  status = codes "new";
  assignee = [];
  updated_at = 0;
  updated_by = [];
  resolution_note = [];
}

abbrev store : Store
store = record { alerts = (7, alert_row) ∷ (8, alert_row) ∷ []; events = [] }

store-Explained : Explained store
unfolding last_to
store-Explained id row s h l = cc

abbrev to_resolved : Body
to_resolved = record { status = some (codes "Resolved"); assignee = none; note = none }

abbrev to_closed : Body
to_closed = record { status = some (codes "closed"); assignee = none; note = none }

update_conflict : (alert_workflow_update 7 to_closed (codes "ann") 5 store).1 ≡ conflict
unfolding alert_workflow_update fold_text
update_conflict = refl

bulk_fates :
    (alert_workflow_bulk (7 ∷ 9 ∷ 7 ∷ []) to_resolved (codes "ann") 5 store).1
    ≡ some ((7, updated) ∷ (9, skipped) ∷ [])
unfolding alert_workflow_bulk fold_text
bulk_fates = refl

update-Explained_example : Explained (alert_workflow_update 7 to_resolved (codes "ann") 5 store).0
update-Explained_example = update-Explained 7 to_resolved (codes "ann") 5 store store-Explained

bulk-Explained_example :
    Explained (alert_workflow_bulk (7 ∷ 8 ∷ []) to_resolved (codes "ann") 5 store).0
bulk-Explained_example =
    bulk-Explained (7 ∷ 8 ∷ []) to_resolved (codes "ann") 5 store store-Explained

validate_transition_iff_Step_example :
    (validate_transition none (some (codes "resolved")) ≡ accepted new resolved) ↔ (
      (or_start (lookup (normalize none) states) ≡ new)
      × (lookup (normalize (some (codes "resolved"))) states ≡ some resolved)
      × Step new resolved)
validate_transition_iff_Step_example =
    validate_transition_iff_Step none (some (codes "resolved")) new resolved
