-- ===== src/AlertWorkflow/Updates.antt =====
-- dashboard.py, `_workflow_request`, `_apply_alert_workflow`, `api_alert_workflow_update` and
-- `api_alert_workflow_bulk`: the columns of an alert that a triage request changes, and the log of
-- its changes. NULL in a text column reads as the empty text, as `or ""` does.
use mini_siem.Base.{
  ℕ, Bool, true, false, not, ◌&&◌, ◌||◌, Option, none, some, List, [], ◌∷◌, ◌++◌, ltb,
  if◌then◌else◌, ◌==◌, nat_eq, string_eq, is_some, or_else, length, take, Text, text_eq, lstrip,
  rstrip, fold_text, Dict, lookup, insert, contains, elem,
}
use mini_siem.AlertWorkflow.{
  State, states, spelling, same, normalize, validate_transition, Verdict, accepted, bad_status,
  bad_transition,
}

pub record Alert : Type 0 where
  pub status : Text
  pub assignee : Text
  pub updated_at : ℕ
  pub updated_by : Text
  pub resolution_note : Text

-- a row of `alert_workflow_events`
pub record Event : Type 0 where
  pub alert_id : ℕ
  pub at : ℕ
  pub actor : Text
  pub from_status : State
  pub to_status : State
  pub assignee : Text
  pub note : Text

pub record Store : Type 0 where
  pub alerts : Dict ℕ Alert
  pub events : List Event

-- the fields of a request's body: each may be absent
pub record Body : Type 0 where
  pub status : Option Text
  pub assignee : Option Text
  pub note : Option Text

pub record Request : Type 0 where
  pub requested : Text
  pub assignee_supplied : Bool
  pub assignee : Text
  pub note : Text

abbrev pub is_empty : Text → Bool
is_empty [] = true
is_empty (c ∷ s) = false

-- `x or y` on texts
abbrev pub text_or : Text → Text → Text
text_or [] y = y
text_or (c ∷ s) y = c ∷ s

-- `none` is the answer 400
unfoldable pub workflow_request : Body → Option Request
unfolding states
workflow_request body =
    let requested = fold_text (or_else body.status []) in
    if not (is_empty requested) && not (contains requested states)
    then none
    else some (record {
      requested = requested;
      assignee_supplied = is_some body.assignee;
      assignee = take 120 (rstrip (lstrip (or_else body.assignee [])));
      note = take 2000 (rstrip (lstrip (or_else body.note [])));
    })

-- whether a row goes to `alert_workflow_events`
abbrev pub is_logged : State → State → Request → Bool
is_logged current target req =
    not (same target current) || req.assignee_supplied || not (is_empty req.note)

pub data Applied : Type 0 where
  applied : State → State → Alert → List Event → Applied
  refused : Applied

abbrev pub write_alert : ℕ → Alert → Request → Text → ℕ → Verdict → Applied
write_alert id row req actor now (accepted current target) =
    let assignee = if req.assignee_supplied then req.assignee else row.assignee in
    applied current target
      (record {
        status = spelling target;
        assignee = assignee;
        updated_at = now;
        updated_by = actor;
        resolution_note = text_or req.note row.resolution_note;
      })
      (if is_logged current target req
        then record {
          alert_id = id;
          at = now;
          actor = actor;
          from_status = current;
          to_status = target;
          assignee = assignee;
          note = req.note;
        }
          ∷ []
        else [])
write_alert id row req actor now (bad_status t) = refused
write_alert id row req actor now (bad_transition s t) = refused

-- `_apply_alert_workflow`; the events are those that it adds
unfoldable pub apply_workflow : ℕ → Alert → Request → Text → ℕ → Applied
unfolding validate_transition
apply_workflow id row req actor now =
    let current = normalize (some row.status) in
    write_alert id row req actor now
      (validate_transition (some current) (some (text_or req.requested current)))

-- the UPDATE and the INSERT on the store
abbrev pub commit_applied : ℕ → Applied → Store → Store
commit_applied id (applied current target row evs) db = record {
  alerts = insert id row db.alerts;
  events = db.events ++ evs;
}
commit_applied id refused db = db

pub data Response : Type 0 where
  success bad_request not_found conflict : Response

abbrev pub response : Applied → Response
response (applied _ _ _ _) = success
response refused = conflict

abbrev pub update_row : ℕ → Request → Text → ℕ → Store → Option Alert → Store × Response
update_row id req actor now db none = (db, not_found)
update_row id req actor now db (some row) =
    let a = apply_workflow id row req actor now in (commit_applied id a db, response a)

abbrev pub update_parsed : ℕ → Option Request → Text → ℕ → Store → Store × Response
update_parsed id none actor now db = (db, bad_request)
update_parsed id (some req) actor now db = update_row id req actor now db (lookup id db.alerts)

-- `api_alert_workflow_update`
unfoldable pub alert_workflow_update : ℕ → Body → Text → ℕ → Store → Store × Response
unfolding workflow_request apply_workflow
alert_workflow_update id body actor now db = update_parsed id (workflow_request body) actor now db

-- What became of each alert of a bulk request.
pub data Fate : Type 0 where
  updated unchanged skipped : Fate

abbrev pub fate : Request → Applied → Fate
fate req (applied current target _ _) = if is_logged current target req then updated else unchanged
fate req refused = skipped

abbrev pub bulk_row : ℕ → Request → Text → ℕ → Store → Option Alert → Store × Fate
bulk_row id req actor now db none = (db, skipped)
bulk_row id req actor now db (some row) =
    let a = apply_workflow id row req actor now in (commit_applied id a db, fate req a)

-- The loop of `api_alert_workflow_bulk` over ids without repetition, so that a row that was read
-- before the loop is the row that the loop changes.
unfoldable pub bulk_loop : List ℕ → Request → Text → ℕ → Store → Store × List (ℕ × Fate)
unfolding apply_workflow
bulk_loop [] req actor now db = (db, [])
bulk_loop (id ∷ ids) req actor now db =
    let (db', f) = bulk_row id req actor now db (lookup id db.alerts) in
    let (db'', fates) = bulk_loop ids req actor now db' in (db'', (id, f) ∷ fates)

-- `list(dict.fromkeys(ids))`
unfoldable pub dedup : List ℕ → List ℕ → List ℕ
dedup seen [] = []
dedup seen (x ∷ xs) =
    let skip = dedup seen xs in
    let add = x ∷ dedup (x ∷ seen) xs in if elem x seen then skip else add

abbrev pub bulk_max : ℕ
bulk_max = 500

abbrev pub bulk_answer : Bool → Store → Store × List (ℕ × Fate) → Store × Option (List (ℕ × Fate))
bulk_answer true db (db', fates) = (db, none)
bulk_answer false db (db', fates) = (db', some fates)

abbrev pub bulk_parsed :
    List ℕ → Option Request → Text → ℕ → Store → Store × Option (List (ℕ × Fate))
bulk_parsed ids none actor now db = (db, none)
bulk_parsed ids (some req) actor now db =
    bulk_answer
      ((length ids == 0 || ltb bulk_max (length ids))
        || (is_empty req.requested && not req.assignee_supplied && is_empty req.note))
      db (bulk_loop (dedup [] ids) req actor now db)

-- `api_alert_workflow_bulk`; `none` is the answer 400
unfoldable pub alert_workflow_bulk :
    List ℕ → Body → Text → ℕ → Store → Store × Option (List (ℕ × Fate))
unfolding workflow_request bulk_loop dedup
alert_workflow_bulk ids body actor now db = bulk_parsed ids (workflow_request body) actor now db
