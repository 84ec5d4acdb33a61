-- ===== src/AlertWorkflow/Trail.antt =====
-- dashboard.py: the log of triage changes explains the status of every alert.
use mathlib.Core.Path.{subst}
use mini_siem.Base.{
  ℕ, ◌≡◌, refl, Option, none, some, List, [], ◌∷◌, ◌++◌, if◌then◌else◌, ◌==◌, nat_eq, string_eq,
  text_eq, lookup, sym, ◌∙◌, inl, inr, Bool, true, not, arith, Bool-cases, Text, text_beq_iff,
  false, All, Dict, insert, lookup-insert, ◌&&◌, nat_beq_iff, ◌||◌, ltb, length, beq_refl,
}
use mini_siem.AlertWorkflow.{
  State, states, normalize, spelling, same, validate_transition, accepted, Verdict, bad_status,
  bad_transition,
}
use mini_siem.AlertWorkflow.Paths.{lookup-spelling, validate_transition_iff_Step}
use mini_siem.AlertWorkflow.Updates.{
  Store, Alert, Event, text_or, is_logged, write_alert, commit_applied, Request, is_empty,
  workflow_request, apply_workflow, update_row, update_parsed, alert_workflow_update, bulk_row,
  bulk_loop, dedup, bulk_max, bulk_parsed, alert_workflow_bulk, Body, bulk_answer,
}

-- the status that the last logged change of an alert left it in
unfoldable pub last_to : ℕ → Option State → List Event → Option State
last_to id s [] = s
last_to id s (e ∷ es) = last_to id (if e.alert_id == id then some e.to_status else s) es

last_to-append :
    (id : ℕ) (s : Option State) (es fs : List Event)
    → last_to id s (es ++ fs) ≡ last_to id (last_to id s es) fs
unfolding last_to
last_to-append id s [] fs = refl
last_to-append id s (e ∷ es) fs =
    last_to-append id (if e.alert_id == id then some e.to_status else s) es fs

last_to-extend :
    (b : Bool) (e : Event) (j : ℕ) (es : List Event)
    → last_to j none (es ++ (if b then e ∷ [] else []))
      ≡ (if b && e.alert_id == j then some e.to_status else last_to j none es)
unfolding last_to
last_to-extend true e j es = last_to-append j none es (e ∷ [])
last_to-extend false e j es = last_to-append j none es []

-- An alert with a logged change has the status that the last one gave it.
abbrev pub Explained : Store → Type 0
Explained db =
    (id : ℕ) (row : Alert) (s : State)
    → lookup id db.alerts ≡ some row
    → last_to id none db.events ≡ some s
    → lookup (normalize (some row.status)) states ≡ some s

abbrev Spells : Dict Text State → Type 0
Spells = All (λ entry. entry.0 ≡ spelling entry.1)

spelling-of-table :
    (t : Text) (s : State) (d : Dict Text State) → Spells d → lookup t d ≡ some s → t ≡ spelling s
spelling-of-table t s [] all h = cc
spelling-of-table t s ((k, v) ∷ d) all h =
    ground (arith, text_beq_iff k t, spelling-of-table t s d all.1)

spelling-of-lookup : (t : Text) (s : State) → lookup t states ≡ some s → t ≡ spelling s
unfolding states
spelling-of-lookup t s = spelling-of-table t s states (refl, (refl, (refl, (refl, (refl, tt)))))

same-eq : (s t : State) → same s t ≡ true → s ≡ t
same-eq s t h = ground arith

-- What the check calls the current state is the state that the column spells, if it spells one.
current-of-status :
    (status : Text) (x : Option Text) (c t s : State)
    → validate_transition (some (normalize (some status))) x ≡ accepted c t
    → lookup (normalize (some status)) states ≡ some s
    → c ≡ s
current-of-status status x c t s h there =
    let e = spelling-of-lookup (normalize (some status)) s there in
    let from = ((validate_transition_iff_Step (some (normalize (some status))) x c t).0 h).0 in
    sym from ∙ rw (e, lookup-spelling s) refl

same_row : {o : Option Alert} {r r' : Alert} → o ≡ some r → o ≡ some r' → r ≡ r'
same_row p q = cc

and_false : (b : Bool) → (b && false) ≡ false
and_false b = ground arith

module _ (id : ℕ) (row : Alert) (req : Request) (actor : Text) (now : ℕ) (c t : State)
    (db : Store) where
  abbrev written : Alert
  written = record {
    status = spelling t;
    assignee = if req.assignee_supplied then req.assignee else row.assignee;
    updated_at = now;
    updated_by = actor;
    resolution_note = text_or req.note row.resolution_note;
  }

  abbrev logged : Event
  logged = record {
    alert_id = id;
    at = now;
    actor = actor;
    from_status = c;
    to_status = t;
    assignee = if req.assignee_supplied then req.assignee else row.assignee;
    note = req.note;
  }

  own_status :
      (j : ℕ) (b : Bool) (s : State)
      → is_logged c t req ≡ b
      → lookup j db.alerts ≡ some row
      → ((s' : State) → lookup (normalize (some row.status)) states ≡ some s' → c ≡ s')
      → Explained db
      → (if b && true then some t else last_to j none db.events) ≡ some s
      → t ≡ s
  own_status j true s q found from ex l = cc
  own_status j false s q found from ex l =
      let cs : c ≡ s = from s (ex j row s found l) in same-eq t c (ground arith) ∙ cs

  accepted-Explained :
      lookup id db.alerts ≡ some row
      → ((s : State) → lookup (normalize (some row.status)) states ≡ some s → c ≡ s)
      → Explained db
      → Explained (commit_applied id (write_alert id row req actor now (accepted c t)) db)
  accepted-Explained found from ex j row' s h l = elim (Bool-cases (id == j)) [
    | inl here ↦
        let e : id ≡ j = (nat_beq_iff id j).0 here in
        let stored : lookup j (insert id written db.alerts) ≡ some written =
          rw (← e) (lookup-insert id id written db.alerts ∙ rw (beq_refl id) refl) in
        let q : written ≡ row' = same_row stored h in
        let ts : t ≡ s =
          own_status j (is_logged c t req) s refl (rw (← e) found) from ex
            (rw here at (sym (last_to-extend (is_logged c t req) logged j db.events) ∙ l)) in
        subst (λ (x : Alert). lookup (normalize (some x.status)) states ≡ some s) q
          (rw (← ts) (lookup-spelling t))
    | inr there ↦ ex j row' s (sym (lookup-insert id j written db.alerts ∙ rw there refl) ∙ h) (
        sym (
          last_to-extend (is_logged c t req) logged j db.events
          ∙ rw (there, and_false (is_logged c t req)) refl)
        ∙ l)
  ]

applied-Explained :
    (id : ℕ) (row : Alert) (req : Request) (actor : Text) (now : ℕ) (db : Store) (x : Option Text)
    → lookup id db.alerts ≡ some row
    → (v : Verdict) → validate_transition (some (normalize (some row.status))) x ≡ v
    → Explained db
    → Explained (commit_applied id (write_alert id row req actor now v) db)
applied-Explained id row req actor now db x found (accepted c t) e ex =
    accepted-Explained id row req actor now c t db found
      (λ s. current-of-status row.status x c t s e) ex
applied-Explained id row req actor now db x found (bad_status t) e ex = ex
applied-Explained id row req actor now db x found (bad_transition s t) e ex = ex

apply_workflow-Explained :
    (id : ℕ) (row : Alert) (req : Request) (actor : Text) (now : ℕ) (db : Store)
    → lookup id db.alerts ≡ some row
    → Explained db
    → Explained (commit_applied id (apply_workflow id row req actor now) db)
unfolding apply_workflow
apply_workflow-Explained id row req actor now db found ex =
    let current = normalize (some row.status) in
    applied-Explained id row req actor now db (some (text_or req.requested current)) found
      (validate_transition (some current) (some (text_or req.requested current))) refl ex

-- Every single update keeps the log and the statuses in step, whatever the request.
pub update-Explained :
    (id : ℕ) (body : Body) (actor : Text) (now : ℕ) (db : Store)
    → Explained db
    → Explained (alert_workflow_update id body actor now db).0
unfolding alert_workflow_update
update-Explained id body actor now db ex = parsed (workflow_request body)
  where
    on_row :
        (req : Request) (o : Option Alert)
        → lookup id db.alerts ≡ o
        → Explained (update_row id req actor now db o).0
    on_row req none e = ex
    on_row req (some row) e = apply_workflow-Explained id row req actor now db e ex

    parsed : (r : Option Request) → Explained (update_parsed id r actor now db).0
    parsed none = ex
    parsed (some req) = on_row req (lookup id db.alerts) refl

bulk_row-Explained :
    (id : ℕ) (req : Request) (actor : Text) (now : ℕ) (db : Store) (o : Option Alert)
    → lookup id db.alerts ≡ o
    → Explained db
    → Explained (bulk_row id req actor now db o).0
bulk_row-Explained id req actor now db none e ex = ex
bulk_row-Explained id req actor now db (some row) e ex =
    apply_workflow-Explained id row req actor now db e ex

bulk_loop-Explained :
    (ids : List ℕ) (req : Request) (actor : Text) (now : ℕ) (db : Store)
    → Explained db
    → Explained (bulk_loop ids req actor now db).0
unfolding bulk_loop
bulk_loop-Explained [] req actor now db ex = ex
bulk_loop-Explained (id ∷ ids) req actor now db ex =
    bulk_loop-Explained ids req actor now (bulk_row id req actor now db (lookup id db.alerts)).0
      (bulk_row-Explained id req actor now db (lookup id db.alerts) refl ex)

-- Every bulk request keeps the log and the statuses in step, over any list of ids.
pub bulk-Explained :
    (ids : List ℕ) (body : Body) (actor : Text) (now : ℕ) (db : Store)
    → Explained db
    → Explained (alert_workflow_bulk ids body actor now db).0
unfolding alert_workflow_bulk
bulk-Explained ids body actor now db ex = parsed (workflow_request body)
  where
    guarded :
        (req : Request) (b : Bool)
        → Explained (bulk_answer b db (bulk_loop (dedup [] ids) req actor now db)).0
    guarded req true = ex
    guarded req false = bulk_loop-Explained (dedup [] ids) req actor now db ex

    parsed : (r : Option Request) → Explained (bulk_parsed ids r actor now db).0
    parsed none = ex
    parsed (some req) = guarded req (
        (length ids == 0 || ltb bulk_max (length ids))
        || (is_empty req.requested && not req.assignee_supplied && is_empty req.note))
