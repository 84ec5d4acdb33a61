-- ===== src/Detection.antt =====
-- detection.py: the approved windows of a schedule, saving the configuration, and the linking of
-- findings to alerts. Days count from the epoch (day 0 was a Thursday), times are whole seconds; what the
-- time zone makes of a time is an argument, and so is the digest of a finding's identity.
pub mod Schedules
pub mod Findings
mod Tests
use mini_siem.Base.{
  ℕ, ◌+◌, ◌-◌, ◌%◌, min, ap, Bool, true, false, not, ◌&&◌, ◌||◌, Option, none, some, List, [], ◌∷◌,
  ◌++◌, map, ltb, leb, if◌then◌else◌, ◌==◌, nat_eq, string_eq, take, take_last, keep, Text, text_eq,
  Dict, lookup, insert, elem,
}

-- a time in the schedule's zone
pub record Local : Type 0 where
  pub day : ℕ
  -- of the day
  pub minute : ℕ

pub record Schedule : Type 0 where
  pub start : ℕ
  pub end : ℕ
  -- Monday is 0
  pub weekdays : List ℕ
  pub dates : List ℕ
  pub exclude_dates : List ℕ

abbrev pub weekday : ℕ → ℕ
weekday day = (day + 3) % 7

-- the day that the window which the time is in began on
abbrev pub anchor : Schedule → Local → Option ℕ
anchor s t =
    if ltb s.start s.end
    then (if leb s.start t.minute && ltb t.minute s.end then some t.day else none)
    else if leb s.start t.minute
    then some t.day
    else if ltb t.minute s.end
    then some (t.day - 1)
    else none

abbrev pub is_anchored : Schedule → Local → Option ℕ → Bool
is_anchored s t none = false
is_anchored s t (some d) =
    not (elem d s.exclude_dates || elem t.day s.exclude_dates)
    && (elem (weekday d) s.weekdays || elem d s.dates)

-- `in_window`
unfoldable pub in_window : Schedule → Local → Bool
in_window s t = is_anchored s t (anchor s t)

-- the state of an identity that was seen
pub record Seen : Type 0 where
  pub alert_id : ℕ
  pub event_time : Option ℕ
  pub seen_at : ℕ

pub record Alert : Type 0 where
  -- the workflow status is resolved or closed
  pub is_over : Bool
  pub has_evidence : Bool
  pub occurrences : ℕ
  pub log_ids : List ℕ

pub data Mode : Type 0 where
  process stream : Mode

-- `_fingerprint`'s answer and the time of a finding's event
pub record Finding : Type 0 where
  pub identity : Option (Text × Mode)
  pub event_time_utc : Option ℕ

pub record Store : Type 0 where
  pub state : Dict Text Seen
  pub alerts : Dict ℕ Alert
  pub next_id : ℕ

-- `abs((a - b).total_seconds()) <= 2`
abbrev pub close_in_time : Option ℕ → Option ℕ → Bool
close_in_time (some a) (some b) = leb a (b + 2) && leb b (a + 2)
close_in_time _ _ = false

abbrev pub same_identity : Mode → Finding → Seen → Bool
same_identity process f p = close_in_time f.event_time_utc p.event_time
same_identity stream f p = true

abbrev pub open_alert : Option Alert → Option Alert
open_alert none = none
open_alert (some a) = if a.is_over || not a.has_evidence then none else some a

abbrev pub linked_to : Mode → Finding → Option Seen → Dict ℕ Alert → Option (ℕ × Alert)
linked_to mode f none alerts = none
linked_to mode f (some p) alerts =
    if same_identity mode f p
    then elim (open_alert (lookup p.alert_id alerts)) [
      | none ↦ none
      | some a ↦ some (p.alert_id, a)
    ]
    else none

-- the alert that the finding is linked to
abbrev pub find_old :
    Finding → Option (Text × Mode) → Dict Text Seen → Dict ℕ Alert → Option (ℕ × Alert)
find_old f none state alerts = none
find_old f (some (key, mode)) state alerts = linked_to mode f (lookup key state) alerts

-- `list(dict.fromkeys(ids + [log_id]))`
abbrev pub add_id : ℕ → List ℕ → List ℕ
add_id n ns = if elem n ns then ns else ns ++ n ∷ []

abbrev pub link : ℕ → Alert → Alert
link log_id a = record {
  is_over = a.is_over;
  has_evidence = true;
  occurrences = a.occurrences + 1;
  log_ids = take_last 500 (add_id log_id a.log_ids);
}

abbrev pub new_alert : ℕ → Alert
new_alert log_id = record {
  is_over = false;
  has_evidence = true;
  occurrences = 1;
  log_ids = log_id ∷ [];
}

-- `sorted(state.items(), key=lambda kv: kv[1]["seen_at"])`
abbrev pub insert_seen : Text × Seen → Dict Text Seen → Dict Text Seen
insert_seen x [] = x ∷ []
insert_seen x (y ∷ ys) =
    let rest = insert_seen x ys in if leb x.1.seen_at y.1.seen_at then x ∷ y ∷ ys else y ∷ rest

unfoldable pub sort_seen : Dict Text Seen → Dict Text Seen
sort_seen [] = []
sort_seen (x ∷ xs) = insert_seen x (sort_seen xs)

-- identities seen in the last five minutes
abbrev pub recent : ℕ → Dict Text Seen → Dict Text Seen
recent now = keep (λ (e : Text × Seen). ltb now (e.1.seen_at + 300))

abbrev pub note_seen : ℕ → ℕ → Finding → Dict Text Seen → Option (Text × Mode) → Dict Text Seen
note_seen now alert_id f state none = state
note_seen now alert_id f state (some (key, mode)) =
    insert key (record { alert_id = alert_id; event_time = f.event_time_utc; seen_at = now }) state

abbrev pub trimmed : Dict Text Seen → Dict Text Seen
trimmed d = take_last 512 (sort_seen d)

abbrev pub emit_to : ℕ → ℕ → Finding → Store → Dict Text Seen → Option (ℕ × Alert) → Store × ℕ
emit_to now log_id f s state none = (
  record {
    state = trimmed (note_seen now s.next_id f state f.identity);
    alerts = insert s.next_id (new_alert log_id) s.alerts;
    next_id = s.next_id + 1;
  },
  s.next_id,
)
emit_to now log_id f s state (some (k, a)) = (
  record {
    state = trimmed (note_seen now k f state f.identity);
    alerts = insert k (link log_id a) s.alerts;
    next_id = s.next_id;
  },
  k,
)

-- `emit`: the store after it and the alert's id
unfoldable pub emit : ℕ → ℕ → Finding → Store → Store × ℕ
unfolding sort_seen
emit now log_id f s =
    let state = recent now s.state in
    emit_to now log_id f s state (find_old f f.identity state s.alerts)

-- the configuration, as far as saving reads it: `text` stands for an exception without its approver
pub record Exempt : Type 0 where
  pub id : Text
  pub text : Text
  pub approved_by : Text

pub record Config : Type 0 where
  pub revision : ℕ
  pub updated_by : Text
  pub exceptions : List Exempt

pub data Saved : Type 0 where
  saved : Config → Saved
  conflict : Saved

-- the stored exception of an id: the last of them
abbrev pub stored : Text → List Exempt → Option Exempt
stored k [] = none
stored k (e ∷ es) = elim (stored k es) [
  | some x ↦ some x
  | none ↦ if e.id == k then some e else none
]

abbrev pub same_exempt : Exempt → Option Exempt → Bool
same_exempt e none = false
same_exempt e (some x) = e.id == x.id && e.text == x.text && e.approved_by == x.approved_by

abbrev pub approve : Text → Exempt → Exempt
approve actor e = record { id = e.id; text = e.text; approved_by = actor }

abbrev pub approve_changed : Text → List Exempt → List Exempt → List Exempt
approve_changed actor old =
    map (λ (e : Exempt). if same_exempt e (stored e.id old) then e else approve actor e)

-- `save_config` of a valid configuration, against the stored one; a conflict is rolled back
unfoldable pub save_config : Text → Config → Config → Saved
save_config actor previous incoming =
    if previous.revision == incoming.revision
    then saved (record {
      revision = incoming.revision + 1;
      updated_by = actor;
      exceptions = approve_changed actor previous.exceptions incoming.exceptions;
    })
    else conflict
