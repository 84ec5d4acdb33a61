-- ===== src/TriageWorker.antt =====
-- ai_worker.py: the worker that sends pending alerts to the model. The `alerts` table is a list of
-- rows by ascending id; time is in whole seconds, `created_at` is `none` where it is no ISO time.
-- `analyse` is `ai_soc.run_progressive_triage`: the analysis, or the text of the exception.
pub mod Cycles
mod Tests
use mini_siem.Base.{
  ℕ, ◌+◌, ◌*◌, min, max, ap, Bool, true, false, not, ◌&&◌, ◌||◌, Option, none, some, List, [], ◌∷◌,
  ◌++◌, map, ltb, leb, if◌then◌else◌, ◌==◌, nat_eq, string_eq, is_some, take, keep, Text, codes,
  text_eq,
}
use mini_siem.Severity.{index_of, alert}

pub data AiStatus : Type 0 where
  pending skipped done error : AiStatus

pub record Alert : Type 0 where
  pub id : ℕ
  pub created_at : Option ℕ
  pub rule_name : Text
  pub severity : Option Text
  pub source_ip : Option Text
  pub ai_status : AiStatus
  pub ai_attempts : ℕ
  pub ai_analysis : Option Text
  pub ai_triaged_at : Option ℕ

pub record Settings : Type 0 where
  pub enabled : Bool
  pub auto_triage : Bool
  pub min_severity : Text
  pub max_age_hours : ℕ
  pub dedup_groups : Bool

pub data Answer : Type 0 where
  analysis failure : Text → Answer

-- the UPDATE statements of a cycle
abbrev pub skip : Alert → Alert
skip a = record {
  id = a.id;
  created_at = a.created_at;
  rule_name = a.rule_name;
  severity = a.severity;
  source_ip = a.source_ip;
  ai_status = skipped;
  ai_attempts = a.ai_attempts;
  ai_analysis = a.ai_analysis;
  ai_triaged_at = a.ai_triaged_at;
}

abbrev pub finish : ℕ → Text → Alert → Alert
finish now text a = record {
  id = a.id;
  created_at = a.created_at;
  rule_name = a.rule_name;
  severity = a.severity;
  source_ip = a.source_ip;
  ai_status = done;
  ai_attempts = a.ai_attempts;
  ai_analysis = some text;
  ai_triaged_at = some now;
}

-- `attempts` is that of the row as it was selected
abbrev pub fail : ℕ → ℕ → Text → Alert → Alert
fail max_attempts attempts text a = record {
  id = a.id;
  created_at = a.created_at;
  rule_name = a.rule_name;
  severity = a.severity;
  source_ip = a.source_ip;
  ai_status = if leb max_attempts (attempts + 1) then error else pending;
  ai_attempts = attempts + 1;
  ai_analysis = some text;
  ai_triaged_at = a.ai_triaged_at;
}

abbrev pub update_alert : (Alert → Alert) → ℕ → List Alert → List Alert
update_alert f k [] = []
update_alert f k (a ∷ table) = (if a.id == k then f a else a) ∷ update_alert f k table

abbrev pub is_pending : AiStatus → Bool
is_pending pending = true
is_pending _ = false

abbrev pub is_done : AiStatus → Bool
is_done done = true
is_done _ = false

abbrev pub is_due : ℕ → Alert → Bool
is_due max_attempts a = is_pending a.ai_status && ltb a.ai_attempts max_attempts

-- the SELECT of the pending alerts
unfoldable pub pending_alerts : ℕ → ℕ → List Alert → List Alert
pending_alerts max_attempts batch table = take batch (keep (is_due max_attempts) table)

-- `age_h > max_age_h`
abbrev pub is_old : ℕ → ℕ → Option ℕ → Bool
is_old max_age_hours now none = false
is_old max_age_hours now (some t) = not (max_age_hours == 0) && ltb (t + max_age_hours * 3600) now

abbrev pub is_below : Text → Alert → Bool
is_below [] a = false
is_below (c ∷ s) a =
    not (a.rule_name == codes "nxlog_severity_event")
    && ltb (index_of (some (c ∷ s)) 6) (index_of a.severity 6)

abbrev pub same_source : Option Text → Option Text → Bool
same_source none none = true
same_source (some s) (some t) = s == t
same_source _ _ = false

abbrev pub is_recent : ℕ → Option ℕ → Bool
is_recent now none = false
is_recent now (some t) = leb now (t + 6 * 3600)

-- the analysis of a twin: `none` for none or for an empty one
abbrev pub text_of : Option Text → Option Text
text_of none = none
text_of (some []) = none
text_of (some (c ∷ s)) = some (c ∷ s)

abbrev pub is_twin : ℕ → Alert → Alert → Bool
is_twin now a b =
    b.rule_name == a.rule_name
    && same_source b.source_ip a.source_ip
    && is_done b.ai_status
    && is_some b.ai_analysis
    && is_recent now b.created_at

-- The twin with the largest id, `ORDER BY id DESC LIMIT 1`: the last of the table.
unfoldable pub find_twin : ℕ → Alert → List Alert → Option Alert
find_twin now a [] = none
find_twin now a (b ∷ table) =
    let rest = find_twin now a table in
    elim rest [ some c ↦ some c | none ↦ if is_twin now a b then some b else none ]

abbrev pub twin_text : Option Alert → Option Text
twin_text none = none
twin_text (some b) = text_of b.ai_analysis

abbrev pub grouped_note : Text
grouped_note =
    codes "[grouped: identical to a recently analyzed alert from the same rule and source]"
    ++ 10 ∷ 10 ∷ []

-- the table, how many are processed, and whether the cycle goes on
pub record Cycle : Type 0 where
  pub table : List Alert
  pub processed : ℕ
  pub goes_on : Bool

abbrev pub answered : ℕ → ℕ → Alert → Answer → Cycle → Cycle
answered max_attempts now a (analysis t) s = record {
  table = update_alert (finish now t) a.id s.table;
  processed = s.processed + 1;
  goes_on = true;
}
answered max_attempts now a (failure t) s = record {
  table = update_alert (fail max_attempts a.ai_attempts t) a.id s.table;
  processed = s.processed;
  goes_on = false;
}

abbrev pub with_twin : ℕ → ℕ → (Alert → List Alert → Answer) → Alert → Option Text → Cycle → Cycle
with_twin max_attempts now analyse a (some t) s = record {
  table = update_alert (finish now (grouped_note ++ t)) a.id s.table;
  processed = s.processed + 1;
  goes_on = true;
}
with_twin max_attempts now analyse a none s = answered max_attempts now a (analyse a s.table) s

-- the body of the loop, for one alert
unfoldable pub triage_one : Settings → ℕ → ℕ → (Alert → List Alert → Answer) → Alert → Cycle → Cycle
unfolding find_twin index_of
triage_one settings max_attempts now analyse a s =
    if is_old settings.max_age_hours now a.created_at || is_below settings.min_severity a
    then record { table = update_alert skip a.id s.table; processed = s.processed; goes_on = true }
    else with_twin max_attempts now analyse a
        (if settings.dedup_groups then twin_text (find_twin now a s.table) else none) s

-- the loop: `stops` is whether the stop event is set before each alert
unfoldable pub triage_all :
    Settings → ℕ → ℕ → (Alert → List Alert → Answer) → List (Alert × Bool) → Cycle → Cycle
triage_all settings max_attempts now analyse [] s = s
triage_all settings max_attempts now analyse ((a, stops) ∷ todo) s = elim (s.goes_on && not stops) [
  | true ↦
      triage_all settings max_attempts now analyse todo
        (triage_one settings max_attempts now analyse a s)
  | false ↦ s
]

abbrev pub with_stops : (ℕ → Bool) → List Alert → List (Alert × Bool)
with_stops stops = map (λ (a : Alert). (a, stops a.id))

-- `TriageWorker.run_once`: the table after it, and how many alerts were processed
unfoldable pub run_once :
    Settings → ℕ → ℕ → ℕ → (ℕ → Bool) → (Alert → List Alert → Answer) → List Alert → List Alert × ℕ
unfolding triage_one triage_all pending_alerts
run_once settings max_attempts batch now stops analyse table =
    if settings.enabled && settings.auto_triage
    then (let s =
          triage_all settings max_attempts now analyse
            (with_stops stops (pending_alerts max_attempts batch table))
            (record { table = table; processed = 0; goes_on = true }) in
        (s.table, s.processed))
    else (table, 0)
