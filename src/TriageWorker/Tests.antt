-- ===== src/TriageWorker/Tests.antt =====
-- ai_worker.py at a table of three alerts.
use mini_siem.Base.{
  fold_text, ℕ, ◌≤◌, ◌≡◌, refl, Bool, true, false, none, some, List, [], ◌∷◌, map, nat_eq,
  string_eq, All, codes, text_eq,
}
use mini_siem.TriageWorker.{
  Alert, AiStatus, Settings, Answer, pending_alerts, run_once, pending, done, error, failure,
}
use mini_siem.TriageWorker.Cycles.{HasAttempts, run_once-Kept, others, ids}

abbrev alert : ℕ → AiStatus → ℕ → Alert
alert k status attempts = record {
  id = k;
  created_at = some 100;
  rule_name = codes "burst";
  severity = some (codes "crit");
  source_ip = some (codes "10.0.0.7");
  ai_status = status;
  ai_attempts = attempts;
  ai_analysis = none;
  ai_triaged_at = none;
}

abbrev table : List Alert
table = alert 1 done 0 ∷ alert 2 pending 2 ∷ alert 3 pending 0 ∷ []

abbrev settings : Settings
settings = record {
  enabled = true;
  auto_triage = true;
  min_severity = codes "warning";
  max_age_hours = 24;
  dedup_groups = true;
}

abbrev down : Alert → List Alert → Answer
down _ _ = failure (codes "timeout")

abbrev runs_on : ℕ → Bool
runs_on _ = false

statuses :
    map {B = AiStatus × ℕ}
      (λ (a : Alert). (a.ai_status, a.ai_attempts))
      (run_once settings 3 5 200 runs_on down table).0
    ≡ (done, 0) ∷ (error, 3) ∷ (pending, 0) ∷ []
unfolding run_once fold_text
statuses = refl

run_once-Kept_example :
    let (after, processed) = run_once settings 3 5 200 runs_on down table in
    (All (HasAttempts 3) table → All (HasAttempts 3) after)
    × (others (ids (pending_alerts 3 5 table)) after
        ≡ others (ids (pending_alerts 3 5 table)) table)
    × (processed ≤ 5)
run_once-Kept_example = run_once-Kept settings 3 5 200 runs_on down table
