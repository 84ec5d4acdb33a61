-- ===== src/Rules/Tests.antt =====
-- rules.py at concrete events.
use mini_siem.Base.{
  ◌+◌, ◌≤◌, ◌≡◌, refl, Bool, true, false, not, ◌&&◌, Option, none, some, List, [], ◌∷◌, arith,
  nat_eq, string_eq, is_some, All, Text, codes, text_eq, ℕ, map,
}
use mini_siem.Rules.{Event, extract_ip, evaluate, ThresholdRule}
use mini_siem.Rules.Triggers.{
  evaluate_nxlog, evaluate_severity, is_nxlog_windows_event, at_least, severity_triggers,
}
use mini_siem.Rules.Engine.{
  Engine, Config, evaluate_body, process, RuleConfig, counting, severity_rule, retune, Rule,
}
use mini_siem.Rules.Reloads.{
  loading, last_good, failed_loads, IsSpaced, process-last_good, Call, process_all,
}
use mini_siem.Rules.EngineLaws.{Expected, process-Expected}
use mini_siem.Rules.Alerts.{Arrival, run_rule, run_log, run_rule-eq-run_log}
use mini_siem.Rules.Replay.{Row, replay}
use mini_siem.Rules.Agreement.{arrivals, count_some, replay_lem}
use mini_siem.Severity.{normalize, error, warning}

abbrev failed : Event
failed = record {
  message = codes "Failed password for root from 10.0.0.7 port 22";
  source_ip = some (codes "fw");
  severity = some (codes "crit");
  format = codes "rfc3164";
  json = none;
}

ip_found : extract_ip failed.message ≡ some (codes "10.0.0.7")
unfolding extract_ip
ip_found = refl

ip_too_long : extract_ip (codes "v1.2.3.4567 x10.0.0.1 999.1.1.1.") ≡ some (codes "999.1.1.1")
unfolding extract_ip
ip_too_long = refl

abbrev always : Text → Bool
always _ = true

abbrev fresh : ThresholdRule
fresh = record { threshold = 2; window_seconds = 60; key_from_message = true; hits = [] }

abbrev run : List Arrival
run = (100, 1, failed) ∷ (161, 2, failed) ∷ (170, 3, failed) ∷ (171, 4, failed) ∷ []

run_alerts :
    run_rule always fresh run ≡ none ∷ none ∷ some (codes "10.0.0.7", 2 ∷ 3 ∷ []) ∷ none ∷ []
unfolding run_rule evaluate extract_ip
run_alerts = refl

run_rule-eq-run_log_example : run_rule always fresh run ≡ run_log always fresh run
run_rule-eq-run_log_example = run_rule-eq-run_log always 2 60 true run (omega arith)

abbrev rows : List Row
rows =
    record { event = failed; time = some 100 }
    ∷ record { event = failed; time = none }
    ∷ record { event = failed; time = some 120 }
    ∷ []

replay_fires : replay always (some 2) none rows ≡ (1, 1)
unfolding replay extract_ip
replay_fires = refl

replay_example :
    (replay always (some 2) none rows).0 ≡ count_some (run_rule always fresh (arrivals rows))
replay_example = replay_lem always (some 2) none rows

severity_triggers_example :
    (is_some (evaluate_nxlog failed)
      ≡ (is_nxlog_windows_event failed && at_least 4 (normalize failed.severity)))
    × (is_some (evaluate_severity failed)
        ≡ (not (is_nxlog_windows_event failed) && at_least 2 (normalize failed.severity)))
severity_triggers_example = severity_triggers failed

abbrev rule_config : RuleConfig
rule_config = record {
  enabled = true;
  severity = warning;
  threshold = 1;
  window_seconds = 60;
  matches_all = false;
}

abbrev engine : Engine
engine = record {
  reload_at = 0;
  config = [];
  all_events_rules = false;
  rules =
      record { name = "ssh"; severity = error; body = counting always fresh }
      ∷ record { name = "high"; severity = error; body = severity_rule }
      ∷ [];
  errors = 0;
}

abbrev loaded : Option Config
loaded = some (("ssh", rule_config) ∷ ("high", record rule_config { enabled = false }) ∷ [])

process_once :
    (process (λ a. true) (λ n. false) false 7 loaded 9 failed [] engine).1
    ≡ record {
      rule_name = "ssh";
      severity = warning;
      source_ip = codes "10.0.0.7";
      log_ids = 9 ∷ [];
    }
      ∷ []
unfolding process evaluate_body evaluate extract_ip
process_once = refl

process-Expected_example :
    All
      (Expected
        (process (λ a. true) (λ n. false) false 7 loaded 9 failed [] engine).0.config
        (λ n. false && false)
        (λ a. ⊥))
      (process (λ a. true) (λ n. false) false 7 loaded 9 failed [] engine).1
process-Expected_example =
    process-Expected (λ a. true) (λ n. false) false 7 loaded 9 failed [] engine (λ a. ⊥) tt

-- three events: the second is too early to load, and the load of the third raises
abbrev call : ℕ → Option Config → Call
call t l = record {
  now = t;
  loaded = l;
  sink = λ a. true;
  exempt = λ n. false;
  normalized = false;
  id = t;
  event = failed;
  findings = [];
}

abbrev calls : List Call
calls = call 7 loaded ∷ call 9 none ∷ call 12 none ∷ []

loads_twice : map (λ (c : Call). c.now) (loading 0 calls) ≡ 7 ∷ 12 ∷ []
loads_twice = refl

process-last_good_example :
    IsSpaced engine.reload_at (loading engine.reload_at calls)
    × ((process_all calls engine).config ≡ last_good engine.config (loading engine.reload_at calls))
    × (engine.errors + failed_loads (loading engine.reload_at calls)
        ≤ (process_all calls engine).errors)
process-last_good_example = process-last_good calls engine

-- the second rule has no entry: the first is retuned all the same
retune_partly :
    let (rules, ok) = retune (("ssh", rule_config) ∷ []) engine.rules in
    (map (λ (r : Rule). r.severity) rules ≡ warning ∷ error ∷ []) × (ok ≡ false)
unfolding retune
retune_partly = (refl, refl)
