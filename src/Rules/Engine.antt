-- ===== src/Rules/Engine.antt =====
-- rules.py, `RuleEngine`: the rules of one process, the configuration that they run under, and the
-- isolation of what fails. Alerts go to a sink that may raise; the exceptions of detection.py and
-- its findings for an event come in as arguments (`exempt`, `findings`).
use mini_siem.Base.{
  ℕ, ◌+◌, String, Bool, true, false, not, ◌&&◌, ◌||◌, Option, none, some, List, [], ◌∷◌, ◌++◌, ltb,
  if◌then◌else◌, ◌==◌, nat_eq, string_eq, any_of, Text, text_eq, Dict, lookup,
}
use mini_siem.Rules.{Event, evaluate, ThresholdRule}
use mini_siem.Rules.Triggers.{evaluate_nxlog, evaluate_severity}
use mini_siem.Severity.{Level}

pub data Body : Type 0 where
  counting : (Text → Bool) → ThresholdRule → Body
  nxlog : Body
  severity_rule : Body

pub record Rule : Type 0 where
  pub name : String
  pub severity : Level
  pub body : Body

-- an entry of the configuration's "rules", as far as the engine reads it
pub record RuleConfig : Type 0 where
  pub enabled : Bool
  pub severity : Level
  pub threshold : ℕ
  pub window_seconds : ℕ
  -- `kind == "match"` with the scope "all"
  pub matches_all : Bool

abbrev pub Config : Type 0
Config = Dict String RuleConfig

pub record Alert : Type 0 where
  pub rule_name : String
  pub severity : Level
  pub source_ip : Text
  pub log_ids : List ℕ

pub record Engine : Type 0 where
  pub reload_at : ℕ
  pub config : Config
  pub all_events_rules : Bool
  pub rules : List Rule
  pub errors : ℕ

-- `rule.threshold, rule.window_seconds = ...`: counts made under other values are dropped
abbrev pub retune_threshold : RuleConfig → ThresholdRule → ThresholdRule
retune_threshold cfg r = record {
  threshold = cfg.threshold;
  window_seconds = cfg.window_seconds;
  key_from_message = r.key_from_message;
  hits =
      if r.threshold == cfg.threshold && r.window_seconds == cfg.window_seconds then r.hits else [];
}

abbrev pub retune_body : RuleConfig → Body → Body
retune_body cfg (counting p r) = counting p (retune_threshold cfg r)
retune_body cfg nxlog = nxlog
retune_body cfg severity_rule = severity_rule

abbrev pub retune_rule : RuleConfig → Rule → Rule
retune_rule cfg rule = record {
  name = rule.name;
  severity = cfg.severity;
  body = retune_body cfg rule.body;
}

abbrev pub retune_one : Option RuleConfig → Rule → List Rule → List Rule × Bool → List Rule × Bool
retune_one none rule rules rest = (rule ∷ rules, false)
retune_one (some cfg) rule rules (done, ok) = (retune_rule cfg rule ∷ done, ok)

-- the loop over the rules; false is the KeyError of a rule that the configuration lacks, at which
-- the rules before it have their new values and the others the old ones
unfoldable pub retune : Config → List Rule → List Rule × Bool
retune config [] = ([], true)
retune config (rule ∷ rules) = retune_one (lookup rule.name config) rule rules (retune config rules)

abbrev pub any_all : Config → Bool
any_all = any_of (λ (e : String × RuleConfig). e.1.enabled && e.1.matches_all)

abbrev pub adopt : Config → List Rule × Bool → Engine → Engine × Bool
adopt config (rules, false) eng = (record eng { config = config; rules = rules }, false)
adopt config (rules, true) eng =
    (record eng { config = config; rules = rules; all_events_rules = any_all config }, true)

-- `none` is a load that raised: the error is counted and the last good configuration stays
abbrev pub take_config : Option Config → Engine → Engine × Bool
take_config none eng = (record eng { errors = eng.errors + 1 }, true)
take_config (some config) eng = adopt config (retune config eng.rules) eng

-- `_reload_config` at the time `now`, given what a load would bring; false if it raises
unfoldable pub reload_config : ℕ → Option Config → Engine → Engine × Bool
unfolding retune
reload_config now loaded eng =
    if ltb now eng.reload_at
    then (eng, true)
    else take_config loaded (record eng { reload_at = now + 5 })

abbrev pub counted :
    Rule → (Text → Bool) → ThresholdRule × Option (Text × List ℕ) → Rule × Option Alert
counted rule p (r, none) = (record rule { body = counting p r }, none)
counted rule p (r, some (key, ids)) = (
  record rule { body = counting p r },
  some (record { rule_name = rule.name; severity = rule.severity; source_ip = key; log_ids = ids }),
)

-- An alert of one event: of the event's severity where the rule returns one, else of the rule's.
abbrev pub single : Rule → ℕ → Bool → Option (Text × Level) → Rule × Option Alert
single rule id own none = (rule, none)
single rule id own (some (src, l)) = (
  rule,
  some (record {
    rule_name = rule.name;
    severity = if own then l else rule.severity;
    source_ip = src;
    log_ids = id ∷ [];
  }),
)

unfoldable pub evaluate_body : Rule → Body → ℕ → ℕ → Event → Rule × Option Alert
evaluate_body rule (counting p r) now id event = counted rule p (evaluate p r now id event)
evaluate_body rule nxlog now id event = single rule id true (evaluate_nxlog event)
evaluate_body rule severity_rule now id event = single rule id false (evaluate_severity event)

-- What became of the rules of one event: the rules after it, the alerts written, and whether the
-- sink raised, which ends the event.
pub record Ran : Type 0 where
  pub rules : List Rule
  pub alerts : List Alert
  pub raised : Bool

abbrev pub keep_rule : Rule → Ran → Ran
keep_rule r ran = record ran { rules = r ∷ ran.rules }

abbrev pub insert_alert : (Alert → Bool) → Rule → List Rule → Option Alert → Ran → Ran
insert_alert sink r rules none ran = keep_rule r ran
insert_alert sink r rules (some a) ran =
    if sink a
    then record { rules = r ∷ ran.rules; alerts = a ∷ ran.alerts; raised = ran.raised }
    else record { rules = r ∷ rules; alerts = []; raised = true }

abbrev pub is_enabled : Option RuleConfig → Bool
is_enabled none = false
is_enabled (some cfg) = cfg.enabled

-- the loop of `_process` over the rules
unfoldable pub run_rules :
    (Alert → Bool) → Config → (String → Bool) → ℕ → ℕ → Event → List Rule → Ran
run_rules sink config exempt now id event [] = record { rules = []; alerts = []; raised = false }
run_rules sink config exempt now id event (rule ∷ rules) =
    let rest = run_rules sink config exempt now id event rules in
    let (r, a) = evaluate_body rule rule.body now id event in
    if not (is_enabled (lookup rule.name config)) || exempt rule.name
    then keep_rule rule rest
    else insert_alert sink r rules a rest

-- the loop over the findings: one whose write raises is counted, and the others go on
unfoldable pub emit_all : (Alert → Bool) → List Alert → List Alert × ℕ
emit_all sink [] = ([], 0)
emit_all sink (f ∷ fs) =
    let (done, failed) = emit_all sink fs in
    if sink f then (f ∷ done, failed) else (done, failed + 1)

abbrev pub with_findings : (Alert → Bool) → List Alert → Engine → Ran → Engine × List Alert
with_findings sink findings eng ran =
    let (done, failed) = emit_all sink findings in
    if ran.raised
    then (record eng { rules = ran.rules; errors = eng.errors + 1 }, ran.alerts)
    else (record eng { rules = ran.rules; errors = eng.errors + failed }, ran.alerts ++ done)

-- `_process` over the configuration in force; the findings are looked for only if the event is a
-- normalized one or a rule is for all events
abbrev pub process_event :
    (Alert → Bool)
    → (String → Bool)
    → Bool
    → ℕ
    → ℕ
    → Event
    → List Alert
    → Engine
    → Engine × List Alert
process_event sink exempt normalized now id event findings eng =
    with_findings sink (if not normalized && not eng.all_events_rules then [] else findings) eng
      (run_rules sink eng.config (λ n. normalized && exempt n) now id event eng.rules)

abbrev pub after_reload :
    (Alert → Bool)
    → (String → Bool)
    → Bool
    → ℕ
    → ℕ
    → Event
    → List Alert
    → Engine × Bool
    → Engine × List Alert
after_reload sink exempt normalized now id event findings (eng, true) =
    process_event sink exempt normalized now id event findings eng
after_reload sink exempt normalized now id event findings (eng, false) =
    (record eng { errors = eng.errors + 1 }, [])

-- `RuleEngine.process`: never raises; the alerts are those that were written
unfoldable pub process :
    (Alert → Bool)
    → (String → Bool)
    → Bool
    → ℕ
    → Option Config
    → ℕ
    → Event
    → List Alert
    → Engine
    → Engine × List Alert
unfolding reload_config run_rules emit_all
process sink exempt normalized now loaded id event findings eng =
    after_reload sink exempt normalized now id event findings (reload_config now loaded eng)
