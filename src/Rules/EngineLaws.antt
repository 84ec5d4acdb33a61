-- ===== src/Rules/EngineLaws.antt =====
-- rules.py, `RuleEngine`: what one event can write, and what a failure costs.
use mini_siem.Base.{
  ℕ, ◌+◌, String, ◌≡◌, Bool, true, false, some, List, [], ◌∷◌, arith, nat_eq, string_eq, length,
  All, text_eq, lookup, refl, ◌⊎◌, inl, inr, not, ◌&&◌, ◌||◌, Option, none, if◌then◌else◌,
  Bool-cases, All-append, Text,
}
use mini_siem.Rules.Triggers.{evaluate_nxlog, evaluate_severity}
use mini_siem.Rules.{Event, evaluate, ThresholdRule}
use mini_siem.Rules.Engine.{
  Engine, Config, evaluate_body, is_enabled, emit_all, Body, Rule, Alert, counting, nxlog,
  severity_rule, reload_config, counted, single, insert_alert, run_rules, with_findings,
  after_reload, process, Ran,
}
use mini_siem.Severity.{Level}

-- Each finding is written or counted as an error.
emit_all-length :
    (sink : Alert → Bool) (fs : List Alert)
    → length (emit_all sink fs).0 + (emit_all sink fs).1 ≡ length fs
unfolding emit_all
emit_all-length sink [] = omega arith
emit_all-length sink (f ∷ fs) = ground (arith, emit_all-length sink fs)

-- The alert is of a rule that is enabled and that no exception covers.
abbrev pub IsAllowed : Config → (String → Bool) → Alert → Type 0
IsAllowed config exempt a =
    (is_enabled (lookup a.rule_name config) ≡ true) × (exempt a.rule_name ≡ false)

counted-name :
    (rule : Rule) (p : Text → Bool) (r : ThresholdRule × Option (Text × List ℕ)) (a : Alert)
    → (counted rule p r).1 ≡ some a
    → a.rule_name ≡ rule.name
counted-name rule p (r, none) a h = cc
counted-name rule p (r, some (k, ids)) a h = ground arith

single-name :
    (rule : Rule) (id : ℕ) (own : Bool) (r : Option (Text × Level)) (a : Alert)
    → (single rule id own r).1 ≡ some a
    → a.rule_name ≡ rule.name
single-name rule id own none a h = cc
single-name rule id own (some (src, l)) a h = ground arith

evaluate_body-name :
    (rule : Rule) (now id : ℕ) (event : Event) (b : Body) (a : Alert)
    → (evaluate_body rule b now id event).1 ≡ some a
    → a.rule_name ≡ rule.name
unfolding evaluate_body
evaluate_body-name rule now id event (counting p r) a h =
    counted-name rule p (evaluate p r now id event) a h
evaluate_body-name rule now id event nxlog a h = single-name rule id true (evaluate_nxlog event) a h
evaluate_body-name rule now id event severity_rule a h =
    single-name rule id false (evaluate_severity event) a h

insert_alert-All {ℓ} :
    (P : Alert → Type ℓ) (sink : Alert → Bool) (r : Rule) (rules : List Rule) (o : Option Alert)
    (ran : Ran)
    → ((a : Alert) → o ≡ some a → P a)
    → All P ran.alerts
    → All P (insert_alert sink r rules o ran).alerts
insert_alert-All P sink r rules none ran one h = h
insert_alert-All P sink r rules (some a) ran one h = elim (Bool-cases (sink a)) [
  | inl y ↦ rw y (one a refl, h)
  | inr n ↦ rw n tt
]

run_rules-IsAllowed :
    (sink : Alert → Bool) (config : Config) (exempt : String → Bool) (now id : ℕ) (event : Event)
    (rules : List Rule)
    → All (IsAllowed config exempt) (run_rules sink config exempt now id event rules).alerts
unfolding run_rules
run_rules-IsAllowed sink config exempt now id event [] = tt
run_rules-IsAllowed sink config exempt now id event (rule ∷ rules) =
    let rest = run_rules sink config exempt now id event rules in
    let ih = run_rules-IsAllowed sink config exempt now id event rules in
    elim (Bool-cases (not (is_enabled (lookup rule.name config)) || exempt rule.name)) [
      | inl skip ↦ rw skip ih
      | inr run ↦ rw run (
          insert_alert-All (IsAllowed config exempt) sink
            (evaluate_body rule rule.body now id event).0 rules
            (evaluate_body rule rule.body now id event).1 rest
            (λ a h.
              rw (evaluate_body-name rule now id event rule.body a h) (ground arith, ground arith))
            ih)
    ]

emit_all-All {ℓ} :
    (P : Alert → Type ℓ) (sink : Alert → Bool) (fs : List Alert)
    → All P fs
    → All P (emit_all sink fs).0
unfolding emit_all
emit_all-All P sink [] h = tt
emit_all-All P sink (f ∷ fs) h = elim (Bool-cases (sink f)) [
  | inl y ↦ rw y (h.0, emit_all-All P sink fs h.1)
  | inr n ↦ rw n (emit_all-All P sink fs h.1)
]

-- The alerts that an event may write: of a rule that is allowed to fire, or one of the findings.
abbrev pub Expected : Config → (String → Bool) → (Alert → Type 0) → Alert → Type 0
Expected config exempt Q a = IsAllowed config exempt a ⊎ Q a

All-map : (P R : Alert → Type 0) (xs : List Alert) → ((a : Alert) → P a → R a) → All P xs → All R xs
All-map P R [] f h = tt
All-map P R (x ∷ xs) f h = (f x h.0, All-map P R xs f h.1)

with_findings-Expected :
    (sink : Alert → Bool) (fs : List Alert) (eng : Engine) (ran : Ran) (exempt : String → Bool)
    (Q : Alert → Type 0)
    → All Q fs
    → All (IsAllowed eng.config exempt) ran.alerts
    → All (Expected eng.config exempt Q) (with_findings sink fs eng ran).1
with_findings-Expected sink fs eng ran exempt Q q h =
    let ruled =
      All-map (IsAllowed eng.config exempt) (Expected eng.config exempt Q) ran.alerts (λ a p. inl p)
        h in
    let found =
      All-map Q (Expected eng.config exempt Q) (emit_all sink fs).0 (λ a p. inr p)
        (emit_all-All Q sink fs q) in
    elim (Bool-cases ran.raised) [
      | inl r ↦ rw r ruled
      | inr r ↦
          rw r
            (All-append (Expected eng.config exempt Q) ran.alerts (emit_all sink fs).0 ruled found)
    ]

-- Whatever a load brings and whatever the sink does, an event writes only alerts of rules that
-- are enabled and not exempt for it, and findings of the event.
pub process-Expected :
    (sink : Alert → Bool) (exempt : String → Bool) (normalized : Bool) (now : ℕ)
    (loaded : Option Config) (id : ℕ) (event : Event) (findings : List Alert) (eng : Engine)
    (Q : Alert → Type 0)
    → All Q findings
    → All
        (Expected
          (process sink exempt normalized now loaded id event findings eng).0.config
          (λ n. normalized && exempt n)
          Q)
        (process sink exempt normalized now loaded id event findings eng).1
unfolding process
process-Expected sink exempt normalized now loaded id event findings eng Q q =
    reloaded (reload_config now loaded eng)
  where
    considered : (b : Bool) → All Q (if b then [] else findings)
    considered true = tt
    considered false = q

    same_config :
        (fs : List Alert) (e : Engine) (ran : Ran)
        → (with_findings sink fs e ran).0.config ≡ e.config
    same_config fs e ran = ground arith

    reloaded :
        (r : Engine × Bool)
        → All
            (Expected
              (after_reload sink exempt normalized now id event findings r).0.config
              (λ n. normalized && exempt n)
              Q)
            (after_reload sink exempt normalized now id event findings r).1
    reloaded (e, false) = tt
    reloaded (e, true) =
        let fs = if not normalized && not e.all_events_rules then [] else findings in
        let ran = run_rules sink e.config (λ n. normalized && exempt n) now id event e.rules in
        rw (same_config fs e ran) (
          with_findings-Expected sink fs e ran (λ n. normalized && exempt n) Q
            (considered (not normalized && not e.all_events_rules))
            (run_rules-IsAllowed sink e.config (λ n. normalized && exempt n) now id event e.rules))
