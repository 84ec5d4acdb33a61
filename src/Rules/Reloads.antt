-- ===== src/Rules/Reloads.antt =====
-- rules.py, `RuleEngine.process` over a run of events: which of them load the configuration, and
-- which configuration is in force.
use mini_siem.Base.{
  ℕ, ◌+◌, String, ◌≡◌, Bool, true, false, some, List, [], ◌∷◌, arith, nat_eq, string_eq, ◌≤◌, refl,
  Option, none, ltb, if◌then◌else◌, Bool-cases, inl, inr, text_eq, not, ◌&&◌, sym, ◌∙◌, ap,
}
use mini_siem.Rules.{Event}
use mini_siem.Rules.Engine.{
  Engine, Config, Rule, Alert, retune, adopt, reload_config, with_findings, after_reload, process,
  Ran, run_rules,
}

-- an event at its time, with what a load at that time would bring, `none` if it would raise, and
-- what the rest of `process` takes
pub record Call : Type 0 where
  pub now : ℕ
  pub loaded : Option Config
  pub sink : Alert → Bool
  pub exempt : String → Bool
  pub normalized : Bool
  pub id : ℕ
  pub event : Event
  pub findings : List Alert

abbrev pub processed : Call → Engine → Engine
processed c eng =
    (process c.sink c.exempt c.normalized c.now c.loaded c.id c.event c.findings eng).0

abbrev pub process_all : List Call → Engine → Engine
process_all [] eng = eng
process_all (c ∷ cs) eng = process_all cs (processed c eng)

-- The calls that load: the first at or after the time `next`, and from each of them on the first that
-- comes five seconds later or more.
abbrev pub loading : ℕ → List Call → List Call
loading next [] = []
loading next (c ∷ cs) = if ltb c.now next then loading next cs else c ∷ loading (c.now + 5) cs

-- the last configuration that a load brought, or else the one before
abbrev pub last_good : Config → List Call → Config
last_good config [] = config
last_good config (c ∷ cs) = elim c.loaded [
  | none ↦ last_good config cs
  | some new ↦ last_good new cs
]

abbrev pub failed_loads : List Call → ℕ
failed_loads [] = 0
failed_loads (c ∷ cs) = elim c.loaded [ none ↦ failed_loads cs + 1 | some new ↦ failed_loads cs ]

-- each call is at or after `next`, and five seconds or more after the one before it
abbrev pub IsSpaced : ℕ → List Call → Type 0
IsSpaced next [] = Unit
IsSpaced next (c ∷ cs) = (next ≤ c.now) × IsSpaced (c.now + 5) cs

loading-IsSpaced : (next : ℕ) (cs : List Call) → IsSpaced next (loading next cs)
loading-IsSpaced next [] = tt
loading-IsSpaced next (c ∷ cs) = elim (Bool-cases (ltb c.now next)) [
  | inl e ↦ rw e (loading-IsSpaced next cs)
  | inr e ↦ rw e (ground arith, loading-IsSpaced (c.now + 5) cs)
]

-- What the rest of an event leaves of an engine: its configuration and the time of the next load,
-- and no error is forgotten.
abbrev Follows : Engine → Engine → Type 0
Follows e e' = (e'.config ≡ e.config) × (e'.reload_at ≡ e.reload_at) × (e.errors ≤ e'.errors)

with_findings-Follows :
    (sink : Alert → Bool) (fs : List Alert) (e : Engine) (ran : Ran)
    → Follows e (with_findings sink fs e ran).0
with_findings-Follows sink fs e ran = elim (Bool-cases ran.raised) [
  | inl r ↦ rw r (refl, refl, omega arith)
  | inr r ↦ rw r (refl, refl, omega arith)
]

process-Follows :
    (c : Call) (eng : Engine) → Follows (reload_config c.now c.loaded eng).0 (processed c eng)
unfolding process
process-Follows c eng = after (reload_config c.now c.loaded eng)
  where
    after :
        (r : Engine × Bool)
        → Follows r.0 (after_reload c.sink c.exempt c.normalized c.now c.id c.event c.findings r).0
    after (e, false) = (refl, refl, omega arith)
    after (e, true) =
        with_findings-Follows c.sink
          (if not c.normalized && not e.all_events_rules then [] else c.findings) e
          (run_rules c.sink e.config (λ n. c.normalized && c.exempt n) c.now c.id c.event e.rules)

early_lem :
    (now : ℕ) (loaded : Option Config) (eng : Engine)
    → ltb now eng.reload_at ≡ true
    → (reload_config now loaded eng).0 ≡ eng
unfolding reload_config
early_lem now loaded eng e = rw e refl

-- an engine after a load
abbrev Loaded : ℕ → Config → ℕ → Engine → Type 0
Loaded now config errors e = (e.config ≡ config) × (e.reload_at ≡ now + 5) × (e.errors ≡ errors)

failed_lem :
    (now : ℕ) (eng : Engine)
    → ltb now eng.reload_at ≡ false
    → Loaded now eng.config (eng.errors + 1) (reload_config now none eng).0
unfolding reload_config
failed_lem now eng e = rw e (refl, refl, refl)

adopt-Loaded :
    (now : ℕ) (config : Config) (r : List Rule × Bool) (eng : Engine)
    → eng.reload_at ≡ now + 5
    → Loaded now config eng.errors (adopt config r eng).0
adopt-Loaded now config (rules, false) eng h = (refl, h, refl)
adopt-Loaded now config (rules, true) eng h = (refl, h, refl)

good_lem :
    (now : ℕ) (config : Config) (eng : Engine)
    → ltb now eng.reload_at ≡ false
    → Loaded now config eng.errors (reload_config now (some config) eng).0
unfolding reload_config
good_lem now config eng e =
    rw e
      (adopt-Loaded now config (retune config eng.rules) (record eng { reload_at = now + 5 }) refl)

abbrev Kept : List Call → Config → ℕ → ℕ → Engine → Type 0
Kept cs config next errors e =
    ((process_all cs e).config ≡ last_good config (loading next cs))
    × (errors + failed_loads (loading next cs) ≤ (process_all cs e).errors)

-- from the engine that a reload leaves to the one that the event leaves
Kept-Follows :
    (cs : List Call) (config : Config) (next errors : ℕ) (e e' : Engine)
    → Follows e e'
    → e.config ≡ config
    → e.reload_at ≡ next
    → errors ≤ e.errors
    → Kept cs e'.config e'.reload_at e'.errors e'
    → Kept cs config next errors e'
Kept-Follows cs config next errors e e' (f, g, m) p q le h =
    (rw (sym p, sym f, sym q, sym g) h.0, rw (sym q, sym g) (omega (arith, h.1, m, le)))

loaded_none :
    (c : Call) (config : Config) (cs : List Call)
    → c.loaded ≡ none
    → (last_good config (c ∷ cs) ≡ last_good config cs)
      × (failed_loads (c ∷ cs) ≡ failed_loads cs + 1)
loaded_none c config cs h = rw h (refl, refl)

loaded_some :
    (c : Call) (config new : Config) (cs : List Call)
    → c.loaded ≡ some new
    → (last_good config (c ∷ cs) ≡ last_good new cs) × (failed_loads (c ∷ cs) ≡ failed_loads cs)
loaded_some c config new cs h = rw h (refl, refl)

late_lem :
    (c : Call) (cs : List Call) (eng : Engine) (o : Option Config)
    → c.loaded ≡ o
    → ltb c.now eng.reload_at ≡ false
    → Kept cs
        (processed c eng).config
        (processed c eng).reload_at
        (processed c eng).errors
        (processed c eng)
    → ((process_all cs (processed c eng)).config
        ≡ last_good eng.config (c ∷ loading (c.now + 5) cs))
      × (eng.errors + failed_loads (c ∷ loading (c.now + 5) cs)
          ≤ (process_all cs (processed c eng)).errors)
late_lem c cs eng none h late ih =
    let e = (reload_config c.now c.loaded eng).0 in
    let load : Loaded c.now eng.config (eng.errors + 1) e = rw h (failed_lem c.now eng late) in
    let kept =
      Kept-Follows cs eng.config (c.now + 5) (eng.errors + 1) e (processed c eng)
        (process-Follows c eng) load.0 load.1 (omega (arith, load.2)) ih in
    let (good, failed) = loaded_none c eng.config (loading (c.now + 5) cs) h in
    (kept.0 ∙ sym good, omega (arith, kept.1, failed))
late_lem c cs eng (some config) h late ih =
    let e = (reload_config c.now c.loaded eng).0 in
    let load : Loaded c.now config eng.errors e = rw h (good_lem c.now config eng late) in
    let kept =
      Kept-Follows cs config (c.now + 5) eng.errors e (processed c eng) (process-Follows c eng)
        load.0 load.1 (omega (arith, load.2)) ih in
    let (good, failed) = loaded_some c eng.config config (loading (c.now + 5) cs) h in
    (kept.0 ∙ sym good, omega (arith, kept.1, failed))

run-Kept : (cs : List Call) (eng : Engine) → Kept cs eng.config eng.reload_at eng.errors eng
run-Kept [] eng = (refl, omega arith)
run-Kept (c ∷ cs) eng =
    let next = processed c eng in
    let load = (reload_config c.now c.loaded eng).0 in
    elim (Bool-cases (ltb c.now eng.reload_at)) [
      | inl e ↦
          let same = early_lem c.now c.loaded eng e in
          rw e (
            Kept-Follows cs eng.config eng.reload_at eng.errors load next (process-Follows c eng)
              (ap (λ (x : Engine). x.config) same) (ap (λ (x : Engine). x.reload_at) same)
              (omega (arith, ap (λ (x : Engine). x.errors) same)) (run-Kept cs next))
      | inr e ↦ rw e (late_lem c cs eng c.loaded refl e (run-Kept cs next))
    ]

-- Over any run of events, the loads are those of the calls `loading` picks, which are five seconds
-- or more apart; the configuration in force is the last one that a load brought, or the first one
-- if every load raised; and each load that raised is counted as an error.
pub process-last_good :
    (cs : List Call) (eng : Engine)
    → IsSpaced eng.reload_at (loading eng.reload_at cs)
      × ((process_all cs eng).config ≡ last_good eng.config (loading eng.reload_at cs))
      × (eng.errors + failed_loads (loading eng.reload_at cs) ≤ (process_all cs eng).errors)
process-last_good cs eng =
    let (config, errors) = run-Kept cs eng in (loading-IsSpaced eng.reload_at cs, config, errors)
