-- ===== src/Rules/Alerts.antt =====
-- rules.py, `ThresholdRule`, over a whole run of events: the alerts are those of a rule that keeps
-- every match since it last fired for the address, and counts those in its window.
use mathlib.Core.Path.{subst, ap₂}
use mini_siem.Base.{
  ℕ, ◌≤◌, ◌≡◌, refl, ap, inl, inr, Bool, Option, none, some, List, [], ◌∷◌, arith, if◌then◌else◌,
  ◌==◌, nat_eq, string_eq, Bool-cases, or_else, Text, text_eq, Dict, lookup, insert, lookup-insert,
}
use mini_siem.Rules.{Event, bind, rule_key, count_hit, evaluate, ThresholdRule}
use mini_siem.Rules.Window.{Tracks, log_hit, count_hit-Tracks}

-- an event with the time and the id of its log row
abbrev pub Arrival : Type 0
Arrival = ℕ × ℕ × Event

-- what `evaluate` returns at each event of a run
unfoldable pub run_rule :
    (Text → Bool) → ThresholdRule → List Arrival → List (Option (Text × List ℕ))
run_rule pattern rule [] = []
run_rule pattern rule ((now, id, event) ∷ es) =
    let (rule', alert) = evaluate pattern rule now id event in alert ∷ run_rule pattern rule' es

-- The specification: `evaluate` with the unpruned log in place of the deque.
unfoldable pub log_evaluate :
    (Text → Bool) → ThresholdRule → ℕ → ℕ → Event → ThresholdRule × Option (Text × List ℕ)
unfolding rule_key log_hit
log_evaluate pattern rule now id event =
    let key = rule_key rule.key_from_message event in
    let (log, fired) =
      log_hit rule.threshold rule.window_seconds now id (or_else (lookup key rule.hits) []) in
    if pattern event.message
    then (record rule { hits = insert key log rule.hits }, bind fired (λ ids. some (key, ids)))
    else (rule, none)

unfoldable pub run_log :
    (Text → Bool) → ThresholdRule → List Arrival → List (Option (Text × List ℕ))
run_log pattern rule [] = []
run_log pattern rule ((now, id, event) ∷ es) =
    let (rule', alert) = log_evaluate pattern rule now id event in alert ∷ run_log pattern rule' es

-- The clock does not go back.
abbrev pub Clocked : ℕ → List Arrival → Type 0
Clocked last [] = Unit
Clocked last ((now, id, event) ∷ es) = (last ≤ now) × Clocked now es

abbrev hits_of : Text → ThresholdRule → List (ℕ × ℕ)
hits_of key rule = or_else (lookup key rule.hits) []

record Alike (now : ℕ) (a b : ThresholdRule) : Type 0 where
  same_threshold : a.threshold ≡ b.threshold
  same_window : a.window_seconds ≡ b.window_seconds
  same_keys : a.key_from_message ≡ b.key_from_message
  tracks : (key : Text) → Tracks a.window_seconds now (hits_of key a) (hits_of key b)

later :
    {window last now : ℕ} {dq since : List (ℕ × ℕ)}
    → last ≤ now
    → Tracks window last dq since
    → Tracks window now dq since
later le tr = record {
  last = tr.last;
  past = omega arith;
  in_order = tr.in_order;
  window_of = tr.window_of;
}

stored-Tracks :
    (window now : ℕ) (k key : Text) (dq log : List (ℕ × ℕ)) (ha hb : Dict Text (List (ℕ × ℕ)))
    → Tracks window now dq log
    → Tracks window now (or_else (lookup key ha) []) (or_else (lookup key hb) [])
    → Tracks window now
        (or_else (lookup key (insert k dq ha)) [])
        (or_else (lookup key (insert k log hb)) [])
stored-Tracks window now k key dq log ha hb new old = elim (Bool-cases (k == key)) [
  | inl e ↦ rw (lookup-insert k key dq ha, lookup-insert k key log hb, e) new
  | inr e ↦ rw (lookup-insert k key dq ha, lookup-insert k key log hb, e) old
]

evaluate-Alike :
    (pattern : Text → Bool) (now id : ℕ) (event : Event) (hits logs : Dict Text (List (ℕ × ℕ)))
    (threshold window : ℕ) (from_message : Bool)
    → ((key : Text)
        → Tracks window now (or_else (lookup key hits) []) (or_else (lookup key logs) []))
    → let a : ThresholdRule = record {
      threshold = threshold;
      window_seconds = window;
      key_from_message = from_message;
      hits = hits;
    } in
      let b : ThresholdRule = record a { hits = logs } in
      ((evaluate pattern a now id event).1 ≡ (log_evaluate pattern b now id event).1)
      × Alike now (evaluate pattern a now id event).0 (log_evaluate pattern b now id event).0
unfolding evaluate log_evaluate
evaluate-Alike pattern now id event hits logs threshold window from_message tr =
    let key = rule_key from_message event in
    let (same, next) =
      count_hit-Tracks threshold window now id (or_else (lookup key hits) [])
        (or_else (lookup key logs) []) (tr key) in
    elim (Bool-cases (pattern event.message)) [
      | inl y ↦ rw y (
        ap (λ (o : Option (List ℕ)). bind o (λ ids. some (key, ids))) same,
        record {
          same_threshold = refl;
          same_window = refl;
          same_keys = refl;
          tracks = λ k.
              stored-Tracks window now key k
                (count_hit threshold window now id (or_else (lookup key hits) [])).0
                (log_hit threshold window now id (or_else (lookup key logs) [])).0 hits logs next
                (tr k);
        },
      )
      | inr n ↦ rw n (
        refl,
        record { same_threshold = refl; same_window = refl; same_keys = refl; tracks = tr },
      )
    ]

run_rule-Alike :
    (pattern : Text → Bool) (last : ℕ) (a b : ThresholdRule) (es : List Arrival)
    → Alike last a b
    → Clocked last es
    → run_rule pattern a es ≡ run_log pattern b es
unfolding run_rule run_log
run_rule-Alike pattern last a b [] s c = refl
run_rule-Alike pattern last a b ((now, id, event) ∷ es) s c =
    let step =
      evaluate-Alike pattern now id event a.hits b.hits a.threshold a.window_seconds
        a.key_from_message (λ k. later c.0 (s.tracks k)) in
    let x : ThresholdRule = record a { hits = b.hits } in
    let q : x ≡ b = λ i. record {
      threshold = s.same_threshold i;
      window_seconds = s.same_window i;
      key_from_message = s.same_keys i;
      hits = b.hits;
    } in
    subst
      (λ (r : ThresholdRule).
        (evaluate pattern a now id event).1
          ∷ run_rule pattern (evaluate pattern a now id event).0 es
        ≡ (log_evaluate pattern r now id event).1
          ∷ run_log pattern (log_evaluate pattern r now id event).0 es)
      q
      (ap₂ ◌∷◌ step.0 (
        run_rule-Alike pattern now (evaluate pattern a now id event).0
          (log_evaluate pattern x now id event).0 es step.1 c.1))

-- From a rule that counted nothing yet, over any events whose times do not fall, the rule gives the
-- same alerts, with the same log ids, as the one that never forgets a match.
pub run_rule-eq-run_log :
    (pattern : Text → Bool) (threshold window : ℕ) (from_message : Bool) (es : List Arrival)
    → Clocked 0 es
    → let fresh : ThresholdRule = record {
      threshold = threshold;
      window_seconds = window;
      key_from_message = from_message;
      hits = [];
    } in
      run_rule pattern fresh es ≡ run_log pattern fresh es
run_rule-eq-run_log pattern threshold window from_message es c =
    run_rule-Alike pattern 0 _ _ es
      (record {
        same_threshold = refl;
        same_window = refl;
        same_keys = refl;
        tracks = λ key. record { last = 0; past = omega arith; in_order = tt; window_of = refl };
      })
      c
