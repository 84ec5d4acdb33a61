-- ===== src/Rules/Agreement.antt =====
-- rules.py: the replay of a threshold rule fires as often as the live rule does over the same rows,
-- with `received_at` for a clock.
use mathlib.Core.Path.{subst}
use native.Mathlib.Nat.{zero-add}
use mini_siem.Base.{
  ℕ, suc, ◌+◌, ◌≡◌, refl, ap, true, Option, none, some, List, [], ◌∷◌, ◌++◌, map, arith, nat_eq,
  string_eq, or_else, length, Text, text_eq, Dict, lookup, insert, inl, inr, Bool, leb, ◌==◌,
  Bool-cases, lookup-insert, sym, ◌∙◌,
}
use mini_siem.Rules.{prune, ThresholdRule, rule_key, count_hit, evaluate, Event}
use mini_siem.Rules.Replay.{
  Row, prune_times, total_fires, Stat, Spec, replay_hit, replay, count_stat, replay_row,
  replay_rows, configured, new_spec,
}
use mini_siem.Rules.Alerts.{Arrival, run_rule}

abbrev pub arrive : Option ℕ → Event → List Arrival → List Arrival
arrive none event es = es
arrive (some ts) event es = (ts, 0, event) ∷ es

-- The rows as the live rule would have seen them: those without a timestamp did not come.
abbrev pub arrivals : List Row → List Arrival
arrivals [] = []
arrivals (row ∷ rows) = arrive row.time row.event (arrivals rows)

abbrev pub count_some {ℓ} : {A : Type ℓ} → List (Option A) → ℕ
count_some [] = 0
count_some (none ∷ xs) = count_some xs
count_some (some x ∷ xs) = count_some xs + 1

times : List (ℕ × ℕ) → List ℕ
times = map (λ h. h.0)

prune_times-prune :
    (window now : ℕ) (dq : List (ℕ × ℕ))
    → prune_times window now (times dq) ≡ times (prune window now dq)
unfolding prune_times prune times
prune_times-prune window now [] = refl
prune_times-prune window now ((t, i) ∷ dq) = ground (arith, prune_times-prune window now dq)

times-snoc : (now id : ℕ) (dq : List (ℕ × ℕ)) → times (dq ++ (now, id) ∷ []) ≡ times dq ++ now ∷ []
unfolding times
times-snoc now id [] = refl
times-snoc now id (h ∷ dq) = ap (λ (xs : List ℕ). h.0 ∷ xs) (times-snoc now id dq)

length-times : (dq : List (ℕ × ℕ)) → length (times dq) ≡ length dq
unfolding times
length-times [] = refl
length-times (h ∷ dq) = ap suc (length-times dq)

-- a fire more or not
abbrev fired {ℓ} : {A : Type ℓ} → Option A → ℕ
fired none = 0
fired (some _) = 1

fires-insert :
    (key : Text) (stat : Stat) (d : Dict Text Stat)
    → total_fires (insert key stat d)
        + (or_else (lookup key d) (record { matches = 0; peak = 0; fires = 0; last_at = 0 })).fires
      ≡ total_fires d + stat.fires
unfolding total_fires
fires-insert key stat [] = omega arith
fires-insert key stat ((k, s) ∷ d) = ground (arith, fires-insert key stat d)

abbrev SameHits : Dict Text (List (ℕ × ℕ)) → Dict Text (List ℕ) → Type 0
SameHits hits spec_hits =
    (key : Text) → times (or_else (lookup key hits) []) ≡ or_else (lookup key spec_hits) []

module _ (window now id : ℕ) (hits : Dict Text (List (ℕ × ℕ)))
    (spec_hits : Dict Text (List ℕ)) where
  pruned_times :
      (key : Text)
      → SameHits hits spec_hits
      → prune_times window now (or_else (lookup key spec_hits) [] ++ now ∷ [])
        ≡ times (prune window now (or_else (lookup key hits) [] ++ (now, id) ∷ []))
  pruned_times key h =
      rw (← h key, ← times-snoc now id (or_else (lookup key hits) []))
        (prune_times-prune window now (or_else (lookup key hits) [] ++ (now, id) ∷ []))

SameHits-insert :
    (k : Text) (dq : List (ℕ × ℕ)) (hits : Dict Text (List (ℕ × ℕ)))
    (spec_hits : Dict Text (List ℕ))
    → SameHits hits spec_hits
    → SameHits (insert k dq hits) (insert k (times dq) spec_hits)
SameHits-insert k dq hits spec_hits h key = elim (Bool-cases (k == key)) [
  | inl e ↦ rw (lookup-insert k key dq hits, lookup-insert k key (times dq) spec_hits, e) refl
  | inr e ↦ rw (lookup-insert k key dq hits, lookup-insert k key (times dq) spec_hits, e) (h key)
]

-- The replay's deques are the times of the live rule's.
record Same (rule : ThresholdRule) (spec : Spec) : Type 0 where
  threshold_eq : rule.threshold ≡ spec.threshold
  window_eq : rule.window_seconds ≡ spec.window
  keys_eq : rule.key_from_message ≡ true
  hits_eq : SameHits rule.hits spec.hits

hit-Same :
    (pattern : Text → Bool) (event : Event) (threshold window now id : ℕ)
    (hits : Dict Text (List (ℕ × ℕ))) (spec_hits : Dict Text (List ℕ)) (stats : Dict Text Stat)
    → SameHits hits spec_hits
    → let rule : ThresholdRule = record {
      threshold = threshold;
      window_seconds = window;
      key_from_message = true;
      hits = hits;
    } in
      let spec : Spec = record {
        threshold = threshold;
        window = window;
        hits = spec_hits;
        keys = stats;
      } in
      Same (evaluate pattern rule now id event).0 (replay_hit pattern event now spec)
      × (total_fires (replay_hit pattern event now spec).keys
          ≡ total_fires stats + fired (evaluate pattern rule now id event).1)
unfolding evaluate replay_hit count_hit times
hit-Same pattern event threshold window now id hits spec_hits stats h =
    let key = rule_key true event in
    let dq = prune window now (or_else (lookup key hits) [] ++ (now, id) ∷ []) in
    let old =
      or_else (lookup key stats) (record { matches = 0; peak = 0; fires = 0; last_at = 0 }) in
    rw (pruned_times window now id hits spec_hits key h, length-times dq)
      (elim (Bool-cases (pattern event.message)) [
        | inr n ↦ rw n (
          record { threshold_eq = refl; window_eq = refl; keys_eq = refl; hits_eq = h },
          omega arith,
        )
        | inl y ↦ rw y (elim (Bool-cases (leb threshold (length dq))) [
          | inl f ↦ rw f (
            record {
              threshold_eq = refl;
              window_eq = refl;
              keys_eq = refl;
              hits_eq = SameHits-insert key [] hits spec_hits h;
            },
            ground (arith, f, fires-insert key (count_stat threshold (length dq) now old) stats),
          )
          | inr q ↦ rw q (
            record {
              threshold_eq = refl;
              window_eq = refl;
              keys_eq = refl;
              hits_eq = SameHits-insert key dq hits spec_hits h;
            },
            ground (arith, q, fires-insert key (count_stat threshold (length dq) now old) stats),
          )
        ])
      ])

count_some-cons {ℓ} :
    {A : Type ℓ} (x : Option A) (xs : List (Option A))
    → count_some (x ∷ xs) ≡ fired x + count_some xs
count_some-cons none xs = omega arith
count_some-cons (some a) xs = omega arith

step-Same :
    (pattern : Text → Bool) (event : Event) (now id : ℕ) (rule : ThresholdRule) (spec : Spec)
    → Same rule spec
    → Same (evaluate pattern rule now id event).0 (replay_hit pattern event now spec)
      × (total_fires (replay_hit pattern event now spec).keys
          ≡ total_fires spec.keys + fired (evaluate pattern rule now id event).1)
step-Same pattern event now id rule spec s =
    let x : ThresholdRule = record {
      threshold = spec.threshold;
      window_seconds = spec.window;
      key_from_message = true;
      hits = rule.hits;
    } in
    let q : x ≡ rule = λ i. record {
      threshold = sym s.threshold_eq i;
      window_seconds = sym s.window_eq i;
      key_from_message = sym s.keys_eq i;
      hits = rule.hits;
    } in
    subst
      (λ (r : ThresholdRule).
        Same (evaluate pattern r now id event).0 (replay_hit pattern event now spec)
        × (total_fires (replay_hit pattern event now spec).keys
            ≡ total_fires spec.keys + fired (evaluate pattern r now id event).1))
      q
      (hit-Same pattern event spec.threshold spec.window now id rule.hits spec.hits spec.keys
        s.hits_eq)

run-Same :
    (pattern : Text → Bool) (rows : List Row) (rule : ThresholdRule) (spec : Spec)
    → Same rule spec
    → total_fires (replay_rows pattern rows spec).keys
      ≡ total_fires spec.keys + count_some (run_rule pattern rule (arrivals rows))
unfolding replay_rows run_rule
run-Same pattern [] rule spec s = omega arith
run-Same pattern (row ∷ rows) rule spec s = at_time row.time (run-Same pattern rows)
  where
    at_time :
        (time : Option ℕ)
        → ((r : ThresholdRule) (sp : Spec)
            → Same r sp
            → total_fires (replay_rows pattern rows sp).keys
              ≡ total_fires sp.keys + count_some (run_rule pattern r (arrivals rows)))
        → total_fires (replay_rows pattern rows (replay_row pattern row.event time spec)).keys
          ≡ total_fires spec.keys
            + count_some (run_rule pattern rule (arrive time row.event (arrivals rows)))
    at_time none ih = ih rule spec s
    at_time (some ts) ih =
        let (same, more) = step-Same pattern row.event ts 0 rule spec s in
        let next = (evaluate pattern rule ts 0 row.event).0 in
        omega (
          arith,
          more,
          ih next (replay_hit pattern row.event ts spec) same,
          count_some-cons (evaluate pattern rule ts 0 row.event).1
              (run_rule pattern next (arrivals rows)),
        )

-- The fires that the replay reports for a rule are as many as the alerts that the live rule, with
-- the same configuration and nothing counted yet, raises over the rows that have a timestamp.
pub replay_lem :
    (pattern : Text → Bool) (threshold window : Option ℕ) (rows : List Row)
    → let live : ThresholdRule = record {
      threshold = configured threshold 1;
      window_seconds = configured window 60;
      key_from_message = true;
      hits = [];
    } in
      (replay pattern threshold window rows).0 ≡ count_some (run_rule pattern live (arrivals rows))
unfolding replay new_spec total_fires times
replay_lem pattern threshold window rows =
    let live : ThresholdRule = record {
      threshold = configured threshold 1;
      window_seconds = configured window 60;
      key_from_message = true;
      hits = [];
    } in
    run-Same pattern rows live (new_spec threshold window)
      (record { threshold_eq = refl; window_eq = refl; keys_eq = refl; hits_eq = λ key. refl })
    ∙ zero-add (count_some (run_rule pattern live (arrivals rows)))
