-- ===== src/Rules/Replay.antt =====
-- rules.py, `replay_threshold_rules`: a threshold rule replayed over stored rows, oldest first. A
-- row keeps its timestamp as parsed, `none` where `fromisoformat` raises; the loop over the
-- rules works on separate state for each, so one rule is modelled.
use mini_siem.Base.{
  ℕ, zero, suc, ◌+◌, max, Bool, true, Option, none, some, List, [], ◌∷◌, ◌++◌, ltb, leb,
  if◌then◌else◌, nat_eq, string_eq, or_else, length, Text, text_eq, Dict, lookup, insert,
}
use mini_siem.Rules.{Event, rule_key}

pub record Row : Type 0 where
  pub event : Event
  pub time : Option ℕ

-- the entry of `spec["keys"]` of a key
pub record Stat : Type 0 where
  pub matches : ℕ
  pub peak : ℕ
  pub fires : ℕ
  pub last_at : ℕ

-- `spec`, with `int(cfg.get("threshold") or 1)` and the window resolved
pub record Spec : Type 0 where
  pub threshold : ℕ
  pub window : ℕ
  pub hits : Dict Text (List ℕ)
  pub keys : Dict Text Stat

-- `int(cfg.get(name) or default)`: an absent entry and 0 give the default
abbrev pub configured : Option ℕ → ℕ → ℕ
configured none default = default
configured (some zero) default = default
configured (some (suc n)) default = suc n

unfoldable pub new_spec : Option ℕ → Option ℕ → Spec
new_spec threshold window = record {
  threshold = configured threshold 1;
  window = configured window 60;
  hits = [];
  keys = [];
}

-- `while dq and dq[0] < ts - window: dq.popleft()`
unfoldable pub prune_times : ℕ → ℕ → List ℕ → List ℕ
prune_times window ts [] = []
prune_times window ts (t ∷ dq) =
    let rest = prune_times window ts dq in if ltb (t + window) ts then rest else t ∷ dq

abbrev no_stat : Stat
no_stat = record { matches = 0; peak = 0; fires = 0; last_at = 0 }

-- the statistics after one more match, the deque being `n` long
abbrev pub count_stat : ℕ → ℕ → ℕ → Stat → Stat
count_stat threshold n ts stat = record {
  matches = stat.matches + 1;
  peak = max stat.peak n;
  fires = if leb threshold n then stat.fires + 1 else stat.fires;
  last_at = ts;
}

-- the body of the loop over the rules, for one row and one rule
unfoldable pub replay_hit : (Text → Bool) → Event → ℕ → Spec → Spec
unfolding prune_times rule_key
replay_hit pattern event ts spec =
    let key = rule_key true event in
    let dq = prune_times spec.window ts (or_else (lookup key spec.hits) [] ++ ts ∷ []) in
    let stat = count_stat spec.threshold (length dq) ts (or_else (lookup key spec.keys) no_stat) in
    if pattern event.message
    then record spec {
      hits = insert key (if leb spec.threshold (length dq) then [] else dq) spec.hits;
      keys = insert key stat spec.keys;
    }
    else spec

abbrev pub replay_row : (Text → Bool) → Event → Option ℕ → Spec → Spec
replay_row pattern event none spec = spec
replay_row pattern event (some ts) spec = replay_hit pattern event ts spec

unfoldable pub replay_rows : (Text → Bool) → List Row → Spec → Spec
replay_rows pattern [] spec = spec
replay_rows pattern (row ∷ rows) spec =
    replay_rows pattern rows (replay_row pattern row.event row.time spec)

-- `sum(k["fires"] for k in keys)`
unfoldable pub total_fires : Dict Text Stat → ℕ
total_fires [] = 0
total_fires ((k, s) ∷ d) = s.fires + total_fires d

-- `replay_threshold_rules` for one rule: the fires and the sources of its report
unfoldable pub replay : (Text → Bool) → Option ℕ → Option ℕ → List Row → ℕ × ℕ
unfolding replay_rows replay_hit new_spec total_fires
replay pattern threshold window rows =
    let spec = replay_rows pattern rows (new_spec threshold window) in
    (total_fires spec.keys, length spec.keys)
