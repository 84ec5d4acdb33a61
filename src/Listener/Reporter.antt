-- ===== src/Listener/Reporter.antt =====
-- listener.py, `ListenerRuntimeReporter`: the counters of the listener and of its peers, and the state
-- that it reports. Times are numbers, later ones larger; an error is given by its name.
pub mod Peers
mod Tests
use mini_siem.Base.{
  ℕ, suc, ◌+◌, Bool, Option, none, some, List, [], ◌∷◌, ◌++◌, ltb, leb, if◌then◌else◌, string_eq,
  nat_eq, or_else, length, take, drop, any_of, all_of, Text, codes, text_eq, Dict, lookup, insert,
  erase,
}

-- the counters of one peer
pub record Peer : Type 0 where
  pub counts : Dict Text ℕ
  pub last_seen : ℕ

pub record Reporter : Type 0 where
  pub processed_events : ℕ
  pub failed_events : ℕ
  pub last_event_at : Option ℕ
  pub detail : Text
  pub sources : Dict Text Peer

-- `ListenerRuntimeReporter.__init__`
abbrev pub new_reporter : Reporter
new_reporter = record {
  processed_events = 0;
  failed_events = 0;
  last_event_at = none;
  detail = codes "starting";
  sources = [];
}

-- a stable sort of the keys, the oldest first
abbrev pub insert_old : Text × ℕ → List (Text × ℕ) → List (Text × ℕ)
insert_old x [] = x ∷ []
insert_old x (y ∷ ys) = if leb x.1 y.1 then x ∷ y ∷ ys else y ∷ insert_old x ys

abbrev pub sort_old : List (Text × ℕ) → List (Text × ℕ)
sort_old [] = []
sort_old (x ∷ xs) = insert_old x (sort_old xs)

abbrev pub seen_at : Dict Text Peer → List (Text × ℕ)
seen_at [] = []
seen_at ((k, p) ∷ d) = (k, p.last_seen) ∷ seen_at d

-- `self._sources.pop(key, None)` for each key
abbrev pub pop_all : List (Text × ℕ) → Dict Text Peer → Dict Text Peer
pop_all [] d = d
pop_all (x ∷ xs) d = pop_all xs (erase x.0 d)

-- the 16 oldest go when there are more than 64
abbrev pub evict : Dict Text Peer → Dict Text Peer
evict d = if ltb 64 (length d) then pop_all (take 16 (sort_old (seen_at d))) d else d

abbrev pub new_peer : ℕ → Peer
new_peer now = record { counts = (codes "accepted", 0) ∷ (codes "failed", 0) ∷ []; last_seen = now }

abbrev pub counted : ℕ → Text → Peer → Peer
counted now field p = record {
  counts = insert field (suc (or_else (lookup field p.counts) 0)) p.counts;
  last_seen = now;
}

-- `_record_source`; an empty address is none
unfoldable pub record_source : ℕ → Text → Text → Dict Text Peer → Dict Text Peer
record_source now field [] d = d
record_source now field (c ∷ s) d =
    evict (insert (c ∷ s) (counted now field (or_else (lookup (c ∷ s) d) (new_peer now))) d)

-- `record_success`, `record_drop` and `record_failure`
abbrev pub record_success : ℕ → Option ℕ → Text → Reporter → Reporter
record_success now event_at source r = record r {
  processed_events = suc r.processed_events;
  last_event_at = some (or_else event_at now);
  detail = [];
  sources = record_source now (codes "accepted") source r.sources;
}

abbrev pub record_drop : ℕ → Text → Reporter → Reporter
record_drop now source r = record r {
  sources = record_source now (codes "dropped") source r.sources;
}

abbrev pub record_failure : ℕ → Option Text → Text → Reporter → Reporter
record_failure now error source r = record r {
  failed_events = suc r.failed_events;
  detail = elim error [ none ↦ r.detail | some e ↦ codes "last ingest error: " ++ e ];
  sources = record_source now (codes "failed") source r.sources;
}

-- what is recorded
pub data Recorded : Type 0 where
  success : Option ℕ → Recorded
  drop_one : Recorded
  failure : Option Text → Recorded

abbrev pub record_one : ℕ → Text → Recorded → Reporter → Reporter
record_one now source (success event_at) r = record_success now event_at source r
record_one now source drop_one r = record_drop now source r
record_one now source (failure error) r = record_failure now error source r

unfoldable pub record_all : List (ℕ × Text × Recorded) → Reporter → Reporter
unfolding record_source
record_all [] r = r
record_all ((now, source, x) ∷ xs) r = record_all xs (record_one now source x r)

-- the states of `snapshot`
pub data Health : Type 0 where
  starting ready degraded failed running : Health

abbrev pub listener_state : List Bool → Health
listener_state [] = starting
listener_state (x ∷ xs) =
    if all_of (λ b. b) (x ∷ xs)
    then ready
    else if any_of (λ b. b) (x ∷ xs)
    then degraded
    else failed

-- the workers and those of them alive, of the pipeline where there is one
abbrev pub with_workers : Option (ℕ × ℕ) → Health → Health
with_workers none h = h
with_workers (some (workers, alive)) running = if ltb alive workers then degraded else running
with_workers (some (workers, alive)) h = h

abbrev pub ingest_state : List Bool → Option (ℕ × ℕ) → Health
ingest_state alive pipeline =
    with_workers pipeline (elim (listener_state alive) [ ready ↦ running | h ↦ h ])
