-- ===== src/Correlations/Sequence.antt =====
-- correlations.py, `_run_sequence`: a burst of events A, then an event B, for one key.
use mini_siem.Base.{
  ℕ, ◌+◌, ◌-◌, Bool, true, false, not, ◌&&◌, ◌||◌, Option, none, some, List, [], ◌∷◌, ◌++◌, map,
  leb, if◌then◌else◌, nat_eq, string_eq, length, keep, sort_desc, Text, text_eq, Dict,
}
use mini_siem.Correlations.{Row, key_of, group_rows, Column}

-- a row with whether it matches each of the two patterns
pub record Marked : Type 0 where
  pub row : Row
  pub is_a : Bool
  pub is_b : Bool

pub record Burst : Type 0 where
  pub a_count : ℕ
  pub b_time : Option ℕ
  -- `round(ts - window_a[0], 1)`, of whole seconds
  pub gap_seconds : ℕ
  pub log_ids : List ℕ

-- the seconds since the first event A of the window; of none, which only a `min_a` of 0 lets through and
-- where the source raises, it is 0
abbrev pub gap_of : ℕ → List (ℕ × Row) → ℕ
gap_of ts [] = 0
gap_of ts ((t, r) ∷ xs) = ts - t

-- `[(t, x) for t, x in recent_a if t >= ts - max_gap]`
abbrev pub within : ℕ → ℕ → List (ℕ × Row) → List (ℕ × Row)
within max_gap ts = keep (λ (x : ℕ × Row). leb ts (x.0 + max_gap))

abbrev pub a_ids : List (ℕ × Row) → List ℕ
a_ids = map (λ (x : ℕ × Row). x.1.id)

abbrev pub burst_of : ℕ → Row → List (ℕ × Row) → Burst
burst_of ts r window = record {
  a_count = length window;
  b_time = r.received_at;
  gap_seconds = gap_of ts window;
  log_ids = a_ids window ++ r.id ∷ [];
}

-- `recent_a` after the event as an A
abbrev pub note_a : ℕ → ℕ → Marked → List (ℕ × Row) → List (ℕ × Row)
note_a max_gap ts m recent =
    if m.is_a then within max_gap ts (recent ++ (ts, m.row) ∷ []) else recent

abbrev pub is_nil {ℓ} : {A : Type ℓ} → List A → Bool
is_nil [] = true
is_nil (x ∷ xs) = false

-- one event of a key: `recent_a` after it, and the result that it gives
unfoldable pub sequence_step : ℕ → ℕ → ℕ → Marked → List (ℕ × Row) → List (ℕ × Row) × List Burst
sequence_step min_a max_gap ts m recent =
    let recent' = note_a max_gap ts m recent in
    let window = within max_gap ts recent' in
    if m.is_b && not (is_nil recent') && leb min_a (length window)
    then ([], burst_of ts m.row window ∷ [])
    else (recent', [])

abbrev pub sequence_at : ℕ → ℕ → Option ℕ → Marked → List (ℕ × Row) → List (ℕ × Row) × List Burst
sequence_at min_a max_gap none m recent = (recent, [])
sequence_at min_a max_gap (some ts) m recent = sequence_step min_a max_gap ts m recent

-- the loop over the events of a key
unfoldable pub sequence_loop : ℕ → ℕ → List Marked → List (ℕ × Row) → List Burst
sequence_loop min_a max_gap [] recent = []
sequence_loop min_a max_gap (m ∷ ms) recent =
    let (recent', out) = sequence_at min_a max_gap m.row.received_at m recent in
    out ++ sequence_loop min_a max_gap ms recent'

abbrev pub keyed : Text → List Burst → List (Text × Burst)
keyed key = map (λ (b : Burst). (key, b))

unfoldable pub sequence_groups : ℕ → ℕ → Dict Text (List Marked) → List (Text × Burst)
unfolding sequence_loop sequence_step
sequence_groups min_a max_gap [] = []
sequence_groups min_a max_gap ((key, ms) ∷ groups) =
    keyed key (sequence_loop min_a max_gap ms []) ++ sequence_groups min_a max_gap groups

-- `_run_sequence` over the fetched rows
unfoldable pub run_sequence :
    (Text → Option Text)
    → (Text → Bool)
    → (Text → Bool)
    → Column
    → ℕ
    → ℕ
    → List Row
    → List (Text × Burst)
unfolding group_rows sequence_groups key_of
run_sequence extract_user pattern pattern_b group_by min_a max_gap rows =
    sort_desc (λ (b : Text × Burst). b.1.a_count)
      (sequence_groups min_a max_gap (
        group_rows (λ (m : Marked). m.is_a || m.is_b) (λ m. key_of extract_user group_by m.row)
          (map
            (λ (r : Row). record { row = r; is_a = pattern r.message; is_b = pattern_b r.message })
            rows)
          []))
