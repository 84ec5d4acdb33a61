-- ===== src/Correlations/Threshold.antt =====
-- correlations.py, `_run_threshold`, `_run_fanout`, `_run_first_seen`.
use mini_siem.Base.{
  ℕ, Bool, true, ◌&&◌, Option, none, some, List, [], ◌∷◌, ◌++◌, map, leb, if◌then◌else◌, nat_eq,
  string_eq, length, sort_desc, Text, text_eq, Dict, elem,
}
use mini_siem.Correlations.{Row, key_of, hour_ok, group_rows, first_time, last_time, sample, Column}

pub record Group : Type 0 where
  pub key : Text
  pub count : ℕ
  pub first : Option ℕ
  pub last : Option ℕ
  pub log_ids : List ℕ
  pub sampled : List (ℕ × Text)

abbrev pub ids : List Row → List ℕ
ids = map (λ (r : Row). r.id)

abbrev pub group_of : Text → List Row → Group
group_of key rows = record {
  key = key;
  count = length rows;
  first = first_time rows;
  last = last_time rows;
  log_ids = ids rows;
  sampled = sample 3 rows;
}

-- the groups that are large enough, in the order of the dictionary
unfoldable pub large : ℕ → Dict Text (List Row) → List Group
unfolding sample
large threshold [] = []
large threshold ((key, rows) ∷ groups) =
    let rest = large threshold groups in
    if leb threshold (length rows) then group_of key rows ∷ rest else rest

module _ (extract_user : Text → Option Text) (pattern : Text → Bool) where
  -- `_run_threshold` over the fetched rows
  unfoldable pub run_threshold : Column → Option (ℕ × ℕ) → ℕ → List Row → List Group
  unfolding group_rows large hour_ok key_of
  run_threshold group_by hours threshold rows =
      sort_desc (λ (g : Group). g.count)
        (large threshold (
          group_rows (λ r. pattern r.message && hour_ok hours r) (key_of extract_user group_by) rows
            []))

-- the set of values as a list without repetition, in the order that they come
abbrev pub add_value : Text → List Text → List Text
add_value v vs = if elem v vs then vs else vs ++ v ∷ []

unfoldable pub values : List (Text × Row) → List Text → List Text
values [] vs = vs
values ((v, r) ∷ xs) vs = values xs (add_value v vs)

pub record Spread : Type 0 where
  pub key : Text
  pub distinct_count : ℕ
  pub count : ℕ
  pub first : Option ℕ
  pub last : Option ℕ
  pub log_ids : List ℕ

abbrev pub rows_in : List (Text × Row) → List Row
rows_in = map (λ (x : Text × Row). x.1)

abbrev pub spread_of : Text → List (Text × Row) → Spread
spread_of key xs = record {
  key = key;
  distinct_count = length (values xs []);
  count = length xs;
  first = first_time (rows_in xs);
  last = last_time (rows_in xs);
  log_ids = ids (rows_in xs);
}

unfoldable pub spread_out : ℕ → Dict Text (List (Text × Row)) → List Spread
unfolding values
spread_out threshold [] = []
spread_out threshold ((key, xs) ∷ groups) =
    let rest = spread_out threshold groups in
    if leb threshold (length (values xs [])) then spread_of key xs ∷ rest else rest

abbrev pub with_value : Option Text → Row → List (Text × Row) → List (Text × Row)
with_value none r rest = rest
with_value (some v) r rest = (v, r) ∷ rest

module _ (extract_user : Text → Option Text) (pattern : Text → Bool) where
  -- the rows that match and have a value, each with it
  unfoldable pub valued : Column → List Row → List (Text × Row)
  unfolding key_of
  valued field [] = []
  valued field (r ∷ rows) =
      let rest = valued field rows in
      if pattern r.message then with_value (key_of extract_user field r) r rest else rest

  -- `_run_fanout` over the fetched rows
  unfoldable pub run_fanout : Column → Column → ℕ → List Row → List Spread
  unfolding group_rows spread_out valued
  run_fanout group_by field threshold rows =
      sort_desc (λ (g : Spread). g.distinct_count)
        (spread_out threshold
          (group_rows (λ x. true) (λ x. key_of extract_user group_by x.1) (valued field rows) []))

  -- `baseline_keys`
  unfoldable pub keys_of : Column → List Row → List Text
  unfolding key_of
  keys_of group_by [] = []
  keys_of group_by (r ∷ rows) =
      let rest = keys_of group_by rows in
      elim (key_of extract_user group_by r) [ none ↦ rest | some k ↦ k ∷ rest ]

  abbrev pub unless_known : List Text → Option Text → Option Text
  unless_known known none = none
  unless_known known (some k) = if elem k known then none else some k

  -- `_run_first_seen` over the rows of the baseline and those of the window
  unfoldable pub run_first_seen : Column → List Row → List Row → List Group
  unfolding group_rows large keys_of
  run_first_seen group_by baseline rows =
      let known = keys_of group_by baseline in
      sort_desc (λ (g : Group). g.count)
        (large 0 (
          group_rows (λ r. pattern r.message)
            (λ r. unless_known known (key_of extract_user group_by r)) rows []))
