-- ===== src/Correlations.antt =====
-- correlations.py: correlations over stored log rows, run on demand. The query that fetches the
-- rows is SQL: `Window` stands for its answer, the rows of a time window in ascending order. A row keeps
-- what the engine reads; times are whole seconds since an epoch, `none` where `_parse_ts` gives
-- `None`; a pattern is the test that it makes of a message, and the user names are found by
-- `extract_user`.
pub mod Threshold
pub mod Sequence
pub mod Groups
pub mod Reports
pub mod Bursts
mod Tests
use mini_siem.Base.{
  ℕ, ◌+◌, ap, Bool, true, ◌&&◌, ◌||◌, Option, none, some, List, [], ◌∷◌, ◌++◌, map, ltb, leb,
  if◌then◌else◌, nat_eq, string_eq, is_some, or_else, take, Text, text_eq, Dict, lookup, insert,
}

pub record Row : Type 0 where
  pub id : ℕ
  pub received_at : Option ℕ
  -- the hour of `received_at` in UTC
  pub hour : ℕ
  pub source_ip : Option Text
  pub hostname : Option Text
  pub destination : Option Text
  pub message : Text
  -- the column that the rows are grouped by, where it is none of these
  pub other_column : Option Text

-- the columns that rows are grouped by
pub data Column : Type 0 where
  source_ip hostname destination user other : Column

-- `row.get(name)` for a column
abbrev pub column : Column → Row → Option Text
column source_ip r = r.source_ip
column hostname r = r.hostname
column destination r = r.destination
column user r = none
column other r = r.other_column

-- `value or None`: the empty text counts as none
abbrev pub non_empty : Option Text → Option Text
non_empty none = none
non_empty (some []) = none
non_empty (some (c ∷ s)) = some (c ∷ s)

module _ (extract_user : Text → Option Text) where
  -- `_key_of`
  pub key_of : Column → Row → Option Text
  key_of user r = extract_user r.message
  key_of source_ip r = non_empty r.source_ip
  key_of hostname r = non_empty r.hostname
  key_of destination r = non_empty r.destination
  key_of other r = non_empty r.other_column

-- `_hour_ok`: no hours is no restriction; a range may wrap around midnight
unfoldable pub hour_ok : Option (ℕ × ℕ) → Row → Bool
hour_ok none r = true
hour_ok (some (start, end)) r =
    is_some r.received_at
    && (if leb start end
        then leb start r.hour && ltb r.hour end
        else leb start r.hour || ltb r.hour end)

-- `groups[key].append(row)` of a defaultdict
abbrev pub append_to {ℓ} : {A : Type ℓ} → Text → A → Dict Text (List A) → Dict Text (List A)
append_to key x groups = insert key (or_else (lookup key groups) [] ++ x ∷ []) groups

abbrev pub append_if {ℓ} : {A : Type ℓ} → Option Text → A → Dict Text (List A) → Dict Text (List A)
append_if none x groups = groups
append_if (some key) x groups = append_to key x groups

-- The loop that groups rows: those that pass the test and have a key, each under its key.
unfoldable pub group_rows {ℓ} :
    {A : Type ℓ} → (A → Bool) → (A → Option Text) → List A → Dict Text (List A) → Dict Text (List A)
group_rows test key [] groups = groups
group_rows test key (r ∷ rows) groups =
    group_rows test key rows (if test r then append_if (key r) r groups else groups)

abbrev pub first_time : List Row → Option ℕ
first_time [] = none
first_time (r ∷ rs) = r.received_at

abbrev pub last_time : List Row → Option ℕ
last_time [] = none
last_time (r ∷ []) = r.received_at
last_time (r ∷ x ∷ rs) = last_time (x ∷ rs)

-- `_sample`: the ids of the first rows (their messages are cut to 300 characters)
unfoldable pub sample : ℕ → List Row → List (ℕ × Text)
sample n rows = map (λ (r : Row). (r.id, take 300 r.message)) (take n rows)
