-- ===== src/ThreatIntel.antt =====
-- threatintel.py: the index of indicators and what of it an event touches. The expressions that find
-- addresses and hashes in a text are parameters. `candidate_ips` is a set in Python, whose order is
-- not known: here it is a list in the order in which it is filled.
pub mod Loops
pub mod Standing
pub mod Matches
mod Tests
use mini_siem.Base.{
  ℕ, ◌+◌, ◌/◌, ap, Bool, true, false, not, ◌&&◌, ◌||◌, none, some, List, [], ◌∷◌, ◌++◌, map,
  if◌then◌else◌, string_eq, nat_eq, ◌==◌, or_else, length, take, Text, codes, text_eq, is_within,
  lower, rstrip, fold_text, Dict, lookup, insert, elem,
}

pub data IocType : Type 0 where
  ip domain url hash unknown : IocType

-- a row of `iocs`
pub record Ioc : Type 0 where
  pub id : ℕ
  pub ioc_type : IocType
  pub value : Text
  pub value_norm : Text
  pub threat : Text
  pub source : Text
  pub severity : Text

pub record Event : Type 0 where
  pub source_ip : Text
  pub hostname : Text
  pub message : Text

pub record Index : Type 0 where
  pub ips : Dict Text Ioc
  pub domains : Dict Text Ioc
  pub urls : Dict Text Ioc
  pub hashes : Dict Text Ioc
  pub count : ℕ

abbrev rstrip_slash : Text → Text
rstrip_slash [] = []
rstrip_slash (c ∷ s) = let rest = rstrip_slash s in if c == b'/' && rest == [] then [] else c ∷ rest

-- `normalize_ioc`
unfoldable pub normalize_ioc : IocType → Text → Text
unfolding fold_text
normalize_ioc url value = rstrip_slash (fold_text value)
normalize_ioc _ value = fold_text value

-- one row of the loop of `_reload`
abbrev pub add_row : IocType → Ioc → Index → Index
add_row ip r i = record i { ips = insert r.value_norm r i.ips }
add_row domain r i = record i { domains = insert r.value_norm r i.domains }
add_row url r i = record i { urls = insert r.value_norm r i.urls }
add_row hash r i = record i { hashes = insert r.value_norm r i.hashes }
add_row unknown r i = i

unfoldable pub add_rows : List Ioc → Index → Index
add_rows [] i = i
add_rows (r ∷ rs) i = add_rows rs (add_row r.ioc_type r i)

-- `_reload`, of the rows that are enabled
unfoldable pub reload : List Ioc → Index
unfolding add_rows
reload rows =
    add_rows rows (record { ips = []; domains = []; urls = []; hashes = []; count = length rows })

-- The first two loops of `check`: the indicators of some keys, none twice. A key of one kind is never
-- one of another, so that each loop has its own part of `seen`.
abbrev pub collect : Dict Text Ioc → List Text → List Text → List Ioc
collect index [] seen = []
collect index (k ∷ ks) seen = elim (lookup k index) [
  | none ↦ collect index ks seen
  | some r ↦ elim (elem k seen) [
    | true ↦ collect index ks seen
    | false ↦ r ∷ collect index ks (k ∷ seen)
  ]
]

-- the last two loops: the indicators whose key passes a test
abbrev pub scan : (Text → Bool) → Dict Text Ioc → List Text → List Ioc
scan hit [] seen = []
scan hit ((k, r) ∷ index) seen = elim (hit k && not (elem k seen)) [
  | true ↦ r ∷ scan hit index (k ∷ seen)
  | false ↦ scan hit index seen
]

abbrev pub if_text : Text → List Text
if_text [] = []
if_text (c ∷ s) = fold_text (c ∷ s) ∷ []

abbrev pub is_text : Text → Bool
is_text [] = false
is_text (c ∷ s) = true

abbrev pub in_message : Event → Text → Bool
in_message e key = is_text key && is_within key (lower e.message)

abbrev pub in_message_or_host : Event → Text → Bool
in_message_or_host e key =
    is_text key && (is_within key (lower e.message) || key == lower e.hostname)

-- what is recorded of a match: a row of `ioc_matches`, and the alert but for its rule name, which is
-- always the same, and its description, which is made of the fields here
pub record Match : Type 0 where
  pub ioc_id : ℕ
  pub ioc_value : Text
  pub threat : Text
  pub log_id : ℕ
  pub message : Text
  pub alert_severity : Text
  pub alert_source_ip : Text

-- `a or b` of texts
abbrev pub or_else_text : Text → Text → Text
or_else_text [] b = b
or_else_text (c ∷ s) b = c ∷ s

-- `_record`
abbrev pub record_match : ℕ → Event → Ioc → Match
record_match log e r = record {
  ioc_id = r.id;
  ioc_value = r.value;
  threat = or_else_text r.threat (or_else_text r.source (codes "IOC hit"));
  log_id = log;
  message = take 500 e.message;
  alert_severity = or_else_text r.severity (codes "warning");
  alert_source_ip = e.source_ip;
}

module _ (find_ips find_hashes : Text → List Text) where
  abbrev pub candidate_ips : Event → List Text
  candidate_ips e = if_text e.source_ip ++ if_text e.hostname ++ map lower (find_ips e.message)

  -- `check`
  unfoldable pub check : Index → Event → List Ioc
  unfolding fold_text lower
  check i e =
      if i.count == 0
      then []
      else collect i.ips (candidate_ips e) []
        ++ collect i.hashes (map lower (find_hashes e.message)) []
        ++ scan (in_message e) i.urls []
        ++ scan (in_message_or_host e) i.domains []

  -- `process`: what it records and the number it returns
  unfoldable pub process : Index → ℕ → Event → List Match × ℕ
  unfolding check
  process i log e = let found = check i e in (map (record_match log e) found, length found)
