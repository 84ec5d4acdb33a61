-- ===== src/Listener/Cef.antt =====
-- listener.py: the reading of CEF messages. Python's regular expressions are parameters: the class
-- `\d` and the keys of an extension; so is `int`.
pub mod Header
pub mod Events
pub mod Evidence
mod Tests
use mini_siem.Base.{
  ℕ, zero, suc, ◌+◌, ◌-◌, ◌<◌, min, ap, Bool, true, false, not, ◌&&◌, ◌||◌, Option, none, some,
  List, [], ◌∷◌, ◌++◌, map, ltb, leb, if◌then◌else◌, string_eq, nat_eq, ◌==◌, length, take, drop,
  all_of, Text, codes, text_eq, lower, lstrip, rstrip, Dict, insert, elem, starts_with,
}

-- `nxt` of `_cef_unescape`, decoded
abbrev pub mapped : ℕ → Option ℕ
mapped c =
    if c == b'n'
    then some b'\n'
    else if c == b'r'
    then some b'\r'
    else if c == b'\\' || c == b'=' || c == b'|'
    then some c
    else none

-- `_cef_unescape`
unfoldable pub cef_unescape : Text → Text
cef_unescape [] = []
cef_unescape (c ∷ []) = c ∷ []
cef_unescape (c ∷ d ∷ s) =
    let behind = cef_unescape s in
    let next = cef_unescape (d ∷ s) in
    if c == b'\\' then elim (mapped d) [ none ↦ c ∷ next | some m ↦ m ∷ behind ] else c ∷ next

-- `text[text.find("CEF:"):]`, `none` where it is not found
unfoldable pub find_cef : Text → Option Text
find_cef [] = none
find_cef (c ∷ s) =
    let later = find_cef s in if starts_with (codes "CEF:") (c ∷ s) then some (c ∷ s) else later

-- the loop of `_split_cef_payload`, from `fields`, `buf` and `escaped` on
unfoldable pub cut : List Text → Text → Bool → Text → List Text
cut fields buf true [] = fields ++ (buf ++ b'\\' ∷ []) ∷ []
cut fields buf false [] = fields ++ buf ∷ []
cut fields buf true (c ∷ s) = cut fields (buf ++ b'\\' ∷ c ∷ []) false s
cut fields buf false (c ∷ s) = elim (c == b'\\') [
  | true ↦ cut fields buf true s
  | false ↦ elim (c == b'|' && ltb (length fields) 7) [
    | true ↦ cut (fields ++ buf ∷ []) [] false s
    | false ↦ cut fields (buf ++ c ∷ []) false s
  ]
]

-- what `int` reads
pub data Number : Type 0 where
  minus plus : ℕ → Number

-- `_parse_cef_extension` from a match on; a match is its key, where it starts and where it ends
unfoldable pub extension_fields : Text → List (Text × ℕ × ℕ) → Dict Text Text → Dict Text Text
unfolding cef_unescape rstrip
extension_fields extension [] fields = fields
extension_fields extension ((key, start, end) ∷ []) fields =
    insert key (cef_unescape (rstrip (drop end extension))) fields
extension_fields extension ((key, start, end) ∷ (next, value_end, behind) ∷ matches) fields =
    extension_fields extension ((next, value_end, behind) ∷ matches)
      (insert key (cef_unescape (rstrip (take (value_end - end) (drop end extension)))) fields)

-- `_normalize_cef_severity` of a score, and of a word
abbrev pub score_severity : Number → Text
score_severity (minus n) = codes "informational"
score_severity (plus n) =
    if leb 9 n
    then codes "critical"
    else if leb 7 n
    then codes "error"
    else if leb 4 n
    then codes "warning"
    else codes "informational"

abbrev pub word_severity : Text → Text
word_severity w =
    if elem w (codes "very-high" ∷ codes "very high" ∷ codes "critical" ∷ codes "fatal" ∷ [])
    then codes "critical"
    else if elem w (codes "high" ∷ codes "error" ∷ [])
    then codes "error"
    else if elem w (codes "medium" ∷ codes "moderate" ∷ codes "warning" ∷ codes "warn" ∷ [])
    then codes "warning"
    else codes "informational"

-- the characters of `"\ufeff \t"`
abbrev pub is_mark : ℕ → Bool
is_mark c = c == 65279 || c == b' ' || c == 9

abbrev pub drop_marks : Text → Text
drop_marks [] = []
drop_marks (c ∷ s) = let rest = drop_marks s in if is_mark c then rest else c ∷ s

-- the first of some texts, no text where there is none
abbrev pub first_text : List Text → Text
first_text [] = []
first_text (x ∷ xs) = x

-- `_parse_cef_extension`
abbrev pub parse_cef_extension : (Text → List (Text × ℕ × ℕ)) → Text → Dict Text Text
parse_cef_extension finditer extension = extension_fields extension (finditer extension) []

-- `_normalize_cef_severity`
unfoldable pub normalize_cef_severity : (Text → Option Number) → Text → Text
unfolding lower lstrip rstrip
normalize_cef_severity int value =
    let text = rstrip (lstrip value) in
    elim (int text) [ none ↦ word_severity (lower text) | some n ↦ score_severity n ]

module _ (is_decimal : ℕ → Bool) where
  -- `re.fullmatch(r"CEF:\d+", s)`
  abbrev pub is_version : Text → Bool
  is_version s = starts_with (codes "CEF:") s && ltb 4 (length s) && all_of is_decimal (drop 4 s)

  -- `_split_cef_payload` behind its loop
  abbrev pub header_of : List Text → Option (List Text × Text)
  header_of fields =
      if ltb (length fields) 7 || not (is_version (rstrip (lstrip (first_text fields))))
      then none
      else some (map cef_unescape (take 7 fields), first_text (drop 7 fields))

  -- `_split_cef_payload`
  unfoldable pub split_cef_payload : Text → Option (List Text × Text)
  unfolding find_cef cut cef_unescape lstrip rstrip
  split_cef_payload text = elim (find_cef text) [
    | none ↦ none
    | some payload ↦ header_of (cut [] [] false payload)
  ]

  -- the payload of `^<\d{1,3}>(.*)$`, behind the sign; `n` digits may still come
  abbrev pub behind_pri : ℕ → Text → Option Text
  behind_pri n [] = none
  behind_pri zero (c ∷ s) = if c == b'>' then some s else none
  behind_pri (suc n) (c ∷ s) =
      let rest = behind_pri n s in if is_decimal c then rest else if c == b'>' then some s else none

  abbrev pub pri_only : Text → Option Text
  pri_only (b ∷ c ∷ s) = if b == b'<' && is_decimal c then behind_pri 2 s else none
  pri_only _ = none

  abbrev pub if_cef : Text → Option Text
  if_cef s = if starts_with (codes "CEF:") s then some s else none

  -- `_cef_payload_at_start`
  unfoldable pub cef_payload_at_start : Text → Option Text
  cef_payload_at_start text =
      let candidate = drop_marks text in
      if starts_with (codes "CEF:") candidate
      then some candidate
      else elim (pri_only candidate) [ none ↦ none | some payload ↦ if_cef (drop_marks payload) ]
