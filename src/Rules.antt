-- ===== src/Rules.antt =====
-- rules.py: the rules that look at each event as it comes. An event keeps the fields that the rules
-- read. Times are whole units of one clock; a rule's regular expression is the test that it makes
-- of a message.
pub mod Window
pub mod Alerts
pub mod Replay
pub mod Agreement
pub mod Triggers
pub mod Engine
pub mod EngineLaws
pub mod Reloads
mod Tests
use mini_siem.Base.{
  ℕ, zero, suc, ◌+◌, ap, Bool, true, not, ◌&&◌, ◌||◌, Option, none, some, List, [], ◌∷◌, ◌++◌, map,
  ltb, leb, if◌then◌else◌, ◌==◌, nat_eq, string_eq, is_some, or_else, length, Text, codes, text_eq,
  Dict, lookup, insert,
}

-- a value under a key of the parsed JSON
pub data Scalar : Type 0 where
  null : Scalar
  text : Text → Scalar
  number : ℕ → Scalar

-- the keys of the JSON object that `_is_nxlog_windows_event` reads
pub record Json : Type 0 where
  pub event_id_1 : Scalar
  pub event_id_2 : Scalar
  pub event_id_3 : Scalar
  pub channel : Scalar

pub record Event : Type 0 where
  pub message : Text
  pub source_ip : Option Text
  pub severity : Option Text
  pub format : Text
  pub json : Option Json

abbrev pub is_digit : ℕ → Bool
is_digit c = leb b'0' c && leb c b'9'

-- The digits that a text begins with, and the rest.
unfoldable pub digits : Text → Text × Text
digits [] = ([], [])
digits (c ∷ s) = let (d, r) = digits s in if is_digit c then (c ∷ d, r) else ([], c ∷ s)

-- `\d{1,3}` where what follows is no digit
unfoldable pub octet : Text → Option (Text × Text)
unfolding digits
octet s =
    let (d, r) = digits s in if leb 1 (length d) && leb (length d) 3 then some (d, r) else none

abbrev pub after_dot : Text → Option Text
after_dot [] = none
after_dot (c ∷ s) = if c == b'.' then some s else none

abbrev pub bind {ℓ κ} : {A : Type ℓ} {B : Type κ} → Option A → (A → Option B) → Option B
bind none f = none
bind (some a) f = f a

-- `\w` on ASCII
abbrev pub is_word : ℕ → Bool
is_word c = (leb b'a' c && leb c b'z') || (leb b'A' c && leb c b'Z') || is_digit c || c == 95

-- `\b` behind a digit
abbrev pub ends_word : Text → Bool
ends_word [] = true
ends_word (c ∷ s) = not (is_word c)

-- `\d{1,3}(?:\.\d{1,3}){n}\b` at the beginning of a text. A run of digits is followed by a dot or
-- by the end of the word, so each group takes its whole run.
unfoldable pub dotted : ℕ → Text → Option Text
unfolding octet
dotted zero s = bind (octet s) (λ p. if ends_word p.1 then some p.0 else none)
dotted (suc n) s =
    bind (octet s)
      (λ p. bind (after_dot p.1) (λ rest. bind (dotted n rest) (λ tail. some (p.0 ++ b'.' ∷ tail))))

-- `IP_RE.search`: the first place with `\b` in front where the pattern matches
unfoldable pub search_ip : Bool → Text → Option Text
unfolding dotted
search_ip boundary [] = none
search_ip boundary (c ∷ s) =
    let rest = search_ip (not (is_word c)) s in
    if boundary && is_some (dotted 3 (c ∷ s)) then dotted 3 (c ∷ s) else rest

unfoldable pub extract_ip : Text → Option Text
unfolding search_ip
extract_ip = search_ip true

-- `a or b or "unknown"` on the two addresses
abbrev pub address : Option Text → Text
address none = codes "unknown"
address (some []) = codes "unknown"
address (some (c ∷ s)) = c ∷ s

-- a threshold rule with its `_hits`
pub record ThresholdRule : Type 0 where
  pub threshold : ℕ
  pub window_seconds : ℕ
  pub key_from_message : Bool
  pub hits : Dict Text (List (ℕ × ℕ))

abbrev pub or_address : Option Text → Option Text → Text
or_address none source = address source
or_address (some k) source = k

unfoldable pub rule_key : Bool → Event → Text
unfolding extract_ip
rule_key from_message event =
    or_address (if from_message then extract_ip event.message else none) event.source_ip

-- `while dq and dq[0][0] < now - window: dq.popleft()`
unfoldable pub prune : ℕ → ℕ → List (ℕ × ℕ) → List (ℕ × ℕ)
prune window now [] = []
prune window now ((t, i) ∷ dq) =
    let rest = prune window now dq in if ltb (t + window) now then rest else (t, i) ∷ dq

-- the deque of a key after a match, and the ids of the alert if the rule fires
unfoldable pub count_hit : ℕ → ℕ → ℕ → ℕ → List (ℕ × ℕ) → List (ℕ × ℕ) × Option (List ℕ)
unfolding prune
count_hit threshold window now id dq =
    let dq' = prune window now (dq ++ (now, id) ∷ []) in
    if leb threshold (length dq') then ([], some (map (λ (h : ℕ × ℕ). h.1) dq')) else (dq', none)

-- `ThresholdRule.evaluate`: the rule after it, and the key and the ids if it fires
unfoldable pub evaluate :
    (Text → Bool) → ThresholdRule → ℕ → ℕ → Event → ThresholdRule × Option (Text × List ℕ)
unfolding rule_key count_hit
evaluate pattern rule now id event =
    let key = rule_key rule.key_from_message event in
    let (dq, fired) =
      count_hit rule.threshold rule.window_seconds now id (or_else (lookup key rule.hits) []) in
    if pattern event.message
    then (record rule { hits = insert key dq rule.hits }, bind fired (λ ids. some (key, ids)))
    else (rule, none)
