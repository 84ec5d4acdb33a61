-- ===== src/Forwarder/Origin.antt =====
-- forwarder.py: the helpers that put the origin into a relayed message. `rfc3164` is the regular
-- expression's answer for a message of RFC 3164: its priority, its timestamp and its rest.
use mini_siem.Base.{
  ℕ, zero, suc, Bool, true, false, not, ◌&&◌, ◌||◌, Option, none, some, List, [], ◌∷◌, ◌++◌,
  if◌then◌else◌, ◌==◌, nat_eq, string_eq, drop, Text, codes, text_eq, lower, lstrip, rstrip, elem,
  Dict,
}
use mini_siem.Forwarder.{wants, Forwarder, is_empty_text, Event, text_or}

-- `str.replace` of a character by itself after a backslash
unfoldable pub escape_char : ℕ → Text → Text
escape_char c [] = []
escape_char c (d ∷ s) = let rest = escape_char c s in if d == c then b'\\' ∷ d ∷ rest else d ∷ rest

-- `_sd_escape`
unfoldable pub sd_escape : Text → Text
unfolding escape_char
sd_escape v = escape_char b']' (escape_char b'"' (escape_char b'\\' v))

-- `raw.split(" ", n)`, the pieces before the last, and the last
unfoldable pub split_blank : ℕ → Text → Text → List Text
split_blank zero piece s = (piece ++ s) ∷ []
split_blank (suc n) piece [] = piece ∷ []
split_blank (suc n) piece (c ∷ s) = elim (c == b' ') [
  | true ↦ piece ∷ split_blank n [] s
  | false ↦ split_blank (suc n) (piece ++ c ∷ []) s
]

-- `" ".join(parts)`
unfoldable pub join_blank : List Text → Text
join_blank [] = []
join_blank (p ∷ []) = p
join_blank (p ∷ q ∷ ps) = p ++ b' ' ∷ join_blank (q ∷ ps)

-- `<PRI>1 TIMESTAMP HOSTNAME ...`: the third part, when it is `-` or empty
abbrev pub set_third : Text → Text → List Text → Text
set_third ip raw (a ∷ b ∷ c ∷ ps) =
    if elem c (codes "-" ∷ [] ∷ []) then join_blank (a ∷ b ∷ ip ∷ ps) else raw
set_third ip raw _ = raw

abbrev pub has_hostname : Option Text → Bool
has_hostname none = false
has_hostname (some h) = let name = rstrip (lstrip h) in not (name == []) && not (name == codes "-")

abbrev pub insert_3164 : Text → Text → Option (Text × Text × Text) → Text
insert_3164 ip raw none = raw
insert_3164 ip raw (some (pri, time, rest)) = pri ++ time ++ b' ' ∷ ip ++ b' ' ∷ rest

module _ (rfc3164 : Text → Option (Text × Text × Text)) where
  -- `_fill_hostname`
  unfoldable pub fill_hostname : Text → Event → Text → Text
  unfolding split_blank join_blank lstrip rstrip
  fill_hostname raw e ip =
      if has_hostname e.hostname
      then raw
      else if e.format == codes "rfc5424"
      then set_third ip raw (split_blank 3 [] raw)
      else if e.format == codes "rfc3164"
      then insert_3164 ip raw (rfc3164 raw)
      else raw

-- the origin element
unfoldable pub origin_sd : Text → Text
unfolding sd_escape
origin_sd ip = codes "[origin ip=\"" ++ sd_escape ip ++ codes "\"]"

abbrev pub starts_with : Text → Text → Bool
starts_with [] s = true
starts_with (c ∷ p) [] = false
starts_with (c ∷ p) (d ∷ s) = c == d && starts_with p s

-- `raw + " " + sd`
abbrev pub append_sd : Text → Text → Text
append_sd sd raw = raw ++ b' ' ∷ sd

-- the structured data is the seventh part: `-` is replaced, elements are put behind the origin
abbrev pub attach_part : Text → Text → List Text → Text → Text
attach_part sd raw before rest =
    if starts_with (codes "- ") rest
    then join_blank (before ++ (sd ++ drop 1 rest) ∷ [])
    else if starts_with (codes "[") rest
    then join_blank (before ++ (sd ++ rest) ∷ [])
    else append_sd sd raw

abbrev pub attach_parts : Text → Text → List Text → Text
attach_parts sd raw (a ∷ b ∷ c ∷ d ∷ e ∷ f ∷ rest ∷ []) =
    attach_part sd raw (a ∷ b ∷ c ∷ d ∷ e ∷ f ∷ []) rest
attach_parts sd raw _ = append_sd sd raw

-- `_attach_origin_sd`
unfoldable pub attach_origin_sd : Text → Event → Text → Text
unfolding split_blank join_blank origin_sd
attach_origin_sd raw e ip =
    if e.format == codes "rfc5424"
    then attach_parts (origin_sd ip) raw (split_blank 6 [] raw)
    else append_sd (origin_sd ip) raw

module _ (rfc3164 : Text → Option (Text × Text × Text)) where
  -- `apply_origin`; a configured mode is in lower case
  unfoldable pub apply_origin : Text → Event → Text → Text
  unfolding fill_hostname attach_origin_sd lower
  apply_origin raw e mode =
      let mode' = lower mode in
      let ip = text_or e.peer_ip (text_or e.source_ip []) in
      if mode' == codes "off" || mode' == [] || ip == []
      then raw
      else (let out =
            (if elem mode' (codes "hostname" ∷ codes "both" ∷ [])
              then fill_hostname rfc3164 raw e ip
              else raw) in
          if elem mode' (codes "sd" ∷ codes "both" ∷ []) then attach_origin_sd out e ip else out)

module _ (search : Text → Text → Bool) (rfc3164 : Text → Option (Text × Text × Text)) where
  abbrev pub relay : Text → Event → Dict ℕ Forwarder → List (ℕ × Text)
  relay raw e [] = []
  relay raw e ((k, f) ∷ fs) =
      let rest = relay raw e fs in
      if wants search e f then (k, apply_origin rfc3164 raw e f.config.origin_mode) ∷ rest else rest

  -- `ForwarderManager.forward`: what is sent to each forwarder
  unfoldable pub forward : Event → Dict ℕ Forwarder → List (ℕ × Text)
  unfolding wants apply_origin
  forward e fs = elim e.raw [
    | none ↦ []
    | some raw ↦ if is_empty_text raw then [] else relay raw e fs
  ]
