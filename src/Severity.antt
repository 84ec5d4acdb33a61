-- ===== src/Severity.antt =====
-- severity.py: one vocabulary for the severities of syslog. A level is one of the names of
-- `CANONICAL`; `none` stands for the empty string that the functions return.
pub mod Spellings
pub mod Keywords
mod Tests
use mini_siem.Base.{
  ℕ, Bool, List, [], ◌∷◌, map, Option, none, some, Text, codes, text_eq, fold_text, Dict, lookup,
  or_else, ◌==◌, ◌++◌, true, false, zero, suc, if◌then◌else◌, nat_beq, leb, ◌&&◌, ◌||◌, lower, ◌+◌,
  min, not, string_eq, nat_eq,
}

pub data Level : Type 0 where
  emergency alert critical error warning notice informational debug : Level

-- CANONICAL
abbrev pub canonical : List Level
canonical = emergency ∷ alert ∷ critical ∷ error ∷ warning ∷ notice ∷ informational ∷ debug ∷ []

-- the spelling of a canonical name
unfoldable pub name : Level → Text
name emergency = codes "emergency"
name alert = codes "alert"
name critical = codes "critical"
name error = codes "error"
name warning = codes "warning"
name notice = codes "notice"
name informational = codes "informational"
name debug = codes "debug"

-- ORDER: the position in CANONICAL
abbrev pub order : Level → ℕ
order emergency = 0
order alert = 1
order critical = 2
order error = 3
order warning = 4
order notice = 5
order informational = 6
order debug = 7

-- _SYNONYMS
abbrev pub synonyms : Dict Text Level
synonyms =
    (codes "emergency", emergency)
    ∷ (codes "emerg", emergency)
    ∷ (codes "panic", emergency)
    ∷ (codes "alert", alert)
    ∷ (codes "critical", critical)
    ∷ (codes "crit", critical)
    ∷ (codes "fatal", critical)
    ∷ (codes "error", error)
    ∷ (codes "err", error)
    ∷ (codes "warning", warning)
    ∷ (codes "warn", warning)
    ∷ (codes "notice", notice)
    ∷ (codes "informational", informational)
    ∷ (codes "information", informational)
    ∷ (codes "info", informational)
    ∷ (codes "informative", informational)
    ∷ (codes "debug", debug)
    ∷ (codes "verbose", debug)
    ∷ (codes "trace", debug)
    ∷ []

-- `None` counts as the empty text.
unfoldable pub normalize : Option Text → Option Level
normalize value = lookup (fold_text (or_else value [])) synonyms

-- the keys of a table whose level is spelled so
unfoldable pub spelled : Text → Dict Text Level → List Text
spelled c [] = []
spelled c ((k, v) ∷ d) = let rest = spelled c d in if name v == c then k ∷ rest else rest

abbrev pub name_or : Option Level → Text → Text
name_or none c = c
name_or (some l) c = name l

unfoldable pub synonyms_of : Text → List Text
unfolding spelled name normalize
synonyms_of c = spelled (name_or (normalize (some c)) c) synonyms

abbrev pub order_or : Option Level → ℕ → ℕ
order_or none d = d
order_or (some l) d = order l

-- `default` is 6 in the source's signature
unfoldable pub index_of : Option Text → ℕ → ℕ
unfolding normalize
index_of value default = order_or (normalize value) default

-- `_SYNONYMS[h.lower()]`, where `str_lower` is Python's `str.lower`: `none` is the KeyError
abbrev pub synonym_of : (Text → Text) → Text → Option Level
synonym_of str_lower word = lookup (str_lower word) synonyms

abbrev pub cons_level : Option Level → Option (List Level) → Option (List Level)
cons_level none rest = none
cons_level (some l) none = none
cons_level (some l) (some ls) = some (l ∷ ls)

-- the levels of the words found; one KeyError ends the comprehension
unfoldable pub hits : (Text → Text) → List Text → Option (List Level)
hits str_lower [] = some []
hits str_lower (w ∷ ws) = cons_level (synonym_of str_lower w) (hits str_lower ws)

-- `min(ORDER[...] for h in hits)`, of a list that is not empty
abbrev pub min_order : ℕ → List Level → ℕ
min_order best [] = best
min_order best (l ∷ ls) = min_order (if leb best (order l) then best else order l) ls

-- `CANONICAL[i]`
abbrev pub level_at : List Level → ℕ → Option Level
level_at [] i = none
level_at (l ∷ ls) zero = some l
level_at (l ∷ ls) (suc i) = level_at ls i

abbrev pub worst : List Level → Option Level
worst [] = none
worst (l ∷ ls) = level_at canonical (min_order (order l) ls)

-- a KeyError, or the level returned, `none` for the empty string
pub data Extracted : Type 0 where
  raised : Extracted
  extracted : Option Level → Extracted

abbrev pub extracted_from : Option (List Level) → Extracted
extracted_from none = raised
extracted_from (some ls) = extracted (worst ls)

module _ (findall : Text → List Text) (str_lower : Text → Text) where
  -- `findall` is that of the regular expression of the keywords
  unfoldable pub extract_from_text : Text → Extracted
  unfolding hits
  extract_from_text text = extracted_from (hits str_lower (findall text))
