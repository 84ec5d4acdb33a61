-- ===== src/Severity/Tests.antt =====
-- severity.py at concrete texts.
use mini_siem.Base.{
  ◌≡◌, refl, some, codes, text_eq, fold_text, [], ◌∷◌, ◌↔◌, true, nat_eq, string_eq, elem, List,
  Text, lower,
}
use mini_siem.Severity.Spellings.{normalize_iff_synonym}
use mini_siem.Severity.Keywords.{extract_from_text-Answers, Answers}
use mini_siem.Severity.{
  critical, error, normalize, synonyms_of, extract_from_text, name, raised, extracted,
}

normalize_mixed : normalize (some (codes "  Fatal ")) ≡ some critical
unfolding normalize fold_text
normalize_mixed = refl

synonyms_of_err : synonyms_of (codes "ERR") ≡ codes "error" ∷ codes "err" ∷ []
unfolding synonyms_of fold_text
synonyms_of_err = refl

-- what the regular expression finds in two texts
abbrev two_words : Text → List Text
two_words t = codes "Fatal" ∷ codes "err" ∷ []

-- `ı` (305) matches an `i` when case is ignored, and `lower` does not make it one
abbrev dotless : Text → List Text
dotless t = (305 ∷ codes "nfo") ∷ []

extract_two : extract_from_text two_words lower (codes "a Fatal err") ≡ extracted (some critical)
unfolding extract_from_text lower
extract_two = refl

extract_dotless : extract_from_text dotless lower ((305 ∷ codes "nfo")) ≡ raised
unfolding extract_from_text lower
extract_dotless = refl

normalize_iff_synonym_example :
    (normalize (some (codes "Err ")) ≡ some error)
    ↔ (elem (fold_text (codes "Err ")) (synonyms_of (name error)) ≡ true)
normalize_iff_synonym_example = normalize_iff_synonym (codes "Err ") error

extract_from_text-Answers_example :
    Answers lower
      (two_words (codes "a Fatal err"))
      (extract_from_text two_words lower (codes "a Fatal err"))
extract_from_text-Answers_example = extract_from_text-Answers two_words lower (codes "a Fatal err")
