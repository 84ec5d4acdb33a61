-- ===== src/Severity/Spellings.antt =====
-- severity.py: what `normalize`, `synonyms_of` and `index_of` promise each other. The dashboard
-- compares `LOWER(severity) IN (synonyms_of(level))`, so the two views of a level have to agree.
use mini_siem.Base.{
  ℕ, ◌<◌, lower, fold_text-lower, inl, inr, Option, Option-cases, ◌≡◌, refl, ◌↔◌, true, false, [],
  ◌∷◌, none, some, arith, Text, text_eq, text_beq_iff, fold_text, Dict, lookup, elem, ◌==◌,
}
use mini_siem.Severity.{
  order, synonyms_of, index_of, canonical, level_at, emergency, Level, name, synonyms, normalize,
  spelled,
}

-- Keys are listed once.
abbrev Distinct : Dict Text Level → Type 0
Distinct [] = Unit
Distinct ((k, v) ∷ d) = (lookup k d ≡ none) × Distinct d

synonyms-Distinct : Distinct synonyms
synonyms-Distinct = ground arith

name_inj : (l m : Level) → (name l == name m) ≡ true → l ≡ m
unfolding name
name_inj l m h = ground arith

name_refl : (l : Level) → (name l == name l) ≡ true
name_refl l = (text_beq_iff (name l) (name l)).1 refl

elem-spelled-none :
    (k c : Text) (d : Dict Text Level) → lookup k d ≡ none → elem k (spelled c d) ≡ false
unfolding spelled
elem-spelled-none k c [] h = refl
elem-spelled-none k c ((j, v) ∷ d) h = ground (arith, elem-spelled-none k c d)

lookup-spelled :
    (k : Text) (l : Level) (d : Dict Text Level)
    → Distinct d
    → (lookup k d ≡ some l) ↔ (elem k (spelled (name l) d) ≡ true)
unfolding spelled
lookup-spelled k l [] h = ground arith
lookup-spelled k l ((j, v) ∷ d) h = ground (
  arith,
  lookup-spelled k l d h.1,
  elem-spelled-none k (name l) d,
  text_beq_iff j k,
  name_inj v l,
  name_refl l,
)

normalize-name : (l : Level) → normalize (some (name l)) ≡ some l
unfolding normalize fold_text name
normalize-name l = ground arith

-- A text is a spelling of a level exactly when its folded form is one of `synonyms_of` that level's
-- name.
pub normalize_iff_synonym :
    (v : Text) (l : Level)
    → (normalize (some v) ≡ some l) ↔ (elem (fold_text v) (synonyms_of (name l)) ≡ true)
unfolding synonyms_of
normalize_iff_synonym v l =
    rw (normalize-name l) (lookup-spelled (fold_text v) l synonyms synonyms-Distinct)

-- The letters' case does not matter to any of the two.
pub normalize-lower : (v : Text) → normalize (some (lower v)) ≡ normalize (some v)
unfolding normalize
normalize-lower v = rw (fold_text-lower v)

level_at-order : (l : Level) → level_at canonical (order l) ≡ some l
level_at-order emergency = refl
level_at-order _ = refl

order-lt : (l : Level) → order l < 8
order-lt l = ground arith

-- `index_of` is the place in CANONICAL of the recognised level, and else the default; with the
-- default of the source (6) it is one of the eight places.
pub index_of_lem :
    (v : Option Text) (d : ℕ)
    → ((l : Level) → normalize v ≡ some l → level_at canonical (index_of v d) ≡ some l)
      × (normalize v ≡ none → index_of v d ≡ d)
      × (index_of v 6 < 8)
unfolding index_of
index_of_lem v d = elim (Option-cases (normalize v)) [
  | inl e ↦ rw e ((λ l h. cc), (λ h. refl), omega arith)
  | inr (m, e) ↦ rw e ((λ l h. rw (level_at-order m) h), (λ h. cc), order-lt m)
]
