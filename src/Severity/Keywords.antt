-- ===== src/Severity/Keywords.antt =====
-- severity.py, `extract_from_text`: the most severe keyword of a message.
use mini_siem.Base.{
  ℕ, ◌≤◌, ◌≡◌, refl, inl, inr, ◌⊎◌, List, [], ◌∷◌, Option, none, some, arith, Text, All, leb,
  Bool-cases, text_eq, sym, if◌then◌else◌, ap, ◌∙◌, string_eq, nat_eq, lookup,
}
use mini_siem.Severity.{
  Level, emergency, order, canonical, level_at, hits, min_order, worst, extract_from_text, synonyms,
  cons_level, extracted_from, Extracted, raised, extracted,
}

-- the level stands in the list
abbrev pub Occurs : Level → List Level → Type 0
Occurs m [] = ⊥
Occurs m (l ∷ ls) = (l ≡ m) ⊎ Occurs m ls

min_order-le : (best : ℕ) (ls : List Level) → min_order best ls ≤ best
min_order-le best [] = omega arith
min_order-le best (l ∷ ls) = ground (arith, min_order-le best ls, min_order-le (order l) ls)

min_order-All : (n best : ℕ) (ls : List Level) → n ≡ min_order best ls → All (λ l. n ≤ order l) ls
min_order-All n best [] e = tt
min_order-All n best (l ∷ ls) e =
    let next = if leb best (order l) then best else order l in
    (ground (arith, min_order-le next ls), min_order-All n next ls e)

min_order-Occurs :
    (m : Level) (ls : List Level)
    → (k : Level) × (min_order (order m) ls ≡ order k) × Occurs k (m ∷ ls)
min_order-Occurs m [] = (m, refl, inl refl)
min_order-Occurs m (l ∷ ls) = elim (Bool-cases (leb (order m) (order l))) [
  | inl e ↦ rw e (skip (min_order-Occurs m ls))
  | inr e ↦ rw e (let (k, p, o) = min_order-Occurs l ls in (k, p, inr o))
]
  where
    skip :
        (k : Level) × (min_order (order m) ls ≡ order k) × Occurs k (m ∷ ls)
        → (k : Level) × (min_order (order m) ls ≡ order k) × Occurs k (m ∷ l ∷ ls)
    skip (k, p, inl o) = (k, p, inl o)
    skip (k, p, inr o) = (k, p, inr (inr o))

level_at-order : (l : Level) → level_at canonical (order l) ≡ some l
level_at-order emergency = refl
level_at-order _ = refl

abbrev pub IsWorst : Option Level → List Level → Type 0
IsWorst none ls = ls ≡ []
IsWorst (some k) ls = Occurs k ls × All (λ l. order k ≤ order l) ls

worst-IsWorst : (ls : List Level) → IsWorst (worst ls) ls
worst-IsWorst [] = refl
worst-IsWorst (l ∷ ls) =
    let (k, p, o) = min_order-Occurs l ls in
    rw (p, level_at-order k)
      (
        o,
        (omega (arith, p, min_order-le (order l) ls), min_order-All (order k) (order l) ls (sym p)),
      )

-- a word of the list has the given answer of the table
abbrev pub Found : (Text → Text) → Option Level → List Text → Type 0
Found str_lower o [] = ⊥
Found str_lower o (w ∷ ws) = (lookup (str_lower w) synonyms ≡ o) ⊎ Found str_lower o ws

-- every word of the list is in the table, with a level that is at most as severe as `k`
abbrev pub NoneWorse : (Text → Text) → Level → List Text → Type 0
NoneWorse str_lower k [] = Unit
NoneWorse str_lower k (w ∷ ws) =
    ((l : Level) × (lookup (str_lower w) synonyms ≡ some l) × (order k ≤ order l))
    × NoneWorse str_lower k ws

-- What the function answers for the words found in the text: it raises if one of them, after
-- `str.lower`, is no key of the table; it answers that there is no level if no word was found; and
-- the level it answers is that of one of them, all being in the table and none more severe.
abbrev pub Answers : (Text → Text) → List Text → Extracted → Type 0
Answers str_lower ws raised = Found str_lower none ws
Answers str_lower ws (extracted none) = ws ≡ []
Answers str_lower ws (extracted (some k)) = Found str_lower (some k) ws × NoneWorse str_lower k ws

-- the words have the levels
abbrev HaveLevels : (Text → Text) → List Text → List Level → Type 0
HaveLevels str_lower [] [] = Unit
HaveLevels str_lower [] (l ∷ ls) = ⊥
HaveLevels str_lower (w ∷ ws) [] = ⊥
HaveLevels str_lower (w ∷ ws) (l ∷ ls) =
    (lookup (str_lower w) synonyms ≡ some l) × HaveLevels str_lower ws ls

abbrev Hits : (Text → Text) → List Text → Option (List Level) → Type 0
Hits str_lower ws none = Found str_lower none ws
Hits str_lower ws (some ls) = HaveLevels str_lower ws ls

hits-Hits : (str_lower : Text → Text) (ws : List Text) → Hits str_lower ws (hits str_lower ws)
unfolding hits
hits-Hits str_lower [] = tt
hits-Hits str_lower (w ∷ ws) =
    head (lookup (str_lower w) synonyms) refl (hits str_lower ws) (hits-Hits str_lower ws)
  where
    head :
        (o : Option Level)
        → lookup (str_lower w) synonyms ≡ o
        → (r : Option (List Level)) → Hits str_lower ws r
        → Hits str_lower (w ∷ ws) (cons_level o r)
    head none e r h = inl e
    head (some l) e none h = inr h
    head (some l) e (some ls) h = (e, h)

HaveLevels-Found :
    (str_lower : Text → Text) (ws : List Text) (ls : List Level) (k : Level)
    → HaveLevels str_lower ws ls
    → Occurs k ls
    → Found str_lower (some k) ws
HaveLevels-Found str_lower [] [] k h o = elim o [ ]
HaveLevels-Found str_lower [] (l ∷ ls) k h o = elim h [ ]
HaveLevels-Found str_lower (w ∷ ws) [] k h o = elim h [ ]
HaveLevels-Found str_lower (w ∷ ws) (l ∷ ls) k h (inl e) = inl (h.0 ∙ ap some e)
HaveLevels-Found str_lower (w ∷ ws) (l ∷ ls) k h (inr o) =
    inr (HaveLevels-Found str_lower ws ls k h.1 o)

HaveLevels-NoneWorse :
    (str_lower : Text → Text) (ws : List Text) (ls : List Level) (k : Level)
    → HaveLevels str_lower ws ls
    → All (λ l. order k ≤ order l) ls
    → NoneWorse str_lower k ws
HaveLevels-NoneWorse str_lower [] [] k h a = tt
HaveLevels-NoneWorse str_lower [] (l ∷ ls) k h a = elim h [ ]
HaveLevels-NoneWorse str_lower (w ∷ ws) [] k h a = elim h [ ]
HaveLevels-NoneWorse str_lower (w ∷ ws) (l ∷ ls) k h a =
    ((l, h.0, a.0), HaveLevels-NoneWorse str_lower ws ls k h.1 a.1)

HaveLevels-nil :
    (str_lower : Text → Text) (ws : List Text) (ls : List Level)
    → HaveLevels str_lower ws ls
    → ls ≡ []
    → ws ≡ []
HaveLevels-nil str_lower [] ls h e = refl
HaveLevels-nil str_lower (w ∷ ws) [] h e = elim h [ ]
HaveLevels-nil str_lower (w ∷ ws) (l ∷ ls) h e = cc

-- Whatever the regular expression finds in the text and whatever `str.lower` makes of it:
-- `extract_from_text` raises only if a word found is, after `str.lower`, no key of the table; it
-- answers no level exactly when nothing was found; and a level that it answers is the one of a
-- word found, all the words found being in the table and none of them more severe.
pub extract_from_text-Answers :
    (findall : Text → List Text) (str_lower : Text → Text) (t : Text)
    → Answers str_lower (findall t) (extract_from_text findall str_lower t)
unfolding extract_from_text
extract_from_text-Answers findall str_lower t =
    answers (hits str_lower (findall t)) (hits-Hits str_lower (findall t))
  where
    level :
        (ls : List Level) (o : Option Level)
        → HaveLevels str_lower (findall t) ls
        → IsWorst o ls
        → Answers str_lower (findall t) (extracted o)
    level ls none h w = HaveLevels-nil str_lower (findall t) ls h w
    level ls (some k) h w = (
      HaveLevels-Found str_lower (findall t) ls k h w.0,
      HaveLevels-NoneWorse str_lower (findall t) ls k h w.1,
    )

    answers :
        (r : Option (List Level))
        → Hits str_lower (findall t) r
        → Answers str_lower (findall t) (extracted_from r)
    answers none h = h
    answers (some ls) h = level ls (worst ls) h (worst-IsWorst ls)
