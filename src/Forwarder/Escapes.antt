-- ===== src/Forwarder/Escapes.antt =====
-- forwarder.py, `_sd_escape`: a parameter value of RFC 5424 is read back as it was.
use mathlib.Core.Path.{subst}
use mini_siem.Base.{
  ℕ, ◌≡◌, ap, inl, inr, Bool, true, false, ◌||◌, Option, none, some, [], ◌∷◌, if◌then◌else◌, ◌==◌,
  nat_eq, string_eq, Bool-cases, Text, text_eq, refl, sym, ◌∙◌, ◌++◌, arith, nat_beq_iff,
}
use mini_siem.Forwarder.Origin.{sd_escape, escape_char}

abbrev put_front : ℕ → Option (Text × Text) → Option (Text × Text)
put_front c none = none
put_front c (some (v, rest)) = some (c ∷ v, rest)

-- A parameter value as RFC 5424 reads it, after the opening quote: a backslash takes the next
-- character as it is, a quote ends the value, and a closing bracket has no place in it. The value,
-- and what follows the quote.
unfoldable pub read_from : Bool → Text → Option (Text × Text)
read_from escaped [] = none
read_from true (c ∷ s) = put_front c (read_from false s)
read_from false (c ∷ s) =
    let plain = put_front c (read_from false s) in
    let next = read_from true s in
    if c == b'\\'
    then next
    else if c == b'"'
    then some ([], s)
    else if c == b']'
    then none
    else plain

abbrev special : ℕ → Bool
special c = c == b'\\' || c == b'"' || c == b']'

abbrev EscapedCons : ℕ → Text → Type 0
EscapedCons c v =
    sd_escape (c ∷ v) ≡ (if special c then b'\\' ∷ c ∷ sd_escape v else c ∷ sd_escape v)

at_literal : (c d : ℕ) (v : Text) → (c == d) ≡ true → EscapedCons d v → EscapedCons c v
at_literal c d v e h = subst (λ (x : ℕ). EscapedCons x v) (sym ((nat_beq_iff c d).0 e)) h

escaped_cons : (c : ℕ) (v : Text) → EscapedCons c v
unfolding sd_escape escape_char
escaped_cons c v = elim (Bool-cases (c == b'\\')) [
  | inl e ↦ at_literal c b'\\' v e refl
  | inr e1 ↦ elim (Bool-cases (c == b'"')) [
    | inl e ↦ at_literal c b'"' v e refl
    | inr e2 ↦ elim (Bool-cases (c == b']')) [
      | inl e ↦ at_literal c b']' v e refl
      | inr e3 ↦ rw (e1, e2, e3) refl
    ]
  ]
]

sd_escape-nil : sd_escape [] ≡ []
unfolding sd_escape escape_char
sd_escape-nil = refl

-- What `_sd_escape` makes of a value, with a quote behind it, is read as that value: no quote,
-- backslash or bracket of an origin ends the value early or stands in it bare.
pub read_from-sd_escape :
    (v rest : Text) → read_from false (sd_escape v ++ b'"' ∷ rest) ≡ some (v, rest)
unfolding read_from
read_from-sd_escape [] rest =
    ap (λ (t : Text). read_from false (t ++ b'"' ∷ rest)) sd_escape-nil ∙ refl
read_from-sd_escape (c ∷ v) rest =
    ap (λ (t : Text). read_from false (t ++ b'"' ∷ rest)) (escaped_cons c v)
    ∙ step (special c) refl (read_from-sd_escape v rest)
  where
    step :
        (b : Bool)
        → special c ≡ b
        → read_from false (sd_escape v ++ b'"' ∷ rest) ≡ some (v, rest)
        → read_from false ((if b then b'\\' ∷ c ∷ sd_escape v else c ∷ sd_escape v) ++ b'"' ∷ rest)
          ≡ some (c ∷ v, rest)
    step true h ih = rw ih refl
    step false h ih =
        let (n1, n2, n3) = plain (c == b'\\') (c == b'"') (c == b']') h in rw (n1, n2, n3, ih) refl
      where
        plain : (x y z : Bool) → (x || y || z) ≡ false → (x ≡ false) × (y ≡ false) × (z ≡ false)
        plain x y z h = ground arith
