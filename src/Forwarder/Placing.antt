-- ===== src/Forwarder/Placing.antt =====
-- forwarder.py, `_attach_origin_sd`: where the origin element is put.
use mini_siem.Base.{
  ℕ, ◌+◌, ◌≤◌, ◌<◌, ◌≡◌, ◌⊎◌, false, List, [], ◌∷◌, ◌++◌, if◌then◌else◌, string_eq, nat_eq, ◌==◌,
  length, All, Text, codes, text_eq, starts_with,
}

-- each word followed by a blank
abbrev pub header : List Text → Text
header [] = []
header (p ∷ ps) = p ++ b' ' ∷ header ps

abbrev pub blanks : Text → ℕ
blanks [] = 0
blanks (c ∷ s) = let rest = blanks s in if c == b' ' then rest + 1 else rest

-- What becomes of a message whose seventh field begins `rest`, behind the header `head`: a `-` with a
-- blank behind it gives way to the element, structured data has the element put in front of it,
-- and anything else leaves the message as it is, with the element behind it.
abbrev pub Placed : Text → Text → Text → Text → Text → Type 0
Placed sd raw head rest out =
    ((after : Text) × (rest ≡ b'-' ∷ b' ' ∷ after) × (out ≡ head ++ (sd ++ b' ' ∷ after)))
    ⊎ ((after : Text) × (rest ≡ b'[' ∷ after) × (out ≡ head ++ (sd ++ b'[' ∷ after)))
    ⊎ ((starts_with (codes "- ") rest ≡ false)
        × (starts_with (codes "[") rest ≡ false)
        × (out ≡ raw ++ b' ' ∷ sd))

-- A message of RFC 5424 is six words without a blank, each with a blank behind it, and its seventh
-- field; or it has fewer than six blanks, and the element stands behind it.
abbrev pub Placed5424 : Text → Text → Text → Type 0
Placed5424 sd raw out =
    ((words : List Text) × (rest : Text) × (raw ≡ header words ++ rest)
      × (length words ≡ 6)
      × All (λ (w : Text). blanks w ≡ 0) words
      × Placed sd raw (header words) rest out)
    ⊎ ((blanks raw < 6) × (out ≡ raw ++ b' ' ∷ sd))

-- the split finds as many words without a blank as it was asked for, or there are too few blanks
abbrev Split : ℕ → Text → List Text → Type 0
Split n s parts =
    ((words : List Text) × (rest : Text) × (parts ≡ words ++ rest ∷ [])
      × (length words ≡ n)
      × All (λ (w : Text). blanks w ≡ 0) words)
    ⊎ ((length parts ≤ n) × (blanks s < n))
