-- ===== src/Listener/Framer/Prefixes.antt =====
-- listener.py, `_select_mode`: the mode that a buffer selects does not change as it grows.
use mini_siem.Base.{
  ℕ, ◌+◌, ◌-◌, ◌*◌, ◌≤◌, ◌<◌, ◌≡◌, refl, ap, ◌⊎◌, inr, true, some, [], ◌∷◌, ◌++◌, arith, string_eq,
  nat_eq, is_some, length, all_of, Text, text_eq, inl, Bool, false, not, ◌&&◌, Option, none, ltb,
  leb, ◌==◌, Bool-cases, elem, ◌∙◌,
}
use mini_siem.Listener.Framer.{
  Mode, is_digit, prefix_rest, octet_prefix, before_blank, is_partial, starts_digit, mode_of,
}

-- what a reading gives with more bytes behind
abbrev pub extend : Text → Option (ℕ × Text) → Option (ℕ × Text)
extend b none = none
extend b (some (m, rest)) = some (m, rest ++ b)

-- A count that is read is read from any longer buffer.
prefix_rest-append :
    (n size : ℕ) (x b : Text)
    → is_some (prefix_rest n size x) ≡ true
    → prefix_rest n size (x ++ b) ≡ extend b (prefix_rest n size x)
unfolding prefix_rest
prefix_rest-append n size [] b h = cc
prefix_rest-append n size (c ∷ s) b h =
    at_byte (c == b' ') (is_digit c && ltb 0 n) h
      (prefix_rest-append (n - 1) (size * 10 + (c - b'0')) s b)
  where
    step : (s rest : Text) → Bool → Bool → Option (ℕ × Text) → Option (ℕ × Text)
    step s rest blank digit more = elim blank [
      | true ↦ some (size, rest)
      | false ↦ elim digit [ true ↦ more | false ↦ none ]
    ]

    at_byte :
        (blank digit : Bool)
        → is_some (step s s blank digit (prefix_rest (n - 1) (size * 10 + (c - b'0')) s)) ≡ true
        → (is_some (prefix_rest (n - 1) (size * 10 + (c - b'0')) s) ≡ true
            → prefix_rest (n - 1) (size * 10 + (c - b'0')) (s ++ b)
              ≡ extend b (prefix_rest (n - 1) (size * 10 + (c - b'0')) s))
        → step s (s ++ b) blank digit (prefix_rest (n - 1) (size * 10 + (c - b'0')) (s ++ b))
          ≡ extend b (step s s blank digit (prefix_rest (n - 1) (size * 10 + (c - b'0')) s))
    at_byte true digit h ih = refl
    at_byte false true h ih = ih h
    at_byte false false h ih = refl

-- It is behind at most ten digits and a blank.
prefix_rest-length :
    (n size : ℕ) (x : Text) (m : ℕ) (rest : Text)
    → prefix_rest n size x ≡ some (m, rest)
    → (length rest < length x) × (length x ≤ length rest + n + 1)
unfolding prefix_rest
prefix_rest-length n size [] m rest h = cc
prefix_rest-length n size (c ∷ s) m rest h =
    ground (arith, prefix_rest-length (n - 1) (size * 10 + (c - b'0')) s m rest)

-- A count that is read from a longer buffer was there, or is still all digits.
prefix_rest-shorter :
    (n size : ℕ) (x b : Text)
    → is_some (prefix_rest n size (x ++ b)) ≡ true
    → (is_some (prefix_rest n size x) ≡ true) ⊎ (all_of is_digit x ≡ true) × (length x ≤ n)
unfolding prefix_rest
prefix_rest-shorter n size [] b h = inr (refl, omega arith)
prefix_rest-shorter n size (c ∷ s) b h =
    ground (arith, prefix_rest-shorter (n - 1) (size * 10 + (c - b'0')) s b)

pub octet_prefix-append :
    (x b : Text)
    → is_some (octet_prefix x) ≡ true
    → octet_prefix (x ++ b) ≡ extend b (octet_prefix x)
unfolding octet_prefix
octet_prefix-append [] b h = cc
octet_prefix-append (c ∷ s) b h = elim (Bool-cases (is_digit c && not (c == b'0'))) [
  | inl e ↦ rw e (prefix_rest-append 9 (c - b'0') s b (rw e at h))
  | inr e ↦ rw e refl
]

pub octet_prefix-length :
    (x : Text) (m : ℕ) (rest : Text)
    → octet_prefix x ≡ some (m, rest)
    → (length rest < length x) × (length x ≤ length rest + 11)
unfolding octet_prefix
octet_prefix-length [] m rest h = cc
octet_prefix-length (c ∷ s) m rest h = ground (arith, prefix_rest-length 9 (c - b'0') s m rest)

-- A count of a longer buffer stands in the buffer, or the buffer is at most ten digits.
pub octet_prefix-shorter :
    (x b : Text)
    → is_some (octet_prefix (x ++ b)) ≡ true
    → (is_some (octet_prefix x) ≡ true) ⊎ (all_of is_digit x ≡ true) × (length x ≤ 10)
unfolding octet_prefix
octet_prefix-shorter [] b h = inr (refl, omega arith)
octet_prefix-shorter (c ∷ s) b h = ground (arith, prefix_rest-shorter 9 (c - b'0') s b)

digits-elem : (x : Text) → all_of is_digit x ≡ true → elem b'\n' x ≡ false
digits-elem [] h = refl
digits-elem (c ∷ s) h = ground (arith, digits-elem s)

digits-before_blank : (x : Text) → all_of is_digit x ≡ true → before_blank x ≡ x
digits-before_blank [] h = refl
digits-before_blank (c ∷ s) h = ground (arith, digits-before_blank s)

-- A buffer of at most ten digits is partial.
digits-is_partial :
    (c : ℕ) (s : Text)
    → all_of is_digit (c ∷ s) ≡ true
    → length (c ∷ s) ≤ 10
    → is_partial (c ∷ s) ≡ true
unfolding is_partial
digits-is_partial c s h le =
    rw (digits-elem (c ∷ s) h, digits-before_blank (c ∷ s) h) (ground arith)

elem-append : (k : ℕ) (x b : Text) → elem k x ≡ true → elem k (x ++ b) ≡ true
elem-append k [] b h = cc
elem-append k (c ∷ s) b h = ground (arith, elem-append k s b)

before_blank-append :
    (x b : Text)
    → all_of is_digit (before_blank (x ++ b)) ≡ true
    → (all_of is_digit (before_blank x) ≡ true)
      × (length (before_blank x) ≤ length (before_blank (x ++ b)))
before_blank-append [] b h = (refl, omega arith)
before_blank-append (c ∷ s) b h = ground (arith, before_blank-append s b)

partial_parts :
    (w x y z : Bool)
    → (w && not x && y && z) ≡ true
    → (w ≡ true) × (x ≡ false) × (y ≡ true) × (z ≡ true)
partial_parts w x y z q = ground arith

partial_from :
    (w x y z : Bool) → w ≡ true → x ≡ false → y ≡ true → z ≡ true → (w && not x && y && z) ≡ true
partial_from w x y z h1 h2 h3 h4 = ground arith

elem-shorter : (k : ℕ) (x b : Text) → elem k (x ++ b) ≡ false → elem k x ≡ false
elem-shorter k [] b h = refl
elem-shorter k (c ∷ s) b h = ground (arith, elem-shorter k s b)

-- What is partial was partial all the time.
pub is_partial-shorter :
    (c : ℕ) (s b : Text) → is_partial (c ∷ (s ++ b)) ≡ true → is_partial (c ∷ s) ≡ true
unfolding is_partial
is_partial-shorter c s b h =
    let parts =
      partial_parts (is_digit c) (elem b'\n' (c ∷ (s ++ b)))
        (all_of is_digit (before_blank (c ∷ (s ++ b))))
        (leb (length (before_blank (c ∷ (s ++ b)))) 10) h in
    let start = before_blank-append (c ∷ s) b parts.2 in
    partial_from (is_digit c) (elem b'\n' (c ∷ s)) (all_of is_digit (before_blank (c ∷ s)))
      (leb (length (before_blank (c ∷ s))) 10) parts.0 (elem-shorter b'\n' (c ∷ s) b parts.1)
      start.0 (ground (arith, start.1, parts.3))

pub is_partial-elem : (b : Text) → is_partial b ≡ true → elem b'\n' b ≡ false
unfolding is_partial
is_partial-elem b h =
    (partial_parts (starts_digit b) (elem b'\n' b) (all_of is_digit (before_blank b))
      (leb (length (before_blank b)) 10) h).1

pub clash : (x : Bool) → x ≡ true → x ≡ false → ⊥
clash x u v = cc

-- A mode that a buffer selects is selected by every longer buffer.
pub mode_of-append :
    (c : ℕ) (s b : Text) (m : Mode)
    → mode_of false (c ∷ s) ≡ some m
    → mode_of false (c ∷ (s ++ b)) ≡ some m
mode_of-append c s b m h = elim (Bool-cases (is_some (octet_prefix (c ∷ s)))) [
  | inl e ↦
      rw
        (ap (λ (o : Option (ℕ × Text)). is_some o) (octet_prefix-append (c ∷ s) b e)
          ∙ some_extend (octet_prefix (c ∷ s)) e)
        (rw e at h)
  | inr e ↦ elim (Bool-cases (is_partial (c ∷ s))) [
    | inl p ↦ absurd (none_some (rw (e, p) at h))
    | inr p ↦
        let longer : is_some (octet_prefix (c ∷ (s ++ b))) ≡ false = no_prefix e p in
        let whole : is_partial (c ∷ (s ++ b)) ≡ false = no_partial p in
        rw (longer, whole) (rw (e, p) at h)
  ]
]
  where
    none_some : none ≡ some m → ⊥
    none_some q = cc

    some_extend : (o : Option (ℕ × Text)) → is_some o ≡ true → is_some (extend b o) ≡ true
    some_extend none q = cc
    some_extend (some (n, r)) q = refl

    no_partial : is_partial (c ∷ s) ≡ false → is_partial (c ∷ (s ++ b)) ≡ false
    no_partial p = elim (Bool-cases (is_partial (c ∷ (s ++ b)))) [
      | inl q ↦ absurd (clash (is_partial (c ∷ s)) (is_partial-shorter c s b q) p)
      | inr q ↦ q
    ]

    no_prefix :
        is_some (octet_prefix (c ∷ s)) ≡ false
        → is_partial (c ∷ s) ≡ false
        → is_some (octet_prefix (c ∷ (s ++ b))) ≡ false
    no_prefix e p = elim (Bool-cases (is_some (octet_prefix (c ∷ (s ++ b))))) [
      | inr q ↦ q
      | inl q ↦ elim (octet_prefix-shorter (c ∷ s) b q) [
        | inl u ↦ absurd (clash (is_some (octet_prefix (c ∷ s))) u e)
        | inr u ↦ absurd (clash (is_partial (c ∷ s)) (digits-is_partial c s u.0 u.1) p)
      ]
    ]
