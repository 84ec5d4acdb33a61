-- ===== src/ThreatIntel/Loops.antt =====
-- threatintel.py, `check`: what its loops find.
use mini_siem.Base.{
  ◌≡◌, refl, ap, ◌↔◌, ◌⊎◌, inl, inr, true, false, Option, none, some, List, [], ◌∷◌, ◌++◌, arith,
  string_eq, nat_eq, Text, text_eq, Dict, lookup, elem, ◌∙◌, Bool, ◌==◌, Bool-cases, text_beq_iff,
  beq_refl, sym, not, ◌&&◌, ◌||◌, or_else,
}
use mini_siem.ThreatIntel.{Ioc, collect, scan}

abbrev pub In : Ioc → List Ioc → Type 0
In r [] = ⊥
In r (x ∷ xs) = (x ≡ r) ⊎ In r xs

pub In-append : (r : Ioc) (xs ys : List Ioc) → In r (xs ++ ys) ↔ (In r xs ⊎ In r ys)
In-append r [] ys = (λ h. inr h, none_first)
  where
    none_first : ⊥ ⊎ In r ys → In r ys
    none_first (inl h) = absurd h
    none_first (inr h) = h
In-append r (x ∷ xs) ys = (there (In-append r xs ys).0, back (In-append r xs ys).1)
  where
    there :
        (In r (xs ++ ys) → In r xs ⊎ In r ys)
        → (x ≡ r) ⊎ In r (xs ++ ys)
        → ((x ≡ r) ⊎ In r xs) ⊎ In r ys
    there f (inl h) = inl (inl h)
    there f (inr h) = elim (f h) [ inl k ↦ inl (inr k) | inr k ↦ inr k ]

    back :
        (In r xs ⊎ In r ys → In r (xs ++ ys))
        → ((x ≡ r) ⊎ In r xs) ⊎ In r ys
        → (x ≡ r) ⊎ In r (xs ++ ys)
    back f (inl (inl h)) = inl h
    back f (inl (inr h)) = inr (f (inl h))
    back f (inr h) = inr (f (inr h))

-- what the loop over keys finds
abbrev pub Collected : Dict Text Ioc → List Text → List Text → Ioc → Type 0
Collected index ks seen r =
    (k : Text) × (elem k ks ≡ true) × (elem k seen ≡ false) × (lookup k index ≡ some r)

behind_head :
    (index : Dict Text Ioc) (j : Text) (ks seen more : List Text) (r : Ioc)
    → ((k : Text) → elem k more ≡ false → elem k seen ≡ false)
    → Collected index ks more r
    → Collected index (j ∷ ks) seen r
behind_head index j ks seen more r f (k, a, b, c) = (k, ground (arith, a), f k b, c)

pub collect-Collected :
    (index : Dict Text Ioc) (ks seen : List Text) (r : Ioc)
    → In r (collect index ks seen)
    → Collected index ks seen r
collect-Collected index [] seen r h = absurd h
collect-Collected index (j ∷ ks) seen r h =
    at_key (lookup j index) (elem j seen) refl refl (λ more. collect-Collected index ks more r) h
  where
    at_key :
        (o : Option Ioc) (old : Bool)
        → lookup j index ≡ o
        → elem j seen ≡ old
        → ((more : List Text) → In r (collect index ks more) → Collected index ks more r)
        → In r (elim o [
          | none ↦ collect index ks seen
          | some x ↦ elim old [
            | true ↦ collect index ks seen
            | false ↦ x ∷ collect index ks (j ∷ seen)
          ]
        ])
        → Collected index (j ∷ ks) seen r
    at_key none old q p ih k = behind_head index j ks seen seen r (λ i e. e) (ih seen k)
    at_key (some x) true q p ih k = behind_head index j ks seen seen r (λ i e. e) (ih seen k)
    at_key (some x) false q p ih (inl k) = (j, ground (arith, beq_refl j), p, q ∙ ap some k)
    at_key (some x) false q p ih (inr k) =
        behind_head index j ks seen (j ∷ seen) r (λ i e. ground (arith, e)) (ih (j ∷ seen) k)

pub Collected-collect :
    (index : Dict Text Ioc) (ks seen : List Text) (r : Ioc) (k : Text)
    → elem k ks ≡ true
    → elem k seen ≡ false
    → lookup k index ≡ some r
    → In r (collect index ks seen)
Collected-collect index [] seen r k a b c = cc
Collected-collect index (j ∷ ks) seen r k a b c =
    at_key (lookup j index) (elem j seen) (j == k) refl refl refl
      (λ more e f. Collected-collect index ks more r k e f c)
  where
    found : {x : Option Ioc} → lookup j index ≡ x → (j == k) ≡ true → some r ≡ x
    found q e = sym c ∙ ap (λ (t : Text). lookup t index) (sym ((text_beq_iff j k).0 e)) ∙ q

    fresh : {x : Bool} → elem j seen ≡ x → (j == k) ≡ true → false ≡ x
    fresh p e = sym b ∙ ap (λ (t : Text). elem t seen) (sym ((text_beq_iff j k).0 e)) ∙ p

    no_match : some r ≡ none → ⊥
    no_match e = cc

    not_old : false ≡ true → ⊥
    not_old e = cc

    first : {x : Ioc} → some r ≡ some x → x ≡ r
    first {x} e = sym (ap (λ (o : Option Ioc). or_else o r) e)

    at_key :
        (o : Option Ioc) (old same : Bool)
        → lookup j index ≡ o
        → elem j seen ≡ old
        → (j == k) ≡ same
        → ((more : List Text)
            → elem k ks ≡ true
            → elem k more ≡ false
            → In r (collect index ks more))
        → In r (elim o [
          | none ↦ collect index ks seen
          | some x ↦ elim old [
            | true ↦ collect index ks seen
            | false ↦ x ∷ collect index ks (j ∷ seen)
          ]
        ])
    at_key none old true q p e ih = absurd (no_match (found q e))
    at_key (some x) true true q p e ih = absurd (not_old (fresh p e))
    at_key (some x) false true q p e ih = inl (first (found q e))
    at_key none old false q p e ih = ih seen (ground (arith, a, e)) b
    at_key (some x) true false q p e ih = ih seen (ground (arith, a, e)) b
    at_key (some x) false false q p e ih =
        inr (ih (j ∷ seen) (ground (arith, a, e)) (ground (arith, b, e)))

-- what the loop over the index finds
abbrev pub Scanned : (Text → Bool) → Dict Text Ioc → List Text → Ioc → Type 0
Scanned hit index seen r =
    (k : Text) × (hit k ≡ true) × (elem k seen ≡ false) × (lookup k index ≡ some r)

-- A key that is not the first is looked up behind it.
behind_first :
    (j k : Text) (x : Ioc) (index : Dict Text Ioc)
    → (j == k) ≡ false
    → lookup k ((j, x) ∷ index) ≡ lookup k index
behind_first j k x index e = rw e refl

first_of :
    (j k : Text) (x : Ioc) (index : Dict Text Ioc)
    → (j == k) ≡ true
    → lookup k ((j, x) ∷ index) ≡ some x
first_of j k x index e = rw e refl

or_false : (a b : Bool) → (a || b) ≡ false → (a ≡ false) × (b ≡ false)
or_false a b h = ground arith

pub scan-Scanned :
    (hit : Text → Bool) (index : Dict Text Ioc) (seen : List Text) (r : Ioc)
    → In r (scan hit index seen)
    → Scanned hit index seen r
scan-Scanned hit [] seen r h = absurd h
scan-Scanned hit ((j, x) ∷ index) seen r h =
    at_test (hit j) (elem j seen) refl refl (λ more. scan-Scanned hit index more r) h
  where
    later :
        Scanned hit index seen r
        → ((k : Text) → hit k ≡ true → elem k seen ≡ false → (j == k) ≡ false)
        → Scanned hit ((j, x) ∷ index) seen r
    later (k, a, b, c) f = (k, a, b, behind_first j k x index (f k a b) ∙ c)

    at_test :
        (hits old : Bool)
        → hit j ≡ hits
        → elem j seen ≡ old
        → ((more : List Text) → In r (scan hit index more) → Scanned hit index more r)
        → In r (elim (hits && not old) [
          | true ↦ x ∷ scan hit index (j ∷ seen)
          | false ↦ scan hit index seen
        ])
        → Scanned hit ((j, x) ∷ index) seen r
    at_test true false p q ih (inl k) = (j, p, q, first_of j j x index (beq_refl j) ∙ ap some k)
    at_test true false p q ih (inr k) =
        let (i, a, b, c) = ih (j ∷ seen) k in
        let (apart, new) = or_false (j == i) (elem i seen) b in
        (i, a, new, behind_first j i x index apart ∙ c)
    at_test true true p q ih k = later (ih seen k) (λ i a b. elim (Bool-cases (j == i)) [
      | inr e ↦ e
      | inl e ↦
          absurd (clash (sym b ∙ ap (λ (t : Text). elem t seen) (sym ((text_beq_iff j i).0 e)) ∙ q))
    ])
      where
        clash : false ≡ true → ⊥
        clash e = cc
    at_test false old p q ih k = later (ih seen k) (λ i a b. elim (Bool-cases (j == i)) [
      | inr e ↦ e
      | inl e ↦ absurd (clash (sym p ∙ ap hit ((text_beq_iff j i).0 e) ∙ a))
    ])
      where
        clash : false ≡ true → ⊥
        clash e = cc

pub Scanned-scan :
    (hit : Text → Bool) (index : Dict Text Ioc) (seen : List Text) (r : Ioc) (k : Text)
    → hit k ≡ true
    → elem k seen ≡ false
    → lookup k index ≡ some r
    → In r (scan hit index seen)
Scanned-scan hit [] seen r k a b c = cc
Scanned-scan hit ((j, x) ∷ index) seen r k a b c =
    at_test (hit j) (elem j seen) (j == k) refl refl refl
      (λ more e f. Scanned-scan hit index more r k a e f)
  where
    first : some x ≡ some r → x ≡ r
    first e = ap (λ (o : Option Ioc). or_else o x) e

    clash : false ≡ true → ⊥
    clash e = cc

    at_test :
        (hits old same : Bool)
        → hit j ≡ hits
        → elem j seen ≡ old
        → (j == k) ≡ same
        → ((more : List Text)
            → elem k more ≡ false
            → lookup k index ≡ some r
            → In r (scan hit index more))
        → In r (elim (hits && not old) [
          | true ↦ x ∷ scan hit index (j ∷ seen)
          | false ↦ scan hit index seen
        ])
    at_test true false true p q e ih = inl (first (sym (first_of j k x index e) ∙ c))
    at_test true true true p q e ih =
        absurd (clash (sym b ∙ ap (λ (t : Text). elem t seen) (sym ((text_beq_iff j k).0 e)) ∙ q))
    at_test false old true p q e ih = absurd (clash (sym p ∙ ap hit ((text_beq_iff j k).0 e) ∙ a))
    at_test true false false p q e ih =
        inr (ih (j ∷ seen) (ground (arith, b, e)) (sym (behind_first j k x index e) ∙ c))
    at_test true true false p q e ih = ih seen b (sym (behind_first j k x index e) ∙ c)
    at_test false old false p q e ih = ih seen b (sym (behind_first j k x index e) ∙ c)
