-- ===== src/Correlations/Groups.antt =====
-- correlations.py: what the loops that group rows put under a key.
use mathlib.Core.List.{append-nil, append_assoc}
use mini_siem.Base.{
  ◌≡◌, refl, sym, ap, inl, inr, Bool, false, ◌&&◌, Option, none, some, List, [], ◌∷◌, ◌++◌,
  if◌then◌else◌, ◌==◌, nat_eq, string_eq, Bool-cases, or_else, keep, Text, text_eq, Dict, lookup,
  lookup-insert, ◌∙◌, true, arith, All, text_beq_iff, insert, beq_refl,
}
use mini_siem.Correlations.{append_if, group_rows}

module _ {ℓ} {A : Type ℓ} (test : A → Bool) (key : A → Option Text) where
  -- the rows of a key, picked by one pass over the rows
  abbrev pub has_key : Text → A → Bool
  has_key k r = test r && (elim (key r) [ none ↦ false | some j ↦ j == k ])

  abbrev pub rows_of : Text → List A → List A
  rows_of k = keep (has_key k)

  append_if-lem :
      (k : Text) (r : A) (o : Option Text) (groups : Dict Text (List A))
      → or_else (lookup k (append_if o r groups)) [] ≡ (
          if (elim o [ none ↦ false | some j ↦ j == k ])
          then or_else (lookup k groups) [] ++ r ∷ []
          else or_else (lookup k groups) [])
  append_if-lem k r none groups = refl
  append_if-lem k r (some j) groups = elim (Bool-cases (j == k)) [
    | inl e ↦
        rw (lookup-insert j k (or_else (lookup j groups) [] ++ r ∷ []) groups, e)
          (ap (λ (x : Text). or_else (lookup x groups) [] ++ r ∷ []) ((text_eq.beq_iff j k).0 e))
    | inr e ↦ rw (lookup-insert j k (or_else (lookup j groups) [] ++ r ∷ []) groups, e) refl
  ]

  -- Under each key stand the rows that pass the test and have the key, in the order of the rows.
  pub group_rows-rows_of :
      (k : Text) (rows : List A) (groups : Dict Text (List A))
      → or_else (lookup k (group_rows test key rows groups)) []
        ≡ or_else (lookup k groups) [] ++ rows_of k rows
  unfolding group_rows
  group_rows-rows_of k [] groups = sym (append-nil (or_else (lookup k groups) []))
  group_rows-rows_of k (r ∷ rows) groups = elim (Bool-cases (test r)) [
    | inl t ↦ rw t (
        group_rows-rows_of k rows (append_if (key r) r groups)
        ∙ ap (λ (xs : List A). xs ++ rows_of k rows) (append_if-lem k r (key r) groups)
        ∙ with_row (elim (key r) [ none ↦ false | some j ↦ j == k ]))
    | inr f ↦ rw f (group_rows-rows_of k rows groups)
  ]
    where
      with_row :
          (b : Bool)
          → (if b then or_else (lookup k groups) [] ++ r ∷ [] else or_else (lookup k groups) [])
              ++ rows_of k rows
            ≡ or_else (lookup k groups) [] ++ (if b then r ∷ rows_of k rows else rows_of k rows)
      with_row true = append_assoc (or_else (lookup k groups) []) (r ∷ []) (rows_of k rows)
      with_row false = refl

-- Keys stand once.
abbrev pub Unique {ℓ} : {A : Type ℓ} → Dict Text A → Type ℓ
Unique [] = Unit
Unique ((k, v) ∷ d) = (lookup k d ≡ none) × Unique d

insert-Unique {ℓ} :
    {A : Type ℓ} (k : Text) (v : A) (d : Dict Text A) → Unique d → Unique (insert k v d)
insert-Unique k v [] u = (refl, tt)
insert-Unique k v ((j, w) ∷ d) u = elim (Bool-cases (j == k)) [
  | inl e ↦ rw e u
  | inr e ↦ rw e (
    lookup-insert k j v d ∙ ground (arith, text_beq_iff k j, text_beq_iff j k),
    insert-Unique k v d u.1,
  )
]

append_if-Unique {ℓ} :
    {A : Type ℓ} (o : Option Text) (r : A) (d : Dict Text (List A))
    → Unique d
    → Unique (append_if o r d)
append_if-Unique none r d u = u
append_if-Unique (some k) r d u = insert-Unique k (or_else (lookup k d) [] ++ r ∷ []) d u

pub group_rows-Unique {ℓ} :
    {A : Type ℓ} (test : A → Bool) (key : A → Option Text) (rows : List A) (d : Dict Text (List A))
    → Unique d
    → Unique (group_rows test key rows d)
unfolding group_rows
group_rows-Unique test key [] d u = u
group_rows-Unique test key (r ∷ rows) d u = elim (Bool-cases (test r)) [
  | inl t ↦
      rw t
        (group_rows-Unique test key rows (append_if (key r) r d) (append_if-Unique (key r) r d u))
  | inr f ↦ rw f (group_rows-Unique test key rows d u)
]

-- Of a dictionary whose keys are unique, every entry is what a lookup finds.
abbrev Found {ℓ} : {A : Type ℓ} → Dict Text A → Text × A → Type ℓ
Found d e = lookup e.0 d ≡ some e.1

Found-cons {ℓ} :
    {A : Type ℓ} (k : Text) (v : A) (d xs : Dict Text A)
    → lookup k d ≡ none
    → All (Found d) xs
    → All (Found ((k, v) ∷ d)) xs
Found-cons k v d [] fresh h = tt
Found-cons k v d ((j, w) ∷ xs) fresh h =
    (ground (arith, text_beq_iff k j, h.0), Found-cons k v d xs fresh h.1)

pub Unique-Found {ℓ} : {A : Type ℓ} (d : Dict Text A) → Unique d → All (Found d) d
Unique-Found [] u = tt
Unique-Found ((k, v) ∷ d) u = (rw (beq_refl k) refl, Found-cons k v d d u.0 (Unique-Found d u.1))

-- Every entry of the grouped dictionary holds exactly the rows of its key.
pub group_rows-All {ℓ} :
    {A : Type ℓ} (test : A → Bool) (key : A → Option Text) (rows : List A)
    → All (λ (e : Text × List A). e.1 ≡ rows_of test key e.0 rows) (group_rows test key rows [])
group_rows-All {A} test key rows =
    entries (group_rows test key rows [])
      (Unique-Found (group_rows test key rows []) (group_rows-Unique test key rows [] tt))
  where
    entries :
        (es : Dict Text (List A))
        → All (Found (group_rows test key rows [])) es
        → All (λ (e : Text × List A). e.1 ≡ rows_of test key e.0 rows) es
    entries [] h = tt
    entries ((k, xs) ∷ es) h = (
      sym (ap (λ (o : Option (List A)). or_else o []) h.0) ∙ group_rows-rows_of test key k rows [],
      entries es h.1,
    )
