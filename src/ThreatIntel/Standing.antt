-- ===== src/ThreatIntel/Standing.antt =====
-- threatintel.py: what it is for a key to stand in an event, without the tests of `check`.
use mathlib.Core.Path.{ap₂}
use mini_siem.Base.{
  ℕ, ◌≡◌, refl, sym, ap, ◌∙◌, ◌≢◌, ◌↔◌, ◌⊎◌, inl, inr, Bool, true, ◌&&◌, ◌||◌, List, [], ◌∷◌, ◌++◌,
  map, arith, string_eq, nat_eq, ◌==◌, Bool-cases, Text, text_beq_iff, text_eq, starts_with,
  is_within, lower, fold_text, beq_refl, elem,
}
use mini_siem.ThreatIntel.{
  if_text, is_text, in_message, in_message_or_host, candidate_ips, IocType, Event, ip, domain, url,
  hash, unknown,
}

-- a text among some
abbrev pub Among : Text → List Text → Type 0
Among k [] = ⊥
Among k (x ∷ xs) = (k ≡ x) ⊎ Among k xs

-- a text within another
abbrev pub Part : Text → Text → Type 0
Part k s = (before : Text) × (after : Text) × (s ≡ before ++ (k ++ after))

starts_with-append : (p after : Text) → starts_with p (p ++ after) ≡ true
starts_with-append [] after = refl
starts_with-append (c ∷ p) after = rw (beq_refl c) (starts_with-append p after)

starts_with-rest : (p s : Text) → starts_with p s ≡ true → (after : Text) × (s ≡ p ++ after)
starts_with-rest [] s h = (s, refl)
starts_with-rest (c ∷ p) [] h = cc
starts_with-rest (c ∷ p) (d ∷ s) h =
    let (same, more) = both (c == d) (starts_with p s) h in
    let (after, split) = starts_with-rest p s more in
    (after, ap₂ (λ (x : ℕ) (t : Text). x ∷ t) (sym ((nat_eq.beq_iff c d).0 same)) split)
  where
    both : (a b : Bool) → (a && b) ≡ true → (a ≡ true) × (b ≡ true)
    both a b h = ground arith

is_within-append : (before k after : Text) → is_within k (before ++ (k ++ after)) ≡ true
is_within-append [] [] after = refl
is_within-append [] (c ∷ p) after =
    let start : starts_with (c ∷ p) ((c ∷ p) ++ after) ≡ true = starts_with-append (c ∷ p) after in
    ground (arith, start)
is_within-append (b ∷ before) [] after = refl
is_within-append (b ∷ before) (c ∷ p) after = ground (arith, is_within-append before (c ∷ p) after)

is_within-Part : (k s : Text) → is_within k s ≡ true → Part k s
is_within-Part [] s h = ([], s, refl)
is_within-Part (c ∷ p) [] h = cc
is_within-Part (c ∷ p) (d ∷ s) h = elim (Bool-cases (starts_with (c ∷ p) (d ∷ s))) [
  | inl e ↦ let (after, split) = starts_with-rest (c ∷ p) (d ∷ s) e in ([], after, split)
  | inr e ↦
      let (before, after, split) = is_within-Part (c ∷ p) s (rw e at h) in
      (d ∷ before, after, ap (λ (t : Text). d ∷ t) split)
]

pub is_within_iff_Part : (k s : Text) → (is_within k s ≡ true) ↔ Part k s
is_within_iff_Part k s = (
  is_within-Part k s,
  λ (before, after, split). ap (is_within k) split ∙ is_within-append before k after,
)

pub elem_iff_Among : (k : Text) (xs : List Text) → (elem k xs ≡ true) ↔ Among k xs
elem_iff_Among k [] = (λ h. cc, λ h. absurd h)
elem_iff_Among k (x ∷ xs) = (
  λ h. elim (Bool-cases (x == k)) [
    | inl e ↦ inl (sym ((text_beq_iff x k).0 e))
    | inr e ↦ inr ((elem_iff_Among k xs).0 (ground (arith, h, e)))
  ],
  back (elem_iff_Among k xs).1,
)
  where
    back : (Among k xs → elem k xs ≡ true) → (k ≡ x) ⊎ Among k xs → (x == k || elem k xs) ≡ true
    back f (inl q) = rw ((text_beq_iff x k).1 (sym q)) refl
    back f (inr h) = ground (arith, f h)

pub Among-append : (k : Text) (xs ys : List Text) → Among k (xs ++ ys) ↔ (Among k xs ⊎ Among k ys)
Among-append k [] ys = (λ h. inr h, last)
  where
    last : ⊥ ⊎ Among k ys → Among k ys
    last (inl h) = absurd h
    last (inr h) = h
Among-append k (x ∷ xs) ys = let (there, back) = Among-append k xs ys in (split there, glue back)
  where
    split :
        (Among k (xs ++ ys) → Among k xs ⊎ Among k ys)
        → (k ≡ x) ⊎ Among k (xs ++ ys)
        → ((k ≡ x) ⊎ Among k xs) ⊎ Among k ys
    split f (inl q) = inl (inl q)
    split f (inr h) = elim (f h) [ inl a ↦ inl (inr a) | inr b ↦ inr b ]

    glue :
        (Among k xs ⊎ Among k ys → Among k (xs ++ ys))
        → ((k ≡ x) ⊎ Among k xs) ⊎ Among k ys
        → (k ≡ x) ⊎ Among k (xs ++ ys)
    glue f (inl (inl q)) = inl q
    glue f (inl (inr h)) = inr (f (inl h))
    glue f (inr h) = inr (f (inr h))

-- a token of the message, in lower case
abbrev pub Token : Text → List Text → Type 0
Token k found = (w : Text) × Among w found × (k ≡ lower w)

pub Among-lower : (k : Text) (found : List Text) → Among k (map lower found) ↔ Token k found
Among-lower k [] = (λ h. absurd h, λ h. absurd h.1)
Among-lower k (w ∷ ws) = let (there, back) = Among-lower k ws in (split there, glue back)
  where
    split :
        (Among k (map lower ws) → Token k ws)
        → (k ≡ lower w) ⊎ Among k (map lower ws)
        → Token k (w ∷ ws)
    split f (inl q) = (w, inl refl, q)
    split f (inr h) = let (v, a, q) = f h in (v, inr a, q)

    glue :
        (Token k ws → Among k (map lower ws))
        → Token k (w ∷ ws)
        → (k ≡ lower w) ⊎ Among k (map lower ws)
    glue f (v, inl e, q) = inl (q ∙ ap lower e)
    glue f (v, inr a, q) = inr (f (v, a, q))

-- a field of the event that is not empty, without the blanks around it and in lower case
abbrev pub Field : Text → Text → Type 0
Field k field = (field ≢ []) × (k ≡ fold_text field)

pub Among-if_text : (k field : Text) → Among k (if_text field) ↔ Field k field
Among-if_text k [] = (λ h. absurd h, λ h. absurd (h.0 refl))
Among-if_text k (c ∷ s) = (there, λ h. inl h.1)
  where
    no_text : c ∷ s ≢ []
    no_text q = cc

    there : (k ≡ fold_text (c ∷ s)) ⊎ ⊥ → Field k (c ∷ s)
    there (inl q) = (no_text, q)
    there (inr h) = absurd h

pub is_text-eq : (k : Text) → (is_text k ≡ true) ↔ (k ≢ [])
is_text-eq [] = (λ h. cc, λ h. absurd (h refl))
is_text-eq (c ∷ s) = (λ h q. cc, λ h. refl)

or_parts : (a b : Bool) → ((a || b) ≡ true) ↔ ((a ≡ true) ⊎ (b ≡ true))
or_parts a b = ground arith

and_parts : (a b : Bool) → ((a && b) ≡ true) ↔ ((a ≡ true) × (b ≡ true))
and_parts a b = ground arith

module _ (find_ips find_hashes : Text → List Text) where
  -- How a key stands in an event, by its kind. An address is the source, the host name or an address
  -- found in the message; a hash is one found in the message; a URL is a part of the message; a domain
  -- is a part of the message or equals the host name. All but the key without regard to case.
  abbrev pub Appears : IocType → Event → Text → Type 0
  Appears ip e k = Field k e.source_ip ⊎ Field k e.hostname ⊎ Token k (find_ips e.message)
  Appears hash e k = Token k (find_hashes e.message)
  Appears url e k = (k ≢ []) × Part k (lower e.message)
  Appears domain e k = (k ≢ []) × (Part k (lower e.message) ⊎ (k ≡ lower e.hostname))
  Appears unknown e k = ⊥

  pub candidate_ips-Appears :
      (e : Event) (k : Text)
      → (elem k (candidate_ips find_ips find_hashes e) ≡ true) ↔ Appears ip e k
  candidate_ips-Appears e k = (
    λ h. there ((elem_iff_Among k (candidate_ips find_ips find_hashes e)).0 h),
    λ h. (elem_iff_Among k (candidate_ips find_ips find_hashes e)).1 (back h),
  )
    where
      found : List Text
      found = map lower (find_ips e.message)

      there : Among k (candidate_ips find_ips find_hashes e) → Appears ip e k
      there h = elim ((Among-append k (if_text e.source_ip ++ if_text e.hostname) found).0 h) [
        | inr a ↦ inr (inr ((Among-lower k (find_ips e.message)).0 a))
        | inl a ↦ elim ((Among-append k (if_text e.source_ip) (if_text e.hostname)).0 a) [
          | inl b ↦ inl ((Among-if_text k e.source_ip).0 b)
          | inr b ↦ inr (inl ((Among-if_text k e.hostname).0 b))
        ]
      ]

      back : Appears ip e k → Among k (candidate_ips find_ips find_hashes e)
      back h = (Among-append k (if_text e.source_ip ++ if_text e.hostname) found).1 (elim h [
        | inl a ↦ inl (
            (Among-append k (if_text e.source_ip) (if_text e.hostname)).1
              (inl ((Among-if_text k e.source_ip).1 a)))
        | inr (inl a) ↦ inl (
            (Among-append k (if_text e.source_ip) (if_text e.hostname)).1
              (inr ((Among-if_text k e.hostname).1 a)))
        | inr (inr a) ↦ inr ((Among-lower k (find_ips e.message)).1 a)
      ])

  pub hashes-Appears :
      (e : Event) (k : Text)
      → (elem k (map lower (find_hashes e.message)) ≡ true) ↔ Appears hash e k
  hashes-Appears e k =
      let (a, b) = elem_iff_Among k (map lower (find_hashes e.message)) in
      let (c, d) = Among-lower k (find_hashes e.message) in (λ h. c (a h), λ h. b (d h))

  pub in_message-Appears : (e : Event) (k : Text) → (in_message e k ≡ true) ↔ Appears url e k
  in_message-Appears e k =
      let (a, b) = and_parts (is_text k) (is_within k (lower e.message)) in
      let (c, d) = is_text-eq k in
      let (f, g) = is_within_iff_Part k (lower e.message) in
      (λ h. (c (a h).0, f (a h).1), λ h. b (d h.0, g h.1))

  pub in_message_or_host-Appears :
      (e : Event) (k : Text) → (in_message_or_host e k ≡ true) ↔ Appears domain e k
  in_message_or_host-Appears e k =
      let within = is_within k (lower e.message) in
      let (a, b) = and_parts (is_text k) (within || k == lower e.hostname) in
      let (c, d) = is_text-eq k in
      let (m, n) = or_parts within (k == lower e.hostname) in
      let (f, g) = is_within_iff_Part k (lower e.message) in
      let (x, y) = text_beq_iff k (lower e.hostname) in
      (
        λ h. (c (a h).0, elim (m (a h).1) [ inl p ↦ inl (f p) | inr q ↦ inr (x q) ]),
        λ h. b (d h.0, n (elim h.1 [ inl p ↦ inl (g p) | inr q ↦ inr (y q) ])),
      )
