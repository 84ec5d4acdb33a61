-- ===== src/Listener/Cef/Header.antt =====
-- listener.py, `_split_cef_payload`: a header written with escapes is read back.
use mathlib.Core.List.{append_assoc, append-nil}
use mathlib.Core.Path.{ap₂}
use mini_siem.Base.{
  ℕ, ◌+◌, ◌<◌, ◌≡◌, refl, sym, ap, ◌∙◌, ◌⊎◌, inl, inr, Bool, true, false, ◌&&◌, ◌||◌, Option, none,
  some, List, [], ◌∷◌, ◌++◌, map, arith, ltb, if◌then◌else◌, string_eq, nat_eq, ◌==◌, Bool-cases,
  length, length-append, Text, codes, text_eq, not, all_of, All, is_space, lstrip, rstrip_cons,
  rstrip,
}
use mini_siem.Listener.Cef.{
  cut, mapped, cef_unescape, find_cef, is_version, header_of, split_cef_payload,
}

-- what stands behind a backslash for a character that is escaped
abbrev pub escaped_as : ℕ → Option ℕ
escaped_as c =
    if c == b'\\' || c == b'=' || c == b'|'
    then some c
    else if c == b'\n'
    then some b'n'
    else if c == b'\r'
    then some b'r'
    else none

abbrev pub escape : Text → Text
escape [] = []
escape (c ∷ s) =
    let rest = escape s in elim (escaped_as c) [ none ↦ c ∷ rest | some e ↦ b'\\' ∷ e ∷ rest ]

-- fields, each with a bar behind it, and the extension
abbrev pub written : List Text → Text → Text
written [] extension = extension
written (f ∷ fs) extension = escape f ++ b'|' ∷ written fs extension

-- A character that is not escaped is no backslash and no bar; one that is escaped decodes.
escape_cases :
    (c : ℕ)
    → (escaped_as c ≡ none) × ((c == b'\\') ≡ false) × ((c == b'|') ≡ false)
      ⊎ (e : ℕ) × (escaped_as c ≡ some e) × (mapped e ≡ some c)
escape_cases c = elim (Bool-cases (c == b'\\' || c == b'=' || c == b'|')) [
  | inl h ↦ inr (c, rw h refl, kept h)
  | inr h ↦ elim (Bool-cases (c == b'\n')) [
    | inl n ↦ inr (b'n', rw (h, n) refl, ap some (sym ((nat_eq.beq_iff c b'\n').0 n)))
    | inr n ↦ elim (Bool-cases (c == b'\r')) [
      | inl r ↦ inr (b'r', rw (h, n, r) refl, ap some (sym ((nat_eq.beq_iff c b'\r').0 r)))
      | inr r ↦ inl (rw (h, n, r) refl, ground (arith, h), ground (arith, h))
    ]
  ]
]
  where
    kept : (c == b'\\' || c == b'=' || c == b'|') ≡ true → mapped c ≡ some c
    kept h =
        let n : (c == b'n') ≡ false = ground (arith, h) in
        let r : (c == b'r') ≡ false = ground (arith, h) in rw (n, r, h) refl

cef_unescape-cons :
    (c : ℕ) (s : Text) → (c == b'\\') ≡ false → cef_unescape (c ∷ s) ≡ c ∷ cef_unescape s
unfolding cef_unescape
cef_unescape-cons c [] h = refl
cef_unescape-cons c (d ∷ s) h = rw h refl

escape-plain : (c : ℕ) (s : Text) → escaped_as c ≡ none → escape (c ∷ s) ≡ c ∷ escape s
escape-plain c s h =
    ap (λ (o : Option ℕ). elim o [ none ↦ c ∷ escape s | some e ↦ b'\\' ∷ e ∷ escape s ]) h

escape-some : (c e : ℕ) (s : Text) → escaped_as c ≡ some e → escape (c ∷ s) ≡ b'\\' ∷ e ∷ escape s
escape-some c e s h =
    ap (λ (o : Option ℕ). elim o [ none ↦ c ∷ escape s | some e ↦ b'\\' ∷ e ∷ escape s ]) h

cef_unescape-some :
    (c e : ℕ) (s : Text) → mapped e ≡ some c → cef_unescape (b'\\' ∷ e ∷ s) ≡ c ∷ cef_unescape s
unfolding cef_unescape
cef_unescape-some c e s h =
    ap
      (λ (o : Option ℕ). elim o [
        | none ↦ b'\\' ∷ cef_unescape (e ∷ s)
        | some m ↦ m ∷ cef_unescape s
      ])
      h

pub cef_unescape-escape : (s : Text) → cef_unescape (escape s) ≡ s
unfolding cef_unescape
cef_unescape-escape [] = refl
cef_unescape-escape (c ∷ s) = elim (escape_cases c) [
  | inl (none_as, plain, bar) ↦
      ap cef_unescape (escape-plain c s none_as)
      ∙ cef_unescape-cons c (escape s) plain
      ∙ ap (λ (t : Text). c ∷ t) (cef_unescape-escape s)
  | inr (e, is_e, decodes) ↦
      ap cef_unescape (escape-some c e s is_e)
      ∙ cef_unescape-some c e (escape s) decodes
      ∙ ap (λ (t : Text). c ∷ t) (cef_unescape-escape s)
]

cut-plain :
    (fields : List Text) (buf : Text) (c : ℕ) (s : Text)
    → (c == b'\\') ≡ false
    → (c == b'|' && ltb (length fields) 7) ≡ false
    → cut fields buf false (c ∷ s) ≡ cut fields (buf ++ c ∷ []) false s
unfolding cut
cut-plain fields buf c s h k = rw (h, k, cut) refl

cut-bar :
    (fields : List Text) (buf s : Text)
    → length fields < 7
    → cut fields buf false (b'|' ∷ s) ≡ cut (fields ++ buf ∷ []) [] false s
unfolding cut
cut-bar fields buf s h = let few : ltb (length fields) 7 ≡ true = ground arith in rw (few, cut) refl

-- A field is taken as it is written.
cut-escape :
    (fields : List Text) (buf f t : Text)
    → cut fields buf false (escape f ++ t) ≡ cut fields (buf ++ escape f) false t
unfolding cut
cut-escape fields buf [] t = ap (λ (b : Text). cut fields b false t) (sym (append-nil buf))
cut-escape fields buf (c ∷ f) t = elim (escape_cases c) [
  | inl (none_as, plain, bar) ↦
      let is_plain = escape-plain c f none_as in
      ap (λ (x : Text). cut fields buf false (x ++ t)) is_plain
      ∙ cut-plain fields buf c (escape f ++ t) plain (ground (arith, bar))
      ∙ cut-escape fields (buf ++ c ∷ []) f t
      ∙ ap (λ (b : Text). cut fields b false t)
          (append_assoc buf (c ∷ []) (escape f) ∙ ap (λ (x : Text). buf ++ x) (sym is_plain))
  | inr (e, is_e, decodes) ↦
      let is_some_e = escape-some c e f is_e in
      ap (λ (x : Text). cut fields buf false (x ++ t)) is_some_e
      ∙ cut-escape fields (buf ++ b'\\' ∷ e ∷ []) f t
      ∙ ap (λ (b : Text). cut fields b false t)
          (append_assoc buf (b'\\' ∷ e ∷ []) (escape f)
            ∙ ap (λ (x : Text). buf ++ x) (sym is_some_e))
]

-- Behind the seventh bar all is the extension.
cut-rest :
    (fields : List Text) (buf : Text) (escaped : Bool) (s : Text)
    → length fields ≡ 7
    → cut fields buf escaped s ≡ fields ++ (if escaped then buf ++ b'\\' ∷ s else buf ++ s) ∷ []
unfolding cut
cut-rest fields buf true [] h = refl
cut-rest fields buf false [] h = ap (λ (b : Text). fields ++ b ∷ []) (sym (append-nil buf))
cut-rest fields buf true (c ∷ s) h =
    cut-rest fields (buf ++ b'\\' ∷ c ∷ []) false s h
    ∙ ap (λ (b : Text). fields ++ b ∷ []) (append_assoc buf (b'\\' ∷ c ∷ []) s)
cut-rest fields buf false (c ∷ s) h = elim (Bool-cases (c == b'\\')) [
  | inl e ↦
      rw (e, cut)
        (cut-rest fields buf true s h
          ∙ ap (λ (d : ℕ). fields ++ (buf ++ d ∷ s) ∷ []) (sym ((nat_eq.beq_iff c b'\\').0 e)))
  | inr e ↦
      cut-plain fields buf c s e (ground (arith, h))
      ∙ cut-rest fields (buf ++ c ∷ []) false s h
      ∙ ap (λ (b : Text). fields ++ b ∷ []) (append_assoc buf (c ∷ []) s)
]

cut-written :
    (fields gs : List Text) (extension : Text)
    → length fields + length gs ≡ 7
    → cut fields [] false (written gs extension) ≡ (fields ++ map escape gs) ++ extension ∷ []
cut-written fields [] extension h =
    cut-rest fields [] false extension (omega arith)
    ∙ ap (λ (fs : List Text). fs ++ extension ∷ []) (sym (append-nil fields))
cut-written fields (g ∷ gs) extension h =
    cut-escape fields [] g (b'|' ∷ written gs extension)
    ∙ cut-bar fields (escape g) (written gs extension) (omega arith)
    ∙ cut-written (fields ++ escape g ∷ []) gs extension
        (omega (arith, length-append fields (escape g ∷ [])))
    ∙ ap (λ (fs : List Text). fs ++ extension ∷ [])
        (append_assoc fields (escape g ∷ []) (map escape gs))

map_unescape : (fs : List Text) → map cef_unescape (map escape fs) ≡ fs
map_unescape [] = refl
map_unescape (f ∷ fs) =
    ap₂ (λ (x : Text) (xs : List Text). x ∷ xs) (cef_unescape-escape f) (map_unescape fs)

-- no blank, and not escaped
abbrev pub IsPlain : ℕ → Type 0
IsPlain c = (is_space c ≡ false) × (escaped_as c ≡ none)

escape_plain_text : (s : Text) → All IsPlain s → escape s ≡ s
escape_plain_text [] h = refl
escape_plain_text (c ∷ s) (h, hs) =
    escape-plain c s h.1 ∙ ap (λ (t : Text). c ∷ t) (escape_plain_text s hs)

rstrip_plain : (s : Text) → All IsPlain s → rstrip s ≡ s
unfolding rstrip
rstrip_plain [] h = refl
rstrip_plain (c ∷ s) (h, hs) = ap (rstrip_cons c) (rstrip_plain s hs) ∙ last s
  where
    last : (t : Text) → rstrip_cons c t ≡ c ∷ t
    last [] = rw h.0 refl
    last (d ∷ t) = refl

lstrip_plain : (s : Text) → All IsPlain s → lstrip s ≡ s
unfolding lstrip
lstrip_plain [] h = refl
lstrip_plain (c ∷ s) (h, hs) = rw h.0 refl

module _ (is_decimal : ℕ → Bool) (decimals : (c : ℕ) → is_decimal c ≡ true → IsPlain c) where
  All-IsPlain : (s : Text) → all_of is_decimal s ≡ true → All IsPlain s
  All-IsPlain [] h = tt
  All-IsPlain (c ∷ s) h = (decimals c (ground (arith, h)), All-IsPlain s (ground (arith, h)))

  version-IsPlain :
      (d : ℕ) (ds : Text) → all_of is_decimal (d ∷ ds) ≡ true → All IsPlain (codes "CEF:" ++ d ∷ ds)
  version-IsPlain d ds h =
      ((refl, refl), ((refl, refl), ((refl, refl), ((refl, refl), All-IsPlain (d ∷ ds) h))))

  -- Where no decimal digit is a blank or a character that is escaped: a header of a version, which is
  -- `CEF:` and decimal digits, and six texts, written with escapes, is split into these texts, whatever
  -- they are, and what stands behind it is the extension, unchanged.
  pub split_cef_payload-written :
      (d : ℕ) (ds vendor product device signature name level extension : Text)
      → all_of is_decimal (d ∷ ds) ≡ true
      → split_cef_payload is_decimal (
          written
            ((codes "CEF:" ++ d ∷ ds) ∷ vendor ∷ product ∷ device ∷ signature ∷ name ∷ level ∷ [])
            extension)
        ≡ some (
          (codes "CEF:" ++ d ∷ ds) ∷ vendor ∷ product ∷ device ∷ signature ∷ name ∷ level ∷ [],
          extension,
        )
  unfolding split_cef_payload find_cef
  split_cef_payload-written d ds vendor product device signature name level extension h =
      let version = codes "CEF:" ++ d ∷ ds in
      let fields = version ∷ vendor ∷ product ∷ device ∷ signature ∷ name ∷ level ∷ [] in
      let plain = version-IsPlain d ds h in
      ap (header_of is_decimal) (cut-written [] fields extension refl)
      ∙ accepted (is_version is_decimal (rstrip (lstrip (escape version)))) (
          ap (λ (v : Text). is_version is_decimal (rstrip (lstrip v)))
            (escape_plain_text version plain)
          ∙ ap (λ (v : Text). is_version is_decimal (rstrip v)) (lstrip_plain version plain)
          ∙ ap (is_version is_decimal) (rstrip_plain version plain)
          ∙ ground (arith, h))
      ∙ ap (λ (fs : List Text). some (fs, extension)) (map_unescape fields)
    where
      accepted :
          {A : Type 0} {x : A} (ok : Bool) → ok ≡ true → (if not ok then none else some x) ≡ some x
      accepted true e = refl
      accepted false e = cc
