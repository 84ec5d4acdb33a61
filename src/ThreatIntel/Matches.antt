-- ===== src/ThreatIntel/Matches.antt =====
-- threatintel.py: the matches of an event are the current rows that it touches.
use mathlib.Core.Path.{subst, ap₂}
use mini_siem.Base.{
  ◌≡◌, refl, sym, ap, ◌∙◌, Bool, true, false, ◌&&◌, Option, none, some, List, [], ◌∷◌, ◌++◌, map,
  arith, if◌then◌else◌, string_eq, nat_eq, ◌==◌, or_else, length, Text, text_beq_iff, text_eq,
  lower, Dict, lookup, lookup-insert, elem, ◌↔◌, ◌⊎◌, inl, inr,
}
use mini_siem.ThreatIntel.Standing.{
  Appears, candidate_ips-Appears, hashes-Appears, in_message-Appears, in_message_or_host-Appears,
}
use mini_siem.ThreatIntel.Loops.{
  In, In-append, collect-Collected, Collected-collect, scan-Scanned, Scanned-scan,
}
use mini_siem.ThreatIntel.{
  Ioc, add_row, add_rows, reload, collect, scan, in_message, in_message_or_host, candidate_ips,
  IocType, Event, Index, ip, domain, url, hash, unknown, check,
}

-- the same kind, one of the four
abbrev pub same_type : IocType → IocType → Bool
same_type ip ip = true
same_type domain domain = true
same_type url url = true
same_type hash hash = true
same_type _ _ = false

same_type-eq : (s t : IocType) → same_type s t ≡ true → s ≡ t
same_type-eq ip ip h = refl
same_type-eq domain domain h = refl
same_type-eq url url h = refl
same_type-eq hash hash h = refl
same_type-eq _ _ h = cc

abbrev pub is_row : IocType → Text → Ioc → Bool
is_row t k r = same_type r.ioc_type t && r.value_norm == k

-- the row of a kind and key that the index has: the last one
abbrev pub find_last : IocType → Text → List Ioc → Option Ioc
find_last t k [] = none
find_last t k (r ∷ rs) = elim (find_last t k rs) [
  | some x ↦ some x
  | none ↦ if is_row t k r then some r else none
]

abbrev dict_of : IocType → Index → Dict Text Ioc
dict_of ip i = i.ips
dict_of domain i = i.domains
dict_of url i = i.urls
dict_of hash i = i.hashes
dict_of unknown i = []

lookup-add_row :
    (s t : IocType) (r : Ioc) (i : Index) (k : Text)
    → lookup k (dict_of t (add_row s r i))
      ≡ (if same_type s t && r.value_norm == k then some r else lookup k (dict_of t i))
lookup-add_row ip ip r i k = lookup-insert r.value_norm k r i.ips
lookup-add_row domain domain r i k = lookup-insert r.value_norm k r i.domains
lookup-add_row url url r i k = lookup-insert r.value_norm k r i.urls
lookup-add_row hash hash r i k = lookup-insert r.value_norm k r i.hashes
lookup-add_row _ _ r i k = refl

abbrev first_or : Option Ioc → Option Ioc → Option Ioc
first_or (some x) o = some x
first_or none o = o

lookup-add_rows :
    (t : IocType) (k : Text) (rows : List Ioc) (i : Index)
    → lookup k (dict_of t (add_rows rows i))
      ≡ first_or (find_last t k rows) (lookup k (dict_of t i))
unfolding add_rows
lookup-add_rows t k [] i = refl
lookup-add_rows t k (r ∷ rs) i =
    lookup-add_rows t k rs (add_row r.ioc_type r i)
    ∙ ap (first_or (find_last t k rs)) (lookup-add_row r.ioc_type t r i k)
    ∙ at_last (find_last t k rs) (is_row t k r)
  where
    at_last :
        (o : Option Ioc) (b : Bool)
        → first_or o (if b then some r else lookup k (dict_of t i))
          ≡ first_or
              (elim o [ some x ↦ some x | none ↦ if b then some r else none ])
              (lookup k (dict_of t i))
    at_last none true = refl
    at_last none false = refl
    at_last (some x) b = refl

add_rows-count : (rows : List Ioc) (i : Index) → (add_rows rows i).count ≡ i.count
unfolding add_rows
add_rows-count [] i = refl
add_rows-count (r ∷ rs) i = add_rows-count rs (add_row r.ioc_type r i) ∙ one r.ioc_type
  where
    one : (s : IocType) → (add_row s r i).count ≡ i.count
    one ip = refl
    one domain = refl
    one url = refl
    one hash = refl
    one unknown = refl

reload-count : (rows : List Ioc) → (reload rows).count ≡ length rows
unfolding reload
reload-count rows = add_rows-count rows _

find_last-is_row :
    (t : IocType) (k : Text) (rows : List Ioc) (r : Ioc)
    → find_last t k rows ≡ some r
    → (r.ioc_type ≡ t) × (r.value_norm ≡ k)
find_last-is_row t k [] r h = cc
find_last-is_row t k (x ∷ rows) r h =
    at_last (find_last t k rows) (is_row t k x) refl refl h (find_last-is_row t k rows r)
  where
    at_last :
        (o : Option Ioc) (b : Bool)
        → find_last t k rows ≡ o
        → is_row t k x ≡ b
        → (elim o [ some y ↦ some y | none ↦ if b then some x else none ]) ≡ some r
        → (find_last t k rows ≡ some r → (r.ioc_type ≡ t) × (r.value_norm ≡ k))
        → (r.ioc_type ≡ t) × (r.value_norm ≡ k)
    at_last (some y) b q p e ih = ih (q ∙ e)
    at_last none false q p e ih = cc
    at_last none true q p e ih =
        subst (λ (y : Ioc). (y.ioc_type ≡ t) × (y.value_norm ≡ k))
          (ap (λ (o : Option Ioc). or_else o x) e)
          (
            same_type-eq x.ioc_type t (ground (arith, p)),
            (text_beq_iff x.value_norm k).0 (ground (arith, p)),
          )

module _ (find_ips find_hashes : Text → List Text) where
  -- A key of a kind stands in the event.
  abbrev touches : IocType → Event → Text → Bool
  touches ip e k = elem k (candidate_ips find_ips find_hashes e)
  touches hash e k = elem k (map lower (find_hashes e.message))
  touches url e k = in_message e k
  touches domain e k = in_message_or_host e k
  touches unknown e k = false

  -- a row that the index has and that stands in the event
  abbrev Tested : List Ioc → Event → Ioc → Type 0
  Tested rows e r =
      (find_last r.ioc_type r.value_norm rows ≡ some r) × (touches r.ioc_type e r.value_norm ≡ true)

  abbrev all_loops : Index → Event → List Ioc
  all_loops i e =
      collect i.ips (candidate_ips find_ips find_hashes e) []
      ++ collect i.hashes (map lower (find_hashes e.message)) []
      ++ scan (in_message e) i.urls []
      ++ scan (in_message_or_host e) i.domains []

  key-Tested :
      (t : IocType) (k : Text) (rows : List Ioc) (e : Event) (r : Ioc)
      → touches t e k ≡ true
      → lookup k (dict_of t (reload rows)) ≡ some r
      → Tested rows e r
  unfolding reload
  key-Tested t k rows e r hit found =
      let last : find_last t k rows ≡ some r =
        alone t (find_last t k rows) (sym (lookup-add_rows t k rows _) ∙ found) in
      let (is_t, is_k) = find_last-is_row t k rows r last in
      (
        ap₂ (λ (s : IocType) (j : Text). find_last s j rows) is_t is_k ∙ last,
        ap₂ (λ (s : IocType) (j : Text). touches s e j) is_t is_k ∙ hit,
      )
    where
      alone :
          (s : IocType) (o : Option Ioc)
          → first_or o (
              lookup k (
                dict_of s
                  (record { ips = []; domains = []; urls = []; hashes = []; count = length rows })))
            ≡ some r
          → o ≡ some r
      alone s (some x) q = q
      alone ip none q = cc
      alone domain none q = cc
      alone url none q = cc
      alone hash none q = cc
      alone unknown none q = cc

  -- the loops over an index one after the other, by the four of them
  In-all_loops :
      (i : Index) (e : Event) (r : Ioc)
      → In r (all_loops i e) ↔ (
          In r (collect i.ips (candidate_ips find_ips find_hashes e) [])
          ⊎ In r (collect i.hashes (map lower (find_hashes e.message)) [])
          ⊎ In r (scan (in_message e) i.urls [])
          ⊎ In r (scan (in_message_or_host e) i.domains []))
  In-all_loops i e r =
      let ws = collect i.ips (candidate_ips find_ips find_hashes e) [] in
      let xs = collect i.hashes (map lower (find_hashes e.message)) [] in
      let ys = scan (in_message e) i.urls [] in
      let zs = scan (in_message_or_host e) i.domains [] in
      (
        λ h. elim ((In-append r (ws ++ xs ++ ys) zs).0 h) [
          | inr k ↦ inr (inr (inr k))
          | inl k ↦ elim ((In-append r (ws ++ xs) ys).0 k) [
            | inr l ↦ inr (inr (inl l))
            | inl l ↦ elim ((In-append r ws xs).0 l) [ inl m ↦ inl m | inr m ↦ inr (inl m) ]
          ]
        ],
        λ h. (In-append r (ws ++ xs ++ ys) zs).1 (elim h [
          | inl k ↦ inl ((In-append r (ws ++ xs) ys).1 (inl ((In-append r ws xs).1 (inl k))))
          | inr (inl k) ↦ inl ((In-append r (ws ++ xs) ys).1 (inl ((In-append r ws xs).1 (inr k))))
          | inr (inr (inl k)) ↦ inl ((In-append r (ws ++ xs) ys).1 (inr k))
          | inr (inr (inr k)) ↦ inr k
        ]),
      )

  all_loops-Tested :
      (rows : List Ioc) (e : Event) (r : Ioc) → In r (all_loops (reload rows) e) → Tested rows e r
  all_loops-Tested rows e r h = elim ((In-all_loops (reload rows) e r).0 h) [
    | inl k ↦
        let (j, a, b, c) =
          collect-Collected (reload rows).ips (candidate_ips find_ips find_hashes e) [] r k in
        key-Tested ip j rows e r a c
    | inr (inl k) ↦
        let (j, a, b, c) =
          collect-Collected (reload rows).hashes (map lower (find_hashes e.message)) [] r k in
        key-Tested hash j rows e r a c
    | inr (inr (inl k)) ↦
        let (j, a, b, c) = scan-Scanned (in_message e) (reload rows).urls [] r k in
        key-Tested url j rows e r a c
    | inr (inr (inr k)) ↦
        let (j, a, b, c) = scan-Scanned (in_message_or_host e) (reload rows).domains [] r k in
        key-Tested domain j rows e r a c
  ]

  Tested-all_loops :
      (rows : List Ioc) (e : Event) (r : Ioc) → Tested rows e r → In r (all_loops (reload rows) e)
  unfolding reload
  Tested-all_loops rows e r (last, hit) = (In-all_loops (reload rows) e r).1 (
      by_type r.ioc_type hit (
        lookup-add_rows r.ioc_type r.value_norm rows _
        ∙ ap
            (λ (o : Option Ioc). first_or o (
              lookup r.value_norm (
                dict_of r.ioc_type (record {
                  ips = [];
                  domains = [];
                  urls = [];
                  hashes = [];
                  count = length rows;
                }))))
            last))
    where
      by_type :
          (t : IocType)
          → touches t e r.value_norm ≡ true
          → lookup r.value_norm (dict_of t (reload rows)) ≡ some r
          → In r (collect (reload rows).ips (candidate_ips find_ips find_hashes e) [])
            ⊎ In r (collect (reload rows).hashes (map lower (find_hashes e.message)) [])
            ⊎ In r (scan (in_message e) (reload rows).urls [])
            ⊎ In r (scan (in_message_or_host e) (reload rows).domains [])
      by_type ip h q = inl (
          Collected-collect (reload rows).ips (candidate_ips find_ips find_hashes e) [] r
            r.value_norm h refl q)
      by_type hash h q = inr (
          inl (
            Collected-collect (reload rows).hashes (map lower (find_hashes e.message)) [] r
              r.value_norm h refl q))
      by_type url h q =
          inr
            (inr (inl (Scanned-scan (in_message e) (reload rows).urls [] r r.value_norm h refl q)))
      by_type domain h q = inr (
          inr (
            inr (
              Scanned-scan (in_message_or_host e) (reload rows).domains [] r r.value_norm h refl
                q)))
      by_type unknown h q = cc

  check_iff_Tested :
      (rows : List Ioc) (e : Event) (r : Ioc)
      → In r (check find_ips find_hashes (reload rows) e) ↔ Tested rows e r
  unfolding check
  check_iff_Tested rows e r = by_count ((reload rows).count == 0) refl
    where
      no_rows : (xs : List Ioc) → length xs ≡ 0 → find_last r.ioc_type r.value_norm xs ≡ some r → ⊥
      no_rows [] h q = cc
      no_rows (x ∷ xs) h q = omega arith

      by_count :
          (empty : Bool)
          → ((reload rows).count == 0) ≡ empty
          → In r (if empty then [] else all_loops (reload rows) e) ↔ Tested rows e r
      by_count true q = (
        λ h. absurd h,
        λ h. absurd (
            no_rows rows (sym (reload-count rows) ∙ (nat_eq.beq_iff (reload rows).count 0).0 q)
              h.0),
      )
      by_count false q = (all_loops-Tested rows e r, Tested-all_loops rows e r)

  touches-Appears :
      (t : IocType) (e : Event) (k : Text)
      → (touches t e k ≡ true) ↔ Appears find_ips find_hashes t e k
  touches-Appears ip e k = candidate_ips-Appears find_ips find_hashes e k
  touches-Appears hash e k = hashes-Appears find_ips find_hashes e k
  touches-Appears url e k = in_message-Appears find_ips find_hashes e k
  touches-Appears domain e k = in_message_or_host-Appears find_ips find_hashes e k
  touches-Appears unknown e k = (λ h. cc, λ h. absurd h)

  -- a row that the index has and that stands in the event
  abbrev pub Touched : List Ioc → Event → Ioc → Type 0
  Touched rows e r =
      (find_last r.ioc_type r.value_norm rows ≡ some r)
      × Appears find_ips find_hashes r.ioc_type e r.value_norm

  -- An indicator is among the matches of an event exactly when it is the row that the table has last
  -- of its kind and key, and its key stands in the event: an address as the source, the host name or
  -- one found in the message, a hash as one found in the message, a URL as a part of the message, a
  -- domain as a part of the message or as the whole host name.
  pub check_iff_Touched :
      (rows : List Ioc) (e : Event) (r : Ioc)
      → In r (check find_ips find_hashes (reload rows) e) ↔ Touched rows e r
  check_iff_Touched rows e r =
      let (a, b) = check_iff_Tested rows e r in
      let (c, d) = touches-Appears r.ioc_type e r.value_norm in
      (λ h. ((a h).0, c (a h).1), λ h. b (h.0, d h.1))
