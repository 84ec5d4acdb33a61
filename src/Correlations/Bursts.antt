-- ===== src/Correlations/Bursts.antt =====
-- correlations.py, `_run_sequence`: the bursts reported for a key, told from a log of its events A
-- that nothing is dropped from between two bursts.
use mini_siem.Base.{
  ℕ, ◌+◌, ◌-◌, ◌≤◌, ◌≡◌, refl, sym, ap, ◌∙◌, inl, inr, Bool, true, false, not, ◌&&◌, none, some,
  List, [], ◌∷◌, ◌++◌, arith, ltb, leb, if◌then◌else◌, string_eq, nat_eq, Bool-cases, length,
  text_eq, Option,
}
use mini_siem.Correlations.{Row}
use mini_siem.Correlations.Sequence.{
  Marked, within, a_ids, burst_of, note_a, is_nil, Burst, sequence_step, sequence_at, sequence_loop,
}

-- the events A of the log that are at most `max_gap` before `ts`
abbrev pub since : ℕ → ℕ → List (ℕ × Row) → List (ℕ × Row)
since max_gap ts [] = []
since max_gap ts ((t, r) ∷ log) =
    let rest = since max_gap ts log in if ltb (t + max_gap) ts then rest else (t, r) ∷ rest

-- the log after an event
abbrev pub logged : ℕ → Marked → List (ℕ × Row) → List (ℕ × Row)
logged ts m log = if m.is_a then log ++ (ts, m.row) ∷ [] else log

abbrev pub row_ids : List (ℕ × Row) → List ℕ
row_ids [] = []
row_ids ((t, r) ∷ xs) = r.id ∷ row_ids xs

-- The burst tells of the event B `m` at the time `ts` and the events A of `window`: their number, the
-- time since the first of them, and the rows of all of them with that of the B behind.
abbrev pub Tells : ℕ → Marked → List (ℕ × Row) → Burst → Type 0
Tells ts m [] b = ⊥
Tells ts m ((t, r) ∷ xs) b =
    (b.a_count ≡ length xs + 1)
    × (b.b_time ≡ some ts)
    × (b.gap_seconds ≡ ts - t)
    × (b.log_ids ≡ row_ids ((t, r) ∷ xs) ++ m.row.id ∷ [])

-- The bursts are those of the events: an event B with `min_a` events A or more in the log that are at
-- most `max_gap` before it is told of by the next burst and empties the log; no other event is
-- told of, and an event without a time is passed over.
abbrev pub Explained : ℕ → ℕ → List (ℕ × Row) → List Marked → List Burst → Type 0
Explained min_a max_gap log [] bs = bs ≡ []
Explained min_a max_gap log (m ∷ ms) bs = elim m.row.received_at [
  | none ↦ Explained min_a max_gap log ms bs
  | some ts ↦
      if m.is_b && leb min_a (length (since max_gap ts (logged ts m log)))
      then ((b : Burst) × (rest : List Burst) × (bs ≡ b ∷ rest)
          × Tells ts m (since max_gap ts (logged ts m log)) b
          × Explained min_a max_gap [] ms rest)
      else Explained min_a max_gap (logged ts m log) ms bs
]

-- the times do not go back
abbrev pub IsAscending : ℕ → List Marked → Type 0
IsAscending last [] = Unit
IsAscending last (m ∷ ms) = elim m.row.received_at [
  | none ↦ IsAscending last ms
  | some ts ↦ (last ≤ ts) × IsAscending ts ms
]

within-append :
    (max_gap ts : ℕ) (xs ys : List (ℕ × Row))
    → within max_gap ts (xs ++ ys) ≡ within max_gap ts xs ++ within max_gap ts ys
within-append max_gap ts [] ys = refl
within-append max_gap ts ((t, r) ∷ xs) ys = elim (Bool-cases (leb ts (t + max_gap))) [
  | inl e ↦ rw e (ap (λ (l : List (ℕ × Row)). (t, r) ∷ l) (within-append max_gap ts xs ys))
  | inr e ↦ rw e (within-append max_gap ts xs ys)
]

-- what was dropped at an earlier time would be dropped at a later one
within_twice :
    (max_gap t0 ts : ℕ) (xs : List (ℕ × Row))
    → t0 ≤ ts
    → within max_gap ts (within max_gap t0 xs) ≡ within max_gap ts xs
within_twice max_gap t0 ts [] le = refl
within_twice max_gap t0 ts ((t, r) ∷ xs) le =
    let ih = within_twice max_gap t0 ts xs le in
    elim (Bool-cases (leb t0 (t + max_gap))) [
      | inl e ↦ rw e (elim (Bool-cases (leb ts (t + max_gap))) [
        | inl f ↦ rw f (ap (λ (l : List (ℕ × Row)). (t, r) ∷ l) ih)
        | inr f ↦ rw f ih
      ])
      | inr e ↦ let f : leb ts (t + max_gap) ≡ false = ground arith in rw (e, f) ih
    ]

since-eq : (max_gap ts : ℕ) (xs : List (ℕ × Row)) → since max_gap ts xs ≡ within max_gap ts xs
since-eq max_gap ts [] = refl
since-eq max_gap ts ((t, r) ∷ xs) = elim (Bool-cases (leb ts (t + max_gap))) [
  | inl e ↦
      let f : ltb (t + max_gap) ts ≡ false = ground arith in
      rw (e, f) (ap (λ (l : List (ℕ × Row)). (t, r) ∷ l) (since-eq max_gap ts xs))
  | inr e ↦ let f : ltb (t + max_gap) ts ≡ true = ground arith in rw (e, f) (since-eq max_gap ts xs)
]

row_ids-eq : (xs : List (ℕ × Row)) → a_ids xs ≡ row_ids xs
row_ids-eq [] = refl
row_ids-eq ((t, r) ∷ xs) = ap (λ (l : List ℕ). r.id ∷ l) (row_ids-eq xs)

-- `recent_a` and the log give the same window from `last` on
abbrev Agrees : ℕ → ℕ → List (ℕ × Row) → List (ℕ × Row) → Type 0
Agrees max_gap last recent log =
    (ts : ℕ) → last ≤ ts → within max_gap ts recent ≡ within max_gap ts log

Agrees-note_a :
    (max_gap last ts : ℕ) (m : Marked) (recent log : List (ℕ × Row))
    → last ≤ ts
    → Agrees max_gap last recent log
    → Agrees max_gap ts (note_a max_gap ts m recent) (logged ts m log)
Agrees-note_a max_gap last ts m recent log le h u later = elim (Bool-cases m.is_a) [
  | inl e ↦ rw e (
      within_twice max_gap ts u (recent ++ (ts, m.row) ∷ []) later
      ∙ within-append max_gap u recent ((ts, m.row) ∷ [])
      ∙ ap (λ (l : List (ℕ × Row)). l ++ within max_gap u ((ts, m.row) ∷ []))
          (h u (omega (arith, le, later)))
      ∙ sym (within-append max_gap u log ((ts, m.row) ∷ [])))
  | inr e ↦ rw e (h u (omega (arith, le, later)))
]

-- with `min_a` at least 1 the test of `recent_a` adds nothing
window_lem :
    (b : Bool) (min_a : ℕ) (recent window : List (ℕ × Row))
    → 1 ≤ min_a
    → (recent ≡ [] → window ≡ [])
    → (b && not (is_nil recent) && leb min_a (length window)) ≡ (b && leb min_a (length window))
window_lem b min_a (x ∷ recent) window h e = ground arith
window_lem b min_a [] window h e = rw (e refl) (ground arith)

burst_of-Tells :
    (ts : ℕ) (m : Marked) (window : List (ℕ × Row)) (n : ℕ)
    → 1 ≤ n
    → leb n (length window) ≡ true
    → m.row.received_at ≡ some ts
    → Tells ts m window (burst_of ts m.row window)
burst_of-Tells ts m [] n h le at = ground arith
burst_of-Tells ts m ((t, r) ∷ xs) n h le at =
    (omega arith, at, refl, ap (λ (l : List ℕ). l ++ m.row.id ∷ []) (row_ids-eq ((t, r) ∷ xs)))

module _ (min_a max_gap : ℕ) (positive : 1 ≤ min_a) where
  -- what the loop gives from any `recent_a` that agrees with a log
  abbrev FromAny : List Marked → Type 0
  FromAny ms =
      (last : ℕ) (recent log : List (ℕ × Row))
      → Agrees max_gap last recent log
      → IsAscending last ms
      → Explained min_a max_gap log ms (sequence_loop min_a max_gap ms recent)

  Explained-step :
      (ts : ℕ) (m : Marked) (ms : List Marked) (recent log : List (ℕ × Row))
      → FromAny ms
      → m.row.received_at ≡ some ts
      → Agrees max_gap ts (note_a max_gap ts m recent) (logged ts m log)
      → IsAscending ts ms
      → let (recent', out) = sequence_step min_a max_gap ts m recent in
        let bs = out ++ sequence_loop min_a max_gap ms recent' in
        if m.is_b && leb min_a (length (since max_gap ts (logged ts m log)))
        then ((b : Burst) × (rest : List Burst) × (bs ≡ b ∷ rest)
            × Tells ts m (since max_gap ts (logged ts m log)) b
            × Explained min_a max_gap [] ms rest)
        else Explained min_a max_gap (logged ts m log) ms bs
  unfolding sequence_step
  Explained-step ts m ms recent log ih at agree asc =
      let now = note_a max_gap ts m recent in
      let window = since max_gap ts (logged ts m log) in
      let same : within max_gap ts now ≡ window =
        agree ts (omega arith) ∙ sym (since-eq max_gap ts (logged ts m log)) in
      let test =
        window_lem m.is_b min_a now (within max_gap ts now) positive
          (ap (λ (l : List (ℕ × Row)). within max_gap ts l)) in
      elim (Bool-cases (m.is_b && leb min_a (length window))) [
        | inl e ↦
            rw (test, same, e)
              (
                burst_of ts m.row window,
                sequence_loop min_a max_gap ms [],
                refl,
                burst_of-Tells ts m window min_a positive (ground arith) at,
                ih ts [] [] (λ u later. refl) asc,
              )
        | inr e ↦ rw (test, same, e) (ih ts now (logged ts m log) agree asc)
      ]

  loop-FromAny : (ms : List Marked) → FromAny ms
  unfolding sequence_loop
  loop-FromAny [] last recent log agree asc = refl
  loop-FromAny (m ∷ ms) last recent log agree asc =
      at_time m.row.received_at refl asc (loop-FromAny ms)
    where
      at_time :
          (o : Option ℕ)
          → m.row.received_at ≡ o
          → elim o as (λ x. Type 0) [
            | none ↦ IsAscending last ms
            | some ts ↦ (last ≤ ts) × IsAscending ts ms
          ]
          → FromAny ms
          → let (recent', out) = sequence_at min_a max_gap o m recent in
            let bs = out ++ sequence_loop min_a max_gap ms recent' in
            elim o as (λ x. Type 0) [
              | none ↦ Explained min_a max_gap log ms bs
              | some ts ↦
                  if m.is_b && leb min_a (length (since max_gap ts (logged ts m log)))
                  then ((b : Burst) × (rest : List Burst) × (bs ≡ b ∷ rest)
                      × Tells ts m (since max_gap ts (logged ts m log)) b
                      × Explained min_a max_gap [] ms rest)
                  else Explained min_a max_gap (logged ts m log) ms bs
            ]
      at_time none at asc ih = ih last recent log agree asc
      at_time (some ts) at asc ih =
          Explained-step ts m ms recent log ih at
            (Agrees-note_a max_gap last ts m recent log asc.0 agree) asc.1

-- Of the events of one key, in the order of their times, and with `min_a` at least 1: a burst is
-- reported exactly for each event B that has `min_a` events A or more behind the last burst and at most
-- `max_gap` before it. The burst tells of those events A, of no others and of no event of an
-- earlier burst: their number, the time of the B, the time since the first A, and the rows of the
-- A in order with the row of the B behind.
pub sequence_loop-Explained :
    (min_a max_gap : ℕ) (ms : List Marked)
    → 1 ≤ min_a
    → IsAscending 0 ms
    → Explained min_a max_gap [] ms (sequence_loop min_a max_gap ms [])
sequence_loop-Explained min_a max_gap ms positive asc =
    loop-FromAny min_a max_gap positive ms 0 [] [] (λ ts le. refl) asc
