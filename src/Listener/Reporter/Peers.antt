-- ===== src/Listener/Reporter/Peers.antt =====
-- listener.py, `ListenerRuntimeReporter`: the peers stay few and the counters are exact.
use mini_siem.Base.{
  ℕ, suc, ◌≤◌, ◌<◌, ◌≡◌, ◌⊎◌, inl, inr, true, List, [], ◌∷◌, arith, leb, string_eq, nat_eq, ◌==◌,
  Bool-cases, length, Text, text_eq, Dict, insert, erase, contains, ◌+◌, refl, ◌∙◌, ltb, or_else,
  take, All, codes, lookup, beq_refl,
}
use mini_siem.Listener.Reporter.{
  Peer, insert_old, pop_all, sort_old, seen_at, evict, new_peer, counted, record_source,
  record_success, record_drop, record_failure, record_all, Reporter, Recorded, success, drop_one,
  failure,
}

length-insert_le :
    (k : Text) (p : Peer) (d : Dict Text Peer) → length (insert k p d) ≤ suc (length d)
length-insert_le k p [] = omega arith
length-insert_le k p ((j, q) ∷ d) = elim (Bool-cases (j == k)) [
  | inl e ↦ rw e (omega arith)
  | inr e ↦ rw e (omega (arith, length-insert_le k p d))
]

length-erase_le : (k : Text) (d : Dict Text Peer) → length (erase k d) ≤ length d
length-erase_le k [] = omega arith
length-erase_le k ((j, q) ∷ d) = elim (Bool-cases (j == k)) [
  | inl e ↦ rw e (omega (arith, length-erase_le k d))
  | inr e ↦ rw e (omega (arith, length-erase_le k d))
]

length-pop_all_le : (xs : List (Text × ℕ)) (d : Dict Text Peer) → length (pop_all xs d) ≤ length d
length-pop_all_le [] d = omega arith
length-pop_all_le (x ∷ xs) d =
    omega (arith, length-pop_all_le xs (erase x.0 d), length-erase_le x.0 d)

-- A key that is there goes.
length-erase_lt :
    (k : Text) (d : Dict Text Peer) → contains k d ≡ true → length (erase k d) < length d
length-erase_lt k [] h = cc
length-erase_lt k ((j, q) ∷ d) h = elim (Bool-cases (j == k)) [
  | inl e ↦ rw e (omega (arith, length-erase_le k d))
  | inr e ↦ rw e (omega (arith, length-erase_lt k d (rw e at h)))
]

-- The first key of the sorted ones.
abbrev FirstIn : Dict Text Peer → List (Text × ℕ) → Type 0
FirstIn d [] = ⊥
FirstIn d (x ∷ xs) = contains x.0 d ≡ true

insert_old-first :
    (d : Dict Text Peer) (x : Text × ℕ) (ys : List (Text × ℕ))
    → contains x.0 d ≡ true
    → (FirstIn d ys) ⊎ (ys ≡ [])
    → FirstIn d (insert_old x ys)
insert_old-first d x [] h k = h
insert_old-first d x (y ∷ ys) h (inr k) = cc
insert_old-first d x (y ∷ ys) h (inl k) = elim (Bool-cases (leb x.1 y.1)) [
  | inl e ↦ rw e h
  | inr e ↦ rw e k
]

contains_behind :
    (j k : Text) (q : Peer) (d : Dict Text Peer)
    → contains k d ≡ true
    → contains k ((j, q) ∷ d) ≡ true
contains_behind j k q d h = elim (Bool-cases (j == k)) [ inl e ↦ rw e refl | inr e ↦ rw e h ]

keys_behind :
    (j : Text) (q : Peer) (d e : Dict Text Peer)
    → All (λ (x : Text × Peer). contains x.0 d ≡ true) e
    → All (λ (x : Text × Peer). contains x.0 ((j, q) ∷ d) ≡ true) e
keys_behind j q d [] h = tt
keys_behind j q d ((k, p) ∷ e) h = (contains_behind j k q d h.0, keys_behind j q d e h.1)

keys_inside : (d : Dict Text Peer) → All (λ (x : Text × Peer). contains x.0 d ≡ true) d
keys_inside [] = tt
keys_inside ((k, p) ∷ d) = (rw (beq_refl k) refl, keys_behind k p d d (keys_inside d))

sort_old-first :
    (d e : Dict Text Peer)
    → All (λ (x : Text × Peer). contains x.0 d ≡ true) e
    → (FirstIn d (sort_old (seen_at e))) ⊎ (sort_old (seen_at e) ≡ [])
sort_old-first d [] h = inr refl
sort_old-first d ((k, p) ∷ e) h =
    inl (insert_old-first d (k, p.last_seen) (sort_old (seen_at e)) h.0 (sort_old-first d e h.1))

evict_fewer :
    (d : Dict Text Peer) (xs : List (Text × ℕ))
    → FirstIn d xs
    → length (pop_all (take 16 xs) d) < length d
evict_fewer d [] h = absurd h
evict_fewer d (x ∷ xs) h =
    omega (arith, length-pop_all_le (take 15 xs) (erase x.0 d), length-erase_lt x.0 d h)

length-evict_le : (d : Dict Text Peer) → length d ≤ 65 → length (evict d) ≤ 64
length-evict_le d le = elim (Bool-cases (ltb 64 (length d))) [
  | inr e ↦ rw e (ground (arith, e))
  | inl e ↦ rw e (fewer d (sort_old-first d d (keys_inside d)) (ground (arith, e)))
]
  where
    fewer :
        (d : Dict Text Peer)
        → (FirstIn d (sort_old (seen_at d))) ⊎ (sort_old (seen_at d) ≡ [])
        → length d ≡ 65
        → length (pop_all (take 16 (sort_old (seen_at d))) d) ≤ 64
    fewer d (inl h) n = omega (arith, evict_fewer d (sort_old (seen_at d)) h)
    fewer [] (inr h) n = absurd (omega arith)
    fewer ((k, p) ∷ d) (inr h) n = absurd (never (k, p.last_seen) (sort_old (seen_at d)) h)
      where
        never : (x : Text × ℕ) (ys : List (Text × ℕ)) → insert_old x ys ≡ [] → ⊥
        never x [] q = cc
        never x (y ∷ ys) q = elim (Bool-cases (leb x.1 y.1)) [
          | inl e ↦ absurd (no_cons (rw e at q))
          | inr e ↦ absurd (no_cons (rw e at q))
        ]
          where
            no_cons : {z : Text × ℕ} {zs : List (Text × ℕ)} → z ∷ zs ≡ [] → ⊥
            no_cons q = cc

pub length-record_source_le :
    (now : ℕ) (field source : Text) (d : Dict Text Peer)
    → length d ≤ 64
    → length (record_source now field source d) ≤ 64
unfolding record_source
length-record_source_le now field [] d h = h
length-record_source_le now field (c ∷ s) d h =
    let p = counted now field (or_else (lookup (c ∷ s) d) (new_peer now)) in
    length-evict_le (insert (c ∷ s) p d) (omega (arith, length-insert_le (c ∷ s) p d))

-- how many are recorded, of the events that are stored and of those that fail
abbrev pub successes : List (ℕ × Text × Recorded) → ℕ
successes [] = 0
successes ((now, source, success event_at) ∷ xs) = suc (successes xs)
successes ((now, source, x) ∷ xs) = successes xs

abbrev pub failures : List (ℕ × Text × Recorded) → ℕ
failures [] = 0
failures ((now, source, failure error) ∷ xs) = suc (failures xs)
failures ((now, source, x) ∷ xs) = failures xs

-- The counters of a reporter behind some records.
abbrev pub Counts : List (ℕ × Text × Recorded) → Reporter → Reporter → Type 0
Counts xs r t =
    (t.processed_events ≡ r.processed_events + successes xs)
    × (t.failed_events ≡ r.failed_events + failures xs)
    × (length t.sources ≤ 64)

-- Whatever is recorded and from however many peers, by a reporter of at most 64: one counter of the
-- listener grows by one for every success and the other for every failure, neither for a drop, and
-- no more than 64 peers are held.
pub record_all-Counts :
    (xs : List (ℕ × Text × Recorded)) (r : Reporter)
    → length r.sources ≤ 64
    → Counts xs r (record_all xs r)
unfolding record_all
record_all-Counts [] r h = (omega arith, omega arith, h)
record_all-Counts ((now, source, success event_at) ∷ xs) r h =
    let (a, b, c) =
      record_all-Counts xs (record_success now event_at source r)
        (length-record_source_le now (codes "accepted") source r.sources h) in
    (a ∙ omega arith, b, c)
record_all-Counts ((now, source, drop_one) ∷ xs) r h =
    record_all-Counts xs (record_drop now source r)
      (length-record_source_le now (codes "dropped") source r.sources h)
record_all-Counts ((now, source, failure error) ∷ xs) r h =
    let (a, b, c) =
      record_all-Counts xs (record_failure now error source r)
        (length-record_source_le now (codes "failed") source r.sources h) in
    (a, b ∙ omega arith, c)
