-- ===== src/Forwarder/Flushes.antt =====
-- forwarder.py, `_flush_stats`: no forwarded message is lost from the counts when the table is written.
use mini_siem.Base.{
  ℕ, ◌+◌, ◌≡◌, refl, ap, inl, inr, Bool, none, some, List, [], ◌∷◌, arith, if◌then◌else◌,
  nat_beq_iff, ◌==◌, nat_eq, string_eq, Bool-cases, text_eq, Dict, lookup, ◌∙◌, true, false, Option,
  is_some, contains,
}
use mini_siem.Forwarder.{
  Counters, Snapshot, Forwarder, write_counters, update_row, has_news, snapshots, clear_all,
  write_all, flush_stats,
}

-- the counts at an id, of the forwarders and of their snapshots
abbrev pub pending_of : ℕ → Dict ℕ Forwarder → ℕ
pending_of k [] = 0
pending_of k ((j, f) ∷ fs) = (if j == k then f.pending_count else 0) + pending_of k fs

abbrev count_of : ℕ → List (ℕ × Snapshot) → ℕ
count_of k [] = 0
count_of k ((j, s) ∷ ss) = (if j == k then s.count else 0) + count_of k ss

-- the count that the table has at an id
abbrev pub forwarded_of : Option Counters → ℕ
forwarded_of none = 0
forwarded_of (some c) = c.forwarded_count

abbrev written : Snapshot → Option Counters → Option Counters
written s none = none
written s (some c) = some (write_counters s c)

lookup-update_row :
    (k j : ℕ) (s : Snapshot) (rows : Dict ℕ Counters)
    → lookup k (update_row j s rows) ≡ (if j == k then written s (lookup k rows) else lookup k rows)
lookup-update_row k j s [] = ground arith
lookup-update_row k j s ((i, c) ∷ rows) = elim (Bool-cases (i == k)) [
  | inl e ↦ ground (arith, lookup-update_row k j s rows)
  | inr e ↦ ground (arith, lookup-update_row k j s rows)
]

written-forwarded :
    (b : Bool) (s : Snapshot) (o : Option Counters)
    → is_some o ≡ true
    → (is_some (if b then written s o else o) ≡ true)
      × (forwarded_of (if b then written s o else o) ≡ forwarded_of o + (if b then s.count else 0))
written-forwarded b s none h = cc
written-forwarded true s (some c) h = (refl, omega arith)
written-forwarded false s (some c) h = (refl, omega arith)

write_all-forwarded :
    (k : ℕ) (ss : List (ℕ × Snapshot)) (rows : Dict ℕ Counters)
    → contains k rows ≡ true
    → forwarded_of (lookup k (write_all ss rows)) ≡ forwarded_of (lookup k rows) + count_of k ss
unfolding write_all
write_all-forwarded k [] rows h = omega arith
write_all-forwarded k ((j, s) ∷ ss) rows h =
    let (there, counted) = written-forwarded (j == k) s (lookup k rows) h in
    let after = lookup-update_row k j s rows in
    omega (
      arith,
      write_all-forwarded k ss (update_row j s rows)
          (ap (λ (o : Option Counters). is_some o) after ∙ there),
      ap forwarded_of after,
      counted,
    )

no_news : (f : Forwarder) → has_news f ≡ false → f.pending_count ≡ 0
no_news f h = ground (arith, nat_beq_iff f.pending_count 0)

if_zero : (b : Bool) (n : ℕ) → n ≡ 0 → (if b then n else 0) ≡ 0
if_zero true n h = h
if_zero false n h = refl

count_of-snapshots : (k : ℕ) (fs : Dict ℕ Forwarder) → count_of k (snapshots fs) ≡ pending_of k fs
unfolding snapshots
count_of-snapshots k [] = refl
count_of-snapshots k ((j, f) ∷ fs) = elim (Bool-cases (has_news f)) [
  | inl e ↦ rw e (omega (arith, count_of-snapshots k fs))
  | inr e ↦
      rw e (omega (arith, count_of-snapshots k fs, if_zero (j == k) f.pending_count (no_news f e)))
]

pending_of-clear_all : (k : ℕ) (fs : Dict ℕ Forwarder) → pending_of k (clear_all fs) ≡ 0
pending_of-clear_all k [] = refl
pending_of-clear_all k ((j, f) ∷ fs) = elim (Bool-cases (j == k)) [
  | inl e ↦ rw e (omega (arith, pending_of-clear_all k fs))
  | inr e ↦ rw e (omega (arith, pending_of-clear_all k fs))
]

-- For a forwarder that has a row: after a flush nothing is pending, and the count in the row has
-- grown by what was pending when the write went through, but is what it was when the write failed:
-- the pending count is then lost.
pub flush_stats-counts :
    (committed : Bool) (k : ℕ) (fs : Dict ℕ Forwarder) (rows : Dict ℕ Counters)
    → contains k rows ≡ true
    → let (fs', rows') = flush_stats committed fs rows in
      (pending_of k fs' ≡ 0)
      × (forwarded_of (lookup k rows')
          ≡ forwarded_of (lookup k rows) + (if committed then pending_of k fs else 0))
unfolding flush_stats
flush_stats-counts true k fs rows h = (
  pending_of-clear_all k fs,
  omega (arith, write_all-forwarded k (snapshots fs) rows h, count_of-snapshots k fs),
)
flush_stats-counts false k fs rows h = (pending_of-clear_all k fs, omega arith)
