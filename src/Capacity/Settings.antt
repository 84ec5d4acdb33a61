-- ===== src/Capacity/Settings.antt =====
-- capacity.py, `validate` and `ingest_settings`: what the listener runs with is within the limits.
use mini_siem.Base.{
  ℕ, ◌≤◌, ◌≡◌, refl, inl, inr, true, false, ◌&&◌, arith, leb, nat_eq, string_eq, Bool-cases,
  text_eq,
}
use mini_siem.Capacity.{
  Scan, Recommended, Key, Clean, low, high, is_processes, check_value, then_check, validate,
  recommend, merge, count_or, configured_of, settle, with_cli, ingest_settings, Value, Ingest,
  Checked, CleanIngest, Resolved, absent, auto, not_whole, whole, processes, threads, queue_size,
  udp_buffer_kb, unset, auto_count, number, good, bad,
}
use mini_siem.Capacity.Recommendation.{recommend_lem}

abbrev pub Within : Key → ℕ → Type 0
Within k n = (low k ≤ n) × (n ≤ high k)

-- a checked setting is within its limits, and automatic only for the processes
abbrev CleanWithin : Key → Clean → Type 0
CleanWithin k unset = Unit
CleanWithin k auto_count = is_processes k ≡ true
CleanWithin k (number n) = Within k n

abbrev pub Good {ℓ κ} : {A : Type ℓ} → (A → Type κ) → Checked A → Type κ
Good P (good a) = P a
Good P (bad e) = Unit

check_value-Within : (k : Key) (v : Value) → Good (CleanWithin k) (check_value k v)
check_value-Within k absent = tt
check_value-Within k auto = automatic k
  where
    automatic : (k : Key) → Good (CleanWithin k) (check_value k auto)
    automatic processes = refl
    automatic threads = tt
    automatic queue_size = tt
    automatic udp_buffer_kb = tt
check_value-Within k not_whole = tt
check_value-Within k (whole n true) = tt
check_value-Within k (whole n false) = elim (Bool-cases (leb (low k) n && leb n (high k))) [
  | inl e ↦ rw e (ground arith, ground arith)
  | inr e ↦ rw e tt
]

abbrev AllWithin : CleanIngest → Type 0
AllWithin c =
    CleanWithin processes c.processes
    × CleanWithin threads c.threads
    × CleanWithin queue_size c.queue_size
    × CleanWithin udp_buffer_kb c.udp_buffer_kb

validate-Within : (v : Ingest) → Good AllWithin (validate v)
unfolding validate
validate-Within v =
    all_of_them (check_value processes v.processes) (check_value threads v.threads)
      (check_value queue_size v.queue_size) (check_value udp_buffer_kb v.udp_buffer_kb)
      (check_value-Within processes v.processes) (check_value-Within threads v.threads)
      (check_value-Within queue_size v.queue_size)
      (check_value-Within udp_buffer_kb v.udp_buffer_kb)
  where
    all_of_them :
        (p t q u : Checked Clean)
        → Good (CleanWithin processes) p
        → Good (CleanWithin threads) t
        → Good (CleanWithin queue_size) q
        → Good (CleanWithin udp_buffer_kb) u
        → Good AllWithin (
            then_check p (λ p'. then_check t (λ t'. then_check q (λ q'. then_check u (λ u'.
              good
                (record { processes = p'; threads = t'; queue_size = q'; udp_buffer_kb = u' }))))))
    all_of_them (bad e) t q u hp ht hq hu = tt
    all_of_them (good p) (bad e) q u hp ht hq hu = tt
    all_of_them (good p) (good t) (bad e) u hp ht hq hu = tt
    all_of_them (good p) (good t) (good q) (bad e) hp ht hq hu = tt
    all_of_them (good p) (good t) (good q) (good u) hp ht hq hu = (hp, ht, hq, hu)

merge-Within :
    (k : Key) (c o : Clean) → CleanWithin k c → CleanWithin k o → CleanWithin k (merge c o)
merge-Within k c unset hc ho = hc
merge-Within k c auto_count hc ho = ho
merge-Within k c (number n) hc ho = ho

count_or-Within :
    (k : Key) (c : Clean) (d : ℕ) → CleanWithin k c → Within k d → Within k (count_or c d)
count_or-Within k unset d hc hd = hd
count_or-Within k auto_count d hc hd = hd
count_or-Within k (number n) d hc hd = hc

abbrev pub ResolvedWithin : Resolved → Type 0
ResolvedWithin r =
    Within processes r.processes
    × Within threads r.threads
    × Within queue_size r.queue_size
    × Within udp_buffer_kb r.udp_buffer_kb

abbrev RecommendedWithin : Recommended → Type 0
RecommendedWithin r =
    Within processes r.processes × Within threads r.threads × Within queue_size r.queue_size

settle-Within :
    (r : Recommended) (p t q u : Clean)
    → RecommendedWithin r
    → CleanWithin processes p
    → CleanWithin threads t
    → CleanWithin queue_size q
    → CleanWithin udp_buffer_kb u
    → ResolvedWithin (settle r p t q u)
settle-Within r auto_count t q u hr hp ht hq hu = (
  hr.0,
  count_or-Within threads t r.threads ht hr.1,
  count_or-Within queue_size q r.queue_size hq hr.2,
  count_or-Within udp_buffer_kb u 4096 hu (omega arith, omega arith),
)
settle-Within r unset t q u hr hp ht hq hu = (
  (omega arith, omega arith),
  count_or-Within threads t 2 ht (omega arith, omega arith),
  count_or-Within queue_size q 10000 hq (omega arith, omega arith),
  count_or-Within udp_buffer_kb u 4096 hu (omega arith, omega arith),
)
settle-Within r (number n) t q u hr hp ht hq hu = (
  hp,
  count_or-Within threads t 2 ht (omega arith, omega arith),
  count_or-Within queue_size q 10000 hq (omega arith, omega arith),
  count_or-Within udp_buffer_kb u 4096 hu (omega arith, omega arith),
)

configured_of-Within : (c : Checked CleanIngest) → Good AllWithin c → AllWithin (configured_of c)
configured_of-Within (good c) h = h
configured_of-Within (bad e) h = (tt, tt, tt, tt)

with_cli-Within :
    (r : Recommended) (c : CleanIngest) (o : Checked CleanIngest)
    → RecommendedWithin r
    → AllWithin c
    → Good AllWithin o
    → Good ResolvedWithin (with_cli r c o)
with_cli-Within r c (bad e) hr hc ho = tt
with_cli-Within r c (good o) hr hc ho =
    settle-Within r (merge c.processes o.processes) (merge c.threads o.threads)
      (merge c.queue_size o.queue_size) (merge c.udp_buffer_kb o.udp_buffer_kb) hr
      (merge-Within processes c.processes o.processes hc.0 ho.0)
      (merge-Within threads c.threads o.threads hc.1 ho.1)
      (merge-Within queue_size c.queue_size o.queue_size hc.2 ho.2)
      (merge-Within udp_buffer_kb c.udp_buffer_kb o.udp_buffer_kb hc.3 ho.3)

recommended_within : (s : Scan) → RecommendedWithin (recommend s 92160 0)
recommended_within s =
    let (p1, p2, _, _, t1, t2, q1, q2) = recommend_lem s 92160 0 in
    ((p1, omega arith), (t1, omega arith), (omega arith, omega arith))

-- Whatever the configuration file and the command line say and whatever the scan found: settings
-- that are resolved are within the limits, all four of them.
pub ingest_settings-Within :
    (configured overrides : Ingest) (scan : Scan)
    → Good ResolvedWithin (ingest_settings configured overrides scan)
unfolding ingest_settings
ingest_settings-Within configured overrides scan =
    with_cli-Within (recommend scan 92160 0) (configured_of (validate configured))
      (validate overrides) (recommended_within scan)
      (configured_of-Within (validate configured) (validate-Within configured))
      (validate-Within overrides)
