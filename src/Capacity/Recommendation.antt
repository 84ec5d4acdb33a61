-- ===== src/Capacity/Recommendation.antt =====
-- capacity.py, `recommend`: the recommendation fits the machine.
use native.Mathlib.Nat.{mul-le-mul_right, div-mul-le_self}
use mini_siem.Base.{
  ℕ, ◌+◌, ◌-◌, ◌*◌, ◌/◌, ◌≤◌, ◌<◌, inl, inr, Bool, Option, none, some, arith, leb, nat_eq,
  string_eq, Bool-cases, text_eq, ◌≡◌, refl, true, false, if◌then◌else◌, ◌==◌,
}
use mini_siem.Capacity.{
  Scan, clamp, queue_for, cores_of, reserve_cpu, cpu_slots, cpu_processes, reserve_mb, per_process,
  mem_processes, capped, queue_size, available_of, recommend,
}

pub clamp_within : (n : ℕ) → (100 ≤ clamp n queue_size) × (clamp n queue_size ≤ 200000)
clamp_within n = (omega arith, omega arith)

pub queue_for_within :
    (o : Option ℕ) (count : ℕ) → (1000 ≤ queue_for o count) × (queue_for o count ≤ 50000)
unfolding queue_for
queue_for_within none count = (omega arith, omega arith)
queue_for_within (some a) count = elim (Bool-cases (leb a 512)) [
  | inl e ↦ rw e (omega arith, omega arith)
  | inr e ↦ rw e (omega arith, omega arith)
]

cpu_processes_le :
    (s : Scan) → 1 < cpu_processes s → cpu_processes s + reserve_cpu s + 1 ≤ cores_of s
unfolding cpu_processes
cpu_processes_le s h = elim (Bool-cases (leb 3 (cpu_slots s))) [
  | inl e ↦ ground arith
  | inr e ↦ ground arith
]

-- Processes that share a budget by `recommend`'s division fit in it.
times_div_le : (n b d : ℕ) → n ≤ b / d → n * d ≤ b
times_div_le n b d h = omega (arith, mul-le-mul_right d h, div-mul-le_self b d)

-- the memory that the budget leaves to the processes, where the free memory is known
abbrev pub FitsMemory : Scan → ℕ → ℕ → ℕ → Option ℕ → Type 0
FitsMemory s process_kb ioc_count n none = Unit
FitsMemory s process_kb ioc_count n (some a) =
    n * (per_process process_kb ioc_count + queue_for (some a) (cpu_processes s) * 4)
    ≤ (a - reserve_mb s a) * 2048

fits :
    (s : Scan) (process_kb ioc_count a n : ℕ)
    → n ≤ mem_processes s process_kb ioc_count a
    → FitsMemory s process_kb ioc_count n (some a)
unfolding mem_processes
fits s process_kb ioc_count a n h =
    times_div_le n ((a - reserve_mb s a) * 2048)
      (per_process process_kb ioc_count + queue_for (some a) (cpu_processes s) * 4) h

capped_lem :
    (s : Scan) (process_kb ioc_count : ℕ) (o : Option ℕ)
    → let n = capped s process_kb ioc_count o in
      (1 ≤ n)
      × (n ≤ 16)
      × (1 < n → (n + reserve_cpu s + 1 ≤ cores_of s) × FitsMemory s process_kb ioc_count n o)
capped_lem s process_kb ioc_count none =
    (omega arith, omega arith, λ h. (omega (arith, cpu_processes_le s (omega arith)), tt))
capped_lem s process_kb ioc_count (some a) = (
  omega arith,
  omega arith,
  λ h. (
    omega (arith, cpu_processes_le s (omega arith)),
    fits s process_kb ioc_count a (capped s process_kb ioc_count (some a)) (omega arith),
  ),
)

-- The recommendation is of 1 to 16 processes, one where the database is not PostgreSQL. With several
-- processes there are cores for all of them, for the receiving process and for what is kept back, and
-- where the free memory is known they fit in what it leaves after the reserve, each with a queue of
-- the size for as many processes as the cores allow, which is not the size that is recommended; each
-- then runs one thread. The queue holds 1000 to 50000 messages.
pub recommend_lem :
    (s : Scan) (process_kb ioc_count : ℕ)
    → let r = recommend s process_kb ioc_count in
      (1 ≤ r.processes)
      × (r.processes ≤ 16)
      × (s.is_postgres ≡ false → r.processes ≡ 1)
      × (1 < r.processes
          → (r.processes + reserve_cpu s + 1 ≤ cores_of s)
            × FitsMemory s process_kb ioc_count r.processes (available_of s)
            × (r.threads ≡ 1))
      × (1 ≤ r.threads)
      × (r.threads ≤ 4)
      × (1000 ≤ r.queue_size)
      × (r.queue_size ≤ 50000)
unfolding recommend
recommend_lem s process_kb ioc_count =
    by_backend s.is_postgres (capped s process_kb ioc_count (available_of s))
      (capped_lem s process_kb ioc_count (available_of s))
  where
    threads_for : Bool → ℕ → ℕ
    threads_for pg n = if n == 1 then (if pg then 4 else 2) else 1

    by_backend :
        (pg : Bool) (c : ℕ)
        → (1 ≤ c)
          × (c ≤ 16)
          × (1 < c
              → (c + reserve_cpu s + 1 ≤ cores_of s)
                × FitsMemory s process_kb ioc_count c (available_of s))
        → let n = (if pg then c else 1) in
          (1 ≤ n)
          × (n ≤ 16)
          × (pg ≡ false → n ≡ 1)
          × (1 < n
              → (n + reserve_cpu s + 1 ≤ cores_of s)
                × FitsMemory s process_kb ioc_count n (available_of s)
                × (threads_for pg n ≡ 1))
          × (1 ≤ threads_for pg n)
          × (threads_for pg n ≤ 4)
          × (1000 ≤ queue_for (available_of s) n)
          × (queue_for (available_of s) n ≤ 50000)
    by_backend false c h =
        let q = queue_for_within (available_of s) 1 in
        (
          omega arith,
          omega arith,
          λ e. refl,
          λ l. absurd (omega arith),
          omega arith,
          omega arith,
          q.0,
          q.1,
        )
    by_backend true c h =
        let q = queue_for_within (available_of s) c in
        (
          h.0,
          h.1,
          λ e. cc,
          λ l. ((h.2 l).0, (h.2 l).1, ground arith),
          ground arith,
          ground arith,
          q.0,
          q.1,
        )
