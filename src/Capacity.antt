-- ===== src/Capacity.antt =====
-- capacity.py: the ingest settings. What `recommend` computes with floats is done here with whole
-- numbers, in the units in which it is exact: memory in MB, a process's memory in half KB. The reasons
-- and warnings, which are texts, are left out.
pub mod Settings
pub mod Recommendation
mod Tests
use mini_siem.Base.{
  ℕ, ◌+◌, ◌-◌, ◌*◌, ◌/◌, min, max, ap, Bool, true, false, not, ◌&&◌, Option, none, some, leb,
  if◌then◌else◌, ◌==◌, nat_eq, string_eq, or_else, text_eq,
}

-- a setting as it is read from JSON or the command line: `whole n below` is an integer, `below` when
-- it is negative
pub data Value : Type 0 where
  absent auto not_whole : Value
  whole : ℕ → Bool → Value

pub record Ingest : Type 0 where
  pub processes : Value
  pub threads : Value
  pub queue_size : Value
  pub udp_buffer_kb : Value

pub data Key : Type 0 where
  processes threads queue_size udp_buffer_kb : Key

-- `LIMITS` and `DEFAULTS`
abbrev pub low : Key → ℕ
low processes = 1
low threads = 1
low queue_size = 100
low udp_buffer_kb = 64

abbrev pub high : Key → ℕ
high processes = 32
high threads = 16
high queue_size = 200000
high udp_buffer_kb = 262144

abbrev pub default : Key → ℕ
default processes = 1
default threads = 2
default queue_size = 10000
default udp_buffer_kb = 4096

-- a checked setting
pub data Clean : Type 0 where
  unset auto_count : Clean
  number : ℕ → Clean

pub data Error : Type 0 where
  not_number out_of_range : Key → Error

pub data Checked {ℓ} (A : Type ℓ) : Type ℓ where
  good : A → Checked A
  bad : Error → Checked A

abbrev pub is_processes : Key → Bool
is_processes processes = true
is_processes _ = false

abbrev pub check_value : Key → Value → Checked Clean
check_value k absent = good unset
check_value k auto = if is_processes k then good auto_count else bad (not_number k)
check_value k not_whole = bad (not_number k)
check_value k (whole n true) = bad (out_of_range k)
check_value k (whole n false) =
    if leb (low k) n && leb n (high k) then good (number n) else bad (out_of_range k)

pub record CleanIngest : Type 0 where
  pub processes : Clean
  pub threads : Clean
  pub queue_size : Clean
  pub udp_buffer_kb : Clean

abbrev pub then_check {ℓ κ} : {A : Type ℓ} {B : Type κ} → Checked A → (A → Checked B) → Checked B
then_check (good a) f = f a
then_check (bad e) f = bad e

-- `validate`: the first setting that is wrong ends it
unfoldable pub validate : Ingest → Checked CleanIngest
validate v = then_check (check_value processes v.processes) (λ p.
    then_check (check_value threads v.threads) (λ t.
      then_check (check_value queue_size v.queue_size) (λ q.
        then_check (check_value udp_buffer_kb v.udp_buffer_kb)
          (λ u. good (record { processes = p; threads = t; queue_size = q; udp_buffer_kb = u })))))

-- `_clamp`
abbrev pub clamp : ℕ → Key → ℕ
clamp n k = max (low k) (min (high k) n)

-- what `recommend` reads of the scan
pub record Scan : Type 0 where
  -- `int(effective)`
  pub cores : ℕ
  pub total_mb : Option ℕ
  pub available_mb : Option ℕ
  pub container_limit_mb : Option ℕ
  pub is_postgres : Bool
  pub same_host : Bool

abbrev pub available_of : Scan → Option ℕ
available_of s = elim s.container_limit_mb [
  | none ↦ s.available_mb
  | some l ↦ if l == 0 then s.available_mb else elim s.available_mb [
    | none ↦ some l
    | some a ↦ if a == 0 then some l else some (min a l)
  ]
]

-- `queue_for`
unfoldable pub queue_for : Option ℕ → ℕ → ℕ
queue_for none count = 1000
queue_for (some a) count =
    if leb a 512
    then 1000
    else clamp (min 50000 (max 1000 ((a - 512) * 512 / (10 * max 1 count)))) queue_size

abbrev pub local_pg : Scan → Bool
local_pg s = s.is_postgres && s.same_host

abbrev pub cores_of : Scan → ℕ
cores_of s = max 1 s.cores

abbrev pub reserve_cpu : Scan → ℕ
reserve_cpu s =
    (if leb 2 (cores_of s) then 1 else 0) + (if local_pg s then max 1 (cores_of s / 4) else 0)

abbrev pub cpu_slots : Scan → ℕ
cpu_slots s = max 1 (cores_of s - reserve_cpu s)

unfoldable pub cpu_processes : Scan → ℕ
cpu_processes s = if leb 3 (cpu_slots s) then cpu_slots s - 1 else 1

abbrev pub reserve_mb : Scan → ℕ → ℕ
reserve_mb s available = 762 + (if local_pg s then or_else s.total_mb available / 4 else 0)

-- in half KB: `max(60, mb * 1.5)` and 1 KB for each indicator
abbrev pub per_process : ℕ → ℕ → ℕ
per_process process_kb ioc_count = max (60 * 2048) (3 * process_kb) + 2 * ioc_count

unfoldable pub mem_processes : Scan → ℕ → ℕ → ℕ → ℕ
unfolding queue_for cpu_processes
mem_processes s process_kb ioc_count available =
    (available - reserve_mb s available)
    * 2048
    / (per_process process_kb ioc_count + queue_for (some available) (cpu_processes s) * 4)

pub record Recommended : Type 0 where
  pub processes : ℕ
  pub threads : ℕ
  pub queue_size : ℕ

abbrev pub capped : Scan → ℕ → ℕ → Option ℕ → ℕ
capped s process_kb ioc_count none = max 1 (min (cpu_processes s) 16)
capped s process_kb ioc_count (some a) =
    max 1 (min (min (cpu_processes s) (mem_processes s process_kb ioc_count a)) 16)

abbrev pub process_count : Scan → ℕ → ℕ → ℕ
process_count s process_kb ioc_count =
    if s.is_postgres then capped s process_kb ioc_count (available_of s) else 1

-- `recommend`; `process_kb` is what was measured, or 90 MB
unfoldable pub recommend : Scan → ℕ → ℕ → Recommended
unfolding cpu_processes mem_processes queue_for
recommend s process_kb ioc_count =
    let n = process_count s process_kb ioc_count in
    record {
      processes = n;
      threads = if n == 1 then (if s.is_postgres then 4 else 2) else 1;
      queue_size = queue_for (available_of s) n;
    }

pub record Resolved : Type 0 where
  pub processes : ℕ
  pub threads : ℕ
  pub queue_size : ℕ
  pub udp_buffer_kb : ℕ

-- `{**DEFAULTS, **configured, **cli}`
abbrev pub merge : Clean → Clean → Clean
merge configured (number n) = number n
merge configured auto_count = auto_count
merge configured unset = configured

abbrev pub count_or : Clean → ℕ → ℕ
count_or (number n) d = n
count_or _ d = d

abbrev pub nothing_set : CleanIngest
nothing_set = record {
  processes = unset;
  threads = unset;
  queue_size = unset;
  udp_buffer_kb = unset;
}

-- an invalid configuration is ignored
abbrev pub configured_of : Checked CleanIngest → CleanIngest
configured_of (good c) = c
configured_of (bad e) = nothing_set

abbrev pub settle : Recommended → Clean → Clean → Clean → Clean → Resolved
settle r auto_count t q u = record {
  processes = r.processes;
  threads = count_or t r.threads;
  queue_size = count_or q r.queue_size;
  udp_buffer_kb = count_or u (default udp_buffer_kb);
}
settle r p t q u = record {
  processes = count_or p (default processes);
  threads = count_or t (default threads);
  queue_size = count_or q (default queue_size);
  udp_buffer_kb = count_or u (default udp_buffer_kb);
}

abbrev pub resolve : Recommended → CleanIngest → CleanIngest → Resolved
resolve r c o =
    settle r (merge c.processes o.processes) (merge c.threads o.threads)
      (merge c.queue_size o.queue_size) (merge c.udp_buffer_kb o.udp_buffer_kb)

abbrev pub with_cli : Recommended → CleanIngest → Checked CleanIngest → Checked Resolved
with_cli r c (bad e) = bad e
with_cli r c (good o) = good (resolve r c o)

-- `ingest_settings`; an error of the command line is raised
unfoldable pub ingest_settings : Ingest → Ingest → Scan → Checked Resolved
unfolding validate recommend
ingest_settings configured overrides scan =
    with_cli (recommend scan 92160 0) (configured_of (validate configured)) (validate overrides)
