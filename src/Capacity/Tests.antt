-- ===== src/Capacity/Tests.antt =====
-- capacity.py at a server of sixteen cores.
use mini_siem.Base.{◌+◌, ◌≤◌, ◌<◌, ◌≡◌, refl, true, false, none, some, nat_eq, string_eq, text_eq}
use mini_siem.Capacity.{
  Scan, Ingest, available_of, cores_of, reserve_cpu, recommend, absent, auto, whole,
}
use mini_siem.Capacity.Recommendation.{recommend_lem, FitsMemory}

abbrev server : Scan
server = record {
  cores = 16;
  total_mb = some 32768;
  available_mb = some 16384;
  container_limit_mb = none;
  is_postgres = true;
  same_host = true;
}

server_recommended :
    recommend server 92160 0 ≡ record { processes = 10; threads = 1; queue_size = 50000 }
unfolding recommend
server_recommended = refl

recommend_lem_example :
    let r = recommend server 92160 0 in
    (1 ≤ r.processes)
    × (r.processes ≤ 16)
    × (server.is_postgres ≡ false → r.processes ≡ 1)
    × (1 < r.processes
        → (r.processes + reserve_cpu server + 1 ≤ cores_of server)
          × FitsMemory server 92160 0 r.processes (available_of server)
          × (r.threads ≡ 1))
    × (1 ≤ r.threads)
    × (r.threads ≤ 4)
    × (1000 ≤ r.queue_size)
    × (r.queue_size ≤ 50000)
recommend_lem_example = recommend_lem server 92160 0

abbrev wrong_file : Ingest
wrong_file = record {
  processes = auto;
  threads = whole 99 false;
  queue_size = absent;
  udp_buffer_kb = absent;
}

abbrev from_cli : Ingest
from_cli = record {
  processes = auto;
  threads = absent;
  queue_size = whole 100 false;
  udp_buffer_kb = absent;
}
