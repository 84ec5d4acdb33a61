-- ===== src/IngestWorkers.antt =====
-- ingest_workers.py: one receiving process that routes events to child processes. `Ingest` is what the
-- receiver and the counters shared with the children hold, and of each child what it has taken from
-- its queue and whether it runs. `parse` is the parser the pipeline is given (`none` where it raises)
-- and `crc32` is that of zlib. A TCP put that waits for room is the step at which its wait ends: what
-- the children do meanwhile are steps before it.
pub mod Routing
pub mod Accounting
mod Tests
use mini_siem.Base.{
  ℕ, zero, suc, ◌+◌, ◌*◌, ◌%◌, max, ap, Bool, true, false, Option, none, some, List, [], ◌∷◌, ◌++◌,
  map, ltb, if◌then◌else◌, nat_eq, string_eq, length, take, drop, Text, codes, text_eq, ◌&&◌,
}
use mini_siem.Rules.{Event, extract_ip}

pub record Item : Type 0 where
  pub event : Event
  pub received_at : Option ℕ

pub record Child : Type 0 where
  pub queue : List Item
  -- the event taken from the queue and not yet counted
  pub held : Option Item
  -- its two slots of the shared `counters`
  pub processed : ℕ
  pub failed : ℕ
  pub is_alive : Bool

pub record Ingest : Type 0 where
  pub children : List Child
  pub queue_size : ℕ
  pub dropped : ℕ
  pub dropped_udp : ℕ
  pub dropped_tcp : ℕ
  pub parse_failed : ℕ
  pub restarts : ℕ
  pub stopping : Bool

abbrev pub new_child : Child
new_child = record { queue = []; held = none; processed = 0; failed = 0; is_alive = true }

abbrev pub repeat : ℕ → List Child
repeat zero = []
repeat (suc n) = new_child ∷ repeat n

-- `ProcessIngest.__init__`, started
unfoldable pub new_ingest : ℕ → ℕ → Ingest
new_ingest processes queue_size = record {
  children = repeat (max 2 processes);
  queue_size = max 1 queue_size;
  dropped = 0;
  dropped_udp = 0;
  dropped_tcp = 0;
  parse_failed = 0;
  restarts = 0;
  stopping = false;
}

-- `self.queues[i]` and the slots of child i
abbrev pub get_child : ℕ → List Child → Option Child
get_child n [] = none
get_child zero (c ∷ cs) = some c
get_child (suc n) (c ∷ cs) = get_child n cs

abbrev pub set_child : ℕ → Child → List Child → List Child
set_child n d [] = []
set_child zero d (c ∷ cs) = d ∷ cs
set_child (suc n) d (c ∷ cs) = c ∷ set_child n d cs

abbrev pub with_children : List Child → Ingest → Ingest
with_children cs s = record {
  children = cs;
  queue_size = s.queue_size;
  dropped = s.dropped;
  dropped_udp = s.dropped_udp;
  dropped_tcp = s.dropped_tcp;
  parse_failed = s.parse_failed;
  restarts = s.restarts;
  stopping = s.stopping;
}

-- `... or event.get("source_ip") or "unknown"`
abbrev pub or_text : Option Text → Text → Text
or_text none t = t
or_text (some []) t = t
or_text (some (c ∷ s)) t = c ∷ s

-- `route_key`
unfoldable pub route_key : Event → Text
unfolding extract_ip
route_key e = or_text (extract_ip e.message) (or_text e.source_ip (codes "unknown"))

pub data Transport : Type 0 where
  udp tcp : Transport

abbrev pub is_tcp : Transport → Bool
is_tcp udp = false
is_tcp tcp = true

abbrev pub stamp : Option ℕ → Item → Item
stamp none x = x
stamp (some t) x = record { event = x.event; received_at = some t }

abbrev pub count_parse_failed : Ingest → Ingest
count_parse_failed s = record {
  children = s.children;
  queue_size = s.queue_size;
  dropped = s.dropped;
  dropped_udp = s.dropped_udp;
  dropped_tcp = s.dropped_tcp;
  parse_failed = s.parse_failed + 1;
  restarts = s.restarts;
  stopping = s.stopping;
}

-- the `except queue.Full` branch
abbrev pub drop_one : Transport → Ingest → Ingest
drop_one transport s = record {
  children = s.children;
  queue_size = s.queue_size;
  dropped = s.dropped + 1;
  dropped_udp = s.dropped_udp + (if is_tcp transport then 0 else 1);
  dropped_tcp = s.dropped_tcp + (if is_tcp transport then 1 else 0);
  parse_failed = s.parse_failed;
  restarts = s.restarts;
  stopping = s.stopping;
}

abbrev pub put : Item → Child → Child
put x c = record {
  queue = c.queue ++ x ∷ [];
  held = c.held;
  processed = c.processed;
  failed = c.failed;
  is_alive = c.is_alive;
}

-- `queues[index].put(...)`, a full queue dropping the event
abbrev pub enqueue : Transport → ℕ → Item → Option Child → Ingest → Ingest × Bool
enqueue transport i x none s = (s, false)
enqueue transport i x (some c) s =
    if ltb (length c.queue) s.queue_size
    then (with_children (set_child i (put x c) s.children) s, true)
    else (drop_one transport s, false)

module _ (crc32 : Text → ℕ) (parse : Text → Text → Option Item) where
  -- the child of an event
  abbrev pub slot_of : Event → Ingest → ℕ
  slot_of e s = crc32 (route_key e) % length s.children

  abbrev pub submit_parsed : Transport → Option ℕ → Option Item → Ingest → Ingest × Bool
  submit_parsed transport received_at none s = (count_parse_failed s, false)
  submit_parsed transport received_at (some x) s =
      let i = slot_of x.event s in
      enqueue transport i (stamp received_at x) (get_child i s.children) s

  -- `ProcessIngest.submit`
  unfoldable pub submit : Text → Text → Transport → Option ℕ → Ingest → Ingest × Bool
  submit raw source_ip transport received_at s =
      submit_parsed transport received_at (parse raw source_ip) s

-- `_child_main`: `work.get`
abbrev pub take_from : List Item → Child → Child
take_from [] c = c
take_from (x ∷ xs) c = record {
  queue = xs;
  held = some x;
  processed = c.processed;
  failed = c.failed;
  is_alive = true;
}

abbrev pub take_if : Option Item → Bool → Child → Child
take_if none true c = take_from c.queue c
take_if (some x) _ c = c
take_if none false c = c

unfoldable pub child_take : Child → Child
child_take c = take_if c.held c.is_alive c

-- `_child_main`: an event is counted as processed when every step succeeded, and as failed where a
-- step raised, or the `print` behind the count, which makes it count as both
abbrev pub count_held : Bool → Bool → Option Item → Child → Child
count_held ok printed none c = c
count_held ok printed (some x) c = record {
  queue = c.queue;
  held = none;
  processed = c.processed + (if ok then 1 else 0);
  failed = c.failed + (if ok && printed then 0 else 1);
  is_alive = c.is_alive;
}

unfoldable pub child_finish : Bool → Bool → Child → Child
child_finish ok printed c = if c.is_alive then count_held ok printed c.held c else c

-- the child exits unexpectedly
abbrev pub child_die : Child → Child
child_die c = record {
  queue = c.queue;
  held = c.held;
  processed = c.processed;
  failed = c.failed;
  is_alive = false;
}

-- a replacement on a fresh queue; `has_qsize` is whether the platform tells a queue's length
abbrev pub restart : Bool → Child → Child
restart has_qsize c = record {
  queue = [];
  held = none;
  processed = c.processed;
  failed = c.failed + (1 + (if has_qsize then length c.queue else 0));
  is_alive = true;
}

abbrev pub revive : Bool → Child → Child
revive has_qsize c = if c.is_alive then c else restart has_qsize c

abbrev pub dead : List Child → ℕ
dead [] = 0
dead (c ∷ cs) = (if c.is_alive then 0 else 1) + dead cs

-- `ProcessIngest.supervise`
unfoldable pub supervise : Bool → Ingest → Ingest × ℕ
supervise has_qsize s = if s.stopping then (s, 0) else (
  record {
    children = map (revive has_qsize) s.children;
    queue_size = s.queue_size;
    dropped = s.dropped;
    dropped_udp = s.dropped_udp;
    dropped_tcp = s.dropped_tcp;
    parse_failed = s.parse_failed;
    restarts = s.restarts + dead s.children;
    stopping = s.stopping;
  },
  dead s.children,
)

pub record Stats : Type 0 where
  pub workers_alive : ℕ
  pub processed : ℕ
  pub failed : ℕ
  pub dropped : ℕ
  pub queue_depth : ℕ
  pub queue_capacity : ℕ

abbrev pub sum_of : (Child → ℕ) → List Child → ℕ
sum_of f [] = 0
sum_of f (c ∷ cs) = f c + sum_of f cs

-- `ProcessIngest.stats`, where the platform tells a queue's length
unfoldable pub stats : Ingest → Stats
stats s = record {
  workers_alive = sum_of (λ c. if c.is_alive then 1 else 0) s.children;
  processed = sum_of (λ c. c.processed) s.children;
  failed = sum_of (λ c. c.failed) s.children + s.parse_failed;
  dropped = s.dropped;
  queue_depth = sum_of (λ c. length c.queue) s.children;
  queue_capacity = s.queue_size * length s.children;
}
