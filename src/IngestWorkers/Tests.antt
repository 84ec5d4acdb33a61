-- ===== src/IngestWorkers/Tests.antt =====
-- ingest_workers.py at a pipeline of two children.
use mini_siem.Base.{
  ℕ, ◌+◌, ◌%◌, ◌≤◌, ◌≡◌, refl, false, Option, none, some, List, [], ◌∷◌, arith, ◌==◌, nat_eq,
  string_eq, length, Text, codes, text_eq,
}
use mini_siem.Rules.{Event}
use mini_siem.IngestWorkers.{
  Ingest, new_child, new_ingest, get_child, route_key, stamp, submit, stats, Item, Child, udp, tcp,
}
use mini_siem.IngestWorkers.Accounting.{
  Action, act_all, all_submitted, in_hands, stats_complete, submits, takes, dies, supervises,
}
use mini_siem.IngestWorkers.Routing.{Delivered, submit-routes}

abbrev checksum : Text → ℕ
checksum t = length t

abbrev login : Event
login = record {
  message = codes "Failed password for root from 10.0.0.7 port 22";
  source_ip = some (codes "fw");
  severity = none;
  format = codes "rfc3164";
  json = none;
}

abbrev item : Item
item = record { event = login; received_at = none }

abbrev read_any : Text → Text → Option Item
read_any [] _ = none
read_any (c ∷ s) _ = some item

abbrev story : List Action
story =
    submits (codes "a") (codes "fw") udp none
    ∷ submits (codes "b") (codes "fw") udp none
    ∷ submits [] (codes "fw") tcp none
    ∷ takes 0
    ∷ dies 0
    ∷ supervises
    ∷ []

stats_complete_example :
    let s = act_all checksum read_any story (new_ingest 2 1) in
    all_submitted checksum read_any story
    ≤ (stats s).processed
      + (stats s).failed
      + (stats s).dropped
      + (stats s).queue_depth
      + in_hands checksum read_any s
stats_complete_example = stats_complete checksum read_any 2 1 story

abbrev one_child : Ingest
one_child = record {
  children = new_child ∷ new_child ∷ [];
  queue_size = 1;
  dropped = 0;
  dropped_udp = 0;
  dropped_tcp = 0;
  parse_failed = 0;
  restarts = 0;
  stopping = false;
}

submit-routes_example :
    let i = checksum (route_key login) % 2 in
    let after = submit checksum read_any (codes "a") (codes "fw") udp (some 5) one_child in
    ((c : Child) × (get_child i one_child.children ≡ some c)
      × Delivered i (stamp (some 5) item) c one_child after)
    × ((j : ℕ) → (j == i) ≡ false → get_child j after.0.children ≡ get_child j one_child.children)
submit-routes_example =
    submit-routes checksum read_any (codes "a") (codes "fw") udp (some 5) item one_child
      (omega arith) refl
