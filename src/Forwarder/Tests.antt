-- ===== src/Forwarder/Tests.antt =====
-- forwarder.py at concrete rows and messages.
use mini_siem.Base.{
  ℕ, ◌+◌, String, ◌≡◌, refl, Bool, true, false, none, some, List, [], ◌∷◌, ◌++◌, nat_eq, string_eq,
  All, Text, codes, text_eq, lower, Dict, lookup,
}
use mini_siem.Forwarder.{
  Row, Manager, Forwarder, Event, Counters, signature_of, same_signature, is_self_loop, builds,
  reload_rows, reload, flush_stats,
}
use mini_siem.Forwarder.Origin.{sd_escape, attach_origin_sd}
use mini_siem.Forwarder.Reloads.{UniqueIds, find_row, Reloaded, reload-Reloaded}
use mini_siem.Forwarder.Flushes.{flush_stats-counts, pending_of, forwarded_of}
use mini_siem.Forwarder.Escapes.{read_from, read_from-sd_escape}

abbrev any_pattern : Text → Bool
any_pattern _ = true

abbrev row_to : ℕ → String → ℕ → Row
row_to k host port = record {
  id = k;
  name = codes "out";
  host = codes host;
  port = port;
  protocol = some (codes "TCP");
  enabled = true;
  filter_pattern = none;
  min_severity = none;
  origin_mode = some (codes "sd");
  tcp_framing = none;
}

abbrev busy : Forwarder
busy = record {
  config = signature_of (row_to 1 "10.0.0.9" 514);
  is_open = true;
  pending_count = 7;
  last_forward_at = some 3;
  last_error = none;
}

abbrev manager : Manager
manager = record { forwarders = (1, busy) ∷ (2, busy) ∷ []; warned_loops = [] }

abbrev two_rows : List Row
two_rows = row_to 1 "10.0.0.8" 514 ∷ row_to 2 "localhost" 514 ∷ []

two_rows_unique : UniqueIds two_rows
two_rows_unique = ((refl, tt), (tt, tt))

two_rows_build : All (λ (r : Row). builds any_pattern (signature_of r) ≡ true) two_rows
unfolding signature_of
two_rows_build = (refl, (refl, tt))

reload-Reloaded_example :
    Reloaded any_pattern 514 1
      (find_row 1 two_rows)
      (lookup 1 manager.forwarders)
      (lookup 1 (reload any_pattern 514 two_rows manager).forwarders)
reload-Reloaded_example =
    reload-Reloaded any_pattern 514 1 two_rows manager two_rows_unique two_rows_build

loop_removed : lookup 2 (reload any_pattern 514 two_rows manager).forwarders ≡ none
unfolding reload reload_rows is_self_loop signature_of same_signature lower
loop_removed = refl

abbrev zero_counters : Counters
zero_counters = record { forwarded_count = 10; last_forward_at = none; last_error = none }

abbrev counters_table : Dict ℕ Counters
counters_table = (1, zero_counters) ∷ []

flush_stats-counts_example :
    let (fs', rows') = flush_stats true manager.forwarders counters_table in
    (pending_of 1 fs' ≡ 0)
    × (forwarded_of (lookup 1 rows') ≡ forwarded_of (lookup 1 counters_table) + 7)
flush_stats-counts_example = flush_stats-counts true 1 manager.forwarders counters_table refl

abbrev odd_value : Text
odd_value = codes "a]b"

read_from-sd_escape_example :
    read_from false (sd_escape odd_value ++ b'"' ∷ codes "] x") ≡ some (odd_value, codes "] x")
read_from-sd_escape_example = read_from-sd_escape odd_value (codes "] x")

abbrev structured : Event
structured = record {
  raw = some (codes "<34>1 t h app p m - hi");
  format = codes "rfc5424";
  hostname = none;
  peer_ip = some (codes "10.0.0.7");
  source_ip = none;
  severity = none;
}

attached :
    attach_origin_sd (codes "<34>1 t h app p m - hi") structured (codes "10.0.0.7")
    ≡ codes "<34>1 t h app p m [origin ip=\"10.0.0.7\"] hi"
unfolding attach_origin_sd
attached = refl
