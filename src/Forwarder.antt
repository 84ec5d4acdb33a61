-- ===== src/Forwarder.antt =====
-- forwarder.py: the relay of raw messages to other collectors. Of a forwarder the model keeps its
-- configuration row, its counters and whether it has an open socket; `last_error` is its kind. The
-- regular expressions are arguments: `compiles` tells the patterns that `re.compile` takes and
-- `search` what a pattern finds.
pub mod Origin
pub mod Placing
pub mod Framing
pub mod Reloads
pub mod Flushes
pub mod Escapes
mod Tests
use mini_siem.Base.{
  ℕ, ◌+◌, min, ap, Bool, true, false, not, ◌&&◌, ◌||◌, Option, none, some, List, [], ◌∷◌, ◌++◌, map,
  leb, if◌then◌else◌, ◌==◌, nat_eq, string_eq, is_some, keep, Text, codes, text_eq, lower, Dict,
  lookup, insert, erase, elem,
}
use mini_siem.Severity.{normalize, order, index_of}

-- a row of the `forwarders` table
pub record Row : Type 0 where
  pub id : ℕ
  pub name : Text
  pub host : Text
  pub port : ℕ
  pub protocol : Option Text
  pub enabled : Bool
  pub filter_pattern : Option Text
  pub min_severity : Option Text
  pub origin_mode : Option Text
  pub tcp_framing : Option Text

-- what `config_signature` tells
pub record Signature : Type 0 where
  pub name : Text
  pub host : Text
  pub port : ℕ
  pub protocol : Text
  pub enabled : Bool
  pub filter_pattern : Text
  pub min_severity : Text
  pub origin_mode : Text
  pub tcp_framing : Text

pub record Forwarder : Type 0 where
  pub config : Signature
  pub is_open : Bool
  pub pending_count : ℕ
  pub last_forward_at : Option ℕ
  pub last_error : Option Text

-- `(value or default).lower()`
abbrev pub text_or : Option Text → Text → Text
text_or none t = t
text_or (some []) t = t
text_or (some (c ∷ s)) t = c ∷ s

unfoldable pub signature_of : Row → Signature
unfolding lower
signature_of r = record {
  name = r.name;
  host = r.host;
  port = r.port;
  protocol = lower (text_or r.protocol (codes "udp"));
  enabled = r.enabled;
  filter_pattern = text_or r.filter_pattern [];
  min_severity = lower (text_or r.min_severity []);
  origin_mode = lower (text_or r.origin_mode (codes "off"));
  tcp_framing = lower (text_or r.tcp_framing (codes "newline"));
}

abbrev pub bool_beq : Bool → Bool → Bool
bool_beq true b = b
bool_beq false b = not b

-- `existing.config_signature() != candidate.config_signature()`, as its negation
unfoldable pub same_signature : Signature → Signature → Bool
same_signature a b =
    a.name == b.name
    && a.host == b.host
    && a.port == b.port
    && a.protocol == b.protocol
    && bool_beq a.enabled b.enabled
    && a.filter_pattern == b.filter_pattern
    && a.min_severity == b.min_severity
    && a.origin_mode == b.origin_mode
    && a.tcp_framing == b.tcp_framing

abbrev pub fresh_forwarder : Signature → Forwarder
fresh_forwarder c = record {
  config = c;
  is_open = false;
  pending_count = 0;
  last_forward_at = none;
  last_error = none;
}

abbrev pub is_empty_text : Text → Bool
is_empty_text [] = true
is_empty_text (c ∷ s) = false

-- `_is_self_loop`
unfoldable pub is_self_loop : ℕ → Row → Bool
is_self_loop listen_port r =
    elem r.host (codes "127.0.0.1" ∷ codes "localhost" ∷ codes "::1" ∷ []) && r.port == listen_port

-- `candidate` after the counters of the forwarder it replaces are carried over
abbrev pub carry_over : Signature → Forwarder → Forwarder
carry_over c old = record {
  config = c;
  is_open = false;
  pending_count = old.pending_count;
  last_forward_at = old.last_forward_at;
  last_error = none;
}

abbrev pub updated : Signature → Option Forwarder → Forwarder
updated c none = fresh_forwarder c
updated c (some old) = if same_signature old.config c then old else carry_over c old

pub record Manager : Type 0 where
  pub forwarders : Dict ℕ Forwarder
  pub warned_loops : List ℕ

abbrev pub warn : ℕ → List ℕ → List ℕ
warn k ks = if elem k ks then ks else ks ++ k ∷ []

-- a row that loops back, and one that does not
abbrev pub skipped : Row → Manager → Manager
skipped r m = record {
  forwarders = erase r.id m.forwarders;
  warned_loops = warn r.id m.warned_loops;
}

abbrev pub loaded : Row → Manager → Manager
loaded r m = record {
  forwarders = insert r.id (updated (signature_of r) (lookup r.id m.forwarders)) m.forwarders;
  warned_loops = m.warned_loops;
}

abbrev pub keep_seen : List ℕ → Dict ℕ Forwarder → Dict ℕ Forwarder
keep_seen seen = keep (λ (e : ℕ × Forwarder). elem e.0 seen)

module _ (compiles : Text → Bool) where
  -- `_RuntimeForwarder.__init__` raises on a pattern that is no regular expression
  abbrev pub builds : Signature → Bool
  builds c = is_empty_text c.filter_pattern || compiles c.filter_pattern

  -- The loop of `_reload`: the manager, the ids seen and whether the loop got to its end; a row whose
  -- pattern does not compile ends the reload by an exception.
  unfoldable pub reload_rows : ℕ → List Row → Manager → List ℕ → Manager × List ℕ × Bool
  unfolding is_self_loop same_signature signature_of
  reload_rows listen_port [] m seen = (m, seen, true)
  reload_rows listen_port (r ∷ rows) m seen = elim (is_self_loop listen_port r) [
    | true ↦ reload_rows listen_port rows (skipped r m) seen
    | false ↦ elim (builds (signature_of r)) [
      | true ↦ reload_rows listen_port rows (loaded r m) (r.id ∷ seen)
      | false ↦ (m, r.id ∷ seen, false)
    ]
  ]

  -- the removal of deleted forwarders, when the loop got to its end
  abbrev pub remove_deleted : Manager × List ℕ × Bool → Manager
  remove_deleted (m, seen, true) = record {
    forwarders = keep_seen seen m.forwarders;
    warned_loops = m.warned_loops;
  }
  remove_deleted (m, seen, false) = m

  -- `ForwarderManager._reload`
  unfoldable pub reload : ℕ → List Row → Manager → Manager
  reload listen_port rows m = remove_deleted (reload_rows listen_port rows m [])

-- an event, as far as the relay reads it
pub record Event : Type 0 where
  pub raw : Option Text
  pub format : Text
  pub hostname : Option Text
  pub peer_ip : Option Text
  pub source_ip : Option Text
  pub severity : Option Text

module _ (search : Text → Text → Bool) where
  abbrev pub severe_enough : Option Text → Text → Bool
  severe_enough severity min_severity = elim (normalize (some min_severity)) [
    | none ↦ true
    | some l ↦ leb (index_of severity 6) (order l)
  ]

  -- `_RuntimeForwarder.wants`
  unfoldable pub wants : Event → Forwarder → Bool
  unfolding normalize index_of
  wants e f =
      f.config.enabled
      && severe_enough e.severity f.config.min_severity
      && (is_empty_text f.config.filter_pattern
          || search f.config.filter_pattern (text_or e.raw []))

-- how the socket answers a send: done, or the kind of the exception
pub data Outcome : Type 0 where
  sent : Outcome
  raised : Text → Outcome

-- `_RuntimeForwarder.send`: its counters after the outcome; an exception closes the TCP socket
unfoldable pub after_send : ℕ → Outcome → Forwarder → Forwarder
after_send now sent f = record {
  config = f.config;
  is_open = f.is_open || f.config.protocol == codes "tcp";
  pending_count = f.pending_count + 1;
  last_forward_at = some now;
  last_error = none;
}
after_send now (raised kind) f = record {
  config = f.config;
  is_open = false;
  pending_count = f.pending_count;
  last_forward_at = f.last_forward_at;
  last_error = some kind;
}

-- a row's counters in the table
pub record Counters : Type 0 where
  pub forwarded_count : ℕ
  pub last_forward_at : Option ℕ
  pub last_error : Option Text

pub record Snapshot : Type 0 where
  pub count : ℕ
  pub last_at : Option ℕ
  pub last_err : Option Text

abbrev pub snapshot_of : Forwarder → Snapshot
snapshot_of f = record {
  count = f.pending_count;
  last_at = f.last_forward_at;
  last_err = f.last_error;
}

abbrev pub has_news : Forwarder → Bool
has_news f = not (f.pending_count == 0) || is_some f.last_error || is_some f.last_forward_at

abbrev pub coalesce : Option ℕ → Option ℕ → Option ℕ
coalesce none old = old
coalesce (some t) old = some t

abbrev pub write_counters : Snapshot → Counters → Counters
write_counters s c = record {
  forwarded_count = c.forwarded_count + s.count;
  last_forward_at = coalesce s.last_at c.last_forward_at;
  last_error = s.last_err;
}

-- `UPDATE forwarders ... WHERE id = ?`: of a row that is there
abbrev pub update_row : ℕ → Snapshot → Dict ℕ Counters → Dict ℕ Counters
update_row k s [] = []
update_row k s ((j, c) ∷ rows) =
    if j == k then (j, write_counters s c) ∷ rows else (j, c) ∷ update_row k s rows

unfoldable pub snapshots : Dict ℕ Forwarder → List (ℕ × Snapshot)
snapshots [] = []
snapshots ((k, f) ∷ fs) =
    let rest = snapshots fs in if has_news f then (k, snapshot_of f) ∷ rest else rest

abbrev pub clear : Forwarder → Forwarder
clear f = record {
  config = f.config;
  is_open = f.is_open;
  pending_count = 0;
  last_forward_at = f.last_forward_at;
  last_error = f.last_error;
}

abbrev pub clear_all : Dict ℕ Forwarder → Dict ℕ Forwarder
clear_all = map (λ (e : ℕ × Forwarder). (e.0, clear e.1))

unfoldable pub write_all : List (ℕ × Snapshot) → Dict ℕ Counters → Dict ℕ Counters
write_all [] rows = rows
write_all ((k, s) ∷ ss) rows = write_all ss (update_row k s rows)

-- `_flush_stats`: the counters are cleared before the table is written; `committed` is whether the
-- write went through
unfoldable pub flush_stats :
    Bool → Dict ℕ Forwarder → Dict ℕ Counters → Dict ℕ Forwarder × Dict ℕ Counters
unfolding snapshots write_all
flush_stats committed fs rows =
    (clear_all fs, if committed then write_all (snapshots fs) rows else rows)
