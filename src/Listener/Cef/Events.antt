-- ===== src/Listener/Cef/Events.antt =====
-- listener.py, `_try_parse_cef_event`: the event of a CEF message, bare or in a syslog line. The two
-- regular expressions of a syslog line are parameters that give their groups.
use mini_siem.Base.{
  ℕ, zero, suc, ◌/◌, Bool, Option, none, some, List, [], ◌∷◌, if◌then◌else◌, string_eq, nat_eq,
  ◌==◌, or_else, Text, codes, text_eq, Dict, lookup, insert,
}
use mini_siem.Forwarder.Framing.{decimal}
use mini_siem.Listener.Cef.{
  extension_fields, parse_cef_extension, normalize_cef_severity, split_cef_payload,
  cef_payload_at_start, Number,
}

-- the names of RFC 5424, by number
abbrev pub facilities : List Text
facilities =
    codes "kern"
    ∷ codes "user"
    ∷ codes "mail"
    ∷ codes "daemon"
    ∷ codes "auth"
    ∷ codes "syslog"
    ∷ codes "lpr"
    ∷ codes "news"
    ∷ codes "uucp"
    ∷ codes "cron"
    ∷ codes "authpriv"
    ∷ codes "ftp"
    ∷ codes "ntp"
    ∷ codes "audit"
    ∷ codes "alert"
    ∷ codes "clock"
    ∷ codes "local0"
    ∷ codes "local1"
    ∷ codes "local2"
    ∷ codes "local3"
    ∷ codes "local4"
    ∷ codes "local5"
    ∷ codes "local6"
    ∷ codes "local7"
    ∷ []

abbrev pub name_at : ℕ → ℕ → List Text → Text
name_at n number [] = decimal number
name_at zero number (x ∷ xs) = x
name_at (suc n) number (x ∷ xs) = name_at n number xs

-- `FACILITIES[facility] if facility < len(FACILITIES) else str(facility)`
abbrev pub facility_name : ℕ → Text
facility_name pri = name_at (pri / 8) (pri / 8) facilities

-- the groups of RFC5424_RE
pub record Rfc5424 : Type 0 where
  pub pri : ℕ
  pub timestamp : Text
  pub hostname : Text
  pub appname : Text
  pub procid : Text
  pub msgid : Text
  pub message : Text

-- the groups of RFC3164_RE
pub record Rfc3164 : Type 0 where
  pub pri : ℕ
  pub timestamp : Text
  pub hostname : Text
  pub tag : Text
  pub pid : Option Text
  pub message : Text

-- `envelope` of `_try_parse_cef_event`
pub record Envelope : Type 0 where
  pub priority : Option ℕ
  pub facility : Text
  pub device_timestamp : Text
  pub hostname : Text
  pub app_name : Text
  pub proc_id : Text
  pub msg_id : Text

abbrev pub no_envelope : Envelope
no_envelope = record {
  priority = none;
  facility = [];
  device_timestamp = [];
  hostname = [];
  app_name = [];
  proc_id = [];
  msg_id = [];
}

abbrev pub envelope_5424 : Rfc5424 → Envelope
envelope_5424 m = record {
  priority = some m.pri;
  facility = facility_name m.pri;
  device_timestamp = m.timestamp;
  hostname = m.hostname;
  app_name = m.appname;
  proc_id = m.procid;
  msg_id = m.msgid;
}

abbrev pub envelope_3164 : Rfc3164 → Envelope
envelope_3164 m = record {
  priority = some m.pri;
  facility = facility_name m.pri;
  device_timestamp = m.timestamp;
  hostname = m.hostname;
  app_name = m.tag;
  proc_id = or_else m.pid [];
  msg_id = [];
}

-- `event`
pub record CefEvent : Type 0 where
  pub received_at : ℕ
  pub source_ip : Text
  pub peer_ip : Text
  pub format : Text
  pub priority : Option ℕ
  pub facility : Text
  pub severity : Text
  pub device_timestamp : Text
  pub hostname : Text
  pub destination : Text
  pub app_name : Text
  pub proc_id : Text
  pub msg_id : Text
  pub message : Text
  pub raw : Text
  pub cef_version : Text
  pub device_vendor : Text
  pub device_product : Text
  pub device_version : Text
  pub signature_id : Text
  pub event_name : Text
  pub cef_severity : Text
  pub destination_ip : Text
  pub username : Text
  pub action : Text
  pub destination_port : Text
  pub cef : Dict Text Text

-- `a or b` of two texts
abbrev pub or_text : Text → Text → Text
or_text [] b = b
or_text (c ∷ s) b = c ∷ s

-- `fields.get(key)`, with no text for a key that is missing
abbrev pub get : Text → Dict Text Text → Text
get key fields = or_else (lookup key fields) []

-- `version.split(":", 1)[1]`
abbrev pub behind_colon : Text → Text
behind_colon [] = []
behind_colon (c ∷ s) = let rest = behind_colon s in if c == b':' then s else rest

abbrev pub map_option {ℓ κ} : {A : Type ℓ} {B : Type κ} → (A → B) → Option A → Option B
map_option f none = none
map_option f (some a) = some (f a)

module _ (is_decimal : ℕ → Bool) (int : Text → Option Number)
    (finditer : Text → List (Text × ℕ × ℕ)) (match_5424 : Text → Option Rfc5424)
    (match_3164 : Text → Option Rfc3164) where
  -- the payload and the envelope of a line in one of the two forms, else those of the bare message
  abbrev pub in_5424 : Text → Option (Text × Envelope)
  in_5424 raw = elim (match_5424 raw) [
    | none ↦ none
    | some m ↦ map_option (λ p. (p, envelope_5424 m)) (cef_payload_at_start is_decimal m.message)
  ]

  abbrev pub in_3164 : Text → Option (Text × Envelope)
  in_3164 raw = elim (match_3164 raw) [
    | none ↦ none
    | some m ↦ map_option (λ p. (p, envelope_3164 m)) (cef_payload_at_start is_decimal m.message)
  ]

  abbrev pub bare : Text → Option (Text × Envelope)
  bare raw = map_option (λ p. (p, no_envelope)) (cef_payload_at_start is_decimal raw)

  abbrev pub first_of {ℓ} : {A : Type ℓ} → Option A → Option A → Option A
  first_of none b = b
  first_of (some a) b = some a

  unfoldable pub enveloped : Text → Option (Text × Envelope)
  unfolding cef_payload_at_start
  enveloped raw = first_of (in_5424 raw) (first_of (in_3164 raw) (bare raw))

  -- the event of a header, its fields and its envelope
  abbrev pub event_of :
      Text → Text → ℕ → Text → Envelope → List Text → Dict Text Text → Option CefEvent
  event_of raw transport_source now cef_text envelope
        (version ∷ vendor ∷ product ∷ device ∷ signature ∷ name ∷ level ∷ []) fields =
      some (record {
        received_at = now;
        source_ip = or_text (get (codes "src") fields) transport_source;
        peer_ip = transport_source;
        format = codes "cef";
        priority = envelope.priority;
        facility = envelope.facility;
        severity = normalize_cef_severity int level;
        device_timestamp = envelope.device_timestamp;
        hostname = or_text (get (codes "shost") fields) envelope.hostname;
        destination = or_text (get (codes "dst") fields) (get (codes "dhost") fields);
        app_name = or_text envelope.app_name product;
        proc_id = envelope.proc_id;
        msg_id = envelope.msg_id;
        message = cef_text;
        raw = raw;
        cef_version = behind_colon version;
        device_vendor = vendor;
        device_product = product;
        device_version = device;
        signature_id = signature;
        event_name = name;
        cef_severity = level;
        destination_ip = get (codes "dst") fields;
        username = or_text (get (codes "suser") fields) (get (codes "duser") fields);
        action = get (codes "act") fields;
        destination_port = get (codes "dpt") fields;
        cef = insert (codes "cef_severity") level (
            insert (codes "event_type") name (
              insert (codes "event_code") signature (
                insert (codes "device_version") device
                  (insert (codes "product") product (insert (codes "vendor") vendor fields)))));
      })
  event_of raw transport_source now cef_text envelope _ fields = none

  abbrev pub parsed_event :
      Text → Text → ℕ → Text → Envelope → Option (List Text × Text) → Option CefEvent
  parsed_event raw source_ip now cef_text envelope none = none
  parsed_event raw source_ip now cef_text envelope (some (header, extension)) =
      event_of raw source_ip now cef_text envelope header (parse_cef_extension finditer extension)

  abbrev pub enveloped_event : Text → Text → ℕ → Option (Text × Envelope) → Option CefEvent
  enveloped_event raw source_ip now none = none
  enveloped_event raw source_ip now (some (cef_text, envelope)) =
      parsed_event raw source_ip now cef_text envelope (split_cef_payload is_decimal cef_text)

  -- `_try_parse_cef_event`
  unfoldable pub try_parse_cef_event : Text → Text → ℕ → Option CefEvent
  unfolding extension_fields split_cef_payload normalize_cef_severity enveloped
  try_parse_cef_event raw source_ip now = enveloped_event raw source_ip now (enveloped raw)
