-- ===== src/Listener/Cef/Evidence.antt =====
-- listener.py, `_try_parse_cef_event`: what an event keeps of the message it is read from.
use mini_siem.Base.{
  ℕ, ◌≡◌, refl, Bool, true, false, Option, none, some, List, [], ◌∷◌, leb, if◌then◌else◌, string_eq,
  nat_eq, Text, codes, text_eq, lower, lstrip, rstrip, Dict, elem,
}
use mini_siem.Listener.Cef.{
  score_severity, word_severity, parse_cef_extension, normalize_cef_severity, split_cef_payload,
  Number, minus, plus,
}
use mini_siem.Listener.Cef.Events.{
  CefEvent, enveloped, event_of, parsed_event, enveloped_event, try_parse_cef_event, Rfc5424,
  Rfc3164, Envelope,
}

-- the severities that a CEF event may have
abbrev pub cef_severities : List Text
cef_severities = codes "critical" ∷ codes "error" ∷ codes "warning" ∷ codes "informational" ∷ []

first_name :
    (a b c : Bool)
    → elem
        (if a
          then codes "critical"
          else if b
          then codes "error"
          else if c
          then codes "warning"
          else codes "informational")
        cef_severities
      ≡ true
first_name true b c = refl
first_name false true c = refl
first_name false false true = refl
first_name false false false = refl

score_severity-elem : (n : Number) → elem (score_severity n) cef_severities ≡ true
score_severity-elem (minus n) = refl
score_severity-elem (plus n) = first_name (leb 9 n) (leb 7 n) (leb 4 n)

word_severity-elem : (w : Text) → elem (word_severity w) cef_severities ≡ true
word_severity-elem w =
    first_name
      (elem w (codes "very-high" ∷ codes "very high" ∷ codes "critical" ∷ codes "fatal" ∷ []))
      (elem w (codes "high" ∷ codes "error" ∷ []))
      (elem w (codes "medium" ∷ codes "moderate" ∷ codes "warning" ∷ codes "warn" ∷ []))

normalize_cef_severity-elem :
    (int : Text → Option Number) (value : Text)
    → elem (normalize_cef_severity int value) cef_severities ≡ true
unfolding normalize_cef_severity
normalize_cef_severity-elem int value = read (int (rstrip (lstrip value)))
  where
    read :
        (o : Option Number)
        → elem
            (elim o [
              | none ↦ word_severity (lower (rstrip (lstrip value)))
              | some n ↦ score_severity n
            ])
            cef_severities
          ≡ true
    read none = word_severity-elem (lower (rstrip (lstrip value)))
    read (some n) = score_severity-elem n

-- What an event keeps: the message as it came, the address of its sender, whatever address the
-- message claims, and a severity the other parts know.
abbrev pub KeptOf : Text → Text → Option CefEvent → Type 0
KeptOf raw source_ip none = Unit
KeptOf raw source_ip (some e) =
    (e.raw ≡ raw) × (e.peer_ip ≡ source_ip) × (elem e.severity cef_severities ≡ true)

module _ (is_decimal : ℕ → Bool) (int : Text → Option Number)
    (finditer : Text → List (Text × ℕ × ℕ)) (match_5424 : Text → Option Rfc5424)
    (match_3164 : Text → Option Rfc3164) where
  event_of-KeptOf :
      (raw source_ip : Text) (now : ℕ) (cef_text : Text) (envelope : Envelope) (header : List Text)
      (fields : Dict Text Text)
      → KeptOf raw source_ip (
          event_of is_decimal int finditer match_5424 match_3164 raw source_ip now cef_text envelope
            header fields)
  event_of-KeptOf raw source_ip now cef_text envelope
        (version ∷ vendor ∷ product ∷ device ∷ signature ∷ name ∷ level ∷ []) fields =
      (refl, refl, normalize_cef_severity-elem int level)
  event_of-KeptOf raw source_ip now cef_text envelope header fields = tt

  -- Whatever the message is: where an event is read from it, the event keeps the message, the address
  -- of the sender, and one of four severities.
  pub try_parse_cef_event-KeptOf :
      (raw source_ip : Text) (now : ℕ)
      → KeptOf raw source_ip
          (try_parse_cef_event is_decimal int finditer match_5424 match_3164 raw source_ip now)
  unfolding try_parse_cef_event
  try_parse_cef_event-KeptOf raw source_ip now =
      at_envelope (enveloped is_decimal int finditer match_5424 match_3164 raw)
    where
      at_header :
          (cef_text : Text) (envelope : Envelope) (o : Option (List Text × Text))
          → KeptOf raw source_ip (
              parsed_event is_decimal int finditer match_5424 match_3164 raw source_ip now cef_text
                envelope o)
      at_header cef_text envelope none = tt
      at_header cef_text envelope (some (header, extension)) =
          event_of-KeptOf raw source_ip now cef_text envelope header
            (parse_cef_extension finditer extension)

      at_envelope :
          (o : Option (Text × Envelope))
          → KeptOf raw source_ip
              (enveloped_event is_decimal int finditer match_5424 match_3164 raw source_ip now o)
      at_envelope none = tt
      at_envelope (some (cef_text, envelope)) =
          at_header cef_text envelope (split_cef_payload is_decimal cef_text)
