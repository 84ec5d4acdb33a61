-- ===== src/Listener/Cef/Tests.antt =====
-- CEF messages at concrete texts.
use mini_siem.Base.{
  ℕ, ◌-◌, ◌≡◌, refl, true, some, [], ◌∷◌, arith, string_eq, nat_eq, codes, text_eq, false, ◌||◌,
  Option, none, if◌then◌else◌, ◌==◌, Text,
}
use mini_siem.Listener.Framer.{is_digit}
use mini_siem.Listener.Cef.Events.{CefEvent, try_parse_cef_event}
use mini_siem.Listener.Cef.Evidence.{KeptOf, try_parse_cef_event-KeptOf}
use mini_siem.Listener.Cef.{split_cef_payload, Number, plus}
use mini_siem.Listener.Cef.Header.{IsPlain, split_cef_payload-written}

is_digit-IsPlain : (c : ℕ) → is_digit c ≡ true → IsPlain c
is_digit-IsPlain c h =
    let sign : (c == b'\\' || c == b'=' || c == b'|') ≡ false = ground (arith, h) in
    let feed_line : (c == b'\n') ≡ false = ground (arith, h) in
    let return : (c == b'\r') ≡ false = ground (arith, h) in
    (ground (arith, h), rw (sign, feed_line, return) refl)

-- `CEF:0|a\|b|p\\|1|7|n|9|src=10.0.0.1` and what it is read as
split_test :
    split_cef_payload is_digit (codes "CEF:0|a\\|b|p\\\\|1|7|n|9|src=10.0.0.1")
    ≡ some (
      codes "CEF:0"
          ∷ codes "a|b"
          ∷ codes "p\\"
          ∷ codes "1"
          ∷ codes "7"
          ∷ codes "n"
          ∷ codes "9"
          ∷ [],
      codes "src=10.0.0.1",
    )
unfolding split_cef_payload
split_test = refl

split_cef_payload-written_example :
    split_cef_payload is_digit (codes "CEF:0|a\\|b|p\\\\|1|7|n|9|src=10.0.0.1")
    ≡ some (
      codes "CEF:0"
          ∷ codes "a|b"
          ∷ codes "p\\"
          ∷ codes "1"
          ∷ codes "7"
          ∷ codes "n"
          ∷ codes "9"
          ∷ [],
      codes "src=10.0.0.1",
    )
split_cef_payload-written_example =
    split_cef_payload-written is_digit is_digit-IsPlain b'0' [] (codes "a|b") (codes "p\\")
      (codes "1") (codes "7") (codes "n") (codes "9") (codes "src=10.0.0.1") refl

-- a message that claims another source
abbrev forged : Text
forged = codes "CEF:0|v|p|1|7|n|9|src=10.0.0.1"

abbrev read_digit : Text → Option Number
read_digit (c ∷ []) = if is_digit c then some (plus (c - b'0')) else none
read_digit _ = none

abbrev forged_event : Option CefEvent
forged_event =
    try_parse_cef_event is_digit read_digit (λ s. (codes "src", 0, 4) ∷ []) (λ s. none) (λ s. none)
      forged (codes "10.9.9.9") 0

forged_source :
    elim forged_event [ none ↦ [] | some e ↦ e.source_ip ∷ e.peer_ip ∷ e.severity ∷ [] ]
    ≡ codes "10.0.0.1" ∷ codes "10.9.9.9" ∷ codes "critical" ∷ []
unfolding try_parse_cef_event
forged_source = refl

try_parse_cef_event-KeptOf_example : KeptOf forged (codes "10.9.9.9") forged_event
try_parse_cef_event-KeptOf_example =
    try_parse_cef_event-KeptOf is_digit read_digit (λ s. (codes "src", 0, 4) ∷ []) (λ s. none)
      (λ s. none) forged (codes "10.9.9.9") 0
