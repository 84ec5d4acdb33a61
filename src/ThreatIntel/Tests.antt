-- ===== src/ThreatIntel/Tests.antt =====
-- Indicators and an event.
use mini_siem.Base.{ℕ, ◌≡◌, refl, ◌↔◌, List, [], ◌∷◌, string_eq, nat_eq, Text, codes, text_eq}
use mini_siem.ThreatIntel.{
  Ioc, normalize_ioc, reload, check, process, IocType, Event, ip, domain, url,
}
use mini_siem.ThreatIntel.Loops.{In}
use mini_siem.ThreatIntel.Matches.{Touched, check_iff_Touched}

abbrev row : ℕ → IocType → Text → Ioc
row k t key = record {
  id = k;
  ioc_type = t;
  value = key;
  value_norm = key;
  threat = [];
  source = codes "feed";
  severity = [];
}

abbrev rows : List Ioc
rows =
    row 1 ip (codes "10.0.0.1")
    ∷ row 2 domain (codes "bad.test")
    ∷ row 3 ip (codes "10.0.0.1")
    ∷ row 4 url (codes "http://x/y")
    ∷ []

abbrev no_tokens : Text → List Text
no_tokens s = []

abbrev event : Event
event = record {
  source_ip = codes "10.0.0.1";
  hostname = codes "WWW.bad.test";
  message = codes "GET HTTP://X/Y";
}

-- The later row of the address and the URL; the host is below the domain, and does not match it.
check_test :
    check no_tokens no_tokens (reload rows) event
    ≡ row 3 ip (codes "10.0.0.1") ∷ row 4 url (codes "http://x/y") ∷ []
unfolding check reload
check_test = refl

process_test : (process no_tokens no_tokens (reload rows) 7 event).1 ≡ 2
unfolding process reload
process_test = refl

normalize_test : normalize_ioc url (codes " HTTP://X/Y// ") ≡ codes "http://x/y"
unfolding normalize_ioc
normalize_test = refl

check_iff_Touched_example :
    In (row 3 ip (codes "10.0.0.1")) (check no_tokens no_tokens (reload rows) event)
    ↔ Touched no_tokens no_tokens rows event (row 3 ip (codes "10.0.0.1"))
check_iff_Touched_example =
    check_iff_Touched no_tokens no_tokens rows event (row 3 ip (codes "10.0.0.1"))
