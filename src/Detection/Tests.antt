-- ===== src/Detection/Tests.antt =====
-- detection.py at a night schedule and at a finding that is linked.
use mini_siem.Base.{
  ℕ, ◌≤◌, ◌≡◌, refl, true, false, some, [], ◌∷◌, map, arith, ◌==◌, nat_eq, string_eq, length, codes,
  text_eq, lookup,
}
use mini_siem.Detection.{
  Local, Schedule, Finding, Store, Alert, Config, in_window, new_alert, emit, stream,
}
use mini_siem.Detection.Schedules.{IsOpen, in_window-IsOpen}
use mini_siem.Detection.Findings.{Linked, emit-Linked, Given}

-- from 22:00 to 06:00 on Fridays
abbrev night : Schedule
night = record { start = 1320; end = 360; weekdays = 4 ∷ []; dates = []; exclude_dates = 30 ∷ [] }

-- Saturday at one o'clock
abbrev small_hours : Local
small_hours = record { day = 2; minute = 60 }

in_the_night : in_window night small_hours ≡ true
unfolding in_window
in_the_night = refl

in_window-IsOpen_example : IsOpen night small_hours
in_window-IsOpen_example =
    in_window-IsOpen night small_hours (omega arith) (omega arith) (omega arith) in_the_night

abbrev finding : Finding
finding = record { identity = some (codes "k", stream); event_time_utc = some 90 }

abbrev store : Store
store = record {
  state = (codes "k", record { alert_id = 4; event_time = some 80; seen_at = 80 }) ∷ [];
  alerts = (4, new_alert 11) ∷ [];
  next_id = 5;
}

linked_events :
    map (λ (e : ℕ × Alert). e.1.log_ids) (emit 100 12 finding store).0.alerts ≡ (11 ∷ 12 ∷ []) ∷ []
unfolding emit
linked_events = refl

store-Given : Given store
store-Given k le = ground (arith, le)

emit-Linked_example :
    let (s', k) = emit 100 12 finding store in
    Linked 12 store k (lookup k s'.alerts)
    × ((j : ℕ) → (k == j) ≡ false → lookup j s'.alerts ≡ lookup j store.alerts)
    × (length s'.state ≤ 512)
    × Given s'
emit-Linked_example = emit-Linked 100 12 finding store store-Given

abbrev old_config : Config
old_config = record { revision = 3; updated_by = codes "ann"; exceptions = [] }

abbrev new_config : Config
new_config = record {
  revision = 3;
  updated_by = codes "eve";
  exceptions = record { id = codes "x"; text = codes "backup"; approved_by = codes "ann" } ∷ [];
}
