-- ===== src/Rules/Triggers.antt =====
-- rules.py: the two rules that fire on one event's severity.
use mini_siem.Base.{
  ℕ, zero, suc, ◌≡◌, refl, inl, inr, Bool, true, false, not, ◌&&◌, Option, none, some, [], ◌∷◌,
  arith, leb, if◌then◌else◌, ◌==◌, nat_eq, string_eq, Bool-cases, is_some, Text, codes, text_eq,
  lower, fold_text, elem,
}
use mini_siem.Rules.{Event, address, Scalar, Json, null, text, number}
use mini_siem.Severity.{Level, order, normalize, emergency, alert, critical, error, warning}

abbrev pub is_truthy : Scalar → Bool
is_truthy null = false
is_truthy (text []) = false
is_truthy (text (c ∷ s)) = true
is_truthy (number zero) = false
is_truthy (number (suc n)) = true

-- `a or b`
abbrev pub scalar_or : Scalar → Scalar → Scalar
scalar_or a b = if is_truthy a then a else b

-- `eid not in (None, "")`
abbrev pub is_given : Scalar → Bool
is_given null = false
is_given (text []) = false
is_given (text (c ∷ s)) = true
is_given (number n) = true

-- `str(value or "")`; no number is the name of a channel
abbrev pub channel_text : Scalar → Text
channel_text null = []
channel_text (text s) = s
channel_text (number n) = []

abbrev pub json_is_windows : Option Json → Bool
json_is_windows none = false
json_is_windows (some j) =
    is_given (scalar_or j.event_id_1 (scalar_or j.event_id_2 j.event_id_3))
    && elem (fold_text (channel_text j.channel)) (codes "security" ∷ codes "system" ∷ [])

-- `_is_nxlog_windows_event`
unfoldable pub is_nxlog_windows_event : Event → Bool
is_nxlog_windows_event event = lower event.format == codes "json" && json_is_windows event.json

-- NxlogSeverityRule.TRIGGER_SEVERITIES
abbrev pub triggers_nxlog : Level → Bool
triggers_nxlog emergency = true
triggers_nxlog alert = true
triggers_nxlog critical = true
triggers_nxlog error = true
triggers_nxlog warning = true
triggers_nxlog _ = false

-- SeverityRule.HIGH_SEVERITIES
abbrev pub is_high : Level → Bool
is_high emergency = true
is_high alert = true
is_high critical = true
is_high _ = false

abbrev pub fire_if : (Level → Bool) → Event → Option Level → Option (Text × Level)
fire_if test event none = none
fire_if test event (some l) = if test l then some (address event.source_ip, l) else none

-- `NxlogSeverityRule.evaluate`: the address and the severity of the alert
unfoldable pub evaluate_nxlog : Event → Option (Text × Level)
unfolding is_nxlog_windows_event
evaluate_nxlog event =
    if is_nxlog_windows_event event
    then fire_if triggers_nxlog event (normalize event.severity)
    else none

-- `SeverityRule.evaluate`: the address; the alert's severity is the rule's own
unfoldable pub evaluate_severity : Event → Option (Text × Level)
unfolding is_nxlog_windows_event
evaluate_severity event =
    if is_nxlog_windows_event event then none else fire_if is_high event (normalize event.severity)

fire_if_lem :
    (test : Level → Bool) (event : Event) (o : Option Level) {a : Text} {l : Level}
    → fire_if test event o ≡ some (a, l)
    → (o ≡ some l) × (test l ≡ true)
fire_if_lem test event none h = cc
fire_if_lem test event (some m) h = ground arith

fire_if-order :
    (test : Level → Bool) (event : Event) (o : Option Level)
    → is_some (fire_if test event o) ≡ elim o [ none ↦ false | some l ↦ test l ]
fire_if-order test event none = refl
fire_if-order test event (some l) = ground arith

nxlog_order : (l : Level) → triggers_nxlog l ≡ leb (order l) 4
nxlog_order emergency = refl
nxlog_order _ = refl

high_order : (l : Level) → is_high l ≡ leb (order l) 2
high_order emergency = refl
high_order _ = refl

abbrev pub at_least : ℕ → Option Level → Bool
at_least n none = false
at_least n (some l) = leb (order l) n

fires_at_least :
    (test : Level → Bool) (n : ℕ) (event : Event) (o : Option Level)
    → ((l : Level) → test l ≡ leb (order l) n)
    → is_some (fire_if test event o) ≡ at_least n o
fires_at_least test n event none h = refl
fires_at_least test n event (some l) h = ground (arith, h l)

-- An event fires at most one of the two: a Windows event of NXLog fires the first exactly when it is
-- a warning or worse, any other event fires the second exactly when it is critical or worse.
pub severity_triggers :
    (event : Event)
    → (is_some (evaluate_nxlog event)
        ≡ (is_nxlog_windows_event event && at_least 4 (normalize event.severity)))
      × (is_some (evaluate_severity event)
          ≡ (not (is_nxlog_windows_event event) && at_least 2 (normalize event.severity)))
unfolding evaluate_nxlog evaluate_severity
severity_triggers event = elim (Bool-cases (is_nxlog_windows_event event)) [
  | inl e ↦
      rw e (fires_at_least triggers_nxlog 4 event (normalize event.severity) nxlog_order, refl)
  | inr e ↦ rw e (refl, fires_at_least is_high 2 event (normalize event.severity) high_order)
]
