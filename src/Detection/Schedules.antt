-- ===== src/Detection/Schedules.antt =====
-- detection.py, `in_window`: a schedule's windows as intervals of time.
use mini_siem.Base.{
  ℕ, ◌+◌, ◌-◌, ◌*◌, ◌≤◌, ◌<◌, ◌≡◌, inl, inr, Bool, true, false, not, ◌&&◌, ◌||◌, arith, ltb, leb,
  if◌then◌else◌, nat_eq, string_eq, Bool-cases, text_eq, elem, refl, ap, Option, none, some,
  or_else,
}
use mini_siem.Detection.{Local, Schedule, weekday, in_window, anchor, is_anchored}

-- minutes since the epoch, in the zone
abbrev pub minutes : ℕ → ℕ → ℕ
minutes day minute = day * 1440 + minute

-- how long a window is open, past midnight when it ends no later than it starts
abbrev pub last_minute : Schedule → ℕ → ℕ
last_minute s d = if ltb s.start s.end then minutes d s.end else minutes (d + 1) s.end

-- The time lies in a window that began on a day which the schedule has, and neither that day nor the
-- day of the time is excluded.
abbrev pub IsOpen : Schedule → Local → Type 0
IsOpen s t =
    (d : ℕ) × (minutes d s.start ≤ minutes t.day t.minute)
    × (minutes t.day t.minute < last_minute s d)
    × (((elem d s.exclude_dates || elem t.day s.exclude_dates) ≡ false)
        × ((elem (weekday d) s.weekdays || elem d s.dates) ≡ true))

listed_day : (x y : Bool) → (not x && y) ≡ true → (x ≡ false) × (y ≡ true)
listed_day x y h = ground arith

abbrev Bounds : Schedule → Local → ℕ → Type 0
Bounds s t d =
    (minutes d s.start ≤ minutes t.day t.minute) × (minutes t.day t.minute < last_minute s d)

some_nat : (a b : ℕ) → some a ≡ some b → a ≡ b
some_nat a b e = ap (λ (o : Option ℕ). or_else o 0) e

anchor-Bounds :
    (s : Schedule) (t : Local) (d : ℕ)
    → 0 < t.day
    → t.minute < 1440
    → s.start < 1440
    → anchor s t ≡ some d
    → Bounds s t d
anchor-Bounds s t d later clock starts h = elim (Bool-cases (ltb s.start s.end)) [
  | inl e ↦ elim (Bool-cases (leb s.start t.minute && ltb t.minute s.end)) [
    | inl i ↦ let same = some_nat t.day d (rw (e, i) at h) in rw e (ground arith, ground arith)
    | inr i ↦ absurd (none_some d (rw (e, i) at h))
  ]
  | inr e ↦ elim (Bool-cases (leb s.start t.minute)) [
    | inl i ↦ let same = some_nat t.day d (rw (e, i) at h) in rw e (ground arith, ground arith)
    | inr i ↦ elim (Bool-cases (ltb t.minute s.end)) [
      | inl j ↦
          let same = some_nat (t.day - 1) d (rw (e, i, j) at h) in rw e (ground arith, ground arith)
      | inr j ↦ absurd (none_some d (rw (e, i, j) at h))
    ]
  ]
]
  where
    none_some : (d : ℕ) → none ≡ some d → ⊥
    none_some d e = cc

-- Of a schedule whose start is a time of the day: a time that `in_window` accepts lies in a window of the schedule, from its start up to its end,
-- that began on a day of the schedule, at midnight or the day before included, with neither day excluded.
pub in_window-IsOpen :
    (s : Schedule) (t : Local)
    → 0 < t.day
    → t.minute < 1440
    → s.start < 1440
    → in_window s t ≡ true
    → IsOpen s t
unfolding in_window
in_window-IsOpen s t later clock starts h = at_anchor (anchor s t) refl h
  where
    at_anchor : (o : Option ℕ) → anchor s t ≡ o → is_anchored s t o ≡ true → IsOpen s t
    at_anchor none q k = cc
    at_anchor (some d) q k =
        let b = anchor-Bounds s t d later clock starts q in (d, b.0, b.1, listed_day _ _ k)
