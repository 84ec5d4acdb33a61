-- ===== src/Detection/Findings.antt =====
-- detection.py, `emit` and `save_config`: what a finding leaves in the store, and who approves.
use mini_siem.Base.{
  ℕ, ◌+◌, ◌≤◌, ◌≡◌, refl, sym, ap, ◌∙◌, ◌≢◌, ◌⊎◌, inl, inr, Bool, true, false, not, ◌||◌, Option,
  none, some, List, [], ◌∷◌, arith, nat_beq_iff, ◌==◌, nat_eq, string_eq, Bool-cases, length,
  length-take_last_le, All, Text, text_eq, Dict, lookup, lookup-insert, beq_refl, ◌++◌, take_last,
  elem,
}
use mini_siem.Detection.{
  Finding, Store, Alert, same_identity, open_alert, linked_to, find_old, add_id, link, new_alert,
  sort_seen, recent, note_seen, emit_to, emit, stored, same_exempt, approve_changed, save_config,
  Seen, Mode, Exempt, Config, Saved, saved, conflict,
}

-- an alert with one occurrence more: what it was, with evidence, and of its events and the new one
-- at most the last 500
abbrev pub OneMore : ℕ → Alert → Alert → Type 0
OneMore log_id a b =
    (b.is_over ≡ a.is_over)
    × (b.has_evidence ≡ true)
    × (b.occurrences ≡ a.occurrences + 1)
    × (length b.log_ids ≤ 500)
    × (((elem log_id a.log_ids ≡ true) × (b.log_ids ≡ take_last 500 a.log_ids))
        ⊎ ((elem log_id a.log_ids ≡ false)
            × (b.log_ids ≡ take_last 500 (a.log_ids ++ log_id ∷ []))))

-- the alert of one event
abbrev pub IsNew : ℕ → Alert → Type 0
IsNew log_id b =
    (b.is_over ≡ false) × (b.has_evidence ≡ true) × (b.occurrences ≡ 1) × (b.log_ids ≡ log_id ∷ [])

-- every id of an alert was given out
abbrev pub Given : Store → Type 0
Given s = (k : ℕ) → s.next_id ≤ k → lookup k s.alerts ≡ none

-- the alert at an id after a finding: a new one where there was none, or one that was there and open,
-- with one occurrence more
abbrev pub Linked : ℕ → Store → ℕ → Option Alert → Type 0
Linked log_id s k after =
    (lookup k s.alerts ≡ none) × ((b : Alert) × (after ≡ some b) × IsNew log_id b)
    ⊎ (a : Alert) × (b : Alert) × (lookup k s.alerts ≡ some a)
      × (a.is_over ≡ false)
      × (after ≡ some b)
      × OneMore log_id a b

link-OneMore : (log_id : ℕ) (a : Alert) → OneMore log_id a (link log_id a)
link-OneMore log_id a = (
  refl,
  refl,
  refl,
  length-take_last_le 500 (add_id log_id a.log_ids),
  elim (Bool-cases (elem log_id a.log_ids)) [
    | inl e ↦ inl (e, ap (take_last 500) {x = add_id log_id a.log_ids} {y = a.log_ids} (rw e refl))
    | inr e ↦ inr (
      e,
      ap (take_last 500) {x = add_id log_id a.log_ids} {y = a.log_ids ++ log_id ∷ []} (rw e refl),
    )
  ],
)

open_alert-some :
    (o : Option Alert) (a : Alert) → open_alert o ≡ some a → (o ≡ some a) × (a.is_over ≡ false)
open_alert-some none a h = cc
open_alert-some (some b) a h = elim (Bool-cases (b.is_over || not b.has_evidence)) [
  | inl e ↦ absurd (clash (rw e at h))
  | inr e ↦
      let same : some b ≡ some a = rw e at h in
      (same, ap (λ (o : Option Alert). over o) (sym same) ∙ open_one b.is_over b.has_evidence e)
]
  where
    over : Option Alert → Bool
    over none = false
    over (some x) = x.is_over

    clash : none ≡ some a → ⊥
    clash e = cc

    open_one : (x y : Bool) → (x || not y) ≡ false → x ≡ false
    open_one x y h = ground arith

-- The old alert that a finding is linked to stands in the table and is open.
abbrev Stands : Dict ℕ Alert → Option (ℕ × Alert) → Type 0
Stands alerts none = Unit
Stands alerts (some (k, a)) = (lookup k alerts ≡ some a) × (a.is_over ≡ false)

linked_to-Stands :
    (mode : Mode) (f : Finding) (p : Option Seen) (alerts : Dict ℕ Alert)
    → Stands alerts (linked_to mode f p alerts)
linked_to-Stands mode f none alerts = tt
linked_to-Stands mode f (some p) alerts = elim (Bool-cases (same_identity mode f p)) [
  | inr e ↦ rw e tt
  | inl e ↦ rw e (at_open (open_alert (lookup p.alert_id alerts)) refl)
]
  where
    at_open :
        (o : Option Alert)
        → open_alert (lookup p.alert_id alerts) ≡ o
        → Stands alerts (elim o [ none ↦ none | some a ↦ some (p.alert_id, a) ])
    at_open none q = tt
    at_open (some a) q = open_alert-some (lookup p.alert_id alerts) a q

find_old-Stands :
    (f : Finding) (o : Option (Text × Mode)) (state : Dict Text Seen) (alerts : Dict ℕ Alert)
    → Stands alerts (find_old f o state alerts)
find_old-Stands f none state alerts = tt
find_old-Stands f (some (key, mode)) state alerts =
    linked_to-Stands mode f (lookup key state) alerts

-- Where the ids of the alerts were given out by the store: a finding raises a new alert of its event
-- alone, at an id that had none, or adds one occurrence to an alert that is neither resolved nor closed
-- and keeps at most 500 events of it; every other alert stays as it was, at most 512 identities are
-- remembered, and the ids are again those given out.
pub emit-Linked :
    (now log_id : ℕ) (f : Finding) (s : Store)
    → Given s
    → let (s', k) = emit now log_id f s in
      Linked log_id s k (lookup k s'.alerts)
      × ((j : ℕ) → (k == j) ≡ false → lookup j s'.alerts ≡ lookup j s.alerts)
      × (length s'.state ≤ 512)
      × Given s'
unfolding emit
emit-Linked now log_id f s given =
    at_old (find_old f f.identity (recent now s.state) s.alerts)
      (find_old-Stands f f.identity (recent now s.state) s.alerts)
  where
    none_some : {a : Alert} → none ≡ some a → ⊥
    none_some q = cc

    -- an alert that stands has an id below the next
    below :
        (k : ℕ) (a : Alert)
        → lookup k s.alerts ≡ some a
        → (j : ℕ) → s.next_id ≤ j
        → (k == j) ≡ false
    below k a h j le = elim (Bool-cases (k == j)) [
      | inr e ↦ e
      | inl e ↦ absurd (none_some (sym (given k (ground (arith, le, e))) ∙ h))
    ]

    at_old :
        (o : Option (ℕ × Alert))
        → Stands s.alerts o
        → let (s', k) = emit_to now log_id f s (recent now s.state) o in
          Linked log_id s k (lookup k s'.alerts)
          × ((j : ℕ) → (k == j) ≡ false → lookup j s'.alerts ≡ lookup j s.alerts)
          × (length s'.state ≤ 512)
          × Given s'
    at_old none h = (
      inl (
        given s.next_id (omega arith),
        (
          new_alert log_id,
          lookup-insert s.next_id s.next_id (new_alert log_id) s.alerts
              ∙ rw (beq_refl s.next_id) refl,
          (refl, refl, refl, refl),
        ),
      ),
      λ j e. lookup-insert s.next_id j (new_alert log_id) s.alerts ∙ rw e refl,
      length-take_last_le 512
          (sort_seen (note_seen now s.next_id f (recent now s.state) f.identity)),
      λ j le.
          let apart : (s.next_id == j) ≡ false = ground (arith, le) in
          lookup-insert s.next_id j (new_alert log_id) s.alerts ∙ rw apart (given j (omega arith)),
    )
    at_old (some (k, a)) h = (
      inr (
        a,
        link log_id a,
        h.0,
        h.1,
        lookup-insert k k (link log_id a) s.alerts ∙ rw (beq_refl k) refl,
        link-OneMore log_id a,
      ),
      λ j e. lookup-insert k j (link log_id a) s.alerts ∙ rw e refl,
      length-take_last_le 512 (sort_seen (note_seen now k f (recent now s.state) f.identity)),
      λ j le. lookup-insert k j (link log_id a) s.alerts ∙ rw (below k a h.0 j le) (given j le),
    )

-- every exception is one that was stored as it is, or is approved by who saves it
abbrev pub Approved : Text → List Exempt → Exempt → Type 0
Approved actor old e = (same_exempt e (stored e.id old) ≡ true) ⊎ (e.approved_by ≡ actor)

approve_changed-Approved :
    (actor : Text) (old es : List Exempt) → All (Approved actor old) (approve_changed actor old es)
approve_changed-Approved actor old [] = tt
approve_changed-Approved actor old (e ∷ es) = (
  elim (Bool-cases (same_exempt e (stored e.id old))) [
    | inl q ↦ rw q (inl q)
    | inr q ↦ rw q (inr refl)
  ],
  approve_changed-Approved actor old es,
)

-- what a save gives: only for the stored revision, the next one, with no exception that is new or
-- changed under another name than the one who saves
abbrev pub SavedOver : Text → Config → Config → Saved → Type 0
SavedOver actor previous incoming conflict = previous.revision ≢ incoming.revision
SavedOver actor previous incoming (saved c) =
    (previous.revision ≡ incoming.revision)
    × (c.revision ≡ previous.revision + 1)
    × All (Approved actor previous.exceptions) c.exceptions

-- A configuration is saved exactly when it was edited from the stored revision; the saved revision is
-- the next one, so that a second save from the same revision is a conflict; and each exception
-- of it stood there as it is or is approved by the one who saves.
pub save_config-SavedOver :
    (actor : Text) (previous incoming : Config)
    → SavedOver actor previous incoming (save_config actor previous incoming)
unfolding save_config
save_config-SavedOver actor previous incoming =
    elim (Bool-cases (previous.revision == incoming.revision)) [
      | inl e ↦
          let same = (nat_beq_iff previous.revision incoming.revision).0 e in
          rw e (
            same,
            omega arith,
            approve_changed-Approved actor previous.exceptions incoming.exceptions,
          )
      | inr e ↦ rw e (differs e)
    ]
  where
    differs :
        (previous.revision == incoming.revision) ≡ false → previous.revision ≢ incoming.revision
    differs e q = ground (arith, e, q)
