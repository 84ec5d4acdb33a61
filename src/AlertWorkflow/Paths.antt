-- ===== src/AlertWorkflow/Paths.antt =====
-- alert_workflow.py: what the check lets through, one request at a time and over a whole history.
use mathlib.Core.Path.{subst}
use mini_siem.Base.{
  ◌≡◌, refl, ◌↔◌, Option, some, List, [], ◌∷◌, Text, lookup, ◌⊎◌, inl, inr, true, false, not, ◌&&◌,
  arith, nat_eq, string_eq, Bool-cases, any_of, text_eq, fold_text, none,
}
use mini_siem.AlertWorkflow.{
  State, states, spelling, normalize, or_start, check_step, validate_transition, new, acknowledged,
  investigating, resolved, closed, accepted, same, transitions, bad_transition, Verdict, judge,
}

-- The diagram of the triage, drawn apart from the table.
pub data Step : State → State → Type 0 where
  stay : (s : State) → Step s s
  take_up : Step new acknowledged
  start : Step new investigating
  settle_new : Step new resolved
  look_into : Step acknowledged investigating
  settle_known : Step acknowledged resolved
  settle : Step investigating resolved
  close : Step resolved closed
  reopen_resolved : Step resolved investigating
  reopen_closed : Step closed investigating

ruleset steps = (
  stay, take_up, start, settle_new, look_into, settle_known, settle, close, reopen_resolved,
  reopen_closed,
)

Step-of-table :
    (s t : State) → (not (same t s) && not (any_of (same t) (transitions s))) ≡ false → Step s t
Step-of-table new new h = stay new
Step-of-table acknowledged acknowledged h = stay acknowledged
Step-of-table investigating investigating h = stay investigating
Step-of-table resolved resolved h = stay resolved
Step-of-table closed closed h = stay closed
Step-of-table new acknowledged h = take_up
Step-of-table new investigating h = start
Step-of-table new resolved h = settle_new
Step-of-table acknowledged investigating h = look_into
Step-of-table acknowledged resolved h = settle_known
Step-of-table investigating resolved h = settle
Step-of-table resolved closed h = close
Step-of-table resolved investigating h = reopen_resolved
Step-of-table closed investigating h = reopen_closed
Step-of-table _ _ h = cc

Step-of-check :
    (s t : State) {u v : State} → check_step s t ≡ accepted u v → (s ≡ u) × (t ≡ v) × Step s t
unfolding check_step
Step-of-check s t h = elim (Bool-cases (not (same t s) && not (any_of (same t) (transitions s)))) [
  | inl e ↦ absurd (refused (rw e at h))
  | inr e ↦ (ground arith, ground arith, Step-of-table s t e)
]
  where
    refused : {u v : State} → bad_transition s t ≡ accepted u v → ⊥
    refused k = cc

check-of-Step : {s t : State} → Step s t → check_step s t ≡ accepted s t
unfolding check_step
check-of-Step (stay new) = refl
check-of-Step (stay acknowledged) = refl
check-of-Step (stay investigating) = refl
check-of-Step (stay resolved) = refl
check-of-Step (stay closed) = refl
check-of-Step take_up = refl
check-of-Step _ = refl

judge_iff_Step :
    (current target : Option State) (text : Text) (s t : State)
    → (judge current target text ≡ accepted s t)
      ↔ ((or_start current ≡ s) × (target ≡ some t) × Step s t)
unfolding judge
judge_iff_Step current none text s t = ((λ h. cc), (λ h. cc))
judge_iff_Step current (some to) text s t = (
  (λ h. let (p, q, st) = Step-of-check (or_start current) to h in (p, cc, rw (← p, ← q) st)),
  (λ h. let q : to ≡ t = cc (h.1) in rw (h.0, q) (check-of-Step h.2)),
)

-- A request is let through exactly when its target is a known state that a step of the diagram
-- leads to from the current state, where an unknown current state counts as `new`.
pub validate_transition_iff_Step :
    (current target : Option Text) (s t : State)
    → (validate_transition current target ≡ accepted s t) ↔ (
        (or_start (lookup (normalize current) states) ≡ s)
        × (lookup (normalize target) states ≡ some t)
        × Step s t)
unfolding validate_transition
validate_transition_iff_Step current target =
    judge_iff_Step (lookup (normalize current) states) (lookup (normalize target) states)
      (normalize target)

abbrev settle_on : State → Verdict → State
settle_on s (accepted _ t) = t
settle_on s _ = s

-- The state of an alert after a request: a refused one leaves it as it was.
abbrev pub next : State → Option Text → State
next s x = settle_on s (validate_transition (some (spelling s)) x)

-- The states that an alert goes through, over the requests in the order they come.
unfoldable pub visited : State → List (Option Text) → List State
visited s [] = s ∷ []
visited s (x ∷ xs) = s ∷ visited (next s x) xs

check_step-closed :
    (s t : State)
    → same (settle_on s (check_step s t)) closed ≡ true
    → (same s resolved ≡ true) ⊎ (same s closed ≡ true)
unfolding check_step
check_step-closed s t h = ground arith

judge-closed :
    (s : State) (target : Option State) (text : Text)
    → same (settle_on s (judge (some s) target text)) closed ≡ true
    → (same s resolved ≡ true) ⊎ (same s closed ≡ true)
unfolding judge
judge-closed s none text h = inr h
judge-closed s (some t) text h = check_step-closed s t h

pub lookup-spelling : (s : State) → lookup (normalize (some (spelling s))) states ≡ some s
unfolding normalize fold_text states
lookup-spelling s = ground arith

next-closed :
    (s : State) (x : Option Text)
    → same (next s x) closed ≡ true
    → (same s resolved ≡ true) ⊎ (same s closed ≡ true)
unfolding validate_transition
next-closed s x h = judge-closed s (lookup (normalize x) states) (normalize x) (
    subst
      (λ o. same (settle_on s (judge o (lookup (normalize x) states) (normalize x))) closed ≡ true)
      (lookup-spelling s) h)

-- An alert that is not closed is never closed without having been resolved before, whatever
-- requests come.
pub closed_needs_resolved :
    (s : State) (xs : List (Option Text))
    → same s closed ≡ false
    → any_of (λ t. same t closed) (visited s xs) ≡ true
    → any_of (λ t. same t resolved) (visited s xs) ≡ true
unfolding visited
closed_needs_resolved s [] h k = ground arith
closed_needs_resolved s (x ∷ xs) h k =
    ground (arith, next-closed s x, closed_needs_resolved (next s x) xs)
