-- ===== src/TriageWorker/Cycles.antt =====
-- ai_worker.py, `run_once`: what a cycle leaves.
use mini_siem.Base.{
  ℕ, suc, ◌+◌, ◌≤◌, ◌<◌, ◌≡◌, refl, ap, ◌∙◌, inl, inr, Bool, true, false, not, ◌&&◌, ◌||◌, Option,
  none, some, List, [], ◌∷◌, ◌++◌, arith, leb, if◌then◌else◌, nat_beq_iff, ◌==◌, nat_eq, string_eq,
  Bool-cases, length, keep, All, Text, text_eq, elem, map, length-take_le, beq_refl,
}
use mini_siem.TriageWorker.{
  Alert, Cycle, skip, finish, fail, update_alert, is_pending, is_old, is_below, find_twin,
  twin_text, grouped_note, answered, with_twin, triage_one, triage_all, Settings, Answer, pending,
  error, analysis, failure, is_due, pending_alerts, with_stops, run_once,
}

-- An alert that is still pending has attempts left: it will be selected again.
abbrev pub HasAttempts : ℕ → Alert → Type 0
HasAttempts max_attempts a = is_pending a.ai_status ≡ true → a.ai_attempts < max_attempts

abbrev pub listed : List ℕ → Alert → Bool
listed ks a = elem a.id ks

-- the rows whose ids are not in the list
abbrev pub others : List ℕ → List Alert → List Alert
others ks = keep (λ a. not (listed ks a))

-- a cycle's state keeps the invariant, the rows outside the list, and the order and ids of all
abbrev pub Kept : ℕ → List ℕ → List Alert → List Alert → Type 0
Kept max_attempts ks before after =
    (All (HasAttempts max_attempts) before → All (HasAttempts max_attempts) after)
    × (others ks after ≡ others ks before)

update_alert-Kept :
    (max_attempts : ℕ) (ks : List ℕ) (f : Alert → Alert) (k : ℕ)
    → ((a : Alert) → (f a).id ≡ a.id)
    → ((a : Alert) → HasAttempts max_attempts (f a))
    → elem k ks ≡ true
    → (table : List Alert) → Kept max_attempts ks table (update_alert f k table)
update_alert-Kept max_attempts ks f k same safe h [] = (λ p. p, refl)
update_alert-Kept max_attempts ks f k same safe h (a ∷ table) =
    let (safe_rest, others_rest) = update_alert-Kept max_attempts ks f k same safe h table in
    elim (Bool-cases (a.id == k)) [
      | inl e ↦ rw e (
        λ p. (safe a, safe_rest p.1),
        rw (in_list (f a) (same a ∙ (nat_beq_iff a.id k).0 e), in_list a ((nat_beq_iff a.id k).0 e))
            others_rest,
      )
      | inr e ↦ rw e (
        λ p. (p.0, safe_rest p.1),
        ap (λ (xs : List Alert). if not (listed ks a) then a ∷ xs else xs) others_rest,
      )
    ]
  where
    in_list : (b : Alert) → b.id ≡ k → elem b.id ks ≡ true
    in_list b e = ap (λ (x : ℕ). elem x ks) e ∙ h

Kept-trans :
    (max_attempts : ℕ) (ks : List ℕ) (a b c : List Alert)
    → Kept max_attempts ks a b
    → Kept max_attempts ks b c
    → Kept max_attempts ks a c
Kept-trans max_attempts ks a b c p q = (λ h. q.0 (p.0 h), q.1 ∙ p.1)

fail-HasAttempts :
    (max_attempts attempts : ℕ) (t : Text) (a : Alert)
    → HasAttempts max_attempts (fail max_attempts attempts t a)
fail-HasAttempts max_attempts attempts t a h = elim (Bool-cases (leb max_attempts (attempts + 1))) [
  | inl e ↦ absurd (no_error (leb max_attempts (attempts + 1)) e h)
  | inr e ↦ ground arith
]
  where
    no_error : (b : Bool) → b ≡ true → is_pending (if b then error else pending) ≡ true → ⊥
    no_error true e q = cc
    no_error false e q = cc

module _ (settings : Settings) (max_attempts now : ℕ) (analyse : Alert → List Alert → Answer)
    (ks : List ℕ) where
  -- one alert: what it keeps, and that it counts at most one
  abbrev Went : Cycle → Cycle → Type 0
  Went s s' = Kept max_attempts ks s.table s'.table × (s'.processed ≤ s.processed + 1)

  answered-Went :
      (a : Alert) (r : Answer) (s : Cycle)
      → elem a.id ks ≡ true
      → Went s (answered max_attempts now a r s)
  answered-Went a (analysis t) s h = (
    update_alert-Kept max_attempts ks (finish now t) a.id (λ b. refl) (λ b p. cc) h s.table,
    omega arith,
  )
  answered-Went a (failure t) s h = (
    update_alert-Kept max_attempts ks (fail max_attempts a.ai_attempts t) a.id (λ b. refl)
        (fail-HasAttempts max_attempts a.ai_attempts t) h s.table,
    omega arith,
  )

  with_twin-Went :
      (a : Alert) (o : Option Text) (s : Cycle)
      → elem a.id ks ≡ true
      → Went s (with_twin max_attempts now analyse a o s)
  with_twin-Went a none s h = answered-Went a (analyse a s.table) s h
  with_twin-Went a (some t) s h = (
    update_alert-Kept max_attempts ks (finish now (grouped_note ++ t)) a.id (λ b. refl) (λ b p. cc)
        h s.table,
    omega arith,
  )

  triage_one-Went :
      (a : Alert) (s : Cycle)
      → elem a.id ks ≡ true
      → Went s (triage_one settings max_attempts now analyse a s)
  unfolding triage_one
  triage_one-Went a s h =
      elim (Bool-cases
        (is_old settings.max_age_hours now a.created_at || is_below settings.min_severity a)) [
          | inl e ↦ rw e (
            update_alert-Kept max_attempts ks skip a.id (λ b. refl) (λ b p. cc) h s.table,
            omega arith,
          )
          | inr e ↦ rw e (
              with_twin-Went a
                (if settings.dedup_groups then twin_text (find_twin now a s.table) else none) s h)
        ]

  abbrev After : Cycle → ℕ → Cycle → Type 0
  After s n s' = Kept max_attempts ks s.table s'.table × (s'.processed ≤ s.processed + n)

  triage_all-Went :
      (todo : List (Alert × Bool)) (s : Cycle)
      → All (λ (x : Alert × Bool). elem x.0.id ks ≡ true) todo
      → let s' = triage_all settings max_attempts now analyse todo s in
        Kept max_attempts ks s.table s'.table × (s'.processed ≤ s.processed + length todo)
  unfolding triage_all
  triage_all-Went [] s h = ((λ p. p, refl), omega arith)
  triage_all-Went ((a, stops) ∷ todo) s h =
      on (s.goes_on && not stops)
        (triage_all-Went todo (triage_one settings max_attempts now analyse a s) h.1)
    where
      on :
          (b : Bool)
          → (let s1 = triage_one settings max_attempts now analyse a s in
              let s' = triage_all settings max_attempts now analyse todo s1 in
              Kept max_attempts ks s1.table s'.table × (s'.processed ≤ s1.processed + length todo))
          → After s (suc (length todo)) (elim b [
            | true ↦
                triage_all settings max_attempts now analyse todo
                  (triage_one settings max_attempts now analyse a s)
            | false ↦ s
          ])
      on false ih = ((λ p. p, refl), omega arith)
      on true ih =
          let s1 = triage_one settings max_attempts now analyse a s in
          let s' = triage_all settings max_attempts now analyse todo s1 in
          let step = triage_one-Went a s h.0 in
          (
            Kept-trans max_attempts ks s.table s1.table s'.table step.0 ih.0,
            omega (arith, ih.1, step.1),
          )

abbrev pub ids : List Alert → List ℕ
ids = map (λ (a : Alert). a.id)

All-listed_cons :
    (k : ℕ) (ks : List ℕ) (todo : List (Alert × Bool))
    → All (λ (x : Alert × Bool). elem x.0.id ks ≡ true) todo
    → All (λ (x : Alert × Bool). elem x.0.id (k ∷ ks) ≡ true) todo
All-listed_cons k ks [] h = tt
All-listed_cons k ks (x ∷ todo) h = (or_right (k == x.0.id) _ h.0, All-listed_cons k ks todo h.1)
  where
    or_right : (a b : Bool) → b ≡ true → (a || b) ≡ true
    or_right a b q = ground arith

All-with_stops :
    (stops : ℕ → Bool) (xs : List Alert)
    → All (λ (x : Alert × Bool). elem x.0.id (ids xs) ≡ true) (with_stops stops xs)
All-with_stops stops [] = tt
All-with_stops stops (a ∷ xs) = (
  rw (beq_refl a.id) refl,
  All-listed_cons a.id (ids xs) (with_stops stops xs) (All-with_stops stops xs),
)

length-with_stops : (stops : ℕ → Bool) (xs : List Alert) → length (with_stops stops xs) ≡ length xs
length-with_stops stops [] = refl
length-with_stops stops (a ∷ xs) = ap suc (length-with_stops stops xs)

length-pending :
    (max_attempts batch : ℕ) (table : List Alert)
    → length (pending_alerts max_attempts batch table) ≤ batch
unfolding pending_alerts
length-pending max_attempts batch table = length-take_le batch (keep (is_due max_attempts) table)

-- Whatever the model answers and whenever the worker is stopped: a cycle changes no row but those of
-- the alerts selected, processes no more than the batch, and leaves every pending alert with
-- attempts left when it found them so.
pub run_once-Kept :
    (settings : Settings) (max_attempts batch now : ℕ) (stops : ℕ → Bool)
    (analyse : Alert → List Alert → Answer) (table : List Alert)
    → let (after, processed) = run_once settings max_attempts batch now stops analyse table in
      (All (HasAttempts max_attempts) table → All (HasAttempts max_attempts) after)
      × (others (ids (pending_alerts max_attempts batch table)) after
          ≡ others (ids (pending_alerts max_attempts batch table)) table)
      × (processed ≤ batch)
unfolding run_once
run_once-Kept settings max_attempts batch now stops analyse table =
    elim (Bool-cases (settings.enabled && settings.auto_triage)) [
      | inr e ↦ rw e (λ p. p, refl, omega arith)
      | inl e ↦
          let due = pending_alerts max_attempts batch table in
          let start : Cycle = record { table = table; processed = 0; goes_on = true } in
          let went =
            triage_all-Went settings max_attempts now analyse (ids due) (with_stops stops due) start
              (All-with_stops stops due) in
          rw e
            (went.0.0, went.0.1, omega (arith, went.1, length-with_stops stops due, few due refl))
    ]
  where
    few : (xs : List Alert) → xs ≡ pending_alerts max_attempts batch table → length xs ≤ batch
    few xs q =
        omega
          (arith, ap (λ (ys : List Alert). length ys) q, length-pending max_attempts batch table)
