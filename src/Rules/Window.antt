-- ===== src/Rules/Window.antt =====
-- rules.py, `ThresholdRule`: the deque of a key is the window over all the matches since the rule
-- last fired for it.
use mini_siem.Base.{
  ℕ, ◌+◌, ◌≤◌, ◌≡◌, refl, Bool, false, not, List, [], ◌∷◌, arith, ltb, nat_eq, string_eq, keep, All,
  text_eq, sym, ap, ◌∙◌, inl, inr, Option, none, some, ◌++◌, map, leb, if◌then◌else◌, Bool-cases,
  length, All-append, All-keep,
}
use mini_siem.Rules.{prune, count_hit}

abbrev pub is_fresh : ℕ → ℕ → ℕ × ℕ → Bool
is_fresh window now (t, i) = not (ltb (t + window) now)

-- Times do not fall along the list, and none is after `now`.
abbrev pub Ordered : ℕ → List (ℕ × ℕ) → Type 0
Ordered now [] = Unit
Ordered now ((t, i) ∷ dq) = (t ≤ now) × All (λ h. t ≤ h.0) dq × Ordered now dq

All-fresh :
    (window now t : ℕ) (dq : List (ℕ × ℕ))
    → ltb (t + window) now ≡ false
    → All (λ h. t ≤ h.0) dq
    → keep (is_fresh window now) dq ≡ dq
All-fresh window now t [] f h = refl
All-fresh window now t ((u, i) ∷ dq) f h = ground (arith, All-fresh window now t dq f h.1)

-- Removing from the front is enough, since the deque is in order.
prune-keep :
    (window now : ℕ) (dq : List (ℕ × ℕ))
    → Ordered now dq
    → prune window now dq ≡ keep (is_fresh window now) dq
unfolding prune
prune-keep window now [] o = refl
prune-keep window now ((t, i) ∷ dq) o =
    ground (arith, prune-keep window now dq o.2, All-fresh window now t dq)

keep-append {ℓ} :
    {A : Type ℓ} (p : A → Bool) (xs ys : List A) → keep p (xs ++ ys) ≡ keep p xs ++ keep p ys
keep-append p [] ys = refl
keep-append p (x ∷ xs) ys = ground (arith, keep-append p xs ys)

-- What is fresh later was fresh before.
keep-keep :
    (window last now : ℕ) (xs : List (ℕ × ℕ))
    → last ≤ now
    → keep (is_fresh window now) (keep (is_fresh window last) xs) ≡ keep (is_fresh window now) xs
keep-keep window last now [] le = refl
keep-keep window last now ((t, i) ∷ xs) le = ground (arith, keep-keep window last now xs)

Ordered-append :
    (last now id : ℕ) (xs : List (ℕ × ℕ))
    → last ≤ now
    → Ordered last xs
    → Ordered now (xs ++ (now, id) ∷ [])
Ordered-append last now id [] le o = (omega arith, tt, tt)
Ordered-append last now id ((t, i) ∷ xs) le o = (
  omega arith,
  All-append (λ h. t ≤ h.0) xs ((now, id) ∷ []) o.1 (omega arith, tt),
  Ordered-append last now id xs le o.2,
)

Ordered-keep :
    (p : ℕ × ℕ → Bool) (now : ℕ) (xs : List (ℕ × ℕ)) → Ordered now xs → Ordered now (keep p xs)
Ordered-keep p now [] o = tt
Ordered-keep p now ((t, i) ∷ xs) o = elim (Bool-cases (p (t, i))) [
  | inl y ↦ rw y (o.0, All-keep (λ h. t ≤ h.0) p xs o.1, Ordered-keep p now xs o.2)
  | inr n ↦ rw n (Ordered-keep p now xs o.2)
]

-- The deque holds the part of the log `since` that was fresh when the key was last counted.
pub record Tracks (window now : ℕ) (dq since : List (ℕ × ℕ)) : Type 0 where
  pub last : ℕ
  pub past : last ≤ now
  pub in_order : Ordered last since
  pub window_of : dq ≡ keep (is_fresh window last) since

-- The rule without pruning: it logs every match since it last fired, and counts those in the window.
unfoldable pub log_hit : ℕ → ℕ → ℕ → ℕ → List (ℕ × ℕ) → List (ℕ × ℕ) × Option (List ℕ)
log_hit threshold window now id since =
    let log = since ++ (now, id) ∷ [] in
    let recent = keep (is_fresh window now) log in
    if leb threshold (length recent)
    then ([], some (map (λ (h : ℕ × ℕ). h.1) recent))
    else (log, none)

pruned :
    (window now id : ℕ) (dq since : List (ℕ × ℕ))
    → Tracks window now dq since
    → prune window now (dq ++ (now, id) ∷ []) ≡ keep (is_fresh window now) (since ++ (now, id) ∷ [])
pruned window now id dq since tr =
    let kept = keep (is_fresh window tr.last) since in
    let ordered =
      Ordered-append tr.last now id kept tr.past
        (Ordered-keep (is_fresh window tr.last) tr.last since tr.in_order) in
    rw tr.window_of (
      prune-keep window now (kept ++ (now, id) ∷ []) ordered
      ∙ keep-append (is_fresh window now) kept ((now, id) ∷ [])
      ∙ ap (λ (xs : List (ℕ × ℕ)). xs ++ keep (is_fresh window now) ((now, id) ∷ []))
          (keep-keep window tr.last now since tr.past)
      ∙ sym (keep-append (is_fresh window now) since ((now, id) ∷ [])))

-- The two count alike, and go on alike.
pub count_hit-Tracks :
    (threshold window now id : ℕ) (dq since : List (ℕ × ℕ))
    → Tracks window now dq since
    → ((count_hit threshold window now id dq).1 ≡ (log_hit threshold window now id since).1)
      × Tracks window now
          (count_hit threshold window now id dq).0
          (log_hit threshold window now id since).0
unfolding count_hit log_hit
count_hit-Tracks threshold window now id dq since tr =
    let log = since ++ (now, id) ∷ [] in
    rw (pruned window now id dq since tr)
      (elim (Bool-cases (leb threshold (length (keep (is_fresh window now) log)))) [
        | inl fires ↦
            rw fires
              (refl, record { last = 0; past = omega arith; in_order = tt; window_of = refl })
        | inr quiet ↦ rw quiet (
          refl,
          record {
            last = now;
            past = omega arith;
            in_order = Ordered-append tr.last now id since tr.past tr.in_order;
            window_of = refl;
          },
        )
      ])
