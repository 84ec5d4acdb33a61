-- ===== src/WindowsEvents/Profiles.antt =====
-- windows_events.py, `find_host_profile`: which profile a host gets.
use mini_siem.Base.{
  ◌≡◌, refl, ◌⊎◌, inl, inr, Bool, true, Option, none, some, List, [], ◌∷◌, ◌==◌, nat_eq, string_eq,
  Bool-cases, keep, Text, text_beq_iff, text_eq,
}
use mini_siem.WindowsEvents.{host_matches, host_key, find_host_profile, first_of, only_of}

-- A profile found is of the host's own name, or the one profile whose name matches it.
abbrev pub Chosen : (Text → Bool) → List Text → Text → Option Text → Type 0
Chosen is_ip hosts observed none = keep (λ (h : Text). host_key h == host_key observed) hosts ≡ []
Chosen is_ip hosts observed (some h) =
    (host_key h ≡ host_key observed)
    ⊎ (keep (λ (x : Text). host_key x == host_key observed) hosts ≡ [])
      × (keep (λ (x : Text). host_matches is_ip x observed) hosts ≡ h ∷ [])

first_of-keep :
    (test : Text → Bool) (xs : List Text)
    → (keep test xs ≡ []) ⊎ (x : Text) × (first_of (keep test xs) ≡ some x) × (test x ≡ true)
first_of-keep test [] = inl refl
first_of-keep test (x ∷ xs) = elim (Bool-cases (test x)) [
  | inl e ↦ rw e (inr (x, refl, e))
  | inr e ↦ rw e (first_of-keep test xs)
]

-- A host gets the first profile of its own name; without one, a profile whose name matches only when
-- no other one does, so that a short name with several domains gets none; and it gets none only when
-- no profile has its own name.
pub find_host_profile-Chosen :
    (is_ip : Text → Bool) (hosts : List Text) (observed : Text)
    → Chosen is_ip hosts observed (find_host_profile is_ip hosts observed)
unfolding find_host_profile
find_host_profile-Chosen is_ip hosts observed =
    elim (first_of-keep (λ (h : Text). host_key h == host_key observed) hosts) [
      | inr (x, found, e) ↦ rw found (inl ((text_beq_iff (host_key x) (host_key observed)).0 e))
      | inl empty ↦
          rw empty (at_loose (keep (λ (h : Text). host_matches is_ip h observed) hosts) refl empty)
    ]
  where
    at_loose :
        (xs : List Text)
        → keep (λ (h : Text). host_matches is_ip h observed) hosts ≡ xs
        → keep (λ (h : Text). host_key h == host_key observed) hosts ≡ []
        → Chosen is_ip hosts observed (only_of xs)
    at_loose [] q e = e
    at_loose (x ∷ []) q e = inr (e, q)
    at_loose (x ∷ y ∷ xs) q e = e
