-- ===== src/Auth/Accounts.antt =====
-- auth.py, `upsert_sso_user`.
use mini_siem.Base.{
  ℕ, ◌≡◌, refl, ◌∙◌, ◌⊎◌, inl, inr, false, not, ◌||◌, Option, none, some, [], ◌∷◌, ◌==◌, nat_eq,
  string_eq, Bool-cases, Text, codes, text_beq_iff, text_eq, lookup, lookup-insert, beq_refl, elem,
}
use mini_siem.Auth.{
  User, Users, Upsert, new_sso_user, upsert_user, upsert_sso_user, viewer, missing_identity,
  conflicting_account, signed_in,
}

-- The account signed in is one of that source, a viewer's if it is new; no other account changes.
abbrev pub SignedIn : Text → Text → Users → Upsert → Type 0
SignedIn username source users missing_identity = Unit
SignedIn username source users conflicting_account =
    (u : User) × (lookup username users ≡ some u) × ((u.auth_source == source) ≡ false)
SignedIn username source users (signed_in users' u) =
    (u.auth_source ≡ source)
    × (lookup username users' ≡ some u)
    × ((lookup username users ≡ some u) ⊎ (lookup username users ≡ none) × (u.role ≡ viewer))
    × ((name : Text) → (username == name) ≡ false → lookup name users' ≡ lookup name users)

upsert_user-SignedIn :
    (now : ℕ) (username source : Text) (users : Users) (o : Option User)
    → lookup username users ≡ o
    → SignedIn username source users (upsert_user now username source users o)
upsert_user-SignedIn now username source users none q =
    let u = new_sso_user now source in
    (
      refl,
      lookup-insert username username u users ∙ rw (beq_refl username) refl,
      inr (q, refl),
      λ name e. lookup-insert username name u users ∙ rw e refl,
    )
upsert_user-SignedIn now username source users (some u) q =
    elim (Bool-cases (u.auth_source == source)) [
      | inl e ↦ rw e ((text_beq_iff u.auth_source source).0 e, q, inl q, λ name d. refl)
      | inr e ↦ rw e (u, q, e)
    ]

-- Whatever identity a provider sends: an account signed in to is of that provider's kind, and is the
-- one stored under the name or, when there was none, a new viewer; no other account changes; and it
-- is refused as a conflict only where the account of that name is of another kind.
pub upsert_sso_user-SignedIn :
    (now : ℕ) (username source : Text) (users : Users)
    → SignedIn username source users (upsert_sso_user now username source users)
unfolding upsert_sso_user
upsert_sso_user-SignedIn now username source users =
    elim (Bool-cases (username == [] || not (elem source (codes "oauth" ∷ codes "saml" ∷ [])))) [
      | inl e ↦ rw e tt
      | inr e ↦ rw e (upsert_user-SignedIn now username source users (lookup username users) refl)
    ]
