-- ===== src/Auth/Sessions/Revocation.antt =====
-- auth.py: a login is let through, and a new password ends the sessions of the old one.
use mathlib.Core.Path.{subst}
use mini_siem.Auth.Sessions.Guard.{guard_iff_Admitted, IsFresh, is_valid-eq}
use mini_siem.Base.{
  ℕ, ◌≡◌, refl, sym, ap, ◌∙◌, ◌≢◌, inl, inr, Bool, true, false, Option, none, some, [], ◌∷◌, arith,
  if◌then◌else◌, string_eq, nat_eq, ◌==◌, Bool-cases, Text, text_beq_iff, text_eq, lookup, elem,
  ◌&&◌, or_else, codes, beq_refl,
}
use mini_siem.Auth.{User, Users, with_password, set_password}
use mini_siem.Auth.Sessions.{
  Session, cleared, public_endpoints, live, session_stamp, is_valid, with_account, guard, Request,
  revoked, safe_methods, signed_session, unchanged, login_account, login_user, passed,
}

abbrev changed : Text → Option User → Option User
changed hash none = none
changed hash (some u) = some (with_password hash u)

lookup-set_password :
    (hash_of : Text → Text) (username password : Text) (users : Users)
    → lookup username (set_password hash_of username password users)
      ≡ changed (hash_of password) (lookup username users)
unfolding set_password
lookup-set_password hash_of username password [] = refl
lookup-set_password hash_of username password ((n, u) ∷ users) = elim (Bool-cases (n == username)) [
  | inl e ↦ rw e refl
  | inr e ↦ rw e (lookup-set_password hash_of username password users)
]

module _ (hmac : Text → Text → ℕ → Text → Text) where
  -- Where the keyed hash tells two password hashes of an account apart: when the password of the
  -- account is set anew, to one of another hash, a session of a named user that was valid until then
  -- is refused and cleared at its next request for an endpoint that is not public.
  pub guard-set_password :
      (hash_of : Text → Text) (password : Text) (users : Users) (u : User) (now limit : ℕ)
      (req : Request) (s : Session)
      → ((a b : Text) (c : ℕ) (d e : Text) → hmac a b c d ≡ hmac a b c e → d ≡ e)
      → lookup s.user users ≡ some u
      → is_valid hmac s u ≡ true
      → hash_of password ≢ u.password_hash
      → elem req.endpoint public_endpoints ≡ false
      → (s.user == []) ≡ false
      → guard hmac now limit (some (set_password hash_of s.user password users)) req s
        ≡ (revoked req.is_api, cleared)
  unfolding guard
  guard-set_password hash_of password users u now limit req s injective found valid new h k =
      let stored =
        lookup-set_password hash_of s.user password users ∙ ap (changed (hash_of password)) found in
      rw (h, k)
        (ap (with_account hmac now limit req s) stored
          ∙ refused (is_valid hmac s (with_password (hash_of password) u)) (stale valid))
    where
      refused :
          (ok : Bool)
          → ok ≡ false
          → (if ok
              then live now limit req (with_password (hash_of password) u) s
              else (revoked req.is_api, cleared))
            ≡ (revoked req.is_api, cleared)
      refused true e = cc
      refused false e = refl

      stamp_of : (v : User) → is_valid hmac s v ≡ true → s.auth_stamp ≡ session_stamp hmac s.user v
      stamp_of v e = (text_beq_iff s.auth_stamp (session_stamp hmac s.user v)).0 (ground (arith, e))

      stale :
          is_valid hmac s u ≡ true → is_valid hmac s (with_password (hash_of password) u) ≡ false
      stale ok = elim (Bool-cases (is_valid hmac s (with_password (hash_of password) u))) [
        | inr e ↦ e
        | inl e ↦ absurd (
            new (
              injective s.user u.auth_source u.created_at (hash_of password) u.password_hash
                (sym (stamp_of (with_password (hash_of password) u) e) ∙ stamp_of u ok)))
      ]

  login_account-is_valid :
      (username source token : Text) (checked : Option (Text × User)) (o : Option User)
      (s : Session)
      → login_account hmac username source token checked o ≡ some s
      → (u : User) × (o ≡ some u)
        × (s.user ≡ username)
        × (is_valid hmac s u ≡ true)
        × (s.last_activity ≡ none)
        × (s.must_change ≡ u.must_change_password)
  login_account-is_valid username source token checked none s h = cc
  login_account-is_valid username source token checked (some u) s h =
      by_test (u.auth_source == source) (unchanged hmac username u checked) refl h
    where
      by_test :
          (right same : Bool)
          → (u.auth_source == source) ≡ right
          → (if right && same then some (signed_session hmac username source token u) else none)
            ≡ some s
          → (v : User) × (some u ≡ some v)
            × (s.user ≡ username)
            × (is_valid hmac s v ≡ true)
            × (s.last_activity ≡ none)
            × (s.must_change ≡ v.must_change_password)
      by_test false same e k = cc
      by_test true false e k = cc
      by_test true true e k =
          let is_s = ap (λ (o : Option Session). or_else o s) k in
          subst
            (λ (t : Session).
              (v : User) × (some u ≡ some v)
              × (t.user ≡ username)
              × (is_valid hmac t v ≡ true)
              × (t.last_activity ≡ none)
              × (t.must_change ≡ v.must_change_password))
            is_s
            (
              u,
              refl,
              refl,
              rw
                  (
                    sym ((text_beq_iff u.auth_source source).0 e),
                    beq_refl u.auth_source,
                    beq_refl (session_stamp hmac username u),
                  )
                  refl,
              refl,
              refl,
            )

  -- A session that a login gives, of an account with no password to change, is let through to every
  -- page that is read, but for the list of users, as long as the accounts stay as they are.
  pub login_user-guard :
      (users : Users) (username source token : Text) (checked : Option (Text × User))
      (now limit : ℕ) (req : Request) (s : Session)
      → login_user hmac users username source token checked ≡ some s
      → s.must_change ≡ false
      → (username == []) ≡ false
      → elem req.endpoint public_endpoints ≡ false
      → elem req.method safe_methods ≡ true
      → req.endpoint ≢ codes "users_api.api_users_list"
      → (guard hmac now limit (some users) req s).0 ≡ passed
  unfolding login_user
  login_user-guard users username source token checked now limit req s h settled named shut safe
        elsewhere =
      let (u, found, is_user, valid, fresh, change) =
        login_account-is_valid username source token checked (lookup username users) s h in
      (guard_iff_Admitted hmac now limit (some users) req s shut
          (ap (λ (n : Text). n == []) is_user ∙ named)).1
        (
          u,
          ap (λ (n : Text). lookup n users) is_user ∙ found,
          ((is_valid-eq hmac s u).0 valid).0,
          ((is_valid-eq hmac s u).0 valid).1,
          subst (IsFresh now limit) (sym fresh) tt,
          (inl (sym change ∙ settled), inl safe, inl elsewhere),
        )
