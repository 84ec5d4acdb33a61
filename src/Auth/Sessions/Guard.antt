-- ===== src/Auth/Sessions/Guard.antt =====
-- auth.py, `_guard`: who is let through.
use mini_siem.Base.{
  ℕ, ◌+◌, ◌≤◌, ◌≡◌, refl, sym, ap, ◌∙◌, ◌≢◌, ◌↔◌, ◌⊎◌, inl, inr, Bool, true, false, ◌&&◌, Option,
  none, some, [], ◌++◌, arith, string_eq, nat_eq, ◌==◌, Bool-cases, or_else, Text, codes,
  text_beq_iff, text_eq, lookup, elem,
}
use mini_siem.Auth.{User, Users, Role, admin, analyst, viewer, other}
use mini_siem.Auth.Sessions.{
  Session, public_endpoints, read_only, self_service, soc, password_pages, safe_methods, granted,
  is_admin_role, may, is_idle, same_source, session_stamp, is_valid, guard, Request, passed,
}
use mini_siem.Auth.Sessions.Checks.{Checks, Checked, guard-Checked}

-- A session that has been idle for no longer than the limit, where there is one.
abbrev pub IsFresh : ℕ → ℕ → Option ℕ → Type 0
IsFresh now limit none = Unit
IsFresh now limit (some last) = (limit ≡ 0) ⊎ (now ≤ last + limit)

-- Who may write at an endpoint: an administrator anywhere, an analyst at those of the SOC.
abbrev pub MayWrite : Role → Text → Type 0
MayWrite admin endpoint = Unit
MayWrite analyst endpoint = elem endpoint soc ≡ true
MayWrite viewer endpoint = ⊥
MayWrite other endpoint = ⊥

-- What an account may ask for: while its password is to be changed only the pages for that; to write
-- only by its role, but for the endpoints of everybody; the list of users as an administrator.
abbrev pub Authorised : User → Request → Type 0
Authorised u req =
    ((u.must_change_password ≡ false) ⊎ (elem req.endpoint password_pages ≡ true))
    × ((elem req.method safe_methods ≡ true)
        ⊎ (elem req.endpoint (read_only ++ self_service) ≡ true)
        ⊎ MayWrite u.role req.endpoint)
    × ((req.endpoint ≢ codes "users_api.api_users_list") ⊎ (u.role ≡ admin))

is_idle-IsFresh :
    (now limit : ℕ) (last : Option ℕ) → (is_idle now limit last ≡ false) ↔ IsFresh now limit last
is_idle-IsFresh now limit none = (λ h. tt, λ h. refl)
is_idle-IsFresh now limit (some last) = ground arith

may-MayWrite :
    (r : Role) (endpoint : Text) → (may (granted r) endpoint ≡ true) ↔ MayWrite r endpoint
may-MayWrite admin endpoint = (λ h. tt, λ h. refl)
may-MayWrite analyst endpoint = (λ h. h, λ h. h)
may-MayWrite viewer endpoint = (λ h. cc, λ h. absurd h)
may-MayWrite other endpoint = (λ h. cc, λ h. absurd h)

is_admin_role-eq : (r : Role) → (is_admin_role (granted r) ≡ true) ↔ (r ≡ admin)
is_admin_role-eq admin = (λ h. refl, λ h. refl)
is_admin_role-eq analyst = (λ h. cc, λ h. cc)
is_admin_role-eq viewer = (λ h. cc, λ h. cc)
is_admin_role-eq other = (λ h. cc, λ h. cc)

differs : (a b : Text) → ((a == b) ≡ false) ↔ (a ≢ b)
differs a b = (λ h q. clash (sym h ∙ (text_beq_iff a b).1 q), same)
  where
    clash : false ≡ true → ⊥
    clash q = cc

    same : a ≢ b → (a == b) ≡ false
    same n = elim (Bool-cases (a == b)) [ inl e ↦ absurd (n ((text_beq_iff a b).0 e)) | inr e ↦ e ]

map_either : {A B C D : Type 0} → (A → C) → (B → D) → A ⊎ B → C ⊎ D
map_either f g (inl a) = inl (f a)
map_either f g (inr b) = inr (g b)

Checks-Authorised :
    (u : User) (req : Request)
    → Checks (granted u.role) u.must_change_password req ↔ Authorised u req
Checks-Authorised u req =
    let write = may-MayWrite u.role req.endpoint in
    let list = differs req.endpoint (codes "users_api.api_users_list") in
    let boss = is_admin_role-eq u.role in
    (
      λ h. (
        h.0,
        map_either (λ a. a) (map_either (λ b. b) write.0) h.1,
        map_either list.0 boss.0 h.2,
      ),
      λ h. (
        h.0,
        map_either (λ a. a) (map_either (λ b. b) write.1) h.1,
        map_either list.1 boss.1 h.2,
      ),
    )

module _ (hmac : Text → Text → ℕ → Text → Text) where
  -- A session that names a stored account by its source and its stamp, which is the keyed hash of the
  -- fields of the account, and that has not been idle too long; and what is asked is allowed.
  abbrev pub Admitted : ℕ → ℕ → Option Users → Request → Session → Type 0
  Admitted now limit none req s = ⊥
  Admitted now limit (some users) req s =
      (u : User) × (lookup s.user users ≡ some u)
      × (s.auth_source ≡ some u.auth_source)
      × (s.auth_stamp ≡ hmac s.user u.auth_source u.created_at u.password_hash)
      × IsFresh now limit s.last_activity
      × Authorised u req

  same_source-eq : (o : Option Text) (t : Text) → (same_source o t ≡ true) ↔ (o ≡ some t)
  same_source-eq none t = (λ h. cc, λ h. cc)
  same_source-eq (some a) t = (
    λ h. ap some ((text_beq_iff a t).0 h),
    λ h. (text_beq_iff a t).1 (ap (λ (o : Option Text). or_else o a) h),
  )

  pub is_valid-eq :
      (s : Session) (u : User)
      → (is_valid hmac s u ≡ true) ↔ (
          (s.auth_source ≡ some u.auth_source)
          × (s.auth_stamp ≡ hmac s.user u.auth_source u.created_at u.password_hash))
  is_valid-eq s u =
      let source = same_source-eq s.auth_source u.auth_source in
      let stamp = text_beq_iff s.auth_stamp (session_stamp hmac s.user u) in
      (
        λ h. (
          source.0
              (first (same_source s.auth_source u.auth_source)
                (s.auth_stamp == session_stamp hmac s.user u) h).0,
          stamp.0
              (first (same_source s.auth_source u.auth_source)
                (s.auth_stamp == session_stamp hmac s.user u) h).1,
        ),
        λ h. rw (source.1 h.0, stamp.1 h.1) refl,
      )
    where
      first : (a b : Bool) → (a && b) ≡ true → (a ≡ true) × (b ≡ true)
      first a b h = ground arith

  Checked-Admitted :
      (now limit : ℕ) (db : Option Users) (req : Request) (s : Session)
      → Checked hmac now limit db req s ↔ Admitted now limit db req s
  Checked-Admitted now limit none req s = (λ h. h, λ h. h)
  Checked-Admitted now limit (some users) req s = (
    λ (u, found, valid, idle, may_do). (
      u,
      found,
      ((is_valid-eq s u).0 valid).0,
      ((is_valid-eq s u).0 valid).1,
      (is_idle-IsFresh now limit s.last_activity).0 idle,
      (Checks-Authorised u req).0 may_do,
    ),
    λ (u, found, source, stamp, fresh, may_do). (
      u,
      found,
      (is_valid-eq s u).1 (source, stamp),
      (is_idle-IsFresh now limit s.last_activity).1 fresh,
      (Checks-Authorised u req).1 may_do,
    ),
  )

  -- With a session that names a user, a request for an endpoint that is not public is let through
  -- exactly when: the database can be read and has the account; the session is of the account's source
  -- and its stamp is the keyed hash of the account's fields; it has not been idle for longer than the
  -- limit, where there is one; and with a password to change only the pages for that are asked for,
  -- writing is of an endpoint of everybody, an administrator's, or an analyst's at those of the SOC, and
  -- the list of users is an administrator's.
  pub guard_iff_Admitted :
      (now limit : ℕ) (db : Option Users) (req : Request) (s : Session)
      → elem req.endpoint public_endpoints ≡ false
      → (s.user == []) ≡ false
      → ((guard hmac now limit db req s).0 ≡ passed) ↔ Admitted now limit db req s
  guard_iff_Admitted now limit db req s h k =
      let (a, b) = guard-Checked hmac now limit db req s h k in
      let (c, d) = Checked-Admitted now limit db req s in (λ p. c (a p), λ p. b (d p))
