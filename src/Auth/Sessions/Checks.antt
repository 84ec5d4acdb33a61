-- ===== src/Auth/Sessions/Checks.antt =====
-- auth.py, `_guard`: its checks, one after the other.
use mathlib.Core.Path.{subst}
use mini_siem.Base.{
  ◌≡◌, ◌≢◌, ◌↔◌, ◌⊎◌, Bool, true, false, not, ◌&&◌, ◌++◌, if◌then◌else◌, string_eq, nat_eq, ◌==◌,
  codes, text_eq, elem, arith, ℕ, refl, sym, ap, ◌∙◌, ◌||◌, Option, none, some, [], ltb, is_some,
  or_else, Text, lookup,
}
use mini_siem.Auth.{Role, Users, User}
use mini_siem.Auth.Sessions.{
  read_only, self_service, password_pages, safe_methods, is_admin_role, may, Request, Answer,
  passed, cleared, public_endpoints, granted, authorised, is_idle, touch, live, is_valid,
  with_account, guard, Session, admin_only, revoked, expired, change_required, role_denied,
}

-- What a role may do: with a password to change, only that; no writing but by the tables of
-- endpoints or as administrator; the list of users as administrator.
abbrev pub Checks : Role → Bool → Request → Type 0
Checks role must_change req =
    ((must_change ≡ false) ⊎ (elem req.endpoint password_pages ≡ true))
    × ((elem req.method safe_methods ≡ true)
        ⊎ (elem req.endpoint (read_only ++ self_service) ≡ true)
        ⊎ (may role req.endpoint ≡ true))
    × (((req.endpoint == codes "users_api.api_users_list") ≡ false) ⊎ (is_admin_role role ≡ true))

-- The answer of three refusals, one after the other.
three_refusals :
    (a b c d e f g : Bool) (x y z : Answer)
    → x ≢ passed
    → y ≢ passed
    → z ≢ passed
    → ((if a && not b
          then x
          else if not c && not d && not e
          then y
          else if f && not g
          then z
          else passed)
        ≡ passed)
      ↔ (((a ≡ false) ⊎ (b ≡ true))
          × ((c ≡ true) ⊎ (d ≡ true) ⊎ (e ≡ true))
          × ((f ≡ false) ⊎ (g ≡ true)))
three_refusals a b c d e f g x y z hx hy hz = ground arith

abbrev answer : Answer × Session → Answer
answer (a, s) = a

answer_of :
    (a b c : Bool) (x y z : Answer) (s : Session)
    → answer (if a then (x, s) else if b then (y, s) else if c then (z, s) else (passed, s))
      ≡ (if a then x else if b then y else if c then z else passed)
answer_of true b c x y z s = refl
answer_of false true c x y z s = refl
answer_of false false true x y z s = refl
answer_of false false false x y z s = refl

authorised-Checks :
    (role : Role) (req : Request) (s : Session)
    → ((authorised role req s).0 ≡ passed) ↔ Checks role s.must_change req
authorised-Checks role req s =
    let x = change_required req.is_api in
    let y = role_denied req.endpoint role in
    let (there, back) =
      three_refusals s.must_change (elem req.endpoint password_pages) (elem req.method safe_methods)
        (elem req.endpoint (read_only ++ self_service)) (may role req.endpoint)
        (req.endpoint == codes "users_api.api_users_list") (is_admin_role role) x y admin_only
        (λ q. cc) (λ q. cc) (λ q. cc) in
    let same_answer =
      answer_of (s.must_change && not (elem req.endpoint password_pages))
        (not (elem req.method safe_methods)
          && not (elem req.endpoint (read_only ++ self_service))
          && not (may role req.endpoint))
        (req.endpoint == codes "users_api.api_users_list" && not (is_admin_role role)) x y
        admin_only s in
    (λ h. there (sym same_answer ∙ h), λ h. same_answer ∙ back h)

touch-must_change :
    (now limit : ℕ) (req : Request) (s : Session)
    → (touch now limit req s).must_change ≡ s.must_change
touch-must_change now limit req s =
    by_test (ltb 0 limit && (not req.is_background || not (is_some s.last_activity)))
  where
    by_test :
        (b : Bool)
        → (if b then record s { last_activity = some now } else s).must_change ≡ s.must_change
    by_test true = refl
    by_test false = refl

module _ (hmac : Text → Text → ℕ → Text → Text) where
  -- the checks of the guard, one after the other
  abbrev pub Checked : ℕ → ℕ → Option Users → Request → Session → Type 0
  Checked now limit none req s = ⊥
  Checked now limit (some users) req s =
      (u : User) × (lookup s.user users ≡ some u)
      × (is_valid hmac s u ≡ true)
      × (is_idle now limit s.last_activity ≡ false)
      × Checks (granted u.role) u.must_change_password req

  live-passed :
      (now limit : ℕ) (req : Request) (u : User) (s : Session)
      → ((live now limit req u s).0 ≡ passed) ↔ (
          (is_idle now limit s.last_activity ≡ false)
          × Checks (granted u.role) u.must_change_password req)
  live-passed now limit req u s =
      by_test (is_idle now limit s.last_activity)
        (λ h. subst (λ (m : Bool). Checks (granted u.role) m req) same (inside.0 h))
        (λ h. inside.1 (subst (λ (m : Bool). Checks (granted u.role) m req) (sym same) h))
    where
      t : Session
      t =
          touch now limit req
            (record s { role = some (granted u.role); must_change = u.must_change_password })

      same : t.must_change ≡ u.must_change_password
      same =
          touch-must_change now limit req
            (record s { role = some (granted u.role); must_change = u.must_change_password })

      inside :
          ((authorised (granted u.role) req t).0 ≡ passed)
          ↔ Checks (granted u.role) t.must_change req
      inside = authorised-Checks (granted u.role) req t

      by_test :
          {P : Type 0} (idle : Bool)
          → ((authorised (granted u.role) req t).0 ≡ passed → P)
          → (P → (authorised (granted u.role) req t).0 ≡ passed)
          → (answer
                (if idle then (expired req.is_api, cleared) else authorised (granted u.role) req t)
              ≡ passed)
            ↔ ((idle ≡ false) × P)
      by_test true f g = (λ h. cc, λ p. cc)
      by_test false f g = (λ h. (refl, f h), λ p. g p.1)

  with_account-passed :
      (now limit : ℕ) (req : Request) (s : Session) (users : Users) (o : Option User)
      → lookup s.user users ≡ o
      → ((with_account hmac now limit req s o).0 ≡ passed) ↔ Checked now limit (some users) req s
  with_account-passed now limit req s users none q =
      (λ h. cc, λ p. absurd (none_some (sym q ∙ p.1)))
    where
      none_some : {u : User} → none ≡ some u → ⊥
      none_some e = cc
  with_account-passed now limit req s users (some u) q = by_test (is_valid hmac s u) refl
    where
      same_user : {v : User} → some u ≡ some v → u ≡ v
      same_user e = ap (λ (o : Option User). or_else o u) e

      by_test :
          (valid : Bool)
          → is_valid hmac s u ≡ valid
          → (answer (if valid then live now limit req u s else (revoked req.is_api, cleared))
              ≡ passed)
            ↔ Checked now limit (some users) req s
      by_test true e = (
        λ h. let inside = (live-passed now limit req u s).0 h in (u, q, e, inside.0, inside.1),
        λ p.
            let is_u = same_user (sym q ∙ p.1) in
            (live-passed now limit req u s).1 (
              p.3,
              subst (λ (v : User). Checks (granted v.role) v.must_change_password req) (sym is_u)
                  p.4,
            ),
      )
      by_test false e = (
        λ h. cc,
        λ p.
            let is_u = same_user (sym q ∙ p.1) in
            absurd (clash (sym e ∙ subst (λ (v : User). is_valid hmac s v ≡ true) (sym is_u) p.2)),
      )
        where
          clash : false ≡ true → ⊥
          clash k = cc

  pub guard-Checked :
      (now limit : ℕ) (db : Option Users) (req : Request) (s : Session)
      → elem req.endpoint public_endpoints ≡ false
      → (s.user == []) ≡ false
      → ((guard hmac now limit db req s).0 ≡ passed) ↔ Checked now limit db req s
  unfolding guard
  guard-Checked now limit none req s h k = rw (h, k) (λ q. cc, λ p. absurd p)
  guard-Checked now limit (some users) req s h k =
      rw (h, k) (with_account-passed now limit req s users (lookup s.user users) refl)
