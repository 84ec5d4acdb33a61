-- ===== src/Auth/Sessions/Tests.antt =====
-- The guard at concrete accounts and requests. The keyed hash of the tests is the password hash.
use mini_siem.Base.{
  ℕ, ◌≡◌, refl, ◌↔◌, true, false, none, some, [], ◌∷◌, string_eq, nat_eq, Text, codes, text_beq_iff,
  text_eq,
}
use mini_siem.Auth.{User, Users, set_password, Role, analyst, viewer, other}
use mini_siem.Auth.Sessions.{
  Session, cleared, guard, Request, passed, revoked, expired, role_denied,
}
use mini_siem.Auth.Sessions.Guard.{Admitted, guard_iff_Admitted}
use mini_siem.Auth.Sessions.Revocation.{guard-set_password}

abbrev stamp : Text → Text → ℕ → Text → Text
stamp username source created_at hash = hash

abbrev account : Role → User
account role = record {
  password_hash = codes "h1";
  role = role;
  auth_source = codes "local";
  must_change_password = false;
  created_at = 1;
}

abbrev users : Users
users =
    (codes "ann", account analyst)
    ∷ (codes "vic", account viewer)
    ∷ (codes "bob", account other)
    ∷ []

abbrev signed_in_as : Text → Session
signed_in_as name = record {
  user = name;
  auth_source = some (codes "local");
  auth_stamp = codes "h1";
  role = none;
  must_change = false;
  last_activity = some 100;
  csrf_token = [];
}

abbrev request : Text → Text → Request
request method endpoint = record {
  endpoint = endpoint;
  is_api = true;
  method = method;
  is_background = false;
}

-- An analyst may move an alert, a viewer may not, and an unknown role is a viewer's.
analyst_writes :
    (guard stamp 110 60
      (some users)
      (request (codes "POST") (codes "api_alert_workflow_update"))
      (signed_in_as (codes "ann"))).0
    ≡ passed
unfolding guard
analyst_writes = refl

viewer_reads :
    (guard stamp 110 60
      (some users)
      (request (codes "POST") (codes "api_alert_workflow_update"))
      (signed_in_as (codes "vic"))).0
    ≡ role_denied (codes "api_alert_workflow_update") viewer
unfolding guard
viewer_reads = refl

unknown_role :
    (guard stamp 110 60
      (some users)
      (request (codes "DELETE") (codes "api_rules_delete"))
      (signed_in_as (codes "bob"))).0
    ≡ role_denied (codes "api_rules_delete") viewer
unfolding guard
unknown_role = refl

-- After 61 idle seconds of 60 the session is over.
idle_ends :
    guard stamp 161 60
      (some users)
      (request (codes "GET") (codes "index"))
      (signed_in_as (codes "ann"))
    ≡ (expired true, cleared)
unfolding guard
idle_ends = refl

abbrev move_alert : Request
move_alert = request (codes "POST") (codes "api_alert_workflow_update")

guard_iff_Admitted_example :
    ((guard stamp 110 60 (some users) move_alert (signed_in_as (codes "ann"))).0 ≡ passed)
    ↔ Admitted stamp 110 60 (some users) move_alert (signed_in_as (codes "ann"))
guard_iff_Admitted_example =
    guard_iff_Admitted stamp 110 60 (some users) move_alert (signed_in_as (codes "ann")) refl refl

guard-set_password_example :
    guard stamp 110 60
      (some (set_password (λ p. p) (codes "ann") (codes "h2") users))
      move_alert
      (signed_in_as (codes "ann"))
    ≡ (revoked true, cleared)
guard-set_password_example =
    guard-set_password stamp (λ p. p) (codes "h2") users (account analyst) 110 60 move_alert
      (signed_in_as (codes "ann")) (λ a b c d e q. q) refl refl
      (λ q. two_hashes ((text_beq_iff (codes "h2") (codes "h1")).1 q)) refl refl
  where
    two_hashes : false ≡ true → ⊥
    two_hashes q = cc
