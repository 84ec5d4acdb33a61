-- ===== src/Auth/Sessions.antt =====
-- auth.py: the session of a browser, `login_user` and the guard in front of every request. The
-- session is the cookie that flask signs; `hmac` is the keyed hash of a user's fields. Times are in
-- seconds.
pub mod Checks
pub mod Guard
pub mod Revocation
mod Tests
use mini_siem.Base.{
  ℕ, ◌+◌, ◌-◌, ◌*◌, min, ap, Bool, true, false, not, ◌&&◌, ◌||◌, Option, none, some, List, [], ◌∷◌,
  ◌++◌, ltb, if◌then◌else◌, string_eq, nat_eq, ◌==◌, is_some, Text, codes, text_eq, lookup, elem,
}
use mini_siem.Auth.{User, Users, Role, admin, analyst, viewer, other}

-- `session`; a user name that is empty is none
pub record Session : Type 0 where
  pub user : Text
  pub auth_source : Option Text
  pub auth_stamp : Text
  pub role : Option Role
  pub must_change : Bool
  pub last_activity : Option ℕ
  pub csrf_token : Text

-- `session.clear()`
abbrev pub cleared : Session
cleared = record {
  user = [];
  auth_source = none;
  auth_stamp = [];
  role = none;
  must_change = false;
  last_activity = none;
  csrf_token = [];
}

pub record Request : Type 0 where
  pub endpoint : Text
  pub is_api : Bool
  pub method : Text
  pub is_background : Bool

-- What the guard answers. `true` is the form for paths under /api/, with a status, and `false` the
-- redirection; a refusal by role carries what the audit is told.
pub data Answer : Type 0 where
  passed unavailable admin_only : Answer
  login_required revoked expired change_required : Bool → Answer
  role_denied : Text → Role → Answer

-- `PUBLIC_ENDPOINTS`
abbrev pub public_endpoints : List Text
public_endpoints =
    codes "login"
    ∷ codes "do_login"
    ∷ codes "logout"
    ∷ codes "static"
    ∷ codes "oauth_login"
    ∷ codes "oauth_callback"
    ∷ codes "saml_login"
    ∷ codes "saml_acs"
    ∷ codes "saml_metadata"
    ∷ codes "healthz"
    ∷ codes "dashboard_connector.health"
    ∷ codes "dashboard_connector.capabilities"
    ∷ codes "dashboard_connector.resource"
    ∷ codes "dashboard_connector.reject_mutation"
    ∷ codes "dashboard_connector.not_found"
    ∷ codes "api_ingest"
    ∷ []

abbrev pub read_only : List Text
read_only =
    codes "detection_api.simulate"
    ∷ codes "api_playbooks_run"
    ∷ codes "api_investigate_ip"
    ∷ codes "api_profiles_preview"
    ∷ []

abbrev pub self_service : List Text
self_service = codes "do_change_password" ∷ codes "users_api.api_users_password" ∷ []

abbrev pub soc : List Text
soc =
    codes "api_alert_workflow_update"
    ∷ codes "api_alert_workflow_bulk"
    ∷ codes "ai_api.api_ai_triage"
    ∷ codes "ai_api.api_ai_chat"
    ∷ codes "reports_api.run"
    ∷ codes "api_iocs_create"
    ∷ codes "api_iocs_import"
    ∷ codes "api_iocs_update"
    ∷ codes "api_norm_columns_set"
    ∷ codes "ioc_feeds_api.fetch_feed"
    ∷ []

abbrev pub password_pages : List Text
password_pages = codes "change_password" ∷ codes "do_change_password" ∷ []

abbrev pub safe_methods : List Text
safe_methods = codes "GET" ∷ codes "HEAD" ∷ codes "OPTIONS" ∷ []

-- `g.auth_role`
abbrev pub granted : Role → Role
granted admin = admin
granted analyst = analyst
granted viewer = viewer
granted other = viewer

abbrev pub is_admin_role : Role → Bool
is_admin_role admin = true
is_admin_role _ = false

-- `g.auth_role in allowed`
abbrev pub may : Role → Text → Bool
may admin endpoint = true
may analyst endpoint = elem endpoint soc
may _ endpoint = false

-- behind the checks of the account and of the idle time
abbrev pub authorised : Role → Request → Session → Answer × Session
authorised role req s =
    if s.must_change && not (elem req.endpoint password_pages)
    then (change_required req.is_api, s)
    else if not (elem req.method safe_methods)
        && not (elem req.endpoint (read_only ++ self_service))
        && not (may role req.endpoint)
    then (role_denied req.endpoint role, s)
    else if req.endpoint == codes "users_api.api_users_list" && not (is_admin_role role)
    then (admin_only, s)
    else (passed, s)

abbrev pub is_idle : ℕ → ℕ → Option ℕ → Bool
is_idle now limit none = false
is_idle now limit (some last) = ltb 0 limit && ltb limit (now - last)

-- the clock of the session at a request that is no background poll, or that is the first
abbrev pub touch : ℕ → ℕ → Request → Session → Session
touch now limit req s =
    if ltb 0 limit && (not req.is_background || not (is_some s.last_activity))
    then record s { last_activity = some now }
    else s

abbrev pub live : ℕ → ℕ → Request → User → Session → Answer × Session
live now limit req u s =
    let t = record s { role = some (granted u.role); must_change = u.must_change_password } in
    if is_idle now limit t.last_activity
    then (expired req.is_api, cleared)
    else authorised (granted u.role) req (touch now limit req t)

abbrev pub same_source : Option Text → Text → Bool
same_source none source = false
same_source (some a) source = a == source

-- `_idle_timeout_seconds`, of the minutes that the table has, `none` where it has no number or less
-- than 0
abbrev pub idle_timeout_seconds : Option ℕ → ℕ
idle_timeout_seconds none = 0
idle_timeout_seconds (some minutes) = minutes * 60

module _ (hmac : Text → Text → ℕ → Text → Text) where
  -- `session_stamp`
  abbrev pub session_stamp : Text → User → Text
  session_stamp username u = hmac username u.auth_source u.created_at u.password_hash

  abbrev pub is_valid : Session → User → Bool
  is_valid s u = same_source s.auth_source u.auth_source && s.auth_stamp == session_stamp s.user u

  abbrev pub with_account : ℕ → ℕ → Request → Session → Option User → Answer × Session
  with_account now limit req s none = (revoked req.is_api, cleared)
  with_account now limit req s (some u) =
      if is_valid s u then live now limit req u s else (revoked req.is_api, cleared)

  -- the account of the session, `none` where the database cannot be read
  abbrev pub verified : ℕ → ℕ → Request → Session → Option Users → Answer × Session
  verified now limit req s none = (unavailable, s)
  verified now limit req s (some users) = with_account now limit req s (lookup s.user users)

  -- `_guard` of `make_guard`: the answer and the session behind it
  unfoldable pub guard : ℕ → ℕ → Option Users → Request → Session → Answer × Session
  guard now limit db req s =
      if elem req.endpoint public_endpoints
      then (passed, s)
      else if s.user == []
      then (login_required req.is_api, s)
      else verified now limit req s db

  abbrev pub signed_session : Text → Text → Text → User → Session
  signed_session username source token u = record {
    user = username;
    auth_source = some source;
    auth_stamp = session_stamp username u;
    role = some u.role;
    must_change = u.must_change_password;
    last_activity = none;
    csrf_token = token;
  }

  -- the account that was checked at the login is still the one stored
  abbrev pub unchanged : Text → User → Option (Text × User) → Bool
  unchanged username u none = true
  unchanged username u (some (name, v)) = session_stamp username u == session_stamp name v

  abbrev pub login_account :
      Text → Text → Text → Option (Text × User) → Option User → Option Session
  login_account username source token checked none = none
  login_account username source token checked (some u) =
      if u.auth_source == source && unchanged username u checked
      then some (signed_session username source token u)
      else none

  -- `login_user`, `none` where it raises
  unfoldable pub login_user : Users → Text → Text → Text → Option (Text × User) → Option Session
  login_user users username source token checked =
      login_account username source token checked (lookup username users)

  -- `refresh_session`, of an account that is there
  unfoldable pub refresh_session : User → Session → Session
  refresh_session u s = record s {
    auth_stamp = session_stamp s.user u;
    must_change = u.must_change_password;
  }
