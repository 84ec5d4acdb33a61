-- ===== src/Auth.antt =====
-- auth.py: the accounts in the `users` table. Password hashes are those of werkzeug: `hash_of` and
-- `check_hash` are arguments. The SSO protocols are not here.
pub mod Accounts
pub mod Sessions
mod Tests
use mini_siem.Base.{
  ℕ, min, Bool, true, false, not, ◌&&◌, ◌||◌, Option, none, some, [], ◌∷◌, if◌then◌else◌, ◌==◌,
  nat_eq, string_eq, Text, codes, text_eq, Dict, lookup, insert, elem,
}

pub data Role : Type 0 where
  admin analyst viewer other : Role

pub record User : Type 0 where
  pub password_hash : Text
  pub role : Role
  pub auth_source : Text
  pub must_change_password : Bool
  pub created_at : ℕ

-- the table, by its unique user names
abbrev pub Users : Type 0
Users = Dict Text User

-- `seed_default_admin`; `safe` is what `ensure_admin_bootstrap_safe` answers
unfoldable pub seed_default_admin : (Text → Text) → Bool → ℕ → Users → Users
seed_default_admin hash_of safe now [] =
    if safe
    then []
    else (
      codes "admin",
      record {
        password_hash = hash_of (codes "admin");
        role = admin;
        auth_source = codes "local";
        must_change_password = true;
        created_at = now;
      },
    )
      ∷ []
seed_default_admin hash_of safe now (u ∷ users) = u ∷ users

abbrev pub check_user : (Text → Text → Bool) → Text → Option User → Option User
check_user check_hash password none = none
check_user check_hash password (some u) =
    if u.auth_source == codes "local"
      && not (u.password_hash == [])
      && check_hash u.password_hash password
    then some u
    else none

-- `verify_local`
unfoldable pub verify_local : (Text → Text → Bool) → Users → Text → Text → Option User
verify_local check_hash users username password =
    check_user check_hash password (lookup username users)

abbrev pub with_password : Text → User → User
with_password hash u = record {
  password_hash = hash;
  role = u.role;
  auth_source = u.auth_source;
  must_change_password = false;
  created_at = u.created_at;
}

-- `set_password`
unfoldable pub set_password : (Text → Text) → Text → Text → Users → Users
set_password hash_of username password [] = []
set_password hash_of username password ((n, u) ∷ users) =
    (n, (if n == username then with_password (hash_of password) u else u))
    ∷ set_password hash_of username password users

pub data Upsert : Type 0 where
  missing_identity conflicting_account : Upsert
  signed_in : Users → User → Upsert

abbrev pub new_sso_user : ℕ → Text → User
new_sso_user now source = record {
  password_hash = [];
  role = viewer;
  auth_source = source;
  must_change_password = false;
  created_at = now;
}

abbrev pub upsert_user : ℕ → Text → Text → Users → Option User → Upsert
upsert_user now username source users none =
    let u = new_sso_user now source in signed_in (insert username u users) u
upsert_user now username source users (some u) =
    if u.auth_source == source then signed_in users u else conflicting_account

-- `upsert_sso_user`
unfoldable pub upsert_sso_user : ℕ → Text → Text → Users → Upsert
upsert_sso_user now username source users =
    if username == [] || not (elem source (codes "oauth" ∷ codes "saml" ∷ []))
    then missing_identity
    else upsert_user now username source users (lookup username users)
