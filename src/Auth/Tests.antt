-- ===== src/Auth/Tests.antt =====
-- auth.py at a table with the default administrator.
use mini_siem.Base.{◌≡◌, refl, false, [], nat_eq, string_eq, Text, codes, text_eq}
use mini_siem.Auth.{Users, seed_default_admin, upsert_sso_user, conflicting_account}

abbrev plain : Text → Text
plain t = t

abbrev seeded : Users
seeded = seed_default_admin plain false 5 []

no_takeover : upsert_sso_user 9 (codes "admin") (codes "oauth") seeded ≡ conflicting_account
unfolding upsert_sso_user seed_default_admin
no_takeover = refl
