-- ===== src/WindowsEvents/Tests.antt =====
-- windows_events.py at short names and domains.
use mini_siem.Base.{
  ◌≡◌, refl, Bool, false, none, List, [], ◌∷◌, nat_eq, string_eq, Text, codes, text_eq, lower,
  lstrip, rstrip,
}
use mini_siem.WindowsEvents.{find_host_profile}

abbrev no_ip : Text → Bool
no_ip _ = false

abbrev two_domains : List Text
two_domains = codes "web.a.local" ∷ codes "web.b.local" ∷ []

ambiguous : find_host_profile no_ip two_domains (codes "WEB") ≡ none
unfolding find_host_profile lstrip rstrip lower
ambiguous = refl
