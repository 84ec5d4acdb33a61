-- ===== src/WindowsEvents.antt =====
-- windows_events.py: the matching of host names and the choice of a host's profile. `is_ip` tells what
-- `ipaddress` takes; letters are those of ASCII.
pub mod Profiles
mod Tests
use mini_siem.Base.{
  ℕ, Bool, not, ◌&&◌, ◌||◌, Option, none, some, List, [], ◌∷◌, if◌then◌else◌, ◌==◌, nat_eq,
  string_eq, drop, keep, Text, text_eq, lower, lstrip, rstrip, elem,
}

-- `s.rstrip(".")`
abbrev pub dot_cons : ℕ → Text → Text
dot_cons c [] = if c == b'.' then [] else c ∷ []
dot_cons c (d ∷ s) = c ∷ d ∷ s

unfoldable pub drop_dots : Text → Text
drop_dots [] = []
drop_dots (c ∷ s) = dot_cons c (drop_dots s)

-- `_host_key`
unfoldable pub host_key : Text → Text
unfolding drop_dots lstrip rstrip lower
host_key name = lower (drop_dots (rstrip (lstrip name)))

abbrev pub has_dot : Text → Bool
has_dot s = elem b'.' s

-- `s.split(".", 1)[0]`
abbrev pub short_name : Text → Text
short_name [] = []
short_name (c ∷ s) = let rest = short_name s in if c == b'.' then [] else c ∷ rest

abbrev pub same_host : (Text → Bool) → Text → Text → Bool
same_host is_ip c o =
    not (c == [])
    && not (o == [])
    && (c == o
        || (not (is_ip c)
            && not (is_ip o)
            && not (has_dot c && has_dot o)
            && (has_dot c || has_dot o)
            && short_name c == short_name o))

-- `host_matches`
unfoldable pub host_matches : (Text → Bool) → Text → Text → Bool
unfolding host_key
host_matches is_ip configured observed = same_host is_ip (host_key configured) (host_key observed)

abbrev pub first_of {ℓ} : {A : Type ℓ} → List A → Option A
first_of [] = none
first_of (x ∷ xs) = some x

abbrev pub only_of {ℓ} : {A : Type ℓ} → List A → Option A
only_of (x ∷ []) = some x
only_of _ = none

abbrev pub or_first {ℓ} : {A : Type ℓ} → Option A → Option A → Option A
or_first (some x) o = some x
or_first none o = o

-- `find_host_profile`, over the names of the profiles; `none` is the empty profile
unfoldable pub find_host_profile : (Text → Bool) → List Text → Text → Option Text
unfolding host_key host_matches
find_host_profile is_ip hosts observed =
    or_first (first_of (keep (λ (h : Text). host_key h == host_key observed) hosts))
      (only_of (keep (λ (h : Text). host_matches is_ip h observed) hosts))
