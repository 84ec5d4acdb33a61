-- ===== src/Outbound.antt =====
-- outbound.py: which destinations the program connects to, and how much of an answer it reads. An
-- origin is a scheme, a host and a port, as `origin` gives it; the resolver's answers are arguments
-- (`none` where the lookup raises), each address with what `ipaddress` tells of it, after the IPv4
-- address of an IPv4-mapped one has taken its place.
pub mod Policy
pub mod Reading
mod Tests
use mini_siem.Base.{
  ℕ, ◌+◌, ◌-◌, ◌/◌, min, max, Bool, true, false, not, ◌&&◌, ◌||◌, Option, none, some, List, [], ◌∷◌,
  ◌++◌, ltb, leb, if◌then◌else◌, ◌==◌, nat_eq, string_eq, or_else, length, take, drop, any_of, keep,
  Text, codes, text_eq, lookup, elem,
}

pub data Scheme : Type 0 where
  http https : Scheme

pub record Origin : Type 0 where
  pub scheme : Scheme
  pub host : Text
  pub port : ℕ

-- an answer of `getaddrinfo`: its text, which is connected to, and the address that is tested, an
-- IPv4 address where the text is one mapped into IPv6
pub record Address : Type 0 where
  pub answer : Text
  pub text : Text
  pub is_loopback : Bool
  pub is_global : Bool
  pub is_link_local : Bool
  pub is_multicast : Bool
  pub is_unspecified : Bool
  pub is_reserved : Bool
  -- `sixtofour` or `teredo`
  pub is_tunnelled : Bool

-- the kinds of `OutboundPolicyError`
pub data PolicyError : Type 0 where
  bad_url metadata_host not_https lookup_failed blocked_address internal_address not_local
        no_address :
      PolicyError

pub data Result {ℓ} (A : Type ℓ) : Type ℓ where
  ok : A → Result A
  raise : PolicyError → Result A

abbrev pub scheme_beq : Scheme → Scheme → Bool
scheme_beq http http = true
scheme_beq https https = true
scheme_beq _ _ = false

abbrev pub origin_beq : Origin → Origin → Bool
origin_beq a b = scheme_beq a.scheme b.scheme && a.host == b.host && a.port == b.port

-- what `urlsplit` tells of a URL
pub record SplitUrl : Type 0 where
  pub scheme : Option Scheme
  -- the host in its IDNA form, in lower case
  pub hostname : Option Text
  pub has_credentials : Bool
  pub has_fragment : Bool
  pub port : Option ℕ
  pub path : Text
  pub query : Text
  -- the URL has a backslash, or a control character or a blank
  pub has_unsafe : Bool

-- `host.rstrip(".")`
abbrev pub drop_dots : Text → Text
drop_dots [] = []
drop_dots (c ∷ s) = dot_cons c (drop_dots s)
  where
    dot_cons : ℕ → Text → Text
    dot_cons c [] = if c == b'.' then [] else c ∷ []
    dot_cons c (d ∷ s) = c ∷ d ∷ s

abbrev pub default_port : Scheme → ℕ
default_port https = 443
default_port http = 80

abbrev pub check_port : Scheme → Text → ℕ → Result Origin
check_port s h p =
    if leb 1 p && leb p 65535
    then ok (record { scheme = s; host = drop_dots h; port = p })
    else raise bad_url

abbrev pub origin_parts : Option Scheme → Option Text → Option ℕ → Result Origin
origin_parts none h p = raise bad_url
origin_parts (some s) none p = raise bad_url
origin_parts (some s) (some []) p = raise bad_url
origin_parts (some s) (some (c ∷ h)) p = check_port s (c ∷ h) (or_else p (default_port s))

-- `origin`
unfoldable pub origin : SplitUrl → Result Origin
origin u =
    if u.has_credentials || u.has_fragment || u.has_unsafe
    then raise bad_url
    else origin_parts u.scheme u.hostname u.port

abbrev pub add_origin : Result Origin → Result (List Origin) → Result (List Origin)
add_origin (raise e) rest = raise e
add_origin (ok o) (raise e) = raise e
add_origin (ok o) (ok os) = ok (o ∷ os)

-- `_allowed_origins`, over the entries of the allowlist that are not blank
unfoldable pub allowed_origins : List SplitUrl → Result (List Origin)
unfolding origin
allowed_origins [] = ok []
allowed_origins (u ∷ us) =
    let rest = allowed_origins us in
    let exact = elem u.path ([] ∷ codes "/" ∷ []) && u.query == [] in
    if exact then add_origin (origin u) rest else raise bad_url

pub data Purpose : Type 0 where
  generic ai_local : Purpose

abbrev pub loopback_names : List Text
loopback_names = codes "localhost" ∷ codes "127.0.0.1" ∷ codes "::1" ∷ []

abbrev pub is_local : Purpose → Origin → Bool
is_local generic o = false
is_local ai_local o = elem o.host loopback_names && (o.port == 11434 || o.port == 1234)

abbrev pub is_dev : Bool → Origin → Bool
is_dev allow_loopback o = allow_loopback && elem o.host loopback_names

abbrev pub metadata_names : List Text
metadata_names = codes "metadata.google.internal" ∷ codes "metadata.goog" ∷ []

abbrev pub metadata_addresses : List Text
metadata_addresses = codes "100.100.100.200" ∷ codes "168.63.129.16" ∷ codes "fd00:ec2::254" ∷ []

-- addresses that are refused whatever the allowlist says
abbrev pub is_blocked : Address → Bool
is_blocked a =
    a.is_link_local
    || a.is_multicast
    || a.is_unspecified
    || (a.is_reserved && not a.is_loopback)
    || a.is_tunnelled
    || elem a.text metadata_addresses

-- the checks of one address: `explicit` is whether the origin is in the allowlist
unfoldable pub check_address : Bool → Bool → Address → Option PolicyError
check_address explicit local a =
    if is_blocked a
    then some blocked_address
    else if not a.is_global && not (explicit || local)
    then some internal_address
    else if local && not explicit && not a.is_loopback
    then some not_local
    else none

unfoldable pub check_addresses : Bool → Bool → List Address → Option PolicyError
unfolding check_address
check_addresses explicit local [] = none
check_addresses explicit local (a ∷ others) =
    let rest = check_addresses explicit local others in
    elim (check_address explicit local a) [ none ↦ rest | some e ↦ some e ]

-- `list(dict.fromkeys(addresses))`: of the answers of one text, the first
unfoldable pub once : List Address → List Address
once [] = []
once (a ∷ others) = a ∷ keep (λ (x : Address). not (x.answer == a.answer)) (once others)

abbrev pub resolved : Origin → Bool → Bool → Option (List Address) → Result (Origin × List Address)
resolved o explicit local none = raise lookup_failed
resolved o explicit local (some []) = raise no_address
resolved o explicit local (some (a ∷ others)) = elim (check_addresses explicit local (a ∷ others)) [
  | none ↦ ok (o, once (a ∷ others))
  | some e ↦ raise e
]

abbrev pub decide :
    Purpose
    → Bool
    → Origin
    → List Origin
    → (Origin → Option (List Address))
    → Result (Origin × List Address)
decide purpose allow_loopback o allowed lookup_host =
    let explicit = any_of (λ (x : Origin). origin_beq x o) allowed in
    let local = is_local purpose o || is_dev allow_loopback o in
    if not (scheme_beq o.scheme https) && not (explicit || local)
    then raise not_https
    else resolved o explicit local (lookup_host o)

abbrev pub with_allowed :
    Purpose
    → Bool
    → Origin
    → Result (List Origin)
    → (Origin → Option (List Address))
    → Result (Origin × List Address)
with_allowed purpose allow_loopback o (raise e) lookup_host = raise e
with_allowed purpose allow_loopback o (ok allowed) lookup_host =
    decide purpose allow_loopback o allowed lookup_host

abbrev pub with_origin :
    Purpose
    → Bool
    → Result Origin
    → List SplitUrl
    → (Origin → Option (List Address))
    → Result (Origin × List Address)
with_origin purpose allow_loopback (raise e) allowlist lookup_host = raise e
with_origin purpose allow_loopback (ok o) allowlist lookup_host =
    if elem o.host metadata_names
    then raise metadata_host
    else with_allowed purpose allow_loopback o (allowed_origins allowlist) lookup_host

-- `resolve_destination`; the connection takes the texts of the addresses, each once
unfoldable pub resolve_destination :
    Purpose
    → Bool
    → SplitUrl
    → List SplitUrl
    → (Origin → Option (List Address))
    → Result (Origin × List Address)
unfolding origin allowed_origins check_addresses once
resolve_destination purpose allow_loopback url allowlist lookup_host =
    with_origin purpose allow_loopback (origin url) allowlist lookup_host

pub data ReadError : Type 0 where
  too_long short : ReadError

-- a read of the body: what it holds, or what is wrong with it
pub data Body : Type 0 where
  body : Text → Body
  failed : ReadError → Body

-- The read loop of `open_request`: `chunks` is what `read1` gives at each turn, of no more bytes
-- than asked; an empty chunk is the end.
unfoldable pub read_body : ℕ → List Text → ℕ → Text → Body
read_body max_bytes [] size read = body read
read_body max_bytes (chunk ∷ chunks) size read =
    let got = take (min 65536 (max_bytes + 1 - size)) chunk in
    let rest = read_body max_bytes chunks (size + length got) (read ++ got) in
    if length got == 0
    then body read
    else if ltb max_bytes (size + length got)
    then failed too_long
    else rest

abbrev pub check_length : Option ℕ → Body → Body
check_length none b = b
check_length (some n) (failed e) = failed e
check_length (some n) (body t) = if length t == n then body t else failed short

abbrev pub declared_ok : ℕ → Option ℕ → Bool
declared_ok max_bytes none = true
declared_ok max_bytes (some n) = leb n max_bytes

-- the body of an answer with its `Content-Length`
unfoldable pub read_response : ℕ → Option ℕ → List Text → Body
unfolding read_body
read_response max_bytes declared chunks =
    if declared_ok max_bytes declared
    then check_length declared (read_body max_bytes chunks 0 [])
    else failed too_long
