-- ===== src/Outbound/Policy.antt =====
-- outbound.py, `resolve_destination`: what a destination that is let through is like.
use mini_siem.Base.{
  ◌<◌, ◌≡◌, Bool, true, false, List, nat_eq, string_eq, length, All, text_eq, elem, refl, inl, inr,
  not, ◌&&◌, ◌||◌, Option, none, some, [], ◌∷◌, arith, if◌then◌else◌, ◌==◌, Bool-cases, any_of,
  keep,
}
use mini_siem.Outbound.{
  Origin, metadata_names, is_blocked, Address, https, scheme_beq, origin_beq, origin,
  allowed_origins, is_local, is_dev, check_address, check_addresses, once, resolved,
  resolve_destination, Scheme, PolicyError, Result, SplitUrl, Purpose, http, blocked_address,
  internal_address, not_local, ok, raise, metadata_host, not_https,
}

-- A destination that is safe to connect to: no metadata host, at least one address, none of them
-- blocked; and without an allowlist entry for the origin, all addresses public over HTTPS, or loopback
-- for a local name.
abbrev pub IsSafe : Bool → Bool → Origin → List Address → Type 0
IsSafe explicit local o addresses =
    (elem o.host metadata_names ≡ false)
    × (0 < length addresses)
    × All (λ (a : Address). is_blocked a ≡ false) addresses
    × (explicit ≡ false
        → (local ≡ false → (o.scheme ≡ https) × All (λ (a : Address). a.is_global ≡ true) addresses)
          × (local ≡ true → All (λ (a : Address). a.is_loopback ≡ true) addresses))

All-keep {ℓ κ} :
    {A : Type ℓ} (P : A → Type κ) (test : A → Bool) (xs : List A) → All P xs → All P (keep test xs)
All-keep P test [] h = tt
All-keep P test (x ∷ xs) h = elim (Bool-cases (test x)) [
  | inl e ↦ rw e (h.0, All-keep P test xs h.1)
  | inr e ↦ rw e (All-keep P test xs h.1)
]

All-once {κ} : (P : Address → Type κ) (xs : List Address) → All P xs → All P (once xs)
unfolding once
All-once P [] h = tt
All-once P (x ∷ xs) h =
    (h.0, All-keep P (λ (y : Address). not (y.answer == x.answer)) (once xs) (All-once P xs h.1))

-- what an address that passes the checks is like
abbrev Passes : Bool → Bool → Address → Type 0
Passes explicit local a =
    (is_blocked a ≡ false)
    × (explicit ≡ false → local ≡ false → a.is_global ≡ true)
    × (explicit ≡ false → local ≡ true → a.is_loopback ≡ true)

passes_from :
    (explicit local blocked global loop : Bool)
    → (if blocked
        then some blocked_address
        else if not global && not (explicit || local)
        then some internal_address
        else if local && not explicit && not loop
        then some not_local
        else none)
      ≡ none
    → (blocked ≡ false)
      × (explicit ≡ false → local ≡ false → global ≡ true)
      × (explicit ≡ false → local ≡ true → loop ≡ true)
passes_from explicit local blocked global loop h =
    (ground arith, λ e l. ground arith, λ e l. ground arith)

check_address-Passes :
    (explicit local : Bool) (a : Address)
    → check_address explicit local a ≡ none
    → Passes explicit local a
unfolding check_address
check_address-Passes explicit local a h =
    passes_from explicit local (is_blocked a) a.is_global a.is_loopback h

check_addresses-Passes :
    (explicit local : Bool) (xs : List Address)
    → check_addresses explicit local xs ≡ none
    → All (Passes explicit local) xs
unfolding check_addresses
check_addresses-Passes explicit local [] h = tt
check_addresses-Passes explicit local (a ∷ xs) h =
    at_first (check_address explicit local a) refl (check_addresses-Passes explicit local xs) h
  where
    at_first :
        (o : Option PolicyError)
        → check_address explicit local a ≡ o
        → (check_addresses explicit local xs ≡ none → All (Passes explicit local) xs)
        → (elim o [ none ↦ check_addresses explicit local xs | some e ↦ some e ]) ≡ none
        → All (Passes explicit local) (a ∷ xs)
    at_first none q ih k = (check_address-Passes explicit local a q, ih k)
    at_first (some e) q ih k = cc

All-blocked :
    (explicit local : Bool) (xs : List Address)
    → All (Passes explicit local) xs
    → All (λ (a : Address). is_blocked a ≡ false) xs
All-blocked explicit local [] h = tt
All-blocked explicit local (a ∷ xs) h = (h.0.0, All-blocked explicit local xs h.1)

All-global :
    (explicit local : Bool) (xs : List Address)
    → All (Passes explicit local) xs
    → explicit ≡ false
    → local ≡ false
    → All (λ (a : Address). a.is_global ≡ true) xs
All-global explicit local [] h e l = tt
All-global explicit local (a ∷ xs) h e l = (h.0.1 e l, All-global explicit local xs h.1 e l)

All-loopback :
    (explicit local : Bool) (xs : List Address)
    → All (Passes explicit local) xs
    → explicit ≡ false
    → local ≡ true
    → All (λ (a : Address). a.is_loopback ≡ true) xs
All-loopback explicit local [] h e l = tt
All-loopback explicit local (a ∷ xs) h e l = (h.0.2 e l, All-loopback explicit local xs h.1 e l)

-- the scheme check let the destination pass
abbrev Secure : Bool → Bool → Origin → Type 0
Secure explicit local o = (not (scheme_beq o.scheme https) && not (explicit || local)) ≡ false

secure_https :
    (explicit local : Bool) (s : Scheme)
    → (not (scheme_beq s https) && not (explicit || local)) ≡ false
    → explicit ≡ false
    → local ≡ false
    → s ≡ https
secure_https explicit local https h e l = refl
secure_https explicit local http h e l = absurd (clash explicit local h e l)
  where
    clash : (x y : Bool) → (true && not (x || y)) ≡ false → x ≡ false → y ≡ false → ⊥
    clash x y h e l = ground arith

-- the destination, where one is given
abbrev pub Given : (Origin → List Address → Type 0) → Result (Origin × List Address) → Type 0
Given P (raise e) = Unit
Given P (ok (o, addresses)) = P o addresses

resolved-IsSafe :
    (explicit local : Bool) (o : Origin) (answers : Option (List Address))
    → elem o.host metadata_names ≡ false
    → Secure explicit local o
    → Given
        (λ o' addresses. (o' ≡ o) × IsSafe explicit local o' addresses)
        (resolved o explicit local answers)
unfolding once
resolved-IsSafe explicit local o none m s = tt
resolved-IsSafe explicit local o (some []) m s = tt
resolved-IsSafe explicit local o (some (a ∷ xs)) m s =
    at_checks (check_addresses explicit local (a ∷ xs)) refl
  where
    at_checks :
        (c : Option PolicyError)
        → check_addresses explicit local (a ∷ xs) ≡ c
        → Given
            (λ o' addresses. (o' ≡ o) × IsSafe explicit local o' addresses)
            (elim c [ none ↦ ok (o, once (a ∷ xs)) | some e ↦ raise e ])
    at_checks (some e) q = tt
    at_checks none q =
        let passed =
          All-once (Passes explicit local) (a ∷ xs)
            (check_addresses-Passes explicit local (a ∷ xs) q) in
        let checked = once (a ∷ xs) in
        (
          refl,
          (
            m,
            omega arith,
            All-blocked explicit local checked passed,
            λ e. (
              λ l. (
                secure_https explicit local o.scheme s e l,
                All-global explicit local checked passed e l,
              ),
              λ l. All-loopback explicit local checked passed e l,
            ),
          ),
        )

-- A destination that `resolve_destination` gives is of the URL's origin, is not a metadata host and
-- has at least one address, none of them blocked. Where the origin is not in the allowlist: if it
-- is a local name (of the local AI or allowed for development) all addresses are loopback; if not,
-- the scheme is https and all addresses are public.
pub resolve_destination-IsSafe :
    (purpose : Purpose) (allow_loopback : Bool) (url : SplitUrl) (o : Origin)
    (allowlist : List SplitUrl) (allowed : List Origin)
    (lookup_host : Origin → Option (List Address))
    → origin url ≡ ok o
    → allowed_origins allowlist ≡ ok allowed
    → Given
        (λ o' addresses.
          (o' ≡ o)
          × IsSafe
              (any_of (λ (x : Origin). origin_beq x o) allowed)
              (is_local purpose o || is_dev allow_loopback o)
              o'
              addresses)
        (resolve_destination purpose allow_loopback url allowlist lookup_host)
unfolding resolve_destination
resolve_destination-IsSafe purpose allow_loopback url o allowlist allowed lookup_host u a =
    rw (u, a)
      (by_name (elem o.host metadata_names) refl
        (not (scheme_beq o.scheme https) && not (explicit || local)) refl)
  where
    explicit : Bool
    explicit = any_of (λ (x : Origin). origin_beq x o) allowed

    local : Bool
    local = is_local purpose o || is_dev allow_loopback o

    by_name :
        (m : Bool)
        → elem o.host metadata_names ≡ m
        → (s : Bool) → (not (scheme_beq o.scheme https) && not (explicit || local)) ≡ s
        → Given
            (λ o' addresses. (o' ≡ o) × IsSafe explicit local o' addresses)
            (if m
              then raise metadata_host
              else if s
              then raise not_https
              else resolved o explicit local (lookup_host o))
    by_name true e s q = tt
    by_name false e true q = tt
    by_name false e false q = resolved-IsSafe explicit local o (lookup_host o) e q
