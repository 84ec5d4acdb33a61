-- ===== src/Leases/Handover.antt =====
-- leases.py: how a job passes from one process to the next: by a claim that wins, by the end of the
-- lease, by a release.
use text.Mathlib.TextEquality.{eq_iff}
use mini_siem.Base.{
  ℕ, ◌<◌, String, ◌≡◌, refl, Bool, true, false, none, some, List, [], ◌∷◌, arith, if◌then◌else◌,
  nat_eq, string_eq, text_eq, Dict, lookup, lookup-insert, lookup-erase, elem,
}
use mini_siem.Leases.{
  Lease, Table, claim, expiry, remember, hold, holds, release, release_names, keys, release_all,
  Keeper, done,
}
use mini_siem.Leases.Claims.{is_free, claim-wins, lookup-give_back}

module _ (name : String) (ttl now : ℕ) (k : Keeper) (db : Table) where
  remember-holds :
      (won : Bool)
      → k.unavailable ≡ false
      → holds name now (remember won name (expiry now ttl) k) ≡ won
  unfolding holds
  remember-holds true u =
      ground (arith, lookup-insert name name (expiry now ttl) k.held, eq_iff name name)
  remember-holds false u = ground (arith, lookup-erase name name k.held, eq_iff name name)

  -- Of a keeper that has met no missing table so far: a call of `hold` that reaches the table answers yes exactly when there is no row, the row is
  -- the caller's own or it has run out; and `holds` then gives the same answer as `hold`.
  pub hold-done_lem :
      k.unavailable ≡ false
      → ((hold done name ttl now k db).2 ≡ is_free k.owner now (lookup name db))
        × (holds name now (hold done name ttl now k db).0 ≡ (hold done name ttl now k db).2)
  unfolding hold
  hold-done_lem u = (
    claim-wins name k.owner (expiry now ttl) now db,
    remember-holds (claim name k.owner (expiry now ttl) now db).1 u,
  )

-- A release that reaches the table frees the job for every process at once, and the releasing
-- process does not hold it any more.
pub release_frees :
    (name other : String) (now : ℕ) (k : Keeper) (db : Table) {row : Lease}
    → k.unavailable ≡ false
    → lookup name db ≡ some row
    → row.owner ≡ k.owner
    → 0 < now
    → let (k', db') = release true name k db in
      (is_free other now (lookup name db') ≡ true) × (holds name now k' ≡ false)
unfolding release holds
release_frees name other now k db {row} u found mine pos = (
  ground (
    arith,
    found,
    lookup-give_back name k.owner name db,
    eq_iff name name,
    eq_iff row.owner k.owner,
  ),
  ground (arith, lookup-erase name name k.held, eq_iff name name),
)

lookup-release_names :
    (reached : Bool) (ns : List String) (j : String) (k : Keeper) (db : Table)
    → lookup j (release_names reached ns k db).0.held
      ≡ (if elem j ns then none else lookup j k.held)
unfolding release_names release
lookup-release_names reached [] j k db = refl
lookup-release_names reached (n ∷ ns) j k db =
    let (k', db') = release reached n k db in
    ground (arith, lookup-release_names reached ns j k' db', lookup-erase n j k.held)

lookup-keys : (j : String) (d : Dict String ℕ) → elem j (keys d) ≡ false → lookup j d ≡ none
lookup-keys j [] h = refl
lookup-keys j ((i, v) ∷ d) h = ground (arith, lookup-keys j d)

-- `release_all` leaves no job held.
pub release_all-holds :
    (reached : Bool) (name : String) (now : ℕ) (k : Keeper) (db : Table)
    → (release_all reached k db).0.unavailable ≡ false
    → holds name now (release_all reached k db).0 ≡ false
unfolding release_all holds
release_all-holds reached name now k db u =
    ground (arith, lookup-release_names reached (keys k.held) name k db, lookup-keys name k.held)
