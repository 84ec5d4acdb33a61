-- ===== src/Leases.antt =====
-- leases.py: a background job runs in one process at a time. A row of `worker_leases` names the
-- holder of a job and when the hold ends; a `LeaseKeeper` is one process's view of it.
--
-- Times are whole milliseconds of one clock, which the hosts are expected to share. `Outcome` is
-- what the database makes of a call: the driver is not part of the repository.
pub mod Exclusion
pub mod Claims
pub mod Handover
mod Tests
use mini_siem.Base.{
  ℕ, ◌+◌, ◌-◌, max, String, Bool, true, false, ◌||◌, Option, none, some, List, [], ◌∷◌, ltb,
  if◌then◌else◌, ◌==◌, nat_eq, string_eq, or_else, keep, text_eq, Dict, lookup, insert, erase,
  contains,
}

-- a row of `worker_leases`, under its name
pub record Lease : Type 0 where
  pub owner : String
  pub expires_at : ℕ
  pub acquired_at : ℕ
  pub renewed_at : ℕ

abbrev pub Table : Type 0
Table = Dict String Lease

-- `done`: the statements ran and were committed. `missing_table`: they raised the error that
-- `_missing_table` recognises. `failed`: anything else was raised; the flag tells whether the
-- database had committed all the same, as when the answer to the commit is lost.
pub data Outcome : Type 0 where
  done missing_table : Outcome
  failed : Bool → Outcome

pub record Keeper : Type 0 where
  pub owner : String
  pub held : Dict String ℕ
  pub unavailable : Bool
  pub last_error : Bool

unfoldable pub new_keeper : String → Keeper
new_keeper owner = record { owner = owner; held = []; unavailable = false; last_error = false }

-- `INSERT ... ON CONFLICT(name) DO NOTHING`
unfoldable pub insert_if_absent : String → Lease → Table → Table
insert_if_absent name row db = if contains name db then db else insert name row db

-- the columns that the UPDATE of `hold` sets on its one row, or `none` where its WHERE fails
unfoldable pub renew : String → ℕ → ℕ → Lease → Option Lease
renew me expires now row =
    if row.owner == me || ltb row.expires_at now
    then some (record {
      owner = me;
      expires_at = expires;
      acquired_at = if row.owner == me then row.acquired_at else now;
      renewed_at = now;
    })
    else none

-- the UPDATE: the new table and whether `rowcount` is 1
abbrev pub write_back : String → Table → Option Lease → Table × Bool
write_back name db none = (db, false)
write_back name db (some row) = (insert name row db, true)

abbrev pub renew_at : String → ℕ → ℕ → Option Lease → Option Lease
renew_at me expires now none = none
renew_at me expires now (some row) = renew me expires now row

-- both statements of `hold`
unfoldable pub claim : String → String → ℕ → ℕ → Table → Table × Bool
unfolding insert_if_absent renew
claim name me expires now db =
    let fresh : Lease = record {
      owner = me;
      expires_at = expires;
      acquired_at = now;
      renewed_at = now;
    } in
    let db' = insert_if_absent name fresh db in
    write_back name db' (renew_at me expires now (lookup name db'))

-- `now + max(1.0, ttl)`
abbrev pub expiry : ℕ → ℕ → ℕ
expiry now ttl = now + max 1000 ttl

-- `_held[name] = expires`, or `_held.pop(name, None)`
abbrev pub remember : Bool → String → ℕ → Keeper → Keeper
remember true name expires k = record k { held = insert name expires k.held }
remember false name expires k = record k { held = erase name k.held }

-- `LeaseKeeper.hold`: the keeper, the table and the answer
unfoldable pub hold : Outcome → String → ℕ → ℕ → Keeper → Table → Keeper × Table × Bool
unfolding claim
hold done name ttl now k db =
    let (db', held) = claim name k.owner (expiry now ttl) now db in
    (remember held name (expiry now ttl) k, db', held)
hold missing_table name ttl now k db = (record k { unavailable = true }, db, true)
hold (failed committed) name ttl now k db = (
  remember false name (expiry now ttl) (record k { last_error = true }),
  (if committed then (claim name k.owner (expiry now ttl) now db).0 else db),
  false,
)

-- `LeaseKeeper.holds`: `self._held.get(name, 0) > self.clock()`
unfoldable pub holds : String → ℕ → Keeper → Bool
holds name now k = k.unavailable || ltb now (or_else (lookup name k.held) 0)

abbrev pub expire : String → Lease → Lease
expire me row = if row.owner == me then record row { expires_at = 0 } else row

-- `UPDATE worker_leases SET expires_at=0 WHERE name=? AND owner=?`
unfoldable pub give_back : String → String → Table → Table
give_back name me [] = []
give_back name me ((j, row) ∷ db) =
    (j, (if j == name then expire me row else row)) ∷ give_back name me db

-- `LeaseKeeper.release`: the flag tells whether the statement reached the database
unfoldable pub release : Bool → String → Keeper → Table → Keeper × Table
unfolding give_back
release reached name k db = (
  record k { held = erase name k.held },
  (if k.unavailable then db else if reached then give_back name k.owner db else db),
)

-- `LeaseKeeper.release_all` over the names held when it was called
unfoldable pub release_names : Bool → List String → Keeper → Table → Keeper × Table
unfolding release
release_names reached [] k db = (k, db)
release_names reached (n ∷ ns) k db =
    let (k', db') = release reached n k db in release_names reached ns k' db'

abbrev pub keys : Dict String ℕ → List String
keys [] = []
keys ((k, v) ∷ d) = k ∷ keys d

unfoldable pub release_all : Bool → Keeper → Table → Keeper × Table
unfolding release_names
release_all reached k db = release_names reached (keys k.held) k db
