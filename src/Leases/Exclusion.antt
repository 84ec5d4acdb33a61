-- ===== src/Leases/Exclusion.antt =====
-- leases.py: several processes share one table. No two of them hold the same job at once, as long
-- as the table exists; a job whose lease has run out can be taken over.
use text.Mathlib.TextEquality.{eq_iff}
use mini_siem.Base.{
  ℕ, ◌+◌, ◌≤◌, ◌<◌, String, ◌≡◌, refl, ◌∙◌, ◌≢◌, inl, inr, Bool, true, false, Option, some, arith,
  if◌then◌else◌, ◌==◌, nat_eq, string_eq, Bool-cases, Option-cases, text_eq, lookup, sym, ap, ◌⊎◌,
  Dict, insert, erase, lookup-insert, lookup-erase,
}
use mini_siem.Leases.{
  Lease, Table, new_keeper, claim, hold, holds, release, Outcome, Keeper, expiry, done,
  missing_table, failed, remember,
}
use mini_siem.Leases.Claims.{
  taken, lookup-claim_ne, is_free, claim_lost, lookup-give_back, claim-wins, claim_won,
}

-- The shared clock, the table, and the keeper of each process by its owner name.
pub record System : Type 0 where
  pub clock : ℕ
  pub table : Table
  pub keepers : String → Keeper

abbrev put : (String → Keeper) → String → Keeper → String → Keeper
put ks me k o = if me == o then k else ks o

-- the system after a call of `hold` by `me`, with the clock as the call read it
abbrev pub after_hold : System → String → Outcome → String → ℕ → ℕ → System
after_hold s me out name ttl now =
    let (k, db, _) = hold out name ttl now (s.keepers me) s.table in
    record s { table = db; keepers = put s.keepers me k }

abbrev pub after_release : System → String → Bool → String → System
after_release s me reached name =
    let (k, db) = release reached name (s.keepers me) s.table in
    record s { table = db; keepers = put s.keepers me k }

-- Time passes, and the processes call in any order; a call may work with a clock that it read
-- earlier.
pub data Step (s : System) : System → Type 0 where
  tick : (d : ℕ) → Step s (record s { clock = s.clock + d })
  holding :
      (me : String) (out : Outcome) (name : String) (ttl now : ℕ)
      → now ≤ s.clock
      → Step s (after_hold s me out name ttl now)
  releasing :
      (me : String) (reached : Bool) (name : String) → Step s (after_release s me reached name)

pub data Reach (s : System) : System → Type 0 where
  here : Reach s s
  next : {t u : System} → Reach s t → Step t u → Reach s u

-- Every hold that has not run out is backed by a row of that owner that runs at least as long.
abbrev pub Backed : Table → String → String → ℕ → Type 0
Backed db o name e =
    (row : Lease) × (lookup name db ≡ some row) × (row.owner ≡ o) × (e ≤ row.expires_at)

pub record Inv (s : System) : Type 0 where
  pub owners : (o : String) → (s.keepers o).owner ≡ o
  pub backed :
      (o name : String) (e : ℕ)
      → lookup name (s.keepers o).held ≡ some e
      → s.clock < e
      → Backed s.table o name e

-- Processes that start, over any table.
pub start-Inv :
    (clock : ℕ) (db : Table) → Inv (record { clock = clock; table = db; keepers = new_keeper })
unfolding new_keeper
start-Inv clock db = record { owners = λ o. refl; backed = λ o name e h lt. cc }

claim_kept :
    (db : Table) (me name j : String) (expires now : ℕ) (row : Lease)
    → row.owner ≢ me
    → now ≤ row.expires_at
    → lookup j db ≡ some row
    → lookup j (claim name me expires now db).0 ≡ some row
claim_kept db me name j expires now row ne le found = elim (Bool-cases (name == j)) [
  | inl same ↦
      let e : name ≡ j = (eq_iff name j).0 same in
      let busy : is_free me now (lookup name db) ≡ false =
        rw (e, found) (ground (arith, eq_iff row.owner me)) in
      rw (claim_lost name me expires now db busy) found
  | inr other ↦ lookup-claim_ne name me expires now db j (ground (arith, eq_iff name j)) ∙ found
]

-- A claim leaves alone what another process holds.
claim-Backed :
    (db : Table) (o me name j : String) (e expires now : ℕ)
    → me ≢ o
    → now ≤ e
    → Backed db o j e
    → Backed (claim name me expires now db).0 o j e
claim-Backed db o me name j e expires now ne le (row, found, mine, until) = (
  row,
  claim_kept db me name j expires now row (λ p. ne (sym p ∙ mine)) (omega arith) found,
  mine,
  until,
)

-- So do `hold`, with whatever outcome, and `release`.
hold-Backed :
    (out : Outcome) (name j o : String) (ttl now e : ℕ) (k : Keeper) (db : Table)
    → k.owner ≢ o
    → now ≤ e
    → Backed db o j e
    → Backed (hold out name ttl now k db).1 o j e
unfolding hold
hold-Backed done name j o ttl now e k db ne le b =
    claim-Backed db o k.owner name j e (expiry now ttl) now ne le b
hold-Backed missing_table name j o ttl now e k db ne le b = b
hold-Backed (failed true) name j o ttl now e k db ne le b =
    claim-Backed db o k.owner name j e (expiry now ttl) now ne le b
hold-Backed (failed false) name j o ttl now e k db ne le b = b

release-Backed :
    (reached : Bool) (name j o : String) (e : ℕ) (k : Keeper) (db : Table)
    → k.owner ≢ o
    → Backed db o j e
    → Backed (release reached name k db).1 o j e
unfolding release
release-Backed reached name j o e k db ne (row, found, mine, until) = (
  row,
  ground (
    arith,
    found,
    lookup-give_back name k.owner j db,
    eq_iff row.owner k.owner,
    λ (p : row.owner ≡ k.owner). ne (sym p ∙ mine),
  ),
  mine,
  until,
)

lookup-erase-some :
    (name j : String) (e : ℕ) (d : Dict String ℕ)
    → lookup j (erase name d) ≡ some e
    → (name ≢ j) × (lookup j d ≡ some e)
lookup-erase-some name j e d h = ground (arith, lookup-erase name j d, eq_iff name j)

lookup-insert-some :
    (name j : String) (v e : ℕ) (d : Dict String ℕ)
    → lookup j (insert name v d) ≡ some e
    → ((name ≡ j) × (v ≡ e)) ⊎ ((name ≢ j) × (lookup j d ≡ some e))
lookup-insert-some name j v e d h = ground (arith, lookup-insert name j v d, eq_iff name j)

-- The caller's own holds stay backed: a claim that wins backs the new one, a claim that loses or
-- fails drops it.
module _ (name j : String) (ttl now e : ℕ) (k : Keeper) (db : Table) where
  claim-Backed_ne :
      name ≢ j
      → Backed db k.owner j e
      → Backed (claim name k.owner (expiry now ttl) now db).0 k.owner j e
  claim-Backed_ne ne (row, found, mine, until) =
      (row, lookup-claim_ne name k.owner (expiry now ttl) now db j ne ∙ found, mine, until)

  claim-Backed_self :
      (won : Bool)
      → (claim name k.owner (expiry now ttl) now db).1 ≡ won
      → is_free k.owner now (lookup name db) ≡ won
      → (lookup j k.held ≡ some e → Backed db k.owner j e)
      → lookup j (remember won name (expiry now ttl) k).held ≡ some e
      → Backed (claim name k.owner (expiry now ttl) now db).0 k.owner j e
  claim-Backed_self true w f old h = elim (lookup-insert-some name j (expiry now ttl) e k.held h) [
    | inl (nj, ve) ↦ (
      taken k.owner (expiry now ttl) now (lookup name db),
      rw (← nj) (claim_won name k.owner (expiry now ttl) now db f),
      refl,
      omega arith,
    )
    | inr (ne, there) ↦ claim-Backed_ne ne (old there)
  ]
  claim-Backed_self false w f old h =
      claim-Backed_ne (lookup-erase-some name j e k.held h).0
        (old (lookup-erase-some name j e k.held h).1)

  hold-Backed_self :
      (out : Outcome)
      → (lookup j k.held ≡ some e → Backed db k.owner j e)
      → lookup j (hold out name ttl now k db).0.held ≡ some e
      → Backed (hold out name ttl now k db).1 k.owner j e
  unfolding hold
  hold-Backed_self done old h =
      claim-Backed_self (claim name k.owner (expiry now ttl) now db).1 refl
        (sym (claim-wins name k.owner (expiry now ttl) now db)) old h
  hold-Backed_self missing_table old h = old h
  hold-Backed_self (failed true) old h =
      claim-Backed_ne (lookup-erase-some name j e k.held h).0
        (old (lookup-erase-some name j e k.held h).1)
  hold-Backed_self (failed false) old h = old (lookup-erase-some name j e k.held h).1

  release-Backed_self :
      (reached : Bool)
      → (lookup j k.held ≡ some e → Backed db k.owner j e)
      → lookup j (release reached name k db).0.held ≡ some e
      → Backed (release reached name k db).1 k.owner j e
  unfolding release
  release-Backed_self reached old h =
      let (ne, there) = lookup-erase-some name j e k.held h in
      let (row, found, mine, until) = old there in
      (
        row,
        ground (
          arith,
          found,
          lookup-give_back name k.owner j db,
          eq_iff j name,
          eq_iff name j,
          λ (p : name ≡ j). ne p,
        ),
        mine,
        until,
      )

hold-owner :
    (out : Outcome) (name : String) (ttl now : ℕ) (k : Keeper) (db : Table)
    → (hold out name ttl now k db).0.owner ≡ k.owner
unfolding hold
hold-owner out name ttl now k db = ground arith

-- The keeper of `o` after one of `me` was put in: the new one, or its own.
put-cases {ℓ} :
    (ks : String → Keeper) (me : String) (k : Keeper) (o : String) (P : Keeper → Type ℓ)
    → (me ≡ o → P k)
    → (me ≢ o → P (ks o))
    → P (put ks me k o)
put-cases ks me k o P self other = elim (Bool-cases (me == o)) [
  | inl e ↦ rw e (self ((eq_iff me o).0 e))
  | inr e ↦ rw e (other (ground (arith, eq_iff me o)))
]

Step-Inv : {s t : System} → Inv s → Step s t → Inv t
Step-Inv i (tick d) = record {
  owners = i.owners;
  backed = λ o name e h lt. i.backed o name e h (omega arith);
}
Step-Inv {s} i (holding me out name ttl now le) =
    let k = s.keepers me in
    let k' = (hold out name ttl now k s.table).0 in
    record {
      owners = λ o.
          put-cases s.keepers me k' o (λ x. x.owner ≡ o)
            (λ same. hold-owner out name ttl now k s.table ∙ i.owners me ∙ same) (λ ne. i.owners o);
      backed = λ o j e.
          put-cases s.keepers me k' o
            (λ x.
              lookup j x.held ≡ some e
              → s.clock < e
              → Backed (hold out name ttl now k s.table).1 o j e)
            (λ same h lt. rw (← (i.owners me ∙ same)) (
              hold-Backed_self name j ttl now e k s.table out
                (λ there. rw (i.owners me) (i.backed me j e there lt)) h))
            (λ ne h lt.
              hold-Backed out name j o ttl now e k s.table (λ p. ne (sym (i.owners me) ∙ p))
                (omega arith) (i.backed o j e h lt));
    }
Step-Inv {s} i (releasing me reached name) =
    let k = s.keepers me in
    let k' = (release reached name k s.table).0 in
    record {
      owners = λ o.
          put-cases s.keepers me k' o (λ x. x.owner ≡ o)
            (unfold release in λ same. i.owners me ∙ same) (λ ne. i.owners o);
      backed = λ o j e.
          put-cases s.keepers me k' o
            (λ x.
              lookup j x.held ≡ some e
              → s.clock < e
              → Backed (release reached name k s.table).1 o j e)
            (λ same h lt. rw (← (i.owners me ∙ same)) (
              release-Backed_self name j 0 0 e k s.table reached
                (λ there. rw (i.owners me) (i.backed me j e there lt)) h))
            (λ ne h lt.
              release-Backed reached name j o e k s.table (λ p. ne (sym (i.owners me) ∙ p))
                (i.backed o j e h lt));
    }

pub Reach-Inv : {s t : System} → Inv s → Reach s t → Inv t
Reach-Inv i here = i
Reach-Inv i (next r st) = Step-Inv (Reach-Inv i r) st

holds-held :
    (k : Keeper) (name : String) (now : ℕ)
    → k.unavailable ≡ false
    → holds name now k ≡ true
    → (e : ℕ) × (lookup name k.held ≡ some e) × (now < e)
unfolding holds
holds-held k name now u h = elim (Option-cases (lookup name k.held)) [
  | inl e ↦ absurd (ground (arith, e))
  | inr (x, e) ↦ (x, e, ground (arith, e))
]

one_row : {o : Option Lease} {r r' : Lease} → o ≡ some r → o ≡ some r' → r ≡ r'
one_row p q = cc

-- Two processes with the table at hand never both hold one job.
pub one_holder :
    {s t : System} (name a b : String)
    → Inv s
    → Reach s t
    → (t.keepers a).unavailable ≡ false
    → (t.keepers b).unavailable ≡ false
    → holds name t.clock (t.keepers a) ≡ true
    → holds name t.clock (t.keepers b) ≡ true
    → a ≡ b
one_holder {t} name a b i r ua ub ha hb =
    let (x, ex, lx) = holds-held (t.keepers a) name t.clock ua ha in
    let (y, ey, ly) = holds-held (t.keepers b) name t.clock ub hb in
    let (row, found, mine, _) = (Reach-Inv i r).backed a name x ex lx in
    let (row', found', mine', _) = (Reach-Inv i r).backed b name y ey ly in
    sym mine ∙ ap (λ (x : Lease). x.owner) (one_row found found') ∙ mine'
