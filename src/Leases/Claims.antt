-- ===== src/Leases/Claims.antt =====
-- leases.py: what one claim or release does to the rows of the table.
use text.Mathlib.TextEquality.{eq_iff}
use mini_siem.Base.{
  ℕ, String, ◌≡◌, ◌≢◌, inl, inr, Bool, true, false, ◌||◌, Option, none, some, [], ◌∷◌, arith, ltb,
  if◌then◌else◌, ◌==◌, nat_eq, string_eq, Option-cases, text_eq, lookup, insert, lookup-insert,
}
use mini_siem.Leases.{Lease, Table, claim, expire, give_back}

-- Whether a claim by `me` may take the row: there is none, it is its own, or it has run out.
abbrev pub is_free : String → ℕ → Option Lease → Bool
is_free me now none = true
is_free me now (some row) = row.owner == me || ltb row.expires_at now

-- `acquired_at` after a claim that wins: kept by a renewal, set by a new holder.
abbrev pub acquired : String → ℕ → Option Lease → ℕ
acquired me now none = now
acquired me now (some row) = if row.owner == me then row.acquired_at else now

-- The row after a claim that wins.
abbrev pub taken : String → ℕ → ℕ → Option Lease → Lease
taken me expires now old = record {
  owner = me;
  expires_at = expires;
  acquired_at = acquired me now old;
  renewed_at = now;
}

module _ (name me : String) (expires now : ℕ) (db : Table) where
  -- A claim wins exactly when the row is free for it.
  pub claim-wins : (claim name me expires now db).1 ≡ is_free me now (lookup name db)
  unfolding claim
  claim-wins = elim (Option-cases (lookup name db)) [
    | inl e ↦ ground (
      arith,
      e,
      eq_iff me me,
      eq_iff name name,
      lookup-insert name name (taken me expires now none) db,
    )
    | inr (row, e) ↦ ground (arith, e)
  ]

  pub claim_won :
      is_free me now (lookup name db) ≡ true
      → lookup name (claim name me expires now db).0 ≡ some (taken me expires now (lookup name db))
  unfolding claim
  claim_won h = elim (Option-cases (lookup name db)) [
    | inl e ↦ ground (
      arith,
      e,
      eq_iff me me,
      eq_iff name name,
      lookup-insert name name (taken me expires now none) db,
      lookup-insert name name (taken me expires now none)
          (insert name (taken me expires now none) db),
    )
    | inr (row, e) ↦
        ground
          (arith, e, eq_iff name name, lookup-insert name name (taken me expires now (some row)) db)
  ]

  pub claim_lost : is_free me now (lookup name db) ≡ false → (claim name me expires now db).0 ≡ db
  unfolding claim
  claim_lost h = ground arith

  pub lookup-claim_ne :
      (j : String) → name ≢ j → lookup j (claim name me expires now db).0 ≡ lookup j db
  unfolding claim
  lookup-claim_ne j ne = elim (Option-cases (lookup name db)) [
    | inl e ↦ ground (
      arith,
      e,
      eq_iff me me,
      eq_iff name name,
      eq_iff name j,
      lookup-insert name name (taken me expires now none) db,
      lookup-insert name j (taken me expires now none) db,
      lookup-insert name j (taken me expires now none) (insert name (taken me expires now none) db),
    )
    | inr (row, e) ↦
        ground (arith, e, eq_iff name j, lookup-insert name j (taken me expires now (some row)) db)
  ]

abbrev pub given_back : String → String → Option Lease → Option Lease
given_back name me none = none
given_back name me (some row) = some (expire me row)

pub lookup-give_back :
    (name me j : String) (db : Table)
    → lookup j (give_back name me db)
      ≡ (if j == name then given_back name me (lookup j db) else lookup j db)
unfolding give_back
lookup-give_back name me j [] = ground arith
lookup-give_back name me j ((i, row) ∷ db) =
    ground (arith, eq_iff i j, eq_iff i name, eq_iff j name, lookup-give_back name me j db)
