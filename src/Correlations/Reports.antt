-- ===== src/Correlations/Reports.antt =====
-- correlations.py: what `_run_threshold` and `_run_fanout` report, against one pass over the rows for each key.
use mathlib.Core.Path.{subst}
use mini_siem.Base.{
  ℕ, ◌≤◌, ◌<◌, ◌≡◌, refl, ap, ◌∙◌, inl, inr, Bool, true, ◌&&◌, ◌||◌, Option, some, List, [], ◌∷◌,
  arith, leb, ◌==◌, nat_eq, string_eq, Bool-cases, length, any_of, All, insert_desc, sort_desc,
  IsDescending, All-sort_desc, sort_desc-IsDescending, Text, text_eq, Dict, lookup, sym,
  Option-cases, or_else,
}
use mini_siem.Correlations.{Row, key_of, hour_ok, group_rows, Column}
use mini_siem.Correlations.Groups.{group_rows-rows_of, rows_of, group_rows-All}
use mini_siem.Correlations.Threshold.{Group, group_of, large, run_threshold}

-- The group tells of all the rows of its key, and there are enough of them.
abbrev pub IsExact : (Text → List Row) → ℕ → Group → Type 0
IsExact rows_for threshold g = (g ≡ group_of g.key (rows_for g.key)) × (threshold ≤ g.count)

large-IsExact :
    (rows_for : Text → List Row) (threshold : ℕ) (d : Dict Text (List Row))
    → All (λ (e : Text × List Row). e.1 ≡ rows_for e.0) d
    → All (IsExact rows_for threshold) (large threshold d)
unfolding large
large-IsExact rows_for threshold [] h = tt
large-IsExact rows_for threshold ((k, xs) ∷ d) h = elim (Bool-cases (leb threshold (length xs))) [
  | inl e ↦ rw e (
    (ap (λ (ys : List Row). group_of k ys) h.0, ground arith),
    large-IsExact rows_for threshold d h.1,
  )
  | inr e ↦ rw e (large-IsExact rows_for threshold d h.1)
]

reported_in : Text → List Group → Bool
reported_in k = any_of (λ (g : Group). g.key == k)

large-reported :
    (k : Text) (threshold : ℕ) (xs : List Row) (d : Dict Text (List Row))
    → lookup k d ≡ some xs
    → threshold ≤ length xs
    → reported_in k (large threshold d) ≡ true
unfolding large reported_in
large-reported k threshold xs [] h le = cc
large-reported k threshold xs ((j, ys) ∷ d) h le = ground (arith, large-reported k threshold xs d)

insert_desc-reported :
    (k : Text) (g : Group) (gs : List Group)
    → reported_in k (insert_desc (λ (x : Group). x.count) g gs) ≡ (g.key == k || reported_in k gs)
unfolding reported_in
insert_desc-reported k g [] = refl
insert_desc-reported k g (x ∷ gs) = ground (arith, insert_desc-reported k g gs)

sort_desc-reported :
    (k : Text) (gs : List Group)
    → reported_in k (sort_desc (λ (x : Group). x.count) gs) ≡ reported_in k gs
unfolding reported_in
sort_desc-reported k [] = refl
sort_desc-reported k (g ∷ gs) =
    insert_desc-reported k g (sort_desc (λ (x : Group). x.count) gs)
    ∙ ap (λ (b : Bool). g.key == k || b) (sort_desc-reported k gs)

module _ (extract_user : Text → Option Text) (pattern : Text → Bool) (group_by : Column)
    (hours : Option (ℕ × ℕ)) where
  -- the rows of a key that match in the allowed hours
  abbrev pub matching : List Row → Text → List Row
  matching rows k =
      rows_of (λ r. pattern r.message && hour_ok hours r) (key_of extract_user group_by) k rows

  -- The report of the threshold correlation is ordered by count, largest first; each group has all
  -- the matching rows of its key, at least the threshold of them; and every key with that many
  -- matching rows, and one at least, is reported.
  pub run_threshold_lem :
      (threshold : ℕ) (rows : List Row)
      → let report = run_threshold extract_user pattern group_by hours threshold rows in
        IsDescending (λ (g : Group). g.count) report
        × All (IsExact (matching rows) threshold) report
        × ((k : Text)
            → threshold ≤ length (matching rows k)
            → 0 < length (matching rows k)
            → any_of (λ (g : Group). g.key == k) report ≡ true)
  unfolding run_threshold reported_in
  run_threshold_lem threshold rows =
      let count = λ (g : Group). g.count in
      let d =
        group_rows (λ (r : Row). pattern r.message && hour_ok hours r)
          (key_of extract_user group_by) rows [] in
      (
        sort_desc-IsDescending count (large threshold d),
        All-sort_desc count (IsExact (matching rows) threshold) (large threshold d) (
            large-IsExact (matching rows) threshold d (
              group_rows-All (λ r. pattern r.message && hour_ok hours r)
                (key_of extract_user group_by) rows)),
        λ k le pos.
            sort_desc-reported k (large threshold d)
            ∙ reported k d le pos (
                group_rows-rows_of (λ r. pattern r.message && hour_ok hours r)
                  (key_of extract_user group_by) k rows []),
      )
    where
      reported :
          (k : Text) (d : Dict Text (List Row))
          → threshold ≤ length (matching rows k)
          → 0 < length (matching rows k)
          → or_else (lookup k d) [] ≡ matching rows k
          → reported_in k (large threshold d) ≡ true
      reported k d le pos eq = elim (Option-cases (lookup k d)) [
        | inl e ↦ ground (
          arith,
          ap (λ (ys : List Row). length ys)
              (sym eq ∙ ap (λ (o : Option (List Row)). or_else o []) e),
        )
        | inr (xs, e) ↦ large-reported k threshold xs d e (
            subst (λ (n : ℕ). threshold ≤ n)
              (ap (λ (ys : List Row). length ys)
                (sym eq ∙ ap (λ (o : Option (List Row)). or_else o []) e))
              le)
      ]
