-- ===== src/Correlations/Tests.antt =====
-- correlations.py at concrete rows.
use mini_siem.Base.{
  ℕ, ◌≤◌, ◌<◌, String, ◌≡◌, refl, Bool, true, false, Option, none, some, List, [], ◌∷◌, map, ◌==◌,
  nat_eq, string_eq, length, any_of, All, IsDescending, Text, codes, text_eq, arith,
}
use mini_siem.Correlations.{Row, source_ip}
use mini_siem.Correlations.Threshold.{Group, run_threshold}
use mini_siem.Correlations.Reports.{matching, IsExact, run_threshold_lem}
use mini_siem.Correlations.Sequence.{Marked, sequence_step, sequence_loop, Burst}
use mini_siem.Correlations.Bursts.{Explained, sequence_loop-Explained}

abbrev no_user : Text → Option Text
no_user _ = none

abbrev any_text : Text → Bool
any_text _ = true

abbrev row_at : ℕ → ℕ → String → Row
row_at n t ip = record {
  id = n;
  received_at = some t;
  hour = 3;
  source_ip = some (codes ip);
  hostname = none;
  destination = none;
  message = codes "login";
  other_column = none;
}

abbrev three : List Row
three = row_at 1 10 "10.0.0.1" ∷ row_at 2 20 "10.0.0.2" ∷ row_at 3 30 "10.0.0.1" ∷ []

run_threshold_lem_example :
    let report = run_threshold no_user any_text source_ip none 2 three in
    IsDescending (λ (g : Group). g.count) report
    × All (IsExact (matching no_user any_text source_ip none three) 2) report
    × ((k : Text)
        → 2 ≤ length (matching no_user any_text source_ip none three k)
        → 0 < length (matching no_user any_text source_ip none three k)
        → any_of (λ (g : Group). g.key == k) report ≡ true)
run_threshold_lem_example = run_threshold_lem no_user any_text source_ip none 2 three

abbrev marked : ℕ → ℕ → Bool → Bool → Marked
marked n t a b = record { row = row_at n t "10.0.0.1"; is_a = a; is_b = b }

abbrev attack : List Marked
attack =
    marked 1 10 true false
    ∷ marked 2 20 true false
    ∷ marked 3 30 false true
    ∷ marked 4 31 false true
    ∷ []

attack_found :
    map (λ (b : Burst). b.log_ids) (sequence_loop 2 600 attack []) ≡ (1 ∷ 2 ∷ 3 ∷ []) ∷ []
unfolding sequence_loop sequence_step
attack_found = refl

sequence_loop-Explained_example : Explained 2 600 [] attack (sequence_loop 2 600 attack [])
sequence_loop-Explained_example =
    sequence_loop-Explained 2 600 attack (omega arith)
      (omega arith, (omega arith, (omega arith, (omega arith, tt))))
