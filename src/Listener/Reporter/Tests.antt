-- ===== src/Listener/Reporter/Tests.antt =====
-- The reporter at a few records, and the states it shows.
use mini_siem.Base.{
  ℕ, ◌≡◌, refl, true, none, some, List, [], ◌∷◌, arith, string_eq, nat_eq, Text, codes, text_eq,
  lookup,
}
use mini_siem.Listener.Reporter.{
  new_reporter, record_all, ingest_state, Recorded, success, drop_one, failure, degraded,
}
use mini_siem.Listener.Reporter.Peers.{Counts, record_all-Counts}

abbrev records : List (ℕ × Text × Recorded)
records =
    (1, codes "10.0.0.1", success none)
    ∷ (2, codes "10.0.0.2", drop_one)
    ∷ (3, codes "10.0.0.1", failure (some (codes "ValueError")))
    ∷ []

peers_test :
    lookup (codes "10.0.0.1") (record_all records new_reporter).sources
    ≡ some (record { counts = (codes "accepted", 1) ∷ (codes "failed", 1) ∷ []; last_seen = 3 })
unfolding record_all
peers_test = refl

dead_worker : ingest_state (true ∷ true ∷ []) (some (4, 3)) ≡ degraded
dead_worker = refl

record_all-Counts_example : Counts records new_reporter (record_all records new_reporter)
record_all-Counts_example = record_all-Counts records new_reporter (omega arith)
