-- ===== src/Leases/Tests.antt =====
-- leases.py at a small table.
use mini_siem.Base.{
  String, ◌≡◌, refl, true, false, [], ◌∷◌, arith, nat_eq, string_eq, text_eq, lookup,
}
use mini_siem.Leases.{
  Lease, new_keeper, hold, holds, release, done, insert_if_absent, renew, claim, missing_table,
}
use mini_siem.Leases.Claims.{is_free}
use mini_siem.Leases.Exclusion.{
  System, after_hold, start-Inv, one_holder, Reach, holding, here, next,
}
use mini_siem.Leases.Handover.{hold-done_lem, release_frees}

abbrev empty : System
empty = record { clock = 5000; table = []; keepers = new_keeper }

abbrev first : System
first = after_hold empty "a" done "tickets" 60000 5000

abbrev second : System
second = after_hold first "b" done "tickets" 60000 4000

run_second :
    ((hold done "tickets" 60000 4000 (first.keepers "b") first.table).2 ≡ false)
    × (holds "tickets" 5000 (second.keepers "a") ≡ true)
unfolding hold holds new_keeper
run_second = (refl, refl)

reached : Reach empty second
reached =
    next (next here (holding "a" done "tickets" 60000 5000 (omega arith)))
      (holding "b" done "tickets" 60000 4000 (omega arith))

one_holder_example : ◌≡◌ {A = String} "a" "a"
unfolding hold holds new_keeper
one_holder_example = one_holder "tickets" "a" "a" (start-Inv 5000 []) reached refl refl refl refl

hold-done_example :
    ((hold done "tickets" 60000 4000 (new_keeper "b") []).2 ≡ true)
    × (holds "tickets" 4000 (hold done "tickets" 60000 4000 (new_keeper "b") []).0
        ≡ (hold done "tickets" 60000 4000 (new_keeper "b") []).2)
unfolding new_keeper
hold-done_example = hold-done_lem "tickets" 60000 4000 (new_keeper "b") [] refl

abbrev lease : Lease
lease = record { owner = "a"; expires_at = 65000; acquired_at = 5000; renewed_at = 5000 }

-- A keeper that once met a missing table shows every job as held, also one that another process holds.
unavailable_holds :
    let k = (hold missing_table "tickets" 60000 4000 (new_keeper "b") []).0 in
    let (k', db', won) = hold done "tickets" 60000 5000 k (("tickets", lease) ∷ []) in
    (won ≡ false) × (holds "tickets" 5000 k' ≡ true)
unfolding hold holds new_keeper claim insert_if_absent renew
unavailable_holds = (refl, refl)

release_frees_example :
    let (k', db') = release true "tickets" (new_keeper "a") (("tickets", lease) ∷ []) in
    (is_free "b" 6000 (lookup "tickets" db') ≡ true) × (holds "tickets" 6000 k' ≡ false)
unfolding new_keeper
release_frees_example =
    release_frees "tickets" "b" 6000 (new_keeper "a") (("tickets", lease) ∷ []) refl refl refl
      (omega arith)
