-- ===== src/Listener/Storage/Tests.antt =====
-- `Storage` over a database that holds the ids in two lists and refuses some events.
use mathlib.Core.List.{append_assoc, append-nil}
use mini_siem.Base.{
  ℕ, suc, ◌≡◌, refl, sym, inl, Bool, true, false, Option, none, some, List, [], ◌∷◌, ◌++◌, arith,
  string_eq, nat_eq, text_eq,
}
use mini_siem.Listener.Storage.{
  Storage, log_call, alert_call, flush_call, AfterInsert, new_storage, insert_log, insert_log_batch,
  close, run, Database, IsTransactional,
}
use mini_siem.Listener.Storage.Durability.{Kept, Outcome, insert_log-Outcome}
use mini_siem.Listener.Storage.Runs.{
  run-new_storage, BatchOutcome, insert_log_batch-BatchOutcome, close-durable,
}

record Lists : Type 0 where
  saved : List ℕ
  waiting : List ℕ
  next_id : ℕ

abbrev all_ids : Lists → List ℕ
all_ids c = c.saved ++ c.waiting

abbrev insert_id : Lists → Bool → Lists × Option ℕ
insert_id c true =
    (record c { waiting = c.waiting ++ c.next_id ∷ []; next_id = suc c.next_id }, some c.next_id)
insert_id c false = (c, none)

-- An event is `false` where its row is refused.
abbrev lists : Database
lists = record {
  Conn = Lists;
  Event = Bool;
  has_fields = λ e. true;
  insert_returning_id = insert_id;
  write_fields = λ c id e. (c, true);
  append_projection = λ c id e. (c, true);
  insert_alert_row = λ c. (c, some 0);
  commit = λ c. (record c { saved = all_ids c; waiting = [] }, true);
  rollback = λ c. record c { waiting = [] };
  close_conn = λ c. c;
  stored = all_ids;
  durable = λ c. c.saved;
}

lists-IsTransactional : IsTransactional lists
lists-IsTransactional = record {
  inserts = inserted;
  writes_fields = λ c id e. (refl, refl);
  appends = λ c id e. (refl, refl);
  alerts = λ c. (refl, refl);
  commits = λ c. (refl, append-nil (all_ids c));
  rolls_back = λ c. (refl, append-nil c.saved);
  closes = λ c. refl;
}
  where
    inserted : (c : Lists) (e : Bool) → AfterInsert lists c (insert_id c e)
    inserted c true = (refl, sym (append_assoc c.saved c.waiting (c.next_id ∷ [])))
    inserted c false = (refl, inl refl)

abbrev empty : Lists
empty = record { saved = []; waiting = []; next_id = 1 }

-- batches of three, no delay
abbrev batching : Storage lists
batching = new_storage lists (some 3) (some 0) 0 empty

-- one log waits
abbrev one_late : Storage lists
one_late = record {
  conn = record { saved = 7 ∷ []; waiting = 8 ∷ []; next_id = 9 };
  commit_batch_size = 3;
  commit_max_delay_ms = 0;
  pending = 1;
  last_commit = 0;
}

one_late-Kept : Kept lists lists-IsTransactional one_late
one_late-Kept = ((8 ∷ [], refl, omega arith), omega arith)

-- Every third log commits.
third_commits :
    (run lists
      ((1, log_call true) ∷ (2, log_call true) ∷ (3, log_call true) ∷ [])
      batching).conn.saved
    ≡ 1 ∷ 2 ∷ 3 ∷ []
unfolding run
third_commits = refl

-- A log that is refused takes with it those that wait.
refused_takes_others :
    (run lists ((1, log_call true) ∷ (2, log_call false) ∷ (3, flush_call) ∷ []) batching).conn
    ≡ record { saved = []; waiting = []; next_id = 2 }
unfolding run
refused_takes_others = refl

insert_log-Outcome_example :
    Outcome lists lists-IsTransactional one_late (insert_log lists 5 false one_late)
insert_log-Outcome_example =
    insert_log-Outcome lists lists-IsTransactional 5 false one_late one_late-Kept

batch_test :
    BatchOutcome lists lists-IsTransactional one_late
      (insert_log_batch lists 5 (true ∷ true ∷ []) one_late)
batch_test =
    insert_log_batch-BatchOutcome lists lists-IsTransactional 5 (true ∷ true ∷ []) one_late
      one_late-Kept

run-new_storage_example :
    Kept lists lists-IsTransactional
      (run lists ((1, log_call true) ∷ (2, log_call false) ∷ (3, alert_call) ∷ []) batching)
run-new_storage_example =
    run-new_storage lists lists-IsTransactional
      ((1, log_call true) ∷ (2, log_call false) ∷ (3, alert_call) ∷ []) (some 3) (some 0) 0 empty
      refl

close_test : (close lists 6 one_late).0.conn.saved ≡ 7 ∷ 8 ∷ []
unfolding close
close_test = close-durable lists lists-IsTransactional 6 one_late one_late-Kept refl
